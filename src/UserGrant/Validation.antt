-- ===== src/UserGrant/Validation.antt =====
-- What `Validate` of platform/user-grant/grant.go keeps out of the page.
use Prim.Native.Char.{Char, code}
use Prim.Native.String.{[] as nil, ◌∷◌ as cons}
use homeworld.Common.{
  ℕ, String, ◌≡◌, refl, ◌≢◌, inl, inr, Bool, true, false, not, ◌&&◌, List, [], ◌∷◌, arith, ◌==◌,
  eq_iff, eqb, Bool-cases, ok, >>=-eq-ok, guard-eq-ok, All,
}
use homeworld.Util.RemoteAddress.{contains}
use homeworld.UserGrant.{
  is_allowed, matches_all, matches_whitelist, validate_charset, validate_all, validate, fields,
  Response,
}

-- A text that can stand between quotes in a line of YAML: it is not empty, and has no quote, no
-- backslash and no end of a line.
abbrev pub IsPlain : String → Type 0
IsPlain s = (s ≢ "") × (contains b'"' s ≡ false) × (contains 92 s ≡ false) × (contains 10 s ≡ false)

matches_all-cons :
    (c : Char) (s : String)
    → matches_all (cons c s) ≡ true
    → (is_allowed (code c) ≡ true) × (matches_all s ≡ true)
unfolding matches_all
matches_all-cons c s k = elim (Bool-cases (is_allowed (code c))) [
  | inl fine ↦ (fine, rw fine at k)
  | inr bad ↦ let e = rw bad at k in cc
]

other_code : (m n : ℕ) → is_allowed m ≡ true → is_allowed n ≡ false → eqb m n ≡ false
other_code m n h k = elim (Bool-cases (eqb m n)) [
  | inr other ↦ other
  | inl same ↦ let e : m ≡ n = ground arith in cc
]

matches_all-contains :
    (n : ℕ) (s : String) → is_allowed n ≡ false → matches_all s ≡ true → contains n s ≡ false
unfolding contains
matches_all-contains n nil h k = refl
matches_all-contains n (cons c s) h k =
    let (fine, rest) = matches_all-cons c s k in
    let other : eqb (code c) n ≡ false = other_code (code c) n fine h in
    rw other (matches_all-contains n s h rest)

and_parts : (a b : Bool) → (not a && b) ≡ true → (a ≡ false) × (b ≡ true)
and_parts a b h = (ground arith, ground arith)

matches_whitelist-IsPlain : (s : String) → matches_whitelist s ≡ true → IsPlain s
unfolding matches_whitelist
matches_whitelist-IsPlain s h =
    let all : matches_all s ≡ true = (and_parts (s == "") (matches_all s) h).1 in
    (
      λ e. let k = (eq_iff s "").1 e in let l = (and_parts (s == "") (matches_all s) h).0 in cc,
      matches_all-contains b'"' s (unfold is_allowed in refl) all,
      matches_all-contains 92 s (unfold is_allowed in refl) all,
      matches_all-contains 10 s (unfold is_allowed in refl) all,
    )

validate_all-ok : (l : List String) {u : Unit {0}} → validate_all l ≡ ok u → All IsPlain l
unfolding validate_all
validate_all-ok [] h = tt
validate_all-ok (s ∷ l) h =
    let (_, rest, fine) = >>=-eq-ok (validate_charset s) _ h in
    (
      matches_whitelist-IsPlain s
          (unfold validate_charset in guard-eq-ok (matches_whitelist s) _ fine),
      validate_all-ok l rest,
    )

pub validate-IsPlain : (r : Response) {u : Unit {0}} → validate r ≡ ok u → All IsPlain (fields r)
unfolding validate
validate-IsPlain r h = validate_all-ok (fields r) h
