-- ===== src/UserGrant/Email.antt =====
-- platform/user-grant/grant.go: `ExtractEmail`, with platform/util/certutil/email.go. Go slices a
-- text by bytes; a suffix that is found is cut off at the same place here.
use Prim.Native.Char.{Char}
use Prim.Native.String.{[] as nil, ◌∷◌ as cons, ◌++◌ as str_append}
use Prim.Native.String.append
use homeworld.Common.{
  ℕ, suc, ◌+◌, String, ◌≡◌, refl, ap, subst, ◌≢◌, ◌↔◌, ◌⊎◌, inl, inr, Bool, true, false, not,
  Option, none, some, List, [], ◌∷◌, arith, ◌==◌, eq_iff, eq_refl, eqb, if◌then◌else◌, Bool-cases,
  eq_false, message, Result, ok, err, length,
}

-- `asn1.ObjectIdentifier`, whose components are not negative in a certificate that was parsed
abbrev pub ObjectIdentifier : Type 0
ObjectIdentifier = List ℕ

abbrev pub oid_email_address : ObjectIdentifier
oid_email_address = 1 ∷ 2 ∷ 840 ∷ 113549 ∷ 1 ∷ 9 ∷ 1 ∷ []

-- The loop, over the components of two lists of one length.
unfoldable pub same_components : ObjectIdentifier → ObjectIdentifier → Bool
same_components (a ∷ as') (b ∷ bs) = if not (eqb a b) then false else same_components as' bs
same_components [] bs = true
same_components (a ∷ as') [] = true

unfoldable pub is_oid_equal : ObjectIdentifier → ObjectIdentifier → Bool
unfolding same_components
is_oid_equal a b = if not (eqb (length a) (length b)) then false else same_components a b

-- `pkix.AttributeTypeAndValue`; `none` for a value that is no string
pub record Attribute : Type 0 where
  pub kind : ObjectIdentifier
  pub value : Option String

-- What stands before the suffix, if the text has it: `HasSuffix` and the slice.
unfoldable pub strip_suffix : String → String → Option String
strip_suffix suffix nil = if nil == suffix then some nil else none
strip_suffix suffix (cons c s) =
    if cons c s == suffix
    then some nil
    else elim (strip_suffix suffix s) [ none ↦ none | some before ↦ some (cons c before) ]

abbrev pub at_domain : String → String
at_domain domain = str_append "@" domain

abbrev pub local_part : Option String → Result String
local_part none = err (message "email '%s' had no suffix '%s'")
local_part (some user) = ok user

unfoldable pub extract_value : String → Option String → Result String
unfolding strip_suffix
extract_value domain none = err (message "value in AttributeTypeAndValue was not a string")
extract_value domain (some result) = local_part (strip_suffix (at_domain domain) result)

unfoldable pub extract_email : String → List Attribute → Result String
unfolding is_oid_equal extract_value
extract_email domain [] = err (message "cannot find email attribute in certificate name")
extract_email domain (attr ∷ names) =
    if is_oid_equal attr.kind oid_email_address
    then extract_value domain attr.value
    else extract_email domain names

-- Two identifiers are equal exactly if they have the same components.
same_components-lem :
    (a b : ObjectIdentifier) → length a ≡ length b → (same_components a b ≡ true) ↔ (a ≡ b)
unfolding same_components
same_components-lem [] [] h = (λ _. refl, λ _. refl)
same_components-lem [] (b ∷ bs) h = absurd (omega (arith, h))
same_components-lem (a ∷ as') [] h = absurd (omega (arith, h))
same_components-lem (a ∷ as') (b ∷ bs) h =
    let (to, from) = same_components-lem as' bs (omega (arith, h)) in
    (λ e. ground (arith, to), λ e. ground (arith, head_eq e, from (tail_eq e)))
  where
    head_eq : a ∷ as' ≡ b ∷ bs → a ≡ b
    head_eq e = cc

    tail_eq : a ∷ as' ≡ b ∷ bs → as' ≡ bs
    tail_eq e = cc

pub is_oid_equal_iff : (a b : ObjectIdentifier) → (is_oid_equal a b ≡ true) ↔ (a ≡ b)
unfolding is_oid_equal
is_oid_equal_iff a b = elim (Bool-cases (eqb (length a) (length b))) [
  | inl same ↦ rw same (same_components-lem a b (ground arith))
  | inr other ↦ rw other (λ e. cc, λ e. let k = ap length e in ground arith)
]

char_count : String → ℕ
char_count nil = 0
char_count (cons c s) = suc (char_count s)

char_count-append : (s t : String) → char_count (str_append s t) ≡ char_count s + char_count t
unfolding char_count
char_count-append nil t = rw (append.nil t) (omega arith)
char_count-append (cons c s) t = rw (append.cons c s t) (omega (arith, char_count-append s t))

longer : (c : Char) (s suffix : String) → cons c (str_append s suffix) ≢ suffix
unfolding char_count
longer c s suffix e = let k = ap char_count e in omega (arith, k, char_count-append s suffix)

strip_suffix_self : (suffix : String) → strip_suffix suffix suffix ≡ some nil
unfolding strip_suffix
strip_suffix_self nil = refl
strip_suffix_self (cons c s) = rw (eq_refl (cons c s)) refl

-- A text is another in front of the suffix exactly if that other is what is left of it.
strip_suffix-append : (suffix s : String) → strip_suffix suffix (str_append s suffix) ≡ some s
unfolding strip_suffix
strip_suffix-append suffix nil = rw (append.nil suffix) (strip_suffix_self suffix)
strip_suffix-append suffix (cons c s) =
    let other = eq_false (cons c (str_append s suffix)) suffix (longer c s suffix) in
    let rest = strip_suffix-append suffix s in rw (append.cons c s suffix, other, rest) refl

strip_suffix_sound :
    (suffix s : String) {before : String}
    → strip_suffix suffix s ≡ some before
    → s ≡ str_append before suffix
unfolding strip_suffix
strip_suffix_sound suffix nil {before} h = elim (Bool-cases (nil == suffix)) [
  | inl same ↦
      let k = rw same at h in
      let e : nil ≡ before = cc in cc (e, (eq_iff nil suffix).0 same, append.nil suffix)
  | inr other ↦ let k = rw other at h in cc
]
strip_suffix_sound suffix (cons c s) {before} h = elim (Bool-cases (cons c s == suffix)) [
  | inl same ↦
      let k = rw same at h in
      let e : nil ≡ before = cc in cc (e, (eq_iff (cons c s) suffix).0 same, append.nil suffix)
  | inr other ↦
      let k = rw other at h in
      inner (strip_suffix suffix s) refl k
        (λ (t : String). strip_suffix_sound suffix s {before = t})
]
  where
    inner :
        (o : Option String)
        → strip_suffix suffix s ≡ o
        → elim o [ none ↦ none | some t ↦ some (cons c t) ] ≡ some before
        → ((t : String) → strip_suffix suffix s ≡ some t → s ≡ str_append t suffix)
        → cons c s ≡ str_append before suffix
    inner none e k ih = cc
    inner (some t) e k ih =
        let e' : cons c t ≡ before = cc in cc (e', append.cons c t suffix, ih t e)

-- The first e-mail attribute of the name has this value.
abbrev pub FirstEmail : List Attribute → Option String → Type 0
FirstEmail [] found = ⊥
FirstEmail (attr ∷ names) found =
    ((attr.kind ≡ oid_email_address) × (attr.value ≡ found))
    ⊎ ((attr.kind ≢ oid_email_address) × FirstEmail names found)

local_part_sound :
    (domain result user : String)
    → local_part (strip_suffix (at_domain domain) result) ≡ ok user
    → result ≡ str_append user (at_domain domain)
local_part_sound domain result user h = split (strip_suffix (at_domain domain) result) refl h
  where
    split :
        (o : Option String)
        → strip_suffix (at_domain domain) result ≡ o
        → local_part o ≡ ok user
        → result ≡ str_append user (at_domain domain)
    split none e k = cc
    split (some t) e k =
        let e' : t ≡ user = cc in
        subst (λ v. result ≡ str_append v (at_domain domain)) e'
          (strip_suffix_sound (at_domain domain) result e)

extract_value_iff :
    (domain : String) (value : Option String) (user : String)
    → (extract_value domain value ≡ ok user) ↔ (value ≡ some (str_append user (at_domain domain)))
unfolding extract_value
extract_value_iff domain none user = (λ h. cc, λ h. cc)
extract_value_iff domain (some result) user = (
  λ h. ap some (local_part_sound domain result user h),
  λ h.
      let e : result ≡ str_append user (at_domain domain) = cc in
      rw (e, strip_suffix-append (at_domain domain) user) refl,
)

-- A user is read off a certificate's name exactly if the first e-mail attribute of the name is the
-- user's address in the domain: the name of the user, an at sign, and the domain.
pub extract_email_iff :
    (domain : String) (names : List Attribute) (user : String)
    → (extract_email domain names ≡ ok user)
      ↔ FirstEmail names (some (str_append user (at_domain domain)))
unfolding extract_email
extract_email_iff domain [] user = (λ h. cc, λ h. absurd h)
extract_email_iff domain (attr ∷ names) user =
    let (same_to, same_from) = is_oid_equal_iff attr.kind oid_email_address in
    elim (Bool-cases (is_oid_equal attr.kind oid_email_address)) [
      | inl found ↦ rw found (
          let (to, from) = extract_value_iff domain attr.value user in
          (
            λ h. inl (same_to found, to h),
            λ h. elim h [ inl (_, e) ↦ from e | inr (other, _) ↦ absurd (other (same_to found)) ],
          ))
      | inr other ↦ rw other (
          let (to, from) = extract_email_iff domain names user in
          (
            λ h. inr (λ e. let k = same_from e in cc, to h),
            λ h. elim h [ inl (e, _) ↦ let k = same_from e in cc | inr (_, k) ↦ from k ],
          ))
    ]
