-- ===== src/Util/Templates.antt =====
-- What a substitution, platform/util/strutil/substitute.go, does to a template that was written out.
use Prim.Native.Char.{code}
use Prim.Native.String.{[] as nil, ◌∷◌ as cons, ◌++◌ as str_append}
use text.Mathlib.TextLemmas.{nil-append, cons-append, append-nil}
use homeworld.Common.{
  ℕ, String, ◌≡◌, refl, sym, ap, ◌∙◌, Bool, true, false, not, ◌||◌, some, List, [], ◌∷◌, ◌==◌, eqb,
  if◌then◌else◌, message, ok, err, ◌>>=◌, ◌>>◌, guard,
}
use homeworld.Common.Dict.{Dict, lookup}
use homeworld.Util.Substitution.{
  split_at, has_character, subparts, variable, substitute_part, substitute_parts, substitute_vars,
}

-- The references to variables, with the text behind each.
abbrev pub Reference : Type 0
Reference = String × String

unfoldable pub write_out : List Reference → String
write_out [] = ""
write_out ((varname, text) ∷ refs) =
    str_append "(" (str_append varname (str_append ")" (str_append text (write_out refs))))

abbrev pub IsPlain : String → Type 0
IsPlain s = (has_character b'(' s ≡ false) × (has_character b')' s ≡ false)

split_at-append :
    (sep : ℕ) (s t : String)
    → has_character sep s ≡ false
    → split_at sep (str_append s t) ≡ (str_append s (split_at sep t).0, (split_at sep t).1)
unfolding split_at has_character
split_at-append sep nil t h =
    ap (split_at sep) (nil-append t)
    ∙ ap (λ s. (s, (split_at sep t).1)) (sym (nil-append (split_at sep t).0))
split_at-append sep (cons c s) t h =
    ap (split_at sep) (cons-append c s t)
    ∙ kept (eqb (code c) sep) (split_at sep (str_append s t)) h (λ k. split_at-append sep s t k)
  where
    kept :
        (b : Bool) (r : String × List String)
        → (b || has_character sep s) ≡ false
        → (has_character sep s ≡ false
            → ◌≡◌ {A = String × List String} r
                (str_append s (split_at sep t).0, (split_at sep t).1))
        → ◌≡◌ {A = String × List String}
            (if b then (nil, r.0 ∷ r.1) else (cons c r.0, r.1))
            (str_append (cons c s) (split_at sep t).0, (split_at sep t).1)
    kept true r k ih = cc
    kept false r k ih =
        ap (λ q. (cons c q.0, q.1)) (ih k)
        ∙ ap (λ q. (q, (split_at sep t).1)) (sym (cons-append c s (split_at sep t).0))

-- The part behind an opening parenthesis, up to the next one.
abbrev part_of : Reference → String
part_of (varname, text) = str_append varname (str_append ")" text)

abbrev parts_of : List Reference → List String
parts_of [] = []
parts_of (ref ∷ refs) = part_of ref ∷ parts_of refs

abbrev ArePlain : List Reference → Type 0
ArePlain [] = Unit
ArePlain ((varname, text) ∷ refs) = IsPlain varname × IsPlain text × ArePlain refs

split_at-open :
    (s : String)
    → split_at b'(' (str_append "(" s) ≡ ("", (split_at b'(' s).0 ∷ (split_at b'(' s).1)
unfolding split_at
split_at-open s = ap (split_at b'(') (cons-append "(" nil s ∙ ap (λ r. cons "(" r) (nil-append s))

-- Two plain texts around a closing parenthesis are one part.
split_at-plain :
    (varname text rest : String)
    → has_character b'(' varname ≡ false
    → has_character b'(' text ≡ false
    → (parts : List String) → split_at b'(' rest ≡ ("", parts)
    → split_at b'(' (str_append varname (str_append ")" (str_append text rest)))
      ≡ (part_of (varname, text), parts)
unfolding has_character
split_at-plain varname text rest v t parts e =
    split_at-append b'(' varname _ v
    ∙ ap (λ q. (str_append varname q.0, q.1))
        (split_at-append b'(' ")" _ refl
          ∙ ap (λ q. (str_append ")" q.0, q.1))
              (split_at-append b'(' text rest t
                ∙ ap (λ q. (str_append text q.0, q.1)) e
                ∙ ap (λ q. (q, parts)) (append-nil text)))

split_at-write_out :
    (refs : List Reference) → ArePlain refs → split_at b'(' (write_out refs) ≡ ("", parts_of refs)
unfolding write_out split_at
split_at-write_out [] h = refl
split_at-write_out ((varname, text) ∷ refs) ((v, v'), (t, t'), h) =
    split_at-open (str_append varname (str_append ")" (str_append text (write_out refs))))
    ∙ ap (λ q. ("", q.0 ∷ q.1))
        (split_at-plain varname text (write_out refs) v t (parts_of refs)
          (split_at-write_out refs h))

-- A part has its name before the one closing parenthesis.
subparts-part_of :
    (varname text : String)
    → has_character b')' varname ≡ false
    → has_character b')' text ≡ false
    → split_at b')' (part_of (varname, text)) ≡ (varname, text ∷ [])
unfolding split_at
subparts-part_of varname text v t =
    split_at-append b')' varname (str_append ")" text) v
    ∙ ap (λ q. (str_append varname q.0, q.1))
        (ap (split_at b')') (cons-append ")" nil text ∙ ap (λ r. cons ")" r) (nil-append text))
          ∙ ap (λ q. (nil, q.0 ∷ q.1)) (whole text t))
    ∙ ap (λ s. (s, text ∷ [])) (append-nil varname)
  where
    whole : (s : String) → has_character b')' s ≡ false → split_at b')' s ≡ (s, [])
    whole s h =
        ap (split_at b')') (sym (append-nil s))
        ∙ split_at-append b')' s "" h
        ∙ ap (λ q. (q, [])) (append-nil s)

-- What is expected: every reference is replaced by the text of its variable.
abbrev pub IsDefined : Dict String → (String → String) → List Reference → Type 0
IsDefined vars held [] = Unit
IsDefined vars held ((varname, text) ∷ refs) =
    (lookup varname vars ≡ some (held varname))
    × ((held varname == "") ≡ false)
    × IsDefined vars held refs

unfoldable pub fill : (String → String) → List Reference → String
fill held [] = ""
fill held ((varname, text) ∷ refs) = str_append (str_append (held varname) text) (fill held refs)

substitute_part-part_of :
    (vars : Dict String) (held varname text : String)
    → has_character b')' varname ≡ false
    → has_character b')' text ≡ false
    → lookup varname vars ≡ some held
    → (held == "") ≡ false
    → substitute_part vars (part_of (varname, text)) ≡ ok (str_append held text)
unfolding substitute_part
substitute_part-part_of vars held varname text v t e ne =
    ap
      (λ q. do
        (name, rest) ← subparts q
        value ← variable (lookup name vars)
        ok (str_append value rest))
      (subparts-part_of varname text v t)
    ∙ ap (λ o. do value ← variable o; ok (str_append value text)) e
    ∙ ap
        (λ b. do
          value ←
              if b
              then err (message "Undefined variable %s in substitution string '%s'")
              else ok held
          ok (str_append value text))
        ne

substitute_parts-parts_of :
    (vars : Dict String) (held : String → String) (refs : List Reference)
    → ArePlain refs
    → IsDefined vars held refs
    → substitute_parts vars (parts_of refs) ≡ ok (fill held refs)
unfolding substitute_parts fill
substitute_parts-parts_of vars held [] p d = refl
substitute_parts-parts_of vars held ((varname, text) ∷ refs) ((v, v'), (t, t'), p) (e, ne, d) =
    ap
      (λ r. do
        snippet ← r
        rest ← substitute_parts vars (parts_of refs)
        ok (str_append snippet rest))
      (substitute_part-part_of vars (held varname) varname text v' t' e ne)
    ∙ ap (λ r. do rest ← r; ok (str_append (str_append (held varname) text) rest))
        (substitute_parts-parts_of vars held refs p d)

-- A template of plain texts and references is read back as it was written out: each reference is
-- replaced by the text of its variable, and all else stays, if every variable has a text that is not
-- empty and no text or name of the template has a parenthesis.
pub substitute_vars-write_out :
    (vars : Dict String) (held : String → String) (first : String) (refs : List Reference)
    → IsPlain first
    → ArePlain refs
    → IsDefined vars held refs
    → substitute_vars (str_append first (write_out refs)) vars
      ≡ ok (str_append first (fill held refs))
unfolding substitute_vars
substitute_vars-write_out vars held first refs (f, f') p d =
    ap
      (λ q. do
        guard (not (has_character b')' q.0))
            (message "Extraneous close parenthesis in substitution string '%s'")
        rest ← substitute_parts vars q.1
        ok (str_append q.0 rest))
      (split_at-append b'(' first (write_out refs) f
        ∙ ap (λ q. (str_append first q.0, q.1)) (split_at-write_out refs p)
        ∙ ap (λ s. (s, parts_of refs)) (append-nil first))
    ∙ ap
        (λ b. do
          guard (not b) (message "Extraneous close parenthesis in substitution string '%s'")
          rest ← substitute_parts vars (parts_of refs)
          ok (str_append first rest))
        f'
    ∙ ap (λ r. do rest ← r; ok (str_append first rest))
        (substitute_parts-parts_of vars held refs p d)
