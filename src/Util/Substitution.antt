-- ===== src/Util/Substitution.antt =====
-- platform/util/strutil/substitute.go. A text is read character by character.
use Prim.Native.Char.{code}
use Prim.Native.String.{[] as nil, ◌∷◌ as cons, ◌++◌ as str_append}
use homeworld.Common.{
  ℕ, String, Bool, false, not, ◌||◌, Option, none, some, List, [], ◌∷◌, ◌==◌, eqb, if◌then◌else◌,
  message, Result, ok, err, ◌>>=◌, ◌>>◌, guard,
}
use homeworld.Common.Dict.{Dict, lookup}

-- `strings.Split` at one character, the first part beside the others.
unfoldable pub split_at : ℕ → String → String × List String
split_at sep nil = (nil, [])
split_at sep (cons c s) =
    let rest = split_at sep s in
    if eqb (code c) sep then (nil, rest.0 ∷ rest.1) else (cons c rest.0, rest.1)

-- `strings.Contains` of one character.
unfoldable pub has_character : ℕ → String → Bool
has_character sep nil = false
has_character sep (cons c s) = eqb (code c) sep || has_character sep s

abbrev pub subparts : String × List String → Result (String × String)
subparts (varname, []) = err (message "Missing close parenthesis in substitution string '%s'")
subparts (varname, text ∷ []) = ok (varname, text)
subparts (varname, text ∷ next ∷ rest) =
    err (message "Extraneous close parenthesis in substitution string '%s'")

abbrev pub variable : Option String → Result String
variable none = err (message "Undefined variable %s in substitution string '%s'")
variable (some text) =
    if text == ""
    then err (message "Undefined variable %s in substitution string '%s'")
    else ok text

-- The body of the loop, with the snippets that it appends.
unfoldable pub substitute_part : Dict String → String → Result String
unfolding split_at
substitute_part vars part = do
  (varname, text) ← subparts (split_at b')' part)
  held ← variable (lookup varname vars)
  ok (str_append held text)

unfoldable pub substitute_parts : Dict String → List String → Result String
unfolding substitute_part
substitute_parts vars [] = ok ""
substitute_parts vars (part ∷ parts) = do
  snippet ← substitute_part vars part
  rest ← substitute_parts vars parts
  ok (str_append snippet rest)

unfoldable pub substitute_vars : String → Dict String → Result String
unfolding split_at has_character substitute_parts
substitute_vars within vars =
    let parts = split_at b'(' within in
    do
      guard (not (has_character b')' parts.0))
          (message "Extraneous close parenthesis in substitution string '%s'")
      rest ← substitute_parts vars parts.1
      ok (str_append parts.0 rest)

unfoldable pub substitute_all_vars : List String → Dict String → Result (List String)
unfolding substitute_vars
substitute_all_vars [] vars = ok []
substitute_all_vars (within ∷ others) vars = do
  out ← substitute_vars within vars
  outs ← substitute_all_vars others vars
  ok (out ∷ outs)
