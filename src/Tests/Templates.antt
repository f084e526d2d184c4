-- ===== src/Tests/Templates.antt =====
-- A substitution of two variables, and templates whose parentheses do not match.
use homeworld.Common.{String, ◌≡◌, refl, List, [], ◌∷◌, ◌==◌, if◌then◌else◌, message, ok, err}
use homeworld.Common.Dict.{Dict, lookup}
use homeworld.Util.Substitution.{
  split_at, has_character, substitute_part, substitute_parts, substitute_vars,
}
use homeworld.Util.Templates.{Reference, write_out, fill, substitute_vars-write_out}

abbrev vars : Dict String
vars = ("hostname", "huevos") ∷ ("domain", "mit.edu") ∷ []

abbrev references : List Reference
references = ("hostname", ".") ∷ ("domain", "/") ∷ []

abbrev held : String → String
held varname = if varname == "hostname" then "huevos" else "mit.edu"

substitute_vars-write_out_example :
    substitute_vars "https://(hostname).(domain)/" vars ≡ ok "https://huevos.mit.edu/"
unfolding write_out fill has_character lookup
substitute_vars-write_out_example =
    substitute_vars-write_out vars held "https://" references (refl, refl)
      ((refl, refl), (refl, refl), ((refl, refl), (refl, refl), tt)) (refl, refl, (refl, refl, tt))

open_and_closed :
    (substitute_vars "(" vars
      ≡ err (message "Missing close parenthesis in substitution string '%s'"))
    × (substitute_vars ")" vars
        ≡ err (message "Extraneous close parenthesis in substitution string '%s'"))
unfolding substitute_vars substitute_parts substitute_part split_at has_character
open_and_closed = (refl, refl)
