-- ===== src/Util/Environment.antt =====
-- platform/util/osutil/environment.go
use Prim.Native.String.{◌++◌ as str_append}
use text.Mathlib.Text.{starts_with}
use homeworld.Common.{String, Bool, true, false, not, List, [], ◌∷◌, ◌++◌, if◌then◌else◌}

-- The entry that the loop leaves, and whether one was found.
abbrev pub replaced : String → String → List String → List String × Bool
replaced assigned start [] = ([], false)
replaced assigned start (entry ∷ env) =
    let (rest, found) = replaced assigned start env in
    if starts_with entry start then (assigned ∷ rest, true) else (entry ∷ rest, found)

-- The environment of the process is an argument.
unfoldable pub modified_environ : String → String → List String → List String
modified_environ key value env =
    let (changed, found) =
      replaced (str_append key (str_append "=" value)) (str_append key "=") env in
    if not found then changed ++ str_append key (str_append "=" value) ∷ [] else changed
