-- ===== src/Task/Paths.antt =====
-- The paths of task.go: strings.TrimPrefix with "./", strings.Split at the separator, pathContains.
use Prim.Native.Char.{Char, code}
use Prim.Native.String
use Prim.Native.String.{String}
use text.Mathlib.Text.{◌==◌ as str_eq}
use atc.Prelude.{Bool, true, false, ◌&&◌, List, [], ◌∷◌, length, ltb, ◌==◌, if◌then◌else◌}

-- strings.TrimPrefix(path, "./")
unfoldable pub trim_prefix : String → String
trim_prefix String.[] = String.[]
trim_prefix (String.◌∷◌ c String.[]) = String.◌∷◌ c String.[]
trim_prefix (String.◌∷◌ c (String.◌∷◌ d path)) =
    if code c == b'.' && code d == b'/' then path else String.◌∷◌ c (String.◌∷◌ d path)

abbrev push : String → Char → String
push part c = String.◌++◌ part (String.◌∷◌ c String.[])

-- strings.Split(path, "/"), with the part so far
unfoldable pub split_from : String → String → List String
split_from part String.[] = part ∷ []
split_from part (String.◌∷◌ c path) =
    let next = split_from "" path in
    let longer = split_from (push part c) path in if code c == b'/' then part ∷ next else longer

unfoldable pub split : String → List String
unfolding split_from
split path = split_from "" path

-- The loop of pathContains over the parts of the parent.
unfoldable pub parts_agree : List String → List String → Bool
parts_agree child [] = true
parts_agree [] (part ∷ parent) = false
parts_agree (c ∷ child) (part ∷ parent) = str_eq c part && parts_agree child parent

unfoldable pub path_contains : String → String → Bool
unfolding split parts_agree
path_contains child parent =
    if str_eq child parent
    then false
    else if ltb (length (split child)) (length (split parent))
    then false
    else parts_agree (split child) (split parent)
