-- ===== src/Task/Tests.antt =====
-- Task configurations that are accepted, and some that are not.
use Prim.Native.String.{String}
use atc.Prelude.{ℕ, ◌≡◌, ◌↔◌, refl, false, none, List, [], ◌∷◌}
use atc.Task.Counter.{invalid_configuration, dot_path, nested_inputs}
use atc.Task.Contract.{IsValid}
use atc.Task.Valid.{validate-IsValid}
use atc.Task.{TaskConfig, TaskInputConfig, validate, merge}

abbrev pub input : String → String → TaskInputConfig
input name path = record { name = name; path = path; optional = false }

abbrev pub task : List TaskInputConfig → TaskConfig ℕ
task inputs = record {
  platform = "linux";
  rootfs_uri = "";
  image_resource = none;
  params = [];
  run = record { path = "ls"; args = []; dir = ""; user = "" };
  inputs = inputs;
  outputs = [];
  caches = [];
}

nested :
    validate (task (input "a" "" ∷ input "b" "./a/c" ∷ []))
    ≡ invalid_configuration ∷ nested_inputs "a/c" "a" ∷ []
unfolding validate
nested = refl

-- A path "." must be alone,
dot : validate (task (input "a" "" ∷ input "b" "." ∷ [])) ≡ invalid_configuration ∷ dot_path ∷ []
unfolding validate
dot = refl

-- but "./", which is the same directory, need not be.
dot_slash : validate (task (input "a" "" ∷ input "b" "./" ∷ [])) ≡ []
unfolding validate
dot_slash = refl

-- Two inputs with paths of one directory.
validate-IsValid_example :
    (validate (task (input "a" "src/a" ∷ input "b" "src/b" ∷ [])) ≡ [])
    ↔ IsValid (task (input "a" "src/a" ∷ input "b" "src/b" ∷ []))
validate-IsValid_example = validate-IsValid (task (input "a" "src/a" ∷ input "b" "src/b" ∷ []))

siblings : validate (task (input "a" "src/a" ∷ input "b" "src/b" ∷ [])) ≡ []
unfolding validate
siblings = refl

-- The platform and the executable of the other configuration come first, and its outputs are dropped.
merged :
    merge
      (task (input "a" "" ∷ []))
      (record (task []) { platform = "windows"; outputs = record { name = "o"; path = "" } ∷ [] })
    ≡ record (task (input "a" "" ∷ [])) { platform = "windows" }
unfolding merge
merged = refl
