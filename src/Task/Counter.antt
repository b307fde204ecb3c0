-- ===== src/Task/Counter.antt =====
-- pathCounter of task.go: how often inputs and outputs use a path, and what is reported of it.
use Prim.Native.String.{String}
use text.Mathlib.Text.{◌==◌ as str_eq}
use atc.Prelude.{ℕ, suc, Bool, true, false, ◌&&◌, List, [], ◌∷◌, ◌++◌, ltb, if◌then◌else◌}
use atc.Task.Paths.{path_contains}

-- The lines of the error, the child of two nested paths first.
pub data Message : Type 0 where
  invalid_configuration missing_platform missing_run dot_path : Message
  input_missing_name output_missing_name : ℕ → Message
  duplicate_input duplicate_output in_both : String → Message
  nested_inputs input_in_output nested_outputs output_in_input : (child parent : String) → Message

-- map[string]int
abbrev pub Counts : Type 0
Counts = List (String × ℕ)

pub record PathCounter : Type 0 where
  pub input_count : Counts
  pub output_count : Counts

abbrev pub no_paths : PathCounter
no_paths = record { input_count = []; output_count = [] }

-- count[path]++, with 1 for a path that is not found
unfoldable pub register : Counts → String → Counts
register [] path = (path, 1) ∷ []
register ((p, n) ∷ counts) path =
    let rest = register counts path in if str_eq p path then (p, suc n) ∷ counts else (p, n) ∷ rest

-- registerInput and registerOutput
unfoldable pub register_input : PathCounter → String → PathCounter
unfolding register
register_input counter path = record counter { input_count = register counter.input_count path }

unfoldable pub register_output : PathCounter → String → PathCounter
unfolding register
register_output counter path = record counter { output_count = register counter.output_count path }

unfoldable pub is_counted : String → Counts → Bool
is_counted path [] = false
is_counted path ((p, n) ∷ counts) = if str_eq p path then true else is_counted path counts

unfoldable pub found_in_both : PathCounter → String → Bool
unfolding is_counted
found_in_both counter path =
    is_counted path counter.input_count && is_counted path counter.output_count

-- An inner loop over the candidates for a parent.
unfoldable pub nested_in : (String → Message) → String → Counts → List Message
unfolding path_contains
nested_in message path [] = []
nested_in message path ((parent, n) ∷ counts) =
    (if path_contains path parent then message parent ∷ [] else []) ++ nested_in message path counts

-- The two loops of getErrorMessages.
unfoldable pub input_messages : PathCounter → Counts → List Message
unfolding found_in_both nested_in
input_messages counter [] = []
input_messages counter ((path, n) ∷ counts) =
    (if ltb 1 n then duplicate_input path ∷ [] else [])
    ++ ((if found_in_both counter path then in_both path ∷ [] else [])
        ++ (nested_in (nested_inputs path) path counter.input_count
            ++ (nested_in (input_in_output path) path counter.output_count
                ++ input_messages counter counts)))

unfoldable pub output_messages : PathCounter → Counts → List Message
unfolding nested_in
output_messages counter [] = []
output_messages counter ((path, n) ∷ counts) =
    (if ltb 1 n then duplicate_output path ∷ [] else [])
    ++ (nested_in (nested_outputs path) path counter.output_count
        ++ (nested_in (output_in_input path) path counter.input_count
            ++ output_messages counter counts))

unfoldable pub error_messages : PathCounter → List Message
unfolding input_messages output_messages
error_messages counter =
    input_messages counter counter.input_count ++ output_messages counter counter.output_count
