-- ===== src/Task.antt =====
-- task.go: the configuration of a task, Merge and Validate.
pub mod Paths
pub mod Counter
pub mod Apart
pub mod Counted
pub mod Reported
pub mod Contract
pub mod Valid
pub mod Tests
use Prim.Native.String.{String}
use text.Mathlib.Text.{◌==◌ as str_eq}
use atc.Prelude.{
  ℕ, suc, Bool, true, false, ◌&&◌, ◌||◌, Option, none, some, List, [], ◌∷◌, ◌++◌, ltb,
  if◌then◌else◌,
}
use atc.Task.Paths.{trim_prefix}
use atc.Task.Counter.{
  Message, invalid_configuration, missing_platform, missing_run, output_missing_name,
  input_missing_name, dot_path, PathCounter, no_paths, register_input, register_output,
  error_messages,
}

pub record TaskRunConfig : Type 0 where
  pub path : String
  pub args : List String
  pub dir : String
  pub user : String

pub record TaskInputConfig : Type 0 where
  pub name : String
  pub path : String
  pub optional : Bool

pub record TaskOutputConfig : Type 0 where
  pub name : String
  pub path : String

-- `R` is what image resources are: nothing here looks into them.
pub record TaskConfig (R : Type 0) : Type 0 where
  pub platform : String
  pub rootfs_uri : String
  pub image_resource : Option R
  pub params : List (String × String)
  pub run : TaskRunConfig
  pub inputs : List TaskInputConfig
  pub outputs : List TaskOutputConfig
  pub caches : List String

-- resolvePath of an input and of an output
unfoldable pub resolve_path : TaskInputConfig → String
resolve_path input = if str_eq input.path "" then input.name else input.path

unfoldable pub resolve_output_path : TaskOutputConfig → String
resolve_output_path output = if str_eq output.path "" then output.name else output.path

-- newParams[k] = v
unfoldable pub put_param : String → String → List (String × String) → List (String × String)
put_param k v [] = (k, v) ∷ []
put_param k v ((j, w) ∷ params) =
    let rest = put_param k v params in if str_eq j k then (k, v) ∷ params else (j, w) ∷ rest

unfoldable pub put_params : List (String × String) → List (String × String) → List (String × String)
unfolding put_param
put_params acc [] = acc
put_params acc ((k, v) ∷ params) = put_params (put_param k v acc) params

abbrev merged_params : List (String × String) → List (String × String) → List (String × String)
merged_params [] others = others
merged_params (p ∷ params) others = put_params (put_params [] (p ∷ params)) others

abbrev or_else {ℓ} : {A : Type ℓ} → List A → List A → List A
or_else [] ys = ys
or_else (x ∷ xs) ys = x ∷ xs

-- The loops of validateInputContainsNames and validateOutputContainsNames
unfoldable pub inputs_without_name : ℕ → List TaskInputConfig → List Message
inputs_without_name i [] = []
inputs_without_name i (input ∷ inputs) =
    (if str_eq input.name "" then input_missing_name i ∷ [] else [])
    ++ inputs_without_name (suc i) inputs

unfoldable pub outputs_without_name : ℕ → List TaskOutputConfig → List Message
outputs_without_name i [] = []
outputs_without_name i (output ∷ outputs) =
    (if str_eq output.name "" then output_missing_name i ∷ [] else [])
    ++ outputs_without_name (suc i) outputs

abbrev pub input_path : TaskInputConfig → String
input_path input = trim_prefix (resolve_path input)

abbrev pub output_path : TaskOutputConfig → String
output_path output = trim_prefix (resolve_output_path output)

-- The loops of validateDotPath: pathCount and dotPath.
unfoldable pub count_inputs : ℕ × Bool → List TaskInputConfig → ℕ × Bool
unfolding trim_prefix resolve_path
count_inputs (n, dot) [] = (n, dot)
count_inputs (n, dot) (input ∷ inputs) =
    count_inputs (suc n, dot || str_eq (input_path input) ".") inputs

unfoldable pub count_outputs : ℕ × Bool → List TaskOutputConfig → ℕ × Bool
unfolding trim_prefix resolve_output_path
count_outputs (n, dot) [] = (n, dot)
count_outputs (n, dot) (output ∷ outputs) =
    count_outputs (suc n, dot || str_eq (output_path output) ".") outputs

-- countInputOutputPaths
unfoldable pub register_inputs : PathCounter → List TaskInputConfig → PathCounter
unfolding trim_prefix resolve_path register_input
register_inputs counter [] = counter
register_inputs counter (input ∷ inputs) =
    register_inputs (register_input counter (input_path input)) inputs

unfoldable pub register_outputs : PathCounter → List TaskOutputConfig → PathCounter
unfolding trim_prefix resolve_output_path register_output
register_outputs counter [] = counter
register_outputs counter (output ∷ outputs) =
    register_outputs (register_output counter (output_path output)) outputs

-- The error has a line of its own before the messages.
abbrev pub with_header : List Message → List Message
with_header [] = []
with_header (m ∷ ms) = invalid_configuration ∷ m ∷ ms

module _ {R : Type 0} where
  unfoldable pub merge : TaskConfig R → TaskConfig R → TaskConfig R
  unfolding put_params
  merge config other = record config {
    platform = if str_eq other.platform "" then config.platform else other.platform;
    rootfs_uri = if str_eq other.rootfs_uri "" then config.rootfs_uri else other.rootfs_uri;
    params = merged_params config.params other.params;
    inputs = or_else other.inputs config.inputs;
    run = if str_eq other.run.path "" then config.run else other.run;
  }

  unfoldable pub validate_dot_path : TaskConfig R → List Message
  unfolding count_inputs count_outputs
  validate_dot_path config =
      let counted = count_outputs (count_inputs (0, false) config.inputs) config.outputs in
      if ltb 1 counted.0 && counted.1 then dot_path ∷ [] else []

  unfoldable pub count_input_output_paths : TaskConfig R → PathCounter
  unfolding register_inputs register_outputs
  count_input_output_paths config =
      register_outputs (register_inputs no_paths config.inputs) config.outputs

  unfoldable pub validate_overlapping_paths : TaskConfig R → List Message
  unfolding count_input_output_paths error_messages
  validate_overlapping_paths config = error_messages (count_input_output_paths config)

  unfoldable pub validate_inputs_and_outputs : TaskConfig R → List Message
  unfolding inputs_without_name outputs_without_name validate_dot_path validate_overlapping_paths
  validate_inputs_and_outputs config =
      inputs_without_name 0 config.inputs
      ++ (outputs_without_name 0 config.outputs
          ++ (validate_dot_path config ++ validate_overlapping_paths config))

  unfoldable pub messages : TaskConfig R → List Message
  unfolding validate_inputs_and_outputs
  messages config =
      (if str_eq config.platform "" then missing_platform ∷ [] else [])
      ++ ((if str_eq config.run.path "" then missing_run ∷ [] else [])
          ++ validate_inputs_and_outputs config)

  -- Validate: the lines of its error, and none where it returns nil.
  unfoldable pub validate : TaskConfig R → List Message
  unfolding messages
  validate config = with_header (messages config)
