-- ===== src/Task/Contract.antt =====
-- What a task configuration must satisfy for Validate to accept it.
use Prim.Native.String.{String}
use atc.Prelude.{◌≤◌, ◌≢◌, ◌⊎◌, List, ◌++◌, map, length, All, Pairwise}
use atc.Task.Apart.{AreApart}
use atc.Task.{TaskConfig, TaskInputConfig, TaskOutputConfig, input_path, output_path}

module _ {R : Type 0} where
  -- The paths of the inputs and of the outputs, without a "./" before them.
  abbrev pub paths : TaskConfig R → List String
  paths config = map input_path config.inputs ++ map output_path config.outputs

  pub record IsValid (config : TaskConfig R) : Type 0 where
    pub platform : config.platform ≢ ""
    pub run : config.run.path ≢ ""
    pub input_names : All (λ (i : TaskInputConfig). i.name ≢ "") config.inputs
    pub output_names : All (λ (o : TaskOutputConfig). o.name ≢ "") config.outputs
    pub alone : (length (paths config) ≤ 1) ⊎ All (λ p. p ≢ ".") (paths config)
    pub apart : Pairwise AreApart (paths config)
