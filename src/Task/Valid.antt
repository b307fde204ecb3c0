-- ===== src/Task/Valid.antt =====
-- Validate accepts exactly the valid task configurations.
use Prim.Native.String.{String}
use text.Mathlib.Text.{◌==◌ as str_eq}
use text.Mathlib.TextEquality.{eq_iff}
use atc.Prelude.{
  ℕ, suc, ◌+◌, ◌≤◌, ◌≡◌, ◌≢◌, ◌⊎◌, refl, sym, ap, subst, ◌∙◌, ◌↔◌, Bool, false, ◌&&◌, ◌||◌, List,
  [], ◌∷◌, ◌++◌, map, length, length-append, ltb, All, arith, if◌then◌else◌, iff_trans, refl_iff,
  Pairwise, append-nil_iff,
}
use atc.Task.Counter.{
  Message, missing_platform, missing_run, dot_path, PathCounter, no_paths, register_input,
  register_output, error_messages,
}
use atc.Task.Counted.{register_all}
use atc.Task.Apart.{AreApart}
use atc.Task.Reported.{report_iff, counter_of, error_messages_iff}
use atc.Task.Contract.{paths, IsValid}
use atc.Task.{
  TaskConfig, TaskInputConfig, TaskOutputConfig, input_path, output_path, inputs_without_name,
  outputs_without_name, count_inputs, count_outputs, validate_dot_path, register_inputs,
  register_outputs, count_input_output_paths, validate_overlapping_paths,
  validate_inputs_and_outputs, messages, with_header, validate,
}

set_iff : (name : String) → (str_eq name "" ≡ false) ↔ (name ≢ "")
set_iff name = ground (arith, eq_iff name "")

inputs_iff :
    (i : ℕ) (inputs : List TaskInputConfig)
    → (inputs_without_name i inputs ≡ []) ↔ All (λ (c : TaskInputConfig). c.name ≢ "") inputs
unfolding inputs_without_name
inputs_iff i [] = ground arith
inputs_iff i (c ∷ inputs) =
    append-nil_iff (iff_trans (report_iff (str_eq c.name "") _) (set_iff c.name))
      (inputs_iff (suc i) inputs)

outputs_iff :
    (i : ℕ) (outputs : List TaskOutputConfig)
    → (outputs_without_name i outputs ≡ []) ↔ All (λ (c : TaskOutputConfig). c.name ≢ "") outputs
unfolding outputs_without_name
outputs_iff i [] = ground arith
outputs_iff i (c ∷ outputs) =
    append-nil_iff (iff_trans (report_iff (str_eq c.name "") _) (set_iff c.name))
      (outputs_iff (suc i) outputs)

-- Whether one of the paths is ".".
has_dot : List String → Bool
has_dot [] = false
has_dot (p ∷ ps) = str_eq p "." || has_dot ps

has_dot_iff : (ps : List String) → (has_dot ps ≡ false) ↔ All (λ p. p ≢ ".") ps
unfolding has_dot
has_dot_iff [] = ground arith
has_dot_iff (p ∷ ps) = ground (arith, eq_iff p ".", has_dot_iff ps)

has_dot-append : (ps qs : List String) → has_dot (ps ++ qs) ≡ (has_dot ps || has_dot qs)
unfolding has_dot
has_dot-append [] qs = refl
has_dot-append (p ∷ ps) qs = ground (arith, has_dot-append ps qs)

count_inputs_lem :
    (n : ℕ) (dot : Bool) (inputs : List TaskInputConfig)
    → ((count_inputs (n, dot) inputs).0 ≡ n + length inputs)
      × ((count_inputs (n, dot) inputs).1 ≡ (dot || has_dot (map input_path inputs)))
unfolding count_inputs has_dot
count_inputs_lem n dot [] = (omega arith, ground arith)
count_inputs_lem n dot (c ∷ inputs) =
    let rest = count_inputs_lem (suc n) (dot || str_eq (input_path c) ".") inputs in
    (omega (arith, rest.0), rest.1 ∙ ground arith)

count_outputs_lem :
    (n : ℕ) (dot : Bool) (outputs : List TaskOutputConfig)
    → ((count_outputs (n, dot) outputs).0 ≡ n + length outputs)
      × ((count_outputs (n, dot) outputs).1 ≡ (dot || has_dot (map output_path outputs)))
unfolding count_outputs has_dot
count_outputs_lem n dot [] = (omega arith, ground arith)
count_outputs_lem n dot (c ∷ outputs) =
    let rest = count_outputs_lem (suc n) (dot || str_eq (output_path c) ".") outputs in
    (omega (arith, rest.0), rest.1 ∙ ground arith)

length-map {ℓ κ} :
    {A : Type ℓ} {B : Type κ} (f : A → B) (xs : List A) → length (map f xs) ≡ length xs
length-map f [] = refl
length-map f (x ∷ xs) = ap suc (length-map f xs)

few_or_no_dot :
    (n : ℕ) (dot : Bool) (ps : List String)
    → n ≡ length ps
    → dot ≡ has_dot ps
    → ((if ltb 1 n && dot then dot_path ∷ [] else []) ≡ [])
      ↔ ((length ps ≤ 1) ⊎ All (λ p. p ≢ ".") ps)
few_or_no_dot n dot ps e d = ground (arith, e, d, has_dot_iff ps)

register_inputs_lem :
    (counter : PathCounter) (inputs : List TaskInputConfig)
    → register_inputs counter inputs
      ≡ record counter { input_count = register_all counter.input_count (map input_path inputs) }
unfolding register_inputs register_input register_all
register_inputs_lem counter [] = refl
register_inputs_lem counter (c ∷ inputs) =
    register_inputs_lem (register_input counter (input_path c)) inputs

register_outputs_lem :
    (counter : PathCounter) (outputs : List TaskOutputConfig)
    → register_outputs counter outputs ≡ record counter {
      output_count = register_all counter.output_count (map output_path outputs);
    }
unfolding register_outputs register_output register_all
register_outputs_lem counter [] = refl
register_outputs_lem counter (c ∷ outputs) =
    register_outputs_lem (register_output counter (output_path c)) outputs

with_header_iff : (ms : List Message) → (with_header ms ≡ []) ↔ (ms ≡ [])
with_header_iff [] = refl_iff
with_header_iff (m ∷ ms) = ground arith

module _ {R : Type 0} where
  dot_path_iff :
      (config : TaskConfig R)
      → (validate_dot_path config ≡ [])
        ↔ ((length (paths config) ≤ 1) ⊎ All (λ p. p ≢ ".") (paths config))
  unfolding validate_dot_path
  dot_path_iff config =
      let ins = map input_path config.inputs in
      let outs = map output_path config.outputs in
      let i = count_inputs_lem 0 false config.inputs in
      let counted = count_inputs (0, false) config.inputs in
      let o = count_outputs_lem counted.0 counted.1 config.outputs in
      few_or_no_dot (count_outputs counted config.outputs).0
        (count_outputs counted config.outputs).1 (paths config)
        (omega (
          arith,
          i.0,
          o.0,
          length-append ins outs,
          length-map input_path config.inputs,
          length-map output_path config.outputs,
        ))
        (o.1 ∙ ap (λ b. b || has_dot outs) i.1 ∙ sym (has_dot-append ins outs))

  overlapping_paths_iff :
      (config : TaskConfig R)
      → (validate_overlapping_paths config ≡ []) ↔ Pairwise AreApart (paths config)
  unfolding validate_overlapping_paths count_input_output_paths register_all
  overlapping_paths_iff config =
      let same : count_input_output_paths config
          ≡ counter_of (map input_path config.inputs) (map output_path config.outputs) =
        ap (λ c. register_outputs c config.outputs) (register_inputs_lem no_paths config.inputs)
        ∙ register_outputs_lem (counter_of (map input_path config.inputs) []) config.outputs in
      subst (λ c. (error_messages c ≡ []) ↔ Pairwise AreApart (paths config)) (sym same)
        (error_messages_iff (map input_path config.inputs) (map output_path config.outputs))

  messages_iff : (config : TaskConfig R) → (messages config ≡ []) ↔ IsValid config
  unfolding messages validate_inputs_and_outputs
  messages_iff config =
      iff_trans
        (append-nil_iff
          (iff_trans (report_iff (str_eq config.platform "") missing_platform)
            (set_iff config.platform))
          (append-nil_iff
            (iff_trans (report_iff (str_eq config.run.path "") missing_run)
              (set_iff config.run.path))
            (append-nil_iff (inputs_iff 0 config.inputs) (
              append-nil_iff (outputs_iff 0 config.outputs)
                (append-nil_iff (dot_path_iff config) (overlapping_paths_iff config))))))
        (
          (λ v. record {
            platform = v.0;
            run = v.1.0;
            input_names = v.1.1.0;
            output_names = v.1.1.1.0;
            alone = v.1.1.1.1.0;
            apart = v.1.1.1.1.1;
          }),
          (λ h. (
            IsValid.platform h,
            (
              IsValid.run h,
              (IsValid.input_names h, (IsValid.output_names h, (IsValid.alone h, IsValid.apart h))),
            ),
          )),
        )

  -- Validate returns nil exactly if the platform and the executable are given, every input and output
  -- has a name, no two of their paths are the same or one below the other, and a path "." is alone.
  -- Before the comparison one "./" is taken off the beginning of a path.
  pub validate-IsValid : (config : TaskConfig R) → (validate config ≡ []) ↔ IsValid config
  unfolding validate
  validate-IsValid config = iff_trans (with_header_iff (messages config)) (messages_iff config)
