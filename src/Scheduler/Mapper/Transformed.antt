-- ===== src/Scheduler/Mapper/Transformed.antt =====
-- The transformer: one configuration for each input exactly if every pinned version is found.
use Prim.Native.String.{String}
use atc.Prelude.{
  ℕ, suc, ◌≤◌, ◌≡◌, refl, ap, sym, ◌∙◌, Option, none, some, List, [], ◌∷◌, length, All, arith,
  some-injective,
}
use atc.Algorithm.Database.{VersionsDb}
use atc.Algorithm.Resolve.{InputConfig}
use atc.Algorithm.Resolve.Sound.{config_names}
use atc.Scheduler.Tables.{if_works}
use atc.Scheduler.Mapper.{
  JobInput, FindVersion, pinned_version_id, config_of, add_config, transform_input_configs,
}

abbrev pub names_of : List JobInput → List String
names_of [] = []
names_of (i ∷ inputs) = i.name ∷ names_of inputs

-- The input is not pinned, or its pinned version is found.
abbrev pub IsFound : FindVersion → JobInput → Type 0
IsFound find input = (id : ℕ) × (pinned_version_id find input ≡ some (some id))

if_works-some {ℓ κ} :
    {A : Type ℓ} {B : Type κ} (o : Option A) (next : A → Option B) (b : B)
    → if_works o next ≡ some b
    → (a : A) × (o ≡ some a) × (next a ≡ some b)
if_works-some none next b e = absurd (ground arith)
if_works-some (some a) next b e = (a, refl, e)

-- What one round of the transformer adds.
length-add_config :
    (db : VersionsDb) (name : String) (input : JobInput) (pinned : Option ℕ)
    (configs : List InputConfig)
    → length (add_config db name input pinned configs) ≤ suc (length configs)
unfolding add_config
length-add_config db name input none configs = omega arith
length-add_config db name input (some id) configs = omega arith

added_config :
    (db : VersionsDb) (name : String) (input : JobInput) (pinned : Option ℕ)
    (rest : List InputConfig)
    → suc (length rest) ≤ length (add_config db name input pinned rest)
    → (id : ℕ) × (pinned ≡ some id)
unfolding add_config
added_config db name input none rest h = absurd (omega (arith, h))
added_config db name input (some id) rest h = (id, refl)

names-add_config :
    (db : VersionsDb) (name : String) (input : JobInput) (id : ℕ) (rest : List InputConfig)
    → config_names (add_config db name input (some id) rest) ≡ input.name ∷ config_names rest
unfolding add_config config_of
names-add_config db name input id rest = refl

module _ (find : FindVersion) (db : VersionsDb) (name : String) where
  pub transform_step :
      (input : JobInput) (inputs : List JobInput) (configs : List InputConfig)
      → transform_input_configs find db name (input ∷ inputs) ≡ some configs
      → (pinned : Option ℕ) × (rest : List InputConfig) × (pinned_version_id find input
          ≡ some pinned)
        × (transform_input_configs find db name inputs ≡ some rest)
        × (add_config db name input pinned rest ≡ configs)
  unfolding transform_input_configs
  transform_step input inputs configs e =
      let (pinned, p, e') = if_works-some (pinned_version_id find input) _ configs e in
      let (rest, q, e'') =
        if_works-some (transform_input_configs find db name inputs) _ configs e' in
      (pinned, rest, p, q, some-injective _ configs e'')

  pub length-transform :
      (inputs : List JobInput) (configs : List InputConfig)
      → transform_input_configs find db name inputs ≡ some configs
      → length configs ≤ length inputs
  unfolding transform_input_configs
  length-transform [] configs e = ground arith
  length-transform (input ∷ inputs) configs e =
      let (pinned, rest, p, q, r) = transform_step input inputs configs e in
      ground (arith, length-add_config db name input pinned rest, length-transform inputs rest q)

  pub full-IsFound :
      (inputs : List JobInput) (configs : List InputConfig)
      → transform_input_configs find db name inputs ≡ some configs
      → length inputs ≤ length configs
      → All (IsFound find) inputs
  full-IsFound [] configs e h = tt
  full-IsFound (input ∷ inputs) configs e h =
      let (pinned, rest, p, q, r) = transform_step input inputs configs e in
      let bound = length-transform inputs rest q in
      let step = length-add_config db name input pinned rest in
      let sizes = ap length r in
      let (id, f) = added_config db name input pinned rest (omega (arith, bound, sizes, h)) in
      ((id, p ∙ ap some f), full-IsFound inputs rest q (omega (arith, step, sizes, h)))

  pub IsFound-names :
      (inputs : List JobInput) (configs : List InputConfig)
      → transform_input_configs find db name inputs ≡ some configs
      → All (IsFound find) inputs
      → config_names configs ≡ names_of inputs
  unfolding transform_input_configs
  IsFound-names [] configs e h = ap config_names (sym (some-injective [] configs e))
  IsFound-names (input ∷ inputs) configs e h =
      let (pinned, rest, p, q, r) = transform_step input inputs configs e in
      let (id, f) = h.0 in
      let same = some-injective pinned (some id) (sym p ∙ f) in
      ap config_names (sym r)
      ∙ ap (λ o. config_names (add_config db name input o rest)) same
      ∙ names-add_config db name input id rest
      ∙ ap (λ ns. input.name ∷ ns) (IsFound-names inputs rest q h.1)
