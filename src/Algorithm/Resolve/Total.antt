-- ===== src/Algorithm/Resolve/Total.antt =====
-- Resolve always has an answer: its fuel is enough for every database and configuration.
use atc.Prelude.{
  ℕ, suc, ◌+◌, ◌≡◌, ◌≢◌, refl, inl, inr, some, List, [], ◌∷◌, ◌++◌, length, length-append, arith,
  Option-cases,
}
use atc.Algorithm.Database.{VersionsDb}
use atc.Algorithm.Inputs.{InputCandidates, Answer, out_of_fuel, not_found, found, reduce}
use atc.Algorithm.Inputs.Termination.{reduce-terminates, unsettled-le-length}
use atc.Algorithm.Resolve.{
  InputConfig, add_passed, input_of, gather, no_answer, resolution_of, resolve,
}

-- One input is gathered for each configuration.
pub length-gather :
    (db : VersionsDb) (jobs : List ℕ) (acc : List InputCandidates) (configs : List InputConfig)
    (js : List ℕ) (cs : List InputCandidates)
    → gather db jobs acc configs ≡ some (js, cs)
    → length cs ≡ length acc + length configs
unfolding gather
length-gather db jobs acc [] js cs e = ground arith
length-gather db jobs acc (c ∷ configs) js cs e = ground (
  arith,
  length-append acc (input_of db c ∷ []),
  length-gather db (add_passed jobs c.passed) (acc ++ input_of db c ∷ []) configs js cs,
)

resolution_of-answers :
    (db : VersionsDb) (configs : List InputConfig) (a : Answer)
    → a ≢ out_of_fuel
    → resolution_of db configs a ≢ no_answer
unfolding resolution_of
resolution_of-answers db configs out_of_fuel h e = h refl
resolution_of-answers db configs not_found h e = cc
resolution_of-answers db configs (found m) h e = cc

-- Resolving the inputs of a job ends with a mapping or with the answer that there is none, for
-- every versions database and every list of input configurations.
pub resolve-terminates :
    (db : VersionsDb) (configs : List InputConfig) → resolve db configs ≢ no_answer
unfolding resolve
resolve-terminates db configs = elim (Option-cases (gather db [] [] configs)) [
  | inl e ↦ rw (e, resolve) (λ h. cc)
  | inr ((jobs, cs), e) ↦
      rw (e, resolve)
        (resolution_of-answers db configs (reduce (suc (length configs)) jobs cs) (
          reduce-terminates (suc (length configs)) jobs cs
            (omega (arith, unsettled-le-length cs, length-gather db [] [] configs jobs cs e))))
]
