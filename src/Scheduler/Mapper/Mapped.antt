-- ===== src/Scheduler/Mapper/Mapped.antt =====
-- What SaveNextInputMapping returns, and the rows it leaves.
use Prim.Native.String.{String}
use atc.Prelude.{
  ltb→lt, ℕ, suc, ◌≡◌, ◌≢◌, refl, ap, subst, sym, ◌∙◌, Bool, true, false, Option, none, some, List,
  [], ◌∷◌, length, ltb, All, arith, Bool-cases, inl, inr, if◌then◌else◌,
}
use atc.Algorithm.Database.{VersionsDb}
use atc.Algorithm.Resolve.{
  InputConfig, InputMapping, Resolution, no_answer, unresolved, resolved, resolve,
}
use atc.Algorithm.Resolve.Sound.{config_names}
use atc.Algorithm.Resolve.Total.{resolve-terminates}
use atc.Scheduler.Tables.{JobRows, lookup_input, IsUnique, delete_next_input_mapping}
use atc.Scheduler.Tables.Saved.{
  save_rows_lem, save_next_inputs_lem, save_independent_input_mapping_lem,
}
use atc.Scheduler.Mapper.{
  JobInput, FindVersion, transform_input_configs, independent_mapping, Calls, Outcome, then_do,
  forget_next, store_next, map_inputs,
}
use atc.Scheduler.Mapper.Counts.{
  AreDistinct, Resolves, IsUnique-independent_mapping, IsUnique-resolve, full-Resolves,
  Resolves-full, length-independent_mapping,
}
use atc.Scheduler.Mapper.Transformed.{
  names_of, IsFound, length-transform, full-IsFound, IsFound-names,
}

-- The names of the rows in each table are unique.
pub record IsStored (rows : JobRows) : Type 0 where
  pub independent : IsUnique rows.independent_build_inputs
  pub next : IsUnique rows.next_build_inputs

-- The next inputs of a job are determined: every pinned version is found, every input has a version
-- by itself, and all of them together have the versions m.
pub record IsDetermined (find : FindVersion) (db : VersionsDb) (inputs : List JobInput)
    (configs : List InputConfig) (m : InputMapping) : Type 0 where
  pub found : All (IsFound find) inputs
  pub alone : All (Resolves db) configs
  pub together : resolve db configs ≡ resolved m

-- What is returned, and what the database has then.
abbrev pub IsMapped :
    FindVersion
    → VersionsDb
    → List JobInput
    → List InputConfig
    → Option InputMapping
    → JobRows
    → Type 0
IsMapped find db inputs configs none after =
    ((m : InputMapping) → IsDetermined find db inputs configs m → ⊥)
    × (after.inputs_determined ≡ false)
    × (after.next_build_inputs ≡ [])
IsMapped find db inputs configs (some m) after =
    IsDetermined find db inputs configs m
    × (after.inputs_determined ≡ true)
    × ((name : String) → lookup_input name after.next_build_inputs ≡ lookup_input name m)

abbrev pub IsKept : JobRows → JobRows → Type 0
IsKept rows after = IsStored after × (after.pending_builds ≡ rows.pending_builds)

abbrev pub DoSave : Calls → Type 0
DoSave calls =
    (calls.saves_independent ≡ true) × (calls.deletes_next ≡ true) × (calls.saves_next ≡ true)

-- An error, too, leaves unique names and the pending builds; and a call did not work.
abbrev pub HasMapped :
    Calls → VersionsDb → List JobInput → List InputConfig → JobRows → Outcome → Type 0
HasMapped calls db inputs configs rows (none, after) = IsKept rows after × (DoSave calls → ⊥)
HasMapped calls db inputs configs rows (some o, after) =
    IsKept rows after × IsMapped calls.find_version db inputs configs o after

length-config_names : (configs : List InputConfig) → length (config_names configs) ≡ length configs
length-config_names [] = refl
length-config_names (c ∷ configs) = ap suc (length-config_names configs)

length-names_of : (inputs : List JobInput) → length (names_of inputs) ≡ length inputs
length-names_of [] = refl
length-names_of (i ∷ inputs) = ap suc (length-names_of inputs)

nothing-missing : (ns : List String) → All (λ n. lookup_input n [] ≡ none) ns
unfolding lookup_input
nothing-missing [] = tt
nothing-missing (n ∷ ns) = (refl, nothing-missing ns)

ltb_apart : (a b : ℕ) → ltb a b ≡ true → a ≢ b
ltb_apart a b h e = ground (arith, ltb→lt a b h)

-- A call that leaves the rows `good` where it works, and an error where it does not.
then_do_cases :
    (P : Outcome → Type 0) (works : Bool) (o : Option JobRows) (good rows : JobRows)
    (next : JobRows → Outcome)
    → o ≡ (if works then some good else none)
    → P (next good)
    → (works ≢ true → P (none, rows))
    → P (then_do o rows next)
then_do_cases P true o good rows next e p q = subst (λ x. P (then_do x rows next)) (sym e) p
then_do_cases P false o good rows next e p q =
    subst (λ x. P (then_do x rows next)) (sym e) (q (λ h. ground arith))

resolved≢unresolved : (m : InputMapping) → resolved m ≢ unresolved
resolved≢unresolved m e = ground arith

module _ (calls : Calls) (db : VersionsDb) (inputs : List JobInput)
    (configs : List InputConfig) where
  forget_next-HasMapped :
      (rows : JobRows)
      → IsStored rows
      → ((m : InputMapping) → IsDetermined calls.find_version db inputs configs m → ⊥)
      → HasMapped calls db inputs configs rows (forget_next calls rows)
  unfolding forget_next delete_next_input_mapping
  forget_next-HasMapped rows s undetermined =
      then_do_cases (HasMapped calls db inputs configs rows) calls.deletes_next _ _ rows _ refl
        (
          (record { independent = IsStored.independent s; next = tt }, refl),
          (undetermined, refl, refl),
        )
        (λ fails. ((s, refl), λ w. fails w.1))

  store_next-HasMapped :
      (r : Resolution) (rows : JobRows)
      → IsStored rows
      → All (IsFound calls.find_version) inputs
      → All (Resolves db) configs
      → resolve db configs ≡ r
      → HasMapped calls db inputs configs rows (store_next calls r rows)
  unfolding store_next
  store_next-HasMapped no_answer rows s f a e = absurd (resolve-terminates db configs e)
  store_next-HasMapped unresolved rows s f a e =
      forget_next-HasMapped rows s
        (λ m d. resolved≢unresolved m (sym (IsDetermined.together d) ∙ e))
  store_next-HasMapped (resolved m) rows s f a e =
      let (t, saved, u, same) =
        save_rows_lem rows.next_build_inputs m (IsStored.next s)
          (IsUnique-resolve db configs m e) in
      then_do_cases (HasMapped calls db inputs configs rows) calls.saves_next _ _ rows _
        (save_next_inputs_lem calls.saves_next m t rows saved)
        (
          (record { independent = IsStored.independent s; next = u }, refl),
          (record { found = f; alone = a; together = e }, refl, same),
        )
        (λ fails. ((s, refl), λ w. fails w.2))

  -- The count says whether all pinned versions are found and each input resolves by itself.
  counted-HasMapped :
      (job_name : String) (rows : JobRows)
      → IsStored rows
      → AreDistinct (names_of inputs)
      → transform_input_configs calls.find_version db job_name inputs ≡ some configs
      → HasMapped calls db inputs configs rows (
          if ltb (length (independent_mapping db [] configs)) (length inputs)
          then forget_next calls rows
          else store_next calls (resolve db configs) rows)
  counted-HasMapped job_name rows s d e =
      let count = length (independent_mapping db [] configs) in
      elim (Bool-cases (ltb count (length inputs))) [
        | inl few ↦ rw few (
            forget_next-HasMapped rows s (λ m determined.
              let names =
                IsFound-names calls.find_version db job_name inputs configs e
                  (IsDetermined.found determined) in
              let full =
                Resolves-full db [] configs (subst AreDistinct (sym names) d)
                  (nothing-missing (config_names configs)) (IsDetermined.alone determined) in
              let sizes =
                sym (length-config_names configs) ∙ ap length names ∙ length-names_of inputs in
              ltb_apart count (length inputs) few (omega (arith, full, sizes))))
        | inr enough ↦
            let bound = length-independent_mapping db [] configs in
            let bound' = length-transform calls.find_version db job_name inputs configs e in
            rw enough (
              store_next-HasMapped (resolve db configs) rows s
                (full-IsFound calls.find_version db job_name inputs configs e (ground arith))
                (full-Resolves db [] configs (ground arith)) refl)
      ]

  pub map_inputs-HasMapped :
      (job_name : String) (rows : JobRows)
      → IsStored rows
      → AreDistinct (names_of inputs)
      → transform_input_configs calls.find_version db job_name inputs ≡ some configs
      → HasMapped calls db inputs configs rows (map_inputs calls db inputs configs rows)
  unfolding map_inputs
  map_inputs-HasMapped job_name rows s d e =
      let singles = independent_mapping db [] configs in
      let (t, saved, u, same) =
        save_rows_lem rows.independent_build_inputs singles (IsStored.independent s)
          (IsUnique-independent_mapping db [] configs tt) in
      then_do_cases (HasMapped calls db inputs configs rows) calls.saves_independent _ _ rows _
        (save_independent_input_mapping_lem calls.saves_independent singles t rows saved)
        (counted-HasMapped job_name (record rows { independent_build_inputs = t })
          (record { independent = u; next = IsStored.next s }) d e)
        (λ fails. ((s, refl), λ w. fails w.0))
