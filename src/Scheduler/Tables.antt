-- ===== src/Scheduler/Tables.antt =====
-- db/job.go: the rows that a job has in the tables of build inputs, and its pending builds.
pub mod Deleted
pub mod Saved
use Prim.Native.String.{String}
use text.Mathlib.Text.{◌==◌ as str_eq}
use atc.Prelude.{
  ℕ, Bool, true, false, not, ◌&&◌, Option, none, some, List, [], ◌∷◌, ◌++◌, ◌==◌, ◌≡◌,
  if◌then◌else◌,
}
use atc.Algorithm.Resolve.{InputVersion, InputMapping}

-- What the database holds of one job. The names of the rows in a table are unique
-- (next_build_inputs_unique_job_id_input_name, and the same for independent_build_inputs).
pub record JobRows : Type 0 where
  pub independent_build_inputs : InputMapping
  pub next_build_inputs : InputMapping
  pub inputs_determined : Bool
  pub pending_builds : ℕ

-- inputVersion, found := inputMapping[inputName]
unfoldable pub lookup_input : String → InputMapping → Option InputVersion
lookup_input name [] = none
lookup_input name ((n, v) ∷ m) = if str_eq n name then some v else lookup_input name m

abbrev pub IsUnique : InputMapping → Type 0
IsUnique [] = Unit
IsUnique ((n, v) ∷ m) = (lookup_input n m ≡ none) × IsUnique m

abbrev pub bool_eq : Bool → Bool → Bool
bool_eq true b = b
bool_eq false b = not b

-- Whether an entry is found and is the same: the negation of the loops' conditions.
unfoldable pub is_same : Option InputVersion → InputVersion → Bool
is_same none w = false
is_same (some v) w = v.version_id == w.version_id && bool_eq v.first_occurrence w.first_occurrence

unfoldable pub delete_row : String → InputMapping → InputMapping
delete_row name [] = []
delete_row name ((n, v) ∷ rows) =
    let rest = delete_row name rows in if str_eq n name then rest else (n, v) ∷ rest

-- An insertion fails where the table has a row of the name.
unfoldable pub insert_row : String → InputVersion → InputMapping → Option InputMapping
insert_row name v rows = elim (lookup_input name rows) [
  | none ↦ some (rows ++ (name, v) ∷ [])
  | some w ↦ none
]

-- The loop over the old rows.
unfoldable pub delete_changed : InputMapping → InputMapping → InputMapping → InputMapping
delete_changed mapping [] rows = rows
delete_changed mapping ((n, old) ∷ olds) rows =
    delete_changed mapping olds
      (if is_same (lookup_input n mapping) old then rows else delete_row n rows)

-- if err != nil { return err }
abbrev pub if_works {ℓ κ} : {A : Type ℓ} {B : Type κ} → Option A → (A → Option B) → Option B
if_works none next = none
if_works (some a) next = next a

-- One round of the loop over the new entries; and the loop, which ends at the first error.
unfoldable pub insert_entry :
    InputMapping → String → InputVersion → InputMapping → Option InputMapping
unfolding insert_row
insert_entry olds n v rows =
    if is_same (lookup_input n olds) v then some rows else insert_row n v rows

unfoldable pub insert_changed : InputMapping → InputMapping → InputMapping → Option InputMapping
unfolding insert_entry
insert_changed olds [] rows = some rows
insert_changed olds ((n, v) ∷ mapping) rows =
    if_works (insert_entry olds n v rows) (λ rows'. insert_changed olds mapping rows')

-- The rows that saveJobInputMapping leaves.
unfoldable pub save_rows : InputMapping → InputMapping → Option InputMapping
unfolding delete_changed insert_changed
save_rows rows mapping = insert_changed rows mapping (delete_changed mapping rows rows)

-- saveJobInputMapping on either table. `works` says whether the statements work otherwise, and a
-- transaction that fails leaves the rows as they were.
unfoldable pub save_independent_input_mapping : Bool → InputMapping → JobRows → Option JobRows
unfolding save_rows
save_independent_input_mapping works mapping rows =
    elim (save_rows rows.independent_build_inputs mapping) [
      | none ↦ none
      | some t ↦ if works then some (record rows { independent_build_inputs = t }) else none
    ]

unfoldable pub save_next_inputs : Bool → InputMapping → JobRows → Option JobRows
unfolding save_rows
save_next_inputs works mapping rows = elim (save_rows rows.next_build_inputs mapping) [
  | none ↦ none
  | some t ↦
      if works then some (record rows { next_build_inputs = t; inputs_determined = true }) else none
]

unfoldable pub delete_next_input_mapping : Bool → JobRows → Option JobRows
delete_next_input_mapping works rows =
    if works then some (record rows { next_build_inputs = []; inputs_determined = false }) else none

-- A build is added where none of the job is pending.
unfoldable pub ensure_pending_build_exists : Bool → JobRows → Option JobRows
ensure_pending_build_exists works rows =
    if works
    then some (record rows {
      pending_builds = if rows.pending_builds == 0 then 1 else rows.pending_builds;
    })
    else none
