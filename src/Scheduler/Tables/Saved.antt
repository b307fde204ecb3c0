-- ===== src/Scheduler/Tables/Saved.antt =====
-- What saveJobInputMapping leaves in a table.
use Prim.Native.String.{String}
use text.Mathlib.Text.{◌==◌ as str_eq}
use text.Mathlib.TextEquality.{eq_iff}
use atc.Prelude.{
  Bool, true, false, Option, none, some, some-injective, [], ◌∷◌, ◌++◌, ◌≡◌, refl, ap, ◌∙◌, arith,
  Bool-cases, inl, inr, if◌then◌else◌,
}
use atc.Algorithm.Resolve.{InputVersion, InputMapping}
use atc.Scheduler.Tables.{
  if_works, lookup_input, IsUnique, is_same, insert_row, delete_changed, insert_entry,
  insert_changed, save_rows, JobRows, save_next_inputs, save_independent_input_mapping,
}
use atc.Scheduler.Tables.Deleted.{kept, is_same_iff, lookup-delete_changed, IsUnique-delete_changed}

-- The row of a name after one is appended.
unfoldable or_last : Option InputVersion → Option InputVersion → Option InputVersion
or_last none last = last
or_last (some w) last = some w

lookup-append :
    (name k : String) (v : InputVersion) (rows : InputMapping)
    → lookup_input name (rows ++ (k, v) ∷ [])
      ≡ or_last (lookup_input name rows) (if str_eq k name then some v else none)
unfolding lookup_input or_last
lookup-append name k v [] = refl
lookup-append name k v ((n, w) ∷ rows) = ground (arith, lookup-append name k v rows)

IsUnique-append :
    (k : String) (v : InputVersion) (rows : InputMapping)
    → IsUnique rows
    → lookup_input k rows ≡ none
    → IsUnique (rows ++ (k, v) ∷ [])
unfolding lookup_input or_last
IsUnique-append k v [] u h = (refl, tt)
IsUnique-append k v ((n, w) ∷ rows) u h = (
  ground (arith, lookup-append n k v rows, u.0, h, eq_iff n k, eq_iff k n),
  IsUnique-append k v rows u.1 (ground arith),
)

-- What insertion leaves of a row, where the new mapping has the entry `new` of its name.
unfoldable entered :
    Option InputVersion → Option InputVersion → Option InputVersion → Option InputVersion
entered old none row = row
entered old (some v) row = if is_same old v then row else some v

entered-kept : (new old : Option InputVersion) → entered old new (kept new old old) ≡ new
unfolding entered kept is_same
entered-kept none none = refl
entered-kept none (some w) = refl
entered-kept (some v) none = refl
entered-kept (some v) (some w) =
    ground (arith, is_same_iff (some v) w, is_same_iff (some w) v, some-injective v w)

kept_changed :
    (new old : Option InputVersion) (v : InputVersion)
    → new ≡ some v
    → is_same old v ≡ false
    → kept new old old ≡ none
unfolding kept
kept_changed new none v p q = refl
kept_changed new (some w) v p q = ground (arith, is_same_iff new w, is_same_iff (some w) v)

abbrev IsMissing : InputMapping → InputMapping → InputMapping → Type 0
IsMissing olds m rows =
    (name : String) (v : InputVersion)
    → lookup_input name m ≡ some v
    → is_same (lookup_input name olds) v ≡ false
    → lookup_input name rows ≡ none

-- The insertions end without an error.
insert_changed_lem :
    (olds m rows : InputMapping)
    → IsUnique m
    → IsUnique rows
    → IsMissing olds m rows
    → (rows' : InputMapping) × (insert_changed olds m rows ≡ some rows')
      × IsUnique rows'
      × ((name : String)
          → lookup_input name rows'
            ≡ entered (lookup_input name olds) (lookup_input name m) (lookup_input name rows))
unfolding insert_changed insert_entry insert_row entered lookup_input or_last
insert_changed_lem olds [] rows um u h = (rows, refl, u, λ name. refl)
insert_changed_lem olds ((k, v) ∷ m) rows um u h =
    elim (Bool-cases (is_same (lookup_input k olds) v)) [
      | inl e ↦
          let (rows', done, u', same) =
            insert_changed_lem olds m rows um.1 u
              (λ n w p q. h n w (ground (arith, eq_iff k n, um.0)) q) in
          let entry : insert_entry olds k v rows ≡ some rows = ground (arith, e) in
          (
            rows',
            ap (λ o. if_works o (λ r. insert_changed olds m r)) entry ∙ done,
            u',
            λ name. same name ∙ ground (arith, e, eq_iff k name, um.0),
          )
      | inr e ↦
          let gone : lookup_input k rows ≡ none = h k v (ground (arith, eq_iff k k)) e in
          let (rows', done, u', same) =
            insert_changed_lem olds m (rows ++ (k, v) ∷ []) um.1 (IsUnique-append k v rows u gone)
              (λ n w p q. ground (
                arith,
                lookup-append n k v rows,
                eq_iff k n,
                um.0,
                h n w (ground (arith, eq_iff k n, um.0)) q,
              )) in
          let insert_missing : insert_row k v rows ≡ some (rows ++ (k, v) ∷ []) =
            rw (gone, insert_row) refl in
          let entry : insert_entry olds k v rows ≡ some (rows ++ (k, v) ∷ []) =
            ground (arith, e, insert_missing) in
          (
            rows',
            ap (λ o. if_works o (λ r. insert_changed olds m r)) entry ∙ done,
            u',
            λ name.
                same name
                ∙ ground (arith, e, eq_iff k name, um.0, lookup-append name k v rows, gone),
          )
    ]

-- Saving a mapping works for every table, and the table holds the mapping afterwards.
pub save_rows_lem :
    (rows m : InputMapping)
    → IsUnique rows
    → IsUnique m
    → (rows' : InputMapping) × (save_rows rows m ≡ some rows')
      × IsUnique rows'
      × ((name : String) → lookup_input name rows' ≡ lookup_input name m)
unfolding save_rows kept entered
save_rows_lem rows m u um =
    let (rows', done, u', same) =
      insert_changed_lem rows m (delete_changed m rows rows) um
        (IsUnique-delete_changed m rows rows u)
        (λ n v p q.
          lookup-delete_changed n m rows rows u
          ∙ kept_changed (lookup_input n m) (lookup_input n rows) v p q) in
    (
      rows',
      done,
      u',
      λ name.
          same name
          ∙ ap (entered (lookup_input name rows) (lookup_input name m))
              (lookup-delete_changed name m rows rows u)
          ∙ entered-kept (lookup_input name m) (lookup_input name rows),
    )

-- The two calls, where the rows can be saved.
pub save_next_inputs_lem :
    (works : Bool) (m t : InputMapping) (rows : JobRows)
    → save_rows rows.next_build_inputs m ≡ some t
    → save_next_inputs works m rows ≡ (
        if works
        then some (record rows { next_build_inputs = t; inputs_determined = true })
        else none)
unfolding save_next_inputs
save_next_inputs_lem works m t rows h = rw (h, save_next_inputs) refl

pub save_independent_input_mapping_lem :
    (works : Bool) (m t : InputMapping) (rows : JobRows)
    → save_rows rows.independent_build_inputs m ≡ some t
    → save_independent_input_mapping works m rows
      ≡ (if works then some (record rows { independent_build_inputs = t }) else none)
unfolding save_independent_input_mapping
save_independent_input_mapping_lem works m t rows h = rw (h, save_independent_input_mapping) refl
