-- ===== src/Scheduler/Tables/Deleted.antt =====
-- What the deletion of changed rows leaves in a table.
use Prim.Native.String.{String}
use text.Mathlib.Text.{◌==◌ as str_eq}
use text.Mathlib.TextEquality.{eq_iff}
use atc.Prelude.{
  Bool, true, false, Option, none, some, some-injective, [], ◌∷◌, ◌≡◌, refl, ap, arith, Bool-cases,
  inl, inr, ◌↔◌, if◌then◌else◌,
}
use atc.Algorithm.Resolve.{InputVersion, InputMapping}
use atc.Scheduler.Tables.{bool_eq, lookup_input, IsUnique, is_same, delete_row, delete_changed}

-- What deletion leaves of a row, where the old rows have the entry `old` of its name.
unfoldable pub kept :
    Option InputVersion → Option InputVersion → Option InputVersion → Option InputVersion
kept new none row = row
kept new (some w) row = if is_same new w then row else none

lookup-delete_row :
    (name n : String) (rows : InputMapping)
    → lookup_input name (delete_row n rows)
      ≡ (if str_eq n name then none else lookup_input name rows)
unfolding lookup_input delete_row
lookup-delete_row name n [] = ground arith
lookup-delete_row name n ((k, v) ∷ rows) =
    ground (arith, eq_iff k n, eq_iff k name, eq_iff n name, lookup-delete_row name n rows)

bool_eq_iff : (a b : Bool) → (bool_eq a b ≡ true) ↔ (a ≡ b)
bool_eq_iff true true = ground arith
bool_eq_iff true false = ground arith
bool_eq_iff false true = ground arith
bool_eq_iff false false = ground arith

InputVersion_eq :
    (v w : InputVersion)
    → v.version_id ≡ w.version_id
    → v.first_occurrence ≡ w.first_occurrence
    → v ≡ w
InputVersion_eq v w p q i = record { version_id = p i; first_occurrence = q i }

pub is_same_iff : (o : Option InputVersion) (w : InputVersion) → (is_same o w ≡ true) ↔ (o ≡ some w)
unfolding is_same
is_same_iff none w = ground arith
is_same_iff (some v) w = (
  λ h. ap some (
      InputVersion_eq v w (ground (arith, bool_eq_iff v.first_occurrence w.first_occurrence))
        (ground (arith, bool_eq_iff v.first_occurrence w.first_occurrence))),
  λ h. ground (
    arith,
    bool_eq_iff v.first_occurrence w.first_occurrence,
    ap InputVersion.version_id (some-injective v w h),
    ap InputVersion.first_occurrence (some-injective v w h),
  ),
)

pub lookup-delete_changed :
    (name : String) (m olds rows : InputMapping)
    → IsUnique olds
    → lookup_input name (delete_changed m olds rows)
      ≡ kept (lookup_input name m) (lookup_input name olds) (lookup_input name rows)
unfolding lookup_input delete_changed kept
lookup-delete_changed name m [] rows u = refl
lookup-delete_changed name m ((k, w) ∷ olds) rows u =
    let changed = if is_same (lookup_input k m) w then rows else delete_row k rows in
    elim (Bool-cases (is_same (lookup_input k m) w)) [
      | inl e ↦ ground (arith, e, eq_iff k name, lookup-delete_changed name m olds rows u.1, u.0)
      | inr e ↦ ground (
        arith,
        e,
        eq_iff k name,
        lookup-delete_changed name m olds (delete_row k rows) u.1,
        u.0,
        lookup-delete_row name k rows,
      )
    ]

IsUnique-delete_row :
    (n : String) (rows : InputMapping) → IsUnique rows → IsUnique (delete_row n rows)
unfolding delete_row
IsUnique-delete_row n [] u = tt
IsUnique-delete_row n ((k, v) ∷ rows) u = elim (Bool-cases (str_eq k n)) [
  | inl e ↦ rw e (IsUnique-delete_row n rows u.1)
  | inr e ↦ rw e (ground (arith, lookup-delete_row k n rows, u.0), IsUnique-delete_row n rows u.1)
]

pub IsUnique-delete_changed :
    (m olds rows : InputMapping) → IsUnique rows → IsUnique (delete_changed m olds rows)
unfolding delete_changed
IsUnique-delete_changed m [] rows u = u
IsUnique-delete_changed m ((k, w) ∷ olds) rows u =
    elim (Bool-cases (is_same (lookup_input k m) w)) [
      | inl e ↦ rw e (IsUnique-delete_changed m olds rows u)
      | inr e ↦
          rw e (IsUnique-delete_changed m olds (delete_row k rows) (IsUnique-delete_row k rows u))
    ]
