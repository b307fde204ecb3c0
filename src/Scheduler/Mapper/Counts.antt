-- ===== src/Scheduler/Mapper/Counts.antt =====
-- The input mapper's count: it has as many single mappings as the job has inputs exactly if every
-- pinned version is found and every input resolves by itself.
use Prim.Native.String.{String}
use text.Mathlib.Text.{◌==◌ as str_eq}
use text.Mathlib.TextEquality.{eq_iff}
use atc.Prelude.{
  ℕ, suc, ◌+◌, ◌≤◌, ◌≡◌, ◌≢◌, refl, ap, subst, ◌∙◌, none, some, List, [], ◌∷◌, length, All, arith,
  Bool-cases, Option-cases, inl, inr, if◌then◌else◌,
}
use atc.Algorithm.Database.{VersionsDb}
use atc.Algorithm.Resolve.{
  InputConfig, InputVersion, InputMapping, put_input, Resolution, no_answer, unresolved, resolved,
  resolve, mapping_from, resolution_of, gather,
}
use atc.Algorithm.Inputs.{Answer, out_of_fuel, not_found, found, reduce}
use atc.Algorithm.Resolve.Sound.{config_names}
use atc.Scheduler.Tables.{lookup_input, IsUnique}
use atc.Scheduler.Mapper.{version_in, add_singleton, independent_mapping}

pub lookup-put_input :
    (name k : String) (v : InputVersion) (m : InputMapping)
    → lookup_input name (put_input k v m) ≡ (if str_eq k name then some v else lookup_input name m)
unfolding lookup_input put_input
lookup-put_input name k v [] = refl
lookup-put_input name k v ((n, w) ∷ m) =
    ground (arith, eq_iff n k, eq_iff n name, eq_iff k name, lookup-put_input name k v m)

pub IsUnique-put_input :
    (k : String) (v : InputVersion) (m : InputMapping) → IsUnique m → IsUnique (put_input k v m)
unfolding put_input lookup_input
IsUnique-put_input k v [] u = (refl, tt)
IsUnique-put_input k v ((n, w) ∷ m) u = elim (Bool-cases (str_eq n k)) [
  | inl e ↦ rw e (ground (arith, eq_iff n k, u.0), u.1)
  | inr e ↦ rw e (
    ground (arith, lookup-put_input n k v m, eq_iff n k, eq_iff k n, u.0),
    IsUnique-put_input k v m u.1,
  )
]

length-put_input :
    (k : String) (v : InputVersion) (m : InputMapping)
    → length (put_input k v m) ≡ length m + (elim (lookup_input k m) [ none ↦ 1 | some w ↦ 0 ])
unfolding put_input lookup_input
length-put_input k v [] = refl
length-put_input k v ((n, w) ∷ m) = ground (arith, length-put_input k v m)

IsUnique-mapping_from :
    (db : VersionsDb) (basic : List (String × ℕ)) (acc : InputMapping) (configs : List InputConfig)
    → IsUnique acc
    → IsUnique (mapping_from db basic acc configs)
unfolding mapping_from
IsUnique-mapping_from db basic acc [] u = u
IsUnique-mapping_from db basic acc (c ∷ configs) u =
    IsUnique-mapping_from db basic (put_input c.name _ acc) configs
      (IsUnique-put_input c.name _ acc u)

IsUnique-add_singleton :
    (name : String) (r : Resolution) (acc : InputMapping)
    → IsUnique acc
    → IsUnique (add_singleton name r acc)
unfolding add_singleton
IsUnique-add_singleton name no_answer acc u = u
IsUnique-add_singleton name unresolved acc u = u
IsUnique-add_singleton name (resolved m) acc u = IsUnique-put_input name (version_in name m) acc u

pub IsUnique-independent_mapping :
    (db : VersionsDb) (acc : InputMapping) (configs : List InputConfig)
    → IsUnique acc
    → IsUnique (independent_mapping db acc configs)
unfolding independent_mapping
IsUnique-independent_mapping db acc [] u = u
IsUnique-independent_mapping db acc (c ∷ configs) u =
    IsUnique-independent_mapping db (add_singleton c.name (resolve db (c ∷ [])) acc) configs
      (IsUnique-add_singleton c.name (resolve db (c ∷ [])) acc u)

IsUnique-resolution_of :
    (db : VersionsDb) (configs : List InputConfig) (a : Answer) (m : InputMapping)
    → resolution_of db configs a ≡ resolved m
    → IsUnique m
unfolding resolution_of
IsUnique-resolution_of db configs out_of_fuel m e = absurd (ground arith)
IsUnique-resolution_of db configs not_found m e = absurd (ground arith)
IsUnique-resolution_of db configs (found basic) m e =
    subst IsUnique (ground (arith, e)) (IsUnique-mapping_from db basic [] configs tt)

pub IsUnique-resolve :
    (db : VersionsDb) (configs : List InputConfig) (m : InputMapping)
    → resolve db configs ≡ resolved m
    → IsUnique m
unfolding resolve
IsUnique-resolve db configs m e = elim (Option-cases (gather db [] [] configs)) [
  | inl none_left ↦ absurd (ground arith)
  | inr ((jobs, cs), g) ↦
      IsUnique-resolution_of db configs (reduce (suc (length configs)) jobs cs) m (ground arith)
]

-- The input has a version by itself.
abbrev pub Resolves : VersionsDb → InputConfig → Type 0
Resolves db c = (m : InputMapping) × (resolve db (c ∷ []) ≡ resolved m)

length-add_singleton :
    (name : String) (r : Resolution) (acc : InputMapping)
    → length (add_singleton name r acc) ≤ suc (length acc)
unfolding add_singleton
length-add_singleton name no_answer acc = ground arith
length-add_singleton name unresolved acc = ground arith
length-add_singleton name (resolved m) acc =
    ground (arith, length-put_input name (version_in name m) acc)

grown_by_singleton :
    (name : String) (r : Resolution) (acc : InputMapping)
    → suc (length acc) ≤ length (add_singleton name r acc)
    → (m : InputMapping) × (r ≡ resolved m)
unfolding add_singleton
grown_by_singleton name no_answer acc h = absurd (ground arith)
grown_by_singleton name unresolved acc h = absurd (ground arith)
grown_by_singleton name (resolved m) acc h = (m, refl)

pub length-independent_mapping :
    (db : VersionsDb) (acc : InputMapping) (configs : List InputConfig)
    → length (independent_mapping db acc configs) ≤ length acc + length configs
unfolding independent_mapping
length-independent_mapping db acc [] = ground arith
length-independent_mapping db acc (c ∷ configs) = omega (
  arith,
  length-add_singleton c.name (resolve db (c ∷ [])) acc,
  length-independent_mapping db (add_singleton c.name (resolve db (c ∷ [])) acc) configs,
)

-- If there is a mapping for each configuration, each resolves by itself;
pub full-Resolves :
    (db : VersionsDb) (acc : InputMapping) (configs : List InputConfig)
    → length acc + length configs ≤ length (independent_mapping db acc configs)
    → All (Resolves db) configs
unfolding independent_mapping
full-Resolves db acc [] h = tt
full-Resolves db acc (c ∷ configs) h =
    let acc' = add_singleton c.name (resolve db (c ∷ [])) acc in
    let bound = length-independent_mapping db acc' configs in
    let step = length-add_singleton c.name (resolve db (c ∷ [])) acc in
    (
      grown_by_singleton c.name (resolve db (c ∷ [])) acc (omega (arith, bound, h)),
      full-Resolves db acc' configs (omega (arith, step, h)),
    )

abbrev pub AreDistinct : List String → Type 0
AreDistinct [] = Unit
AreDistinct (n ∷ ns) = All (λ m. n ≢ m) ns × AreDistinct ns

length-put_new :
    (k : String) (v : InputVersion) (m : InputMapping)
    → lookup_input k m ≡ none
    → length (put_input k v m) ≡ suc (length m)
length-put_new k v m h = ground (arith, length-put_input k v m, h)

put_input-missing :
    (k : String) (v : InputVersion) (m : InputMapping) (ns : List String)
    → All (λ n. k ≢ n) ns
    → All (λ n. lookup_input n m ≡ none) ns
    → All (λ n. lookup_input n (put_input k v m) ≡ none) ns
put_input-missing k v m [] d h = tt
put_input-missing k v m (n ∷ ns) d h = (
  ground (arith, lookup-put_input n k v m, eq_iff k n, d.0, h.0),
  put_input-missing k v m ns d.1 h.1,
)

-- and the other way round where the names are distinct.
pub Resolves-full :
    (db : VersionsDb) (acc : InputMapping) (configs : List InputConfig)
    → AreDistinct (config_names configs)
    → All (λ n. lookup_input n acc ≡ none) (config_names configs)
    → All (Resolves db) configs
    → length (independent_mapping db acc configs) ≡ length acc + length configs
unfolding independent_mapping add_singleton
Resolves-full db acc [] d new r = omega arith
Resolves-full db acc (c ∷ configs) d new ((m, e), r) =
    let acc' = put_input c.name (version_in c.name m) acc in
    let one_more = length-put_new c.name (version_in c.name m) acc new.0 in
    let rest =
      Resolves-full db acc' configs d.1
        (put_input-missing c.name (version_in c.name m) acc (config_names configs) d.0 new.1) r in
    ap (λ o. length (independent_mapping db (add_singleton c.name o acc) configs)) e
    ∙ rest
    ∙ omega (arith, one_more)
