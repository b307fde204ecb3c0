-- ===== src/Algorithm/Database/Latest.antt =====
-- The walks over the versions of a resource: the latest one, and the one with an id.
use atc.Prelude.{
  ℕ, ◌≤◌, ◌≡◌, sym, ◌⊎◌, inl, inr, ◌&&◌, Option, none, some, some-injective, List, [], ◌∷◌, ltb,
  ◌==◌, if◌then◌else◌, arith, Bool-cases, All, Any,
}
use atc.Algorithm.Versions.{VersionCandidate}
use atc.Algorithm.Database.{
  ResourceVersion, VersionsDb, unpassed, order_so_far, latest_from, latest_version_of_resource,
}

abbrev pub IsOf : ℕ → VersionCandidate → ResourceVersion → Type 0
IsOf r c v = (v.resource_id ≡ r) × (c ≡ unpassed v)

-- One round of the walk.
abbrev round : ℕ → Option VersionCandidate → ResourceVersion → Option VersionCandidate
round r acc v =
    if v.resource_id == r && ltb (order_so_far acc) v.check_order then some (unpassed v) else acc

round-order :
    (r : ℕ) (acc : Option VersionCandidate) (v : ResourceVersion)
    → (order_so_far acc ≤ order_so_far (round r acc v))
      × (v.resource_id ≡ r → v.check_order ≤ order_so_far (round r acc v))
round-order r acc v = (ground arith, λ e. ground arith)

latest_from-order :
    (r : ℕ) (acc : Option VersionCandidate) (vs : List ResourceVersion)
    → (order_so_far acc ≤ order_so_far (latest_from r acc vs))
      × All (λ v. v.resource_id ≡ r → v.check_order ≤ order_so_far (latest_from r acc vs)) vs
unfolding latest_from
latest_from-order r acc [] = (omega arith, tt)
latest_from-order r acc (v ∷ vs) =
    let (kept, met) = round-order r acc v in
    let (up, all) = latest_from-order r (round r acc v) vs in
    (omega (arith, kept, up), ((λ same. omega (arith, met same, up)), all))

latest_from-found :
    (r : ℕ) (acc : Option VersionCandidate) (vs : List ResourceVersion) (c : VersionCandidate)
    → latest_from r acc vs ≡ some c
    → (acc ≡ some c) ⊎ Any (IsOf r c) vs
unfolding latest_from
latest_from-found r acc [] c e = inl e
latest_from-found r acc (v ∷ vs) c e =
    elim (Bool-cases (v.resource_id == r && ltb (order_so_far acc) v.check_order)) [
      | inl k ↦ elim (latest_from-found r (some (unpassed v)) vs c (rw k at e)) [
        | inl same ↦ inr (inl (ground arith, sym (some-injective _ _ same)))
        | inr later ↦ inr (inr later)
      ]
      | inr k ↦ elim (latest_from-found r acc vs c (rw k at e)) [
        | inl same ↦ inl same
        | inr later ↦ inr (inr later)
      ]
    ]

-- The latest version of a resource has the greatest check order of its versions, and is one of
-- them; where none is found, all of its versions have check order 0.
pub latest_version_lem :
    (db : VersionsDb) (r : ℕ)
    → All
        (λ v. v.resource_id ≡ r → v.check_order ≤ order_so_far (latest_version_of_resource db r))
        db.resource_versions
      × ((c : VersionCandidate)
          → latest_version_of_resource db r ≡ some c
          → Any (IsOf r c) db.resource_versions)
unfolding latest_version_of_resource
latest_version_lem db r = (
  (latest_from-order r none db.resource_versions).1,
  λ c e. elim (latest_from-found r none db.resource_versions c e) [
    | inl no_start ↦ absurd (ground arith)
    | inr found ↦ found
  ],
)
