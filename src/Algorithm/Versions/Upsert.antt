-- ===== src/Algorithm/Versions/Upsert.antt =====
-- The binary search of With and Merge against a plain walk over the list.
use atc.Prelude.{
  ℕ, zero, suc, ◌≤◌, ◌<◌, ◌≡◌, refl, ap, ◌∙◌, false, none, some, List, [], ◌∷◌, ◌++◌, length,
  get_elem?, set, leb, ◌==◌, if◌then◌else◌, arith,
}
use atc.Algorithm.Search.{IsFirst, search-IsFirst}
use atc.Algorithm.Versions.{
  VersionCandidate, Version, new_version, order_at_most, place, insert_at, put_version,
  record_build, with_candidate, absorb_version, merge,
}
use atc.Algorithm.Versions.Order.{IsDescending}

-- Walk to the first version whose order is at most the new one's: record there if it has the new
-- one's id, and insert before it if not.
unfoldable pub upsert : Version → (Version → Version) → List Version → List Version
upsert new known [] = new ∷ []
upsert new known (v ∷ vs) =
    if leb v.order new.order
    then (if v.id == new.id then known v ∷ vs else new ∷ v ∷ vs)
    else v ∷ upsert new known vs

-- What put_version does at the index that the search gives.
abbrev put_at : ℕ → Version → (Version → Version) → List Version → List Version
put_at i new known vs = if i == length vs then vs ++ new ∷ [] else elim (get_elem? vs i) [
  | none ↦ vs
  | some v ↦ if v.id == new.id then set vs i (known v) else insert_at i new vs
]

above_first :
    (v : Version) (vs : List Version) (o k : ℕ)
    → IsDescending (v ∷ vs)
    → order_at_most (v ∷ vs) o k ≡ false
    → leb v.order o ≡ false
unfolding order_at_most
above_first v vs o zero d h = h
above_first v [] o (suc k) d h = cc
above_first v (w ∷ vs) o (suc k) d h = ground (arith, above_first w vs o k d.1 h)

IsFirst-tail :
    (v : Version) (vs : List Version) (o i : ℕ)
    → IsFirst (length (v ∷ vs)) (order_at_most (v ∷ vs) o) (suc i)
    → IsFirst (length vs) (order_at_most vs o) i
unfolding order_at_most
IsFirst-tail v vs o i h = record {
  in_range = omega (arith, h.in_range);
  below = λ k e. h.below (suc k) (ap suc e);
  here = λ l. h.here (omega arith);
}

put_at_cons :
    (i : ℕ) (new : Version) (known : Version → Version) (v : Version) (vs : List Version)
    → put_at (suc i) new known (v ∷ vs) ≡ v ∷ put_at i new known vs
unfolding insert_at
put_at_cons i new known v vs = ground arith

put_at-upsert :
    (i : ℕ) (new : Version) (known : Version → Version) (vs : List Version)
    → IsDescending vs
    → IsFirst (length vs) (order_at_most vs new.order) i
    → put_at i new known vs ≡ upsert new known vs
unfolding upsert insert_at order_at_most
put_at-upsert zero new known [] d h = refl
put_at-upsert (suc i) new known [] d h = absurd (omega (arith, h.in_range))
put_at-upsert zero new known (v ∷ vs) d h = ground (arith, h.here (omega arith))
put_at-upsert (suc i) new known (v ∷ vs) d h =
    put_at_cons i new known v vs
    ∙ ap (λ l. v ∷ l) (put_at-upsert i new known vs d.1 (IsFirst-tail v vs new.order i h))
    ∙ ground (arith, above_first v vs new.order i d (h.below i refl))

pub put_version-upsert :
    (new : Version) (known : Version → Version) (vs : List Version)
    → IsDescending vs
    → put_version new known vs ≡ upsert new known vs
unfolding put_version place
put_version-upsert new known vs d =
    put_at-upsert (place vs new.order) new known vs d
      (search-IsFirst (length vs) (order_at_most vs new.order))

pub merge-upsert :
    (vs : List Version) (w : Version)
    → IsDescending vs
    → merge vs w ≡ upsert w (absorb_version w) vs
unfolding merge
merge-upsert vs w d = put_version-upsert w (absorb_version w) vs d

-- On versions in descending order, adding a candidate and merging a version by binary search do
-- what the walk does, and keep the order.
pub insertion-upsert :
    (vs : List Version) (c : VersionCandidate) (w : Version)
    → IsDescending vs
    → (with_candidate vs c ≡ upsert (new_version c) (record_build c) vs)
      × (merge vs w ≡ upsert w (absorb_version w) vs)
unfolding with_candidate
insertion-upsert vs c w d =
    (put_version-upsert (new_version c) (record_build c) vs d, merge-upsert vs w d)

module _ (new : Version) (known : Version → Version) (v : Version) (vs : List Version) where
  pub upsert_known : v.order ≤ new.order → v.id ≡ new.id → upsert new known (v ∷ vs) ≡ known v ∷ vs
  unfolding upsert
  upsert_known h e = ground arith

  pub upsert_before :
      v.order ≤ new.order → (v.id == new.id) ≡ false → upsert new known (v ∷ vs) ≡ new ∷ v ∷ vs
  unfolding upsert
  upsert_before h e = ground arith

  pub upsert_after : new.order < v.order → upsert new known (v ∷ vs) ≡ v ∷ upsert new known vs
  unfolding upsert
  upsert_after h = ground arith
