-- ===== src/Algorithm/Versions/Order.antt =====
-- Versions are kept in descending check order.
use atc.Prelude.{
  ℕ, zero, suc, ◌≤◌, ◌<◌, ◌≡◌, refl, ap, inl, inr, true, false, some, Option-cases, List, [], ◌∷◌,
  ◌++◌, length, get_elem?, set, ◌==◌, arith, Bool-cases, ==_iff,
}
use atc.Algorithm.Search.{search-IsFirst}
use atc.Algorithm.Versions.{
  VersionCandidate, Version, new_version, order_at_most, place, insert_at, put_version,
  record_build, with_candidate, absorb_version, merge,
}

-- The first version, if there is one, has an order of at most o.
abbrev pub IsAtMost : ℕ → List Version → Type 0
IsAtMost o [] = Unit
IsAtMost o (v ∷ vs) = v.order ≤ o

abbrev pub IsDescending : List Version → Type 0
IsDescending [] = Unit
IsDescending (v ∷ vs) = IsAtMost v.order vs × IsDescending vs

insert_at-IsDescending :
    (i : ℕ) (new : Version) (vs : List Version)
    → IsDescending vs
    → i ≤ length vs
    → ((k : ℕ) → suc k ≡ i → order_at_most vs new.order k ≡ false)
    → (i < length vs → order_at_most vs new.order i ≡ true)
    → IsDescending (insert_at i new vs)
unfolding insert_at order_at_most
insert_at-IsDescending zero new [] d r lo hi = (tt, tt)
insert_at-IsDescending zero new (w ∷ vs) d r lo hi = (ground (arith, hi (omega arith)), d)
insert_at-IsDescending (suc i) new [] d r lo hi = (tt, tt)
insert_at-IsDescending (suc zero) new (w ∷ vs) d r lo hi = (
  ground (arith, lo zero refl),
  insert_at-IsDescending zero new vs d.1 (omega arith) (λ k e. absurd (omega arith))
      (λ h. hi (omega arith)),
)
insert_at-IsDescending (suc (suc i)) new (w ∷ []) d r lo hi = absurd (omega arith)
insert_at-IsDescending (suc (suc i)) new (w ∷ x ∷ vs) d r lo hi = (
  d.0,
  insert_at-IsDescending (suc i) new (x ∷ vs) d.1 (omega arith) (λ k e. lo (suc k) (ap suc e))
      (λ h. hi (omega arith)),
)

-- Appending at the end is inserting there.
append-insert_at :
    (new : Version) (vs : List Version) → vs ++ new ∷ [] ≡ insert_at (length vs) new vs
unfolding insert_at
append-insert_at new [] = refl
append-insert_at new (w ∷ vs) = ap (λ l. w ∷ l) (append-insert_at new vs)

set-IsDescending :
    (i : ℕ) (old new : Version) (vs : List Version)
    → IsDescending vs
    → get_elem? vs i ≡ some old
    → new.order ≡ old.order
    → IsDescending (set vs i new)
set-IsDescending i old new [] d e o = cc
set-IsDescending zero old new (v ∷ []) d e o = (tt, tt)
set-IsDescending zero old new (v ∷ w ∷ vs) d e o = (ground arith, d.1)
set-IsDescending (suc zero) old new (v ∷ []) d e o = cc
set-IsDescending (suc zero) old new (v ∷ w ∷ vs) d e o =
    (ground arith, set-IsDescending zero old new (w ∷ vs) d.1 e o)
set-IsDescending (suc (suc i)) old new (v ∷ []) d e o = cc
set-IsDescending (suc (suc i)) old new (v ∷ w ∷ vs) d e o =
    (d.0, set-IsDescending (suc i) old new (w ∷ vs) d.1 e o)

put_version-IsDescending :
    (new : Version) (known : Version → Version) (vs : List Version)
    → ((v : Version) → (known v).order ≡ v.order)
    → IsDescending vs
    → IsDescending (put_version new known vs)
unfolding put_version place
put_version-IsDescending new known vs same d =
    let o = new.order in
    let found = search-IsFirst (length vs) (order_at_most vs o) in
    elim (Bool-cases (place vs o == length vs)) [
      | inl end ↦
          rw (end, append-insert_at new vs, ← (==_iff _ _).0 end)
            (insert_at-IsDescending (place vs o) new vs d found.in_range found.below found.here)
      | inr e ↦ elim (Option-cases (get_elem? vs (place vs o))) [
        | inl gone ↦ rw (e, gone) d
        | inr (v, at) ↦ elim (Bool-cases (v.id == new.id)) [
          | inl old ↦ rw (e, at, old) (set-IsDescending (place vs o) v (known v) vs d at (same v))
          | inr other ↦
              rw (e, at, other)
                (insert_at-IsDescending (place vs o) new vs d found.in_range found.below found.here)
        ]
      ]
    ]

pub with_candidate-IsDescending :
    (vs : List Version) (c : VersionCandidate)
    → IsDescending vs
    → IsDescending (with_candidate vs c)
unfolding with_candidate
with_candidate-IsDescending vs c d =
    put_version-IsDescending (new_version c) (record_build c) vs (λ v. ground arith) d

-- Merging a version keeps the versions in descending check order.
pub merge-IsDescending :
    (vs : List Version) (w : Version) → IsDescending vs → IsDescending (merge vs w)
unfolding merge
merge-IsDescending vs w d = put_version-IsDescending w (absorb_version w) vs (λ v. refl) d
