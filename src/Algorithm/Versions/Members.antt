-- ===== src/Algorithm/Versions/Members.antt =====
-- What holds of every version, and which builds the versions passed, after an insertion.
use atc.Prelude.{
  ℕ, zero, suc, ◌≤◌, ◌≡◌, refl, ap, inl, inr, Bool, false, ◌||◌, some, Option-cases, List, [], ◌∷◌,
  ◌++◌, length, get_elem?, set, ◌==◌, arith, Bool-cases, All, ==_iff, length-le_of_none, subst,
  some-injective,
}
use atc.Algorithm.Search.{search-IsFirst}
use atc.Algorithm.Sets.{has, has-absorb, has-add_build, empty, builds, contains}
use atc.Algorithm.Versions.{
  VersionCandidate, Version, new_version, order_at_most, place, insert_at, put_version,
  record_build, with_candidate, absorb_version, merge,
}

module _ (P : Version → Type 0) where
  All-append_one : (vs : List Version) (w : Version) → All P vs → P w → All P (vs ++ w ∷ [])
  All-append_one [] w h p = (p, tt)
  All-append_one (v ∷ vs) w h p = (h.0, All-append_one vs w h.1 p)

  All-insert_at :
      (i : ℕ) (w : Version) (vs : List Version) → All P vs → P w → All P (insert_at i w vs)
  unfolding insert_at
  All-insert_at zero w vs h p = (p, h)
  All-insert_at (suc i) w [] h p = (p, tt)
  All-insert_at (suc i) w (v ∷ vs) h p = (h.0, All-insert_at i w vs h.1 p)

  All-set : (vs : List Version) (i : ℕ) (w : Version) → All P vs → P w → All P (set vs i w)
  All-set [] i w h p = tt
  All-set (v ∷ vs) zero w h p = (p, h.1)
  All-set (v ∷ vs) (suc i) w h p = (h.0, All-set vs i w h.1 p)

  pub All-get_elem? :
      (vs : List Version) (i : ℕ) {v : Version} → All P vs → get_elem? vs i ≡ some v → P v
  All-get_elem? [] i h e = cc
  All-get_elem? (v ∷ vs) zero h e = subst P (some-injective _ _ e) h.0
  All-get_elem? (v ∷ vs) (suc i) h e = All-get_elem? vs i h.1 e

  -- A property that recording at a version of the new one's id keeps holds of all versions.
  pub All-put_version :
      (new : Version) (known : Version → Version) (vs : List Version)
      → ((v : Version) → v.id ≡ new.id → P v → P (known v))
      → All P vs
      → P new
      → All P (put_version new known vs)
  unfolding put_version
  All-put_version new known vs keep h p =
      let i = place vs new.order in
      elim (Bool-cases (i == length vs)) [
        | inl end ↦ rw end (All-append_one vs new h p)
        | inr e ↦ elim (Option-cases (get_elem? vs i)) [
          | inl gone ↦ rw (e, gone) h
          | inr (v, at) ↦ elim (Bool-cases (v.id == new.id)) [
            | inl old ↦
                rw (e, at, old)
                  (All-set vs i (known v) h (keep v ((==_iff _ _).0 old) (All-get_elem? vs i h at)))
            | inr other ↦ rw (e, at, other) (All-insert_at i new vs h p)
          ]
        ]
      ]

place-le : (vs : List Version) (o : ℕ) → place vs o ≤ length vs
unfolding place
place-le vs o = (search-IsFirst (length vs) (order_at_most vs o)).in_range

-- Build b of job j is recorded at one of the versions.
unfoldable pub in_versions : ℕ → ℕ → List Version → Bool
in_versions j b [] = false
in_versions j b (v ∷ vs) = has j b v.passed || in_versions j b vs

pub has-empty : (j b : ℕ) → has j b empty ≡ false
unfolding has builds contains
has-empty j b = refl

module _ (j b : ℕ) where
  in_versions-append_one :
      (vs : List Version) (w : Version)
      → in_versions j b (vs ++ w ∷ []) ≡ (has j b w.passed || in_versions j b vs)
  unfolding in_versions
  in_versions-append_one [] w = refl
  in_versions-append_one (v ∷ vs) w = ground (arith, in_versions-append_one vs w)

  in_versions-insert_at :
      (i : ℕ) (w : Version) (vs : List Version)
      → in_versions j b (insert_at i w vs) ≡ (has j b w.passed || in_versions j b vs)
  unfolding in_versions insert_at
  in_versions-insert_at zero w vs = refl
  in_versions-insert_at (suc i) w [] = refl
  in_versions-insert_at (suc i) w (v ∷ vs) = ground (arith, in_versions-insert_at i w vs)

  in_versions-set :
      (vs : List Version) (i : ℕ) (v w : Version) (x : Bool)
      → get_elem? vs i ≡ some v
      → has j b w.passed ≡ (x || has j b v.passed)
      → in_versions j b (set vs i w) ≡ (x || in_versions j b vs)
  unfolding in_versions
  in_versions-set [] i v w x e h = cc
  in_versions-set (u ∷ vs) zero v w x e h =
      ground (arith, ap (λ (t : Version). has j b t.passed) (some-injective _ _ e))
  in_versions-set (u ∷ vs) (suc i) v w x e h = ground (arith, in_versions-set vs i v w x)

  -- The insertion adds the builds of the new version, whether it is inserted or recorded.
  pub in_versions-put_version :
      (new : Version) (known : Version → Version) (vs : List Version)
      → ((v : Version) → has j b (known v).passed ≡ (has j b new.passed || has j b v.passed))
      → in_versions j b (put_version new known vs) ≡ (has j b new.passed || in_versions j b vs)
  unfolding put_version
  in_versions-put_version new known vs keep =
      let i = place vs new.order in
      elim (Bool-cases (i == length vs)) [
        | inl end ↦ rw end (in_versions-append_one vs new)
        | inr e ↦ elim (Option-cases (get_elem? vs i)) [
          | inl gone ↦ absurd (ground (arith, length-le_of_none vs i gone, place-le vs new.order))
          | inr (v, at) ↦ elim (Bool-cases (v.id == new.id)) [
            | inl old ↦
                rw (e, at, old) (in_versions-set vs i v (known v) (has j b new.passed) at (keep v))
            | inr other ↦ rw (e, at, other) (in_versions-insert_at i new vs)
          ]
        ]
      ]

  pub in_versions-merge :
      (vs : List Version) (w : Version)
      → in_versions j b (merge vs w) ≡ (has j b w.passed || in_versions j b vs)
  unfolding merge
  in_versions-merge vs w =
      in_versions-put_version w (absorb_version w) vs
        λ v. ground (arith, has-absorb j b v.passed w.passed)

  -- A candidate of a job adds its build, and a candidate of no job adds none.
  pub in_versions-with_candidate :
      (vs : List Version) (c : VersionCandidate)
      → in_versions j b (with_candidate vs c)
        ≡ (has j b (new_version c).passed || in_versions j b vs)
  unfolding with_candidate
  in_versions-with_candidate vs c = in_versions-put_version (new_version c) (record_build c) vs λ v.
      unfold new_version record_build in
      ground (
        arith,
        has-add_build j b c.job_id c.build_id v.passed,
        has-add_build j b c.job_id c.build_id empty,
        has-empty j b,
      )
