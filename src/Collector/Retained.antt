-- ===== src/Collector/Retained.antt =====
-- gc/buildreaper.go: the logs that are kept.
use atc.Prelude.{
  ℕ, zero, suc, ◌-◌, inl, inr, not, ◌&&◌, List, [], ◌∷◌, ◌++◌, ◌==◌, ltb, leb, All, Bool-cases,
}
use atc.Collector.Reaper.{
  Build, Page, take, reverse, above, below, builds, more_builds, to_consider,
}

module _ (P : Build → Type 0) where
  pub All-append : (xs ys : List Build) → All P xs → All P ys → All P (xs ++ ys)
  All-append [] ys h k = k
  All-append (x ∷ xs) ys h k = (h.0, All-append xs ys h.1 k)

  pub All-reverse : (xs : List Build) → All P xs → All P (reverse xs)
  unfolding reverse
  All-reverse [] h = tt
  All-reverse (x ∷ xs) h = All-append (reverse xs) (x ∷ []) (All-reverse xs h.1) (h.0, tt)

  pub All-take : (n : ℕ) (xs : List Build) → All P xs → All P (take n xs)
  unfolding take
  All-take zero xs h = tt
  All-take (suc n) [] h = tt
  All-take (suc n) (x ∷ xs) h = (h.0, All-take n xs h.1)

  All-above : (n : ℕ) (xs : List Build) → All P xs → All P (above n xs)
  unfolding above
  All-above n [] h = tt
  All-above n (x ∷ xs) h = elim (Bool-cases (ltb n x.id)) [
    | inl e ↦ rw e (h.0, All-above n xs h.1)
    | inr e ↦ rw e (All-above n xs h.1)
  ]

  All-below : (n : ℕ) (xs : List Build) → All P xs → All P (below n xs)
  unfolding below
  All-below n [] h = tt
  All-below n (x ∷ xs) h = elim (Bool-cases (ltb x.id n)) [
    | inl e ↦ rw e (h.0, All-below n xs h.1)
    | inr e ↦ rw e (All-below n xs h.1)
  ]

  All-builds : (page : Page) (xs : List Build) → All P xs → All P (builds page xs)
  unfolding builds
  All-builds page xs h = elim (Bool-cases ((page.since == 0) && (page.until == 0))) [
    | inl e ↦ rw e (All-take page.limit (reverse xs) (All-reverse xs h))
    | inr e ↦ elim (Bool-cases (not (page.until == 0))) [
      | inl u ↦
          rw (e, u)
            (All-reverse (take page.limit (above page.until xs))
              (All-take page.limit (above page.until xs) (All-above page.until xs h)))
      | inr u ↦
          rw (e, u)
            (All-take page.limit (reverse (below page.since xs))
              (All-reverse (below page.since xs) (All-below page.since xs h)))
    ]
  ]

  All-more : (until limit : ℕ) (xs : List Build) → All P xs → All P (more_builds until limit xs)
  unfolding more_builds
  All-more until limit xs h = elim (Bool-cases (ltb 0 limit)) [
    | inl e ↦ rw e (All-builds _ xs h)
    | inr e ↦ rw e tt
  ]

  pub All-to_consider :
      (batch first_logged : ℕ) (xs : List Build)
      → All P xs
      → All P (to_consider batch first_logged xs)
  unfolding to_consider
  All-to_consider batch first_logged xs h = elim (Bool-cases (leb first_logged 1)) [
    | inl e ↦
        rw e (All-append (more_builds 1 _ xs) (builds _ xs) (All-more 1 _ xs h) (All-builds _ xs h))
    | inr e ↦ rw e (All-more (first_logged - 1) batch xs h)
  ]
