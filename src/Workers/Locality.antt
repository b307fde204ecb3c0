-- ===== src/Workers/Locality.antt =====
-- worker/placement.go: the workers that have the most of the inputs.
use atc.Prelude.{
  ℕ, ◌≤◌, ◌<◌, ◌≡◌, ◌≢◌, ◌⊎◌, inl, inr, refl, sym, ◌∙◌, ap, subst, Bool, true, false,
  some-injective, Option, some, List, [], ◌∷◌, ◌++◌, ◌==◌, leb, length, arith, Option-cases,
  Bool-cases,
}
use atc.Workers.Spec.{Worker}
use atc.Workers.Pool.{
  ok, err, volume_failed, at_random, count_inputs, count_workers, choose, choose_counted, item,
  if_counted, add_at, higher,
}
use atc.Workers.Placement.{Among, Among-append, Among-right, Among-get, get-some}

-- rand.Intn answers a number below a positive one.
abbrev pub IsRandom : (ℕ → ℕ) → Type 0
IsRandom intn = (n : ℕ) → 0 < n → intn n < n

abbrev Some : List Worker → Type 0
Some ws = (w : Worker) × Among w ws

length-positive : (ws : List Worker) (w : Worker) → Among w ws → 0 < length ws
length-positive [] w h = absurd h
length-positive (v ∷ ws) w h = omega arith

module _ {Input : Type 0} (volume_on : Input → Worker → Option Bool) (inputs : List Input) where
  abbrev pub count : Worker → Option ℕ
  count w = count_inputs volume_on inputs w 0

  -- What the loop adds for the workers in a list.
  record Counted (ws : List Worker) (before : ℕ → List Worker) (highest : ℕ)
      (after : ℕ → List Worker) (top : ℕ) : Type 0 where
    origin :
        (w : Worker) (k : ℕ)
        → Among w (after k)
        → Among w (before k) ⊎ (Among w ws × (count w ≡ some k))
    below : (w : Worker) → Among w ws → (k : ℕ) × (count w ≡ some k) × (k ≤ top)
    grows : highest ≤ top
    filled : ((ws ≢ []) × (highest ≡ 0)) ⊎ Some (before highest) → Some (after top)

  add_at-Among :
      (n : ℕ) (v : Worker) (before : ℕ → List Worker) (w : Worker) (k : ℕ)
      → Among w (add_at n v before k)
      → Among w (before k) ⊎ ((v ≡ w) × (n ≡ k))
  unfolding add_at
  add_at-Among n v before w k h = elim (Bool-cases (n == k)) [
    | inl e ↦ elim (Among-append w (before k) (v ∷ []) (subst (Among w) (rw e refl) h)) [
      | inl a ↦ inl a
      | inr b ↦ elim b [ inl same ↦ inr (same, ground (arith, e)) | inr never ↦ absurd never ]
    ]
    | inr e ↦ inl (subst (Among w) (rw e refl) h)
  ]

  higher-same :
      (n highest : ℕ) (v : Worker) (before : ℕ → List Worker)
      → leb highest n ≡ true
      → before n ++ (v ∷ []) ≡ add_at n v before (higher n highest)
  unfolding add_at higher
  higher-same n highest v before e = ground (arith, e)

  higher-other :
      (n highest : ℕ) (v : Worker) (before : ℕ → List Worker)
      → leb highest n ≡ false
      → before highest ≡ add_at n v before (higher n highest)
  unfolding add_at higher
  higher-other n highest v before e = ground (arith, e)

  higher-le : (n highest top : ℕ) → higher n highest ≤ top → (n ≤ top) × (highest ≤ top)
  unfolding higher
  higher-le n highest top h = ground (arith, h)

  add_at-Some :
      (n highest : ℕ) (v : Worker) (before : ℕ → List Worker)
      → (leb highest n ≡ true) ⊎ Some (before highest)
      → Some (add_at n v before (higher n highest))
  add_at-Some n highest v before h = elim (Bool-cases (leb highest n)) [
    | inl e ↦
        subst Some (higher-same n highest v before e)
          (v, Among-right v (before n) (v ∷ []) (inl refl))
    | inr e ↦
        subst Some (higher-other n highest v before e)
          (elim h [ inl no_less ↦ absurd (ground (arith, e, no_less)) | inr some_ ↦ some_ ])
  ]

  count_workers-Counted :
      (ws : List Worker) (before : ℕ → List Worker) (highest : ℕ) (after : ℕ → List Worker)
      (top : ℕ)
      → count_workers volume_on inputs ws before highest ≡ some (after, top)
      → Counted ws before highest after top
  unfolding count_workers if_counted
  count_workers-Counted [] before highest after top e =
      let q = some-injective (before, highest) (after, top) e in
      record {
        origin = λ w k h. inl (subst (λ b. Among w (b k)) (sym (ap (λ p. p.0) q)) h);
        below = λ w h. absurd h;
        grows = omega (arith, ap (λ p. p.1) q);
        filled = λ s. elim s [
          | inl empty ↦ absurd (empty.0 refl)
          | inr some_ ↦ subst {A = (ℕ → List Worker) × ℕ} (λ p. Some (p.0 p.1)) q some_
        ];
      }
  count_workers-Counted (v ∷ ws) before highest after top e = elim (Option-cases (count v)) [
    | inl f ↦ absurd (ground (arith, e, f))
    | inr (n, f) ↦
        let c = count_workers-Counted ws (add_at n v before) (higher n highest) after top (
          subst {A = Option ℕ}
            (λ o.
              if_counted o
                (λ n. count_workers volume_on inputs ws (add_at n v before) (higher n highest))
              ≡ some (after, top))
            f e) in
        record {
          origin = λ w k h. elim (Counted.origin c w k h) [
            | inl a ↦ elim (add_at-Among n v before w k a) [
              | inl b ↦ inl b
              | inr p ↦ inr (inl p.0, subst (λ u. count u ≡ some k) p.0 (f ∙ ap some p.1))
            ]
            | inr q ↦ inr (inr q.0, q.1)
          ];
          below = λ w h. elim h [
            | inl same ↦ (
              n,
              subst (λ u. count u ≡ some n) same f,
              (higher-le n highest top (Counted.grows c)).0,
            )
            | inr r ↦ Counted.below c w r
          ];
          grows = (higher-le n highest top (Counted.grows c)).1;
          filled = λ s. Counted.filled c (
              inr (
                add_at-Some n highest v before
                  (elim s [ inl first ↦ inl (ground (arith, first.1)) | inr some_ ↦ inr some_ ])));
        }
  ]

  -- Where the workers are counted, and there are some: the choice among those with the most inputs.
  pub choose-IsLocal :
      (intn : ℕ → ℕ)
      → IsRandom intn
      → (v : Worker) (ws : List Worker)
      → (choose volume_on intn inputs (v ∷ ws) ≡ err volume_failed)
        ⊎ ((w : Worker) × (choose volume_on intn inputs (v ∷ ws) ≡ ok w)
            × Among w (v ∷ ws)
            × ((u : Worker)
                → Among u (v ∷ ws)
                → (i : ℕ) × (j : ℕ) × (count u ≡ some i) × (count w ≡ some j) × (i ≤ j)))
  unfolding choose choose_counted at_random item
  choose-IsLocal intn random v ws =
      elim (Option-cases (count_workers volume_on inputs (v ∷ ws) (λ k. []) 0)) [
        | inl e ↦ inl (ap (choose_counted intn) e)
        | inr (counted, e) ↦
            let c = count_workers-Counted (v ∷ ws) (λ k. []) 0 counted.0 counted.1 e in
            let best = counted.0 counted.1 in
            let some_ =
              Counted.filled c (inl ((λ no_one. absurd (ground (arith, no_one))), refl)) in
            let chosen =
              get-some best (intn (length best))
                (random (length best) (length-positive best some_.0 some_.1)) in
            let w = chosen.0 in
            let from : Among w [] ⊎ (Among w (v ∷ ws) × (count w ≡ some counted.1)) =
              Counted.origin c w counted.1 (Among-get best (intn (length best)) w chosen.1) in
            elim from [
              | inl never ↦ absurd never
              | inr f ↦ inr (
                w,
                ap (choose_counted intn) e ∙ ap item chosen.1,
                f.0,
                λ u h. let b = Counted.below c u h in (b.0, counted.1, b.1, f.1, b.2),
              )
            ]
      ]
