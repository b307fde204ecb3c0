-- ===== src/Workers/Placement.antt =====
-- worker/pool.go and worker/placement.go: where a container is placed.
use atc.Prelude.{
  ℕ, zero, suc, ◌<◌, ◌≡◌, ◌⊎◌, ◌↔◌, inl, inr, refl, sym, ◌∙◌, subst, Bool, true, false, not,
  append-nil, append_assoc, Option, none, some, List, [], ◌∷◌, ◌++◌, if◌then◌else◌, length,
  get_elem?, Any, arith, Bool-cases,
}
use atc.Workers.Spec.{ResourceType, WorkerSpec, Worker, Mismatch, satisfying}
use atc.Workers.Pool.{
  no_workers, no_compatible_workers, Result, ok, err, Sorted, add_compatible, is_owned_by_team,
  compatible, prefer_team, all_satisfying,
}

abbrev pub Among : Worker → List Worker → Type 0
Among w ws = Any (λ v. v ≡ w) ws

pub Among-append : (w : Worker) (xs ys : List Worker) → Among w (xs ++ ys) → Among w xs ⊎ Among w ys
Among-append w [] ys h = inr h
Among-append w (x ∷ xs) ys h = elim h [
  | inl e ↦ inl (inl e)
  | inr r ↦ elim (Among-append w xs ys r) [ inl a ↦ inl (inr a) | inr b ↦ inr b ]
]

pub Among-left : (w : Worker) (xs ys : List Worker) → Among w xs → Among w (xs ++ ys)
Among-left w [] ys h = absurd h
Among-left w (x ∷ xs) ys h = elim h [ inl e ↦ inl e | inr r ↦ inr (Among-left w xs ys r) ]

pub Among-right : (w : Worker) (xs ys : List Worker) → Among w ys → Among w (xs ++ ys)
Among-right w [] ys h = h
Among-right w (x ∷ xs) ys h = inr (Among-right w xs ys h)

pub Among-get : (ws : List Worker) (i : ℕ) (w : Worker) → get_elem? ws i ≡ some w → Among w ws
Among-get [] i w h = absurd (cc)
Among-get (x ∷ ws) zero w h = inl (ground (arith, h))
Among-get (x ∷ ws) (suc i) w h = inr (Among-get ws i w h)

pub get-some : (ws : List Worker) (i : ℕ) → i < length ws → (w : Worker) × (get_elem? ws i ≡ some w)
get-some [] i h = absurd (omega (arith, h))
get-some (x ∷ ws) zero h = (x, refl)
get-some (x ∷ ws) (suc i) h = get-some ws i (omega (arith, h))

module _ (spec : WorkerSpec) (types : List ResourceType) where
  -- A worker of the list that satisfies the spec and is, or is not, owned by a team.
  abbrev pub Fits : Bool → List Worker → Worker → Type 0
  Fits owned ws w = Among w ws × (satisfying w spec types ≡ none) × (is_owned_by_team w ≡ owned)

  abbrev keeps : Bool → Option Mismatch → Bool → Bool
  keeps owned (some m) b = false
  keeps true none b = b
  keeps false none b = not b

  abbrev keep : Bool → List Worker → List Worker
  keep owned [] = []
  keep owned (w ∷ ws) =
      if keeps owned (satisfying w spec types) (is_owned_by_team w)
      then w ∷ keep owned ws
      else keep owned ws

  added :
      (o : Option Mismatch) (b : Bool) (w : Worker) (s : Sorted) (t g : List Worker)
      → Path Sorted
          ((add_compatible o b w s).0 ++ t, (add_compatible o b w s).1 ++ g)
          (
            s.0 ++ (if keeps true o b then w ∷ t else t),
            s.1 ++ (if keeps false o b then w ∷ g else g),
          )
  unfolding add_compatible
  added (some m) b w s t g = refl
  added none true w s t g = rw (append_assoc s.0 (w ∷ []) t) refl
  added none false w s t g = rw (append_assoc s.1 (w ∷ []) g) refl

  compatible-keep :
      (ws : List Worker) (s : Sorted)
      → compatible spec types ws s ≡ (s.0 ++ keep true ws, s.1 ++ keep false ws)
  unfolding compatible
  compatible-keep [] s = rw (append-nil s.0, append-nil s.1) refl
  compatible-keep (v ∷ ws) s =
      compatible-keep ws (add_compatible (satisfying v spec types) (is_owned_by_team v) v s)
      ∙ added (satisfying v spec types) (is_owned_by_team v) v s (keep true ws) (keep false ws)

  keeps_iff :
      (owned : Bool) (o : Option Mismatch) (b : Bool)
      → (keeps owned o b ≡ true) ↔ ((o ≡ none) × (b ≡ owned))
  keeps_iff owned (some m) b = (λ h. absurd (cc), λ h. absurd (ground (arith, h.0)))
  keeps_iff true none b = ground arith
  keeps_iff false none b = ground arith

  IsKept : Bool → Worker → Type 0
  IsKept owned w = keeps owned (satisfying w spec types) (is_owned_by_team w) ≡ true

  keep_iff :
      (owned : Bool) (ws : List Worker) (w : Worker)
      → Among w (keep owned ws) ↔ (Among w ws × IsKept owned w)
  unfolding IsKept
  keep_iff owned [] w = (λ h. absurd h, λ f. absurd f.0)
  keep_iff owned (v ∷ ws) w =
      elim (Bool-cases (keeps owned (satisfying v spec types) (is_owned_by_team v))) [
        | inl e ↦ rw e (
          (λ h. elim h [
            | inl same ↦ (inl same, subst (IsKept owned) same e)
            | inr r ↦ let f = (keep_iff owned ws w).0 r in (inr f.0, f.1)
          ]),
          (λ f. elim f.0 [ inl same ↦ inl same | inr r ↦ inr ((keep_iff owned ws w).1 (r, f.1)) ]),
        )
        | inr e ↦ rw e (
          (λ h. let f = (keep_iff owned ws w).0 h in (inr f.0, f.1)),
          (λ f. elim f.0 [
            | inl same ↦ absurd (ground (arith, e, subst (IsKept owned) (sym same) f.1))
            | inr r ↦ (keep_iff owned ws w).1 (r, f.1)
          ]),
        )
      ]

  keep-Fits :
      (owned : Bool) (ws : List Worker) (w : Worker) → Among w (keep owned ws) ↔ Fits owned ws w
  unfolding IsKept
  keep-Fits owned ws w =
      let kept = keeps_iff owned (satisfying w spec types) (is_owned_by_team w) in
      (
        (λ h. let f = (keep_iff owned ws w).0 h in (f.0, (kept.0 f.1).0, (kept.0 f.1).1)),
        (λ f. (keep_iff owned ws w).1 (f.0, kept.1 (f.1, f.2))),
      )

  -- AllSatisfying on running workers: the compatible ones that a team owns if there are any, and else
  -- those that none owns; or the error that there are none.
  abbrev pub Preferred : List Worker → List Worker → Type 0
  Preferred running ws =
      (owned : Bool) × ((w : Worker) → Among w ws ↔ Fits owned running w)
      × ((owned ≡ true) ⊎ ((w : Worker) → ¬ Fits true running w))
      × ((w : Worker) × Among w ws)

  abbrev pub NoneFits : List Worker → Type 0
  NoneFits running = (owned : Bool) (w : Worker) → ¬ Fits owned running w

  abbrev pub Satisfied : List Worker → Result (List Worker) → Type 0
  Satisfied running r =
      ((ws : List Worker) × (r ≡ ok ws) × Preferred running ws)
      ⊎ (((r ≡ err no_compatible_workers) ⊎ (r ≡ err no_workers)) × NoneFits running)

  prefer_team-Satisfied :
      (running team general : List Worker)
      → ((w : Worker) → Among w team ↔ Fits true running w)
      → ((w : Worker) → Among w general ↔ Fits false running w)
      → Satisfied running (prefer_team (team, general))
  unfolding prefer_team
  prefer_team-Satisfied running (x ∷ team) general t g =
      inl (x ∷ team, refl, (true, t, inl refl, (x, inl refl)))
  prefer_team-Satisfied running [] (x ∷ general) t g =
      inl (x ∷ general, refl, (false, g, inr (λ w f. (t w).1 f), (x, inl refl)))
  prefer_team-Satisfied running [] [] t g = inr (inl refl, neither)
    where
      neither : NoneFits running
      neither true w f = (t w).1 f
      neither false w f = (g w).1 f

  pub all_satisfying-Satisfied :
      (running : List Worker) → Satisfied running (all_satisfying (some running) spec types)
  unfolding all_satisfying
  all_satisfying-Satisfied [] = inr (inr refl, λ owned w f. f.0)
  all_satisfying-Satisfied (v ∷ ws) =
      subst (λ s. Satisfied (v ∷ ws) (prefer_team s)) (sym (compatible-keep (v ∷ ws) ([], [])))
        (prefer_team-Satisfied (v ∷ ws) (keep true (v ∷ ws)) (keep false (v ∷ ws))
          (keep-Fits true (v ∷ ws)) (keep-Fits false (v ∷ ws)))
