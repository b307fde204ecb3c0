-- ===== src/Scheduler/MaxInFlight.antt =====
-- scheduler/maxinflight/updater.go: whether a job may start one more build.
use atc.Prelude.{
  ℕ, ◌<◌, ◌≡◌, refl, sym, ◌∙◌, ◌↔◌, ◌⊎◌, inl, inr, Bool, true, false, not, Option, none, some, List,
  [], ◌∷◌, leb, ◌==◌, if◌then◌else◌, length, arith, Option-cases, Bool-cases,
}
use atc.Pipeline.Config.{Name, is_set, ℤ, pos, negsuc, JobConfig, max_in_flight, get_serial_groups}

-- The queries of db.Job, none where one fails, and whether SetMaxInFlightReached succeeds.
pub record JobQueries : Type 0 where
  pub running_by_serial_group : List Name → Option (List ℕ)
  pub next_pending_by_serial_group : List Name → Option (Option ℕ)
  pub can_save : Bool

-- n >= limit
abbrev pub reaches : ℕ → ℤ → Bool
reaches n (pos m) = leb m n
reaches n (negsuc m) = true

abbrev pub is_zero : ℤ → Bool
is_zero (pos m) = not (is_set m)
is_zero (negsuc m) = false

unfoldable pub behind_next : ℕ → Option (Option ℕ) → Option Bool
behind_next build none = none
behind_next build (some none) = some true
behind_next build (some (some next)) = some (not (next == build))

-- The result, with what SetMaxInFlightReached is called with.
unfoldable pub save : Bool → Option Bool → Option Bool × List Bool
save can_save none = (none, [])
save can_save (some reached) = (if can_save then some reached else none, reached ∷ [])

result_saved : (can_save : Bool) (o : Option Bool) → can_save ≡ true → (save can_save o).0 ≡ o
unfolding save
result_saved can_save none h = refl
result_saved can_save (some reached) h = ground (arith, h)

within_limit : (n : ℕ) (limit : ℤ) → reaches n limit ≡ false → (m : ℕ) × (limit ≡ pos m) × (n < m)
within_limit n (pos m) h = (m, refl, ground (arith, h))
within_limit n (negsuc m) h = absurd (ground (arith, h))

zero_limit : (limit : ℤ) → is_zero limit ≡ true → limit ≡ pos 0
zero_limit (pos m) h = ground (arith, h)
zero_limit (negsuc m) h = absurd (ground (arith, h))

next_iff :
    (build : ℕ) (o : Option (Option ℕ))
    → (behind_next build o ≡ some false) ↔ (o ≡ some (some build))
unfolding behind_next
next_iff build none = ground arith
next_iff build (some none) = ground arith
next_iff build (some (some next)) = ground arith

positive_limit : (limit n : ℕ) → n < limit → is_zero (pos limit) ≡ false
positive_limit limit n h = ground (arith, h)

module _ {T : Type 0} where
  unfoldable pub is_max_in_flight_reached : JobQueries → JobConfig T → ℕ → Option Bool
  is_max_in_flight_reached db job build =
      if is_zero (max_in_flight job)
      then some false
      else elim (JobQueries.running_by_serial_group db (get_serial_groups job)) [
        | none ↦ none
        | some builds ↦
            if reaches (length builds) (max_in_flight job)
            then some true
            else behind_next build
                (JobQueries.next_pending_by_serial_group db (get_serial_groups job))
      ]

  unfoldable pub update_max_in_flight_reached :
      JobQueries → JobConfig T → ℕ → Option Bool × List Bool
  update_max_in_flight_reached db job build =
      save (JobQueries.can_save db) (is_max_in_flight_reached db job build)

  -- There is no limit, or fewer builds of the serial groups run than the limit, and this is next.
  abbrev pub MayStart : JobQueries → JobConfig T → ℕ → Type 0
  MayStart db job build =
      (max_in_flight job ≡ pos 0)
      ⊎ ((limit : ℕ) × (max_in_flight job ≡ pos limit)
          × (builds : List ℕ) × (JobQueries.running_by_serial_group db (get_serial_groups job)
              ≡ some builds)
          × (length builds < limit)
          × (JobQueries.next_pending_by_serial_group db (get_serial_groups job)
              ≡ some (some build)))

  may_start :
      (db : JobQueries) (job : JobConfig T) (build : ℕ)
      → is_max_in_flight_reached db job build ≡ some false
      → MayStart db job build
  unfolding is_max_in_flight_reached
  may_start db job build h = elim (Bool-cases (is_zero (max_in_flight job))) [
    | inl z ↦ inl (zero_limit (max_in_flight job) z)
    | inr z ↦ elim (Option-cases (JobQueries.running_by_serial_group db (get_serial_groups job))) [
      | inl e ↦ absurd (ground (arith, h, z, e))
      | inr (builds, e) ↦ elim (Bool-cases (reaches (length builds) (max_in_flight job))) [
        | inl r ↦ absurd (ground (arith, h, z, e, r))
        | inr r ↦
            let w = within_limit (length builds) (max_in_flight job) r in
            inr (
              w.0,
              w.1,
              builds,
              e,
              w.2,
              (next_iff build
                    (JobQueries.next_pending_by_serial_group db (get_serial_groups job))).0
                  (ground (arith, h, z, e, r)),
            )
      ]
    ]
  ]

  may_not_stop :
      (db : JobQueries) (job : JobConfig T) (build : ℕ)
      → MayStart db job build
      → is_max_in_flight_reached db job build ≡ some false
  unfolding is_max_in_flight_reached
  may_not_stop db job build (inl e) = rw e refl
  may_not_stop db job build (inr v) =
      let zero_free = positive_limit v.0 (length v.2) v.4 in
      rw (v.1, v.3)
        (ground (
          arith,
          zero_free,
          v.4,
          (next_iff build (JobQueries.next_pending_by_serial_group db (get_serial_groups job))).1
              v.5,
        ))

  -- Where the queries can save, UpdateMaxInFlightReached lets a build through exactly if its job has no
  -- limit, or fewer builds of the job's serial groups run than the limit, which is not negative, and
  -- the build is the next pending one of these groups.
  pub update_max_in_flight_reached-MayStart :
      (db : JobQueries) (job : JobConfig T) (build : ℕ)
      → JobQueries.can_save db ≡ true
      → ((update_max_in_flight_reached db job build).0 ≡ some false) ↔ MayStart db job build
  unfolding update_max_in_flight_reached
  update_max_in_flight_reached-MayStart db job build s =
      let saved = result_saved (JobQueries.can_save db) (is_max_in_flight_reached db job build) s in
      (λ e. may_start db job build (sym saved ∙ e), λ v. saved ∙ may_not_stop db job build v)
