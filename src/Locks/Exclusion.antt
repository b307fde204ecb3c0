-- ===== src/Locks/Exclusion.antt =====
-- db/lock/lock.go: a lock has one holder at a time.
use atc.Prelude.{ℕ, ◌≡◌, inl, inr, refl, true, arith, Bool-cases}
use atc.Locks.System.{
  Pc, outside, entering, checked, granted, recorded, holding, released, Threads, State, is_free,
  Answer, granted_, refused, query_failed, step_at, IsAnswer, release_is_nil, start, Reach, begin,
  later,
}
use atc.Locks.Invariant.{
  IsConsistent, start-IsConsistent, enter-IsConsistent, leave-IsConsistent, check-IsConsistent,
  grant-IsConsistent, record-IsConsistent, hold-IsConsistent, release-IsConsistent,
  unregister-IsConsistent,
}

module _ (threads : Threads) where
  open threads use {process_of, key_of}

  step_at-IsConsistent :
      (s : State) (t : ℕ) (pc : Pc) (answer : Answer)
      → s.pc t ≡ pc
      → IsAnswer threads answer t s
      → IsConsistent threads s
      → IsConsistent threads (step_at threads pc answer t s)
  unfolding step_at
  step_at-IsConsistent s t outside answer e a c =
      elim (Bool-cases (is_free (s.mutex (process_of t)))) [
        | inl m ↦ rw m (enter-IsConsistent threads s c t e (ground (arith, m)))
        | inr m ↦ rw m c
      ]
  step_at-IsConsistent s t entering answer e a c =
      elim (Bool-cases (s.registered (process_of t) (key_of t))) [
        | inl r ↦ rw r (leave-IsConsistent threads s c t (inl e))
        | inr r ↦ rw r (check-IsConsistent threads s c t e r)
      ]
  step_at-IsConsistent s t checked granted_ e a c = grant-IsConsistent threads s c t e a
  step_at-IsConsistent s t checked refused e a c = leave-IsConsistent threads s c t (inr e)
  step_at-IsConsistent s t checked query_failed e a c = leave-IsConsistent threads s c t (inr e)
  step_at-IsConsistent s t granted answer e a c = record-IsConsistent threads s c t e
  step_at-IsConsistent s t recorded answer e a c = hold-IsConsistent threads s c t e
  step_at-IsConsistent s t holding answer e a c = release-IsConsistent threads s c t e
  step_at-IsConsistent s t released answer e a c = unregister-IsConsistent threads s c t e

  pub Reach-IsConsistent : {s : State} → Reach threads start s → IsConsistent threads s
  Reach-IsConsistent begin = start-IsConsistent threads
  Reach-IsConsistent (later {s} answer t r a) =
      step_at-IsConsistent s t (s.pc t) answer refl a (Reach-IsConsistent r)

  -- However the goroutines of all processes interleave, with queries that fail or not, two goroutines
  -- that have acquired locks with the same key and not begun to release them are one; and what such a
  -- goroutine is going to release it still has in the database, so that Release returns nil and not
  -- ErrLostLock. Connections to the database do not break.
  pub holding_unique :
      (s : State)
      → Reach threads start s
      → (t : ℕ) → s.pc t ≡ holding
      → (release_is_nil threads t s ≡ true)
        × ((u : ℕ) → s.pc u ≡ holding → key_of u ≡ key_of t → u ≡ t)
  holding_unique s r t h =
      let c = Reach-IsConsistent r in
      (
        ground (arith, h, IsConsistent.owned c t),
        λ u hu k. ground (
          arith,
          h,
          hu,
          k,
          IsConsistent.owned c t,
          IsConsistent.owned c u,
          IsConsistent.one_session c (key_of t) (process_of u) (process_of t),
          IsConsistent.alone c u t,
        ),
      )
