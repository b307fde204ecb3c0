-- ===== src/Locks/Availability.antt =====
-- db/lock/lock.go: a lock that is not in use can be acquired.
use atc.Prelude.{ℕ, ◌≡◌, inl, inr, refl, subst, false, none, some, arith, Option-cases}
use atc.Locks.System.{
  Pc, outside, entering, checked, granted, recorded, holding, Threads, State, update, Answer,
  granted_, refused, step_at, IsAnswer, start, Reach, begin, later,
}
use atc.Locks.Invariant.{has_mutex}
use atc.Locks.Traces.{IsTraced, Reach-IsTraced}

module _ (threads : Threads) where
  open threads use {process_of, key_of}

  -- No goroutine uses the key of this one, and none of its process is in Acquire.
  pub record IsFree (s : State) (t : ℕ) : Type 0 where
    pub unused : (u : ℕ) → key_of u ≡ key_of t → s.pc u ≡ outside
    pub idle : (u : ℕ) → process_of u ≡ process_of t → has_mutex (s.pc u) ≡ false

  mutex_unlocked :
      (s : State) (t : ℕ) → IsTraced threads s → IsFree s t → s.mutex (process_of t) ≡ none
  mutex_unlocked s t d f = elim (Option-cases (s.mutex (process_of t))) [
    | inl e ↦ e
    | inr (u, e) ↦
        absurd (ground (arith, e, IsTraced.mutex_by d (process_of t) u e, IsFree.idle f u))
  ]

  module _ (origin : State) (t : ℕ) where
    move :
        (s s' : State) (pc : Pc) (answer : Answer)
        → Reach threads origin s
        → IsAnswer threads answer t s
        → s.pc t ≡ pc
        → step_at threads pc answer t s ≡ s'
        → Reach threads origin s'
    move s s' pc answer r a e h =
        subst (Reach threads origin) h
          (subst (λ q. Reach threads origin (step_at threads q answer t s)) e (later answer t r a))

    updated : (pcs : ℕ → Pc) (pc : Pc) → update pcs t pc t ≡ pc
    unfolding update
    updated pcs pc = ground arith

    enters :
        (s : State)
        → Reach threads origin s
        → s.pc t ≡ outside
        → s.mutex (process_of t) ≡ none
        → Reach threads origin (record s {
          pc = update s.pc t entering;
          mutex = update s.mutex (process_of t) (some t);
        })
    unfolding step_at
    enters s r e m = move s _ outside refused r tt e (rw m refl)

    checks :
        (s : State)
        → Reach threads origin s
        → s.pc t ≡ entering
        → s.registered (process_of t) (key_of t) ≡ false
        → Reach threads origin (record s { pc = update s.pc t checked })
    unfolding step_at
    checks s r e m = move s _ entering refused r tt e (rw m refl)

    asks :
        (s : State)
        → Reach threads origin s
        → s.pc t ≡ checked
        → ((p : ℕ) → s.locked p (key_of t) ≡ 0)
        → (s' : State) × Reach threads origin s' × (s'.pc t ≡ granted)
    unfolding step_at
    asks s r e m = (_, move s _ checked granted_ r (λ p. inl (m p)) e refl, updated s.pc granted)

    records :
        (s : State)
        → Reach threads origin s
        → s.pc t ≡ granted
        → (s' : State) × Reach threads origin s' × (s'.pc t ≡ recorded)
    unfolding step_at
    records s r e = (_, move s _ granted refused r tt e refl, updated s.pc recorded)

    holds :
        (s : State)
        → Reach threads origin s
        → s.pc t ≡ recorded
        → (s' : State) × Reach threads origin s' × (s'.pc t ≡ holding)
    unfolding step_at
    holds s r e = (_, move s _ recorded refused r tt e refl, updated s.pc holding)

  -- From every state that goroutines come to, there are steps after which a goroutine holds its lock,
  -- if no goroutine uses the key and none of its process is in Acquire: what was released or given up
  -- is neither left in the repository nor in the database, nor is the mutex left locked.
  pub free_lock-acquired :
      (s : State) (t : ℕ)
      → Reach threads start s
      → IsFree s t
      → (s' : State) × Reach threads s s' × (s'.pc t ≡ holding)
  free_lock-acquired s t r f =
      let d = Reach-IsTraced threads r in
      let entered = enters s t s begin (IsFree.unused f t refl) (mutex_unlocked s t d f) in
      let checked_ = checks s t _ entered (updated s t s.pc entering) (
        IsTraced.registered_by d (process_of t) (key_of t)
          (λ u hp hk. ground (arith, IsFree.unused f u hk))) in
      let asked = asks s t _ checked_ (updated s t _ checked) (λ p.
        IsTraced.locked_by d p (key_of t) (λ u hp hk. ground (arith, IsFree.unused f u hk))) in
      let recorded_ = records s t asked.0 asked.1 asked.2 in
      holds s t recorded_.0 recorded_.1 recorded_.2
