-- ===== src/Locks/Traces.antt =====
-- db/lock/lock.go: what goroutines leave behind in the mutexes, the repositories and the database.
use atc.Prelude.{
  ℕ, ◌+◌, ◌-◌, ◌≤◌, ◌≡◌, inl, inr, refl, true, false, ◌&&◌, Option, none, some, ◌==◌, arith,
  Bool-cases,
}
use atc.Locks.System.{
  Pc, outside, entering, checked, granted, recorded, holding, released, Threads, State, update,
  update_at, is_free, Answer, granted_, refused, query_failed, step_at, start, Reach, begin, later,
}
use atc.Locks.Invariant.{has_mutex, is_owner, is_recorded, IsConsistent}
use atc.Locks.Exclusion.{Reach-IsConsistent}

module _ (threads : Threads) where
  open threads use {process_of, key_of}

  -- A mutex that is locked has an owner; a key that no goroutine has recorded is not registered; and one
  -- that none owns is not in the database, where no session has a key more than once.
  pub record IsTraced (s : State) : Type 0 where
    pub mutex_by : (p u : ℕ) → s.mutex p ≡ some u → (has_mutex (s.pc u) ≡ true) × (process_of u ≡ p)
    pub registered_by :
        (p k : ℕ)
        → ((u : ℕ) → process_of u ≡ p → key_of u ≡ k → is_recorded (s.pc u) ≡ false)
        → s.registered p k ≡ false
    pub locked_by :
        (p k : ℕ)
        → ((u : ℕ) → process_of u ≡ p → key_of u ≡ k → is_owner (s.pc u) ≡ false)
        → s.locked p k ≡ 0
    pub locked_once : (p k : ℕ) → s.locked p k ≤ 1

  start-IsTraced : IsTraced start
  start-IsTraced = record {
    mutex_by = λ p u h. absurd (cc);
    registered_by = λ p k h. refl;
    locked_by = λ p k h. refl;
    locked_once = λ p k. omega arith;
  }

  module _ (s : State) (c : IsConsistent threads s) (d : IsTraced s) (t : ℕ) where
    -- A step that changes the program counter and maybe the mutex.
    move-IsTraced :
        (pc : Pc) (mutex : ℕ → Option ℕ)
        → is_recorded pc ≡ is_recorded (s.pc t)
        → is_owner pc ≡ is_owner (s.pc t)
        → ((p u : ℕ)
            → mutex p ≡ some u
            → (has_mutex (update s.pc t pc u) ≡ true) × (process_of u ≡ p))
        → IsTraced (record s { pc = update s.pc t pc; mutex = mutex })
    unfolding update
    move-IsTraced pc mutex r o m = record {
      mutex_by = m;
      registered_by =
          λ p k h. IsTraced.registered_by d p k (λ u hp hk. ground (arith, r, h u hp hk));
      locked_by = λ p k h. IsTraced.locked_by d p k (λ u hp hk. ground (arith, o, h u hp hk));
      locked_once = IsTraced.locked_once d;
    }

    keep_mutex :
        (pc : Pc)
        → has_mutex pc ≡ has_mutex (s.pc t)
        → (p u : ℕ) → s.mutex p ≡ some u
        → (has_mutex (update s.pc t pc u) ≡ true) × (process_of u ≡ p)
    unfolding update
    keep_mutex pc e p u h = ground (arith, e, h, IsTraced.mutex_by d p u)

    lock_mutex :
        (p u : ℕ)
        → update s.mutex (process_of t) (some t) p ≡ some u
        → (has_mutex (update s.pc t entering u) ≡ true) × (process_of u ≡ p)
    unfolding update
    lock_mutex p u h = ground (arith, h, IsTraced.mutex_by d p u)

    unlock_mutex :
        (pc : Pc)
        → has_mutex (s.pc t) ≡ true
        → (p u : ℕ) → update s.mutex (process_of t) none p ≡ some u
        → (has_mutex (update s.pc t pc u) ≡ true) × (process_of u ≡ p)
    unfolding update
    unlock_mutex pc m p u h =
        ground (arith, m, h, IsTraced.mutex_by d p u, IsConsistent.mutex_of c t)

    unowned : s.pc t ≡ checked → s.locked (process_of t) (key_of t) ≡ 0
    unowned e = IsTraced.locked_by d (process_of t) (key_of t) (λ u hp hk. ground (
      arith,
      e,
      hp,
      hk,
      IsConsistent.mutex_of c t,
      IsConsistent.mutex_of c u,
      IsConsistent.unrecorded c t,
      IsConsistent.recorded_ c u,
    ))

    grant-IsTraced :
        s.pc t ≡ checked
        → IsTraced (record s {
          pc = update s.pc t granted;
          locked =
              update_at s.locked (process_of t) (key_of t) (s.locked (process_of t) (key_of t) + 1);
        })
    unfolding update update_at
    grant-IsTraced e = record {
      mutex_by = keep_mutex granted (ground (arith, e));
      registered_by =
          λ p k h. IsTraced.registered_by d p k (λ u hp hk. ground (arith, e, h u hp hk));
      locked_by = λ p k h.
          ground
            (arith, e, h t, IsTraced.locked_by d p k (λ u hp hk. ground (arith, e, h u hp hk)));
      locked_once = λ p k. ground (arith, unowned e, IsTraced.locked_once d p k);
    }

    record-IsTraced :
        s.pc t ≡ granted
        → IsTraced (record s {
          pc = update s.pc t recorded;
          registered = update_at s.registered (process_of t) (key_of t) true;
        })
    unfolding update update_at
    record-IsTraced e = record {
      mutex_by = keep_mutex recorded (ground (arith, e));
      registered_by = λ p k h.
          ground
            (arith, e, h t, IsTraced.registered_by d p k (λ u hp hk. ground (arith, e, h u hp hk)));
      locked_by = λ p k h. IsTraced.locked_by d p k (λ u hp hk. ground (arith, e, h u hp hk));
      locked_once = IsTraced.locked_once d;
    }

    release-IsTraced :
        s.pc t ≡ holding
        → IsTraced (record s {
          pc = update s.pc t released;
          locked =
              update_at s.locked (process_of t) (key_of t) (s.locked (process_of t) (key_of t) - 1);
        })
    unfolding update update_at
    release-IsTraced e = record {
      mutex_by = keep_mutex released (ground (arith, e));
      registered_by =
          λ p k h. IsTraced.registered_by d p k (λ u hp hk. ground (arith, e, h u hp hk));
      locked_by = λ p k h. elim (Bool-cases ((process_of t == p) && (key_of t == k))) [
        | inl own ↦ ground (arith, own, IsTraced.locked_once d p k)
        | inr other ↦ ground (
          arith,
          other,
          IsTraced.locked_by d p k (λ u hp hk. ground (arith, e, other, hp, hk, h u hp hk)),
        )
      ];
      locked_once = λ p k.
          ground
            (arith, IsTraced.locked_once d p k, IsTraced.locked_once d (process_of t) (key_of t));
    }

    unregister-IsTraced :
        s.pc t ≡ released
        → IsTraced (record s {
          pc = update s.pc t outside;
          registered = update_at s.registered (process_of t) (key_of t) false;
        })
    unfolding update update_at
    unregister-IsTraced e = record {
      mutex_by = keep_mutex outside (ground (arith, e));
      registered_by = λ p k h. elim (Bool-cases ((process_of t == p) && (key_of t == k))) [
        | inl own ↦ ground (arith, own)
        | inr other ↦ ground (
          arith,
          other,
          IsTraced.registered_by d p k (λ u hp hk. ground (arith, e, other, hp, hk, h u hp hk)),
        )
      ];
      locked_by = λ p k h. IsTraced.locked_by d p k (λ u hp hk. ground (arith, e, h u hp hk));
      locked_once = IsTraced.locked_once d;
    }

  step_at-IsTraced :
      (s : State) (t : ℕ) (pc : Pc) (answer : Answer)
      → s.pc t ≡ pc
      → IsConsistent threads s
      → IsTraced s
      → IsTraced (step_at threads pc answer t s)
  unfolding step_at
  step_at-IsTraced s t outside answer e c d = elim (Bool-cases (is_free (s.mutex (process_of t)))) [
    | inl m ↦ rw m (
        move-IsTraced s c d t entering _ (ground (arith, e)) (ground (arith, e))
          (λ p u h. lock_mutex s c d t p u h))
    | inr m ↦ rw m d
  ]
  step_at-IsTraced s t entering answer e c d =
      elim (Bool-cases (s.registered (process_of t) (key_of t))) [
        | inl r ↦ rw r (
            move-IsTraced s c d t outside _ (ground (arith, e)) (ground (arith, e))
              (unlock_mutex s c d t outside (ground (arith, e))))
        | inr r ↦ rw r (
            move-IsTraced s c d t checked s.mutex (ground (arith, e)) (ground (arith, e))
              (keep_mutex s c d t checked (ground (arith, e))))
      ]
  step_at-IsTraced s t checked granted_ e c d = grant-IsTraced s c d t e
  step_at-IsTraced s t checked refused e c d =
      move-IsTraced s c d t outside _ (ground (arith, e)) (ground (arith, e))
        (unlock_mutex s c d t outside (ground (arith, e)))
  step_at-IsTraced s t checked query_failed e c d =
      move-IsTraced s c d t outside _ (ground (arith, e)) (ground (arith, e))
        (unlock_mutex s c d t outside (ground (arith, e)))
  step_at-IsTraced s t granted answer e c d = record-IsTraced s c d t e
  step_at-IsTraced s t recorded answer e c d =
      move-IsTraced s c d t holding _ (ground (arith, e)) (ground (arith, e))
        (unlock_mutex s c d t holding (ground (arith, e)))
  step_at-IsTraced s t holding answer e c d = release-IsTraced s c d t e
  step_at-IsTraced s t released answer e c d = unregister-IsTraced s c d t e

  pub Reach-IsTraced : {s : State} → Reach threads start s → IsTraced s
  Reach-IsTraced begin = start-IsTraced
  Reach-IsTraced (later {s} answer t r a) =
      step_at-IsTraced s t (s.pc t) answer refl (Reach-IsConsistent threads r) (Reach-IsTraced r)
