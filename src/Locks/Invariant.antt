-- ===== src/Locks/Invariant.antt =====
-- db/lock/lock.go: what holds between the mutexes, the lock repositories and the database.
use atc.Prelude.{ℕ, ◌+◌, ◌-◌, ◌≤◌, ◌≡◌, ◌⊎◌, refl, Bool, true, false, none, some, arith}
use atc.Locks.System.{
  Pc, outside, entering, checked, granted, recorded, holding, released, Threads, State, update,
  update_at, start,
}

-- With the mutex; past the check of the repository and not yet in it; in the repository; with the key
-- in the database.
abbrev pub has_mutex : Pc → Bool
has_mutex entering = true
has_mutex checked = true
has_mutex granted = true
has_mutex recorded = true
has_mutex _ = false

abbrev pub is_checked : Pc → Bool
is_checked checked = true
is_checked granted = true
is_checked _ = false

abbrev pub is_recorded : Pc → Bool
is_recorded recorded = true
is_recorded holding = true
is_recorded released = true
is_recorded _ = false

abbrev pub is_owner : Pc → Bool
is_owner granted = true
is_owner recorded = true
is_owner holding = true
is_owner _ = false

module _ (threads : Threads) where
  open threads use {process_of, key_of}

  pub record IsConsistent (s : State) : Type 0 where
    pub mutex_of : (t : ℕ) → has_mutex (s.pc t) ≡ true → s.mutex (process_of t) ≡ some t
    pub unrecorded :
        (t : ℕ) → is_checked (s.pc t) ≡ true → s.registered (process_of t) (key_of t) ≡ false
    pub recorded_ :
        (t : ℕ) → is_recorded (s.pc t) ≡ true → s.registered (process_of t) (key_of t) ≡ true
    pub alone :
        (t u : ℕ)
        → is_recorded (s.pc t) ≡ true
        → is_recorded (s.pc u) ≡ true
        → process_of t ≡ process_of u
        → key_of t ≡ key_of u
        → t ≡ u
    pub owned : (t : ℕ) → is_owner (s.pc t) ≡ true → 1 ≤ s.locked (process_of t) (key_of t)
    pub one_session : (k p q : ℕ) → 1 ≤ s.locked p k → 1 ≤ s.locked q k → p ≡ q

  pub start-IsConsistent : IsConsistent start
  start-IsConsistent = record {
    mutex_of = λ t h. absurd (cc);
    unrecorded = λ t h. refl;
    recorded_ = λ t h. absurd (cc);
    alone = λ t u h. absurd (cc);
    owned = λ t h. absurd (cc);
    one_session = λ k p q h. absurd (omega (arith, h));
  }

  module _ (s : State) (c : IsConsistent s) (t : ℕ) where
    pub enter-IsConsistent :
        s.pc t ≡ outside
        → s.mutex (process_of t) ≡ none
        → IsConsistent (record s {
          pc = update s.pc t entering;
          mutex = update s.mutex (process_of t) (some t);
        })
    unfolding update
    enter-IsConsistent e m = record {
      mutex_of = λ u h. ground (arith, e, m, h, IsConsistent.mutex_of c u);
      unrecorded = λ u h. ground (arith, e, m, h, IsConsistent.unrecorded c u);
      recorded_ = λ u h. ground (arith, e, m, h, IsConsistent.recorded_ c u);
      alone = λ u w hu hw. ground (arith, e, m, hu, hw, IsConsistent.alone c u w);
      owned = λ u h. ground (arith, e, m, h, IsConsistent.owned c u);
      one_session = IsConsistent.one_session c;
    }

    pub leave-IsConsistent :
        (s.pc t ≡ entering) ⊎ (s.pc t ≡ checked)
        → IsConsistent
            (record s { pc = update s.pc t outside; mutex = update s.mutex (process_of t) none })
    unfolding update
    leave-IsConsistent e = record {
      mutex_of = λ u h. ground (arith, e, h, IsConsistent.mutex_of c u, IsConsistent.mutex_of c t);
      unrecorded = λ u h. ground (arith, e, h, IsConsistent.unrecorded c u);
      recorded_ = λ u h. ground (arith, e, h, IsConsistent.recorded_ c u);
      alone = λ u w hu hw. ground (arith, e, hu, hw, IsConsistent.alone c u w);
      owned = λ u h. ground (arith, e, h, IsConsistent.owned c u);
      one_session = IsConsistent.one_session c;
    }

    pub check-IsConsistent :
        s.pc t ≡ entering
        → s.registered (process_of t) (key_of t) ≡ false
        → IsConsistent (record s { pc = update s.pc t checked })
    unfolding update
    check-IsConsistent e r = record {
      mutex_of = λ u h. ground (arith, e, h, IsConsistent.mutex_of c u);
      unrecorded = λ u h. ground (arith, e, r, h, IsConsistent.unrecorded c u);
      recorded_ = λ u h. ground (arith, e, h, IsConsistent.recorded_ c u);
      alone = λ u w hu hw. ground (arith, e, hu, hw, IsConsistent.alone c u w);
      owned = λ u h. ground (arith, e, h, IsConsistent.owned c u);
      one_session = IsConsistent.one_session c;
    }

    pub grant-IsConsistent :
        s.pc t ≡ checked
        → ((p : ℕ) → (s.locked p (key_of t) ≡ 0) ⊎ (p ≡ process_of t))
        → IsConsistent (record s {
          pc = update s.pc t granted;
          locked =
              update_at s.locked (process_of t) (key_of t) (s.locked (process_of t) (key_of t) + 1);
        })
    unfolding update update_at
    grant-IsConsistent e free = record {
      mutex_of = λ u h. ground (arith, e, h, IsConsistent.mutex_of c u);
      unrecorded = λ u h. ground (arith, e, h, IsConsistent.unrecorded c u);
      recorded_ = λ u h. ground (arith, e, h, IsConsistent.recorded_ c u);
      alone = λ u w hu hw. ground (arith, e, hu, hw, IsConsistent.alone c u w);
      owned = λ u h. ground (arith, e, h, IsConsistent.owned c u);
      one_session =
          λ k p q hp hq. ground (arith, hp, hq, free p, free q, IsConsistent.one_session c k p q);
    }

    pub record-IsConsistent :
        s.pc t ≡ granted
        → IsConsistent (record s {
          pc = update s.pc t recorded;
          registered = update_at s.registered (process_of t) (key_of t) true;
        })
    unfolding update update_at
    record-IsConsistent e = record {
      mutex_of = λ u h. ground (arith, e, h, IsConsistent.mutex_of c u);
      unrecorded = λ u h. ground (
        arith,
        e,
        h,
        IsConsistent.unrecorded c u,
        IsConsistent.mutex_of c u,
        IsConsistent.mutex_of c t,
      );
      recorded_ = λ u h. ground (arith, e, h, IsConsistent.recorded_ c u);
      alone = λ u w hu hw. ground (
        arith,
        e,
        hu,
        hw,
        IsConsistent.alone c u w,
        IsConsistent.unrecorded c t,
        IsConsistent.recorded_ c u,
        IsConsistent.recorded_ c w,
      );
      owned = λ u h. ground (arith, e, h, IsConsistent.owned c u);
      one_session = IsConsistent.one_session c;
    }

    pub hold-IsConsistent :
        s.pc t ≡ recorded
        → IsConsistent
            (record s { pc = update s.pc t holding; mutex = update s.mutex (process_of t) none })
    unfolding update
    hold-IsConsistent e = record {
      mutex_of = λ u h. ground (arith, e, h, IsConsistent.mutex_of c u, IsConsistent.mutex_of c t);
      unrecorded = λ u h. ground (arith, e, h, IsConsistent.unrecorded c u);
      recorded_ = λ u h. ground (arith, e, h, IsConsistent.recorded_ c u);
      alone = λ u w hu hw. ground (arith, e, hu, hw, IsConsistent.alone c u w);
      owned = λ u h. ground (arith, e, h, IsConsistent.owned c u);
      one_session = IsConsistent.one_session c;
    }

    pub release-IsConsistent :
        s.pc t ≡ holding
        → IsConsistent (record s {
          pc = update s.pc t released;
          locked =
              update_at s.locked (process_of t) (key_of t) (s.locked (process_of t) (key_of t) - 1);
        })
    unfolding update update_at
    release-IsConsistent e = record {
      mutex_of = λ u h. ground (arith, e, h, IsConsistent.mutex_of c u);
      unrecorded = λ u h. ground (arith, e, h, IsConsistent.unrecorded c u);
      recorded_ = λ u h. ground (arith, e, h, IsConsistent.recorded_ c u);
      alone = λ u w hu hw. ground (arith, e, hu, hw, IsConsistent.alone c u w);
      owned = λ u h. ground (
        arith,
        e,
        h,
        IsConsistent.owned c u,
        IsConsistent.alone c t u,
        IsConsistent.unrecorded c u,
        IsConsistent.recorded_ c t,
      );
      one_session = λ k p q hp hq. ground (arith, hp, hq, IsConsistent.one_session c k p q);
    }

    pub unregister-IsConsistent :
        s.pc t ≡ released
        → IsConsistent (record s {
          pc = update s.pc t outside;
          registered = update_at s.registered (process_of t) (key_of t) false;
        })
    unfolding update update_at
    unregister-IsConsistent e = record {
      mutex_of = λ u h. ground (arith, e, h, IsConsistent.mutex_of c u);
      unrecorded = λ u h. ground (arith, e, h, IsConsistent.unrecorded c u);
      recorded_ = λ u h. ground (arith, e, h, IsConsistent.recorded_ c u, IsConsistent.alone c t u);
      alone = λ u w hu hw. ground (arith, e, hu, hw, IsConsistent.alone c u w);
      owned = λ u h. ground (arith, e, h, IsConsistent.owned c u);
      one_session = IsConsistent.one_session c;
    }
