-- ===== src/Locks/System.antt =====
-- db/lock/lock.go: goroutines of several processes that acquire and release locks.
use atc.Prelude.{
  ◌⊎◌, ℕ, ◌+◌, ◌-◌, ◌≡◌, Bool, true, false, Option, none, some, ◌==◌, leb, if◌then◌else◌,
}

-- Where a goroutine stands: before Acquire and after Release; in Acquire, with the mutex, once it has
-- the mutex, once IsRegistered was false, once the database has granted the lock, and once the lock is
-- registered; with the lock; and in Release, once the database has been asked.
pub data Pc : Type 0 where
  outside entering checked granted recorded holding released : Pc

-- Each goroutine has a process, and the key of the lock that it wants.
pub record Threads : Type 0 where
  pub process_of : ℕ → ℕ
  pub key_of : ℕ → ℕ

-- Each process has acquireMutex, with the goroutine that has locked it, and the keys in its lockRepo;
-- `locked` is how often the session of a process has a key in the database.
pub record State : Type 0 where
  pub pc : ℕ → Pc
  pub mutex : ℕ → Option ℕ
  pub registered : ℕ → ℕ → Bool
  pub locked : ℕ → ℕ → ℕ

unfoldable pub update : {A : Type 0} → (ℕ → A) → ℕ → A → ℕ → A
update f a x b = if a == b then x else f b

unfoldable pub update_at : {A : Type 0} → (ℕ → ℕ → A) → ℕ → ℕ → A → ℕ → ℕ → A
update_at f a k x b j = if a == b then update (f a) k x j else f b j

-- What pg_try_advisory_lock does: a session that has the key has it once more, and no session has a key
-- that another one has; or the query fails.
pub data Answer : Type 0 where
  granted_ refused query_failed : Answer

abbrev pub is_free : Option ℕ → Bool
is_free none = true
is_free (some t) = false

module _ (threads : Threads) where
  open threads use {process_of, key_of}

  -- A goroutine takes a step of Acquire or Release, where `answer` is what the database answers.
  unfoldable pub step_at : Pc → Answer → ℕ → State → State
  step_at outside answer t s =
      if is_free (s.mutex (process_of t))
      then record s { pc = update s.pc t entering; mutex = update s.mutex (process_of t) (some t) }
      else s
  step_at entering answer t s =
      if s.registered (process_of t) (key_of t)
      then record s { pc = update s.pc t outside; mutex = update s.mutex (process_of t) none }
      else record s { pc = update s.pc t checked }
  step_at checked granted_ t s = record s {
    pc = update s.pc t granted;
    locked = update_at s.locked (process_of t) (key_of t) (s.locked (process_of t) (key_of t) + 1);
  }
  step_at checked _ t s = record s {
    pc = update s.pc t outside;
    mutex = update s.mutex (process_of t) none;
  }
  step_at granted answer t s = record s {
    pc = update s.pc t recorded;
    registered = update_at s.registered (process_of t) (key_of t) true;
  }
  step_at recorded answer t s = record s {
    pc = update s.pc t holding;
    mutex = update s.mutex (process_of t) none;
  }
  step_at holding answer t s = record s {
    pc = update s.pc t released;
    locked = update_at s.locked (process_of t) (key_of t) (s.locked (process_of t) (key_of t) - 1);
  }
  step_at released answer t s = record s {
    pc = update s.pc t outside;
    registered = update_at s.registered (process_of t) (key_of t) false;
  }

  abbrev pub step : Answer → ℕ → State → State
  step answer t s = step_at (s.pc t) answer t s

  -- Postgres grants a key to a session only if no other session has it.
  abbrev pub IsAnswer : Answer → ℕ → State → Type 0
  IsAnswer granted_ t s = (p : ℕ) → (s.locked p (key_of t) ≡ 0) ⊎ (p ≡ process_of t)
  IsAnswer _ t s = Unit

  -- Release returns nil where pg_advisory_unlock says that the session had the key.
  abbrev pub release_is_nil : ℕ → State → Bool
  release_is_nil t s = leb 1 (s.locked (process_of t) (key_of t))

abbrev pub start : State
start = record {
  pc = λ t. outside;
  mutex = λ p. none;
  registered = λ p k. false;
  locked = λ p k. 0;
}

-- The states that goroutines come to from a state, taking steps in any order.
pub data Reach (threads : Threads) (origin : State) : State → Type 0 where
  begin : Reach threads origin origin
  later :
      {s : State} (answer : Answer) (t : ℕ)
      → Reach threads origin s
      → IsAnswer threads answer t s
      → Reach threads origin (step threads answer t s)
