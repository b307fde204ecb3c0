-- ===== src/Locks/Tests.antt =====
-- A goroutine that acquires a lock, another that is refused it, and the theorems at them.
use atc.Prelude.{ℕ, zero, suc, ◌≡◌, ◌≢◌, ◌⊎◌, inl, refl, true, List, [], ◌∷◌, All, arith}
use atc.Pipeline.Config.{Name, ℤ, pos, negsuc}
use atc.Locks.System.{
  outside, holding, Threads, State, update, update_at, Answer, granted_, refused, step_at, step,
  start, release_is_nil, Reach, begin, later,
}
use atc.Locks.Exclusion.{holding_unique}
use atc.Locks.Availability.{IsFree, free_lock-acquired}
use atc.Locks.Keys.{
  Texts, build_tracking, new_lock_id, task, to_key, to_key-new_lock_id, join, texts_of,
}

-- Every goroutine has a process of its own, and wants key 5.
abbrev threads : Threads
threads = record { process_of = λ t. t; key_of = λ t. 5 }

abbrev turn : Answer → ℕ → State → State
turn answer t s = step threads answer t s

abbrev asking : State
asking = turn refused 0 (turn refused 0 start)

abbrev held : State
held = turn refused 0 (turn refused 0 (turn granted_ 0 asking))

held-Reach : Reach threads start held
unfolding step_at update update_at
held-Reach =
    later refused 0
      (later refused 0
        (later granted_ 0 (later refused 0 (later refused 0 begin tt) tt) (λ p. inl refl)) tt)
      tt

is_held : held.pc 0 ≡ holding
unfolding step_at update update_at
is_held = refl

-- The other process asks, is refused and gives up.
gives_up : (turn refused 1 (turn refused 1 (turn refused 1 held))).pc 1 ≡ outside
unfolding step_at update update_at
gives_up = refl

holding_unique_example :
    (release_is_nil threads 0 held ≡ true)
    × ((u : ℕ) → held.pc u ≡ holding → Threads.key_of threads u ≡ Threads.key_of threads 0 → u ≡ 0)
holding_unique_example = holding_unique threads held held-Reach 0 is_held

start-IsFree : IsFree threads start 0
start-IsFree = record { unused = λ u e. refl; idle = λ u e. refl }

free_lock-acquired_example : (s : State) × Reach threads start s × (s.pc 0 ≡ holding)
free_lock-acquired_example = free_lock-acquired threads start 0 begin start-IsFree

-- Numbers as a sign and as many strokes.
abbrev strokes : ℕ → List ℕ
strokes zero = []
strokes (suc n) = 49 ∷ strokes n

strokes-injective : (m n : ℕ) → strokes m ≡ strokes n → m ≡ n
strokes-injective zero zero e = refl
strokes-injective zero (suc n) e = absurd (cc)
strokes-injective (suc m) zero e = absurd (cc)
strokes-injective (suc m) (suc n) e = ground (arith, strokes-injective m n (ground (arith, e)))

strokes_plus : (n : ℕ) → All (λ b. b ≢ 43) (strokes n)
strokes_plus zero = tt
strokes_plus (suc n) = (λ e. absurd (omega (arith, e)), strokes_plus n)

abbrev itoa : ℤ → List ℕ
itoa (pos n) = 48 ∷ strokes n
itoa (negsuc n) = 45 ∷ strokes n

itoa-injective : (m n : ℤ) → itoa m ≡ itoa n → m ≡ n
itoa-injective (pos m) (pos n) e = ground (arith, strokes-injective m n (ground (arith, e)))
itoa-injective (pos m) (negsuc n) e = absurd (ground (arith, e))
itoa-injective (negsuc m) (pos n) e = absurd (ground (arith, e))
itoa-injective (negsuc m) (negsuc n) e = ground (arith, strokes-injective m n (ground (arith, e)))

itoa-plus : (n : ℤ) → All (λ b. b ≢ 43) (itoa n)
itoa-plus (pos n) = (λ e. absurd (omega (arith, e)), strokes_plus n)
itoa-plus (negsuc n) = (λ e. absurd (omega (arith, e)), strokes_plus n)

itoa_not_empty : (n : ℤ) → itoa n ≢ []
itoa_not_empty (pos n) e = absurd (cc)
itoa_not_empty (negsuc n) e = absurd (cc)

abbrev texts : Texts
texts = record {
  itoa = itoa;
  checksum = λ name. pos name;
  itoa_injective = itoa-injective;
  itoa_nonempty = itoa_not_empty;
  itoa_plus = itoa-plus;
}

build_tracking_key :
    to_key texts (new_lock_id texts (build_tracking (pos 2))) ≡ 48 ∷ 49 ∷ 43 ∷ 48 ∷ 49 ∷ 49 ∷ []
unfolding to_key texts_of join new_lock_id
build_tracking_key = refl

to_key-new_lock_id_example :
    (task 3 ≡ task 3)
    ⊎ ((m : Name) × (n : Name) × (task 3 ≡ task m)
        × (task 3 ≡ task n)
        × (Texts.checksum texts m ≡ Texts.checksum texts n))
to_key-new_lock_id_example = to_key-new_lock_id texts (task 3) (task 3) refl
