-- ===== src/Locks/Keys.antt =====
-- db/lock/lock.go: the ids of locks, and their keys in the lock repository.
use atc.Prelude.{ℕ, ◌≡◌, ◌≢◌, ◌⊎◌, inl, inr, refl, sym, ap, List, [], ◌∷◌, ◌++◌, All, arith}
use atc.Pipeline.Config.{Name, ℤ, pos}

-- strconv.Itoa, in bytes: different numbers have different texts, and none is empty or has a plus sign;
-- and hash/crc32.ChecksumIEEE of a name, as an int32.
pub record Texts : Type 0 where
  pub itoa : ℤ → List ℕ
  pub checksum : Name → ℤ
  pub itoa_injective : (m n : ℤ) → itoa m ≡ itoa n → m ≡ n
  pub itoa_nonempty : (n : ℤ) → itoa n ≢ []
  pub itoa_plus : (n : ℤ) → All (λ b. b ≢ 43) (itoa n)

abbrev pub LockId : Type 0
LockId = List ℤ

-- What a lock is for.
pub data Purpose : Type 0 where
  resource_config_checking build_tracking pipeline_scheduling : ℤ → Purpose
  task : Name → Purpose
  volume_creating container_creating : ℤ → Purpose
  database_migration : Purpose

-- strings.Join, with a plus sign.
unfoldable pub join : List (List ℕ) → List ℕ
join [] = []
join (x ∷ []) = x
join (x ∷ y ∷ ys) = x ++ (43 ∷ join (y ∷ ys))

module _ (texts : Texts) where
  open texts use {itoa, checksum, itoa_injective, itoa_nonempty, itoa_plus}

  -- The functions that make the ids of locks.
  unfoldable pub new_lock_id : Purpose → LockId
  new_lock_id (resource_config_checking n) = pos 0 ∷ n ∷ []
  new_lock_id (build_tracking n) = pos 1 ∷ n ∷ []
  new_lock_id (pipeline_scheduling n) = pos 2 ∷ n ∷ []
  new_lock_id (task name) = pos 3 ∷ checksum name ∷ []
  new_lock_id (volume_creating n) = pos 4 ∷ n ∷ []
  new_lock_id (container_creating n) = pos 5 ∷ n ∷ []
  new_lock_id database_migration = pos 6 ∷ []

  unfoldable pub texts_of : LockId → List (List ℕ)
  texts_of [] = []
  texts_of (n ∷ ns) = itoa n ∷ texts_of ns

  unfoldable pub to_key : LockId → List ℕ
  to_key id = join (texts_of id)

  -- The text before the first plus sign.
  plus_splits :
      (xs ys : List ℕ) (r s : List ℕ)
      → All (λ b. b ≢ 43) xs
      → All (λ b. b ≢ 43) ys
      → (xs ++ (43 ∷ r)) ≡ (ys ++ (43 ∷ s))
      → (xs ≡ ys) × (r ≡ s)
  plus_splits [] [] r s hx hy e = (refl, ground (arith, e))
  plus_splits [] (y ∷ ys) r s hx hy e = absurd (hy.0 (ground (arith, e)))
  plus_splits (x ∷ xs) [] r s hx hy e = absurd (hx.0 (ground (arith, e)))
  plus_splits (x ∷ xs) (y ∷ ys) r s hx hy e =
      ground (arith, e, plus_splits xs ys r s hx.1 hy.1 (ground (arith, e)))

  no_plus : (xs ys r : List ℕ) → All (λ b. b ≢ 43) xs → xs ≢ (ys ++ (43 ∷ r))
  no_plus [] [] r h e = absurd (ground (arith, e))
  no_plus [] (y ∷ ys) r h e = absurd (ground (arith, e))
  no_plus (x ∷ xs) [] r h e = absurd (h.0 (ground (arith, e)))
  no_plus (x ∷ xs) (y ∷ ys) r h e = no_plus xs ys r h.1 (ground (arith, e))

  not_empty : (xs r : List ℕ) → [] ≢ (xs ++ (43 ∷ r))
  not_empty [] r e = absurd (ground (arith, e))
  not_empty (x ∷ xs) r e = absurd (ground (arith, e))

  to_key-injective : (a b : LockId) → to_key a ≡ to_key b → a ≡ b
  unfolding to_key texts_of join
  to_key-injective [] [] e = refl
  to_key-injective [] (n ∷ []) e = absurd (itoa_nonempty n (sym e))
  to_key-injective (m ∷ []) [] e = absurd (itoa_nonempty m e)
  to_key-injective [] (n ∷ n' ∷ ns) e = absurd (not_empty (itoa n) _ e)
  to_key-injective (m ∷ m' ∷ ms) [] e = absurd (not_empty (itoa m) _ (sym e))
  to_key-injective (m ∷ []) (n ∷ []) e = ap (λ k. k ∷ []) (itoa_injective m n e)
  to_key-injective (m ∷ []) (n ∷ n' ∷ ns) e = absurd (no_plus (itoa m) (itoa n) _ (itoa_plus m) e)
  to_key-injective (m ∷ m' ∷ ms) (n ∷ []) e =
      absurd (no_plus (itoa n) (itoa m) _ (itoa_plus n) (sym e))
  to_key-injective (m ∷ m' ∷ ms) (n ∷ n' ∷ ns) e =
      let split = plus_splits (itoa m) (itoa n) _ _ (itoa_plus m) (itoa_plus n) e in
      rw (itoa_injective m n split.0, to_key-injective (m' ∷ ms) (n' ∷ ns) split.1) refl

  same_purpose :
      (p q : Purpose)
      → new_lock_id p ≡ new_lock_id q
      → (p ≡ q)
        ⊎ ((m : Name) × (n : Name) × (p ≡ task m) × (q ≡ task n) × (checksum m ≡ checksum n))
  unfolding new_lock_id
  same_purpose (task m) (task n) h = inr (m, n, refl, refl, ground (arith, h))
  same_purpose (task m) _ h = inl (ground (arith, h))
  same_purpose (resource_config_checking m) (resource_config_checking n) h = inl (ground (arith, h))
  same_purpose (resource_config_checking m) _ h = inl (ground (arith, h))
  same_purpose (build_tracking m) _ h = inl (ground (arith, h))
  same_purpose (pipeline_scheduling m) _ h = inl (ground (arith, h))
  same_purpose (volume_creating m) _ h = inl (ground (arith, h))
  same_purpose (container_creating m) _ h = inl (ground (arith, h))
  same_purpose database_migration _ h = inl (ground (arith, h))

  -- Locks for different purposes have different keys in the repository, where the names of two tasks
  -- count as one if they have the same checksum.
  pub to_key-new_lock_id :
      (p q : Purpose)
      → to_key (new_lock_id p) ≡ to_key (new_lock_id q)
      → (p ≡ q)
        ⊎ ((m : Name) × (n : Name) × (p ≡ task m) × (q ≡ task n) × (checksum m ≡ checksum n))
  to_key-new_lock_id p q e = same_purpose p q (to_key-injective (new_lock_id p) (new_lock_id q) e)
