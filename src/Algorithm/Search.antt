-- ===== src/Algorithm/Search.antt =====
-- sort.Search of Go's standard library: the binary search by which Versions keeps its order.
use atc.Prelude.{
  ℕ, zero, suc, ◌+◌, ◌-◌, ◌/◌, ◌≤◌, ◌<◌, ◌≡◌, ap, sym, ◌∙◌, inl, inr, Bool, true, false, arith, ltb,
  ltb→lt, if◌then◌else◌, Bool-cases,
}

-- for i < j { h := (i+j)/2; if !f(h) { i = h+1 } else { j = h } }; return i
search_between : ℕ → (ℕ → Bool) → ℕ → ℕ → ℕ
search_between zero f i j = i
search_between (suc fuel) f i j =
    let h = (i + j) / 2 in
    let right = search_between fuel f (h + 1) j in
    let left = search_between fuel f i h in if ltb i j then (if f h then left else right) else i

-- The interval shrinks in each round, so n rounds are enough.
unfoldable pub search : ℕ → (ℕ → Bool) → ℕ
unfolding search_between
search n f = search_between n f 0 n

pub record IsFirst (n : ℕ) (f : ℕ → Bool) (i : ℕ) : Type 0 where
  pub in_range : i ≤ n
  pub below : (k : ℕ) → suc k ≡ i → f k ≡ false
  pub here : i < n → f i ≡ true

closed :
    (n : ℕ) (f : ℕ → Bool) (i j : ℕ)
    → i ≤ j
    → j ≤ n
    → j ≤ i
    → ((k : ℕ) → suc k ≡ i → f k ≡ false)
    → (j < n → f j ≡ true)
    → IsFirst n f i
closed n f i j p q r lo hi =
    let e : j ≡ i = omega arith in
    record { in_range = omega arith; below = lo; here = λ h. ap f (sym e) ∙ hi (omega arith) }

search_between-IsFirst :
    (n : ℕ) (f : ℕ → Bool) (fuel i j : ℕ)
    → i ≤ j
    → j ≤ n
    → j - i ≤ fuel
    → ((k : ℕ) → suc k ≡ i → f k ≡ false)
    → (j < n → f j ≡ true)
    → IsFirst n f (search_between fuel f i j)
unfolding search_between
search_between-IsFirst n f zero i j p q r lo hi = closed n f i j p q (omega arith) lo hi
search_between-IsFirst n f (suc fuel) i j p q r lo hi = elim (Bool-cases (ltb i j)) [
  | inr e ↦ rw e (closed n f i j p q (ground arith) lo hi)
  | inl e ↦
      let i<j : i < j = ltb→lt i j e in
      elim (Bool-cases (f ((i + j) / 2))) [
        | inl t ↦
            rw (e, t)
              (search_between-IsFirst n f fuel i ((i + j) / 2) (omega arith) (omega arith)
                (omega arith) lo (λ _. t))
        | inr t ↦
            rw (e, t)
              (search_between-IsFirst n f fuel ((i + j) / 2 + 1) j (omega arith) (omega arith)
                (omega arith) (λ k same. ap f (omega arith) ∙ t) hi)
      ]
]

-- sort.Search returns an index up to n, before which the test fails and at which, below n, it
-- holds.
pub search-IsFirst : (n : ℕ) (f : ℕ → Bool) → IsFirst n f (search n f)
unfolding search
search-IsFirst n f =
    search_between-IsFirst n f n 0 n (omega arith) (omega arith) (omega arith)
      (λ k same. absurd (omega arith)) (λ h. absurd (omega arith))
