-- ===== src/Task/Counted.antt =====
-- What the counter holds once paths are registered, and when it reports nothing.
use Prim.Native.String.{String}
use text.Mathlib.Text.{◌==◌ as str_eq}
use text.Mathlib.TextEquality.{eq_iff}
use atc.Prelude.{
  ℕ, ◌≤◌, ◌≡◌, ◌≢◌, subst, ◌↔◌, true, false, List, [], ◌∷◌, ltb, All, arith, Bool-cases, inl, inr,
  iff_trans, prod_iff, refl_iff, All_iff, All-prod_iff, Pairwise,
}
use atc.Task.Counter.{Counts, register, is_counted}

unfoldable pub register_all : Counts → List String → Counts
register_all counts [] = counts
register_all counts (p ∷ paths) = register_all (register counts p) paths

-- A property of all paths that are counted.
abbrev pub AllPaths : (String → Type 0) → Counts → Type 0
AllPaths P = All (λ e. P e.0)

AllPaths-register :
    (P : String → Type 0) (counts : Counts) (p : String)
    → AllPaths P (register counts p) ↔ (P p × AllPaths P counts)
unfolding register
AllPaths-register P [] p = refl_iff
AllPaths-register P ((q, n) ∷ counts) p = elim (Bool-cases (str_eq q p)) [
  | inl e ↦ rw e ((λ v. (subst P ((eq_iff q p).0 e) v.0, v)), (λ v. v.1))
  | inr e ↦ rw e (
    (λ v. let w = (AllPaths-register P counts p).0 v.1 in (w.0, (v.0, w.1))),
    (λ v. (v.1.0, (AllPaths-register P counts p).1 (v.0, v.1.1))),
  )
]

pub AllPaths-register_all :
    (P : String → Type 0) (counts : Counts) (paths : List String)
    → AllPaths P (register_all counts paths) ↔ (AllPaths P counts × All P paths)
unfolding register_all
AllPaths-register_all P counts [] = ((λ v. (v, tt)), (λ v. v.0))
AllPaths-register_all P counts (p ∷ paths) =
    iff_trans (AllPaths-register_all P (register counts p) paths) (
      iff_trans (prod_iff (AllPaths-register P counts p) refl_iff)
        ((λ v. (v.0.1, (v.0.0, v.1))), (λ v. ((v.1.0, v.0), v.1.1))))

abbrev AllPositive : Counts → Type 0
AllPositive = All (λ (e : String × ℕ). 1 ≤ e.1)

-- No path is counted more than once.
abbrev pub AllOnce : Counts → Type 0
AllOnce = All (λ (e : String × ℕ). ltb 1 e.1 ≡ false)

AllPositive-register :
    (counts : Counts) (p : String) → AllPositive counts → AllPositive (register counts p)
unfolding register
AllPositive-register [] p h = (omega arith, tt)
AllPositive-register ((q, n) ∷ counts) p h = elim (Bool-cases (str_eq q p)) [
  | inl e ↦ rw e (omega arith, h.1)
  | inr e ↦ rw e (h.0, AllPositive-register counts p h.1)
]

AllOnce-register :
    (counts : Counts) (p : String)
    → AllPositive counts
    → AllOnce (register counts p) ↔ (AllOnce counts × AllPaths (λ q. q ≢ p) counts)
unfolding register
AllOnce-register [] p h = ((λ v. (tt, tt)), (λ v. (ground arith, tt)))
AllOnce-register ((q, n) ∷ counts) p h = elim (Bool-cases (str_eq q p)) [
  | inl e ↦
      rw e ((λ v. absurd (ground (arith, h.0, v.0))), (λ v. absurd (v.1.0 ((eq_iff q p).0 e))))
  | inr e ↦ rw e (
    (λ v.
        let w = (AllOnce-register counts p h.1).0 v.1 in
        ((v.0, w.0), ((λ d. ground (arith, eq_iff q p, d, e)), w.1))),
    (λ v. (v.0.0, (AllOnce-register counts p h.1).1 (v.0.1, v.1.1))),
  )
]

AllOnce-register_all :
    (counts : Counts) (paths : List String)
    → AllPositive counts
    → AllOnce (register_all counts paths) ↔ (
        AllOnce counts
        × Pairwise (λ p q. p ≢ q) paths
        × All (λ p. AllPaths (λ q. q ≢ p) counts) paths)
unfolding register_all
AllOnce-register_all counts [] h = ((λ v. (v, tt, tt)), (λ v. v.0))
AllOnce-register_all counts (p ∷ paths) h =
    let rest = AllOnce-register_all (register counts p) paths (AllPositive-register counts p h) in
    let here = AllOnce-register counts p h in
    let later =
      iff_trans (All_iff (λ r. AllPaths-register (λ q. q ≢ r) counts p) paths)
        (All-prod_iff (λ r. p ≢ r) (λ r. AllPaths (λ q. q ≢ r) counts) paths) in
    (
      (λ v.
          let a = rest.0 v in
          let b = here.0 a.0 in let c = later.0 a.2 in (b.0, (c.0, a.1), (b.1, c.1))),
      (λ v. rest.1 (here.1 (v.0, v.2.0), v.1.1, later.1 (v.1.0, v.2.1))),
    )

All_unit : {A : Type 0} (xs : List A) → All (λ x. Unit {0}) xs
All_unit [] = tt
All_unit (x ∷ xs) = (tt, All_unit xs)

pub register_all-AllOnce :
    (paths : List String) → AllOnce (register_all [] paths) ↔ Pairwise (λ p q. p ≢ q) paths
register_all-AllOnce paths =
    iff_trans (AllOnce-register_all [] paths tt) ((λ v. v.1), (λ v. (tt, v, All_unit paths)))

pub is_counted_iff :
    (p : String) (counts : Counts) → (is_counted p counts ≡ false) ↔ AllPaths (λ q. q ≢ p) counts
unfolding is_counted
is_counted_iff p [] = ground arith
is_counted_iff p ((q, n) ∷ counts) = ground (arith, eq_iff q p, is_counted_iff p counts)

counted_more :
    (q : String) (n : ℕ) (counts others : Counts)
    → AllPaths (λ p. is_counted p counts ≡ true) others
    → AllPaths (λ p. is_counted p ((q, n) ∷ counts) ≡ true) others
unfolding is_counted
counted_more q n counts [] h = tt
counted_more q n counts ((p, m) ∷ others) h =
    (ground (arith, h.0), counted_more q n counts others h.1)

pub AllPaths-is_counted : (counts : Counts) → AllPaths (λ p. is_counted p counts ≡ true) counts
unfolding is_counted
AllPaths-is_counted [] = tt
AllPaths-is_counted ((q, n) ∷ counts) =
    (ground (arith, eq_iff q q), counted_more q n counts counts (AllPaths-is_counted counts))
