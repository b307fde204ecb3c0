-- ===== src/Prelude/Predicates.antt =====
-- When all elements of a list, or all pairs of them, have a property.
use mathlib.Core.Logic.{◌↔◌}
use mathlib.Core.List.{List, [], ◌∷◌, ◌++◌}
use atc.Prelude.Lists.{All}
use atc.Prelude.Reports.{refl_iff}

pub prod_iff : {A B C D : Type 0} → A ↔ C → B ↔ D → (A × B) ↔ (C × D)
prod_iff f g = ((λ v. (f.0 v.0, g.0 v.1)), (λ v. (f.1 v.0, g.1 v.1)))

pub iff_sym : {A B : Type 0} → A ↔ B → B ↔ A
iff_sym f = (f.1, f.0)

abbrev pub Pairwise : {A : Type 0} → (A → A → Type 0) → List A → Type 0
Pairwise R [] = Unit
Pairwise R (x ∷ xs) = All (R x) xs × Pairwise R xs

module _ {A : Type 0} where
  pub All_iff : {P Q : A → Type 0} → ((x : A) → P x ↔ Q x) → (xs : List A) → All P xs ↔ All Q xs
  All_iff f [] = refl_iff
  All_iff f (x ∷ xs) = prod_iff (f x) (All_iff f xs)

  pub All-prod_iff :
      (P Q : A → Type 0) (xs : List A) → All (λ x. (P x × Q x)) xs ↔ (All P xs × All Q xs)
  All-prod_iff P Q [] = ((λ v. (tt, tt)), (λ v. tt))
  All-prod_iff P Q (x ∷ xs) = (
    (λ v. let w = (All-prod_iff P Q xs).0 v.1 in ((v.0.0, w.0), (v.0.1, w.1))),
    (λ v. ((v.0.0, v.1.0), (All-prod_iff P Q xs).1 (v.0.1, v.1.1))),
  )

  pub All-append_iff : (P : A → Type 0) (xs ys : List A) → All P (xs ++ ys) ↔ (All P xs × All P ys)
  All-append_iff P [] ys = ((λ v. (tt, v)), (λ v. v.1))
  All-append_iff P (x ∷ xs) ys = (
    (λ v. let w = (All-append_iff P xs ys).0 v.1 in ((v.0, w.0), w.1)),
    (λ v. (v.0.0, (All-append_iff P xs ys).1 (v.0.1, v.1))),
  )

  pub All_swap :
      {B : Type 0} (R : A → B → Type 0) (xs : List A) (ys : List B)
      → All (λ x. All (R x) ys) xs
      → All (λ y. All (λ x. R x y) xs) ys
  All_swap R xs [] h = tt
  All_swap R xs (y ∷ ys) h =
      let w = (All-prod_iff (λ x. R x y) (λ x. All (R x) ys) xs).0 h in (w.0, All_swap R xs ys w.1)

  pub Pairwise-iff :
      {R S : A → A → Type 0}
      → ((x y : A) → R x y ↔ S x y)
      → (xs : List A) → Pairwise R xs ↔ Pairwise S xs
  Pairwise-iff f [] = refl_iff
  Pairwise-iff f (x ∷ xs) = prod_iff (All_iff (f x) xs) (Pairwise-iff f xs)

  pub Pairwise-append_iff :
      (R : A → A → Type 0) (xs ys : List A)
      → Pairwise R (xs ++ ys) ↔ (Pairwise R xs × Pairwise R ys × All (λ x. All (R x) ys) xs)
  Pairwise-append_iff R [] ys = ((λ v. (tt, v, tt)), (λ v. v.1))
  Pairwise-append_iff R (x ∷ xs) ys = (
    (λ v.
        let a = (All-append_iff (R x) xs ys).0 v.0 in
        let w = (Pairwise-append_iff R xs ys).0 v.1 in ((a.0, w.0), w.1, (a.1, w.2))),
    (λ v. (
      (All-append_iff (R x) xs ys).1 (v.0.0, v.2.0),
      (Pairwise-append_iff R xs ys).1 (v.0.1, v.1, v.2.1),
    )),
  )
