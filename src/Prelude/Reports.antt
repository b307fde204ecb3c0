-- ===== src/Prelude/Reports.antt =====
-- Lists of messages that are empty, and equivalences.
use mathlib.Core.Path.{◌≡◌}
use mathlib.Core.Logic.{◌↔◌}
use mathlib.Core.List.{List, [], ◌++◌, append-eq-nil_iff}

pub append-nil_iff {ℓ} :
    {A : Type ℓ} {p q : List A} {P Q : Type 0}
    → (p ≡ []) ↔ P
    → (q ≡ []) ↔ Q
    → (p ++ q ≡ []) ↔ (P × Q)
append-nil_iff f g = (
  λ e. (f.0 (append-eq-nil_iff.0 e).0, g.0 (append-eq-nil_iff.0 e).1),
  λ v. append-eq-nil_iff.1 (f.1 v.0, g.1 v.1),
)

pub iff_trans : {A B C : Type 0} → A ↔ B → B ↔ C → A ↔ C
iff_trans f g = ((λ a. g.0 (f.0 a)), (λ c. f.1 (g.1 c)))

pub refl_iff : {A : Type 0} → A ↔ A
refl_iff = ((λ x. x), (λ x. x))
