-- ===== src/Pipeline/Valid/Reports.antt =====
-- When the lists of messages that the checks report are empty.
use atc.Prelude.{
  ◌≡◌, refl, ◌↔◌, Bool, true, false, not, none, some, List, [], ◌∷◌, map, Any, length, arith,
}
pub use atc.Prelude.{append-nil_iff, iff_trans, refl_iff}
use atc.Pipeline.Config.{Name, is_set, ResourceConfig, lookup_resource}
use atc.Pipeline.Messages.{Identifier, Action}
use atc.Pipeline.Steps.{keep, has, one_action, uses}
use atc.Pipeline.Valid.{bit}

pub keep_iff {ℓ} : {A : Type ℓ} (b : Bool) (x : A) → (keep b x ≡ []) ↔ (b ≡ false)
keep_iff b x = ground arith

pub map-nil_iff : {A B : Type 0} (g : A → B) (xs : List A) → (map g xs ≡ []) ↔ (xs ≡ [])
map-nil_iff g [] = ground arith
map-nil_iff g (x ∷ xs) = ground arith

pub file_iff : (n : Name) → (is_set n ≡ false) ↔ (n ≡ 0)
file_iff n = ground arith

pub not_iff : {b : Bool} → ((not b) ≡ false) ↔ (b ≡ true)
not_iff {b} = ground arith

pub lookup_iff :
    (rs : List ResourceConfig) (n : Name)
    → (has (lookup_resource rs n) ≡ true) ↔ Any (λ r. ResourceConfig.name r ≡ n) rs
unfolding lookup_resource
lookup_iff [] n = ground arith
lookup_iff (r ∷ rs) n = ground (arith, lookup_iff rs n)

pub uses_iff :
    (xs : List (Name × Name)) (r : Name) → (uses xs (some r) ≡ true) ↔ Any (λ x. x.1 ≡ r) xs
unfolding uses
uses_iff [] r = ground arith
uses_iff (x ∷ xs) r = ground (arith, uses_iff xs r)

pub one_action_iff :
    (ident : Identifier) (ts : List Action) → (one_action ident ts ≡ none) ↔ (length ts ≡ 1)
unfolding one_action
one_action_iff ident [] = ground arith
one_action_iff ident (t ∷ []) = ground arith
one_action_iff ident (t ∷ u ∷ ts) = ground arith

pub length-keep {ℓ} : {A : Type ℓ} (b : Bool) (x : A) → length (keep b x) ≡ bit b
length-keep true x = refl
length-keep false x = refl
