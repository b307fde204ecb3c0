-- ===== src/Workers/Satisfies.antt =====
-- worker/worker.go: what Satisfying asks of a worker.
use atc.Prelude.{
  ◌≡◌, ◌⊎◌, ◌↔◌, inl, inr, refl, Bool, true, Option, none, some, List, [], ◌∷◌, All, arith,
}
use atc.Pipeline.Config.{Name}
use atc.Workers.Spec.{
  ResourceType, WorkerSpec, Worker, determine_underlying_type_name, has_name, all_matched,
  tags_match, supports, satisfying,
}

-- A worker without tags is for specs without tags and no others; one with tags is for specs with tags
-- that are among its own.
abbrev pub TagsFit : Worker → List Name → Type 0
TagsFit w [] = w.tags ≡ []
TagsFit w (tag ∷ tags) = All (λ t. has_name t w.tags ≡ true) (tag ∷ tags)

pub record Satisfies (w : Worker) (spec : WorkerSpec) (types : List ResourceType) : Type 0 where
  pub team : (spec.team_id ≡ w.team_id) ⊎ (w.team_id ≡ 0)
  pub resource_type :
      (spec.resource_type ≡ 0)
      ⊎ ((n : Name) × (determine_underlying_type_name spec.resource_type types ≡ some n)
          × (has_name n w.resource_types ≡ true))
  pub platform : (spec.platform ≡ 0) ⊎ (spec.platform ≡ w.platform)
  pub tags : TagsFit w spec.tags

all_matched_iff :
    (tags ws : List Name) → (all_matched tags ws ≡ true) ↔ All (λ t. has_name t ws ≡ true) tags
unfolding all_matched
all_matched_iff [] ws = (λ h. tt, λ h. refl)
all_matched_iff (t ∷ ts) ws = ground (arith, all_matched_iff ts ws)

tags_match_iff : (w : Worker) (tags : List Name) → (tags_match w tags ≡ true) ↔ TagsFit w tags
unfolding tags_match
tags_match_iff w [] = ground arith
tags_match_iff w (t ∷ ts) = all_matched_iff (t ∷ ts) w.tags

supports_iff :
    (w : Worker) (o : Option Name)
    → (supports w o ≡ true) ↔ ((n : Name) × (o ≡ some n) × (has_name n w.resource_types ≡ true))
unfolding supports
supports_iff w none = (λ h. absurd (cc), λ h. absurd (cc))
supports_iff w (some n) = (λ h. (n, refl, h), λ h. ground (arith, h.1, h.2))

module _ (w : Worker) (spec : WorkerSpec) (types : List ResourceType) where
  abbrev underlying_is_supported : Bool
  underlying_is_supported = supports w (determine_underlying_type_name spec.resource_type types)

  satisfying-tests : (satisfying w spec types ≡ none) ↔ (
      ((spec.team_id ≡ w.team_id) ⊎ (w.team_id ≡ 0))
      × ((spec.resource_type ≡ 0) ⊎ (underlying_is_supported ≡ true))
      × ((spec.platform ≡ 0) ⊎ (spec.platform ≡ w.platform))
      × (tags_match w spec.tags ≡ true))
  unfolding satisfying
  satisfying-tests = ground arith

-- Satisfying returns the worker exactly if it is of the spec's team or of none, has the base of the
-- resource type and the platform where the spec has them, and has the tags of the spec, which has some
-- if the worker does.
pub satisfying-Satisfies :
    (w : Worker) (spec : WorkerSpec) (types : List ResourceType)
    → (satisfying w spec types ≡ none) ↔ Satisfies w spec types
satisfying-Satisfies w spec types =
    let underlying = supports_iff w (determine_underlying_type_name spec.resource_type types) in
    (
      (λ h.
          let tests = (satisfying-tests w spec types).0 h in
          record {
            team = tests.0;
            resource_type = elim tests.1 [ inl e ↦ inl e | inr s ↦ inr (underlying.0 s) ];
            platform = tests.2;
            tags = (tags_match_iff w spec.tags).0 tests.3;
          }),
      (λ s. (satisfying-tests w spec types).1 (
        Satisfies.team s,
        elim (Satisfies.resource_type s) [ inl e ↦ inl e | inr n ↦ inr (underlying.1 n) ],
        Satisfies.platform s,
        (tags_match_iff w spec.tags).1 (Satisfies.tags s),
      )),
    )
