-- ===== src/Workers/Underlying.antt =====
-- worker/worker.go: the type on which a chain of resource types is based.
use atc.Prelude.{
  ℕ, zero, suc, ◌≤◌, ◌<◌, ◌≡◌, ◌≢◌, inl, inr, refl, ◌∙◌, subst, ap, Option, none, some, List, [],
  ◌∷◌, arith, length, Option-cases,
}
use atc.Pipeline.Config.{Name}
use atc.Workers.Spec.{
  ResourceType, lookup_type, delete_type, underlying_loop, determine_underlying_type_name,
}

lookup-delete_other :
    (types : List ResourceType) (n m : Name)
    → n ≢ m
    → lookup_type (delete_type n types) m ≡ lookup_type types m
unfolding lookup_type delete_type
lookup-delete_other [] n m h = refl
lookup-delete_other (t ∷ ts) n m h = ground (arith, h, lookup-delete_other ts n m h)

length-delete : (types : List ResourceType) (n : Name) → length (delete_type n types) ≤ length types
unfolding delete_type
length-delete [] n = omega arith
length-delete (t ∷ ts) n = ground (arith, length-delete ts n)

length-delete_found :
    (types : List ResourceType) (n : Name) (t : ResourceType)
    → lookup_type types n ≡ some t
    → length (delete_type n types) < length types
unfolding lookup_type delete_type
length-delete_found [] n t h = absurd (cc)
length-delete_found (u ∷ ts) n t h = elim (Option-cases (lookup_type ts n)) [
  | inl e ↦ ground (arith, h, e, length-delete ts n)
  | inr (v, e) ↦ ground (arith, h, e, length-delete ts n, length-delete_found ts n v e)
]

loop-none :
    (fuel : ℕ) (types : List ResourceType) (n : Name) → underlying_loop fuel types n none ≡ some n
unfolding underlying_loop
loop-none zero types n = refl
loop-none (suc fuel) types n = refl

loop-total :
    (fuel : ℕ) (types : List ResourceType) (n : Name) (o : Option ResourceType)
    → length types < fuel
    → (m : Name) × (underlying_loop fuel types n o ≡ some m)
unfolding underlying_loop
loop-total fuel types n none h = (n, loop-none fuel types n)
loop-total zero types n (some t) h = absurd (omega (arith, h))
loop-total (suc fuel) types n (some t) h = elim (Option-cases (lookup_type types t.type)) [
  | inl e ↦ (
    t.type,
    ap (underlying_loop fuel (delete_type t.type types) t.type) e
        ∙ loop-none fuel (delete_type t.type types) t.type,
  )
  | inr (u, e) ↦
      loop-total fuel (delete_type t.type types) t.type (lookup_type types t.type)
        (omega (arith, h, length-delete_found types t.type u e))
]

-- A chain of so many types leads from a name to a name without one.
abbrev pub IsBasedOn : List ResourceType → ℕ → Name → Name → Type 0
IsBasedOn types zero n m = (lookup_type types n ≡ none) × (n ≡ m)
IsBasedOn types (suc k) n m =
    (t : ResourceType) × (lookup_type types n ≡ some t) × IsBasedOn types k t.type m

move :
    (types : List ResourceType) (k : ℕ) (t u : ResourceType) (m : Name)
    → t ≡ u
    → IsBasedOn types k t.type m
    → IsBasedOn types k u.type m
move types k t u m e h = subst (λ z. IsBasedOn types k (ResourceType.type z) m) e h

module _ (types : List ResourceType) where
  IsBasedOn-unique :
      (k l : ℕ) (n m m' : Name) → IsBasedOn types k n m → IsBasedOn types l n m' → k ≡ l
  IsBasedOn-unique zero zero n m m' h h' = refl
  IsBasedOn-unique zero (suc l) n m m' h h' = absurd (ground (arith, h.0, h'.1))
  IsBasedOn-unique (suc k) zero n m m' h h' = absurd (ground (arith, h.1, h'.0))
  IsBasedOn-unique (suc k) (suc l) n m m' h h' = ap suc (
      IsBasedOn-unique k l h.0.type m m' h.2
        (move types l h'.0 h.0 m' (ground (arith, h.1, h'.1)) h'.2))

  -- The map still has every type from which fewer types lead on than from this name.
  loop-IsBasedOn :
      (fuel k : ℕ) (map : List ResourceType) (n m c : Name) (o : Option ResourceType)
      → IsBasedOn types k n m
      → o ≡ lookup_type types n
      → ((l : ℕ) (x y : Name)
          → l < k
          → IsBasedOn types l x y
          → lookup_type map x ≡ lookup_type types x)
      → underlying_loop fuel map n o ≡ some c
      → c ≡ m
  unfolding underlying_loop
  loop-IsBasedOn fuel zero map n m c none h e agree r = ground (arith, r, loop-none fuel map n, h.1)
  loop-IsBasedOn fuel zero map n m c (some t) h e agree r = absurd (ground (arith, e, h.0))
  loop-IsBasedOn fuel (suc k) map n m c none h e agree r = absurd (ground (arith, e, h.1))
  loop-IsBasedOn zero (suc k) map n m c (some t) h e agree r = absurd (ground (arith, r))
  loop-IsBasedOn (suc fuel) (suc k) map n m c (some t) h e agree r =
      let based = move types k h.0 t m (ground (arith, e, h.1)) h.2 in
      loop-IsBasedOn fuel k (delete_type t.type map) t.type m c (lookup_type map t.type) based
        (agree k t.type m (omega arith) based)
        (λ l x y lt b.
          lookup-delete_other map t.type x (λ same. absurd (
            omega (
              arith,
              lt,
              IsBasedOn-unique l k x y m b (subst (λ z. IsBasedOn types k z m) same based),
            )))
          ∙ agree l x y (omega (arith, lt)) b)
        r

  -- The name that determineUnderlyingTypeName returns: it returns one for all resource types, also for
  -- those that are based on each other in a circle; and it is the one that the types lead to from the
  -- given name, where they lead to one that none of them has.
  pub determine_underlying_type_name-IsBasedOn :
      (n : Name)
      → (c : Name) × (determine_underlying_type_name n types ≡ some c)
        × ((k : ℕ) (m : Name) → IsBasedOn types k n m → c ≡ m)
  unfolding determine_underlying_type_name
  determine_underlying_type_name-IsBasedOn n =
      let total = loop-total (suc (length types)) types n (lookup_type types n) (omega arith) in
      (
        total.0,
        total.1,
        λ k m h.
            loop-IsBasedOn (suc (length types)) k types n m total.0 (lookup_type types n) h refl
              (λ l x y lt b. refl) total.1,
      )
