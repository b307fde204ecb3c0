-- ===== src/Task/Apart.antt =====
-- Paths of which none is the other or lies below it, and pathContains.
use Prim.Native.String.{String}
use text.Mathlib.TextEquality.{eq_iff}
use atc.Prelude.{
  ◌≡◌, ◌≢◌, refl, ap, sym, subst, ◌∙◌, ◌↔◌, Bool, true, false, List, [], ◌∷◌, ◌++◌, length, arith,
  append-nil, length-append,
}
use atc.Task.Paths.{split, parts_agree, path_contains}

-- The path is the other one or lies below it, part by part.
abbrev pub IsWithin : String → String → Type 0
IsWithin child parent = (rest : List String) × (split child ≡ split parent ++ rest)

abbrev pub AreApart : String → String → Type 0
AreApart p q = (IsWithin p q → ⊥) × (IsWithin q p → ⊥)

parts_agree_to :
    (child parent : List String)
    → parts_agree child parent ≡ true
    → (rest : List String) × (child ≡ parent ++ rest)
unfolding parts_agree
parts_agree_to child [] h = (child, refl)
parts_agree_to [] (p ∷ parent) h = absurd (ground arith)
parts_agree_to (c ∷ child) (p ∷ parent) h =
    let (rest, e) = parts_agree_to child parent (ground arith) in
    (rest, ground (arith, eq_iff c p, e))

parts_agree-append : (parent rest : List String) → parts_agree (parent ++ rest) parent ≡ true
unfolding parts_agree
parts_agree-append [] rest = refl
parts_agree-append (p ∷ parent) rest = ground (arith, eq_iff p p, parts_agree-append parent rest)

path_contains_to : (p q : String) → path_contains p q ≡ true → IsWithin p q
unfolding path_contains
path_contains_to p q h = parts_agree_to (split p) (split q) (ground arith)

IsWithin-path_contains : (p q : String) → p ≢ q → IsWithin p q → path_contains p q ≡ true
unfolding path_contains
IsWithin-path_contains p q d (rest, e) = ground (
  arith,
  eq_iff p q,
  d,
  ap length e,
  length-append (split q) rest,
  subst (λ ps. parts_agree ps (split q) ≡ true) (sym e) (parts_agree-append (split q) rest),
)

not_true : {b : Bool} → b ≢ true → b ≡ false
not_true {b} h = ground arith

pub AreApart-iff :
    (p q : String)
    → AreApart p q ↔ ((p ≢ q) × (path_contains p q ≡ false) × (path_contains q p ≡ false))
AreApart-iff p q = (
  (λ h. (
    (λ e. h.0 ([], ap split e ∙ sym (append-nil (split q)))),
    not_true (λ t. h.0 (path_contains_to p q t)),
    not_true (λ t. h.1 (path_contains_to q p t)),
  )),
  (λ h. (
    λ w. ground (arith, IsWithin-path_contains p q h.0 w, h.1),
    λ w. ground (arith, IsWithin-path_contains q p (λ e. h.0 (sym e)) w, h.2),
  )),
)

pub path_contains_self : (p : String) → path_contains p p ≡ false
unfolding path_contains
path_contains_self p = ground (arith, eq_iff p p)
