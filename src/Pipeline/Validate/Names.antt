-- ===== src/Pipeline/Validate/Names.antt =====
-- The loops that look for a name met before report nothing exactly if the names are distinct.
use atc.Prelude.{
  ℕ, suc, ◌≡◌, ◌≢◌, refl, sym, subst, ◌↔◌, false, none, List, [], ◌∷◌, map, ◌==◌, All, arith, ◌≤◌,
}
use mathlib.Core.List.{append-eq-nil_iff}
use atc.Pipeline.Config.{Name}
use atc.Pipeline.Messages.{Identifier, Part, Verdict, ◌⊕◌}
use atc.Pipeline.Valid.Reports.{append-nil_iff, keep_iff, refl_iff}
use atc.Pipeline.Validate.{position_of, same_name_errors, register, scan, count, same_gets}
use atc.Pipeline.Validate.Contract.{Distinct}

-- The names of these are not met yet.
abbrev pub Fresh : {A : Type 0} → List (Name × ℕ) → (A → Name) → List A → Type 0
Fresh names name xs = All (λ x. position_of names (name x) ≡ none) xs

same_name_iff :
    (at : ℕ → Part) (names : List (Name × ℕ)) (i : ℕ) (n : Name)
    → (same_name_errors at names i n ≡ []) ↔ (position_of names n ≡ none)
unfolding same_name_errors
same_name_iff at names i n = ground arith

position_cons_iff :
    (names : List (Name × ℕ)) (i : ℕ) (n m : Name)
    → (position_of ((n, i) ∷ names) m ≡ none) ↔ ((n ≢ m) × (position_of names m ≡ none))
unfolding position_of
position_cons_iff names i n m = ground arith

register_new :
    (names : List (Name × ℕ)) (i : ℕ) (n : Name)
    → n ≢ 0
    → position_of names n ≡ none
    → register names i n ≡ (n, i) ∷ names
unfolding register
register_new names i n h e = ground arith

Fresh-cons_iff :
    {A : Type 0} (names : List (Name × ℕ)) (i : ℕ) (n : Name) (name : A → Name) (xs : List A)
    → Fresh ((n, i) ∷ names) name xs ↔ (All (λ m. n ≢ m) (map name xs) × Fresh names name xs)
Fresh-cons_iff names i n name [] = ((λ e. (tt, tt)), (λ v. tt))
Fresh-cons_iff names i n name (x ∷ xs) =
    let one = position_cons_iff names i n (name x) in
    let rest = Fresh-cons_iff names i n name xs in
    (
      λ v. (((one.0 v.0).0, (rest.0 v.1).0), ((one.0 v.0).1, (rest.0 v.1).1)),
      λ v. (one.1 (v.0.0, v.1.0), rest.1 (v.0.1, v.1.1)),
    )

all-Fresh : {A : Type 0} (name : A → Name) (xs : List A) → Fresh [] name xs
unfolding position_of
all-Fresh name [] = tt
all-Fresh name (x ∷ xs) = (refl, all-Fresh name xs)

module _ {A : Type 0} (at : ℕ → Part) (name : A → Name) (check : ℕ → A → Verdict) (P : A → Type 0)
    (check_iff : (i : ℕ) (x : A) → (Verdict.errors (check i x) ≡ []) ↔ P x)
    (named : (x : A) → P x → name x ≢ 0) where
  scan_iff :
      (names : List (Name × ℕ)) (i : ℕ) (xs : List A)
      → (Verdict.errors (scan at name check names i xs) ≡ [])
        ↔ (Fresh names name xs × Distinct (map name xs) × All P xs)
  unfolding scan ◌⊕◌ Distinct
  scan_iff names i [] = ((λ e. (tt, tt, tt)), (λ v. refl))
  scan_iff names i (x ∷ xs) =
      let body =
        append-nil_iff (same_name_iff at names i (name x))
          (append-nil_iff (check_iff i x) refl_iff) in
      let rest = scan_iff ((name x, i) ∷ names) (suc i) xs in
      let fresh = Fresh-cons_iff names i (name x) name xs in
      (
        λ e.
            let u = body.0 e in
            let r = rest.0 (
              subst (λ ns. Verdict.errors (scan at name check ns (suc i) xs) ≡ [])
                (register_new names i (name x) (named x u.1.0) u.0) u.1.1) in
            ((u.0, (fresh.0 r.0).1), ((fresh.0 r.0).0, r.1), (u.1.0, r.2)),
        λ v. body.1 (
          v.0.0,
          (
            v.2.0,
            subst (λ ns. Verdict.errors (scan at name check ns (suc i) xs) ≡ [])
                (sym (register_new names i (name x) (named x v.2.0) v.0.0))
                (rest.1 (fresh.1 (v.1.0, v.0.1), v.1.1, v.2.1)),
          ),
        ),
      )

  -- From the first member on.
  pub scan_accepts :
      (xs : List A)
      → (Verdict.errors (scan at name check [] 0 xs) ≡ []) ↔ (Distinct (map name xs) × All P xs)
  scan_accepts xs = (
    λ e. (((scan_iff [] 0 xs).0 e).1, ((scan_iff [] 0 xs).0 e).2),
    λ v. (scan_iff [] 0 xs).1 (all-Fresh name xs, v.0, v.1),
  )

-- encountered[n] is at most 1 for every name, and 0 for those still to come.
counted_iff :
    (seen : List Name) (n : Name)
    → count seen n ≤ 1
    → ((count (n ∷ seen) n == 2) ≡ false) ↔ (count seen n ≡ 0)
unfolding count
counted_iff seen n h = ground (arith, h)

All-uncounted_iff :
    (seen : List Name) (n : Name) (xs : List (Name × Name))
    → count seen n ≡ 0
    → All (λ x. count (n ∷ seen) x.0 ≡ 0) xs
      ↔ (All (λ m. n ≢ m) (map (λ x. x.0) xs) × All (λ x. count seen x.0 ≡ 0) xs)
unfolding count
All-uncounted_iff seen n [] h = ((λ e. (tt, tt)), (λ v. tt))
All-uncounted_iff seen n (x ∷ xs) h = ground (arith, All-uncounted_iff seen n xs h)

once :
    (seen : List Name) (n : Name)
    → ((m : Name) → count seen m ≤ 1)
    → count seen n ≡ 0
    → (m : Name) → count (n ∷ seen) m ≤ 1
unfolding count
once seen n h z m = ground (arith, h m, z)

same_gets_iff :
    (ident : Identifier) (seen : List Name) (xs : List (Name × Name))
    → ((m : Name) → count seen m ≤ 1)
    → (same_gets ident seen xs ≡ [])
      ↔ (Distinct (map (λ x. x.0) xs) × All (λ x. count seen x.0 ≡ 0) xs)
unfolding same_gets Distinct
same_gets_iff ident seen [] h = ((λ e. (tt, tt)), (λ v. refl))
same_gets_iff ident seen (x ∷ xs) h =
    let new = counted_iff seen x.0 (h x.0) in
    (
      λ e.
          let z = new.0 ((keep_iff _ _).0 (append-eq-nil_iff.0 e).0) in
          let r =
            (same_gets_iff ident (x.0 ∷ seen) xs (once seen x.0 h z)).0 (append-eq-nil_iff.0 e).1 in
          let a = (All-uncounted_iff seen x.0 xs z).0 r.1 in ((a.0, r.0), (z, a.1)),
      λ v. append-eq-nil_iff.1 (
        (keep_iff _ _).1 (new.1 v.1.0),
        (same_gets_iff ident (x.0 ∷ seen) xs (once seen x.0 h v.1.0)).1
            (v.0.1, (All-uncounted_iff seen x.0 xs v.1.0).1 (v.0.0, v.1.1)),
      ),
    )

All-uncounted : (xs : List (Name × Name)) → All (λ x. count [] x.0 ≡ 0) xs
unfolding count
All-uncounted [] = tt
All-uncounted (x ∷ xs) = (refl, All-uncounted xs)

pub same_gets_accepts :
    (ident : Identifier) (xs : List (Name × Name))
    → (same_gets ident [] xs ≡ []) ↔ Distinct (map (λ x. x.0) xs)
unfolding count
same_gets_accepts ident xs = (
  λ e. ((same_gets_iff ident [] xs (λ m. omega arith)).0 e).0,
  λ v. (same_gets_iff ident [] xs (λ m. omega arith)).1 (v, All-uncounted xs),
)
