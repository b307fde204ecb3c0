-- ===== src/Collector/Reaped.antt =====
-- gc/buildreaper.go: no log that is to be kept is deleted.
use atc.Prelude.{
  ℕ, zero, suc, ◌≤◌, ◌<◌, ◌≡◌, inl, inr, refl, false, ◌||◌, List, [], ◌∷◌, ◌++◌, ◌==◌, leb, All,
  Any, arith, Bool-cases,
}
use atc.Collector.Reaper.{
  Build, take, reverse, builds, to_consider, to_delete, last_id, delete_before, reap,
}
use atc.Collector.Retained.{All-append, All-reverse, All-take, All-to_consider}

-- Ids that go up, and ids that go down.
abbrev pub IsAscending : List Build → Type 0
IsAscending [] = Unit
IsAscending (b ∷ bs) = All (λ c. b.id < c.id) bs × IsAscending bs

abbrev IsDescending : List Build → Type 0
IsDescending [] = Unit
IsDescending (b ∷ bs) = All (λ c. c.id < b.id) bs × IsDescending bs

IsDescending-append :
    (bs : List Build) (b : Build)
    → IsDescending bs
    → All (λ c. b.id < c.id) bs
    → IsDescending (bs ++ (b ∷ []))
IsDescending-append [] b d h = (tt, tt)
IsDescending-append (c ∷ cs) b d h =
    (All-append (λ e. e.id < c.id) cs (b ∷ []) d.0 (h.0, tt), IsDescending-append cs b d.1 h.1)

IsDescending-reverse : (bs : List Build) → IsAscending bs → IsDescending (reverse bs)
unfolding reverse
IsDescending-reverse [] a = tt
IsDescending-reverse (b ∷ bs) a =
    IsDescending-append (reverse bs) b (IsDescending-reverse bs a.1)
      (All-reverse (λ c. b.id < c.id) bs a.0)

IsDescending-take : (n : ℕ) (bs : List Build) → IsDescending bs → IsDescending (take n bs)
unfolding take
IsDescending-take zero bs d = tt
IsDescending-take (suc n) [] d = tt
IsDescending-take (suc n) (b ∷ bs) d =
    (All-take (λ c. c.id < b.id) n bs d.0, IsDescending-take n bs d.1)

all_of :
    (P : Build → Type 0) (bs : List Build) → ((b : Build) → Any (λ c. c ≡ b) bs → P b) → All P bs
all_of P [] f = tt
all_of P (b ∷ bs) f = (f b (inl refl), all_of P bs (λ c h. f c (inr h)))

weaken : {A : Type 0} (P Q : A → Type 0) (bs : List A) → ((b : A) → P b → Q b) → All P bs → All Q bs
weaken P Q [] f h = tt
weaken P Q (b ∷ bs) f h = (f b h.0, weaken P Q bs f h.1)

last_id-least :
    (n : ℕ) (bs : List Build)
    → All (λ c. c.id < n) bs
    → IsDescending bs
    → (last_id n bs ≤ n) × All (λ c. last_id n bs ≤ c.id) bs
unfolding last_id
last_id-least n [] h d = (omega arith, tt)
last_id-least n (b ∷ bs) h d =
    let rest = last_id-least b.id bs d.0 d.1 in (omega (arith, rest.0, h.0), (rest.0, rest.1))

abbrev IsOld : (Build → Type 0) → ℕ → ℕ → Type 0
IsOld P n id = (b : Build) × P b × (b.id ≡ id) × (b.is_running ≡ false) × (id < n)

to_delete-IsOld :
    (P : Build → Type 0) (n : ℕ) (bs : List Build) → All P bs → All (IsOld P n) (to_delete n bs)
unfolding to_delete
to_delete-IsOld P n [] h = tt
to_delete-IsOld P n (b ∷ bs) h = elim (Bool-cases (leb n b.id || b.is_running)) [
  | inl stop ↦ rw stop tt
  | inr go ↦
      rw go ((b, h.0, refl, ground (arith, go), ground (arith, go)), to_delete-IsOld P n bs h.1)
]

-- The builds whose logs are kept.
abbrev pub retained : ℕ → List Build → List Build
retained n all = builds (record { since = 0; until = 0; limit = n }) all

-- A build of the job that does not run and is older than every build that is retained.
abbrev pub MayBeReaped : ℕ → List Build → ℕ → Type 0
MayBeReaped n all id =
    (b : Build) × (Any (λ c. c ≡ b) all)
    × (b.id ≡ id)
    × (b.is_running ≡ false)
    × (All (λ r. id < r.id) (retained n all))

reaped :
    (keep considered all : List Build)
    → IsDescending keep
    → All (λ b. Any (λ c. c ≡ b) all) considered
    → All
        (λ id.
          (b : Build) × (Any (λ c. c ≡ b) all)
          × (b.id ≡ id)
          × (b.is_running ≡ false)
          × (All (λ r. id < r.id) keep))
        (delete_before keep considered)
unfolding delete_before
reaped [] considered all d h = tt
reaped (b ∷ bs) considered all d h =
    let P : Build → Type 0 = λ c. Any (λ e. e ≡ c) all in
    let least = last_id-least b.id bs d.0 d.1 in
    weaken (IsOld P (last_id b.id bs)) _ (to_delete (last_id b.id bs) (reverse considered))
      (λ id old. (
        old.0,
        old.1,
        old.2,
        old.3,
        weaken (λ c. last_id b.id bs ≤ c.id) (λ r. id < r.id) (b ∷ bs)
            (λ c le. omega (arith, le, old.4)) (least.0, least.1),
      ))
      (to_delete-IsOld P (last_id b.id bs) (reverse considered) (All-reverse P considered h))

-- Every build whose events one Run deletes is a build of the job that does not run and is older than
-- each of the newest builds, as many as BuildLogsToRetain, for any batch size and FirstLoggedBuildID.
pub reap-MayBeReaped :
    (batch n first_logged : ℕ) (all : List Build)
    → IsAscending all
    → All (MayBeReaped n all) (reap batch n first_logged all)
unfolding reap builds
reap-MayBeReaped batch n first_logged all a = elim (Bool-cases (n == 0)) [
  | inl none_kept ↦ rw none_kept tt
  | inr some_kept ↦ rw some_kept (
      reaped (take n (reverse all)) (to_consider batch first_logged all) all
        (IsDescending-take n (reverse all) (IsDescending-reverse all a))
        (All-to_consider (λ b. Any (λ c. c ≡ b) all) batch first_logged all
          (all_of (λ b. Any (λ c. c ≡ b) all) all (λ b h. h))))
]
