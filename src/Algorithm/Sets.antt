-- ===== src/Algorithm/Sets.antt =====
-- JobSet and BuildSet (db/algorithm/job_set.go, build_set.go), and the maps from jobs to build sets.
-- A set is a list without its order being used: Go ranges over a map in any order.
use atc.Prelude.{
  ℕ, ◌≡◌, refl, ap, ◌∙◌, inl, inr, Bool-cases, Bool, true, false, ◌&&◌, ◌||◌, Option, none, some,
  List, [], ◌∷◌, length, ltb, ◌==◌, if◌then◌else◌, arith,
}

-- `_, found := set[x]`: JobSet.Contains and BuildSet.Contains.
unfoldable pub contains : ℕ → List ℕ → Bool
contains x [] = false
contains x (y ∷ ys) = x == y || contains x ys

-- set[x] = struct{}{}
unfoldable pub insert : ℕ → List ℕ → List ℕ
insert x ys = if contains x ys then ys else x ∷ ys

-- JobSet.Union and BuildSet.Union: every element of each is put in a new set.
unfoldable pub insert_all : List ℕ → List ℕ → List ℕ
insert_all [] ys = ys
insert_all (x ∷ xs) ys = insert_all xs (insert x ys)

unfoldable pub union : List ℕ → List ℕ → List ℕ
unfolding insert_all
union xs ys = insert_all ys (insert_all xs [])

-- JobSet.Intersect and BuildSet.Intersect
unfoldable pub intersect : List ℕ → List ℕ → List ℕ
intersect [] ys = []
intersect (x ∷ xs) ys = let rest = intersect xs ys in if contains x ys then insert x rest else rest

-- The loop of BuildSet.Overlaps, and of BuildSet.Equal.
unfoldable pub any_in : List ℕ → List ℕ → Bool
any_in [] ys = false
any_in (x ∷ xs) ys = contains x ys || any_in xs ys

unfoldable pub all_in : List ℕ → List ℕ → Bool
all_in [] ys = true
all_in (x ∷ xs) ys = contains x ys && all_in xs ys

-- BuildSet.Overlaps: the smaller set is walked.
unfoldable pub overlaps : List ℕ → List ℕ → Bool
unfolding any_in
overlaps xs ys = if ltb (length ys) (length xs) then any_in ys xs else any_in xs ys

-- JobSet.Equal and BuildSet.Equal
unfoldable pub equal : List ℕ → List ℕ → Bool
unfolding all_in
equal xs ys = if length xs == length ys then all_in xs ys else false

-- map[int]BuildSet: its keys, and the set at each key.
pub record BuildMap : Type 0 where
  pub keys : List ℕ
  pub at : ℕ → List ℕ

abbrev pub empty : BuildMap
empty = record { keys = []; at = λ j. [] }

unfoldable pub is_key : ℕ → BuildMap → Bool
is_key j m = contains j m.keys

-- builds, found := m[j]
unfoldable pub find : ℕ → BuildMap → Option (List ℕ)
unfolding is_key
find j m = if is_key j m then some (m.at j) else none

-- m[j], or an empty BuildSet where it is not found
unfoldable pub builds : ℕ → BuildMap → List ℕ
unfolding is_key
builds j m = if is_key j m then m.at j else []

-- m[j] = s
unfoldable pub put : ℕ → List ℕ → BuildMap → BuildMap
put j s m = record { keys = insert j m.keys; at = λ k. if k == j then s else m.at k }

-- m[j][b] = struct{}{}, with m[j] made first if there is none
unfoldable pub add_build : ℕ → ℕ → BuildMap → BuildMap
add_build j b m = put j (insert b (builds j m)) m

-- The loops over a `passed` map in Versions.Merge and VersionCandidates.Merge.
unfoldable pub absorb_keys : List ℕ → (ℕ → List ℕ) → BuildMap → BuildMap
absorb_keys [] at m = m
absorb_keys (j ∷ js) at m = absorb_keys js at (put j (insert_all (at j) (builds j m)) m)

unfoldable pub absorb : BuildMap → BuildMap → BuildMap
unfolding absorb_keys
absorb m n = absorb_keys n.keys n.at m

-- Build b is in the set at job j.
unfoldable pub has : ℕ → ℕ → BuildMap → Bool
has j b m = contains b (builds j m)

contains-eq : (x y : ℕ) (ys : List ℕ) → x ≡ y → contains x ys ≡ contains y ys
contains-eq x y ys e = ap (λ z. contains z ys) e

pub contains-insert : (x y : ℕ) (ys : List ℕ) → contains x (insert y ys) ≡ (x == y || contains x ys)
unfolding contains insert
contains-insert x y ys = ground (arith, contains-eq x y ys)

pub contains-insert_all :
    (x : ℕ) (xs ys : List ℕ) → contains x (insert_all xs ys) ≡ (contains x xs || contains x ys)
unfolding contains insert_all
contains-insert_all x [] ys = refl
contains-insert_all x (y ∷ xs) ys =
    ground (arith, contains-insert_all x xs (insert y ys), contains-insert x y ys)

-- A union holds what one of the sets holds.
pub contains-union :
    (x : ℕ) (xs ys : List ℕ) → contains x (union xs ys) ≡ (contains x xs || contains x ys)
unfolding union contains
contains-union x xs ys =
    ground (arith, contains-insert_all x ys (insert_all xs []), contains-insert_all x xs [])

-- An intersection holds what both sets hold.
pub contains-intersect :
    (x : ℕ) (xs ys : List ℕ) → contains x (intersect xs ys) ≡ (contains x xs && contains x ys)
unfolding intersect contains
contains-intersect x [] ys = refl
contains-intersect x (y ∷ xs) ys =
    ground
      (arith, contains-intersect x xs ys, contains-insert x y (intersect xs ys), contains-eq x y ys)

pub is_key-put :
    (j k : ℕ) (s : List ℕ) (m : BuildMap) → is_key j (put k s m) ≡ (j == k || is_key j m)
unfolding is_key put
is_key-put j k s m = contains-insert j k m.keys

pub builds-put :
    (j k : ℕ) (s : List ℕ) (m : BuildMap)
    → builds j (put k s m) ≡ (if j == k then s else builds j m)
unfolding builds put
builds-put j k s m = ground (arith, contains-insert j k m.keys)

pub has-add_build :
    (j b k c : ℕ) (m : BuildMap) → has j b (add_build k c m) ≡ ((j == k && b == c) || has j b m)
unfolding has add_build
has-add_build j b k c m =
    ground (arith, builds-put j k (insert c (builds k m)) m, contains-insert b c (builds k m))

has-absorb_keys :
    (j b : ℕ) (js : List ℕ) (at : ℕ → List ℕ) (m : BuildMap)
    → has j b (absorb_keys js at m) ≡ (has j b m || (contains j js && contains b (at j)))
unfolding absorb_keys contains has
has-absorb_keys j b [] at m = ground arith
has-absorb_keys j b (k ∷ js) at m = ground (
  arith,
  has-absorb_keys j b js at (put k (insert_all (at k) (builds k m)) m),
  builds-put j k (insert_all (at k) (builds k m)) m,
  contains-insert_all b (at k) (builds k m),
  ap at {x = j} {y = k},
)

-- A job that a build is at is a key.
pub is_key-has : (j b : ℕ) (m : BuildMap) → has j b m ≡ true → is_key j m ≡ true
unfolding has builds contains
is_key-has j b m h = ground (arith, h)

-- After a merge of two maps, a build is at a job if it was in either map.
pub has-absorb : (j b : ℕ) (m n : BuildMap) → has j b (absorb m n) ≡ (has j b m || has j b n)
unfolding absorb
has-absorb j b m n = has-absorb_keys j b n.keys n.at m ∙ has_parts
  where
    has_parts : (has j b m || (contains j n.keys && contains b (n.at j))) ≡ (has j b m || has j b n)
    has_parts = unfold has builds contains in ground arith

is_key-absorb_keys :
    (j : ℕ) (js : List ℕ) (at : ℕ → List ℕ) (m : BuildMap)
    → is_key j (absorb_keys js at m) ≡ (is_key j m || contains j js)
unfolding absorb_keys contains
is_key-absorb_keys j [] at m = ground arith
is_key-absorb_keys j (k ∷ js) at m = ground (
  arith,
  is_key-absorb_keys j js at (put k (insert_all (at k) (builds k m)) m),
  is_key-put j k (insert_all (at k) (builds k m)) m,
)

pub is_key-absorb : (j : ℕ) (m n : BuildMap) → is_key j (absorb m n) ≡ (is_key j m || is_key j n)
unfolding absorb is_key
is_key-absorb j m n = is_key-absorb_keys j n.keys n.at m

-- Two sets overlap only in an element of both.
any_in_witness :
    (xs ys : List ℕ)
    → any_in xs ys ≡ true
    → (x : ℕ) × (contains x xs ≡ true) × (contains x ys ≡ true)
unfolding any_in contains
any_in_witness [] ys h = cc
any_in_witness (x ∷ xs) ys h = elim (Bool-cases (contains x ys)) [
  | inl e ↦ (x, ground arith, e)
  | inr e ↦ let (y, p, q) = any_in_witness xs ys (ground arith) in (y, ground arith, q)
]

pub overlaps_witness :
    (xs ys : List ℕ)
    → overlaps xs ys ≡ true
    → (x : ℕ) × (contains x xs ≡ true) × (contains x ys ≡ true)
unfolding overlaps
overlaps_witness xs ys h = elim (Bool-cases (ltb (length ys) (length xs))) [
  | inl e ↦ let (x, p, q) = any_in_witness ys xs (ground arith) in (x, q, p)
  | inr e ↦ any_in_witness xs ys (ground arith)
]

any_in_complete :
    (x : ℕ) (xs ys : List ℕ) → contains x xs ≡ true → contains x ys ≡ true → any_in xs ys ≡ true
unfolding any_in contains
any_in_complete x [] ys p q = cc
any_in_complete x (z ∷ xs) ys p q = ground (arith, any_in_complete x xs ys, contains-eq x z ys)

pub overlaps_complete :
    (x : ℕ) (xs ys : List ℕ) → contains x xs ≡ true → contains x ys ≡ true → overlaps xs ys ≡ true
unfolding overlaps
overlaps_complete x xs ys p q = ground (arith, any_in_complete x xs ys, any_in_complete x ys xs)

pub is_key-add_build :
    (j k b : ℕ) (m : BuildMap) → is_key j (add_build k b m) ≡ (j == k || is_key j m)
unfolding add_build
is_key-add_build j k b m = is_key-put j k (insert b (builds k m)) m
