-- ===== src/Collector/Reaper.antt =====
-- gc/buildreaper.go: which builds of a job lose their logs; and the pages of db/job.go.
use atc.Prelude.{
  ℕ, zero, suc, ◌+◌, ◌-◌, Bool, not, ◌&&◌, ◌||◌, List, [], ◌∷◌, ◌++◌, ◌==◌, ltb, leb, if◌then◌else◌,
  length,
}

pub record Build : Type 0 where
  pub id : ℕ
  pub is_running : Bool

pub record Page : Type 0 where
  pub since : ℕ
  pub until : ℕ
  pub limit : ℕ

unfoldable pub take : ℕ → List Build → List Build
take zero bs = []
take (suc n) [] = []
take (suc n) (b ∷ bs) = b ∷ take n bs

unfoldable pub reverse : List Build → List Build
reverse [] = []
reverse (b ∷ bs) = reverse bs ++ (b ∷ [])

unfoldable pub above : ℕ → List Build → List Build
above n [] = []
above n (b ∷ bs) = if ltb n b.id then b ∷ above n bs else above n bs

unfoldable pub below : ℕ → List Build → List Build
below n [] = []
below n (b ∷ bs) = if ltb b.id n then b ∷ below n bs else below n bs

-- job.Builds, on the builds of the job in the order of their ids: the newest come first.
unfoldable pub builds : Page → List Build → List Build
builds page all =
    if (page.since == 0) && (page.until == 0)
    then take page.limit (reverse all)
    else if not (page.until == 0)
    then reverse (take page.limit (above page.until all))
    else take page.limit (reverse (below page.since all))

unfoldable pub more_builds : ℕ → ℕ → List Build → List Build
more_builds until limit all =
    if ltb 0 limit then builds (record { since = 0; until = until; limit = limit }) all else []

-- buildsToConsiderDeleting, the newest first.
unfoldable pub to_consider : ℕ → ℕ → List Build → List Build
to_consider batch first_logged all =
    if leb first_logged 1
    then (let first = builds (record { since = 2; until = 0; limit = 1 }) all in
        more_builds 1 (batch - length first) all ++ first)
    else more_builds (first_logged - 1) batch all

-- The loop over them, from the oldest one.
unfoldable pub to_delete : ℕ → List Build → List ℕ
to_delete first_retained [] = []
to_delete first_retained (b ∷ bs) =
    if leb first_retained b.id || b.is_running then [] else b.id ∷ to_delete first_retained bs

unfoldable pub last_id : ℕ → List Build → ℕ
last_id n [] = n
last_id n (b ∷ bs) = last_id b.id bs

unfoldable pub delete_before : List Build → List Build → List ℕ
delete_before [] considered = []
delete_before (b ∷ bs) considered = to_delete (last_id b.id bs) (reverse considered)

-- The builds of a job whose events one Run deletes, where `retain` is BuildLogsToRetain.
unfoldable pub reap : ℕ → ℕ → ℕ → List Build → List ℕ
reap batch retain first_logged all =
    if retain == 0
    then []
    else delete_before (builds (record { since = 0; until = 0; limit = retain }) all)
        (to_consider batch first_logged all)

unfoldable pub last_or : ℕ → List ℕ → ℕ
last_or n [] = n
last_or n (m ∷ ms) = last_or m ms

-- FirstLoggedBuildID after the Run.
unfoldable pub first_logged_after : ℕ → List ℕ → ℕ
first_logged_after first_logged [] = first_logged
first_logged_after first_logged (n ∷ ns) = last_or n ns + 1
