-- ===== src/Algorithm/Inputs/Soundness.antt =====
-- The answer that the search finds is a solution, at every depth.
use atc.Prelude.{
  ℕ, zero, suc, ◌≡◌, refl, ap, ◌∙◌, ◌⊎◌, inl, inr, Option, none, some, List, [], ◌∷◌, ◌++◌, ◌==◌,
  arith, Bool-cases, Option-cases, All, Any, Zip, subst, sym, some-injective, append_assoc,
  append-nil,
}
use atc.Algorithm.Search.{search}
use atc.Algorithm.Versions.{Version, merge, put_version, place}
use atc.Algorithm.Candidates.{
  VersionCandidates, no_candidates, check, len, find_id, for_version, merge_version,
}
use atc.Algorithm.Candidates.Consistent.{for_version-IsConsistent}
use atc.Algorithm.Inputs.{
  InputCandidates, prune_to_common_builds, common_build_ids, pin, ResolvedInputs, Answer,
  out_of_fuel, not_found, found, answer_of, resolve_from, try_versions, reduce_from, reduce,
  is_next,
}
use atc.Algorithm.Inputs.Pruning.{IsPruned, prune_to_common_builds-IsPruned}
use atc.Algorithm.Inputs.Solution.{
  Chooses, names, assign, IsSolution, IsReady, HasOne, resolve_from-IsSolution,
}

Answer-cases :
    (a : Answer) → (a ≡ out_of_fuel) ⊎ (a ≡ not_found) ⊎ ((m : ResolvedInputs) × (a ≡ found m))
Answer-cases out_of_fuel = inl refl
Answer-cases not_found = inr (inl refl)
Answer-cases (found m) = inr (inr (m, refl))

-- An input with fewer versions and the same name has fewer solutions.
abbrev Narrows : InputCandidates → InputCandidates → Type 0
Narrows c d =
    (c.input ≡ d.input)
    × ((v : Version)
        → Any (λ u. u ≡ v) d.candidates.versions
        → Any (λ u. u ≡ v) c.candidates.versions)

Narrows-refl : (c : InputCandidates) → Narrows c c
Narrows-refl c = (refl, λ v h. h)

Chooses-Narrows :
    (cs ds : List InputCandidates) (vs : List Version)
    → Zip Narrows cs ds
    → Chooses ds vs
    → Chooses cs vs
Chooses-Narrows [] [] vs n h = h
Chooses-Narrows [] (d ∷ ds) vs n h = elim n [ ]
Chooses-Narrows (c ∷ cs) [] vs n h = elim n [ ]
Chooses-Narrows (c ∷ cs) (d ∷ ds) [] n h = h
Chooses-Narrows (c ∷ cs) (d ∷ ds) (v ∷ vs) n h = (n.0.1 v h.0, Chooses-Narrows cs ds vs n.1 h.1)

names-Narrows : (cs ds : List InputCandidates) → Zip Narrows cs ds → names cs ≡ names ds
names-Narrows [] [] n = refl
names-Narrows [] (d ∷ ds) n = elim n [ ]
names-Narrows (c ∷ cs) [] n = elim n [ ]
names-Narrows (c ∷ cs) (d ∷ ds) n = rw (n.0.0, names-Narrows cs ds n.1)

IsSolution-Narrows :
    (jobs : List ℕ) (cs ds : List InputCandidates) (m : ResolvedInputs)
    → Zip Narrows cs ds
    → IsSolution jobs ds m
    → IsSolution jobs cs m
IsSolution-Narrows jobs cs ds m n s = record {
  choice = s.choice;
  chosen = Chooses-Narrows cs ds s.choice n s.chosen;
  assigned = s.assigned ∙ ap (λ ns. assign [] ns s.choice) (sym (names-Narrows cs ds n));
  together = s.together;
}

Zip-Narrows_refl : (cs : List InputCandidates) → Zip Narrows cs cs
Zip-Narrows_refl [] = tt
Zip-Narrows_refl (c ∷ cs) = (Narrows-refl c, Zip-Narrows_refl cs)

Zip-Narrows_at :
    (before : List InputCandidates) (c d : InputCandidates) (after : List InputCandidates)
    → Narrows c d
    → Zip Narrows (before ++ c ∷ after) (before ++ d ∷ after)
Zip-Narrows_at [] c d after n = (n, Zip-Narrows_refl after)
Zip-Narrows_at (b ∷ before) c d after n = (Narrows-refl b, Zip-Narrows_at before c d after n)

find_id-Any :
    (id : ℕ) (vs : List Version) (v : Version) → find_id id vs ≡ some v → Any (λ u. u ≡ v) vs
unfolding find_id
find_id-Any id [] v e = cc
find_id-Any id (u ∷ vs) v e = elim (Bool-cases (u.id == id)) [
  | inl k ↦ inl (some-injective _ _ (rw k at e))
  | inr k ↦ inr (find_id-Any id vs v (rw k at e))
]

versions-merge_version : (v : Version) → (merge_version no_candidates v).versions ≡ v ∷ []
unfolding merge_version merge put_version place search
versions-merge_version v = refl

versions-for_version :
    (id : ℕ) (vc : VersionCandidates)
    → ((for_version id vc).versions ≡ [])
      ⊎ ((w : Version) × (find_id id vc.versions ≡ some w)
          × ((for_version id vc).versions ≡ w ∷ []))
unfolding for_version
versions-for_version id vc = elim (Option-cases (find_id id vc.versions)) [
  | inl e ↦ inl (rw (e, for_version))
  | inr (w, e) ↦ inr (w, e, rw (e, for_version) (versions-merge_version w))
]

-- Pinning keeps only a version that is there.
pin-Narrows : (id : ℕ) (c : InputCandidates) → Narrows c (pin id c)
unfolding pin
pin-Narrows id c = (
  refl,
  λ v h. elim (versions-for_version id c.candidates) [
    | inl gone ↦ absurd (subst (Any (λ u. u ≡ v)) gone h)
    | inr (w, e, only) ↦ elim (subst (Any (λ u. u ≡ v)) only h) [
      | inl same ↦
          subst (λ u. Any (λ t. t ≡ u) c.candidates.versions) same
            (find_id-Any id c.candidates.versions w e)
      | inr no_more ↦ absurd no_more
    ]
  ],
)

IsReady-pin : (id : ℕ) (c : InputCandidates) → IsReady c → IsReady (pin id c)
unfolding pin
IsReady-pin id c r = record {
  unpinned = r.unpinned;
  consistent = for_version-IsConsistent id c.candidates;
}

All-replace :
    (before : List InputCandidates) (c d : InputCandidates) (after : List InputCandidates)
    → (IsReady c → IsReady d)
    → All IsReady (before ++ c ∷ after)
    → All IsReady (before ++ d ∷ after)
All-replace [] c d after f h = (f h.0, h.1)
All-replace (b ∷ before) c d after f h = (h.0, All-replace before c d after f h.1)

unpinned_at :
    (before : List InputCandidates) (c : InputCandidates) (after : List InputCandidates)
    → All IsReady (before ++ c ∷ after)
    → c.pinned_version_id ≡ 0
unpinned_at [] c after h = h.0.unpinned
unpinned_at (b ∷ before) c after h = unpinned_at before c after h.1

All-HasOne_append :
    (before : List InputCandidates) (c : InputCandidates)
    → All HasOne before
    → HasOne c
    → All HasOne (before ++ c ∷ [])
All-HasOne_append [] c h p = (p, tt)
All-HasOne_append (b ∷ before) c h p = (h.0, All-HasOne_append before c h.1 p)

answer_of-found :
    (o : Option ResolvedInputs) (m : ResolvedInputs) → answer_of o ≡ found m → o ≡ some m
answer_of-found none m e = cc
answer_of-found (some n) m e = cc

module _ (jobs : List ℕ) (search_pinned : List InputCandidates → Answer)
    (sound : (cs : List InputCandidates) (m : ResolvedInputs)
      → All IsReady cs
      → search_pinned cs ≡ found m
      → IsSolution jobs cs m) where
  try_versions-IsSolution :
      (before : List InputCandidates) (c : InputCandidates) (after : List InputCandidates)
      (left : List Version) (m : ResolvedInputs)
      → All IsReady (before ++ c ∷ after)
      → try_versions search_pinned before c after left ≡ found m
      → IsSolution jobs (before ++ c ∷ after) m
  unfolding try_versions
  try_versions-IsSolution before c after [] m r e = absurd (ground (arith, e))
  try_versions-IsSolution before c after (v ∷ left) m r e =
      let pinned = before ++ pin v.id c ∷ after in
      let later = try_versions-IsSolution before c after left m r in
      elim (Bool-cases (check c.candidates.constraints v)) [
        | inr k ↦ later (ground arith)
        | inl k ↦ elim (Answer-cases (search_pinned pinned)) [
          | inl a ↦ absurd (ground arith)
          | inr (inl a) ↦ later (ground arith)
          | inr (inr (n, a)) ↦ elim (Bool-cases (is_next c v.id left)) [
            | inr next ↦ later (ground arith)
            | inl next ↦
                IsSolution-Narrows jobs (before ++ c ∷ after) pinned m
                  (Zip-Narrows_at before c (pin v.id c) after (pin-Narrows v.id c))
                  (sound pinned m (All-replace before c (pin v.id c) after (IsReady-pin v.id c) r)
                    (ground arith))
          ]
        ]
      ]

  -- What `reduce_from` finds is resolved by the last loop, or is found below an input that it pins.
  reduce_from-cases :
      (before after : List InputCandidates) (m : ResolvedInputs)
      → All IsReady (before ++ after)
      → All HasOne before
      → reduce_from search_pinned before after ≡ found m
      → (All HasOne (before ++ after) × (resolve_from [] (before ++ after) ≡ some m))
        ⊎ IsSolution jobs (before ++ after) m
  unfolding reduce_from
  reduce_from-cases before [] m r one e =
      rw append-nil (inl (one, answer_of-found (resolve_from [] before) m e))
  reduce_from-cases before (c ∷ after) m r one e = elim (Bool-cases (len c.candidates == 1)) [
    | inl single ↦ rw (← append_assoc before (c ∷ []) after) (
        reduce_from-cases (before ++ c ∷ []) after m (rw (append_assoc before (c ∷ []) after) r)
          (All-HasOne_append before c one single) (ground arith))
    | inr many ↦ inr (
        try_versions-IsSolution before c after c.candidates.versions m r
          (ground (arith, unpinned_at before c after r)))
  ]

IsPruned-IsReady :
    (jobs : List ℕ) (common : ℕ → List ℕ) (cs ds : List InputCandidates)
    → Zip (IsPruned jobs common) cs ds
    → All IsReady cs
    → All IsReady ds
IsPruned-IsReady jobs common [] [] z r = tt
IsPruned-IsReady jobs common [] (d ∷ ds) z r = elim z [ ]
IsPruned-IsReady jobs common (c ∷ cs) [] z r = elim z [ ]
IsPruned-IsReady jobs common (c ∷ cs) (d ∷ ds) z r = (
  record {
    unpinned = z.0.pinned ∙ r.0.unpinned;
    consistent = record {
      agree = λ j b. ground (arith, z.0.versions, z.0.build_ids, r.0.consistent.agree j b);
    };
  },
  IsPruned-IsReady jobs common cs ds z.1 r.1,
)

IsPruned-Narrows :
    (jobs : List ℕ) (common : ℕ → List ℕ) (cs ds : List InputCandidates)
    → Zip (IsPruned jobs common) cs ds
    → Zip Narrows cs ds
IsPruned-Narrows jobs common [] [] z = tt
IsPruned-Narrows jobs common [] (d ∷ ds) z = elim z [ ]
IsPruned-Narrows jobs common (c ∷ cs) [] z = elim z [ ]
IsPruned-Narrows jobs common (c ∷ cs) (d ∷ ds) z = (
  (sym z.0.input, λ v. subst (Any (λ u. u ≡ v)) z.0.versions),
  IsPruned-Narrows jobs common cs ds z.1,
)

-- Where no input is pinned by its configuration and the build ids of each input are those of its
-- versions, what the search finds is a solution: it gives each input one of its own versions, and
-- for every job there is one build that all the chosen versions which passed the job have passed.
pub reduce-IsSolution :
    (fuel : ℕ) (jobs : List ℕ) (cs : List InputCandidates) (m : ResolvedInputs)
    → All IsReady cs
    → reduce fuel jobs cs ≡ found m
    → IsSolution jobs cs m
unfolding reduce
reduce-IsSolution zero jobs cs m r e = absurd (ground arith)
reduce-IsSolution (suc fuel) jobs cs m r e =
    let ds = prune_to_common_builds jobs cs in
    let z = prune_to_common_builds-IsPruned jobs cs in
    let ready = IsPruned-IsReady jobs (λ j. common_build_ids j cs) cs ds z r in
    elim (reduce_from-cases jobs (reduce fuel jobs) (reduce-IsSolution fuel jobs) [] ds m ready tt
      e) [
        | inl (one, resolved) ↦ resolve_from-IsSolution jobs cs ds m z r one resolved
        | inr s ↦
            IsSolution-Narrows jobs cs ds m
              (IsPruned-Narrows jobs (λ j. common_build_ids j cs) cs ds z) s
      ]
