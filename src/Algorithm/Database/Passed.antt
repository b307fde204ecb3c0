-- ===== src/Algorithm/Database/Passed.antt =====
-- Which versions have passed jobs, by the build outputs: what merging one version, the step of the
-- walks over the outputs, keeps of it.
use native.Mathlib.Decide.{dec_le}
use atc.Prelude.{
  ℕ, ◌<◌, ◌≡◌, refl, ap, ◌∙◌, inl, inr, Bool, true, false, ◌&&◌, ◌||◌, List, [], ◌∷◌, ◌==◌, ==_iff,
  arith, Bool-cases, All, sym,
}
use atc.Algorithm.Sets.{contains, has, empty, absorb, has-absorb, has-add_build}
use atc.Algorithm.Versions.{Version, new_version, record_build, absorb_version}
use atc.Algorithm.Versions.Members.{has-empty}
use atc.Algorithm.Versions.Upsert.{upsert, upsert_known, upsert_before, upsert_after}
use atc.Algorithm.Database.{BuildOutput, candidate_of}

-- Some row says that build b of job j output the version of the resource.
unfoldable pub is_produced : ℕ → ℕ → ℕ → ℕ → List BuildOutput → Bool
is_produced resource j version b [] = false
is_produced resource j version b (o ∷ outputs) =
    (((o.resource_id == resource && o.job_id == j) && o.version_id == version) && o.build_id == b)
    || is_produced resource j version b outputs

module _ (rank : ℕ → ℕ) (outputs : List BuildOutput) where
  -- A row is one of the outputs, and has the check order of its version.
  pub record IsRow (o : BuildOutput) : Type 0 where
    pub row : is_produced o.resource_id o.job_id o.version_id o.build_id outputs ≡ true
    pub ranked : o.check_order ≡ rank o.version_id

  -- A version of the resource that has passed the jobs: of each job, a build that output it is
  -- recorded at it, and every build that is recorded at it is one that output it.
  pub record IsPassed (resource : ℕ) (jobs : List ℕ) (v : Version) : Type 0 where
    pub ranked : v.order ≡ rank v.id
    pub passed_by : (j : ℕ) → contains j jobs ≡ true → (b : ℕ) × (has j b v.passed ≡ true)
    pub rows : (j b : ℕ) → has j b v.passed ≡ true → is_produced resource j v.id b outputs ≡ true

  module _ (resource : ℕ) where
    pub new_version-IsPassed :
        (j : ℕ) (o : BuildOutput)
        → 0 < j
        → IsRow o
        → o.resource_id ≡ resource
        → o.job_id ≡ j
        → IsPassed resource (j ∷ []) (new_version (candidate_of o))
    unfolding new_version contains
    new_version-IsPassed j o pos r e f = record {
      ranked = r.ranked;
      passed_by =
          λ k h. (o.build_id, ground (arith, has-add_build k o.build_id o.job_id o.build_id empty));
      rows = λ k b h.
          ground (arith, has-add_build k b o.job_id o.build_id empty, has-empty k b, r.row);
    }

    pub record_build-IsPassed :
        (j : ℕ) (o : BuildOutput) (v : Version)
        → IsRow o
        → o.resource_id ≡ resource
        → v.id ≡ o.version_id
        → IsPassed resource (j ∷ []) v
        → IsPassed resource (j ∷ []) (record_build (candidate_of o) v)
    unfolding record_build
    record_build-IsPassed j o v r e f p = record {
      ranked = ground (arith, p.ranked);
      passed_by = λ k h.
          let (b, of_b) = p.passed_by k h in
          (b, ground (arith, has-add_build k b o.job_id o.build_id v.passed, of_b));
      rows = λ k b h.
          ground (arith, has-add_build k b o.job_id o.build_id v.passed, p.rows k b, r.row);
    }

    absorb_version-IsPassed :
        (js ks : List ℕ) (v w : Version)
        → v.id ≡ w.id
        → IsPassed resource js v
        → IsPassed resource ks w
        → IsPassed resource js (absorb_version w v) × IsPassed resource ks (absorb_version w v)
    unfolding absorb_version
    absorb_version-IsPassed js ks v w e p q =
        let rows : (j b : ℕ)
            → has j b (absorb v.passed w.passed) ≡ true
            → is_produced resource j v.id b outputs ≡ true =
          λ j b h. ground (arith, has-absorb j b v.passed w.passed, p.rows j b, q.rows j b) in
        (
          record {
            ranked = p.ranked;
            passed_by = λ j h.
                let (b, of_b) = p.passed_by j h in
                (b, ground (arith, has-absorb j b v.passed w.passed, of_b));
            rows = rows;
          },
          record {
            ranked = p.ranked;
            passed_by = λ j h.
                let (b, of_b) = q.passed_by j h in
                (b, ground (arith, has-absorb j b v.passed w.passed, of_b));
            rows = rows;
          },
        )

    both-IsPassed :
        (k : ℕ) (js : List ℕ) (v : Version)
        → IsPassed resource js v
        → IsPassed resource (k ∷ []) v
        → IsPassed resource (k ∷ js) v
    unfolding contains
    both-IsPassed k js v p q = record {
      ranked = p.ranked;
      passed_by = λ j h. elim (Bool-cases (j == k)) [
        | inl e ↦ q.passed_by j (ground arith)
        | inr e ↦ p.passed_by j (ground arith)
      ];
      rows = p.rows;
    }

    upsert_nil : (w : Version) (known : Version → Version) → upsert w known [] ≡ w ∷ []
    unfolding upsert
    upsert_nil w known = refl

    same_order :
        (js ks : List ℕ) (v w : Version)
        → v.id ≡ w.id
        → IsPassed resource js v
        → IsPassed resource ks w
        → v.order ≡ w.order
    same_order js ks v w e p q = p.ranked ∙ ap rank e ∙ sym q.ranked

    absorbed :
        {k : ℕ} {js : List ℕ} (w v : Version)
        → w.id ≡ v.id
        → IsPassed resource (k ∷ []) w
        → IsPassed resource js v
        → IsPassed resource (k ∷ js) (absorb_version v w)
    absorbed {k} {js} w v e q p =
        let (old, new) = absorb_version-IsPassed (k ∷ []) js w v e q p in
        both-IsPassed k js (absorb_version v w) new old

    -- Merging a version that passed job k, and then one of the same id that passed the jobs js, in
    -- either order of arrival: all versions have passed all of the jobs.
    pub merge_two :
        (k : ℕ) (js : List ℕ) (v w : Version) (acc : List Version)
        → w.id ≡ v.id
        → IsPassed resource js v
        → IsPassed resource (k ∷ []) w
        → All (IsPassed resource (k ∷ js)) acc
        → All
            (IsPassed resource (k ∷ js))
            (upsert v (absorb_version v) (upsert w (absorb_version w) acc))
    unfolding upsert
    merge_two k js v w [] e p q h = rw (upsert_nil w (absorb_version w)) (
        rw
          (upsert_known v (absorb_version v) w []
            (omega (arith, same_order js (k ∷ []) v w (sym e) p q)) e)
          (absorbed w v e q p, tt))
    merge_two k js v w (u ∷ acc) e p q h =
        let same = same_order js (k ∷ []) v w (sym e) p q in
        elim (dec_le u.order w.order) [
          | no far ↦ rw (upsert_after w (absorb_version w) u acc (omega arith)) (
              rw
                (upsert_after v (absorb_version v) u (upsert w (absorb_version w) acc)
                  (omega arith))
                (h.0, merge_two k js v w acc e p q h.1))
          | yes near ↦ elim (Bool-cases (u.id == w.id)) [
            | inl known ↦
                let known_id = (==_iff u.id w.id).0 known in
                let absorbed_once =
                  (absorb_version-IsPassed (k ∷ js) (k ∷ []) u w known_id h.0 q).0 in
                rw (upsert_known w (absorb_version w) u acc near known_id) (
                  rw
                    (upsert_known v (absorb_version v) (absorb_version w u) acc
                      (unfold absorb_version in omega arith)
                      (unfold absorb_version in known_id ∙ e))
                    (
                      (absorb_version-IsPassed (k ∷ js) js (absorb_version w u) v
                          (unfold absorb_version in known_id ∙ e) absorbed_once p).0,
                      h.1,
                    ))
            | inr other ↦ rw (upsert_before w (absorb_version w) u acc near other) (
                rw (upsert_known v (absorb_version v) w (u ∷ acc) (omega arith) e)
                  (absorbed w v e q p, h))
          ]
        ]

    IsPassed-fewer :
        (all jobs : List ℕ) (v : Version)
        → ((j : ℕ) → contains j jobs ≡ true → contains j all ≡ true)
        → IsPassed resource all v
        → IsPassed resource jobs v
    IsPassed-fewer all jobs v sub p = record {
      ranked = p.ranked;
      passed_by = λ j k. p.passed_by j (sub j k);
      rows = p.rows;
    }

    pub All-fewer :
        (all jobs : List ℕ)
        → ((j : ℕ) → contains j jobs ≡ true → contains j all ≡ true)
        → (vs : List Version) → All (IsPassed resource all) vs
        → All (IsPassed resource jobs) vs
    All-fewer all jobs sub [] h = tt
    All-fewer all jobs sub (v ∷ vs) h =
        (IsPassed-fewer all jobs v sub h.0, All-fewer all jobs sub vs h.1)

is_produced_self :
    (o : BuildOutput) (outputs : List BuildOutput)
    → is_produced o.resource_id o.job_id o.version_id o.build_id (o ∷ outputs) ≡ true
unfolding is_produced
is_produced_self o outputs = ground arith

abbrev pub HasRank : (ℕ → ℕ) → BuildOutput → Type 0
HasRank rank o = o.check_order ≡ rank o.version_id

IsRow-later :
    (rank : ℕ → ℕ) (first : BuildOutput) (outputs os : List BuildOutput)
    → All (IsRow rank outputs) os
    → All (IsRow rank (first ∷ outputs)) os
unfolding is_produced
IsRow-later rank first outputs [] h = tt
IsRow-later rank first outputs (o ∷ os) h = (
  record { row = ground (arith, h.0.row); ranked = h.0.ranked },
  IsRow-later rank first outputs os h.1,
)

pub rows_of :
    (rank : ℕ → ℕ) (outputs : List BuildOutput)
    → All (HasRank rank) outputs
    → All (IsRow rank outputs) outputs
rows_of rank [] h = tt
rows_of rank (o ∷ outputs) h = (
  record { row = is_produced_self o outputs; ranked = h.0 },
  IsRow-later rank o outputs outputs (rows_of rank outputs h.1),
)
