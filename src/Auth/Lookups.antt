-- ===== src/Auth/Lookups.antt =====
-- api/auth: when a look-up in the database leads to a request that is passed on.
use atc.Prelude.{
  ◌≡◌, ◌⊎◌, ◌↔◌, inl, inr, refl, subst, sym, Bool, true, false, ◌||◌, Option, none, some, arith,
  if◌then◌else◌,
}
use atc.Pipeline.Config.{ℤ}
use atc.Auth.Request.{is_authorized, Request}
use atc.Auth.Handlers.{
  Scope, check_public, in_pipeline, not_found, unauthorized, Database, Pipeline, Build, Lookup,
  found, failed, missing, Response, served, on_lookup, check_pipeline_access, with_build,
  read_from_outside, check_job, reject,
}
use atc.Auth.Contract.{is_served, IsPipelineOf}

pub on_lookup_iff :
    {A : Type 0} (l : Lookup A) (other : Response) (k : A → Response) (P : A → Type 0)
    → is_served other ≡ false
    → ((a : A) → (is_served (k a) ≡ true) ↔ P a)
    → (is_served (on_lookup l other k) ≡ true) ↔ ((a : A) × (l ≡ found a) × P a)
unfolding on_lookup is_served
on_lookup_iff failed other k P u f = (λ h. absurd (cc), λ p. absurd (ground (arith, p.1)))
on_lookup_iff missing other k P u f = (λ h. absurd (cc), λ p. absurd (ground (arith, p.1)))
on_lookup_iff (found a) other k P u f = (
  λ h. (a, refl, (f a).0 h),
  λ p. subst (λ l. is_served (on_lookup l other k) ≡ true) (sym p.1) ((f p.0).1 p.2),
)

pub if_or_iff :
    (t : Bool) (x y : Response) (M Q : Type 0)
    → (t ≡ false) ↔ M
    → (is_served x ≡ true) ↔ Q
    → is_served y ≡ true
    → (is_served (if t then x else y) ≡ true) ↔ (M ⊎ Q)
if_or_iff true x y M Q m q h =
    (λ s. inr (q.0 s), λ o. elim o [ inl a ↦ absurd (ground (arith, m.1 a)) | inr b ↦ q.1 b ])
if_or_iff false x y M Q m q h = (λ s. inl (m.0 refl), λ o. h)

pub or_else_iff :
    (t : Bool) (x y : Response) (M Q : Type 0)
    → (t ≡ true) ↔ M
    → is_served x ≡ true
    → (is_served y ≡ true) ↔ Q
    → (is_served (if t then x else y) ≡ true) ↔ (M ⊎ Q)
or_else_iff true x y M Q m h q = (λ s. inl (m.0 refl), λ o. h)
or_else_iff false x y M Q m h q =
    (λ s. inr (q.0 s), λ o. elim o [ inl a ↦ absurd (ground (arith, m.1 a)) | inr b ↦ q.1 b ])

module _ (db : Database) (r : Request) where
  pub with_build_iff :
      (o : Option ℤ) (k : Build → Response) (P : Build → Type 0)
      → ((b : Build) → (is_served (k b) ≡ true) ↔ P b)
      → (is_served (with_build db o k) ≡ true)
        ↔ ((b : Build) × ((id : ℤ) × (o ≡ some id) × (Database.find_build db id ≡ found b)) × P b)
  unfolding with_build is_served
  with_build_iff none k P f = (λ h. absurd (cc), λ p. absurd (ground (arith, p.1.1)))
  with_build_iff (some id) k P f =
      let iff = on_lookup_iff (Database.find_build db id) not_found k P refl f in
      (
        λ h. let s = iff.0 h in (s.0, (id, refl, s.1), s.2),
        λ p. iff.1 (p.0, ground (arith, p.1.1, p.1.2), p.2),
      )

  reject_refuses : is_served (reject r) ≡ false
  unfolding reject is_served
  reject_refuses = ground arith

  or_reject_iff :
      (a b : Bool) (s : Scope) (M : Type 0)
      → (a ≡ true) ↔ M
      → (is_served (if a || b then served s else reject r) ≡ true) ↔ (M ⊎ (b ≡ true))
  unfolding is_served
  or_reject_iff true b s M m = (λ h. inl (m.0 refl), λ o. refl)
  or_reject_iff false true s M m = (λ h. inr refl, λ o. refl)
  or_reject_iff false false s M m = (
    (λ h. absurd (ground (arith, h, reject_refuses))),
    (λ o. elim o [ inl a ↦ absurd (ground (arith, m.1 a)) | inr e ↦ absurd (cc) ]),
  )

  check_job_iff :
      (b : Build) (p : Pipeline)
      → (is_served (check_job db r b p) ≡ true) ↔ (Pipeline.job_is_public p b.job_name ≡ found true)
  unfolding check_job on_lookup is_served
  check_job_iff b p = ground (arith, reject_refuses)

  check_public_iff :
      (allow : Bool) (b : Build) (p : Pipeline)
      → (is_served (check_public db allow r b p) ≡ true) ↔ (
          (Pipeline.is_public p ≡ true)
          × ((allow ≡ true) ⊎ (Pipeline.job_is_public p b.job_name ≡ found true)))
  unfolding check_public is_served
  check_public_iff allow b p = ground (arith, check_job_iff b p, reject_refuses)

  pub read_from_outside_iff :
      (allow : Bool) (b : Build)
      → (is_served (read_from_outside db allow r b) ≡ true) ↔ (
          (p : Pipeline) × (b.pipeline ≡ found p)
          × ((Pipeline.is_public p ≡ true)
              × ((allow ≡ true) ⊎ (Pipeline.job_is_public p b.job_name ≡ found true))))
  unfolding read_from_outside is_served
  read_from_outside_iff allow b =
      on_lookup_iff b.pipeline unauthorized _ _ refl (check_public_iff allow b)

  pub pipeline_iff :
      (M : Type 0)
      → (is_authorized r ≡ true) ↔ M
      → (is_served (check_pipeline_access db r) ≡ true)
        ↔ ((p : Pipeline) × IsPipelineOf db r.params p × (M ⊎ (Pipeline.is_public p ≡ true)))
  unfolding check_pipeline_access is_served
  pipeline_iff M m =
      let iff =
        on_lookup_iff (Database.find_team db r.params.team_param) not_found _
          (λ team_pipeline.
            (p : Pipeline) × (team_pipeline r.params.pipeline_param ≡ found p)
            × (M ⊎ (Pipeline.is_public p ≡ true)))
          refl
          (λ team_pipeline.
            on_lookup_iff (team_pipeline r.params.pipeline_param) not_found _
              (λ p. M ⊎ (Pipeline.is_public p ≡ true)) refl
              (λ p. or_reject_iff (is_authorized r) (Pipeline.is_public p) (in_pipeline p) M m)) in
      (
        (λ h. let s = iff.0 h in (s.2.0, (s.0, s.1, s.2.1), s.2.2)),
        (λ s. iff.1 (s.1.0, s.1.1, (s.0, s.1.2, s.2))),
      )
