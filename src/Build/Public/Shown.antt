-- ===== src/Build/Public/Shown.antt =====
-- What can be read off what is shown of a plan, and what cannot.
use atc.Prelude.{
  Bool-cases, inl, inr, ℕ, ◌≡◌, refl, ap, sym, ◌∙◌, ◌↔◌, Option, none, some, [], arith,
}
use atc.Pipeline.Config.{Name, is_set}
use atc.Build.Plan.{
  fresh, GetPlan, PutPlan, DependentGetPlan, Plan, empty, aggregate, do_, retry, get, put,
  dependent_get, task, on_abort, ensure, on_success, on_failure, try_, timeout, Plans, nil, cons,
}
use atc.Build.Public.{
  get_key, put_key, dependent_get_key, resource_key, Json, text, Fields, no_fields, field,
  name_field, version_field, public_get, public_put, public_dependent_get, public, public_all,
}
use atc.Build.Public.Redact.{redact_get, redact_put, redact, redact_all}
use atc.Build.Public.Read.{
  text_in, version_in, read_name, after_name, first, after_first, read_version, read, read_value,
  read_items,
}

-- A name that is left out is read as the empty one.
read_name_lem :
    (n : Name) (j : Json) (rest : Fields) → read_name (name_field n (field resource_key j rest)) ≡ n
unfolding name_field read_name text_in
read_name_lem n j rest = elim (Bool-cases (is_set n)) [
  | inl e ↦ rw e refl
  | inr e ↦ rw e (ground (arith, e))
]

after_name_lem :
    (n : Name) (j : Json) (rest : Fields)
    → after_name (name_field n (field resource_key j rest)) ≡ field resource_key j rest
unfolding name_field after_name
after_name_lem n j rest = elim (Bool-cases (is_set n)) [ inl e ↦ rw e refl | inr e ↦ rw e refl ]

read_version_lem : (v : Option (Option ℕ)) → read_version (version_field v no_fields) ≡ v
unfolding version_field read_version version_in
read_version_lem none = refl
read_version_lem (some v) = refl

module _ {T : Type 0} where
  -- Nothing of what redacting takes away is shown.
  mutual
    unfolding redact public

    public-redact : (p : Plan T) → public (redact p) ≡ public p
    public-redact empty = refl
    public-redact (aggregate n ps) = cc (public_all-redact ps)
    public-redact (do_ n ps) = cc (public_all-redact ps)
    public-redact (retry n ps) = cc (public_all-redact ps)
    public-redact (get n g) = refl
    public-redact (put n p) = refl
    public-redact (dependent_get n p) = refl
    public-redact (task n t) = refl
    public-redact (on_abort n p q) = cc (public-redact p, public-redact q)
    public-redact (ensure n p q) = cc (public-redact p, public-redact q)
    public-redact (on_success n p q) = cc (public-redact p, public-redact q)
    public-redact (on_failure n p q) = cc (public-redact p, public-redact q)
    public-redact (try_ n p) = cc (public-redact p)
    public-redact (timeout n d p) = cc (public-redact p)

    public_all-redact : (ps : Plans T) → public_all (redact_all ps) ≡ public_all ps
    public_all-redact nil = refl
    public_all-redact (cons p ps) = cc (public-redact p, public_all-redact ps)

  read_get_lem :
      (n : ℕ) (g : GetPlan)
      → read_value {T = T} (public_get g) n get_key ≡ get (fresh n) (redact_get g)
  unfolding public_get read
  read_get_lem n g =
      let shown = version_field (GetPlan.version g) no_fields in
      let r = text (GetPlan.resource g) in
      let rest = after_name_lem (GetPlan.name g) r shown in
      let version =
        ap (λ fs. read_version (after_first fs)) rest ∙ read_version_lem (GetPlan.version g) in
      λ i. get (fresh n) (record {
        type = GetPlan.type g;
        name = read_name_lem (GetPlan.name g) r shown i;
        resource = text_in (first (rest i));
        source = 0;
        params = 0;
        tags = [];
        version = version i;
        version_from = none;
        resource_types = [];
      })

  read_put_lem :
      (n : ℕ) (p : PutPlan)
      → read_value {T = T} (public_put p) n put_key ≡ put (fresh n) (redact_put p)
  unfolding public_put read
  read_put_lem n p =
      let r = text (PutPlan.resource p) in
      λ i. put (fresh n) (record {
        type = PutPlan.type p;
        name = read_name_lem (PutPlan.name p) r no_fields i;
        resource = text_in (first (after_name_lem (PutPlan.name p) r no_fields i));
        source = 0;
        params = 0;
        tags = [];
        resource_types = [];
      })

  read_dependent_get_lem :
      (n : ℕ) (p : DependentGetPlan)
      → read_value {T = T} (public_dependent_get p) n dependent_get_key ≡ dependent_get (fresh n) p
  unfolding public_dependent_get read
  read_dependent_get_lem n p =
      let r = text (DependentGetPlan.resource p) in
      λ i. dependent_get (fresh n) (record {
        type = DependentGetPlan.type p;
        name = read_name_lem (DependentGetPlan.name p) r no_fields i;
        resource = text_in (first (after_name_lem (DependentGetPlan.name p) r no_fields i));
      })

  mutual
    unfolding redact public read

    read-public : (p : Plan T) → read (public p) ≡ redact p
    read-public empty = refl
    read-public (aggregate n ps) = ap (aggregate (fresh n.id)) (read_items-public ps)
    read-public (do_ n ps) = ap (do_ (fresh n.id)) (read_items-public ps)
    read-public (retry n ps) = ap (retry (fresh n.id)) (read_items-public ps)
    read-public (get n g) = read_get_lem n.id g
    read-public (put n p) = read_put_lem n.id p
    read-public (dependent_get n p) = read_dependent_get_lem n.id p
    read-public (task n t) = refl
    read-public (on_abort n p q) = λ i. on_abort (fresh n.id) (read-public p i) (read-public q i)
    read-public (ensure n p q) = λ i. ensure (fresh n.id) (read-public p i) (read-public q i)
    read-public (on_success n p q) =
        λ i. on_success (fresh n.id) (read-public p i) (read-public q i)
    read-public (on_failure n p q) =
        λ i. on_failure (fresh n.id) (read-public p i) (read-public q i)
    read-public (try_ n p) = ap (try_ (fresh n.id)) (read-public p)
    read-public (timeout n d p) = ap (timeout (fresh n.id) d) (read-public p)

    read_items-public : (ps : Plans T) → read_items (public_all ps) ≡ redact_all ps
    read_items-public nil = refl
    read_items-public (cons p ps) = λ i. cons (read-public p i) (read_items-public ps i)

  -- What is shown of two plans is the same exactly if the plans differ in nothing but
  -- the attempts of plans, the sources, params, tags and resource types of gets and puts, the
  -- version_from of gets, and the tags, params, mappings, configurations, images and resource types
  -- of tasks: these are not shown, and all else is.
  pub public-redact_iff : (p q : Plan T) → (public p ≡ public q) ↔ (redact p ≡ redact q)
  public-redact_iff p q = (
    (λ e. sym (read-public p) ∙ ap read e ∙ read-public q),
    (λ e. sym (public-redact p) ∙ ap public e ∙ public-redact q),
  )
