-- ===== src/Build/Public/Tests.antt =====
-- What is shown of two gets that differ in their sources.
use atc.Prelude.{ℕ, ◌≡◌, ◌↔◌, refl, true, none, some, [], ◌∷◌}
use atc.Pipeline.Config.{Object}
use atc.Build.Plan.{VersionedResourceType, fresh, Plan, get, ensure}
use atc.Build.Public.{
  id_key, get_key, type_key, resource_key, version_key, text, plan_id, version_of_plan, object,
  no_fields, field, public,
}
use atc.Build.Public.Redact.{redact}
use atc.Build.Public.Shown.{public-redact_iff}

abbrev cached : VersionedResourceType
cached = record {
  name = 30;
  type = 31;
  source = 73;
  privileged = true;
  tags = [];
  params = 0;
  version = 41;
}

abbrev fetched : Object → Plan ℕ
fetched source =
    get (record { id = 3; attempts = 1 ∷ [] })
      (record {
        type = 30;
        name = 0;
        resource = 1;
        source = source;
        params = 71;
        tags = 9 ∷ [];
        version = some (some 40);
        version_from = none;
        resource_types = cached ∷ [];
      })

shows_get :
    public (fetched 70)
    ≡ object (
        field id_key (plan_id (some 3)) (
          field get_key
            (object (
              field type_key (text 30) (
                field resource_key
                  (text 1)
                  (field version_key (version_of_plan (some 40)) no_fields))))
            no_fields))
unfolding public
shows_get = refl

public-redact_iff_example :
    (public (ensure (fresh 5) (fetched 70) (fetched 72))
      ≡ public (ensure (fresh 5) (fetched 80) (fetched 82)))
    ↔ (redact (ensure (fresh 5) (fetched 70) (fetched 72))
        ≡ redact (ensure (fresh 5) (fetched 80) (fetched 82)))
public-redact_iff_example =
    public-redact_iff (ensure (fresh 5) (fetched 70) (fetched 72))
      (ensure (fresh 5) (fetched 80) (fetched 82))
