-- ===== src/Store/Registry.antt =====
-- Repository mappings and registrations: `upsertMapping`, `findMapping`, `listRepositories`,
-- `getRepository` and `upsertRepository` (src/control-plane/store.ts).
pub mod Laws
use softwareoath.Base.{String, Option, none, some, List, [], ◌∷◌, ◌++◌, find, modify_first, ◌==◌}
use softwareoath.Records.Values.{Property, assign, settle}
use softwareoath.Records.Repository.{RepositoryMapping, RepositoryRegistration}
use softwareoath.Records.Data.{ControlPlaneData}

-- `Object.assign(existing, mapping, { id: existing.id })`
unfoldable pub merge_mapping :
    RepositoryMapping Property → RepositoryMapping Option → RepositoryMapping Option
merge_mapping mapping existing = record {
  id = existing.id;
  sentry_project = mapping.sentry_project;
  repository = mapping.repository;
  clone_url = mapping.clone_url;
  default_branch = mapping.default_branch;
  installation_id = assign mapping.installation_id existing.installation_id;
  local_path = assign mapping.local_path existing.local_path;
  created_at = mapping.created_at;
  updated_at = mapping.updated_at;
}

unfoldable pub new_mapping : RepositoryMapping Property → RepositoryMapping Option
new_mapping mapping = record {
  id = mapping.id;
  sentry_project = mapping.sentry_project;
  repository = mapping.repository;
  clone_url = mapping.clone_url;
  default_branch = mapping.default_branch;
  installation_id = settle mapping.installation_id;
  local_path = settle mapping.local_path;
  created_at = mapping.created_at;
  updated_at = mapping.updated_at;
}

unfoldable pub upsert_mapping :
    RepositoryMapping Property → ControlPlaneData → ControlPlaneData × RepositoryMapping Option
unfolding merge_mapping new_mapping
upsert_mapping mapping doc =
    elim (find (λ m. m.sentry_project == mapping.sentry_project) doc.mappings) [
      | none ↦
          (record doc { mappings = doc.mappings ++ new_mapping mapping ∷ [] }, new_mapping mapping)
      | some existing ↦ (
        record doc {
          mappings =
              modify_first (λ m. m.sentry_project == mapping.sentry_project)
                (λ _. merge_mapping mapping existing) doc.mappings;
        },
        merge_mapping mapping existing,
      )
    ]

unfoldable pub find_mapping : String → ControlPlaneData → Option (RepositoryMapping Option)
find_mapping sentry_project doc = find (λ m. m.sentry_project == sentry_project) doc.mappings

unfoldable pub list_repositories : ControlPlaneData → List (RepositoryRegistration Option)
list_repositories doc = doc.repositories

unfoldable pub get_repository : String → ControlPlaneData → Option (RepositoryRegistration Option)
get_repository repository doc = find (λ r. r.repository == repository) doc.repositories

-- `Object.assign(existing, registration, { id: existing.id })`
unfoldable pub merge_registration :
    RepositoryRegistration Property → RepositoryRegistration Option → RepositoryRegistration Option
merge_registration registration existing = record {
  id = existing.id;
  repository = registration.repository;
  clone_url = registration.clone_url;
  default_branch = registration.default_branch;
  installation_id = assign registration.installation_id existing.installation_id;
  local_path = assign registration.local_path existing.local_path;
  schedule = registration.schedule;
  policy = registration.policy;
  next_run_at = assign registration.next_run_at existing.next_run_at;
  last_run_at = assign registration.last_run_at existing.last_run_at;
  created_at = registration.created_at;
  updated_at = registration.updated_at;
}

unfoldable pub new_registration : RepositoryRegistration Property → RepositoryRegistration Option
new_registration registration = record {
  id = registration.id;
  repository = registration.repository;
  clone_url = registration.clone_url;
  default_branch = registration.default_branch;
  installation_id = settle registration.installation_id;
  local_path = settle registration.local_path;
  schedule = registration.schedule;
  policy = registration.policy;
  next_run_at = settle registration.next_run_at;
  last_run_at = settle registration.last_run_at;
  created_at = registration.created_at;
  updated_at = registration.updated_at;
}

unfoldable pub upsert_repository :
    RepositoryRegistration Property
    → ControlPlaneData
    → ControlPlaneData × RepositoryRegistration Option
unfolding merge_registration new_registration
upsert_repository registration doc =
    elim (find (λ r. r.repository == registration.repository) doc.repositories) [
      | none ↦ (
        record doc { repositories = doc.repositories ++ new_registration registration ∷ [] },
        new_registration registration,
      )
      | some existing ↦ (
        record doc {
          repositories =
              modify_first (λ r. r.repository == registration.repository)
                (λ _. merge_registration registration existing) doc.repositories;
        },
        merge_registration registration existing,
      )
    ]
