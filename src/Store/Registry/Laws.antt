-- ===== src/Store/Registry/Laws.antt =====
-- A registration or mapping that was stored is found (src/control-plane/store.ts).
use softwareoath.Store.Registry.{
  get_repository, upsert_repository, RepositoryRegistration, Property, ControlPlaneData,
  new_registration, merge_registration,
}
use softwareoath.Base.{
  List, ◌≡◌, some, Option, String, ◌≢◌, ◌==◌, false, find, ◌++◌, ◌∷◌, [], arith, Option-cases, inl,
  find-append, eq_refl, eq_iff, inr, find-modify_first, find-modify_first_other, none,
}

-- The id that a registration is stored under: the one that its name had before, or its own.
abbrev pub stored_id :
    RepositoryRegistration Property → Option (RepositoryRegistration Option) → String
stored_id registration none = registration.id
stored_id registration (some old) = old.id

-- A registration that is stored is what its name reads afterwards, under the id that it had before if
-- it was registered.
pub get_repository-upsert_repository :
    (registration : RepositoryRegistration Property) (doc : ControlPlaneData)
    → (get_repository registration.repository (upsert_repository registration doc).0
        ≡ some (upsert_repository registration doc).1)
      × ((upsert_repository registration doc).1.id
          ≡ stored_id registration (get_repository registration.repository doc))
unfolding get_repository upsert_repository
get_repository-upsert_repository registration doc =
    elim (Option-cases (find (λ r. r.repository == registration.repository) doc.repositories)) [
      | inl missing ↦ (
        ground (
          arith,
          missing,
          find-append (λ r. r.repository == registration.repository) doc.repositories
              (new_registration registration ∷ []) missing,
          eq_refl registration.repository,
        ),
        ground (arith, missing),
      )
      | inr (old, found) ↦ (
        ground (
          arith,
          found,
          find-modify_first (λ r. r.repository == registration.repository)
              (λ _. merge_registration registration old) doc.repositories {x = old} found
              (eq_refl registration.repository),
        ),
        ground (arith, found),
      )
    ]

found_past :
    (other : String) (r : RepositoryRegistration Option) (rs : List (RepositoryRegistration Option))
    → (r.repository == other) ≡ false
    → find (λ x. x.repository == other) (rs ++ r ∷ []) ≡ find (λ x. x.repository == other) rs
found_past other r [] h = ground arith
found_past other r (x ∷ rs) h = ground (arith, found_past other r rs)

-- Storing a registration leaves every other name as it reads.
pub get_repository-upsert_repository_other :
    (registration : RepositoryRegistration Property) (doc : ControlPlaneData) (other : String)
    → registration.repository ≢ other
    → get_repository other (upsert_repository registration doc).0 ≡ get_repository other doc
unfolding get_repository upsert_repository
get_repository-upsert_repository_other registration doc other differ =
    elim (Option-cases (find (λ r. r.repository == registration.repository) doc.repositories)) [
      | inl missing ↦ ground (
        arith,
        missing,
        eq_iff registration.repository other,
        found_past other (new_registration registration) doc.repositories,
      )
      | inr (old, found) ↦ ground (
        arith,
        found,
        find-modify_first_other (λ r. r.repository == registration.repository)
            (λ r. r.repository == other) (λ _. merge_registration registration old) doc.repositories
            (λ r h.
              ground
                (arith, eq_iff r.repository registration.repository, eq_iff r.repository other))
            (λ _. ground (arith, eq_iff registration.repository other)),
      )
    ]
