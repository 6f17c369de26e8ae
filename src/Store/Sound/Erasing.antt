-- ===== src/Store/Sound/Erasing.antt =====
-- The erasure of a repository keeps the invariant of `Store.Sound`.
use softwareoath.Store.Sound.Keeping.{DistinctOrigins-filter}
use softwareoath.Store.Sound.{has_incident, IsSound, WithinBudget}
use softwareoath.Records.Data.{ControlPlaneData}
use softwareoath.Store.Erasure.{erase, kept_runs, is_incident_of, starts}
use softwareoath.Records.Run.{HostedRunRecord, IncidentRecord}
use softwareoath.Base.{
  List, any, Bool, String, ◌≡◌, All, true, not, ◌==◌, ◌∷◌, filter, arith, [], All-map, ◌||◌, eq_iff,
  eq_refl, All-filter,
}

any-filter-true {ℓ} :
    {A : Type ℓ} (p q : A → Bool) (xs : List A)
    → any p xs ≡ true
    → ((x : A) → p x ≡ true → q x ≡ true)
    → any p (filter q xs) ≡ true
any-filter-true p q [] h f = h
any-filter-true p q (x ∷ xs) h f = ground (arith, any-filter-true p q xs, f x)

-- A test that holds of an element and itself is passed by some element for each element.
All-any_self :
    (p : HostedRunRecord → HostedRunRecord → Bool) (xs : List HostedRunRecord)
    → ((x : HostedRunRecord) → p x x ≡ true)
    → All (λ r. any (λ k. p k r) xs ≡ true) xs
All-any_self p [] h = tt
All-any_self p (x ∷ xs) h = (
  ground (arith, h x),
  All-map (λ r. any (λ k. p k r) xs ≡ true) (λ r. any (λ k. p k r) (x ∷ xs) ≡ true) xs
      (λ r e. ground arith) (All-any_self p xs h),
)

keep_incident : String → List HostedRunRecord → IncidentRecord → Bool
keep_incident repository runs i =
    not (is_incident_of repository runs i.id) || any (starts i) (kept_runs repository runs)

incident_stays :
    (repository : String) (runs : List HostedRunRecord) (incidents : List IncidentRecord)
    (r : HostedRunRecord)
    → any (λ k. k.incident_id == r.incident_id) (kept_runs repository runs) ≡ true
    → has_incident incidents r ≡ true
    → has_incident (filter (keep_incident repository runs) incidents) r ≡ true
unfolding keep_incident
incident_stays repository runs incidents r mine known =
    any-filter-true (λ i. i.id == r.incident_id) (keep_incident repository runs) incidents known
      (λ i e. let same = (eq_iff i.id r.incident_id).0 e in ground (arith, mine, same))

All-pair :
    (P Q : HostedRunRecord → Type 0) (xs : List HostedRunRecord)
    → All P xs
    → All Q xs
    → All (λ r. P r × Q r) xs
All-pair P Q [] h k = tt
All-pair P Q (x ∷ xs) h k = ((h.0, k.0), All-pair P Q xs h.1 k.1)

-- The erasure of a repository leaves no run without its incident, and keeps the rest of the
-- invariant.
pub erase-IsSound :
    (repository : String) (doc : ControlPlaneData) → IsSound doc → IsSound (erase repository doc)
unfolding erase kept_runs keep_incident
erase-IsSound repository doc s =
    let kept = kept_runs repository doc.runs in
    let old = (λ (r : HostedRunRecord). has_incident doc.incidents r ≡ true) in
    let mine = (λ (r : HostedRunRecord). any (λ k. k.incident_id == r.incident_id) kept ≡ true) in
    record {
      origins = DistinctOrigins-filter (keep_incident repository doc.runs) doc.incidents s.origins;
      started =
          All-map (λ r. mine r × old r)
            (λ r. has_incident (erase repository doc).incidents r ≡ true) kept
            (λ r h. incident_stays repository doc.runs doc.incidents r h.0 h.1)
            (All-pair mine old kept
              (All-any_self (λ k r. k.incident_id == r.incident_id) kept
                (λ x. eq_refl x.incident_id))
              (All-filter old _ doc.runs s.started));
      budget = All-filter WithinBudget _ doc.runs s.budget;
    }
