-- ===== src/Store/Sound/Keeping.antt =====
-- Each operation on incidents and runs keeps the invariant of `Store.Sound`.
use softwareoath.Store.Approval.Laws.{decide-IsDecided}
use softwareoath.Store.Approval.{decide, decided_run}
use softwareoath.Store.Lease.Claims.{claim_run-none, claim_run-IsTaken}
use softwareoath.Records.Values.{Timestamp}
use softwareoath.Store.Lease.{is_eligible, lease_run, claim_run}
use softwareoath.Store.Control.{update_run, retry_run, assign_update, restarted}
use softwareoath.Records.Review.{ApprovalRecord, FinalAttestation, AuditEventRecord}
use softwareoath.Base.{
  any-append, ◌≡◌, List, Bool, arith, any, filter, Option-cases, eq_iff, false, ◌∷◌, find, ◌++◌, [],
  inr, refl, inl, find-none_iff_any, All-append, All-map, ◌==◌, String, some, modify_first,
  All-find, true, All-modify_first, All-set, All-get_elem?, ap,
}
use softwareoath.Store.Sound.{IsSound, DistinctOrigins, WithinBudget, has_incident}
use softwareoath.Store.Incidents.{same_origin, add_incident, get_run}
use softwareoath.Records.Run.{IncidentRecord, HostedRunRecord, RunUpdate}
use softwareoath.Records.Data.{ControlPlaneData, ok}

same_origin_comm : (a b : IncidentRecord) → same_origin a b ≡ same_origin b a
unfolding same_origin
same_origin_comm a b = ground (
  arith,
  eq_iff a.source b.source,
  eq_iff b.source a.source,
  eq_iff a.external_id b.external_id,
  eq_iff b.external_id a.external_id,
)

DistinctOrigins-append :
    (is : List IncidentRecord) (i : IncidentRecord)
    → DistinctOrigins is
    → any (λ j. same_origin j i) is ≡ false
    → DistinctOrigins (is ++ i ∷ [])
DistinctOrigins-append [] i h n = (refl, tt)
DistinctOrigins-append (k ∷ is) i h n = (
  ground (arith, any-append (λ j. same_origin j k) is (i ∷ []), same_origin_comm i k, h.0),
  DistinctOrigins-append is i h.1 (ground arith),
)

any-filter-false :
    (p q : IncidentRecord → Bool) (is : List IncidentRecord)
    → any p is ≡ false
    → any p (filter q is) ≡ false
any-filter-false p q [] h = refl
any-filter-false p q (i ∷ is) h = ground (arith, any-filter-false p q is)

pub DistinctOrigins-filter :
    (q : IncidentRecord → Bool) (is : List IncidentRecord)
    → DistinctOrigins is
    → DistinctOrigins (filter q is)
DistinctOrigins-filter q [] h = tt
DistinctOrigins-filter q (i ∷ is) h =
    ground
      (arith, DistinctOrigins-filter q is h.1, any-filter-false (λ j. same_origin j i) q is h.0)

-- `addIncident` keeps the invariant, if the run is for the incident and within its attempts.
pub add_incident-IsSound :
    (incident : IncidentRecord) (run : HostedRunRecord) (doc : ControlPlaneData)
    → IsSound doc
    → run.incident_id ≡ incident.id
    → WithinBudget run
    → IsSound (add_incident incident run doc).0
unfolding add_incident
add_incident-IsSound incident run doc s mine fits =
    elim (Option-cases (find (λ i. same_origin i incident) doc.incidents)) [
      | inr (existing, found) ↦ rw (found, add_incident) s
      | inl fresh ↦
          rw (fresh, add_incident)
            (record {
              origins =
                  DistinctOrigins-append doc.incidents incident s.origins
                    (find-none_iff_any (λ i. same_origin i incident) doc.incidents fresh);
              started =
                  All-append _ doc.runs (run ∷ [])
                    (All-map _ _ doc.runs
                      (λ r h. ground (
                        arith,
                        any-append (λ i. i.id == r.incident_id) doc.incidents (incident ∷ []),
                        h,
                      ))
                      s.started)
                    (
                      ground (
                        arith,
                        any-append (λ i. i.id == run.incident_id) doc.incidents (incident ∷ []),
                        eq_iff incident.id run.incident_id,
                      ),
                      tt,
                    );
              budget = All-append _ doc.runs (run ∷ []) s.budget (fits, tt);
            })
    ]

-- A change of the run that is found, to one with the same incident and within its attempts.
module _ (doc after : ControlPlaneData) (s : IsSound doc) (id : String) (old new : HostedRunRecord)
    (found : find (λ r. r.id == id) doc.runs ≡ some old) (same : new.incident_id ≡ old.incident_id)
    (fits : WithinBudget old → WithinBudget new) (incidents : after.incidents ≡ doc.incidents)
    (runs : after.runs ≡ modify_first (λ r. r.id == id) (λ _. new) doc.runs) where
  change-IsSound : IsSound after
  change-IsSound =
      let started =
        All-find (λ r. has_incident doc.incidents r ≡ true) (λ r. r.id == id) doc.runs {x = old}
          s.started found in
      let budget = All-find WithinBudget (λ r. r.id == id) doc.runs {x = old} s.budget found in
      record {
        origins = rw incidents s.origins;
        started =
            rw (incidents, runs)
              (All-modify_first (λ r. has_incident doc.incidents r ≡ true) (λ r. r.id == id)
                (λ _. new) doc.runs (λ _ _. rw same started) s.started);
        budget = rw runs (
            All-modify_first WithinBudget (λ r. r.id == id) (λ _. new) doc.runs (λ _ _. fits budget)
              s.budget);
      }

pub decide-IsSound :
    (approval : ApprovalRecord) (attestation : FinalAttestation) (audit : AuditEventRecord)
    (doc after : ControlPlaneData) (result : HostedRunRecord)
    → IsSound doc
    → decide approval attestation audit doc ≡ ok (after, result)
    → IsSound after
decide-IsSound approval attestation audit doc after result s e =
    let (run, d, _) = decide-IsDecided approval attestation audit doc after result e in
    change-IsSound doc after s approval.run_id run (decided_run approval run)
      (unfold get_run in d.was_found) (unfold decided_run in refl) (unfold decided_run in (λ h. h))
      (ap (λ d. d.incidents) d.state) (ap (λ d. d.runs) d.state)

pub update_run-IsSound :
    (id : String) (update : RunUpdate) (now : Timestamp) (doc after : ControlPlaneData)
    (result : HostedRunRecord)
    → IsSound doc
    → update_run id update now doc ≡ ok (after, result)
    → IsSound after
unfolding update_run
update_run-IsSound id update now doc after result s e =
    elim (Option-cases (find (λ r. r.id == id) doc.runs)) [
      | inl missing ↦ absurd (ground arith)
      | inr (run, found) ↦
          change-IsSound doc after s id run (assign_update update now run) found refl (λ h. h)
            (ground arith) (ground arith)
    ]

pub retry_run-IsSound :
    (id : String) (now : Timestamp) (doc after : ControlPlaneData) (result : HostedRunRecord)
    → IsSound doc
    → retry_run id now doc ≡ ok (after, result)
    → IsSound after
unfolding retry_run
retry_run-IsSound id now doc after result s e =
    elim (Option-cases (find (λ r. r.id == id) doc.runs)) [
      | inl missing ↦ absurd (ground arith)
      | inr (run, found) ↦
          change-IsSound doc after s id run (restarted now run) found refl (λ h. omega arith)
            (ground arith) (ground arith)
    ]

pub lease_run-WithinBudget :
    (worker : String) (lease_ms now : Timestamp) (run : HostedRunRecord)
    → is_eligible now run ≡ true
    → WithinBudget (lease_run worker lease_ms now run)
unfolding is_eligible lease_run
lease_run-WithinBudget worker lease_ms now run e = ground arith

pub claim_run-IsSound :
    (worker : String) (lease_ms now : Timestamp) (doc : ControlPlaneData)
    → IsSound doc
    → IsSound (claim_run worker lease_ms now doc).0
claim_run-IsSound worker lease_ms now doc s =
    elim (Option-cases (claim_run worker lease_ms now doc).1) [
      | inl nothing ↦ rw ((claim_run-none worker lease_ms now doc nothing).0) s
      | inr (claimed, found) ↦
          let (at, run, taken, _, after) = claim_run-IsTaken worker lease_ms now doc found in
          rw after (record {
            origins = s.origins;
            started =
                All-set (λ r. has_incident doc.incidents r ≡ true) doc.runs at
                  (lease_run worker lease_ms now run) s.started
                  (unfold lease_run in
                    All-get_elem? (λ r. has_incident doc.incidents r ≡ true) doc.runs at {x = run}
                      s.started taken.stands);
            budget =
                All-set WithinBudget doc.runs at (lease_run worker lease_ms now run) s.budget
                  (lease_run-WithinBudget worker lease_ms now run taken.eligible);
          })
    ]
