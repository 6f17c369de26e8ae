-- ===== src/Store/Approval/Laws.antt =====
-- What a decision of the owner does (src/control-plane/store.ts, `decide`).
use softwareoath.Base.{
  ◌≡◌, true, some, Option-cases, arith, ◌++◌, find, ◌∷◌, ◌==◌, [], inl, modify_first, inr, eq_iff,
  ◌↔◌, String, false, ◌≢◌, find-true, find-modify_first, find-modify_first_other,
}
use softwareoath.Records.Review.{ApprovalRecord, FinalAttestation, AuditEventRecord}
use softwareoath.Records.Run.{HostedRunRecord, RunStatus, awaiting_approval}
use softwareoath.Records.Data.{ControlPlaneData, ok}
use softwareoath.Store.Approval.{decide, decided_run, is_awaiting, decided_status}
use softwareoath.Store.Incidents.{get_run}

pub is_awaiting_lem : (s : RunStatus) → is_awaiting s ≡ true → s ≡ awaiting_approval
is_awaiting_lem s h = ground arith

-- The parts of a decision that succeeds.
pub record IsDecided (approval : ApprovalRecord) (attestation : FinalAttestation)
    (audit : AuditEventRecord) (doc after : ControlPlaneData) (run : HostedRunRecord) : Type 0 where
  pub was_found : get_run approval.run_id doc ≡ some run
  pub was_awaiting : run.status ≡ awaiting_approval
  pub belongs : attestation.run_id ≡ approval.run_id
  pub state : after ≡ record doc {
    approvals = doc.approvals ++ approval ∷ [];
    attestations = doc.attestations ++ attestation ∷ [];
    audit_events = doc.audit_events ++ audit ∷ [];
    runs = modify_first (λ r. r.id == approval.run_id) (λ _. decided_run approval run) doc.runs;
  }

pub decide-IsDecided :
    (approval : ApprovalRecord) (attestation : FinalAttestation) (audit : AuditEventRecord)
    (doc after : ControlPlaneData) (result : HostedRunRecord)
    → decide approval attestation audit doc ≡ ok (after, result)
    → (run : HostedRunRecord) × IsDecided approval attestation audit doc after run
      × (result ≡ decided_run approval run)
unfolding decide get_run
decide-IsDecided approval attestation audit doc after result e =
    elim (Option-cases (find (λ r. r.id == approval.run_id) doc.runs)) [
      | inl missing ↦ absurd (ground arith)
      | inr (run, found) ↦ (
        run,
        record {
          was_found = found;
          was_awaiting = ground (arith, is_awaiting_lem run.status);
          belongs = ground (arith, eq_iff attestation.run_id approval.run_id);
          state = ground arith;
        },
        ground arith,
      )
    ]

-- A decision succeeds exactly when its attestation is for the same run, and that run is found and
-- awaits approval.
pub decide_ok_iff :
    (approval : ApprovalRecord) (attestation : FinalAttestation) (audit : AuditEventRecord)
    (doc : ControlPlaneData)
    → ((after : ControlPlaneData) × (result : HostedRunRecord) × (decide approval attestation audit
            doc
          ≡ ok (after, result)))
      ↔ ((run : HostedRunRecord) × (get_run approval.run_id doc ≡ some run)
          × (run.status ≡ awaiting_approval)
          × (attestation.run_id ≡ approval.run_id))
decide_ok_iff approval attestation audit doc = (
  (λ (after, result, e).
      let (run, d, _) = decide-IsDecided approval attestation audit doc after result e in
      (run, d.was_found, d.was_awaiting, d.belongs)),
  (λ (run, found, waits, same). (
    record doc {
      approvals = doc.approvals ++ approval ∷ [];
      attestations = doc.attestations ++ attestation ∷ [];
      audit_events = doc.audit_events ++ audit ∷ [];
      runs = modify_first (λ r. r.id == approval.run_id) (λ _. decided_run approval run) doc.runs;
    },
    decided_run approval run,
    unfold decide get_run in ground (arith, eq_iff attestation.run_id approval.run_id),
  )),
)

other_id : (a b : String) → a ≢ b → (c : String) → (c == a) ≡ true → (c == b) ≡ false
other_id a b h c e = ground (arith, eq_iff c a, eq_iff c b)

get_run-id :
    (id : String) (doc : ControlPlaneData) {run : HostedRunRecord}
    → get_run id doc ≡ some run
    → (run.id == id) ≡ true
unfolding get_run
get_run-id id doc {run} e = find-true (λ r. r.id == id) doc.runs {x = run} e

-- After a decision the run reads as completed if it was approved and as blocked if it was rejected,
-- with every field but the status and the time as before.
pub get_run-decide :
    (approval : ApprovalRecord) (attestation : FinalAttestation) (audit : AuditEventRecord)
    (doc after : ControlPlaneData) (result : HostedRunRecord)
    → decide approval attestation audit doc ≡ ok (after, result)
    → (get_run approval.run_id after ≡ some result)
      × ((run : HostedRunRecord) × (get_run approval.run_id doc ≡ some run)
          × (result ≡ record run {
            status = decided_status approval.decision;
            updated_at = approval.created_at;
          }))
unfolding decided_run
get_run-decide approval attestation audit doc after result e =
    let (run, d, same) = decide-IsDecided approval attestation audit doc after result e in
    let is_run = λ (r : HostedRunRecord). r.id == approval.run_id in
    let kept : is_run (decided_run approval run) ≡ true =
      get_run-id approval.run_id doc d.was_found in
    (
      unfold get_run in
          rw (d.state, same)
            (find-modify_first is_run (λ _. decided_run approval run) doc.runs
              (unfold get_run in d.was_found) kept),
      (run, d.was_found, same),
    )

-- A decision leaves every run of another id as it reads.
pub get_run-decide_other :
    (approval : ApprovalRecord) (attestation : FinalAttestation) (audit : AuditEventRecord)
    (doc after : ControlPlaneData) (result : HostedRunRecord) (id : String)
    → decide approval attestation audit doc ≡ ok (after, result)
    → approval.run_id ≢ id
    → get_run id after ≡ get_run id doc
unfolding decided_run
get_run-decide_other approval attestation audit doc after result id e apart =
    let (run, d, same) = decide-IsDecided approval attestation audit doc after result e in
    let is_run = λ (r : HostedRunRecord). r.id == approval.run_id in
    let kept : is_run (decided_run approval run) ≡ true =
      get_run-id approval.run_id doc d.was_found in
    unfold get_run in
    rw d.state (
      find-modify_first_other is_run (λ r. r.id == id) (λ _. decided_run approval run) doc.runs
        (λ r. other_id approval.run_id id apart r.id)
        (λ _. other_id approval.run_id id apart run.id kept))
