-- ===== src/Store/Approval.antt =====
-- The owner's decision: `decide` and the reads of attestations (src/control-plane/store.ts).
pub mod Laws
use softwareoath.Base.{
  String, Bool, true, false, not, Option, none, some, List, [], ◌∷◌, ◌++◌, if◌then◌else◌, find,
  filter, modify_first, ◌==◌,
}
use softwareoath.Records.Run.{HostedRunRecord, RunStatus, awaiting_approval, completed, blocked}
use softwareoath.Records.Review.{
  ApprovalRecord, ApprovalDecision, approved, rejected, FinalAttestation, AuditEventRecord,
}
use softwareoath.Records.Data.{
  ControlPlaneData, Result, ok, err, foreign_attestation, run_not_found, not_awaiting_approval,
}

unfoldable pub list_attestations : Option String → ControlPlaneData → List FinalAttestation
list_attestations none doc = doc.attestations
list_attestations (some repository) doc =
    if repository == ""
    then doc.attestations
    else filter (λ a. a.repository == repository) doc.attestations

unfoldable pub get_attestation : String → ControlPlaneData → Option FinalAttestation
get_attestation run_id doc = find (λ a. a.run_id == run_id) doc.attestations

abbrev pub is_awaiting : RunStatus → Bool
is_awaiting awaiting_approval = true
is_awaiting _ = false

abbrev pub decided_status : ApprovalDecision → RunStatus
decided_status approved = completed
decided_status rejected = blocked

-- The run as the decision leaves it.
unfoldable pub decided_run : ApprovalRecord → HostedRunRecord → HostedRunRecord
decided_run approval run = record run {
  status = decided_status approval.decision;
  updated_at = approval.created_at;
}

unfoldable pub decide :
    ApprovalRecord
    → FinalAttestation
    → AuditEventRecord
    → ControlPlaneData
    → Result (ControlPlaneData × HostedRunRecord)
unfolding decided_run
decide approval attestation audit doc =
    if not (attestation.run_id == approval.run_id)
    then err foreign_attestation
    else elim (find (λ r. r.id == approval.run_id) doc.runs) [
      | none ↦ err (run_not_found approval.run_id)
      | some run ↦
          if not (is_awaiting run.status)
          then err (not_awaiting_approval approval.run_id)
          else ok (
            record doc {
              approvals = doc.approvals ++ approval ∷ [];
              attestations = doc.attestations ++ attestation ∷ [];
              audit_events = doc.audit_events ++ audit ∷ [];
              runs =
                  modify_first (λ r. r.id == approval.run_id) (λ _. decided_run approval run)
                    doc.runs;
            },
            decided_run approval run,
          )
    ]
