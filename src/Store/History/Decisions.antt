-- ===== src/Store/History/Decisions.antt =====
-- A decision of the owner in the history of the store (src/control-plane/store.ts, `decide`).
use softwareoath.Store.History.Found.{IfFound}
use softwareoath.Records.Data.{ok, err}
use softwareoath.Store.Incidents.{get_run}
use softwareoath.Store.Approval.Laws.{get_run-decide, is_awaiting_lem}
use softwareoath.Records.Data.{not_awaiting_approval, run_not_found}
use softwareoath.Store.History.Runs.{Keeps, run_operations-IfFound}
use softwareoath.Store.Control.{assign_update, restarted}
use softwareoath.Store.Lease.{lease_run}
use softwareoath.Records.Review.{ApprovalRecord, FinalAttestation, AuditEventRecord}
use softwareoath.Store.Approval.{decided_run, decide, is_awaiting}
use softwareoath.Records.Run.{HostedRunRecord, awaiting_approval, RunStatus, RunUpdate}
use softwareoath.Store.History.{
  Operation, add_incident_op, update_run_op, ControlPlaneData, run_operations, decide_op,
  claim_run_op, request_cancellation_op, retry_run_op, Timestamp,
}
use softwareoath.Base.{
  ◌≡◌, ◌≢◌, ◌⊎◌, List, All, All-map, String, some, inl, inr, Option-cases, arith, eq_iff, ◌==◌,
  find, false, Bool-cases,
}

-- An operation that does not bring the run of an id to await approval: it does not take in a run that
-- awaits it, and is no update that says so.
abbrev pub NeverAwaits : String → Operation → Type 0
NeverAwaits id (add_incident_op i r) = r.id ≡ id → r.status ≢ awaiting_approval
NeverAwaits id (update_run_op other u now) = other ≡ id → u.status ≢ some awaiting_approval
NeverAwaits id _ = Unit

abbrev Decided : HostedRunRecord → Type 0
Decided run = run.status ≢ awaiting_approval

never_awaits :
    (u : RunUpdate) (now : Timestamp) (r : HostedRunRecord)
    → u.status ≢ some awaiting_approval
    → Decided r
    → Decided (assign_update u now r)
unfolding assign_update
never_awaits u now r n p e = elim (Option-cases u.status) [
  | inl missing ↦ p (ground arith)
  | inr (s, is) ↦ n (ground arith)
]

NeverAwaits-Keeps : (id : String) (o : Operation) → NeverAwaits id o → Keeps Decided id o
unfolding decided_run lease_run assign_update restarted
NeverAwaits-Keeps id (add_incident_op i r) n = λ e. n ((eq_iff r.id id).0 e)
NeverAwaits-Keeps id (decide_op a t e) n = λ same r p awaits. absurd (p awaits)
NeverAwaits-Keeps id (claim_run_op w l now) n = λ r p may. p
NeverAwaits-Keeps id (update_run_op other u now) n =
    λ same r p. λ e. never_awaits u now r (n same) p e
NeverAwaits-Keeps id (request_cancellation_op other now) n = λ same r p. λ e. ground arith
NeverAwaits-Keeps id (retry_run_op other now) n = λ same r p may. λ e. ground arith
NeverAwaits-Keeps id _ n = tt

waits : (s : RunStatus) → s ≢ awaiting_approval → is_awaiting s ≡ false
waits s n = elim (Bool-cases (is_awaiting s)) [
  | inl e ↦ absurd (n (is_awaiting_lem s e))
  | inr e ↦ e
]

refused :
    (later : ApprovalRecord) (attestation : FinalAttestation) (audit : AuditEventRecord)
    (doc : ControlPlaneData)
    → attestation.run_id ≡ later.run_id
    → IfFound Decided (get_run later.run_id doc)
    → (decide later attestation audit doc ≡ err (not_awaiting_approval later.run_id))
      ⊎ (decide later attestation audit doc ≡ err (run_not_found later.run_id))
unfolding decide get_run
refused later attestation audit doc own h =
    elim (Option-cases (find (λ r. r.id == later.run_id) doc.runs)) [
      | inl missing ↦ inr (ground (arith, missing, eq_iff attestation.run_id later.run_id))
      | inr (run, found) ↦
          inl ground
            (arith, eq_iff attestation.run_id later.run_id, waits run.status (rw found at h))
    ]

-- A run is decided once: whatever operations follow a decision that succeeded, a later decision on the
-- same run with an attestation of its own is refused, because the run does not await approval or is
-- not there any more. The condition is that none of the operations between brings the run back to
-- await approval, by an update that says so or by taking in a run with its id that does.
pub decide-decide :
    (approval later : ApprovalRecord) (attestation attestation' : FinalAttestation)
    (audit audit' : AuditEventRecord) (doc decided : ControlPlaneData) (result : HostedRunRecord)
    (os : List Operation)
    → decide approval attestation audit doc ≡ ok (decided, result)
    → All (NeverAwaits approval.run_id) os
    → later.run_id ≡ approval.run_id
    → attestation'.run_id ≡ later.run_id
    → let last = run_operations os decided in
      (decide later attestation' audit' last ≡ err (not_awaiting_approval later.run_id))
      ⊎ (decide later attestation' audit' last ≡ err (run_not_found later.run_id))
decide-decide approval later attestation attestation' audit audit' doc decided result os e never
      same own =
    let (found, (run, _, is)) = get_run-decide approval attestation audit doc decided result e in
    let first : IfFound Decided (get_run approval.run_id decided) =
      rw (found, is) (λ s. ground arith) in
    let kept =
      run_operations-IfFound Decided approval.run_id os decided
        (All-map (NeverAwaits approval.run_id) (Keeps Decided approval.run_id) os
          (NeverAwaits-Keeps approval.run_id) never)
        first in
    refused later attestation' audit' (run_operations os decided) own (rw same kept)
