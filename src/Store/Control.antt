-- ===== src/Store/Control.antt =====
-- Updates, logs, cancellation and retry of a run: `updateRun` to `retryRun`
-- (src/control-plane/store.ts).
pub mod Laws
use softwareoath.Base.{
  String, Bool, true, false, none, some, List, [], ◌∷◌, ◌++◌, if◌then◌else◌, find, filter,
  modify_first, ◌==◌,
}
use softwareoath.Records.Values.{Timestamp, assign, or_else, is_given}
use softwareoath.Records.Run.{
  HostedRunRecord, RunLogRecord, RunStatus, received, ci_failed, blocked, cancelled, RunUpdate,
}
use softwareoath.Records.Data.{ControlPlaneData, Result, ok, err, run_not_found, not_retryable}
use softwareoath.Store.Incidents.{get_run}

-- `Object.assign(run, update, { updatedAt })`
unfoldable pub assign_update : RunUpdate → Timestamp → HostedRunRecord → HostedRunRecord
assign_update update now run = record run {
  status = or_else update.status run.status;
  decision = assign update.decision run.decision;
  repair_id = assign update.repair_id run.repair_id;
  pull_request_url = assign update.pull_request_url run.pull_request_url;
  branch = assign update.branch run.branch;
  error = assign update.error run.error;
  next_attempt_at = assign update.next_attempt_at run.next_attempt_at;
  lease_owner = assign update.lease_owner run.lease_owner;
  lease_expires_at = assign update.lease_expires_at run.lease_expires_at;
  cancel_requested = or_else update.cancel_requested run.cancel_requested;
  commit = assign update.commit run.commit;
  migration_specification_id =
      assign update.migration_specification_id run.migration_specification_id;
  repair_commit = assign update.repair_commit run.repair_commit;
  updated_at = now;
}

unfoldable pub update_run :
    String → RunUpdate → Timestamp → ControlPlaneData → Result (ControlPlaneData × HostedRunRecord)
unfolding assign_update
update_run id update now doc = elim (find (λ r. r.id == id) doc.runs) [
  | none ↦ err (run_not_found id)
  | some run ↦
      let updated = assign_update update now run in
      ok (record doc { runs = modify_first (λ r. r.id == id) (λ _. updated) doc.runs }, updated)
]

abbrev pub no_update : RunUpdate
no_update = record {
  status = none;
  decision = none;
  repair_id = none;
  pull_request_url = none;
  branch = none;
  error = none;
  next_attempt_at = none;
  lease_owner = none;
  lease_expires_at = none;
  cancel_requested = none;
  commit = none;
  migration_specification_id = none;
  repair_commit = none;
}

-- The update that `requestCancellation` chooses from the run as it was read.
abbrev pub cancellation : HostedRunRecord → RunUpdate
cancellation run =
    if is_given run.lease_owner
    then record no_update { cancel_requested = some true }
    else record no_update { cancel_requested = some true; status = some cancelled }

-- Both steps with no other operation between them.
unfoldable pub request_cancellation :
    String → Timestamp → ControlPlaneData → Result (ControlPlaneData × HostedRunRecord)
unfolding get_run update_run
request_cancellation id now doc = elim (get_run id doc) [
  | none ↦ err (run_not_found id)
  | some run ↦ update_run id (cancellation run) now doc
]

unfoldable pub append_log : RunLogRecord → ControlPlaneData → ControlPlaneData
append_log log doc = record doc { logs = doc.logs ++ log ∷ [] }

unfoldable pub list_logs : String → ControlPlaneData → List RunLogRecord
list_logs run_id doc = filter (λ l. l.run_id == run_id) doc.logs

abbrev pub is_retryable : RunStatus → Bool
is_retryable blocked = true
is_retryable cancelled = true
is_retryable ci_failed = true
is_retryable _ = false

unfoldable pub restarted : Timestamp → HostedRunRecord → HostedRunRecord
restarted now run = record run {
  status = received;
  attempts = 0;
  cancel_requested = false;
  error = none;
  next_attempt_at = none;
  lease_owner = none;
  lease_expires_at = none;
  updated_at = now;
}

unfoldable pub retry_run :
    String → Timestamp → ControlPlaneData → Result (ControlPlaneData × HostedRunRecord)
unfolding restarted
retry_run id now doc = elim (find (λ r. r.id == id) doc.runs) [
  | none ↦ err (run_not_found id)
  | some run ↦
      if is_retryable run.status
      then ok (
        record doc { runs = modify_first (λ r. r.id == id) (λ _. restarted now run) doc.runs },
        restarted now run,
      )
      else err (not_retryable id run.status)
]
