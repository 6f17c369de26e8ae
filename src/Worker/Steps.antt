-- ===== src/Worker/Steps.antt =====
-- The check that a run is still wanted, and what a worker does when a step of it throws: `log`,
-- `assertActive` and the last branch of `process` (src/control-plane/orchestrator.ts). `now` is the
-- clock of the worker, and `written_at` that of the store, which dates the update.
pub mod Laws
use softwareoath.Records.Data.{ControlPlaneData, Result, ok, err}
use softwareoath.Store.Incidents.{get_run}
use softwareoath.Records.Values.{Timestamp}
use softwareoath.Store.Control.{append_log, update_run, no_update}
use Prim.Native.Nat.{◌^◌}
use Prim.Native.String
use softwareoath.Base.{
  ℕ, ◌+◌, ◌-◌, String, ◌*◌, Bool, Option, true, some, false, if◌then◌else◌, none, leb,
}
use softwareoath.Records.Run.{
  RunStatus, blocked, error, retry_wait, cancelled, warning, HostedRunRecord, LogLevel, RunUpdate,
}
use softwareoath.Store.History.{after}

-- `log`, with the id that is drawn for it.
unfoldable pub log :
    String → String → String → LogLevel → Timestamp → ControlPlaneData → ControlPlaneData
unfolding append_log
log id run_id message level now doc =
    append_log
      (record { id = id; run_id = run_id; level = level; message = message; created_at = now }) doc

-- How `assertActive` ends: with the run, or with one of its two errors.
pub data Activity : Type 0 where
  active : HostedRunRecord → Activity
  disappeared : Activity
  cancellation_requested : Activity

abbrev pub cancelled_update : Timestamp → RunUpdate
cancelled_update now = record no_update {
  status = some cancelled;
  lease_expires_at = some (some now);
}

unfoldable pub assert_active :
    String → Timestamp → Timestamp → ControlPlaneData → ControlPlaneData × Activity
unfolding get_run update_run
assert_active run_id now written_at doc = elim (get_run run_id doc) [
  | none ↦ (doc, disappeared)
  | some run ↦
      if run.cancel_requested
      then (
        after doc (update_run run_id (cancelled_update now) written_at doc),
        cancellation_requested,
      )
      else (doc, active run)
]

-- `Math.min(60_000 * 2 ** Math.max(0, attempts - 1), 60 * 60 * 1000)`
unfoldable pub retry_delay_ms : ℕ → ℕ
retry_delay_ms attempts =
    let doubled = 60000 * 2 ^ (attempts - 1) in if leb doubled 3600000 then doubled else 3600000

abbrev pub is_cancelled : RunStatus → Bool
is_cancelled cancelled = true
is_cancelled _ = false

-- The attempts of the run as it is read, or else those given.
abbrev pub attempts_or : ℕ → Option HostedRunRecord → ℕ
attempts_or default none = default
attempts_or default (some run) = run.attempts

abbrev pub was_cancelled : Option HostedRunRecord → Bool
was_cancelled none = false
was_cancelled (some run) = is_cancelled run.status

-- The update of a run that has failed: `terminal` where it has no attempt left.
abbrev pub failure_update : Bool → String → ℕ → Timestamp → RunUpdate
failure_update terminal message attempts now = record no_update {
  status = some (if terminal then blocked else retry_wait);
  error = some (some message);
  next_attempt_at = some (if terminal then none else some (now + retry_delay_ms attempts));
  lease_expires_at = some (some now);
}

abbrev pub failure_message : Bool → String → String
failure_message terminal message =
    String.◌++◌ (if terminal then "Run failed permanently: " else "Run will retry: ") message

-- The branch that catches an error with this message.
unfoldable pub fail_run :
    String
    → String
    → HostedRunRecord
    → Timestamp
    → Timestamp
    → ControlPlaneData
    → Result ControlPlaneData
unfolding get_run update_run log retry_delay_ms
fail_run log_id message claimed now written_at doc =
    let current = get_run claimed.id doc in
    let terminal = leb claimed.max_attempts (attempts_or claimed.attempts current) in
    let update = failure_update terminal message (attempts_or 1 current) now in
    if was_cancelled current
    then ok (log log_id claimed.id "Run cancelled by operator." warning now doc)
    else elim (update_run claimed.id update written_at doc) [
      | err e ↦ err e
      | ok (changed, _) ↦
          ok (log log_id claimed.id (failure_message terminal message) error now changed)
    ]
