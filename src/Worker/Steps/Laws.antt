-- ===== src/Worker/Steps/Laws.antt =====
-- What a failure leaves, and that a cancellation takes effect (src/control-plane/orchestrator.ts).
use softwareoath.Store.Lease.{is_eligible}
use softwareoath.Base.{
  ◌≤◌, arith, suc, ◌-◌, zero, ℕ, String, ◌≡◌, some, true, false, ◌<◌, leb, modify_first, ◌+◌, ◌==◌,
  find, find-modify_first, find-true, refl,
}
use softwareoath.Store.Incidents.{get_run}
use softwareoath.Store.Control.{update_run, assign_update, append_log, retry_run, restarted}
use softwareoath.Records.Values.{Timestamp}
use softwareoath.Records.Run.{HostedRunRecord, warning, error, cancelled, blocked}
use softwareoath.Records.Data.{ControlPlaneData, ok}
use softwareoath.Worker.Steps.{
  retry_delay_ms, fail_run, assert_active, log, ◌^◌, is_cancelled, cancellation_requested,
  cancelled_update, failure_update, failure_message,
}

pub retry_delay_ms-least : (attempts : ℕ) → 60000 ≤ retry_delay_ms attempts
unfolding retry_delay_ms
retry_delay_ms-least attempts = ground (arith, pow_pos (attempts - 1))
  where
    pow_pos : (n : ℕ) → 1 ≤ 2 ^ n
    pow_pos zero = omega arith
    pow_pos (suc n) = omega (arith, pow_pos n)

pub retry_delay_ms-most : (attempts : ℕ) → retry_delay_ms attempts ≤ 3600000
unfolding retry_delay_ms
retry_delay_ms-most attempts = ground arith

-- A run that fails waits, if the store has it neither cancelled nor with a request to cancel it, and
-- with attempts left of as many as the worker's copy of it allows: as it then stands, it is eligible
-- from the time that the back-off sets on, and at no time before. That is a minute to an hour after
-- the failure.
pub fail_run-is_eligible :
    (log_id message : String) (claimed : HostedRunRecord) (now written_at later : Timestamp)
    (doc : ControlPlaneData) (run : HostedRunRecord)
    → get_run claimed.id doc ≡ some run
    → is_cancelled run.status ≡ false
    → run.cancel_requested ≡ false
    → run.attempts < claimed.max_attempts
    → run.max_attempts ≡ claimed.max_attempts
    → (failed : ControlPlaneData) × (result : HostedRunRecord) × (fail_run log_id message claimed
          now written_at doc
        ≡ ok failed)
      × (get_run claimed.id failed ≡ some result)
      × (is_eligible later result ≡ leb (now + retry_delay_ms run.attempts) later)
      × (60000 ≤ retry_delay_ms run.attempts)
      × (retry_delay_ms run.attempts ≤ 3600000)
unfolding fail_run get_run log
fail_run-is_eligible log_id message claimed now written_at later doc run found going wanted left
      same =
    let update = failure_update false message run.attempts now in
    let result = assign_update update written_at run in
    let changed = record doc {
      runs = modify_first (λ r. r.id == claimed.id) (λ _. result) doc.runs;
    } in
    let not_terminal : leb claimed.max_attempts run.attempts ≡ false = ground arith in
    (
      log log_id claimed.id (failure_message false message) error now changed,
      result,
      unfold update_run in ground (arith, found),
      unfold append_log in
          find-modify_first (λ r. r.id == claimed.id) (λ _. result) doc.runs {x = run} found
            (unfold assign_update in find-true (λ r. r.id == claimed.id) doc.runs {x = run} found),
      unfold is_eligible assign_update in ground (arith, retry_delay_ms-least run.attempts),
      retry_delay_ms-least run.attempts,
      retry_delay_ms-most run.attempts,
    )

-- A run that fails with its last attempt is blocked: no worker claims it, and a retry is accepted.
pub fail_run-retry_run :
    (log_id message : String) (claimed : HostedRunRecord) (now written_at later again : Timestamp)
    (doc : ControlPlaneData) (run : HostedRunRecord)
    → get_run claimed.id doc ≡ some run
    → is_cancelled run.status ≡ false
    → claimed.max_attempts ≤ run.attempts
    → (failed : ControlPlaneData) × (result : HostedRunRecord) × (fail_run log_id message claimed
          now written_at doc
        ≡ ok failed)
      × (get_run claimed.id failed ≡ some result)
      × (result.status ≡ blocked)
      × (is_eligible later result ≡ false)
      × ((retried : ControlPlaneData) × (retry_run claimed.id again failed
            ≡ ok (retried, restarted again result)))
unfolding fail_run get_run log
fail_run-retry_run log_id message claimed now written_at later again doc run found going spent =
    let update = failure_update true message run.attempts now in
    let result = assign_update update written_at run in
    let changed = record doc {
      runs = modify_first (λ r. r.id == claimed.id) (λ _. result) doc.runs;
    } in
    let terminal : leb claimed.max_attempts run.attempts ≡ true = ground arith in
    let failed = log log_id claimed.id (failure_message true message) error now changed in
    let reads : find (λ r. r.id == claimed.id) changed.runs ≡ some result =
      find-modify_first (λ r. r.id == claimed.id) (λ _. result) doc.runs {x = run} found
        (unfold assign_update in find-true (λ r. r.id == claimed.id) doc.runs {x = run} found) in
    (
      failed,
      result,
      unfold update_run in ground (arith, found),
      unfold append_log in reads,
      unfold assign_update in refl,
      unfold assign_update is_eligible in ground arith,
      (
        record failed {
          runs = modify_first (λ r. r.id == claimed.id) (λ _. restarted again result) changed.runs;
        },
        unfold retry_run append_log assign_update in ground (arith, reads),
      ),
    )

-- A run whose cancellation was requested while a worker holds it is cancelled at the worker's next
-- check: the check ends with its error, the error is caught without a change of the run, and the run
-- may then be started again.
pub assert_active-fail_run :
    (log_id message : String) (claimed : HostedRunRecord) (now written_at again : Timestamp)
    (doc : ControlPlaneData) (run : HostedRunRecord)
    → get_run claimed.id doc ≡ some run
    → run.cancel_requested ≡ true
    → (checked failed : ControlPlaneData) × (result : HostedRunRecord) × (assert_active claimed.id
          now written_at doc
        ≡ (checked, cancellation_requested))
      × (fail_run log_id message claimed now written_at checked ≡ ok failed)
      × (get_run claimed.id failed ≡ some result)
      × (result.status ≡ cancelled)
      × ((retried : ControlPlaneData) × (retry_run claimed.id again failed
            ≡ ok (retried, restarted again result)))
unfolding fail_run assert_active get_run log
assert_active-fail_run log_id message claimed now written_at again doc run found asked =
    let result = assign_update (cancelled_update now) written_at run in
    let checked = record doc {
      runs = modify_first (λ r. r.id == claimed.id) (λ _. result) doc.runs;
    } in
    let failed = log log_id claimed.id "Run cancelled by operator." warning now checked in
    let reads : find (λ r. r.id == claimed.id) checked.runs ≡ some result =
      find-modify_first (λ r. r.id == claimed.id) (λ _. result) doc.runs {x = run} found
        (unfold assign_update in find-true (λ r. r.id == claimed.id) doc.runs {x = run} found) in
    (
      checked,
      failed,
      result,
      unfold update_run in ground (arith, found),
      rw reads (unfold assign_update in refl),
      unfold append_log in reads,
      unfold assign_update in refl,
      (
        record failed {
          runs = modify_first (λ r. r.id == claimed.id) (λ _. restarted again result) checked.runs;
        },
        unfold retry_run append_log assign_update in ground (arith, reads),
      ),
    )
