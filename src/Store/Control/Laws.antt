-- ===== src/Store/Control/Laws.antt =====
-- Cancellation and retry (src/control-plane/store.ts, `updateRun`, `requestCancellation`,
-- `retryRun`).
use softwareoath.Base.{
  ◌≡◌, some, Option-cases, true, false, find, arith, ◌==◌, modify_first, inl, find-modify_first,
  inr, find-true, ◌↔◌, ◌<◌, ◌⊎◌,
}
use softwareoath.Store.Control.{
  cancellation, update_run, request_cancellation, assign_update, String, retry_run, restarted,
  is_retryable,
}
use softwareoath.Store.Lease.{is_eligible}
use softwareoath.Store.Incidents.{get_run}
use softwareoath.Records.Data.{ControlPlaneData, ok, err, not_retryable}
use softwareoath.Records.Run.{HostedRunRecord, RunUpdate, cancelled, blocked, ci_failed}
use softwareoath.Records.Values.{Timestamp, is_given}

-- An update that succeeds returns the assigned run, and that is how the run reads afterwards.
pub update_run-ok :
    (id : String) (update : RunUpdate) (now : Timestamp) (doc after : ControlPlaneData)
    (result : HostedRunRecord)
    → update_run id update now doc ≡ ok (after, result)
    → (run : HostedRunRecord) × (get_run id doc ≡ some run)
      × (result ≡ assign_update update now run)
      × (get_run id after ≡ some result)
unfolding update_run get_run
update_run-ok id update now doc after result e =
    elim (Option-cases (find (λ r. r.id == id) doc.runs)) [
      | inl missing ↦ absurd (ground arith)
      | inr (run, found) ↦ (
        run,
        found,
        ground arith,
        ground (
          arith,
          find-modify_first (λ r. r.id == id) (λ _. assign_update update now run) doc.runs {x = run}
              found (find-true (λ r. r.id == id) doc.runs {x = run} found),
        ),
      )
    ]

-- A run that was never leased is cancelled at once, and may be started again.
pub request_cancellation_unleased :
    (id : String) (now : Timestamp) (doc : ControlPlaneData) (run : HostedRunRecord)
    → get_run id doc ≡ some run
    → is_given run.lease_owner ≡ false
    → (after : ControlPlaneData) × (result : HostedRunRecord) × (request_cancellation id now doc
        ≡ ok (after, result))
      × (get_run id after ≡ some result)
      × (result.status ≡ cancelled)
unfolding request_cancellation get_run
request_cancellation_unleased id now doc run found free =
    let after = record doc {
      runs =
          modify_first (λ r. r.id == id) (λ _. assign_update (cancellation run) now run) doc.runs;
    } in
    let done : request_cancellation id now doc
        ≡ ok (after, assign_update (cancellation run) now run) =
      ground arith in
    (
      after,
      assign_update (cancellation run) now run,
      done,
      find-modify_first (λ r. r.id == id) (λ _. assign_update (cancellation run) now run) doc.runs
          {x = run} found
          (unfold assign_update in find-true (λ r. r.id == id) doc.runs {x = run} found),
      unfold assign_update in ground arith,
    )

-- A run that a worker has held is cancelled by its request alone: it reads as before but for the
-- request and the time.
pub request_cancellation_held :
    (id : String) (now : Timestamp) (doc : ControlPlaneData) (run : HostedRunRecord)
    → get_run id doc ≡ some run
    → is_given run.lease_owner ≡ true
    → (after : ControlPlaneData) × (result : HostedRunRecord) × (request_cancellation id now doc
        ≡ ok (after, result))
      × (get_run id after ≡ some result)
      × (result ≡ record run { cancel_requested = true; updated_at = now })
unfolding request_cancellation get_run
request_cancellation_held id now doc run found held =
    let result = assign_update (cancellation run) now run in
    (
      record doc { runs = modify_first (λ r. r.id == id) (λ _. result) doc.runs },
      result,
      ground arith,
      find-modify_first (λ r. r.id == id) (λ _. result) doc.runs {x = run} found
          (unfold assign_update in find-true (λ r. r.id == id) doc.runs {x = run} found),
      unfold assign_update in ground arith,
    )

-- A retry of a run that may not be retried is refused.
pub retry_run_refused :
    (id : String) (now : Timestamp) (doc : ControlPlaneData) (run : HostedRunRecord)
    → get_run id doc ≡ some run
    → is_retryable run.status ≡ false
    → retry_run id now doc ≡ err (not_retryable id run.status)
unfolding retry_run get_run
retry_run_refused id now doc run found stays = ground arith

-- A retry succeeds exactly for a run that is found blocked, cancelled or failed in CI.
pub retry_run_ok_iff :
    (id : String) (now : Timestamp) (doc : ControlPlaneData)
    → ((after : ControlPlaneData) × (result : HostedRunRecord) × (retry_run id now doc
          ≡ ok (after, result)))
      ↔ ((run : HostedRunRecord) × (get_run id doc ≡ some run)
          × ((run.status ≡ blocked) ⊎ ((run.status ≡ cancelled) ⊎ (run.status ≡ ci_failed))))
unfolding retry_run get_run
retry_run_ok_iff id now doc = elim (Option-cases (find (λ r. r.id == id) doc.runs)) [
  | inl missing ↦
      ((λ (after, result, e). absurd (ground arith)), (λ (run, found, s). absurd (ground arith)))
  | inr (run, found) ↦ (
    (λ (after, result, e). (run, found, ground arith)),
    (λ (run', found', s). (
      record doc { runs = modify_first (λ r. r.id == id) (λ _. restarted now run) doc.runs },
      restarted now run,
      ground arith,
    )),
  )
]

-- After a retry the run is found as it was returned, with all its attempts before it, and a worker
-- may claim it at any time, provided that it is allowed at least one attempt.
pub retry_run-is_eligible :
    (id : String) (now later : Timestamp) (doc after : ControlPlaneData) (result : HostedRunRecord)
    → retry_run id now doc ≡ ok (after, result)
    → 0 < result.max_attempts
    → (get_run id after ≡ some result) × (result.attempts ≡ 0) × (is_eligible later result ≡ true)
unfolding retry_run get_run is_eligible
retry_run-is_eligible id now later doc after result e allowed =
    elim (Option-cases (find (λ r. r.id == id) doc.runs)) [
      | inl missing ↦ absurd (ground arith)
      | inr (run, found) ↦ (
        ground (
          arith,
          find-modify_first (λ r. r.id == id) (λ _. restarted now run) doc.runs {x = run} found
              (find-true (λ r. r.id == id) doc.runs {x = run} found),
        ),
        ground arith,
        ground arith,
      )
    ]
