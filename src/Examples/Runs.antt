-- ===== src/Examples/Runs.antt =====
-- The laws of claims, decisions, cancellations and retries at the records of `Examples.Data`.
use softwareoath.Store.History.Found.{IfFound}
use softwareoath.Store.History.Decisions.{decide-decide}
use softwareoath.Store.History.Cancellations.{
  cancellation_stops_claims, request_cancellation_strands,
}
use softwareoath.Store.History.{
  Operation, run_operations, request_cancellation_op, claim_run_op, retry_run_op, update_run_op,
}
use softwareoath.Records.Review.{rejected}
use softwareoath.Store.Lease.Claims.{IsTaken, claim_run_keeps_leased, claim_run-IsTaken}
use softwareoath.Store.Control.{
  request_cancellation, retry_run, update_run, assign_update, no_update,
}
use softwareoath.Examples.Data.{
  waiting_shop, shop, approval_two, run_waiting, run_two, attestation_two, run_one, audit_two,
  decided_shop, decided,
}
use softwareoath.Records.Run.{HostedRunRecord, cancelled, retry_wait, blocked}
use softwareoath.Store.Incidents.{get_run}
use softwareoath.Store.Approval.{decide, decided_run}
use softwareoath.Store.Lease.Budget.{claims, ClaimCall, remaining, claims-remaining}
use softwareoath.Records.Data.{
  ControlPlaneData, ok, err, not_awaiting_approval, not_retryable, run_not_found,
}
use softwareoath.Store.Lease.{claim_run, lease_run, is_eligible, candidates}
use softwareoath.Base.Sort.{sort}
use softwareoath.Base.{
  ℕ, get_elem?, List, ◌≡◌, some, ◌∷◌, ◌+◌, true, [], set, false, refl, arith, ◌⊎◌,
}

claim_run-IsTaken_example :
    (place : ℕ) × (run : HostedRunRecord) × IsTaken 100 shop.runs place run
    × (lease_run "w1" 30 100 run_one ≡ lease_run "w1" 30 100 run)
    × ((claim_run "w1" 30 100 shop).0
        ≡ record shop { runs = set shop.runs place (lease_run "w1" 30 100 run) })
claim_run-IsTaken_example =
    claim_run-IsTaken "w1" 30 100 shop {claimed = lease_run "w1" 30 100 run_one}
      (unfold claim_run candidates is_eligible lease_run sort in refl)

-- The run of `shop` with the lease that a worker has taken at 100 for 30 milliseconds.
abbrev leased_shop : ControlPlaneData
leased_shop = record shop { runs = run_two ∷ lease_run "w1" 30 100 run_one ∷ [] }

claim_run_keeps_leased_example :
    get_elem? (claim_run "w2" 30 120 leased_shop).0.runs 1 ≡ some (lease_run "w1" 30 100 run_one)
claim_run_keeps_leased_example =
    claim_run_keeps_leased "w1" "w2" 30 30 100 120 leased_shop 1 run_one refl (omega arith)

-- Two workers, and the first of them again once its lease has ended.
abbrev three_claims : List ClaimCall
three_claims =
    record { worker_id = "w1"; lease_ms = 30; now = 100 }
    ∷ record { worker_id = "w2"; lease_ms = 30; now = 110 }
    ∷ record { worker_id = "w1"; lease_ms = 30; now = 140 }
    ∷ []

claims-remaining_example :
    (claims three_claims shop).1 + remaining (claims three_claims shop).0.runs ≡ remaining shop.runs
claims-remaining_example = claims-remaining three_claims shop

-- What happens to the decided run before it is decided again.
abbrev after_decision : List Operation
after_decision =
    request_cancellation_op "r2" 120
    ∷ retry_run_op "r2" 130
    ∷ claim_run_op "w1" 30 140
    ∷ update_run_op "r2" (record no_update { status = some cancelled }) 150
    ∷ []

decide-decide_example :
    let last = run_operations after_decision decided_shop in
    let again =
      decide (record approval_two { decision = rejected }) attestation_two audit_two last in
    (again ≡ err (not_awaiting_approval "r2")) ⊎ (again ≡ err (run_not_found "r2"))
decide-decide_example =
    decide-decide approval_two (record approval_two { decision = rejected }) attestation_two
      attestation_two audit_two audit_two shop decided_shop (decided_run approval_two run_two)
      after_decision decided (tt, (tt, (tt, ((λ same e. ground arith), tt)))) refl refl

-- The run as its cancellation leaves it, without and with a worker that has held it.
abbrev cancelled_run : HostedRunRecord
cancelled_run = record run_one { status = cancelled; cancel_requested = true; updated_at = 110 }

abbrev asked_run : HostedRunRecord
asked_run = record run_waiting { cancel_requested = true; updated_at = 110 }

-- Claims, and an update of the run by the worker that held it.
abbrev after_request : List Operation
after_request =
    claim_run_op "w2" 30 120
    ∷ update_run_op "r1" (record no_update { status = some blocked }) 130
    ∷ []

cancellation_stops_claims_example :
    let last = run_operations after_request (record shop { runs = asked_run ∷ [] }) in
    IfFound (λ r. is_eligible 200 r ≡ false) (get_run "r1" last)
    × (get_run "r1" (claim_run "w2" 30 200 last).0 ≡ get_run "r1" last)
cancellation_stops_claims_example =
    cancellation_stops_claims "r1" "w2" 30 110 200 run_waiting waiting_shop
      (record shop { runs = asked_run ∷ [] }) asked_run after_request
      (unfold update_run assign_update in refl) (tt, ((λ same e. ground arith), tt))

-- A retry, a claim and one more cancellation of a run that was asked to stop.
abbrev attempts_to_move : List Operation
attempts_to_move =
    retry_run_op "r1" 150 ∷ claim_run_op "w2" 30 160 ∷ request_cancellation_op "r1" 170 ∷ []

request_cancellation_strands_example :
    (after : ControlPlaneData) × (result : HostedRunRecord) × (request_cancellation "r1" 110
        waiting_shop
      ≡ ok (after, result))
    × (get_run "r1" after ≡ some result)
    × IfFound
        (λ r.
          (r.status ≡ retry_wait)
          × (is_eligible 200 r ≡ false)
          × (retry_run "r1" 300 (run_operations attempts_to_move after)
              ≡ err (not_retryable "r1" retry_wait)))
        (get_run "r1" (run_operations attempts_to_move after))
request_cancellation_strands_example =
    request_cancellation_strands "r1" 110 200 300 waiting_shop run_waiting attempts_to_move
      (unfold get_run in refl) refl refl (tt, (tt, (tt, tt)))

-- The document in which the run has been cancelled.
abbrev cancelled_shop : ControlPlaneData
cancelled_shop = record shop { runs = cancelled_run ∷ [] }
