-- ===== src/Store/History/Cancellations.antt =====
-- A request to cancel a run in the history of the store (src/control-plane/store.ts,
-- `requestCancellation`).
use softwareoath.Store.Control.Laws.{request_cancellation_held, retry_run_refused, update_run-ok}
use softwareoath.Store.Lease.{claim_run, lease_run}
use softwareoath.Store.Lease.Claims.{claim_run-IsTaken, claim_run-none}
use softwareoath.Store.Incidents.{get_run}
use softwareoath.Records.Data.{not_retryable}
use softwareoath.Store.History.Runs.{Keeps, run_operations-IfFound}
use softwareoath.Store.History.Found.{IfFound, IfFound-map}
use softwareoath.Store.Control.{
  assign_update, restarted, update_run, cancellation, request_cancellation, is_retryable, retry_run,
}
use softwareoath.Records.Values.{is_given, Timestamp}
use softwareoath.Store.Lease.{is_eligible, is_claimable}
use softwareoath.Store.Approval.{decided_run}
use softwareoath.Records.Run.{HostedRunRecord, RunStatus}
use softwareoath.Store.History.{
  Operation, add_incident_op, update_run_op, retry_run_op, decide_op, claim_run_op,
  request_cancellation_op, ControlPlaneData, ok, run_operations, err,
}
use softwareoath.Base.{
  ◌≡◌, ◌≢◌, String, some, arith, eq_iff, true, false, ℕ, List, find, All, ◌==◌, get_elem?, set, ◌∷◌,
  Bool-cases, inl, inr, All-map, suc, refl, [], zero, Option-cases,
}

-- An operation that does not take back the request to cancel the run of an id: it is no retry of that
-- run, no update that says so, and takes in no run with that id and without the request.
abbrev pub KeepsRequest : String → Operation → Type 0
KeepsRequest id (add_incident_op i r) = r.id ≡ id → r.cancel_requested ≡ true
KeepsRequest id (update_run_op other u now) = other ≡ id → u.cancel_requested ≢ some false
KeepsRequest id (retry_run_op other now) = other ≢ id
KeepsRequest id _ = Unit

abbrev Asked : HostedRunRecord → Type 0
Asked run = run.cancel_requested ≡ true

KeepsRequest-Keeps : (id : String) (o : Operation) → KeepsRequest id o → Keeps Asked id o
unfolding decided_run lease_run assign_update restarted
KeepsRequest-Keeps id (add_incident_op i r) n = λ e. n ((eq_iff r.id id).0 e)
KeepsRequest-Keeps id (decide_op a t e) n = λ same r p awaits. p
KeepsRequest-Keeps id (claim_run_op w l now) n = λ r p may. p
KeepsRequest-Keeps id (update_run_op other u now) n = λ same r p. ground (arith, n same)
KeepsRequest-Keeps id (request_cancellation_op other now) n = λ same r p. ground arith
KeepsRequest-Keeps id (retry_run_op other now) n = λ same r p may. absurd (n same)
KeepsRequest-Keeps id _ n = tt

-- An operation that is no update of the run of an id and takes in no run with that id.
abbrev pub LeavesRun : String → Operation → Type 0
LeavesRun id (add_incident_op i r) = r.id ≢ id
LeavesRun id (update_run_op other u now) = other ≢ id
LeavesRun id _ = Unit

-- A run with a request to cancel it that a worker has held, in a status.
abbrev Stranded : RunStatus → HostedRunRecord → Type 0
Stranded status run =
    (run.status ≡ status) × (run.cancel_requested ≡ true) × (is_given run.lease_owner ≡ true)

LeavesRun-Keeps :
    (status : RunStatus) (id : String) (o : Operation)
    → is_claimable status ≡ true
    → LeavesRun id o
    → Keeps (Stranded status) id o
unfolding decided_run lease_run assign_update restarted is_eligible
LeavesRun-Keeps status id (add_incident_op i r) waits n = λ e. absurd (n ((eq_iff r.id id).0 e))
LeavesRun-Keeps status id (decide_op a t e) waits n = λ same r p awaits. ground (arith, p.0, waits)
LeavesRun-Keeps status id (claim_run_op w l now) waits n = λ r p may. ground (arith, p.1)
LeavesRun-Keeps status id (update_run_op other u now) waits n = λ same r p. absurd (n same)
LeavesRun-Keeps status id (request_cancellation_op other now) waits n =
    λ same r p. ground (arith, p.0, p.1, p.2)
LeavesRun-Keeps status id (retry_run_op other now) waits n =
    λ same r p may. ground (arith, p.0, waits)
LeavesRun-Keeps status id _ waits n = tt

-- The run that is found under an id is not changed by a claim, if it is not eligible.
find-set_ineligible :
    (id : String) (now : Timestamp) (runs : List HostedRunRecord) (i : ℕ) (x y : HostedRunRecord)
    → IfFound (λ r. is_eligible now r ≡ false) (find (λ r. r.id == id) runs)
    → get_elem? runs i ≡ some x
    → y.id ≡ x.id
    → is_eligible now x ≡ true
    → find (λ r. r.id == id) (set runs i y) ≡ find (λ r. r.id == id) runs
find-set_ineligible id now [] i x y h g same may = refl
find-set_ineligible id now (z ∷ runs) zero x y h g same may =
    let is : z ≡ x = ground arith in
    elim (Bool-cases (x.id == id)) [
      | inl e ↦ absurd (ground (arith, rw (is, e) at h, may))
      | inr e ↦ let mine : (y.id == id) ≡ false = rw same e in rw (is, mine, e) refl
    ]
find-set_ineligible id now (z ∷ runs) (suc i) x y h g same may = elim (Bool-cases (z.id == id)) [
  | inl e ↦ rw e refl
  | inr e ↦ rw e (find-set_ineligible id now runs i x y (rw e at h) g same may)
]

get_run-claim_run :
    (id worker : String) (lease_ms : ℕ) (now : Timestamp) (doc : ControlPlaneData)
    → IfFound (λ r. is_eligible now r ≡ false) (get_run id doc)
    → get_run id (claim_run worker lease_ms now doc).0 ≡ get_run id doc
unfolding get_run
get_run-claim_run id worker lease_ms now doc h =
    elim (Option-cases (claim_run worker lease_ms now doc).1) [
      | inl nothing ↦ rw ((claim_run-none worker lease_ms now doc nothing).0) refl
      | inr (claimed, found) ↦
          let (place, run, taken, _, after) =
            claim_run-IsTaken worker lease_ms now doc {claimed = claimed} found in
          rw after (
            find-set_ineligible id now doc.runs place run (lease_run worker lease_ms now run) h
              taken.stands (unfold lease_run in refl) taken.eligible)
    ]

-- After the second step of a cancellation, and after whatever operations follow that keep the request,
-- the run that is found under the id is eligible at no time, and a claim by any worker leaves it as it
-- reads. An operation keeps the request if it is no retry of that run, no update that takes the
-- request back, and takes in no run with that id and without a request.
pub cancellation_stops_claims :
    (id worker : String) (lease_ms : ℕ) (now later : Timestamp) (seen : HostedRunRecord)
    (doc after : ControlPlaneData) (result : HostedRunRecord) (os : List Operation)
    → update_run id (cancellation seen) now doc ≡ ok (after, result)
    → All (KeepsRequest id) os
    → let last = run_operations os after in
      IfFound (λ r. is_eligible later r ≡ false) (get_run id last)
      × (get_run id (claim_run worker lease_ms later last).0 ≡ get_run id last)
cancellation_stops_claims id worker lease_ms now later seen doc after result os e keep =
    let (run, _, assigned, found) = update_run-ok id (cancellation seen) now doc after result e in
    let asked : Asked result = unfold assign_update in rw assigned (ground arith) in
    let kept =
      run_operations-IfFound Asked id os after
        (All-map (KeepsRequest id) (Keeps Asked id) os (KeepsRequest-Keeps id) keep)
        (rw found asked) in
    let never =
      IfFound-map Asked (λ r. is_eligible later r ≡ false) (get_run id (run_operations os after))
        (λ r p. unfold is_eligible in rw p refl) kept in
    (never, get_run-claim_run id worker lease_ms later (run_operations os after) never)

stuck_run :
    (id : String) (later again : Timestamp) (status : RunStatus) (doc : ControlPlaneData)
    → is_claimable status ≡ true
    → IfFound (Stranded status) (get_run id doc)
    → IfFound
        (λ r.
          (r.status ≡ status)
          × (is_eligible later r ≡ false)
          × (retry_run id again doc ≡ err (not_retryable id status)))
        (get_run id doc)
stuck_run id later again status doc waits h = elim (Option-cases (get_run id doc)) [
  | inl missing ↦ rw missing tt
  | inr (r, found) ↦
      let p : Stranded status r = rw found at h in
      let stays : is_retryable r.status ≡ false = ground (arith, p.0, waits) in
      rw found (
        p.0,
        (unfold is_eligible in rw (p.1) refl),
        rw (p.0) at (retry_run_refused id again doc r found stays),
      )
]

-- A run that a worker has held, and that stands in a status in which workers take runs up, keeps that
-- status when it is cancelled. After whatever operations follow that are no update of that run and
-- take in no run with its id, claims, retries, decisions and further cancellations among them, the run
-- that is found under the id still has that status, is eligible at no time, and a retry of it is
-- refused.
pub request_cancellation_strands :
    (id : String) (now later again : Timestamp) (doc : ControlPlaneData) (run : HostedRunRecord)
    (os : List Operation)
    → get_run id doc ≡ some run
    → is_given run.lease_owner ≡ true
    → is_claimable run.status ≡ true
    → All (LeavesRun id) os
    → (after : ControlPlaneData) × (result : HostedRunRecord) × (request_cancellation id now doc
        ≡ ok (after, result))
      × (get_run id after ≡ some result)
      × IfFound
          (λ r.
            (r.status ≡ run.status)
            × (is_eligible later r ≡ false)
            × (retry_run id again (run_operations os after) ≡ err (not_retryable id run.status)))
          (get_run id (run_operations os after))
request_cancellation_strands id now later again doc run os found held waits leave =
    let (after, result, done, reads, is) = request_cancellation_held id now doc run found held in
    let stranded : Stranded run.status result = rw is (refl, refl, held) in
    (
      after,
      result,
      done,
      reads,
      stuck_run id later again run.status (run_operations os after) waits (
          run_operations-IfFound (Stranded run.status) id os after
            (All-map (LeavesRun id) (Keeps (Stranded run.status) id) os
              (λ o. LeavesRun-Keeps run.status id o waits) leave)
            (rw reads stranded)),
    )
