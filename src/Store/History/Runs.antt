-- ===== src/Store/History/Runs.antt =====
-- What the run that is found under an id keeps through a series of operations
-- (src/control-plane/store.ts).
use softwareoath.Store.History.Found.{
  IfFound, has_id, IfFound-append, IfFound-set, IfFound-modify_first, IfFound-kept_runs,
}
use softwareoath.Records.Run.{IncidentRecord}
use softwareoath.Store.Lease.Claims.{claim_run-none, claim_run-IsTaken}
use softwareoath.Store.Approval.Laws.{decide-IsDecided}
use softwareoath.Records.Run.{RunUpdate}
use softwareoath.Store.History.Untouched.{SameRuns, step-SameRuns, touches_runs}
use softwareoath.Store.Incidents.{get_run, add_incident, same_origin}
use softwareoath.Store.Control.{
  assign_update, cancellation, is_retryable, restarted, update_run, request_cancellation, retry_run,
}
use softwareoath.Store.Lease.{is_eligible, lease_run}
use softwareoath.Store.Approval.{decided_run, decide}
use softwareoath.Store.History.{
  Operation, step, add_incident_op, decide_op, claim_run_op, update_run_op, request_cancellation_op,
  retry_run_op, after, Timestamp, run_operations, claim_run, delete_repository_data_op,
  append_log_op, upsert_mapping_op, save_auth_session_op, delete_auth_session_op, append_audit_op,
  garbage_collect_op, upsert_heartbeat_op, upsert_repository_op, upsert_knowledge_op,
  save_optimizer_analysis_op, record_optimizer_decision_op, record_optimizer_usage_op,
  save_migration_specification_op, record_migration_outcome_op, upsert_question_op,
  answer_question_op,
}
use softwareoath.Store.Erasure.{delete_repository_data, erase}
use softwareoath.Base.{
  List, [], ◌∷◌, some, String, true, false, All, ◌≡◌, refl, arith, find, modify_first, ◌==◌, inl,
  inr, Option-cases, ap,
}
use softwareoath.Records.Run.{HostedRunRecord, awaiting_approval}
use softwareoath.Records.Data.{ControlPlaneData, Result, ok, err}

-- What an operation must do to a run with the property that is found under the id, in the state in
-- which it finds it.
abbrev pub Keeps : (HostedRunRecord → Type 0) → String → Operation → Type 0
Keeps P id (add_incident_op i r) = (r.id == id) ≡ true → P r
Keeps P id (decide_op a t e) =
    a.run_id ≡ id → (r : HostedRunRecord) → P r → r.status ≡ awaiting_approval → P (decided_run a r)
Keeps P id (claim_run_op w l now) =
    (r : HostedRunRecord) → P r → is_eligible now r ≡ true → P (lease_run w l now r)
Keeps P id (update_run_op other u now) =
    other ≡ id → (r : HostedRunRecord) → P r → P (assign_update u now r)
Keeps P id (request_cancellation_op other now) =
    other ≡ id → (r : HostedRunRecord) → P r → P (assign_update (cancellation r) now r)
Keeps P id (retry_run_op other now) =
    other ≡ id → (r : HostedRunRecord) → P r → is_retryable r.status ≡ true → P (restarted now r)
Keeps P id _ = Unit

module _ (P : HostedRunRecord → Type 0) (id : String) where
  after-IfFound :
      {A : Type 0} (doc : ControlPlaneData) (result : Result (ControlPlaneData × A))
      → IfFound P (get_run id doc)
      → ((changed : ControlPlaneData) (a : A)
          → result ≡ ok (changed, a)
          → IfFound P (get_run id changed))
      → IfFound P (get_run id (after doc result))
  after-IfFound doc (ok (changed, a)) h f = f changed a refl
  after-IfFound doc (err e) h f = h

  -- An operation that changes the run that it finds under an id, and no other.
  change-IfFound :
      (other : String) (doc changed : ControlPlaneData) (x y : HostedRunRecord)
      → IfFound P (get_run id doc)
      → get_run other doc ≡ some x
      → y.id ≡ x.id
      → changed.runs ≡ modify_first (has_id other) (λ _. y) doc.runs
      → (other ≡ id → P x → P y)
      → IfFound P (get_run id changed)
  unfolding get_run
  change-IfFound other doc changed x y h found same runs k =
      rw runs (IfFound-modify_first P id other doc.runs x y h found same k)

  updated_run :
      (other : String) (u : RunUpdate) (now : Timestamp) (doc changed : ControlPlaneData)
      (result run : HostedRunRecord)
      → IfFound P (get_run id doc)
      → get_run other doc ≡ some run
      → update_run other u now doc ≡ ok (changed, result)
      → (other ≡ id → P run → P (assign_update u now run))
      → IfFound P (get_run id changed)
  unfolding get_run
  updated_run other u now doc changed result run h found is k =
      change-IfFound other doc changed run (assign_update u now run) h found
        (unfold assign_update in refl) (unfold update_run in ground arith) k

  untouched_run :
      (o : Operation) (doc : ControlPlaneData)
      → touches_runs o ≡ false
      → IfFound P (get_run id doc)
      → IfFound P (get_run id (step o doc))
  unfolding get_run SameRuns
  untouched_run o doc same h = rw ((step-SameRuns o doc same).1) h

  added_run :
      (i : IncidentRecord) (r : HostedRunRecord) (doc : ControlPlaneData)
      → IfFound P (get_run id doc)
      → ((r.id == id) ≡ true → P r)
      → IfFound P (get_run id (add_incident i r doc).0)
  unfolding add_incident get_run
  added_run i r doc h k = elim (Option-cases (find (λ j. same_origin j i) doc.incidents)) [
    | inl new ↦ rw (new, add_incident) (IfFound-append P id doc.runs r h k)
    | inr (old, is) ↦ rw (is, add_incident) h
  ]

  step-IfFound :
      (o : Operation) (doc : ControlPlaneData)
      → Keeps P id o
      → IfFound P (get_run id doc)
      → IfFound P (get_run id (step o doc))
  unfolding step get_run
  step-IfFound (add_incident_op i r) doc k h = added_run i r doc h k
  step-IfFound (decide_op a t e) doc k h = after-IfFound doc (decide a t e doc) h (λ changed x is.
      let (run, d, _) = decide-IsDecided a t e doc changed x is in
      change-IfFound a.run_id doc changed run (decided_run a run) h d.was_found
        (unfold decided_run in refl) (ap (λ d. d.runs) d.state)
        (λ same p. k same run p d.was_awaiting))
  step-IfFound (claim_run_op w l now) doc k h = elim (Option-cases (claim_run w l now doc).1) [
    | inl nothing ↦ rw ((claim_run-none w l now doc nothing).0) h
    | inr (claimed, found) ↦
        let (place, run, taken, _, after) =
          claim_run-IsTaken w l now doc {claimed = claimed} found in
        rw after (
          IfFound-set P id doc.runs place run (lease_run w l now run) h taken.stands
            (unfold lease_run in refl) (λ p. k run p taken.eligible))
  ]
  step-IfFound (update_run_op other u now) doc k h =
      after-IfFound doc (update_run other u now doc) h (λ changed x is.
        elim (Option-cases (get_run other doc)) [
          | inl missing ↦ absurd (unfold update_run in ground arith)
          | inr (run, found) ↦
              updated_run other u now doc changed x run h found is (λ same p. k same run p)
        ])
  step-IfFound (request_cancellation_op other now) doc k h =
      after-IfFound doc (request_cancellation other now doc) h (λ changed x is.
        elim (Option-cases (get_run other doc)) [
          | inl missing ↦ absurd (unfold request_cancellation in ground arith)
          | inr (run, found) ↦
              updated_run other (cancellation run) now doc changed x run h found
                (unfold request_cancellation in ground arith) (λ same p. k same run p)
        ])
  step-IfFound (retry_run_op other now) doc k h =
      after-IfFound doc (retry_run other now doc) h (λ changed x is.
        elim (Option-cases (get_run other doc)) [
          | inl missing ↦ absurd (unfold retry_run in ground arith)
          | inr (run, found) ↦
              change-IfFound other doc changed run (restarted now run) h found
                (unfold restarted in refl) (unfold retry_run in ground arith)
                (λ same p. k same run p (unfold retry_run in ground arith))
        ])
  step-IfFound (delete_repository_data_op r) doc k h =
      unfold delete_repository_data erase in IfFound-kept_runs P id r doc.runs h
  step-IfFound (append_log_op x) doc k h = untouched_run (append_log_op x) doc refl h
  step-IfFound (upsert_mapping_op x) doc k h = untouched_run (upsert_mapping_op x) doc refl h
  step-IfFound (save_auth_session_op x) doc k h = untouched_run (save_auth_session_op x) doc refl h
  step-IfFound (delete_auth_session_op x) doc k h =
      untouched_run (delete_auth_session_op x) doc refl h
  step-IfFound (append_audit_op x) doc k h = untouched_run (append_audit_op x) doc refl h
  step-IfFound (garbage_collect_op x) doc k h = untouched_run (garbage_collect_op x) doc refl h
  step-IfFound (upsert_heartbeat_op x) doc k h = untouched_run (upsert_heartbeat_op x) doc refl h
  step-IfFound (upsert_repository_op x) doc k h = untouched_run (upsert_repository_op x) doc refl h
  step-IfFound (upsert_knowledge_op x) doc k h = untouched_run (upsert_knowledge_op x) doc refl h
  step-IfFound (save_optimizer_analysis_op x) doc k h =
      untouched_run (save_optimizer_analysis_op x) doc refl h
  step-IfFound (record_optimizer_decision_op x y z) doc k h =
      untouched_run (record_optimizer_decision_op x y z) doc refl h
  step-IfFound (record_optimizer_usage_op x y z) doc k h =
      untouched_run (record_optimizer_usage_op x y z) doc refl h
  step-IfFound (save_migration_specification_op x y z) doc k h =
      untouched_run (save_migration_specification_op x y z) doc refl h
  step-IfFound (record_migration_outcome_op x y z) doc k h =
      untouched_run (record_migration_outcome_op x y z) doc refl h
  step-IfFound (upsert_question_op x) doc k h = untouched_run (upsert_question_op x) doc refl h
  step-IfFound (answer_question_op x y z) doc k h =
      untouched_run (answer_question_op x y z) doc refl h

  -- Through a series of operations that keep the property, whatever run is found under the id has it.
  pub run_operations-IfFound :
      (os : List Operation) (doc : ControlPlaneData)
      → All (Keeps P id) os
      → IfFound P (get_run id doc)
      → IfFound P (get_run id (run_operations os doc))
  unfolding run_operations
  run_operations-IfFound [] doc k h = h
  run_operations-IfFound (o ∷ os) doc k h =
      run_operations-IfFound os (step o doc) k.1 (step-IfFound o doc k.0 h)
