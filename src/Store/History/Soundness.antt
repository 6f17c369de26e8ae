-- ===== src/Store/History/Soundness.antt =====
-- Every series of operations keeps the invariant of `Store.Sound`.
use softwareoath.Store.Sound.Erasing.{erase-IsSound}
use softwareoath.Store.Erasure.{delete_repository_data}
use softwareoath.Store.Sound.Keeping.{
  add_incident-IsSound, decide-IsSound, claim_run-IsSound, update_run-IsSound, retry_run-IsSound,
}
use softwareoath.Records.Values.{Timestamp}
use softwareoath.Store.Approval.{decide}
use softwareoath.Store.Sound.{IsSound}
use softwareoath.Store.Incidents.{get_run}
use softwareoath.Store.Control.{request_cancellation, update_run, retry_run, cancellation}
use softwareoath.Base.{
  List, ◌≡◌, ◌∷◌, String, All, arith, Option-cases, refl, find, ◌==◌, inl, inr, [],
}
use softwareoath.Records.Data.{ControlPlaneData, Result, ok, err}
use softwareoath.Records.Run.{HostedRunRecord}
use softwareoath.Store.History.Untouched.{SameRuns, step-SameRuns}
use softwareoath.Store.History.{
  Operation, step, run_operations, IsPermitted, after, add_incident_op, decide_op, claim_run_op,
  update_run_op, append_log_op, request_cancellation_op, retry_run_op, upsert_mapping_op,
  save_auth_session_op, delete_auth_session_op, append_audit_op, garbage_collect_op,
  delete_repository_data_op, upsert_heartbeat_op, upsert_repository_op, upsert_knowledge_op,
  save_optimizer_analysis_op, record_optimizer_decision_op, record_optimizer_usage_op,
  save_migration_specification_op, record_migration_outcome_op, upsert_question_op,
  answer_question_op,
}

pub IsSound-SameRuns : (a b : ControlPlaneData) → IsSound a → SameRuns b a → IsSound b
unfolding SameRuns
IsSound-SameRuns a b s (i, r) = record {
  origins = rw i s.origins;
  started = rw (i, r) s.started;
  budget = rw r s.budget;
}

after-IsSound :
    {A : Type 0} (doc : ControlPlaneData) (result : Result (ControlPlaneData × A))
    → IsSound doc
    → ((changed : ControlPlaneData) (a : A) → result ≡ ok (changed, a) → IsSound changed)
    → IsSound (after doc result)
after-IsSound doc (ok (changed, a)) s f = f changed a refl
after-IsSound doc (err e) s f = s

request_cancellation-IsSound :
    (id : String) (now : Timestamp) (doc changed : ControlPlaneData) (run : HostedRunRecord)
    → IsSound doc
    → request_cancellation id now doc ≡ ok (changed, run)
    → IsSound changed
unfolding request_cancellation get_run
request_cancellation-IsSound id now doc changed run s e =
    elim (Option-cases (find (λ r. r.id == id) doc.runs)) [
      | inl missing ↦ absurd (ground arith)
      | inr (old, found) ↦
          update_run-IsSound id (cancellation old) now doc changed run s (ground arith)
    ]

-- Every operation keeps the invariant, where the callers of `addIncident` keep to `IsPermitted`.
step-IsSound :
    (o : Operation) (doc : ControlPlaneData) → IsPermitted o → IsSound doc → IsSound (step o doc)
unfolding step
step-IsSound (add_incident_op i r) doc p s = add_incident-IsSound i r doc s p.0 p.1
step-IsSound (decide_op a t e) doc p s =
    after-IsSound doc (decide a t e doc) s (λ c r h. decide-IsSound a t e doc c r s h)
step-IsSound (claim_run_op w l now) doc p s = claim_run-IsSound w l now doc s
step-IsSound (update_run_op id u now) doc p s =
    after-IsSound doc (update_run id u now doc) s (λ c r h. update_run-IsSound id u now doc c r s h)
step-IsSound (append_log_op l) doc p s =
    IsSound-SameRuns doc _ s (step-SameRuns (append_log_op l) doc refl)
step-IsSound (request_cancellation_op id now) doc p s =
    after-IsSound doc (request_cancellation id now doc) s
      (λ c r h. request_cancellation-IsSound id now doc c r s h)
step-IsSound (retry_run_op id now) doc p s =
    after-IsSound doc (retry_run id now doc) s (λ c r h. retry_run-IsSound id now doc c r s h)
step-IsSound (upsert_mapping_op m) doc p s =
    IsSound-SameRuns doc _ s (step-SameRuns (upsert_mapping_op m) doc refl)
step-IsSound (save_auth_session_op x) doc p s =
    IsSound-SameRuns doc _ s (step-SameRuns (save_auth_session_op x) doc refl)
step-IsSound (delete_auth_session_op id) doc p s =
    IsSound-SameRuns doc _ s (step-SameRuns (delete_auth_session_op id) doc refl)
step-IsSound (append_audit_op e) doc p s =
    IsSound-SameRuns doc _ s (step-SameRuns (append_audit_op e) doc refl)
step-IsSound (garbage_collect_op now) doc p s =
    IsSound-SameRuns doc _ s (step-SameRuns (garbage_collect_op now) doc refl)
step-IsSound (delete_repository_data_op r) doc p s =
    unfold delete_repository_data in erase-IsSound r doc s
step-IsSound (upsert_heartbeat_op h) doc p s =
    IsSound-SameRuns doc _ s (step-SameRuns (upsert_heartbeat_op h) doc refl)
step-IsSound (upsert_repository_op r) doc p s =
    IsSound-SameRuns doc _ s (step-SameRuns (upsert_repository_op r) doc refl)
step-IsSound (upsert_knowledge_op k) doc p s =
    IsSound-SameRuns doc _ s (step-SameRuns (upsert_knowledge_op k) doc refl)
step-IsSound (save_optimizer_analysis_op a) doc p s =
    IsSound-SameRuns doc _ s (step-SameRuns (save_optimizer_analysis_op a) doc refl)
step-IsSound (record_optimizer_decision_op a r d) doc p s =
    IsSound-SameRuns doc _ s (step-SameRuns (record_optimizer_decision_op a r d) doc refl)
step-IsSound (record_optimizer_usage_op a r u) doc p s =
    IsSound-SameRuns doc _ s (step-SameRuns (record_optimizer_usage_op a r u) doc refl)
step-IsSound (save_migration_specification_op a r e) doc p s =
    IsSound-SameRuns doc _ s (step-SameRuns (save_migration_specification_op a r e) doc refl)
step-IsSound (record_migration_outcome_op a r o) doc p s =
    IsSound-SameRuns doc _ s (step-SameRuns (record_migration_outcome_op a r o) doc refl)
step-IsSound (upsert_question_op q) doc p s =
    IsSound-SameRuns doc _ s (step-SameRuns (upsert_question_op q) doc refl)
step-IsSound (answer_question_op id a k) doc p s =
    IsSound-SameRuns doc _ s (step-SameRuns (answer_question_op id a k) doc refl)

-- Any series of operations keeps the invariant: no incident is taken in twice, no run lacks its
-- incident, and no run is claimed more often than it may be. The condition is that each run that is
-- taken in is for its incident and within its attempts.
pub run_operations-IsSound :
    (os : List Operation) (doc : ControlPlaneData)
    → All IsPermitted os
    → IsSound doc
    → IsSound (run_operations os doc)
unfolding run_operations
run_operations-IsSound [] doc p s = s
run_operations-IsSound (o ∷ os) doc p s =
    run_operations-IsSound os (step o doc) p.1 (step-IsSound o doc p.0 s)
