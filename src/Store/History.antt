-- ===== src/Store/History.antt =====
-- Every operation of the store that changes the document, as a value, and what holds of a document
-- that any series of them has made (src/control-plane/store.ts).
pub mod Untouched
pub mod Soundness
pub mod Found
pub mod Runs
pub mod Decisions
pub mod Cancellations
use softwareoath.Store.Sound.Erasing.{erase-IsSound}
use softwareoath.Store.Erasure.{delete_repository_data}
use softwareoath.Store.Sessions.{
  save_auth_session, delete_auth_session, append_audit, garbage_collect, upsert_heartbeat,
}
use softwareoath.Store.Registry.{upsert_mapping, upsert_repository}
use softwareoath.Store.Lease.{claim_run}
use softwareoath.Store.Sound.Keeping.{
  add_incident-IsSound, decide-IsSound, claim_run-IsSound, update_run-IsSound, retry_run-IsSound,
}
use softwareoath.Records.Repository.{
  QuestionAnswer, RepositoryKnowledgeRecord, RepositoryMapping, RepositoryRegistration,
  RepositoryQuestionRecord,
}
use softwareoath.Records.Values.{Property, Timestamp}
use softwareoath.Store.Approval.{decide}
use softwareoath.Records.Review.{
  ApprovalRecord, FinalAttestation, AuditEventRecord, AuthSessionRecord, ServiceHeartbeatRecord,
}
use softwareoath.Records.Optimizer.{
  OptimizerAnalysisRecordV1, OwnerObservationDecisionV1, OwnerUsageInputV1,
  SignedMigrationSpecificationV1, MigrationOutcomeV1,
}
use softwareoath.Store.Sound.{WithinBudget, IsSound}
use softwareoath.Store.Incidents.{add_incident, get_run}
use softwareoath.Store.Control.{
  request_cancellation, update_run, append_log, retry_run, cancellation,
}
use softwareoath.Store.Knowledge.{answer_question, upsert_knowledge, upsert_question}
use softwareoath.Store.Analyses.{
  record_migration_outcome, change_analysis, save_optimizer_analysis, Analysis,
  record_optimizer_decision, record_optimizer_usage, add_decision, save_migration_specification,
  record_migration_outcome, add_outcome,
}
use softwareoath.Base.{
  List, ◌≡◌, ◌∷◌, String, All, arith, Option-cases, refl, find, ℕ, ◌==◌, inl, inr, [], some,
}
use softwareoath.Records.Data.{ControlPlaneData, Result, ok, err}
use softwareoath.Records.Run.{IncidentRecord, HostedRunRecord, RunUpdate, RunLogRecord}

pub data Operation : Type 0 where
  add_incident_op : IncidentRecord → HostedRunRecord → Operation
  decide_op : ApprovalRecord → FinalAttestation → AuditEventRecord → Operation
  claim_run_op : String → ℕ → Timestamp → Operation
  update_run_op : String → RunUpdate → Timestamp → Operation
  append_log_op : RunLogRecord → Operation
  request_cancellation_op : String → Timestamp → Operation
  retry_run_op : String → Timestamp → Operation
  upsert_mapping_op : RepositoryMapping Property → Operation
  save_auth_session_op : AuthSessionRecord → Operation
  delete_auth_session_op : String → Operation
  append_audit_op : AuditEventRecord → Operation
  garbage_collect_op : Timestamp → Operation
  delete_repository_data_op : String → Operation
  upsert_heartbeat_op : ServiceHeartbeatRecord → Operation
  upsert_repository_op : RepositoryRegistration Property → Operation
  upsert_knowledge_op : RepositoryKnowledgeRecord Property → Operation
  save_optimizer_analysis_op : OptimizerAnalysisRecordV1 Property → Operation
  record_optimizer_decision_op : String → String → OwnerObservationDecisionV1 → Operation
  record_optimizer_usage_op : String → String → OwnerUsageInputV1 → Operation
  save_migration_specification_op : String → String → SignedMigrationSpecificationV1 → Operation
  record_migration_outcome_op : String → String → MigrationOutcomeV1 → Operation
  upsert_question_op : RepositoryQuestionRecord → Operation
  answer_question_op : String → QuestionAnswer → RepositoryKnowledgeRecord Property → Operation

-- The document after an operation that may throw: an error leaves it as it was.
abbrev pub after :
    {A : Type 0} → ControlPlaneData → Result (ControlPlaneData × A) → ControlPlaneData
after doc (ok (changed, _)) = changed
after doc (err _) = doc

unfoldable pub step : Operation → ControlPlaneData → ControlPlaneData
step (add_incident_op i r) doc = (add_incident i r doc).0
step (decide_op a t e) doc = after doc (decide a t e doc)
step (claim_run_op w l now) doc = (claim_run w l now doc).0
step (update_run_op id u now) doc = after doc (update_run id u now doc)
step (append_log_op l) doc = append_log l doc
step (request_cancellation_op id now) doc = after doc (request_cancellation id now doc)
step (retry_run_op id now) doc = after doc (retry_run id now doc)
step (upsert_mapping_op m) doc = (upsert_mapping m doc).0
step (save_auth_session_op s) doc = save_auth_session s doc
step (delete_auth_session_op id) doc = delete_auth_session id doc
step (append_audit_op e) doc = append_audit e doc
step (garbage_collect_op now) doc = (garbage_collect now doc).0
step (delete_repository_data_op r) doc = (delete_repository_data r doc).0
step (upsert_heartbeat_op h) doc = upsert_heartbeat h doc
step (upsert_repository_op r) doc = (upsert_repository r doc).0
step (upsert_knowledge_op k) doc = (upsert_knowledge k doc).0
step (save_optimizer_analysis_op a) doc = after doc (save_optimizer_analysis a doc)
step (record_optimizer_decision_op a r d) doc = after doc (record_optimizer_decision a r d doc)
step (record_optimizer_usage_op a r u) doc = after doc (record_optimizer_usage a r u doc)
step (save_migration_specification_op a r s) doc =
    after doc (save_migration_specification a r s doc)
step (record_migration_outcome_op a r o) doc = after doc (record_migration_outcome a r o doc)
step (upsert_question_op q) doc = (upsert_question q doc).0
step (answer_question_op id a k) doc = after doc (answer_question id a k doc)

-- The document after a series of operations.
unfoldable pub run_operations : List Operation → ControlPlaneData → ControlPlaneData
run_operations [] doc = doc
run_operations (o ∷ os) doc = run_operations os (step o doc)

-- What the callers of `addIncident` see to: the run is for the incident, and new.
abbrev pub IsPermitted : Operation → Type 0
IsPermitted (add_incident_op i r) = (r.incident_id ≡ i.id) × WithinBudget r
IsPermitted (decide_op _ _ _) = Unit
IsPermitted _ = Unit
