-- ===== src/Store/History/Untouched.antt =====
-- The operations of the store that leave the incidents and the runs as they are
-- (src/control-plane/store.ts).
use softwareoath.Store.Document.{or_empty}
use softwareoath.Store.Sessions.{
  save_auth_session, delete_auth_session, append_audit, garbage_collect, upsert_heartbeat,
}
use softwareoath.Store.Registry.{upsert_mapping, upsert_repository}
use softwareoath.Records.Repository.{QuestionAnswer, RepositoryKnowledgeRecord}
use softwareoath.Records.Values.{Property}
use softwareoath.Records.Optimizer.{OptimizerAnalysisRecordV1}
use softwareoath.Store.Control.{append_log}
use softwareoath.Store.Knowledge.{answer_question, upsert_knowledge, upsert_question}
use softwareoath.Store.Analyses.{
  record_migration_outcome, change_analysis, save_optimizer_analysis, Analysis,
  record_optimizer_decision, record_optimizer_usage, add_decision, save_migration_specification,
  record_migration_outcome, add_outcome, put_specification,
}
use softwareoath.Base.{◌≡◌, String, arith, refl, some, Bool, false, true}
use softwareoath.Records.Data.{ControlPlaneData, Result, ok}
use softwareoath.Store.History.{
  Operation, step, after, add_incident_op, decide_op, claim_run_op, update_run_op, append_log_op,
  request_cancellation_op, retry_run_op, upsert_mapping_op, save_auth_session_op,
  delete_auth_session_op, append_audit_op, garbage_collect_op, delete_repository_data_op,
  upsert_heartbeat_op, upsert_repository_op, upsert_knowledge_op, save_optimizer_analysis_op,
  record_optimizer_decision_op, record_optimizer_usage_op, save_migration_specification_op,
  record_migration_outcome_op, upsert_question_op, answer_question_op,
}

unfoldable pub SameRuns : ControlPlaneData → ControlPlaneData → Type 0
SameRuns a b = (a.incidents ≡ b.incidents) × (a.runs ≡ b.runs)

change_analysis-SameRuns :
    (id repository : String) (change : Analysis → Result Analysis) (doc : ControlPlaneData)
    → SameRuns (after doc (change_analysis id repository change doc)) doc
unfolding SameRuns change_analysis
change_analysis-SameRuns id repository change doc = (ground arith, ground arith)

save_optimizer_analysis-SameRuns :
    (analysis : OptimizerAnalysisRecordV1 Property) (doc : ControlPlaneData)
    → SameRuns (after doc (save_optimizer_analysis analysis doc)) doc
unfolding SameRuns save_optimizer_analysis
save_optimizer_analysis-SameRuns analysis doc = (ground arith, ground arith)

answer_question-SameRuns :
    (id : String) (a : QuestionAnswer) (k : RepositoryKnowledgeRecord Property)
    (doc : ControlPlaneData)
    → SameRuns (after doc (answer_question id a k doc)) doc
unfolding SameRuns answer_question
answer_question-SameRuns id a k doc = (ground arith, ground arith)

-- Whether an operation may change the incidents or the runs.
abbrev pub touches_runs : Operation → Bool
touches_runs (add_incident_op _ _) = true
touches_runs (decide_op _ _ _) = true
touches_runs (claim_run_op _ _ _) = true
touches_runs (update_run_op _ _ _) = true
touches_runs (request_cancellation_op _ _) = true
touches_runs (retry_run_op _ _) = true
touches_runs (delete_repository_data_op _) = true
touches_runs _ = false

pub step-SameRuns :
    (o : Operation) (doc : ControlPlaneData) → touches_runs o ≡ false → SameRuns (step o doc) doc
unfolding step
step-SameRuns (add_incident_op x y) doc untouched = absurd (ground arith)
step-SameRuns (decide_op x y z) doc untouched = absurd (ground arith)
step-SameRuns (claim_run_op x y z) doc untouched = absurd (ground arith)
step-SameRuns (update_run_op x y z) doc untouched = absurd (ground arith)
step-SameRuns (request_cancellation_op x y) doc untouched = absurd (ground arith)
step-SameRuns (retry_run_op x y) doc untouched = absurd (ground arith)
step-SameRuns (delete_repository_data_op x) doc untouched = absurd (ground arith)
step-SameRuns (append_log_op l) doc untouched = (unfold SameRuns append_log in (refl, refl))
step-SameRuns (upsert_mapping_op m) doc untouched =
    (unfold SameRuns upsert_mapping in (ground arith, ground arith))
step-SameRuns (save_auth_session_op x) doc untouched =
    (unfold SameRuns save_auth_session in (refl, refl))
step-SameRuns (delete_auth_session_op id) doc untouched =
    (unfold SameRuns delete_auth_session in (refl, refl))
step-SameRuns (append_audit_op e) doc untouched = (unfold SameRuns append_audit in (refl, refl))
step-SameRuns (garbage_collect_op now) doc untouched =
    (unfold SameRuns garbage_collect in (refl, refl))
step-SameRuns (upsert_heartbeat_op h) doc untouched =
    (unfold SameRuns upsert_heartbeat in (ground arith, ground arith))
step-SameRuns (upsert_repository_op r) doc untouched =
    (unfold SameRuns upsert_repository in (ground arith, ground arith))
step-SameRuns (upsert_knowledge_op k) doc untouched =
    (unfold SameRuns upsert_knowledge in (ground arith, ground arith))
step-SameRuns (save_optimizer_analysis_op a) doc untouched =
    (save_optimizer_analysis-SameRuns a doc)
step-SameRuns (record_optimizer_decision_op a r d) doc untouched =
    (unfold record_optimizer_decision in change_analysis-SameRuns a r (add_decision d) doc)
step-SameRuns (record_optimizer_usage_op a r u) doc untouched =
    (unfold record_optimizer_usage in
      change_analysis-SameRuns a r (λ x. ok (record x { owner_usage = some u })) doc)
step-SameRuns (save_migration_specification_op a r e) doc untouched =
    (unfold save_migration_specification in
      change_analysis-SameRuns a r
        (λ x. ok (record x {
          migration_specifications =
              some (put_specification e (or_empty x.migration_specifications));
        }))
        doc)
step-SameRuns (record_migration_outcome_op a r o) doc untouched =
    (unfold record_migration_outcome in change_analysis-SameRuns a r (add_outcome o) doc)
step-SameRuns (upsert_question_op q) doc untouched =
    (unfold SameRuns upsert_question in (ground arith, ground arith))
step-SameRuns (answer_question_op id a k) doc untouched = (answer_question-SameRuns id a k doc)
