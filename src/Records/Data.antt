-- ===== src/Records/Data.antt =====
-- The document that the control-plane store keeps (src/control-plane/types.ts), and how an
-- operation on it ends.
use softwareoath.Base.{String, Option, List, []}
use softwareoath.Records.Run.{IncidentRecord, HostedRunRecord, RunLogRecord, RunStatus}
use softwareoath.Records.Review.{
  ApprovalRecord, FinalAttestation, AuthSessionRecord, AuditEventRecord, ServiceHeartbeatRecord,
}
use softwareoath.Records.Repository.{
  RepositoryMapping, RepositoryRegistration, RepositoryKnowledgeRecord, RepositoryQuestionRecord,
}
use softwareoath.Records.Optimizer.{OptimizerAnalysisRecordV1}

pub record ControlPlaneData : Type 0 where
  pub incidents : List IncidentRecord
  pub runs : List HostedRunRecord
  pub approvals : List ApprovalRecord
  pub logs : List RunLogRecord
  pub mappings : List (RepositoryMapping Option)
  pub attestations : List FinalAttestation
  pub auth_sessions : List AuthSessionRecord
  pub audit_events : List AuditEventRecord
  pub repositories : List (RepositoryRegistration Option)
  pub knowledge : List (RepositoryKnowledgeRecord Option)
  pub optimizer_analyses : List (OptimizerAnalysisRecordV1 Option)
  pub questions : List RepositoryQuestionRecord
  pub heartbeats : List ServiceHeartbeatRecord

abbrev pub empty_data : ControlPlaneData
empty_data = record {
  incidents = [];
  runs = [];
  approvals = [];
  logs = [];
  mappings = [];
  attestations = [];
  auth_sessions = [];
  audit_events = [];
  repositories = [];
  knowledge = [];
  optimizer_analyses = [];
  questions = [];
  heartbeats = [];
}

-- The errors that the store throws, with the values that their messages name.
pub data StoreError : Type 0 where
  foreign_attestation : StoreError
  run_not_found : String → StoreError
  not_awaiting_approval : String → StoreError
  not_retryable : String → RunStatus → StoreError
  unregistered_analysis : StoreError
  analysis_ownership : StoreError
  analysis_not_found : StoreError
  decision_exists : StoreError
  outcome_exists : StoreError
  question_not_found : String → StoreError
  already_answered : String → StoreError
  foreign_knowledge : StoreError
  broken_document : StoreError
  not_json : StoreError

pub data Result (A : Type 0) : Type 0 where
  ok : A → Result A
  err : StoreError → Result A
