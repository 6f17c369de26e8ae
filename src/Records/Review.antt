-- ===== src/Records/Review.antt =====
-- Reviewers, approvals, attestations, sessions and the audit trail (src/control-plane/types.ts).
use softwareoath.Base.{ℕ, String, Bool, Option}
use softwareoath.Records.Values.{Timestamp, Number}
use softwareoath.Records.Run.{RunDecision}

pub data ApprovalDecision : Type 0 where
  approved rejected : ApprovalDecision

pub data Permission : Type 0 where
  admin maintain push : Permission

pub record ReviewerIdentity : Type 0 where
  pub provider_user_id : String
  pub login : String
  pub display_name : Option String
  pub avatar_url : Option String

pub record ReviewerAuthorization : Type 0 where
  pub repository : String
  pub permission : Permission
  pub verified_at : Timestamp

pub record ApprovalRecord : Type 0 where
  pub id : String
  pub run_id : String
  pub decision : ApprovalDecision
  pub actor : String
  pub identity : ReviewerIdentity
  pub authorization : ReviewerAuthorization
  pub reason : String
  pub created_at : Timestamp

pub data ServiceName : Type 0 where
  api worker : ServiceName

pub data ServiceStatus : Type 0 where
  ready stopping : ServiceStatus

pub record ServiceHeartbeatRecord : Type 0 where
  pub service : ServiceName
  pub instance_id : String
  pub status : ServiceStatus
  pub observed_at : Timestamp

pub record AttestedIncident : Type 0 where
  pub id : String
  pub source : String
  pub external_id : String
  pub payload_digest : String

pub record AttestedCost : Type 0 where
  pub status : String
  pub currency : String
  pub monthly_cost_change : Option Number
  pub percentage_change : Option Number
  pub baseline_sha256 : Option String
  pub proposed_sha256 : Option String

pub record AttestedVerification : Type 0 where
  pub decision : RunDecision
  pub selected_finding_resolved : Bool
  pub blocking_new_findings : ℕ
  pub cost : Option AttestedCost

pub record ReceiptSignature : Type 0 where
  pub key_id : String
  pub signed_at : Timestamp
  pub public_key : String
  pub value : String

pub record AttestedDecision : Type 0 where
  pub value : ApprovalDecision
  pub identity : ReviewerIdentity
  pub authorization : ReviewerAuthorization
  pub reason : String
  pub decided_at : Timestamp

pub record FinalAttestation : Type 0 where
  pub id : String
  pub run_id : String
  pub incident : AttestedIncident
  pub repository : String
  pub base_commit : String
  pub repair_commit : Option String
  pub repair_id : String
  pub branch : String
  pub pull_request_url : String
  pub verification : AttestedVerification
  pub receipt_sha256 : String
  pub receipt_key_id : String
  pub receipt_signature : String
  pub decision : AttestedDecision
  pub generated_at : Timestamp
  pub signature : ReceiptSignature

pub record AuthSessionRecord : Type 0 where
  pub id : String
  pub identity : ReviewerIdentity
  pub encrypted_access_token : String
  pub csrf_token : String
  pub created_at : Timestamp
  pub expires_at : Timestamp

pub data AuditAction : Type 0 where
  auth_login auth_logout github_install decision_allowed decision_denied : AuditAction
  knowledge_answer knowledge_add_promise oath_propose optimizer_analyze : AuditAction
  optimizer_observation_decide optimizer_usage_confirm : AuditAction
  optimizer_migration_spec_create optimizer_migration_spec_authorize : AuditAction
  optimizer_migration_outcome_record operator_run_cancel operator_run_retry : AuditAction
  operator_garbage_collect operator_audit_export customer_data_delete : AuditAction
  public_scan_request : AuditAction

pub data AuditOutcome : Type 0 where
  success denied : AuditOutcome

pub record AuditEventRecord : Type 0 where
  pub id : String
  pub action : AuditAction
  pub outcome : AuditOutcome
  pub actor : Option ReviewerIdentity
  pub run_id : Option String
  pub repository : Option String
  pub detail : String
  pub created_at : Timestamp
