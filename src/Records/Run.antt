-- ===== src/Records/Run.antt =====
-- Incidents, hosted runs and their logs (src/control-plane/types.ts).
use softwareoath.Base.{ℕ, String, Bool, Option}
use softwareoath.Records.Values.{Timestamp, Property}

pub data RunDecision : Type 0 where
  blocked review_required ready : RunDecision

pub record IncidentRecord : Type 0 where
  pub id : String
  pub source : String
  pub external_id : String
  pub title : String
  pub status : String
  pub priority : Option String
  pub url : Option String
  pub project : Option String
  pub release : Option String
  pub received_at : Timestamp
  pub payload_digest : String

pub data RunStatus : Type 0 where
  received reproducing repairing verifying ci_pending ci_failed awaiting_approval : RunStatus
  completed blocked retry_wait cancelled : RunStatus

pub record HostedRunRecord : Type 0 where
  pub id : String
  pub incident_id : String
  pub repository : String
  pub commit : Option String
  pub migration_specification_id : Option String
  pub repair_commit : Option String
  pub status : RunStatus
  pub decision : Option RunDecision
  pub repair_id : Option String
  pub pull_request_url : Option String
  pub branch : Option String
  pub error : Option String
  pub attempts : ℕ
  pub max_attempts : ℕ
  pub next_attempt_at : Option Timestamp
  pub lease_owner : Option String
  pub lease_expires_at : Option Timestamp
  pub cancel_requested : Bool
  pub created_at : Timestamp
  pub updated_at : Timestamp

pub data LogLevel : Type 0 where
  info warning error : LogLevel

pub record RunLogRecord : Type 0 where
  pub id : String
  pub run_id : String
  pub level : LogLevel
  pub message : String
  pub created_at : Timestamp

-- The properties that an update may name. A status or a flag is never given as undefined.
pub record RunUpdate : Type 0 where
  pub status : Option RunStatus
  pub decision : Property RunDecision
  pub repair_id : Property String
  pub pull_request_url : Property String
  pub branch : Property String
  pub error : Property String
  pub next_attempt_at : Property Timestamp
  pub lease_owner : Property String
  pub lease_expires_at : Property Timestamp
  pub cancel_requested : Option Bool
  pub commit : Property String
  pub migration_specification_id : Property String
  pub repair_commit : Property String
