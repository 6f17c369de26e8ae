-- ===== src/Records/Repository.antt =====
-- Mappings, registrations, knowledge and questions of a repository (src/control-plane/types.ts).
-- `O` says how an optional property is given: `Option` in the store, `Property` in an argument
-- that `Object.assign` reads.
use softwareoath.Base.{ℕ, String, Bool, Option, List}
use softwareoath.Records.Values.{Timestamp, Number}
use softwareoath.Records.Review.{ReviewerIdentity, ReviewerAuthorization}

pub record RepositoryMapping (O : Type 0 → Type 0) : Type 0 where
  pub id : String
  pub sentry_project : String
  pub repository : String
  pub clone_url : String
  pub default_branch : String
  pub installation_id : O ℕ
  pub local_path : O String
  pub created_at : Timestamp
  pub updated_at : Timestamp

pub data ScheduleMode : Type 0 where
  disabled daily weekly custom : ScheduleMode

pub record Schedule : Type 0 where
  pub mode : ScheduleMode
  pub cron : Option String
  pub timezone : String

-- `automaticMerge` has the one value false.
pub record RepositoryPolicy : Type 0 where
  pub max_pull_requests_per_run : ℕ
  pub max_ci_repair_attempts : ℕ
  pub allow_major_package_updates : Bool

pub record RepositoryRegistration (O : Type 0 → Type 0) : Type 0 where
  pub id : String
  pub repository : String
  pub clone_url : String
  pub default_branch : String
  pub installation_id : O ℕ
  pub local_path : O String
  pub schedule : Schedule
  pub policy : RepositoryPolicy
  pub next_run_at : O Timestamp
  pub last_run_at : O Timestamp
  pub created_at : Timestamp
  pub updated_at : Timestamp

pub data KnowledgeKind : Type 0 where
  observed_technical_fact inferred_technical_fact owner_confirmed_business_fact : KnowledgeKind
  owner_confirmed_business_rule repository_enforced_rule temporary_assumption : KnowledgeKind
  accepted_risk historical_observation : KnowledgeKind

pub data ScopeType : Type 0 where
  repository workspace component workflow : ScopeType

pub record KnowledgeScope : Type 0 where
  pub type : ScopeType
  pub value : String

pub data SourceType : Type 0 where
  scan repository owner_answer run_outcome : SourceType

pub record KnowledgeSource : Type 0 where
  pub type : SourceType
  pub run_id : Option String
  pub commit : Option String
  pub question_id : Option String
  pub evidence : List String

pub record RepositoryKnowledgeRecord (O : Type 0 → Type 0) : Type 0 where
  pub id : String
  pub repository : String
  pub kind : KnowledgeKind
  pub statement : String
  pub scope : KnowledgeScope
  pub source : KnowledgeSource
  pub confidence : Number
  pub related_paths : List String
  pub blocks_repair : Bool
  pub first_observed_at : Timestamp
  pub last_verified_at : Timestamp
  pub first_observed_commit : O String
  pub last_verified_commit : O String
  pub confirmed_by : O ReviewerIdentity
  pub confirmed_authorization : O ReviewerAuthorization
  pub review_at : O Timestamp
  pub expires_at : O Timestamp
  pub created_at : Timestamp
  pub updated_at : Timestamp

pub data QuestionStatus : Type 0 where
  open_question answered : QuestionStatus

pub data Blocking : Type 0 where
  never affected_repair whole_repository : Blocking

pub record QuestionAnswer : Type 0 where
  pub value : String
  pub identity : ReviewerIdentity
  pub authorization : ReviewerAuthorization
  pub answered_at : Timestamp

pub record RepositoryQuestionRecord : Type 0 where
  pub id : String
  pub repository : String
  pub key : String
  pub status : QuestionStatus
  pub question : String
  pub why : String
  pub evidence : List String
  pub affects : List String
  pub suggested_answers : List String
  pub blocking : Blocking
  pub answer_knowledge_kind : KnowledgeKind
  pub answer : Option QuestionAnswer
  pub knowledge_id : Option String
  pub created_at : Timestamp
  pub updated_at : Timestamp
