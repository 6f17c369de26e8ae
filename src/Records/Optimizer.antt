-- ===== src/Records/Optimizer.antt =====
-- The records that the optimizer stores (src/optimizer/types.ts). A property `version: 1` has one
-- value and is left out.
use softwareoath.Base.{ℕ, String, Bool, Option, List}
use softwareoath.Records.Values.{Timestamp, Number}
use softwareoath.Records.Review.{Permission, ReceiptSignature}

pub data OptimizerProvenance : Type 0 where
  observed inferred owner_confirmed provider_derived assumed estimated : OptimizerProvenance

pub data EvidenceConfidence : Type 0 where
  very_high high medium low : EvidenceConfidence

pub data CapabilityRequirement : Type 0 where
  required optional : CapabilityRequirement

pub data ObservationStatus : Type 0 where
  active ambiguous inactive : ObservationStatus

pub record SourceEvidenceV1 : Type 0 where
  pub provenance : OptimizerProvenance
  pub confidence : EvidenceConfidence
  pub file : String
  pub line_start : Option ℕ
  pub line_end : Option ℕ
  pub reason : String
  pub snippet_sha256 : Option String

pub record ServiceObservationV1 : Type 0 where
  pub service_id : String
  pub category : String
  pub status : ObservationStatus
  pub confidence : EvidenceConfidence
  pub evidence : List SourceEvidenceV1
  pub analyzed_commit : String

pub data OwnerDecision : Type 0 where
  confirmed rejected corrected : OwnerDecision

pub record GithubActor : Type 0 where
  pub provider_user_id : String
  pub login : String

pub record OwnerObservationDecisionV1 : Type 0 where
  pub id : String
  pub service_id : String
  pub decision : OwnerDecision
  pub corrected_status : Option ObservationStatus
  pub corrected_capability_ids : Option (List String)
  pub reason : String
  pub actor : GithubActor
  pub permission : Permission
  pub verified_at : Timestamp
  pub created_at : Timestamp

pub record CapabilityEvidenceV1 : Type 0 where
  pub service_id : String
  pub capability_id : String
  pub requirement : CapabilityRequirement
  pub confidence : EvidenceConfidence
  pub evidence : List SourceEvidenceV1
  pub owner_confirmed : Bool

pub record OwnerUsageInputV1 : Type 0 where
  pub monthly_volume : Option Number
  pub current_monthly_bill : Option Number
  pub current_plan : Option String
  pub currency : String
  pub region : Option String
  pub engineering_hourly_cost : Option Number
  pub dedicated_ip_required : Option Bool
  pub average_attachment_megabytes : Option Number
  pub critical_operational_requirements : Option (List String)
  pub confirmed_at : Timestamp
  pub confirmed_by : String

pub record PriceRangeV1 : Type 0 where
  pub minimum : Number
  pub likely : Number
  pub maximum : Number

pub record MigrationSpecificationV1 : Type 0 where
  pub id : String
  pub repository : String
  pub base_commit : String
  pub source_service_id : String
  pub target_service_id : String
  pub recommendation_sha256 : String
  pub evidence_sha256 : String
  pub required_behavior : List String
  pub known_incompatibilities : List String
  pub allowed_paths : List String
  pub configuration_changes : List String
  pub infrastructure_changes : List String
  pub migration_sequence : List String
  pub verification_requirements : List String
  pub rollout_plan : List String
  pub rollback_plan : List String
  pub expected_monthly_cost : PriceRangeV1
  pub assumptions : List String
  pub unresolved_decisions : List String
  pub generated_at : Timestamp
  pub generator_version : String

pub record MigrationAuthorization : Type 0 where
  pub actor : GithubActor
  pub permission : Permission
  pub reason : String
  pub authorized_at : Timestamp
  pub run_id : String

pub data RecommendationType : Type 0 where
  keep investigate replace insufficient_data : RecommendationType

pub data CompatibilityStatus : Type 0 where
  compatible compatible_with_changes unverified incompatible : CompatibilityStatus

pub record RecommendationV1 : Type 0 where
  pub type : RecommendationType
  pub source_service_id : String
  pub target_service_id : Option String
  pub compatibility_status : CompatibilityStatus
  pub annual_savings : PriceRangeV1
  pub risk_adjusted_annual_value : PriceRangeV1
  pub payback_months : PriceRangeV1
  pub reasons : List String
  pub unknowns : List String
  pub policy_version : String
  pub input_sha256 : String

pub record MigrationSpecificationProseV1 : Type 0 where
  pub summary : String
  pub preserved_behavior : List String
  pub sequence : List String
  pub verification : List String
  pub rollout : List String
  pub rollback : List String

pub record SignedMigrationSpecificationV1 : Type 0 where
  pub specification : MigrationSpecificationV1
  pub recommendation : RecommendationV1
  pub prose : MigrationSpecificationProseV1
  pub catalog_version : String
  pub pricing_version : String
  pub prompt_version : String
  pub model_version : String
  pub signature : ReceiptSignature
  pub authorization : Option MigrationAuthorization

pub data OutcomeStatus : Type 0 where
  verified_draft_pr merged rejected abandoned : OutcomeStatus

pub record MigrationOutcomeV1 : Type 0 where
  pub id : String
  pub tenant_key : String
  pub repository_id : String
  pub repository : String
  pub base_commit : String
  pub specification_sha256 : String
  pub run_id : String
  pub status : OutcomeStatus
  pub pull_request_url : Option String
  pub verified_requirements : List String
  pub predicted_engineering_hours : PriceRangeV1
  pub reviewed_engineering_hours : Option Number
  pub realized_monthly_savings : Option PriceRangeV1
  pub reviewed_by : Option String
  pub reviewed_at : Option Timestamp
  pub recorded_at : Timestamp
  pub provenance : OptimizerProvenance
  pub content_sha256 : String

pub data AnalysisStatus : Type 0 where
  completed failed : AnalysisStatus

pub record OptimizerSignalV1 : Type 0 where
  pub kind : String
  pub value : String
  pub evidence : SourceEvidenceV1

-- `O` is as in `Records.Repository`.
pub record OptimizerAnalysisRecordV1 (O : Type 0 → Type 0) : Type 0 where
  pub id : String
  pub tenant_key : String
  pub repository_id : String
  pub repository : String
  pub commit : String
  pub status : AnalysisStatus
  pub files_analyzed : ℕ
  pub bytes_analyzed : ℕ
  pub signals : List OptimizerSignalV1
  pub observations : List ServiceObservationV1
  pub capabilities : List CapabilityEvidenceV1
  pub owner_decisions : List OwnerObservationDecisionV1
  pub owner_usage : Option OwnerUsageInputV1
  pub migration_specifications : Option (List SignedMigrationSpecificationV1)
  pub migration_outcomes : Option (List MigrationOutcomeV1)
  pub warnings : List String
  pub analyzer_version : String
  pub created_at : Timestamp
  pub completed_at : Timestamp
  pub unknowns : List String
  pub error : O String
