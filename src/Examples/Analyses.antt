-- ===== src/Examples/Analyses.antt =====
-- The laws of optimizer analyses, at an analysis of the repository of `Examples.Data`.
use softwareoath.Records.Review.{admin}
use softwareoath.Examples.Data.{shop}
use softwareoath.Base.{◌∷◌, ◌≡◌, Option, none, [], refl, false}
use softwareoath.Records.Values.{Property}
use softwareoath.Records.Data.{ControlPlaneData, ok}
use softwareoath.Store.Analyses.{Analysis, save_optimizer_analysis, new_analysis, merge_analysis}
use softwareoath.Records.Optimizer.{
  OptimizerAnalysisRecordV1, OwnerObservationDecisionV1, confirmed, completed,
}
use softwareoath.Records.Repository.{RepositoryRegistration, disabled}

abbrev registered : RepositoryRegistration Option
registered = record {
  id = "g1";
  repository = "acme/shop";
  clone_url = "https://example.org/shop.git";
  default_branch = "main";
  installation_id = none;
  local_path = none;
  schedule = record { mode = disabled; cron = none; timezone = "UTC" };
  policy = record {
    max_pull_requests_per_run = 1;
    max_ci_repair_attempts = 2;
    allow_major_package_updates = false;
  };
  next_run_at = none;
  last_run_at = none;
  created_at = 60;
  updated_at = 60;
}

abbrev analysis_one : OptimizerAnalysisRecordV1 Property
analysis_one = record {
  id = "o1";
  tenant_key = "acme";
  repository_id = "g1";
  repository = "acme/shop";
  commit = "c1";
  status = completed;
  files_analyzed = 10;
  bytes_analyzed = 1000;
  signals = [];
  observations = [];
  capabilities = [];
  owner_decisions = [];
  owner_usage = none;
  migration_specifications = none;
  migration_outcomes = none;
  warnings = [];
  analyzer_version = "1";
  created_at = 80;
  completed_at = 90;
  unknowns = [];
  error = none;
}

abbrev decision_one : OwnerObservationDecisionV1
decision_one = record {
  id = "d1";
  service_id = "sendgrid";
  decision = confirmed;
  corrected_status = none;
  corrected_capability_ids = none;
  reason = "We use it.";
  actor = record { provider_user_id = "7"; login = "ann" };
  permission = admin;
  verified_at = 95;
  created_at = 95;
}

-- The analysis as it is stored, with and without the decision of its owner.
abbrev stored_one : Analysis
stored_one = new_analysis analysis_one

abbrev decided_one : Analysis
decided_one = record stored_one { owner_decisions = decision_one ∷ [] }

abbrev analysed_shop : ControlPlaneData
analysed_shop = record shop { repositories = registered ∷ []; optimizer_analyses = stored_one ∷ [] }

abbrev reviewed_shop : ControlPlaneData
reviewed_shop = record analysed_shop { optimizer_analyses = decided_one ∷ [] }

-- A later analysis under the same id.
abbrev analysis_again : OptimizerAnalysisRecordV1 Property
analysis_again = record analysis_one { commit = "c2"; created_at = 180; completed_at = 190 }

abbrev merged_one : Analysis
merged_one = merge_analysis analysis_again decided_one

abbrev merged_shop : ControlPlaneData
merged_shop = record analysed_shop { optimizer_analyses = merged_one ∷ [] }

saved_again : save_optimizer_analysis analysis_again reviewed_shop ≡ ok (merged_shop, merged_one)
unfolding save_optimizer_analysis new_analysis merge_analysis
saved_again = refl
