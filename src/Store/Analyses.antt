-- ===== src/Store/Analyses.antt =====
-- Optimizer analyses and what owners add to them: `listOptimizerAnalyses` to
-- `recordMigrationOutcome` (src/control-plane/store.ts).
pub mod Laws
use softwareoath.Base.{
  String, Bool, not, ◌||◌, Option, none, some, List, [], ◌∷◌, ◌++◌, find, filter, any, modify_first,
  leb, if◌then◌else◌, ◌==◌,
}
use softwareoath.Base.Sort.{sort}
use softwareoath.Records.Values.{Property, assign, settle}
use softwareoath.Records.Optimizer.{
  OptimizerAnalysisRecordV1, OwnerObservationDecisionV1, OwnerUsageInputV1,
  SignedMigrationSpecificationV1, MigrationOutcomeV1,
}
use softwareoath.Records.Data.{
  ControlPlaneData, Result, ok, err, unregistered_analysis, analysis_ownership, analysis_not_found,
  decision_exists, outcome_exists,
}
use softwareoath.Store.Document.{or_empty}
use softwareoath.Store.Registry.{get_repository}

abbrev pub Analysis : Type 0
Analysis = OptimizerAnalysisRecordV1 Option

unfoldable pub list_optimizer_analyses : String → ControlPlaneData → List Analysis
list_optimizer_analyses repository doc =
    sort (λ a b. leb b.created_at a.created_at)
      (filter (λ a. a.repository == repository) doc.optimizer_analyses)

unfoldable pub get_optimizer_analysis : String → ControlPlaneData → Option Analysis
get_optimizer_analysis id doc = find (λ a. a.id == id) doc.optimizer_analyses

-- `Object.assign(existing, analysis, …)`: what owners added stays.
unfoldable pub merge_analysis : OptimizerAnalysisRecordV1 Property → Analysis → Analysis
merge_analysis analysis existing = record {
  id = analysis.id;
  tenant_key = analysis.tenant_key;
  repository_id = analysis.repository_id;
  repository = analysis.repository;
  commit = analysis.commit;
  status = analysis.status;
  files_analyzed = analysis.files_analyzed;
  bytes_analyzed = analysis.bytes_analyzed;
  signals = analysis.signals;
  observations = analysis.observations;
  capabilities = analysis.capabilities;
  owner_decisions = existing.owner_decisions;
  owner_usage = existing.owner_usage;
  migration_specifications = some (or_empty existing.migration_specifications);
  migration_outcomes = some (or_empty existing.migration_outcomes);
  warnings = analysis.warnings;
  analyzer_version = analysis.analyzer_version;
  created_at = existing.created_at;
  completed_at = analysis.completed_at;
  unknowns = analysis.unknowns;
  error = assign analysis.error existing.error;
}

unfoldable pub new_analysis : OptimizerAnalysisRecordV1 Property → Analysis
new_analysis analysis = record {
  id = analysis.id;
  tenant_key = analysis.tenant_key;
  repository_id = analysis.repository_id;
  repository = analysis.repository;
  commit = analysis.commit;
  status = analysis.status;
  files_analyzed = analysis.files_analyzed;
  bytes_analyzed = analysis.bytes_analyzed;
  signals = analysis.signals;
  observations = analysis.observations;
  capabilities = analysis.capabilities;
  owner_decisions = analysis.owner_decisions;
  owner_usage = analysis.owner_usage;
  migration_specifications = analysis.migration_specifications;
  migration_outcomes = analysis.migration_outcomes;
  warnings = analysis.warnings;
  analyzer_version = analysis.analyzer_version;
  created_at = analysis.created_at;
  completed_at = analysis.completed_at;
  unknowns = analysis.unknowns;
  error = settle analysis.error;
}

-- The part of `saveOptimizerAnalysis` that runs inside `update`.
unfoldable pub store_analysis :
    OptimizerAnalysisRecordV1 Property → ControlPlaneData → Result (ControlPlaneData × Analysis)
unfolding merge_analysis new_analysis
store_analysis analysis doc = elim (find (λ a. a.id == analysis.id) doc.optimizer_analyses) [
  | none ↦ ok (
    record doc { optimizer_analyses = doc.optimizer_analyses ++ new_analysis analysis ∷ [] },
    new_analysis analysis,
  )
  | some existing ↦
      if not (existing.repository == analysis.repository)
        || not (existing.tenant_key == analysis.tenant_key)
      then err analysis_ownership
      else ok (
        record doc {
          optimizer_analyses =
              modify_first (λ a. a.id == analysis.id) (λ _. merge_analysis analysis existing)
                doc.optimizer_analyses;
        },
        merge_analysis analysis existing,
      )
]

-- The check of the registration reads the document first, and no other operation comes between.
unfoldable pub save_optimizer_analysis :
    OptimizerAnalysisRecordV1 Property → ControlPlaneData → Result (ControlPlaneData × Analysis)
unfolding store_analysis get_repository
save_optimizer_analysis analysis doc = elim (get_repository analysis.repository doc) [
  | none ↦ err unregistered_analysis
  | some registration ↦
      if registration.id == analysis.repository_id
      then store_analysis analysis doc
      else err unregistered_analysis
]

-- What the four methods that follow share: find the analysis, check its repository, change it.
unfoldable pub change_analysis :
    String
    → String
    → (Analysis → Result Analysis)
    → ControlPlaneData
    → Result (ControlPlaneData × Analysis)
change_analysis analysis_id repository change doc =
    elim (find (λ a. a.id == analysis_id) doc.optimizer_analyses) [
      | none ↦ err analysis_not_found
      | some analysis ↦
          if not (analysis.repository == repository)
          then err analysis_not_found
          else elim (change analysis) [
            | err e ↦ err e
            | ok changed ↦ ok (
              record doc {
                optimizer_analyses =
                    modify_first (λ a. a.id == analysis_id) (λ _. changed) doc.optimizer_analyses;
              },
              changed,
            )
          ]
    ]

unfoldable pub add_decision : OwnerObservationDecisionV1 → Analysis → Result Analysis
add_decision decision analysis =
    if any (λ d. d.id == decision.id) analysis.owner_decisions
    then err decision_exists
    else ok (record analysis { owner_decisions = analysis.owner_decisions ++ decision ∷ [] })

unfoldable pub record_optimizer_decision :
    String
    → String
    → OwnerObservationDecisionV1
    → ControlPlaneData
    → Result (ControlPlaneData × Analysis)
unfolding change_analysis add_decision
record_optimizer_decision analysis_id repository decision =
    change_analysis analysis_id repository (add_decision decision)

unfoldable pub record_optimizer_usage :
    String → String → OwnerUsageInputV1 → ControlPlaneData → Result (ControlPlaneData × Analysis)
unfolding change_analysis
record_optimizer_usage analysis_id repository usage =
    change_analysis analysis_id repository (λ a. ok (record a { owner_usage = some usage }))

abbrev pub same_specification :
    SignedMigrationSpecificationV1 → SignedMigrationSpecificationV1 → Bool
same_specification a b = a.specification.id == b.specification.id

unfoldable pub put_specification :
    SignedMigrationSpecificationV1
    → List SignedMigrationSpecificationV1
    → List SignedMigrationSpecificationV1
put_specification envelope xs =
    if any (λ e. same_specification e envelope) xs
    then modify_first (λ e. same_specification e envelope) (λ _. envelope) xs
    else xs ++ envelope ∷ []

unfoldable pub save_migration_specification :
    String
    → String
    → SignedMigrationSpecificationV1
    → ControlPlaneData
    → Result (ControlPlaneData × Analysis)
unfolding change_analysis put_specification
save_migration_specification analysis_id repository envelope =
    change_analysis analysis_id repository (λ a. ok (record a {
      migration_specifications =
          some (put_specification envelope (or_empty a.migration_specifications));
    }))

unfoldable pub add_outcome : MigrationOutcomeV1 → Analysis → Result Analysis
add_outcome outcome analysis =
    if any (λ o. o.id == outcome.id) (or_empty analysis.migration_outcomes)
    then err outcome_exists
    else ok (record analysis {
      migration_outcomes = some (or_empty analysis.migration_outcomes ++ outcome ∷ []);
    })

unfoldable pub record_migration_outcome :
    String → String → MigrationOutcomeV1 → ControlPlaneData → Result (ControlPlaneData × Analysis)
unfolding change_analysis add_outcome
record_migration_outcome analysis_id repository outcome =
    change_analysis analysis_id repository (add_outcome outcome)
