-- ===== src/Repair/Findings.antt =====
-- Findings and reports of the detector (src/detector/types.ts), and the proof that a repair leaves
-- (src/repair/types.ts).
use softwareoath.Base.{ℕ, String, Bool, Option, List}
use softwareoath.Records.Values.{Timestamp}
use softwareoath.Oath.Types.{RuleSeverity}

pub data FindingCategory : Type 0 where
  security dependencies maintainability : FindingCategory

pub data UpdateKind : Type 0 where
  patch minor major unknown : UpdateKind

pub record FindingEvidence : Type 0 where
  pub path : Option String
  pub line : Option ℕ
  pub detail : String

pub record FindingRepair : Type 0 where
  pub objective : String
  pub allowed_paths : List String
  pub automatic_candidate : Bool

pub record FindingDependency : Type 0 where
  pub ecosystem : String
  pub package_name : String
  pub current_version : Option String
  pub target_version : Option String
  pub latest_version : Option String
  pub manifest_path : String
  pub lockfile_path : Option String
  pub update_kind : Option UpdateKind
  pub advisory_ids : Option (List String)

-- A finding's severity has the four values of a rule's severity.
pub record RepositoryFinding : Type 0 where
  pub id : String
  pub detector : String
  pub category : FindingCategory
  pub severity : RuleSeverity
  pub title : String
  pub summary : String
  pub evidence : FindingEvidence
  pub repair : FindingRepair
  pub dependency : Option FindingDependency

pub record InspectionSummary : Type 0 where
  pub total : ℕ
  pub critical : ℕ
  pub high : ℕ
  pub medium : ℕ
  pub low : ℕ
  pub automatic_candidates : ℕ

-- The capability plan of a report is not read here.
pub record InspectionReport : Type 0 where
  pub repository_path : String
  pub generated_at : Timestamp
  pub summary : InspectionSummary
  pub findings : List RepositoryFinding

pub record RepairProof : Type 0 where
  pub selected_finding_id : String
  pub selected_finding_resolved : Bool
  pub remaining_selected_finding : Option RepositoryFinding
  pub before : InspectionSummary
  pub after : InspectionSummary
  pub new_findings : List RepositoryFinding
  pub blocking_new_findings : List RepositoryFinding
