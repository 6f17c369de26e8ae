-- ===== src/Oath/Types.antt =====
-- The types of src/domain/types.ts, and the values that the YAML parser returns.
use softwareoath.Base.{ℕ, String, Bool, Option, none, some, List, [], ◌∷◌, ◌==◌, if◌then◌else◌}
use softwareoath.Records.Values.{Number, Timestamp}
use softwareoath.Records.Run.{RunDecision}

-- A parsed value. An array has an identity, by which `===` compares it.
mutual
  pub data Value : Type 0 where
    null : Value
    bool : Bool → Value
    num : Number → Value
    text : String → Value
    arr : ℕ → Items → Value
    obj : Fields → Value

  pub data Items : Type 0 where
    nil : Items
    cons : Value → Items → Items

  pub data Fields : Type 0 where
    end : Fields
    field : String → Value → Fields → Fields

unfoldable pub items : Items → List Value
items nil = []
items (cons v vs) = v ∷ items vs

-- `value.name`; a missing property is undefined.
unfoldable pub member : String → Fields → Option Value
member name end = none
member name (field key v rest) = if key == name then some v else member name rest

pub data RuleSeverity : Type 0 where
  critical high medium low : RuleSeverity

pub data EvidenceKind : Type 0 where
  command test review : EvidenceKind

pub data EvidenceStatus : Type 0 where
  passed failed human_review : EvidenceStatus

-- A value of which `String(value)` is one of the words of `A`: the word itself, or an array that
-- holds one such value and nothing else, with its identity.
pub data Word (A : Type 0) : Type 0 where
  exact : A → Word A
  wrapped : ℕ → A → Word A

pub record EvidenceRequirement : Type 0 where
  pub kind : Word EvidenceKind
  pub command : Option String
  pub path : Option String
  pub required : Bool
  pub timeout_ms : Option Number

pub record RuleRepair : Type 0 where
  pub allowed_paths : List String
  pub automatic_candidate : Bool

pub record OathRule : Type 0 where
  pub id : String
  pub title : String
  pub description : String
  pub severity : Word RuleSeverity
  pub evidence : List EvidenceRequirement
  pub repair : Option RuleRepair

pub record CostPolicy : Type 0 where
  pub enabled : Bool
  pub require_estimate : Bool
  pub currency : String
  pub max_monthly_increase : Option Number
  pub max_percentage_increase : Option Number

pub record Application : Type 0 where
  pub name : String
  pub repository : String
  pub default_branch : String

-- `version` is 1 and `allowAutomaticMerge` is false in every oath.
pub record SoftwareOath : Type 0 where
  pub application : Application
  pub require_human_for : List RuleSeverity
  pub cost : Option CostPolicy
  pub rules : List OathRule

pub record EvidenceRecord : Type 0 where
  pub rule_id : String
  pub kind : Word EvidenceKind
  pub status : EvidenceStatus
  pub summary : String
  pub command : Option String
  pub exit_code : Option ℕ
  pub duration_ms : Option ℕ
  pub output_sha256 : Option String
  pub runner : Option String

pub record RunIncident : Type 0 where
  pub title : String
  pub source : String
  pub detected_at : Timestamp

pub record RepairRun : Type 0 where
  pub id : String
  pub incident : RunIncident
  pub branch : String
  pub commit : String
  pub summary : String
  pub files : List String
  pub diff : List String
  pub evidence : List EvidenceRecord

-- Why a rule has its status. Missing evidence is named.
pub data Reason : Type 0 where
  check_failed : Reason
  missing_evidence : List (Word EvidenceKind) → Reason
  judgment_open : Reason
  all_passed : Reason

pub record RuleEvaluation : Type 0 where
  pub rule : OathRule
  pub status : EvidenceStatus
  pub evidence : List EvidenceRecord
  pub reason : Reason

pub record OathSummary : Type 0 where
  pub passed : ℕ
  pub failed : ℕ
  pub human_review : ℕ

pub record OathReport : Type 0 where
  pub run_id : String
  pub application : String
  pub decision : RunDecision
  pub generated_at : Timestamp
  pub summary : OathSummary
  pub rules : List RuleEvaluation
