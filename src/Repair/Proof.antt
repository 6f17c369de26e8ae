-- ===== src/Repair/Proof.antt =====
-- The proof of a repair and the decision on it: `compareRepairProof`, `repairDecision`
-- (src/repair/proof.ts), `chooseFinding` and `decisionWithCost` (src/repair/run.ts).
pub mod Laws
use softwareoath.Base.{
  String, Bool, true, false, not, ◌&&◌, ◌||◌, Option, none, some, List, [], ◌∷◌, filter, find, any,
  ◌==◌, if◌then◌else◌,
}
use softwareoath.Records.Run.{RunDecision, blocked, review_required, ready}
use softwareoath.Oath.Types.{RuleSeverity, critical, high, medium, low}
use softwareoath.Repair.Findings.{RepositoryFinding, InspectionReport, RepairProof}

abbrev pub is_blocking : RuleSeverity → Bool
is_blocking critical = true
is_blocking high = true
is_blocking _ = false

abbrev pub is_nothing {ℓ} : {A : Type ℓ} → Option A → Bool
is_nothing none = true
is_nothing (some _) = false

-- `new Map(findings.map(f => [f.id, f])).get(id)`: the last finding with the id.
unfoldable pub last_by_id : String → List RepositoryFinding → Option RepositoryFinding
last_by_id id [] = none
last_by_id id (f ∷ fs) = elim (last_by_id id fs) [
  | some g ↦ some g
  | none ↦ if f.id == id then some f else none
]

-- Whether the finding was there before with a severity that blocks.
unfoldable pub blocked_before : List RepositoryFinding → String → Bool
unfolding last_by_id
blocked_before before id = elim (last_by_id id before) [
  | none ↦ false
  | some f ↦ is_blocking f.severity
]

unfoldable pub compare_repair_proof :
    InspectionReport → InspectionReport → RepositoryFinding → RepairProof
unfolding blocked_before
compare_repair_proof before after selected =
    let remaining = find (λ f. f.id == selected.id) after.findings in
    record {
      selected_finding_id = selected.id;
      selected_finding_resolved = is_nothing remaining;
      remaining_selected_finding = remaining;
      before = before.summary;
      after = after.summary;
      new_findings = filter (λ f. not (any (λ b. b.id == f.id) before.findings)) after.findings;
      blocking_new_findings =
          filter (λ f. is_blocking f.severity && not (blocked_before before.findings f.id))
            after.findings;
    }

abbrev pub is_blocked : RunDecision → Bool
is_blocked blocked = true
is_blocked _ = false

abbrev pub is_review : RunDecision → Bool
is_review review_required = true
is_review _ = false

abbrev pub is_none_of {ℓ} : {A : Type ℓ} → List A → Bool
is_none_of [] = true
is_none_of (_ ∷ _) = false

unfoldable pub repair_decision : Bool → Bool → RunDecision → RepairProof → RunDecision
repair_decision within_allowed_scope has_patch verification proof =
    if not within_allowed_scope
      || not has_patch
      || is_blocked verification
      || not proof.selected_finding_resolved
      || not (is_none_of proof.blocking_new_findings)
    then blocked
    else verification

pub data CostStatus : Type 0 where
  not_applicable cost_passed cost_review_required cost_blocked : CostStatus

abbrev pub cost_blocks : Option CostStatus → Bool
cost_blocks (some cost_blocked) = true
cost_blocks _ = false

abbrev pub cost_asks : Option CostStatus → Bool
cost_asks (some cost_review_required) = true
cost_asks _ = false

unfoldable pub decision_with_cost : RunDecision → Option CostStatus → RunDecision
decision_with_cost decision cost =
    if is_blocked decision || cost_blocks cost
    then blocked
    else if is_review decision || cost_asks cost
    then review_required
    else decision

-- `none` where the function throws.
unfoldable pub choose_finding : List RepositoryFinding → Option String → Option RepositoryFinding
choose_finding findings none = find (λ f. f.repair.automatic_candidate) findings
choose_finding findings (some id) =
    if id == ""
    then find (λ f. f.repair.automatic_candidate) findings
    else find (λ f. f.id == id) findings

-- The decision of `runRepair` from what it has measured.
unfoldable pub receipt_decision :
    Bool
    → Bool
    → RunDecision
    → InspectionReport
    → InspectionReport
    → RepositoryFinding
    → Option CostStatus
    → RunDecision
unfolding compare_repair_proof repair_decision decision_with_cost
receipt_decision within has_patch verification before after selected cost =
    decision_with_cost
      (repair_decision within has_patch verification (compare_repair_proof before after selected))
      cost
