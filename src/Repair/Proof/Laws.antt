-- ===== src/Repair/Proof/Laws.antt =====
-- When a repair is ready, and what can only make its decision stricter (src/repair/proof.ts,
-- src/repair/run.ts).
use softwareoath.Records.Run.{RunDecision, ready, review_required, blocked}
use softwareoath.Repair.Proof.{
  receipt_decision, last_by_id, compare_repair_proof, blocked_before, is_none_of, is_nothing,
  CostStatus, is_blocking, cost_blocks, cost_asks,
}
use softwareoath.Repair.Findings.{RepositoryFinding, InspectionReport}
use softwareoath.Base.{
  if◌then◌else◌, List, Bool, ℕ, String, ◌≡◌, any, filter, find, Option, none, ◌==◌, true, not,
  false, ◌↔◌, ◌∷◌, ◌≤◌, ◌&&◌, arith, [], refl,
}

filter-none :
    (p : RepositoryFinding → Bool) (fs : List RepositoryFinding)
    → (is_none_of (filter p fs) ≡ true) ↔ (any p fs ≡ false)
filter-none p [] = (λ h. refl, λ h. refl)
filter-none p (f ∷ fs) = ground (arith, filter-none p fs)

find-nothing :
    (p : RepositoryFinding → Bool) (fs : List RepositoryFinding)
    → is_nothing (find p fs) ≡ not (any p fs)
find-nothing p [] = refl
find-nothing p (f ∷ fs) = ground (arith, find-nothing p fs)

-- A repair is ready exactly when the change is in scope and not empty, the oath says ready, the
-- selected finding is gone, every critical or high finding was critical or high before, and the cost
-- neither blocks nor asks for a review.
pub receipt_decision_ready_iff :
    (within has_patch : Bool) (verification : RunDecision) (before after : InspectionReport)
    (selected : RepositoryFinding) (cost : Option CostStatus)
    → (receipt_decision within has_patch verification before after selected cost ≡ ready) ↔ (
        (within ≡ true)
        × (has_patch ≡ true)
        × (verification ≡ ready)
        × (any (λ f. f.id == selected.id) after.findings ≡ false)
        × (any
              (λ f. is_blocking f.severity && not (blocked_before before.findings f.id))
              after.findings
            ≡ false)
        × (cost_blocks cost ≡ false)
        × (cost_asks cost ≡ false))
unfolding receipt_decision
receipt_decision_ready_iff within has_patch verification before after selected cost = (
  λ h. ground (
    arith,
    find-nothing (λ f. f.id == selected.id) after.findings,
    (filter-none (λ f. is_blocking f.severity && not (blocked_before before.findings f.id))
        after.findings).0,
  ),
  λ h. ground (
    arith,
    find-nothing (λ f. f.id == selected.id) after.findings,
    (filter-none (λ f. is_blocking f.severity && not (blocked_before before.findings f.id))
        after.findings).1,
  ),
)

abbrev pub strictness : RunDecision → ℕ
strictness ready = 0
strictness review_required = 1
strictness blocked = 2

-- How strict the cost alone wants the decision to be.
abbrev pub cost_strictness : Option CostStatus → ℕ
cost_strictness cost = if cost_blocks cost then 2 else if cost_asks cost then 1 else 0

-- No step makes a decision milder: the final one is at least as strict as the oath's, and at least as
-- strict as the cost demands.
pub receipt_decision_strict :
    (within has_patch : Bool) (verification : RunDecision) (before after : InspectionReport)
    (selected : RepositoryFinding) (cost : Option CostStatus)
    → let final = receipt_decision within has_patch verification before after selected cost in
      (strictness verification ≤ strictness final) × (cost_strictness cost ≤ strictness final)
unfolding receipt_decision
receipt_decision_strict within has_patch verification before after selected cost =
    (ground arith, ground arith)

no_id-last :
    (id : String) (fs : List RepositoryFinding)
    → any (λ f. f.id == id) fs ≡ false
    → last_by_id id fs ≡ none
unfolding last_by_id
no_id-last id [] h = refl
no_id-last id (f ∷ fs) h = ground (arith, no_id-last id fs)

-- Each finding that is new and critical or high is counted as blocking.
pub new_findings_block :
    (before after : InspectionReport) (selected : RepositoryFinding)
    → filter (λ f. is_blocking f.severity) (compare_repair_proof before after selected).new_findings
      ≡ filter
          (λ f. not (any (λ b. b.id == f.id) before.findings))
          (compare_repair_proof before after selected).blocking_new_findings
unfolding compare_repair_proof blocked_before
new_findings_block before after selected = same after.findings
  where
    same :
        (fs : List RepositoryFinding)
        → filter
            (λ f. is_blocking f.severity)
            (filter (λ f. not (any (λ b. b.id == f.id) before.findings)) fs)
          ≡ filter
              (λ f. not (any (λ b. b.id == f.id) before.findings))
              (filter (λ f. is_blocking f.severity && not (blocked_before before.findings f.id)) fs)
    same [] = refl
    same (f ∷ fs) = ground (arith, same fs, no_id-last f.id before.findings)
