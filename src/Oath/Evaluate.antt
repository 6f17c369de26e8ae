-- ===== src/Oath/Evaluate.antt =====
-- From evidence to a decision: `evaluateRule` and `evaluateOath` (src/domain/oath.ts).
pub mod Laws
use softwareoath.Oath.Types.{
  EvidenceKind, command, test, review, EvidenceStatus, passed, failed, human_review, Word, exact,
  wrapped, RuleSeverity, critical, high, medium, low, OathRule, EvidenceRecord, RepairRun,
  RuleEvaluation, SoftwareOath, OathReport, check_failed, missing_evidence, judgment_open,
  all_passed,
}
use softwareoath.Base.{
  ℕ, ltb, nat_eq, String, Bool, true, false, not, ◌&&◌, ◌||◌, List, [], ◌∷◌, map, filter, any,
  length, ◌==◌, if◌then◌else◌,
}
use softwareoath.Records.Values.{Timestamp}
use softwareoath.Records.Run.{RunDecision, blocked, review_required, ready}

abbrev pub same_kind : EvidenceKind → EvidenceKind → Bool
same_kind command command = true
same_kind test test = true
same_kind review review = true
same_kind _ _ = false

-- `===` on the values that stand for kinds.
abbrev pub same_value : Word EvidenceKind → Word EvidenceKind → Bool
same_value (exact a) (exact b) = same_kind a b
same_value (wrapped i _) (wrapped j _) = nat_eq i j
same_value _ _ = false

abbrev pub is_passed : EvidenceStatus → Bool
is_passed passed = true
is_passed _ = false

abbrev pub is_failed : EvidenceStatus → Bool
is_failed failed = true
is_failed _ = false

abbrev pub is_human_review : EvidenceStatus → Bool
is_human_review human_review = true
is_human_review _ = false

abbrev pub is_empty {ℓ} : {A : Type ℓ} → List A → Bool
is_empty [] = true
is_empty (_ ∷ _) = false

unfoldable pub required_kinds : OathRule → List (Word EvidenceKind)
required_kinds rule = map (λ q. q.kind) (filter (λ q. q.required) rule.evidence)

unfoldable pub missing_kinds : OathRule → List EvidenceRecord → List (Word EvidenceKind)
unfolding required_kinds
missing_kinds rule evidence =
    filter (λ kind. not (any (λ e. same_value e.kind kind) evidence)) (required_kinds rule)

-- The evidence of a run that names the rule.
unfoldable pub evidence_of : OathRule → RepairRun → List EvidenceRecord
evidence_of rule run = filter (λ e. e.rule_id == rule.id) run.evidence

unfoldable pub evaluate_rule : OathRule → RepairRun → RuleEvaluation
unfolding evidence_of missing_kinds
evaluate_rule rule run =
    let evidence = evidence_of rule run in
    let missing = missing_kinds rule evidence in
    if any (λ e. is_failed e.status) evidence
    then record { rule = rule; status = failed; evidence = evidence; reason = check_failed }
    else if not (is_empty missing) || any (λ e. is_human_review e.status) evidence
    then (record {
      rule = rule;
      status = human_review;
      evidence = evidence;
      reason = if is_empty missing then judgment_open else missing_evidence missing;
    })
    else record { rule = rule; status = passed; evidence = evidence; reason = all_passed }

abbrev pub same_severity : RuleSeverity → RuleSeverity → Bool
same_severity critical critical = true
same_severity high high = true
same_severity medium medium = true
same_severity low low = true
same_severity _ _ = false

-- `requireHumanFor.includes(severity)`: an array is none of the texts of the list.
unfoldable pub needs_human : List RuleSeverity → Word RuleSeverity → Bool
needs_human listed (exact s) = any (λ t. same_severity t s) listed
needs_human listed (wrapped _ _) = false

unfoldable pub wants_review : List RuleSeverity → RuleEvaluation → Bool
unfolding needs_human
wants_review listed result =
    is_human_review result.status
    || (is_passed result.status && needs_human listed result.rule.severity)

abbrev pub count_status : (EvidenceStatus → Bool) → List RuleEvaluation → ℕ
count_status p results = length (filter (λ r. p r.status) results)

unfoldable pub evaluate_oath : SoftwareOath → RepairRun → Timestamp → OathReport
unfolding evaluate_rule wants_review
evaluate_oath oath run generated_at =
    let results = map (λ rule. evaluate_rule rule run) oath.rules in
    record {
      run_id = run.id;
      application = oath.application.name;
      decision =
          if ltb 0 (count_status is_failed results)
          then blocked
          else if any (wants_review oath.require_human_for) results
          then review_required
          else ready;
      generated_at = generated_at;
      summary = record {
        passed = count_status is_passed results;
        failed = count_status is_failed results;
        human_review = count_status is_human_review results;
      };
      rules = results;
    }
