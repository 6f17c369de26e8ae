-- ===== src/Examples/Verdicts.antt =====
-- The laws of oaths and of repairs, at a small oath and a small repair.
use softwareoath.Base.{is_space}
use package.text.Mathlib.Text.{starts_with}
use mathlib.Core.List.{Memᴰ}
use softwareoath.Oath.Evaluate.Laws.{
  rule_fails, evaluate_oath_blocked_iff, rule_is_ready, evaluate_oath_ready_iff,
}
use softwareoath.Oath.Text.{is_blank}
use softwareoath.Repair.Proof.Laws.{receipt_decision_ready_iff}
use softwareoath.Repair.Scope.{
  without_dot_slash, with_slashes, within_allowed_scope, is_protected_repair_path, is_protected,
  is_allowed,
}
use softwareoath.Repair.Scope.Laws.{IsOrdinary, IsBelow, within_allowed_scope_lem}
use softwareoath.Records.Values.{finite, is_one}
use softwareoath.Records.Run.{blocked, ready}
use softwareoath.Oath.Reading.{as_object, as_text, as_filled_array, word_of}
use softwareoath.Oath.Parse.{
  parse_oath, parse_each, parse_rule, parse_cost, as_array, parse_severities, parse_requirement,
  parse_repair, all_distinct,
}
use softwareoath.Oath.Parse.Laws.{parse_oath-IsGoodOath}
use softwareoath.Repair.Proof.{
  receipt_decision, is_blocking, blocked_before, cost_blocks, cost_asks,
}
use softwareoath.Base.{
  ℕ, List, ◌∷◌, [], ◌≡◌, true, none, length, ◌≢◌, some, not, All, ◌↔◌, any, false, every, ◌==◌,
  ◌&&◌, String, refl,
}
use softwareoath.Repair.Findings.{
  RepositoryFinding, dependencies, InspectionSummary, InspectionReport,
}
use softwareoath.Oath.Evaluate.{evaluate_oath}
use softwareoath.Oath.Parse.Good.{IsGoodOath}
use softwareoath.Oath.Types.{
  Value, OathRule, SoftwareOath, RepairRun, obj, exact, critical, wrapped, field, high, command,
  num, passed, text, end, arr, cons, nil, member, items,
}

-- The oath as the YAML parser returns it.
abbrev raw_oath : Value
raw_oath = obj (
    field "version" (num (finite false 1 0)) (
      field "application"
        (obj (
          field "name" (text "Shop")
            (field "repository" (text "acme/shop") (field "defaultBranch" (text "main") end))))
        (field "approval" (obj (field "requireHumanFor" (arr 0 (cons (text "critical") nil)) end)) (
          field "rules"
            (arr 1 (
              cons
                (obj (
                  field "id" (text "builds") (
                    field "title" (text "The shop builds") (
                      field "description" (text "A change must build.") (
                        field "severity" (text "high") (
                          field "evidence"
                            (arr 2 (
                              cons
                                (obj (
                                  field "kind" (text "command")
                                    (field "command" (text "npm run build") end)))
                                nil))
                            end))))))
                nil))
            end))))

abbrev build_rule : OathRule
build_rule = record {
  id = "builds";
  title = "The shop builds";
  description = "A change must build.";
  severity = exact high;
  evidence =
      record {
        kind = exact command;
        command = some "npm run build";
        path = none;
        required = true;
        timeout_ms = none;
      }
      ∷ [];
  repair = none;
}

abbrev small_oath : SoftwareOath
small_oath = record {
  application = record { name = "Shop"; repository = "acme/shop"; default_branch = "main" };
  require_human_for = critical ∷ [];
  cost = none;
  rules = build_rule ∷ [];
}

parse_oath-IsGoodOath_example : IsGoodOath small_oath
parse_oath-IsGoodOath_example = parse_oath-IsGoodOath raw_oath small_oath (
    unfold parse_oath as_object as_text as_filled_array parse_each parse_rule parse_cost as_array
      parse_severities is_one parse_requirement parse_repair word_of member items is_blank is_space
      all_distinct in
    refl)

abbrev build_passed : RepairRun
build_passed = record {
  id = "r1";
  incident = record { title = "Checkout fails"; source = "sentry"; detected_at = 40 };
  branch = "repair/p1";
  commit = "c1";
  summary = "Fix";
  files = [];
  diff = [];
  evidence =
      record {
        rule_id = "builds";
        kind = exact command;
        status = passed;
        summary = "passed";
        command = some "npm run build";
        exit_code = some 0;
        duration_ms = some 9;
        output_sha256 = none;
        runner = none;
      }
      ∷ [];
}

evaluate_oath_blocked_iff_example :
    ((evaluate_oath small_oath build_passed 100).decision ≡ blocked)
    ↔ (any (rule_fails build_passed) small_oath.rules ≡ true)
evaluate_oath_blocked_iff_example = evaluate_oath_blocked_iff small_oath build_passed 100

evaluate_oath_ready_iff_example :
    ((evaluate_oath small_oath build_passed 100).decision ≡ ready)
    ↔ (every (rule_is_ready (critical ∷ []) build_passed) small_oath.rules ≡ true)
evaluate_oath_ready_iff_example = evaluate_oath_ready_iff small_oath build_passed 100

-- The same oath with the severity given as an array of one word.
abbrev wrapped_oath : SoftwareOath
wrapped_oath = record small_oath { rules = record build_rule { severity = wrapped 9 high } ∷ [] }

abbrev finding_one : RepositoryFinding
finding_one = record {
  id = "f1";
  detector = "npm";
  category = dependencies;
  severity = high;
  title = "Old package";
  summary = "A package has an advisory.";
  evidence = record { path = none; line = none; detail = "" };
  repair = record {
    objective = "Update";
    allowed_paths = "package.json" ∷ [];
    automatic_candidate = true;
  };
  dependency = none;
}

abbrev summary_of : ℕ → InspectionSummary
summary_of n = record {
  total = n;
  critical = 0;
  high = n;
  medium = 0;
  low = 0;
  automatic_candidates = n;
}

abbrev report_of : List RepositoryFinding → InspectionReport
report_of findings = record {
  repository_path = "/shop";
  generated_at = 100;
  summary = summary_of (length findings);
  findings = findings;
}

receipt_decision_ready_iff_example :
    (receipt_decision true true ready (report_of (finding_one ∷ [])) (report_of []) finding_one none
      ≡ ready)
    ↔ ((true ≡ true)
        × (true ≡ true)
        × (ready ≡ ready)
        × (any (λ (f : RepositoryFinding). f.id == "f1") [] ≡ false)
        × (any
              (λ (f : RepositoryFinding).
                is_blocking f.severity && not (blocked_before (finding_one ∷ []) f.id))
              []
            ≡ false)
        × (cost_blocks none ≡ false)
        × (cost_asks none ≡ false))
receipt_decision_ready_iff_example =
    receipt_decision_ready_iff true true ready (report_of (finding_one ∷ [])) (report_of [])
      finding_one none

abbrev changed_file : List String
changed_file = "src/app.ts" ∷ []

within_allowed_scope_lem_example :
    (changed_file ≢ [])
    × All
        (λ path.
          IsOrdinary (without_dot_slash (with_slashes path))
          × ((allowed : String) × Memᴰ allowed ("src" ∷ []) × IsBelow path allowed))
        changed_file
within_allowed_scope_lem_example = within_allowed_scope_lem changed_file ("src" ∷ []) (
    unfold within_allowed_scope is_protected_repair_path is_protected is_allowed with_slashes
      without_dot_slash starts_with in
    refl)
