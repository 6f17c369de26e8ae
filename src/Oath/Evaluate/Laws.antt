-- ===== src/Oath/Evaluate/Laws.antt =====
-- What the decision of an evaluated oath says (src/domain/oath.ts, `evaluateRule`,
-- `evaluateOath`).
use softwareoath.Oath.Evaluate.{
  evaluate_rule, evaluate_oath, missing_kinds, EvidenceKind, is_failed, SoftwareOath,
  EvidenceRecord, evidence_of, wants_review, count_status, Timestamp, is_empty, is_passed, blocked,
  is_human_review, ready, same_value, needs_human, required_kinds, wrapped,
}
use softwareoath.Oath.Types.{
  RepairRun, RuleSeverity, EvidenceStatus, OathRule, Word, RuleEvaluation, EvidenceRequirement,
}
use softwareoath.Base.{
  List, Bool, length, any, every, ltb, ◌≡◌, map, ◌==◌, not, filter, ◌∷◌, arith, ◌||◌, ◌&&◌, [], ap,
  ◌+◌, All, refl, ◌↔◌, ℕ, true, ◌∙◌,
}

-- Some evidence of the run names the rule and has failed.
abbrev pub rule_fails : RepairRun → OathRule → Bool
rule_fails run rule = any (λ e. e.rule_id == rule.id && is_failed e.status) run.evidence

abbrev pub covers : RepairRun → OathRule → Word EvidenceKind → Bool
covers run rule kind = any (λ e. e.rule_id == rule.id && same_value e.kind kind) run.evidence

-- All evidence for the rule has passed, each required kind has some, and no reviewer has to look.
abbrev pub rule_is_ready : List RuleSeverity → RepairRun → OathRule → Bool
rule_is_ready listed run rule =
    every (λ e. not (e.rule_id == rule.id) || is_passed e.status) run.evidence
    && every (λ q. not q.required || covers run rule q.kind) rule.evidence
    && not (needs_human listed rule.severity)

any-filter {ℓ} :
    {A : Type ℓ} (p q : A → Bool) (xs : List A) → any p (filter q xs) ≡ any (λ x. q x && p x) xs
any-filter p q [] = refl
any-filter p q (x ∷ xs) = ground (arith, any-filter p q xs)

any-map {ℓ κ} :
    {A : Type ℓ} {B : Type κ} (p : B → Bool) (f : A → B) (xs : List A)
    → any p (map f xs) ≡ any (λ x. p (f x)) xs
any-map p f [] = refl
any-map p f (x ∷ xs) = ground (arith, any-map p f xs)

count-pos :
    (p : EvidenceStatus → Bool) (rs : List RuleEvaluation)
    → ltb 0 (count_status p rs) ≡ any (λ r. p r.status) rs
count-pos p [] = refl
count-pos p (r ∷ rs) = ground (arith, count-pos p rs)

is_failed-evaluate_rule :
    (run : RepairRun) (rule : OathRule)
    → is_failed (evaluate_rule rule run).status ≡ rule_fails run rule
unfolding evaluate_rule
is_failed-evaluate_rule run rule =
    ground (arith, any-filter (λ e. is_failed e.status) (λ e. e.rule_id == rule.id) run.evidence)

any_failed :
    (run : RepairRun) (rules : List OathRule)
    → any (λ r. is_failed r.status) (map (λ rule. evaluate_rule rule run) rules)
      ≡ any (rule_fails run) rules
any_failed run [] = refl
any_failed run (r ∷ rs) = ground (arith, is_failed-evaluate_rule run r, any_failed run rs)

-- A run is blocked exactly when some evidence that names a rule of the oath has failed.
pub evaluate_oath_blocked_iff :
    (oath : SoftwareOath) (run : RepairRun) (at : Timestamp)
    → ((evaluate_oath oath run at).decision ≡ blocked) ↔ (any (rule_fails run) oath.rules ≡ true)
unfolding evaluate_oath
evaluate_oath_blocked_iff oath run at =
    let results = map (λ rule. evaluate_rule rule run) oath.rules in
    ground (arith, count-pos is_failed results, any_failed run oath.rules)

every_passed :
    (rule : OathRule) (es : List EvidenceRecord)
    → every (λ e. not (e.rule_id == rule.id) || is_passed e.status) es ≡ (
        not (any (λ e. e.rule_id == rule.id && is_failed e.status) es)
        && not (any (λ e. e.rule_id == rule.id && is_human_review e.status) es))
every_passed rule [] = refl
every_passed rule (e ∷ es) = ground (arith, every_passed rule es)

nothing_missing :
    (covered : Word EvidenceKind → Bool) (qs : List EvidenceRequirement)
    → is_empty (filter (λ k. not (covered k)) (map (λ q. q.kind) (filter (λ q. q.required) qs)))
      ≡ every (λ q. not q.required || covered q.kind) qs
nothing_missing covered [] = refl
nothing_missing covered (q ∷ qs) = ground (arith, nothing_missing covered qs)

filter_congr {ℓ} :
    {A : Type ℓ} (p q : A → Bool) (xs : List A) → ((x : A) → p x ≡ q x) → filter p xs ≡ filter q xs
filter_congr p q [] h = refl
filter_congr p q (x ∷ xs) h = ground (arith, h x, filter_congr p q xs h)

missing-empty :
    (run : RepairRun) (rule : OathRule)
    → is_empty (missing_kinds rule (evidence_of rule run))
      ≡ every (λ q. not q.required || covers run rule q.kind) rule.evidence
unfolding missing_kinds evidence_of
missing-empty run rule =
    ap is_empty (
      filter_congr (λ k. not (any (λ e. same_value e.kind k) (evidence_of rule run)))
        (λ k. not (covers run rule k)) (required_kinds rule)
        (λ k.
          ap not (any-filter (λ e. same_value e.kind k) (λ e. e.rule_id == rule.id) run.evidence)))
    ∙ nothing_missing (covers run rule) rule.evidence

rule_ready_lem :
    (listed : List RuleSeverity) (run : RepairRun) (rule : OathRule)
    → (is_failed (evaluate_rule rule run).status || wants_review listed (evaluate_rule rule run))
      ≡ not (rule_is_ready listed run rule)
unfolding evaluate_rule wants_review
rule_ready_lem listed run rule = ground (
  arith,
  every_passed rule run.evidence,
  missing-empty run rule,
  any-filter (λ e. is_failed e.status) (λ e. e.rule_id == rule.id) run.evidence,
  any-filter (λ e. is_human_review e.status) (λ e. e.rule_id == rule.id) run.evidence,
)

any_ready :
    (listed : List RuleSeverity) (run : RepairRun) (rules : List OathRule)
    → (any (λ r. is_failed r.status) (map (λ rule. evaluate_rule rule run) rules)
        || any (wants_review listed) (map (λ rule. evaluate_rule rule run) rules))
      ≡ not (every (rule_is_ready listed run) rules)
any_ready listed run [] = refl
any_ready listed run (r ∷ rs) = ground (arith, rule_ready_lem listed run r, any_ready listed run rs)

-- A run is ready exactly when every rule is: all evidence for it has passed, every kind of evidence
-- that it requires is there, and its severity is none of those that need a human.
pub evaluate_oath_ready_iff :
    (oath : SoftwareOath) (run : RepairRun) (at : Timestamp)
    → ((evaluate_oath oath run at).decision ≡ ready)
      ↔ (every (rule_is_ready oath.require_human_for run) oath.rules ≡ true)
unfolding evaluate_oath
evaluate_oath_ready_iff oath run at =
    let results = map (λ rule. evaluate_rule rule run) oath.rules in
    ground (arith, count-pos is_failed results, any_ready oath.require_human_for run oath.rules)

count_partition :
    (rs : List RuleEvaluation)
    → count_status is_passed rs + count_status is_failed rs + count_status is_human_review rs
      ≡ length rs
count_partition [] = omega arith
count_partition (r ∷ rs) = ground (arith, count_partition rs)

length-map {ℓ κ} :
    {A : Type ℓ} {B : Type κ} (f : A → B) (xs : List A) → length (map f xs) ≡ length xs
length-map f [] = refl
length-map f (x ∷ xs) = omega (arith, length-map f xs)

-- The summary counts every rule of the oath once.
pub evaluate_oath_counts :
    (oath : SoftwareOath) (run : RepairRun) (at : Timestamp)
    → let s = (evaluate_oath oath run at).summary in
      s.passed + s.failed + s.human_review ≡ length oath.rules
unfolding evaluate_oath
evaluate_oath_counts oath run at =
    let results = map (λ rule. evaluate_rule rule run) oath.rules in
    omega (arith, count_partition results, length-map (λ rule. evaluate_rule rule run) oath.rules)

-- The same oath with other severities that need a human.
abbrev pub asking : List RuleSeverity → SoftwareOath → SoftwareOath
asking listed oath = record oath { require_human_for = listed }

-- Where the severity of every rule was given as an array, the list of severities that need a human
-- has no effect on the decision, whatever it names.
pub wrapped_severity_ignored :
    (oath : SoftwareOath) (run : RepairRun) (at : Timestamp) (listed : List RuleSeverity)
    → All (λ (r : OathRule). (i : ℕ) × (s : RuleSeverity) × (r.severity ≡ wrapped i s)) oath.rules
    → (evaluate_oath (asking listed oath) run at).decision ≡ (evaluate_oath oath run at).decision
unfolding evaluate_oath
wrapped_severity_ignored oath run at listed h =
    ground (arith, same_reviews oath.require_human_for listed oath.rules h)
  where
    same_reviews :
        (a b : List RuleSeverity) (rules : List OathRule)
        → All (λ (r : OathRule). (i : ℕ) × (s : RuleSeverity) × (r.severity ≡ wrapped i s)) rules
        → any (wants_review b) (map (λ rule. evaluate_rule rule run) rules)
          ≡ any (wants_review a) (map (λ rule. evaluate_rule rule run) rules)
    same_reviews a b [] h = refl
    same_reviews a b (r ∷ rs) ((i, s, e), h) =
        unfold wants_review in ground (arith, same_reviews a b rs h, e, same_rule r)
      where
        same_rule : (r : OathRule) → (evaluate_rule r run).rule ≡ r
        same_rule r = unfold evaluate_rule in ground arith
