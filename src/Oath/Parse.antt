-- ===== src/Oath/Parse.antt =====
-- The parser of an oath, from the value that the YAML parser returns: `parseRule` and `parseOath`
-- (src/domain/oath.ts).
pub mod Good
pub mod Rules
pub mod Laws
use softwareoath.Oath.Text.{is_foreign_path, is_currency}
use softwareoath.Oath.Types.{
  command, test, Value, Word, EvidenceKind, num, EvidenceRequirement, bool, text, CostPolicy, arr,
  RuleSeverity, exact, RuleRepair, OathRule, member, items, SoftwareOath, wrapped,
}
use softwareoath.Base.{
  ℕ, suc, zero, String, Bool, true, false, not, ◌&&◌, ◌||◌, Option, none, some, List, [], ◌∷◌, ◌++◌,
  map, any, ◌==◌, if◌then◌else◌,
}
use softwareoath.Records.Values.{
  Number, is_integer, is_at_most_zero, is_finite, is_negative, is_one,
}
use softwareoath.Oath.Reading.{
  Part, key, index, Problem, Parsed, accepted, refused, ◌>>=◌, ◌>>◌, require, as_object, as_text,
  as_filled_array, as_word, must_be_relative, kind_word, must_have_path, severity_word,
  must_be_boolean, must_be_array, must_be_one, must_be_positive, is_true, must_have_check,
  text_or_nothing, must_be_currency, must_not_merge, is_false, must_be_non_negative, must_have_rule,
  number_or_nothing, must_be_unique,
}

abbrev pub under : List Part → String → List Part
under at name = at ++ key name ∷ []

-- `values.map((value, index) => …)`, up to the first that throws
unfoldable pub parse_each : {A : Type 0} → (ℕ → Value → Parsed A) → ℕ → List Value → Parsed (List A)
parse_each f n [] = accepted []
parse_each f n (v ∷ vs) = do a ← f n v; rest ← parse_each f (suc n) vs; accepted (a ∷ rest)

abbrev pub is_command : Word EvidenceKind → Bool
is_command (exact command) = true
is_command _ = false

abbrev pub is_test : Word EvidenceKind → Bool
is_test (exact test) = true
is_test _ = false

abbrev pub is_undefined {ℓ} : {A : Type ℓ} → Option A → Bool
is_undefined none = true
is_undefined (some _) = false

-- `Number.isInteger(value) && Number(value) > 0`, or undefined
abbrev pub is_timeout : Option Value → Bool
is_timeout none = true
is_timeout (some (num n)) = is_integer n && not (is_at_most_zero n)
is_timeout (some _) = false

abbrev pub text_if : Bool → List Part → Option Value → Parsed (Unit {0})
text_if true at value = as_text at value >>= λ _. accepted tt
text_if false at value = accepted tt

unfoldable pub parse_requirement : List Part → Value → Parsed EvidenceRequirement
unfolding as_object as_text is_integer is_at_most_zero
parse_requirement at entry = do
  fields ← as_object at (some entry)
  kind ← as_word kind_word (under at "kind") (member "kind" fields)
  text_if (is_command kind) (under at "command") (member "command" fields)
  text_if (is_test kind && is_undefined (member "command" fields)) (under at "path")
      (member "path" fields)
  require (is_timeout (member "timeoutMs" fields)) (under at "timeoutMs") must_be_positive
  accepted (record {
    kind = kind;
    command = text_or_nothing (member "command" fields);
    path = text_or_nothing (member "path" fields);
    required = not (is_false (member "required" fields));
    timeout_ms = number_or_nothing (member "timeoutMs" fields);
  })

unfoldable pub parse_path : List Part → Value → Parsed String
unfolding as_text is_foreign_path
parse_path at value = do
  path ← as_text at (some value)
  require (not (is_foreign_path path)) at must_be_relative
  accepted path

unfoldable pub parse_repair : List Part → Option Value → Parsed (Option RuleRepair)
unfolding as_object as_filled_array parse_each parse_path
parse_repair at none = accepted none
parse_repair at (some value) = do
  fields ← as_object at (some value)
  paths ← as_filled_array (under at "allowedPaths") must_have_path (member "allowedPaths" fields)
  allowed ← parse_each (λ n v. parse_path (under at "allowedPaths" ++ index n ∷ []) v) 0 paths
  accepted (
      some (record {
        allowed_paths = allowed;
        automatic_candidate = is_true (member "automaticCandidate" fields);
      }))

unfoldable pub parse_rule : ℕ → Value → Parsed OathRule
unfolding as_object as_text as_filled_array parse_each parse_requirement parse_repair
parse_rule n value = do
  let at = key "rules" ∷ index n ∷ []
  fields ← as_object at (some value)
  id ← as_text (under at "id") (member "id" fields)
  title ← as_text (under at "title") (member "title" fields)
  description ← as_text (under at "description") (member "description" fields)
  severity ← as_word severity_word (under at "severity") (member "severity" fields)
  entries ← as_filled_array (under at "evidence") must_have_check (member "evidence" fields)
  evidence ← parse_each (λ k v. parse_requirement (under at "evidence" ++ index k ∷ []) v) 0 entries
  repair ← parse_repair (under at "repair") (member "repair" fields)
  accepted (record {
    id = id;
    title = title;
    description = description;
    severity = severity;
    evidence = evidence;
    repair = repair;
  })

-- `new Set(texts).size === texts.length`
unfoldable pub all_distinct : List String → Bool
all_distinct [] = true
all_distinct (s ∷ ss) = not (any (λ t. t == s) ss) && all_distinct ss

abbrev pub is_boolean_or_undefined : Option Value → Bool
is_boolean_or_undefined none = true
is_boolean_or_undefined (some (bool _)) = true
is_boolean_or_undefined (some _) = false

-- A finite number that is not below 0, or undefined.
abbrev pub is_limit : Option Value → Bool
is_limit none = true
is_limit (some (num n)) = is_finite n && not (is_negative n)
is_limit (some _) = false

abbrev pub or_usd : Option Value → Option Value
or_usd none = some (text "USD")
or_usd (some v) = some v

unfoldable pub parse_cost : Option Value → Parsed (Option CostPolicy)
unfolding as_object as_text is_finite is_negative
parse_cost none = accepted none
parse_cost (some value) = do
  let at = key "cost" ∷ []
  fields ← as_object at (some value)
  require (is_boolean_or_undefined (member "enabled" fields)) (under at "enabled") must_be_boolean
  require (is_boolean_or_undefined (member "requireEstimate" fields)) (under at "requireEstimate")
      must_be_boolean
  currency ← as_text (under at "currency") (or_usd (member "currency" fields))
  require (is_currency currency) (under at "currency") must_be_currency
  require (is_limit (member "maxMonthlyIncrease" fields)) (under at "maxMonthlyIncrease")
      must_be_non_negative
  require (is_limit (member "maxPercentageIncrease" fields)) (under at "maxPercentageIncrease")
      must_be_non_negative
  accepted (
      some (record {
        enabled = not (is_false (member "enabled" fields));
        require_estimate = not (is_false (member "requireEstimate" fields));
        currency = currency;
        max_monthly_increase = number_or_nothing (member "maxMonthlyIncrease" fields);
        max_percentage_increase = number_or_nothing (member "maxPercentageIncrease" fields);
      }))

unfoldable pub as_array : List Part → Option Value → Parsed (List Value)
as_array at (some (arr _ vs)) = accepted (items vs)
as_array at _ = refused at must_be_array

abbrev pub is_number_one : Option Value → Bool
is_number_one (some (num n)) = is_one n
is_number_one _ = false

-- `String(value)` is kept, so that an array leaves the word that it holds.
abbrev pub unwrap : Word RuleSeverity → RuleSeverity
unwrap (exact s) = s
unwrap (wrapped _ s) = s

unfoldable pub parse_severities : List Part → List Value → Parsed (List RuleSeverity)
parse_severities at [] = accepted []
parse_severities at (v ∷ vs) = do
  word ← as_word severity_word at (some v)
  rest ← parse_severities at vs
  accepted (unwrap word ∷ rest)

unfoldable pub parse_oath : Value → Parsed SoftwareOath
unfolding as_object as_text as_filled_array parse_each parse_rule parse_cost as_array
    parse_severities is_one
parse_oath raw = do
  fields ← as_object [] (some raw)
  require (is_number_one (member "version" fields)) (key "version" ∷ []) must_be_one
  application ← as_object (key "application" ∷ []) (member "application" fields)
  name ← as_text (key "application" ∷ key "name" ∷ []) (member "name" application)
  repository ← as_text (key "application" ∷ key "repository" ∷ []) (member "repository" application)
  branch ←
      as_text (key "application" ∷ key "defaultBranch" ∷ []) (member "defaultBranch" application)
  approval ← as_object (key "approval" ∷ []) (member "approval" fields)
  listed ←
      as_array (key "approval" ∷ key "requireHumanFor" ∷ []) (member "requireHumanFor" approval)
  require (not (is_true (member "allowAutomaticMerge" approval)))
      (key "approval" ∷ key "allowAutomaticMerge" ∷ []) must_not_merge
  severities ← parse_severities (key "approval" ∷ key "requireHumanFor" ∷ []) listed
  entries ← as_filled_array (key "rules" ∷ []) must_have_rule (member "rules" fields)
  rules ← parse_each parse_rule 0 entries
  require (all_distinct (map (λ r. r.id) rules)) (key "rules" ∷ []) must_be_unique
  cost ← parse_cost (member "cost" fields)
  accepted (record {
    application = record { name = name; repository = repository; default_branch = branch };
    require_human_for = severities;
    cost = cost;
    rules = rules;
  })
