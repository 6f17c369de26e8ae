-- ===== src/Oath/Parse/Laws.antt =====
-- What holds of every oath that the parser accepts (src/domain/oath.ts, `parseOath`).
use softwareoath.Oath.Parse.Rules.{is_limit_lem, parse_rule-good}
use softwareoath.Oath.Parse.Good.{
  IsGoodCost, IsGoodOath, after-accepted, require-true, parse_each-All, IsGoodRule,
  as_filled_array-ne,
}
use softwareoath.Oath.Types.{CostPolicy, SoftwareOath}
use softwareoath.Oath.Parse.{
  parse_each, is_currency, Value, as_object, require, all_distinct, is_limit, under, member,
  parse_rule, parse_cost, parse_oath, key, must_have_rule, is_boolean_or_undefined, is_number_one,
  must_be_boolean, must_be_one, or_usd, as_array, must_be_currency, is_true, must_be_non_negative,
  must_not_merge, parse_severities, must_be_unique,
}
use softwareoath.Base.{◌≡◌, Option, some, arith, ◌∷◌, map, [], none, not, ◌∙◌}
use softwareoath.Oath.Reading.{accepted, as_text, as_filled_array}

parse_cost-good :
    (v : Option Value) (found : Option CostPolicy)
    → parse_cost v ≡ accepted found
    → (c : CostPolicy) → found ≡ some c
    → IsGoodCost c
unfolding parse_cost
parse_cost-good none found h c e = absurd (ground arith)
parse_cost-good (some v) found h c e =
    let at = key "cost" ∷ [] in
    after-accepted (as_object at (some v)) _ h λ fields _ h1.
      after-accepted
        (require (is_boolean_or_undefined (member "enabled" fields)) (under at "enabled")
          must_be_boolean)
        _ h1
        λ _ _ h2.
          after-accepted
            (require (is_boolean_or_undefined (member "requireEstimate" fields))
              (under at "requireEstimate") must_be_boolean)
            _ h2
            λ _ _ h3.
              after-accepted (as_text (under at "currency") (or_usd (member "currency" fields))) _
                h3
                λ currency _ h4.
                  after-accepted
                    (require (is_currency currency) (under at "currency") must_be_currency) _ h4
                    λ u1 c1 h5.
                      after-accepted
                        (require (is_limit (member "maxMonthlyIncrease" fields))
                          (under at "maxMonthlyIncrease") must_be_non_negative)
                        _ h5
                        λ u2 c2 h6.
                          after-accepted
                            (require (is_limit (member "maxPercentageIncrease" fields))
                              (under at "maxPercentageIncrease") must_be_non_negative)
                            _ h6
                            λ u3 c3 h7. record {
                              currency = ground (arith, require-true _ _ _ {u = u1} c1, h7);
                              monthly = λ n m.
                                  is_limit_lem (member "maxMonthlyIncrease" fields) n
                                    (require-true _ _ _ {u = u2} c2) (ground arith);
                              percentage = λ n m.
                                  is_limit_lem (member "maxPercentageIncrease" fields) n
                                    (require-true _ _ _ {u = u3} c3) (ground arith);
                            }

-- An oath that is accepted has a rule, and rules with different ids; each rule is named and has a
-- check, each command check has a command, each timeout is a positive integer, each allowed path
-- stays in the repository, and the cost limits are finite and not negative in a currency.
pub parse_oath-IsGoodOath :
    (raw : Value) (oath : SoftwareOath) → parse_oath raw ≡ accepted oath → IsGoodOath oath
unfolding parse_oath
parse_oath-IsGoodOath raw oath h = after-accepted (as_object [] (some raw)) _ h λ fields _ h1.
    after-accepted
      (require (is_number_one (member "version" fields)) (key "version" ∷ []) must_be_one) _ h1
      λ _ _ h2.
        after-accepted (as_object (key "application" ∷ []) (member "application" fields)) _ h2
          λ application _ h3.
            after-accepted
              (as_text (key "application" ∷ key "name" ∷ []) (member "name" application)) _ h3
              λ _ _ h4.
                after-accepted
                  (as_text (key "application" ∷ key "repository" ∷ [])
                    (member "repository" application))
                  _ h4
                  λ _ _ h5.
                    after-accepted
                      (as_text (key "application" ∷ key "defaultBranch" ∷ [])
                        (member "defaultBranch" application))
                      _ h5
                      λ _ _ h6.
                        after-accepted (as_object (key "approval" ∷ []) (member "approval" fields))
                          _ h6
                          λ approval _ h7.
                            after-accepted
                              (as_array (key "approval" ∷ key "requireHumanFor" ∷ [])
                                (member "requireHumanFor" approval))
                              _ h7
                              λ listed _ h8.
                                after-accepted
                                  (require (not (is_true (member "allowAutomaticMerge" approval)))
                                    (key "approval" ∷ key "allowAutomaticMerge" ∷ [])
                                    must_not_merge)
                                  _ h8
                                  λ _ _ h9.
                                    after-accepted
                                      (parse_severities
                                        (key "approval" ∷ key "requireHumanFor" ∷ []) listed)
                                      _ h9
                                      λ _ _ h10.
                                        after-accepted
                                          (as_filled_array (key "rules" ∷ []) must_have_rule
                                            (member "rules" fields))
                                          _ h10
                                          λ entries filled h11.
                                            after-accepted (parse_each parse_rule 0 entries) _ h11
                                              λ rules each h12.
                                                after-accepted
                                                  (require (all_distinct (map (λ r. r.id) rules))
                                                    (key "rules" ∷ []) must_be_unique)
                                                  _ h12
                                                  λ u unique h13.
                                                    after-accepted
                                                      (parse_cost (member "cost" fields)) _ h13
                                                      λ cost priced h14.
                                                        let good =
                                                          parse_each-All IsGoodRule parse_rule
                                                            parse_rule-good 0 entries each in
                                                        let here : rules ≡ oath.rules =
                                                          ground arith in
                                                        record {
                                                          some_rule = rw (← here) (
                                                            good.1
                                                            ∙ as_filled_array-ne (key "rules" ∷ [])
                                                            must_have_rule (member "rules" fields)
                                                            filled);
                                                          rules = rw (← here) good.0;
                                                          distinct =
                                                            rw (← here)
                                                            (require-true _ _ _ {u = u} unique);
                                                          cost = λ c e.
                                                            parse_cost-good (member "cost" fields)
                                                            cost priced c (ground arith);
                                                        }
