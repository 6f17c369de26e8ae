-- ===== src/Oath/Parse/Rules.antt =====
-- Every rule that the parser accepts is good (src/domain/oath.ts, `parseRule`).
use softwareoath.Oath.Parse.Good.{
  bind-accepted, IsGoodRequirement, IsAllowedPath, IsGoodRepair, IsGoodRule, as_text-blank,
  require-true, parse_each-All, as_filled_array-ne,
}
use softwareoath.Oath.Text.{is_blank}
use softwareoath.Oath.Types.{EvidenceRequirement, RuleRepair, OathRule, Word, obj, null}
use softwareoath.Oath.Parse.{
  parse_each, parse_requirement, Part, exact, Value, EvidenceKind, command, Number, text_if,
  as_object, require, text, is_foreign_path, is_integer, is_finite, is_timeout, is_limit,
  is_command, as_word, bool, is_at_most_zero, is_negative, number_or_nothing, text_or_nothing,
  kind_word, num, under, arr, member, is_test, is_undefined, must_be_positive, parse_path,
  parse_repair, parse_rule, must_have_path, key, must_be_relative, index, severity_word,
  must_have_check,
}
use softwareoath.Base.{
  List, ◌≡◌, String, Option, ℕ, some, false, true, arith, ◌∷◌, [], none, ◌&&◌, not, ◌++◌, ◌∙◌,
}
use softwareoath.Oath.Reading.{accepted, as_text, as_filled_array}

is_timeout_lem :
    (v : Option Value) (n : Number)
    → is_timeout v ≡ true
    → number_or_nothing v ≡ some n
    → (is_integer n ≡ true) × (is_at_most_zero n ≡ false)
is_timeout_lem none n h e = absurd (ground arith)
is_timeout_lem (some (num m)) n h e = ground arith
is_timeout_lem (some (text t)) n h e = absurd (ground arith)
is_timeout_lem (some null) n h e = absurd (ground arith)
is_timeout_lem (some (bool b)) n h e = absurd (ground arith)
is_timeout_lem (some (arr i xs)) n h e = absurd (ground arith)
is_timeout_lem (some (obj fs)) n h e = absurd (ground arith)

pub is_limit_lem :
    (v : Option Value) (n : Number)
    → is_limit v ≡ true
    → number_or_nothing v ≡ some n
    → (is_finite n ≡ true) × (is_negative n ≡ false)
is_limit_lem none n h e = absurd (ground arith)
is_limit_lem (some (num m)) n h e = ground arith
is_limit_lem (some (text t)) n h e = absurd (ground arith)
is_limit_lem (some null) n h e = absurd (ground arith)
is_limit_lem (some (bool b)) n h e = absurd (ground arith)
is_limit_lem (some (arr i xs)) n h e = absurd (ground arith)
is_limit_lem (some (obj fs)) n h e = absurd (ground arith)

text_if_lem :
    (w : Word EvidenceKind) (at : List Part) (v : Option Value) {u : Unit {0}}
    → text_if (is_command w) at v ≡ accepted u
    → w ≡ exact command
    → (c : String) × (text_or_nothing v ≡ some c) × (is_blank c ≡ false)
text_if_lem w at v h e =
    let (c, read, _) = bind-accepted (as_text at v) _ (rw e at h) in
    let (given, full) = as_text-blank at v read in (c, rw given, full)

parse_requirement-good :
    (at : List Part) (entry : Value) (q : EvidenceRequirement)
    → parse_requirement at entry ≡ accepted q
    → IsGoodRequirement q
unfolding parse_requirement
parse_requirement-good at entry q h =
    let (fields, _, h1) = bind-accepted (as_object at (some entry)) _ h in
    let (kind, _, h2) =
      bind-accepted (as_word kind_word (under at "kind") (member "kind" fields)) _ h1 in
    let (u, commanded, h3) =
      bind-accepted (text_if (is_command kind) (under at "command") (member "command" fields)) _
        h2 in
    let (_, _, h4) =
      bind-accepted
        (text_if (is_test kind && is_undefined (member "command" fields)) (under at "path")
          (member "path" fields))
        _ h3 in
    let (u', timed, h5) =
      bind-accepted
        (require (is_timeout (member "timeoutMs" fields)) (under at "timeoutMs") must_be_positive) _
        h4 in
    record {
      runs = λ e. ground (
        arith,
        text_if_lem kind (under at "command") (member "command" fields) {u = u} commanded,
        h5,
      );
      waits = λ n e.
          is_timeout_lem (member "timeoutMs" fields) n (require-true _ _ _ {u = u'} timed)
            (ground arith);
    }

parse_path-good :
    (at : List Part) (v : Value) (path : String)
    → parse_path at v ≡ accepted path
    → IsAllowedPath path
unfolding parse_path
parse_path-good at v path h =
    let (p, read, h1) = bind-accepted (as_text at (some v)) _ h in
    let (u, inside, h2) =
      bind-accepted (require (not (is_foreign_path p)) at must_be_relative) _ h1 in
    let (_, full) = as_text-blank at (some v) read in
    ground
      (arith, full, h2, require-true (not (is_foreign_path p)) at must_be_relative {u = u} inside)

parse_repair-good :
    (at : List Part) (v : Option Value) (found : Option RuleRepair)
    → parse_repair at v ≡ accepted found
    → (x : RuleRepair) → found ≡ some x
    → IsGoodRepair x
unfolding parse_repair
parse_repair-good at none found h x e = absurd (ground arith)
parse_repair-good at (some v) found h x e =
    let (fields, _, h1) = bind-accepted (as_object at (some v)) _ h in
    let (paths, filled, h2) =
      bind-accepted
        (as_filled_array (under at "allowedPaths") must_have_path (member "allowedPaths" fields)) _
        h1 in
    let (allowed, each, h3) =
      bind-accepted
        (parse_each (λ n v. parse_path (under at "allowedPaths" ++ index n ∷ []) v) 0 paths) _ h2 in
    let (good, same) =
      parse_each-All IsAllowedPath (λ n v. parse_path (under at "allowedPaths" ++ index n ∷ []) v)
        (λ n v p. parse_path-good (under at "allowedPaths" ++ index n ∷ []) v p) 0 paths each in
    let here : allowed ≡ x.allowed_paths = ground arith in
    record {
      some_path = rw (← here) (
          same
          ∙ as_filled_array-ne (under at "allowedPaths") must_have_path
              (member "allowedPaths" fields) filled);
      inside = rw (← here) good;
    }

pub parse_rule-good :
    (n : ℕ) (v : Value) (r : OathRule) → parse_rule n v ≡ accepted r → IsGoodRule r
unfolding parse_rule
parse_rule-good n v r h =
    let at = key "rules" ∷ index n ∷ [] in
    let (fields, _, h1) = bind-accepted (as_object at (some v)) _ h in
    let (id, r1, h2) = bind-accepted (as_text (under at "id") (member "id" fields)) _ h1 in
    let (title, r2, h3) = bind-accepted (as_text (under at "title") (member "title" fields)) _ h2 in
    let (description, r3, h4) =
      bind-accepted (as_text (under at "description") (member "description" fields)) _ h3 in
    let (severity, _, h5) =
      bind-accepted (as_word severity_word (under at "severity") (member "severity" fields)) _ h4 in
    let (entries, filled, h6) =
      bind-accepted
        (as_filled_array (under at "evidence") must_have_check (member "evidence" fields)) _ h5 in
    let (evidence, each, h7) =
      bind-accepted
        (parse_each (λ k v. parse_requirement (under at "evidence" ++ index k ∷ []) v) 0 entries) _
        h6 in
    let (found, repaired, h8) =
      bind-accepted (parse_repair (under at "repair") (member "repair" fields)) _ h7 in
    let (good, same) =
      parse_each-All IsGoodRequirement
        (λ k v. parse_requirement (under at "evidence" ++ index k ∷ []) v)
        (λ k v q. parse_requirement-good (under at "evidence" ++ index k ∷ []) v q) 0 entries
        each in
    let here : evidence ≡ r.evidence = ground arith in
    record {
      named =
          ground (
            arith,
            (as_text-blank _ _ r1).1,
            (as_text-blank _ _ r2).1,
            (as_text-blank _ _ r3).1,
            h8,
          );
      checked = rw (← here) (
          same
          ∙ as_filled_array-ne (under at "evidence") must_have_check (member "evidence" fields)
              filled);
      requirements = rw (← here) good;
      repair = λ x e.
          parse_repair-good (under at "repair") (member "repair" fields) found repaired x
            (ground arith);
    }
