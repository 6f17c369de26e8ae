-- ===== src/Oath/Parse/Good.antt =====
-- What a good oath is, and what the readings of single values give
-- (src/domain/oath.ts).
use softwareoath.Oath.Evaluate.{is_empty}
use softwareoath.Oath.Text.{is_blank}
use softwareoath.Oath.Types.{
  EvidenceRequirement, RuleRepair, OathRule, CostPolicy, SoftwareOath, obj, cons, null, nil,
}
use softwareoath.Oath.Parse.{
  parse_each, refused, Part, exact, is_currency, Value, Problem, command, Number, require, text,
  is_foreign_path, is_integer, is_finite, all_distinct, bool, is_at_most_zero, is_negative, num,
  arr,
}
use softwareoath.Base.{
  List, ◌≡◌, Bool, String, Option, ℕ, refl, some, All, false, true, arith, ◌∷◌, map, suc, [], none,
}
use softwareoath.Oath.Reading.{◌>>=◌, accepted, Parsed, as_text, as_filled_array}

pub bind-accepted :
    {A B : Type 0} (m : Parsed A) (f : A → Parsed B) {b : B}
    → (m >>= f) ≡ accepted b
    → (a : A) × (m ≡ accepted a) × (f a ≡ accepted b)
bind-accepted (accepted a) f h = (a, refl, h)
bind-accepted (refused at p) f h = cc

-- The same for a chain of binds: the rest is proved of the value that the first part accepts.
pub after-accepted :
    {A B C : Type 0} (m : Parsed A) (f : A → Parsed B) {b : B}
    → (m >>= f) ≡ accepted b
    → ((a : A) → m ≡ accepted a → f a ≡ accepted b → C)
    → C
after-accepted (accepted a) f h k = k a refl h
after-accepted (refused at p) f h k = absurd (cc)

pub require-true :
    (b : Bool) (at : List Part) (p : Problem) {u : Unit {0}}
    → require b at p ≡ accepted u
    → b ≡ true
require-true true at p h = refl
require-true false at p h = cc

pub as_text-blank :
    (at : List Part) (v : Option Value) {s : String}
    → as_text at v ≡ accepted s
    → (v ≡ some (text s)) × (is_blank s ≡ false)
unfolding as_text
as_text-blank at none h = cc
as_text-blank at (some (text t)) h = ground arith
as_text-blank at (some null) h = cc
as_text-blank at (some (bool b)) h = cc
as_text-blank at (some (num n)) h = cc
as_text-blank at (some (arr i xs)) h = cc
as_text-blank at (some (obj fs)) h = cc

pub as_filled_array-ne :
    (at : List Part) (p : Problem) (v : Option Value) {vs : List Value}
    → as_filled_array at p v ≡ accepted vs
    → is_empty vs ≡ false
unfolding as_filled_array
as_filled_array-ne at p none h = cc
as_filled_array-ne at p (some (text t)) h = cc
as_filled_array-ne at p (some null) h = cc
as_filled_array-ne at p (some (bool b)) h = cc
as_filled_array-ne at p (some (num n)) h = cc
as_filled_array-ne at p (some (arr i nil)) h = cc
as_filled_array-ne at p (some (arr i (cons x xs))) h = ground arith
as_filled_array-ne at p (some (obj fs)) h = cc

pub parse_each-All :
    {A : Type 0} (P : A → Type 0) (f : ℕ → Value → Parsed A)
    → ((n : ℕ) (v : Value) (a : A) → f n v ≡ accepted a → P a)
    → (n : ℕ) (vs : List Value) {bs : List A} → parse_each f n vs ≡ accepted bs
    → All P bs × (is_empty bs ≡ is_empty vs)
unfolding parse_each
parse_each-All P f h n [] e = ground arith
parse_each-All P f h n (v ∷ vs) e =
    let (a, fa, e1) = bind-accepted (f n v) _ e in
    let (rest, fr, e2) = bind-accepted (parse_each f (suc n) vs) _ e1 in
    let (ih, _) = parse_each-All P f h (suc n) vs fr in ground (arith, h n v a fa, ih)

-- A path that stays in the repository.
abbrev pub IsAllowedPath : String → Type 0
IsAllowedPath path = (is_blank path ≡ false) × (is_foreign_path path ≡ false)

-- A command check has a command, and a timeout is a positive integer.
pub record IsGoodRequirement (q : EvidenceRequirement) : Type 0 where
  pub runs : q.kind ≡ exact command → (c : String) × (q.command ≡ some c) × (is_blank c ≡ false)
  pub waits :
      (n : Number) → q.timeout_ms ≡ some n → (is_integer n ≡ true) × (is_at_most_zero n ≡ false)

pub record IsGoodRepair (r : RuleRepair) : Type 0 where
  pub some_path : is_empty r.allowed_paths ≡ false
  pub inside : All IsAllowedPath r.allowed_paths

pub record IsGoodRule (r : OathRule) : Type 0 where
  pub named :
      (is_blank r.id ≡ false) × (is_blank r.title ≡ false) × (is_blank r.description ≡ false)
  pub checked : is_empty r.evidence ≡ false
  pub requirements : All IsGoodRequirement r.evidence
  pub repair : (x : RuleRepair) → r.repair ≡ some x → IsGoodRepair x

pub record IsGoodCost (c : CostPolicy) : Type 0 where
  pub currency : is_currency c.currency ≡ true
  pub monthly :
      (n : Number)
      → c.max_monthly_increase ≡ some n
      → (is_finite n ≡ true) × (is_negative n ≡ false)
  pub percentage :
      (n : Number)
      → c.max_percentage_increase ≡ some n
      → (is_finite n ≡ true) × (is_negative n ≡ false)

pub record IsGoodOath (o : SoftwareOath) : Type 0 where
  pub some_rule : is_empty o.rules ≡ false
  pub rules : All IsGoodRule o.rules
  pub distinct : all_distinct (map (λ r. r.id) o.rules) ≡ true
  pub cost : (c : CostPolicy) → o.cost ≡ some c → IsGoodCost c
