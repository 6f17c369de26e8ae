-- ===== src/Oath/Reading.antt =====
-- How the parser of an oath reads single values, with errors that say where they are and what is
-- wrong there (src/domain/oath.ts).
use softwareoath.Oath.Text.{is_blank}
use softwareoath.Oath.Types.{
  nil, Value, RuleSeverity, EvidenceKind, Word, Fields, text, arr, critical, command, exact, num,
  bool, obj, cons, high, test, wrapped, items, medium, review, low,
}
use softwareoath.Base.{
  ℕ, String, Bool, true, false, not, Option, none, some, List, ◌∷◌, ◌==◌, if◌then◌else◌,
}
use softwareoath.Records.Values.{Number}

-- A part of the path to the value that an error is about.
pub data Part : Type 0 where
  key : String → Part
  index : ℕ → Part

pub data Problem : Type 0 where
  must_be_object must_be_text must_be_one must_be_boolean must_be_array : Problem
  must_have_check must_have_path must_have_rule : Problem
  invalid_word must_be_positive must_be_relative must_not_merge must_be_unique : Problem
  must_be_currency must_be_non_negative : Problem

pub data Parsed (A : Type 0) : Type 0 where
  accepted : A → Parsed A
  refused : List Part → Problem → Parsed A

infixl 5 ◌>>=◌ ◌>>◌
abbrev pub ◌>>=◌ : {A B : Type 0} → Parsed A → (A → Parsed B) → Parsed B
accepted a >>= f = f a
refused at p >>= f = refused at p

abbrev pub ◌>>◌ : {B : Type 0} → Parsed (Unit {0}) → Parsed B → Parsed B
m >> k = m >>= λ _. k

-- `if (!condition) throw …`
abbrev pub require : Bool → List Part → Problem → Parsed (Unit {0})
require true at p = accepted tt
require false at p = refused at p

unfoldable pub as_object : List Part → Option Value → Parsed Fields
as_object at (some (obj fields)) = accepted fields
as_object at _ = refused at must_be_object

-- `assertString`
unfoldable pub as_text : List Part → Option Value → Parsed String
as_text at (some (text s)) = if is_blank s then refused at must_be_text else accepted s
as_text at _ = refused at must_be_text

-- `!Array.isArray(value) || value.length === 0`
unfoldable pub as_filled_array : List Part → Problem → Option Value → Parsed (List Value)
as_filled_array at p (some (arr _ (cons v vs))) = accepted (v ∷ items vs)
as_filled_array at p _ = refused at p

abbrev pub severity_word : String → Option RuleSeverity
severity_word s =
    if s == "critical"
    then some critical
    else if s == "high"
    then some high
    else if s == "medium"
    then some medium
    else if s == "low"
    then some low
    else none

abbrev pub kind_word : String → Option EvidenceKind
kind_word s =
    if s == "command"
    then some command
    else if s == "test"
    then some test
    else if s == "review"
    then some review
    else none

abbrev pub wrap : {A : Type 0} → ℕ → Option (Word A) → Option (Word A)
wrap i none = none
wrap i (some (exact a)) = some (wrapped i a)
wrap i (some (wrapped _ a)) = some (wrapped i a)

-- The word that `String(value)` is. The text of an array is its items' texts with commas between
-- them, and no word has a comma or is empty.
unfoldable pub word_of : {A : Type 0} → (String → Option A) → Value → Option (Word A)
word_of word (text s) = elim (word s) [ none ↦ none | some a ↦ some (exact a) ]
word_of word (arr i (cons v nil)) = wrap i (word_of word v)
word_of word _ = none

abbrev pub as_word : {A : Type 0} → (String → Option A) → List Part → Option Value → Parsed (Word A)
as_word word at none = refused at invalid_word
as_word word at (some v) = elim (word_of word v) [
  | none ↦ refused at invalid_word
  | some w ↦ accepted w
]

-- `typeof value === "string" ? value : undefined`
abbrev pub text_or_nothing : Option Value → Option String
text_or_nothing (some (text s)) = some s
text_or_nothing _ = none

abbrev pub number_or_nothing : Option Value → Option Number
number_or_nothing (some (num n)) = some n
number_or_nothing _ = none

abbrev pub is_true : Option Value → Bool
is_true (some (bool b)) = b
is_true _ = false

abbrev pub is_false : Option Value → Bool
is_false (some (bool b)) = not b
is_false _ = false
