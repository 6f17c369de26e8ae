-- ===== src/Steward/Schedule/Cron.antt =====
-- One field of a cron expression, and what an instant shows in a time zone: `cronPart` and
-- `localParts` (src/steward/schedule.ts).
use softwareoath.Base.{
  ℕ, zero, suc, ◌+◌, ◌-◌, ◌/◌, ◌%◌, String, Bool, true, false, ◌&&◌, ◌==◌, Option, none, some, List,
  [], ◌∷◌, any, nat_eq, leb, if◌then◌else◌, split,
}
use softwareoath.Records.Values.{Number, finite, infinite, nan, is_integer, Timestamp}

-- A number that is a natural number.
unfoldable pub natural : Number → Option ℕ
natural (finite below n d) =
    if is_integer (finite below n d) && (not_below below n) then some (n / suc d) else none
  where
    not_below : Bool → ℕ → Bool
    not_below false n = true
    not_below true n = nat_eq n 0
natural (infinite _) = none
natural nan = none

-- `(a - b) % step === 0`, which does not ask for the sign.
abbrev pub is_multiple : ℕ → ℕ → ℕ → Bool
is_multiple a b zero = false
is_multiple a b (suc step) = nat_eq (((a - b) + (b - a)) % suc step) 0

-- What the fields of one instant show in a time zone. A field that names no number is `none`.
pub record LocalParts : Type 0 where
  pub minute : Option ℕ
  pub hour : Option ℕ
  pub day : Option ℕ
  pub month : Option ℕ
  pub weekday : Option ℕ

-- What the language and its time zones give: `Number(text)`, and the parts that
-- `Intl.DateTimeFormat` makes of an instant, or `none` where it throws for the time zone.
pub record Platform : Type 0 where
  pub to_number : String → Number
  pub format_to_parts : String → Timestamp → Option (List (String × String))

-- The last part of a type, as `Object.fromEntries` keeps it.
abbrev pub part_of : String → List (String × String) → Option String
part_of type [] = none
part_of type ((key, value) ∷ parts) = elim (part_of type parts) [
  | some later ↦ some later
  | none ↦ if key == type then some value else none
]

abbrev pub weekday_number : Option String → Option ℕ
weekday_number none = none
weekday_number (some name) =
    if name == "Sun"
    then some 0
    else if name == "Mon"
    then some 1
    else if name == "Tue"
    then some 2
    else if name == "Wed"
    then some 3
    else if name == "Thu"
    then some 4
    else if name == "Fri"
    then some 5
    else if name == "Sat"
    then some 6
    else none

-- `Number(values.minute)`, which is not a number where the part is missing.
abbrev pub number_of : Platform → Option String → Option ℕ
number_of platform none = none
number_of platform (some text) = natural (platform.to_number text)

-- `none` where the time zone is refused.
unfoldable pub local_parts : Platform → Timestamp → String → Option LocalParts
local_parts platform date timezone = elim (platform.format_to_parts timezone date) [
  | none ↦ none
  | some values ↦ some (record {
    minute = number_of platform (part_of "minute" values);
    hour = number_of platform (part_of "hour" values);
    day = number_of platform (part_of "day" values);
    month = number_of platform (part_of "month" values);
    weekday = weekday_number (part_of "weekday" values);
  })
]

-- `Number.isInteger(step) && step > 0`, for the text after the first stroke; 1 where it is missing or
-- empty.
unfoldable pub step_of : Platform → List String → Option ℕ
step_of platform (_ ∷ text ∷ _) =
    if text == "" then some 1 else positive (natural (platform.to_number text))
  where
    positive : Option ℕ → Option ℕ
    positive none = none
    positive (some n) = if nat_eq n 0 then none else some n
step_of platform _ = some 1

-- The bounds of a range `start-end`, or of one number.
unfoldable pub bounds_of : Platform → List String → Option (ℕ × ℕ)
bounds_of platform (first ∷ last ∷ _) = elim (natural (platform.to_number first)) [
  | none ↦ none
  | some start ↦ elim (natural (platform.to_number last)) [
    | none ↦ none
    | some end ↦ some (start, end)
  ]
]
bounds_of platform (first ∷ []) = elim (natural (platform.to_number first)) [
  | none ↦ none
  | some start ↦ some (start, start)
]
bounds_of platform [] = none

-- Whether one term of a field admits a value.
unfoldable pub in_range : Option (ℕ × ℕ) → ℕ → ℕ → ℕ → ℕ → Bool
in_range none step value minimum maximum = false
in_range (some (start, end)) step value minimum maximum =
    leb minimum start
    && leb end maximum
    && leb start value
    && leb value end
    && is_multiple value start step

abbrev pub head_text : List String → String
head_text [] = ""
head_text (s ∷ _) = s

unfoldable pub term_matches : Platform → String → ℕ → ℕ → ℕ → Bool
term_matches platform term value minimum maximum =
    let pieces = split b'/' term in
    let range = head_text pieces in
    elim (step_of platform pieces) [
      | none ↦ false
      | some step ↦
          if range == "*"
          then is_multiple value minimum step
          else in_range (bounds_of platform (split b'-' range)) step value minimum maximum
    ]

-- A value that is not a number passes no term.
unfoldable pub cron_part : Platform → String → Option ℕ → ℕ → ℕ → Bool
cron_part platform part none minimum maximum = false
cron_part platform part (some value) minimum maximum =
    any (λ term. term_matches platform term value minimum maximum) (split b',' part)
