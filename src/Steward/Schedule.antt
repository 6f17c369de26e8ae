-- ===== src/Steward/Schedule.antt =====
-- When a repository is looked at again: `scheduleCron` and `nextScheduledAt` (src/steward/schedule.ts).
pub mod Cron
pub mod Laws
pub mod Enqueue
use softwareoath.Steward.Schedule.Cron.{Platform, local_parts, cron_part}
use softwareoath.Base.{
  ℕ, zero, suc, ◌+◌, ◌-◌, ◌*◌, ◌/◌, ◌%◌, String, Bool, true, false, ◌&&◌, ◌==◌, Option, none, some,
  List, [], ◌∷◌, any, nat_eq, leb, if◌then◌else◌, split, words,
}
use softwareoath.Records.Values.{Number, finite, infinite, nan, is_integer, Timestamp}
use softwareoath.Records.Repository.{Schedule, disabled, daily, weekly, custom}

-- The errors of a schedule, by their messages.
pub data ScheduleError : Type 0 where
  custom_without_cron not_five_fields bad_time_zone no_occurrence : ScheduleError

-- No expression, an expression, or an error.
pub data CronText : Type 0 where
  no_cron : CronText
  cron_text : String → CronText
  missing_cron : CronText

unfoldable pub schedule_cron : Schedule → CronText
schedule_cron schedule = elim schedule.mode [
  | disabled ↦ no_cron
  | daily ↦ cron_text "0 5 * * *"
  | weekly ↦ cron_text "0 5 * * 1"
  | custom ↦ given_cron schedule.cron
]
  where
    given_cron : Option String → CronText
    given_cron none = missing_cron
    given_cron (some text) = if text == "" then missing_cron else cron_text text

pub record CronFields : Type 0 where
  pub minutes : String
  pub hours : String
  pub days : String
  pub months : String
  pub weekdays : String

-- `expression.trim().split(/\s+/)`, which must give five parts.
unfoldable pub cron_fields : String → Option CronFields
cron_fields expression = five_parts (words false expression)
  where
    five_parts : List String → Option CronFields
    five_parts (a ∷ b ∷ c ∷ d ∷ e ∷ []) =
        some (record { minutes = a; hours = b; days = c; months = d; weekdays = e })
    five_parts _ = none

-- The test of the loop at one candidate; `none` where the time zone is refused.
unfoldable pub occurs : Platform → CronFields → String → Timestamp → Option Bool
occurs platform fields timezone candidate = elim (local_parts platform candidate timezone) [
  | none ↦ none
  | some at ↦ some (
      cron_part platform fields.minutes at.minute 0 59
      && cron_part platform fields.hours at.hour 0 23
      && cron_part platform fields.days at.day 1 31
      && cron_part platform fields.months at.month 1 12
      && cron_part platform fields.weekdays at.weekday 0 6)
]

-- No next time, the next time, or the error that is thrown.
pub data Next : Type 0 where
  never : Next
  next_at : Timestamp → Next
  schedule_failed : ScheduleError → Next

-- The loop, over the rounds that are left.
unfoldable pub find_minute : (Timestamp → Option Bool) → ℕ → Timestamp → Next
find_minute test zero candidate = schedule_failed no_occurrence
find_minute test (suc rounds) candidate =
    let rest = find_minute test rounds (candidate + 60000) in
    elim (test candidate) [
      | none ↦ schedule_failed bad_time_zone
      | some passes ↦ if passes then next_at candidate else rest
    ]

-- The minutes of 366 days.
unfoldable pub rounds_of_year : ℕ
rounds_of_year = 366 * 24 * 60

-- The start of the minute after an instant.
abbrev pub next_minute : Timestamp → Timestamp
next_minute after = after / 60000 * 60000 + 60000

unfoldable pub next_scheduled_at : Platform → Schedule → Timestamp → Next
next_scheduled_at platform schedule after = elim (schedule_cron schedule) [
  | no_cron ↦ never
  | missing_cron ↦ schedule_failed custom_without_cron
  | cron_text expression ↦ elim (cron_fields expression) [
    | none ↦ schedule_failed not_five_fields
    | some fields ↦
        find_minute (occurs platform fields schedule.timezone) rounds_of_year (next_minute after)
  ]
]
