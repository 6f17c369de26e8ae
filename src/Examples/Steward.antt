-- ===== src/Examples/Steward.antt =====
-- The laws of the steward's schedule, for a daily schedule and a time zone without shift.
use softwareoath.Steward.Schedule.Enqueue.{is_disabled}
use softwareoath.Base.Sort.{sort}
use softwareoath.Steward.Schedule.Enqueue.Soundness.{enqueue_due-IsSound}
use softwareoath.Steward.Schedule.Cron.{
  natural, Platform, local_parts, step_of, bounds_of, in_range, term_matches, cron_part,
}
use softwareoath.Base.{is_space, filter}
use softwareoath.Steward.Schedule.Enqueue.Laws.{
  enqueue_twice, enqueue-is_due, enqueue_failed_adds_run,
}
use softwareoath.Examples.Data.{shop}
use softwareoath.Steward.Schedule.Laws.{
  admits, next_scheduled_at_first, next_scheduled_at_found, next_scheduled_at_due,
}
use softwareoath.Records.Data.{ControlPlaneData}
use softwareoath.Base.{◌++◌, ◌<◌, ◌≢◌, ◌≤◌, true, arith}
use softwareoath.Store.Sound.{IsSound}
use softwareoath.Records.Repository.{custom, RepositoryRegistration}
use softwareoath.Steward.Schedule.Enqueue.{
  by_schedule, enqueue_failed, settle_schedule, Ids, enqueue_stewardship_run,
  enqueue_due_stewardship_runs, stewardship_records, is_due,
}
use softwareoath.Steward.Schedule.{not_five_fields}
use softwareoath.Store.Incidents.{add_incident, same_origin}
use softwareoath.Store.Registry.{get_repository, list_repositories}
use softwareoath.Records.Repository.{Schedule, daily}
use softwareoath.Records.Values.{is_integer, Timestamp, Property}
use softwareoath.Base.{split, words}
use softwareoath.Steward.Schedule.{schedule_cron, cron_fields, rounds_of_year, find_minute, occurs}
use softwareoath.Base.{
  ℕ, ◌+◌, ◌*◌, ◌-◌, ◌/◌, ◌%◌, String, Option, List, [], ◌∷◌, some, none, false, ◌≡◌, refl, leb,
  ◌&&◌, two_digits, digit, if◌then◌else◌,
}
use softwareoath.Records.Values.{Number, finite, nan}
use softwareoath.Steward.Schedule.{next_at, next_scheduled_at}
use Prim.Native.Char.{code}

abbrev digits_of : ℕ → String → Number
digits_of n String.[] = finite false n 0
digits_of n (String.◌∷◌ c s) =
    let rest = digits_of (10 * n + (code c - 48)) s in
    if leb 48 (code c) && leb (code c) 57 then rest else nan

-- The first of January, whatever the day.
abbrev clock : String → Timestamp → Option (List (String × String))
clock zone t = some (
    ("minute", two_digits (t / 60000 % 60) "")
    ∷ ("hour", two_digits (t / 3600000 % 24) "")
    ∷ ("day", "1")
    ∷ ("month", "1")
    ∷ ("weekday", "Thu")
    ∷ [])

abbrev platform : Platform
platform = record { to_number = digits_of 0; format_to_parts = clock }

abbrev every_day : Schedule
every_day = record { mode = daily; cron = none; timezone = "UTC" }

-- Two minutes before five.
abbrev before_five : Timestamp
before_five = 17900000

five : next_scheduled_at platform every_day before_five ≡ next_at 18000000
unfolding next_scheduled_at schedule_cron cron_fields words rounds_of_year find_minute occurs
    local_parts cron_part term_matches split step_of bounds_of in_range natural is_space two_digits
    digit is_integer
five = refl

next_scheduled_at_due_example :
    (before_five < 18000000)
    × (18000000 ≤ before_five + 366 * 24 * 60 * 60000)
    × (18000000 % 60000 ≡ 0)
    × (admits platform every_day 18000000 ≡ some true)
next_scheduled_at_due_example = next_scheduled_at_due platform every_day before_five five

next_scheduled_at_first_example : admits platform every_day 17940000 ≡ some false
next_scheduled_at_first_example =
    next_scheduled_at_first platform every_day before_five 17940000 five (omega arith) (omega arith)
      (omega arith)

every_zone : (x : Timestamp) → local_parts platform x "UTC" ≢ none
unfolding local_parts
every_zone x = ground arith

next_scheduled_at_found_example :
    (t : Timestamp) × (next_scheduled_at platform every_day before_five ≡ next_at t)
    × (t ≤ 18000000)
next_scheduled_at_found_example =
    next_scheduled_at_found platform every_day before_five 18000000 every_zone (omega arith)
      (omega arith) (omega arith) (next_scheduled_at_due platform every_day before_five five).3

abbrev daily_shop : RepositoryRegistration Property
daily_shop = record {
  id = "g1";
  repository = "acme/shop";
  clone_url = "https://example.org/shop.git";
  default_branch = "main";
  installation_id = none;
  local_path = none;
  schedule = every_day;
  policy = record {
    max_pull_requests_per_run = 1;
    max_ci_repair_attempts = 2;
    allow_major_package_updates = false;
  };
  next_run_at = some (some 500);
  last_run_at = none;
  created_at = 60;
  updated_at = 60;
}

-- A custom schedule whose text has one field.
abbrev broken_shop : RepositoryRegistration Property
broken_shop = record daily_shop {
  schedule = record { mode = custom; cron = some "hourly"; timezone = "UTC" };
}

abbrev ids : String → Ids
ids id = record { sha256 = λ s. s; manual_uuid = "m"; incident_uuid = id; run_uuid = id }

enqueue_twice_example :
    let first =
      (enqueue_stewardship_run platform (ids "1") daily_shop by_schedule 17900000 shop).0 in
    let second = enqueue_stewardship_run platform (ids "2") daily_shop by_schedule 17939999 first in
    (second.0.incidents ≡ first.incidents)
    × (second.0.runs ≡ first.runs)
    × (second.1
        ≡ (settle_schedule platform daily_shop 17939999
            (stewardship_records (ids "1") daily_shop by_schedule 17900000).1
            first).1)
enqueue_twice_example =
    enqueue_twice platform (ids "1") (ids "2") daily_shop 17900000 17939999 shop (omega arith)
      (unfold add_incident same_origin stewardship_records in refl)
      (unfold stewardship_records in refl)

enqueue-is_due_example :
    (r : RepositoryRegistration Option) × (get_repository "acme/shop"
        (enqueue_stewardship_run platform (ids "1") daily_shop by_schedule before_five shop).0
      ≡ some r)
    × (is_due 18000001 r ≡ leb 18000000 18000001)
    × (before_five < 18000000)
enqueue-is_due_example =
    enqueue-is_due platform (ids "1") daily_shop by_schedule before_five 18000001 shop five

enqueue_failed_adds_run_example :
    let result =
      enqueue_stewardship_run platform (ids "1") broken_shop by_schedule before_five shop in
    (result.1 ≡ enqueue_failed not_five_fields)
    × (result.0.runs
        ≡ shop.runs ++ (stewardship_records (ids "1") broken_shop by_schedule before_five).1 ∷ [])
    × (result.0.repositories ≡ shop.repositories)
enqueue_failed_adds_run_example =
    enqueue_failed_adds_run platform (ids "1") broken_shop by_schedule before_five shop
      (unfold next_scheduled_at schedule_cron cron_fields words is_space in refl)
      (unfold add_incident same_origin stewardship_records in refl)

-- The document with an incident, two runs, and one registration, which is due.
abbrev stored_daily : RepositoryRegistration Option
stored_daily = record {
  id = "g1";
  repository = "acme/shop";
  clone_url = "https://example.org/shop.git";
  default_branch = "main";
  installation_id = none;
  local_path = none;
  schedule = every_day;
  policy = daily_shop.policy;
  next_run_at = some 500;
  last_run_at = none;
  created_at = 60;
  updated_at = 60;
}

abbrev due_shop : ControlPlaneData
due_shop = record shop { repositories = stored_daily ∷ [] }

shop_is_due : filter (is_due before_five) (list_repositories due_shop) ≡ stored_daily ∷ []
unfolding list_repositories sort is_due is_disabled
shop_is_due = refl

due_shop-IsSound : IsSound due_shop
due_shop-IsSound = record {
  origins = (refl, tt);
  started = (refl, (refl, tt));
  budget = (omega arith, (omega arith, tt));
}

enqueue_due-IsSound_example :
    IsSound (enqueue_due_stewardship_runs platform ids before_five due_shop).0
enqueue_due-IsSound_example = enqueue_due-IsSound platform ids before_five due_shop due_shop-IsSound
