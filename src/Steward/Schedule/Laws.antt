-- ===== src/Steward/Schedule/Laws.antt =====
-- The search for the next time of a schedule (src/steward/schedule.ts, `nextScheduledAt`).
use softwareoath.Steward.Schedule.Cron.{Platform, local_parts}
use softwareoath.Steward.Schedule.{
  no_cron, missing_cron, cron_text, next_scheduled_at, cron_fields, occurs, CronFields, CronText,
  rounds_of_year, next_minute, Next, Option, find_minute, Schedule, Bool, ℕ, schedule_cron, next_at,
}
use softwareoath.Base.{
  ◌<◌, ◌≡◌, ◌+◌, ◌*◌, arith, some, suc, true, false, subst, none, Option-cases, ◌≤◌, inl, ◌%◌, inr,
  zero, ◌≢◌, String, refl, ◌∙◌, sym, ◌-◌, ◌/◌,
}
use softwareoath.Records.Values.{Timestamp}

pub data Scanned (test : Timestamp → Option Bool) (rounds : ℕ) (c : Timestamp) (t : Timestamp)
    : Type 0 where
  scanned_at :
      (k : ℕ)
      → k < rounds
      → t ≡ c + k * 60000
      → test t ≡ some true
      → ((j : ℕ) → j < k → test (c + j * 60000) ≡ some false)
      → Scanned test rounds c t

find_minute-Scanned :
    (test : Timestamp → Option Bool) (rounds : ℕ) (c : Timestamp) {t : Timestamp}
    → find_minute test rounds c ≡ next_at t
    → Scanned test rounds c t
unfolding find_minute
find_minute-Scanned test zero c e = ground arith
find_minute-Scanned test (suc rounds) c {t} e = elim (Option-cases (test c)) [
  | inl refused ↦ ground (arith, refused)
  | inr (true, passes) ↦
      scanned_at 0 (omega arith) (ground (arith, passes)) (ground (arith, passes))
        (λ j h. ground arith)
  | inr (false, fails) ↦
      later fails (find_minute-Scanned test rounds (c + 60000) (ground (arith, fails)))
]
  where
    later : test c ≡ some false → Scanned test rounds (c + 60000) t → Scanned test (suc rounds) c t
    later fails (scanned_at k inside place passes before) =
        scanned_at (suc k) (omega arith) (omega arith) passes (λ j h. earlier j h)
      where
        earlier : (j : ℕ) → j < suc k → test (c + j * 60000) ≡ some false
        earlier zero h = ground (arith, fails)
        earlier (suc j) h = subst (λ x. test x ≡ some false) (omega arith) (before j (omega arith))

-- What a schedule says of an instant: whether its expression admits it, if it has one.
unfoldable pub admits : Platform → Schedule → Timestamp → Option Bool
admits platform schedule m = elim (schedule_cron schedule) [
  | no_cron ↦ none
  | missing_cron ↦ none
  | cron_text expression ↦ elim (cron_fields expression) [
    | none ↦ none
    | some fields ↦ occurs platform fields schedule.timezone m
  ]
]

-- An expression of five fields, or what the function gives instead of a search.
data Planned (platform : Platform) (schedule : Schedule) (after : Timestamp) : Type 0 where
  planned :
      (test : Timestamp → Option Bool)
      → ((m : Timestamp) → admits platform schedule m ≡ test m)
      → ((m : Timestamp) → local_parts platform m schedule.timezone ≢ none → test m ≢ none)
      → next_scheduled_at platform schedule after
        ≡ find_minute test rounds_of_year (next_minute after)
      → Planned platform schedule after
  unplanned :
      ((t : Timestamp) → next_scheduled_at platform schedule after ≢ next_at t)
      → ((m : Timestamp) → admits platform schedule m ≡ none)
      → Planned platform schedule after

occurs-none :
    (platform : Platform) (fields : CronFields) (timezone : String) (m : Timestamp)
    → local_parts platform m timezone ≢ none
    → occurs platform fields timezone m ≢ none
unfolding occurs
occurs-none platform fields timezone m known =
    elim (Option-cases (local_parts platform m timezone)) [
      | inl refused ↦ ground (arith, known, refused)
      | inr (at, shown) ↦ ground (arith, shown)
    ]

plan :
    (platform : Platform) (schedule : Schedule) (after : Timestamp)
    → Planned platform schedule after
plan platform schedule after = of_cron (schedule_cron schedule) refl
  where
    of_cron : (c : CronText) → schedule_cron schedule ≡ c → Planned platform schedule after
    of_cron no_cron e =
        unfold next_scheduled_at admits in
        unplanned (λ t. ground (arith, e)) (λ m. ground (arith, e))
    of_cron missing_cron e =
        unfold next_scheduled_at admits in
        unplanned (λ t. ground (arith, e)) (λ m. ground (arith, e))
    of_cron (cron_text expression) e = elim (Option-cases (cron_fields expression)) [
      | inl wrong ↦
          unfold next_scheduled_at admits in
          unplanned (λ t. ground (arith, e, wrong)) (λ m. ground (arith, e, wrong))
      | inr (fields, right) ↦
          unfold next_scheduled_at admits in
          planned (occurs platform fields schedule.timezone) (λ m. ground (arith, e, right))
            (occurs-none platform fields schedule.timezone) (ground (arith, e, right))
    ]

-- What `nextScheduledAt` gives is a start of a minute after the instant, within 366 days, that the
-- expression of the schedule admits.
pub next_scheduled_at_due :
    (platform : Platform) (schedule : Schedule) (after : Timestamp) {t : Timestamp}
    → next_scheduled_at platform schedule after ≡ next_at t
    → (after < t)
      × (t ≤ after + 366 * 24 * 60 * 60000)
      × (t % 60000 ≡ 0)
      × (admits platform schedule t ≡ some true)
next_scheduled_at_due platform schedule after {t} e = of_plan (plan platform schedule after)
  where
    of_search :
        (test : Timestamp → Option Bool)
        → admits platform schedule t ≡ test t
        → Scanned test rounds_of_year (next_minute after) t
        → (after < t)
          × (t ≤ after + 366 * 24 * 60 * 60000)
          × (t % 60000 ≡ 0)
          × (admits platform schedule t ≡ some true)
    of_search test same (scanned_at k inside place passes _) =
        unfold rounds_of_year in (omega arith, omega arith, omega arith, same ∙ passes)

    of_plan :
        Planned platform schedule after
        → (after < t)
          × (t ≤ after + 366 * 24 * 60 * 60000)
          × (t % 60000 ≡ 0)
          × (admits platform schedule t ≡ some true)
    of_plan (planned test same _ is) =
        of_search test (same t)
          (find_minute-Scanned test rounds_of_year (next_minute after) (sym is ∙ e))
    of_plan (unplanned not_at _) = absurd (not_at t e)

-- No minute between the instant and what `nextScheduledAt` gives for it is admitted by the
-- expression: it is the first that is.
pub next_scheduled_at_first :
    (platform : Platform) (schedule : Schedule) (after : Timestamp) (m : Timestamp) {t : Timestamp}
    → next_scheduled_at platform schedule after ≡ next_at t
    → m % 60000 ≡ 0
    → after < m
    → m < t
    → admits platform schedule m ≡ some false
next_scheduled_at_first platform schedule after m {t} e on_minute later before =
    of_plan (plan platform schedule after)
  where
    of_search :
        (test : Timestamp → Option Bool)
        → Scanned test rounds_of_year (next_minute after) t
        → test m ≡ some false
    of_search test (scanned_at k inside place passes none_before) =
        subst (λ x. test x ≡ some false) (omega arith)
          (none_before ((m - next_minute after) / 60000) (omega arith))

    of_plan : Planned platform schedule after → admits platform schedule m ≡ some false
    of_plan (planned test same _ is) =
        same m
        ∙ of_search test (find_minute-Scanned test rounds_of_year (next_minute after) (sym is ∙ e))
    of_plan (unplanned not_at _) = absurd (not_at t e)

find_minute-found :
    (test : Timestamp → Option Bool) (rounds : ℕ) (c : Timestamp) (k : ℕ)
    → ((x : Timestamp) → test x ≢ none)
    → k < rounds
    → test (c + k * 60000) ≡ some true
    → (t : Timestamp) × (find_minute test rounds c ≡ next_at t) × (t ≤ c + k * 60000)
unfolding find_minute
find_minute-found test zero c k known inside passes = ground arith
find_minute-found test (suc rounds) c zero known inside passes =
    (c, ground (arith, passes), omega arith)
find_minute-found test (suc rounds) c (suc k) known inside passes = elim (Option-cases (test c)) [
  | inl refused ↦ absurd (known c refused)
  | inr (true, here) ↦ (c, ground (arith, here), omega arith)
  | inr (false, fails) ↦ later fails (
      find_minute-found test rounds (c + 60000) k known (omega arith)
        (subst (λ x. test x ≡ some true) (omega arith) passes))
]
  where
    later :
        test c ≡ some false
        → (t : Timestamp) × (find_minute test rounds (c + 60000) ≡ next_at t)
          × (t ≤ c + 60000 + k * 60000)
        → (t : Timestamp) × (find_minute test (suc rounds) c ≡ next_at t) × (t ≤ c + suc k * 60000)
    later fails (t, at, bound) = (t, ground (arith, fails, at), omega arith)

-- Where the expression admits a minute of the next 366 days, and the time zone is known,
-- `nextScheduledAt` gives a time, which is not later than that minute.
pub next_scheduled_at_found :
    (platform : Platform) (schedule : Schedule) (after : Timestamp) (m : Timestamp)
    → ((x : Timestamp) → local_parts platform x schedule.timezone ≢ none)
    → m % 60000 ≡ 0
    → after < m
    → m ≤ after + 366 * 24 * 60 * 60000
    → admits platform schedule m ≡ some true
    → (t : Timestamp) × (next_scheduled_at platform schedule after ≡ next_at t) × (t ≤ m)
next_scheduled_at_found platform schedule after m known on_minute later within passes =
    of_plan (plan platform schedule after)
  where
    finish :
        {o : Next}
        → next_scheduled_at platform schedule after ≡ o
        → (t : Timestamp) × (o ≡ next_at t)
          × (t ≤ next_minute after + (m - next_minute after) / 60000 * 60000)
        → (t : Timestamp) × (next_scheduled_at platform schedule after ≡ next_at t) × (t ≤ m)
    finish is (t, at, bound) = (t, is ∙ at, omega arith)

    of_plan :
        Planned platform schedule after
        → (t : Timestamp) × (next_scheduled_at platform schedule after ≡ next_at t) × (t ≤ m)
    of_plan (planned test same zone is) = finish is (
        find_minute-found test rounds_of_year (next_minute after) ((m - next_minute after) / 60000)
          (λ x. zone x (known x)) (unfold rounds_of_year in omega arith)
          (subst (λ x. test x ≡ some true) (omega arith) (sym (same m) ∙ passes)))
    of_plan (unplanned _ nothing) = ground (arith, nothing m, passes)
