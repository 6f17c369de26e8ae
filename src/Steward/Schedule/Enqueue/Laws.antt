-- ===== src/Steward/Schedule/Enqueue/Laws.antt =====
-- What the steward does to the store (src/steward/schedule.ts, `enqueueStewardshipRun` and
-- `enqueueDueStewardshipRuns`).
use softwareoath.Steward.Schedule.Cron.{Platform}
use softwareoath.Store.Registry.{merge_registration, new_registration}
use softwareoath.Steward.Schedule.{schedule_cron, Schedule}
use softwareoath.Steward.Schedule.Laws.{next_scheduled_at_due}
use softwareoath.Store.Registry.Laws.{get_repository-upsert_repository}
use softwareoath.Store.Registry.{upsert_repository, get_repository}
use softwareoath.Store.History.Untouched.{SameRuns}
use softwareoath.Base.{◌++◌, Option, ◌∷◌, some, [], leb, ◌<◌}
use softwareoath.Store.Incidents.Laws.{add_incident_duplicate}
use softwareoath.Store.Incidents.{add_incident, same_origin, Intake}
use softwareoath.Steward.Schedule.Enqueue.{
  settle_schedule, IncidentRecord, HostedRunRecord, stewardship_records, enqueue_stewardship_run,
  RepositoryRegistration, external_id_of, Ids, Property, by_schedule, Trigger, enqueue_failed,
  is_due, scheduled_registration, enqueued, is_disabled,
}
use softwareoath.Records.Data.{ControlPlaneData}
use softwareoath.Base.{
  take_text, iso_text, minute_text, ◌≡◌, two_digits, ◌/◌, ℕ, Option-cases, String, find, refl, inl,
  arith, inr, true, false, eq_refl, ◌==◌, none, ◌∙◌, ap, sym,
}
use softwareoath.Steward.Schedule.{
  next_at, schedule_failed, Timestamp, next_scheduled_at, ScheduleError,
}

minute-length :
    (m : ℕ) (a b : String) → take_text 16 (minute_text m a) ≡ take_text 16 (minute_text m b)
unfolding take_text minute_text two_digits
minute-length m a b = refl

-- Instants of one minute have one text up to the minutes.
iso_text-minute :
    (a b : Timestamp)
    → a / 60000 ≡ b / 60000
    → take_text 16 (iso_text a) ≡ take_text 16 (iso_text b)
unfolding iso_text
iso_text-minute a b same = rw same (minute-length _ _ _)

pub settle_schedule-SameRuns :
    (platform : Platform) (registration : RepositoryRegistration Property) (now : Timestamp)
    (run : HostedRunRecord) (doc : ControlPlaneData)
    → SameRuns (settle_schedule platform registration now run doc).0 doc
unfolding SameRuns settle_schedule upsert_repository
settle_schedule-SameRuns platform registration now run doc = (ground arith, ground arith)

add_incident-SameRuns :
    (i : IncidentRecord) (r : HostedRunRecord) (a b : ControlPlaneData)
    → SameRuns a b
    → ((add_incident i r a).1 ≡ (add_incident i r b).1)
      × SameRuns (add_incident i r a).0 (add_incident i r b).0
unfolding SameRuns add_incident
add_incident-SameRuns i r a b (same_is, same_rs) =
    elim (Option-cases (find (λ x. same_origin x i) b.incidents)) [
      | inl fresh ↦ (
        ground (arith, same_is, same_rs, fresh),
        (ground (arith, same_is, same_rs, fresh), ground (arith, same_is, same_rs, fresh)),
      )
      | inr (old, found) ↦ (
        ground (arith, same_is, same_rs, found),
        (ground (arith, same_is, same_rs, found), ground (arith, same_is, same_rs, found)),
      )
    ]

same_minute_origin :
    (ids other_ids : Ids) (registration : RepositoryRegistration Property) (now later : Timestamp)
    → now / 60000 ≡ later / 60000
    → same_origin
        (stewardship_records ids registration by_schedule now).0
        (stewardship_records other_ids registration by_schedule later).0
      ≡ true
unfolding same_origin stewardship_records external_id_of
same_minute_origin ids other_ids registration now later same =
    rw (iso_text-minute now later same) (eq_refl _)

pub records-own :
    (ids : Ids) (registration : RepositoryRegistration Property) (trigger : Trigger)
    (now : Timestamp)
    → (stewardship_records ids registration trigger now).1.incident_id
      ≡ (stewardship_records ids registration trigger now).0.id
unfolding stewardship_records
records-own ids registration trigger now = refl

settle_schedule-result :
    (platform : Platform) (registration : RepositoryRegistration Property) (now : Timestamp)
    (run : HostedRunRecord) (a b : ControlPlaneData)
    → (settle_schedule platform registration now run a).1
      ≡ (settle_schedule platform registration now run b).1
unfolding settle_schedule
settle_schedule-result platform registration now run a b = ground arith

-- In the minute in which the schedule has started a run for a registration, it starts no second one:
-- the call finds the incident of that minute, adds no incident and no run, and goes on with the first
-- run. The first call is to be for a new incident, whose id no earlier run carries.
pub enqueue_twice :
    (platform : Platform) (ids other_ids : Ids) (registration : RepositoryRegistration Property)
    (now later : Timestamp) (doc : ControlPlaneData)
    → now / 60000 ≡ later / 60000
    → (add_incident
        (stewardship_records ids registration by_schedule now).0
        (stewardship_records ids registration by_schedule now).1
        doc).1.duplicate
      ≡ false
    → find
        (λ r. r.incident_id == (stewardship_records ids registration by_schedule now).0.id)
        doc.runs
      ≡ none
    → let first = (enqueue_stewardship_run platform ids registration by_schedule now doc).0 in
      let second =
        enqueue_stewardship_run platform other_ids registration by_schedule later first in
      (second.0.incidents ≡ first.incidents)
      × (second.0.runs ≡ first.runs)
      × (second.1
          ≡ (settle_schedule platform registration later
              (stewardship_records ids registration by_schedule now).1
              first).1)
unfolding enqueue_stewardship_run
enqueue_twice platform ids other_ids registration now later doc same new unused =
    let one = stewardship_records ids registration by_schedule now in
    let two = stewardship_records other_ids registration by_schedule later in
    let added = add_incident one.0 one.1 doc in
    let first = (settle_schedule platform registration now added.1.run added.0).0 in
    let congruent =
      add_incident-SameRuns two.0 two.1 first added.0
        (settle_schedule-SameRuns platform registration now added.1.run added.0) in
    let again =
      add_incident_duplicate one.0 two.0 one.1 two.1 doc new
        (same_minute_origin ids other_ids registration now later same)
        (records-own ids registration by_schedule now) unused in
    let settled =
      settle_schedule-SameRuns platform registration later (add_incident two.0 two.1 first).1.run
        (add_incident two.0 two.1 first).0 in
    let kept = settle_schedule-SameRuns platform registration now added.1.run added.0 in
    unfold SameRuns in
    (
      settled.0 ∙ congruent.1.0 ∙ ap (λ x. x.0.incidents) again ∙ sym kept.0,
      settled.1 ∙ congruent.1.1 ∙ ap (λ x. x.0.runs) again ∙ sym kept.1,
      settle_schedule-result platform registration later (add_incident two.0 two.1 first).1.run
            (add_incident two.0 two.1 first).0 first
          ∙ ap (λ (r : HostedRunRecord). (settle_schedule platform registration later r first).1)
              (ap (λ (x : Intake). x.run) congruent.0 ∙ ap (λ x. x.1.run) again),
    )

settle_schedule_at :
    (platform : Platform) (registration : RepositoryRegistration Property) (now : Timestamp)
    (run : HostedRunRecord) (doc : ControlPlaneData) {t : Timestamp}
    → next_scheduled_at platform registration.schedule now ≡ next_at t
    → settle_schedule platform registration now run doc
      ≡ ((upsert_repository (scheduled_registration registration (some t) now) doc).0, enqueued run)
unfolding settle_schedule
settle_schedule_at platform registration now run doc e = ground (arith, e)

next_at-is_disabled :
    (platform : Platform) (schedule : Schedule) (now : Timestamp) {t : Timestamp}
    → next_scheduled_at platform schedule now ≡ next_at t
    → is_disabled schedule ≡ false
unfolding next_scheduled_at schedule_cron is_disabled
next_at-is_disabled platform schedule now e = ground arith

upsert-is_due :
    (registration : RepositoryRegistration Property) (t now later : Timestamp)
    (doc : ControlPlaneData)
    → is_disabled registration.schedule ≡ false
    → is_due later (upsert_repository (scheduled_registration registration (some t) now) doc).1
      ≡ leb t later
unfolding is_due upsert_repository merge_registration new_registration scheduled_registration
upsert-is_due registration t now later doc on =
    elim (Option-cases (find (λ r. r.repository == registration.repository) doc.repositories)) [
      | inl missing ↦ ground (arith, missing, on)
      | inr (old, found) ↦ ground (arith, found, on)
    ]

-- Once a run has been enqueued and the next time is `t`, the stored registration of that name is due
-- at exactly the instants from `t` on, and `t` is after the call.
pub enqueue-is_due :
    (platform : Platform) (ids : Ids) (registration : RepositoryRegistration Property)
    (trigger : Trigger) (now later : Timestamp) (doc : ControlPlaneData) {t : Timestamp}
    → next_scheduled_at platform registration.schedule now ≡ next_at t
    → (r : RepositoryRegistration Option) × (get_repository registration.repository
          (enqueue_stewardship_run platform ids registration trigger now doc).0
        ≡ some r)
      × (is_due later r ≡ leb t later)
      × (now < t)
enqueue-is_due platform ids registration trigger now later doc {t} e =
    let records = stewardship_records ids registration trigger now in
    let stored = add_incident records.0 records.1 doc in
    let argument = scheduled_registration registration (some t) now in
    (
      (upsert_repository argument stored.0).1,
      unfold enqueue_stewardship_run scheduled_registration in
          ap (λ d. get_repository registration.repository d.0)
            (settle_schedule_at platform registration now stored.1.run stored.0 e)
          ∙ (get_repository-upsert_repository argument stored.0).0,
      upsert-is_due registration t now later stored.0
          (next_at-is_disabled platform registration.schedule now e),
      (next_scheduled_at_due platform registration.schedule now e).0,
    )

-- Where no next time is found, a call for a new incident throws, yet its run is stored, and no
-- registration is changed: each is as due as it was.
pub enqueue_failed_adds_run :
    (platform : Platform) (ids : Ids) (registration : RepositoryRegistration Property)
    (trigger : Trigger) (now : Timestamp) (doc : ControlPlaneData) {error : ScheduleError}
    → next_scheduled_at platform registration.schedule now ≡ schedule_failed error
    → (add_incident
        (stewardship_records ids registration trigger now).0
        (stewardship_records ids registration trigger now).1
        doc).1.duplicate
      ≡ false
    → let result = enqueue_stewardship_run platform ids registration trigger now doc in
      (result.1 ≡ enqueue_failed error)
      × (result.0.runs ≡ doc.runs ++ (stewardship_records ids registration trigger now).1 ∷ [])
      × (result.0.repositories ≡ doc.repositories)
unfolding enqueue_stewardship_run settle_schedule add_incident
enqueue_failed_adds_run platform ids registration trigger now doc e new =
    (ground (arith, e, new), ground (arith, e, new), ground (arith, e, new))
