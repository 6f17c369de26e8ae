-- ===== src/Steward/Schedule/Enqueue/Soundness.antt =====
-- A round of the steward and the invariant of the document (src/steward/schedule.ts,
-- `enqueueDueStewardshipRuns`).
use softwareoath.Steward.Schedule.Cron.{Platform}
use softwareoath.Store.Sound.Keeping.{add_incident-IsSound}
use softwareoath.Store.Registry.{list_repositories}
use softwareoath.Base.{filter, map, List}
use softwareoath.Store.History.Soundness.{IsSound-SameRuns}
use softwareoath.Base.{◌∷◌, []}
use softwareoath.Store.Sound.{IsSound}
use softwareoath.Store.Incidents.{add_incident}
use softwareoath.Steward.Schedule.Enqueue.{
  settle_schedule, HostedRunRecord, stewardship_records, RepositoryRegistration, Ids, Property,
  by_schedule, enqueue_due_stewardship_runs, is_due, add_all, settle_all, as_argument,
}
use softwareoath.Records.Data.{ControlPlaneData}
use softwareoath.Base.{String, arith}
use softwareoath.Steward.Schedule.{Timestamp}
use softwareoath.Steward.Schedule.Enqueue.Laws.{settle_schedule-SameRuns, records-own}

settle_schedule-IsSound :
    (platform : Platform) (registration : RepositoryRegistration Property) (now : Timestamp)
    (run : HostedRunRecord) (doc : ControlPlaneData)
    → IsSound doc
    → IsSound (settle_schedule platform registration now run doc).0
settle_schedule-IsSound platform registration now run doc s =
    IsSound-SameRuns doc _ s (settle_schedule-SameRuns platform registration now run doc)

add_all-IsSound :
    (calls : List (Ids × RepositoryRegistration Property)) (now : Timestamp)
    (doc : ControlPlaneData)
    → IsSound doc
    → IsSound (add_all calls now doc).0
unfolding add_all
add_all-IsSound [] now doc s = s
add_all-IsSound ((ids, registration) ∷ rest) now doc s =
    let records = stewardship_records ids registration by_schedule now in
    add_all-IsSound rest now (add_incident records.0 records.1 doc).0 (
      add_incident-IsSound records.0 records.1 doc s (records-own ids registration by_schedule now)
        (unfold stewardship_records in omega arith))

settle_all-IsSound :
    (platform : Platform) (added : List (RepositoryRegistration Property × HostedRunRecord))
    (now : Timestamp) (doc : ControlPlaneData)
    → IsSound doc
    → IsSound (settle_all platform added now doc).0
unfolding settle_all
settle_all-IsSound platform [] now doc s = s
settle_all-IsSound platform ((registration, run) ∷ rest) now doc s =
    settle_all-IsSound platform rest now (settle_schedule platform registration now run doc).0
      (settle_schedule-IsSound platform registration now run doc s)

-- One round of the steward keeps the invariant of the document, whatever registrations are due, ids
-- are drawn and schedules fail.
pub enqueue_due-IsSound :
    (platform : Platform) (ids : String → Ids) (now : Timestamp) (doc : ControlPlaneData)
    → IsSound doc
    → IsSound (enqueue_due_stewardship_runs platform ids now doc).0
unfolding enqueue_due_stewardship_runs
enqueue_due-IsSound platform ids now doc s =
    let due = filter (is_due now) (list_repositories doc) in
    let added = add_all (map (λ r. (ids r.id, as_argument r)) due) now doc in
    settle_all-IsSound platform added.1 now added.0
      (add_all-IsSound (map (λ r. (ids r.id, as_argument r)) due) now doc s)
