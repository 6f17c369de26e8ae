-- ===== src/Steward/Schedule/Enqueue.antt =====
-- The runs that the steward starts: `stewardshipRecords`, `enqueueStewardshipRun` and
-- `enqueueDueStewardshipRuns` (src/steward/schedule.ts), over the store.
pub mod Laws
pub mod Soundness
use softwareoath.Steward.Schedule.Cron.{Platform}
use softwareoath.Records.Repository.{
  disabled, daily, weekly, custom, RepositoryRegistration, Schedule,
}
use softwareoath.Steward.Schedule.{
  never, next_at, schedule_failed, ScheduleError, next_scheduled_at,
}
use softwareoath.Base.{
  filter, map, List, ◌∷◌, [], String, Option, none, some, take_text, Bool, iso_text, true, not, leb,
  ◌&&◌, false,
}
use softwareoath.Store.Registry.{list_repositories, upsert_repository}
use softwareoath.Store.Incidents.{add_incident}
use softwareoath.Records.Data.{ControlPlaneData}
use softwareoath.Records.Run.{HostedRunRecord, IncidentRecord, received}
use softwareoath.Records.Values.{Timestamp, Property}
use Prim.Native.String.{◌++◌}
use mathlib.Core.Option as Option

pub data Trigger : Type 0 where
  by_schedule by_owner : Trigger

-- What one call takes from the outside: the digest, and its random ids.
pub record Ids : Type 0 where
  pub sha256 : String → String
  pub manual_uuid : String
  pub incident_uuid : String
  pub run_uuid : String

abbrev pub title_of : Trigger → String
title_of by_owner = "Owner-triggered repository stewardship"
title_of by_schedule = "Scheduled repository stewardship"

-- The external id of an incident of stewardship. Those of the schedule name the minute.
unfoldable pub external_id_of : Trigger → String → String → Timestamp → String
external_id_of by_owner id uuid now = id ++ (":manual:" ++ uuid)
external_id_of by_schedule id uuid now = id ++ (":schedule:" ++ take_text 16 (iso_text now))

-- `stewardshipRecords`, for a registration of an id and a repository.
unfoldable pub stewardship_records :
    Ids → RepositoryRegistration Property → Trigger → Timestamp → IncidentRecord × HostedRunRecord
stewardship_records ids registration trigger now =
    let external_id = external_id_of trigger registration.id ids.manual_uuid now in
    let incident_id = "SCAN-" ++ ids.incident_uuid in
    (
      record {
        id = incident_id;
        source = "stewardship";
        external_id = external_id;
        title = title_of trigger;
        status = "requested";
        priority = none;
        url = none;
        project = some registration.id;
        release = none;
        received_at = now;
        payload_digest = ids.sha256 external_id;
      },
      record {
        id = "RUN-" ++ ids.run_uuid;
        incident_id = incident_id;
        repository = registration.repository;
        commit = none;
        migration_specification_id = none;
        repair_commit = none;
        status = received;
        decision = none;
        repair_id = none;
        pull_request_url = none;
        branch = none;
        error = none;
        attempts = 0;
        max_attempts = 3;
        next_attempt_at = none;
        lease_owner = none;
        lease_expires_at = none;
        cancel_requested = false;
        created_at = now;
        updated_at = now;
      },
    )

-- The registration with its last and its next run. Both are set, also to undefined.
unfoldable pub scheduled_registration :
    RepositoryRegistration Property → Option Timestamp → Timestamp → RepositoryRegistration Property
scheduled_registration registration next now = record registration {
  last_run_at = some (some now);
  next_run_at = some next;
  updated_at = now;
}

-- A run, or the error that the call ends with.
pub data Enqueued : Type 0 where
  enqueued : HostedRunRecord → Enqueued
  enqueue_failed : ScheduleError → Enqueued

-- The part after `addIncident`: the next time is found and stored.
unfoldable pub settle_schedule :
    Platform
    → RepositoryRegistration Property
    → Timestamp
    → HostedRunRecord
    → ControlPlaneData
    → ControlPlaneData × Enqueued
settle_schedule platform registration now run doc =
    elim (next_scheduled_at platform registration.schedule now) [
      | never ↦
          ((upsert_repository (scheduled_registration registration none now) doc).0, enqueued run)
      | next_at t ↦ (
        (upsert_repository (scheduled_registration registration (some t) now) doc).0,
        enqueued run,
      )
      | schedule_failed error ↦ (doc, enqueue_failed error)
    ]

unfoldable pub enqueue_stewardship_run :
    Platform
    → Ids
    → RepositoryRegistration Property
    → Trigger
    → Timestamp
    → ControlPlaneData
    → ControlPlaneData × Enqueued
enqueue_stewardship_run platform ids registration trigger now doc =
    let records = stewardship_records ids registration trigger now in
    let stored = add_incident records.0 records.1 doc in
    settle_schedule platform registration now stored.1.run stored.0

-- A stored registration as an argument: its absent properties are absent.
unfoldable pub as_argument : RepositoryRegistration Option → RepositoryRegistration Property
as_argument r = record {
  id = r.id;
  repository = r.repository;
  clone_url = r.clone_url;
  default_branch = r.default_branch;
  installation_id = Option.map some r.installation_id;
  local_path = Option.map some r.local_path;
  schedule = r.schedule;
  policy = r.policy;
  next_run_at = Option.map some r.next_run_at;
  last_run_at = Option.map some r.last_run_at;
  created_at = r.created_at;
  updated_at = r.updated_at;
}

unfoldable pub is_disabled : Schedule → Bool
is_disabled schedule = elim schedule.mode [
  | disabled ↦ true
  | daily ↦ false
  | weekly ↦ false
  | custom ↦ false
]

abbrev pub is_reached : Option Timestamp → Timestamp → Bool
is_reached none now = true
is_reached (some t) now = leb t now

unfoldable pub is_due : Timestamp → RepositoryRegistration Option → Bool
is_due now r = not (is_disabled r.schedule) && is_reached r.next_run_at now

-- The calls of `addIncident`, which all stand in the store's queue before the first of them is
-- answered.
unfoldable pub add_all :
    List (Ids × RepositoryRegistration Property)
    → Timestamp
    → ControlPlaneData
    → ControlPlaneData × List (RepositoryRegistration Property × HostedRunRecord)
add_all [] now doc = (doc, [])
add_all ((ids, registration) ∷ rest) now doc =
    let records = stewardship_records ids registration by_schedule now in
    let stored = add_incident records.0 records.1 doc in
    let others = add_all rest now stored.0 in (others.0, (registration, stored.1.run) ∷ others.1)

-- What comes after, one registration after the other.
unfoldable pub settle_all :
    Platform
    → List (RepositoryRegistration Property × HostedRunRecord)
    → Timestamp
    → ControlPlaneData
    → ControlPlaneData × List Enqueued
settle_all platform [] now doc = (doc, [])
settle_all platform ((registration, run) ∷ rest) now doc =
    let settled = settle_schedule platform registration now run doc in
    let others = settle_all platform rest now settled.0 in (others.0, settled.1 ∷ others.1)

-- The ids are given for each registration that is due, by its own id.
unfoldable pub enqueue_due_stewardship_runs :
    Platform → (String → Ids) → Timestamp → ControlPlaneData → ControlPlaneData × List Enqueued
enqueue_due_stewardship_runs platform ids now doc =
    let due = filter (is_due now) (list_repositories doc) in
    let added = add_all (map (λ r. (ids r.id, as_argument r)) due) now doc in
    settle_all platform added.1 now added.0
