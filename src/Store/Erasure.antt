-- ===== src/Store/Erasure.antt =====
-- The erasure of a repository's records: `deleteRepositoryData` (src/control-plane/store.ts).
pub mod Laws
use softwareoath.Base.{
  ℕ, ◌+◌, ◌-◌, String, Bool, false, not, ◌&&◌, ◌||◌, none, some, List, [], ◌∷◌, filter, any, length,
  if◌then◌else◌, ◌==◌,
}
use softwareoath.Records.Run.{HostedRunRecord, IncidentRecord}
use softwareoath.Records.Review.{AuditEventRecord}
use softwareoath.Records.Data.{ControlPlaneData}

abbrev pub belongs : String → HostedRunRecord → Bool
belongs repository run = run.repository == repository

-- `runIds.has(id)` for the set of the ids of the runs of the repository.
abbrev pub is_run_of : String → List HostedRunRecord → String → Bool
is_run_of repository runs id = any (λ r. r.id == id) (filter (belongs repository) runs)

-- `incidentIds.has(id)`
abbrev pub is_incident_of : String → List HostedRunRecord → String → Bool
is_incident_of repository runs id =
    any (λ r. r.incident_id == id) (filter (belongs repository) runs)

abbrev pub starts : IncidentRecord → HostedRunRecord → Bool
starts incident run = run.incident_id == incident.id

-- `runs.flatMap(({ repairId }) => repairId ? [repairId] : [])`
unfoldable pub repair_ids : List HostedRunRecord → List String
repair_ids [] = []
repair_ids (r ∷ rs) = elim r.repair_id [
  | none ↦ repair_ids rs
  | some id ↦ if id == "" then repair_ids rs else id ∷ repair_ids rs
]

-- An audit event that names the repository or one of its runs.
abbrev pub is_event_of : String → List HostedRunRecord → AuditEventRecord → Bool
is_event_of repository runs event =
    elim event.repository [ none ↦ false | some r ↦ r == repository ]
    || elim event.run_id [ none ↦ false | some id ↦ not (id == "") && is_run_of repository runs id ]

-- The records that are counted before and after.
unfoldable pub count_records : ControlPlaneData → ℕ
count_records doc =
    length doc.incidents
    + length doc.runs
    + length doc.approvals
    + length doc.logs
    + length doc.mappings
    + length doc.attestations
    + length doc.audit_events
    + length doc.repositories
    + length doc.knowledge
    + length doc.optimizer_analyses
    + length doc.questions

-- The runs that stay: those whose id is none of the repository's run ids.
unfoldable pub kept_runs : String → List HostedRunRecord → List HostedRunRecord
kept_runs repository runs = filter (λ r. not (is_run_of repository runs r.id)) runs

unfoldable pub erase : String → ControlPlaneData → ControlPlaneData
unfolding kept_runs
erase repository doc = record doc {
  runs = kept_runs repository doc.runs;
  approvals = filter (λ a. not (is_run_of repository doc.runs a.run_id)) doc.approvals;
  logs = filter (λ l. not (is_run_of repository doc.runs l.run_id)) doc.logs;
  attestations = filter (λ a. not (is_run_of repository doc.runs a.run_id)) doc.attestations;
  audit_events = filter (λ e. not (is_event_of repository doc.runs e)) doc.audit_events;
  mappings = filter (λ m. not (m.repository == repository)) doc.mappings;
  repositories = filter (λ r. not (r.repository == repository)) doc.repositories;
  knowledge = filter (λ k. not (k.repository == repository)) doc.knowledge;
  optimizer_analyses = filter (λ a. not (a.repository == repository)) doc.optimizer_analyses;
  questions = filter (λ q. not (q.repository == repository)) doc.questions;
  incidents =
      filter
        (λ i.
          not (is_incident_of repository doc.runs i.id)
          || any (starts i) (kept_runs repository doc.runs))
        doc.incidents;
}

-- The ids of the repairs of the erased runs, and how many records went.
unfoldable pub delete_repository_data :
    String → ControlPlaneData → ControlPlaneData × (List String × ℕ)
unfolding erase repair_ids count_records
delete_repository_data repository doc =
    let erased = erase repository doc in
    (
      erased,
      (repair_ids (filter (belongs repository) doc.runs), count_records doc - count_records erased),
    )
