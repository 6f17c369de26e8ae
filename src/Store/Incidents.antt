-- ===== src/Store/Incidents.antt =====
-- Incidents with the runs that they start: `addIncident` and the reads of runs and incidents
-- (src/control-plane/store.ts).
pub mod Laws
use softwareoath.Base.{
  String, Bool, true, false, ◌&&◌, Option, none, some, List, [], ◌∷◌, ◌++◌, leb, if◌then◌else◌,
  find, filter, any, ◌==◌,
}
use softwareoath.Base.Sort.{sort}
use softwareoath.Records.Values.{or_else}
use softwareoath.Records.Run.{IncidentRecord, HostedRunRecord}
use softwareoath.Records.Data.{ControlPlaneData}

unfoldable pub same_origin : IncidentRecord → IncidentRecord → Bool
same_origin a b = a.source == b.source && a.external_id == b.external_id

-- What `addIncident` returns.
pub record Intake : Type 0 where
  pub incident : IncidentRecord
  pub run : HostedRunRecord
  pub duplicate : Bool

unfoldable pub add_incident :
    IncidentRecord → HostedRunRecord → ControlPlaneData → ControlPlaneData × Intake
unfolding same_origin
add_incident incident run doc = elim (find (λ i. same_origin i incident) doc.incidents) [
  | none ↦ (
    record doc { incidents = doc.incidents ++ incident ∷ []; runs = doc.runs ++ run ∷ [] },
    record { incident = incident; run = run; duplicate = false },
  )
  | some existing ↦ (
    doc,
    record {
      incident = existing;
      run = or_else (find (λ r. r.incident_id == existing.id) doc.runs) run;
      duplicate = true;
    },
  )
]

-- The latest first.
unfoldable pub list_runs : ControlPlaneData → List HostedRunRecord
list_runs doc = sort (λ a b. leb b.created_at a.created_at) doc.runs

unfoldable pub get_run : String → ControlPlaneData → Option HostedRunRecord
get_run id doc = find (λ r. r.id == id) doc.runs

unfoldable pub get_incident : String → ControlPlaneData → Option IncidentRecord
get_incident id doc = find (λ i. i.id == id) doc.incidents

unfoldable pub list_incidents : Option String → ControlPlaneData → List IncidentRecord
list_incidents none doc = doc.incidents
list_incidents (some repository) doc =
    if repository == ""
    then doc.incidents
    else filter
        (λ i. any (λ r. r.incident_id == i.id) (filter (λ r. r.repository == repository) doc.runs))
        doc.incidents
