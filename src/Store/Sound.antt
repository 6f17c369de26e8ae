-- ===== src/Store/Sound.antt =====
-- The invariant of the document: what every operation on incidents and runs keeps.
pub mod Keeping
pub mod Erasing
use softwareoath.Base.{ℕ, ◌≤◌, ◌≡◌, Bool, true, false, List, [], ◌∷◌, any, All, ◌==◌}
use softwareoath.Records.Run.{IncidentRecord, HostedRunRecord}
use softwareoath.Records.Data.{ControlPlaneData}
use softwareoath.Store.Incidents.{same_origin}

-- No two incidents have one source and one external id.
abbrev pub DistinctOrigins : List IncidentRecord → Type 0
DistinctOrigins [] = Unit
DistinctOrigins (i ∷ is) = (any (λ j. same_origin j i) is ≡ false) × DistinctOrigins is

abbrev pub has_incident : List IncidentRecord → HostedRunRecord → Bool
has_incident incidents run = any (λ i. i.id == run.incident_id) incidents

abbrev pub WithinBudget : HostedRunRecord → Type 0
WithinBudget run = run.attempts ≤ run.max_attempts

pub record IsSound (doc : ControlPlaneData) : Type 0 where
  pub origins : DistinctOrigins doc.incidents
  pub started : All (λ r. has_incident doc.incidents r ≡ true) doc.runs
  pub budget : All WithinBudget doc.runs
