-- ===== src/Store/Document.antt =====
-- How the file store reads its document and writes it back: `read` and `update` of
-- src/control-plane/store.ts.
pub mod Laws
pub mod Writes
use Prim.Native.String.{◌++◌}
use softwareoath.Base.{Option, none, some, List, [], String}
use softwareoath.Records.Run.{IncidentRecord, HostedRunRecord, RunLogRecord}
use softwareoath.Records.Review.{
  ApprovalRecord, FinalAttestation, AuthSessionRecord, AuditEventRecord, ServiceHeartbeatRecord,
}
use softwareoath.Records.Repository.{
  RepositoryMapping, RepositoryRegistration, RepositoryKnowledgeRecord, RepositoryQuestionRecord,
}
use softwareoath.Records.Optimizer.{OptimizerAnalysisRecordV1}
use softwareoath.Records.Data.{
  ControlPlaneData, empty_data, Result, ok, err, broken_document, not_json,
}

-- A parsed document, in which an older writer may have left out the later lists.
pub record StoredDocument : Type 0 where
  pub incidents : List IncidentRecord
  pub runs : List HostedRunRecord
  pub approvals : List ApprovalRecord
  pub logs : List RunLogRecord
  pub mappings : List (RepositoryMapping Option)
  pub attestations : Option (List FinalAttestation)
  pub auth_sessions : Option (List AuthSessionRecord)
  pub audit_events : Option (List AuditEventRecord)
  pub repositories : Option (List (RepositoryRegistration Option))
  pub knowledge : Option (List (RepositoryKnowledgeRecord Option))
  pub optimizer_analyses : Option (List (OptimizerAnalysisRecordV1 Option))
  pub questions : Option (List RepositoryQuestionRecord)
  pub heartbeats : Option (List ServiceHeartbeatRecord)

-- `value ?? []`
abbrev pub or_empty {ℓ} : {A : Type ℓ} → Option (List A) → List A
or_empty none = []
or_empty (some xs) = xs

-- What the language gives, over the text of a file: `JSON.parse`, `none` where it throws, read as a
-- document; and `JSON.stringify` of a document. Of the numbers that a document may hold, JSON writes
-- the finite ones only, so that not every text is read back as what it was written from.
pub record Json : Type 0 where
  pub parse : String → Option StoredDocument
  pub stringify : ControlPlaneData → String

-- The document with the lists that `read` supplies. The call of `forEach` on missing analyses throws:
-- it stands before the line that would replace them by an empty list.
unfoldable pub supplied : StoredDocument → Result ControlPlaneData
supplied d = elim d.optimizer_analyses [
  | none ↦ err broken_document
  | some analyses ↦ ok (record {
    incidents = d.incidents;
    runs = d.runs;
    approvals = d.approvals;
    logs = d.logs;
    mappings = d.mappings;
    attestations = or_empty d.attestations;
    auth_sessions = or_empty d.auth_sessions;
    audit_events = or_empty d.audit_events;
    repositories = or_empty d.repositories;
    knowledge = or_empty d.knowledge;
    optimizer_analyses = analyses;
    questions = or_empty d.questions;
    heartbeats = or_empty d.heartbeats;
  })
]

-- `none` is a missing file.
unfoldable pub read : Json → Option String → Result ControlPlaneData
unfolding supplied
read json none = ok empty_data
read json (some text) = elim (json.parse text) [ none ↦ err not_json | some d ↦ supplied d ]

-- One link of the chain of writes: the change is made on what was read, and the file is replaced
-- only if nothing threw. The second part is what the caller gets.
unfoldable pub update :
    {A : Type 0}
    → Json
    → (ControlPlaneData → Result (ControlPlaneData × A))
    → Option String
    → Option String × Result A
update json mutate file = elim (read json file) [
  | err e ↦ (file, err e)
  | ok doc ↦ elim (mutate doc) [
    | err e ↦ (file, err e)
    | ok (changed, a) ↦ (some (json.stringify changed ++ "\n"), ok a)
  ]
]
