-- ===== src/Store/Document/Laws.antt =====
-- Reading back what was written, and what a failed change leaves (src/control-plane/store.ts,
-- `read` and `update`).
use softwareoath.Records.Data.{StoreError, err}
use softwareoath.Store.Document.{
  read, update, StoredDocument, ControlPlaneData, Result, ok, or_empty, supplied, Json,
}
use softwareoath.Base.{
  some, ◌≡◌, Option, ◌↔◌, ◌≢◌, none, Option-cases, inl, arith, inr, String, sym, ◌∙◌,
}

supplied_ok_iff :
    (stored : StoredDocument)
    → ((doc : ControlPlaneData) × (supplied stored ≡ ok doc)) ↔ (stored.optimizer_analyses ≢ none)
unfolding supplied
supplied_ok_iff stored = elim (Option-cases stored.optimizer_analyses) [
  | inl missing ↦ ((λ (doc, e). absurd (ground arith)), (λ n. absurd (n missing)))
  | inr (analyses, given) ↦ (
    (λ d m. ground arith),
    (λ n. (
      record {
        incidents = stored.incidents;
        runs = stored.runs;
        approvals = stored.approvals;
        logs = stored.logs;
        mappings = stored.mappings;
        attestations = or_empty stored.attestations;
        auth_sessions = or_empty stored.auth_sessions;
        audit_events = or_empty stored.audit_events;
        repositories = or_empty stored.repositories;
        knowledge = or_empty stored.knowledge;
        optimizer_analyses = analyses;
        questions = or_empty stored.questions;
        heartbeats = or_empty stored.heartbeats;
      },
      ground arith,
    )),
  )
]

read-parse :
    (json : Json) (text : String) (stored : StoredDocument)
    → json.parse text ≡ some stored
    → read json (some text) ≡ supplied stored
unfolding read
read-parse json text stored is = ground (arith, is)

-- A file with a text is read exactly when the text is JSON and the document in it has its list of
-- analyses, whichever of the other lists that a read would supply it lacks: that one list is never
-- supplied.
pub read_ok_iff :
    (json : Json) (text : String)
    → ((doc : ControlPlaneData) × (read json (some text) ≡ ok doc)) ↔ (
        (stored : StoredDocument) × (json.parse text ≡ some stored)
        × (stored.optimizer_analyses ≢ none))
unfolding read
read_ok_iff json text = elim (Option-cases (json.parse text)) [
  | inl broken ↦ ((λ (doc, e). absurd (ground arith)), (λ (stored, is, n). absurd (ground arith)))
  | inr (stored, is) ↦ (
    (λ (doc, e).
        (stored, is, (supplied_ok_iff stored).0 (doc, sym (read-parse json text stored is) ∙ e))),
    (λ (stored', is', n).
        let same : stored' ≡ stored = ground arith in
        let (doc, e) = (supplied_ok_iff stored).1 (rw same at n) in
        (doc, read-parse json text stored is ∙ e)),
  )
]

-- Wherever the caller of a change gets an error, from the read or from the change, the file is as it
-- was.
pub update_failed :
    {A : Type 0} (json : Json) (mutate : ControlPlaneData → Result (ControlPlaneData × A))
    (file : Option String) (e : StoreError)
    → (update json mutate file).1 ≡ err e
    → (update json mutate file).0 ≡ file
unfolding update
update_failed json mutate file e h = ground arith
