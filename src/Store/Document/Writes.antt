-- ===== src/Store/Document/Writes.antt =====
-- The chain of writes of the file store, over a file and over the document in it
use Prim.Native.String as Text
-- (src/control-plane/store.ts, `read` and `update`).
use softwareoath.Base.{List, [], ◌∷◌, Option, some, String, ◌≡◌, refl, arith}
use softwareoath.Records.Data.{ControlPlaneData, Result, ok, err}
use softwareoath.Store.Document.{Json, StoredDocument, read, update, supplied}

-- A change that a method of the store makes, with what it returns.
abbrev pub Change : Type 0 → Type 0
Change A = ControlPlaneData → Result (ControlPlaneData × A)

-- The changes one after another on the file: what it is at the end, and what each caller gets.
unfoldable pub write_all :
    {A : Type 0} → Json → List (Change A) → Option String → Option String × List (Result A)
write_all json [] file = (file, [])
write_all json (change ∷ changes) file =
    let (next, result) = update json change file in
    let (last, results) = write_all json changes next in (last, result ∷ results)

abbrev pub made :
    {A : Type 0} → ControlPlaneData → Result (ControlPlaneData × A) → ControlPlaneData × Result A
made doc (ok (changed, a)) = (changed, ok a)
made doc (err e) = (doc, err e)

-- The changes one after another on a document: one that throws is as if it were not made.
unfoldable pub change_all :
    {A : Type 0} → List (Change A) → ControlPlaneData → ControlPlaneData × List (Result A)
change_all [] doc = (doc, [])
change_all (change ∷ changes) doc =
    let (next, result) = made doc (change doc) in
    let (last, results) = change_all changes next in (last, result ∷ results)

-- The document as it is stored, with all its lists.
abbrev pub stored : ControlPlaneData → StoredDocument
stored d = record {
  incidents = d.incidents;
  runs = d.runs;
  approvals = d.approvals;
  logs = d.logs;
  mappings = d.mappings;
  attestations = some d.attestations;
  auth_sessions = some d.auth_sessions;
  audit_events = some d.audit_events;
  repositories = some d.repositories;
  knowledge = some d.knowledge;
  optimizer_analyses = some d.optimizer_analyses;
  questions = some d.questions;
  heartbeats = some d.heartbeats;
}

-- Whether the text that is written of a changed document is parsed as that document.
abbrev pub IsReadBack : {A : Type 0} → Json → Result (ControlPlaneData × A) → Type 0
IsReadBack json (ok (changed, a)) =
    json.parse (Text.◌++◌ (json.stringify changed) "\n") ≡ some (stored changed)
IsReadBack json (err e) = Unit

-- The same for every document that a series of changes makes on its way.
abbrev pub AllReadBack : {A : Type 0} → Json → List (Change A) → ControlPlaneData → Type 0
AllReadBack json [] doc = Unit
AllReadBack json (change ∷ changes) doc =
    IsReadBack json (change doc) × AllReadBack json changes (made doc (change doc)).0

read-written :
    (json : Json) (doc : ControlPlaneData)
    → json.parse (Text.◌++◌ (json.stringify doc) "\n") ≡ some (stored doc)
    → read json (some (Text.◌++◌ (json.stringify doc) "\n")) ≡ ok doc
unfolding read supplied
read-written json doc is = ground (arith, is)

update-made :
    {A : Type 0} (json : Json) (change : Change A) (file : Option String) (doc : ControlPlaneData)
    (result : Result (ControlPlaneData × A))
    → read json file ≡ ok doc
    → change doc ≡ result
    → IsReadBack json result
    → (read json (update json change file).0 ≡ ok (made doc result).0)
      × ((update json change file).1 ≡ (made doc result).1)
unfolding update
update-made json change file doc (ok (changed, a)) r c back =
    (rw (r, update) (rw c (read-written json changed back)), rw (r, update) (rw c refl))
update-made json change file doc (err e) r c back =
    (rw (r, update) (rw c r), rw (r, update) (rw c refl))

-- The file behaves as the document in it: after any series of changes, of which some may throw, the
-- file reads as the document that the same series makes of the document it was read as, and every
-- caller gets the same result. The condition is that the text of each document that the series makes
-- on its way is parsed as that document, as JSON is where it can write all its values.
pub write_all-change_all :
    {A : Type 0} (json : Json) (changes : List (Change A)) (file : Option String)
    (doc : ControlPlaneData)
    → read json file ≡ ok doc
    → AllReadBack json changes doc
    → (read json (write_all json changes file).0 ≡ ok (change_all changes doc).0)
      × ((write_all json changes file).1 ≡ (change_all changes doc).1)
unfolding write_all change_all
write_all-change_all json [] file doc r back = (r, refl)
write_all-change_all json (change ∷ changes) file doc r back =
    let (reads, result) = update-made json change file doc (change doc) r refl back.0 in
    let (last, results) =
      write_all-change_all json changes (update json change file).0 (made doc (change doc)).0 reads
        back.1 in
    (last, cc (result, results))
