-- ===== src/Store/Erasure/Laws.antt =====
-- What the erasure of a repository takes away, and what it leaves (src/control-plane/store.ts,
-- `deleteRepositoryData`).
use softwareoath.Store.Sessions.{list_audit_events, concerns}
use softwareoath.Store.Approval.{get_attestation}
use softwareoath.Store.Analyses.{list_optimizer_analyses}
use softwareoath.Store.Control.{list_logs}
use softwareoath.Store.Knowledge.{list_knowledge, list_questions}
use softwareoath.Store.Incidents.{get_run}
use softwareoath.Store.Registry.{get_repository}
use softwareoath.Store.Erasure.{
  erase, delete_repository_data, HostedRunRecord, kept_runs, ControlPlaneData, count_records,
  belongs, is_run_of, is_event_of, is_incident_of, starts,
}
use softwareoath.Base.Sort.{sort}
use softwareoath.Base.{
  List, any, String, Bool, ◌≢◌, ◌≡◌, ◌==◌, true, All, false, filter, ◌+◌, arith, [], ◌∷◌, eq_iff,
  refl, eq_refl, none, length-filter-le, All-map, not, some, find-filter-none, sym, find-filter,
  ◌||◌,
}

apart : (a b : String) → a ≢ b → (c : String) → (c == a) ≡ true → (c == b) ≡ false
apart a b h c e = ground (arith, eq_iff c a, eq_iff c b)

filter-gone {ℓ} :
    {A : Type ℓ} (p q : A → Bool) (xs : List A)
    → ((x : A) → p x ≡ true → q x ≡ false)
    → filter p (filter q xs) ≡ []
filter-gone p q [] h = refl
filter-gone p q (x ∷ xs) h = ground (arith, filter-gone p q xs h, h x)

filter-kept {ℓ} :
    {A : Type ℓ} (p q : A → Bool) (xs : List A)
    → ((x : A) → p x ≡ true → q x ≡ true)
    → filter p (filter q xs) ≡ filter p xs
filter-kept p q [] h = refl
filter-kept p q (x ∷ xs) h = ground (arith, filter-kept p q xs h, h x)

filter-kept_of_All :
    (repository : String) (q : HostedRunRecord → Bool) (xs : List HostedRunRecord)
    → All (λ r. belongs repository r ≡ true → q r ≡ false) xs
    → filter (belongs repository) (filter q xs) ≡ []
filter-kept_of_All repository q [] h = refl
filter-kept_of_All repository q (x ∷ xs) h =
    ground (arith, filter-kept_of_All repository q xs h.1, h.0)

-- Each run of the repository is in the set of ids.
All-is_run_of :
    (repository : String) (runs : List HostedRunRecord)
    → All (λ r. belongs repository r ≡ true → is_run_of repository runs r.id ≡ true) runs
All-is_run_of repository [] = tt
All-is_run_of repository (x ∷ xs) = (
  λ e. ground (arith, eq_refl x.id),
  All-map (λ r. belongs repository r ≡ true → is_run_of repository xs r.id ≡ true)
      (λ r. belongs repository r ≡ true → is_run_of repository (x ∷ xs) r.id ≡ true) xs
      (λ r h e. ground (arith, h e)) (All-is_run_of repository xs),
)

-- After the erasure of a repository with a name that is not empty, the document has no run and no
-- mapping of that repository, and the reads of its registration, of its knowledge, of its analyses,
-- of its questions and of its audit events, each by that name, find nothing.
pub erase_complete :
    (repository : String) (doc : ControlPlaneData)
    → repository ≢ ""
    → (filter (belongs repository) (erase repository doc).runs ≡ [])
      × (filter (λ m. m.repository == repository) (erase repository doc).mappings ≡ [])
      × (get_repository repository (erase repository doc) ≡ none)
      × (list_knowledge (some repository) (erase repository doc) ≡ [])
      × (list_optimizer_analyses repository (erase repository doc) ≡ [])
      × (list_questions repository (erase repository doc) ≡ [])
      × (list_audit_events (some repository) (erase repository doc) ≡ [])
unfolding erase kept_runs get_repository list_knowledge list_optimizer_analyses list_questions
    list_audit_events sort
erase_complete repository doc named = (
  filter-kept_of_All repository _ doc.runs (
      All-map _
        (λ r. belongs repository r ≡ true → not (is_run_of repository doc.runs r.id) ≡ false)
        doc.runs (λ r h e. ground (arith, h e)) (All-is_run_of repository doc.runs)),
  filter-gone _ _ doc.mappings (λ m e. ground arith),
  find-filter-none (λ r. r.repository == repository) _ doc.repositories (λ m e. ground arith),
  ground (
    arith,
    eq_iff repository "",
    filter-gone (λ k. k.repository == repository) (λ k. not (k.repository == repository))
        doc.knowledge (λ m e. ground arith),
  ),
  rw
      (filter-gone (λ a. a.repository == repository) (λ a. not (a.repository == repository))
        doc.optimizer_analyses (λ m e. ground arith))
      refl,
  filter-gone _ _ doc.questions (λ m e. ground arith),
  rw
      (filter-gone (concerns (some repository)) (λ e. not (is_event_of repository doc.runs e))
        doc.audit_events (λ e h. ground (arith, eq_iff repository "")))
      refl,
)

-- Nothing is left that refers to a run of the repository: no approval, log or attestation, nor the
-- run itself under its id.
pub erase_run_complete :
    (repository : String) (doc : ControlPlaneData) (id : String)
    → is_run_of repository doc.runs id ≡ true
    → (get_run id (erase repository doc) ≡ none)
      × (list_logs id (erase repository doc) ≡ [])
      × (get_attestation id (erase repository doc) ≡ none)
      × (filter (λ a. a.run_id == id) (erase repository doc).approvals ≡ [])
unfolding erase kept_runs get_run list_logs get_attestation
erase_run_complete repository doc id mine =
    let gone : (x : String) → (x == id) ≡ true → not (is_run_of repository doc.runs x) ≡ false =
      (λ x e. rw ((eq_iff x id).0 e, mine) refl) in
    (
      find-filter-none (λ r. r.id == id) _ doc.runs (λ r e. gone r.id e),
      filter-gone _ _ doc.logs (λ r e. gone r.run_id e),
      find-filter-none (λ a. a.run_id == id) _ doc.attestations (λ r e. gone r.run_id e),
      filter-gone _ _ doc.approvals (λ r e. gone r.run_id e),
    )

-- For another repository, whose name is not empty, the registration, the knowledge, the analyses and
-- the questions read after the erasure as before it; and for an id that no run of the erased
-- repository has, the run, the logs and the attestation read as before.
pub erase_others :
    (repository other : String) (doc : ControlPlaneData) (id : String)
    → other ≢ ""
    → repository ≢ other
    → is_run_of repository doc.runs id ≡ false
    → (get_repository other (erase repository doc) ≡ get_repository other doc)
      × (list_knowledge (some other) (erase repository doc) ≡ list_knowledge (some other) doc)
      × (list_optimizer_analyses other (erase repository doc) ≡ list_optimizer_analyses other doc)
      × (list_questions other (erase repository doc) ≡ list_questions other doc)
      × (get_run id (erase repository doc) ≡ get_run id doc)
      × (list_logs id (erase repository doc) ≡ list_logs id doc)
      × (get_attestation id (erase repository doc) ≡ get_attestation id doc)
unfolding erase kept_runs get_run list_logs get_attestation get_repository list_knowledge
    list_optimizer_analyses list_questions
erase_others repository other doc id named differ free =
    let stays : (x : String) → (x == id) ≡ true → not (is_run_of repository doc.runs x) ≡ true =
      (λ x e. rw ((eq_iff x id).0 e, free) refl) in
    let keeps : (x : String) → (x == other) ≡ true → not (x == repository) ≡ true =
      (λ x e. rw (apart other repository (λ h. differ (sym h)) x e) refl) in
    (
      find-filter (λ r. r.repository == other) _ doc.repositories (λ r e. keeps r.repository e),
      ground (
        arith,
        eq_iff other "",
        filter-kept (λ k. k.repository == other) (λ k. not (k.repository == repository))
            doc.knowledge (λ r e. keeps r.repository e),
      ),
      rw
          (filter-kept (λ k. k.repository == other) (λ k. not (k.repository == repository))
            doc.optimizer_analyses (λ r e. keeps r.repository e))
          refl,
      filter-kept _ _ doc.questions (λ r e. keeps r.repository e),
      find-filter (λ r. r.id == id) _ doc.runs (λ r e. stays r.id e),
      filter-kept _ _ doc.logs (λ r e. stays r.run_id e),
      find-filter (λ r. r.run_id == id) _ doc.attestations (λ r e. stays r.run_id e),
    )

-- The number that the erasure reports is exactly what is missing afterwards: the difference is never
-- cut off at 0.
pub delete_repository_data-count :
    (repository : String) (doc : ControlPlaneData)
    → count_records (delete_repository_data repository doc).0
        + (delete_repository_data repository doc).1.1
      ≡ count_records doc
unfolding delete_repository_data
delete_repository_data-count repository doc = omega (
  arith,
  length-filter-le (λ a. not (is_run_of repository doc.runs a.run_id)) doc.approvals,
  length-filter-le (λ r. not (is_run_of repository doc.runs r.id)) doc.runs,
  length-filter-le (λ a. not (is_run_of repository doc.runs a.run_id)) doc.logs,
  length-filter-le (λ a. not (is_run_of repository doc.runs a.run_id)) doc.attestations,
  length-filter-le (λ e. not (is_event_of repository doc.runs e)) doc.audit_events,
  length-filter-le (λ e. not (e.repository == repository)) doc.mappings,
  length-filter-le (λ e. not (e.repository == repository)) doc.repositories,
  length-filter-le (λ e. not (e.repository == repository)) doc.knowledge,
  length-filter-le (λ e. not (e.repository == repository)) doc.optimizer_analyses,
  length-filter-le (λ e. not (e.repository == repository)) doc.questions,
  length-filter-le
      (λ i.
        not (is_incident_of repository doc.runs i.id)
        || any (starts i) (kept_runs repository doc.runs))
      doc.incidents,
)
