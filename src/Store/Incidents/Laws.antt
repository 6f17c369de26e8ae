-- ===== src/Store/Incidents/Laws.antt =====
-- An incident is taken in once (src/control-plane/store.ts, `addIncident`).
use softwareoath.Store.Incidents.{
  same_origin, add_incident, IncidentRecord, HostedRunRecord, ControlPlaneData,
}
use softwareoath.Base.{
  List, Bool, ◌≡◌, true, find, arith, eq_iff, false, ◌==◌, none, ◌∙◌, find-append, ◌∷◌, [], refl,
}

find_congr {ℓ} :
    {A : Type ℓ} (p q : A → Bool) (xs : List A) → ((x : A) → p x ≡ q x) → find p xs ≡ find q xs
find_congr p q [] h = refl
find_congr p q (x ∷ xs) h = ground (arith, h x, find_congr p q xs h)

-- After an incident that was new has been taken in with its run, an incident of the same source and
-- external id is a duplicate: it changes nothing, and gives back the first incident and the first
-- run. The run has to be for its incident, whose id no earlier run carries.
pub add_incident_duplicate :
    (first again : IncidentRecord) (run other : HostedRunRecord) (doc : ControlPlaneData)
    → (add_incident first run doc).1.duplicate ≡ false
    → same_origin first again ≡ true
    → run.incident_id ≡ first.id
    → find (λ r. r.incident_id == first.id) doc.runs ≡ none
    → add_incident again other (add_incident first run doc).0
      ≡ ((add_incident first run doc).0, record { incident = first; run = run; duplicate = true })
unfolding add_incident
add_incident_duplicate first again run other doc new same mine unused =
    let fresh : find (λ i. same_origin i first) doc.incidents ≡ none = ground arith in
    let absent : find (λ i. same_origin i again) doc.incidents ≡ none =
      find_congr (λ i. same_origin i again) (λ i. same_origin i first) doc.incidents
        (λ i. origin_swap i)
      ∙ fresh in
    ground (
      arith,
      fresh,
      find-append (λ i. same_origin i again) doc.incidents (first ∷ []) absent,
      same,
      find-append (λ r. r.incident_id == first.id) doc.runs (run ∷ []) unused,
      eq_iff run.incident_id first.id,
    )
  where
    origin_swap : (i : IncidentRecord) → same_origin i again ≡ same_origin i first
    origin_swap i =
        unfold same_origin in
        ground (
          arith,
          same,
          eq_iff first.source again.source,
          eq_iff first.external_id again.external_id,
        )
