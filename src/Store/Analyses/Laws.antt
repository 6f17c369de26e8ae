-- ===== src/Store/Analyses/Laws.antt =====
-- Who owns an analysis, and what owners have added to it (src/control-plane/store.ts).
use softwareoath.Records.Repository.{RepositoryRegistration}
use softwareoath.Store.Analyses.{
  save_optimizer_analysis, record_optimizer_decision, get_optimizer_analysis,
  OptimizerAnalysisRecordV1, OwnerObservationDecisionV1, Property, ControlPlaneData, Analysis, ok,
  or_empty, err, decision_exists, get_repository, merge_analysis,
}
use softwareoath.Base.{
  List, String, ◌≡◌, any, some, ◌==◌, ◌++◌, arith, Option, ◌∷◌, find-modify_first, [], Option-cases,
  inl, true, find, eq_refl, inr, any-append, eq_iff, find-true, sym,
}

-- Saving an analysis again never changes whose it is, and keeps what its owners added: their
-- decisions, their usage, the specifications, the outcomes and the time of creation.
pub save_optimizer_analysis_keeps :
    (analysis : OptimizerAnalysisRecordV1 Property) (doc after : ControlPlaneData)
    (old stored : Analysis)
    → get_optimizer_analysis analysis.id doc ≡ some old
    → save_optimizer_analysis analysis doc ≡ ok (after, stored)
    → (get_optimizer_analysis analysis.id after ≡ some stored)
      × (stored.repository ≡ old.repository)
      × (stored.tenant_key ≡ old.tenant_key)
      × (stored.owner_decisions ≡ old.owner_decisions)
      × (stored.owner_usage ≡ old.owner_usage)
      × (or_empty stored.migration_specifications ≡ or_empty old.migration_specifications)
      × (or_empty stored.migration_outcomes ≡ or_empty old.migration_outcomes)
      × (stored.created_at ≡ old.created_at)
unfolding save_optimizer_analysis get_optimizer_analysis
save_optimizer_analysis_keeps analysis doc after old stored found e = (
  ground (
    arith,
    find-modify_first (λ a. a.id == analysis.id) (λ _. merge_analysis analysis old)
        doc.optimizer_analyses {x = old} found (eq_refl analysis.id),
  ),
  ground (arith, eq_iff old.repository analysis.repository),
  ground (arith, eq_iff old.tenant_key analysis.tenant_key),
  ground arith,
  ground arith,
  ground arith,
  ground arith,
  ground arith,
)

-- An analysis is saved only under a repository that is registered, with the id of its registration.
pub save_optimizer_analysis_registered :
    (analysis : OptimizerAnalysisRecordV1 Property) (doc after : ControlPlaneData)
    (stored : Analysis)
    → save_optimizer_analysis analysis doc ≡ ok (after, stored)
    → (registration : RepositoryRegistration Option) × (get_repository analysis.repository doc
        ≡ some registration)
      × (registration.id ≡ analysis.repository_id)
unfolding save_optimizer_analysis
save_optimizer_analysis_registered analysis doc after stored e =
    elim (Option-cases (get_repository analysis.repository doc)) [
      | inl missing ↦ absurd (ground arith)
      | inr (r, found) ↦ (r, found, ground (arith, eq_iff r.id analysis.repository_id))
    ]

any-last :
    (id : String) (ds : List OwnerObservationDecisionV1) (d : OwnerObservationDecisionV1)
    → d.id ≡ id
    → any (λ x. x.id == id) (ds ++ d ∷ []) ≡ true
any-last id ds d e = ground (arith, any-append (λ x. x.id == id) ds (d ∷ []), eq_iff d.id id)

-- A decision of an owner is recorded at the end of the list, and recording one with the same id again
-- is refused.
pub record_optimizer_decision_once :
    (id repository : String) (decision again : OwnerObservationDecisionV1)
    (doc after : ControlPlaneData) (stored : Analysis)
    → record_optimizer_decision id repository decision doc ≡ ok (after, stored)
    → again.id ≡ decision.id
    → (get_optimizer_analysis id after ≡ some stored)
      × (record_optimizer_decision id repository again after ≡ err decision_exists)
unfolding record_optimizer_decision get_optimizer_analysis
record_optimizer_decision_once id repository decision again doc after stored e same =
    elim (Option-cases (find (λ a. a.id == id) doc.optimizer_analyses)) [
      | inl missing ↦ absurd (ground arith)
      | inr (old, found) ↦
          let new = record old { owner_decisions = old.owner_decisions ++ decision ∷ [] } in
          let reads =
            find-modify_first (λ a. a.id == id) (λ _. new) doc.optimizer_analyses {x = old} found
              (find-true (λ a. a.id == id) doc.optimizer_analyses {x = old} found) in
          (
            ground (arith, reads),
            ground (arith, reads, any-last again.id old.owner_decisions decision (sym same)),
          )
    ]
