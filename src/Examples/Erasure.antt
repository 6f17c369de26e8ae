-- ===== src/Examples/Erasure.antt =====
-- The erasure of a repository and the invariant of the document, at the records of `Examples.Data`.
use softwareoath.Store.Sessions.{list_audit_events}
use softwareoath.Store.Analyses.{list_optimizer_analyses}
use softwareoath.Store.Approval.{get_attestation}
use softwareoath.Store.Erasure.Laws.{erase_run_complete, erase_others, erase_complete}
use softwareoath.Store.Knowledge.{list_knowledge, list_questions}
use softwareoath.Store.Control.{list_logs, no_update}
use softwareoath.Store.History.Soundness.{run_operations-IsSound}
use softwareoath.Store.History.{
  Operation, run_operations, add_incident_op, claim_run_op, update_run_op, decide_op,
  delete_repository_data_op,
}
use softwareoath.Examples.Data.{
  shop, run_one, incident_one, approval_two, attestation_two, audit_two,
}
use softwareoath.Store.Sound.{IsSound}
use softwareoath.Store.Erasure.{belongs, erase}
use softwareoath.Store.Registry.{get_repository}
use softwareoath.Store.Incidents.{get_run}
use softwareoath.Records.Data.{ControlPlaneData, empty_data}
use softwareoath.Base.{String, filter, List, none, ◌≡◌, arith, ◌∷◌, [], refl, ◌==◌, some, eq_iff}
use softwareoath.Records.Run.{HostedRunRecord, RunLogRecord, info, awaiting_approval}

-- The document with a run of another repository and with the logs of both.
abbrev run_blog : HostedRunRecord
run_blog = record run_one { id = "r3"; incident_id = "i2"; repository = "acme/blog" }

abbrev log_of : String → RunLogRecord
log_of run_id = record {
  id = run_id;
  run_id = run_id;
  level = info;
  message = "claimed";
  created_at = 100;
}

abbrev two_repositories : ControlPlaneData
two_repositories = record shop {
  incidents = incident_one ∷ record incident_one { id = "i2"; external_id = "e2" } ∷ [];
  runs = run_one ∷ run_blog ∷ [];
  logs = log_of "r1" ∷ log_of "r3" ∷ [];
  approvals = approval_two ∷ [];
}

erase_complete_example :
    (filter (belongs "acme/shop") (erase "acme/shop" two_repositories).runs ≡ [])
    × (filter (λ m. m.repository == "acme/shop") (erase "acme/shop" two_repositories).mappings ≡ [])
    × (get_repository "acme/shop" (erase "acme/shop" two_repositories) ≡ none)
    × (list_knowledge (some "acme/shop") (erase "acme/shop" two_repositories) ≡ [])
    × (list_optimizer_analyses "acme/shop" (erase "acme/shop" two_repositories) ≡ [])
    × (list_questions "acme/shop" (erase "acme/shop" two_repositories) ≡ [])
    × (list_audit_events (some "acme/shop") (erase "acme/shop" two_repositories) ≡ [])
erase_complete_example =
    erase_complete "acme/shop" two_repositories (λ e. ground (arith, eq_iff "acme/shop" ""))

erase_run_complete_example :
    (get_run "r1" (erase "acme/shop" two_repositories) ≡ none)
    × (list_logs "r1" (erase "acme/shop" two_repositories) ≡ [])
    × (get_attestation "r1" (erase "acme/shop" two_repositories) ≡ none)
    × (filter (λ a. a.run_id == "r1") (erase "acme/shop" two_repositories).approvals ≡ [])
erase_run_complete_example = erase_run_complete "acme/shop" two_repositories "r1" refl

erase_others_example :
    (get_repository "acme/blog" (erase "acme/shop" two_repositories)
      ≡ get_repository "acme/blog" two_repositories)
    × (list_knowledge (some "acme/blog") (erase "acme/shop" two_repositories)
        ≡ list_knowledge (some "acme/blog") two_repositories)
    × (list_optimizer_analyses "acme/blog" (erase "acme/shop" two_repositories)
        ≡ list_optimizer_analyses "acme/blog" two_repositories)
    × (list_questions "acme/blog" (erase "acme/shop" two_repositories)
        ≡ list_questions "acme/blog" two_repositories)
    × (get_run "r3" (erase "acme/shop" two_repositories) ≡ get_run "r3" two_repositories)
    × (list_logs "r3" (erase "acme/shop" two_repositories) ≡ list_logs "r3" two_repositories)
    × (get_attestation "r3" (erase "acme/shop" two_repositories)
        ≡ get_attestation "r3" two_repositories)
erase_others_example =
    erase_others "acme/shop" "acme/blog" two_repositories "r3"
      (λ e. ground (arith, eq_iff "acme/blog" ""))
      (λ e. ground (arith, eq_iff "acme/shop" "acme/blog")) refl

-- A run from its incident to the decision of its owner.
abbrev life_of_a_run : List Operation
life_of_a_run =
    add_incident_op incident_one run_one
    ∷ claim_run_op "w1" 30 100
    ∷ update_run_op "r1" (record no_update { status = some awaiting_approval }) 120
    ∷ decide_op (record approval_two { run_id = "r1" }) (record attestation_two { run_id = "r1" })
        audit_two
    ∷ delete_repository_data_op "acme/shop"
    ∷ []

empty-IsSound : IsSound empty_data
empty-IsSound = record { origins = tt; started = tt; budget = tt }

run_operations-IsSound_example : IsSound (run_operations life_of_a_run empty_data)
run_operations-IsSound_example =
    run_operations-IsSound life_of_a_run empty_data
      ((refl, omega arith), (tt, (tt, (tt, (tt, tt))))) empty-IsSound

shop-IsSound : IsSound shop
shop-IsSound = record {
  origins = (refl, tt);
  started = (refl, (refl, tt));
  budget = (omega arith, (omega arith, tt));
}
