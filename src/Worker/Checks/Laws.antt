-- ===== src/Worker/Checks/Laws.antt =====
-- A run is offered to its owner only after its checks have passed
-- (src/control-plane/orchestrator.ts, `monitorCi`; src/integrations/github.ts, `checkCommit`).
use softwareoath.Worker.Checks.{
  is_completed, has_failed, is_fine, is_pending_run, monitor_ci, CiOutcome, changed_runs,
  bad_repository, store_failed, Answer, answered, request_failed, CheckRun, check_commit,
  repository_parts, installation, monitor_run, monitor_runs, failed_names, settle_run, CommitChecks,
  checks_success,
}
use softwareoath.Store.Incidents.{list_runs, get_run}
use softwareoath.Base.{
  any, not, All, filter, ◌<◌, false, ap, ℕ, List, [], ◌∷◌, refl, sym, ◌∙◌, inl, inr, Bool-cases,
  find, find-modify_first, Option-cases, true, find-modify_first_other, find-true, ◌==◌, ◌≡◌, ◌⊎◌,
  eq_iff, arith, some, String,
}
use softwareoath.Records.Data.{StoreError, ControlPlaneData}
use mathlib.Core.List.{Memᴰ}
use softwareoath.Records.Values.{or_else, Timestamp}
use softwareoath.Store.Registry.{get_repository}
use Prim.Native.String
use softwareoath.Store.Control.{no_update, append_log, update_run, assign_update}
use softwareoath.Records.Run.{ci_failed, awaiting_approval, HostedRunRecord}
use softwareoath.Worker.Steps.{log}
use softwareoath.Store.Approval.{is_awaiting}

-- A settled run awaits approval only if its checks have passed, or if it did before.
settle_run-awaits :
    (decimal : ℕ → String) (log_id : String) (checks : CommitChecks) (run : HostedRunRecord)
    (now written_at : Timestamp) (doc : ControlPlaneData) (r : HostedRunRecord)
    → get_run run.id (settle_run decimal log_id checks run now written_at doc).0 ≡ some r
    → is_awaiting r.status ≡ true
    → (get_run run.id doc ≡ some r) ⊎ (checks.state ≡ checks_success)
unfolding settle_run get_run log append_log update_run assign_update
settle_run-awaits decimal log_id checks run now written_at doc r found waits =
    elim (Option-cases (find (λ x. x.id == run.id) doc.runs)) [
      | inl missing ↦ inl (ground (arith, found, missing))
      | inr (old, was) ↦ ground (
        arith,
        find-modify_first (λ x. x.id == run.id)
            (λ _.
              assign_update
                (record no_update {
                  status = some ci_failed;
                  error = some (some (String.◌++◌ "CI failed: " (failed_names checks.failed)));
                })
                written_at old)
            doc.runs {x = old} was (find-true (λ x. x.id == run.id) doc.runs {x = old} was),
      )
    ]

-- Settling a run leaves every run of another id as it reads.
get_run-settle_run :
    (decimal : ℕ → String) (log_id : String) (checks : CommitChecks) (run : HostedRunRecord)
    (now written_at : Timestamp) (doc : ControlPlaneData) (id : String)
    → (run.id == id) ≡ false
    → get_run id (settle_run decimal log_id checks run now written_at doc).0 ≡ get_run id doc
unfolding settle_run get_run log append_log update_run assign_update
get_run-settle_run decimal log_id checks run now written_at doc id apart =
    elim (Option-cases (find (λ x. x.id == run.id) doc.runs)) [
      | inl missing ↦ ground (arith, missing)
      | inr (old, was) ↦
          let kept = find-true (λ x. x.id == run.id) doc.runs {x = old} was in
          let still : (old.id == id) ≡ false = ground (arith, kept, eq_iff old.id run.id) in
          ground (
            arith,
            was,
            find-modify_first_other (λ x. x.id == run.id) (λ x. x.id == id)
                (λ _.
                  assign_update
                    (record no_update {
                      status = some ci_failed;
                      error = some (some (String.◌++◌ "CI failed: " (failed_names checks.failed)));
                    })
                    written_at old)
                doc.runs (λ x h. ground (arith, eq_iff x.id run.id)) (λ _. still),
            find-modify_first_other (λ x. x.id == run.id) (λ x. x.id == id)
                (λ _.
                  assign_update (record no_update { status = some awaiting_approval }) written_at
                    old)
                doc.runs (λ x h. ground (arith, eq_iff x.id run.id)) (λ _. still),
          )
    ]

-- GitHub has answered for the commit of the run, and its checks have passed.
abbrev pub HasPassed : (ℕ → String → String → String → Answer) → HostedRunRecord → Type 0
HasPassed ask run =
    (id : ℕ) × (owner : String) × (repo : String) × (total : ℕ) × (checks : List CheckRun) × (ask id
        owner repo (or_else run.repair_commit "")
      ≡ answered total checks)
    × ((check_commit total checks).state ≡ checks_success)

Answer-cases :
    (a : Answer)
    → ((message : String) × (a ≡ request_failed message))
      ⊎ ((total : ℕ) × (checks : List CheckRun) × (a ≡ answered total checks))
Answer-cases (request_failed message) = inl (message, refl)
Answer-cases (answered total checks) = inr (total, checks, refl)

Outcome-cases :
    (o : CiOutcome)
    → ((n : ℕ) × (o ≡ changed_runs n))
      ⊎ (((name : String) × (o ≡ bad_repository name)) ⊎ ((e : StoreError) × (o ≡ store_failed e)))
Outcome-cases (changed_runs n) = inl (n, refl)
Outcome-cases (bad_repository name) = inr (inl (name, refl))
Outcome-cases (store_failed e) = inr (inr (e, refl))

module _ (decimal : ℕ → String) (log_id : String → String)
    (ask : ℕ → String → String → String → Answer) (now written_at : Timestamp) where
  settled :
      (run : HostedRunRecord) (doc : ControlPlaneData) (id : String) (r : HostedRunRecord)
      (checks : CommitChecks)
      → get_run id (settle_run decimal (log_id run.id) checks run now written_at doc).0 ≡ some r
      → is_awaiting r.status ≡ true
      → (get_run id doc ≡ some r) ⊎ ((run.id ≡ id) × (checks.state ≡ checks_success))
  settled run doc id r checks found waits = elim (Bool-cases (run.id == id)) [
    | inr apart ↦ inl (
        sym (get_run-settle_run decimal (log_id run.id) checks run now written_at doc id apart)
        ∙ found)
    | inl e ↦
        let same = (eq_iff run.id id).0 e in
        elim (settle_run-awaits decimal (log_id run.id) checks run now written_at doc r
          (ap (λ i. get_run i (settle_run decimal (log_id run.id) checks run now written_at doc).0)
              same
            ∙ found)
          waits) [
            | inl before ↦ inl (sym (ap (λ i. get_run i doc) same) ∙ before)
            | inr passed ↦ inr (same, passed)
          ]
  ]

  monitor_run-awaits :
      (run : HostedRunRecord) (doc : ControlPlaneData) (id : String) (r : HostedRunRecord)
      → get_run id (monitor_run decimal log_id ask now written_at run doc).0 ≡ some r
      → is_awaiting r.status ≡ true
      → (get_run id doc ≡ some r) ⊎ ((run.id ≡ id) × HasPassed ask run)
  unfolding monitor_run log append_log get_run
  monitor_run-awaits run doc id r found waits =
      elim (Option-cases (get_repository run.repository doc)) [
        | inl n ↦ inl (ground (arith, found, n))
        | inr (reg, e1) ↦ elim (Option-cases (installation reg.installation_id)) [
          | inl n ↦ inl (ground (arith, found, e1, n))
          | inr (at, e2) ↦ elim (Option-cases (repository_parts run.repository)) [
            | inl n ↦ inl (ground (arith, found, e1, e2, n))
            | inr ((owner, repo), e3) ↦
                elim (Answer-cases (ask at owner repo (or_else run.repair_commit ""))) [
                  | inl (message, e4) ↦ inl (ground (arith, found, e1, e2, e3, e4))
                  | inr (total, checks, e4) ↦
                      elim (settled run doc id r (check_commit total checks)
                        (ground (arith, found, e1, e2, e3, e4)) waits) [
                          | inl before ↦ inl before
                          | inr (same, passed) ↦
                              inr (same, (at, owner, repo, total, checks, e4, passed))
                        ]
                ]
          ]
        ]
      ]

  monitor_runs-awaits :
      (runs : List HostedRunRecord) (doc : ControlPlaneData) (id : String) (r : HostedRunRecord)
      → get_run id (monitor_runs decimal log_id ask now written_at runs doc).0 ≡ some r
      → is_awaiting r.status ≡ true
      → (get_run id doc ≡ some r)
        ⊎ ((run : HostedRunRecord) × Memᴰ run runs × (run.id ≡ id) × HasPassed ask run)
  unfolding monitor_runs
  monitor_runs-awaits [] doc id r found waits = inl found
  monitor_runs-awaits (run ∷ runs) doc id r found waits =
      let turn = monitor_run decimal log_id ask now written_at run doc in
      let here : get_run id turn.0 ≡ some r
          → (get_run id doc ≡ some r)
            ⊎ ((x : HostedRunRecord) × Memᴰ x (run ∷ runs) × (x.id ≡ id) × HasPassed ask x) =
        (λ f. elim (monitor_run-awaits run doc id r f waits) [
          | inl before ↦ inl before
          | inr (same, passed) ↦ inr (run, Memᴰ.head refl, same, passed)
        ]) in
      elim (Outcome-cases turn.1) [
        | inr (inl (name, e)) ↦ here (ground (arith, found, e))
        | inr (inr (x, e)) ↦ here (ground (arith, found, e))
        | inl (n, e) ↦
            elim (monitor_runs-awaits runs turn.0 id r (ground (arith, found, e)) waits) [
              | inl before ↦ here before
              | inr (x, member, same, passed) ↦ inr (x, Memᴰ.tail member, same, passed)
            ]
      ]

-- A run that awaits its owner's approval after the monitoring did so before and stands as it stood,
-- or it was pending with a commit of its repair, and GitHub's answer for that commit says that its
-- checks have passed.
pub monitor_ci-awaits :
    (decimal : ℕ → String) (log_id : String → String) (ask : ℕ → String → String → String → Answer)
    (now written_at : Timestamp) (doc : ControlPlaneData) (id : String) (r : HostedRunRecord)
    → get_run id (monitor_ci decimal log_id ask now written_at doc).0 ≡ some r
    → is_awaiting r.status ≡ true
    → (get_run id doc ≡ some r)
      ⊎ ((run : HostedRunRecord) × Memᴰ run (filter is_pending_run (list_runs doc))
          × (run.id ≡ id)
          × HasPassed ask run)
unfolding monitor_ci
monitor_ci-awaits decimal log_id ask now written_at doc id r found waits =
    monitor_runs-awaits decimal log_id ask now written_at (filter is_pending_run (list_runs doc))
      doc id r found waits

every-completed :
    (cs : List CheckRun)
    → any (λ c. not (is_completed c)) cs ≡ false
    → any has_failed cs ≡ false
    → All (λ c. (c.status ≡ "completed") × (is_fine c.conclusion ≡ true)) cs
every-completed [] a b = tt
every-completed (c ∷ cs) a b = (
  (ground (arith, eq_iff c.status "completed"), ground arith),
  every-completed cs (ground arith) (ground arith),
)

-- The checks of a commit have passed only if there are some by GitHub's count and each of them has
-- completed with a conclusion of success, neutral or skipped.
pub check_commit-passed :
    (total : ℕ) (cs : List CheckRun)
    → (check_commit total cs).state ≡ checks_success
    → (0 < total) × All (λ c. (c.status ≡ "completed") × (is_fine c.conclusion ≡ true)) cs
unfolding check_commit
check_commit-passed total cs h = (ground arith, every-completed cs (ground arith) (ground arith))
