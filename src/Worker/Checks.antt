-- ===== src/Worker/Checks.antt =====
-- How the checks of a repair's commit decide what becomes of a run: `checkCommit`
-- (src/integrations/github.ts) and `monitorCi` (src/control-plane/orchestrator.ts).
pub mod Laws
use softwareoath.Store.Incidents.{list_runs}
use Prim.Native.Char.{Char, code}
use Prim.Native.String
use softwareoath.Worker.Steps.{log}
use softwareoath.Store.Control.{update_run, no_update}
use softwareoath.Store.Registry.{get_repository}
use softwareoath.Records.Data.{ControlPlaneData, StoreError, ok, err}
use softwareoath.Records.Run.{
  HostedRunRecord, RunStatus, ci_pending, ci_failed, awaiting_approval, info, warning, error,
}
use softwareoath.Records.Values.{Timestamp, or_else, is_given}
use softwareoath.Base.{
  ℕ, ◌+◌, nat_eq, String, Bool, true, false, not, ◌&&◌, ◌||◌, Option, none, some, List, [], ◌∷◌,
  map, filter, any, ◌==◌, if◌then◌else◌, split,
}

pub record CheckRun : Type 0 where
  pub name : String
  pub status : String
  pub conclusion : Option String

pub data ChecksState : Type 0 where
  checks_pending checks_success checks_failure : ChecksState

pub record CommitChecks : Type 0 where
  pub state : ChecksState
  pub total : ℕ
  pub failed : List String

abbrev pub is_completed : CheckRun → Bool
is_completed c = c.status == "completed"

-- `["success", "neutral", "skipped"].includes(conclusion ?? "")`
abbrev pub is_fine : Option String → Bool
is_fine none = false
is_fine (some c) = c == "success" || c == "neutral" || c == "skipped"

abbrev pub has_failed : CheckRun → Bool
has_failed c = is_completed c && not (is_fine c.conclusion)

-- The verdict on what GitHub has answered: its count and its list of runs.
unfoldable pub check_commit : ℕ → List CheckRun → CommitChecks
check_commit total check_runs = record {
  state =
      if any has_failed check_runs
      then checks_failure
      else if any (λ c. not (is_completed c)) check_runs || nat_eq total 0
      then checks_pending
      else checks_success;
  total = total;
  failed = map (λ c. c.name) (filter has_failed check_runs);
}

-- What the request to GitHub gives: its count and its check runs, or the message of an error.
pub data Answer : Type 0 where
  answered : ℕ → List CheckRun → Answer
  request_failed : String → Answer

-- `none` where the function throws.
abbrev pub owner_and_name : List String → Option (String × String)
owner_and_name (owner ∷ repo ∷ []) = if owner == "" || repo == "" then none else some (owner, repo)
owner_and_name _ = none

unfoldable pub repository_parts : String → Option (String × String)
unfolding split
repository_parts repository = owner_and_name (split b'/' repository)

-- How many runs have changed, or the error that ends the call.
pub data CiOutcome : Type 0 where
  changed_runs : ℕ → CiOutcome
  bad_repository : String → CiOutcome
  store_failed : StoreError → CiOutcome

abbrev pub is_pending_run : HostedRunRecord → Bool
is_pending_run run = is_ci_pending run.status && is_given run.repair_commit
  where
    is_ci_pending : RunStatus → Bool
    is_ci_pending ci_pending = true
    is_ci_pending _ = false

-- `names.join(", ") || "unknown check"`
abbrev pub joined : List String → String
joined [] = ""
joined (n ∷ []) = n
joined (n ∷ ns) = String.◌++◌ n (String.◌++◌ ", " (joined ns))

abbrev pub failed_names : List String → String
failed_names names = if joined names == "" then "unknown check" else joined names

-- The update and the log of a run on which there is a verdict.
unfoldable pub settle_run :
    (ℕ → String)
    → String
    → CommitChecks
    → HostedRunRecord
    → Timestamp
    → Timestamp
    → ControlPlaneData
    → ControlPlaneData × CiOutcome
unfolding update_run log
settle_run decimal log_id checks run now written_at doc = elim checks.state [
  | checks_pending ↦ (doc, changed_runs 0)
  | checks_success ↦
      elim (update_run run.id (record no_update { status = some awaiting_approval }) written_at
        doc) [
          | err e ↦ (doc, store_failed e)
          | ok (changed, _) ↦ (
            log log_id run.id
                (String.◌++◌ "CI passed ("
                  (String.◌++◌ (decimal checks.total) " checks). Owner review is now available."))
                info now changed,
            changed_runs 1,
          )
        ]
  | checks_failure ↦
      elim (update_run run.id
        (record no_update {
          status = some ci_failed;
          error = some (some (String.◌++◌ "CI failed: " (failed_names checks.failed)));
        })
        written_at doc) [
          | err e ↦ (doc, store_failed e)
          | ok (changed, _) ↦ (
            log log_id run.id
                (String.◌++◌ "CI failed and the pull request remains unmergeable: "
                  (String.◌++◌ (failed_names checks.failed) "."))
                error now changed,
            changed_runs 1,
          )
        ]
]

abbrev pub installation : Option ℕ → Option ℕ
installation none = none
installation (some id) = if nat_eq id 0 then none else some id

-- One turn of the loop. `ask` is the request to GitHub with the installation, the owner, the name and
-- the commit, `decimal` gives the digits of a number, and `log_id` the id drawn for the log of a run.
unfoldable pub monitor_run :
    (ℕ → String)
    → (String → String)
    → (ℕ → String → String → String → Answer)
    → Timestamp
    → Timestamp
    → HostedRunRecord
    → ControlPlaneData
    → ControlPlaneData × CiOutcome
unfolding get_repository settle_run repository_parts check_commit
monitor_run decimal log_id ask now written_at run doc = elim (get_repository run.repository doc) [
  | none ↦ (doc, changed_runs 0)
  | some registration ↦ elim (installation registration.installation_id) [
    | none ↦ (doc, changed_runs 0)
    | some id ↦ elim (repository_parts run.repository) [
      | none ↦ (doc, bad_repository run.repository)
      | some (owner, repo) ↦ elim (ask id owner repo (or_else run.repair_commit "")) [
        | request_failed message ↦ (
          log (log_id run.id) run.id
              (String.◌++◌ "CI status check failed; approval remains unavailable: " message) warning
              now doc,
          changed_runs 0,
        )
        | answered total check_runs ↦
            settle_run decimal (log_id run.id) (check_commit total check_runs) run now written_at
              doc
      ]
    ]
  ]
]

-- The loop over the runs that were read as pending; an error ends it.
unfoldable pub monitor_runs :
    (ℕ → String)
    → (String → String)
    → (ℕ → String → String → String → Answer)
    → Timestamp
    → Timestamp
    → List HostedRunRecord
    → ControlPlaneData
    → ControlPlaneData × CiOutcome
unfolding monitor_run
monitor_runs decimal log_id ask now written_at [] doc = (doc, changed_runs 0)
monitor_runs decimal log_id ask now written_at (run ∷ runs) doc =
    let (turned, outcome) = monitor_run decimal log_id ask now written_at run doc in
    let (left, rest) = monitor_runs decimal log_id ask now written_at runs turned in
    elim outcome [
      | changed_runs n ↦ (left, add_changed n rest)
      | bad_repository r ↦ (turned, bad_repository r)
      | store_failed e ↦ (turned, store_failed e)
    ]
  where
    add_changed : ℕ → CiOutcome → CiOutcome
    add_changed n (changed_runs m) = changed_runs (n + m)
    add_changed n (bad_repository r) = bad_repository r
    add_changed n (store_failed e) = store_failed e

unfoldable pub monitor_ci :
    (ℕ → String)
    → (String → String)
    → (ℕ → String → String → String → Answer)
    → Timestamp
    → Timestamp
    → ControlPlaneData
    → ControlPlaneData × CiOutcome
unfolding monitor_runs list_runs
monitor_ci decimal log_id ask now written_at doc =
    monitor_runs decimal log_id ask now written_at (filter is_pending_run (list_runs doc)) doc
