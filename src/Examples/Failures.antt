-- ===== src/Examples/Failures.antt =====
-- The laws of a worker's failures and of its monitoring of checks, at the records of `Examples.Data`.
use mathlib.Core.List.{Memᴰ}
use softwareoath.Base.Sort.{sort}
use softwareoath.Records.Repository.{RepositoryRegistration, disabled}
use softwareoath.Records.Run.{ci_pending, awaiting_approval, HostedRunRecord, repairing}
use softwareoath.Store.Incidents.{list_runs, get_run}
use softwareoath.Store.Registry.{get_repository}
use softwareoath.Store.Control.{update_run, assign_update, append_log}
use softwareoath.Worker.Steps.{log, fail_run, retry_delay_ms}
use softwareoath.Worker.Checks.{
  CheckRun, Answer, answered, request_failed, is_pending_run, monitor_ci, monitor_runs, monitor_run,
  settle_run, repository_parts, check_commit,
}
use softwareoath.Worker.Checks.Laws.{HasPassed, monitor_ci-awaits}
use softwareoath.Base.{
  if◌then◌else◌, nat_eq, String, ◌==◌, ◌⊎◌, filter, some, none, Option, true, false, ℕ, ◌+◌, leb,
  [], ◌∷◌, ◌≡◌, ◌≤◌, refl, arith, split,
}
use softwareoath.Worker.Steps.Laws.{fail_run-is_eligible}
use softwareoath.Examples.Data.{shop, run_one}
use softwareoath.Store.Lease.{is_eligible}
use softwareoath.Records.Data.{ControlPlaneData, ok}

-- The run as the worker has claimed it, with an attempt left and with its last attempt.
abbrev claimed_run : HostedRunRecord
claimed_run = record run_one {
  status = repairing;
  attempts = 2;
  lease_owner = some "w1";
  lease_expires_at = some 130;
}

abbrev last_run : HostedRunRecord
last_run = record claimed_run { attempts = 3 }

abbrev unwanted_run : HostedRunRecord
unwanted_run = record claimed_run { cancel_requested = true }

abbrev holding : HostedRunRecord → ControlPlaneData
holding run = record shop { runs = run ∷ [] }

fail_run-is_eligible_example :
    (failed : ControlPlaneData) × (result : HostedRunRecord) × (fail_run "l1" "no network"
        claimed_run 120 121
        (holding claimed_run)
      ≡ ok failed)
    × (get_run "r1" failed ≡ some result)
    × (is_eligible 200 result ≡ leb (120 + retry_delay_ms 2) 200)
    × (60000 ≤ retry_delay_ms 2)
    × (retry_delay_ms 2 ≤ 3600000)
fail_run-is_eligible_example =
    fail_run-is_eligible "l1" "no network" claimed_run 120 121 200 (holding claimed_run) claimed_run
      (unfold get_run in refl) refl refl (omega arith) refl

-- A run whose repair is pushed, in a repository that is registered.
abbrev pushed_run : HostedRunRecord
pushed_run = record run_one { status = ci_pending; repair_commit = some "c1"; attempts = 1 }

abbrev with_app : RepositoryRegistration Option
with_app = record {
  id = "g1";
  repository = "acme/shop";
  clone_url = "https://example.org/shop.git";
  default_branch = "main";
  installation_id = some 12;
  local_path = none;
  schedule = record { mode = disabled; cron = none; timezone = "UTC" };
  policy = record {
    max_pull_requests_per_run = 1;
    max_ci_repair_attempts = 2;
    allow_major_package_updates = false;
  };
  next_run_at = none;
  last_run_at = none;
  created_at = 60;
  updated_at = 60;
}

abbrev pushed_shop : ControlPlaneData
pushed_shop = record shop { runs = pushed_run ∷ []; repositories = with_app ∷ [] }

abbrev build_check : CheckRun
build_check = record { name = "build"; status = "completed"; conclusion = some "success" }

-- GitHub's answer for one commit, and the digits of the one number that is written.
abbrev answer_for : ℕ → String → String → String → Answer
answer_for id owner repo ref =
    if ref == "c1" then answered 1 (build_check ∷ []) else request_failed "Not Found"

abbrev digits : ℕ → String
digits n = if nat_eq n 1 then "1" else "0"

abbrev log_name : String → String
log_name id = "l1"

abbrev offered_run : HostedRunRecord
offered_run = record pushed_run { status = awaiting_approval; updated_at = 201 }

monitor_ci-awaits_example :
    (get_run "r1" pushed_shop ≡ some offered_run)
    ⊎ ((run : HostedRunRecord) × Memᴰ run (filter is_pending_run (list_runs pushed_shop))
        × (run.id ≡ "r1")
        × HasPassed answer_for run)
monitor_ci-awaits_example =
    monitor_ci-awaits digits log_name answer_for 200 201 pushed_shop "r1" offered_run
      (unfold monitor_ci monitor_runs monitor_run settle_run get_repository list_runs sort
          repository_parts split check_commit update_run assign_update log append_log get_run in
        refl)
      refl
