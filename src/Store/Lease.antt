-- ===== src/Store/Lease.antt =====
-- How a worker takes up a run: `claimRun` (src/control-plane/store.ts).
use softwareoath.Base.{
  ℕ, ◌+◌, String, Bool, true, false, not, ◌&&◌, Option, none, some, List, ltb, leb, filter, set,
}
pub mod Claims
pub mod Budget
use softwareoath.Base.Sort.{sort, by_key, first, enumerate}
use softwareoath.Records.Values.{Timestamp}
use softwareoath.Records.Run.{
  HostedRunRecord, RunStatus, received, reproducing, repairing, verifying, retry_wait,
}
use softwareoath.Records.Data.{ControlPlaneData}

-- The statuses in which a worker takes a run up.
abbrev pub is_claimable : RunStatus → Bool
is_claimable received = true
is_claimable retry_wait = true
is_claimable reproducing = true
is_claimable repairing = true
is_claimable verifying = true
is_claimable _ = false

-- `!instant || instant <= now`
abbrev pub is_due : Option Timestamp → Timestamp → Bool
is_due none now = true
is_due (some t) now = leb t now

unfoldable pub is_eligible : Timestamp → HostedRunRecord → Bool
is_eligible now run =
    not run.cancel_requested
    && ltb run.attempts run.max_attempts
    && is_claimable run.status
    && is_due run.next_attempt_at now
    && is_due run.lease_expires_at now

unfoldable pub lease_run : String → ℕ → Timestamp → HostedRunRecord → HostedRunRecord
lease_run worker_id lease_ms now run = record run {
  attempts = run.attempts + 1;
  error = none;
  next_attempt_at = none;
  lease_owner = some worker_id;
  lease_expires_at = some (now + lease_ms);
  updated_at = now;
}

-- The runs that may be claimed with their places in the list, the oldest first.
unfoldable pub candidates : Timestamp → List HostedRunRecord → List (ℕ × HostedRunRecord)
unfolding is_eligible
candidates now runs =
    sort (by_key (λ (c : ℕ × HostedRunRecord). c.1.created_at))
      (filter (λ c. is_eligible now c.1) (enumerate 0 runs))

unfoldable pub claim_run :
    String → ℕ → Timestamp → ControlPlaneData → ControlPlaneData × Option HostedRunRecord
unfolding candidates lease_run
claim_run worker_id lease_ms now doc = elim (first (candidates now doc.runs)) [
  | none ↦ (doc, none)
  | some (place, candidate) ↦
      let claimed = lease_run worker_id lease_ms now candidate in
      (record doc { runs = set doc.runs place claimed }, some claimed)
]
