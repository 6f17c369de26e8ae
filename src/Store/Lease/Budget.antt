-- ===== src/Store/Lease/Budget.antt =====
-- How often workers can claim: each claim uses up one of the attempts that a run has left
-- (src/control-plane/store.ts, `claimRun`).
use softwareoath.Store.Lease.Claims.{claim_run-IsTaken, claim_run-none}
use softwareoath.Records.Data.{ControlPlaneData}
use softwareoath.Store.Lease.{is_eligible, lease_run, Timestamp, claim_run}
use softwareoath.Records.Run.{HostedRunRecord}
use softwareoath.Base.{
  none, List, String, ℕ, ◌+◌, ◌∷◌, get_elem?, ◌≡◌, ◌-◌, some, true, arith, [], set, Option-cases,
  suc, inl, zero, inr,
}

-- The attempts that all runs have left together.
abbrev pub remaining : List HostedRunRecord → ℕ
remaining [] = 0
remaining (r ∷ rs) = (r.max_attempts - r.attempts) + remaining rs

remaining-set :
    (rs : List HostedRunRecord) (i : ℕ) (old new : HostedRunRecord)
    → get_elem? rs i ≡ some old
    → remaining (set rs i new) + (old.max_attempts - old.attempts)
      ≡ remaining rs + (new.max_attempts - new.attempts)
remaining-set [] i old new e = absurd (ground arith)
remaining-set (r ∷ rs) zero old new e = ground arith
remaining-set (r ∷ rs) (suc i) old new e = omega (arith, remaining-set rs i old new e)

lease_run-spends :
    (worker : String) (lease_ms now : Timestamp) (run : HostedRunRecord)
    → is_eligible now run ≡ true
    → ((lease_run worker lease_ms now run).max_attempts
          - (lease_run worker lease_ms now run).attempts)
        + 1
      ≡ run.max_attempts - run.attempts
unfolding is_eligible lease_run
lease_run-spends worker lease_ms now run e = ground arith

-- A claim that a worker makes: its name, the length of the lease, and the time.
pub record ClaimCall : Type 0 where
  pub worker_id : String
  pub lease_ms : ℕ
  pub now : Timestamp

-- A series of claims, and how many of them returned a run.
unfoldable pub claims : List ClaimCall → ControlPlaneData → ControlPlaneData × ℕ
claims [] doc = (doc, 0)
claims (c ∷ cs) doc =
    let taken = claim_run c.worker_id c.lease_ms c.now doc in
    let rest = claims cs taken.0 in (rest.0, elim taken.1 [ none ↦ rest.1 | some _ ↦ suc rest.1 ])

claim_run-spends :
    (worker : String) (lease_ms now : Timestamp) (doc : ControlPlaneData)
    {claimed : HostedRunRecord}
    → (claim_run worker lease_ms now doc).1 ≡ some claimed
    → remaining (claim_run worker lease_ms now doc).0.runs + 1 ≡ remaining doc.runs
claim_run-spends worker lease_ms now doc e =
    let (at, run, taken, _, after) = claim_run-IsTaken worker lease_ms now doc e in
    rw after (
      omega (
        arith,
        remaining-set doc.runs at run (lease_run worker lease_ms now run) taken.stands,
        lease_run-spends worker lease_ms now run taken.eligible,
      ))

-- Whatever workers claim, whenever and for however long: the claims that return a run are as many as
-- the attempts that they use up, and so at most as many as the runs had left.
pub claims-remaining :
    (cs : List ClaimCall) (doc : ControlPlaneData)
    → (claims cs doc).1 + remaining (claims cs doc).0.runs ≡ remaining doc.runs
unfolding claims
claims-remaining [] doc = omega arith
claims-remaining (c ∷ cs) doc = elim (Option-cases (claim_run c.worker_id c.lease_ms c.now doc).1) [
  | inl nothing ↦ ground (
    arith,
    nothing,
    (claim_run-none c.worker_id c.lease_ms c.now doc nothing).0,
    claims-remaining cs (claim_run c.worker_id c.lease_ms c.now doc).0,
  )
  | inr (claimed, found) ↦ ground (
    arith,
    found,
    claim_run-spends c.worker_id c.lease_ms c.now doc found,
    claims-remaining cs (claim_run c.worker_id c.lease_ms c.now doc).0,
  )
]
