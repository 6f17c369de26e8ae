-- ===== src/Store/Lease/Claims.antt =====
-- What a claim takes, and what it leaves (src/control-plane/store.ts, `claimRun`).
use softwareoath.Base.{
  ℕ, suc, ◌+◌, ◌≤◌, ◌≡◌, ◌∙◌, ap, inl, inr, Bool, true, false, some, List, [], ◌∷◌, arith,
  Bool-cases, get_elem?, filter, All, All-filter, set, ◌≢◌, String, Option-cases, none, ◌<◌, zero,
  refl,
}
use softwareoath.Base.Sort.{
  sort, by_key, first, enumerate, All-sort, All-first, first-sort-least, first-sort-none,
}
use softwareoath.Records.Values.{Timestamp}
use softwareoath.Records.Run.{HostedRunRecord}
use softwareoath.Store.Lease.{is_eligible, candidates, claim_run, lease_run, ControlPlaneData}

abbrev Candidate : Type 0
Candidate = ℕ × HostedRunRecord

abbrev eligible : Timestamp → Candidate → Bool
eligible now c = is_eligible now c.1

StandsAt-enumerate :
    (whole xs : List HostedRunRecord) (n : ℕ)
    → ((k : ℕ) → get_elem? whole (n + k) ≡ get_elem? xs k)
    → All (λ c. get_elem? whole c.0 ≡ some c.1) (enumerate n xs)
StandsAt-enumerate whole [] n h = tt
StandsAt-enumerate whole (x ∷ xs) n h = (
  (ap (get_elem? whole) (omega arith) ∙ h 0),
  StandsAt-enumerate whole xs (suc n) (λ k. ap (get_elem? whole) (omega arith) ∙ h (suc k)),
)

All-filter_self :
    (now : Timestamp) (cs : List Candidate)
    → All (λ c. eligible now c ≡ true) (filter (eligible now) cs)
All-filter_self now [] = tt
All-filter_self now (c ∷ cs) = ground (arith, All-filter_self now cs)

All-runs_of_candidates :
    (now : Timestamp) (n m : ℕ) (xs : List HostedRunRecord)
    → All (λ c. n ≤ c.1.created_at) (filter (eligible now) (enumerate m xs))
    → All (λ s. is_eligible now s ≡ true → n ≤ s.created_at) xs
All-runs_of_candidates now n m [] h = tt
All-runs_of_candidates now n m (x ∷ xs) h = elim (Bool-cases (is_eligible now x)) [
  | inl e ↦ let k = (rw e at h) in ((λ _. k.0), All-runs_of_candidates now n (suc m) xs k.1)
  | inr e ↦ ((λ t. cc), All-runs_of_candidates now n (suc m) xs (rw e at h))
]

none-eligible :
    (now : Timestamp) (m : ℕ) (xs : List HostedRunRecord)
    → filter (eligible now) (enumerate m xs) ≡ []
    → All (λ s. is_eligible now s ≡ false) xs
none-eligible now m [] h = tt
none-eligible now m (x ∷ xs) h = ground (arith, none-eligible now (suc m) xs)

-- The facts about the candidate that is taken.
pub record IsTaken (now : Timestamp) (runs : List HostedRunRecord) (place : ℕ)
    (run : HostedRunRecord) : Type 0 where
  pub stands : get_elem? runs place ≡ some run
  pub eligible : is_eligible now run ≡ true
  pub oldest : All (λ s. is_eligible now s ≡ true → run.created_at ≤ s.created_at) runs

candidate-IsTaken :
    (now : Timestamp) (runs : List HostedRunRecord) (place : ℕ) (run : HostedRunRecord)
    → first (candidates now runs) ≡ some (place, run)
    → IsTaken now runs place run
unfolding candidates
candidate-IsTaken now runs place run e =
    let all = filter (eligible now) (enumerate 0 runs) in
    let stand =
      All-filter (λ c. get_elem? runs c.0 ≡ some c.1) (eligible now) (enumerate 0 runs)
        (StandsAt-enumerate runs runs 0 (λ k. ap (get_elem? runs) (omega arith))) in
    record {
      stands =
          All-first (by_key (λ (c : Candidate). c.1.created_at))
            (λ c. get_elem? runs c.0 ≡ some c.1)
            (sort (by_key (λ (c : Candidate). c.1.created_at)) all) (All-sort _ _ all stand) e;
      eligible =
          All-first (by_key (λ (c : Candidate). c.1.created_at)) (λ c. is_eligible now c.1 ≡ true) _
            (All-sort _ _ all (All-filter_self now (enumerate 0 runs))) e;
      oldest =
          All-runs_of_candidates now run.created_at 0 runs
            (first-sort-least (λ (c : Candidate). c.1.created_at) all e);
    }

-- A claim that returns a run has taken one that stands in the list, was eligible, and is not younger
-- than any eligible run. It returns that run with the lease set, and changes nothing but its place.
pub claim_run-IsTaken :
    (worker : String) (lease_ms now : ℕ) (doc : ControlPlaneData) {claimed : HostedRunRecord}
    → (claim_run worker lease_ms now doc).1 ≡ some claimed
    → (place : ℕ) × (run : HostedRunRecord) × IsTaken now doc.runs place run
      × (claimed ≡ lease_run worker lease_ms now run)
      × ((claim_run worker lease_ms now doc).0
          ≡ record doc { runs = set doc.runs place (lease_run worker lease_ms now run) })
unfolding claim_run
claim_run-IsTaken worker lease_ms now doc e =
    elim (Option-cases (first (candidates now doc.runs))) [
      | inl nothing ↦ absurd (ground arith)
      | inr ((place, run), found) ↦
          (place, run, candidate-IsTaken now doc.runs place run found, ground arith, ground arith)
    ]

-- A claim returns nothing only where no run is eligible, and then it leaves the document as it was.
pub claim_run-none :
    (worker : String) (lease_ms now : ℕ) (doc : ControlPlaneData)
    → (claim_run worker lease_ms now doc).1 ≡ none
    → ((claim_run worker lease_ms now doc).0 ≡ doc) × All (λ s. is_eligible now s ≡ false) doc.runs
unfolding claim_run candidates
claim_run-none worker lease_ms now doc e = elim (Option-cases (first (candidates now doc.runs))) [
  | inl nothing ↦ (ground arith, none-eligible now 0 doc.runs (first-sort-none _ _ nothing))
  | inr (c, found) ↦ absurd (ground arith)
]

-- A leased run is not eligible until its lease ends.
lease_run_held :
    (worker : String) (lease_ms now later : ℕ) (run : HostedRunRecord)
    → is_eligible later (lease_run worker lease_ms now run) ≡ true
    → now + lease_ms ≤ later
unfolding is_eligible lease_run
lease_run_held worker lease_ms now later run e = ground arith

get_elem?-set_self :
    (xs : List HostedRunRecord) (i : ℕ) (x y : HostedRunRecord)
    → get_elem? xs i ≡ some x
    → get_elem? (set xs i y) i ≡ some y
get_elem?-set_self [] i x y h = cc
get_elem?-set_self (z ∷ xs) zero x y h = refl
get_elem?-set_self (z ∷ xs) (suc i) x y h = get_elem?-set_self xs i x y h

get_elem?-set_other :
    (xs : List HostedRunRecord) (i j : ℕ) (y : HostedRunRecord)
    → i ≢ j
    → get_elem? (set xs i y) j ≡ get_elem? xs j
get_elem?-set_other [] i j y h = refl
get_elem?-set_other (z ∷ xs) zero zero y h = absurd (h refl)
get_elem?-set_other (z ∷ xs) zero (suc j) y h = refl
get_elem?-set_other (z ∷ xs) (suc i) zero y h = refl
get_elem?-set_other (z ∷ xs) (suc i) (suc j) y h =
    get_elem?-set_other xs i j y (λ e. h (omega arith))

-- While the lease of a run lasts, a claim by any worker leaves the run as it stands.
pub claim_run_keeps_leased :
    (worker other : String) (lease_ms other_ms now later : ℕ) (doc : ControlPlaneData) (place : ℕ)
    (run : HostedRunRecord)
    → get_elem? doc.runs place ≡ some (lease_run worker lease_ms now run)
    → later < now + lease_ms
    → get_elem? (claim_run other other_ms later doc).0.runs place
      ≡ some (lease_run worker lease_ms now run)
claim_run_keeps_leased worker other lease_ms other_ms now later doc place run held early =
    elim (Option-cases (claim_run other other_ms later doc).1) [
      | inl nothing ↦ rw ((claim_run-none other other_ms later doc nothing).0) held
      | inr (claimed, found) ↦
          let (at, old, taken, _, after) = claim_run-IsTaken other other_ms later doc found in
          let apart : at ≢ place = (λ same.
            let same_run : old ≡ lease_run worker lease_ms now run = ground (arith, taken.stands) in
            absurd (
              omega (
                arith,
                lease_run_held worker lease_ms now later run (rw same_run at taken.eligible),
              ))) in
          rw after (
            get_elem?-set_other doc.runs at place (lease_run other other_ms later old) apart ∙ held)
    ]
