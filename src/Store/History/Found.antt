-- ===== src/Store/History/Found.antt =====
-- A predicate of the run that is found under an id, when the list of the runs is changed
-- (src/control-plane/store.ts).
use softwareoath.Store.Erasure.{kept_runs, is_run_of}
use softwareoath.Base.{
  List, [], ◌∷◌, ◌++◌, Option, some, none, String, Bool, true, false, ℕ, zero, suc, ◌≡◌, refl,
  arith, find, modify_first, set, get_elem?, ◌==◌, not, Bool-cases, inl, inr, eq_iff,
  find-modify_first, find-modify_first_other, find-true, find-filter, find-filter-none,
}
use softwareoath.Records.Run.{HostedRunRecord}

-- A predicate of what may be found.
abbrev pub IfFound : (HostedRunRecord → Type 0) → Option HostedRunRecord → Type 0
IfFound P none = Unit
IfFound P (some r) = P r

abbrev pub has_id : String → HostedRunRecord → Bool
has_id id run = run.id == id

module _ (P : HostedRunRecord → Type 0) (id : String) where
  pub IfFound-append :
      (runs : List HostedRunRecord) (y : HostedRunRecord)
      → IfFound P (find (has_id id) runs)
      → ((y.id == id) ≡ true → P y)
      → IfFound P (find (has_id id) (runs ++ y ∷ []))
  IfFound-append [] y h k = elim (Bool-cases (y.id == id)) [ inl e ↦ rw e (k e) | inr e ↦ rw e tt ]
  IfFound-append (x ∷ runs) y h k = elim (Bool-cases (x.id == id)) [
    | inl e ↦ rw e (rw e at h)
    | inr e ↦ rw e (IfFound-append runs y (rw e at h) k)
  ]

  pub IfFound-set :
      (runs : List HostedRunRecord) (i : ℕ) (x y : HostedRunRecord)
      → IfFound P (find (has_id id) runs)
      → get_elem? runs i ≡ some x
      → y.id ≡ x.id
      → (P x → P y)
      → IfFound P (find (has_id id) (set runs i y))
  IfFound-set [] i x y h g same k = tt
  IfFound-set (z ∷ runs) zero x y h g same k = elim (Bool-cases (x.id == id)) [
    | inl e ↦
        let is : z ≡ x = ground arith in
        let mine : (y.id == id) ≡ true = rw same e in rw mine (k (rw (is, e) at h))
    | inr e ↦
        let is : z ≡ x = ground arith in
        let mine : (y.id == id) ≡ false = rw same e in rw mine (rw (is, e) at h)
  ]
  IfFound-set (z ∷ runs) (suc i) x y h g same k = elim (Bool-cases (z.id == id)) [
    | inl e ↦ rw e (rw e at h)
    | inr e ↦ rw e (IfFound-set runs i x y (rw e at h) g same k)
  ]

  pub IfFound-modify_first :
      (other : String) (runs : List HostedRunRecord) (x y : HostedRunRecord)
      → IfFound P (find (has_id id) runs)
      → find (has_id other) runs ≡ some x
      → y.id ≡ x.id
      → (other ≡ id → P x → P y)
      → IfFound P (find (has_id id) (modify_first (has_id other) (λ _. y) runs))
  IfFound-modify_first other runs x y h found same k = elim (Bool-cases (other == id)) [
    | inl e ↦
        let is = (eq_iff other id).0 e in
        let here : find (has_id id) runs ≡ some x = rw is at found in
        let kept : has_id id y ≡ true = rw same (find-true (has_id id) runs {x = x} here) in
        rw (is, find-modify_first (has_id id) (λ _. y) runs {x = x} here kept) (k is (rw here at h))
    | inr e ↦
        rw
          (find-modify_first_other (has_id other) (has_id id) (λ _. y) runs
            (λ r t. rw ((eq_iff r.id other).0 t) e)
            (λ _. rw (same, (eq_iff x.id other).0 (find-true (has_id other) runs {x = x} found)) e))
          h
  ]

  pub IfFound-kept_runs :
      (repository : String) (runs : List HostedRunRecord)
      → IfFound P (find (has_id id) runs)
      → IfFound P (find (has_id id) (kept_runs repository runs))
  unfolding kept_runs
  IfFound-kept_runs repository runs h = elim (Bool-cases (is_run_of repository runs id)) [
    | inl gone ↦
        rw
          (find-filter-none (has_id id) (λ r. not (is_run_of repository runs r.id)) runs
            (λ r e. rw ((eq_iff r.id id).0 e, gone) refl))
          tt
    | inr stays ↦
        rw
          (find-filter (has_id id) (λ r. not (is_run_of repository runs r.id)) runs
            (λ r e. rw ((eq_iff r.id id).0 e, stays) refl))
          h
  ]

pub IfFound-map :
    (P Q : HostedRunRecord → Type 0) (found : Option HostedRunRecord)
    → ((r : HostedRunRecord) → P r → Q r)
    → IfFound P found
    → IfFound Q found
IfFound-map P Q none f h = tt
IfFound-map P Q (some r) f h = f r h
