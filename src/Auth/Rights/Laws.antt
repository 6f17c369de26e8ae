-- ===== src/Auth/Rights/Laws.antt =====
-- The rights of a reviewer (src/control-plane/auth.ts, `authorize`).
use softwareoath.Auth.Rights.{refused, body, in_body, granted, permission_of}
use softwareoath.Records.Review.{admin, maintain, push, Permission, ReviewerAuthorization}
use softwareoath.Base.{returned, none, some, subst, refl}
use softwareoath.Auth.Rights.{
  Permissions, authorize, Web, String, false, GithubAnswer, Option, Timestamp, repository_path,
}
use softwareoath.Base.{◌≡◌, true, ◌↔◌, arith}

abbrev pub IsHighest : Permissions → Permission → Type 0
IsHighest p admin = p.admin ≡ true
IsHighest p maintain = (p.admin ≡ false) × (p.maintain ≡ true)
IsHighest p push = (p.admin ≡ false) × (p.maintain ≡ false) × (p.push ≡ true)

permission_of-IsHighest :
    (p : Permissions) (q : Permission) → (permission_of (some p) ≡ some q) ↔ IsHighest p q
permission_of-IsHighest p admin = ((λ e. ground arith), (λ h. ground arith))
permission_of-IsHighest p maintain =
    ((λ e. (ground arith, ground arith)), (λ h. ground (arith, h.0, h.1)))
permission_of-IsHighest p push =
    ((λ e. (ground arith, ground arith, ground arith)), (λ h. ground (arith, h.0, h.1, h.2)))

granted-returned :
    (repository : String) (now : Timestamp) (o : Option Permission) (a : ReviewerAuthorization)
    → (granted repository now o ≡ returned a)
      ↔ ((o ≡ some a.permission) × (a.repository ≡ repository) × (a.verified_at ≡ now))
granted-returned repository now none a = ((λ e. ground arith), (λ h. ground (arith, h.0)))
granted-returned repository now (some q) a =
    ((λ e. (ground arith, ground arith, ground arith)), (λ h. ground (arith, h.0, h.1, h.2)))

-- A reviewer is authorized exactly where GitHub answers for the repository with permissions, of which
-- the one that is given is the highest that holds; the authorization is for that repository and of
-- that instant. Without an answer or without a right to write there is none.
pub authorize_returned_iff :
    (web : Web) (github : String → GithubAnswer (Option Permissions)) (repository : String)
    (now : Timestamp) (a : ReviewerAuthorization)
    → (authorize web github repository now ≡ returned a) ↔ (
        (p : Permissions) × (github (repository_path web repository) ≡ body (some p))
        × IsHighest p a.permission
        × (a.repository ≡ repository)
        × (a.verified_at ≡ now))
unfolding authorize
authorize_returned_iff web github repository now a =
    of_answer (github (repository_path web repository))
  where
    of_answer :
        (o : GithubAnswer (Option Permissions))
        → (in_body (λ q. granted repository now (permission_of q)) o ≡ returned a) ↔ (
            (p : Permissions) × (o ≡ body (some p))
            × IsHighest p a.permission
            × (a.repository ≡ repository)
            × (a.verified_at ≡ now))
    of_answer (refused status) = ((λ e. ground arith), (λ h. ground (arith, h.1)))
    of_answer (body none) = ((λ e. ground arith), (λ h. ground (arith, h.1)))
    of_answer (body (some p)) =
        let given = granted-returned repository now (permission_of (some p)) a in
        let right = permission_of-IsHighest p a.permission in
        (
          (λ e. (p, refl, right.0 (given.0 e).0, (given.0 e).1, (given.0 e).2)),
          (λ h. given.1 (
            right.1 (subst (λ x. IsHighest x a.permission) (ground (arith, h.1)) h.2),
            h.3,
            h.4,
          )),
        )
