-- ===== src/Auth/Rights.antt =====
-- What GitHub says of a reviewer: `exchange`, `github`, `identity`, `writableRepositories`,
-- `organizations` and `authorize` (src/control-plane/auth.ts).
pub mod Laws
use Prim.Native.String.{◌++◌}
use softwareoath.Records.Review.{
  ReviewerIdentity, Permission, admin, ReviewerAuthorization, maintain, push,
}
use softwareoath.Auth.Cookies.{Web}
use softwareoath.Integrations.Secrets.{given}
use softwareoath.Records.Values.{Timestamp}
use softwareoath.Base.{
  Try, returned, thrown, List, some, none, if◌then◌else◌, filter, map, ℕ, Bool, String, Option,
  false, ◌||◌, join, split,
}

-- The answer to a request: the status of a refusal, or the body.
pub data GithubAnswer (A : Type 0) : Type 0 where
  refused : ℕ → GithubAnswer A
  body : A → GithubAnswer A

-- A permission that is missing counts as false.
pub record Permissions : Type 0 where
  pub admin : Bool
  pub maintain : Bool
  pub push : Bool

pub record GithubUser : Type 0 where
  pub id : ℕ
  pub login : String
  pub name : Option String
  pub avatar_url : Option String

pub record GithubRepository : Type 0 where
  pub full_name : String
  pub clone_url : String
  pub default_branch : String
  pub private : Bool
  pub permissions : Option Permissions

pub record GithubOrganization : Type 0 where
  pub login : String
  pub avatar_url : Option String

pub data GithubError : Type 0 where
  exchange_failed : Option String → GithubError
  request_refused : ℕ → GithubError
  no_write_permission : String → GithubError

-- The answer to an exchange of a code.
pub record TokenAnswer : Type 0 where
  pub ok : Bool
  pub access_token : Option String
  pub error_description : Option String

unfoldable pub exchange : TokenAnswer → Try GithubError String
exchange answer = elim (given answer.access_token) [
  | none ↦ thrown (exchange_failed answer.error_description)
  | some token ↦
      if answer.ok then returned token else thrown (exchange_failed answer.error_description)
]

abbrev pub in_body : {A B : Type 0} → (A → Try GithubError B) → GithubAnswer A → Try GithubError B
in_body f (refused status) = thrown (request_refused status)
in_body f (body a) = f a

unfoldable pub identity : (ℕ → String) → GithubAnswer GithubUser → Try GithubError ReviewerIdentity
identity decimal answer =
    in_body
      (λ (user : GithubUser). returned (record {
        provider_user_id = decimal user.id;
        login = user.login;
        display_name = given user.name;
        avatar_url = given user.avatar_url;
      }))
      answer

pub record WritableRepository : Type 0 where
  pub repository : String
  pub clone_url : String
  pub default_branch : String
  pub private : Bool

abbrev pub may_write : Option Permissions → Bool
may_write none = false
may_write (some p) = p.admin || p.maintain || p.push

unfoldable pub writable_repositories :
    GithubAnswer (List GithubRepository) → Try GithubError (List WritableRepository)
writable_repositories answer =
    in_body
      (λ (repositories : List GithubRepository). returned (
        map
          (λ (r : GithubRepository). record {
            repository = r.full_name;
            clone_url = r.clone_url;
            default_branch = r.default_branch;
            private = r.private;
          })
          (filter (λ r. may_write r.permissions) repositories)))
      answer

unfoldable pub organizations :
    GithubAnswer (List GithubOrganization) → Try GithubError (List GithubOrganization)
organizations answer =
    in_body
      (λ (os : List GithubOrganization). returned (
        map
          (λ (o : GithubOrganization). record { login = o.login; avatar_url = given o.avatar_url })
          os))
      answer

abbrev pub permission_of : Option Permissions → Option Permission
permission_of none = none
permission_of (some p) =
    if p.admin
    then some admin
    else if p.maintain
    then some maintain
    else if p.push
    then some push
    else none

-- The path of the request of `authorize`: the parts between strokes, each encoded.
unfoldable pub repository_path : Web → String → String
repository_path web repository = "/repos/" ++ join "/" (map web.encode_uri (split b'/' repository))

-- The authorization of a permission, if there is one.
abbrev pub granted : String → Timestamp → Option Permission → Try GithubError ReviewerAuthorization
granted repository now none = thrown (no_write_permission repository)
granted repository now (some permission) =
    returned (record { repository = repository; permission = permission; verified_at = now })

-- `authorize`, on what GitHub answers for a path.
unfoldable pub authorize :
    Web
    → (String → GithubAnswer (Option Permissions))
    → String
    → Timestamp
    → Try GithubError ReviewerAuthorization
authorize web github repository now =
    in_body (λ permissions. granted repository now (permission_of permissions))
      (github (repository_path web repository))
