-- ===== src/Auth/Sessions.antt =====
-- `ReviewerSessions`: the sign-in, the session, and its end, over the store
-- (src/control-plane/auth.ts).
pub mod Laws
use softwareoath.Store.Sessions.{save_auth_session, get_auth_session, delete_auth_session}
use softwareoath.Records.Data.{ControlPlaneData}
use softwareoath.Integrations.Secrets.{
  Bytes, SecretError, Cipher, encrypt, given, SecretBox, decrypt,
}
use softwareoath.Auth.State.{
  Signing, StateError, encode_state, broken_cookies, OauthState, cookie_mismatch, decode_state,
  ParsedState,
}
use softwareoath.Records.Review.{ReviewerIdentity, AuthSessionRecord}
use softwareoath.Auth.Cookies.{Web, cookies, cookie, cookie_of, session_cookie, state_cookie}
use softwareoath.Records.Values.{or_else, Timestamp}
use softwareoath.Base.{
  Try, returned, thrown, List, some, none, if◌then◌else◌, ◌∷◌, [], String, Option, ℕ, ◌*◌, Bool,
  false, ◌+◌, leb, ◌==◌, ◌/◌,
}

-- The options of the constructor, with what it makes of them.
pub record Options : Type 0 where
  pub web : Web
  pub signing : Signing
  pub cipher : Cipher
  pub box : SecretBox
  pub secure : Bool
  pub state_secret : String
  pub ttl_ms : Option ℕ

-- `begin`, for a nonce that is drawn: the state and the header that is set.
unfoldable pub begin : Options → String → Timestamp → String × List String
begin options nonce now =
    let state =
      encode_state options.signing (record { nonce = nonce; expires_at = now + 10 * 60000 })
        options.state_secret in
    (state, cookie options.web state_cookie state (some 600) options.secure ∷ [])

abbrev pub stored_state : Option (List (String × String)) → Try StateError (Option String)
stored_state none = thrown broken_cookies
stored_state (some pairs) = returned (given (cookie_of state_cookie pairs))

-- `verifyCallback`
unfoldable pub verify_callback :
    Options → Option String → String → Timestamp → Try StateError ParsedState
verify_callback options header state now = elim (stored_state (cookies options.web header)) [
  | thrown e ↦ thrown e
  | returned none ↦ thrown cookie_mismatch
  | returned (some stored) ↦
      if stored == state
      then decode_state options.signing state options.state_secret now
      else thrown cookie_mismatch
]

-- What `create` draws.
pub record Drawn : Type 0 where
  pub id : String
  pub iv : Bytes
  pub csrf_token : String

unfoldable pub session_ttl : Options → ℕ
session_ttl options = or_else options.ttl_ms (8 * 60 * 60000)

unfoldable pub new_session :
    Options → Drawn → ReviewerIdentity → String → Timestamp → AuthSessionRecord
new_session options drawn identity access_token now = record {
  id = drawn.id;
  identity = identity;
  encrypted_access_token = encrypt options.cipher options.box drawn.iv access_token;
  csrf_token = drawn.csrf_token;
  created_at = now;
  expires_at = now + session_ttl options;
}

-- `create`: the document, the session, and the headers that are set.
unfoldable pub create :
    Options
    → Drawn
    → ReviewerIdentity
    → String
    → Timestamp
    → ControlPlaneData
    → ControlPlaneData × AuthSessionRecord × List String
create options drawn identity access_token now doc =
    let session = new_session options drawn identity access_token now in
    (
      save_auth_session session doc,
      session,
      cookie options.web session_cookie session.id (some (session_ttl options / 1000))
            options.secure
          ∷ cookie options.web state_cookie "" (some 0) options.secure
          ∷ [],
    )

-- No session, a session with its token, or an error.
pub data Authenticated : Type 0 where
  anonymous : Authenticated
  signed_in : AuthSessionRecord → String → Authenticated
  broken_header : Authenticated
  broken_token : SecretError → Authenticated

abbrev pub with_token : AuthSessionRecord → Try SecretError String → Authenticated
with_token session (thrown e) = broken_token e
with_token session (returned token) = signed_in session token

-- The part of `authenticate` after the id is known.
unfoldable pub resume :
    Options → String → Timestamp → ControlPlaneData → ControlPlaneData × Authenticated
resume options id now doc = elim (get_auth_session id doc) [
  | none ↦ (doc, anonymous)
  | some session ↦ if leb session.expires_at now then (delete_auth_session id doc, anonymous) else (
    doc,
    with_token session (decrypt options.cipher options.box session.encrypted_access_token),
  )
]

-- The id of the session that a request names; `none` where a cookie is broken.
unfoldable pub session_id : Web → Option String → Option (Option String)
session_id web header = elim (cookies web header) [
  | none ↦ none
  | some pairs ↦ some (given (cookie_of session_cookie pairs))
]

unfoldable pub authenticate :
    Options → Option String → Timestamp → ControlPlaneData → ControlPlaneData × Authenticated
authenticate options header now doc = elim (session_id options.web header) [
  | none ↦ (doc, broken_header)
  | some none ↦ (doc, anonymous)
  | some (some id) ↦ resume options id now doc
]

-- `assertCsrf`: whether the header of the request is the session's token.
unfoldable pub assert_csrf : Option String → AuthSessionRecord → Bool
assert_csrf none session = false
assert_csrf (some header) session = header == session.csrf_token

-- `logout`: the document and the header that is set, or `none` where a cookie is broken.
unfoldable pub logout :
    Options → Option String → ControlPlaneData → Option (ControlPlaneData × List String)
logout options header doc =
    let cleared = cookie options.web session_cookie "" (some 0) options.secure ∷ [] in
    elim (session_id options.web header) [
      | none ↦ none
      | some none ↦ some (doc, cleared)
      | some (some id) ↦ some (delete_auth_session id doc, cleared)
    ]
