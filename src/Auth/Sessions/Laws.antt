-- ===== src/Auth/Sessions/Laws.antt =====
-- A session from its start to its end (src/control-plane/auth.ts, `ReviewerSessions`).
use softwareoath.Auth.Cookies.Laws.Browser.{sent_back, sent_back-cookie_and_end}
use softwareoath.Integrations.Secrets.Laws.{IsCipher, decrypt-encrypt}
use softwareoath.Auth.Cookies.Laws.{IsName, IsWeb, cookies-broken, sent, cookies-sent}
use softwareoath.Auth.Sessions.{
  anonymous, signed_in, broken_header, create, new_session, Drawn, ReviewerIdentity, leb,
  session_ttl, ℕ, false,
}
use softwareoath.Auth.Cookies.{cookie_of, pair_of, session_cookie, state_cookie, cookies, Web}
use softwareoath.Base.{
  if◌then◌else◌, is_space, returned, none, some, split, trim, ◌++◌, ◌∷◌, ◌≢◌, eq_iff, ◌+◌, length,
  refl, nat_eq, ◌/◌,
}
use softwareoath.Store.Sessions.Laws.{
  get_auth_session-delete_auth_session, get_auth_session-save_auth_session,
}
use softwareoath.Auth.Sessions.{
  authenticate, resume, logout, Options, Option, String, Timestamp, ControlPlaneData,
  AuthSessionRecord, session_id, get_auth_session, decrypt, delete_auth_session,
}
use softwareoath.Base.{List, Option-cases, inl, inr, ◌⊎◌, ◌≡◌, arith, ◌<◌, ◌≤◌}

-- Whoever is signed in has shown the id of a session that is stored, that has not ended, and whose
-- token the box opens; the store is left as it was.
pub authenticate_signed_in :
    (options : Options) (header : Option String) (now : Timestamp) (doc : ControlPlaneData)
    {session : AuthSessionRecord} {token : String}
    → (authenticate options header now doc).1 ≡ signed_in session token
    → (id : String) × (session_id options.web header ≡ some (some id))
      × (get_auth_session id doc ≡ some session)
      × (now < session.expires_at)
      × (decrypt options.cipher options.box session.encrypted_access_token ≡ returned token)
      × ((authenticate options header now doc).0 ≡ doc)
unfolding authenticate resume
authenticate_signed_in options header now doc {session} {token} e =
    elim (Option-cases (session_id options.web header)) [
      | inl broken ↦ ground (arith, broken)
      | inr (none, nobody) ↦ ground (arith, nobody)
      | inr (some id, named) ↦ of_id id named (Option-cases (get_auth_session id doc))
    ]
  where
    of_id :
        (id : String)
        → session_id options.web header ≡ some (some id)
        → (get_auth_session id doc ≡ none)
          ⊎ ((s : AuthSessionRecord) × (get_auth_session id doc ≡ some s))
        → (id : String) × (session_id options.web header ≡ some (some id))
          × (get_auth_session id doc ≡ some session)
          × (now < session.expires_at)
          × (decrypt options.cipher options.box session.encrypted_access_token ≡ returned token)
          × ((authenticate options header now doc).0 ≡ doc)
    of_id id named (inl missing) = ground (arith, named, missing, e)
    of_id id named (inr (found, is)) = (
      id,
      named,
      ground (arith, named, is, e),
      ground (arith, named, is, e),
      ground (arith, named, is, e),
      ground (arith, named, is, e),
    )

-- A request that names a session which has ended is not signed in, and takes that session out of the
-- store.
pub authenticate_ended :
    (options : Options) (header : Option String) (now : Timestamp) (doc : ControlPlaneData)
    (id : String) (session : AuthSessionRecord)
    → session_id options.web header ≡ some (some id)
    → get_auth_session id doc ≡ some session
    → session.expires_at ≤ now
    → let result = authenticate options header now doc in
      (result.1 ≡ anonymous) × (get_auth_session id result.0 ≡ none)
unfolding authenticate resume
authenticate_ended options header now doc id session named found over =
    (ground (arith, named, found, over), ground (arith, named, found, over, gone))
  where
    gone : get_auth_session id (delete_auth_session id doc) ≡ none
    gone = get_auth_session-delete_auth_session id doc

-- After a request has signed out, no request with its cookies is signed in, whatever the time.
pub authenticate-logout :
    (options : Options) (header : Option String) (now : Timestamp) (doc : ControlPlaneData)
    {after : ControlPlaneData} {headers : List String}
    → logout options header doc ≡ some (after, headers)
    → authenticate options header now after ≡ (after, anonymous)
unfolding authenticate logout resume
authenticate-logout options header now doc e = elim (Option-cases (session_id options.web header)) [
  | inl broken ↦ ground (arith, broken)
  | inr (none, nobody) ↦ ground (arith, nobody)
  | inr (some id, named) ↦ ground (arith, named, get_auth_session-delete_auth_session id doc)
]

session-IsName : IsName session_cookie
session-IsName =
    (refl, refl, (unfold is_space in refl), λ e. ground (arith, eq_iff session_cookie ""))

state-IsName : IsName state_cookie
state-IsName = (refl, refl, (unfold is_space in refl), λ e. ground (arith, eq_iff state_cookie ""))

pub session_id-sent :
    (web : Web) (id : String)
    → IsWeb web
    → id ≢ ""
    → session_id web (some (sent web session_cookie id)) ≡ some (some id)
unfolding session_id cookie_of
session_id-sent web id laws full =
    ground (arith, cookies-sent web session_cookie id laws session-IsName full, eq_iff id "", full)

nonzero_seconds : (n : ℕ) → 1000 ≤ n → nat_eq (n / 1000) 0 ≡ false
nonzero_seconds n h = ground arith

pub authenticate-create :
    (options : Options) (drawn : Drawn) (identity : ReviewerIdentity) (token : String)
    (now later : Timestamp) (doc : ControlPlaneData)
    → IsWeb options.web
    → IsCipher options.cipher
    → drawn.id ≢ ""
    → 0 < length drawn.iv
    → token ≢ ""
    → 1000 ≤ session_ttl options
    → let (created, session, headers) = create options drawn identity token now doc in
      authenticate options (some (sent_back headers)) later created ≡ (
        if leb (now + session_ttl options) later
        then (delete_auth_session drawn.id created, anonymous)
        else (created, signed_in session token))
unfolding authenticate create resume new_session
authenticate-create options drawn identity token now later doc web_laws cipher_laws named full
      secret lasts =
    let session = new_session options drawn identity token now in
    ground (
      arith,
      sent_back-cookie_and_end options.web session_cookie drawn.id state_cookie
          (session_ttl options / 1000) options.secure web_laws session-IsName state-IsName
          (nonzero_seconds (session_ttl options) lasts),
      session_id-sent options.web drawn.id web_laws named,
      (get_auth_session-save_auth_session session doc).0,
      decrypt-encrypt options.cipher options.box drawn.iv token cipher_laws full,
      eq_iff token "",
      secret,
    )

-- One cookie whose value is no code of a text, under any name, keeps a request from being signed in
-- or out: both calls throw.
pub authenticate_broken_cookie :
    (options : Options) (header : String) (before after : List String) (entry name code : String)
    (now : Timestamp) (doc : ControlPlaneData)
    → split b';' header ≡ before ++ entry ∷ after
    → pair_of (split b'=' (trim entry)) ≡ some (name, code)
    → options.web.decode_uri code ≡ none
    → (authenticate options (some header) now doc ≡ (doc, broken_header))
      × (logout options (some header) doc ≡ none)
unfolding authenticate logout session_id cookies
authenticate_broken_cookie options header before after entry name code now doc parts pair is =
    let broken = cookies-broken options.web before after entry name code pair is in
    (ground (arith, parts, broken), ground (arith, parts, broken))
