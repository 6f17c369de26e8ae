-- ===== src/Store/Sessions/Laws.antt =====
-- Sessions that are saved, deleted or expired (src/control-plane/store.ts).
use softwareoath.Records.Values.{Timestamp}
use softwareoath.Store.Sessions.{
  get_auth_session, garbage_collect, save_auth_session, AuthSessionRecord, ControlPlaneData,
  delete_auth_session, outlives, is_recent,
}
use softwareoath.Base.{
  List, Bool, ◌≡◌, true, All, find, some, ◌<◌, filter, none, length, not, ◌==◌, ◌+◌, ◌++◌, eq_refl,
  ◌∷◌, String, [], find-filter-none, arith, length-filter-le,
}

find-last {ℓ} :
    {A : Type ℓ} (p : A → Bool) (xs : List A) (x : A)
    → p x ≡ true
    → find p (filter (λ y. not (p y)) xs ++ x ∷ []) ≡ some x
find-last p [] x h = ground arith
find-last p (y ∷ xs) x h = ground (arith, find-last p xs x h)

-- A session that is saved is found by its id, in place of an older one, until it is deleted; then
-- none is found by that id.
pub get_auth_session-save_auth_session :
    (session : AuthSessionRecord) (doc : ControlPlaneData)
    → (get_auth_session session.id (save_auth_session session doc) ≡ some session)
      × (get_auth_session session.id
            (delete_auth_session session.id (save_auth_session session doc))
          ≡ none)
unfolding get_auth_session save_auth_session delete_auth_session
get_auth_session-save_auth_session session doc = (
  find-last (λ s. s.id == session.id) doc.auth_sessions session (eq_refl session.id),
  find-filter-none (λ s. s.id == session.id) (λ s. not (s.id == session.id)) _
      (λ s h. ground arith),
)

-- A session that is deleted is not found.
pub get_auth_session-delete_auth_session :
    (id : String) (doc : ControlPlaneData) → get_auth_session id (delete_auth_session id doc) ≡ none
unfolding get_auth_session delete_auth_session
get_auth_session-delete_auth_session id doc =
    find-filter-none (λ s. s.id == id) (λ s. not (s.id == id)) doc.auth_sessions
      (λ s h. ground arith)

every-outlives :
    (now : Timestamp) (xs : List AuthSessionRecord)
    → All (λ s. now < s.expires_at) (filter (outlives now) xs)
every-outlives now [] = tt
every-outlives now (x ∷ xs) = ground (arith, every-outlives now xs)

-- Garbage collection leaves no expired session, and the numbers that it reports are exactly what is
-- missing afterwards.
pub garbage_collect_exact :
    (now : Timestamp) (doc : ControlPlaneData)
    → let (after, removed) = garbage_collect now doc in
      All (λ s. now < s.expires_at) after.auth_sessions
      × (length after.auth_sessions + removed.0 ≡ length doc.auth_sessions)
      × (length after.heartbeats + removed.1 ≡ length doc.heartbeats)
unfolding garbage_collect
garbage_collect_exact now doc = (
  every-outlives now doc.auth_sessions,
  omega (arith, length-filter-le (outlives now) doc.auth_sessions),
  omega (arith, length-filter-le (is_recent now) doc.heartbeats),
)

survives :
    (now : Timestamp) (p : AuthSessionRecord → Bool) (s : AuthSessionRecord)
    → now < s.expires_at
    → (xs : List AuthSessionRecord) → find p xs ≡ some s
    → find p (filter (outlives now) xs) ≡ some s
survives now p s valid [] e = e
survives now p s valid (x ∷ xs) e = ground (arith, survives now p s valid xs)

-- Garbage collection signs nobody out early: a session that is found and has not expired is found
-- afterwards.
pub get_auth_session-garbage_collect :
    (now : Timestamp) (doc : ControlPlaneData) (id : String) (s : AuthSessionRecord)
    → get_auth_session id doc ≡ some s
    → now < s.expires_at
    → get_auth_session id (garbage_collect now doc).0 ≡ some s
unfolding garbage_collect get_auth_session
get_auth_session-garbage_collect now doc id s found valid =
    survives now (λ x. x.id == id) s valid doc.auth_sessions found
