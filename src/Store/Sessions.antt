-- ===== src/Store/Sessions.antt =====
-- Sessions, the audit trail, heartbeats and their garbage collection
-- (src/control-plane/store.ts).
pub mod Laws
use softwareoath.Base.{
  ℕ, ◌+◌, ◌-◌, String, Bool, true, false, not, ◌&&◌, ◌||◌, Option, none, some, List, [], ◌∷◌, ◌++◌,
  find, filter, any, modify_first, length, leb, ltb, if◌then◌else◌, ◌==◌, ◌*◌,
}
use softwareoath.Base.Sort.{sort, by_key, first}
use softwareoath.Records.Values.{Timestamp}
use softwareoath.Records.Review.{
  AuthSessionRecord, AuditEventRecord, ServiceHeartbeatRecord, ServiceName, api, worker,
}
use softwareoath.Records.Data.{ControlPlaneData}

unfoldable pub save_auth_session : AuthSessionRecord → ControlPlaneData → ControlPlaneData
save_auth_session session doc = record doc {
  auth_sessions = filter (λ s. not (s.id == session.id)) doc.auth_sessions ++ session ∷ [];
}

unfoldable pub get_auth_session : String → ControlPlaneData → Option AuthSessionRecord
get_auth_session id doc = find (λ s. s.id == id) doc.auth_sessions

unfoldable pub delete_auth_session : String → ControlPlaneData → ControlPlaneData
delete_auth_session id doc = record doc {
  auth_sessions = filter (λ s. not (s.id == id)) doc.auth_sessions;
}

unfoldable pub append_audit : AuditEventRecord → ControlPlaneData → ControlPlaneData
append_audit event doc = record doc { audit_events = doc.audit_events ++ event ∷ [] }

abbrev pub names : String → Option String → Bool
names text none = false
names text (some s) = s == text

-- `!repository || event.repository === repository`
abbrev pub concerns : Option String → AuditEventRecord → Bool
concerns none event = true
concerns (some repository) event = repository == "" || names repository event.repository

unfoldable pub list_audit_events : Option String → ControlPlaneData → List AuditEventRecord
list_audit_events repository doc =
    sort (by_key (λ (e : AuditEventRecord). e.created_at))
      (filter (concerns repository) doc.audit_events)

abbrev pub day_ms : ℕ
day_ms = 24 * 60 * 60 * 1000

abbrev pub outlives : Timestamp → AuthSessionRecord → Bool
outlives now session = ltb now session.expires_at

-- `observedAt >= now - one day`, with no subtraction
abbrev pub is_recent : Timestamp → ServiceHeartbeatRecord → Bool
is_recent now heartbeat = leb now (heartbeat.observed_at + day_ms)

-- The counts are differences of lengths, of which the second is never the greater.
unfoldable pub garbage_collect : Timestamp → ControlPlaneData → ControlPlaneData × (ℕ × ℕ)
garbage_collect now doc =
    let sessions = filter (outlives now) doc.auth_sessions in
    let heartbeats = filter (is_recent now) doc.heartbeats in
    (
      record doc { auth_sessions = sessions; heartbeats = heartbeats },
      (length doc.auth_sessions - length sessions, length doc.heartbeats - length heartbeats),
    )

abbrev pub same_service : ServiceName → ServiceName → Bool
same_service api api = true
same_service worker worker = true
same_service _ _ = false

unfoldable pub same_instance : ServiceHeartbeatRecord → ServiceHeartbeatRecord → Bool
same_instance a b = same_service a.service b.service && a.instance_id == b.instance_id

unfoldable pub upsert_heartbeat : ServiceHeartbeatRecord → ControlPlaneData → ControlPlaneData
unfolding same_instance
upsert_heartbeat heartbeat doc =
    if any (λ h. same_instance h heartbeat) doc.heartbeats
    then record doc {
      heartbeats = modify_first (λ h. same_instance h heartbeat) (λ _. heartbeat) doc.heartbeats;
    }
    else record doc { heartbeats = doc.heartbeats ++ heartbeat ∷ [] }

unfoldable pub get_latest_heartbeat : ServiceName → ControlPlaneData → Option ServiceHeartbeatRecord
get_latest_heartbeat service doc = first (
    sort (λ a b. leb b.observed_at a.observed_at)
      (filter (λ h. same_service h.service service) doc.heartbeats))
