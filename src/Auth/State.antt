-- ===== src/Auth/State.antt =====
-- The state that a sign-in carries through GitHub: `encodeState` and `decodeState`
-- (src/control-plane/auth.ts).
pub mod Laws
use Prim.Native.String.{◌++◌}
use softwareoath.Integrations.Secrets.{Bytes}
use softwareoath.Records.Values.{Timestamp}
use softwareoath.Base.{
  Try, returned, thrown, List, some, none, if◌then◌else◌, ◌∷◌, [], String, Option, Bool, ◌==◌,
  split, true, leb, ◌||◌, false, nat_eq, ◌&&◌,
}

pub record OauthState : Type 0 where
  pub nonce : String
  pub expires_at : Timestamp

-- A payload as it is parsed: it is taken for a state whatever it lacks.
pub record ParsedState : Type 0 where
  pub nonce : Option String
  pub expires_at : Option Timestamp

-- The payload that holds a state.
abbrev pub parsed : OauthState → ParsedState
parsed state = record { nonce = some state.nonce; expires_at = some state.expires_at }

-- The message digest with a key, the encoding of bytes, and the JSON text of a state as bytes;
-- `parse` is `none` where `JSON.parse` throws.
pub record Signing : Type 0 where
  pub hmac : String → String → Bytes
  pub base64url : Bytes → String
  pub from_base64url : String → Bytes
  pub stringify : OauthState → Bytes
  pub parse : Bytes → Option ParsedState

pub data StateError : Type 0 where
  invalid_state bad_signature broken_payload expired_state cookie_mismatch broken_cookies :
      StateError

unfoldable pub encode_state : Signing → OauthState → String → String
encode_state signing value secret =
    let payload = signing.base64url (signing.stringify value) in
    payload ++ ("." ++ signing.base64url (signing.hmac secret payload))

-- Two arrays of bytes of one length with the same bytes.
unfoldable pub same_bytes : Bytes → Bytes → Bool
same_bytes [] [] = true
same_bytes [] (y ∷ ys) = false
same_bytes (x ∷ xs) [] = false
same_bytes (x ∷ xs) (y ∷ ys) = nat_eq x y && same_bytes xs ys

-- `expiresAt <= now`, which is false where there is no `expiresAt`.
abbrev pub is_over : Option Timestamp → Timestamp → Bool
is_over none now = false
is_over (some t) now = leb t now

abbrev pub unexpired : Timestamp → Option ParsedState → Try StateError ParsedState
unexpired now none = thrown broken_payload
unexpired now (some state) =
    if is_over state.expires_at now then thrown expired_state else returned state

abbrev pub check_parts : Signing → String → Timestamp → List String → Try StateError ParsedState
check_parts signing secret now (payload ∷ supplied ∷ _) =
    if payload == "" || supplied == ""
    then thrown invalid_state
    else if same_bytes (signing.from_base64url supplied) (signing.hmac secret payload)
    then unexpired now (signing.parse (signing.from_base64url payload))
    else thrown bad_signature
check_parts signing secret now _ = thrown invalid_state

unfoldable pub decode_state : Signing → String → String → Timestamp → Try StateError ParsedState
decode_state signing value secret now = check_parts signing secret now (split b'.' value)
