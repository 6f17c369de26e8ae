-- ===== src/Auth/State/Laws.antt =====
-- Encoding and decoding a state together (src/control-plane/auth.ts, `encodeState` and
-- `decodeState`).
use Prim.Native.String.{◌++◌}
use softwareoath.Base.{join, lacks-append, Bool-cases, inl, inr}
use softwareoath.Records.Values.{Timestamp}
use softwareoath.Auth.State.{
  Signing, same_bytes, decode_state, Bytes, encode_state, String, Option, OauthState, true, leb,
  unexpired, check_parts, expired_state, split, false, parsed, is_over, ParsedState,
}
use softwareoath.Base.{
  if◌then◌else◌, List, [], ◌∷◌, some, none, returned, thrown, lacks, ◌≡◌, ◌≢◌, ◌↔◌, ◌==◌, arith,
  ◌<◌, refl, ap, eq_iff, split-join, ◌∙◌,
}

-- What the code relies on: the alphabet of base64url has no full stop, its codes are read back and
-- are not empty where there are bytes; JSON is read back; a text of JSON and a digest have bytes.
pub record IsSigning (signing : Signing) : Type 0 where
  pub base64url_lacks : (b : Bytes) → lacks b'.' (signing.base64url b) ≡ true
  pub base64url_back : (b : Bytes) → signing.from_base64url (signing.base64url b) ≡ b
  pub base64url_full : (b : Bytes) → b ≢ [] → (signing.base64url b == "") ≡ false
  pub parse-stringify : (v : OauthState) → signing.parse (signing.stringify v) ≡ some (parsed v)
  pub stringify_full : (v : OauthState) → signing.stringify v ≢ []
  pub hmac_full : (secret text : String) → signing.hmac secret text ≢ []

pub same_bytes_refl : (b : Bytes) → same_bytes b b ≡ true
unfolding same_bytes
same_bytes_refl [] = refl
same_bytes_refl (x ∷ b) = ground (arith, same_bytes_refl b)

same_bytes→path : (a b : Bytes) → same_bytes a b ≡ true → a ≡ b
unfolding same_bytes
same_bytes→path [] [] h = refl
same_bytes→path [] (y ∷ b) h = ground arith
same_bytes→path (x ∷ a) [] h = ground arith
same_bytes→path (x ∷ a) (y ∷ b) h = ground (arith, same_bytes→path a b)

-- A state that was encoded with the secret is decoded to itself until the instant at which it ends,
-- and is refused as expired from then on.
pub decode_state-encode_state :
    (signing : Signing) (state : OauthState) (secret : String) (now : Timestamp)
    → IsSigning signing
    → decode_state signing (encode_state signing state secret) secret now
      ≡ (if leb state.expires_at now then thrown expired_state else returned (parsed state))
unfolding decode_state encode_state join
decode_state-encode_state signing state secret now laws =
    let payload = signing.base64url (signing.stringify state) in
    let mac = signing.base64url (signing.hmac secret payload) in
    ap (check_parts signing secret now) (
      split-join b'.' "." payload (mac ∷ []) refl (
        laws.base64url_lacks (signing.stringify state),
        (laws.base64url_lacks (signing.hmac secret payload), tt),
      ))
    ∙ ground (
      arith,
      laws.base64url_full (signing.stringify state) (laws.stringify_full state),
      laws.base64url_full (signing.hmac secret payload) (laws.hmac_full secret payload),
      laws.base64url_back (signing.stringify state),
      laws.base64url_back (signing.hmac secret payload),
      laws.parse-stringify state,
      same_bytes_refl (signing.hmac secret payload),
    )

-- A time of an end that has not come, or none.
abbrev pub NotOver : Timestamp → Option Timestamp → Type 0
NotOver now none = Unit
NotOver now (some t) = now < t

NotOver-is_over : (now : Timestamp) (o : Option Timestamp) → NotOver now o ↔ (is_over o now ≡ false)
NotOver-is_over now none = ((λ h. refl), (λ e. tt))
NotOver-is_over now (some t) = ((λ h. ground arith), (λ e. ground arith))

-- The parts of a value that carries a payload: its text, and the digest of that text with the secret;
-- the payload has no end, or one that has not come.
abbrev pub Carries : Signing → String → Timestamp → ParsedState → List String → Type 0
Carries signing secret now state (payload ∷ supplied ∷ _) =
    (payload ≢ "")
    × (supplied ≢ "")
    × (signing.from_base64url supplied ≡ signing.hmac secret payload)
    × (signing.parse (signing.from_base64url payload) ≡ some state)
    × NotOver now state.expires_at
Carries signing secret now state _ = ⊥

unexpired-returned :
    (now : Timestamp) (o : Option ParsedState) (state : ParsedState)
    → (unexpired now o ≡ returned state) ↔ ((o ≡ some state) × NotOver now state.expires_at)
unexpired-returned now none state = ((λ e. ground arith), (λ e. ground (arith, e.0)))
unexpired-returned now (some found) state = elim (Bool-cases (is_over found.expires_at now)) [
  | inl over ↦ (
    (λ e. absurd (ground arith)),
    (λ (is, h).
        let same : found ≡ state = ground arith in
        absurd (ground (arith, rw same at over, (NotOver-is_over now state.expires_at).0 h))),
  )
  | inr stays ↦ (
    (λ e.
        let same : found ≡ state = ground arith in
        (rw same refl, (NotOver-is_over now state.expires_at).1 (rw same at stays))),
    (λ (is, h). let same : found ≡ state = ground arith in rw stays (rw same refl)),
  )
]

check_parts-Carries :
    (signing : Signing) (secret : String) (now : Timestamp) (state : ParsedState)
    (parts : List String)
    → (check_parts signing secret now parts ≡ returned state)
      ↔ Carries signing secret now state parts
check_parts-Carries signing secret now state [] = ((λ e. ground arith), (λ e. absurd e))
check_parts-Carries signing secret now state (a ∷ []) = ((λ e. ground arith), (λ e. absurd e))
check_parts-Carries signing secret now state (payload ∷ supplied ∷ rest) =
    let given = signing.from_base64url supplied in
    let mac = signing.hmac secret payload in
    let last = unexpired-returned now (signing.parse (signing.from_base64url payload)) state in
    (
      (λ e. (
        ground (arith, e, eq_iff payload ""),
        ground (arith, e, eq_iff supplied ""),
        same_bytes→path given mac (ground (arith, e)),
        (last.0 (ground (arith, e))).0,
        (last.0 (ground (arith, e))).1,
      )),
      (λ e. ground (
        arith,
        e,
        eq_iff payload "",
        eq_iff supplied "",
        same_bytes_refl mac,
        last.1 (e.3, e.4),
      )),
    )

-- A value is decoded to a payload exactly where its first two parts between full stops are the text
-- of that payload and the digest of that text with the secret, neither empty, and the payload has no
-- end or one that has not come: no value without the right digest is accepted.
pub decode_state_returned_iff :
    (signing : Signing) (value secret : String) (now : Timestamp) (state : ParsedState)
    → (decode_state signing value secret now ≡ returned state)
      ↔ Carries signing secret now state (split b'.' value)
unfolding decode_state
decode_state_returned_iff signing value secret now state =
    check_parts-Carries signing secret now state (split b'.' value)

-- The text of a state has a full stop, so that it is not empty.
pub encode_state-full :
    (signing : Signing) (state : OauthState) (secret : String)
    → encode_state signing state secret ≢ ""
unfolding encode_state
encode_state-full signing state secret e =
    let payload = signing.base64url (signing.stringify state) in
    let mac = signing.base64url (signing.hmac secret payload) in
    ground
      (arith, ap (lacks b'.') e, lacks-append b'.' payload ("." ++ mac), lacks-append b'.' "." mac)
