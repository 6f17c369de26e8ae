-- ===== src/Attest/Signature.antt =====
-- Receipts that are signed and verified (src/repair/signature.ts), and the check of a final
-- attestation, which is made in the same way (src/control-plane/attestation.ts).
pub mod Laws
use softwareoath.Repair.GitStatus.{Text, text_eq}
use softwareoath.Attest.Json.{
  units, member, json_text, json_object, no_members, Members, Writing, canonical_json,
}
use softwareoath.Base.{
  some, none, List, [], ◌∷◌, returned, thrown, if◌then◌else◌, Option, Bool, String, Try,
}

-- `ReceiptSignature` with the algorithm that a document may name.
pub record Mark : Type 0 where
  pub algorithm : Text
  pub key_id : Text
  pub signed_at : Text
  pub public_key : Text
  pub value : Text

-- A document to this code: its members but for the signature, which may be missing.
pub record Signed : Type 0 where
  pub fields : Members
  pub signature : Option Mark

-- What the code calls: the public key of a private one, `sign` and `verify`. They are `none` where the
-- text of a key is broken.
pub record Scheme : Type 0 where
  pub public_of : Text → Option Text
  pub sign : Text → Text → Text
  pub verify : Text → Text → Text → Option Bool

pub data SignatureError : Type 0 where
  unsigned unsupported_algorithm broken_key invalid_signature bad_key_list : SignatureError
  revoked_signer no_signer : SignatureError
  untrusted_key : Text → SignatureError

pub record ReceiptSigner : Type 0 where
  pub key_id : Text
  pub private_key : Text
  pub public_key : Option Text

-- The text that is signed: the canonical text of the document as a member of a name, with the
-- signature's other members.
unfoldable pub signed_text : Writing → String → Members → Mark → Text
signed_text writing name fields mark = canonical_json writing (
    json_object (
      member (units name) (json_text (canonical_json writing (json_object fields))) (
        member (units "algorithm") (json_text mark.algorithm) (
          member (units "keyId") (json_text mark.key_id) (
            member (units "signedAt") (json_text mark.signed_at)
              (member (units "publicKey") (json_text mark.public_key) no_members))))))

-- The public key that a signature shows: the signer's own, or that of the private key.
abbrev pub shown_key : Option Text → Text → Text
shown_key none derived = derived
shown_key (some given) derived = given

unfoldable pub mark_of : Scheme → Writing → String → Members → ReceiptSigner → Text → Text → Mark
mark_of scheme writing name fields signer derived signed_at =
    let metadata : Mark = record {
      algorithm = units "Ed25519";
      key_id = signer.key_id;
      signed_at = signed_at;
      public_key = shown_key signer.public_key derived;
      value = [];
    } in
    record metadata {
      value = scheme.sign signer.private_key (signed_text writing name fields metadata);
    }

-- `signReceipt`, for the text of the instant. A private key that is broken throws.
unfoldable pub sign_receipt :
    Scheme → Writing → Members → ReceiptSigner → Text → Try SignatureError Signed
sign_receipt scheme writing fields signer signed_at = elim (scheme.public_of signer.private_key) [
  | none ↦ thrown broken_key
  | some derived ↦ returned (record {
    fields = fields;
    signature = some (mark_of scheme writing "receipt" fields signer derived signed_at);
  })
]

-- The keys that are trusted, by their ids.
abbrev pub TrustedReceiptKeys : Type 0
TrustedReceiptKeys = List (Text × Text)

unfoldable pub key_of : Text → TrustedReceiptKeys → Option Text
key_of id [] = none
key_of id ((key_id, key) ∷ keys) =
    let rest = key_of id keys in if text_eq key_id id then some key else rest

-- An empty key counts as missing.
abbrev pub full_key : Option Text → Option Text
full_key none = none
full_key (some []) = none
full_key (some (c ∷ key)) = some (c ∷ key)

-- `trustedKey ?? (allowTestEmbeddedKey ? embedded : undefined)`, where the key of the document itself
-- serves in a test without trusted keys.
abbrev pub embedded_key : Bool → TrustedReceiptKeys → Mark → Option Text
embedded_key in_test [] mark = if in_test then some mark.public_key else none
embedded_key in_test (_ ∷ _) mark = none

abbrev pub known_key : Option Text → Option Text → Option Text
known_key none embedded = embedded
known_key (some key) embedded = some key

unfoldable pub verification_key : Bool → TrustedReceiptKeys → Mark → Option Text
verification_key in_test keys mark =
    full_key (known_key (key_of mark.key_id keys) (embedded_key in_test keys mark))

-- The answer of `verify` under a key.
abbrev pub verdict_of : Option Bool → Try SignatureError Unit
verdict_of none = thrown broken_key
verdict_of (some passes) = if passes then returned tt else thrown invalid_signature

abbrev pub check_mark :
    Scheme → Writing → Bool → TrustedReceiptKeys → String → Members → Mark → Try SignatureError Unit
check_mark scheme writing in_test keys name fields mark =
    elim (verification_key in_test keys mark) [
      | none ↦ thrown (untrusted_key mark.key_id)
      | some key ↦ verdict_of (scheme.verify key (signed_text writing name fields mark) mark.value)
    ]

-- `verifyReceiptSignature`
unfoldable pub verify_receipt_signature :
    Scheme → Writing → Bool → TrustedReceiptKeys → Signed → Try SignatureError Unit
verify_receipt_signature scheme writing in_test keys receipt = elim receipt.signature [
  | none ↦ thrown unsigned
  | some mark ↦
      if text_eq mark.algorithm (units "Ed25519")
      then check_mark scheme writing in_test keys "receipt" receipt.fields mark
      else thrown unsupported_algorithm
]

-- `verifyFinalAttestation`, which finds the key before it looks at the algorithm, and looks at the
-- algorithm before it reads the key.
unfoldable pub verify_final_attestation :
    Scheme → Writing → Bool → TrustedReceiptKeys → Members → Mark → Try SignatureError Unit
verify_final_attestation scheme writing in_test keys fields mark =
    elim (verification_key in_test keys mark) [
      | none ↦ thrown (untrusted_key mark.key_id)
      | some key ↦
          if text_eq mark.algorithm (units "Ed25519")
          then verdict_of
              (scheme.verify key (signed_text writing "attestation" fields mark) mark.value)
          else thrown invalid_signature
    ]
