-- ===== src/Attest/Bundle.antt =====
-- Bundles of attestations: `exportAttestationBundle` and `verifyAttestationBundle`
-- (src/control-plane/bundle.ts). The JSON texts of the records are what `JSON.stringify` gives.
pub mod Laws
use softwareoath.Attest.Merkle.{compute_merkle_root}
use softwareoath.Attest.Payload.{object, bundle_as_receipt_payload}
use softwareoath.Attest.Signature.{
  Mark, SignatureError, Scheme, Signed, ReceiptSigner, TrustedReceiptKeys, sign_receipt,
  verify_final_attestation, verify_receipt_signature,
}
use softwareoath.Records.Values.{or_else}
use softwareoath.Attest.Json.{
  json_text, json_object, member, no_members, undefined_member, Members, Json, units, Writing,
}
use softwareoath.Repair.GitStatus.{Text, text_eq}
use softwareoath.Base.{
  List, [], ◌∷◌, ◌++◌, map, length, none, some, Option, returned, thrown, if◌then◌else◌, ℕ, Try,
  Bool, not, nat_eq,
}

pub record Counts : Type 0 where
  pub incidents : ℕ
  pub final_attestations : ℕ
  pub knowledge_records : ℕ
  pub audit_events : ℕ

pub record Manifest : Type 0 where
  pub version : ℕ
  pub generated_at : Text
  pub counts : Counts
  pub merkle_root : Text
  pub signature : Option Mark

-- A final attestation: its members, and its signature as the last one.
pub record Attested : Type 0 where
  pub fields : Members
  pub mark : Mark

pub record AttestationBundle : Type 0 where
  pub manifest : Manifest
  pub incidents : List Json
  pub final_attestations : List Attested
  pub knowledge : List Json
  pub audit_events : List Json

-- What the code calls: `JSON.stringify`, the digest, and what a signature needs.
pub record Tools : Type 0 where
  pub stringify : Json → Text
  pub sha256 : Text → Text
  pub scheme : Scheme
  pub writing : Writing

abbrev pub append_member : Members → Text → Json → Members
append_member no_members key value = member key value no_members
append_member (member k v rest) key value = member k v (append_member rest key value)
append_member (undefined_member k rest) key value =
    undefined_member k (append_member rest key value)

abbrev pub mark_json : Mark → Json
mark_json mark = object (
    ("algorithm", json_text mark.algorithm)
    ∷ ("keyId", json_text mark.key_id)
    ∷ ("signedAt", json_text mark.signed_at)
    ∷ ("publicKey", json_text mark.public_key)
    ∷ ("value", json_text mark.value)
    ∷ [])

abbrev pub attested_json : Attested → Json
attested_json a = json_object (append_member a.fields (units "signature") (mark_json a.mark))

-- The texts of all records: incidents, attestations, knowledge, audit events.
unfoldable pub all_records : Tools → List Json → List Attested → List Json → List Json → List Text
all_records tools incidents attestations knowledge events =
    map tools.stringify (incidents ++ (map attested_json attestations ++ (knowledge ++ events)))

abbrev pub signature_of : Try SignatureError Signed → Option Mark
signature_of (thrown _) = none
signature_of (returned signed) = signed.signature

-- The signature of the manifest. An error, of the signer or of the key, leaves the bundle unsigned.
unfoldable pub bundle_signature :
    Tools → Try SignatureError ReceiptSigner → Text → Text → Text → Option Mark
bundle_signature tools (thrown _) root generated_at signed_at = none
bundle_signature tools (returned signer) root generated_at signed_at = signature_of (
    sign_receipt tools.scheme tools.writing (bundle_as_receipt_payload root generated_at) signer
      signed_at)

-- `exportAttestationBundle`, of what the store gives, at two instants of the clock.
unfoldable pub export_attestation_bundle :
    Tools
    → Try SignatureError ReceiptSigner
    → Text
    → Text
    → List Json
    → List Attested
    → List Json
    → List Json
    → AttestationBundle
export_attestation_bundle tools signer generated_at signed_at incidents attestations knowledge
      events =
    let root =
      compute_merkle_root tools.sha256
        (all_records tools incidents attestations knowledge events) in
    record {
      manifest = record {
        version = 1;
        generated_at = generated_at;
        counts = record {
          incidents = length incidents;
          final_attestations = length attestations;
          knowledge_records = length knowledge;
          audit_events = length events;
        };
        merkle_root = or_else root [];
        signature = bundle_signature tools signer (or_else root []) generated_at signed_at;
      };
      incidents = incidents;
      final_attestations = attestations;
      knowledge = knowledge;
      audit_events = events;
    }

-- Valid with the counts of the manifest, or the reason why not.
pub data BundleVerdict : Type 0 where
  valid : Counts → BundleVerdict
  unsupported_bundle : BundleVerdict
  root_mismatch : BundleVerdict
  bad_bundle_signature : SignatureError → BundleVerdict
  bad_attestation : SignatureError → BundleVerdict

-- The attestations, one after the other.
unfoldable pub check_attestations :
    Tools → Bool → TrustedReceiptKeys → List Attested → Counts → BundleVerdict
check_attestations tools in_test keys [] counts = valid counts
check_attestations tools in_test keys (a ∷ attestations) counts =
    let rest = check_attestations tools in_test keys attestations counts in
    elim (verify_final_attestation tools.scheme tools.writing in_test keys a.fields a.mark) [
      | thrown e ↦ bad_attestation e
      | returned _ ↦ rest
    ]

-- The check of the manifest's signature, if there is one.
unfoldable pub check_manifest :
    Tools → Bool → TrustedReceiptKeys → Manifest → Try SignatureError Unit
check_manifest tools in_test keys manifest = elim manifest.signature [
  | none ↦ returned tt
  | some mark ↦ verify_receipt_signature tools.scheme tools.writing in_test keys (record {
    fields = bundle_as_receipt_payload manifest.merkle_root manifest.generated_at;
    signature = some mark;
  })
]

-- `verifyAttestationBundle`
unfoldable pub verify_attestation_bundle :
    Tools → Bool → TrustedReceiptKeys → AttestationBundle → BundleVerdict
verify_attestation_bundle tools in_test keys bundle =
    let root = compute_merkle_root tools.sha256 (
      all_records tools bundle.incidents bundle.final_attestations bundle.knowledge
        bundle.audit_events) in
    let manifest = bundle.manifest in
    let attested =
      check_attestations tools in_test keys bundle.final_attestations manifest.counts in
    if not (nat_eq manifest.version 1)
    then unsupported_bundle
    else if not (text_eq (or_else root []) manifest.merkle_root)
    then root_mismatch
    else elim (check_manifest tools in_test keys manifest) [
      | thrown e ↦ bad_bundle_signature e
      | returned _ ↦ attested
    ]
