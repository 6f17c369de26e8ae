-- ===== src/Attest/Bundle/Laws.antt =====
-- Exporting and verifying together (src/control-plane/bundle.ts).
use softwareoath.Attest.Merkle.Laws.{compute_merkle_root-total}
use softwareoath.Repair.GitStatus.Laws.{text_eq→path, text_eq_refl}
use softwareoath.Attest.Signature.Laws.{IsScheme, sign_receipt_known, verify-sign_receipt}
use softwareoath.Attest.Signature.{mark_of, key_of}
use softwareoath.Attest.Merkle.{compute_merkle_root}
use softwareoath.Attest.Bundle.{
  valid, Tools, check_attestations, check_manifest, verify_attestation_bundle, Bool,
  bundle_signature, export_attestation_bundle, TrustedReceiptKeys, Attested, ReceiptSigner,
  AttestationBundle, verify_final_attestation, Counts, Manifest, Json, Try, all_records,
  SignatureError, bundle_as_receipt_payload,
}
use softwareoath.Repair.GitStatus.{Text}
use softwareoath.Base.{
  List, [], ◌∷◌, length, none, some, returned, thrown, All, ◌≡◌, arith, refl, ◌∙◌, ap,
}

-- Every attestation of a list verifies.
abbrev pub AllVerified : Tools → Bool → TrustedReceiptKeys → List Attested → Type 0
AllVerified tools in_test keys attestations =
    All
      (λ (a : Attested).
        verify_final_attestation tools.scheme tools.writing in_test keys a.fields a.mark
        ≡ returned tt)
      attestations

check_attestations-valid :
    (tools : Tools) (in_test : Bool) (keys : TrustedReceiptKeys) (attestations : List Attested)
    (counts : Counts)
    → AllVerified tools in_test keys attestations
    → check_attestations tools in_test keys attestations counts ≡ valid counts
unfolding check_attestations
check_attestations-valid tools in_test keys [] counts h = refl
check_attestations-valid tools in_test keys (a ∷ attestations) counts h =
    ground (arith, h.0, check_attestations-valid tools in_test keys attestations counts h.1)

check_attestations-verified :
    (tools : Tools) (in_test : Bool) (keys : TrustedReceiptKeys) (attestations : List Attested)
    (counts given : Counts)
    → check_attestations tools in_test keys attestations counts ≡ valid given
    → AllVerified tools in_test keys attestations
unfolding check_attestations
check_attestations-verified tools in_test keys [] counts given e = tt
check_attestations-verified tools in_test keys (a ∷ attestations) counts given e =
    of_first (verify_final_attestation tools.scheme tools.writing in_test keys a.fields a.mark) refl
      (λ rest. check_attestations-verified tools in_test keys attestations counts given rest)
  where
    of_first :
        (o : Try SignatureError Unit)
        → verify_final_attestation tools.scheme tools.writing in_test keys a.fields a.mark ≡ o
        → (check_attestations tools in_test keys attestations counts ≡ valid given
            → AllVerified tools in_test keys attestations)
        → AllVerified tools in_test keys (a ∷ attestations)
    of_first (thrown error) is later = ground (arith, e, is)
    of_first (returned _) is later = (is, later (ground (arith, e, is)))

check_manifest-export :
    (tools : Tools) (in_test : Bool) (keys : TrustedReceiptKeys) (signer : ReceiptSigner)
    (public generated_at signed_at : Text) (manifest : Manifest)
    → IsScheme tools.scheme
    → tools.scheme.public_of signer.private_key ≡ some public
    → key_of signer.key_id keys ≡ some public
    → manifest.signature
      ≡ bundle_signature tools
          (returned signer)
          manifest.merkle_root
          manifest.generated_at
          signed_at
    → check_manifest tools in_test keys manifest ≡ returned tt
unfolding check_manifest bundle_signature
check_manifest-export tools in_test keys signer public generated_at signed_at manifest laws known
      trusted e =
    let payload = bundle_as_receipt_payload manifest.merkle_root manifest.generated_at in
    let mark = mark_of tools.scheme tools.writing "receipt" payload signer public signed_at in
    let signed =
      sign_receipt_known tools.scheme tools.writing payload signer signed_at public known in
    ground (
      arith,
      e,
      signed,
      verify-sign_receipt tools.scheme tools.writing in_test keys payload signer signed_at public
          laws known trusted signed,
    )

-- A bundle that is exported with a signer whose public key is trusted under its id is found valid,
-- with the numbers of its records, if its attestations verify and the scheme keeps its laws.
pub verify-export :
    (tools : Tools) (in_test : Bool) (keys : TrustedReceiptKeys) (signer : ReceiptSigner)
    (public generated_at signed_at : Text) (incidents : List Json) (attestations : List Attested)
    (knowledge events : List Json)
    → IsScheme tools.scheme
    → tools.scheme.public_of signer.private_key ≡ some public
    → key_of signer.key_id keys ≡ some public
    → AllVerified tools in_test keys attestations
    → verify_attestation_bundle tools in_test keys (
        export_attestation_bundle tools
          (returned signer)
          generated_at
          signed_at
          incidents
          attestations
          knowledge
          events)
      ≡ valid (record {
        incidents = length incidents;
        final_attestations = length attestations;
        knowledge_records = length knowledge;
        audit_events = length events;
      })
unfolding verify_attestation_bundle export_attestation_bundle
verify-export tools in_test keys signer public generated_at signed_at incidents attestations
      knowledge events laws known trusted verified =
    let bundle =
      export_attestation_bundle tools (returned signer) generated_at signed_at incidents
        attestations knowledge events in
    ground (
      arith,
      text_eq_refl bundle.manifest.merkle_root,
      check_manifest-export tools in_test keys signer public generated_at signed_at bundle.manifest
          laws known trusted refl,
      check_attestations-valid tools in_test keys attestations bundle.manifest.counts verified,
    )

-- Where a bundle is found valid, the version of its manifest is 1, the root of its manifest is
-- that of its records, the signature of its manifest verifies if it has one, and so does each of
-- its attestations.
pub verify_bundle_valid :
    (tools : Tools) (in_test : Bool) (keys : TrustedReceiptKeys) (bundle : AttestationBundle)
    (counts : Counts)
    → verify_attestation_bundle tools in_test keys bundle ≡ valid counts
    → (bundle.manifest.version ≡ 1)
      × (compute_merkle_root tools.sha256 (
            all_records tools bundle.incidents bundle.final_attestations bundle.knowledge
              bundle.audit_events)
          ≡ some bundle.manifest.merkle_root)
      × (check_manifest tools in_test keys bundle.manifest ≡ returned tt)
      × AllVerified tools in_test keys bundle.final_attestations
unfolding verify_attestation_bundle
verify_bundle_valid tools in_test keys bundle counts e =
    let (root, is) = compute_merkle_root-total tools.sha256 (
      all_records tools bundle.incidents bundle.final_attestations bundle.knowledge
        bundle.audit_events) in
    of_manifest root is (check_manifest tools in_test keys bundle.manifest) refl
  where
    of_manifest :
        (root : Text)
        → compute_merkle_root tools.sha256 (
            all_records tools bundle.incidents bundle.final_attestations bundle.knowledge
              bundle.audit_events)
          ≡ some root
        → (o : Try SignatureError Unit) → check_manifest tools in_test keys bundle.manifest ≡ o
        → (bundle.manifest.version ≡ 1)
          × (compute_merkle_root tools.sha256 (
                all_records tools bundle.incidents bundle.final_attestations bundle.knowledge
                  bundle.audit_events)
              ≡ some bundle.manifest.merkle_root)
          × (check_manifest tools in_test keys bundle.manifest ≡ returned tt)
          × AllVerified tools in_test keys bundle.final_attestations
    of_manifest root is (thrown error) at = ground (arith, e, is, at)
    of_manifest root is (returned _) at = (
      ground (arith, e, is, at),
      is ∙ ap some (text_eq→path root bundle.manifest.merkle_root (ground (arith, e, is, at))),
      at,
      check_attestations-verified tools in_test keys bundle.final_attestations
          bundle.manifest.counts counts (ground (arith, e, is, at)),
    )

-- A valid bundle vouches for its attestations only: with its signature taken away, other
-- incidents, knowledge and audit events, the root of these with its attestations, and any counts,
-- it is valid too, with those counts.
pub verify_bundle_unsigned :
    (tools : Tools) (in_test : Bool) (keys : TrustedReceiptKeys) (bundle : AttestationBundle)
    (counts claimed : Counts) (incidents knowledge events : List Json) (root : Text)
    → verify_attestation_bundle tools in_test keys bundle ≡ valid counts
    → compute_merkle_root tools.sha256
        (all_records tools incidents bundle.final_attestations knowledge events)
      ≡ some root
    → verify_attestation_bundle tools in_test keys (record {
      manifest = record bundle.manifest { counts = claimed; merkle_root = root; signature = none };
      incidents = incidents;
      final_attestations = bundle.final_attestations;
      knowledge = knowledge;
      audit_events = events;
    })
      ≡ valid claimed
unfolding verify_attestation_bundle check_manifest
verify_bundle_unsigned tools in_test keys bundle counts claimed incidents knowledge events root e
      is =
    let sound = verify_bundle_valid tools in_test keys bundle counts e in
    ground (
      arith,
      sound.0,
      is,
      text_eq_refl root,
      check_attestations-valid tools in_test keys bundle.final_attestations claimed sound.3,
    )
