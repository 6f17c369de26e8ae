-- ===== src/Examples/Bundles.antt =====
-- The laws of signatures and bundles, with a signature that is the text itself.
use softwareoath.Attest.Keys.Laws.{revoked_key_unused}
use softwareoath.Attest.Bundle.Laws.{
  verify-export, AllVerified, verify_bundle_unsigned, verify_bundle_valid,
}
use softwareoath.Attest.Merkle.Laws.{compute_merkle_root-total, compute_merkle_root-Permᴰ}
use softwareoath.Attest.Signature.Laws.{IsScheme, verify_receipt_returned_iff, IsTrusted}
use mathlib.Core.List.{Permᴰ}
use softwareoath.Attest.Keys.{trusted_receipt_keys, read_keys, unescape, receipt_signer}
use softwareoath.Attest.Json.{json_null, no_members, Writing, canonical_json, units}
use softwareoath.Attest.Signature.{
  mark_of, key_of, revoked_signer, Scheme, ReceiptSigner, TrustedReceiptKeys, Signed,
  verify_receipt_signature, Mark, signed_text,
}
use softwareoath.Attest.Merkle.{compute_merkle_root}
use softwareoath.Attest.Bundle.{
  valid, all_records, export_attestation_bundle, Tools, AttestationBundle, Counts,
  verify_attestation_bundle, check_manifest,
}
use softwareoath.Repair.GitStatus.Laws.{text_eq_refl}
use softwareoath.Repair.GitStatus.{Text, text_le, text_eq}
use softwareoath.Base.{
  List, [], ◌∷◌, none, some, returned, thrown, true, false, is_space, ◌≡◌, ap, refl, ◌↔◌, arith,
}

abbrev writing : Writing
writing = record { number_text = λ n. 49 ∷ []; quoted = λ t. t; not_after = text_le }

abbrev scheme : Scheme
scheme = record {
  public_of = λ private. some (1 ∷ private);
  sign = λ private text. text;
  verify = λ public text value. some (text_eq value text);
}

scheme_laws : IsScheme scheme
scheme_laws = record {
  verify-sign = λ private public text known. ap some (text_eq_refl text);
  public_full = λ private public known. λ e. ground arith;
}

abbrev signer : ReceiptSigner
signer = record { key_id = 7 ∷ []; private_key = 5 ∷ []; public_key = none }

abbrev keys : TrustedReceiptKeys
keys = (7 ∷ [], 1 ∷ 5 ∷ []) ∷ []

abbrev tools : Tools
tools = record {
  stringify = λ j. canonical_json writing j;
  sha256 = λ t. t;
  scheme = scheme;
  writing = writing;
}

trusted_seven : key_of (7 ∷ []) keys ≡ some (1 ∷ 5 ∷ [])
unfolding key_of text_eq
trusted_seven = refl

abbrev receipt : Signed
receipt = record {
  fields = no_members;
  signature = some (mark_of scheme writing "receipt" no_members signer (1 ∷ 5 ∷ []) (50 ∷ []));
}

verify_receipt_returned_iff_example :
    (verify_receipt_signature scheme writing false keys receipt ≡ returned tt) ↔ (
      (mark : Mark) × (key : Text) × (receipt.signature ≡ some mark)
      × (mark.algorithm ≡ units "Ed25519")
      × IsTrusted false keys mark key
      × (scheme.verify key (signed_text writing "receipt" no_members mark) mark.value ≡ some true))
verify_receipt_returned_iff_example = verify_receipt_returned_iff scheme writing false keys receipt

revoked_key_unused_example :
    (key_of (7 ∷ []) [] ≡ none)
    × (receipt_signer ((7 ∷ []) ∷ []) (some (5 ∷ [])) (some (7 ∷ [])) none ≡ thrown revoked_signer)
revoked_key_unused_example =
    revoked_key_unused ((7 ∷ []) ∷ []) (some ((7 ∷ [], some (b'k' ∷ [])) ∷ [])) (7 ∷ []) (5 ∷ [])
      none {keys = []} (unfold text_eq in refl) (λ e. ground arith) (λ e. ground arith)
      (unfold trusted_receipt_keys read_keys unescape is_space text_eq in refl)

abbrev records : List Text
records = (50 ∷ []) ∷ (40 ∷ []) ∷ (60 ∷ []) ∷ []

compute_merkle_root-total_example :
    (root : Text) × (compute_merkle_root (λ t. t) records ≡ some root)
compute_merkle_root-total_example = compute_merkle_root-total (λ t. t) records

compute_merkle_root-Permᴰ_example :
    compute_merkle_root (λ t. t) records
    ≡ compute_merkle_root (λ t. t) ((40 ∷ []) ∷ (50 ∷ []) ∷ (60 ∷ []) ∷ [])
compute_merkle_root-Permᴰ_example =
    compute_merkle_root-Permᴰ (λ t. t) records ((40 ∷ []) ∷ (50 ∷ []) ∷ (60 ∷ []) ∷ [])
      (Permᴰ.swap refl refl)

abbrev exported : AttestationBundle
exported =
    export_attestation_bundle tools (returned signer) (50 ∷ []) (51 ∷ []) (json_null ∷ []) [] [] []

abbrev one_incident : Counts
one_incident = record {
  incidents = 1;
  final_attestations = 0;
  knowledge_records = 0;
  audit_events = 0;
}

verify-export_example : verify_attestation_bundle tools false keys exported ≡ valid one_incident
verify-export_example =
    verify-export tools false keys signer (1 ∷ 5 ∷ []) (50 ∷ []) (51 ∷ []) (json_null ∷ []) [] [] []
      scheme_laws refl trusted_seven tt

is_valid : verify_attestation_bundle tools false keys exported ≡ valid one_incident
is_valid =
    verify-export tools false keys signer (1 ∷ 5 ∷ []) (50 ∷ []) (51 ∷ []) (json_null ∷ []) [] [] []
      scheme_laws refl trusted_seven tt

verify_bundle_valid_example :
    (exported.manifest.version ≡ 1)
    × (compute_merkle_root tools.sha256 (all_records tools (json_null ∷ []) [] [] [])
        ≡ some exported.manifest.merkle_root)
    × (check_manifest tools false keys exported.manifest ≡ returned tt)
    × AllVerified tools false keys exported.final_attestations
unfolding export_attestation_bundle
verify_bundle_valid_example = verify_bundle_valid tools false keys exported one_incident is_valid

-- No incident is left, and nine are claimed.
verify_bundle_unsigned_example :
    verify_attestation_bundle tools false keys (record {
      manifest = record exported.manifest {
        counts = record one_incident { incidents = 9 };
        merkle_root = units "empty-bundle";
        signature = none;
      };
      incidents = [];
      final_attestations = exported.final_attestations;
      knowledge = [];
      audit_events = [];
    })
    ≡ valid (record one_incident { incidents = 9 })
verify_bundle_unsigned_example =
    verify_bundle_unsigned tools false keys exported one_incident
      (record one_incident { incidents = 9 }) [] [] [] (units "empty-bundle") is_valid
      (unfold compute_merkle_root all_records export_attestation_bundle in refl)
