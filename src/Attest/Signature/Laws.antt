-- ===== src/Attest/Signature/Laws.antt =====
-- Signing and verifying together (src/repair/signature.ts).
use softwareoath.Repair.GitStatus.Laws.{text_eq→path, text_eq_refl}
use softwareoath.Attest.Signature.{key_of, known_key}
use softwareoath.Base.{◌⊎◌, inl, inr, if◌then◌else◌, none, some, ap, sym, ◌∙◌}
use softwareoath.Attest.Signature.{verdict_of, String, check_mark}
use softwareoath.Base.{Option-cases, Option}
use softwareoath.Attest.Signature.{
  Scheme, sign_receipt, verify_receipt_signature, full_key, Writing, Bool, TrustedReceiptKeys,
  Members, Signed, ReceiptSigner, Mark, mark_of, units, verification_key, signed_text,
}
use softwareoath.Repair.GitStatus.{Text, text_eq}
use softwareoath.Base.{true, false, [], ◌∷◌, returned, ◌≡◌, ◌≢◌, arith, refl, ◌↔◌, subst}

-- What the code relies on: a text that is signed with a private key verifies under its public key,
-- which is not empty.
pub record IsScheme (scheme : Scheme) : Type 0 where
  pub verify-sign :
      (private public text : Text)
      → scheme.public_of private ≡ some public
      → scheme.verify public text (scheme.sign private text) ≡ some true
  pub public_full : (private public : Text) → scheme.public_of private ≡ some public → public ≢ []

pub full_key-full : (key : Text) → key ≢ [] → full_key (some key) ≡ some key
full_key-full [] h = absurd (h refl)
full_key-full (c ∷ key) h = refl

-- A receipt that was signed verifies wherever the public key of the signer's private key is trusted
-- under the signer's id.
pub verify-sign_receipt :
    (scheme : Scheme) (writing : Writing) (in_test : Bool) (keys : TrustedReceiptKeys)
    (fields : Members) (signer : ReceiptSigner) (signed_at public : Text) {receipt : Signed}
    → IsScheme scheme
    → scheme.public_of signer.private_key ≡ some public
    → key_of signer.key_id keys ≡ some public
    → sign_receipt scheme writing fields signer signed_at ≡ returned receipt
    → verify_receipt_signature scheme writing in_test keys receipt ≡ returned tt
unfolding sign_receipt
verify-sign_receipt scheme writing in_test keys fields signer signed_at public {receipt} laws known
      trusted e =
    subst (λ r. verify_receipt_signature scheme writing in_test keys r ≡ returned tt) same verified
  where
    mark : Mark
    mark = mark_of scheme writing "receipt" fields signer public signed_at

    same : record { fields = fields; signature = some mark } ≡ receipt
    same = ground (arith, e, known)

    verified :
        verify_receipt_signature scheme writing in_test keys
          (record { fields = fields; signature = some mark })
        ≡ returned tt
    verified =
        unfold verify_receipt_signature mark_of verification_key signed_text in
        ground (
          arith,
          trusted,
          full_key-full public (laws.public_full signer.private_key public known),
          text_eq_refl (units "Ed25519"),
          laws.verify-sign signer.private_key public (signed_text writing "receipt" fields mark)
              known,
        )

verdict_of-true : (o : Option Bool) → (verdict_of o ≡ returned tt) → o ≡ some true
verdict_of-true none e = ground arith
verdict_of-true (some true) e = refl
verdict_of-true (some false) e = ground arith

check_mark-verified :
    (scheme : Scheme) (writing : Writing) (in_test : Bool) (keys : TrustedReceiptKeys)
    (name : String) (fields : Members) (mark : Mark)
    → check_mark scheme writing in_test keys name fields mark ≡ returned tt
    → (key : Text) × (verification_key in_test keys mark ≡ some key)
      × (scheme.verify key (signed_text writing name fields mark) mark.value ≡ some true)
check_mark-verified scheme writing in_test keys name fields mark e =
    elim (Option-cases (verification_key in_test keys mark)) [
      | inl missing ↦ ground (arith, e, missing)
      | inr (key, is) ↦ (
        key,
        is,
        verdict_of-true (scheme.verify key (signed_text writing name fields mark) mark.value)
            (ground (arith, e, is)),
      )
    ]

-- The keys that a signature is checked with: the one that is trusted under its id, or, in a test
-- without trusted keys, its own. Neither may be empty.
abbrev pub IsTrusted : Bool → TrustedReceiptKeys → Mark → Text → Type 0
IsTrusted in_test keys mark key =
    (key ≢ [])
    × ((key_of mark.key_id keys ≡ some key)
        ⊎ ((in_test ≡ true) × (keys ≡ []) × (key ≡ mark.public_key)))

full_key-some :
    (o : Option Text) (key : Text) → (full_key o ≡ some key) ↔ ((o ≡ some key) × (key ≢ []))
full_key-some none key = ((λ e. ground arith), (λ h. ground (arith, h.0)))
full_key-some (some []) key = ((λ e. ground arith), (λ h. ground (arith, h.0, h.1)))
full_key-some (some (c ∷ k)) key = ((λ e. (ground arith, ground arith)), (λ h. ground (arith, h.0)))

known_key-none : (o : Option Text) → known_key o none ≡ o
known_key-none none = refl
known_key-none (some key) = refl

verification_key-IsTrusted :
    (in_test : Bool) (keys : TrustedReceiptKeys) (mark : Mark) (key : Text)
    → (verification_key in_test keys mark ≡ some key) ↔ IsTrusted in_test keys mark key
unfolding verification_key key_of
verification_key-IsTrusted in_test [] mark key =
    let full = full_key-some (if in_test then some mark.public_key else none) key in
    (
      (λ e. ((full.0 e).1, inr (ground (arith, (full.0 e).0), refl, ground (arith, (full.0 e).0)))),
      (λ h. full.1 (
        elim h.1 [ inl known ↦ ground (arith, known) | inr own ↦ ground (arith, own.0, own.2) ],
        h.0,
      )),
    )
verification_key-IsTrusted in_test ((id, k) ∷ keys) mark key =
    let full = full_key-some (key_of mark.key_id ((id, k) ∷ keys)) key in
    let only : known_key (key_of mark.key_id ((id, k) ∷ keys)) none
        ≡ key_of mark.key_id ((id, k) ∷ keys) =
      known_key-none (key_of mark.key_id ((id, k) ∷ keys)) in
    (
      (λ e. let found = full.0 (ap full_key (sym only) ∙ e) in (found.1, inl found.0)),
      (λ h.
          ap full_key only
          ∙ full.1 (elim h.1 [ inl known ↦ known | inr own ↦ ground (arith, own.1) ], h.0)),
    )

-- A receipt verifies exactly where it has a signature of the algorithm Ed25519, and the scheme
-- verifies the text of all its members and of the signature's other members under a key that is not
-- empty: the one that is trusted under the signature's id or, in a test without trusted keys, the
-- signature's own.
pub verify_receipt_returned_iff :
    (scheme : Scheme) (writing : Writing) (in_test : Bool) (keys : TrustedReceiptKeys)
    (receipt : Signed)
    → (verify_receipt_signature scheme writing in_test keys receipt ≡ returned tt) ↔ (
        (mark : Mark) × (key : Text) × (receipt.signature ≡ some mark)
        × (mark.algorithm ≡ units "Ed25519")
        × IsTrusted in_test keys mark key
        × (scheme.verify key (signed_text writing "receipt" receipt.fields mark) mark.value
            ≡ some true))
unfolding verify_receipt_signature
verify_receipt_returned_iff scheme writing in_test keys receipt = (forward, backward)
  where
    forward :
        verify_receipt_signature scheme writing in_test keys receipt ≡ returned tt
        → (mark : Mark) × (key : Text) × (receipt.signature ≡ some mark)
          × (mark.algorithm ≡ units "Ed25519")
          × IsTrusted in_test keys mark key
          × (scheme.verify key (signed_text writing "receipt" receipt.fields mark) mark.value
              ≡ some true)
    forward e = elim (Option-cases receipt.signature) [
      | inl missing ↦ ground (arith, e, missing)
      | inr (mark, is) ↦
          let (key, known, passes) =
            check_mark-verified scheme writing in_test keys "receipt" receipt.fields mark
              (ground (arith, e, is)) in
          (
            mark,
            key,
            is,
            text_eq→path mark.algorithm (units "Ed25519") (ground (arith, e, is)),
            (verification_key-IsTrusted in_test keys mark key).0 known,
            passes,
          )
    ]

    backward :
        ((mark : Mark) × (key : Text) × (receipt.signature ≡ some mark)
          × (mark.algorithm ≡ units "Ed25519")
          × IsTrusted in_test keys mark key
          × (scheme.verify key (signed_text writing "receipt" receipt.fields mark) mark.value
              ≡ some true))
        → verify_receipt_signature scheme writing in_test keys receipt ≡ returned tt
    backward (mark, key, is, algorithm, trusted, passes) = ground (
      arith,
      is,
      ap (λ t. text_eq t (units "Ed25519")) algorithm,
      text_eq_refl (units "Ed25519"),
      (verification_key-IsTrusted in_test keys mark key).1 trusted,
      passes,
    )

pub sign_receipt_known :
    (scheme : Scheme) (writing : Writing) (fields : Members) (signer : ReceiptSigner)
    (signed_at public : Text)
    → scheme.public_of signer.private_key ≡ some public
    → sign_receipt scheme writing fields signer signed_at
      ≡ returned (record {
        fields = fields;
        signature = some (mark_of scheme writing "receipt" fields signer public signed_at);
      })
unfolding sign_receipt
sign_receipt_known scheme writing fields signer signed_at public known = ground (arith, known)
