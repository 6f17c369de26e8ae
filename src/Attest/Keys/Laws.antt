-- ===== src/Attest/Keys/Laws.antt =====
-- Revoked keys (src/repair/signature.ts).
use softwareoath.Attest.Signature.Laws.{full_key-full}
use softwareoath.Attest.Keys.{
  trusted_receipt_keys, is_revoked, receipt_signer, Option, ReceiptSigner, not, Try, SignatureError,
  read_keys,
}
use softwareoath.Repair.GitStatus.{Text}
use softwareoath.Attest.Signature.{revoked_signer, key_of, TrustedReceiptKeys}
use softwareoath.Base.{
  filter, List, none, some, returned, thrown, [], ◌∷◌, ◌≡◌, true, ◌≢◌, arith, refl, subst,
}
use softwareoath.Repair.GitStatus.Laws.{text_eq→path}

kept_key :
    (revoked : List Text) (id : Text) (keys : TrustedReceiptKeys)
    → is_revoked revoked id ≡ true
    → key_of id (filter (λ k. not (is_revoked revoked k.0)) keys) ≡ none
unfolding key_of
kept_key revoked id [] h = refl
kept_key revoked id ((key_id, key) ∷ keys) h =
    ground (arith, kept_key revoked id keys h, h, text_eq→path key_id id)

-- No key is trusted under a revoked id, and a signer with that id and a private key is refused, in a
-- test too.
pub revoked_key_unused :
    (revoked : List Text) (entries : Option (List (Text × Option Text))) (id private_key : Text)
    (test_signer : Option ReceiptSigner) {keys : TrustedReceiptKeys}
    → is_revoked revoked id ≡ true
    → id ≢ []
    → private_key ≢ []
    → trusted_receipt_keys revoked entries ≡ returned keys
    → (key_of id keys ≡ none)
      × (receipt_signer revoked (some private_key) (some id) test_signer ≡ thrown revoked_signer)
unfolding trusted_receipt_keys receipt_signer
revoked_key_unused revoked none id private_key test_signer h named full e = (
  unfold key_of in ground (arith, e),
  ground (arith, h, full_key-full id named, full_key-full private_key full),
)
revoked_key_unused revoked (some entries) id private_key test_signer {keys} h named full e = (
  of_read (read_keys entries) refl,
  ground (arith, h, full_key-full id named, full_key-full private_key full),
)
  where
    of_read :
        (o : Try SignatureError TrustedReceiptKeys) → read_keys entries ≡ o → key_of id keys ≡ none
    of_read (thrown error) is = ground (arith, e, is)
    of_read (returned all) is =
        subst (λ (k : TrustedReceiptKeys). key_of id k ≡ none) (ground (arith, e, is))
          (kept_key revoked id all h)
