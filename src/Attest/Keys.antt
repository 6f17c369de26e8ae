-- ===== src/Attest/Keys.antt =====
-- The keys that the environment gives: `receiptSignerFromEnvironment` and
-- `trustedReceiptKeysFromEnvironment` (src/repair/signature.ts).
pub mod Laws
use softwareoath.Attest.Signature.{
  ReceiptSigner, SignatureError, TrustedReceiptKeys, no_signer, bad_key_list, full_key,
  revoked_signer,
}
use softwareoath.Repair.GitStatus.{Text, text_eq}
use softwareoath.Base.{
  some, none, List, [], ◌∷◌, returned, thrown, if◌then◌else◌, every, filter, is_space, any, Option,
  nat_eq, Bool, Try, ◌&&◌, not,
}

-- `text.replaceAll("\\n", "\n")`
unfoldable pub unescape : Text → Text
unescape [] = []
unescape (x ∷ []) = x ∷ []
unescape (x ∷ y ∷ rest) =
    let kept = unescape (y ∷ rest) in
    let replaced = unescape rest in if nat_eq x 92 && nat_eq y b'n' then 10 ∷ replaced else x ∷ kept

-- `!key.trim()`
abbrev pub is_blank_key : Text → Bool
is_blank_key key = every is_space key

-- The parsed object: its entries, whose value is `none` where it is no text. One bad entry throws,
-- also where its id is revoked.
unfoldable pub read_keys : List (Text × Option Text) → Try SignatureError TrustedReceiptKeys
read_keys [] = returned []
read_keys ((key_id, none) ∷ entries) = thrown bad_key_list
read_keys ((key_id, some key) ∷ entries) = elim (read_keys entries) [
  | thrown e ↦ thrown e
  | returned keys ↦
      if is_blank_key key then thrown bad_key_list else returned ((key_id, unescape key) ∷ keys)
]

abbrev pub is_revoked : List Text → Text → Bool
is_revoked revoked key_id = any (text_eq key_id) revoked

-- `trustedReceiptKeysFromEnvironment`, with the revoked ids and the entries of the object, if the
-- variable is set.
unfoldable pub trusted_receipt_keys :
    List Text → Option (List (Text × Option Text)) → Try SignatureError TrustedReceiptKeys
trusted_receipt_keys revoked none = returned []
trusted_receipt_keys revoked (some entries) = elim (read_keys entries) [
  | thrown e ↦ thrown e
  | returned keys ↦ returned (filter (λ k. not (is_revoked revoked k.0)) keys)
]

-- `receiptSignerFromEnvironment`: the key and its id are used where both are set and not empty; in a
-- test without them there is a signer for tests.
unfoldable pub receipt_signer :
    List Text → Option Text → Option Text → Option ReceiptSigner → Try SignatureError ReceiptSigner
receipt_signer revoked private_key key_id test_signer = elim (full_key private_key) [
  | none ↦ fallback test_signer
  | some key ↦ elim (full_key key_id) [
    | none ↦ fallback test_signer
    | some id ↦
        if is_revoked revoked id
        then thrown revoked_signer
        else returned (record { key_id = id; private_key = unescape key; public_key = none })
  ]
]
  where
    fallback : Option ReceiptSigner → Try SignatureError ReceiptSigner
    fallback none = thrown no_signer
    fallback (some signer) = returned signer
