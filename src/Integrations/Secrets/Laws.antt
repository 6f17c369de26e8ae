-- ===== src/Integrations/Secrets/Laws.antt =====
-- Encrypting and decrypting together (src/integrations/secrets.ts).
use softwareoath.Base.{
  if◌then◌else◌, thrown, returned, ◌↔◌, ap, List, split, split-join, ◌∷◌, [], ◌≢◌, ◌∙◌, arith, refl,
  eq_iff,
}
use softwareoath.Base.{lacks, ◌≡◌, String, true, ◌<◌, ◌==◌, length, nat_eq, some}
use softwareoath.Integrations.Secrets.{
  Cipher, decrypt, Bytes, encrypt, SecretBox, invalid_format, decrypt_parts, opened,
}

-- What the code relies on: the alphabet of base64url has no full stop, its codes are read back and
-- are not empty where there are bytes; UTF-8 is read back; a sealed text opens with its key, initial
-- vector and tag; the tag has bytes, and there are as many encrypted bytes as bytes.
pub record IsCipher (cipher : Cipher) : Type 0 where
  pub base64url_lacks : (b : Bytes) → lacks b'.' (cipher.base64url b) ≡ true
  pub base64url_back : (b : Bytes) → cipher.from_base64url (cipher.base64url b) ≡ b
  pub base64url_empty : (b : Bytes) → (cipher.base64url b == "") ≡ nat_eq (length b) 0
  pub utf8_back : (s : String) → cipher.from_utf8 (cipher.utf8 s) ≡ s
  pub utf8_empty : (s : String) → nat_eq (length (cipher.utf8 s)) 0 ≡ (s == "")
  pub unseal-seal :
      (key iv text : Bytes)
      → cipher.unseal key iv (cipher.seal key iv text).1 (cipher.seal key iv text).0 ≡ some text
  pub tag_full : (key iv text : Bytes) → 0 < length (cipher.seal key iv text).1
  pub same_length : (key iv text : Bytes) → length (cipher.seal key iv text).0 ≡ length text

-- A text that is encrypted is decrypted to itself by the same key, but for the empty text, whose
-- code is refused as of an invalid format. The initial vector must have bytes, and the cipher
-- keeps its laws.
pub decrypt-encrypt :
    (cipher : Cipher) (box : SecretBox) (iv : Bytes) (text : String)
    → IsCipher cipher
    → 0 < length iv
    → decrypt cipher box (encrypt cipher box iv text)
      ≡ (if text == "" then thrown invalid_format else returned text)
unfolding decrypt encrypt
decrypt-encrypt cipher box iv text laws full =
    let sealed = cipher.seal box.key iv (cipher.utf8 text) in
    ap (decrypt_parts cipher box) (
      split-join b'.' "." "v1"
        (cipher.base64url iv ∷ cipher.base64url sealed.1 ∷ cipher.base64url sealed.0 ∷ []) refl
        (
          refl,
          (
            laws.base64url_lacks iv,
            (laws.base64url_lacks sealed.1, (laws.base64url_lacks sealed.0, tt)),
          ),
        ))
    ∙ ground (
      arith,
      laws.base64url_empty iv,
      laws.base64url_empty sealed.1,
      laws.base64url_empty sealed.0,
      laws.base64url_back iv,
      laws.base64url_back sealed.1,
      laws.base64url_back sealed.0,
      laws.unseal-seal box.key iv (cipher.utf8 text),
      laws.tag_full box.key iv (cipher.utf8 text),
      laws.same_length box.key iv (cipher.utf8 text),
      laws.utf8_back text,
      laws.utf8_empty text,
      full,
    )

-- The parts of a value that opens to a text: the version, and three parts that are not empty and
-- that the cipher opens with the key of the box.
abbrev pub OpensTo : Cipher → SecretBox → String → List String → Type 0
OpensTo cipher box text (version ∷ iv ∷ tag ∷ encrypted ∷ _) =
    (version ≡ "v1")
    × (iv ≢ "")
    × (tag ≢ "")
    × (encrypted ≢ "")
    × (opened cipher (
          cipher.unseal box.key (cipher.from_base64url iv) (cipher.from_base64url tag)
            (cipher.from_base64url encrypted))
        ≡ returned text)
OpensTo cipher box text _ = ⊥

decrypt_parts-OpensTo :
    (cipher : Cipher) (box : SecretBox) (text : String) (parts : List String)
    → (decrypt_parts cipher box parts ≡ returned text) ↔ OpensTo cipher box text parts
decrypt_parts-OpensTo cipher box text [] = ((λ e. ground arith), (λ e. absurd e))
decrypt_parts-OpensTo cipher box text (a ∷ []) = ((λ e. ground arith), (λ e. absurd e))
decrypt_parts-OpensTo cipher box text (a ∷ b ∷ []) = ((λ e. ground arith), (λ e. absurd e))
decrypt_parts-OpensTo cipher box text (a ∷ b ∷ c ∷ []) = ((λ e. ground arith), (λ e. absurd e))
decrypt_parts-OpensTo cipher box text (version ∷ iv ∷ tag ∷ encrypted ∷ rest) = (
  (λ e. (
    ground (arith, eq_iff version "v1"),
    ground (arith, eq_iff iv ""),
    ground (arith, eq_iff tag ""),
    ground (arith, eq_iff encrypted ""),
    ground arith,
  )),
  (λ e. ground (arith, e, eq_iff version "v1", eq_iff iv "", eq_iff tag "", eq_iff encrypted "")),
)

-- Decryption gives a text exactly where the first four parts between full stops are the version, an
-- initial vector, a tag and a code, none of them empty, that the cipher opens to the text.
pub decrypt_returned_iff :
    (cipher : Cipher) (box : SecretBox) (value text : String)
    → (decrypt cipher box value ≡ returned text) ↔ OpensTo cipher box text (split b'.' value)
unfolding decrypt
decrypt_returned_iff cipher box value text =
    decrypt_parts-OpensTo cipher box text (split b'.' value)
