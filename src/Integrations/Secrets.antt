-- ===== src/Integrations/Secrets.antt =====
-- Secrets that are kept encrypted: `SecretBox`, `resolveSecret` and what `loadGitHubAppSecrets` makes
-- of its file (src/integrations/secrets.ts).
pub mod Laws
use softwareoath.Base.{
  Try, returned, thrown, List, ℕ, length, none, some, if◌then◌else◌, ◌∷◌, [], String, Option,
  nat_eq, join, not, split, ◌==◌, ◌||◌,
}

abbrev pub Bytes : Type 0
Bytes = List ℕ

-- The ciphers and encodings that the box calls.
pub record Cipher : Type 0 where
  pub from_base64 : String → Bytes
  pub base64url : Bytes → String
  pub from_base64url : String → Bytes
  pub utf8 : String → Bytes
  pub from_utf8 : Bytes → String
  -- The encrypted bytes and the tag of a key, an initial vector and a text.
  pub seal : Bytes → Bytes → Bytes → Bytes × Bytes
  -- The text of a key, an initial vector, a tag and encrypted bytes, if the tag is right.
  pub unseal : Bytes → Bytes → Bytes → Bytes → Option Bytes

pub data SecretError : Type 0 where
  bad_master_key invalid_format not_authentic master_key_required unsupported_version : SecretError

pub record SecretBox : Type 0 where
  pub key : Bytes

-- The constructor of a box.
unfoldable pub secret_box : Cipher → String → Try SecretError SecretBox
secret_box cipher base64_key =
    let key = cipher.from_base64 base64_key in
    if nat_eq (length key) 32 then returned (record { key = key }) else thrown bad_master_key

-- `iv` are the random bytes that are drawn.
unfoldable pub encrypt : Cipher → SecretBox → Bytes → String → String
encrypt cipher box iv plaintext =
    let sealed = cipher.seal box.key iv (cipher.utf8 plaintext) in
    join "."
      ("v1" ∷ cipher.base64url iv ∷ cipher.base64url sealed.1 ∷ cipher.base64url sealed.0 ∷ [])

abbrev pub opened : Cipher → Option Bytes → Try SecretError String
opened cipher none = thrown not_authentic
opened cipher (some bytes) = returned (cipher.from_utf8 bytes)

-- The parts after the fourth are not read.
abbrev pub decrypt_parts : Cipher → SecretBox → List String → Try SecretError String
decrypt_parts cipher box (version ∷ iv ∷ tag ∷ encrypted ∷ _) =
    if not (version == "v1") || iv == "" || tag == "" || encrypted == ""
    then thrown invalid_format
    else opened cipher (
        cipher.unseal box.key (cipher.from_base64url iv) (cipher.from_base64url tag)
          (cipher.from_base64url encrypted))
decrypt_parts cipher box _ = thrown invalid_format

unfoldable pub decrypt : Cipher → SecretBox → String → Try SecretError String
decrypt cipher box value = decrypt_parts cipher box (split b'.' value)

-- The text of an option, where the empty text counts as missing.
abbrev pub given : Option String → Option String
given none = none
given (some s) = if s == "" then none else some s

unfoldable pub open_with : Cipher → String → String → Try SecretError String
open_with cipher master_key encrypted = elim (secret_box cipher master_key) [
  | thrown e ↦ thrown e
  | returned box ↦ decrypt cipher box encrypted
]

-- `resolveSecret`: the encrypted text is taken before the plain one.
unfoldable pub resolve_secret :
    Cipher → Option String → Option String → Option String → Try SecretError (Option String)
resolve_secret cipher plaintext encrypted master_key = elim (given encrypted) [
  | none ↦ returned plaintext
  | some text ↦ elim (given master_key) [
    | none ↦ thrown master_key_required
    | some key ↦ elim (open_with cipher key text) [
      | thrown e ↦ thrown e
      | returned secret ↦ returned (some secret)
    ]
  ]
]

-- The file of the GitHub app, with its secrets encrypted or open.
pub record AppConfig : Type 0 where
  pub version : ℕ
  pub app_id : String
  pub slug : String
  pub private_key : String
  pub webhook_secret : String

pub record AppSecrets : Type 0 where
  pub app_id : String
  pub slug : String
  pub private_key : String
  pub webhook_secret : String

abbrev pub both_secrets :
    AppConfig
    → Try SecretError String
    → Try SecretError String
    → Try SecretError (Option AppSecrets)
both_secrets raw (thrown e) _ = thrown e
both_secrets raw (returned private_key) (thrown e) = thrown e
both_secrets raw (returned private_key) (returned webhook_secret) = returned (
    some (record {
      app_id = raw.app_id;
      slug = raw.slug;
      private_key = private_key;
      webhook_secret = webhook_secret;
    }))

-- `loadGitHubAppSecrets`, for what the file holds if a path is given.
unfoldable pub load_github_app_secrets :
    Cipher → Option AppConfig → Option String → Try SecretError (Option AppSecrets)
load_github_app_secrets cipher none master_key = returned none
load_github_app_secrets cipher (some raw) master_key = elim (given master_key) [
  | none ↦ thrown master_key_required
  | some key ↦
      if not (nat_eq raw.version 1)
      then thrown unsupported_version
      else elim (secret_box cipher key) [
        | thrown e ↦ thrown e
        | returned box ↦
            both_secrets raw (decrypt cipher box raw.private_key)
              (decrypt cipher box raw.webhook_secret)
      ]
]
