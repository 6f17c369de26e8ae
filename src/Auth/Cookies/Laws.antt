-- ===== src/Auth/Cookies/Laws.antt =====
-- Setting and reading cookies together (src/control-plane/auth.ts).
pub mod Browser
use softwareoath.Base.{◌++◌}
use softwareoath.Auth.Cookies.{Web, cookies, read_entries, pair_of, split, trim}
use Prim.Native.String.{String}
use Prim.Native.String as Text
use softwareoath.Base.{
  ℕ, nat_eq, List, [], ◌∷◌, some, none, join, lacks, ◌≢◌, ◌≡◌, true, ap, has_no_space, ◌==◌,
  lacks-append, split-lacks, ◌∙◌, arith, has_no_space-append, is_space, trim-has_no_space,
  split-join, eq_iff, refl,
}

-- What the code relies on: the code of a text has no semicolon, no equals sign and no white space, is
-- read back, and is empty for the empty text only. The decimal text of a number has none of these
-- letters either, and is a zero for 0 only.
pub record IsWeb (web : Web) : Type 0 where
  pub lacks_semicolon : (s : String) → lacks b';' (web.encode_uri s) ≡ true
  pub lacks_equals : (s : String) → lacks b'=' (web.encode_uri s) ≡ true
  pub no_space : (s : String) → has_no_space (web.encode_uri s) ≡ true
  pub decode-encode : (s : String) → web.decode_uri (web.encode_uri s) ≡ some s
  pub encode_empty : (s : String) → (web.encode_uri s == "") ≡ (s == "")
  pub decimal_lacks : (n : ℕ) → lacks b';' (web.decimal n) ≡ true
  pub decimal_no_space : (n : ℕ) → has_no_space (web.decimal n) ≡ true
  pub decimal_lacks_equals : (n : ℕ) → lacks b'=' (web.decimal n) ≡ true
  pub decimal_zero : (n : ℕ) → (web.decimal n == "0") ≡ nat_eq n 0

-- What a browser sends of one cookie.
unfoldable pub sent : Web → String → String → String
sent web name value = join "=" (name ∷ web.encode_uri value ∷ [])

-- A name of a cookie: letters that are no separator and no white space.
abbrev pub IsName : String → Type 0
IsName name =
    (lacks b';' name ≡ true) × (lacks b'=' name ≡ true) × (has_no_space name ≡ true) × (name ≢ "")

pub sent-lacks :
    (web : Web) (name value : String)
    → IsWeb web
    → IsName name
    → (lacks b';' (sent web name value) ≡ true) × (has_no_space (sent web name value) ≡ true)
unfolding sent join
sent-lacks web name value laws named =
    let code = web.encode_uri value in
    (
      lacks-append b';' name (Text.◌++◌ "=" code)
          ∙ ground (arith, named.0, lacks-append b';' "=" code, laws.lacks_semicolon value),
      has_no_space-append name (Text.◌++◌ "=" code)
          ∙ (unfold is_space in
              ground (arith, named.2, has_no_space-append "=" code, laws.no_space value)),
    )

split-sent :
    (web : Web) (name value : String)
    → IsWeb web
    → IsName name
    → split b'=' (sent web name value) ≡ name ∷ web.encode_uri value ∷ []
unfolding sent
split-sent web name value laws named =
    split-join b'=' "=" name (web.encode_uri value ∷ []) refl
      (named.1, (laws.lacks_equals value, tt))

pair_of-sent :
    (web : Web) (name value : String)
    → IsWeb web
    → IsName name
    → value ≢ ""
    → pair_of (split b'=' (trim (sent web name value))) ≡ some (name, web.encode_uri value)
pair_of-sent web name value laws named full =
    ap (λ s. pair_of (split b'=' s))
      (trim-has_no_space (sent web name value) (sent-lacks web name value laws named).1)
    ∙ ap pair_of (split-sent web name value laws named)
    ∙ ground (arith, eq_iff name "", named.3, laws.encode_empty value, eq_iff value "", full)

read_entries-one :
    (web : Web) (entry name code value : String)
    → pair_of (split b'=' (trim entry)) ≡ some (name, code)
    → web.decode_uri code ≡ some value
    → read_entries web (entry ∷ []) ≡ some ((name, value) ∷ [])
unfolding read_entries
read_entries-one web entry name code value pair is = ground (arith, pair, is)

-- The one cookie that a request carries is read with its value.
pub cookies-sent :
    (web : Web) (name value : String)
    → IsWeb web
    → IsName name
    → value ≢ ""
    → cookies web (some (sent web name value)) ≡ some ((name, value) ∷ [])
unfolding cookies
cookies-sent web name value laws named full =
    let whole = sent-lacks web name value laws named in
    ap (read_entries web) (split-lacks b';' (sent web name value) whole.0)
    ∙ read_entries-one web (sent web name value) name (web.encode_uri value) value
        (pair_of-sent web name value laws named full) (laws.decode-encode value)

-- One cookie whose value is no code stops the reading of all of them, whatever its name.
pub cookies-broken :
    (web : Web) (before after : List String) (entry name code : String)
    → pair_of (split b'=' (trim entry)) ≡ some (name, code)
    → web.decode_uri code ≡ none
    → read_entries web (before ++ entry ∷ after) ≡ none
unfolding read_entries
cookies-broken web [] after entry name code pair is = ground (arith, pair, is)
cookies-broken web (e ∷ before) after entry name code pair is =
    ground (arith, cookies-broken web before after entry name code pair is)
