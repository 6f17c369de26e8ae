-- ===== src/Auth/Cookies.antt =====
-- `cookies` and `cookie` (src/control-plane/auth.ts).
pub mod Laws
use Prim.Native.String.{◌++◌}
use softwareoath.Records.Values.{or_else}
use softwareoath.Base.{
  List, some, none, if◌then◌else◌, ◌∷◌, [], filter, String, Option, ℕ, ◌==◌, split, ◌||◌, trim,
  Bool, join, not,
}

-- What the language gives: `encodeURIComponent`, `decodeURIComponent`, which throws on a text that no
-- code gives, and the decimal text of a number.
pub record Web : Type 0 where
  pub encode_uri : String → String
  pub decode_uri : String → Option String
  pub decimal : ℕ → String

abbrev pub session_cookie : String
session_cookie = "software_oath_session"

abbrev pub state_cookie : String
state_cookie = "software_oath_oauth_state"

-- The key and the value of an entry, if neither is empty. What follows a second `=` is not read.
abbrev pub pair_of : List String → Option (String × String)
pair_of (key ∷ value ∷ _) = if key == "" || value == "" then none else some (key, value)
pair_of _ = none

-- `none` where the code of a value is broken, whichever cookie it belongs to.
unfoldable pub read_entries : Web → List String → Option (List (String × String))
read_entries web [] = some []
read_entries web (entry ∷ entries) = elim (pair_of (split b'=' (trim entry))) [
  | none ↦ read_entries web entries
  | some pair ↦ elim (web.decode_uri pair.1) [
    | none ↦ none
    | some value ↦ elim (read_entries web entries) [
      | none ↦ none
      | some pairs ↦ some ((pair.0, value) ∷ pairs)
    ]
  ]
]

-- `request.headers.cookie ?? ""`
unfoldable pub cookies : Web → Option String → Option (List (String × String))
cookies web header = read_entries web (split b';' (or_else header ""))

-- The value of a name: the last one, as `Object.fromEntries` keeps it.
unfoldable pub cookie_of : String → List (String × String) → Option String
cookie_of name [] = none
cookie_of name ((key, value) ∷ pairs) = elim (cookie_of name pairs) [
  | some later ↦ some later
  | none ↦ if key == name then some value else none
]

abbrev pub age_text : Web → Option ℕ → String
age_text web none = ""
age_text web (some age) = "Max-Age=" ++ web.decimal age

-- `cookie`: the text of a `Set-Cookie` header.
unfoldable pub cookie : Web → String → String → Option ℕ → Bool → String
cookie web name value max_age secure = join "; " (
    filter (λ s. not (s == ""))
      ((name ++ ("=" ++ web.encode_uri value))
        ∷ "Path=/"
        ∷ "HttpOnly"
        ∷ "SameSite=Lax"
        ∷ (if secure then "Secure" else "")
        ∷ age_text web max_age
        ∷ []))
