-- ===== src/Auth/Cookies/Laws/Browser.antt =====
-- What a browser does with the headers that `cookie` writes: it keeps the pair before the first
-- semicolon, unless the header says that the cookie ends at once, and sends the pairs that it keeps
-- (src/control-plane/auth.ts, `cookie` and `cookies`).
use softwareoath.Auth.Cookies.Laws.{sent, IsWeb, IsName, sent-lacks}
use softwareoath.Auth.Cookies.{Web, cookie}
use softwareoath.Base.{
  List, [], ◌∷◌, Bool, join, trim, split, Option, trim_start, ◌==◌, none, All, ◌&&◌, if◌then◌else◌,
  some, lacks, has_no_space, false, any, ◌≡◌, true, split-lacks, split-append, ◌∙◌, ap,
  before_first, refl, ℕ, nat_eq, is_space, arith, trim-has_no_space, lacks-append,
  has_no_space-append, Bool-cases, inl, inr, eq_iff, sym,
}
use Prim.Native.String as Text
use Prim.Native.String.append
use Prim.Native.Char.{Char}
use Prim.Native.String.{String}

abbrev pub is_zero_age : List String → Bool
is_zero_age (key ∷ value ∷ _) = key == "Max-Age" && value == "0"
is_zero_age _ = false

-- Whether an attribute is an age of zero, which ends the cookie.
unfoldable pub is_ending : String → Bool
is_ending part = is_zero_age (split b'=' (trim part))

-- The pair of a header, if the cookie is kept.
abbrev pub kept_pair : List String → Option String
kept_pair [] = none
kept_pair (pair ∷ attributes) = if any is_ending attributes then none else some pair

abbrev pub add_pair : Option String → List String → List String
add_pair none pairs = pairs
add_pair (some pair) pairs = pair ∷ pairs

unfoldable pub kept_pairs : List String → List String
kept_pairs [] = []
kept_pairs (header ∷ headers) = add_pair (kept_pair (split b';' header)) (kept_pairs headers)

-- The header of the next request of a browser that had no cookies and got these headers, whose
-- names differ.
unfoldable pub sent_back : List String → String
sent_back headers = join "; " (kept_pairs headers)

abbrev after_space : List String → List String
after_space [] = []
after_space (p ∷ ps) = String.◌∷◌ " " p ∷ after_space ps

append-single : (c : Char) (s : String) → Text.◌++◌ (String.◌∷◌ c String.[]) s ≡ String.◌∷◌ c s
append-single c s = append.cons c String.[] s ∙ ap (λ t. String.◌∷◌ c t) (append.nil s)

append_assoc : (a b c : String) → Text.◌++◌ (Text.◌++◌ a b) c ≡ Text.◌++◌ a (Text.◌++◌ b c)
append_assoc String.[] b c =
    ap (λ s. Text.◌++◌ s c) (append.nil b) ∙ sym (append.nil (Text.◌++◌ b c))
append_assoc (String.◌∷◌ x a) b c =
    ap (λ s. Text.◌++◌ s c) (append.cons x a b)
    ∙ append.cons x (Text.◌++◌ a b) c
    ∙ ap (λ s. String.◌∷◌ x s) (append_assoc a b c)
    ∙ sym (append.cons x a (Text.◌++◌ b c))

split-join_space :
    (p : String) (ps : List String)
    → All (λ s. lacks b';' s ≡ true) (p ∷ ps)
    → split b';' (join "; " (p ∷ ps)) ≡ p ∷ after_space ps
unfolding join split
split-join_space p [] h = split-lacks b';' p h.0
split-join_space p (q ∷ qs) h =
    ap (λ s. split b';' (Text.◌++◌ p s))
      (append_assoc ";" " " (join "; " (q ∷ qs))
        ∙ append-single ";" (Text.◌++◌ " " (join "; " (q ∷ qs)))
        ∙ ap (λ s. String.◌∷◌ ";" s) (append-single " " (join "; " (q ∷ qs))))
    ∙ split-append b';' ";" p (String.◌∷◌ " " (join "; " (q ∷ qs))) refl h.0
    ∙ ap (λ ss. p ∷ before_first " " ss) (split-join_space q qs h.1)

trim-after_space : (p : String) → has_no_space p ≡ true → trim (String.◌∷◌ " " p) ≡ p
unfolding trim trim_start is_space
trim-after_space p h = unfold trim trim_start is_space in trim-has_no_space p h

any-after_space :
    (ps : List String)
    → All (λ s. has_no_space s ≡ true) ps
    → any is_ending (after_space ps) ≡ any (λ s. is_zero_age (split b'=' s)) ps
unfolding is_ending
any-after_space [] h = refl
any-after_space (p ∷ ps) h = ground (arith, trim-after_space p h.0, any-after_space ps h.1)

has_equals-full : (a b : String) → (Text.◌++◌ a (Text.◌++◌ "=" b) == "") ≡ false
has_equals-full a b = elim (Bool-cases (Text.◌++◌ a (Text.◌++◌ "=" b) == "")) [
  | inl e ↦ ground (
    arith,
    ap (lacks b'=') ((eq_iff (Text.◌++◌ a (Text.◌++◌ "=" b)) "").0 e),
    lacks-append b'=' a (Text.◌++◌ "=" b),
    lacks-append b'=' "=" b,
  )
  | inr e ↦ e
]

-- The attributes that a header gives after its pair.
abbrev attributes : Web → ℕ → Bool → List String
attributes web age true =
    "Path=/" ∷ "HttpOnly" ∷ "SameSite=Lax" ∷ "Secure" ∷ Text.◌++◌ "Max-Age=" (web.decimal age) ∷ []
attributes web age false =
    "Path=/" ∷ "HttpOnly" ∷ "SameSite=Lax" ∷ Text.◌++◌ "Max-Age=" (web.decimal age) ∷ []

age_full : (web : Web) (age : ℕ) → (Text.◌++◌ "Max-Age=" (web.decimal age) == "") ≡ false
age_full web age =
    ap (λ s. s == "") (append_assoc "Max-Age" "=" (web.decimal age))
    ∙ has_equals-full "Max-Age" (web.decimal age)

cookie-attributes :
    (web : Web) (name value : String) (age : ℕ) (secure : Bool)
    → cookie web name value (some age) secure
      ≡ join "; " (sent web name value ∷ attributes web age secure)
unfolding cookie sent join
cookie-attributes web name value age true =
    rw (has_equals-full name (web.encode_uri value), age_full web age) refl
cookie-attributes web name value age false =
    rw (has_equals-full name (web.encode_uri value), age_full web age) refl

age-lacks :
    (web : Web) (age : ℕ) → IsWeb web → lacks b';' (Text.◌++◌ "Max-Age=" (web.decimal age)) ≡ true
age-lacks web age laws =
    ground (arith, lacks-append b';' "Max-Age=" (web.decimal age), laws.decimal_lacks age)

age-no_space :
    (web : Web) (age : ℕ) → IsWeb web → has_no_space (Text.◌++◌ "Max-Age=" (web.decimal age)) ≡ true
unfolding is_space
age-no_space web age laws =
    ground (arith, has_no_space-append "Max-Age=" (web.decimal age), laws.decimal_no_space age)

split-age :
    (web : Web) (age : ℕ)
    → IsWeb web
    → split b'=' (Text.◌++◌ "Max-Age=" (web.decimal age)) ≡ "Max-Age" ∷ web.decimal age ∷ []
split-age web age laws =
    ap (split b'=') (
      append_assoc "Max-Age" "=" (web.decimal age)
      ∙ ap (λ s. Text.◌++◌ "Max-Age" s) (append-single "=" (web.decimal age)))
    ∙ split-append b'=' "=" "Max-Age" (web.decimal age) refl refl
    ∙ ap (λ ss. "Max-Age" ∷ ss) (split-lacks b'=' (web.decimal age) (laws.decimal_lacks_equals age))

any-attributes :
    (web : Web) (age : ℕ) (secure : Bool)
    → IsWeb web
    → any (λ s. is_zero_age (split b'=' s)) (attributes web age secure) ≡ nat_eq age 0
unfolding split
any-attributes web age true laws = ground (arith, split-age web age laws, laws.decimal_zero age)
any-attributes web age false laws = ground (arith, split-age web age laws, laws.decimal_zero age)

attributes-no_space :
    (web : Web) (age : ℕ) (secure : Bool)
    → IsWeb web
    → All (λ s. has_no_space s ≡ true) (attributes web age secure)
unfolding is_space
attributes-no_space web age true laws =
    (refl, (refl, (refl, (refl, (age-no_space web age laws, tt)))))
attributes-no_space web age false laws = (refl, (refl, (refl, (age-no_space web age laws, tt))))

attributes-lacks :
    (web : Web) (age : ℕ) (secure : Bool)
    → IsWeb web
    → All (λ s. lacks b';' s ≡ true) (attributes web age secure)
attributes-lacks web age true laws = (refl, (refl, (refl, (refl, (age-lacks web age laws, tt)))))
attributes-lacks web age false laws = (refl, (refl, (refl, (age-lacks web age laws, tt))))

-- A browser keeps the pair that `cookie` writes unless its age is zero.
pub kept_pair-cookie :
    (web : Web) (name value : String) (age : ℕ) (secure : Bool)
    → IsWeb web
    → IsName name
    → kept_pair (split b';' (cookie web name value (some age) secure))
      ≡ (if nat_eq age 0 then none else some (sent web name value))
kept_pair-cookie web name value age secure laws named =
    let parts = attributes web age secure in
    ap (λ s. kept_pair (split b';' s)) (cookie-attributes web name value age secure)
    ∙ ap kept_pair (
        split-join_space (sent web name value) parts
          ((sent-lacks web name value laws named).0, attributes-lacks web age secure laws))
    ∙ ap (λ b. if b then none else some (sent web name value))
        (any-after_space parts (attributes-no_space web age secure laws)
          ∙ any-attributes web age secure laws)

kept_pair-lasting :
    (web : Web) (name value : String) (age : ℕ) (secure : Bool)
    → IsWeb web
    → IsName name
    → nat_eq age 0 ≡ false
    → kept_pair (split b';' (cookie web name value (some age) secure)) ≡ some (sent web name value)
kept_pair-lasting web name value age secure laws named lasts =
    kept_pair-cookie web name value age secure laws named
    ∙ ap (λ b. if b then none else some (sent web name value)) lasts

-- A browser that got one cookie sends that cookie, if its age is not zero.
pub sent_back-cookie :
    (web : Web) (name value : String) (age : ℕ) (secure : Bool)
    → IsWeb web
    → IsName name
    → nat_eq age 0 ≡ false
    → sent_back (cookie web name value (some age) secure ∷ []) ≡ sent web name value
unfolding sent_back kept_pairs join
sent_back-cookie web name value age secure laws named lasts =
    ap (λ o. join "; " (add_pair o []))
      (kept_pair-lasting web name value age secure laws named lasts)

-- A browser that got a cookie with an age and one that ends at once sends the first only.
pub sent_back-cookie_and_end :
    (web : Web) (name value other : String) (age : ℕ) (secure : Bool)
    → IsWeb web
    → IsName name
    → IsName other
    → nat_eq age 0 ≡ false
    → sent_back (cookie web name value (some age) secure ∷ cookie web other "" (some 0) secure ∷ [])
      ≡ sent web name value
unfolding sent_back kept_pairs join
sent_back-cookie_and_end web name value other age secure laws named other_named lasts =
    let ended = kept_pair (split b';' (cookie web other "" (some 0) secure)) in
    ap (λ o. join "; " (add_pair o (add_pair ended [])))
      (kept_pair-lasting web name value age secure laws named lasts)
    ∙ ap (λ o. join "; " (sent web name value ∷ add_pair o []))
        (kept_pair-cookie web other "" 0 secure laws other_named)
