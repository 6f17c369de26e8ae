-- ===== src/Base/Texts.antt =====
-- Operations of the language on texts: `split`, `trim().split(/\s+/)`, `join`, `slice`.
use mathlib.Core.Path.{◌≡◌, refl, ap, ◌∙◌}
use softwareoath.Base.Lists.{All}
use mathlib.Core.Bool.{Bool, ◌&&◌, ◌||◌, not}
use native.Mathlib.Omega.{arith}
use Prim.Native.String.{String, ◌++◌}
use text.Mathlib.Text.{◌==◌}
use Prim.Native.Char.{Char, code}
use Prim.Native.String.append
use softwareoath.Base.Tests.{leb, nat_eq, if◌then◌else◌}
use Prim.Native.Nat.{ℕ, zero, suc}
use mathlib.Core.List.{List, [], ◌∷◌}

-- The letter put before the first of the parts.
abbrev pub before_first : Char → List String → List String
before_first c [] = String.◌∷◌ c String.[] ∷ []
before_first c (p ∷ ps) = String.◌∷◌ c p ∷ ps

-- `text.split(separator)`, by the code of a separator of one letter.
unfoldable pub split : ℕ → String → List String
split at String.[] = "" ∷ []
split at (String.◌∷◌ c s) =
    let rest = split at s in if nat_eq (code c) at then "" ∷ rest else before_first c rest

-- White space and line ends as `trim` takes them away.
unfoldable pub is_space : ℕ → Bool
is_space c =
    (leb 9 c && leb c 13)
    || nat_eq c 32
    || nat_eq c 160
    || nat_eq c 0x1680
    || (leb 0x2000 c && leb c 0x200a)
    || nat_eq c 0x2028
    || nat_eq c 0x2029
    || nat_eq c 0x202f
    || nat_eq c 0x205f
    || nat_eq c 0x3000
    || nat_eq c 0xfeff

-- The words of a text, where `in_word` says that the text goes on with a word that has begun.
unfoldable pub words : Bool → String → List String
words in_word String.[] = if in_word then "" ∷ [] else []
words in_word (String.◌∷◌ c s) =
    let gap = words Bool.false s in
    let more = before_first c (words Bool.true s) in
    if is_space (code c) then (if in_word then "" ∷ gap else gap) else more

-- `parts.join(separator)`
unfoldable pub join : String → List String → String
join separator [] = ""
join separator (p ∷ []) = p
join separator (p ∷ ps) = p ++ (separator ++ join separator ps)

-- `text.slice(0, n)`, for a text of letters of one unit each.
unfoldable pub take_text : ℕ → String → String
take_text zero s = ""
take_text (suc n) String.[] = ""
take_text (suc n) (String.◌∷◌ c s) = String.◌∷◌ c (take_text n s)

-- The text without the white space before it.
unfoldable pub trim_start : String → String
trim_start String.[] = ""
trim_start (String.◌∷◌ c s) =
    let rest = trim_start s in if is_space (code c) then rest else String.◌∷◌ c s

-- The text without the white space after it.
unfoldable pub trim_end : String → String
trim_end String.[] = ""
trim_end (String.◌∷◌ c s) =
    let rest = trim_end s in if is_space (code c) && rest == "" then "" else String.◌∷◌ c rest

-- `text.trim()`
unfoldable pub trim : String → String
trim s = trim_end (trim_start s)

-- Whether no letter of a text has a code.
abbrev pub lacks : ℕ → String → Bool
lacks at String.[] = Bool.true
lacks at (String.◌∷◌ c s) = not (nat_eq (code c) at) && lacks at s

-- A text that lacks the separator is its own only part.
pub split-lacks : (at : ℕ) (s : String) → lacks at s ≡ Bool.true → split at s ≡ s ∷ []
unfolding split
split-lacks at String.[] h = refl
split-lacks at (String.◌∷◌ c s) h = ground (arith, split-lacks at s)

-- Two texts on either side of a separator that the first does not hold.
pub split-append :
    (at : ℕ) (c : Char) (a b : String)
    → code c ≡ at
    → lacks at a ≡ Bool.true
    → split at (a ++ String.◌∷◌ c b) ≡ a ∷ split at b
unfolding split
split-append at c String.[] b is h = ground (arith, is, append.nil (String.◌∷◌ c b))
split-append at c (String.◌∷◌ d a) b is h =
    ground (arith, is, append.cons d a (String.◌∷◌ c b), split-append at c a b is)

-- Parts that lack the separator are split as they were joined.
pub split-join :
    (at : ℕ) (c : Char) (p : String) (ps : List String)
    → code c ≡ at
    → All (λ s. lacks at s ≡ Bool.true) (p ∷ ps)
    → split at (join (String.◌∷◌ c String.[]) (p ∷ ps)) ≡ p ∷ ps
unfolding join
split-join at c p [] is h = split-lacks at p h.0
split-join at c p (q ∷ ps) is h =
    let after = join (String.◌∷◌ c String.[]) (q ∷ ps) in
    ap (λ s. split at (p ++ s)) (append.cons c String.[] after)
    ∙ ap (λ s. split at (p ++ String.◌∷◌ c s)) (append.nil after)
    ∙ split-append at c p after is h.0
    ∙ ap (λ ss. p ∷ ss) (split-join at c q ps is h.1)

pub lacks-append : (at : ℕ) (a b : String) → lacks at (a ++ b) ≡ (lacks at a && lacks at b)
lacks-append at String.[] b = ap (lacks at) (append.nil b)
lacks-append at (String.◌∷◌ c a) b =
    ap (lacks at) (append.cons c a b) ∙ ground (arith, lacks-append at a b)

-- Whether a text has no white space.
abbrev pub has_no_space : String → Bool
has_no_space String.[] = Bool.true
has_no_space (String.◌∷◌ c s) = not (is_space (code c)) && has_no_space s

pub has_no_space-append :
    (a b : String) → has_no_space (a ++ b) ≡ (has_no_space a && has_no_space b)
has_no_space-append String.[] b = ap has_no_space (append.nil b)
has_no_space-append (String.◌∷◌ c a) b =
    ap has_no_space (append.cons c a b) ∙ ground (arith, has_no_space-append a b)

trim_end-has_no_space : (s : String) → has_no_space s ≡ Bool.true → trim_end s ≡ s
unfolding trim_end
trim_end-has_no_space String.[] h = refl
trim_end-has_no_space (String.◌∷◌ c s) h = ground (arith, h, trim_end-has_no_space s)

-- A text without white space is trimmed to itself.
pub trim-has_no_space : (s : String) → has_no_space s ≡ Bool.true → trim s ≡ s
unfolding trim trim_start
trim-has_no_space String.[] h = unfold trim_end in refl
trim-has_no_space (String.◌∷◌ c s) h =
    ap trim_end (ground (arith, h)) ∙ trim_end-has_no_space (String.◌∷◌ c s) h
