-- ===== src/Oath/Text.antt =====
-- The tests on texts that the parser of an oath makes (src/domain/oath.ts).
use Prim.Native.Char.{code}
use softwareoath.Base.{ℕ, String, Bool, true, false, ◌&&◌, ◌||◌, ◌==◌, leb, is_space}
use text.Mathlib.Text.{starts_with}

-- `text.trim() === ""`
unfoldable pub is_blank : String → Bool
is_blank String.[] = true
is_blank (String.◌∷◌ c s) = is_space (code c) && is_blank s

-- `text.includes(part)`
unfoldable pub includes : String → String → Bool
includes String.[] part = part == ""
includes (String.◌∷◌ c s) part = starts_with (String.◌∷◌ c s) part || includes s part

abbrev is_upper : ℕ → Bool
is_upper c = leb b'A' c && leb c b'Z'

-- `/^[A-Z]{3}$/`
unfoldable pub is_currency : String → Bool
is_currency (String.◌∷◌ a (String.◌∷◌ b (String.◌∷◌ c String.[]))) =
    is_upper (code a) && is_upper (code b) && is_upper (code c)
is_currency _ = false

-- A path that leaves the repository, or may: absolute, or with two dots in it.
unfoldable pub is_foreign_path : String → Bool
unfolding includes
is_foreign_path path = starts_with path "/" || includes path ".."
