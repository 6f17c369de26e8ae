-- ===== src/Records/Values.antt =====
-- Values of JavaScript that the records hold: numbers, instants, properties that may be absent.
use softwareoath.Base.{
  ℕ, suc, ◌%◌, String, ◌==◌, Bool, true, false, ◌&&◌, not, Option, none, some, nat_eq,
  if◌then◌else◌, ltb,
}

-- A number of the language. `finite s n d` is n / (d + 1), below 0 where `s` holds.
pub data Number : Type 0 where
  finite : Bool → ℕ → ℕ → Number
  infinite : Bool → Number
  nan : Number

-- `Number.isFinite`
unfoldable pub is_finite : Number → Bool
is_finite (finite _ _ _) = true
is_finite (infinite _) = false
is_finite nan = false

-- `Number.isInteger`
unfoldable pub is_integer : Number → Bool
is_integer (finite _ n d) = nat_eq (n % suc d) 0
is_integer (infinite _) = false
is_integer nan = false

-- `value < 0`
unfoldable pub is_negative : Number → Bool
is_negative (finite below n _) = below && ltb 0 n
is_negative (infinite below) = below
is_negative nan = false

-- `value <= 0`
unfoldable pub is_at_most_zero : Number → Bool
is_at_most_zero (finite below n _) = if below then true else nat_eq n 0
is_at_most_zero (infinite below) = below
is_at_most_zero nan = false

-- `value === 1`
unfoldable pub is_one : Number → Bool
is_one (finite below n d) = not below && nat_eq n (suc d)
is_one (infinite _) = false
is_one nan = false

-- An instant in milliseconds since 1970. The texts of `toISOString` have one width up to the year
-- 9999, so that their order as texts is the order of the instants.
abbrev pub Timestamp : Type 0
Timestamp = ℕ

-- An optional property of an argument: absent, present with the value undefined, or present.
abbrev pub Property : Type 0 → Type 0
Property A = Option (Option A)

-- What `Object.assign` leaves in an optional property.
abbrev pub assign : {A : Type 0} → Property A → Option A → Option A
assign none old = old
assign (some new) old = new

-- What a new object has there once it is written and read back: JSON drops an undefined property.
abbrev pub settle : {A : Type 0} → Property A → Option A
settle none = none
settle (some new) = new

abbrev pub or_else {ℓ} : {A : Type ℓ} → Option A → A → A
or_else none b = b
or_else (some a) b = a

-- A text that is absent or empty counts as false.
abbrev pub is_given : Option String → Bool
is_given none = false
is_given (some s) = not (s == "")
