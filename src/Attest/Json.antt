-- ===== src/Attest/Json.antt =====
-- `canonicalJson` (src/repair/signature.ts), over the values of JSON.
use softwareoath.Base.{String}
use Prim.Native.Char.{code}
use softwareoath.Records.Values.{Number}
use softwareoath.Repair.GitStatus.{Text}
use softwareoath.Base.Sort.{sort}
use softwareoath.Base.{◌++◌, map, true, false, List, [], ◌∷◌, Bool}

-- A member of an object may have the value undefined.
mutual
  pub data Json : Type 0 where
    json_null : Json
    json_bool : Bool → Json
    json_number : Number → Json
    json_text : Text → Json
    json_array : Items → Json
    json_object : Members → Json

  pub data Items : Type 0 where
    no_items : Items
    item : Json → Items → Items

  pub data Members : Type 0 where
    no_members : Members
    member : Text → Json → Members → Members
    undefined_member : Text → Members → Members

-- What the language gives: `JSON.stringify` of a number and of a text, and whether
-- `left.localeCompare(right)` is at most 0.
pub record Writing : Type 0 where
  pub number_text : Number → Text
  pub quoted : Text → Text
  pub not_after : Text → Text → Bool

-- `texts.join(",")`
unfoldable pub commas : List Text → Text
commas [] = []
commas (t ∷ []) = t
commas (t ∷ u ∷ ts) = t ++ b',' ∷ commas (u ∷ ts)

abbrev pub by_name : Writing → Text × Text → Text × Text → Bool
by_name writing a b = writing.not_after a.0 b.0

-- The members that are defined, each with its text.
abbrev pub member_text : Writing → Text × Text → Text
member_text writing (key, text) = writing.quoted key ++ b':' ∷ text

unfoldable mutual
  pub canonical_json : Writing → Json → Text
  canonical_json writing json_null = b'n' ∷ b'u' ∷ b'l' ∷ b'l' ∷ []
  canonical_json writing (json_bool true) = b't' ∷ b'r' ∷ b'u' ∷ b'e' ∷ []
  canonical_json writing (json_bool false) = b'f' ∷ b'a' ∷ b'l' ∷ b's' ∷ b'e' ∷ []
  canonical_json writing (json_number n) = writing.number_text n
  canonical_json writing (json_text s) = writing.quoted s
  canonical_json writing (json_array items) =
      b'[' ∷ (commas (item_texts writing items) ++ b']' ∷ [])
  canonical_json writing (json_object members) =
      b'{'
      ∷ (commas (map (member_text writing) (sort (by_name writing) (entries writing members)))
          ++ b'}' ∷ [])

  pub item_texts : Writing → Items → List Text
  item_texts writing no_items = []
  item_texts writing (item value items) = canonical_json writing value ∷ item_texts writing items

  pub entries : Writing → Members → List (Text × Text)
  entries writing no_members = []
  entries writing (member key value members) =
      (key, canonical_json writing value) ∷ entries writing members
  entries writing (undefined_member key members) = entries writing members

-- The units of a text of the program, each of whose letters is one unit.
abbrev pub units : String → Text
units String.[] = []
units (String.◌∷◌ c s) = code c ∷ units s
