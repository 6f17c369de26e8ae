-- ===== src/Repair/GitStatus.antt =====
-- The parser of `git status --porcelain=v1 -z` (src/repair/git-status.ts). A text is the list of its
-- 16-bit units, as the language indexes, slices and compares it.
pub mod Laws
pub mod Clean
use softwareoath.Base.{
  ℕ, Bool, true, false, ◌&&◌, ◌||◌, List, [], ◌∷◌, ◌++◌, any, nat_eq, ltb, if◌then◌else◌,
}
use softwareoath.Base.Sort.{sort}

abbrev pub Text : Type 0
Text = List ℕ

unfoldable pub text_eq : Text → Text → Bool
text_eq [] [] = true
text_eq [] (y ∷ ys) = false
text_eq (x ∷ xs) [] = false
text_eq (x ∷ xs) (y ∷ ys) = nat_eq x y && text_eq xs ys

-- The order of `sort` without a comparison: by the units.
unfoldable pub text_le : Text → Text → Bool
text_le [] ys = true
text_le (x ∷ xs) [] = false
text_le (x ∷ xs) (y ∷ ys) = ltb x y || (nat_eq x y && text_le xs ys)

abbrev pub onto_first : ℕ → List Text → List Text
onto_first c [] = (c ∷ []) ∷ []
onto_first c (p ∷ ps) = (c ∷ p) ∷ ps

-- `output.split("\0")`
unfoldable pub split_zero : Text → List Text
split_zero [] = [] ∷ []
split_zero (c ∷ s) = let rest = split_zero s in if nat_eq c 0 then [] ∷ rest else onto_first c rest

-- `set.add(path)`, over the elements in the order of their insertion.
abbrev pub add : Text → List Text → List Text
add path set = if any (text_eq path) set then set else set ++ path ∷ []

-- The two sets that the loop fills.
pub record Seen : Type 0 where
  pub changed : List Text
  pub untracked : List Text

pub data Parsed : Type 0 where
  parsed : Seen → Parsed
  invalid_record : Parsed
  incomplete_rename : Parsed

-- `status === "??"`
abbrev pub is_untracked : ℕ → ℕ → Bool
is_untracked x y = nat_eq x b'?' && nat_eq y b'?'

-- `status.includes("R") || status.includes("C")`
abbrev pub is_rename : ℕ → ℕ → Bool
is_rename x y = nat_eq x b'R' || nat_eq y b'R' || nat_eq x b'C' || nat_eq y b'C'

abbrev pub note : ℕ → ℕ → Text → Seen → Seen
note x y path seen = record {
  changed = add path seen.changed;
  untracked = if is_untracked x y then add path seen.untracked else seen.untracked;
}

-- The loop over the fields. A field of four units or more, with a blank as its third, has a path.
unfoldable pub parse_fields : List Text → Seen → Parsed
parse_fields [] seen = parsed seen
parse_fields ([] ∷ fields) seen = parse_fields fields seen
parse_fields ((x ∷ y ∷ blank ∷ a ∷ path) ∷ []) seen =
    if nat_eq blank b' '
    then (if is_rename x y then incomplete_rename else parsed (note x y (a ∷ path) seen))
    else invalid_record
parse_fields ((x ∷ y ∷ blank ∷ a ∷ path) ∷ [] ∷ fields) seen =
    let plain = parse_fields fields (note x y (a ∷ path) seen) in
    if nat_eq blank b' '
    then (if is_rename x y then incomplete_rename else plain)
    else invalid_record
parse_fields ((x ∷ y ∷ blank ∷ a ∷ path) ∷ (b ∷ next) ∷ fields) seen =
    let noted = note x y (a ∷ path) seen in
    let plain = parse_fields ((b ∷ next) ∷ fields) noted in
    let renamed = parse_fields fields (record noted { changed = add (b ∷ next) noted.changed }) in
    if nat_eq blank b' ' then (if is_rename x y then renamed else plain) else invalid_record
parse_fields (_ ∷ fields) seen = invalid_record

pub record GitStatusPaths : Type 0 where
  pub changed_paths : List Text
  pub untracked_paths : List Text

-- The paths, or the error that is thrown.
pub data Status : Type 0 where
  status_paths : GitStatusPaths → Status
  invalid_status : Status
  incomplete_status : Status

abbrev pub sorted_paths : Parsed → Status
sorted_paths (parsed seen) = status_paths (record {
  changed_paths = sort text_le seen.changed;
  untracked_paths = sort text_le seen.untracked;
})
sorted_paths invalid_record = invalid_status
sorted_paths incomplete_rename = incomplete_status

unfoldable pub parse_porcelain_v1_z : Text → Status
parse_porcelain_v1_z output =
    sorted_paths (parse_fields (split_zero output) (record { changed = []; untracked = [] }))
