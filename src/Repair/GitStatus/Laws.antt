-- ===== src/Repair/GitStatus/Laws.antt =====
-- Printing and parsing together (src/repair/git-status.ts).
use softwareoath.Base.Sort.{sort}
use softwareoath.Base.{if◌then◌else◌, ◌⊎◌}
use softwareoath.Repair.GitStatus.{
  Text, split_zero, Seen, parse_fields, parse_porcelain_v1_z, is_rename, note, add, parsed,
  status_paths, text_le, sorted_paths, is_untracked, text_eq,
}
use softwareoath.Base.{
  ℕ, ◌<◌, List, ◌≢◌, ◌∷◌, [], All, ◌≡◌, false, ◌++◌, arith, true, refl, ◌∙◌, ap,
}

-- What git has to say of one path, or of a path and the one that it had before.
pub data Entry : Type 0 where
  at_path : ℕ → ℕ → Text → Entry
  moved : ℕ → ℕ → Text → Text → Entry

abbrev pub IsPath : Text → Type 0
IsPath path = (path ≢ []) × All (λ c. 0 < c) path

-- A status of a file that was renamed or copied, in the index or in the work tree.
abbrev pub IsMove : ℕ → ℕ → Type 0
IsMove x y = (x ≡ b'R') ⊎ ((y ≡ b'R') ⊎ ((x ≡ b'C') ⊎ (y ≡ b'C')))

IsMove→is_rename : (x y : ℕ) → IsMove x y → is_rename x y ≡ true
IsMove→is_rename x y h = ground (arith, h)

not_IsMove→is_rename : (x y : ℕ) → ¬ IsMove x y → is_rename x y ≡ false
not_IsMove→is_rename x y h = ground (arith, h)

-- The two letters of a status, and paths without the unit 0. A renamed or copied file has two.
abbrev pub IsEntry : Entry → Type 0
IsEntry (at_path x y path) = (0 < x) × (0 < y) × (¬ IsMove x y) × IsPath path
IsEntry (moved x y path original) = (0 < x) × (0 < y) × IsMove x y × IsPath path × IsPath original

-- What git prints before a text: each field ends with the unit 0.
unfoldable pub print_entry : Entry → Text → Text
print_entry (at_path x y path) rest = x ∷ y ∷ b' ' ∷ (path ++ 0 ∷ rest)
print_entry (moved x y path original) rest = x ∷ y ∷ b' ' ∷ (path ++ 0 ∷ (original ++ 0 ∷ rest))

unfoldable pub print_entries : List Entry → Text
print_entries [] = []
print_entries (e ∷ es) = print_entry e (print_entries es)

abbrev pub paths_of : List Entry → List Text
paths_of [] = []
paths_of (at_path x y path ∷ es) = path ∷ paths_of es
paths_of (moved x y path original ∷ es) = path ∷ original ∷ paths_of es

abbrev pub untracked_of : List Entry → List Text
untracked_of [] = []
untracked_of (at_path x y path ∷ es) =
    let rest = untracked_of es in if is_untracked x y then path ∷ rest else rest
untracked_of (moved x y path original ∷ es) =
    let rest = untracked_of es in if is_untracked x y then path ∷ rest else rest

-- The elements without repetition, each where it comes first.
unfoldable pub gather : List Text → List Text → List Text
gather [] set = set
gather (p ∷ ps) set = gather ps (add p set)

split_zero-field :
    (field rest : Text)
    → All (λ c. 0 < c) field
    → split_zero (field ++ 0 ∷ rest) ≡ field ∷ split_zero rest
unfolding split_zero
split_zero-field [] rest h = refl
split_zero-field (c ∷ field) rest h = ground (arith, split_zero-field field rest h.1, h.0)

fields_of : Entry → List Text → List Text
fields_of (at_path x y path) rest = (x ∷ y ∷ b' ' ∷ path) ∷ rest
fields_of (moved x y path original) rest = (x ∷ y ∷ b' ' ∷ path) ∷ original ∷ rest

split_zero-print_entry :
    (e : Entry) (rest : Text)
    → IsEntry e
    → split_zero (print_entry e rest) ≡ fields_of e (split_zero rest)
unfolding print_entry fields_of
split_zero-print_entry (at_path x y path) rest (hx, hy, _, p) =
    split_zero-field (x ∷ y ∷ b' ' ∷ path) rest (hx, (hy, (omega arith, p.1)))
split_zero-print_entry (moved x y path original) rest (hx, hy, _, p, o) =
    split_zero-field (x ∷ y ∷ b' ' ∷ path) (original ++ 0 ∷ rest) (hx, (hy, (omega arith, p.1)))
    ∙ ap (λ (fs : List Text). (x ∷ y ∷ b' ' ∷ path) ∷ fs) (split_zero-field original rest o.1)

-- What the loop makes of the fields of an entry, whatever follows.
noted : Entry → Seen → Seen
noted (at_path x y path) seen = note x y path seen
noted (moved x y path original) seen =
    let first = note x y path seen in record first { changed = add original first.changed }

parse_fields-entry :
    (e : Entry) (fields : List Text) (seen : Seen)
    → IsEntry e
    → parse_fields (fields_of e fields) seen ≡ parse_fields fields (noted e seen)
unfolding parse_fields fields_of noted
parse_fields-entry (at_path x y []) fields seen (_, _, _, p) = absurd (p.0 refl)
parse_fields-entry (at_path x y (a ∷ path)) [] seen (_, _, kind, p) =
    ground (arith, not_IsMove→is_rename x y kind)
parse_fields-entry (at_path x y (a ∷ path)) ([] ∷ fields) seen (_, _, kind, p) =
    ground (arith, not_IsMove→is_rename x y kind)
parse_fields-entry (at_path x y (a ∷ path)) ((b ∷ next) ∷ fields) seen (_, _, kind, p) =
    ground (arith, not_IsMove→is_rename x y kind)
parse_fields-entry (moved x y [] original) fields seen (_, _, _, p, _) = absurd (p.0 refl)
parse_fields-entry (moved x y (a ∷ path) []) fields seen (_, _, _, _, o) = absurd (o.0 refl)
parse_fields-entry (moved x y (a ∷ path) (b ∷ next)) fields seen (_, _, kind, _, _) =
    ground (arith, IsMove→is_rename x y kind)

gather-noted :
    (e : Entry) (es : List Entry) (seen : Seen)
    → (gather (paths_of es) (noted e seen).changed ≡ gather (paths_of (e ∷ es)) seen.changed)
      × (gather (untracked_of es) (noted e seen).untracked
          ≡ gather (untracked_of (e ∷ es)) seen.untracked)
unfolding gather noted
gather-noted (at_path x y path) es seen = (refl, ground arith)
gather-noted (moved x y path original) es seen = (refl, ground arith)

parse_fields-print :
    (es : List Entry) (seen : Seen)
    → All IsEntry es
    → parse_fields (split_zero (print_entries es)) seen
      ≡ parsed (record {
        changed = gather (paths_of es) seen.changed;
        untracked = gather (untracked_of es) seen.untracked;
      })
unfolding print_entries gather
parse_fields-print [] seen h = unfold split_zero parse_fields in refl
parse_fields-print (e ∷ es) seen h =
    ap (λ fs. parse_fields fs seen) (split_zero-print_entry e (print_entries es) h.0)
    ∙ parse_fields-entry e (split_zero (print_entries es)) seen h.0
    ∙ parse_fields-print es (noted e seen) h.1
    ∙ (let same = gather-noted e es seen in cc (same.0, same.1))

-- What git prints of entries is read back: the changed paths are the paths of the entries, old and new,
-- and the untracked ones those of the status `??`, each once and sorted.
pub parse_porcelain-print :
    (es : List Entry)
    → All IsEntry es
    → parse_porcelain_v1_z (print_entries es)
      ≡ status_paths (record {
        changed_paths = sort text_le (gather (paths_of es) []);
        untracked_paths = sort text_le (gather (untracked_of es) []);
      })
unfolding parse_porcelain_v1_z
parse_porcelain-print es h =
    ap sorted_paths (parse_fields-print es (record { changed = []; untracked = [] }) h)

pub text_eq→path : (a b : Text) → text_eq a b ≡ true → a ≡ b
unfolding text_eq
text_eq→path [] [] h = refl
text_eq→path [] (y ∷ b) h = ground arith
text_eq→path (x ∷ a) [] h = ground arith
text_eq→path (x ∷ a) (y ∷ b) h = ground (arith, text_eq→path a b)

pub text_eq_refl : (p : Text) → text_eq p p ≡ true
unfolding text_eq
text_eq_refl [] = refl
text_eq_refl (x ∷ p) = ground (arith, text_eq_refl p)
