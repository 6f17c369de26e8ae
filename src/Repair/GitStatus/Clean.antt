-- ===== src/Repair/GitStatus/Clean.antt =====
-- What the parser of git's status gives back of any text (src/repair/git-status.ts).
use softwareoath.Base.Sort.{sort, All-sort, any-sort}
use softwareoath.Base.{any, Bool-cases, All-map, any-append, inl, inr, All-append, subst}
use softwareoath.Repair.GitStatus.{
  Text, split_zero, Seen, parse_fields, parse_porcelain_v1_z, note, add, parsed, status_paths,
  text_le, sorted_paths, is_untracked, text_eq, GitStatusPaths, Parsed, invalid_record,
  incomplete_rename,
}
use softwareoath.Base.{ℕ, List, ◌≢◌, ◌∷◌, [], All, ◌≡◌, arith, true, refl, ◌∙◌}
use softwareoath.Repair.GitStatus.Laws.{text_eq_refl}

-- What a set holds that the loop has filled.
IsClean : Seen → Type 0
IsClean seen =
    All (λ p. p ≢ []) seen.changed × All (λ p. any (text_eq p) seen.changed ≡ true) seen.untracked

any-add :
    (p q : Text) (set : List Text) → any (text_eq p) set ≡ true → any (text_eq p) (add q set) ≡ true
any-add p q set h = ground (arith, any-append (text_eq p) set (q ∷ []), h)

any-add_self : (p : Text) (set : List Text) → any (text_eq p) (add p set) ≡ true
any-add_self p set = ground (arith, any-append (text_eq p) set (p ∷ []), text_eq_refl p)

All-add {κ} : (P : Text → Type κ) (p : Text) (set : List Text) → All P set → P p → All P (add p set)
All-add P p set h k = elim (Bool-cases (any (text_eq p) set)) [
  | inl known ↦ rw known h
  | inr new ↦ rw new (All-append P set (p ∷ []) h (k, tt))
]

widen-IsClean :
    (q : Text) (seen : Seen)
    → q ≢ []
    → IsClean seen
    → IsClean (record seen { changed = add q seen.changed })
unfolding IsClean
widen-IsClean q seen full h = (
  All-add (λ p. p ≢ []) q seen.changed h.0 full,
  All-map (λ p. any (text_eq p) seen.changed ≡ true)
      (λ p. any (text_eq p) (add q seen.changed) ≡ true) seen.untracked
      (λ p k. any-add p q seen.changed k) h.1,
)

note-IsClean :
    (x y : ℕ) (q : Text) (seen : Seen) → q ≢ [] → IsClean seen → IsClean (note x y q seen)
note-IsClean x y q seen full h = elim (Bool-cases (is_untracked x y)) [
  | inl new ↦
      unfold IsClean in
      rw new (
        (widen-IsClean q seen full h).0,
        All-add (λ p. any (text_eq p) (add q seen.changed) ≡ true) q seen.untracked
            (widen-IsClean q seen full h).1 (any-add_self q seen.changed),
      )
  | inr old ↦ unfold IsClean in rw old (widen-IsClean q seen full h)
]

parse_fields-IsClean :
    (fields : List Text) (seen : Seen) {r : Seen}
    → IsClean seen
    → parse_fields fields seen ≡ parsed r
    → IsClean r
unfolding parse_fields
parse_fields-IsClean [] seen h e = ground (arith, e, h)
parse_fields-IsClean ([] ∷ fields) seen h e = parse_fields-IsClean fields seen h e
parse_fields-IsClean ((x ∷ []) ∷ fields) seen h e = ground arith
parse_fields-IsClean ((x ∷ y ∷ []) ∷ fields) seen h e = ground arith
parse_fields-IsClean ((x ∷ y ∷ b ∷ []) ∷ fields) seen h e = ground arith
parse_fields-IsClean ((x ∷ y ∷ blank ∷ a ∷ path) ∷ []) seen h e =
    ground (arith, e, note-IsClean x y (a ∷ path) seen (ground arith) h)
parse_fields-IsClean ((x ∷ y ∷ blank ∷ a ∷ path) ∷ [] ∷ fields) seen {r} h e =
    let noted_clean = note-IsClean x y (a ∷ path) seen (ground arith) h in
    let rest = parse_fields-IsClean fields (note x y (a ∷ path) seen) {r = r} noted_clean in
    ground (arith, e, rest)
parse_fields-IsClean ((x ∷ y ∷ blank ∷ a ∷ path) ∷ (b ∷ next) ∷ fields) seen {r} h e =
    let noted_seen = note x y (a ∷ path) seen in
    let noted_clean = note-IsClean x y (a ∷ path) seen (ground arith) h in
    let plain = parse_fields-IsClean ((b ∷ next) ∷ fields) noted_seen {r = r} noted_clean in
    let renamed =
      parse_fields-IsClean fields
        (record noted_seen { changed = add (b ∷ next) noted_seen.changed }) {r = r}
        (widen-IsClean (b ∷ next) noted_seen (ground arith) noted_clean) in
    ground (arith, e, plain, renamed)

sorted_clean :
    (seen : Seen)
    → IsClean seen
    → All (λ p. p ≢ []) (sort text_le seen.changed)
      × All (λ p. any (text_eq p) (sort text_le seen.changed) ≡ true) (sort text_le seen.untracked)
unfolding IsClean
sorted_clean seen h = (
  All-sort text_le (λ p. p ≢ []) seen.changed h.0,
  All-sort text_le (λ p. any (text_eq p) (sort text_le seen.changed) ≡ true) seen.untracked
      (All-map (λ p. any (text_eq p) seen.changed ≡ true)
        (λ p. any (text_eq p) (sort text_le seen.changed) ≡ true) seen.untracked
        (λ p k. any-sort text_le (text_eq p) seen.changed ∙ k) h.1),
)

-- Whatever git prints, no path that is given back is empty, and each untracked path is one of the
-- changed ones.
pub parse_porcelain-IsClean :
    (output : Text) {paths : GitStatusPaths}
    → parse_porcelain_v1_z output ≡ status_paths paths
    → All (λ p. p ≢ []) paths.changed_paths
      × All (λ p. any (text_eq p) paths.changed_paths ≡ true) paths.untracked_paths
unfolding parse_porcelain_v1_z
parse_porcelain-IsClean output {paths} e =
    of_result (parse_fields (split_zero output) empty_sets) refl e
  where
    empty_sets : Seen
    empty_sets = record { changed = []; untracked = [] }

    of_result :
        (o : Parsed)
        → parse_fields (split_zero output) empty_sets ≡ o
        → sorted_paths o ≡ status_paths paths
        → All (λ p. p ≢ []) paths.changed_paths
          × All (λ p. any (text_eq p) paths.changed_paths ≡ true) paths.untracked_paths
    of_result (parsed seen) is at =
        let clean =
          parse_fields-IsClean (split_zero output) empty_sets (unfold IsClean in (tt, tt)) is in
        subst
          (λ (r : GitStatusPaths).
            All (λ p. p ≢ []) r.changed_paths
            × All (λ p. any (text_eq p) r.changed_paths ≡ true) r.untracked_paths)
          (cc at) (sorted_clean seen clean)
    of_result invalid_record is at = ground arith
    of_result incomplete_rename is at = ground arith
