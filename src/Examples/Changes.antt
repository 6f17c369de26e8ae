-- ===== src/Examples/Changes.antt =====
-- The laws of the parser of git's status, for a new file and a renamed one.
use softwareoath.Base.{inl}
use softwareoath.Repair.GitStatus.Laws.{
  at_path, moved, gather, Entry, print_entries, parse_porcelain-print, IsPath,
}
use softwareoath.Repair.GitStatus.{status_paths, text_le, parse_porcelain_v1_z, GitStatusPaths}
use softwareoath.Base.Sort.{sort}
use softwareoath.Base.{List, ◌∷◌, [], ◌≡◌, arith, refl, ℕ, ◌<◌}

-- `?? a` and `R  b` from `a`.
abbrev two_entries : List Entry
two_entries = at_path b'?' b'?' (b'a' ∷ []) ∷ moved b'R' b' ' (b'b' ∷ []) (b'a' ∷ []) ∷ []

parse_porcelain-print_example :
    parse_porcelain_v1_z (print_entries two_entries)
    ≡ status_paths (record {
      changed_paths = sort text_le (gather ((b'a' ∷ []) ∷ (b'b' ∷ []) ∷ (b'a' ∷ []) ∷ []) []);
      untracked_paths = sort text_le (gather ((b'a' ∷ []) ∷ []) []);
    })
parse_porcelain-print_example = parse_porcelain-print two_entries (
  (omega arith, omega arith, (λ e. omega (arith, e)), one_letter b'a' (omega arith)),
  (
    (
      omega arith,
      omega arith,
      inl refl,
      one_letter b'b' (omega arith),
      one_letter b'a' (omega arith),
    ),
    tt,
  ),
)
  where
    one_letter : (c : ℕ) → 0 < c → IsPath (c ∷ [])
    one_letter c h = ((λ e. ground arith), (h, tt))

abbrev two_paths : GitStatusPaths
two_paths = record {
  changed_paths = (b'a' ∷ []) ∷ (b'b' ∷ []) ∷ [];
  untracked_paths = (b'a' ∷ []) ∷ [];
}
