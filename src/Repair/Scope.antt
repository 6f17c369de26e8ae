-- ===== src/Repair/Scope.antt =====
-- Which paths a repair may change: `isProtectedRepairPath`, `isAllowed` and the check of the changed
-- files (src/repair/run.ts).
pub mod Laws
use Prim.Native.Char.{Char, code}
use Prim.Native.String
use softwareoath.Base.{
  ℕ, String, Bool, true, false, not, ◌&&◌, ◌||◌, List, [], ◌∷◌, any, every, ◌==◌, nat_eq,
  if◌then◌else◌,
}
use text.Mathlib.Text.{starts_with}

-- `path.replaceAll("\\", "/")`
unfoldable pub with_slashes : String → String
with_slashes String.[] = String.[]
with_slashes (String.◌∷◌ c s) = String.◌∷◌ (if nat_eq (code c) 92 then "/" else c) (with_slashes s)

-- `path.replace(/^\.\//, "")`
unfoldable pub without_dot_slash : String → String
without_dot_slash String.[] = String.[]
without_dot_slash (String.◌∷◌ c String.[]) = String.◌∷◌ c String.[]
without_dot_slash (String.◌∷◌ c (String.◌∷◌ d s)) =
    if nat_eq (code c) b'.' && nat_eq (code d) b'/' then s else String.◌∷◌ c (String.◌∷◌ d s)

unfoldable pub is_protected : String → Bool
is_protected path =
    path == "software-oath.yml"
    || path == "CODEOWNERS"
    || path == ".github/CODEOWNERS"
    || path == ".software-oath"
    || starts_with path ".software-oath/"
    || path == ".github/workflows"
    || starts_with path ".github/workflows/"

unfoldable pub is_protected_repair_path : String → Bool
unfolding with_slashes without_dot_slash is_protected
is_protected_repair_path path = is_protected (without_dot_slash (with_slashes path))

unfoldable pub is_allowed : String → List String → Bool
is_allowed path allowed_paths =
    any (λ allowed. path == allowed || starts_with path (String.◌++◌ allowed "/")) allowed_paths

abbrev pub has_files : List String → Bool
has_files [] = false
has_files (_ ∷ _) = true

unfoldable pub within_allowed_scope : List String → List String → Bool
unfolding is_protected_repair_path is_allowed
within_allowed_scope changed_files allowed_paths =
    has_files changed_files
    && every (λ path. not (is_protected_repair_path path) && is_allowed path allowed_paths)
        changed_files
