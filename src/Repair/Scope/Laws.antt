-- ===== src/Repair/Scope/Laws.antt =====
-- What it means that a change is in scope (src/repair/run.ts).
use softwareoath.Repair.Scope.{
  is_protected, is_allowed, within_allowed_scope, starts_with, without_dot_slash, with_slashes,
  is_protected_repair_path,
}
use softwareoath.Base.{
  ◌∷◌, String, [], List, ◌≢◌, ◌≡◌, false, ◌⊎◌, true, arith, All, eq_iff, every, Bool-cases, not,
  ◌==◌, inl, ◌&&◌, inr, refl,
}
use text.Mathlib.TextEquality.{starts_with_iff}
use text.Mathlib.TextBridge.{IsPrefix}
use mathlib.Core.List.{Memᴰ}
use Prim.Native.String

-- A path of a control file, once its separators are slashes and a leading "./" is gone.
pub record IsOrdinary (path : String) : Type 0 where
  pub no_oath : path ≢ "software-oath.yml"
  pub no_owners : (path ≢ "CODEOWNERS") × (path ≢ ".github/CODEOWNERS")
  pub no_state : (path ≢ ".software-oath") × ¬ IsPrefix ".software-oath/" path
  pub no_workflow : (path ≢ ".github/workflows") × ¬ IsPrefix ".github/workflows/" path

IsOrdinary-of : (path : String) → is_protected path ≡ false → IsOrdinary path
unfolding is_protected
IsOrdinary-of path h = record {
  no_oath = λ e. ground (arith, eq_iff path "software-oath.yml");
  no_owners = (
    λ e. ground (arith, eq_iff path "CODEOWNERS"),
    λ e. ground (arith, eq_iff path ".github/CODEOWNERS"),
  );
  no_state = (
    λ e. ground (arith, eq_iff path ".software-oath"),
    λ e. refuse ".software-oath/" ((starts_with_iff path ".software-oath/").1 e) (ground arith),
  );
  no_workflow = (
    λ e. ground (arith, eq_iff path ".github/workflows"),
    λ e.
        refuse ".github/workflows/" ((starts_with_iff path ".github/workflows/").1 e)
          (ground arith),
  );
}
  where
    refuse : (p : String) → starts_with path p ≡ true → starts_with path p ≡ false → ⊥
    refuse p a b = cc

-- The path is an allowed path, or lies below one.
abbrev pub IsBelow : String → String → Type 0
IsBelow path allowed = (path ≡ allowed) ⊎ IsPrefix (String.◌++◌ allowed "/") path

is_allowed_lem :
    (path : String) (allowed_paths : List String)
    → is_allowed path allowed_paths ≡ true
    → (allowed : String) × Memᴰ allowed allowed_paths × IsBelow path allowed
unfolding is_allowed
is_allowed_lem path [] h = absurd (cc)
is_allowed_lem path (a ∷ rest) h = elim (Bool-cases (path == a)) [
  | inl e ↦ (a, Memᴰ.head refl, inl ((eq_iff path a).0 e))
  | inr n ↦ elim (Bool-cases (starts_with path (String.◌++◌ a "/"))) [
    | inl e ↦ (a, Memᴰ.head refl, inr ((starts_with_iff path (String.◌++◌ a "/")).0 e))
    | inr m ↦
        let (b, member, below) = is_allowed_lem path rest (ground arith) in
        (b, Memᴰ.tail member, below)
  ]
]

-- A change in scope touches a file, and each file that it touches is no control file, under any
-- spelling with "\" or a leading "./", and is an allowed path or lies below one.
pub within_allowed_scope_lem :
    (changed allowed_paths : List String)
    → within_allowed_scope changed allowed_paths ≡ true
    → (changed ≢ [])
      × All
          (λ path.
            IsOrdinary (without_dot_slash (with_slashes path))
            × ((allowed : String) × Memᴰ allowed allowed_paths × IsBelow path allowed))
          changed
unfolding within_allowed_scope
within_allowed_scope_lem changed allowed_paths h = (λ e. ground arith, each changed (ground arith))
  where
    each :
        (paths : List String)
        → every (λ path. not (is_protected_repair_path path) && is_allowed path allowed_paths) paths
          ≡ true
        → All
            (λ path.
              IsOrdinary (without_dot_slash (with_slashes path))
              × ((allowed : String) × Memᴰ allowed allowed_paths × IsBelow path allowed))
            paths
    each [] e = tt
    each (p ∷ ps) e = (
      (
        IsOrdinary-of (without_dot_slash (with_slashes p)) (ground arith),
        is_allowed_lem p allowed_paths (ground arith),
      ),
      each ps (ground arith),
    )
