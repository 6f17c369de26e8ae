-- ===== src/Base/Sort.antt =====
-- A stable sort, as `Array.prototype.sort` is, and its first element.
use softwareoath.Base.{List, ◌∷◌, []}
use Prim.Native.Nat.{ℕ, suc, ◌≤◌}
use mathlib.Core.Path.{◌≡◌, refl}
use mathlib.Core.Bool.{Bool, ◌||◌}
use mathlib.Core.Option.{Option, none, some}
use native.Mathlib.Omega.{arith}
use softwareoath.Base.Tests.{if◌then◌else◌, leb}
use softwareoath.Base.Lists.{All, any}

abbrev pub first {ℓ} : {A : Type ℓ} → List A → Option A
first [] = none
first (x ∷ xs) = some x

-- The elements with their positions, counted from `n`.
abbrev pub enumerate {ℓ} : {A : Type ℓ} → ℕ → List A → List (ℕ × A)
enumerate n [] = []
enumerate n (x ∷ xs) = (n, x) ∷ enumerate (suc n) xs

module _ {ℓ} {A : Type ℓ} (before : A → A → Bool) where
  unfoldable pub insert_sorted : A → List A → List A
  insert_sorted x [] = x ∷ []
  insert_sorted x (y ∷ ys) =
      let rest = insert_sorted x ys in if before x y then x ∷ y ∷ ys else y ∷ rest

  -- Equal elements keep their order, if `before` holds of equal elements.
  unfoldable pub sort : List A → List A
  unfolding insert_sorted
  sort [] = []
  sort (x ∷ xs) = insert_sorted x (sort xs)

module _ {ℓ} {A : Type ℓ} (before : A → A → Bool) where
  any-insert_sorted :
      (p : A → Bool) (x : A) (xs : List A) → any p (insert_sorted before x xs) ≡ (p x || any p xs)
  unfolding insert_sorted
  any-insert_sorted p x [] = refl
  any-insert_sorted p x (y ∷ xs) = ground (arith, any-insert_sorted p x xs)

  -- Sorting loses no element and adds none.
  pub any-sort : (p : A → Bool) (xs : List A) → any p (sort before xs) ≡ any p xs
  unfolding sort
  any-sort p [] = refl
  any-sort p (x ∷ xs) = ground (arith, any-insert_sorted p x (sort before xs), any-sort p xs)

module _ {ℓ κ} {A : Type ℓ} (before : A → A → Bool) (P : A → Type κ) where
  All-insert_sorted : (x : A) (ys : List A) → P x → All P ys → All P (insert_sorted before x ys)
  unfolding insert_sorted
  All-insert_sorted x [] p h = (p, tt)
  All-insert_sorted x (y ∷ ys) p h = ground (arith, All-insert_sorted x ys p h.1)

  pub All-sort : (xs : List A) → All P xs → All P (sort before xs)
  unfolding sort
  All-sort [] h = tt
  All-sort (x ∷ xs) h = All-insert_sorted x (sort before xs) h.0 (All-sort xs h.1)

  pub All-first : (xs : List A) {x : A} → All P xs → first xs ≡ some x → P x
  All-first [] h e = ground arith
  All-first (y ∷ xs) h e = ground arith

-- Sorting by a key: the first element has the least key.
module _ {ℓ} {A : Type ℓ} (key : A → ℕ) where
  abbrev pub by_key : A → A → Bool
  by_key x y = leb (key x) (key y)

  abbrev LeastFirst : List A → Type 0
  LeastFirst [] = Unit
  LeastFirst (x ∷ xs) = All (λ y. key x ≤ key y) xs

  All-insert_key :
      (n : ℕ) (x : A) (ys : List A)
      → All (λ y. n ≤ key y) (insert_sorted by_key x ys)
      → (n ≤ key x) × All (λ y. n ≤ key y) ys
  unfolding insert_sorted
  All-insert_key n x [] h = (h.0, tt)
  All-insert_key n x (y ∷ ys) h = ground (arith, All-insert_key n x ys)

  All-sort_back :
      (n : ℕ) (xs : List A) → All (λ y. n ≤ key y) (sort by_key xs) → All (λ y. n ≤ key y) xs
  unfolding sort
  All-sort_back n [] h = tt
  All-sort_back n (x ∷ xs) h =
      let (hx, hxs) = All-insert_key n x (sort by_key xs) h in (hx, All-sort_back n xs hxs)

  All-le_trans : (m n : ℕ) (ys : List A) → m ≤ n → All (λ y. n ≤ key y) ys → All (λ y. m ≤ key y) ys
  All-le_trans m n [] h k = tt
  All-le_trans m n (y ∷ ys) h k = (omega arith, All-le_trans m n ys h k.1)

  LeastFirst-insert : (x : A) (ys : List A) → LeastFirst ys → LeastFirst (insert_sorted by_key x ys)
  unfolding insert_sorted
  LeastFirst-insert x [] h = tt
  LeastFirst-insert x (y ∷ ys) h =
      ground
        (arith, All-le_trans (key x) (key y) ys, All-insert_sorted by_key (λ z. key y ≤ key z) x ys)

  LeastFirst-sort : (xs : List A) → LeastFirst (sort by_key xs)
  unfolding sort
  LeastFirst-sort [] = tt
  LeastFirst-sort (x ∷ xs) = LeastFirst-insert x (sort by_key xs) (LeastFirst-sort xs)

  least_of_first :
      (ys : List A) {x : A} → LeastFirst ys → first ys ≡ some x → All (λ y. key x ≤ key y) ys
  least_of_first [] h e = tt
  least_of_first (y ∷ ys) h e = ground (arith, All-le_trans (key y) (key y) ys)

  pub first-sort-least :
      (xs : List A) {x : A} → first (sort by_key xs) ≡ some x → All (λ y. key x ≤ key y) xs
  first-sort-least xs {x} e =
      All-sort_back (key x) xs (least_of_first (sort by_key xs) (LeastFirst-sort xs) e)

first-insert-ne-none {ℓ} :
    {A : Type ℓ} (before : A → A → Bool) (x : A) (ys : List A)
    → first (insert_sorted before x ys) ≡ none
    → ⊥
unfolding insert_sorted
first-insert-ne-none before x [] h = ground arith
first-insert-ne-none before x (y ∷ ys) h = ground arith

pub first-sort-none {ℓ} :
    {A : Type ℓ} (before : A → A → Bool) (xs : List A) → first (sort before xs) ≡ none → xs ≡ []
unfolding sort
first-sort-none before [] h = refl
first-sort-none before (x ∷ xs) h = absurd (first-insert-ne-none before x (sort before xs) h)
