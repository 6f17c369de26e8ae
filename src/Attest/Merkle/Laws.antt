-- ===== src/Attest/Merkle/Laws.antt =====
-- The order of the hashes and the rounds of the loop (src/control-plane/bundle.ts,
-- `computeMerkleRoot`).
use softwareoath.Attest.Merkle.{next_layer, climb, compute_merkle_root, units, root_of}
use mathlib.Core.List.{Permᴰ}
use softwareoath.Base.{◌++◌, length, map, zero, suc, some, ap, ℕ, ◌∙◌, ◌≤◌, ◌<◌}
use softwareoath.Repair.GitStatus.{Text, text_le}
use softwareoath.Base.Sort.{insert_sorted, sort}
use softwareoath.Base.{List, [], ◌∷◌, inl, inr, ◌≡◌, true, arith, ◌⊎◌, refl}

text_le-total : (a b : Text) → (text_le a b ≡ true) ⊎ (text_le b a ≡ true)
unfolding text_le
text_le-total [] b = inl refl
text_le-total (x ∷ a) [] = inr refl
text_le-total (x ∷ a) (y ∷ b) = ground (arith, text_le-total a b)

text_le-antisym : (a b : Text) → text_le a b ≡ true → text_le b a ≡ true → a ≡ b
unfolding text_le
text_le-antisym [] [] h k = refl
text_le-antisym [] (y ∷ b) h k = ground arith
text_le-antisym (x ∷ a) [] h k = ground arith
text_le-antisym (x ∷ a) (y ∷ b) h k = ground (arith, text_le-antisym a b)

text_le_trans : (a b c : Text) → text_le a b ≡ true → text_le b c ≡ true → text_le a c ≡ true
unfolding text_le
text_le_trans [] b c h k = refl
text_le_trans (x ∷ a) [] c h k = ground arith
text_le_trans (x ∷ a) (y ∷ b) [] h k = ground arith
text_le_trans (x ∷ a) (y ∷ b) (z ∷ c) h k = ground (arith, text_le_trans a b c)

insert_swap :
    (x y : Text) (ts : List Text)
    → insert_sorted text_le x (insert_sorted text_le y ts)
      ≡ insert_sorted text_le y (insert_sorted text_le x ts)
unfolding insert_sorted
insert_swap x y [] = ground (arith, text_le-total x y, text_le-antisym x y)
insert_swap x y (t ∷ ts) = ground (
  arith,
  insert_swap x y ts,
  text_le-total x y,
  text_le-antisym x y,
  text_le_trans x y t,
  text_le_trans y x t,
  text_le-total x t,
  text_le-total y t,
)

sort-Permᴰ : (a b : List Text) → Permᴰ a b → sort text_le a ≡ sort text_le b
unfolding sort
sort-Permᴰ a b Permᴰ.nil = refl
sort-Permᴰ a b (Permᴰ.cons {a = x} {b = y} {l₁ = xs} {l₂ = ys} e p) =
    ap (λ t. insert_sorted text_le t (sort text_le xs)) e
    ∙ ap (insert_sorted text_le y) (sort-Permᴰ xs ys p)
sort-Permᴰ a b (Permᴰ.swap {a = x} {b = y} {a' = x2} {b' = y2} {l = l} e f) =
    ap (λ t. insert_sorted text_le t (insert_sorted text_le y (sort text_le l))) e
    ∙ ap (λ t. insert_sorted text_le y2 (insert_sorted text_le t (sort text_le l))) f
    ∙ insert_swap y2 x2 (sort text_le l)
sort-Permᴰ a b (Permᴰ.trans {l₁ = l1} {l₂ = l2} {l₃ = l3} p q) =
    sort-Permᴰ l1 l2 p ∙ sort-Permᴰ l2 l3 q

map-Permᴰ : (f : Text → Text) (a b : List Text) → Permᴰ a b → Permᴰ (map f a) (map f b)
map-Permᴰ f a b Permᴰ.nil = Permᴰ.nil
map-Permᴰ f a b (Permᴰ.cons {a = x} {b = y} {l₁ = xs} {l₂ = ys} e p) =
    Permᴰ.cons (ap f e) (map-Permᴰ f xs ys p)
map-Permᴰ f a b (Permᴰ.swap e g) = Permᴰ.swap (ap f e) (ap f g)
map-Permᴰ f a b (Permᴰ.trans {l₁ = l1} {l₂ = l2} {l₃ = l3} p q) =
    Permᴰ.trans (map-Permᴰ f l1 l2 p) (map-Permᴰ f l2 l3 q)

length-Permᴰ : (a b : List Text) → Permᴰ a b → length a ≡ length b
length-Permᴰ a b Permᴰ.nil = refl
length-Permᴰ a b (Permᴰ.cons {a = x} {b = y} {l₁ = xs} {l₂ = ys} e p) =
    ap suc (length-Permᴰ xs ys p)
length-Permᴰ a b (Permᴰ.swap e g) = refl
length-Permᴰ a b (Permᴰ.trans {l₁ = l1} {l₂ = l2} {l₃ = l3} p q) =
    length-Permᴰ l1 l2 p ∙ length-Permᴰ l2 l3 q

length-next_layer :
    (sha256 : Text → Text) (layer : List Text) → length (next_layer sha256 layer) ≤ length layer
unfolding next_layer
length-next_layer sha256 [] = omega arith
length-next_layer sha256 (a ∷ []) = omega arith
length-next_layer sha256 (a ∷ b ∷ layer) = omega (arith, length-next_layer sha256 layer)

-- The loop ends in a layer of one hash.
climb-one :
    (sha256 : Text → Text) (rounds : ℕ) (a : Text) (layer : List Text)
    → length layer ≤ rounds
    → (root : Text) × (climb sha256 rounds (a ∷ layer) ≡ some (root ∷ []))
unfolding climb next_layer
climb-one sha256 rounds a [] h = (a, ground arith)
climb-one sha256 zero a (b ∷ layer) h = ground arith
climb-one sha256 (suc rounds) a (b ∷ layer) h =
    climb-one sha256 rounds (sha256 (a ++ b)) (next_layer sha256 layer)
      (omega (arith, length-next_layer sha256 layer))

length-insert_sorted :
    (x : Text) (ts : List Text) → length (insert_sorted text_le x ts) ≡ suc (length ts)
unfolding insert_sorted
length-insert_sorted x [] = refl
length-insert_sorted x (t ∷ ts) = ground (arith, length-insert_sorted x ts)

length-sort : (ts : List Text) → length (sort text_le ts) ≡ length ts
unfolding sort
length-sort [] = refl
length-sort (t ∷ ts) = length-insert_sorted t (sort text_le ts) ∙ ap suc (length-sort ts)

climb_all :
    (sha256 : Text → Text) (rounds : ℕ) (layer : List Text)
    → 0 < length layer
    → length layer ≤ rounds
    → (root : Text) × (root_of (climb sha256 rounds layer) ≡ some root)
climb_all sha256 rounds [] h k = ground arith
climb_all sha256 rounds (a ∷ layer) h k =
    let (root, is) = climb-one sha256 rounds a layer (omega arith) in (root, ap root_of is)

-- Whatever the records are, the loop ends within as many rounds as there are records, and gives one
-- hash as the root.
pub compute_merkle_root-total :
    (sha256 : Text → Text) (records : List Text)
    → (root : Text) × (compute_merkle_root sha256 records ≡ some root)
unfolding compute_merkle_root
compute_merkle_root-total sha256 [] = (sha256 (units "empty-bundle"), refl)
compute_merkle_root-total sha256 (r ∷ records) =
    let hashes = map sha256 (r ∷ records) in
    climb_all sha256 (length hashes) (sort text_le hashes) (omega (arith, length-sort hashes))
      (omega (arith, length-sort hashes))

-- The root of the same records in another order is the same.
pub compute_merkle_root-Permᴰ :
    (sha256 : Text → Text) (records others : List Text)
    → Permᴰ records others
    → compute_merkle_root sha256 records ≡ compute_merkle_root sha256 others
unfolding compute_merkle_root
compute_merkle_root-Permᴰ sha256 [] [] p = refl
compute_merkle_root-Permᴰ sha256 [] (o ∷ others) p = ground (arith, length-Permᴰ [] (o ∷ others) p)
compute_merkle_root-Permᴰ sha256 (r ∷ records) [] p =
    ground (arith, length-Permᴰ (r ∷ records) [] p)
compute_merkle_root-Permᴰ sha256 (r ∷ records) (o ∷ others) p =
    let hashed = map-Permᴰ sha256 (r ∷ records) (o ∷ others) p in
    ap (λ n. root_of (climb sha256 n (sort text_le (map sha256 (r ∷ records)))))
      (length-Permᴰ (map sha256 (r ∷ records)) (map sha256 (o ∷ others)) hashed)
    ∙ ap (λ l. root_of (climb sha256 (length (map sha256 (o ∷ others))) l))
        (sort-Permᴰ (map sha256 (r ∷ records)) (map sha256 (o ∷ others)) hashed)
