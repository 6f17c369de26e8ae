-- ===== src/Attest/Merkle.antt =====
-- `computeMerkleRoot` (src/control-plane/bundle.ts), over the JSON texts of the records.
pub mod Laws
use softwareoath.Attest.Json.{units}
use softwareoath.Repair.GitStatus.{Text, text_le}
use softwareoath.Base.Sort.{sort}
use softwareoath.Base.{some, none, List, [], ◌∷◌, ◌++◌, map, zero, suc, length, ℕ, Option}

-- One layer above: neighbours are hashed together, and a last one without a neighbour moves up.
unfoldable pub next_layer : (Text → Text) → List Text → List Text
next_layer sha256 [] = []
next_layer sha256 (a ∷ []) = a ∷ []
next_layer sha256 (a ∷ b ∷ layer) = sha256 (a ++ b) ∷ next_layer sha256 layer

-- The loop, over the rounds that are left; `none` where none is left and more than one hash is.
unfoldable pub climb : (Text → Text) → ℕ → List Text → Option (List Text)
climb sha256 rounds [] = some []
climb sha256 rounds (a ∷ []) = some (a ∷ [])
climb sha256 zero (a ∷ b ∷ layer) = none
climb sha256 (suc rounds) (a ∷ b ∷ layer) = climb sha256 rounds (next_layer sha256 (a ∷ b ∷ layer))

-- `currentLayer[0]`
abbrev pub root_of : Option (List Text) → Option Text
root_of none = none
root_of (some []) = none
root_of (some (a ∷ _)) = some a

-- The root over the JSON texts of the records. As many rounds as there are records are enough.
unfoldable pub compute_merkle_root : (Text → Text) → List Text → Option Text
compute_merkle_root sha256 [] = some (sha256 (units "empty-bundle"))
compute_merkle_root sha256 (r ∷ records) =
    let hashes = map sha256 (r ∷ records) in
    root_of (climb sha256 (length hashes) (sort text_le hashes))
