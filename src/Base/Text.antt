-- ===== src/Base/Text.antt =====
-- Python's slices of a text, which count its characters.
use Prim.Native.Nat.{ℕ, zero, suc}
use Prim.Native.String.{String, [], ◌∷◌}

-- text[:n]
unfoldable pub clip : ℕ → String → String
clip zero text = []
clip (suc n) [] = []
clip (suc n) (c ∷ text) = c ∷ clip n text
