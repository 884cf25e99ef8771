-- ===== src/Prelude/Lists.antt =====
-- Lists over the native numbers, under the library's names, and lists of marks.
use Prim.Native.Nat.{ℕ, suc}
use mathlib.Core.Bool.{Bool, false, ◌||◌}
use mathlib.Core.List.{List, [], ◌∷◌}

abbrev pub length {ℓ} : {A : Type ℓ} → List A → ℕ
length [] = 0
length (x ∷ xs) = suc (length xs)

abbrev pub any : List Bool → Bool
any [] = false
any (b ∷ bs) = b || any bs
