-- ===== src/Prelude/Text.antt =====
-- A Go string, or a byte slice, is the list of its bytes.
use Prim.Native.Nat.{ℕ}
use Prim.Native.Char.{code}
use Prim.Native.String.{String}
use mathlib.Core.Path.{◌≡◌, refl, ap₂}
use mathlib.Core.List.{List, [], ◌∷◌}
use native.Mathlib.Decide.{ℕ_discrete}
use native.Mathlib.Omega.{arith}

abbrev pub Bytes : Type 0
Bytes = List ℕ

-- The bytes of a literal, if it is ASCII.
abbrev pub codes : String → Bytes
codes String.[] = []
codes (String.◌∷◌ c s) = code c ∷ codes s

heads : {x y : ℕ} {xs ys : Bytes} → Dec (x ≡ y) → Dec (xs ≡ ys) → Dec (x ∷ xs ≡ y ∷ ys)
heads (yes p) (yes q) = yes (ap₂ ◌∷◌ p q)
heads (no p) _ = no (λ e. p (ground arith))
heads (yes p) (no q) = no (λ e. q (ground arith))

nil-ne-cons : (y : ℕ) (ys : Bytes) → ◌≡◌ {A = Bytes} [] (y ∷ ys) → ⊥
nil-ne-cons y ys e = cc

cons-ne-nil : (y : ℕ) (ys : Bytes) → ◌≡◌ {A = Bytes} (y ∷ ys) [] → ⊥
cons-ne-nil y ys e = cc

unfoldable pub bytes_dec : Discrete Bytes
unfolding heads ℕ_discrete nil-ne-cons cons-ne-nil
bytes_dec [] [] = yes refl
bytes_dec [] (y ∷ ys) = no (nil-ne-cons y ys)
bytes_dec (x ∷ xs) [] = no (cons-ne-nil x xs)
bytes_dec (x ∷ xs) (y ∷ ys) = heads (ℕ_discrete x y) (bytes_dec xs ys)
