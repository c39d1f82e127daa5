-- ===== src/Prelude/Int.antt =====
-- Go's `int`, as an unbounded integer over the native numbers: `negsuc n` is -(n + 1).
use Prim.Native.Nat.{ℕ}
use mathlib.Core.Bool.{Bool, true, false}
use go_proxy_server.Prelude.Tests.{ltb}

pub data ℤ : Type 0 where
  pos : ℕ → ℤ
  negsuc : ℕ → ℤ

-- `z < n` for a constant `n` of the source.
abbrev pub lt_const : ℤ → ℕ → Bool
lt_const (pos m) n = ltb m n
lt_const (negsuc m) n = true

-- `z > n`.
abbrev pub gt_const : ℤ → ℕ → Bool
gt_const (pos m) n = ltb n m
gt_const (negsuc m) n = false

-- The value of an integer that is not negative.
abbrev pub to_ℕ : ℤ → ℕ
to_ℕ (pos m) = m
to_ℕ (negsuc m) = 0
