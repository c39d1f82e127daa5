-- ===== src/Prelude/Strings.antt =====
-- What the models use of Go's package strings, on texts as lists of code points.
use Prim.Native.Nat.{ℕ, ◌+◌}
use mathlib.Core.Bool.{Bool, true, false, ◌&&◌, ◌||◌}
use mathlib.Core.List.{[], ◌∷◌, map, reverse}
use mathlib.Core.Logic.{ite}
use go_proxy_server.Prelude.Tests.{leb, ◌==◌, if◌then◌else◌}
use go_proxy_server.Prelude.Text.{Bytes, bytes_dec}

-- `unicode.IsSpace`
unfoldable pub is_space : ℕ → Bool
is_space r =
    (leb 9 r && leb r 13)
    || r == 0x20
    || r == 0x85
    || r == 0xa0
    || r == 0x1680
    || (leb 0x2000 r && leb r 0x200a)
    || r == 0x2028
    || r == 0x2029
    || r == 0x202f
    || r == 0x205f
    || r == 0x3000

unfoldable pub trim_left : Bytes → Bytes
trim_left [] = []
trim_left (r ∷ s) = let t = trim_left s in if is_space r then t else r ∷ s

-- `strings.TrimSpace`
unfoldable pub trim_space : Bytes → Bytes
unfolding trim_left is_space
trim_space s = reverse (trim_left (reverse (trim_left s)))

-- `unicode.ToLower` where the result is compared with ASCII only: U+0130 and U+212A are the two
-- code points beyond ASCII that it takes into ASCII.
unfoldable pub lower : ℕ → ℕ
lower r =
    if leb 65 r && leb r 90
    then r + 32
    else if r == 0x130
    then 105
    else if r == 0x212a
    then 107
    else r

-- `strings.ToLower`
unfoldable pub to_lower : Bytes → Bytes
unfolding lower
to_lower s = map lower s

-- `s == t`
unfoldable pub same : Bytes → Bytes → Bool
same s t = ite (bytes_dec s t) true false

unfoldable pub is_empty : Bytes → Bool
is_empty [] = true
is_empty (r ∷ s) = false
