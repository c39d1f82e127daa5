-- ===== src/Prelude/Hex.antt =====
-- Go's package encoding/hex: `hex.EncodeToString` and `hex.DecodeString`.
use Prim.Native.Nat.{ℕ, ◌+◌, ◌-◌, ◌*◌, ◌/◌, ◌%◌, ◌<◌}
use mathlib.Core.Path.{◌≡◌, refl, ap, sym, ◌∙◌}
use mathlib.Core.Bool.{◌&&◌}
use mathlib.Core.List.{[], ◌∷◌}
use mathlib.Core.Option.{Option, none, some, some-injective}
use native.Mathlib.Omega.{arith}
use go_proxy_server.Prelude.Tests.{ltb, leb, if◌then◌else◌}
use go_proxy_server.Prelude.Lists.{All}
use go_proxy_server.Prelude.Text.{Bytes}

unfoldable pub hex_digit : ℕ → ℕ
hex_digit n = if ltb n 10 then n + 48 else n + 87

-- `hex.EncodeToString`
unfoldable pub hex_encode : Bytes → Bytes
hex_encode [] = []
hex_encode (b ∷ s) = hex_digit (b / 16) ∷ hex_digit (b % 16) ∷ hex_encode s

unfoldable pub hex_value : ℕ → Option ℕ
hex_value c =
    if leb 48 c && leb c 57
    then some (c - 48)
    else if leb 97 c && leb c 102
    then some (c - 87)
    else if leb 65 c && leb c 70
    then some (c - 55)
    else none

abbrev pub hex_byte : Option ℕ → Option ℕ → Option Bytes → Option Bytes
hex_byte (some x) (some y) (some s) = some ((x * 16 + y) ∷ s)
hex_byte _ _ _ = none

-- `hex.DecodeString`; an odd length is an error.
unfoldable pub hex_decode : Bytes → Option Bytes
hex_decode [] = some []
hex_decode (c ∷ []) = none
hex_decode (c ∷ d ∷ s) = hex_byte (hex_value c) (hex_value d) (hex_decode s)

-- A list of bytes of the machine.
abbrev pub IsBytes : Bytes → Type 0
IsBytes s = All (λ b. b < 256) s

hex_value-hex_digit : (n : ℕ) → n < 16 → hex_value (hex_digit n) ≡ some n
unfolding hex_value hex_digit
hex_value-hex_digit n h = ground arith

pub hex_decode-hex_encode : (s : Bytes) → IsBytes s → hex_decode (hex_encode s) ≡ some s
unfolding hex_encode hex_decode
hex_decode-hex_encode [] h = refl
hex_decode-hex_encode (b ∷ s) h =
    let hb : b < 256 = h.0 in
    let back : b / 16 * 16 + b % 16 ≡ b = omega arith in
    rw
      (
        hex_value-hex_digit (b / 16) (omega arith),
        hex_value-hex_digit (b % 16) (omega arith),
        hex_decode-hex_encode s h.1,
        back,
      )
      refl

pub hex_encode_inj : (s t : Bytes) → IsBytes s → IsBytes t → hex_encode s ≡ hex_encode t → s ≡ t
hex_encode_inj s t hs ht e =
    let ds = hex_decode-hex_encode s hs in
    let dt = hex_decode-hex_encode t ht in some-injective s t (sym ds ∙ ap hex_decode e ∙ dt)
