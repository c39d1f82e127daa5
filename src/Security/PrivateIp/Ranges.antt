-- ===== src/Security/PrivateIp/Ranges.antt =====
-- internal/security/security.go: `IsPrivateIP` beside the blocks of addresses that its comments
-- name, an IPv4 address being its number.
use go_proxy_server.Prelude.{
  ℕ, ◌+◌, ◌*◌, ◌/◌, ◌<◌, ◌≡◌, refl, ◌∙◌, Bool, ◌||◌, ◌==◌, [], ◌∷◌, arith,
}
use go_proxy_server.Security.PrivateIp.{
  to4, is_loopback, is_link_local_unicast, is_private, is_private_ip,
}

-- The number of an IPv4 address.
abbrev pub value4 : ℕ → ℕ → ℕ → ℕ → ℕ
value4 a b c d = ((a * 256 + b) * 256 + c) * 256 + d

-- The block `base/(32 - bits)` has the address.
abbrev pub in_block : ℕ → ℕ → ℕ → Bool
in_block base size n = n / size == base / size

-- 127.0.0.0/8, 169.254.0.0/16, 10.0.0.0/8, 172.16.0.0/12 and 192.168.0.0/16
abbrev pub in_private_blocks : ℕ → Bool
in_private_blocks n =
    in_block (value4 127 0 0 0) 16777216 n
    || in_block (value4 169 254 0 0) 65536 n
    || in_block (value4 10 0 0 0) 16777216 n
    || in_block (value4 172 16 0 0) 1048576 n
    || in_block (value4 192 168 0 0) 65536 n

module _ (a b c d : ℕ) (hb : b < 256) (hc : c < 256) (hd : d < 256) where
  by8 : value4 a b c d / 16777216 ≡ a
  by8 = omega arith

  by16 : value4 a b c d / 65536 ≡ a * 256 + b
  by16 = omega arith

  by12 : value4 a b c d / 1048576 ≡ a * 16 + b / 16
  by12 = omega arith

  blocks_lem : in_private_blocks (value4 a b c d) ≡ (
      a == 127
      || (a * 256 + b) == 43518
      || a == 10
      || (a * 16 + b / 16) == 2753
      || (a * 256 + b) == 49320)
  blocks_lem = rw (by8, by16, by12)

  by_bytes : is_private_ip (a ∷ b ∷ c ∷ d ∷ []) ≡ (
      a == 127
      || (a * 256 + b) == 43518
      || a == 10
      || (a * 16 + b / 16) == 2753
      || (a * 256 + b) == 49320)
  unfolding is_private_ip is_loopback is_link_local_unicast is_private to4
  by_bytes = ground arith

  mapped :
      is_private_ip (0 ∷ 0 ∷ 0 ∷ 0 ∷ 0 ∷ 0 ∷ 0 ∷ 0 ∷ 0 ∷ 0 ∷ 255 ∷ 255 ∷ a ∷ b ∷ c ∷ d ∷ [])
      ≡ is_private_ip (a ∷ b ∷ c ∷ d ∷ [])
  unfolding is_private_ip is_loopback is_link_local_unicast is_private to4
  mapped = refl

  -- An IPv4 address, on its own or mapped into IPv6, counts as private exactly if it lies in one of
  -- the blocks 127.0.0.0/8, 169.254.0.0/16, 10.0.0.0/8, 172.16.0.0/12 and 192.168.0.0/16.
  pub is_private_ip-in_private_blocks :
      (is_private_ip (a ∷ b ∷ c ∷ d ∷ []) ≡ in_private_blocks (value4 a b c d))
      × (is_private_ip (0 ∷ 0 ∷ 0 ∷ 0 ∷ 0 ∷ 0 ∷ 0 ∷ 0 ∷ 0 ∷ 0 ∷ 255 ∷ 255 ∷ a ∷ b ∷ c ∷ d ∷ [])
          ≡ in_private_blocks (value4 a b c d))
  is_private_ip-in_private_blocks = rw blocks_lem (by_bytes, mapped ∙ by_bytes)
