-- ===== src/Security/PrivateIp.antt =====
-- internal/security/security.go: `IsPrivateIP`, with the three methods of `net.IP` that it asks,
-- written out. An IP is its 4 or 16 bytes. A mask is written as a division: `b & 0xf0 == 16` is
-- `b / 16 == 1`, `b & 0xc0 == 0x80` is `b / 64 == 2`, and `b & 0xfe == 0xfc` is `b / 2 == 126`.
pub mod Ranges
use go_proxy_server.Prelude.{
  ℕ, ◌/◌, Bool, true, false, ◌&&◌, ◌||◌, if◌then◌else◌, ◌==◌, List, [], ◌∷◌, Option, none, some,
  Bytes,
}

-- `To4()`
unfoldable pub to4 : Bytes → Option Bytes
to4 (a ∷ b ∷ c ∷ d ∷ []) = some (a ∷ b ∷ c ∷ d ∷ [])
to4 (b0 ∷ b1 ∷ b2 ∷ b3 ∷ b4 ∷ b5 ∷ b6 ∷ b7 ∷ b8 ∷ b9 ∷ b10 ∷ b11 ∷ a ∷ b ∷ c ∷ d ∷ []) =
    if b0 == 0
      && b1 == 0
      && b2 == 0
      && b3 == 0
      && b4 == 0
      && b5 == 0
      && b6 == 0
      && b7 == 0
      && b8 == 0
      && b9 == 0
      && b10 == 255
      && b11 == 255
    then some (a ∷ b ∷ c ∷ d ∷ [])
    else none
to4 _ = none

-- `ip.Equal(net.IPv6loopback)`
unfoldable pub is_loopback6 : Bytes → Bool
is_loopback6 (b0 ∷ b1 ∷ b2 ∷ b3 ∷ b4 ∷ b5 ∷ b6 ∷ b7 ∷ b8 ∷ b9 ∷ b10 ∷ b11 ∷ a ∷ b ∷ c ∷ d ∷ []) =
    b0 == 0
    && b1 == 0
    && b2 == 0
    && b3 == 0
    && b4 == 0
    && b5 == 0
    && b6 == 0
    && b7 == 0
    && b8 == 0
    && b9 == 0
    && b10 == 0
    && b11 == 0
    && a == 0
    && b == 0
    && c == 0
    && d == 1
is_loopback6 _ = false

abbrev pub is_loopback4 : Bytes → Bool
is_loopback4 (a ∷ _) = a == 127
is_loopback4 _ = false

-- `IsLoopback()`
unfoldable pub is_loopback : Bytes → Bool
is_loopback ip = elim (to4 ip) [ some ip4 ↦ is_loopback4 ip4 | none ↦ is_loopback6 ip ]

abbrev pub is_link_local4 : Bytes → Bool
is_link_local4 (a ∷ b ∷ _) = a == 169 && b == 254
is_link_local4 _ = false

unfoldable pub is_sixteen : Bytes → Bool
is_sixteen (_ ∷ _ ∷ _ ∷ _ ∷ _ ∷ _ ∷ _ ∷ _ ∷ _ ∷ _ ∷ _ ∷ _ ∷ _ ∷ _ ∷ _ ∷ _ ∷ []) = true
is_sixteen _ = false

abbrev pub is_link_local6 : Bytes → Bool
is_link_local6 (a ∷ b ∷ _) = a == 254 && b / 64 == 2
is_link_local6 _ = false

-- `IsLinkLocalUnicast()`
unfoldable pub is_link_local_unicast : Bytes → Bool
is_link_local_unicast ip = elim (to4 ip) [
  | some ip4 ↦ is_link_local4 ip4
  | none ↦ is_sixteen ip && is_link_local6 ip
]

abbrev pub is_private4 : Bytes → Bool
is_private4 (a ∷ b ∷ _) = a == 10 || (a == 172 && b / 16 == 1) || (a == 192 && b == 168)
is_private4 _ = false

abbrev pub is_private6 : Bytes → Bool
is_private6 (a ∷ _) = a / 2 == 126
is_private6 _ = false

-- `IsPrivate()`
unfoldable pub is_private : Bytes → Bool
is_private ip = elim (to4 ip) [
  | some ip4 ↦ is_private4 ip4
  | none ↦ is_sixteen ip && is_private6 ip
]

-- `IsPrivateIP`
unfoldable pub is_private_ip : Bytes → Bool
unfolding is_loopback is_link_local_unicast is_private to4 is_sixteen is_loopback6
is_private_ip ip =
    if is_loopback ip
    then true
    else if is_link_local_unicast ip
    then true
    else if is_private ip
    then true
    else false
