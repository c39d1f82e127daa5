-- ===== src/Security/Ssrf.antt =====
-- internal/security/security.go: `CheckSSRF` with its DNS cache, and `VerifyConnectedIP`. The
-- resolver, the clock and the parsers of package net are arguments. A cached answer is the list of
-- its addresses; `nil` is the empty one. A time is a number of seconds.
pub mod Pinned
pub mod Checked
use go_proxy_server.Prelude.{
  ℕ, ◌+◌, Bool, true, false, ◌||◌, if◌then◌else◌, List, [], ◌∷◌, Option, none, some, Bytes, Result,
  ok, err,
}
use go_proxy_server.Cache.Shard.{Entry}
use go_proxy_server.Cache.Sharded.{ShardedLru}
use go_proxy_server.Cache.Sharded
use go_proxy_server.Security.PrivateIp.{is_private_ip}

abbrev pub DnsCache : Type 0
DnsCache = ShardedLru (List Bytes)

-- `constants.DNSCacheTTL`, five minutes
abbrev pub dns_cache_ttl : ℕ
dns_cache_ttl = 300

pub data SsrfError : Type 0 where
  private_ip : SsrfError
  unresolved : SsrfError
  resolves_to_private : SsrfError
  nil_connection nil_address bad_address : SsrfError

abbrev pub Check : Type 0
Check = Result SsrfError (Unit {0})

-- The setting, the functions of package net, the resolver, and the clock at the read of the cache
-- and at the write.
pub record Network : Type 0 where
  pub allow_private : Bool
  pub split_host_port : Bytes → Option (Bytes × Bytes)
  pub parse_ip : Bytes → Option Bytes
  pub lookup_ip : Bytes → Option (List Bytes)
  pub read_at : ℕ
  pub write_at : ℕ

-- `hostOnly`
unfoldable pub host_only : Network → Bytes → Bytes
host_only net host = elim (net.split_host_port host) [ some h ↦ h.0 | none ↦ host ]

-- The loop over the addresses.
unfoldable pub check_ips : List Bytes → Check
check_ips [] = ok tt
check_ips (ip ∷ ips) =
    let rest = check_ips ips in if is_private_ip ip then err resolves_to_private else rest

-- The test of a host that is an IP.
abbrev pub check_ip : Bytes → Check
check_ip ip = if is_private_ip ip then err private_ip else ok tt

-- The check of the addresses just stored; `none` is a fault of the cache.
abbrev pub stored : List Bytes → Option DnsCache → Option (DnsCache × Check)
stored ips none = none
stored ips (some c) = some (c, check_ips ips)

-- The lookup behind a miss.
unfoldable pub look_up : Network → DnsCache → Bytes → Option (DnsCache × Check)
look_up net c host = elim (net.lookup_ip host) [
  | none ↦ some (c, err unresolved)
  | some ips ↦
      stored ips
        (Sharded.put c host (record { value = ips; expires_at = net.write_at + dns_cache_ttl }))
]

-- What the cache answers, and what follows.
unfoldable pub resolved :
    Network → Bytes → Option (DnsCache × Option (Entry (List Bytes))) → Option (DnsCache × Check)
unfolding look_up
resolved net host none = none
resolved net host (some (c, none)) = look_up net c host
resolved net host (some (c, some e)) = elim e.value [
  | [] ↦ look_up net c host
  | ◌∷◌ ip ips ↦ some (c, check_ips (ip ∷ ips))
]

unfoldable pub check_host : Network → DnsCache → Bytes → Option (DnsCache × Check)
unfolding resolved
check_host net c host = elim (net.parse_ip host) [
  | some ip ↦ some (c, check_ip ip)
  | none ↦ resolved net host (Sharded.get net.read_at c host)
]

-- `CheckSSRF`
unfoldable pub check_ssrf : Network → DnsCache → Bytes → Option (DnsCache × Check)
unfolding check_host host_only
check_ssrf net c host =
    if net.allow_private then some (c, ok tt) else check_host net c (host_only net host)

-- The remote address of a connection.
pub data RemoteAddr : Type 0 where
  tcp udp : Bytes → RemoteAddr
  other : Bytes → RemoteAddr

abbrev pub verify_ip : Option Bytes → Check
verify_ip none = err bad_address
verify_ip (some ip) = if is_private_ip ip then err private_ip else ok tt

unfoldable pub parse_other : Network → Bytes → Option Bytes
parse_other net text = elim (net.split_host_port text) [ none ↦ none | some h ↦ net.parse_ip h.0 ]

unfoldable pub verify_addr : Network → RemoteAddr → Check
unfolding parse_other
verify_addr net (tcp ip) = verify_ip (some ip)
verify_addr net (udp ip) = verify_ip (some ip)
verify_addr net (other text) = verify_ip (parse_other net text)

-- `VerifyConnectedIP`; the connection and its address may each be `nil`.
unfoldable pub verify_connected_ip : Network → Option (Option RemoteAddr) → Check
unfolding verify_addr
verify_connected_ip net conn = if net.allow_private then ok tt else elim conn [
  | none ↦ err nil_connection
  | some none ↦ err nil_address
  | some (some addr) ↦ verify_addr net addr
]
