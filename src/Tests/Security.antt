-- ===== src/Tests/Security.antt =====
-- internal/security/security.go at concrete inputs.
use go_proxy_server.Prelude.{
  ◌≡◌, refl, false, List, [], ◌∷◌, none, some, Bytes, ok, codes, pos, arith,
}
use go_proxy_server.Cache.Sharded.{new, empty_shard}
use go_proxy_server.Cache.Sharded.Recent.{Serves}
use go_proxy_server.Cache.Sharded
use go_proxy_server.Cache.Shard
use go_proxy_server.Prelude.GoMap.{lookup}
use go_proxy_server.Cache.Sharded.Laws.{IsValid, new-IsValid}
use go_proxy_server.Security.PrivateIp.{is_private_ip}
use go_proxy_server.Security.PrivateIp.Ranges.{
  value4, in_private_blocks, is_private_ip-in_private_blocks,
}
use go_proxy_server.Security.Ssrf.{DnsCache, Network, host_only, check_ips, check_host, check_ssrf}
use go_proxy_server.Security.Ssrf.Checked.{Admitted, check_ssrf-Admitted}
use go_proxy_server.Security.Ssrf.Pinned.{later, run_checks, check_ssrf-later}

is_private_ip-in_private_blocks_example :
    (is_private_ip (172 ∷ 31 ∷ 9 ∷ 1 ∷ []) ≡ in_private_blocks (value4 172 31 9 1))
    × (is_private_ip (0 ∷ 0 ∷ 0 ∷ 0 ∷ 0 ∷ 0 ∷ 0 ∷ 0 ∷ 0 ∷ 0 ∷ 255 ∷ 255 ∷ 172 ∷ 31 ∷ 9 ∷ 1 ∷ [])
        ≡ in_private_blocks (value4 172 31 9 1))
is_private_ip-in_private_blocks_example =
    is_private_ip-in_private_blocks 172 31 9 1 (omega arith) (omega arith) (omega arith)

abbrev name : Bytes
name = codes "example.org"

abbrev public : Bytes
public = 93 ∷ 184 ∷ 216 ∷ 34 ∷ []

-- A network in which every name is at one public address and nothing is a literal.
abbrev net : Network
net = record {
  allow_private = false;
  split_host_port = λ _. none;
  parse_ip = λ _. none;
  lookup_ip = λ _. some (public ∷ []);
  read_at = 5;
  write_at = 6;
}

-- One in which every host is that address.
abbrev literals : Network
literals = record net { parse_ip = λ _. some public }

abbrev dns : DnsCache
dns = new (pos 4) (pos 1)

dns-IsValid : IsValid dns
unfolding Sharded.shard_count
dns-IsValid = new-IsValid (pos 4) (pos 1) (omega arith)

literal_ok : check_ssrf literals dns name ≡ some (dns, ok tt)
unfolding check_ssrf check_host is_private_ip
literal_ok = refl

check_ssrf-Admitted_example : Admitted literals dns (host_only literals name)
check_ssrf-Admitted_example = check_ssrf-Admitted literals dns dns name refl literal_ok

not_cached : Sharded.get 5 dns (host_only net name) ≡ some (dns, none)
unfolding Sharded.get Sharded.new Sharded.shard_count Sharded.shard_capacity Sharded.shard_index
    Sharded.hash_loop Shard.get lookup host_only
not_cached = refl

abbrev empty : Shard.Shard Bytes (List Bytes)
empty = empty_shard 10

served : Serves dns (host_only net name) empty
unfolding Sharded.new Sharded.shard_count Sharded.shard_capacity Sharded.shard_index
    Sharded.hash_loop host_only
served = refl

-- Another host, and the same one, a minute later.
abbrev between : List (Network × Bytes)
between =
    (record net { read_at = 66 }, codes "example.net") ∷ (record net { read_at = 67 }, name) ∷ []

-- A network in which every name has become a private address, at the end of the five minutes.
abbrev rebound : Network
rebound = later net (λ _. some ((10 ∷ 0 ∷ 0 ∷ 1 ∷ []) ∷ [])) 306 306

check_ssrf-later_example :
    (c' : DnsCache) × (c'' : DnsCache) × (c3 : DnsCache) × (check_ssrf net dns name
      ≡ some (c', check_ips (public ∷ [])))
    × (run_checks between c' ≡ some c'')
    × (check_ssrf rebound c'' name ≡ some (c3, check_ips (public ∷ [])))
check_ssrf-later_example =
    check_ssrf-later net dns dns name public [] empty between
      (λ _. some ((10 ∷ 0 ∷ 0 ∷ 1 ∷ []) ∷ [])) 306 306 dns-IsValid refl refl not_cached refl served
      (omega arith) (omega arith) (omega arith)
