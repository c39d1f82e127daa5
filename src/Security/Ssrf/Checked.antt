-- ===== src/Security/Ssrf/Checked.antt =====
-- internal/security/security.go: the outcomes of `CheckSSRF`.
use go_proxy_server.Prelude.{
  ◌+◌, ◌≡◌, refl, inl, inr, Bool, true, false, List, [], ◌∷◌, Option, none, some, Bytes, ok, All,
  arith, if◌then◌else◌, Option-cases,
}
use go_proxy_server.Cache.Shard.{Entry}
use go_proxy_server.Cache.Sharded.{ShardedLru}
use go_proxy_server.Cache.Sharded
use go_proxy_server.Cache.Sharded.Laws.{IsValid, get-IsValid, get-put}
use go_proxy_server.Security.PrivateIp.{is_private_ip}
use go_proxy_server.Security.Ssrf.{
  DnsCache, Check, Network, host_only, check_ips, check_ip, stored, look_up, resolved, check_host,
  check_ssrf, dns_cache_ttl,
}

-- A call that has not faulted, with a good cache behind it.
abbrev pub Completes : Option (DnsCache × Check) → Type 0
Completes o = (c : DnsCache) × (r : Check) × (o ≡ some (c, r)) × IsValid c

look_up-Completes :
    (net : Network) (c : DnsCache) (host : Bytes) → IsValid c → Completes (look_up net c host)
unfolding look_up
look_up-Completes net c host v = elim (Option-cases (net.lookup_ip host)) [
  | inl failed ↦ rw (failed, look_up) (_, _, refl, v)
  | inr (ips, found) ↦
      let e : Entry (List Bytes) = record {
        value = ips;
        expires_at = net.write_at + dns_cache_ttl;
      } in
      let (c', c'', put_ok, v', _, _) = get-put 0 c host e v (ground arith) in
      rw (found, look_up, put_ok) (_, _, refl, v')
]

resolved-Completes :
    (net : Network) (c : DnsCache) (host : Bytes) (r : Option (Entry (List Bytes)))
    → IsValid c
    → Completes (resolved net host (some (c, r)))
unfolding resolved
resolved-Completes net c host none v = look_up-Completes net c host v
resolved-Completes net c host (some e) v = by_value e.value
  where
    by_value :
        (ips : List Bytes)
        → Completes
            (elim ips [ [] ↦ look_up net c host | ◌∷◌ ip ips ↦ some (c, check_ips (ip ∷ ips)) ])
    by_value [] = look_up-Completes net c host v
    by_value (ip ∷ ips) = (_, _, refl, v)

check_host-Completes :
    (net : Network) (c : DnsCache) (host : Bytes) → IsValid c → Completes (check_host net c host)
unfolding check_host
check_host-Completes net c host v = elim (Option-cases (net.parse_ip host)) [
  | inr (ip, literal) ↦ rw (literal, check_host) (_, _, refl, v)
  | inl name ↦
      let (c', r, got, v') = get-IsValid net.read_at c host v in
      rw (name, check_host, got) (resolved-Completes net c' host r v')
]

ite-Completes :
    (b : Bool) (x y : Option (DnsCache × Check))
    → Completes x
    → Completes y
    → Completes (if b then x else y)
ite-Completes true x y f g = f
ite-Completes false x y f g = g

-- With a good cache the check never faults, whatever the host, the resolver and the clock, and
-- leaves the cache good.
pub check_ssrf-Completes :
    (net : Network) (c : DnsCache) (host : Bytes) → IsValid c → Completes (check_ssrf net c host)
unfolding check_ssrf
check_ssrf-Completes net c host v =
    ite-Completes net.allow_private _ _ (_, _, refl, v)
      (check_host-Completes net c (host_only net host) v)

abbrev pub AllPublic : List Bytes → Type 0
AllPublic ips = All (λ ip. is_private_ip ip ≡ false) ips

-- Why a host is admitted: it is an IP that is not private, or all its addresses are not, which the
-- cache had or the resolver has answered.
pub data Admitted (net : Network) (c : DnsCache) (host : Bytes) : Type 0 where
  literal :
      (ip : Bytes) → net.parse_ip host ≡ some ip → is_private_ip ip ≡ false → Admitted net c host
  cached :
      (c' : DnsCache) (e : Entry (List Bytes))
      → net.parse_ip host ≡ none
      → Sharded.get net.read_at c host ≡ some (c', some e)
      → AllPublic e.value
      → Admitted net c host
  looked_up :
      (ips : List Bytes)
      → net.parse_ip host ≡ none
      → net.lookup_ip host ≡ some ips
      → AllPublic ips
      → Admitted net c host

check_ips_inv : (ips : List Bytes) → check_ips ips ≡ ok tt → AllPublic ips
unfolding check_ips
check_ips_inv [] e = tt
check_ips_inv (ip ∷ ips) e = (ground arith, check_ips_inv ips (ground arith))

check_ip_inv : (ip : Bytes) → check_ip ip ≡ ok tt → is_private_ip ip ≡ false
check_ip_inv ip e = ground arith

stored_inv :
    (ips : List Bytes) (o : Option DnsCache) (c' : DnsCache)
    → stored ips o ≡ some (c', ok tt)
    → check_ips ips ≡ ok tt
stored_inv ips none c' e = ground arith
stored_inv ips (some c) c' e = ground arith

look_up_inv :
    (net : Network) (c c' : DnsCache) (host : Bytes)
    → look_up net c host ≡ some (c', ok tt)
    → (ips : List Bytes) × (net.lookup_ip host ≡ some ips) × AllPublic ips
unfolding look_up
look_up_inv net c c' host e = elim (Option-cases (net.lookup_ip host)) [
  | inl failed ↦ absurd (ground arith)
  | inr (ips, found) ↦
      (ips, found, check_ips_inv ips (stored_inv ips _ c' (rw (found, look_up) at e)))
]

resolved_inv :
    (net : Network) (c c1 c' : DnsCache) (host : Bytes) (r : Option (Entry (List Bytes)))
    → net.parse_ip host ≡ none
    → Sharded.get net.read_at c host ≡ some (c1, r)
    → resolved net host (some (c1, r)) ≡ some (c', ok tt)
    → Admitted net c host
unfolding resolved
resolved_inv net c c1 c' host none name got e =
    let (ips, found, public) = look_up_inv net c1 c' host e in looked_up ips name found public
resolved_inv net c c1 c' host (some entry) name got e = by_value entry.value refl e
  where
    by_value :
        (ips : List Bytes)
        → entry.value ≡ ips
        → (elim ips [ [] ↦ look_up net c1 host | ◌∷◌ ip ips ↦ some (c1, check_ips (ip ∷ ips)) ])
          ≡ some (c', ok tt)
        → Admitted net c host
    by_value [] q h =
        let (ips, found, public) = look_up_inv net c1 c' host h in looked_up ips name found public
    by_value (ip ∷ ips) q h =
        cached c1 entry name got (rw q (check_ips_inv (ip ∷ ips) (ground arith)))

check_host_inv :
    (net : Network) (c c' : DnsCache) (host : Bytes)
    → check_host net c host ≡ some (c', ok tt)
    → Admitted net c host
unfolding check_host
check_host_inv net c c' host e = elim (Option-cases (net.parse_ip host)) [
  | inr (ip, is_ip) ↦ literal ip is_ip (check_ip_inv ip (ground arith))
  | inl name ↦ elim (Option-cases (Sharded.get net.read_at c host)) [
    | inl fault ↦ absurd (unfold resolved in ground arith)
    | inr ((c1, r), got) ↦
        resolved_inv net c c1 c' host r name got (rw (name, check_host, got) at e)
  ]
]

-- Where private addresses are not allowed, the check admits a target only if its host, without the
-- port, is an IP that is not private, or a name none of whose addresses, in the cache or else as
-- the resolver answers, is private.
pub check_ssrf-Admitted :
    (net : Network) (c c' : DnsCache) (host : Bytes)
    → net.allow_private ≡ false
    → check_ssrf net c host ≡ some (c', ok tt)
    → Admitted net c (host_only net host)
unfolding check_ssrf
check_ssrf-Admitted net c c' host a e = check_host_inv net c c' (host_only net host) (ground arith)
