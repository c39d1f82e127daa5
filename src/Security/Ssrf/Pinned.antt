-- ===== src/Security/Ssrf/Pinned.antt =====
-- internal/security/security.go: an answer of the resolver, once it is in the cache.
use go_proxy_server.Prelude.{
  ℕ, suc, ◌+◌, ◌*◌, ◌≤◌, ◌<◌, ◌≡◌, ◌≢◌, refl, ap, inl, inr, false, Bool-cases, List, [], ◌∷◌,
  length, All, Option, none, some, Option-cases, Bytes, bytes_dec, arith, ◌∙◌,
}
use go_proxy_server.Cache.Shard.{Entry, Shard}
use go_proxy_server.Cache.Sharded
use go_proxy_server.Cache.Sharded.Laws.{IsValid}
use go_proxy_server.Cache.Sharded.Recent.{
  Serves, Holds, Holds-suc, Holds-first, put-Holds, read-Holds, get-Holds, other-Holds, get-Serves,
}
use go_proxy_server.Security.Ssrf.{
  DnsCache, Check, Network, host_only, check_ips, look_up, resolved, check_host, check_ssrf,
  dns_cache_ttl,
}

-- The network at a later time, with whatever the resolver answers by then.
abbrev pub later : Network → (Bytes → Option (List Bytes)) → ℕ → ℕ → Network
later net lookup_ip read_at write_at = record net {
  lookup_ip = lookup_ip;
  read_at = read_at;
  write_at = write_at;
}

check_ssrf-check_host :
    (net : Network) (c : DnsCache) (host : Bytes)
    → net.allow_private ≡ false
    → check_ssrf net c host ≡ check_host net c (host_only net host)
unfolding check_ssrf
check_ssrf-check_host net c host a = ground arith

check_host-miss :
    (net : Network) (c c1 c2 : DnsCache) (host : Bytes) (ips : List Bytes)
    → net.parse_ip host ≡ none
    → Sharded.get net.read_at c host ≡ some (c1, none)
    → net.lookup_ip host ≡ some ips
    → Sharded.put c1 host (record { value = ips; expires_at = net.write_at + dns_cache_ttl })
      ≡ some c2
    → check_host net c host ≡ some (c2, check_ips ips)
unfolding check_host resolved look_up
check_host-miss net c c1 c2 host ips name miss found put_ok =
    rw (name, check_host, miss, resolved, found, look_up, put_ok) refl

check_host-hit :
    (net : Network) (c c1 : DnsCache) (host ip : Bytes) (ips : List Bytes) (at : ℕ)
    → net.parse_ip host ≡ none
    → Sharded.get net.read_at c host
      ≡ some (c1, some (record { value = ip ∷ ips; expires_at = at }))
    → check_host net c host ≡ some (c1, check_ips (ip ∷ ips))
unfolding check_host resolved
check_host-hit net c c1 host ip ips at name hit = rw (name, check_host, hit) refl

-- The entry of an answer with addresses, from its write on.
abbrev pub pinned : Bytes → List Bytes → ℕ → Entry (List Bytes)
pinned ip ips at = record { value = ip ∷ ips; expires_at = at }

-- Checks of any hosts, each on the cache that the one before has left.
unfoldable pub run_checks : List (Network × Bytes) → DnsCache → Option DnsCache
run_checks [] c = some c
run_checks ((net, host) ∷ checks) c = elim (check_ssrf net c host) [
  | none ↦ none
  | some (c', _) ↦ run_checks checks c'
]

-- A check that does not fault, with an entry still held behind it.
abbrev Passes : ℕ → ℕ → Bytes → Entry (List Bytes) → Option (DnsCache × Check) → Type 0
Passes cap n key e o = (c : DnsCache) × (r : Check) × (o ≡ some (c, r)) × Holds cap n c key e

look_up-Passes :
    (cap n : ℕ) (net : Network) (c : DnsCache) (key other : Bytes) (e : Entry (List Bytes))
    → other ≢ key
    → n < cap
    → Holds cap n c key e
    → Passes cap (suc n) key e (look_up net c other)
unfolding look_up
look_up-Passes cap n net c key other e ne room h = elim (Option-cases (net.lookup_ip other)) [
  | inl failed ↦ rw (failed, look_up) (_, _, refl, Holds-suc cap n c key e h)
  | inr (ips, found) ↦
      let w : Entry (List Bytes) = record {
        value = ips;
        expires_at = net.write_at + dns_cache_ttl;
      } in
      let (c', put_ok, h') = other-Holds cap n c key other e w ne room h in
      rw (found, look_up, put_ok) (_, _, refl, h')
]

resolved-Passes :
    (cap n : ℕ) (net : Network) (c : DnsCache) (key other : Bytes) (e : Entry (List Bytes))
    (r : Option (Entry (List Bytes)))
    → other ≢ key
    → n < cap
    → Holds cap n c key e
    → Passes cap (suc n) key e (resolved net other (some (c, r)))
unfolding resolved
resolved-Passes cap n net c key other e none ne room h =
    look_up-Passes cap n net c key other e ne room h
resolved-Passes cap n net c key other e (some w) ne room h = by_value w.value
  where
    by_value :
        (ips : List Bytes)
        → Passes cap
            (suc n)
            key
            e
            (elim ips [ [] ↦ look_up net c other | ◌∷◌ ip ips ↦ some (c, check_ips (ip ∷ ips)) ])
    by_value [] = look_up-Passes cap n net c key other e ne room h
    by_value (ip ∷ ips) = (_, _, refl, Holds-suc cap n c key e h)

check_host-Passes :
    (cap n : ℕ) (net : Network) (c : DnsCache) (key host ip : Bytes) (ips : List Bytes) (at : ℕ)
    → net.read_at ≤ at
    → suc n < cap
    → Holds cap n c key (pinned ip ips at)
    → Passes cap (suc (suc n)) key (pinned ip ips at) (check_host net c host)
unfolding check_host resolved
check_host-Passes cap n net c key host ip ips at soon room h =
    let e = pinned ip ips at in
    elim (Option-cases (net.parse_ip host)) [
      | inr (x, literal) ↦
          rw (literal, check_host)
            (_, _, refl, Holds-suc cap (suc n) c key e (Holds-suc cap n c key e h))
      | inl name ↦ elim (bytes_dec host key) [
        | yes p ↦
            let (c', hit, h') = read-Holds net.read_at cap n c key e (ground arith) h in
            (
              c',
              check_ips (ip ∷ ips),
              check_host-hit net c c' host ip ips at name (ap (Sharded.get net.read_at c) p ∙ hit),
              Holds-first cap (suc n) c' key e h',
            )
        | no q ↦
            let (c', r, got, h') = get-Holds net.read_at cap n c key host e q h in
            rw (name, check_host, got) (resolved-Passes cap (suc n) net c' key host e r q room h')
      ]
    ]

check_ssrf-Passes :
    (cap n : ℕ) (net : Network) (c : DnsCache) (key host ip : Bytes) (ips : List Bytes) (at : ℕ)
    → net.read_at ≤ at
    → suc n < cap
    → Holds cap n c key (pinned ip ips at)
    → Passes cap (suc (suc n)) key (pinned ip ips at) (check_ssrf net c host)
unfolding check_ssrf
check_ssrf-Passes cap n net c key host ip ips at soon room h =
    let e = pinned ip ips at in
    elim (Bool-cases net.allow_private) [
      | inl allowed ↦
          rw (allowed, check_ssrf)
            (_, _, refl, Holds-suc cap (suc n) c key e (Holds-suc cap n c key e h))
      | inr a ↦
          rw (check_ssrf-check_host net c host a)
            (check_host-Passes cap n net c key (host_only net host) ip ips at soon room h)
    ]

run_checks-Holds :
    (cap n : ℕ) (checks : List (Network × Bytes)) (c : DnsCache) (key ip : Bytes) (ips : List Bytes)
    (at : ℕ)
    → All (λ q. q.0.read_at ≤ at) checks
    → n + 2 * length checks ≤ cap
    → Holds cap n c key (pinned ip ips at)
    → (c' : DnsCache) × (run_checks checks c ≡ some c')
      × ((m : ℕ) × Holds cap m c' key (pinned ip ips at))
unfolding run_checks
run_checks-Holds cap n [] c key ip ips at soon room h = (c, refl, (n, h))
run_checks-Holds cap n ((net, host) ∷ checks) c key ip ips at (soon, after) room h =
    let (c', r, ran, h') = check_ssrf-Passes cap n net c key host ip ips at soon (omega arith) h in
    rw (ran, run_checks)
      (run_checks-Holds cap (suc (suc n)) checks c' key ip ips at after (omega arith) h')

-- Where private addresses are not allowed, let a name that a good DNS cache does not have be answered
-- by the resolver with at least one address. Then its check gives the verdict on those addresses; and
-- after any further checks of any hosts, fewer in number than half the capacity of the name's shard, a
-- check of the host gives the same verdict, whatever the resolver would answer then, if it and the
-- checks before it read the cache at most five minutes after the answer was stored.
pub check_ssrf-later :
    (net : Network) (c c1 : DnsCache) (host ip : Bytes) (ips : List Bytes)
    (s : Shard Bytes (List Bytes)) (checks : List (Network × Bytes))
    (lookup_ip : Bytes → Option (List Bytes)) (read_at write_at : ℕ)
    → IsValid c
    → net.allow_private ≡ false
    → net.parse_ip (host_only net host) ≡ none
    → Sharded.get net.read_at c (host_only net host) ≡ some (c1, none)
    → net.lookup_ip (host_only net host) ≡ some (ip ∷ ips)
    → Serves c (host_only net host) s
    → 2 * length checks < s.capacity
    → All (λ q. q.0.read_at ≤ net.write_at + dns_cache_ttl) checks
    → read_at ≤ net.write_at + dns_cache_ttl
    → (c' : DnsCache) × (c'' : DnsCache) × (c3 : DnsCache) × (check_ssrf net c host
        ≡ some (c', check_ips (ip ∷ ips)))
      × (run_checks checks c' ≡ some c'')
      × (check_ssrf (later net lookup_ip read_at write_at) c'' host
          ≡ some (c3, check_ips (ip ∷ ips)))
unfolding host_only
check_ssrf-later net c c1 host ip ips s checks lookup_ip read_at write_at v a name miss found at few
      all_soon soon =
    let h = host_only net host in
    let expires = net.write_at + dns_cache_ttl in
    let e = pinned ip ips expires in
    let (v1, (s1, at1, same)) = get-Serves net.read_at c c1 h s none v at miss in
    let (c', put_ok, held) = put-Holds c1 h e s1 v1 at1 in
    let (c'', ran, (m, held')) =
      run_checks-Holds s1.capacity 1 checks c' h ip ips expires all_soon (omega arith) held in
    let (c3, got, _) = read-Holds read_at s1.capacity m c'' h e (ground arith) held' in
    (
      c',
      c'',
      c3,
      (check_ssrf-check_host net c host a
          ∙ check_host-miss net c c1 c' h (ip ∷ ips) name miss found put_ok),
      ran,
      (check_ssrf-check_host (later net lookup_ip read_at write_at) c'' host a
          ∙ check_host-hit (later net lookup_ip read_at write_at) c'' c3 h ip ips expires name got),
    )
