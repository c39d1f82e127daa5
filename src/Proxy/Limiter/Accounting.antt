-- ===== src/Proxy/Limiter/Accounting.antt =====
-- internal/proxy/limiter.go: the counters of the limiter beside the connections that are open.
use go_proxy_server.Prelude.{
  ℕ, ◌+◌, ◌-◌, ◌<◌, ◌≤◌, ◌≡◌, refl, ◌∙◌, dec_lt, ◌⊎◌, ◌↔◌, Bool, true, false, if◌then◌else◌, List,
  [], ◌∷◌, length, Bytes, bytes_dec, ite, arith,
}
use go_proxy_server.Prelude.GoMap.{GoMap, lookup, lookup-insert, lookup-delete}
use go_proxy_server.Prelude.Counting.{count, erase, count-erase, length-erase}
use go_proxy_server.Proxy.Limiter.{
  LimiterConfig, ConnectionLimiter, new_limiter, or_zero, per_ip_connections, acquire, release_ip,
  release,
}

-- What the limiter records, `live` being the addresses of the open connections.
pub record Tracks (cfg : LimiterConfig) (l : ConnectionLimiter) (live : List Bytes) : Type 0 where
  pub total : l.total ≡ length live
  pub slots : 0 < cfg.max_connections → l.sem_used ≡ length live
  pub room : 0 < cfg.max_connections → l.sem_cap ≡ cfg.max_connections
  pub within : 0 < cfg.max_connections → length live ≤ cfg.max_connections
  pub by_ip : 0 < cfg.max_per_ip → (ip : Bytes) → per_ip_connections l ip ≡ count bytes_dec ip live
  pub within_ip : 0 < cfg.max_per_ip → (ip : Bytes) → count bytes_dec ip live ≤ cfg.max_per_ip

-- A new limiter has no connections.
pub new_limiter-Tracks : (cfg : LimiterConfig) → Tracks cfg (new_limiter cfg) []
unfolding new_limiter per_ip_connections lookup count
new_limiter-Tracks cfg = record {
  total = refl;
  slots = λ h. refl;
  room = λ h. ground arith;
  within = λ h. omega arith;
  by_ip = λ h ip. refl;
  within_ip = λ h ip. omega arith;
}

-- There is room for one more connection from an address.
abbrev pub HasRoom : LimiterConfig → Bytes → List Bytes → Type 0
HasRoom cfg ip live =
    ((cfg.max_connections ≡ 0) ⊎ (length live < cfg.max_connections))
    × ((cfg.max_per_ip ≡ 0) ⊎ (count bytes_dec ip live < cfg.max_per_ip))

-- `Acquire` says yes exactly if both limits leave room.
pub acquire_iff :
    (cfg : LimiterConfig) (l : ConnectionLimiter) (ip : Bytes) (live : List Bytes)
    → Tracks cfg l live
    → ((acquire cfg l ip).1 ≡ true) ↔ HasRoom cfg ip live
unfolding acquire per_ip_connections
acquire_iff cfg l ip live t = elim (dec_lt 0 cfg.max_per_ip) [
  | yes p ↦ let e = t.by_ip p ip in (λ h. ground arith, λ h. ground arith)
  | no n ↦ (λ h. ground arith, λ h. ground arith)
]

-- The open connections after a call of `Acquire`.
abbrev pub after_acquire : Bool → Bytes → List Bytes → List Bytes
after_acquire true ip live = ip ∷ live
after_acquire false ip live = live

acquire_counts :
    (cfg : LimiterConfig) (l : ConnectionLimiter) (ip j : Bytes)
    → 0 < cfg.max_per_ip
    → per_ip_connections (acquire cfg l ip).0 j ≡ (
        if (acquire cfg l ip).1
        then ite (bytes_dec ip j) (per_ip_connections l j + 1) (per_ip_connections l j)
        else per_ip_connections l j)
unfolding acquire per_ip_connections
acquire_counts cfg l ip j h =
    let n = or_zero (lookup bytes_dec ip l.per_ip) in
    ground (
      arith,
      lookup-insert bytes_dec ip j n l.per_ip,
      lookup-insert bytes_dec ip j (n + 1) l.per_ip,
    )

acquire_total :
    (cfg : LimiterConfig) (l : ConnectionLimiter) (ip : Bytes)
    → ((acquire cfg l ip).0.total ≡ (if (acquire cfg l ip).1 then l.total + 1 else l.total))
      × ((acquire cfg l ip).0.sem_cap ≡ l.sem_cap)
unfolding acquire
acquire_total cfg l ip = ground arith

acquire_slots :
    (cfg : LimiterConfig) (l : ConnectionLimiter) (ip : Bytes)
    → 0 < cfg.max_connections
    → (acquire cfg l ip).0.sem_used ≡ (if (acquire cfg l ip).1 then l.sem_used + 1 else l.sem_used)
unfolding acquire
acquire_slots cfg l ip h = ground arith

count-after_acquire :
    (b : Bool) (ip j : Bytes) (live : List Bytes)
    → count bytes_dec j (after_acquire b ip live) ≡ (
        if b
        then ite (bytes_dec ip j) (count bytes_dec j live + 1) (count bytes_dec j live)
        else count bytes_dec j live)
unfolding count
count-after_acquire true ip j live = ground arith
count-after_acquire false ip j live = refl

within_slots :
    (cfg : LimiterConfig) (ip : Bytes) (live : List Bytes) (b : Bool)
    → 0 < cfg.max_connections
    → length live ≤ cfg.max_connections
    → (b ≡ true → HasRoom cfg ip live)
    → length (after_acquire b ip live) ≤ cfg.max_connections
within_slots cfg ip live true h w r = let room = r refl in ground arith
within_slots cfg ip live false h w r = w

-- Whatever `Acquire` says, the limiter goes on recording the open connections, with one more of the
-- address if it said yes, and no limit is passed.
pub acquire-Tracks :
    (cfg : LimiterConfig) (l : ConnectionLimiter) (ip : Bytes) (live : List Bytes)
    → Tracks cfg l live
    → let (l', admitted) = acquire cfg l ip in Tracks cfg l' (after_acquire admitted ip live)
acquire-Tracks cfg l ip live t =
    let rooms = acquire_iff cfg l ip live t in
    let (total, kept) = acquire_total cfg l ip in
    record {
      total = ground arith;
      slots = λ h. ground (arith, acquire_slots cfg l ip h);
      room = λ h. kept ∙ t.room h;
      within = λ h. within_slots cfg ip live (acquire cfg l ip).1 h (t.within h) rooms.0;
      by_ip = λ h j. ground (
        arith,
        acquire_counts cfg l ip j h,
        t.by_ip h j,
        count-after_acquire (acquire cfg l ip).1 ip j live,
      );
      within_ip = λ h j.
          ground (arith, t.within_ip h j, count-after_acquire (acquire cfg l ip).1 ip j live);
    }

release_ip_counts :
    (m : GoMap Bytes ℕ) (ip j : Bytes)
    → or_zero (lookup bytes_dec j (release_ip ip m))
      ≡ ite (bytes_dec ip j) (or_zero (lookup bytes_dec j m) - 1) (or_zero (lookup bytes_dec j m))
unfolding release_ip
release_ip_counts m ip j =
    let n = or_zero (lookup bytes_dec ip m) in
    ground (arith, lookup-insert bytes_dec ip j (n - 1) m, lookup-delete bytes_dec ip j m)

-- The release of an open connection is recorded.
pub release-Tracks :
    (cfg : LimiterConfig) (l : ConnectionLimiter) (ip : Bytes) (live : List Bytes)
    → Tracks cfg l live
    → 0 < count bytes_dec ip live
    → Tracks cfg (release cfg l ip) (erase bytes_dec ip live)
unfolding release per_ip_connections
release-Tracks cfg l ip live t h =
    let shorter = length-erase bytes_dec ip live h in
    record {
      total = omega arith;
      slots = λ h'. ground (arith, t.slots h');
      room = t.room;
      within = λ h'. omega (arith, t.within h');
      by_ip = λ h' j.
          ground (
            arith,
            t.by_ip h' j,
            release_ip_counts l.per_ip ip j,
            count-erase bytes_dec ip j live h,
          );
      within_ip = λ h' j. ground (arith, t.within_ip h' j, count-erase bytes_dec ip j live h);
    }
