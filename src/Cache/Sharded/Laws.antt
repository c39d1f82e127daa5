-- ===== src/Cache/Sharded/Laws.antt =====
-- internal/cache/lru.go: the sharded cache as a whole.
use go_proxy_server.Prelude.{
  ℕ, ◌+◌, ◌^◌, ◌<◌, ◌≤◌, ◌≡◌, refl, ◌∙◌, false, List, [], ◌∷◌, Option, some, length, Bytes,
  bytes_dec, get_elem?, set, All, ℤ, pos, negsuc, arith, length-set, length-replicate,
  get_elem?-set_self, All-get_elem?, set-All, replicate-All,
}
use go_proxy_server.Cache.Shard.{Entry, Shard, expired}
use go_proxy_server.Cache.Shard
use go_proxy_server.Cache.Shard.Elements.{view, ptr_of}
use go_proxy_server.Prelude.GoMap.{GoMap, lookup}
use go_proxy_server.Cache.Shard.Coherence.{Inv}
use go_proxy_server.Cache.Shard.Refines.{get-spec_get, put-spec_put}
use go_proxy_server.Cache.Shard.Cleaning.{clean_lem}
use go_proxy_server.Cache.Shard.Spec.{spec_get, spec_put, lookup-spec_put_self}
use go_proxy_server.Cache.Sharded.{
  ShardedLru, new, shard_count, shard_capacity, shard_index, get, put, clean_shards, clean_expired,
  empty_shard,
}

shard_count_pos : (n : ℤ) → 0 < shard_count n
unfolding shard_count
shard_count_pos n = ground arith

shard_capacity_pos : (total : ℤ) (n : ℕ) → 10 ≤ shard_capacity total n
unfolding shard_capacity
shard_capacity_pos (pos a) n = ground arith
shard_capacity_pos (negsuc a) n = ground arith

module _ {V : Type 0} where
  -- As many good shards as the cache says, and a number of them that fits `uint32`.
  pub record IsValid (c : ShardedLru V) : Type 0 where
    pub good : All (Inv bytes_dec) c.shards
    pub counted : length c.shards ≡ c.num_shards
    pub some_shard : 0 < c.num_shards
    pub fits : c.num_shards < 2 ^ 32

  -- Every key has its shard.
  pub index_in_range :
      (c : ShardedLru V) (key : Bytes) → IsValid c → shard_index c.num_shards key < length c.shards
  unfolding shard_index
  index_in_range c key v = omega (arith, v.counted)

  empty-Inv : (cap : ℕ) → 0 < cap → Inv {V = V} bytes_dec (empty_shard cap)
  unfolding lookup ptr_of
  empty-Inv cap h = record {
    coherent = record { same_keys = λ k. refl; distinct = tt; below = tt };
    positive = h;
    bounded = omega arith;
  }

  -- A new cache is good, whatever capacity and number of shards are asked for.
  pub new-IsValid : (total n : ℤ) → shard_count n < 2 ^ 32 → IsValid (new {V = V} total n)
  unfolding new
  new-IsValid total n h =
      let cap = shard_capacity total (shard_count n) in
      record {
        good =
            replicate-All (Inv {V = V} bytes_dec) (shard_count n) (empty_shard cap)
              (empty-Inv cap (omega (arith, shard_capacity_pos total (shard_count n))));
        counted = length-replicate {A = Shard Bytes V} (shard_count n) (empty_shard cap);
        some_shard = shard_count_pos n;
        fits = h;
      }

  pub set-IsValid :
      (c : ShardedLru V) (i : ℕ) (s : Shard Bytes V)
      → IsValid c
      → Inv bytes_dec s
      → IsValid (record c { shards = set c.shards i s })
  set-IsValid c i s v h = record {
    good = set-All (Inv bytes_dec) c.shards i s v.good h;
    counted = omega (arith, length-set c.shards i s, v.counted);
    some_shard = v.some_shard;
    fits = v.fits;
  }

  pub get_at :
      (now : ℕ) (c : ShardedLru V) (key : Bytes) (s s' : Shard Bytes V) (r : Option (Entry V))
      → get_elem? c.shards (shard_index c.num_shards key) ≡ some s
      → Shard.get bytes_dec now s key ≡ some (s', r)
      → get now c key
        ≡ some (record c { shards = set c.shards (shard_index c.num_shards key) s' }, r)
  unfolding get
  get_at now c key s s' r h g = rw (h, get, g)

  pub put_at :
      (c : ShardedLru V) (key : Bytes) (e : Entry V) (s s' : Shard Bytes V)
      → get_elem? c.shards (shard_index c.num_shards key) ≡ some s
      → Shard.put bytes_dec s key e ≡ some s'
      → put c key e ≡ some (record c { shards = set c.shards (shard_index c.num_shards key) s' })
  unfolding put
  put_at c key e s s' h g = rw (h, put, g)

  -- A read never faults and keeps the cache good.
  pub get-IsValid :
      (now : ℕ) (c : ShardedLru V) (key : Bytes)
      → IsValid c
      → (c' : ShardedLru V) × (r : Option (Entry V)) × (get now c key ≡ some (c', r)) × IsValid c'
  get-IsValid now c key v =
      let i = shard_index c.num_shards key in
      let (s, at, inv) = All-get_elem? (Inv bytes_dec) c.shards i v.good (index_in_range c key v) in
      let (s', g) = get-spec_get bytes_dec s now key inv in
      (_, _, get_at now c key s s' _ at g.runs, set-IsValid c i s' v g.inv)

  found_again :
      (room now : ℕ) (key : Bytes) (e : Entry V) (l : GoMap Bytes (Entry V))
      → 0 < room
      → expired now e ≡ false
      → (spec_get bytes_dec now key (spec_put bytes_dec room key e l)).1 ≡ some e
  unfolding spec_get
  found_again room now key e l h good =
      rw (lookup-spec_put_self bytes_dec room key e l h, spec_get, good)

  -- What is written is read back, from whatever shard it went to, for as long as it is good; no
  -- call faults, and the cache stays good.
  pub get-put :
      (now : ℕ) (c : ShardedLru V) (key : Bytes) (e : Entry V)
      → IsValid c
      → expired now e ≡ false
      → (c' : ShardedLru V) × (c'' : ShardedLru V) × (put c key e ≡ some c')
        × IsValid c'
        × (get now c' key ≡ some (c'', some e))
        × IsValid c''
  get-put now c key e v good =
      let i = shard_index c.num_shards key in
      let r = index_in_range c key v in
      let (s, at, inv) = All-get_elem? (Inv bytes_dec) c.shards i v.good r in
      let (s', p) = put-spec_put bytes_dec s key e inv in
      let c' : ShardedLru V = record c { shards = set c.shards i s' } in
      let v' = set-IsValid c i s' v p.inv in
      let (s'', g) = get-spec_get bytes_dec s' now key p.inv in
      let answer : (spec_get bytes_dec now key (view s'.lru_list)).1 ≡ some e =
        rw p.shows (found_again s.capacity now key e (view s.lru_list) inv.positive good) in
      (
        c',
        _,
        put_at c key e s s' at p.runs,
        v',
        get_at now c' key s' s'' (some e) (get_elem?-set_self c.shards i s' r)
            (rw answer at g.runs),
        set-IsValid c' i s'' v' g.inv,
      )

  abbrev pub held : List (Shard Bytes V) → ℕ
  held [] = 0
  held (s ∷ ss) = length s.lru_list + held ss

  clean_shards_lem :
      (clock : ℕ → ℕ) (i : ℕ) (ss : List (Shard Bytes V))
      → All (Inv bytes_dec) ss
      → let (ss', total) = clean_shards clock i ss in
        All (Inv bytes_dec) ss' × (length ss' ≡ length ss) × (total + held ss' ≡ held ss)
  unfolding clean_shards
  clean_shards_lem clock i [] h = (tt, refl, refl)
  clean_shards_lem clock i (s ∷ ss) h =
      let (inv, shows, counted) = clean_lem bytes_dec (clock i) s h.0 in
      let (invs, same, total) = clean_shards_lem clock (i + 1) ss h.1 in
      ((inv, invs), omega arith, omega arith)

  -- `CleanExpired` keeps the cache good, and returns by how many entries it has shrunk.
  pub clean_expired-IsValid :
      (clock : ℕ → ℕ) (c : ShardedLru V)
      → IsValid c
      → let (c', total) = clean_expired clock c in
        IsValid c' × (total + held c'.shards ≡ held c.shards)
  unfolding clean_expired
  clean_expired-IsValid clock c v =
      let (invs, same, total) = clean_shards_lem clock 0 c.shards v.good in
      (
        record {
          good = invs;
          counted = same ∙ v.counted;
          some_shard = v.some_shard;
          fits = v.fits;
        },
        total,
      )
