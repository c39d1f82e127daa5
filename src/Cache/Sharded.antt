-- ===== src/Cache/Sharded.antt =====
-- internal/cache/lru.go: `ShardedLRU`. A key is a byte string.
pub mod Laws
pub mod Recent
use Prim.Native.Nat.{bit_xor}
use go_proxy_server.Prelude.{
  ℕ, ◌+◌, ◌-◌, ◌*◌, ◌/◌, ◌%◌, ◌^◌, if◌then◌else◌, ltb, List, [], ◌∷◌, Option, none, some, length,
  Bytes, bytes_dec, get_elem?, set, replicate, ℤ, pos, negsuc, lt_const, to_ℕ,
}
use go_proxy_server.Cache.Shard.{Entry, Shard}
use go_proxy_server.Cache.Shard

pub record ShardedLru (V : Type 0) : Type 0 where
  pub shards : List (Shard Bytes V)
  pub num_shards : ℕ

-- Go's `a / n`, which is 0 or below where `a` is negative.
abbrev pub quot : ℤ → ℕ → ℤ
quot (pos a) n = pos (a / n)
quot (negsuc a) n = if ltb (a + 1) n then pos 0 else negsuc ((a + 1) / n - 1)

-- `if numShards <= 0 { numShards = 16 }`
unfoldable pub shard_count : ℤ → ℕ
shard_count n = if lt_const n 1 then 16 else to_ℕ n

unfoldable pub shard_capacity : ℤ → ℕ → ℕ
shard_capacity total n = let c = quot total n in if lt_const c 10 then 10 else to_ℕ c

abbrev pub empty_shard : {V : Type 0} → ℕ → Shard Bytes V
empty_shard cap = record { capacity = cap; cache = []; lru_list = []; next_ptr = 0 }

-- `NewShardedLRU`
unfoldable pub new : {V : Type 0} → ℤ → ℤ → ShardedLru V
new total n =
    let count = shard_count n in
    record {
      shards = replicate count (empty_shard (shard_capacity total count));
      num_shards = count;
    }

-- The loop of `getShard`: `hash ^= uint32(key[i]); hash *= 16777619` on `uint32`.
unfoldable pub hash_loop : ℕ → Bytes → ℕ
hash_loop hash [] = hash
hash_loop hash (b ∷ key) = hash_loop (bit_xor hash b * 16777619 % 2 ^ 32) key

unfoldable pub shard_index : ℕ → Bytes → ℕ
unfolding hash_loop
shard_index n key = hash_loop 2166136261 key % (n % 2 ^ 32)

module _ {V : Type 0} where
  -- `Get`. `none` is a fault: an index out of range, or one in the shard.
  unfoldable pub get : ℕ → ShardedLru V → Bytes → Option (ShardedLru V × Option (Entry V))
  get now c key = elim (get_elem? c.shards (shard_index c.num_shards key)) [
    | none ↦ none
    | some s ↦ elim (Shard.get bytes_dec now s key) [
      | none ↦ none
      | some (s', r) ↦
          some (record c { shards = set c.shards (shard_index c.num_shards key) s' }, r)
    ]
  ]

  -- `Put`.
  unfoldable pub put : ShardedLru V → Bytes → Entry V → Option (ShardedLru V)
  put c key value = elim (get_elem? c.shards (shard_index c.num_shards key)) [
    | none ↦ none
    | some s ↦ elim (Shard.put bytes_dec s key value) [
      | none ↦ none
      | some s' ↦ some (record c { shards = set c.shards (shard_index c.num_shards key) s' })
    ]
  ]

  -- The loop of `CleanExpired` over the shards; each reads the clock anew.
  unfoldable pub clean_shards : (ℕ → ℕ) → ℕ → List (Shard Bytes V) → List (Shard Bytes V) × ℕ
  clean_shards clock i [] = ([], 0)
  clean_shards clock i (s ∷ ss) =
      let (s', removed) = Shard.clean bytes_dec (clock i) s in
      let (ss', total) = clean_shards clock (i + 1) ss in (s' ∷ ss', removed + total)

  unfoldable pub clean_expired : (ℕ → ℕ) → ShardedLru V → ShardedLru V × ℕ
  unfolding clean_shards
  clean_expired clock c =
      let (ss, total) = clean_shards clock 0 c.shards in (record c { shards = ss }, total)
