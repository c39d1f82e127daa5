-- ===== src/Cache/Sharded/Recent.antt =====
-- internal/cache/lru.go: how long an entry stays in the sharded cache.
use go_proxy_server.Prelude.{
  ℕ, zero, suc, ◌<◌, ◌≡◌, ◌≢◌, ap, sym, subst, ◌∙◌, false, Option, some, some-injective, Bytes,
  bytes_dec, get_elem?, set, All-get_elem?, get_elem?-set_self, get_elem?-set_other, ℕ_discrete,
}
use go_proxy_server.Cache.Shard.{Entry, Shard, expired}
use go_proxy_server.Cache.Shard.Elements.{view}
use go_proxy_server.Cache.Shard.Coherence.{Inv}
use go_proxy_server.Cache.Shard.Refines.{get-spec_get, put-spec_put}
use go_proxy_server.Cache.Shard.Spec.{spec_get}
use go_proxy_server.Cache.Shard.Recent.{
  Recent, Recent-suc, Recent-spec_get, Recent-spec_put, Recent-read, Recent-write,
}
use go_proxy_server.Cache.Sharded.{ShardedLru, shard_index, get, put}
use go_proxy_server.Cache.Sharded.Laws.{IsValid, index_in_range, set-IsValid, get_at, put_at}

module _ {V : Type 0} where
  -- The shard of a key.
  abbrev pub Serves : ShardedLru V → Bytes → Shard Bytes V → Type 0
  Serves c key s = get_elem? c.shards (shard_index c.num_shards key) ≡ some s

  -- A good cache has the entry of a key among the `n` most recently used of its shard, which has
  -- room for `cap`.
  pub record Holds (cap n : ℕ) (c : ShardedLru V) (key : Bytes) (e : Entry V) : Type 0 where
    pub valid : IsValid c
    pub shard : Shard Bytes V
    pub serves : Serves c key shard
    pub capacity : shard.capacity ≡ cap
    pub recent : Recent bytes_dec key e n (view shard.lru_list)

  -- The shard of a key is written.
  own_shard :
      (cap n : ℕ) (c : ShardedLru V) (key : Bytes) (e : Entry V) (s' : Shard Bytes V)
      → IsValid c
      → Inv bytes_dec s'
      → s'.capacity ≡ cap
      → Recent bytes_dec key e n (view s'.lru_list)
      → Holds cap n (record c { shards = set c.shards (shard_index c.num_shards key) s' }) key e
  own_shard cap n c key e s' v inv same r = record {
    valid = set-IsValid c (shard_index c.num_shards key) s' v inv;
    shard = s';
    serves = get_elem?-set_self c.shards (shard_index c.num_shards key) s' (index_in_range c key v);
    capacity = same;
    recent = r;
  }

  -- Some shard is written, the key's own one or another.
  any_shard :
      (cap n : ℕ) (c : ShardedLru V) (key other : Bytes) (e : Entry V) (t t' : Shard Bytes V)
      → Holds cap n c key e
      → Serves c other t
      → Inv bytes_dec t'
      → t'.capacity ≡ t.capacity
      → (t.capacity ≡ cap
          → Recent bytes_dec key e n (view t.lru_list)
          → Recent bytes_dec key e (suc n) (view t'.lru_list))
      → Holds cap
          (suc n)
          (record c { shards = set c.shards (shard_index c.num_shards other) t' })
          key
          e
  any_shard cap n c key other e t t' h at inv same step =
      let i = shard_index c.num_shards key in
      let j = shard_index c.num_shards other in
      elim (ℕ_discrete j i) [
        | yes p ↦
            let is_t : h.shard ≡ t =
              some-injective h.shard t
                (sym h.serves ∙ ap (λ k. get_elem? c.shards k) (sym p) ∙ at) in
            let cap_t : t.capacity ≡ cap = ap (λ u. u.capacity) (sym is_t) ∙ h.capacity in
            subst (λ k. Holds cap (suc n) (record c { shards = set c.shards k t' }) key e) (sym p)
              (own_shard cap (suc n) c key e t' h.valid inv (same ∙ cap_t) (
                step cap_t (subst (λ u. Recent bytes_dec key e n (view u.lru_list)) is_t h.recent)))
        | no q ↦ record {
          valid = set-IsValid c j t' h.valid inv;
          shard = h.shard;
          serves = get_elem?-set_other c.shards i j t' q ∙ h.serves;
          capacity = h.capacity;
          recent = Recent-suc bytes_dec key e n (view h.shard.lru_list) h.recent;
        }
      ]

  -- An entry that is put is the most recent one of its shard.
  pub put-Holds :
      (c : ShardedLru V) (key : Bytes) (e : Entry V) (s : Shard Bytes V)
      → IsValid c
      → Serves c key s
      → (c' : ShardedLru V) × (put c key e ≡ some c') × Holds s.capacity 1 c' key e
  put-Holds c key e s v at =
      let i = shard_index c.num_shards key in
      let (t, at_t, inv) =
        All-get_elem? (Inv bytes_dec) c.shards i v.good (index_in_range c key v) in
      let is_s : t ≡ s = some-injective t s (sym at_t ∙ at) in
      let (t', p) = put-spec_put bytes_dec t key e inv in
      (
        _,
        put_at c key e t t' at_t p.runs,
        own_shard s.capacity 1 c key e t' v p.inv (p.same_capacity ∙ ap (λ u. u.capacity) is_s) (
            subst (Recent bytes_dec key e 1) (sym p.shows)
              (Recent-write bytes_dec t.capacity key e (view t.lru_list) inv.positive)),
      )

  -- An entry that is held is read until it expires, and is the most recent one then.
  pub read-Holds :
      (now cap n : ℕ) (c : ShardedLru V) (key : Bytes) (e : Entry V)
      → expired now e ≡ false
      → Holds cap n c key e
      → (c' : ShardedLru V) × (get now c key ≡ some (c', some e)) × Holds cap 1 c' key e
  read-Holds now cap n c key e good h =
      let i = shard_index c.num_shards key in
      let v = h.valid in
      let (t, at_t, inv) =
        All-get_elem? (Inv bytes_dec) c.shards i v.good (index_in_range c key v) in
      let is_t : h.shard ≡ t = some-injective h.shard t (sym h.serves ∙ at_t) in
      let (t', g) = get-spec_get bytes_dec t now key inv in
      let (hit, front) =
        Recent-read bytes_dec now key e n (view t.lru_list) good
          (subst (λ u. Recent bytes_dec key e n (view u.lru_list)) is_t h.recent) in
      (
        _,
        get_at now c key t t' (some e) at_t (g.runs ∙ ap (λ r. some (t', r)) hit),
        own_shard cap 1 c key e t' v g.inv
            (g.same_capacity ∙ ap (λ u. u.capacity) (sym is_t) ∙ h.capacity)
            (subst (Recent bytes_dec key e 1) (sym g.shows) front),
      )

  -- A read of another key.
  pub get-Holds :
      (now cap n : ℕ) (c : ShardedLru V) (key other : Bytes) (e : Entry V)
      → other ≢ key
      → Holds cap n c key e
      → (c' : ShardedLru V) × (r : Option (Entry V)) × (get now c other ≡ some (c', r))
        × Holds cap (suc n) c' key e
  get-Holds now cap n c key other e ne h =
      let j = shard_index c.num_shards other in
      let v = h.valid in
      let (t, at, inv) =
        All-get_elem? (Inv bytes_dec) c.shards j v.good (index_in_range c other v) in
      let (t', g) = get-spec_get bytes_dec t now other inv in
      (
        _,
        _,
        get_at now c other t t' _ at g.runs,
        any_shard cap n c key other e t t' h at g.inv g.same_capacity (λ _ r.
            subst (Recent bytes_dec key e (suc n)) (sym g.shows)
              (Recent-spec_get bytes_dec now key other e n (view t.lru_list) ne r)),
      )

  -- A write of another key, with room for both.
  pub other-Holds :
      (cap n : ℕ) (c : ShardedLru V) (key other : Bytes) (e w : Entry V)
      → other ≢ key
      → n < cap
      → Holds cap n c key e
      → (c' : ShardedLru V) × (put c other w ≡ some c') × Holds cap (suc n) c' key e
  other-Holds cap n c key other e w ne room h =
      let j = shard_index c.num_shards other in
      let v = h.valid in
      let (t, at, inv) =
        All-get_elem? (Inv bytes_dec) c.shards j v.good (index_in_range c other v) in
      let (t', p) = put-spec_put bytes_dec t other w inv in
      (
        _,
        put_at c other w t t' at p.runs,
        any_shard cap n c key other e t t' h at p.inv p.same_capacity (λ is_cap r.
            subst (Recent bytes_dec key e (suc n)) (sym p.shows) (
              Recent-spec_put bytes_dec t.capacity key other e w n (view t.lru_list) ne
                (subst (λ m. n < m) (sym is_cap) room) r)),
      )

  pub Holds-suc :
      (cap n : ℕ) (c : ShardedLru V) (key : Bytes) (e : Entry V)
      → Holds cap n c key e
      → Holds cap (suc n) c key e
  Holds-suc cap n c key e h = record {
    valid = h.valid;
    shard = h.shard;
    serves = h.serves;
    capacity = h.capacity;
    recent = Recent-suc bytes_dec key e n (view h.shard.lru_list) h.recent;
  }

  pub Holds-first :
      (cap n : ℕ) (c : ShardedLru V) (key : Bytes) (e : Entry V)
      → Holds cap 1 c key e
      → Holds cap (suc n) c key e
  Holds-first cap zero c key e h = h
  Holds-first cap (suc n) c key e h = Holds-suc cap (suc n) c key e (Holds-first cap n c key e h)

  -- A read leaves the key a shard of the same capacity.
  pub get-Serves :
      (now : ℕ) (c c' : ShardedLru V) (key : Bytes) (s : Shard Bytes V) (r : Option (Entry V))
      → IsValid c
      → Serves c key s
      → get now c key ≡ some (c', r)
      → IsValid c' × ((s' : Shard Bytes V) × Serves c' key s' × (s'.capacity ≡ s.capacity))
  get-Serves now c c' key s r v at got =
      let i = shard_index c.num_shards key in
      let (t, at_t, inv) =
        All-get_elem? (Inv bytes_dec) c.shards i v.good (index_in_range c key v) in
      let is_s : t ≡ s = some-injective t s (sym at_t ∙ at) in
      let (t', g) = get-spec_get bytes_dec t now key inv in
      let left : ShardedLru V = record c { shards = set c.shards i t' } in
      let answer = (spec_get bytes_dec now key (view t.lru_list)).1 in
      let is_c' : left ≡ c' =
        ap (λ p. p.0)
          (some-injective (left, answer) (c', r)
            (sym (get_at now c key t t' answer at_t g.runs) ∙ got)) in
      subst (λ d. IsValid d × ((s' : Shard Bytes V) × Serves d key s' × (s'.capacity ≡ s.capacity)))
        is_c'
        (
          set-IsValid c i t' v g.inv,
          (
            t',
            get_elem?-set_self c.shards i t' (index_in_range c key v),
            g.same_capacity ∙ ap (λ u. u.capacity) is_s,
          ),
        )
