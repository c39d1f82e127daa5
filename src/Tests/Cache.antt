-- ===== src/Tests/Cache.antt =====
-- internal/cache/lru.go at concrete inputs.
use go_proxy_server.Prelude.{
  ℕ, ◌≡◌, refl, ◌<◌, ◌+◌, ◌^◌, [], ◌∷◌, some, length, codes, pos, ℕ_discrete, arith,
}
use go_proxy_server.Prelude.GoMap.{lookup}
use go_proxy_server.Cache.Shard.{Entry, Shard, deref, clean}
use go_proxy_server.Cache.Shard.Coherence.{Inv}
use go_proxy_server.Cache.Shard.Elements.{ptr_of, view}
use go_proxy_server.Cache.Shard.Refines.{Gets, Puts, get-spec_get, put-spec_put}
use go_proxy_server.Cache.Shard.Cleaning.{clean_lem}
use go_proxy_server.Cache.Shard.Spec.{live, spec_put, lookup-spec_put_self}
use go_proxy_server.Cache.Sharded.{ShardedLru, new, shard_count, get, put, clean_expired}
use go_proxy_server.Cache.Sharded.Laws.{IsValid, held, new-IsValid, get-put, clean_expired-IsValid}

abbrev entry : ℕ → Entry ℕ
entry n = record { value = n; expires_at = 100 }

-- A full shard of capacity 1.
abbrev full : Shard ℕ ℕ
full = record {
  capacity = 1;
  cache = (7, 0) ∷ [];
  lru_list = record { ptr = 0; key = 7; value = entry 70 } ∷ [];
  next_ptr = 1;
}

full-Inv : Inv ℕ_discrete full
unfolding lookup ptr_of deref
full-Inv = record {
  coherent = record {
    same_keys = λ k. refl;
    distinct = (refl, refl, tt);
    below = (omega arith, tt);
  };
  positive = omega arith;
  bounded = omega arith;
}

get-spec_get_example : (s' : Shard ℕ ℕ) × Gets ℕ_discrete full 100 7 s'
get-spec_get_example = get-spec_get ℕ_discrete full 100 7 full-Inv

put-spec_put_example : (s' : Shard ℕ ℕ) × Puts ℕ_discrete full 8 (entry 80) s'
put-spec_put_example = put-spec_put ℕ_discrete full 8 (entry 80) full-Inv

clean_lem_example :
    let (s', removed) = clean ℕ_discrete 101 full in
    Inv ℕ_discrete s'
    × (view s'.lru_list ≡ live 101 (view full.lru_list))
    × (removed + length s'.lru_list ≡ length full.lru_list)
clean_lem_example = clean_lem ℕ_discrete 101 full full-Inv

lookup-spec_put_self_example :
    lookup ℕ_discrete 8 (spec_put ℕ_discrete 1 8 (entry 80) ((7, entry 70) ∷ [])) ≡ some (entry 80)
lookup-spec_put_self_example =
    lookup-spec_put_self ℕ_discrete 1 8 (entry 80) ((7, entry 70) ∷ []) (omega arith)

abbrev fresh : ShardedLru ℕ
fresh = new (pos 100) (pos 3)

few_shards : shard_count (pos 3) < 2 ^ 32
unfolding shard_count
few_shards = omega arith

fresh-IsValid : IsValid fresh
fresh-IsValid = new-IsValid (pos 100) (pos 3) few_shards

get-put_example :
    (c' : ShardedLru ℕ) × (c'' : ShardedLru ℕ) × (put fresh (codes "proxy") (entry 1) ≡ some c')
    × IsValid c'
    × (get 5 c' (codes "proxy") ≡ some (c'', some (entry 1)))
    × IsValid c''
get-put_example = get-put 5 fresh (codes "proxy") (entry 1) fresh-IsValid refl

clean_expired-IsValid_example :
    let (c', total) = clean_expired (λ i. i) fresh in
    IsValid c' × (total + held c'.shards ≡ held fresh.shards)
clean_expired-IsValid_example = clean_expired-IsValid (λ i. i) fresh fresh-IsValid
