-- ===== src/Cache/Shard/Spec.antt =====
-- What a shard of internal/cache/lru.go promises: a list of keys and entries, most recently used
-- first, with no map and no pointers.
use go_proxy_server.Prelude.{
  ◌<◌, ◌≡◌, refl, arith, if_pos, ℕ, ◌+◌, if◌then◌else◌, ltb, [], ◌∷◌, Option, none, some, length,
}
use go_proxy_server.Prelude.GoMap.{GoMap, lookup, delete}
use go_proxy_server.Cache.Shard.{Entry, expired}
use go_proxy_server.Cache.Shard.Elements.{drop_last}

module _ {K V : Type 0} (dec : Discrete K) where
  -- A hit moves the entry to the front, an expired entry goes.
  unfoldable pub spec_get : ℕ → K → GoMap K (Entry V) → GoMap K (Entry V) × Option (Entry V)
  spec_get now k l = elim (lookup dec k l) [
    | none ↦ (l, none)
    | some e ↦ if expired now e then (delete dec k l, none) else ((k, e) ∷ delete dec k l, some e)
  ]

  -- A new key beyond the capacity costs the least recently used one its place.
  unfoldable pub spec_put : ℕ → K → Entry V → GoMap K (Entry V) → GoMap K (Entry V)
  spec_put cap k e l = elim (lookup dec k l) [
    | none ↦ if ltb cap (length l + 1) then drop_last ((k, e) ∷ l) else (k, e) ∷ l
    | some _ ↦ (k, e) ∷ delete dec k l
  ]

-- The entries that are still good.
unfoldable pub live : {K V : Type 0} → ℕ → GoMap K (Entry V) → GoMap K (Entry V)
live now [] = []
live now ((k, e) ∷ l) = if expired now e then live now l else (k, e) ∷ live now l

module _ {K V : Type 0} (dec : Discrete K) where
  lookup-drop_last :
      (k : K) (e : Entry V) (l : GoMap K (Entry V))
      → 0 < length l
      → lookup dec k (drop_last ((k, e) ∷ l)) ≡ some e
  unfolding lookup drop_last
  lookup-drop_last k e [] h = absurd (omega arith)
  lookup-drop_last k e (x ∷ l) h = if_pos (dec k k) refl (some e) _

  -- What was put is what is found.
  pub lookup-spec_put_self :
      (cap : ℕ) (k : K) (e : Entry V) (l : GoMap K (Entry V))
      → 0 < cap
      → lookup dec k (spec_put dec cap k e l) ≡ some e
  unfolding spec_put lookup
  lookup-spec_put_self cap k e l h = ground (arith, lookup-drop_last k e l)
