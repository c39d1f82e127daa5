-- ===== src/Cache/Shard.antt =====
-- internal/cache/lru.go: `lruShard`, the map from keys to elements of a `container/list` and the
-- list itself, most recently used first. An element is known by its pointer, a number. A time is
-- a number, and `t.After(u)` is `u < t`.
pub mod Elements
pub mod Spec
pub mod Recent
pub mod Coherence
pub mod Refines
pub mod Cleaning
use go_proxy_server.Prelude.{
  ℕ, suc, ◌+◌, Bool, if◌then◌else◌, ltb, List, [], ◌∷◌, Option, none, some, length, ite, ℕ_discrete,
}
use go_proxy_server.Prelude.GoMap.{GoMap, lookup, insert, delete}

-- `Entry`
pub record Entry (V : Type 0) : Type 0 where
  pub value : V
  pub expires_at : ℕ

-- A `list.Element` with the `lruEntry` that it holds.
pub record Element (K V : Type 0) : Type 0 where
  pub ptr : ℕ
  pub key : K
  pub value : Entry V

pub record Shard (K V : Type 0) : Type 0 where
  pub capacity : ℕ
  pub cache : GoMap K ℕ
  pub lru_list : List (Element K V)
  pub next_ptr : ℕ

-- `time.Now().After(entry.value.ExpiresAt)`
abbrev pub expired : {V : Type 0} → ℕ → Entry V → Bool
expired now e = ltb e.expires_at now

module _ {K V : Type 0} where
  -- The element behind a pointer.
  unfoldable pub deref : ℕ → List (Element K V) → Option (Element K V)
  deref p [] = none
  deref p (x ∷ xs) = ite (ℕ_discrete x.ptr p) (some x) (deref p xs)

  -- `lruList.Remove(elem)`
  unfoldable pub remove : ℕ → List (Element K V) → List (Element K V)
  remove p [] = []
  remove p (x ∷ xs) = ite (ℕ_discrete x.ptr p) xs (x ∷ remove p xs)

  -- `lruList.Back()`
  unfoldable pub back : List (Element K V) → Option (Element K V)
  back [] = none
  back (x ∷ []) = some x
  back (x ∷ y ∷ xs) = back (y ∷ xs)

  module _ (dec : Discrete K) where
    -- Take an element out of the list and out of the map.
    unfoldable pub drop_element : Shard K V → K → ℕ → Shard K V
    drop_element s key p = record s {
      cache = delete dec key s.cache;
      lru_list = remove p s.lru_list;
    }

    -- The branch of `Get` with the element at hand.
    unfoldable pub get_element : ℕ → Shard K V → K → Element K V → Shard K V × Option (Entry V)
    get_element now s key x =
        if expired now x.value
        then (drop_element s key x.ptr, none)
        else (record s { lru_list = x ∷ remove x.ptr s.lru_list }, some x.value)

    -- `Get` on the shard. `none` is a fault: a pointer of the map that the list does not have.
    unfoldable pub get : ℕ → Shard K V → K → Option (Shard K V × Option (Entry V))
    get now s key = elim (lookup dec key s.cache) [
      | none ↦ some (s, none)
      | some p ↦ elim (deref p s.lru_list) [ none ↦ none | some x ↦ some (get_element now s key x) ]
    ]

    -- `if Len() > capacity { … }`
    unfoldable pub evict : Shard K V → Shard K V
    evict s =
        if ltb s.capacity (length s.lru_list)
        then elim (back s.lru_list) [ none ↦ s | some x ↦ drop_element s x.key x.ptr ]
        else s

    -- A new element in front, and its pointer in the map.
    unfoldable pub push : Shard K V → K → Entry V → Shard K V
    push s key value = record s {
      cache = insert dec key s.next_ptr s.cache;
      lru_list = record { ptr = s.next_ptr; key = key; value = value } ∷ s.lru_list;
      next_ptr = suc s.next_ptr;
    }

    -- `Put` on the shard.
    unfoldable pub put : Shard K V → K → Entry V → Option (Shard K V)
    put s key value = elim (lookup dec key s.cache) [
      | none ↦ some (evict (push s key value))
      | some p ↦ elim (deref p s.lru_list) [
        | none ↦ none
        | some x ↦
            some (record s { lru_list = record x { value = value } ∷ remove x.ptr s.lru_list })
      ]
    ]

    -- The loop of `CleanExpired` over one shard's list from its back, with the number removed.
    unfoldable pub clean_loop : ℕ → List (Element K V) → Shard K V → Shard K V × ℕ
    clean_loop now [] s = (s, 0)
    clean_loop now (x ∷ xs) s =
        let (s', removed) = clean_loop now xs s in
        if expired now x.value then (drop_element s' x.key x.ptr, removed + 1) else (s', removed)

    unfoldable pub clean : ℕ → Shard K V → Shard K V × ℕ
    clean now s = clean_loop now s.lru_list s
