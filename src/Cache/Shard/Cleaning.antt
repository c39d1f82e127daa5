-- ===== src/Cache/Shard/Cleaning.antt =====
-- internal/cache/lru.go: one shard's round of `CleanExpired`.
use go_proxy_server.Prelude.{
  ℕ, ◌+◌, ◌≡◌, refl, sym, ap, ◌∙◌, if◌then◌else◌, true, false, List, [], ◌∷◌, ◌++◌, inl, inr, some,
  length, arith, Bool-cases,
}
use mathlib.Core.List.{append_assoc}
use go_proxy_server.Cache.Shard.{
  Element, Shard, deref, remove, expired, drop_element, clean_loop, clean,
}
use go_proxy_server.Cache.Shard.Elements.{ptr_of, Distinct, view}
use go_proxy_server.Cache.Shard.Coherence.{Inv, drop_element-Inv}
use go_proxy_server.Cache.Shard.Spec.{live}

unfoldable live_elements : {K V : Type 0} → ℕ → List (Element K V) → List (Element K V)
live_elements now [] = []
live_elements now (x ∷ xs) =
    if expired now x.value then live_elements now xs else x ∷ live_elements now xs

view-live_elements :
    {K V : Type 0} (now : ℕ) (l : List (Element K V))
    → view (live_elements now l) ≡ live now (view l)
unfolding live_elements live
view-live_elements now [] = refl
view-live_elements now (x ∷ l) = ground (arith, view-live_elements now l)

module _ {K V : Type 0} (dec : Discrete K) where
  -- An element in the middle of a list with distinct keys and pointers is found and removed.
  record Middle (pre : List (Element K V)) (x : Element K V) (post : List (Element K V))
      : Type 0 where
    by_key : ptr_of dec x.key (pre ++ x ∷ post) ≡ some x.ptr
    by_ptr : deref x.ptr (pre ++ x ∷ post) ≡ some x
    removed : remove x.ptr (pre ++ x ∷ post) ≡ pre ++ post

  middle :
      (pre : List (Element K V)) (x : Element K V) (post : List (Element K V))
      → Distinct dec (pre ++ x ∷ post)
      → Middle pre x post
  unfolding ptr_of deref remove
  middle [] x post d = record {
    by_key = ground arith;
    by_ptr = ground arith;
    removed = ground arith;
  }
  middle (y ∷ pre) x post d =
      let m = middle pre x post d.2 in
      record {
        by_key = ground (arith, m.by_key);
        by_ptr = ground (arith, m.by_ptr);
        removed = ground (arith, m.by_ptr, m.removed);
      }

  record Cleaned (now : ℕ) (pre xs : List (Element K V)) (s : Shard K V) (s' : Shard K V)
      (removed : ℕ) : Type 0 where
    inv : Inv dec s'
    rest : s'.lru_list ≡ pre ++ live_elements now xs
    counted : removed + length (live_elements now xs) ≡ length xs
    same_capacity : s'.capacity ≡ s.capacity

  loop_old :
      (now : ℕ) (x : Element K V) (xs : List (Element K V)) (s : Shard K V)
      → expired now x.value ≡ true
      → let (s', n) = clean_loop dec now xs s in
        clean_loop dec now (x ∷ xs) s ≡ (drop_element dec s' x.key x.ptr, n + 1)
  unfolding clean_loop
  loop_old now x xs s h = rw h

  loop_good :
      (now : ℕ) (x : Element K V) (xs : List (Element K V)) (s : Shard K V)
      → expired now x.value ≡ false
      → clean_loop dec now (x ∷ xs) s ≡ clean_loop dec now xs s
  unfolding clean_loop
  loop_good now x xs s h = rw h

  drop-Cleaned :
      (now : ℕ) (pre xs : List (Element K V)) (x : Element K V) (s s' : Shard K V) (n : ℕ)
      → expired now x.value ≡ true
      → Inv dec s'
      → s'.lru_list ≡ pre ++ x ∷ live_elements now xs
      → n + length (live_elements now xs) ≡ length xs
      → s'.capacity ≡ s.capacity
      → Cleaned now pre (x ∷ xs) s (drop_element dec s' x.key x.ptr) (n + 1)
  unfolding drop_element live_elements
  drop-Cleaned now pre xs x s s' n old v e c k =
      let m = middle pre x (live_elements now xs) (rw e at v.coherent.distinct) in
      record {
        inv = drop_element-Inv dec s' x.key x.ptr x v (rw e m.by_key) (rw e m.by_ptr);
        rest = rw (e, old) m.removed;
        counted = rw old (omega arith);
        same_capacity = k;
      }

  keep-Cleaned :
      (now : ℕ) (pre xs : List (Element K V)) (x : Element K V) (s s' : Shard K V) (n : ℕ)
      → expired now x.value ≡ false
      → Inv dec s'
      → s'.lru_list ≡ pre ++ x ∷ live_elements now xs
      → n + length (live_elements now xs) ≡ length xs
      → s'.capacity ≡ s.capacity
      → Cleaned now pre (x ∷ xs) s s' n
  unfolding live_elements
  keep-Cleaned now pre xs x s s' n good v e c k = record {
    inv = v;
    rest = rw good e;
    counted = rw good (omega arith);
    same_capacity = k;
  }

  clean_loop-Cleaned :
      (now : ℕ) (pre xs : List (Element K V)) (s : Shard K V)
      → Inv dec s
      → s.lru_list ≡ pre ++ xs
      → Cleaned now pre xs s (clean_loop dec now xs s).0 (clean_loop dec now xs s).1
  clean_loop-Cleaned now pre [] s v e =
      unfold clean_loop live_elements in
      record { inv = v; rest = e; counted = omega arith; same_capacity = refl }
  clean_loop-Cleaned now pre (x ∷ xs) s v e =
      let ih =
        clean_loop-Cleaned now (pre ++ x ∷ []) xs s v (e ∙ sym (append_assoc pre (x ∷ []) xs)) in
      let (s', n) = clean_loop dec now xs s in
      let here : s'.lru_list ≡ pre ++ x ∷ live_elements now xs =
        ih.rest ∙ append_assoc pre (x ∷ []) (live_elements now xs) in
      elim (Bool-cases (expired now x.value)) [
        | inl old ↦
            rw (loop_old now x xs s old)
              (drop-Cleaned now pre xs x s s' n old ih.inv here ih.counted ih.same_capacity)
        | inr good ↦
            rw (loop_good now x xs s good)
              (keep-Cleaned now pre xs x s s' n good ih.inv here ih.counted ih.same_capacity)
      ]

  -- A round over a shard keeps exactly the entries that are not expired, in their order, counts
  -- the others, and leaves the map and the list in step.
  pub clean_lem :
      (now : ℕ) (s : Shard K V)
      → Inv dec s
      → let (s', removed) = clean dec now s in
        Inv dec s'
        × (view s'.lru_list ≡ live now (view s.lru_list))
        × (removed + length s'.lru_list ≡ length s.lru_list)
  unfolding clean
  clean_lem now s v =
      let c = clean_loop-Cleaned now [] s.lru_list s v refl in
      (c.inv, ap view c.rest ∙ view-live_elements now s.lru_list, rw c.rest c.counted)
