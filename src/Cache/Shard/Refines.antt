-- ===== src/Cache/Shard/Refines.antt =====
-- internal/cache/lru.go: `Get` and `Put` of a shard beside the specification.
use go_proxy_server.Prelude.{
  ℕ, ◌<◌, ◌≡◌, refl, List, [], ◌∷◌, inl, inr, true, false, none, some, length, arith, Option-cases,
  Bool-cases, dec_lt,
}
use go_proxy_server.Prelude.GoMap.{lookup}
use go_proxy_server.Cache.Shard.{
  Entry, Element, Shard, deref, remove, back, expired, drop_element, get_element, get, evict, push,
  put,
}
use go_proxy_server.Cache.Shard.Elements.{
  ptr_of, view, length-remove, deref-ptr_of, view-remove, lookup-view-none, ptr_of-back,
  view-remove-back, back_exists,
}
use go_proxy_server.Cache.Shard.Coherence.{
  Inv, drop_element-Coherent, push-Coherent, drop_element-Inv, front-Inv,
}
use go_proxy_server.Cache.Shard.Spec.{spec_get, spec_put}

pub length-view : {K V : Type 0} (l : List (Element K V)) → length (view l) ≡ length l
length-view [] = refl
length-view (x ∷ l) = omega (arith, length-view l)

module _ {K V : Type 0} (dec : Discrete K) where
  -- The outcome of `Get`: no fault, the specified answer and list, and the invariant again.
  pub record Gets (s : Shard K V) (now : ℕ) (k : K) (s' : Shard K V) : Type 0 where
    pub runs : get dec now s k ≡ some (s', (spec_get dec now k (view s.lru_list)).1)
    pub shows : view s'.lru_list ≡ (spec_get dec now k (view s.lru_list)).0
    pub inv : Inv dec s'
    pub same_capacity : s'.capacity ≡ s.capacity

  get_old :
      (s : Shard K V) (now : ℕ) (k : K) (x : Element K V)
      → Inv dec s
      → ptr_of dec k s.lru_list ≡ some x.ptr
      → deref x.ptr s.lru_list ≡ some x
      → lookup dec k (view s.lru_list) ≡ some x.value
      → expired now x.value ≡ true
      → Gets s now k (drop_element dec s k x.ptr)
  unfolding get get_element spec_get drop_element
  get_old s now k x v h d seen old = record {
    runs = ground (arith, v.coherent.same_keys k);
    shows = ground (arith, view-remove dec k x.ptr s.lru_list v.coherent.distinct h);
    inv = drop_element-Inv dec s k x.ptr x v h d;
    same_capacity = refl;
  }

  get_good :
      (s : Shard K V) (now : ℕ) (k : K) (x : Element K V)
      → Inv dec s
      → ptr_of dec k s.lru_list ≡ some x.ptr
      → deref x.ptr s.lru_list ≡ some x
      → x.key ≡ k
      → lookup dec k (view s.lru_list) ≡ some x.value
      → expired now x.value ≡ false
      → Gets s now k (record s { lru_list = x ∷ remove x.ptr s.lru_list })
  unfolding get get_element spec_get
  get_good s now k x v h d e seen good = record {
    runs = ground (arith, v.coherent.same_keys k);
    shows = ground (arith, view-remove dec k x.ptr s.lru_list v.coherent.distinct h);
    inv = front-Inv dec s x x v (rw e h) d refl;
    same_capacity = refl;
  }

  -- `Get` never faults and implements the specification.
  pub get-spec_get :
      (s : Shard K V) (now : ℕ) (k : K) → Inv dec s → (s' : Shard K V) × Gets s now k s'
  unfolding get spec_get
  get-spec_get s now k v = elim (Option-cases (ptr_of dec k s.lru_list)) [
    | inl miss ↦ (
      s,
      record {
        runs = ground (arith, v.coherent.same_keys k, lookup-view-none dec k s.lru_list miss);
        shows = ground (arith, lookup-view-none dec k s.lru_list miss);
        inv = v;
        same_capacity = refl;
      },
    )
    | inr (p, h) ↦
        let (x, d, e, q, seen) = deref-ptr_of dec k p s.lru_list v.coherent.distinct h in
        let h' : ptr_of dec k s.lru_list ≡ some x.ptr = rw q h in
        let d' : deref x.ptr s.lru_list ≡ some x = rw q d in
        elim (Bool-cases (expired now x.value)) [
          | inl old ↦ (_, get_old s now k x v h' d' seen old)
          | inr good ↦ (_, get_good s now k x v h' d' e seen good)
        ]
  ]

  -- The outcome of `Put`.
  pub record Puts (s : Shard K V) (k : K) (e : Entry V) (s' : Shard K V) : Type 0 where
    pub runs : put dec s k e ≡ some s'
    pub shows : view s'.lru_list ≡ spec_put dec s.capacity k e (view s.lru_list)
    pub inv : Inv dec s'
    pub same_capacity : s'.capacity ≡ s.capacity

  put_update :
      (s : Shard K V) (k : K) (e : Entry V) (x : Element K V)
      → Inv dec s
      → ptr_of dec k s.lru_list ≡ some x.ptr
      → deref x.ptr s.lru_list ≡ some x
      → x.key ≡ k
      → lookup dec k (view s.lru_list) ≡ some x.value
      → Puts s k e (record s { lru_list = record x { value = e } ∷ remove x.ptr s.lru_list })
  unfolding put spec_put
  put_update s k e x v h d q seen = record {
    runs = ground (arith, v.coherent.same_keys k);
    shows = ground (arith, view-remove dec k x.ptr s.lru_list v.coherent.distinct h);
    inv = front-Inv dec s (record x { value = e }) x v (rw q h) d refl;
    same_capacity = refl;
  }

  put_room :
      (s : Shard K V) (k : K) (e : Entry V)
      → Inv dec s
      → ptr_of dec k s.lru_list ≡ none
      → length s.lru_list < s.capacity
      → Puts s k e (push dec s k e)
  unfolding put spec_put evict push
  put_room s k e v h r = record {
    runs = ground (arith, v.coherent.same_keys k);
    shows = ground (arith, lookup-view-none dec k s.lru_list h, length-view s.lru_list);
    inv = record {
      coherent = push-Coherent dec s k e v.coherent h;
      positive = v.positive;
      bounded = omega arith;
    };
    same_capacity = refl;
  }

  put_evicts :
      (s : Shard K V) (k : K) (e : Entry V) (x : Element K V)
      → Inv dec s
      → ptr_of dec k s.lru_list ≡ none
      → length s.lru_list ≡ s.capacity
      → back (push dec s k e).lru_list ≡ some x
      → Puts s k e (drop_element dec (push dec s k e) x.key x.ptr)
  unfolding put spec_put evict push drop_element
  put_evicts s k e x v h r b =
      let t = push dec s k e in
      let c = push-Coherent dec s k e v.coherent h in
      let found = ptr_of-back dec t.lru_list x c.distinct b in
      record {
        runs = ground (arith, v.coherent.same_keys k);
        shows = ground (
          arith,
          lookup-view-none dec k s.lru_list h,
          length-view s.lru_list,
          view-remove-back dec t.lru_list x c.distinct b,
        );
        inv = record {
          coherent = drop_element-Coherent dec t x.key x.ptr c found.0;
          positive = v.positive;
          bounded = omega (arith, length-remove x.ptr t.lru_list x found.1);
        };
        same_capacity = refl;
      }

  -- `Put` never faults and implements the specification: it never holds more than the capacity,
  -- and what makes room for a new key is the least recently used entry.
  pub put-spec_put :
      (s : Shard K V) (k : K) (e : Entry V) → Inv dec s → (s' : Shard K V) × Puts s k e s'
  unfolding push
  put-spec_put s k e v = elim (Option-cases (ptr_of dec k s.lru_list)) [
    | inl miss ↦ elim (dec_lt (length s.lru_list) s.capacity) [
      | yes room ↦ (_, put_room s k e v miss room)
      | no full ↦
          let x : Element K V = record { ptr = s.next_ptr; key = k; value = e } in
          let (y, b) = back_exists x s.lru_list in
          (_, put_evicts s k e y v miss (omega (arith, v.bounded)) b)
    ]
    | inr (p, h) ↦
        let (x, d, q, r, seen) = deref-ptr_of dec k p s.lru_list v.coherent.distinct h in
        (_, put_update s k e x v (rw r h) (rw r d) q seen)
  ]
