-- ===== src/Cache/Shard/Coherence.antt =====
-- internal/cache/lru.go: the map and the list of a shard, and what it is for the two to be
-- in step.
use go_proxy_server.Prelude.{
  ℕ, ◌<◌, ◌≤◌, ◌≡◌, refl, sym, ◌∙◌, List, [], ◌∷◌, none, some, length, if_pos, arith,
}
use go_proxy_server.Prelude.GoMap.{lookup, lookup-insert, lookup-delete}
use go_proxy_server.Cache.Shard.{Entry, Element, Shard, deref, remove, drop_element, push}
use go_proxy_server.Cache.Shard.Elements.{
  ptr_of, Distinct, Below, Below-suc, remove-Below, deref_above, length-remove, remove-Distinct,
  ptr_of-remove, deref-remove_self,
}

module _ {K V : Type 0} (dec : Discrete K) where
  -- The map leads to exactly the elements of the list, whose keys and pointers are distinct.
  pub record Coherent (s : Shard K V) : Type 0 where
    pub same_keys : (k : K) → lookup dec k s.cache ≡ ptr_of dec k s.lru_list
    pub distinct : Distinct dec s.lru_list
    pub below : Below s.next_ptr s.lru_list

  pub record Inv (s : Shard K V) : Type 0 where
    pub coherent : Coherent s
    pub positive : 0 < s.capacity
    pub bounded : length s.lru_list ≤ s.capacity

  pub drop_element-Coherent :
      (s : Shard K V) (k : K) (p : ℕ)
      → Coherent s
      → ptr_of dec k s.lru_list ≡ some p
      → Coherent (drop_element dec s k p)
  unfolding drop_element
  drop_element-Coherent s k p c h = record {
    same_keys = λ j.
        lookup-delete dec k j s.cache
        ∙ (rw (c.same_keys j) (sym (ptr_of-remove dec k j p s.lru_list c.distinct h)));
    distinct = remove-Distinct dec p s.lru_list c.distinct;
    below = remove-Below s.next_ptr p s.lru_list c.below;
  }

  -- The element of a key moves to the front, with any entry.
  front-same_keys :
      (s : Shard K V) (x : Element K V) (j : K)
      → Coherent s
      → ptr_of dec x.key s.lru_list ≡ some x.ptr
      → lookup dec j s.cache ≡ ptr_of dec j (x ∷ remove x.ptr s.lru_list)
  unfolding ptr_of
  front-same_keys s x j c h =
      ground (arith, c.same_keys j, ptr_of-remove dec x.key j x.ptr s.lru_list c.distinct h)

  Below-deref :
      (n p : ℕ) (l : List (Element K V)) (x : Element K V)
      → Below n l
      → deref p l ≡ some x
      → x.ptr < n
  unfolding deref
  Below-deref n p [] x b h = cc
  Below-deref n p (y ∷ l) x b h = ground (arith, Below-deref n p l x b.1)

  pub front-Coherent :
      (s : Shard K V) (x y : Element K V)
      → Coherent s
      → ptr_of dec x.key s.lru_list ≡ some x.ptr
      → deref x.ptr s.lru_list ≡ some y
      → y.ptr ≡ x.ptr
      → Coherent (record s { lru_list = x ∷ remove x.ptr s.lru_list })
  front-Coherent s x y c h d e = record {
    same_keys = λ j. front-same_keys s x j c h;
    distinct = (
      ptr_of-remove dec x.key x.key x.ptr s.lru_list c.distinct h
          ∙ if_pos (dec x.key x.key) refl none (ptr_of dec x.key s.lru_list),
      deref-remove_self dec x.ptr s.lru_list c.distinct,
      remove-Distinct dec x.ptr s.lru_list c.distinct,
    );
    below = (
      omega (arith, Below-deref s.next_ptr x.ptr s.lru_list y c.below d),
      remove-Below s.next_ptr x.ptr s.lru_list c.below,
    );
  }

  -- An entry taken out leaves a good shard, and so does an entry put in front.
  pub drop_element-Inv :
      (s : Shard K V) (k : K) (p : ℕ) (x : Element K V)
      → Inv s
      → ptr_of dec k s.lru_list ≡ some p
      → deref p s.lru_list ≡ some x
      → Inv (drop_element dec s k p)
  unfolding drop_element
  drop_element-Inv s k p x v h d = record {
    coherent = unfold drop_element in drop_element-Coherent s k p v.coherent h;
    positive = v.positive;
    bounded = omega (arith, v.bounded, length-remove p s.lru_list x d);
  }

  pub front-Inv :
      (s : Shard K V) (x y : Element K V)
      → Inv s
      → ptr_of dec x.key s.lru_list ≡ some x.ptr
      → deref x.ptr s.lru_list ≡ some y
      → y.ptr ≡ x.ptr
      → Inv (record s { lru_list = x ∷ remove x.ptr s.lru_list })
  front-Inv s x y v h d e = record {
    coherent = front-Coherent s x y v.coherent h d e;
    positive = v.positive;
    bounded = omega (arith, v.bounded, length-remove x.ptr s.lru_list y d);
  }

  pub push-Coherent :
      (s : Shard K V) (k : K) (e : Entry V)
      → Coherent s
      → ptr_of dec k s.lru_list ≡ none
      → Coherent (push dec s k e)
  unfolding push ptr_of
  push-Coherent s k e c h = record {
    same_keys = λ j. lookup-insert dec k j s.next_ptr s.cache ∙ (rw (c.same_keys j));
    distinct = (h, deref_above s.next_ptr s.lru_list c.below, c.distinct);
    below = (omega arith, Below-suc s.next_ptr s.lru_list c.below);
  }
