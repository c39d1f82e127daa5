-- ===== src/Cache/Shard/Elements.antt =====
-- internal/cache/lru.go: the elements of a shard's list, with distinct keys and pointers.
use go_proxy_server.Prelude.{
  ℕ, suc, ◌+◌, ◌<◌, ◌≡◌, refl, List, [], ◌∷◌, map, Option, none, some, length, ite, arith,
}
use go_proxy_server.Prelude.GoMap.{GoMap, lookup, delete}
use go_proxy_server.Cache.Shard.{Entry, Element, deref, remove, back}

module _ {K V : Type 0} (dec : Discrete K) where
  -- The pointer of the element with a key.
  unfoldable pub ptr_of : K → List (Element K V) → Option ℕ
  ptr_of k [] = none
  ptr_of k (x ∷ xs) = ite (dec x.key k) (some x.ptr) (ptr_of k xs)

  abbrev pub Distinct : List (Element K V) → Type 0
  Distinct [] = Unit {0}
  Distinct (x ∷ xs) = (ptr_of x.key xs ≡ none) × (deref x.ptr xs ≡ none) × Distinct xs

module _ {K V : Type 0} where
  abbrev pub Below : ℕ → List (Element K V) → Type 0
  Below n [] = Unit {0}
  Below n (x ∷ xs) = (x.ptr < n) × Below n xs

  -- What a reader can see of the list: keys and entries, most recent first.
  abbrev pub view : List (Element K V) → GoMap K (Entry V)
  view = map (λ x. (x.key, x.value))

  pub Below-suc : (n : ℕ) (l : List (Element K V)) → Below n l → Below (suc n) l
  Below-suc n [] h = tt
  Below-suc n (x ∷ xs) h = (omega arith, Below-suc n xs h.1)

  pub remove-Below : (n p : ℕ) (l : List (Element K V)) → Below n l → Below n (remove p l)
  unfolding remove
  remove-Below n p [] h = tt
  remove-Below n p (x ∷ xs) h = ground (arith, remove-Below n p xs h.1)

  pub deref_above : (n : ℕ) (l : List (Element K V)) → Below n l → deref n l ≡ none
  unfolding deref
  deref_above n [] h = refl
  deref_above n (x ∷ xs) h = ground (arith, deref_above n xs h.1)

  pub deref-remove-none :
      (p q : ℕ) (l : List (Element K V)) → deref q l ≡ none → deref q (remove p l) ≡ none
  unfolding deref remove
  deref-remove-none p q [] h = refl
  deref-remove-none p q (x ∷ xs) h = ground (arith, deref-remove-none p q xs)

  pub length-remove :
      (p : ℕ) (l : List (Element K V)) (x : Element K V)
      → deref p l ≡ some x
      → length (remove p l) + 1 ≡ length l
  unfolding deref remove
  length-remove p [] x h = cc
  length-remove p (y ∷ ys) x h = ground (arith, length-remove p ys x)

-- A list without its last item.
unfoldable pub drop_last {ℓ} : {A : Type ℓ} → List A → List A
drop_last [] = []
drop_last (x ∷ []) = []
drop_last (x ∷ y ∷ l) = x ∷ drop_last (y ∷ l)

pub back_exists :
    {K V : Type 0} (x : Element K V) (l : List (Element K V))
    → (y : Element K V) × (back (x ∷ l) ≡ some y)
unfolding back
back_exists x [] = (x, refl)
back_exists x (y ∷ l) = back_exists y l

module _ {K V : Type 0} (dec : Discrete K) where
  pub ptr_of-remove-none :
      (p : ℕ) (k : K) (l : List (Element K V))
      → ptr_of dec k l ≡ none
      → ptr_of dec k (remove p l) ≡ none
  unfolding ptr_of remove
  ptr_of-remove-none p k [] h = refl
  ptr_of-remove-none p k (x ∷ xs) h = ground (arith, ptr_of-remove-none p k xs)

  pub remove-Distinct :
      (p : ℕ) (l : List (Element K V)) → Distinct dec l → Distinct dec (remove p l)
  unfolding remove
  remove-Distinct p [] h = tt
  remove-Distinct p (x ∷ xs) h =
      ground (
        arith,
        remove-Distinct p xs h.2,
        ptr_of-remove-none p x.key xs,
        deref-remove-none p x.ptr xs,
      )

  -- The element that the map's pointer leads to is the one with the key.
  pub deref-ptr_of :
      (k : K) (p : ℕ) (l : List (Element K V))
      → Distinct dec l
      → ptr_of dec k l ≡ some p
      → (x : Element K V) × (deref p l ≡ some x)
        × (x.key ≡ k)
        × (x.ptr ≡ p)
        × (lookup dec k (view l) ≡ some x.value)
  unfolding ptr_of deref lookup
  deref-ptr_of k p [] d h = cc
  deref-ptr_of k p (x ∷ xs) d h = elim (dec x.key k) [
    | yes e ↦ (x, ground arith, e, ground arith, ground arith)
    | no n ↦
        let (y, found, key, ptr, seen) = deref-ptr_of k p xs d.2 (ground arith) in
        (y, ground arith, key, ptr, ground arith)
  ]

  pub ptr_of-remove :
      (k j : K) (p : ℕ) (l : List (Element K V))
      → Distinct dec l
      → ptr_of dec k l ≡ some p
      → ptr_of dec j (remove p l) ≡ ite (dec k j) none (ptr_of dec j l)
  unfolding ptr_of remove
  ptr_of-remove k j p [] d h = cc
  ptr_of-remove k j p (x ∷ xs) d h = elim (dec x.key k) [
    | yes e ↦ ground arith
    | no n ↦
        let (y, found, key, ptr, seen) = deref-ptr_of k p xs d.2 (ground arith) in
        ground (arith, ptr_of-remove k j p xs d.2)
  ]

  pub view-delete_absent :
      (k : K) (l : List (Element K V)) → ptr_of dec k l ≡ none → delete dec k (view l) ≡ view l
  unfolding ptr_of delete
  view-delete_absent k [] h = refl
  view-delete_absent k (x ∷ xs) h = ground (arith, view-delete_absent k xs)

  pub view-remove :
      (k : K) (p : ℕ) (l : List (Element K V))
      → Distinct dec l
      → ptr_of dec k l ≡ some p
      → view (remove p l) ≡ delete dec k (view l)
  unfolding ptr_of remove delete
  view-remove k p [] d h = cc
  view-remove k p (x ∷ xs) d h = elim (dec x.key k) [
    | yes e ↦ ground (arith, view-delete_absent x.key xs)
    | no n ↦
        let (y, found, key, ptr, seen) = deref-ptr_of k p xs d.2 (ground arith) in
        ground (arith, view-remove k p xs d.2)
  ]

  pub lookup-view-none :
      (k : K) (l : List (Element K V)) → ptr_of dec k l ≡ none → lookup dec k (view l) ≡ none
  unfolding ptr_of lookup
  lookup-view-none k [] h = refl
  lookup-view-none k (x ∷ xs) h = ground (arith, lookup-view-none k xs)

  pub deref-remove_self :
      (p : ℕ) (l : List (Element K V)) → Distinct dec l → deref p (remove p l) ≡ none
  unfolding deref remove
  deref-remove_self p [] d = refl
  deref-remove_self p (x ∷ xs) d = ground (arith, deref-remove_self p xs d.2)

  -- The last element is the one that its own key and pointer lead to.
  pub ptr_of-back :
      (l : List (Element K V)) (x : Element K V)
      → Distinct dec l
      → back l ≡ some x
      → (ptr_of dec x.key l ≡ some x.ptr) × (deref x.ptr l ≡ some x)
  unfolding ptr_of back deref
  ptr_of-back [] x d h = cc
  ptr_of-back (y ∷ []) x d h = ground arith
  ptr_of-back (y ∷ z ∷ l) x d h = ground (arith, ptr_of-back (z ∷ l) x d.2 h)

  pub view-remove-back :
      (l : List (Element K V)) (x : Element K V)
      → Distinct dec l
      → back l ≡ some x
      → view (remove x.ptr l) ≡ drop_last (view l)
  unfolding remove back drop_last
  view-remove-back [] x d h = cc
  view-remove-back (y ∷ []) x d h = ground arith
  view-remove-back (y ∷ z ∷ l) x d h =
      ground (arith, view-remove-back (z ∷ l) x d.2 h, ptr_of-back (z ∷ l) x d.2 h)
