-- ===== src/Prelude/Counting.antt =====
-- Lists as bags: how often an item stands in a list, and the list without one of its occurrences.
use Prim.Native.Nat.{ℕ, suc, ◌+◌, ◌-◌, ◌≤◌, ◌<◌}
use mathlib.Core.Path.{◌≡◌}
use mathlib.Core.Logic.{ite, if_pos, if_neg, ◌≢◌}
use mathlib.Core.List.{List, [], ◌∷◌}
use native.Mathlib.Omega.{arith}
use go_proxy_server.Prelude.Lists.{length}

module _ {A : Type 0} (dec : Discrete A) where
  unfoldable pub count : A → List A → ℕ
  count a [] = 0
  count a (x ∷ xs) = let rest = count a xs in ite (dec x a) (suc rest) rest

  unfoldable pub erase : A → List A → List A
  erase a [] = []
  erase a (x ∷ xs) = ite (dec x a) xs (x ∷ erase a xs)

  pub count-le-length : (a : A) (l : List A) → count a l ≤ length l
  unfolding count
  count-le-length a [] = omega arith
  count-le-length a (x ∷ xs) = ground (arith, count-le-length a xs)

  count-cons : (b x : A) (l : List A) → count b (x ∷ l) ≡ count b l + ite (dec x b) 1 0
  unfolding count
  count-cons b x l = ground arith

  erase-cons_self : (a x : A) (l : List A) → x ≡ a → erase a (x ∷ l) ≡ l
  unfolding erase
  erase-cons_self a x l e = if_pos (dec x a) e l _

  erase-cons_ne : (a x : A) (l : List A) → x ≢ a → erase a (x ∷ l) ≡ x ∷ erase a l
  unfolding erase
  erase-cons_ne a x l n = if_neg (dec x a) n l _

  pub count-erase :
      (a b : A) (l : List A)
      → 0 < count a l
      → count b (erase a l) ≡ ite (dec a b) (count b l - 1) (count b l)
  count-erase a b [] h = unfold count in absurd (omega arith)
  count-erase a b (x ∷ xs) h = elim (dec x a) [
    | yes e ↦ rw (erase-cons_self a x xs e) (ground (arith, count-cons b x xs))
    | no n ↦
        let pos : 0 < count a xs = ground (arith, count-cons a x xs) in
        rw (erase-cons_ne a x xs n)
          (ground (arith, count-cons b x xs, count-cons b x (erase a xs), count-erase a b xs pos))
  ]

  pub length-erase : (a : A) (l : List A) → 0 < count a l → length (erase a l) + 1 ≡ length l
  unfolding count erase
  length-erase a [] h = absurd (omega arith)
  length-erase a (x ∷ xs) h = ground (arith, length-erase a xs)
