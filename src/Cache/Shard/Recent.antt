-- ===== src/Cache/Shard/Recent.antt =====
-- internal/cache/lru.go: how long an entry stays in a shard that other keys use.
use go_proxy_server.Prelude.{
  ℕ, zero, suc, ◌+◌, ◌<◌, ◌≡◌, ◌≢◌, refl, sym, ◌∙◌, inl, inr, Bool-cases, false, ltb, [], ◌∷◌, none,
  some, Option-cases, length, take, arith, if_pos, if_neg,
}
use go_proxy_server.Prelude.GoMap.{GoMap, lookup, delete}
use go_proxy_server.Cache.Shard.{Entry, expired}
use go_proxy_server.Cache.Shard.Elements.{drop_last}
use go_proxy_server.Cache.Shard.Spec.{spec_get, spec_put}

module _ {K V : Type 0} (dec : Discrete K) where
  -- A key has an entry among the `n` most recently used.
  abbrev pub Recent : K → Entry V → ℕ → GoMap K (Entry V) → Type 0
  Recent k e n l = lookup dec k (take n l) ≡ some e

  pub Recent-suc :
      (k : K) (e : Entry V) (n : ℕ) (l : GoMap K (Entry V)) → Recent k e n l → Recent k e (suc n) l
  unfolding lookup
  Recent-suc k e zero l h = absurd (ground arith)
  Recent-suc k e (suc n) [] h = h
  Recent-suc k e (suc n) ((j, w) ∷ l) h = elim (dec j k) [
    | yes p ↦
        if_pos (dec j k) p (some w) (lookup dec k (take (suc n) l))
        ∙ sym (if_pos (dec j k) p (some w) (lookup dec k (take n l)))
        ∙ h
    | no q ↦
        if_neg (dec j k) q (some w) (lookup dec k (take (suc n) l))
        ∙ Recent-suc k e n l (sym (if_neg (dec j k) q (some w) (lookup dec k (take n l))) ∙ h)
  ]

  pub Recent-lookup :
      (k : K) (e : Entry V) (n : ℕ) (l : GoMap K (Entry V))
      → Recent k e n l
      → lookup dec k l ≡ some e
  unfolding lookup
  Recent-lookup k e zero l h = absurd (ground arith)
  Recent-lookup k e (suc n) [] h = h
  Recent-lookup k e (suc n) ((j, w) ∷ l) h = ground (arith, Recent-lookup k e n l)

  Recent-delete :
      (k j : K) (e : Entry V) (n : ℕ) (l : GoMap K (Entry V))
      → j ≢ k
      → Recent k e n l
      → Recent k e n (delete dec j l)
  unfolding lookup delete
  Recent-delete k j e zero l other h = absurd (ground arith)
  Recent-delete k j e (suc n) [] other h = h
  Recent-delete k j e (suc n) ((i, w) ∷ l) other h = elim (dec i j) [
    | yes p ↦ rw (if_pos (dec i j) p (delete dec j l) ((i, w) ∷ delete dec j l)) (
        Recent-suc k e n (delete dec j l) (
          Recent-delete k j e n l other (
            sym (if_neg (dec i k) (λ q. other (sym p ∙ q)) (some w) (lookup dec k (take n l)))
            ∙ h)))
    | no q ↦
        rw (if_neg (dec i j) q (delete dec j l) ((i, w) ∷ delete dec j l))
          (ground (arith, Recent-delete k j e n l other))
  ]

  Recent-drop_last :
      (k : K) (e : Entry V) (n : ℕ) (l : GoMap K (Entry V))
      → n < length l
      → Recent k e n l
      → Recent k e n (drop_last l)
  unfolding lookup drop_last
  Recent-drop_last k e zero l lt h = absurd (ground arith)
  Recent-drop_last k e (suc n) [] lt h = h
  Recent-drop_last k e (suc n) (x ∷ []) lt h = absurd (omega arith)
  Recent-drop_last k e (suc n) ((j, w) ∷ x ∷ l) lt h =
      ground (arith, Recent-drop_last k e n (x ∷ l) (omega arith))

  -- A key in front of another.
  Recent-front :
      (k j : K) (e w : Entry V) (n : ℕ) (l : GoMap K (Entry V))
      → j ≢ k
      → Recent k e n l
      → Recent k e (suc n) ((j, w) ∷ l)
  unfolding lookup
  Recent-front k j e w n l other h = if_neg (dec j k) other (some w) (lookup dec k (take n l)) ∙ h

  -- Another key's read.
  pub Recent-spec_get :
      (now : ℕ) (k j : K) (e : Entry V) (n : ℕ) (l : GoMap K (Entry V))
      → j ≢ k
      → Recent k e n l
      → Recent k e (suc n) ((spec_get dec now j l).0)
  unfolding spec_get
  Recent-spec_get now k j e n l other h = elim (Option-cases (lookup dec j l)) [
    | inl absent ↦ rw (absent, spec_get) (Recent-suc k e n l h)
    | inr (w, there) ↦ elim (Bool-cases (expired now w)) [
      | inl old ↦
          rw (there, spec_get, old)
            (Recent-suc k e n (delete dec j l) (Recent-delete k j e n l other h))
      | inr good ↦
          rw (there, spec_get, good)
            (Recent-front k j e w n (delete dec j l) other (Recent-delete k j e n l other h))
    ]
  ]

  -- Another key's write, with room for both.
  pub Recent-spec_put :
      (cap : ℕ) (k j : K) (e w : Entry V) (n : ℕ) (l : GoMap K (Entry V))
      → j ≢ k
      → n < cap
      → Recent k e n l
      → Recent k e (suc n) (spec_put dec cap j w l)
  unfolding spec_put
  Recent-spec_put cap k j e w n l other room h = elim (Option-cases (lookup dec j l)) [
    | inr (v, there) ↦
        rw (there, spec_put)
          (Recent-front k j e w n (delete dec j l) other (Recent-delete k j e n l other h))
    | inl absent ↦ elim (Bool-cases (ltb cap (length l + 1))) [
      | inl full ↦
          rw (absent, spec_put, full)
            (Recent-drop_last k e (suc n) ((j, w) ∷ l) (ground arith)
              (Recent-front k j e w n l other h))
      | inr fits ↦ rw (absent, spec_put, fits) (Recent-front k j e w n l other h)
    ]
  ]

  -- The key's own read.
  pub Recent-read :
      (now : ℕ) (k : K) (e : Entry V) (n : ℕ) (l : GoMap K (Entry V))
      → expired now e ≡ false
      → Recent k e n l
      → ((spec_get dec now k l).1 ≡ some e) × Recent k e 1 ((spec_get dec now k l).0)
  unfolding spec_get lookup
  Recent-read now k e n l good h =
      let there = Recent-lookup k e n l h in
      (
        rw (there, spec_get, good) refl,
        rw (there, spec_get, good) (if_pos (dec k k) refl (some e) none),
      )

  -- The key's own write.
  pub Recent-write :
      (cap : ℕ) (k : K) (e : Entry V) (l : GoMap K (Entry V))
      → 0 < cap
      → Recent k e 1 (spec_put dec cap k e l)
  unfolding spec_put lookup
  Recent-write cap k e l pos = elim (Option-cases (lookup dec k l)) [
    | inr (v, there) ↦ rw (there, spec_put) (if_pos (dec k k) refl (some e) none)
    | inl absent ↦ elim (Bool-cases (ltb cap (length l + 1))) [
      | inl full ↦
          rw (absent, spec_put, full)
            (Recent-drop_last k e 1 ((k, e) ∷ l) (ground arith)
              (if_pos (dec k k) refl (some e) none))
      | inr fits ↦ rw (absent, spec_put, fits) (if_pos (dec k k) refl (some e) none)
    ]
  ]
