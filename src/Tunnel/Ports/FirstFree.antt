-- ===== src/Tunnel/Ports/FirstFree.antt =====
-- internal/tunnel/managed_server.go: which port `allocateNewPort` takes.
use go_proxy_server.Prelude.{
  ℕ, zero, suc, ◌+◌, ◌-◌, ◌<◌, ◌≤◌, ◌≡◌, ◌≢◌, refl, sym, ap, ◌∙◌, ◌⊎◌, inl, inr, ◌↔◌, true, false,
  List, some, Result, ok, err, arith, Bool-cases, ℕ_discrete, subst,
}
use go_proxy_server.Tunnel.Ports.{
  Listen, listening, in_use, failed, PortError, listen_error, is_reserved, allocate_loop,
  allocate_new_port,
}

module _ (listen : ℕ → Listen) (reserved : List ℕ) where
  -- The loop passes over the port.
  abbrev pub Skipped : ℕ → Type 0
  Skipped q = (is_reserved q reserved ≡ true) ⊎ (listen q ≡ in_use)

  -- The first port from one on that is neither reserved nor in use, and that can be listened on.
  pub record FirstFree (first left p : ℕ) : Type 0 where
    pub low : first ≤ p
    pub high : p < first + left
    pub free : is_reserved p reserved ≡ false
    pub can_listen : listen p ≡ listening
    pub skipped : (q : ℕ) → first ≤ q → q < p → Skipped q

  loop_skips :
      (left port : ℕ)
      → Skipped port
      → allocate_loop listen reserved (suc left) port
        ≡ allocate_loop listen reserved left (port + 1)
  unfolding allocate_loop
  loop_skips left port (inl r) = rw (r, allocate_loop)
  loop_skips left port (inr u) = elim (Bool-cases (is_reserved port reserved)) [
    | inl r ↦ rw (r, allocate_loop)
    | inr f ↦ rw (f, allocate_loop, u)
  ]

  later-FirstFree :
      (left port p : ℕ) → Skipped port → FirstFree (port + 1) left p → FirstFree port (suc left) p
  later-FirstFree left port p s f = record {
    low = omega (arith, f.low);
    high = omega (arith, f.high);
    free = f.free;
    can_listen = f.can_listen;
    skipped = λ q a b. elim (ℕ_discrete port q) [
      | yes e ↦ subst Skipped e s
      | no n ↦ f.skipped q (omega arith) b
    ];
  }

  -- What the loop does with a port.
  pub data Look (port : ℕ) : Type 0 where
    skips : Skipped port → Look port
    takes : is_reserved port reserved ≡ false → listen port ≡ listening → Look port
    fails : is_reserved port reserved ≡ false → listen port ≡ failed → Look port

  Listen-cases : (l : Listen) → (l ≡ listening) ⊎ ((l ≡ in_use) ⊎ (l ≡ failed))
  Listen-cases listening = inl refl
  Listen-cases in_use = inr (inl refl)
  Listen-cases failed = inr (inr refl)

  look : (port : ℕ) → Look port
  look port = elim (Bool-cases (is_reserved port reserved)) [
    | inl r ↦ skips (inl r)
    | inr f ↦ elim (Listen-cases (listen port)) [
      | inl l ↦ takes f l
      | inr (inl u) ↦ skips (inr u)
      | inr (inr x) ↦ fails f x
    ]
  ]

  loop_takes :
      (left port : ℕ)
      → is_reserved port reserved ≡ false
      → listen port ≡ listening
      → allocate_loop listen reserved (suc left) port ≡ ok port
  unfolding allocate_loop
  loop_takes left port f l = rw (f, allocate_loop, l)

  loop_fails :
      (left port : ℕ)
      → is_reserved port reserved ≡ false
      → listen port ≡ failed
      → allocate_loop listen reserved (suc left) port ≡ err (listen_error port failed)
  unfolding allocate_loop
  loop_fails left port f l = rw (f, allocate_loop, l)

  ok_inj : {x y : ℕ} → ◌≡◌ {A = Result PortError ℕ} (ok x) (ok y) → x ≡ y
  ok_inj e = ground arith

  err-ne-ok : {x : PortError} {y : ℕ} → ◌≢◌ {A = Result PortError ℕ} (err x) (ok y)
  err-ne-ok e = ground arith

  first-FirstFree :
      (left port : ℕ)
      → is_reserved port reserved ≡ false
      → listen port ≡ listening
      → FirstFree port (suc left) port
  first-FirstFree left port f l = record {
    low = omega arith;
    high = omega arith;
    free = f;
    can_listen = l;
    skipped = λ q a b. absurd (omega arith);
  }

  allocate_loop-FirstFree :
      (left port p : ℕ) → allocate_loop listen reserved left port ≡ ok p → FirstFree port left p
  unfolding allocate_loop
  allocate_loop-FirstFree zero port p e = absurd (err-ne-ok e)
  allocate_loop-FirstFree (suc left) port p e = elim (look port) [
    | skips s ↦
        later-FirstFree left port p s
          (allocate_loop-FirstFree left (port + 1) p (sym (loop_skips left port s) ∙ e))
    | takes f l ↦
        subst (FirstFree port (suc left)) (ok_inj (sym (loop_takes left port f l) ∙ e))
          (first-FirstFree left port f l)
    | fails f x ↦ absurd (err-ne-ok (sym (loop_fails left port f x) ∙ e))
  ]

  FirstFree-allocate_loop :
      (left port p : ℕ) → FirstFree port left p → allocate_loop listen reserved left port ≡ ok p
  FirstFree-allocate_loop zero port p f = absurd (omega (arith, f.low, f.high))
  FirstFree-allocate_loop (suc left) port p f = elim (ℕ_discrete port p) [
    | yes e ↦
        loop_takes left port (subst (λ q. is_reserved q reserved ≡ false) (sym e) f.free)
          (subst (λ q. listen q ≡ listening) (sym e) f.can_listen)
        ∙ ap (λ q. ok q) e
    | no n ↦
        let s = f.skipped port (omega arith) (omega (arith, f.low)) in
        loop_skips left port s
        ∙ FirstFree-allocate_loop left (port + 1) p (record {
          low = omega (arith, f.low);
          high = omega (arith, f.high);
          free = f.free;
          can_listen = f.can_listen;
          skipped = λ q a b. f.skipped q (omega arith) b;
        })
  ]

  -- The automatic port is the first one of the range that is neither reserved by an assignment nor
  -- in use, provided that it can be listened on; there is no other outcome with a port.
  pub allocate_new_port_iff :
      (first last p : ℕ)
      → (allocate_new_port listen (some reserved) first last ≡ ok p)
        ↔ FirstFree first (last + 1 - first) p
  unfolding allocate_new_port
  allocate_new_port_iff first last p = (
    allocate_loop-FirstFree (last + 1 - first) first p,
    FirstFree-allocate_loop (last + 1 - first) first p,
  )
