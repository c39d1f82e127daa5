-- ===== src/Config/Limits/Restart.antt =====
-- internal/config/limiter.go: the limits after an update, and after the restart behind it.
use go_proxy_server.Prelude.{
  ℕ, ◌≡◌, ◌≢◌, refl, ap, sym, subst, ◌∙◌, ◌⊎◌, inl, inr, Bool, true, false, if◌then◌else◌, [], ◌∷◌,
  some, Bytes, length, Result, ok, err, ℤ, arith,
}
use go_proxy_server.Web.Admin.{
  AdminError, written, Found, row, not_found, query_failed, Table, get_system_config,
  set_system_config,
}
use go_proxy_server.Config.Limits.{
  Limits, LimitError, Decimals, State, key_max_connections, key_max_connections_per_ip,
  default_max_connections, default_max_connections_per_ip, bad_limit, saved_limit, limit_of,
  load_limit, store_limits, load_second, init_limiter_config, save_second, update_limiter_config,
  load_failed,
}

-- What the database documents of the table, `value_of` being the value of a key, empty where it has
-- no row.
pub record IsConfig {D : Type 0} (table : Table D) (value_of : D → Bytes → Bytes) : Type 0 where
  pub found : (d : D) (k v : Bytes) → table.find d k ≡ row v → value_of d k ≡ v
  pub created :
      (d d' : D) (k v : Bytes)
      → table.create d k v ≡ (d', true)
      → (value_of d' k ≡ v) × ((j : Bytes) → j ≢ k → value_of d' j ≡ value_of d j)
  pub saved :
      (d d' : D) (k v : Bytes)
      → table.save d k v ≡ (d', true)
      → (value_of d' k ≡ v) × ((j : Bytes) → j ≢ k → value_of d' j ≡ value_of d j)
  pub missing : (d : D) (k : Bytes) → table.find d k ≡ not_found → value_of d k ≡ []

-- A number that has been written is read back, and is not written as the empty text.
pub record IsDecimals (decimals : Decimals) : Type 0 where
  pub read_back :
      (z : ℤ) → bad_limit 1000000 z ≡ false → decimals.parse_int32 (decimals.itoa z) ≡ some z
  pub not_empty : (z : ℤ) → decimals.itoa z ≢ []

Found-cases : (f : Found) → (f ≡ not_found) ⊎ (f ≡ query_failed) ⊎ ((v : Bytes) × (f ≡ row v))
Found-cases (row v) = inr (inr (v, refl))
Found-cases not_found = inl refl
Found-cases query_failed = inr (inl refl)

not_ok :
    {D : Type 0} (d d' : D)
    → ◌≡◌ {A = D × Result AdminError (Unit {0})} (d, err AdminError.database_error) (d', ok tt)
    → ⊥
not_ok d d' e = ground arith

module _ {D : Type 0} (table : Table D) (value_of : D → Bytes → Bytes)
    (laws : IsConfig table value_of) where
  Sets : D → D → Bytes → Bytes → Type 0
  Sets d d' k v = (value_of d' k ≡ v) × ((j : Bytes) → j ≢ k → value_of d' j ≡ value_of d j)

  written_inv : (o : D × Bool) (d' : D) → written table o ≡ (d', ok tt) → o ≡ (d', true)
  written_inv (d, true) d' e = ap (λ p. (p.0, true)) e
  written_inv (d, false) d' e = absurd (ground arith)

  set-Sets : (d d' : D) (k v : Bytes) → set_system_config table d k v ≡ (d', ok tt) → Sets d d' k v
  unfolding set_system_config Sets
  set-Sets d d' k v e = elim (Found-cases (table.find d k)) [
    | inl absent ↦
        laws.created d d' k v
          (written_inv (table.create d k v) d' (rw (absent, set_system_config) at e))
    | inr (inl failed) ↦ absurd (not_ok d d' (rw (failed, set_system_config) at e))
    | inr (inr (old, there)) ↦
        laws.saved d d' k v (written_inv (table.save d k v) d' (rw (there, set_system_config) at e))
  ]

  -- A value that is not empty is what the table answers, if it answers.
  get-value_of :
      (d : D) (k : Bytes)
      → (get_system_config table d k ≡ ok (value_of d k))
        ⊎ ((e : AdminError) × (get_system_config table d k ≡ err e))
  unfolding get_system_config
  get-value_of d k = elim (Found-cases (table.find d k)) [
    | inl absent ↦ inl (rw (absent, get_system_config) (ap ok (sym (laws.missing d k absent))))
    | inr (inl failed) ↦ inr (AdminError.database_error, rw (failed, get_system_config) refl)
    | inr (inr (v, there)) ↦
        inl (rw (there, get_system_config) (ap ok (sym (laws.found d k v there))))
  ]

  module _ (decimals : Decimals) (numbers : IsDecimals decimals) where
    -- A limit that is stored is loaded again, if the table answers.
    load_stored :
        (key : Bytes) (default z : ℤ) (high : ℕ) (d : D)
        → bad_limit 1000000 z ≡ false
        → bad_limit high z ≡ false
        → value_of d key ≡ decimals.itoa z
        → (load_limit table decimals key default high d ≡ (d, ok z))
          ⊎ (load_limit table decimals key default high d ≡ (d, err load_failed))
    unfolding load_limit limit_of
    load_stored key default z high d small good stored = elim (get-value_of d key) [
      | inr (e, failed) ↦ inr (rw (failed, load_limit) refl)
      | inl got ↦ inl (rw (got ∙ ap ok stored, load_limit) (by_text (decimals.itoa z) refl))
    ]
      where
        by_text :
            (t : Bytes)
            → decimals.itoa z ≡ t
            → limit_of table decimals key default high d (ok t) ≡ (d, ok z)
        by_text [] e = absurd (numbers.not_empty z e)
        by_text (c ∷ t) e =
            rw (ap decimals.parse_int32 (sym e) ∙ numbers.read_back z small, good) refl

    other_key : key_max_connections ≢ key_max_connections_per_ip
    other_key e =
        let q : length key_max_connections ≡ length key_max_connections_per_ip = ap length e in
        absurd (omega arith)

    store_inv :
        (old : Limits) (a b : ℤ) (d1 : D) (s' : State D) (o : D × Result AdminError (Unit {0}))
        → set_system_config table d1 key_max_connections_per_ip (decimals.itoa b) ≡ o
        → store_limits table decimals old a (saved_limit table decimals b o) ≡ (s', ok tt)
        → (d2 : D) × (set_system_config table d1 key_max_connections_per_ip (decimals.itoa b)
            ≡ (d2, ok tt))
          × (s' ≡ record {
            db = d2;
            limits = record { max_connections = a; max_connections_per_ip = b };
          })
    store_inv old a b d1 s' (d2, ok _) at e = (d2, at, sym (ap (λ p. p.0) e))
    store_inv old a b d1 s' (d2, err x) at e = absurd (ground arith)

    save_second_inv :
        (old : Limits) (a b : ℤ) (d : D) (s' : State D) (o : D × Result AdminError (Unit {0}))
        → set_system_config table d key_max_connections (decimals.itoa a) ≡ o
        → save_second table decimals old a b o ≡ (s', ok tt)
        → (d2 : D) × (value_of d2 key_max_connections ≡ decimals.itoa a)
          × (value_of d2 key_max_connections_per_ip ≡ decimals.itoa b)
          × (s' ≡ record {
            db = d2;
            limits = record { max_connections = a; max_connections_per_ip = b };
          })
    unfolding save_second Sets
    save_second_inv old a b d s' (d1, err x) at e = absurd (ground arith)
    save_second_inv old a b d s' (d1, ok _) at e =
        let (d2, at2, is_s') = store_inv old a b d1 s' _ refl e in
        let (set1, _) = set-Sets d d1 key_max_connections (decimals.itoa a) at in
        let (set2, kept) = set-Sets d1 d2 key_max_connections_per_ip (decimals.itoa b) at2 in
        (d2, kept key_max_connections other_key ∙ set1, set2, is_s')

    -- Loading both limits again.
    reload :
        (a b : ℤ) (d : D) (old : Limits)
        → bad_limit 1000000 a ≡ false
        → bad_limit 100000 b ≡ false
        → value_of d key_max_connections ≡ decimals.itoa a
        → value_of d key_max_connections_per_ip ≡ decimals.itoa b
        → (init_limiter_config table decimals (record { db = d; limits = old }) ≡ (
          record { db = d; limits = record { max_connections = a; max_connections_per_ip = b } },
          ok tt,
        ))
          ⊎ ((init_limiter_config table decimals (record { db = d; limits = old })).1
              ≡ err load_failed)
    unfolding init_limiter_config load_second
    reload a b d old good_a good_b stored_a stored_b =
        elim (load_stored key_max_connections default_max_connections a 1000000 d good_a good_a
          stored_a) [
            | inr failed ↦ inr (rw (failed, load_second) refl)
            | inl loaded ↦
                elim (load_stored key_max_connections_per_ip default_max_connections_per_ip b 100000
                  d (ground arith) good_b stored_b) [
                    | inr failed ↦ inr (
                        ap (λ o. o.1) (ap (load_second table decimals old) loaded)
                        ∙ ap (λ o. (store_limits table decimals old a o).1) failed)
                    | inl loaded2 ↦ inl (
                        ap (load_second table decimals old) loaded
                        ∙ ap (store_limits table decimals old a) loaded2)
                  ]
          ]

    checks_inv :
        (x y : Bool) (s s' : State D) (m : State D × Result LimitError (Unit {0}))
        → ◌≡◌ {A = State D × Result LimitError (Unit {0})}
            (if x
              then (s, err LimitError.out_of_range)
              else if y
              then (s, err LimitError.out_of_range)
              else m)
            (s', ok tt)
        → (x ≡ false) × (y ≡ false) × (m ≡ (s', ok tt))
    checks_inv true y s s' m e = absurd (ground arith)
    checks_inv false true s s' m e = absurd (ground arith)
    checks_inv false false s s' m e = (refl, refl, e)

    -- After an UpdateLimiterConfig that succeeds, the limits in memory are the ones given, and an
    -- InitLimiterConfig on the database that it leaves, whatever limits are in memory then, sets them
    -- again, or fails because the database does not answer.
    pub update-init :
        (a b : ℤ) (s s' : State D) (old : Limits)
        → update_limiter_config table decimals a b s ≡ (s', ok tt)
        → (s'.limits ≡ record { max_connections = a; max_connections_per_ip = b })
          × ((init_limiter_config table decimals (record s' { limits = old }) ≡ (s', ok tt))
              ⊎ ((init_limiter_config table decimals (record s' { limits = old })).1
                  ≡ err load_failed))
    unfolding update_limiter_config
    update-init a b s s' old e =
        let (good_a, good_b, e1) = checks_inv (bad_limit 1000000 a) (bad_limit 100000 b) s s' _ e in
        let (d2, stored_a, stored_b, is_s') = save_second_inv s.limits a b s.db s' _ refl e1 in
        subst
          (λ t.
            (t.limits ≡ record { max_connections = a; max_connections_per_ip = b })
            × ((init_limiter_config table decimals (record t { limits = old }) ≡ (t, ok tt))
                ⊎ ((init_limiter_config table decimals (record t { limits = old })).1
                    ≡ err load_failed)))
          (sym is_s') (refl, reload a b d2 old good_a good_b stored_a stored_b)
