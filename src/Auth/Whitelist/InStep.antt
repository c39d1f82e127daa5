-- ===== src/Auth/Whitelist/InStep.antt =====
-- internal/auth/whitelist.go: the whitelist in memory beside its table.
use go_proxy_server.Prelude.{
  ◌≡◌, ◌≢◌, refl, ap, sym, subst, ◌∙◌, inl, inr, Bool, true, false, ◌||◌, List, [], ◌∷◌, ◌++◌,
  Option, Bytes, bytes_dec, Result, ok, err, All, Option-cases, arith, if_neg,
}
use go_proxy_server.Prelude.GoMap.{lookup, insert, lookup-insert}
use go_proxy_server.Prelude.Strings.{same}
use go_proxy_server.Auth.Table.{DbError, Done, Table, IsTable}
use go_proxy_server.Auth.Users.{AuthError, Outcome}
use go_proxy_server.Auth.Whitelist.{
  Whitelist, State, check_ip_whitelist, fill, store_rows, load_whitelist, after_insert, inserted,
  add_ip, deleted, delete_ip,
}

abbrev pub has : Bytes → List Bytes → Bool
has ip [] = false
has ip (x ∷ xs) = same x ip || has ip xs

check-insert :
    (ip j : Bytes) (w : Whitelist)
    → check_ip_whitelist (insert bytes_dec ip true w) j ≡ (same ip j || check_ip_whitelist w j)
unfolding check_ip_whitelist same
check-insert ip j w = ground (arith, lookup-insert bytes_dec ip j true w)

fill_lem :
    (ips : List Bytes) (w : Whitelist) (j : Bytes)
    → check_ip_whitelist (fill ips w) j ≡ (has j ips || check_ip_whitelist w j)
unfolding fill
fill_lem [] w j = refl
fill_lem (ip ∷ ips) w j =
    ground (arith, fill_lem ips (insert bytes_dec ip true w) j, check-insert ip j w)

module _ {D : Type 0} (table : Table D Bytes) (rows : D → List Bytes)
    (laws : IsTable table (λ ip. ip) rows) where
  -- The whitelist lets in exactly the addresses of the table.
  abbrev pub InStep : State D → Type 0
  InStep s = (ip : Bytes) → check_ip_whitelist s.whitelist ip ≡ has ip (rows s.db)

  filled :
      (s : State D) (ips : List Bytes)
      → table.find s.db ≡ ok ips
      → InStep (record s { whitelist = fill ips [] })
  unfolding check_ip_whitelist lookup
  filled s ips f ip = ground (arith, fill_lem ips [] ip, laws.found s.db ips f)

  store_rows-InStep :
      (s s' : State D) (r : Result DbError (List Bytes))
      → table.find s.db ≡ r
      → store_rows table s r ≡ (s', ok tt)
      → InStep s' × (s'.db ≡ s.db)
  unfolding store_rows
  store_rows-InStep s s' (err e) f h = absurd (ground arith)
  store_rows-InStep s s' (ok ips) f h =
      (subst InStep (ap (λ p. p.0) h) (filled s ips f), sym (ap (λ p. p.0.db) h))

  store_rows-keeps :
      (s s' : State D) (e : AuthError) (r : Result DbError (List Bytes))
      → store_rows table s r ≡ (s', err e)
      → s' ≡ s
  unfolding store_rows
  store_rows-keeps s s' e (err f) h = sym (ap (λ p. p.0) h)
  store_rows-keeps s s' e (ok ips) h = absurd (ground arith)

  after_insert_inv :
      (ip : Bytes) (s' : State D) (o : State D × Outcome)
      → after_insert table ip o ≡ (s', ok tt)
      → o ≡ (s', ok tt)
  unfolding after_insert
  after_insert_inv ip s' (t, ok _) h = h
  after_insert_inv ip s' (t, err e) h = absurd (ground arith)

  after_insert-keeps :
      (s1 s' : State D) (ip : Bytes) (e : AuthError) (o : State D × Outcome)
      → load_whitelist table s1 ≡ o
      → after_insert table ip o ≡ (s', err e)
      → (s'.whitelist ≡ s1.whitelist) × (s'.db ≡ (table.delete s1.db ip).0)
  unfolding after_insert load_whitelist
  after_insert-keeps s1 s' ip e (t, ok _) l h = absurd (ground arith)
  after_insert-keeps s1 s' ip e (t, err f) l h =
      let same_state : t ≡ s1 = store_rows-keeps s1 t f (table.find s1.db) l in
      (
        sym (ap (λ p. p.0.whitelist) h) ∙ ap (λ t. t.whitelist) same_state,
        sym (ap (λ p. p.0.db) h) ∙ ap (λ t. (table.delete t.db ip).0) same_state,
      )

  has-among : (ip : Bytes) (xs ys : List Bytes) → has ip (xs ++ (ip ∷ ys)) ≡ true
  unfolding same
  has-among ip [] ys = ground arith
  has-among ip (x ∷ xs) ys = ground (arith, has-among ip xs ys)

  has-lacking : (ip : Bytes) (xs : List Bytes) → All (λ x. x ≢ ip) xs → has ip xs ≡ false
  unfolding same
  has-lacking ip [] h = refl
  has-lacking ip (x ∷ xs) h =
      rw (has-lacking ip xs h.1, if_neg (bytes_dec x ip) h.0 true false) refl

  inserted-InStep :
      (s s' : State D) (ip : Bytes) (r : Outcome) (o : D × Done)
      → ((d : D) (k : Bytes) → (table.delete d k).1 ≡ ok tt)
      → InStep s
      → table.create s.db ip ≡ o
      → inserted table s ip o ≡ (s', r)
      → InStep s' × (r ≡ ok tt → check_ip_whitelist s'.whitelist ip ≡ true)
  unfolding inserted
  inserted-InStep s s' ip r (d, err f) del v a h =
      let same_rows = laws.not_created s.db d ip f a in
      (
        subst InStep (ap (λ p. p.0) h) (λ j. v j ∙ ap (has j) (sym same_rows)),
        λ e. absurd (ground arith),
      )
  inserted-InStep s s' ip (ok _) (d, ok _) del v a h =
      let (xs, ys, before, after, fresh) = laws.created s.db d ip a in
      let (v', same_db) =
        store_rows-InStep (record s { db = d }) s' _ refl (after_insert_inv ip s' _ h) in
      (v', λ _. v' ip ∙ ap (λ d. has ip (rows d)) same_db ∙ ap (has ip) after ∙ has-among ip xs ys)
  inserted-InStep s s' ip (err e) (d, ok _) del v a h =
      let (same_list, db) = after_insert-keeps (record s { db = d }) s' ip e _ refl h in
      let (xs, ys, before, after, fresh) = laws.created s.db d ip a in
      let rolled : rows (table.delete d ip).0 ≡ xs ++ ys =
        laws.others_kept d (table.delete d ip).0 ip xs ys ip
          (ap (λ r. ((table.delete d ip).0, r)) (del d ip)) after refl
          (subst (λ l. All (λ x. x ≢ ip) l) before fresh) in
      let same_rows : rows s'.db ≡ rows s.db = ap rows db ∙ rolled ∙ sym before in
      (
        (λ j. ap (λ w. check_ip_whitelist w j) same_list ∙ v j ∙ ap (has j) (sym same_rows)),
        λ g. absurd (ground arith),
      )

  -- AddIPToWhitelist keeps the whitelist in memory in step with its table, whether it succeeds or
  -- fails, provided that the database does not refuse the deletion by which an insertion is taken
  -- back; and if it succeeds the address is let in.
  pub add_ip-InStep :
      (parse_ip : Bytes → Option Bytes) (s s' : State D) (ip : Bytes) (r : Outcome)
      → ((d : D) (k : Bytes) → (table.delete d k).1 ≡ ok tt)
      → InStep s
      → add_ip table parse_ip s ip ≡ (s', r)
      → InStep s' × (r ≡ ok tt → check_ip_whitelist s'.whitelist ip ≡ true)
  unfolding add_ip
  add_ip-InStep parse_ip s s' ip r del v h = elim (Option-cases (parse_ip ip)) [
    | inl bad ↦
        let g = rw (bad, add_ip) at h in
        (subst InStep (ap (λ p. p.0) g) v, λ e. absurd (ground arith))
    | inr (_, good) ↦ inserted-InStep s s' ip r _ del v refl (rw (good, add_ip) at h)
  ]

  -- After a DeleteIPFromWhitelist that succeeds, the whitelist in memory is in step with its table
  -- and the address is not let in.
  pub delete_ip-InStep :
      (s s' : State D) (ip : Bytes)
      → delete_ip table s ip ≡ (s', ok tt)
      → InStep s' × (check_ip_whitelist s'.whitelist ip ≡ false)
  unfolding delete_ip deleted
  delete_ip-InStep s s' ip h = by_answer (table.delete s.db ip) refl h
    where
      by_answer :
          (o : D × Done)
          → table.delete s.db ip ≡ o
          → deleted table s o ≡ (s', ok tt)
          → InStep s' × (check_ip_whitelist s'.whitelist ip ≡ false)
      by_answer (d, err e) a g = absurd (ground arith)
      by_answer (d, ok _) a g =
          let (v', same_db) = store_rows-InStep (record s { db = d }) s' _ refl g in
          (
            v',
            v' ip
                ∙ ap (λ d. has ip (rows d)) same_db
                ∙ has-lacking ip (rows d) (laws.deleted s.db d ip a),
          )
