-- ===== src/Tunnel/Store/History.antt =====
-- internal/tunnel/managed_store.go: the calls on the store, one after another, and the routes that
-- have an assigned public port.
use go_proxy_server.Prelude.{
  ℕ, ◌≡◌, ◌≢◌, refl, ap, ◌∙◌, Bool, true, false, ◌&&◌, if◌then◌else◌, List, [], ◌∷◌, Option, some,
  Bytes, Result, ok, err, ℤ, All, arith,
}
use go_proxy_server.Prelude.Strings.{same}
use go_proxy_server.Tunnel.Store.{TunnelRoute, TunnelClient, StoreError, Outcome, Packages}
use go_proxy_server.Tunnel.Store.Database.{Found, found, missing, failed, Db, IsDb, Same}
use go_proxy_server.Tunnel.Store.Operations
use go_proxy_server.Tunnel.Store.Operations.{and_then}
use go_proxy_server.Tunnel.Store.Pinned.{
  IsAssigned, Keeps, Pins, Same-Pins, transaction-Pins, update-Pins, update_found, same_comm,
  check_immutable_inv, set_runtime-SamePort, set_runtime-KeepsKey,
}

-- The calls on the store that write to it.
pub data Call : Type 0 where
  save : Packages → Operations.RouteInput → Call
  delete_route : Bytes → Bytes → Call
  delete_client : Bytes → Call
  initialize : Call
  heartbeat : Bytes → Bytes → Bytes → Bool → ℕ → Call
  disconnect : Bytes → ℕ → Call
  ensure : Bytes → Call
  update_runtime : Bytes → Bytes → ℤ → Bytes → Call
  clear_runtime : Bytes → Call

unfoldable pub run : {D : Type 0} → Db D → Call → D → D × Outcome
run db (save pkg a) d = Operations.save_route_with_options db pkg a d
run db (delete_route c n) d = Operations.delete_route db c n d
run db (delete_client c) d = Operations.delete_client db c d
run db initialize d = Operations.initialize_runtime_state db d
run db (heartbeat name addr engine connected now) d =
    Operations.upsert_client_heartbeat db name addr engine connected now d
run db (disconnect name now) d = Operations.mark_client_disconnected db name now d
run db (ensure name) d = Operations.ensure_client db name d
run db (update_runtime c n active last) d = Operations.update_route_runtime db c n active last d
run db (clear_runtime c) d = Operations.clear_client_runtime_routes db c d

-- The calls that take a route away.
abbrev pub removes : Call → Bytes → Bytes → Bool
removes (delete_route c' n') c n = same c' c && same n' n
removes (delete_client c') c n = same c' c
removes _ c n = false

unfoldable pub run_all : {D : Type 0} → Db D → List Call → D → D
unfolding run
run_all db [] d = d
run_all db (call ∷ calls) d = run_all db calls ((run db call d).0)

same-ne : (s t : Bytes) → same s t ≡ false → t ≢ s
unfolding same
same-ne s t e f = ground arith

not_both : (s t u v : Bytes) → (same s t && same u v) ≡ false → (same t s && same v u) ≡ false
not_both s t u v e = ground (arith, same_comm s t, same_comm u v)

module _ {D : Type 0} (db : Db D) (route_of : D → Bytes → Bytes → Option TunnelRoute)
    (laws : IsDb db route_of) (r : TunnelRoute) (c n : Bytes) (assigned : IsAssigned r) where
  abbrev Pinned : D → D → Type 0
  Pinned d d' = Pins db route_of laws r c n assigned d d'

  unchanged : (d d' : D) → Same route_of d d' → Pinned d d'
  unchanged = Same-Pins db route_of laws r c n assigned

  in_transaction :
      (f : D → D × Outcome) (d : D) → Pinned d ((f d).0) → Pinned d ((db.transaction f d).0)
  in_transaction = transaction-Pins db route_of laws r c n assigned

  guarded :
      (b : Bool) (d : D) (x y : D × Outcome)
      → Pinned d (x.0)
      → Pinned d (y.0)
      → Pinned d ((if b then x else y).0)
  guarded true d x y h k = h
  guarded false d x y h k = k

  chained :
      (d : D) (o : D × Outcome) (k : D → D × Outcome)
      → Pinned d (o.0)
      → ((d1 : D) → Pinned d1 ((k d1).0))
      → Pinned d ((and_then o k).0)
  chained d (d1, ok _) k h g = λ keeps. g d1 (h keeps)
  chained d (d1, err x) k h g = h

  -- The writes that leave the assigned port alone, of any routes.
  cleared :
      (p : TunnelRoute → Bool) (d : D)
      → Pinned d ((db.update_routes p Operations.clear_runtime d).0)
  cleared p d =
      update-Pins db route_of laws r c n assigned p Operations.clear_runtime d (λ x. (refl, refl))
        (λ x _ _ _. (refl, refl, refl))

  created-Pinned : (new : TunnelRoute) (d : D) → Pinned d ((db.create_route new d).0)
  created-Pinned new d (x, at, port) = (x, laws.created new d c n x at, port)

  created_or-Pinned :
      (d : D) (o : D × Outcome) → Pinned d (o.0) → Pinned d ((Operations.created_or o).0)
  created_or-Pinned d (d1, ok _) h = h
  created_or-Pinned d (d1, err x) h = h

  named_error-Pinned :
      (active : ℤ) (d : D) (o : D × Outcome)
      → Pinned d (o.0)
      → Pinned d ((Operations.named_error active o).0)
  named_error-Pinned active d (d1, ok _) h = h
  named_error-Pinned active d (d1, err x) h = h

  unless_refused-Pinned :
      (d : D) (v : Outcome) (o : D × Outcome)
      → (v ≡ ok tt → Pinned d (o.0))
      → Pinned d ((Operations.unless_refused d v o).0)
  unless_refused-Pinned d (err e) o h = λ k. k
  unless_refused-Pinned d (ok _) o h = h refl

  write_route-Pinned :
      (new : TunnelRoute) (d : D) (o : Found TunnelRoute)
      → db.first_route d new.client_name new.name ≡ o
      → Pinned d ((Operations.write_route db new d o).0)
  unfolding Operations.write_route
  write_route-Pinned new d missing at =
      created_or-Pinned d (db.create_route new d) (created-Pinned new d)
  write_route-Pinned new d (failed x) at = λ k. k
  write_route-Pinned new d (found route) at =
      unless_refused-Pinned d (Operations.check_immutable route new) _ (λ good.
        update_found db route_of laws r c n assigned new.client_name new.name route
          (Operations.overwrite new) d (λ x. (refl, refl)) at (check_immutable_inv route new good))

  save-Pinned :
      (d : D) (o : Result StoreError TunnelRoute) → Pinned d ((Operations.save_result db d o).0)
  unfolding Operations.save_result Operations.save_checked
  save-Pinned d (err x) = λ k. k
  save-Pinned d (ok new) = in_transaction (Operations.save_checked db new) d (
      chained d _ _ (unchanged _ _ (laws.client_ensured _ d))
        (λ d1. write_route-Pinned new d1 _ refl))

  runtime_found-Pinned :
      (active : ℤ) (last c1 n1 : Bytes) (d : D) (o : Found TunnelRoute)
      → db.first_route d c1 n1 ≡ o
      → Pinned d ((Operations.runtime_found db active last d o).0)
  unfolding Operations.runtime_found
  runtime_found-Pinned active last c1 n1 d missing at = λ k. k
  runtime_found-Pinned active last c1 n1 d (failed x) at = λ k. k
  runtime_found-Pinned active last c1 n1 d (found route) at =
      guarded _ d _ _ (λ k. k)
        (named_error-Pinned active d _ (
          update_found db route_of laws r c n assigned c1 n1 route _ d
            (set_runtime-KeepsKey _ active last) at (set_runtime-SamePort route active last)))

  heartbeat_found-Pinned :
      (name addr engine : Bytes) (connected : Bool) (now : ℕ) (d : D) (o : Found TunnelClient)
      → Pinned d ((Operations.heartbeat_found db name addr engine connected now d o).0)
  unfolding Operations.heartbeat_found
  heartbeat_found-Pinned name addr engine connected now d (failed x) = λ k. k
  heartbeat_found-Pinned name addr engine connected now d missing =
      unchanged _ _ (laws.client_created _ d)
  heartbeat_found-Pinned name addr engine connected now d (found client) =
      unchanged _ _ (laws.clients_updated _ _ d)

  spared :
      (p : TunnelRoute → Bool) (d : D)
      → ((x : TunnelRoute) → x.client_name ≡ c → x.name ≡ n → p x ≡ false)
      → Pinned d ((db.delete_routes p d).0)
  spared p d h (x, at, port) =
      let (kc, kn) = laws.keyed d c n x at in (x, laws.deleted p d c n x at (h x kc kn), port)

  delete_found-Pinned :
      (name : Bytes) (d : D) (o : Found TunnelClient)
      → same name c ≡ false
      → db.first_client d name ≡ o
      → Pinned d ((Operations.delete_found db name d o).0)
  unfolding Operations.delete_found
  delete_found-Pinned name d missing other at = λ k. k
  delete_found-Pinned name d (failed x) other at = λ k. k
  delete_found-Pinned name d (found client) other at =
      guarded client.connected d _ _ (λ k. k)
        (chained d _ _
          (spared (Operations.of_client name) d
            (λ x kc kn. ap (λ y. same y name) kc ∙ same_comm c name ∙ other))
          (λ d1 (x, at', port). (
            x,
            laws.client_deleted client.name d1 c n
                  (λ e. same-ne name c other (e ∙ laws.client_named d name client at))
                ∙ at',
            port,
          )))

  run-Pinned : (call : Call) (d : D) → removes call c n ≡ false → Pinned d ((run db call d).0)
  unfolding run
  run-Pinned (save pkg a) d kept = unfold Operations.save_route_with_options in save-Pinned d _
  run-Pinned (delete_route c' n') d kept =
      unfold Operations.delete_route in
      guarded _ d _ _ (λ k. k)
        (spared (Operations.is_route c' n') d (λ x kc kn.
          ap (λ y. same y c' && same x.name n') kc
          ∙ ap (λ y. same c c' && same y n') kn
          ∙ not_both c' c n' n kept))
  run-Pinned (delete_client c') d kept =
      unfold Operations.delete_client in
      guarded _ d _ _ (λ k. k)
        (in_transaction _ d (delete_found-Pinned c' d (db.first_client d c') kept refl))
  run-Pinned initialize d kept =
      unfold Operations.initialize_runtime_state in
      chained d _ _ (unchanged _ _ (laws.clients_updated _ _ d)) (λ d1. cleared _ d1)
  run-Pinned (heartbeat name addr engine connected now) d kept =
      unfold Operations.upsert_client_heartbeat in
      guarded _ d _ _ (λ k. k)
        (in_transaction _ d (heartbeat_found-Pinned name addr _ connected now d _))
  run-Pinned (disconnect name now) d kept =
      unfold Operations.mark_client_disconnected in
      guarded _ d _ _ (λ k. k)
        (in_transaction _ d
          (chained d _ _ (unchanged _ _ (laws.clients_updated _ _ d)) (λ d1. cleared _ d1)))
  run-Pinned (ensure name) d kept =
      unfold Operations.ensure_client in
      guarded _ d _ _ (λ k. k) (unchanged _ _ (laws.client_ensured _ d))
  run-Pinned (update_runtime c' n' active last) d kept =
      unfold Operations.update_route_runtime in
      guarded _ d _ _ (λ k. k)
        (in_transaction _ d (runtime_found-Pinned active last c' n' d _ refl))
  run-Pinned (clear_runtime c') d kept =
      unfold Operations.clear_client_runtime_routes in guarded _ d _ _ (λ k. k) (cleared _ d)

  run_all-Pinned :
      (calls : List Call) (d : D)
      → All (λ call. removes call c n ≡ false) calls
      → Pinned d (run_all db calls d)
  unfolding run_all
  run_all-Pinned [] d kept = λ k. k
  run_all-Pinned (call ∷ calls) d (kept, others) =
      λ k. run_all-Pinned calls ((run db call d).0) others (run-Pinned call d kept k)

  -- A route that has an assigned public port stays in the database, with that port, the public port
  -- that was asked for and its protocol, through every list of calls on the store, whether they
  -- succeed or fail, as long as none of them deletes the route or its client.
  pub run_all-Keeps :
      (calls : List Call) (d : D)
      → route_of d c n ≡ some r
      → All (λ call. removes call c n ≡ false) calls
      → Keeps db route_of laws r (run_all db calls d) c n
  run_all-Keeps calls d at kept = run_all-Pinned calls d kept (r, at, (refl, refl, refl))
