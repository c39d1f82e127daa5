-- ===== src/Tunnel/Routes/Exposed.antt =====
-- internal/tunnel/managed_server.go: the listeners that `applyRoutes` leaves.
use go_proxy_server.Prelude.{
  ℕ, ◌≡◌, refl, ap, sym, ◌∙◌, Bool, true, false, not, if◌then◌else◌, List, [], ◌∷◌, ◌++◌, Option,
  none, some, some-injective, Bytes, bytes_dec, Result, ok, err, All, arith,
}
use go_proxy_server.Prelude.GoMap.{GoMap, lookup, insert, lookup-insert}
use go_proxy_server.Prelude.Strings.{same}
use go_proxy_server.Tunnel.Store.{normalize_protocol, protocol_tcp}
use go_proxy_server.Tunnel.Ports.{PortError}
use go_proxy_server.Tunnel.Routes.{
  ManagedRoute, RouteListener, Listeners, Surroundings, Progress, Effect, RouteError, desired_of,
  is_on, remove_stale, open_route, serve_route, apply_route, after, apply_loop, sent, apply_routes,
}
use go_proxy_server.Tunnel.Routes.Stale.{
  DistinctNames, Exposed, desired_of-has, remove_stale-Exposed,
}

module _ (w : Surroundings) (desired : GoMap Bytes ManagedRoute) where
  abbrev Good : Listeners → Type 0
  Good listeners = Exposed w desired listeners

  insert-Exposed :
      (listeners : Listeners) (r : ManagedRoute) (port : ℕ)
      → Good listeners
      → lookup bytes_dec r.name desired ≡ some r
      → is_on r ≡ true
      → Good (insert bytes_dec r.name (record { route = r; port = port }) listeners)
  insert-Exposed listeners r port v d on name l h = elim (bytes_dec r.name name) [
    | yes p ↦
        let new : RouteListener = record { route = r; port = port } in
        let is_new : new ≡ l =
          some-injective new l
            (ground (arith, lookup-insert bytes_dec r.name name new listeners)) in
        (
          r,
          ap (λ m. lookup bytes_dec m desired) (sym p) ∙ d,
          on,
          ap (λ x. x.route.public_port) is_new,
        )
    | no q ↦
        let new : RouteListener = record { route = r; port = port } in
        v name l (ground (arith, lookup-insert bytes_dec r.name name new listeners))
  ]

  ite-Exposed :
      (b : Bool) (p q : Progress)
      → Good p.listeners
      → Good q.listeners
      → Good ((if b then p else q).listeners)
  ite-Exposed true p q f g = f
  ite-Exposed false p q f g = g

  open_route-Exposed :
      (listeners : Listeners) (r : ManagedRoute) (o : Result PortError ℕ)
      → Good listeners
      → lookup bytes_dec r.name desired ≡ some r
      → is_on r ≡ true
      → Good ((open_route w r listeners o).listeners)
  unfolding open_route
  open_route-Exposed listeners r (err e) v d on = v
  open_route-Exposed listeners r (ok port) v d on =
      ite-Exposed (w.closed_before_store r.name) _ _ v (insert-Exposed listeners r port v d on)

  serve_route-Exposed :
      (listeners : Listeners) (r : ManagedRoute) (o : Option RouteListener)
      → Good listeners
      → lookup bytes_dec r.name desired ≡ some r
      → is_on r ≡ true
      → Good ((serve_route w r listeners o).listeners)
  unfolding serve_route
  serve_route-Exposed listeners r (some l) v d on = insert-Exposed listeners r l.port v d on
  serve_route-Exposed listeners r none v d on = open_route-Exposed listeners r _ v d on

  apply_route-Exposed :
      (listeners : Listeners) (r : ManagedRoute)
      → Good listeners
      → lookup bytes_dec r.name desired ≡ some r
      → Good ((apply_route w r listeners).listeners)
  unfolding apply_route
  apply_route-Exposed listeners r v d =
      ite-Exposed (w.closed_before_route r.name) _ _ v (by_on (is_on r) refl)
    where
      by_on :
          (b : Bool)
          → is_on r ≡ b
          → Good (
              (if not b
                then record {
                  listeners = listeners;
                  effects = Effect.reported r.name 0 none ∷ [];
                  returned = false;
                }
                else if not (same (normalize_protocol r.protocol) protocol_tcp)
                then record {
                  listeners = listeners;
                  effects = Effect.reported r.name 0 (some RouteError.only_tcp) ∷ [];
                  returned = false;
                }
                else serve_route w r listeners (lookup bytes_dec r.name listeners)).listeners)
      by_on false on = v
      by_on true on =
          ite-Exposed (not (same (normalize_protocol r.protocol) protocol_tcp)) _ _ v
            (serve_route-Exposed listeners r (lookup bytes_dec r.name listeners) v d on)

  after-Exposed :
      (p : Progress) (k : Listeners → Progress)
      → (after p k).returned ≡ false
      → (p.returned ≡ false → Good p.listeners)
      → ((ls : Listeners) → Good ls → (k ls).returned ≡ false → Good ((k ls).listeners))
      → Good ((after p k).listeners)
  after-Exposed p k e f g = by_return p.returned refl e
    where
      by_return :
          (b : Bool)
          → p.returned ≡ b
          → (if b then p else record (k p.listeners) {
            effects = p.effects ++ (k p.listeners).effects;
          }).returned
            ≡ false
          → Good (
              (if b then p else record (k p.listeners) {
                effects = p.effects ++ (k p.listeners).effects;
              }).listeners)
      by_return true t h = absurd (ground arith)
      by_return false t h = g p.listeners (f t) h

  apply_loop-Exposed :
      (routes : List ManagedRoute) (listeners : Listeners)
      → All (λ r. lookup bytes_dec r.name desired ≡ some r) routes
      → Good listeners
      → (apply_loop w routes listeners).returned ≡ false
      → Good ((apply_loop w routes listeners).listeners)
  unfolding apply_loop
  apply_loop-Exposed [] listeners d v e = v
  apply_loop-Exposed (r ∷ routes) listeners (d, ds) v e =
      after-Exposed (apply_route w r listeners) (apply_loop w routes) e
        (λ _. apply_route-Exposed listeners r v d) (λ ls f h. apply_loop-Exposed routes ls ds f h)

abbrev send : List ManagedRoute → Listeners → Progress
send routes ls = record {
  listeners = ls;
  effects = Effect.routes_sent (sent routes) ∷ [];
  returned = false;
}

abbrev started : Surroundings → List ManagedRoute → Listeners → Bool → Progress
started w routes listeners b =
    if b
    then record { listeners = listeners; effects = []; returned = true }
    else after
        (after (remove_stale w (desired_of routes []) listeners listeners) (apply_loop w routes))
        (send routes)

-- After a call of applyRoutes that has not returned early, each listener of the session is that of a
-- route in the database with its name that is enabled, has a target, and asks for the public port
-- that the listener's route asks for, provided that the routes have different names.
pub apply_routes-Exposed :
    (w : Surroundings) (routes : List ManagedRoute) (listeners : Listeners)
    → DistinctNames routes
    → (apply_routes w routes listeners).returned ≡ false
    → Exposed w (desired_of routes []) ((apply_routes w routes listeners).listeners)
unfolding apply_routes
apply_routes-Exposed w routes listeners names e = by_start w.closed_at_start e
  where
    by_start :
        (b : Bool)
        → (started w routes listeners b).returned ≡ false
        → Exposed w (desired_of routes []) ((started w routes listeners b).listeners)
    by_start true h = absurd (ground arith)
    by_start false h =
        after-Exposed w (desired_of routes [])
          (after (remove_stale w (desired_of routes []) listeners listeners) (apply_loop w routes))
          (send routes) h
          (λ f.
            after-Exposed w (desired_of routes [])
              (remove_stale w (desired_of routes []) listeners listeners) (apply_loop w routes) f
              (remove_stale-Exposed w (desired_of routes []) listeners)
              (λ ls v g.
                apply_loop-Exposed w (desired_of routes []) routes ls
                  (desired_of-has routes [] names) v g))
          (λ ls v _. v)
