-- ===== src/Tunnel/Routes.antt =====
-- internal/tunnel/managed_server.go: `applyRoutes`, which makes the listeners of a session those of
-- the routes in the database, and `isSourceAllowed`. One call is taken by itself; where the session
-- may be found closed is an argument, and so is what `net.Listen` answers for each route. A listener
-- is its route and its port. Ports are not negative, as in `Tunnel.Ports`.
pub mod Stale
pub mod Exposed
pub mod Source
use go_proxy_server.Prelude.{
  ℕ, Bool, true, false, ◌&&◌, ◌||◌, not, if◌then◌else◌, ◌==◌, List, [], ◌∷◌, ◌++◌, Option, none,
  some, Bytes, bytes_dec, Result, ok, err,
}
use go_proxy_server.Prelude.GoMap.{GoMap, lookup, insert, delete}
use go_proxy_server.Prelude.Strings.{same, is_empty}
use go_proxy_server.Tunnel.Store.{normalize_protocol, protocol_tcp}
use go_proxy_server.Tunnel.Ports.{Listen, PortError, listen_public_route_port}

-- `ManagedRoute`, less what the server does not look at here.
pub record ManagedRoute : Type 0 where
  pub name : Bytes
  pub protocol : Bytes
  pub target_addr : Bytes
  pub public_port : ℕ
  pub assigned_public_port : ℕ
  pub ip_whitelist : List Bytes
  pub enabled : Bool

-- `managedRouteListener`
pub record RouteListener : Type 0 where
  pub route : ManagedRoute
  pub port : ℕ

abbrev pub Listeners : Type 0
Listeners = GoMap Bytes RouteListener

pub data RouteError : Type 0 where
  only_tcp : RouteError
  listen_failed : PortError → RouteError

-- A listener closed, a call of `UpdateRouteRuntime` with its port and error, and the message at the end.
pub data Effect : Type 0 where
  listener_closed : ℕ → Effect
  reported : Bytes → ℕ → Option RouteError → Effect
  routes_sent : List ManagedRoute → Effect

-- What one call meets: whether the session is found closed, at each of the checks, by the name of the
-- route; `net.Listen` for each route; and the ports that are assigned, the range, as the server has
-- them.
pub record Surroundings : Type 0 where
  pub closed_at_start : Bool
  pub closed_before_removal : Bytes → Bool
  pub closed_before_route : Bytes → Bool
  pub closed_before_store : Bytes → Bool
  pub listen : Bytes → ℕ → Listen
  pub assigned : Bytes → Option (List ℕ)
  pub range_start : ℕ
  pub range_end : ℕ

-- The listeners, what has been done, and whether the call has returned early.
pub record Progress : Type 0 where
  pub listeners : Listeners
  pub effects : List Effect
  pub returned : Bool

-- `desired[route.Name] = route`, in the order of the routes.
unfoldable pub desired_of : List ManagedRoute → GoMap Bytes ManagedRoute → GoMap Bytes ManagedRoute
desired_of [] desired = desired
desired_of (r ∷ routes) desired = desired_of routes (insert bytes_dec r.name r desired)

-- The route may be exposed.
abbrev pub is_on : ManagedRoute → Bool
is_on r = r.enabled && not (is_empty r.target_addr)

abbrev pub stays : Option ManagedRoute → RouteListener → Bool
stays none l = false
stays (some r) l = is_on r && r.public_port == l.route.public_port

-- For one listener: the call returns, or the listener stays, or it is closed.
abbrev pub keep_or_drop :
    (closed keep : Bool) → Listeners → Bytes → RouteListener → Progress → Progress → Progress
keep_or_drop true keep listeners name l kept dropped = record {
  listeners = listeners;
  effects = [];
  returned = true;
}
keep_or_drop false true listeners name l kept dropped = kept
keep_or_drop false false listeners name l kept dropped = record dropped {
  effects = listener_closed l.port ∷ reported name 0 none ∷ dropped.effects;
}

-- The loop over the listeners that were there.
unfoldable pub remove_stale :
    Surroundings → GoMap Bytes ManagedRoute → Listeners → Listeners → Progress
remove_stale w desired [] listeners = record {
  listeners = listeners;
  effects = [];
  returned = false;
}
remove_stale w desired ((name, l) ∷ current) listeners =
    keep_or_drop (w.closed_before_removal name) (stays (lookup bytes_dec name desired) l) listeners
      name l (remove_stale w desired current listeners)
      (remove_stale w desired current (delete bytes_dec name listeners))

-- A new listener, unless the session has been closed.
unfoldable pub open_route : Surroundings → ManagedRoute → Listeners → Result PortError ℕ → Progress
open_route w r listeners (err e) = record {
  listeners = listeners;
  effects = reported r.name 0 (some (listen_failed e)) ∷ [];
  returned = false;
}
open_route w r listeners (ok port) =
    if w.closed_before_store r.name
    then record { listeners = listeners; effects = listener_closed port ∷ []; returned = true }
    else record {
      listeners = insert bytes_dec r.name (record { route = r; port = port }) listeners;
      effects = reported r.name port none ∷ [];
      returned = false;
    }

-- A route that may be exposed: the listener that is there takes it over, or a new one is opened.
unfoldable pub serve_route :
    Surroundings → ManagedRoute → Listeners → Option RouteListener → Progress
unfolding open_route
serve_route w r listeners (some l) = record {
  listeners = insert bytes_dec r.name (record l { route = r }) listeners;
  effects = reported r.name l.port none ∷ [];
  returned = false;
}
serve_route w r listeners none = open_route w r listeners (
    listen_public_route_port (w.listen r.name) (w.assigned r.name) w.range_start w.range_end
      (record { public_port = r.public_port; assigned_public_port = r.assigned_public_port }))

-- The body of the loop over the routes.
unfoldable pub apply_route : Surroundings → ManagedRoute → Listeners → Progress
unfolding serve_route
apply_route w r listeners =
    if w.closed_before_route r.name
    then record { listeners = listeners; effects = []; returned = true }
    else if not (is_on r)
    then record { listeners = listeners; effects = reported r.name 0 none ∷ []; returned = false }
    else if not (same (normalize_protocol r.protocol) protocol_tcp)
    then record {
      listeners = listeners;
      effects = reported r.name 0 (some only_tcp) ∷ [];
      returned = false;
    }
    else serve_route w r listeners (lookup bytes_dec r.name listeners)

-- One part of a call after another.
abbrev pub after : Progress → (Listeners → Progress) → Progress
after p k =
    let q = k p.listeners in if p.returned then p else record q { effects = p.effects ++ q.effects }

unfoldable pub apply_loop : Surroundings → List ManagedRoute → Listeners → Progress
unfolding apply_route
apply_loop w [] listeners = record { listeners = listeners; effects = []; returned = false }
apply_loop w (r ∷ routes) listeners = after (apply_route w r listeners) (apply_loop w routes)

-- The payload of the message at the end: those that are not TCP are disabled.
unfoldable pub sent : List ManagedRoute → List ManagedRoute
sent [] = []
sent (r ∷ routes) =
    record r {
      enabled = r.enabled && same (normalize_protocol r.protocol) protocol_tcp;
      protocol = protocol_tcp;
    }
    ∷ sent routes

-- `applyRoutes`
unfoldable pub apply_routes : Surroundings → List ManagedRoute → Listeners → Progress
unfolding desired_of remove_stale apply_loop sent
apply_routes w routes listeners =
    if w.closed_at_start
    then record { listeners = listeners; effects = []; returned = true }
    else after
        (after (remove_stale w (desired_of routes []) listeners listeners) (apply_loop w routes))
        (λ ls. record {
          listeners = ls;
          effects = routes_sent (sent routes) ∷ [];
          returned = false;
        })
