-- ===== src/Tests/Applied.antt =====
-- applyRoutes and isSourceAllowed of internal/tunnel/managed_server.go at concrete inputs.
use go_proxy_server.Prelude.{
  ◌≡◌, refl, ◌↔◌, true, false, [], ◌∷◌, none, some, Bytes, codes, bytes_dec,
}
use go_proxy_server.Prelude.GoMap.{lookup, insert, delete}
use go_proxy_server.Prelude.Strings.{trim_space, to_lower, same, is_empty}
use go_proxy_server.Tunnel.Store.{normalize_protocol}
use go_proxy_server.Tunnel.Ports.{listening, listen_public_route_port}
use go_proxy_server.Tunnel.Routes.{
  ManagedRoute, Listeners, Surroundings, desired_of, remove_stale, apply_loop, apply_route,
  serve_route, open_route, apply_routes,
}
use go_proxy_server.Tunnel.Routes.Stale.{Exposed}
use go_proxy_server.Tunnel.Routes.Exposed.{apply_routes-Exposed}
use go_proxy_server.Tunnel.Routes.Source.{
  NetParsers, From, Lets, is_source_allowed, is_source_allowed_iff,
}

abbrev web : ManagedRoute
web = record {
  name = codes "web";
  protocol = codes "tcp";
  target_addr = codes "127.0.0.1:80";
  public_port = 8080;
  assigned_public_port = 0;
  ip_whitelist = [];
  enabled = true;
}

-- A route that is gone, and one that is new.
abbrev before : Listeners
before = (codes "ssh", record { route = record web { name = codes "ssh" }; port = 2222 }) ∷ []

abbrev quiet : Surroundings
quiet = record {
  closed_at_start = false;
  closed_before_removal = λ _. false;
  closed_before_route = λ _. false;
  closed_before_store = λ _. false;
  listen = λ _ _. listening;
  assigned = λ _. some [];
  range_start = 0;
  range_end = 0;
}

completed : (apply_routes quiet (web ∷ []) before).returned ≡ false
unfolding apply_routes desired_of remove_stale apply_loop apply_route serve_route open_route
    listen_public_route_port lookup insert delete normalize_protocol trim_space to_lower same
    is_empty bytes_dec
completed = refl

apply_routes-Exposed_example :
    Exposed quiet (desired_of (web ∷ []) []) ((apply_routes quiet (web ∷ []) before).listeners)
apply_routes-Exposed_example = apply_routes-Exposed quiet (web ∷ []) before (tt, tt) completed

abbrev parsers : NetParsers
parsers = record {
  split_host_port = λ s. some (s, []);
  parse_ip = λ s. some s;
  parse_cidr = λ _. none;
  equal = same;
}

is_source_allowed_iff_example :
    is_source_allowed parsers (codes "10.0.0.1" ∷ codes "10.0.0.2" ∷ []) (codes "10.0.0.2") ≡ true
    ↔ ((ip : Bytes) × From parsers (codes "10.0.0.2") ip
        × Lets parsers ip (codes "10.0.0.1" ∷ codes "10.0.0.2" ∷ []))
is_source_allowed_iff_example =
    is_source_allowed_iff parsers (codes "10.0.0.1") (codes "10.0.0.2" ∷ []) (codes "10.0.0.2")
