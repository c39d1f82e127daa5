-- ===== src/Tests/Store.antt =====
-- internal/tunnel/managed_store.go at concrete inputs.
use go_proxy_server.Prelude.{
  ◌≡◌, refl, true, false, List, [], ◌∷◌, none, some, codes, ok, pos, All, bytes_dec,
}
use go_proxy_server.Prelude.Strings.{trim_space, to_lower, same, is_empty}
use go_proxy_server.Tunnel.Store
use go_proxy_server.Tunnel.Store.{TunnelRoute, Packages, protocol_tcp}
use go_proxy_server.Tunnel.Store.Operations
use go_proxy_server.Tunnel.Store.Operations.{RouteInput, checked_route, save_route_with_options}
use go_proxy_server.Tunnel.Store.Pinned.{Keeps}
use go_proxy_server.Tunnel.Store.History.{
  Call, save, delete_route, update_runtime, disconnect, removes, run_all, run_all-Keeps,
}
use go_proxy_server.Tunnel.Store.Saved.{IsRoute, Stored, save_route_with_options-Stored}
use go_proxy_server.Tests.Routes.{route_of, rows_db, rows_db-IsDb}

abbrev pkg : Packages
pkg = record {
  atoi = λ _. some (pos 8080);
  split_host_port = λ _. none;
  parse_cidr = λ _. none;
  parse_ip = λ s. some s;
  sort_strings = λ l. l;
  marshal = λ _. some [];
}

abbrev input : RouteInput
input = record {
  client_name = codes "home";
  route_name = codes "web";
  target_addr = codes "8080";
  public_port = pos 0;
  enabled = true;
  ip_whitelist = [];
  protocol = codes "tcp";
  udp_idle_timeout_sec = pos 0;
  udp_max_payload = pos 0;
}

abbrev route : TunnelRoute
route = record {
  client_name = codes "home";
  name = codes "web";
  protocol = protocol_tcp;
  target_addr = codes "127.0.0.1:8080";
  public_port = pos 0;
  ip_whitelist = [];
  udp_idle_timeout_sec = pos 60;
  udp_max_payload = pos 1200;
  assigned_public_port = pos 0;
  active_public_port = pos 0;
  enabled = true;
  last_error = [];
}

abbrev assigned : TunnelRoute
assigned = record route { assigned_public_port = pos 30000 }

abbrev disabled : TunnelRoute
disabled = record assigned { enabled = false }

saved :
    save_route_with_options rows_db pkg (record input { enabled = false }) (assigned ∷ [])
    ≡ (disabled ∷ [], ok tt)
unfolding save_route_with_options Operations.save_result checked_route Operations.with_target
    Operations.stored_whitelist Operations.save_checked Operations.write_route
    Operations.check_immutable Store.int_eq Store.normalize_protocol Store.validate_protocol
    Store.normalize_target_addr Store.target_of Store.local_target Store.is_digits_only
    Store.validate_udp_settings Store.normalize_udp_idle_timeout Store.normalize_udp_max_payload
    Store.normalize_ip_whitelist Store.marshal_ip_whitelist rows_db route_of trim_space to_lower
    same is_empty bytes_dec
saved = refl

save_route_with_options-Stored_example :
    (new : TunnelRoute) × (checked_route pkg (record input { enabled = false }) ≡ ok new)
    × IsRoute new
    × Stored rows_db route_of rows_db-IsDb new (assigned ∷ []) (disabled ∷ [])
save_route_with_options-Stored_example =
    save_route_with_options-Stored rows_db route_of rows_db-IsDb pkg
      (record input { enabled = false }) (assigned ∷ []) (disabled ∷ []) saved

abbrev calls : List Call
calls =
    save pkg (record input { public_port = pos 30001 })
    ∷ update_runtime (codes "home") (codes "web") (pos 30002) []
    ∷ delete_route (codes "home") (codes "ssh")
    ∷ disconnect (codes "home") 7
    ∷ []

there : route_of (assigned ∷ []) (codes "home") (codes "web") ≡ some assigned
unfolding route_of same bytes_dec
there = refl

none_removes : All (λ call. removes call (codes "home") (codes "web") ≡ false) calls
unfolding same bytes_dec
none_removes = (refl, (refl, (refl, (refl, tt))))

run_all-Keeps_example :
    Keeps rows_db route_of rows_db-IsDb assigned
      (run_all rows_db calls (assigned ∷ []))
      (codes "home")
      (codes "web")
run_all-Keeps_example =
    run_all-Keeps rows_db route_of rows_db-IsDb assigned (codes "home") (codes "web") refl calls
      (assigned ∷ []) there none_removes
