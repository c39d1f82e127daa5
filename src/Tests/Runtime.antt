-- ===== src/Tests/Runtime.antt =====
-- internal/runtime and the configuration checks of internal/web at concrete inputs.
use go_proxy_server.Prelude.{◌≡◌, ◌↔◌, true, false, List, [], ◌∷◌, none, some, codes, All, ok, pos}
use go_proxy_server.Runtime.Config.{Config, Overrides, ExitBinding, default_config}
use go_proxy_server.Runtime.Validate.{Parsers, validate_exit_bindings}
use go_proxy_server.Runtime.Bindings.{IsBinding, AllDistinct, validate_exit_bindings_iff}
use go_proxy_server.Runtime.Plan.{build_startup_plan}
use go_proxy_server.Runtime.Runner.{World, cancelled_cleanly, run}
use go_proxy_server.Runtime.Shutdown.{Fate, starts, run-Fate}
use go_proxy_server.Runtime.Order.{Prefix, run-Prefix}
use go_proxy_server.Web.TunnelConfig.{validate_server_runtime}
use go_proxy_server.Web.PortRange.{Accepted, validate_server_runtime_iff}

abbrev web_on : Overrides
web_on = record {
  web_port = some (pos 9000);
  socks_port = none;
  socks_bind_listen = some true;
  http_port = none;
  http_bind_listen = none;
}

abbrev web_moved : Overrides
web_moved = record web_on { web_port = some (pos 9001); http_port = some (pos 80) }

-- Every text is an IP, and none is unspecified.
abbrev lenient : Parsers
lenient = record {
  parse_ip = λ s. some s;
  is_unspecified = λ _. false;
  parse_url = λ s. some (s, s);
  split_host_port = λ s. some (s, s);
  atoi = λ _. some (pos 443);
}

abbrev two_bindings : List ExitBinding
two_bindings =
    record { name = []; ingress_local_ip = codes "10.0.0.1"; outbound_local_ip = codes "10.0.1.1" }
    ∷ record {
      name = [];
      ingress_local_ip = codes "10.0.0.2";
      outbound_local_ip = codes "10.0.1.1";
    }
    ∷ []

validate_exit_bindings_iff_example :
    (validate_exit_bindings lenient two_bindings ≡ ok tt)
    ↔ (All (IsBinding lenient) two_bindings × AllDistinct lenient two_bindings)
validate_exit_bindings_iff_example = validate_exit_bindings_iff lenient two_bindings

abbrev world : World
world = record {
  has_manager = true;
  cancelled = λ _. false;
  start_ok = λ _. true;
  shutdown_ok = true;
  web_end = cancelled_cleanly;
}

abbrev served_config : Config
served_config = record default_config {
  web = record { enabled = true; port = pos 8080 };
  socks = record { enabled = true; port = pos 1080; bind_listen = false };
}

run-Fate_example : Fate cancelled_cleanly false (run lenient world served_config)
run-Fate_example = run-Fate lenient world served_config

run-Prefix_example :
    Prefix (starts (run lenient world served_config).0) (build_startup_plan served_config)
run-Prefix_example = run-Prefix lenient world served_config

validate_server_runtime_iff_example :
    (validate_server_runtime (codes "quic") (codes "secret") [] [] false (pos 1000) (pos 2000)
      ≡ ok tt)
    ↔ Accepted (codes "quic") (codes "secret") [] [] false (pos 1000) (pos 2000)
validate_server_runtime_iff_example =
    validate_server_runtime_iff (codes "quic") (codes "secret") [] [] false (pos 1000) (pos 2000)
