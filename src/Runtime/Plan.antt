-- ===== src/Runtime/Plan.antt =====
-- internal/runtime/runner.go: `BuildStartupPlan`.
use go_proxy_server.Prelude.{Bool, if◌then◌else◌, List, [], ◌∷◌, ◌++◌}
use go_proxy_server.Runtime.Config.{Config}

-- The names of the services.
pub data Service : Type 0 where
  socks http tunnel_server tunnel_client web : Service

abbrev pub only : Bool → Service → List Service
only b s = if b then s ∷ [] else []

-- `BuildStartupPlan`
unfoldable pub build_startup_plan : Config → List Service
build_startup_plan cfg =
    only cfg.socks.enabled socks
    ++ (only cfg.http.enabled http
        ++ (only cfg.tunnel_server.enabled tunnel_server
            ++ (only cfg.tunnel_client.enabled tunnel_client ++ only cfg.web.enabled web)))
