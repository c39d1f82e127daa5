-- ===== src/Runtime/Config.antt =====
-- internal/runtime/config.go: the configuration and the defaults. A duration is its number of
-- nanoseconds.
use go_proxy_server.Prelude.{Bool, false, List, [], Option, Bytes, codes, ℤ, pos}

pub record WebConfig : Type 0 where
  pub enabled : Bool
  pub port : ℤ

pub record ProxyConfig : Type 0 where
  pub enabled : Bool
  pub port : ℤ
  pub bind_listen : Bool

pub record ExitBinding : Type 0 where
  pub name : Bytes
  pub ingress_local_ip : Bytes
  pub outbound_local_ip : Bytes

pub record ExitProbeConfig : Type 0 where
  pub enabled : Bool
  pub probe_url : Bytes
  pub timeout : ℤ

pub record TunnelServerConfig : Type 0 where
  pub enabled : Bool
  pub engine : Bytes
  pub listen : Bytes
  pub public_bind : Bytes
  pub token : Bytes
  pub cert : Bytes
  pub key : Bytes
  pub allow_insecure : Bool
  pub auto_port_start : ℤ
  pub auto_port_end : ℤ

pub record TunnelClientConfig : Type 0 where
  pub enabled : Bool
  pub engine : Bytes
  pub server : Bytes
  pub token : Bytes
  pub client : Bytes
  pub ca : Bytes
  pub server_name : Bytes
  pub insecure_skip_verify : Bool
  pub allow_insecure : Bool

pub record Config : Type 0 where
  pub web : WebConfig
  pub socks : ProxyConfig
  pub http : ProxyConfig
  pub exit_bindings : List ExitBinding
  pub exit_probe : ExitProbeConfig
  pub tunnel_server : TunnelServerConfig
  pub tunnel_client : TunnelClientConfig

-- A `nil` pointer is `none`.
pub record Overrides : Type 0 where
  pub web_port : Option ℤ
  pub socks_port : Option ℤ
  pub socks_bind_listen : Option Bool
  pub http_port : Option ℤ
  pub http_bind_listen : Option Bool

-- `DefaultConfig`
unfoldable pub default_config : Config
default_config = record {
  web = record { enabled = false; port = pos 8080 };
  socks = record { enabled = false; port = pos 1080; bind_listen = false };
  http = record { enabled = false; port = pos 8081; bind_listen = false };
  exit_bindings = [];
  exit_probe = record {
    enabled = false;
    probe_url = codes "https://api.ipify.org";
    timeout = pos 3000000000;
  };
  tunnel_server = record {
    enabled = false;
    engine = codes "classic";
    listen = codes ":7000";
    public_bind = codes "0.0.0.0";
    token = [];
    cert = [];
    key = [];
    allow_insecure = false;
    auto_port_start = pos 0;
    auto_port_end = pos 0;
  };
  tunnel_client = record {
    enabled = false;
    engine = codes "classic";
    server = [];
    token = [];
    client = [];
    ca = [];
    server_name = [];
    insecure_skip_verify = false;
    allow_insecure = false;
  };
}
