-- ===== src/Runtime/Validate.antt =====
-- internal/runtime/config.go: `Validate` and its parts. The parsers of package net, `url.Parse`
-- and `strconv.Atoi` are fields of a record. `url.Parse` gives a scheme and a host, an IP is its
-- bytes.
use go_proxy_server.Prelude.{
  ℕ, ◌+◌, Bool, true, false, ◌&&◌, ◌||◌, not, if◌then◌else◌, List, [], ◌∷◌, Option, none, some,
  Bytes, codes, bytes_dec, Result, ok, err, ◌>>◌, fail_if, ℤ, lt_const,
}
use go_proxy_server.Prelude.GoMap.{GoMap, lookup, insert}
use go_proxy_server.Prelude.Strings.{trim_space, same, is_empty}
use go_proxy_server.Runtime.Config.{Config, ExitBinding, ExitProbeConfig}
use go_proxy_server.Web.TunnelConfig.{
  TunnelError, insecure_with_tls_flags, server_address_required, client_name_required,
  token_required, Check, engine_classic, engine_quic, validate_server_runtime,
  validate_client_runtime,
}

pub record Parsers : Type 0 where
  pub parse_ip : Bytes → Option Bytes
  pub is_unspecified : Bytes → Bool
  pub parse_url : Bytes → Option (Bytes × Bytes)
  pub split_host_port : Bytes → Option (Bytes × Bytes)
  pub atoi : Bytes → Option ℤ

pub data ConfigError : Type 0 where
  no_enabled_services : ConfigError
  invalid_ingress invalid_outbound duplicate_ingress : ℕ → ConfigError
  probe_timeout probe_not_absolute probe_scheme : ConfigError
  unsupported_engine : ConfigError
  server client : TunnelError → ConfigError
  client_incomplete : ConfigError
  insecure_combined : ConfigError

-- `validateTunnelEngine`
unfoldable pub validate_tunnel_engine : Bytes → Result ConfigError (Unit {0})
validate_tunnel_engine engine =
    let e = trim_space engine in
    if is_empty e || same e engine_classic || same e engine_quic
    then ok tt
    else err unsupported_engine

-- The error that `Validate` makes of one of the tunnel client's.
unfoldable pub client_error : TunnelError → ConfigError
client_error server_address_required = client_incomplete
client_error client_name_required = client_incomplete
client_error token_required = client_incomplete
client_error insecure_with_tls_flags = insecure_combined
client_error e = client e

abbrev pub map_error : (TunnelError → ConfigError) → Check → Result ConfigError (Unit {0})
map_error f (ok u) = ok tt
map_error f (err e) = err (f e)

module _ (parsers : Parsers) where
  -- `ip == nil || ip.IsUnspecified()`
  unfoldable pub bad_outbound : Option Bytes → Bool
  bad_outbound none = true
  bad_outbound (some ip) = parsers.is_unspecified ip

  abbrev pub is_none : {A : Type 0} → Option A → Bool
  is_none none = true
  is_none (some a) = false

  -- The loop of `validateExitBindings`, at index `i` with the addresses seen.
  unfoldable pub check_bindings :
      ℕ → GoMap Bytes (Unit {0}) → List ExitBinding → Result ConfigError (Unit {0})
  unfolding bad_outbound
  check_bindings i seen [] = ok tt
  check_bindings i seen (b ∷ bs) =
      let ingress = trim_space b.ingress_local_ip in
      let rest = check_bindings (i + 1) (insert bytes_dec ingress tt seen) bs in
      fail_if (is_none (parsers.parse_ip ingress)) (invalid_ingress i)
      >> (fail_if (bad_outbound (parsers.parse_ip (trim_space b.outbound_local_ip)))
            (invalid_outbound i)
          >> (fail_if (not (is_none (lookup bytes_dec ingress seen))) (duplicate_ingress i)
              >> rest))

  unfoldable pub validate_exit_bindings : List ExitBinding → Result ConfigError (Unit {0})
  unfolding check_bindings
  validate_exit_bindings bindings = check_bindings 0 [] bindings

  unfoldable pub check_url : Option (Bytes × Bytes) → Result ConfigError (Unit {0})
  check_url none = err probe_not_absolute
  check_url (some (scheme, host)) =
      fail_if (is_empty scheme || is_empty host) probe_not_absolute
      >> fail_if (not (same scheme (codes "http")) && not (same scheme (codes "https")))
          probe_scheme

  -- `validateExitProbe`
  unfoldable pub validate_exit_probe : ExitProbeConfig → Result ConfigError (Unit {0})
  unfolding check_url
  validate_exit_probe cfg =
      if not cfg.enabled
      then ok tt
      else fail_if (lt_const cfg.timeout 1) probe_timeout
        >> check_url (parsers.parse_url (trim_space cfg.probe_url))

  unfoldable pub validate_server : Config → Result ConfigError (Unit {0})
  validate_server cfg =
      let s = cfg.tunnel_server in
      if s.enabled
      then validate_tunnel_engine s.engine
        >> map_error server (
            validate_server_runtime s.engine s.token s.cert s.key s.allow_insecure s.auto_port_start
              s.auto_port_end)
      else ok tt

  unfoldable pub validate_client : Config → Result ConfigError (Unit {0})
  unfolding client_error
  validate_client cfg =
      let c = cfg.tunnel_client in
      if c.enabled
      then validate_tunnel_engine c.engine
        >> map_error client_error (
            validate_client_runtime parsers.split_host_port parsers.atoi c.engine c.server c.token
              c.client c.ca c.server_name c.insecure_skip_verify c.allow_insecure)
      else ok tt

  -- `Validate`
  unfoldable pub validate : Config → Result ConfigError (Unit {0})
  validate cfg = do
    fail_if
        (not cfg.web.enabled
          && not cfg.socks.enabled
          && not cfg.http.enabled
          && not cfg.tunnel_server.enabled
          && not cfg.tunnel_client.enabled)
        no_enabled_services
    validate_exit_bindings cfg.exit_bindings
    validate_exit_probe cfg.exit_probe
    validate_server cfg
    validate_client cfg
