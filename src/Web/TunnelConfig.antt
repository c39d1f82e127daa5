-- ===== src/Web/TunnelConfig.antt =====
-- internal/web/service_tunnel_server.go, service_tunnel_client.go and service_tunnel_engine.go:
-- what a tunnel's configuration must satisfy. The parser `net.SplitHostPort` and `strconv.Atoi`
-- are arguments.
use go_proxy_server.Prelude.{
  ℕ, ◌+◌, Bool, true, false, ◌&&◌, ◌||◌, not, if◌then◌else◌, ltb, leb, ◌==◌, [], ◌∷◌, Option, none,
  some, Bytes, codes, Result, ok, err, ◌>>◌, fail_if, ℤ, pos, negsuc, lt_const, gt_const,
}
use go_proxy_server.Prelude.Strings.{trim_space, to_lower, same, is_empty}

abbrev pub engine_classic : Bytes
engine_classic = codes "classic"

abbrev pub engine_quic : Bytes
engine_quic = codes "quic"

pub data TunnelError : Type 0 where
  unsupported_engine : TunnelError
  quic_insecure : TunnelError
  range_not_set range_out_of_bounds range_reversed : TunnelError
  token_required insecure_with_cert cert_without_key : TunnelError
  insecure_with_tls_flags : TunnelError
  server_address_required client_name_required : TunnelError
  client_name_too_long client_name_character : TunnelError
  server_address_format server_host_required server_port_range : TunnelError

abbrev pub Check : Type 0
Check = Result TunnelError (Unit {0})

-- `validateTunnelEngine`
unfoldable pub validate_tunnel_engine : Bytes → Check
validate_tunnel_engine value =
    let e = to_lower (trim_space value) in
    if is_empty e || same e engine_classic || same e engine_quic
    then ok tt
    else err unsupported_engine

-- `tunnelEngineOrDefault(value) == tunnel.EngineQUIC`
unfoldable pub is_quic : Bytes → Bool
is_quic value = same (to_lower (trim_space value)) engine_quic

-- `a > b`
abbrev pub above : ℤ → ℤ → Bool
above (pos a) (pos b) = ltb b a
above (pos a) (negsuc b) = true
above (negsuc a) (pos b) = false
above (negsuc a) (negsuc b) = ltb a b

abbrev pub is_zero : ℤ → Bool
is_zero z = lt_const z 1 && not (lt_const z 0)

-- The checks of the range of automatic ports.
unfoldable pub validate_range : ℤ → ℤ → Check
validate_range first last =
    if is_zero first && is_zero last
    then ok tt
    else if lt_const first 1 || lt_const last 1
    then err range_not_set
    else if gt_const first 65535 || gt_const last 65535
    then err range_out_of_bounds
    else if above first last
    then err range_reversed
    else ok tt

-- `validateManagedTunnelServerConfig`
unfoldable pub validate_server_config : Bytes → Bool → ℤ → ℤ → Check
unfolding validate_tunnel_engine is_quic validate_range
validate_server_config engine allow_insecure first last = do
  validate_tunnel_engine engine
  fail_if (allow_insecure && is_quic engine) quic_insecure
  validate_range first last

-- `ValidateTunnelServerRuntimeConfig`
unfoldable pub validate_server_runtime : Bytes → Bytes → Bytes → Bytes → Bool → ℤ → ℤ → Check
validate_server_runtime engine token cert key allow_insecure first last = do
  let has_cert = not (is_empty (trim_space cert))
  let has_key = not (is_empty (trim_space key))
  validate_server_config (trim_space engine) allow_insecure first last
  fail_if (is_empty (trim_space token)) token_required
  fail_if (allow_insecure && (has_cert || has_key)) insecure_with_cert
  fail_if (not allow_insecure && ((has_cert && not has_key) || (not has_cert && has_key)))
      cert_without_key

-- The length of a text in bytes.
unfoldable pub byte_length : Bytes → ℕ
byte_length [] = 0
byte_length (r ∷ s) =
    (if ltb r 0x80 then 1 else if ltb r 0x800 then 2 else if ltb r 0x10000 then 3 else 4)
    + byte_length s

-- The characters of a client's name: letters, digits, dot, dash and underscore.
unfoldable pub is_name_character : ℕ → Bool
is_name_character r =
    (leb 97 r && leb r 122)
    || (leb 65 r && leb r 90)
    || (leb 48 r && leb r 57)
    || r == 46
    || r == 45
    || r == 95

unfoldable pub check_characters : Bytes → Check
check_characters [] = ok tt
check_characters (r ∷ s) =
    let rest = check_characters s in if is_name_character r then rest else err client_name_character

-- `validateManagedTunnelClientName`
unfoldable pub validate_client_name : Bytes → Check
unfolding check_characters is_name_character byte_length
validate_client_name value =
    if ltb 64 (byte_length value) then err client_name_too_long else check_characters value

module _ (split_host_port : Bytes → Option (Bytes × Bytes)) (atoi : Bytes → Option ℤ) where
  unfoldable pub check_port : Option ℤ → Check
  check_port none = err server_port_range
  check_port (some n) = fail_if (lt_const n 1 || gt_const n 65535) server_port_range

  -- `validateManagedTunnelServerAddr`
  unfoldable pub validate_server_addr : Bytes → Check
  unfolding check_port
  validate_server_addr value = elim (split_host_port value) [
    | none ↦ err server_address_format
    | some (host, port) ↦
        if is_empty (trim_space host) then err server_host_required else check_port (atoi port)
  ]

  -- `ValidateTunnelClientRuntimeConfig`
  unfoldable pub validate_client_runtime :
      Bytes → Bytes → Bytes → Bytes → Bytes → Bytes → Bool → Bool → Check
  validate_client_runtime engine server token client ca server_name skip_verify allow_insecure = do
    fail_if (allow_insecure && (not (is_empty ca) || not (is_empty server_name) || skip_verify))
        insecure_with_tls_flags
    validate_tunnel_engine (trim_space engine)
    fail_if (is_empty (trim_space server)) server_address_required
    fail_if (is_empty (trim_space client)) client_name_required
    fail_if (is_empty (trim_space token)) token_required
    validate_client_name (trim_space client)
    validate_server_addr (trim_space server)
