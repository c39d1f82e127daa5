-- ===== src/Tunnel/Store.antt =====
-- internal/tunnel/managed_store.go: the routes of the tunnel clients in the database. The database is
-- an argument; `tx` and the store itself answer alike. Texts are lists of code points, and the
-- parsers, the sort and the JSON of the whitelist are arguments.
pub mod Database
pub mod Operations
pub mod Pinned
pub mod History
pub mod Saved
use go_proxy_server.Prelude.{
  ℕ, Bool, true, false, ◌&&◌, ◌||◌, not, if◌then◌else◌, leb, List, [], ◌∷◌, ◌++◌, Option, none,
  some, Bytes, codes, bytes_dec, Result, ok, err, ◌>>=◌, ◌>>◌, fail_if, ℤ, pos, negsuc, lt_const,
  gt_const, ◌==◌,
}
use go_proxy_server.Prelude.GoMap.{GoMap, lookup, insert}
use go_proxy_server.Prelude.Strings.{trim_space, to_lower, same, is_empty}

abbrev pub protocol_tcp : Bytes
protocol_tcp = codes "tcp"

abbrev pub protocol_udp : Bytes
protocol_udp = codes "udp"

-- `models.TunnelRoute`
pub record TunnelRoute : Type 0 where
  pub client_name : Bytes
  pub name : Bytes
  pub protocol : Bytes
  pub target_addr : Bytes
  pub public_port : ℤ
  pub ip_whitelist : Bytes
  pub udp_idle_timeout_sec : ℤ
  pub udp_max_payload : ℤ
  pub assigned_public_port : ℤ
  pub active_public_port : ℤ
  pub enabled : Bool
  pub last_error : Bytes

-- `models.TunnelClient`
pub record TunnelClient : Type 0 where
  pub name : Bytes
  pub remote_addr : Bytes
  pub engine : Bytes
  pub connected : Bool
  pub last_seen_at : Option ℕ

pub data StoreError : Type 0 where
  unique_failed db_failed : StoreError
  names_required : StoreError
  bad_protocol : StoreError
  target_required target_port target_form : StoreError
  public_port_range : StoreError
  udp_idle_range udp_payload_range : StoreError
  bad_whitelist_entry marshal_failed : StoreError
  immutable_port immutable_protocol immutable_assigned : StoreError
  exists_already : StoreError
  port_in_use : StoreError
  not_found : StoreError
  still_connected : StoreError

abbrev pub Outcome : Type 0
Outcome = Result StoreError (Unit {0})

-- `int == int`
unfoldable pub int_eq : ℤ → ℤ → Bool
int_eq (pos a) (pos b) = a == b
int_eq (negsuc a) (negsuc b) = a == b
int_eq _ _ = false

-- `normalizeTunnelEngine`
unfoldable pub normalize_tunnel_engine : Bytes → Bytes
normalize_tunnel_engine engine =
    if same (to_lower (trim_space engine)) (codes "quic") then codes "quic" else codes "classic"

-- `normalizeManagedRouteProtocol`
unfoldable pub normalize_protocol : Bytes → Bytes
normalize_protocol protocol =
    let p = to_lower (trim_space protocol) in
    if is_empty p || same p protocol_tcp
    then protocol_tcp
    else if same p protocol_udp
    then protocol_udp
    else protocol_tcp

-- `validateManagedRouteProtocol`
unfoldable pub validate_protocol : Bytes → Outcome
validate_protocol protocol =
    if same protocol protocol_tcp || same protocol protocol_udp then ok tt else err bad_protocol

-- `normalizeManagedUDPIdleTimeout`
unfoldable pub normalize_udp_idle_timeout : ℤ → ℤ
normalize_udp_idle_timeout value = if lt_const value 1 then pos 60 else value

-- `normalizeManagedUDPMaxPayload`
unfoldable pub normalize_udp_max_payload : ℤ → ℤ
normalize_udp_max_payload value = if lt_const value 1 then pos 1200 else value

-- `validateManagedUDPRouteSettings`
unfoldable pub validate_udp_settings : Bytes → ℤ → ℤ → Outcome
validate_udp_settings protocol idle_timeout_sec max_payload =
    if not (same protocol protocol_udp)
    then ok tt
    else if lt_const idle_timeout_sec 10 || gt_const idle_timeout_sec 3600
    then err udp_idle_range
    else if lt_const max_payload 256 || gt_const max_payload 65507
    then err udp_payload_range
    else ok tt

abbrev pub all_digits : Bytes → Bool
all_digits [] = true
all_digits (c ∷ s) = leb 48 c && leb c 57 && all_digits s

-- `isDigitsOnly`
unfoldable pub is_digits_only : Bytes → Bool
is_digits_only value = not (is_empty value) && all_digits value

-- What the source asks of the packages strconv, net, encoding/json and sort. `parse_cidr` and
-- `parse_ip` give the text of the prefix and of the address.
pub record Packages : Type 0 where
  pub atoi : Bytes → Option ℤ
  pub split_host_port : Bytes → Option (Bytes × Bytes)
  pub parse_cidr : Bytes → Option Bytes
  pub parse_ip : Bytes → Option Bytes
  pub sort_strings : List Bytes → List Bytes
  pub marshal : List Bytes → Option Bytes

module _ (pkg : Packages) where
  abbrev pub bad_port : Option ℤ → Bool
  bad_port none = true
  bad_port (some port) = lt_const port 1 || gt_const port 65535

  -- A target that is a port alone; `net.JoinHostPort("127.0.0.1", port)`.
  unfoldable pub local_target : Bytes → Result StoreError Bytes
  local_target port =
      if bad_port (pkg.atoi port) then err target_port else ok (codes "127.0.0.1:" ++ port)

  unfoldable pub host_target : Bytes → Option (Bytes × Bytes) → Result StoreError Bytes
  host_target value none = err target_form
  host_target value (some _) = ok value

  -- The cases of a target that is not blank.
  unfoldable pub target_of : Bytes → Result StoreError Bytes
  unfolding local_target host_target is_digits_only
  target_of [] = err target_required
  target_of (c ∷ rest) =
      if is_digits_only (c ∷ rest)
      then local_target (c ∷ rest)
      else if c == 58 && is_digits_only rest
      then local_target rest
      else host_target (c ∷ rest) (pkg.split_host_port (c ∷ rest))

  -- `normalizeManagedRouteTargetAddr`
  unfoldable pub normalize_target_addr : Bytes → Result StoreError Bytes
  unfolding target_of
  normalize_target_addr target_addr = target_of (trim_space target_addr)

  abbrev pub has_slash : Bytes → Bool
  has_slash [] = false
  has_slash (c ∷ s) = c == 47 || has_slash s

  -- One entry of a whitelist, as a prefix or as an address.
  unfoldable pub normalize_entry : Bytes → Option Bytes
  normalize_entry value = if has_slash value then pkg.parse_cidr value else pkg.parse_ip value

  -- The loop of `normalizeIPWhitelist`, with the entries seen so far.
  unfoldable pub normalize_loop : GoMap Bytes Bool → List Bytes → Result StoreError (List Bytes)
  unfolding normalize_entry
  normalize_loop seen [] = ok []
  normalize_loop seen (raw ∷ values) =
      let skipped = normalize_loop seen values in
      if is_empty (trim_space raw) then skipped else elim (normalize_entry (trim_space raw)) [
        | none ↦ err bad_whitelist_entry
        | some value ↦ elim (lookup bytes_dec value seen) [
          | some _ ↦ skipped
          | none ↦
              normalize_loop (insert bytes_dec value true seen) values >>= λ rest. ok (value ∷ rest)
        ]
      ]

  -- `normalizeIPWhitelist`
  unfoldable pub normalize_ip_whitelist : List Bytes → Result StoreError (List Bytes)
  unfolding normalize_loop
  normalize_ip_whitelist [] = ok []
  normalize_ip_whitelist (v ∷ values) =
      normalize_loop [] (v ∷ values) >>= λ l. ok (pkg.sort_strings l)

  abbrev pub marshalled : Option Bytes → Result StoreError Bytes
  marshalled none = err marshal_failed
  marshalled (some s) = ok s

  -- `marshalIPWhitelist`
  unfoldable pub marshal_ip_whitelist : List Bytes → Result StoreError Bytes
  marshal_ip_whitelist [] = ok []
  marshal_ip_whitelist (v ∷ values) = marshalled (pkg.marshal (v ∷ values))
