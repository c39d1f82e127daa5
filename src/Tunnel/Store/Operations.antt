-- ===== src/Tunnel/Store/Operations.antt =====
-- internal/tunnel/managed_store.go: the operations of `ManagedStore` that change the database, for a
-- store that has one.
use go_proxy_server.Prelude.{
  ℕ, Bool, true, false, ◌&&◌, ◌||◌, not, if◌then◌else◌, List, [], none, some, Bytes, codes, Result,
  ok, err, ◌>>=◌, ◌>>◌, fail_if, ℤ, pos, lt_const, gt_const,
}
use go_proxy_server.Prelude.Strings.{trim_space, same, is_empty}
use go_proxy_server.Tunnel.Store.{
  TunnelRoute, TunnelClient, StoreError, Outcome, Packages, unique_failed, names_required,
  public_port_range, immutable_port, immutable_protocol, immutable_assigned, exists_already,
  port_in_use, not_found, still_connected, int_eq, normalize_tunnel_engine, normalize_protocol,
  validate_protocol, normalize_udp_idle_timeout, normalize_udp_max_payload, validate_udp_settings,
  normalize_target_addr, normalize_ip_whitelist, marshal_ip_whitelist,
}
use go_proxy_server.Tunnel.Store.Database.{Found, found, missing, failed, Db}

-- `client_name = ? AND name = ?`
abbrev pub is_route : Bytes → Bytes → TunnelRoute → Bool
is_route client_name route_name r = same r.client_name client_name && same r.name route_name

abbrev pub of_client : Bytes → TunnelRoute → Bool
of_client client_name r = same r.client_name client_name

abbrev pub clear_runtime : TunnelRoute → TunnelRoute
clear_runtime r = record r { active_public_port = pos 0; last_error = [] }

-- The arguments of `SaveRouteWithOptions`.
pub record RouteInput : Type 0 where
  pub client_name : Bytes
  pub route_name : Bytes
  pub target_addr : Bytes
  pub public_port : ℤ
  pub enabled : Bool
  pub ip_whitelist : List Bytes
  pub protocol : Bytes
  pub udp_idle_timeout_sec : ℤ
  pub udp_max_payload : ℤ

-- The row that an input asks for; a new one has no assigned port.
abbrev pub new_route : RouteInput → Bytes → Bytes → TunnelRoute
new_route a target stored = record {
  client_name = a.client_name;
  name = a.route_name;
  protocol = normalize_protocol a.protocol;
  target_addr = target;
  public_port = a.public_port;
  ip_whitelist = stored;
  udp_idle_timeout_sec = normalize_udp_idle_timeout a.udp_idle_timeout_sec;
  udp_max_payload = normalize_udp_max_payload a.udp_max_payload;
  assigned_public_port = pos 0;
  active_public_port = pos 0;
  enabled = a.enabled;
  last_error = [];
}

unfoldable pub stored_whitelist : Packages → List Bytes → Result StoreError Bytes
stored_whitelist pkg values = normalize_ip_whitelist pkg values >>= marshal_ip_whitelist pkg

-- The checks behind that of the target.
unfoldable pub with_target : Packages → RouteInput → Bytes → Result StoreError TunnelRoute
unfolding stored_whitelist
with_target pkg a target =
    fail_if (lt_const a.public_port 0 || gt_const a.public_port 65535) public_port_range
    >> (validate_udp_settings (normalize_protocol a.protocol)
          (normalize_udp_idle_timeout a.udp_idle_timeout_sec)
          (normalize_udp_max_payload a.udp_max_payload)
        >> (stored_whitelist pkg a.ip_whitelist >>= λ stored. ok (new_route a target stored)))

-- The row, if the input passes the checks.
unfoldable pub checked_route : Packages → RouteInput → Result StoreError TunnelRoute
unfolding with_target
checked_route pkg a =
    fail_if (is_empty a.client_name || is_empty a.route_name) names_required
    >> (validate_protocol (normalize_protocol a.protocol)
        >> (normalize_target_addr pkg a.target_addr >>= with_target pkg a))

-- What the assigned port of a stored route forbids.
unfoldable pub check_immutable : TunnelRoute → TunnelRoute → Outcome
unfolding int_eq
check_immutable route new =
    if gt_const route.assigned_public_port 0
    then (if not (int_eq route.public_port new.public_port)
        then err immutable_port
        else if not (same route.protocol new.protocol)
        then err immutable_protocol
        else ok tt)
    else ok tt

-- The columns that are written: all but the key and the assigned port.
abbrev pub overwrite : TunnelRoute → TunnelRoute → TunnelRoute
overwrite new r = record new {
  client_name = r.client_name;
  name = r.name;
  assigned_public_port = r.assigned_public_port;
}

-- A call, and what follows it if it does not fail.
abbrev pub and_then : {D : Type 0} → (D × Outcome) → (D → D × Outcome) → D × Outcome
and_then (d, err e) k = (d, err e)
and_then (d, ok _) k = k d

abbrev pub create_error : StoreError → StoreError
create_error unique_failed = exists_already
create_error e = e

abbrev pub created_or : {D : Type 0} → D × Outcome → D × Outcome
created_or (d, ok _) = (d, ok tt)
created_or (d, err e) = (d, err (create_error e))

abbrev pub runtime_error : ℤ → StoreError → StoreError
runtime_error active unique_failed = if gt_const active 0 then port_in_use else unique_failed
runtime_error active e = e

abbrev pub named_error : {D : Type 0} → ℤ → D × Outcome → D × Outcome
named_error active (d, ok _) = (d, ok tt)
named_error active (d, err e) = (d, err (runtime_error active e))

-- The write of an active port and an error; the first port of a route becomes its assigned one.
abbrev pub set_runtime : Bool → ℤ → Bytes → TunnelRoute → TunnelRoute
set_runtime true active last_error r = record r {
  active_public_port = active;
  last_error = last_error;
  assigned_public_port = active;
}
set_runtime false active last_error r = record r {
  active_public_port = active;
  last_error = last_error;
}

abbrev pub unless_refused : {D : Type 0} → D → Outcome → D × Outcome → D × Outcome
unless_refused d (err e) o = (d, err e)
unless_refused d (ok _) o = o

module _ {D : Type 0} (db : Db D) where
  unfoldable pub write_route : TunnelRoute → D → Found TunnelRoute → D × Outcome
  write_route new d missing = created_or (db.create_route new d)
  write_route new d (failed e) = (d, err e)
  write_route new d (found route) =
      unless_refused d (check_immutable route new)
        (db.update_routes (is_route route.client_name route.name) (overwrite new) d)

  -- The transaction of `SaveRouteWithOptions`.
  unfoldable pub save_checked : TunnelRoute → D → D × Outcome
  unfolding write_route
  save_checked new d =
      and_then
        (db.first_or_create_client
          (record {
            name = new.client_name;
            remote_addr = [];
            engine = [];
            connected = false;
            last_seen_at = none;
          })
          d)
        (λ d1. write_route new d1 (db.first_route d1 new.client_name new.name))

  unfoldable pub save_result : D → Result StoreError TunnelRoute → D × Outcome
  unfolding save_checked
  save_result d (err e) = (d, err e)
  save_result d (ok new) = db.transaction (save_checked new) d

  -- `SaveRouteWithOptions`
  unfoldable pub save_route_with_options : Packages → RouteInput → D → D × Outcome
  unfolding checked_route save_result
  save_route_with_options pkg a d = save_result d (checked_route pkg a)

  -- `DeleteRoute`
  unfoldable pub delete_route : Bytes → Bytes → D → D × Outcome
  delete_route client_name route_name d =
      if is_empty client_name || is_empty route_name
      then (d, err names_required)
      else db.delete_routes (is_route client_name route_name) d

  unfoldable pub delete_found : Bytes → D → Found TunnelClient → D × Outcome
  delete_found name d missing = (d, err not_found)
  delete_found name d (failed e) = (d, err e)
  delete_found name d (found client) =
      if client.connected
      then (d, err still_connected)
      else and_then (db.delete_routes (of_client name) d) (db.delete_client client.name)

  -- `DeleteClient`
  unfoldable pub delete_client : Bytes → D → D × Outcome
  unfolding delete_found
  delete_client name d =
      if is_empty (trim_space name)
      then (d, err names_required)
      else db.transaction (λ d. delete_found name d (db.first_client d name)) d

  -- `InitializeRuntimeState`
  unfoldable pub initialize_runtime_state : D → D × Outcome
  initialize_runtime_state d =
      and_then (db.update_clients (λ c. c.connected) (λ c. record c { connected = false }) d) (
        db.update_routes
          (λ r. not (int_eq r.active_public_port (pos 0)) || not (is_empty r.last_error))
          clear_runtime)

  unfoldable pub heartbeat_found :
      Bytes → Bytes → Bytes → Bool → ℕ → D → Found TunnelClient → D × Outcome
  heartbeat_found name remote_addr engine connected now d (failed e) = (d, err e)
  heartbeat_found name remote_addr engine connected now d missing =
      db.create_client
        (record {
          name = name;
          remote_addr = remote_addr;
          engine = engine;
          connected = connected;
          last_seen_at = some now;
        })
        d
  heartbeat_found name remote_addr engine connected now d (found client) =
      db.update_clients (λ c. same c.name client.name)
        (λ c. record c {
          remote_addr = remote_addr;
          engine = engine;
          connected = connected;
          last_seen_at = some now;
        })
        d

  -- `UpsertClientHeartbeat`
  unfoldable pub upsert_client_heartbeat : Bytes → Bytes → Bytes → Bool → ℕ → D → D × Outcome
  unfolding heartbeat_found
  upsert_client_heartbeat name remote_addr engine connected now d =
      if is_empty name
      then (d, err names_required)
      else db.transaction
          (λ d.
            heartbeat_found name remote_addr (normalize_tunnel_engine engine) connected now d
              (db.first_client d name))
          d

  -- `MarkClientDisconnected`
  unfoldable pub mark_client_disconnected : Bytes → ℕ → D → D × Outcome
  mark_client_disconnected name now d =
      if is_empty name
      then (d, ok tt)
      else db.transaction
          (λ d.
            and_then
              (db.update_clients (λ c. same c.name name)
                (λ c. record c { connected = false; last_seen_at = some now }) d)
              (db.update_routes (of_client name) clear_runtime))
          d

  -- `EnsureClient`
  unfoldable pub ensure_client : Bytes → D → D × Outcome
  ensure_client name d =
      if is_empty name
      then (d, ok tt)
      else db.first_or_create_client
          (record {
            name = name;
            remote_addr = [];
            engine = codes "classic";
            connected = false;
            last_seen_at = none;
          })
          d

  unfoldable pub runtime_found : ℤ → Bytes → D → Found TunnelRoute → D × Outcome
  unfolding int_eq
  runtime_found active last_error d missing = (d, ok tt)
  runtime_found active last_error d (failed e) = (d, err e)
  runtime_found active last_error d (found route) =
      let first = gt_const active 0 && int_eq route.assigned_public_port (pos 0) in
      if gt_const active 0 && not first && not (int_eq route.assigned_public_port active)
      then (d, err immutable_assigned)
      else named_error active (
          db.update_routes (is_route route.client_name route.name)
            (set_runtime first active last_error) d)

  -- `UpdateRouteRuntime`
  unfoldable pub update_route_runtime : Bytes → Bytes → ℤ → Bytes → D → D × Outcome
  unfolding runtime_found
  update_route_runtime client_name route_name active last_error d =
      if is_empty client_name || is_empty route_name
      then (d, ok tt)
      else db.transaction
          (λ d. runtime_found active last_error d (db.first_route d client_name route_name)) d

  -- `ClearClientRuntimeRoutes`
  unfoldable pub clear_client_runtime_routes : Bytes → D → D × Outcome
  clear_client_runtime_routes client_name d =
      if is_empty client_name
      then (d, ok tt)
      else db.update_routes (of_client client_name) clear_runtime d
