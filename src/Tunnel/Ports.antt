-- ===== src/Tunnel/Ports.antt =====
-- internal/tunnel/managed_server.go: the choice of the public port of a route. A listener is known
-- by the port asked for, 0 where the system picks one, and `net.Listen` is an argument; ports are
-- not negative, since `Start` has checked the range and the database holds no others.
pub mod FirstFree
use go_proxy_server.Prelude.{
  ℕ, zero, suc, ◌+◌, ◌-◌, Bool, true, false, ◌&&◌, ◌||◌, if◌then◌else◌, ltb, ◌==◌, List, [], ◌∷◌,
  Option, none, some, Result, ok, err, ℤ, lt_const, gt_const, Bytes,
}
use go_proxy_server.Web.TunnelConfig.{above, is_zero}

-- What `net.Listen` on a port answers: a listener, `EADDRINUSE` or another error.
pub data Listen : Type 0 where
  listening in_use failed : Listen

pub data PortError : Type 0 where
  range_not_set range_out_of_bounds range_reversed : PortError
  assigned_ports : PortError
  listen_error : ℕ → Listen → PortError
  none_available : PortError

-- `validateManagedAutoPortRange`
unfoldable pub validate_auto_port_range : ℤ → ℤ → Result PortError (Unit {0})
validate_auto_port_range first last =
    if is_zero first && is_zero last
    then ok tt
    else if lt_const first 1 || lt_const last 1
    then err range_not_set
    else if gt_const first 65535 || gt_const last 65535
    then err range_out_of_bounds
    else if above first last
    then err range_reversed
    else ok tt

-- What of a route decides its port.
pub record Route : Type 0 where
  pub public_port : ℕ
  pub assigned_public_port : ℕ

-- `reserved[port]`
unfoldable pub is_reserved : ℕ → List ℕ → Bool
is_reserved port [] = false
is_reserved port (p ∷ ps) = p == port || is_reserved port ps

module _ (listen : ℕ → Listen) where
  -- `net.Listen` on one port.
  abbrev pub listen_on : ℕ → Result PortError ℕ
  listen_on port = elim (listen port) [
    | listening ↦ ok port
    | in_use ↦ err (listen_error port in_use)
    | failed ↦ err (listen_error port failed)
  ]

  -- The loop of `allocateNewPort`, with the number of ports that are left.
  unfoldable pub allocate_loop : List ℕ → ℕ → ℕ → Result PortError ℕ
  allocate_loop reserved zero port = err none_available
  allocate_loop reserved (suc left) port =
      let rest = allocate_loop reserved left (port + 1) in
      if is_reserved port reserved then rest else elim (listen port) [
        | listening ↦ ok port
        | in_use ↦ rest
        | failed ↦ err (listen_error port failed)
      ]

  -- `allocateNewPort`; `none` is a failure of `GetAssignedPorts`.
  unfoldable pub allocate_new_port : Option (List ℕ) → ℕ → ℕ → Result PortError ℕ
  unfolding allocate_loop
  allocate_new_port none first last = err assigned_ports
  allocate_new_port (some reserved) first last = allocate_loop reserved (last + 1 - first) first

  -- `listenPublicRoutePort`
  unfoldable pub listen_public_route_port : Option (List ℕ) → ℕ → ℕ → Route → Result PortError ℕ
  unfolding allocate_new_port
  listen_public_route_port assigned first last route =
      if ltb 0 route.public_port
      then listen_on route.public_port
      else if ltb 0 route.assigned_public_port
      then listen_on route.assigned_public_port
      else if first == 0 && last == 0
      then listen_on 0
      else allocate_new_port assigned first last
