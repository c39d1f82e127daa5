-- ===== src/Tunnel/UdpSessions.antt =====
-- internal/tunnel/quic_server.go: the UDP sessions of a route of the QUIC engine, in two maps, by
-- identifier and by source address. A session is known by its identifier, under which the time of its
-- last activity is kept; an address is its text. A call under the lock of the maps is one step. The
-- calls of the server's record of active sessions, the traffic counters and the log are left out.
pub mod Maps
pub mod InStep
pub mod Follows
pub mod Swept
pub mod Stands
pub mod Replies
use go_proxy_server.Prelude.{
  ℕ, ◌+◌, ◌-◌, Bool, true, false, not, if◌then◌else◌, ltb, List, [], ◌∷◌, Option, none, some, Bytes,
  bytes_dec, length, Result, ok, err,
}
use go_proxy_server.Prelude.GoMap.{GoMap, lookup, insert, delete}
use go_proxy_server.Tunnel.Frames.{ServerDatagram, ClientDatagram, marshal_server}
use go_proxy_server.Tunnel.Routes.Source.{NetParsers, is_source_allowed}

-- `quicManagedUDPSession`, less what changes.
pub record UdpSession : Type 0 where
  pub id : Bytes
  pub source_addr : Bytes

-- `sessionsByID`, `sessionsBySource`, and the field `lastActivity` of each session.
pub record UdpSessions : Type 0 where
  pub by_id : GoMap Bytes UdpSession
  pub by_source : GoMap Bytes UdpSession
  pub last_activity : GoMap Bytes ℕ

-- What of a route decides about a packet.
pub record UdpRoute : Type 0 where
  pub name : Bytes
  pub ip_whitelist : List Bytes
  pub udp_max_payload : ℕ
  pub udp_idle_timeout_sec : ℕ

abbrev pub no_sessions : UdpSessions
no_sessions = record { by_id = []; by_source = []; last_activity = [] }

-- `touch`
unfoldable pub touch : ℕ → Bytes → UdpSessions → UdpSessions
touch now id s = record s { last_activity = insert bytes_dec id now s.last_activity }

-- `getOrCreateSession`, with the identifier that is made if one is needed.
unfoldable pub get_or_create_session : ℕ → Bytes → Bytes → UdpSessions → UdpSessions × UdpSession
get_or_create_session now id addr s = elim (lookup bytes_dec addr s.by_source) [
  | some x ↦ (s, x)
  | none ↦
      let x : UdpSession = record { id = id; source_addr = addr } in
      (
        record {
          by_id = insert bytes_dec id x s.by_id;
          by_source = insert bytes_dec addr x s.by_source;
          last_activity = insert bytes_dec id now s.last_activity;
        },
        x,
      )
]

abbrev pub datagram : UdpRoute → Bytes → Bytes → UdpSession → ServerDatagram
datagram route addr payload x = record {
  session_id = x.id;
  route_name = route.name;
  source_addr = addr;
  payload = payload;
}

-- The datagram, and the session touched, unless it cannot be written.
unfoldable pub forward :
    ℕ → UdpRoute → Bytes → Bytes → UdpSessions × UdpSession → UdpSessions × Option ServerDatagram
unfolding touch
forward now route addr payload (s, x) = elim (marshal_server (datagram route addr payload x)) [
  | err e ↦ (s, none)
  | ok bytes ↦ (touch now x.id s, some (datagram route addr payload x))
]

-- One turn of the loop that reads the public packets: the packet of an address, and what is sent to
-- the client.
unfoldable pub receive :
    NetParsers
    → UdpRoute
    → ℕ
    → Bytes
    → Bytes
    → Bytes
    → UdpSessions
    → UdpSessions × Option ServerDatagram
unfolding get_or_create_session forward
receive net route now id addr payload s =
    if not (is_source_allowed net route.ip_whitelist addr)
    then (s, none)
    else if ltb route.udp_max_payload (length payload)
    then (s, none)
    else forward now route addr payload (get_or_create_session now id addr s)

-- A session taken out of both maps.
unfoldable pub drop : Bytes → UdpSession → UdpSessions → UdpSessions
drop id x s = record s {
  by_id = delete bytes_dec id s.by_id;
  by_source = delete bytes_dec x.source_addr s.by_source;
}

-- What a datagram of the client comes to.
pub data Reply : Type 0 where
  session_closed not_found : Reply
  written write_failed : (addr payload : Bytes) → Reply

unfoldable pub close_found : Bytes → Option UdpSession → UdpSessions → UdpSessions
unfolding drop
close_found id none s = s
close_found id (some x) s = drop id x s

unfoldable pub write_found :
    ℕ → Bool → Bytes → Option UdpSession → UdpSessions → UdpSessions × Reply
unfolding touch
write_found now write_ok payload none s = (s, not_found)
write_found now write_ok payload (some x) s =
    if write_ok
    then (touch now x.id s, written x.source_addr payload)
    else (s, write_failed x.source_addr payload)

-- `handleClientDatagram`
unfoldable pub handle_client_datagram :
    ℕ → Bool → ClientDatagram → UdpSessions → UdpSessions × Reply
unfolding close_found write_found
handle_client_datagram now write_ok frame s =
    let x = lookup bytes_dec frame.session_id s.by_id in
    if frame.close
    then (close_found frame.session_id x s, session_closed)
    else write_found now write_ok frame.payload x s

-- The loop over the sessions that drops those that a test picks.
unfoldable pub sweep : (UdpSession → Bool) → GoMap Bytes UdpSession → UdpSessions → UdpSessions
unfolding drop
sweep test [] s = s
sweep test ((id, x) ∷ sessions) s =
    let kept = sweep test sessions s in
    let dropped = sweep test sessions (drop id x s) in if test x then dropped else kept

abbrev pub before : ℕ → Option ℕ → Bool
before deadline none = false
before deadline (some t) = ltb t deadline

-- One turn of `cleanupLoop`.
unfoldable pub cleanup : UdpRoute → ℕ → UdpSessions → UdpSessions
unfolding sweep
cleanup route now s =
    sweep (λ x. before (now - route.udp_idle_timeout_sec) (lookup bytes_dec x.id s.last_activity))
      s.by_id s

-- `close`
unfoldable pub close : UdpSessions → UdpSessions
unfolding sweep
close s = sweep (λ x. true) s.by_id s
