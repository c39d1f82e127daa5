-- ===== src/Tunnel/UdpSessions/Replies.antt =====
-- internal/tunnel/quic_server.go: the states of a route's UDP sessions, and where replies go.
use go_proxy_server.Prelude.{
  ℕ, ◌≡◌, refl, ap, sym, ◌∙◌, inl, inr, Bool, true, false, not, if◌then◌else◌, Option, none, some,
  some-injective, Bytes, bytes_dec, Result-cases, arith, ltb, length,
}
use go_proxy_server.Prelude.GoMap.{lookup}
use go_proxy_server.Tunnel.Frames.{ServerDatagram, ClientDatagram, marshal_server}
use go_proxy_server.Tunnel.Routes.Source.{NetParsers, is_source_allowed}
use go_proxy_server.Tunnel.UdpSessions.{
  UdpSession, UdpSessions, UdpRoute, no_sessions, touch, get_or_create_session, forward, datagram,
  receive, handle_client_datagram, cleanup, close,
}
use go_proxy_server.Tunnel.UdpSessions.InStep.{
  InStep, no_sessions-InStep, get_or_create-InStep, receive-InStep, client-InStep, cleanup-InStep,
  close-InStep,
}
use go_proxy_server.Tunnel.UdpSessions.Follows.{Follows, Stands}
use go_proxy_server.Tunnel.UdpSessions.Stands.{Follows-Stands, answer, handle-answer}

-- The states of a route: the steps are the packets of the public side, with an identifier that is
-- not in use for a new session, the datagrams of the client, the clean-up and the end, in any order.
pub data Reachable (net : NetParsers) (route : UdpRoute) : UdpSessions → Type 0 where
  start : Reachable net route no_sessions
  packet :
      (now : ℕ) (id addr payload : Bytes) (s : UdpSessions)
      → Reachable net route s
      → lookup bytes_dec id s.by_id ≡ none
      → Reachable net route ((receive net route now id addr payload s).0)
  client :
      (now : ℕ) (write_ok : Bool) (frame : ClientDatagram) (s : UdpSessions)
      → Reachable net route s
      → Reachable net route ((handle_client_datagram now write_ok frame s).0)
  cleaned :
      (now : ℕ) (s : UdpSessions)
      → Reachable net route s
      → Reachable net route (cleanup route now s)
  closed : (s : UdpSessions) → Reachable net route s → Reachable net route (close s)

-- In every state that a route reaches, each session stands in both maps, under its identifier and
-- under its source, and no identifier stands twice.
pub Reachable-InStep :
    (net : NetParsers) (route : UdpRoute) (s : UdpSessions) → Reachable net route s → InStep s
Reachable-InStep net route _ start = no_sessions-InStep
Reachable-InStep net route _ (packet now id addr payload s h fresh) =
    receive-InStep net route now id addr payload s (Reachable-InStep net route s h) fresh
Reachable-InStep net route _ (client now write_ok frame s h) =
    client-InStep now write_ok frame s (Reachable-InStep net route s h)
Reachable-InStep net route _ (cleaned now s h) =
    cleanup-InStep route now s (Reachable-InStep net route s h)
Reachable-InStep net route _ (closed s h) = close-InStep s (Reachable-InStep net route s h)

forward_inv :
    (now : ℕ) (route : UdpRoute) (addr payload : Bytes) (s : UdpSessions) (x : UdpSession)
    (d : ServerDatagram)
    → (forward now route addr payload (s, x)).1 ≡ some d
    → (d.session_id ≡ x.id) × ((forward now route addr payload (s, x)).0 ≡ touch now x.id s)
unfolding forward
forward_inv now route addr payload s x d e =
    elim (Result-cases (marshal_server (datagram route addr payload x))) [
      | inr (f, failed) ↦ absurd (ground arith)
      | inl (bytes, marshalled) ↦
          let is_d : datagram route addr payload x ≡ d =
            some-injective (datagram route addr payload x) d (rw (marshalled, forward) at e) in
          (sym (ap (λ y. y.session_id) is_d), rw (marshalled, forward) refl)
    ]

ite-some :
    {A B : Type 0} (b : Bool) (a : A) (o : A × Option B) (d : B)
    → (if b then (a, none) else o).1 ≡ some d
    → ((if b then (a, none) else o) ≡ o) × (o.1 ≡ some d)
ite-some true a o d e = absurd (ground arith)
ite-some false a o d e = (refl, e)

-- A packet that is sent on is of a session that stands, with the packet's source.
receive-Stands :
    (net : NetParsers) (route : UdpRoute) (now : ℕ) (id addr payload : Bytes) (s : UdpSessions)
    (d : ServerDatagram)
    → InStep s
    → lookup bytes_dec id s.by_id ≡ none
    → (receive net route now id addr payload s).1 ≡ some d
    → (x : UdpSession) × (x.source_addr ≡ addr)
      × Stands d.session_id x false ((receive net route now id addr payload s).0)
unfolding receive touch
receive-Stands net route now id addr payload s d v fresh e =
    let made = get_or_create_session now id addr s in
    let s1 = made.0 in
    let x = made.1 in
    let (v1, there) = get_or_create-InStep now id addr s v fresh in
    let (is_addr, at_id) = v1.from_source addr x there in
    let (same1, e1) =
      ite-some (not (is_source_allowed net route.ip_whitelist addr)) s
        (if ltb route.udp_max_payload (length payload)
          then (s, none)
          else forward now route addr payload made)
        d e in
    let (same2, e2) =
      ite-some (ltb route.udp_max_payload (length payload)) s (forward now route addr payload made)
        d e1 in
    let (d_id, touched) = forward_inv now route addr payload s1 x d e2 in
    let state : (receive net route now id addr payload s).0 ≡ touch now x.id s1 =
      ap (λ o. o.0) (same1 ∙ same2) ∙ touched in
    (
      x,
      is_addr,
      (
        receive-InStep net route now id addr payload s v fresh,
        ap (λ t. lookup bytes_dec d.session_id t.by_id) state
            ∙ ap (λ i. lookup bytes_dec i s1.by_id) d_id
            ∙ at_id,
      ),
    )

-- In every state that a route reaches, let a packet of an address be sent on to the client, and let
-- packets, client datagrams, clean-ups and ends of the route follow in any order, no new identifier
-- being in use or that of the datagram. Then the client's answer with that identifier finds no
-- session if since then the client has closed it, a clean-up has found it idle, or the route has
-- ended; else it goes to that address, and is written or not as the write to that address answers.
pub receive-replies :
    (net : NetParsers) (route : UdpRoute) (now later : ℕ) (id addr payload : Bytes)
    (s t : UdpSessions) (d : ServerDatagram) (gone write_ok : Bool) (frame : ClientDatagram)
    → Reachable net route s
    → lookup bytes_dec id s.by_id ≡ none
    → (receive net route now id addr payload s).1 ≡ some d
    → Follows net route d.session_id ((receive net route now id addr payload s).0) gone t
    → frame.session_id ≡ d.session_id
    → frame.close ≡ false
    → (handle_client_datagram later write_ok frame t).1 ≡ answer gone write_ok addr frame.payload
receive-replies net route now later id addr payload s t d gone write_ok frame h fresh e f same_id
      open_frame =
    let (x, is_addr, stands) =
      receive-Stands net route now id addr payload s d (Reachable-InStep net route s h) fresh e in
    let (_, at) = Follows-Stands net route d.session_id x _ stands f in
    handle-answer later write_ok frame x gone t open_frame
      (ap (λ i. lookup bytes_dec i t.by_id) same_id ∙ at)
    ∙ ap (λ a. answer gone write_ok a frame.payload) is_addr
