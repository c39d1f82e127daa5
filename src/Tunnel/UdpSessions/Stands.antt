-- ===== src/Tunnel/UdpSessions/Stands.antt =====
-- internal/tunnel/quic_server.go: a UDP session through all that follows, and the answer that it gets.
use go_proxy_server.Prelude.{
  ℕ, ◌≡◌, refl, ap, ◌∙◌, Bool, true, false, ◌||◌, if◌then◌else◌, Option, none, Bytes, bytes_dec,
}
use go_proxy_server.Prelude.GoMap.{lookup}
use go_proxy_server.Tunnel.Frames.{ClientDatagram}
use go_proxy_server.Tunnel.Routes.Source.{NetParsers}
use go_proxy_server.Tunnel.UdpSessions.{
  UdpSession, UdpSessions, UdpRoute, write_found, handle_client_datagram, cleanup, Reply,
}
use go_proxy_server.Tunnel.UdpSessions.InStep.{
  InStep, receive-InStep, client-InStep, cleanup-InStep, close-InStep,
}
use go_proxy_server.Tunnel.UdpSessions.Follows.{
  Follows, here, packet, client, cleaned, closed, closes, is_idle, unless, Stands, receive-by_id,
  client-by_id,
}
use go_proxy_server.Tunnel.UdpSessions.Swept.{cleanup-by_id, cleanup-none, close-by_id}

unless-or :
    (a b : Bool) (x : UdpSession)
    → ◌≡◌ {A = Option UdpSession} (if b then none else unless a x) (unless (a || b) x)
unless-or true true x = refl
unless-or true false x = refl
unless-or false true x = refl
unless-or false false x = refl

cleanup-unless :
    (route : UdpRoute) (now : ℕ) (id : Bytes) (x : UdpSession) (gone : Bool) (s : UdpSessions)
    → InStep s
    → lookup bytes_dec id s.by_id ≡ unless gone x
    → lookup bytes_dec id ((cleanup route now s).by_id)
      ≡ unless
          (gone || is_idle route.udp_idle_timeout_sec now (lookup bytes_dec id s.last_activity))
          x
cleanup-unless route now id x true s v at = cleanup-none route now id s at
cleanup-unless route now id x false s v at = cleanup-by_id route now id x s v at

pub Follows-Stands :
    (net : NetParsers) (route : UdpRoute) (id : Bytes) (x : UdpSession) (s : UdpSessions)
    {gone : Bool} {t : UdpSessions}
    → Stands id x false s
    → Follows net route id s gone t
    → Stands id x gone t
Follows-Stands net route id x s h here = h
Follows-Stands net route id x s h (packet now new addr payload gone t f fresh other) =
    let (v, at) = Follows-Stands net route id x s h f in
    (
      receive-InStep net route now new addr payload t v fresh,
      receive-by_id net route now new id addr payload t other ∙ at,
    )
Follows-Stands net route id x s h (client now write_ok frame gone t f) =
    let (v, at) = Follows-Stands net route id x s h f in
    (
      client-InStep now write_ok frame t v,
      client-by_id now write_ok frame id t
          ∙ ap (λ o. if closes id frame then none else o) at
          ∙ unless-or gone (closes id frame) x,
    )
Follows-Stands net route id x s h (cleaned now gone t f) =
    let (v, at) = Follows-Stands net route id x s h f in
    (cleanup-InStep route now t v, cleanup-unless route now id x gone t v at)
Follows-Stands net route id x s h (closed gone t f) =
    let (v, at) = Follows-Stands net route id x s h f in
    (close-InStep t v, close-by_id id x gone t at)

-- What the answer to an address comes to.
abbrev pub answer : Bool → Bool → Bytes → Bytes → Reply
answer true write_ok addr payload = Reply.not_found
answer false true addr payload = Reply.written addr payload
answer false false addr payload = Reply.write_failed addr payload

pub handle-answer :
    (now : ℕ) (write_ok : Bool) (frame : ClientDatagram) (x : UdpSession) (gone : Bool)
    (s : UdpSessions)
    → frame.close ≡ false
    → lookup bytes_dec frame.session_id s.by_id ≡ unless gone x
    → (handle_client_datagram now write_ok frame s).1
      ≡ answer gone write_ok x.source_addr frame.payload
unfolding handle_client_datagram write_found
handle-answer now write_ok frame x gone s open_frame there =
    rw (open_frame, handle_client_datagram, there) (by_cases gone write_ok)
  where
    by_cases :
        (b ok : Bool)
        → (write_found now ok frame.payload (unless b x) s).1
          ≡ answer b ok x.source_addr frame.payload
    by_cases true ok = refl
    by_cases false true = refl
    by_cases false false = refl
