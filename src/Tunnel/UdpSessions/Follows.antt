-- ===== src/Tunnel/UdpSessions/Follows.antt =====
-- internal/tunnel/quic_server.go: one UDP session in all that may follow its packet.
use go_proxy_server.Prelude.{
  ℕ, ◌+◌, ◌≡◌, ◌≢◌, refl, ap, sym, ◌∙◌, inl, inr, Bool, true, false, ◌&&◌, ◌||◌, not, if◌then◌else◌,
  ite, if_pos, if_neg, ltb, length, Option, none, some, Option-cases, Bytes, bytes_dec,
  Result-cases, arith,
}
use go_proxy_server.Prelude.GoMap.{lookup, lookup-insert, lookup-delete}
use go_proxy_server.Tunnel.Frames.{ClientDatagram, marshal_server}
use go_proxy_server.Tunnel.Routes.Source.{NetParsers, is_source_allowed}
use go_proxy_server.Tunnel.UdpSessions.{
  UdpSession, UdpSessions, UdpRoute, touch, get_or_create_session, forward, datagram, receive, drop,
  close_found, write_found, handle_client_datagram, cleanup, close, Reply,
}
use go_proxy_server.Tunnel.UdpSessions.InStep.{InStep}

-- A client datagram closes the session of an identifier.
abbrev pub closes : Bytes → ClientDatagram → Bool
closes id frame = frame.close && ite (bytes_dec frame.session_id id) true false

-- The last activity is more than the idle timeout ago.
abbrev pub is_idle : ℕ → ℕ → Option ℕ → Bool
is_idle timeout now none = false
is_idle timeout now (some time) = ltb (time + timeout) now

-- What may follow a state, in any order: packets, whose new identifiers are not in use and are not
-- `id`, datagrams of the client, clean-ups and ends of the route. The Boolean says whether the
-- session `id` has been closed by its client, been idle at a clean-up, or been there at the end.
pub data Follows (net : NetParsers) (route : UdpRoute) (id : Bytes) (s : UdpSessions)
    : Bool → UdpSessions → Type 0 where
  here : Follows net route id s false s
  packet :
      (now : ℕ) (new addr payload : Bytes) (gone : Bool) (t : UdpSessions)
      → Follows net route id s gone t
      → lookup bytes_dec new t.by_id ≡ none
      → new ≢ id
      → Follows net route id s gone ((receive net route now new addr payload t).0)
  client :
      (now : ℕ) (write_ok : Bool) (frame : ClientDatagram) (gone : Bool) (t : UdpSessions)
      → Follows net route id s gone t
      → Follows net route id s
          (gone || closes id frame)
          ((handle_client_datagram now write_ok frame t).0)
  cleaned :
      (now : ℕ) (gone : Bool) (t : UdpSessions)
      → Follows net route id s gone t
      → Follows net route id s
          (gone || is_idle route.udp_idle_timeout_sec now (lookup bytes_dec id t.last_activity))
          (cleanup route now t)
  closed :
      (gone : Bool) (t : UdpSessions)
      → Follows net route id s gone t
      → Follows net route id s true (close t)

abbrev pub unless : Bool → UdpSession → Option UdpSession
unless true x = none
unless false x = some x

-- The session of an identifier, unless it is gone, in a state in step.
abbrev pub Stands : Bytes → UdpSession → Bool → UdpSessions → Type 0
Stands id x gone t = InStep t × (lookup bytes_dec id t.by_id ≡ unless gone x)

forward-by_id :
    (now : ℕ) (route : UdpRoute) (addr payload : Bytes) (s : UdpSessions) (x : UdpSession)
    → ((forward now route addr payload (s, x)).0).by_id ≡ s.by_id
unfolding forward touch
forward-by_id now route addr payload s x =
    elim (Result-cases (marshal_server (datagram route addr payload x))) [
      | inl (bytes, marshalled) ↦ rw (marshalled, forward) refl
      | inr (e, failed) ↦ rw (failed, forward) refl
    ]

get_or_create-by_id :
    (now : ℕ) (new id addr : Bytes) (s : UdpSessions)
    → new ≢ id
    → lookup bytes_dec id (((get_or_create_session now new addr s).0).by_id)
      ≡ lookup bytes_dec id s.by_id
unfolding get_or_create_session
get_or_create-by_id now new id addr s other =
    elim (Option-cases (lookup bytes_dec addr s.by_source)) [
      | inr (x, there) ↦ rw (there, get_or_create_session) refl
      | inl absent ↦
          let x : UdpSession = record { id = new; source_addr = addr } in
          rw (absent, get_or_create_session)
            (lookup-insert bytes_dec new id x s.by_id
              ∙ if_neg (bytes_dec new id) other (some x) (lookup bytes_dec id s.by_id))
    ]

ite-by_id :
    {A : Type 0} (b : Bool) (id : Bytes) (r : Option UdpSession) (o p : UdpSessions × A)
    → lookup bytes_dec id ((o.0).by_id) ≡ r
    → lookup bytes_dec id ((p.0).by_id) ≡ r
    → lookup bytes_dec id (((if b then o else p).0).by_id) ≡ r
ite-by_id true id r o p f g = f
ite-by_id false id r o p f g = g

pub receive-by_id :
    (net : NetParsers) (route : UdpRoute) (now : ℕ) (new id addr payload : Bytes) (s : UdpSessions)
    → new ≢ id
    → lookup bytes_dec id (((receive net route now new addr payload s).0).by_id)
      ≡ lookup bytes_dec id s.by_id
unfolding receive
receive-by_id net route now new id addr payload s other =
    let made = get_or_create_session now new addr s in
    let sent = forward now route addr payload made in
    let r = lookup bytes_dec id s.by_id in
    let sized = if ltb route.udp_max_payload (length payload) then (s, none) else sent in
    ite-by_id (not (is_source_allowed net route.ip_whitelist addr)) id r (s, none) sized refl
      (ite-by_id (ltb route.udp_max_payload (length payload)) id r (s, none) sent refl
        (ap (lookup bytes_dec id) (forward-by_id now route addr payload (made.0) (made.1))
          ∙ get_or_create-by_id now new id addr s other))

close_found-by_id :
    (fid id : Bytes) (o : Option UdpSession) (s : UdpSessions)
    → lookup bytes_dec fid s.by_id ≡ o
    → lookup bytes_dec id ((close_found fid o s).by_id)
      ≡ ite (bytes_dec fid id) none (lookup bytes_dec id s.by_id)
unfolding close_found drop
close_found-by_id fid id (some x) s at = lookup-delete bytes_dec fid id s.by_id
close_found-by_id fid id none s at = elim (bytes_dec fid id) [
  | yes p ↦
      ap (λ i. lookup bytes_dec i s.by_id) (sym p)
      ∙ at
      ∙ sym (if_pos (bytes_dec fid id) p none (lookup bytes_dec id s.by_id))
  | no q ↦ sym (if_neg (bytes_dec fid id) q none (lookup bytes_dec id s.by_id))
]

write_found-by_id :
    (now : ℕ) (write_ok : Bool) (payload : Bytes) (o : Option UdpSession) (s : UdpSessions)
    → ((write_found now write_ok payload o s).0).by_id ≡ s.by_id
unfolding write_found touch
write_found-by_id now write_ok payload none s = refl
write_found-by_id now true payload (some x) s = refl
write_found-by_id now false payload (some x) s = refl

pub client-by_id :
    (now : ℕ) (write_ok : Bool) (frame : ClientDatagram) (id : Bytes) (s : UdpSessions)
    → lookup bytes_dec id (((handle_client_datagram now write_ok frame s).0).by_id)
      ≡ (if closes id frame then none else lookup bytes_dec id s.by_id)
unfolding handle_client_datagram
client-by_id now write_ok frame id s = by_close frame.close
  where
    by_close :
        (b : Bool)
        → let o = lookup bytes_dec frame.session_id s.by_id in
          lookup bytes_dec id (
            ((if b
              then (close_found frame.session_id o s, Reply.session_closed)
              else write_found now write_ok frame.payload o s).0
            ).by_id)
          ≡ (if b && ite (bytes_dec frame.session_id id) true false
              then none
              else lookup bytes_dec id s.by_id)
    by_close true = close_found-by_id frame.session_id id _ s refl ∙ ground arith
    by_close false = ap (lookup bytes_dec id) (write_found-by_id now write_ok frame.payload _ s)
