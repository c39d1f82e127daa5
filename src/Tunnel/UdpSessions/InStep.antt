-- ===== src/Tunnel/UdpSessions/InStep.antt =====
-- internal/tunnel/quic_server.go: every operation on the UDP sessions keeps the two maps in step.
use go_proxy_server.Prelude.{
  ℕ, ◌≡◌, ◌≢◌, refl, ap, sym, subst, ◌∙◌, inl, inr, Bool, true, false, not, if◌then◌else◌, [], ◌∷◌,
  Option, none, some, some-injective, Bytes, bytes_dec, All, Option-cases, Result-cases, if_pos,
  arith, ltb, length,
}
use go_proxy_server.Prelude.GoMap.{GoMap, lookup, insert, lookup-insert}
use go_proxy_server.Tunnel.Frames.{ClientDatagram, marshal_server}
use go_proxy_server.Tunnel.Routes.Source.{NetParsers, is_source_allowed}
use go_proxy_server.Tunnel.UdpSessions.{
  UdpSession, UdpSessions, UdpRoute, no_sessions, touch, get_or_create_session, forward, datagram,
  receive, drop, close_found, write_found, handle_client_datagram, sweep, cleanup, close, Reply,
}
use go_proxy_server.Tunnel.UdpSessions.Maps.{
  Distinct, insert-Distinct, delete-Distinct, lookup-delete_inv, lookup-delete_ne, one_value,
  Distinct-lookup,
}

-- Each session stands in both maps, under its identifier and under its source.
pub record InStep (s : UdpSessions) : Type 0 where
  pub from_id :
      (id : Bytes) (x : UdpSession)
      → lookup bytes_dec id s.by_id ≡ some x
      → (x.id ≡ id) × (lookup bytes_dec x.source_addr s.by_source ≡ some x)
  pub from_source :
      (a : Bytes) (x : UdpSession)
      → lookup bytes_dec a s.by_source ≡ some x
      → (x.source_addr ≡ a) × (lookup bytes_dec x.id s.by_id ≡ some x)
  pub distinct : Distinct s.by_id

pub no_sessions-InStep : InStep no_sessions
unfolding lookup
no_sessions-InStep = record {
  from_id = λ id x e. absurd (ground arith);
  from_source = λ a x e. absurd (ground arith);
  distinct = tt;
}

pub touch-InStep : (now : ℕ) (id : Bytes) (s : UdpSessions) → InStep s → InStep (touch now id s)
unfolding touch
touch-InStep now id s v = record {
  from_id = v.from_id;
  from_source = v.from_source;
  distinct = v.distinct;
}

drop-InStep :
    (id : Bytes) (x : UdpSession) (s : UdpSessions)
    → InStep s
    → lookup bytes_dec id s.by_id ≡ some x
    → InStep (drop id x s)
unfolding drop
drop-InStep id x s v at =
    let (x_id, x_src) = v.from_id id x at in
    record {
      from_id = λ j y e.
          let (ne, e') = lookup-delete_inv id j s.by_id y e in
          let (yj, y_src) = v.from_id j y e' in
          (
            yj,
            lookup-delete_ne x.source_addr y.source_addr s.by_source y
                (λ q.
                  let same_session =
                    one_value x.source_addr y.source_addr s.by_source x y q x_src y_src in
                  ne (sym x_id ∙ ap (λ z. z.id) same_session ∙ yj))
                y_src,
          );
      from_source = λ a y e.
          let (ne, e') = lookup-delete_inv x.source_addr a s.by_source y e in
          let (ya, y_id) = v.from_source a y e' in
          (
            ya,
            lookup-delete_ne id y.id s.by_id y
                (λ q.
                  let same_session = one_value id y.id s.by_id x y q at y_id in
                  ne (ap (λ z. z.source_addr) same_session ∙ ya))
                y_id,
          );
      distinct = delete-Distinct id s.by_id v.distinct;
    }

-- A new session, with an identifier and a source that have none.
create-InStep :
    (id addr : Bytes) (times : GoMap Bytes ℕ) (s : UdpSessions)
    → InStep s
    → lookup bytes_dec id s.by_id ≡ none
    → lookup bytes_dec addr s.by_source ≡ none
    → InStep (record {
      by_id = insert bytes_dec id (record { id = id; source_addr = addr }) s.by_id;
      by_source = insert bytes_dec addr (record { id = id; source_addr = addr }) s.by_source;
      last_activity = times;
    })
create-InStep id addr times s v no_id no_source =
    let x : UdpSession = record { id = id; source_addr = addr } in
    record {
      from_id = λ j y e. elim (bytes_dec id j) [
        | yes p ↦
            let is_x : x ≡ y =
              some-injective x y (ground (arith, lookup-insert bytes_dec id j x s.by_id)) in
            (
              sym (ap (λ z. z.id) is_x) ∙ p,
              subst
                  (λ z.
                    lookup bytes_dec z.source_addr (insert bytes_dec addr x s.by_source) ≡ some z)
                  is_x (ground (arith, lookup-insert bytes_dec addr addr x s.by_source)),
            )
        | no q ↦
            let e' : lookup bytes_dec j s.by_id ≡ some y =
              ground (arith, lookup-insert bytes_dec id j x s.by_id) in
            let (yj, y_src) = v.from_id j y e' in
            (yj, ground (arith, lookup-insert bytes_dec addr y.source_addr x s.by_source))
      ];
      from_source = λ a y e. elim (bytes_dec addr a) [
        | yes p ↦
            let is_x : x ≡ y =
              some-injective x y (ground (arith, lookup-insert bytes_dec addr a x s.by_source)) in
            (
              sym (ap (λ z. z.source_addr) is_x) ∙ p,
              subst (λ z. lookup bytes_dec z.id (insert bytes_dec id x s.by_id) ≡ some z) is_x
                  (ground (arith, lookup-insert bytes_dec id id x s.by_id)),
            )
        | no q ↦
            let e' : lookup bytes_dec a s.by_source ≡ some y =
              ground (arith, lookup-insert bytes_dec addr a x s.by_source) in
            let (ya, y_id) = v.from_source a y e' in
            (ya, ground (arith, lookup-insert bytes_dec id y.id x s.by_id))
      ];
      distinct = insert-Distinct id x s.by_id v.distinct;
    }

pub get_or_create-InStep :
    (now : ℕ) (id addr : Bytes) (s : UdpSessions)
    → InStep s
    → lookup bytes_dec id s.by_id ≡ none
    → let (s', x) = get_or_create_session now id addr s in
      InStep s' × (lookup bytes_dec addr s'.by_source ≡ some x)
unfolding get_or_create_session
get_or_create-InStep now id addr s v no_id =
    elim (Option-cases (lookup bytes_dec addr s.by_source)) [
      | inr (x, there) ↦ rw (there, get_or_create_session) (v, there)
      | inl absent ↦
          let x : UdpSession = record { id = id; source_addr = addr } in
          rw (absent, get_or_create_session)
            (
              create-InStep id addr _ s v no_id absent,
              lookup-insert bytes_dec addr addr x s.by_source
                  ∙ if_pos (bytes_dec addr addr) refl (some x) (lookup bytes_dec addr s.by_source),
            )
    ]

forward-InStep :
    (now : ℕ) (route : UdpRoute) (addr payload : Bytes) (s : UdpSessions) (x : UdpSession)
    → InStep s
    → InStep ((forward now route addr payload (s, x)).0)
unfolding forward
forward-InStep now route addr payload s x v =
    elim (Result-cases (marshal_server (datagram route addr payload x))) [
      | inl (bytes, written) ↦ rw (written, forward) (touch-InStep now x.id s v)
      | inr (e, failed) ↦ rw (failed, forward) v
    ]

ite-InStep :
    {A : Type 0} (b : Bool) (o p : UdpSessions × A)
    → InStep (o.0)
    → InStep (p.0)
    → InStep ((if b then o else p).0)
ite-InStep true o p f g = f
ite-InStep false o p f g = g

pub receive-InStep :
    (net : NetParsers) (route : UdpRoute) (now : ℕ) (id addr payload : Bytes) (s : UdpSessions)
    → InStep s
    → lookup bytes_dec id s.by_id ≡ none
    → InStep ((receive net route now id addr payload s).0)
unfolding receive
receive-InStep net route now id addr payload s v no_id =
    let made = get_or_create_session now id addr s in
    let sent = forward now route addr payload made in
    let sized = if ltb route.udp_max_payload (length payload) then (s, none) else sent in
    ite-InStep (not (is_source_allowed net route.ip_whitelist addr)) (s, none) sized v
      (ite-InStep (ltb route.udp_max_payload (length payload)) (s, none) sent v
        (forward-InStep now route addr payload (made.0) (made.1)
          ((get_or_create-InStep now id addr s v no_id).0)))

close_found-InStep :
    (id : Bytes) (o : Option UdpSession) (s : UdpSessions)
    → InStep s
    → lookup bytes_dec id s.by_id ≡ o
    → InStep (close_found id o s)
unfolding close_found
close_found-InStep id none s v at = v
close_found-InStep id (some x) s v at = drop-InStep id x s v at

write_found-InStep :
    (now : ℕ) (write_ok : Bool) (payload : Bytes) (o : Option UdpSession) (s : UdpSessions)
    → InStep s
    → InStep ((write_found now write_ok payload o s).0)
unfolding write_found
write_found-InStep now write_ok payload none s v = v
write_found-InStep now write_ok payload (some x) s v =
    ite-InStep write_ok (touch now x.id s, Reply.written x.source_addr payload)
      (s, Reply.write_failed x.source_addr payload) (touch-InStep now x.id s v) v

pub client-InStep :
    (now : ℕ) (write_ok : Bool) (frame : ClientDatagram) (s : UdpSessions)
    → InStep s
    → InStep ((handle_client_datagram now write_ok frame s).0)
unfolding handle_client_datagram
client-InStep now write_ok frame s v =
    let o = lookup bytes_dec frame.session_id s.by_id in
    ite-InStep frame.close (close_found frame.session_id o s, Reply.session_closed)
      (write_found now write_ok frame.payload o s) (close_found-InStep frame.session_id o s v refl)
      (write_found-InStep now write_ok frame.payload o s v)

-- The sessions that the loop has still to visit are there.
abbrev pub Listed : UdpSessions → GoMap Bytes UdpSession → Type 0
Listed s sessions = All (λ p. lookup bytes_dec p.0 s.by_id ≡ some p.1) sessions

drop-Listed :
    (id : Bytes) (x : UdpSession) (s : UdpSessions) (sessions : GoMap Bytes UdpSession)
    → All (λ p. p.0 ≢ id) sessions
    → Listed s sessions
    → Listed (drop id x s) sessions
unfolding drop
drop-Listed id x s [] n h = tt
drop-Listed id x s ((j, y) ∷ sessions) (n, ns) (h, hs) =
    (lookup-delete_ne id j s.by_id y (λ e. n (sym e)) h, drop-Listed id x s sessions ns hs)

sweep-InStep :
    (test : UdpSession → Bool) (sessions : GoMap Bytes UdpSession) (s : UdpSessions)
    → InStep s
    → Distinct sessions
    → Listed s sessions
    → InStep (sweep test sessions s)
unfolding sweep
sweep-InStep test [] s v d h = v
sweep-InStep test ((id, x) ∷ sessions) s v (n, d) (h, hs) =
    either (test x)
      (sweep-InStep test sessions (drop id x s) (drop-InStep id x s v h) d
        (drop-Listed id x s sessions n hs))
      (sweep-InStep test sessions s v d hs)
  where
    either :
        (b : Bool)
        → InStep (sweep test sessions (drop id x s))
        → InStep (sweep test sessions s)
        → InStep (if b then sweep test sessions (drop id x s) else sweep test sessions s)
    either true f g = f
    either false f g = g

pub all_Listed : (s : UdpSessions) → InStep s → Listed s s.by_id
all_Listed s v = Distinct-lookup s.by_id s.by_id (λ k y e. e) v.distinct

pub cleanup-InStep :
    (route : UdpRoute) (now : ℕ) (s : UdpSessions) → InStep s → InStep (cleanup route now s)
unfolding cleanup
cleanup-InStep route now s v = sweep-InStep _ s.by_id s v v.distinct (all_Listed s v)

pub close-InStep : (s : UdpSessions) → InStep s → InStep (close s)
unfolding close
close-InStep s v = sweep-InStep (λ x. true) s.by_id s v v.distinct (all_Listed s v)
