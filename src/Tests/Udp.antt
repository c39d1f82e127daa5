-- ===== src/Tests/Udp.antt =====
-- The UDP sessions of internal/tunnel/quic_server.go at concrete inputs.
use go_proxy_server.Prelude.{
  ◌≡◌, ap, arith, Bool, length, refl, true, false, [], ◌∷◌, none, some, codes, bytes_dec,
}
use go_proxy_server.Prelude.GoMap.{lookup, insert}
use go_proxy_server.Tunnel.Frames.{
  ServerDatagram, ClientDatagram, marshal_server, write_frame_string, write_frame_bytes, put_uint16,
}
use go_proxy_server.Tunnel.Routes.Source.{NetParsers, is_source_allowed}
use go_proxy_server.Tunnel.UdpSessions.{
  UdpSessions, UdpRoute, no_sessions, touch, cleanup, receive, get_or_create_session, forward,
  handle_client_datagram,
}
use go_proxy_server.Tunnel.UdpSessions.InStep.{InStep}
use go_proxy_server.Tunnel.UdpSessions.Follows.{is_idle, here, packet, cleaned}
use go_proxy_server.Tunnel.UdpSessions.Stands.{answer}
use go_proxy_server.Tunnel.UdpSessions.Replies.{Reachable, start, Reachable-InStep, receive-replies}

abbrev parsers : NetParsers
parsers = record {
  split_host_port = λ _. none;
  parse_ip = λ _. none;
  parse_cidr = λ _. none;
  equal = λ _ _. false;
}

abbrev dns_route : UdpRoute
dns_route = record {
  name = codes "dns";
  ip_whitelist = [];
  udp_max_payload = 1200;
  udp_idle_timeout_sec = 60;
}

abbrev query : ServerDatagram
query = record {
  session_id = codes "ab";
  route_name = codes "dns";
  source_addr = codes "1.2.3.4:53";
  payload = 7 ∷ [];
}

abbrev reply : ClientDatagram
reply = record { session_id = codes "ab"; payload = 9 ∷ []; close = false }

sent :
    (receive parsers dns_route 5 (codes "ab") (codes "1.2.3.4:53") (7 ∷ []) no_sessions).1
    ≡ some query
unfolding receive is_source_allowed get_or_create_session forward marshal_server write_frame_string
    write_frame_bytes put_uint16 lookup
sent = refl

unused : lookup bytes_dec (codes "ab") no_sessions.by_id ≡ none
unfolding lookup
unused = refl

abbrev opened : UdpSessions
opened = (receive parsers dns_route 5 (codes "ab") (codes "1.2.3.4:53") (7 ∷ []) no_sessions).0

abbrev two_open : UdpSessions
two_open = (receive parsers dns_route 6 (codes "cd") (codes "5.6.7.8:53") (8 ∷ []) opened).0

also_unused : lookup bytes_dec (codes "cd") opened.by_id ≡ none
unfolding receive is_source_allowed get_or_create_session forward marshal_server write_frame_string
    write_frame_bytes put_uint16 lookup bytes_dec insert
also_unused = refl

-- Another client, and a clean-up after 25 seconds.
abbrev idle : Bool
idle = is_idle 60 30 (lookup bytes_dec (codes "ab") two_open.last_activity)

not_idle : idle ≡ false
unfolding receive is_source_allowed get_or_create_session forward marshal_server write_frame_string
    write_frame_bytes put_uint16 lookup bytes_dec insert touch
not_idle = refl

receive-replies_example :
    (handle_client_datagram 31 true reply (cleanup dns_route 30 two_open)).1
    ≡ answer idle true (codes "1.2.3.4:53") (9 ∷ [])
receive-replies_example =
    receive-replies parsers dns_route 5 31 (codes "ab") (codes "1.2.3.4:53") (7 ∷ []) no_sessions
      (cleanup dns_route 30 two_open) query idle true reply start unused sent
      (cleaned 30 false two_open (
        packet 6 (codes "cd") (codes "5.6.7.8:53") (8 ∷ []) false opened here also_unused
          (λ e. absurd (ground (arith, ap length e)))))
      refl refl

Reachable-InStep_example :
    InStep ((receive parsers dns_route 5 (codes "ab") (codes "1.2.3.4:53") (7 ∷ []) no_sessions).0)
Reachable-InStep_example =
    Reachable-InStep parsers dns_route _
      (Reachable.packet 5 (codes "ab") (codes "1.2.3.4:53") (7 ∷ []) no_sessions start unused)
