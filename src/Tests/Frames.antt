-- ===== src/Tests/Frames.antt =====
-- internal/tunnel/quic_protocol.go at concrete inputs.
use go_proxy_server.Prelude.{◌≡◌, refl, true, [], ◌∷◌, codes, ite, bytes_dec, ok, err, ◌>>=◌, arith}
use go_proxy_server.Tunnel.Frames.{
  ServerDatagram, ClientDatagram, marshal_server, unmarshal_server, marshal_client,
  unmarshal_client, eof, frame_payload, read_frame_bytes, write_frame_string, write_frame_bytes,
  put_uint16, read_uint16, read_payload,
}
use go_proxy_server.Tunnel.Frames.Server.{
  ServerFits, unmarshal_server-marshal_server, unmarshal_server-take,
}
use go_proxy_server.Tunnel.Frames.Client.{received, last_field, unmarshal_client-marshal_client}

abbrev ping : ServerDatagram
ping = record {
  session_id = codes "s1";
  route_name = codes "dns";
  source_addr = codes "1.2.3.4:5";
  payload = codes "ping";
}

ping-ServerFits : ServerFits ping
ping-ServerFits = record {
  session_id = omega arith;
  route_name = omega arith;
  source_addr = omega arith;
  payload = omega arith;
}

unmarshal_server-marshal_server_example :
    (marshal_server ping >>= unmarshal_server)
    ≡ ite (bytes_dec ping.payload []) (err (frame_payload eof)) (ok ping)
unmarshal_server-marshal_server_example = unmarshal_server-marshal_server ping ping-ServerFits

abbrev tiny : ServerDatagram
tiny = record {
  session_id = 65 ∷ [];
  route_name = 66 ∷ [];
  source_addr = [];
  payload = 67 ∷ 68 ∷ [];
}

tiny_bytes : marshal_server tiny ≡ ok (1 ∷ 0 ∷ 1 ∷ 65 ∷ 0 ∷ 1 ∷ 66 ∷ 0 ∷ 0 ∷ 0 ∷ 2 ∷ 67 ∷ 68 ∷ [])
unfolding marshal_server write_frame_string write_frame_bytes put_uint16
tiny_bytes = refl

abbrev closing : ClientDatagram
closing = record { session_id = codes "s1"; payload = codes "lost"; close = true }

unmarshal_client-marshal_client_example :
    (marshal_client closing >>= unmarshal_client)
    ≡ ite (bytes_dec (last_field closing) []) (err (frame_payload eof)) (ok (received closing))
unmarshal_client-marshal_client_example =
    unmarshal_client-marshal_client closing (omega arith) (omega arith)

short_read : read_frame_bytes (0 ∷ 3 ∷ 65 ∷ []) ≡ ok (65 ∷ 0 ∷ 0 ∷ [], [])
unfolding read_frame_bytes read_uint16 read_payload
short_read = refl

unmarshal_server-take_example :
    unmarshal_server (1 ∷ 0 ∷ 1 ∷ 65 ∷ 0 ∷ 1 ∷ 66 ∷ 0 ∷ 0 ∷ 0 ∷ 2 ∷ 67 ∷ [])
    ≡ ok (record tiny { payload = 67 ∷ 0 ∷ [] })
unmarshal_server-take_example = unmarshal_server-take tiny _ 1 tiny_bytes (omega arith)
