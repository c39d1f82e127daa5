-- ===== src/Tunnel/Frames/Client.antt =====
-- internal/tunnel/quic_protocol.go: the client's datagrams, which carry a payload or close.
use go_proxy_server.Prelude.{
  ite-bind, ◌≡◌, Bool, true, false, if◌then◌else◌, [], ◌∷◌, Bytes, ok, err, ◌>>=◌, ite, bytes_dec,
}
use go_proxy_server.Tunnel.Frames.{
  ClientDatagram, marshal_client, unmarshal_client, read_byte, read_frame_string, eof,
  frame_payload,
}
use go_proxy_server.Tunnel.Frames.Fields.{
  Fits, field, field-ne-nil, write_string-Fits, write_bytes-Fits, read_string_before, read_last_lem,
}

-- What the other end makes of a client's frame: one that closes carries no payload.
abbrev pub received : ClientDatagram → ClientDatagram
received f = if f.close then record f { payload = [] } else f

-- The last field on the wire.
abbrev pub last_field : ClientDatagram → Bytes
last_field f = if f.close then f.session_id else f.payload

by_kind :
    (s p : Bytes) (c : Bool)
    → Fits s
    → Fits p
    → let f : ClientDatagram = record { session_id = s; payload = p; close = c } in
      (marshal_client f >>= unmarshal_client)
      ≡ ite (bytes_dec (last_field f) []) (err (frame_payload eof)) (ok (received f))
unfolding marshal_client unmarshal_client read_byte read_frame_string
by_kind s p true hs hp =
    rw (write_string-Fits (3 ∷ []) s hs) (rw (read_last_lem s hs) (rw ite-bind))
by_kind s p false hs hp = rw (write_string-Fits (2 ∷ []) s hs) (
    rw (write_bytes-Fits _ p hp) (
      rw (read_string_before s (field p) hs (field-ne-nil p))
        (rw (read_last_lem p hp) (rw ite-bind))))

-- A client's frame whose fields fit their lengths is read back, without the payload if it closes,
-- provided that its last field on the wire is not empty; else the reader refuses it with `io.EOF`.
pub unmarshal_client-marshal_client :
    (f : ClientDatagram)
    → Fits f.session_id
    → Fits f.payload
    → (marshal_client f >>= unmarshal_client)
      ≡ ite (bytes_dec (last_field f) []) (err (frame_payload eof)) (ok (received f))
unmarshal_client-marshal_client f = by_kind f.session_id f.payload f.close
