-- ===== src/Tunnel/Frames/Server.antt =====
-- internal/tunnel/quic_protocol.go: the server's datagrams.
use go_proxy_server.Prelude.{
  ℕ, ◌-◌, ◌≤◌, ◌<◌, ite-bind, ◌≡◌, ◌≢◌, ap, sym, ◌∙◌, length, take, replicate, [], ◌∷◌, ◌++◌, Bytes,
  ok, ok_inv, err, ◌>>=◌, arith, ite, bytes_dec,
}
use mathlib.Core.List.{append_assoc}
use go_proxy_server.Tunnel.Frames.{
  ServerDatagram, put_uint16, write_frame_string, write_frame_bytes, marshal_server, read_byte,
  read_frame_bytes, unmarshal_server, eof, frame_payload,
}
use go_proxy_server.Tunnel.Frames.Reading.{read_short}
use go_proxy_server.Tunnel.Frames.Fields.{
  take_end, put-ne-nil, Fits, field, append_left-ne-nil, field-ne-nil, write_string-Fits,
  write_bytes-Fits, read_string_before, read_last_lem,
}

-- Every field of the frame fits its 16-bit length.
pub record ServerFits (frame : ServerDatagram) : Type 0 where
  pub session_id : Fits frame.session_id
  pub route_name : Fits frame.route_name
  pub source_addr : Fits frame.source_addr
  pub payload : Fits frame.payload

server_bytes : ServerDatagram → Bytes
server_bytes f =
    1 ∷ (field f.session_id ++ (field f.route_name ++ (field f.source_addr ++ field f.payload)))

marshal_server-eq : (f : ServerDatagram) → ServerFits f → marshal_server f ≡ ok (server_bytes f)
unfolding marshal_server server_bytes
marshal_server-eq f h = rw (write_string-Fits (1 ∷ []) f.session_id h.session_id) (
    rw (write_string-Fits _ f.route_name h.route_name) (
      rw (write_string-Fits _ f.source_addr h.source_addr)
        (rw (write_bytes-Fits _ f.payload h.payload) (simp append_assoc))))

-- A frame with any bytes for its payload's field.
server_head : ServerDatagram → Bytes → Bytes
server_head f tail =
    1 ∷ (field f.session_id ++ (field f.route_name ++ (field f.source_addr ++ tail)))

unmarshal_server-head :
    (f : ServerDatagram) (tail : Bytes)
    → ServerFits f
    → tail ≢ []
    → unmarshal_server (server_head f tail)
      ≡ (read_frame_bytes tail >>= λ r. ok (record f { payload = r.0 }))
unfolding unmarshal_server server_head read_byte
unmarshal_server-head f tail h tail_ne =
    let mid_ne = append_left-ne-nil (field f.source_addr) tail (field-ne-nil f.source_addr) in
    rw
      (read_string_before f.session_id (field f.route_name ++ (field f.source_addr ++ tail))
        h.session_id
        (append_left-ne-nil (field f.route_name) (field f.source_addr ++ tail)
          (field-ne-nil f.route_name)))
      (rw (read_string_before f.route_name (field f.source_addr ++ tail) h.route_name mid_ne)
        (rw (read_string_before f.source_addr tail h.source_addr tail_ne)))

unmarshal_server-eq :
    (f : ServerDatagram)
    → ServerFits f
    → unmarshal_server (server_bytes f)
      ≡ (read_frame_bytes (field f.payload) >>= λ r. ok (record f { payload = r.0 }))
unfolding server_bytes server_head
unmarshal_server-eq f h = unmarshal_server-head f (field f.payload) h (field-ne-nil f.payload)

-- A frame whose fields fit their lengths is read back as it was sent if it has a payload, and one
-- with an empty payload is sent and refused by the reader with `io.EOF`.
pub unmarshal_server-marshal_server :
    (f : ServerDatagram)
    → ServerFits f
    → (marshal_server f >>= unmarshal_server)
      ≡ ite (bytes_dec f.payload []) (err (frame_payload eof)) (ok f)
unmarshal_server-marshal_server f h =
    rw (marshal_server-eq f h)
      (rw (unmarshal_server-eq f h) (rw (read_last_lem f.payload h.payload) (rw ite-bind)))

-- Only a frame whose every field fits its 16-bit length is ever sent.
pub marshal_server-ServerFits :
    (f : ServerDatagram) {b : Bytes} → marshal_server f ≡ ok b → ServerFits f
unfolding marshal_server write_frame_string write_frame_bytes
marshal_server-ServerFits f e = ground arith

cut_head :
    (f : ServerDatagram) (lost : ℕ)
    → lost ≤ length f.payload
    → take (length (server_bytes f) - lost) (server_bytes f)
      ≡ server_head f (put_uint16 (length f.payload) ++ take (length f.payload - lost) f.payload)
unfolding server_bytes server_head
cut_head f lost h =
    let size = put_uint16 (length f.payload) in
    let head = 1 ∷ (field f.session_id ++ (field f.route_name ++ (field f.source_addr ++ size))) in
    let whole : head ++ f.payload ≡ server_bytes f = simp append_assoc in
    ap (λ b. take (length b - lost) b) (sym whole)
    ∙ take_end head f.payload lost h
    ∙ simp append_assoc

-- If some of the last bytes of a server's datagram are lost, fewer than its payload has, then the
-- reader reports no error: the frame that it returns has the payload with the lost bytes as zeros,
-- and else what was sent.
pub unmarshal_server-take :
    (f : ServerDatagram) (b : Bytes) (lost : ℕ)
    → marshal_server f ≡ ok b
    → lost < length f.payload
    → unmarshal_server (take (length b - lost) b)
      ≡ ok (record f { payload = take (length f.payload - lost) f.payload ++ replicate lost 0 })
unmarshal_server-take f b lost e h =
    let fits = marshal_server-ServerFits f e in
    let is_b : server_bytes f ≡ b =
      ok_inv (server_bytes f) b (sym (marshal_server-eq f fits) ∙ e) in
    let tail = put_uint16 (length f.payload) ++ take (length f.payload - lost) f.payload in
    ap (λ x. unmarshal_server (take (length x - lost) x)) (sym is_b)
    ∙ ap unmarshal_server (cut_head f lost (omega arith))
    ∙ unmarshal_server-head f tail fits (put-ne-nil (length f.payload) _)
    ∙ ap (λ r. r >>= λ r. ok (record f { payload = r.0 }))
        (read_short f.payload lost fits.payload h)
