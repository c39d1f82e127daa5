-- ===== src/Tunnel/Frames.antt =====
-- internal/tunnel/quic_protocol.go: the UDP datagrams of the QUIC engine. A `bytes.Reader` is the
-- list of the bytes that it has not handed out; a `bytes.Buffer` is the list of its bytes.
pub mod Fields
pub mod Server
pub mod Client
pub mod Reading
use go_proxy_server.Prelude.{
  ℕ, ◌+◌, ◌-◌, ◌*◌, ◌/◌, ◌%◌, Bool, true, false, ◌&&◌, not, if◌then◌else◌, ltb, ◌==◌, List, [], ◌∷◌,
  ◌++◌, Bytes, length, take, drop, replicate, Result, ok, err, ◌>>=◌, ◌>>◌, fail_if,
}

pub data IoError : Type 0 where
  eof unexpected_eof : IoError

pub data FrameError : Type 0 where
  string_too_large payload_too_large : FrameError
  datagram_type : IoError → FrameError
  unexpected_type : ℕ → FrameError
  frame_length : IoError → FrameError
  frame_payload : IoError → FrameError

abbrev pub server_to_client : ℕ
server_to_client = 1

abbrev pub client_to_server : ℕ
client_to_server = 2

abbrev pub close_type : ℕ
close_type = 3

pub record ServerDatagram : Type 0 where
  pub session_id : Bytes
  pub route_name : Bytes
  pub source_addr : Bytes
  pub payload : Bytes

pub record ClientDatagram : Type 0 where
  pub session_id : Bytes
  pub payload : Bytes
  pub close : Bool

-- `binary.Write(buf, binary.BigEndian, uint16(n))`
unfoldable pub put_uint16 : ℕ → Bytes
put_uint16 n = (n % 65536 / 256) ∷ n % 256 ∷ []

unfoldable pub write_frame_string : Bytes → Bytes → Result FrameError Bytes
write_frame_string buf value =
    if ltb 0xffff (length value)
    then err string_too_large
    else ok (buf ++ (put_uint16 (length value) ++ value))

unfoldable pub write_frame_bytes : Bytes → Bytes → Result FrameError Bytes
write_frame_bytes buf value =
    if ltb 0xffff (length value)
    then err payload_too_large
    else ok (buf ++ (put_uint16 (length value) ++ value))

unfoldable pub marshal_server : ServerDatagram → Result FrameError Bytes
marshal_server frame = do
  buf1 ← write_frame_string (server_to_client ∷ []) frame.session_id
  buf2 ← write_frame_string buf1 frame.route_name
  buf3 ← write_frame_string buf2 frame.source_addr
  write_frame_bytes buf3 frame.payload

unfoldable pub marshal_client : ClientDatagram → Result FrameError Bytes
marshal_client frame = do
  let msg_type = if frame.close then close_type else client_to_server
  buf ← write_frame_string (msg_type ∷ []) frame.session_id
  if frame.close then ok buf else write_frame_bytes buf frame.payload

-- `reader.ReadByte()`
unfoldable pub read_byte : Bytes → Result IoError (ℕ × Bytes)
read_byte [] = err eof
read_byte (b ∷ rest) = ok (b, rest)

-- `binary.Read(reader, binary.BigEndian, &length)`, which fills two bytes or fails
unfoldable pub read_uint16 : Bytes → Result IoError (ℕ × Bytes)
read_uint16 [] = err eof
read_uint16 (hi ∷ []) = err unexpected_eof
read_uint16 (hi ∷ lo ∷ rest) = ok (hi * 256 + lo, rest)

-- `payload := make([]byte, n)` and one `reader.Read(payload)`: at the end of the input it is
-- `io.EOF` whatever `n` is, else what is there is copied, and the rest of the buffer stays zero.
unfoldable pub read_payload : ℕ → Bytes → Result IoError (Bytes × Bytes)
read_payload n [] = err eof
read_payload n (b ∷ rest) =
    ok (take n (b ∷ rest) ++ replicate (n - length (b ∷ rest)) 0, drop n (b ∷ rest))

abbrev pub wrap : {A : Type 0} → (IoError → FrameError) → Result IoError A → Result FrameError A
wrap f (ok a) = ok a
wrap f (err e) = err (f e)

unfoldable pub read_frame_bytes : Bytes → Result FrameError (Bytes × Bytes)
read_frame_bytes reader = do
  (n, rest) ← wrap frame_length (read_uint16 reader)
  wrap frame_payload (read_payload n rest)

unfoldable pub read_frame_string : Bytes → Result FrameError (Bytes × Bytes)
read_frame_string reader = read_frame_bytes reader

unfoldable pub unmarshal_server : Bytes → Result FrameError ServerDatagram
unmarshal_server input = do
  (msg_type, r0) ← wrap datagram_type (read_byte input)
  fail_if (not (msg_type == server_to_client)) (unexpected_type msg_type)
  (session_id, r1) ← read_frame_string r0
  (route_name, r2) ← read_frame_string r1
  (source_addr, r3) ← read_frame_string r2
  (payload, r4) ← read_frame_bytes r3
  ok (record {
    session_id = session_id;
    route_name = route_name;
    source_addr = source_addr;
    payload = payload;
  })

-- `if !frame.Close { frame.Payload = … }`
client_body : Bool → Bytes → Bytes → Result FrameError ClientDatagram
client_body true session_id reader =
    ok (record { session_id = session_id; payload = []; close = true })
client_body false session_id reader = do
  (payload, rest) ← read_frame_bytes reader
  ok (record { session_id = session_id; payload = payload; close = false })

unfoldable pub unmarshal_client : Bytes → Result FrameError ClientDatagram
unfolding client_body
unmarshal_client input = do
  (msg_type, r0) ← wrap datagram_type (read_byte input)
  fail_if (not (msg_type == client_to_server) && not (msg_type == close_type))
      (unexpected_type msg_type)
  (session_id, r1) ← read_frame_string r0
  client_body (msg_type == close_type) session_id r1
