-- ===== src/Tunnel/Frames/Fields.antt =====
-- internal/tunnel/quic_protocol.go: one field, written and read.
use go_proxy_server.Prelude.{
  ℕ, suc, ◌+◌, ◌-◌, ◌*◌, ◌/◌, ◌%◌, ◌≤◌, ◌≡◌, refl, ◌≢◌, [], ◌∷◌, ◌++◌, Bytes, length, ok, err,
  arith, length-append, take, take-append, drop-append, ite, if_pos, if_neg, bytes_dec,
}
use mathlib.Core.List.{append-nil}
use go_proxy_server.Tunnel.Frames.{
  put_uint16, write_frame_string, write_frame_bytes, read_uint16, read_payload, read_frame_bytes,
  read_frame_string, eof, frame_payload,
}

-- A field fits its 16-bit length.
abbrev pub Fits : Bytes → Type 0
Fits s = length s ≤ 0xffff

-- The bytes of a field: its length, then itself.
abbrev pub field : Bytes → Bytes
field value = put_uint16 (length value) ++ value

pub write_string-Fits :
    (buf value : Bytes) → Fits value → write_frame_string buf value ≡ ok (buf ++ field value)
unfolding write_frame_string
write_string-Fits buf value h = ground arith

pub write_bytes-Fits :
    (buf value : Bytes) → Fits value → write_frame_bytes buf value ≡ ok (buf ++ field value)
unfolding write_frame_bytes
write_bytes-Fits buf value h = ground arith

pub uint16_value : (n : ℕ) → n ≤ 0xffff → n % 65536 / 256 * 256 + n % 256 ≡ n
uint16_value n h = omega arith

pub read_payload-append :
    (value rest : Bytes)
    → value ++ rest ≢ []
    → read_payload (length value) (value ++ rest) ≡ ok (value, rest)
unfolding read_payload
read_payload-append [] [] h = absurd (h refl)
read_payload-append [] (b ∷ rest) h = ground arith
read_payload-append (x ∷ xs) rest h =
    let e : suc (length xs) - suc (length (xs ++ rest)) ≡ 0 =
      omega (arith, length-append xs rest) in
    rw (e, take-append xs rest, drop-append xs rest, append-nil xs)

pub read_field :
    (value rest : Bytes)
    → Fits value
    → value ++ rest ≢ []
    → read_frame_bytes (field value ++ rest) ≡ ok (value, rest)
unfolding read_frame_bytes put_uint16 read_uint16
read_field value rest f h =
    rw (uint16_value (length value) f) (rw (read_payload-append value rest h))

pub append_left-ne-nil : (xs ys : Bytes) → xs ≢ [] → xs ++ ys ≢ []
append_left-ne-nil [] ys h = absurd (h refl)
append_left-ne-nil (x ∷ xs) ys h = λ e. cc

-- The end of a list taken off, all of it behind `xs`.
pub take_end :
    (xs ys : Bytes) (lost : ℕ)
    → lost ≤ length ys
    → take (length (xs ++ ys) - lost) (xs ++ ys) ≡ xs ++ take (length ys - lost) ys
take_end [] ys lost h = refl
take_end (x ∷ xs) ys lost h =
    let e : suc (length (xs ++ ys)) - lost ≡ suc (length (xs ++ ys) - lost) =
      omega (arith, length-append xs ys) in
    rw (e, take_end xs ys lost h)

pub put-ne-nil : (n : ℕ) (rest : Bytes) → put_uint16 n ++ rest ≢ []
unfolding put_uint16
put-ne-nil n rest = λ e. cc

pub append_right-ne-nil : (xs ys : Bytes) → ys ≢ [] → xs ++ ys ≢ []
append_right-ne-nil [] ys h = h
append_right-ne-nil (x ∷ xs) ys h = λ e. cc

-- A field's bytes are never empty, since its length stands in front.
pub field-ne-nil : (value : Bytes) → field value ≢ []
unfolding put_uint16
field-ne-nil value = λ e. cc

pub read_string_before :
    (value rest : Bytes)
    → Fits value
    → rest ≢ []
    → read_frame_string (field value ++ rest) ≡ ok (value, rest)
unfolding read_frame_string
read_string_before value rest h p = read_field value rest h (append_right-ne-nil value rest p)

-- With nothing behind it a field of no bytes meets the end of the input.
pub read_last_empty : read_frame_bytes (field []) ≡ err (frame_payload eof)
unfolding read_frame_bytes put_uint16 read_uint16 read_payload
read_last_empty = refl

pub read_last :
    (value : Bytes) → Fits value → value ≢ [] → read_frame_bytes (field value) ≡ ok (value, [])
read_last value h p = rw append-nil at (read_field value [] h (append_left-ne-nil value [] p))

pub read_last_lem :
    (value : Bytes)
    → Fits value
    → read_frame_bytes (field value)
      ≡ ite (bytes_dec value []) (err (frame_payload eof)) (ok (value, []))
read_last_lem value h = elim (bytes_dec value []) [
  | yes e ↦ rw (if_pos _ e, e, read_last_empty)
  | no p ↦ rw (if_neg _ p, read_last value h p)
]
