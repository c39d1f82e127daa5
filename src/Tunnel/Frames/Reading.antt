-- ===== src/Tunnel/Frames/Reading.antt =====
-- internal/tunnel/quic_protocol.go: what the reader makes of arbitrary bytes.
use go_proxy_server.Prelude.{
  ℕ, zero, suc, ◌+◌, ◌-◌, ◌*◌, ◌≤◌, ◌<◌, ◌≡◌, ◌≢◌, refl, ap, [], ◌∷◌, ◌++◌, Bytes, length, take,
  drop, replicate, ok, arith, length-append, length-take, length-replicate,
}
use go_proxy_server.Tunnel.Frames.{put_uint16, read_uint16, read_payload, read_frame_bytes}
use go_proxy_server.Tunnel.Frames.Fields.{Fits, uint16_value}

length-padded : (n : ℕ) (xs : Bytes) → length (take n xs ++ replicate (n - length xs) 0) ≡ n
length-padded n xs = omega (
  arith,
  length-append (take n xs) (replicate (n - length xs) 0),
  length-take n xs,
  length-replicate {A = ℕ} (n - length xs) 0,
)

take_all : (n : ℕ) (xs : Bytes) → length xs ≤ n → take n xs ≡ xs
take_all zero [] h = refl
take_all zero (x ∷ xs) h = absurd (omega arith)
take_all (suc n) [] h = refl
take_all (suc n) (x ∷ xs) h = rw (take_all n xs (omega arith))

drop_all : (n : ℕ) (xs : Bytes) → length xs ≤ n → drop n xs ≡ []
drop_all zero [] h = refl
drop_all zero (x ∷ xs) h = absurd (omega arith)
drop_all (suc n) [] h = refl
drop_all (suc n) (x ∷ xs) h = drop_all n xs (omega arith)

-- A field that is read has exactly the length that stands in front of it.
pub length-read_frame_bytes :
    (hi lo : ℕ) (rest : Bytes) {value after : Bytes}
    → read_frame_bytes (hi ∷ lo ∷ rest) ≡ ok (value, after)
    → length value ≡ hi * 256 + lo
unfolding read_frame_bytes read_uint16 read_payload
length-read_frame_bytes hi lo [] e = cc
length-read_frame_bytes hi lo (b ∷ rest) e =
    ground (arith, length-padded (hi * 256 + lo) (b ∷ rest))

read_payload_short :
    (n : ℕ) (xs : Bytes)
    → xs ≢ []
    → length xs ≤ n
    → read_payload n xs ≡ ok (xs ++ replicate (n - length xs) 0, [])
unfolding read_payload
read_payload_short n [] ne h = absurd (ne refl)
read_payload_short n (b ∷ rest) ne h = rw (take_all n (b ∷ rest) h, drop_all n (b ∷ rest) h)

-- A field without its last bytes, but not without its first.
pub read_short :
    (value : Bytes) (lost : ℕ)
    → Fits value
    → lost < length value
    → read_frame_bytes (put_uint16 (length value) ++ take (length value - lost) value)
      ≡ ok (take (length value - lost) value ++ replicate lost 0, [])
unfolding read_frame_bytes put_uint16 read_uint16
read_short value lost fits h =
    let kept = take (length value - lost) value in
    let size : length kept ≡ length value - lost =
      omega (arith, length-take (length value - lost) value) in
    let ne : kept ≢ [] = λ e. absurd (omega (arith, ap length e)) in
    let missing : length value - length kept ≡ lost = omega arith in
    rw (
      uint16_value (length value) fits,
      read_payload_short (length value) kept ne (omega arith),
      missing,
    )
