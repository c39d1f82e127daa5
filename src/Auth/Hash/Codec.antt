-- ===== src/Auth/Hash/Codec.antt =====
-- internal/auth/auth.go: what `verifyHash` answers for a hash that `hashPasswordWithSalt` has made.
use go_proxy_server.Prelude.{
  ℕ, ◌/◌, ◌%◌, ◌≡◌, refl, ap, sym, ◌∙◌, true, false, ◌==◌, [], ◌∷◌, ◌++◌, Bytes, bytes_dec, All,
  arith, if_pos, if_neg,
}
use go_proxy_server.Prelude.Strings.{same, is_empty}
use go_proxy_server.Prelude.Hex.{
  IsBytes, hex_digit, hex_encode, hex_decode-hex_encode, hex_encode_inj,
}
use go_proxy_server.Auth.Hash.{
  split_on, hash_password_with_salt, check_digest, check_parts, verify_hash,
}

abbrev Without : ℕ → Bytes → Type 0
Without sep s = All (λ c. (c == sep) ≡ false) s

split_on-append :
    (sep : ℕ) (s t : Bytes) → Without sep s → split_on sep (s ++ (sep ∷ t)) ≡ s ∷ split_on sep t
unfolding split_on
split_on-append sep [] t h = ground arith
split_on-append sep (c ∷ s) t h = rw (h.0, split_on, split_on-append sep s t h.1) refl

split_on-rest : (sep : ℕ) (s : Bytes) → Without sep s → split_on sep s ≡ s ∷ []
unfolding split_on
split_on-rest sep [] h = refl
split_on-rest sep (c ∷ s) h = rw (h.0, split_on, split_on-rest sep s h.1) refl

hex_digit-dollar : (n : ℕ) → (hex_digit n == 36) ≡ false
unfolding hex_digit
hex_digit-dollar n = ground arith

hex_encode-Without : (s : Bytes) → Without 36 (hex_encode s)
unfolding hex_encode
hex_encode-Without [] = tt
hex_encode-Without (b ∷ s) =
    (hex_digit-dollar (b / 16), (hex_digit-dollar (b % 16), hex_encode-Without s))

same-hex_encode :
    (s t : Bytes) → IsBytes s → IsBytes t → same (hex_encode s) (hex_encode t) ≡ same s t
unfolding same
same-hex_encode s t hs ht = elim (bytes_dec s t) [
  | yes e ↦
      if_pos (bytes_dec (hex_encode s) (hex_encode t)) (ap hex_encode e) true false
      ∙ sym (if_pos (bytes_dec s t) e true false)
  | no n ↦
      if_neg (bytes_dec (hex_encode s) (hex_encode t)) (λ e. n (hex_encode_inj s t hs ht e)) true
        false
      ∙ sym (if_neg (bytes_dec s t) n true false)
]

-- Of a hash that has been made with a salt, `verifyHash` says whether the two passwords have the
-- same digest under that salt, provided that SHA-256 returns bytes.
pub verify_hash-hash_password_with_salt :
    (sha256 : Bytes → Bytes) (password other salt : Bytes)
    → ((s : Bytes) → IsBytes (sha256 s))
    → IsBytes salt
    → verify_hash sha256 (hash_password_with_salt sha256 password salt) other
      ≡ same (sha256 (salt ++ other)) (sha256 (salt ++ password))
unfolding verify_hash hash_password_with_salt check_parts check_digest is_empty same bytes_dec
verify_hash-hash_password_with_salt sha256 password other salt bytes hs =
    let expected = sha256 (salt ++ password) in
    rw
      (
        split_on-append 36 (hex_encode salt) (hex_encode expected) (hex_encode-Without salt),
        split_on-rest 36 (hex_encode expected) (hex_encode-Without expected),
        hex_decode-hex_encode salt hs,
      )
      (same-hex_encode (sha256 (salt ++ other)) expected (bytes _) (bytes _))
