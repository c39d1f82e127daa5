-- ===== src/Auth/Hash.antt =====
-- internal/auth/auth.go: the hash of a password, `$sha256$<salt>$<hash>` in hexadecimal. SHA-256 and
-- the random salt are arguments. `strings.Split` by one character is written out.
pub mod Codec
use go_proxy_server.Prelude.{
  ℕ, ◌+◌, ◌-◌, ◌*◌, ◌/◌, ◌%◌, Bool, true, false, ◌&&◌, if◌then◌else◌, ltb, leb, ◌==◌, List, [], ◌∷◌,
  ◌++◌, Option, none, some, Bytes, codes,
}
use go_proxy_server.Prelude.Hex.{hex_encode, hex_decode}
use go_proxy_server.Prelude.Strings.{same, is_empty}

abbrev pub cons_head : ℕ → List Bytes → List Bytes
cons_head c [] = (c ∷ []) ∷ []
cons_head c (p ∷ ps) = (c ∷ p) ∷ ps

-- `strings.Split(s, sep)`
unfoldable pub split_on : ℕ → Bytes → List Bytes
split_on sep [] = [] ∷ []
split_on sep (c ∷ s) = let rest = split_on sep s in if c == sep then [] ∷ rest else cons_head c rest

module _ (sha256 : Bytes → Bytes) where
  -- `hashPasswordWithSalt`
  unfoldable pub hash_password_with_salt : Bytes → Bytes → Bytes
  unfolding hex_encode
  hash_password_with_salt password salt =
      codes "$sha256$" ++ (hex_encode salt ++ (codes "$" ++ hex_encode (sha256 (salt ++ password))))

  -- `HashPassword`; `none` is a salt that could not be made.
  unfoldable pub hash_password : Bytes → Option Bytes → Option Bytes
  hash_password password none = none
  hash_password password (some salt) = some (hash_password_with_salt password salt)

  -- The comparison of the digests, where the salt has been decoded.
  unfoldable pub check_digest : Bytes → Bytes → Option Bytes → Bool
  check_digest password expected none = false
  check_digest password expected (some salt) =
      same (hex_encode (sha256 (salt ++ password))) expected

  -- The parts of a stored hash.
  unfoldable pub check_parts : Bytes → List Bytes → Bool
  unfolding check_digest
  check_parts password (p0 ∷ p1 ∷ salt_hex ∷ expected ∷ []) =
      if is_empty p0 && same p1 (codes "sha256")
      then check_digest password expected (hex_decode salt_hex)
      else false
  check_parts password _ = false

  -- `verifyHash`
  unfoldable pub verify_hash : Bytes → Bytes → Bool
  unfolding check_parts split_on
  verify_hash stored_hash password = check_parts password (split_on 36 stored_hash)
