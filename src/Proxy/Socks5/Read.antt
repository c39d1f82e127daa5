-- ===== src/Proxy/Socks5/Read.antt =====
-- internal/proxy/socks5.go: the constants of the protocol and the three readers.
use go_proxy_server.Prelude.{
  ℕ, ◌+◌, ◌*◌, Bool, true, false, ◌||◌, if◌then◌else◌, ltb, ◌==◌, [], ◌∷◌, Bytes, length, take,
  drop, Result, ok, err, ◌>>=◌, ◌>>◌, fail_if, not,
}

abbrev pub socks5_version : ℕ
socks5_version = 0x05

abbrev pub auth_method_no_auth : ℕ
auth_method_no_auth = 0x00

abbrev pub auth_method_user_password : ℕ
auth_method_user_password = 0x02

abbrev pub auth_method_no_acceptable : ℕ
auth_method_no_acceptable = 0xff

abbrev pub auth_sub_version : ℕ
auth_sub_version = 0x01

abbrev pub cmd_connect : ℕ
cmd_connect = 0x01

abbrev pub addr_type_ipv4 : ℕ
addr_type_ipv4 = 0x01

abbrev pub addr_type_domain : ℕ
addr_type_domain = 0x03

abbrev pub addr_type_ipv6 : ℕ
addr_type_ipv6 = 0x04

abbrev pub max_methods : ℕ
max_methods = 10

abbrev pub max_username_len : ℕ
max_username_len = 64

abbrev pub max_password_len : ℕ
max_password_len = 128

abbrev pub max_domain_len : ℕ
max_domain_len = 255

pub data SocksError : Type 0 where
  eof unexpected_eof : SocksError
  unsupported_version : ℕ → SocksError
  too_few_methods too_many_methods : SocksError
  unsupported_auth_version : ℕ → SocksError
  invalid_username_length invalid_password_length : SocksError
  invalid_credentials : SocksError
  unsupported_command : ℕ → SocksError
  invalid_domain_length : SocksError
  unsupported_address_type : ℕ → SocksError

abbrev pub Read : Type 0 → Type 0
Read A = Result SocksError (A × Bytes)

-- `io.ReadFull` of n bytes, with what is left of the input.
unfoldable pub read_full : ℕ → Bytes → Read Bytes
read_full n input =
    if ltb (length input) n
    then err (if length input == 0 then eof else unexpected_eof)
    else ok (take n input, drop n input)

-- `binary.Read` of one byte.
unfoldable pub read_byte : Bytes → Read ℕ
read_byte [] = err eof
read_byte (b ∷ rest) = ok (b, rest)

-- `readMethods`, from the two bytes of its buffer on.
unfoldable pub read_methods_after : Bytes → Bytes → Read Bytes
read_methods_after (ver ∷ num_methods ∷ _) rest = do
  fail_if (not (ver == socks5_version)) (unsupported_version ver)
  fail_if (ltb num_methods 1) too_few_methods
  fail_if (ltb max_methods num_methods) too_many_methods
  read_full num_methods rest
read_methods_after _ rest = err unexpected_eof

unfoldable pub read_methods : Bytes → Read Bytes
unfolding read_methods_after
read_methods input = do (buffer, rest) ← read_full 2 input; read_methods_after buffer rest

-- `isAuthMethodSupported`
unfoldable pub is_auth_method_supported : Bytes → Bool
is_auth_method_supported [] = false
is_auth_method_supported (m ∷ ms) = m == auth_method_user_password || is_auth_method_supported ms

-- A length byte, checked to lie between 1 and a limit, and a field of that length.
unfoldable pub read_sized : ℕ → SocksError → Bytes → Read Bytes
read_sized limit e input = do
  (len, rest) ← read_byte input
  fail_if (ltb len 1) e
  fail_if (ltb limit len) e
  read_full len rest

-- `return auth.VerifyCredentials(username, passwordBytes)`
unfoldable pub check_credentials : Bool → Bytes → Read (Unit {0})
check_credentials true rest = ok (tt, rest)
check_credentials false rest = err invalid_credentials

-- `readAuthenticationRequest` behind its version, where `verify` is `auth.VerifyCredentials`.
unfoldable pub read_credentials : (Bytes → Bytes → Bool) → Bytes → Read (Unit {0})
read_credentials verify input = do
  (username, r1) ← read_sized max_username_len invalid_username_length input
  (password, r2) ← read_sized max_password_len invalid_password_length r1
  check_credentials (verify username password) r2

-- `readAuthenticationRequest`
unfoldable pub read_authentication_request : (Bytes → Bytes → Bool) → Bytes → Read (Unit {0})
read_authentication_request verify input = do
  (ver, r0) ← read_byte input
  fail_if (not (ver == auth_sub_version)) (unsupported_auth_version ver)
  read_credentials verify r0

-- The host of a request, before it is written as text.
pub data Host : Type 0 where
  ipv4 domain ipv6 : Bytes → Host

-- What `net.JoinHostPort` makes the target of.
pub record Target : Type 0 where
  pub host : Host
  pub port : ℕ

-- The `switch` on the address type.
unfoldable pub read_host : ℕ → Bytes → Read Host
read_host atyp r0 =
    if atyp == addr_type_ipv4
    then (do (ip, r1) ← read_full 4 r0; ok (ipv4 ip, r1))
    else if atyp == addr_type_domain
    then (do (name, r1) ← read_sized max_domain_len invalid_domain_length r0; ok (domain name, r1))
    else if atyp == addr_type_ipv6
    then (do (ip, r1) ← read_full 16 r0; ok (ipv6 ip, r1))
    else err (unsupported_address_type atyp)

-- `binary.BigEndian.Uint16(portBytes)`
unfoldable pub uint16 : Bytes → ℕ
uint16 (hi ∷ lo ∷ _) = hi * 256 + lo
uint16 _ = 0

unfoldable pub read_request_after : Bytes → Bytes → Read Target
read_request_after (ver ∷ cmd ∷ rsv ∷ atyp ∷ _) r0 = do
  fail_if (not (ver == socks5_version)) (unsupported_version ver)
  fail_if (not (cmd == cmd_connect)) (unsupported_command cmd)
  (host, r1) ← read_host atyp r0
  (port_bytes, r2) ← read_full 2 r1
  ok (record { host = host; port = uint16 port_bytes }, r2)
read_request_after _ r0 = err unexpected_eof

-- `readSocks5Request`
unfoldable pub read_socks5_request : Bytes → Read Target
unfolding read_request_after
read_socks5_request input = do (buffer, rest) ← read_full 4 input; read_request_after buffer rest
