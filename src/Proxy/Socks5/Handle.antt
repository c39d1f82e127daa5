-- ===== src/Proxy/Socks5/Handle.antt =====
-- internal/proxy/socks5.go: `HandleSocks5Connection` as the list of what it does, in order. What
-- the handler asks of its surroundings is a record: the limiter's answer, the whitelist, the
-- credentials, the SSRF check, the dialer, the check of the connected address, and for each write
-- to the client, by its number, whether it succeeds. Logging, metrics and the copying of data
-- behind `relayed` are left out.
use go_proxy_server.Prelude.{
  ℕ, Bool, if◌then◌else◌, List, [], ◌∷◌, ◌++◌, Option, none, some, Bytes, ok, err,
}
use go_proxy_server.Proxy.Socks5.Read.{
  socks5_version, auth_method_no_auth, auth_method_user_password, auth_method_no_acceptable,
  auth_sub_version, SocksError, unsupported_command, Target, read_methods, is_auth_method_supported,
  read_authentication_request, read_socks5_request,
}

-- What `HandleSocks5Connection` asks of an error of the dialer.
pub record DialError : Type 0 where
  pub timeout : Bool
  pub connection_refused : Bool
  pub network_unreachable : Bool
  pub host_unreachable : Bool

pub record Env : Type 0 where
  pub is_tcp : Bool
  pub local_is_tcp : Bool
  pub admits : Bool
  pub whitelisted : Bool
  pub verify : Bytes → Bytes → Bool
  pub ssrf_ok : Target → Bool
  pub dial : Target → Option DialError
  pub verify_connected : Target → Bool
  pub write_ok : ℕ → Bool

pub data Action : Type 0 where
  acquired released closed dest_closed : Action
  sent : Bytes → Action
  dialed : Target → Action
  relayed : Target → Action

-- `sendSocks5Reply`
abbrev pub reply : ℕ → Action
reply code = sent (socks5_version ∷ code ∷ 0 ∷ 1 ∷ 0 ∷ 0 ∷ 0 ∷ 0 ∷ 0 ∷ 0 ∷ [])

-- The reply code for an error of the dialer: the kinds that are named come after the timeout.
unfoldable pub dial_code : DialError → ℕ
dial_code e =
    if e.connection_refused
    then 0x05
    else if e.network_unreachable
    then 0x03
    else if e.host_unreachable
    then 0x04
    else if e.timeout
    then 0x06
    else 0x01

unfoldable pub request_code : SocksError → ℕ
request_code (unsupported_command c) = 0x07
request_code _ = 0x01

-- The tail of the handler: dial, check the connected address, reply, relay.
unfoldable pub connect : Env → Target → List Action
unfolding dial_code
connect env t = elim (env.dial t) [
  | some e ↦ dialed t ∷ reply (dial_code e) ∷ []
  | none ↦
      if env.verify_connected t
      then dialed t ∷ reply 0x00 ∷ relayed t ∷ dest_closed ∷ []
      else dialed t ∷ reply 0x02 ∷ dest_closed ∷ []
]

-- The request, read from what follows the authentication.
unfoldable pub serve : Env → Bytes → List Action
unfolding request_code
serve env input = elim (read_socks5_request input) [
  | err e ↦ reply (request_code e) ∷ []
  | ok r ↦ if env.ssrf_ok (r.0) then connect env (r.0) else reply 0x02 ∷ []
]

-- The answer to the authentication request, and what follows it.
unfoldable pub authenticate : Env → Bytes → List Action
authenticate env input = elim (read_authentication_request env.verify input) [
  | err e ↦ sent (auth_sub_version ∷ 0x01 ∷ []) ∷ []
  | ok r ↦ sent (auth_sub_version ∷ 0x00 ∷ []) ∷ (if env.write_ok 1 then serve env (r.1) else [])
]

-- The choice of the method.
unfoldable pub negotiate : Env → Bytes → Bytes → List Action
negotiate env methods input =
    if env.whitelisted
    then sent (socks5_version ∷ auth_method_no_auth ∷ [])
      ∷ (if env.write_ok 0 then serve env input else [])
    else if is_auth_method_supported methods
    then sent (socks5_version ∷ auth_method_user_password ∷ [])
      ∷ (if env.write_ok 0 then authenticate env input else [])
    else sent (socks5_version ∷ auth_method_no_acceptable ∷ []) ∷ []

unfoldable pub session : Env → Bytes → List Action
session env input = elim (read_methods input) [
  | err e ↦ []
  | ok r ↦ if env.local_is_tcp then negotiate env (r.0) (r.1) else []
]

-- `HandleSocks5Connection`; the deferred calls come last, in the reverse of their order.
unfoldable pub handle : Env → Bytes → List Action
handle env input =
    if env.is_tcp
    then (if env.admits
        then acquired ∷ (session env input ++ (released ∷ closed ∷ []))
        else closed ∷ [])
    else closed ∷ []
