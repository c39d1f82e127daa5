-- ===== src/Tests/Socks5.antt =====
-- internal/proxy/socks5.go at concrete inputs.
use go_proxy_server.Prelude.{
  ◌≡◌, Bool, true, [], ◌∷◌, ◌&&◌, ◌==◌, Bytes, codes, none, length, All, ok, arith,
}
use go_proxy_server.Proxy.Socks5.Read.{
  Target, domain, read_methods, read_authentication_request, read_socks5_request,
}
use go_proxy_server.Proxy.Socks5.Reading.{
  request, read_methods-append, read_authentication_request_lem, read_socks5_request_lem,
}
use go_proxy_server.Proxy.Socks5.Handle.{Env, handle}
use go_proxy_server.Proxy.Socks5.Guards.{Allowed, handle-Allowed}

abbrev greeting_bytes : Bytes
greeting_bytes = 5 ∷ 1 ∷ 2 ∷ 9 ∷ []

greeting : read_methods (5 ∷ 1 ∷ 2 ∷ 9 ∷ []) ≡ ok (2 ∷ [], 9 ∷ [])
greeting = read_methods-append (2 ∷ []) (9 ∷ []) (omega arith) (omega arith)

-- Any password of one byte, for a user of one byte.
abbrev verify_up : Bytes → Bytes → Bool
verify_up u p = length u == 1 && length p == 1

abbrev login_bytes : Bytes
login_bytes = 1 ∷ 1 ∷ 117 ∷ 1 ∷ 112 ∷ 5 ∷ []

logged_in : read_authentication_request verify_up login_bytes ≡ ok (tt, 5 ∷ [])
logged_in =
    read_authentication_request_lem verify_up (117 ∷ []) (112 ∷ []) (5 ∷ [])
      (omega arith, omega arith, omega arith, omega arith)

abbrev web : Target
web = record { host = domain (codes "a.b"); port = 443 }

read_socks5_request_lem_example : read_socks5_request (request 0 web []) ≡ ok (web, [])
read_socks5_request_lem_example = read_socks5_request_lem 0 web [] (omega arith, omega arith)

abbrev open_env : Env
open_env = record {
  is_tcp = true;
  local_is_tcp = true;
  admits = true;
  whitelisted = true;
  verify = verify_up;
  ssrf_ok = λ _. true;
  dial = λ _. none;
  verify_connected = λ _. true;
  write_ok = λ _. true;
}

abbrev conversation : Bytes
conversation = 5 ∷ 1 ∷ 0 ∷ request 0 web (codes "GET")

handle-Allowed_example : All (Allowed open_env conversation) (handle open_env conversation)
handle-Allowed_example = handle-Allowed open_env conversation
