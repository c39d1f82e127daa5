-- ===== src/Tests/Http.antt =====
-- internal/proxy/http.go at a concrete input: two requests on one connection of a whitelisted client.
use go_proxy_server.Prelude.{
  ◌≡◌, refl, true, false, List, [], ◌∷◌, some, none, Bytes, codes, pos, get_elem?, bytes_dec,
}
use go_proxy_server.Prelude.GoMap.{lookup, delete}
use go_proxy_server.Prelude.Strings.{to_lower, same, is_empty}
use go_proxy_server.Auth.Whitelist.{check_ip_whitelist}
use go_proxy_server.Cache.Sharded
use go_proxy_server.Security.PrivateIp.{is_private_ip}
use go_proxy_server.Security.Ssrf.{tcp, check_ssrf, check_host, verify_connected_ip, verify_addr}
use go_proxy_server.Proxy.Http.{
  Request, World, Env, Action, dialed, forwarded, responded, get, authenticates, ssrf_ok,
  dial_verified, with_port, has_colon, round_trip, should_close_connection, strip_proxy_headers,
  handle_http_request, serve, count_request, serve_requests,
}
use go_proxy_server.Proxy.Http.Reauth.{Exchanged, serve_requests-Exchanged}

abbrev public : Bytes
public = 93 ∷ 184 ∷ 216 ∷ 34 ∷ []

abbrev world : World
world = record {
  whitelist = (codes "1.2.3.4", true) ∷ [];
  credentials = [];
  net = record {
    allow_private = false;
    split_host_port = λ _. none;
    parse_ip = λ _. some public;
    lookup_ip = λ _. none;
    read_at = 5;
    write_at = 6;
  };
  dns = Sharded.new (pos 4) (pos 1);
  dial = λ _ _. some (some (tcp public));
  canonical_addr = λ h. h;
  has_idle = λ _ _. false;
  respond = some [];
  write_ok = true;
}

abbrev env : Env
env = record {
  client_ip = codes "1.2.3.4";
  is_tcp = true;
  local_is_tcp = true;
  admits = true;
  bind_listen = false;
  local_addr = none;
  sha256 = λ s. s;
  base64_decode = λ _. none;
}

abbrev request : Request
request = record {
  is_connect = false;
  host = codes "example.org";
  url_host = codes "example.org";
  is_http_1_0 = false;
  header = (codes "Proxy-Authorization", codes "Basic eA==") ∷ [];
}

abbrev done : List Action
done = dialed none (codes "example.org") ∷ forwarded (codes "example.org") [] ∷ responded false ∷ []

second :
    get_elem? (serve_requests env false 0 ((request, world) ∷ (request, world) ∷ [])) 1 ≡ some done
unfolding serve_requests count_request authenticates check_ip_whitelist lookup serve
    handle_http_request ssrf_ok check_ssrf check_host is_private_ip with_port has_colon round_trip
    is_empty dial_verified verify_connected_ip verify_addr should_close_connection get to_lower same
    bytes_dec strip_proxy_headers delete
second = refl

serve_requests-Exchanged_example : Exchanged env ((request, world) ∷ (request, world) ∷ []) 1 done
serve_requests-Exchanged_example =
    serve_requests-Exchanged env ((request, world) ∷ (request, world) ∷ []) 1 done second
