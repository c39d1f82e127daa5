-- ===== src/Proxy/Http.antt =====
-- internal/proxy/http.go: `HandleHTTPConnection` as what it does for each request that it reads. A
-- request comes with the surroundings that it meets: the whitelist and the credentials of that
-- moment, the network, the answer of the destination, and whether the writes to the client succeed.
-- The list of requests ends where `http.ReadRequest` fails. A header is its first value under its
-- canonical name. Of net/http's transport it is assumed that it asks `DialContext` for a connection
-- unless it has an idle one. Logging, metrics, deadlines and the copying of data are left out.
pub mod Guards
pub mod Reauth
use go_proxy_server.Prelude.{
  ℕ, ◌+◌, Bool, true, false, ◌&&◌, ◌||◌, if◌then◌else◌, ltb, ◌==◌, List, [], ◌∷◌, ◌++◌, Option,
  none, some, Bytes, bytes_dec, codes, Result, ok, err,
}
use go_proxy_server.Prelude.GoMap.{GoMap, lookup, delete}
use go_proxy_server.Prelude.Strings.{same, is_empty, to_lower}
use go_proxy_server.Auth.Users.{Credentials, Outcome, verify_credentials}
use go_proxy_server.Auth.Whitelist.{Whitelist, check_ip_whitelist}
use go_proxy_server.Security.Ssrf.{
  DnsCache, Check, Network, RemoteAddr, check_ssrf, verify_connected_ip,
}

-- `constants.MaxRequestsBeforeReauth`
abbrev pub max_requests_before_reauth : ℕ
max_requests_before_reauth = 100

abbrev pub Headers : Type 0
Headers = GoMap Bytes Bytes

pub record Request : Type 0 where
  pub is_connect : Bool
  pub host : Bytes
  pub url_host : Bytes
  pub is_http_1_0 : Bool
  pub header : Headers

-- What one request meets. `dial` has the source address and the target; its answer is the address of
-- the connection. `respond` is the `Connection` header of the response.
pub record World : Type 0 where
  pub whitelist : Whitelist
  pub credentials : Credentials
  pub net : Network
  pub dns : DnsCache
  pub dial : Option Bytes → Bytes → Option (Option RemoteAddr)
  pub canonical_addr : Bytes → Bytes
  pub has_idle : Option Bytes → Bytes → Bool
  pub respond : Option Bytes
  pub write_ok : Bool

-- What one connection fixes.
pub record Env : Type 0 where
  pub client_ip : Bytes
  pub is_tcp : Bool
  pub local_is_tcp : Bool
  pub admits : Bool
  pub bind_listen : Bool
  pub local_addr : Option Bytes
  pub sha256 : Bytes → Bytes
  pub base64_decode : Bytes → Option Bytes

pub data Action : Type 0 where
  acquired released closed dest_closed : Action
  http_error : ℕ → Action
  dialed : Option Bytes → Bytes → Action
  established : Action
  tunneled : Bytes → Action
  forwarded : Bytes → Headers → Action
  responded : Bool → Action

-- `Header.Get`
unfoldable pub get : Headers → Bytes → Bytes
get header name = elim (lookup bytes_dec name header) [ none ↦ [] | some v ↦ v ]

-- `strings.HasPrefix` and `strings.TrimPrefix` in one.
unfoldable pub strip_prefix : Bytes → Bytes → Option Bytes
strip_prefix [] s = some s
strip_prefix (p ∷ ps) [] = none
strip_prefix (p ∷ ps) (c ∷ s) = let rest = strip_prefix ps s in if p == c then rest else none

abbrev pub cons_first : ℕ → Option (Bytes × Bytes) → Option (Bytes × Bytes)
cons_first c none = none
cons_first c (some (a, b)) = some (c ∷ a, b)

-- `strings.SplitN(s, ":", 2)`, where it has two parts.
unfoldable pub split_colon : Bytes → Option (Bytes × Bytes)
split_colon [] = none
split_colon (c ∷ s) =
    let rest = split_colon s in if c == 58 then some ([], s) else cons_first c rest

unfoldable pub has_colon : Bytes → Bool
has_colon [] = false
has_colon (c ∷ s) = c == 58 || has_colon s

abbrev pub is_ok : {E : Type 0} → Result E (Unit {0}) → Bool
is_ok (ok _) = true
is_ok (err _) = false

-- The credentials of an authorization header, if it has any.
unfoldable pub basic_credentials : Env → Bytes → Option (Bytes × Bytes)
unfolding strip_prefix split_colon
basic_credentials env auth_header = elim (strip_prefix (codes "Basic ") auth_header) [
  | none ↦ none
  | some encoded ↦ elim (env.base64_decode encoded) [
    | none ↦ none
    | some decoded ↦ split_colon decoded
  ]
]

abbrev pub verified : Env → World → Option (Bytes × Bytes) → Bool
verified env w none = false
verified env w (some (u, p)) = is_ok (verify_credentials env.sha256 w.credentials u p)

-- The request authenticates itself, by the client's address or by its header.
unfoldable pub authenticates : Env → World → Request → Bool
unfolding basic_credentials get
authenticates env w req =
    check_ip_whitelist w.whitelist env.client_ip
    || verified env w (basic_credentials env (get req.header (codes "Proxy-Authorization")))

abbrev pub admitted : Option (DnsCache × Check) → Bool
admitted none = false
admitted (some (c, r)) = is_ok r

unfoldable pub ssrf_ok : World → Bytes → Bool
ssrf_ok w host = admitted (check_ssrf w.net w.dns host)

abbrev pub source : Env → Option Bytes
source env = if env.bind_listen then env.local_addr else none

pub data ConnectError : Type 0 where
  ssrf_blocked connection_failed rebinding_blocked : ConnectError

-- The dialer with the check of the connected address; the actions, and whether a connection stands.
unfoldable pub dial_verified : Env → World → Bytes → List Action × Result ConnectError (Unit {0})
dial_verified env w host = elim (w.dial (source env) host) [
  | none ↦ (dialed (source env) host ∷ [], err connection_failed)
  | some addr ↦
      if is_ok (verify_connected_ip w.net (some addr))
      then (dialed (source env) host ∷ [], ok tt)
      else (dialed (source env) host ∷ dest_closed ∷ [], err rebinding_blocked)
]

-- `validateAndConnect`
unfoldable pub validate_and_connect :
    Env → World → Bytes → List Action × Result ConnectError (Unit {0})
unfolding ssrf_ok dial_verified
validate_and_connect env w host =
    if ssrf_ok w host then dial_verified env w host else ([], err ssrf_blocked)

abbrev pub connect_status : ConnectError → ℕ
connect_status connection_failed = 502
connect_status _ = 403

-- A host with its port.
unfoldable pub with_port : Bytes → Bytes → Bytes
unfolding has_colon
with_port host port = if has_colon host then host else host ++ port

-- What follows the connection of a tunnel.
abbrev pub tunnel : World → Bytes → List Action × Result ConnectError (Unit {0}) → List Action
tunnel w host (acts, err e) = acts ++ (http_error (connect_status e) ∷ [])
tunnel w host (acts, ok _) =
    acts
    ++ (if w.write_ok then established ∷ tunneled host ∷ dest_closed ∷ [] else dest_closed ∷ [])

-- `handleHTTPSConnect`
unfoldable pub handle_https_connect : Env → World → Request → List Action
unfolding validate_and_connect with_port
handle_https_connect env w req =
    let host = with_port req.host (codes ":443") in tunnel w host (validate_and_connect env w host)

-- The request on a new connection, if there is one.
abbrev pub send :
    Bytes
    → Headers
    → Option Bytes
    → List Action × Result ConnectError (Unit {0})
    → List Action × Option Bytes
send addr header respond (acts, err e) = (acts, none)
send addr header respond (acts, ok _) = (acts ++ (forwarded addr header ∷ []), respond)

-- `client.Do`: the connection, idle or new, and the request on it.
unfoldable pub round_trip : Env → World → Request → Headers → List Action × Option Bytes
unfolding dial_verified
round_trip env w req header =
    let addr = w.canonical_addr req.url_host in
    if is_empty req.url_host
    then ([], none)
    else if w.has_idle (source env) addr
    then (forwarded addr header ∷ [], w.respond)
    else send addr header w.respond (dial_verified env w addr)

-- `shouldCloseConnection`
unfoldable pub should_close_connection : Bool → Headers → Bytes → Bool
unfolding get
should_close_connection is_http_1_0 header response =
    if same (to_lower (get header (codes "Connection"))) (codes "close")
    then true
    else if same (to_lower response) (codes "close")
    then true
    else if is_http_1_0
    then not_kept (same (to_lower (get header (codes "Connection"))) (codes "keep-alive"))
    else false
  where
    not_kept : Bool → Bool
    not_kept true = false
    not_kept false = true

-- The headers without those that are for the proxy.
unfoldable pub strip_proxy_headers : Headers → Headers
strip_proxy_headers header =
    delete bytes_dec (codes "Proxy-Connection")
      (delete bytes_dec (codes "Proxy-Authorization") header)

-- What follows the round trip: the actions, and whether the connection is closed.
abbrev pub answer : World → Request → Headers → List Action × Option Bytes → List Action × Bool
answer w req header (acts, none) = (acts ++ (http_error 502 ∷ []), true)
answer w req header (acts, some response) =
    let close = should_close_connection req.is_http_1_0 header response in
    if w.write_ok then (acts ++ (responded close ∷ []), close) else (acts, true)

-- `handleHTTPRequest`
unfoldable pub handle_http_request : Env → World → Request → List Action × Bool
unfolding round_trip strip_proxy_headers ssrf_ok with_port
handle_http_request env w req =
    if ssrf_ok w (with_port req.host (codes ":80"))
    then answer w req (strip_proxy_headers req.header)
        (round_trip env w req (strip_proxy_headers req.header))
    else (http_error 403 ∷ [], true)

-- What is done for one request that may use the proxy, and whether that was the last one.
unfoldable pub serve : Env → World → Request → List Action × Bool
unfolding handle_https_connect handle_http_request
serve env w req =
    if req.is_connect then (handle_https_connect env w req, true) else handle_http_request env w req

-- The count of a new request, and whether the connection still counts as authenticated.
unfoldable pub count_request : Bool → ℕ → Bool × ℕ
count_request is_authenticated request_count =
    if ltb max_requests_before_reauth (request_count + 1)
    then (false, 0)
    else (is_authenticated, request_count + 1)

-- The loop over the requests: for each that is read, what is done.
unfoldable pub serve_requests : Env → Bool → ℕ → List (Request × World) → List (List Action)
unfolding authenticates count_request serve
serve_requests env is_authenticated request_count [] = []
serve_requests env is_authenticated request_count ((req, w) ∷ inputs) =
    let (cached, n) = count_request is_authenticated request_count in
    let (acts, close) = serve env w req in
    let more = serve_requests env true n inputs in
    if cached || authenticates env w req
    then acts ∷ (if close then [] else more)
    else (http_error 407 ∷ []) ∷ []

abbrev pub concat : List (List Action) → List Action
concat [] = []
concat (acts ∷ rest) = acts ++ concat rest

-- `HandleHTTPConnection`; the deferred calls come last, in the reverse of their order.
unfoldable pub handle_http_connection : Env → List (Request × World) → List Action
unfolding serve_requests
handle_http_connection env inputs =
    if env.is_tcp
    then (if env.admits
        then acquired
          ∷ ((if env.local_is_tcp then concat (serve_requests env false 0 inputs) else [])
              ++ (released ∷ closed ∷ []))
        else http_error 503 ∷ closed ∷ [])
    else closed ∷ []
