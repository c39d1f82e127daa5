-- ===== src/Proxy/Http/Guards.antt =====
-- internal/proxy/http.go: what has been checked before the handler connects or sends anywhere.
use go_proxy_server.Prelude.{
  ◌≡◌, refl, sym, subst, ◌⊎◌, inl, inr, Bool, true, false, if◌then◌else◌, List, [], ◌∷◌, ◌++◌,
  Option, none, some, Bytes, bytes_dec, codes, Result, ok, err, All, Option-cases, arith,
}
use go_proxy_server.Prelude.GoMap.{lookup, delete, lookup-delete}
use go_proxy_server.Prelude.Strings.{is_empty}
use go_proxy_server.Security.Ssrf.{RemoteAddr, verify_connected_ip}
use go_proxy_server.Proxy.Http.{
  Env, World, Request, Headers, Action, dialed, tunneled, forwarded, ConnectError, is_ok, ssrf_ok,
  source, dial_verified, validate_and_connect, with_port, tunnel, handle_https_connect, round_trip,
  strip_proxy_headers, answer, send, handle_http_request, serve,
}

-- The host that the SSRF check sees, and the address that is connected to.
abbrev pub checked_host : Request → Bytes
checked_host req = with_port req.host (if req.is_connect then codes ":443" else codes ":80")

abbrev pub target : World → Request → Bytes
target w req = if req.is_connect then checked_host req else w.canonical_addr req.url_host

abbrev pub Reaches : World → Request → Bytes → Type 0
Reaches w req t = (t ≡ target w req) × (ssrf_ok w (checked_host req) ≡ true)

-- A connection stands, and the address at its other end has been checked.
abbrev pub Connected : Env → World → Bytes → Type 0
Connected env w t =
    (addr : Option RemoteAddr) × (w.dial (source env) t ≡ some addr)
    × (is_ok (verify_connected_ip w.net (some addr)) ≡ true)

abbrev pub HasNoCredentials : Headers → Type 0
HasNoCredentials header =
    (lookup bytes_dec (codes "Proxy-Authorization") header ≡ none)
    × (lookup bytes_dec (codes "Proxy-Connection") header ≡ none)

-- What has been checked, of the request itself, before an action.
abbrev pub Checked : Env → World → Request → Action → Type 0
Checked env w req (dialed src t) = Reaches w req t
Checked env w req (tunneled t) = Reaches w req t × Connected env w t
Checked env w req (forwarded t header) =
    Reaches w req t
    × ((w.has_idle (source env) t ≡ true) ⊎ Connected env w t)
    × HasNoCredentials header
Checked env w req _ = Unit {0}

All-append : {A : Type 0} (P : A → Type 0) (xs ys : List A) → All P xs → All P ys → All P (xs ++ ys)
All-append P [] ys a b = b
All-append P (x ∷ xs) ys (p, a) b = (p, All-append P xs ys a b)

module _ (env : Env) (w : World) (req : Request) where
  abbrev Good : List Action → Type 0
  Good acts = All (Checked env w req) acts

  -- What the dialer and the check of the connected address leave.
  abbrev Dials : Bytes → List Action × Result ConnectError (Unit {0}) → Type 0
  Dials t (acts, r) = Good acts × (r ≡ ok tt → Connected env w t)

  by_verdict :
      (t : Bytes) (addr : Option RemoteAddr) (b : Bool)
      → Reaches w req t
      → w.dial (source env) t ≡ some addr
      → is_ok (verify_connected_ip w.net (some addr)) ≡ b
      → Dials t (
          if b then (dialed (source env) t ∷ [], ok tt) else (
            dialed (source env) t ∷ Action.dest_closed ∷ [],
            err ConnectError.rebinding_blocked,
          ))
  by_verdict t addr true h up good = ((h, tt), λ _. (addr, up, good))
  by_verdict t addr false h up bad = ((h, (tt, tt)), λ e. absurd (ground arith))

  dial_up :
      (t : Bytes) (addr : Option RemoteAddr)
      → w.dial (source env) t ≡ some addr
      → dial_verified env w t ≡ (
          if is_ok (verify_connected_ip w.net (some addr))
          then (dialed (source env) t ∷ [], ok tt)
          else (
            dialed (source env) t ∷ Action.dest_closed ∷ [],
            err ConnectError.rebinding_blocked,
          ))
  unfolding dial_verified
  dial_up t addr up = rw (up, dial_verified) refl

  dial_verified-Dials : (t : Bytes) → Reaches w req t → Dials t (dial_verified env w t)
  unfolding dial_verified
  dial_verified-Dials t h = elim (Option-cases (w.dial (source env) t)) [
    | inl down ↦ rw (down, dial_verified) ((h, tt), λ e. absurd (ground arith))
    | inr (addr, up) ↦ subst (Dials t) (sym (dial_up t addr up)) (by_verdict t addr _ h up refl)
  ]

  tunnel-Good :
      (t : Bytes) (r : List Action × Result ConnectError (Unit {0}))
      → Reaches w req t
      → Dials t r
      → Good (tunnel w t r)
  tunnel-Good t (acts, err e) h (g, c) = All-append (Checked env w req) acts _ g (tt, tt)
  tunnel-Good t (acts, ok _) h (g, c) = All-append (Checked env w req) acts _ g (written w.write_ok)
    where
      written :
          (b : Bool)
          → Good (
              if b
              then Action.established ∷ tunneled t ∷ Action.dest_closed ∷ []
              else Action.dest_closed ∷ [])
      written true = (tt, ((h, c refl), (tt, tt)))
      written false = (tt, tt)

  reaches_connect :
      (b : Bool)
      → b ≡ true
      → let host = with_port req.host (if b then codes ":443" else codes ":80") in
        let t = with_port req.host (codes ":443") in
        ssrf_ok w t ≡ true
        → (t ≡ (if b then host else w.canonical_addr req.url_host)) × (ssrf_ok w host ≡ true)
  reaches_connect true e s = (refl, s)
  reaches_connect false e s = absurd (ground arith)

  reaches_plain :
      (b : Bool)
      → b ≡ false
      → let host = with_port req.host (if b then codes ":443" else codes ":80") in
        ssrf_ok w (with_port req.host (codes ":80")) ≡ true
        → (w.canonical_addr req.url_host ≡ (if b then host else w.canonical_addr req.url_host))
          × (ssrf_ok w host ≡ true)
  reaches_plain true e s = absurd (ground arith)
  reaches_plain false e s = (refl, s)

  connect_lem :
      (t : Bytes) (b : Bool)
      → ssrf_ok w t ≡ b
      → (ssrf_ok w t ≡ true → Reaches w req t)
      → Good (tunnel w t (if b then dial_verified env w t else ([], err ConnectError.ssrf_blocked)))
  connect_lem t true s h = tunnel-Good t _ (h s) (dial_verified-Dials t (h s))
  connect_lem t false s h = (tt, tt)

  handle_https_connect-Good : req.is_connect ≡ true → Good (handle_https_connect env w req)
  unfolding handle_https_connect validate_and_connect
  handle_https_connect-Good e =
      let t = with_port req.host (codes ":443") in
      connect_lem t (ssrf_ok w t) refl (reaches_connect req.is_connect e)

  send-Good :
      (t : Bytes) (header : Headers) (r : List Action × Result ConnectError (Unit {0}))
      → Reaches w req t
      → HasNoCredentials header
      → Dials t r
      → Good ((send t header w.respond r).0)
  send-Good t header (acts, err e) h clean (g, c) = g
  send-Good t header (acts, ok _) h clean (g, c) =
      All-append (Checked env w req) acts _ g ((h, inr (c refl), clean), tt)

  -- What a round trip leaves, whether or not it needs a new connection.
  round_trip-Good :
      (t : Bytes) (header : Headers) (empty idle : Bool)
      → Reaches w req t
      → HasNoCredentials header
      → w.has_idle (source env) t ≡ idle
      → Good (
          (if empty
            then ([], none)
            else if idle
            then (forwarded t header ∷ [], w.respond)
            else send t header w.respond (dial_verified env w t)).0)
  round_trip-Good t header true idle h clean i = tt
  round_trip-Good t header false true h clean i = ((h, inl i, clean), tt)
  round_trip-Good t header false false h clean i =
      send-Good t header (dial_verified env w t) h clean (dial_verified-Dials t h)

  answer-Good :
      (header : Headers) (r : List Action × Option Bytes)
      → Good (r.0)
      → Good ((answer w req header r).0)
  answer-Good header (acts, none) g = All-append (Checked env w req) acts _ g (tt, tt)
  answer-Good header (acts, some response) g = written w.write_ok _
    where
      written :
          (b close : Bool)
          → Good (
              (if◌then◌else◌ {A = List Action × Bool} b
                (acts ++ (Action.responded close ∷ []), close)
                (acts, true)).0)
      written true close = All-append (Checked env w req) acts _ g (tt, tt)
      written false close = g

  strip-HasNoCredentials : HasNoCredentials (strip_proxy_headers req.header)
  unfolding strip_proxy_headers
  strip-HasNoCredentials = (
    ground (
      arith,
      lookup-delete bytes_dec (codes "Proxy-Connection") (codes "Proxy-Authorization")
          (delete bytes_dec (codes "Proxy-Authorization") req.header),
      lookup-delete bytes_dec (codes "Proxy-Authorization") (codes "Proxy-Authorization")
          req.header,
    ),
    ground (
      arith,
      lookup-delete bytes_dec (codes "Proxy-Connection") (codes "Proxy-Connection")
          (delete bytes_dec (codes "Proxy-Authorization") req.header),
    ),
  )

  plain_lem :
      (b : Bool)
      → ssrf_ok w (with_port req.host (codes ":80")) ≡ b
      → req.is_connect ≡ false
      → Good (
          (if b
            then answer w req
                (strip_proxy_headers req.header)
                (round_trip env w req (strip_proxy_headers req.header))
            else (Action.http_error 403 ∷ [], true)).0)
  unfolding round_trip
  plain_lem true s e = answer-Good (strip_proxy_headers req.header) _ (
      round_trip-Good (w.canonical_addr req.url_host) (strip_proxy_headers req.header)
        (is_empty req.url_host) _ (reaches_plain req.is_connect e s) strip-HasNoCredentials refl)
  plain_lem false s e = (tt, tt)

  pub serve-Good : Good ((serve env w req).0)
  unfolding serve handle_http_request
  serve-Good = by_method req.is_connect refl
    where
      by_method :
          (b : Bool)
          → req.is_connect ≡ b
          → Good (
              (if b
                then (handle_https_connect env w req, true)
                else handle_http_request env w req).0)
      by_method true e = handle_https_connect-Good e
      by_method false e = plain_lem (ssrf_ok w (with_port req.host (codes ":80"))) refl e
