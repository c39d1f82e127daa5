-- ===== src/Proxy/Socks5/Reading.antt =====
-- internal/proxy/socks5.go: what the readers accept, and how it lies in the input.
use go_proxy_server.Prelude.{
  ℕ, ◌/◌, ◌%◌, ◌≤◌, ◌≡◌, Bool, true, false, [], ◌∷◌, ◌++◌, Bytes, length, ok, err, arith,
  length-append, length-take, take-append, drop-append, take-append-drop, if◌then◌else◌, not, ◌==◌,
  >>=_inv, fail_if_inv, ltb,
}
use go_proxy_server.Proxy.Socks5.Read.{
  Host, ipv4, domain, ipv6, Target, read_full, read_byte, read_methods_after, read_methods,
  read_authentication_request, read_host, uint16, read_request_after, read_socks5_request,
  invalid_credentials, SocksError, read_sized, check_credentials, read_credentials,
  invalid_username_length, invalid_password_length, invalid_domain_length, unsupported_auth_version,
}

-- `io.ReadFull` takes exactly what it is asked for from the front of the input.
read_full-append : (xs rest : Bytes) → read_full (length xs) (xs ++ rest) ≡ ok (xs, rest)
unfolding read_full
read_full-append xs rest =
    let enough : ltb (length (xs ++ rest)) (length xs) ≡ false =
      ground (arith, length-append xs rest) in
    rw (enough, take-append xs rest, drop-append xs rest)

read_full_inv :
    (n : ℕ) (input xs rest : Bytes)
    → read_full n input ≡ ok (xs, rest)
    → (length xs ≡ n) × (input ≡ xs ++ rest)
unfolding read_full
read_full_inv n input xs rest e = ground (arith, length-take n input, take-append-drop n input)

-- A client's greeting is read if it offers 1 to 10 methods.
pub read_methods-append :
    (methods rest : Bytes)
    → 1 ≤ length methods
    → length methods ≤ 10
    → read_methods (5 ∷ length methods ∷ (methods ++ rest)) ≡ ok (methods, rest)
unfolding read_methods
read_methods-append methods rest h k =
    let few : ltb (length methods) 1 ≡ false = ground arith in
    let many : ltb 10 (length methods) ≡ false = ground arith in
    rw (read_full-append (5 ∷ length methods ∷ []) (methods ++ rest))
      (rw (few, many) (read_full-append methods rest))

methods_after_inv :
    (ver n : ℕ) (r methods rest : Bytes)
    → read_methods_after (ver ∷ n ∷ []) r ≡ ok (methods, rest)
    → (ver ≡ 5) × (n ≡ length methods) × (r ≡ methods ++ rest) × (1 ≤ n) × (n ≤ 10)
unfolding read_methods_after
methods_after_inv ver n r methods rest e = ground (arith, read_full_inv n r methods rest)

-- Only such a greeting is read: version 5, the number of methods, 1 to 10, and the methods.
pub read_methods_inv :
    (input : Bytes) {methods rest : Bytes}
    → read_methods input ≡ ok (methods, rest)
    → (input ≡ 5 ∷ length methods ∷ (methods ++ rest))
      × (1 ≤ length methods)
      × (length methods ≤ 10)
unfolding read_methods
read_methods_inv [] e = unfold read_full in cc
read_methods_inv (x ∷ []) e = unfold read_full in cc
read_methods_inv (ver ∷ n ∷ r) {methods} {rest} e =
    let e' : read_methods_after (ver ∷ n ∷ []) r ≡ ok (methods, rest) =
      rw (read_full-append (ver ∷ n ∷ []) r) at e in
    ground (arith, methods_after_inv ver n r methods rest e')

read_sized_lem :
    (limit : ℕ) (e : SocksError) (xs rest : Bytes)
    → 1 ≤ length xs
    → length xs ≤ limit
    → read_sized limit e (length xs ∷ (xs ++ rest)) ≡ ok (xs, rest)
unfolding read_sized read_byte
read_sized_lem limit e xs rest h k =
    let few : ltb (length xs) 1 ≡ false = ground arith in
    let many : ltb limit (length xs) ≡ false = ground arith in
    rw (few, many) (read_full-append xs rest)

read_sized_inv :
    (limit : ℕ) (e : SocksError) (input xs rest : Bytes)
    → read_sized limit e input ≡ ok (xs, rest)
    → (input ≡ length xs ∷ (xs ++ rest)) × (1 ≤ length xs) × (length xs ≤ limit)
unfolding read_sized read_byte
read_sized_inv limit e [] xs rest h = cc
read_sized_inv limit e (n ∷ input) xs rest h = ground (arith, read_full_inv n input xs rest)

-- A username and a password as RFC 1929 lays them out.
abbrev pub credentials : Bytes → Bytes → Bytes → Bytes
credentials u p rest = 1 ∷ length u ∷ (u ++ (length p ∷ (p ++ rest)))

abbrev pub FitsCredentials : Bytes → Bytes → Type 0
FitsCredentials u p = (1 ≤ length u) × (length u ≤ 64) × (1 ≤ length p) × (length p ≤ 128)

-- A username of 1 to 64 bytes and a password of 1 to 128 are accepted exactly if they verify.
pub read_authentication_request_lem :
    (verify : Bytes → Bytes → Bool) (u p rest : Bytes)
    → FitsCredentials u p
    → read_authentication_request verify (credentials u p rest)
      ≡ (if verify u p then ok (tt, rest) else err invalid_credentials)
unfolding read_authentication_request read_byte read_credentials check_credentials
read_authentication_request_lem verify u p rest h =
    rw (read_sized_lem 64 invalid_username_length u (length p ∷ (p ++ rest)) h.0 h.1)
      (rw (read_sized_lem 128 invalid_password_length p rest h.2 h.3) (ground arith))

check_credentials_inv :
    (b : Bool) (r rest : Bytes) → check_credentials b r ≡ ok (tt, rest) → (b ≡ true) × (r ≡ rest)
unfolding check_credentials
check_credentials_inv true r rest e = ground arith
check_credentials_inv false r rest e = cc

read_credentials_inv :
    (verify : Bytes → Bytes → Bool) (input rest : Bytes)
    → read_credentials verify input ≡ ok (tt, rest)
    → (u : Bytes) × (p : Bytes) × (verify u p ≡ true)
      × FitsCredentials u p
      × (input ≡ length u ∷ (u ++ (length p ∷ (p ++ rest))))
unfolding read_credentials
read_credentials_inv verify input rest e =
    let ((u, r1), eu, k1) = >>=_inv (read_sized 64 invalid_username_length input) _ (tt, rest) e in
    let ((p, r2), ep, k2) = >>=_inv (read_sized 128 invalid_password_length r1) _ (tt, rest) k1 in
    let (good, end) = check_credentials_inv (verify u p) r2 rest k2 in
    let a = read_sized_inv 64 invalid_username_length input u r1 eu in
    let b = read_sized_inv 128 invalid_password_length r1 p r2 ep in
    (u, p, good, ground arith, ground arith)

-- Nothing else is accepted: an accepted request holds a username and a password that verify.
pub read_authentication_request_inv :
    (verify : Bytes → Bytes → Bool) (input rest : Bytes)
    → read_authentication_request verify input ≡ ok (tt, rest)
    → (u : Bytes) × (p : Bytes) × (verify u p ≡ true)
      × FitsCredentials u p
      × (input ≡ credentials u p rest)
unfolding read_authentication_request read_byte
read_authentication_request_inv verify [] rest e = cc
read_authentication_request_inv verify (ver ∷ r0) rest e =
    let (v, k) =
      fail_if_inv (not (ver == 1)) (unsupported_auth_version ver) (read_credentials verify r0)
        (tt, rest) e in
    let (u, p, good, fits, at) = read_credentials_inv verify r0 rest k in
    (u, p, good, fits, ground arith)

-- A request as RFC 1928 lays it out: the version, CONNECT, a reserved byte, the host, the port.
abbrev pub host_bytes : Host → Bytes
host_bytes (ipv4 ip) = 1 ∷ ip
host_bytes (domain name) = 3 ∷ length name ∷ name
host_bytes (ipv6 ip) = 4 ∷ ip

abbrev pub FitsHost : Host → Type 0
FitsHost (ipv4 ip) = length ip ≡ 4
FitsHost (domain name) = (1 ≤ length name) × (length name ≤ 255)
FitsHost (ipv6 ip) = length ip ≡ 16

abbrev pub request : ℕ → Target → Bytes → Bytes
request rsv t rest = 5 ∷ 1 ∷ rsv ∷ (host_bytes t.host ++ ((t.port / 256) ∷ (t.port % 256) ∷ rest))

read_full_of : (n : ℕ) (xs rest : Bytes) → length xs ≡ n → read_full n (xs ++ rest) ≡ ok (xs, rest)
read_full_of n xs rest e = rw (← e) (read_full-append xs rest)

uint16_lem : (port : ℕ) (rest : Bytes) → uint16 ((port / 256) ∷ (port % 256) ∷ rest) ≡ port
unfolding uint16
uint16_lem port rest = omega arith

read_port :
    (port : ℕ) (rest : Bytes)
    → read_full 2 ((port / 256) ∷ (port % 256) ∷ rest) ≡ ok ((port / 256) ∷ (port % 256) ∷ [], rest)
read_port port rest = read_full-append ((port / 256) ∷ (port % 256) ∷ []) rest

-- Every well formed CONNECT request is read as its target, whatever its reserved byte.
pub read_socks5_request_lem :
    (rsv : ℕ) (t : Target) (rest : Bytes)
    → FitsHost t.host
    → read_socks5_request (request rsv t rest) ≡ ok (t, rest)
unfolding read_socks5_request read_request_after read_host
read_socks5_request_lem rsv t rest h = by_host t.host t.port h
  where
    by_host :
        (host : Host) (port : ℕ)
        → FitsHost host
        → let t : Target = record { host = host; port = port } in
          read_socks5_request (request rsv t rest) ≡ ok (t, rest)
    by_host (ipv4 ip) port h =
        let tail = (port / 256) ∷ (port % 256) ∷ rest in
        rw (read_full-append (5 ∷ 1 ∷ rsv ∷ 1 ∷ []) (ip ++ tail))
          (rw (read_full_of 4 ip tail h) (rw (read_port port rest) (rw (uint16_lem port []))))
    by_host (domain name) port h =
        let tail = (port / 256) ∷ (port % 256) ∷ rest in
        rw (read_full-append (5 ∷ 1 ∷ rsv ∷ 3 ∷ []) (length name ∷ (name ++ tail))) (
          rw (read_sized_lem 255 invalid_domain_length name tail h.0 h.1)
            (rw (read_port port rest) (rw (uint16_lem port []))))
    by_host (ipv6 ip) port h =
        let tail = (port / 256) ∷ (port % 256) ∷ rest in
        rw (read_full-append (5 ∷ 1 ∷ rsv ∷ 4 ∷ []) (ip ++ tail))
          (rw (read_full_of 16 ip tail h) (rw (read_port port rest) (rw (uint16_lem port []))))
