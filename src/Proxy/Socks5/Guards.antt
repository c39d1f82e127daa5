-- ===== src/Proxy/Socks5/Guards.antt =====
-- internal/proxy/socks5.go: what has been checked before the handler connects anywhere.
use go_proxy_server.Prelude.{
  ◌≡◌, refl, inl, inr, Bool, true, false, if◌then◌else◌, List, [], ◌∷◌, ◌++◌, none, subst, Bytes,
  ok, All, Option-cases, Result-cases,
}
use go_proxy_server.Proxy.Socks5.Read.{
  Target, read_methods, is_auth_method_supported, read_authentication_request, read_socks5_request,
}
use go_proxy_server.Proxy.Socks5.Reading.{credentials, read_authentication_request_inv}
use go_proxy_server.Proxy.Socks5.Handle.{
  Env, Action, released, closed, dialed, relayed, connect, serve, authenticate, negotiate, session,
  handle,
}

-- The client may use the proxy, `rest` being what it sends behind the negotiation: its address is
-- whitelisted, or it has offered and sent a username and a password that verify.
pub data Authorized (env : Env) (input : Bytes) : Bytes → Type 0 where
  by_whitelist :
      (methods rest : Bytes)
      → env.whitelisted ≡ true
      → read_methods input ≡ ok (methods, rest)
      → Authorized env input rest
  by_password :
      (methods u p rest : Bytes)
      → is_auth_method_supported methods ≡ true
      → read_methods input ≡ ok (methods, credentials u p rest)
      → env.verify u p ≡ true
      → Authorized env input rest

-- What must have been checked before an action.
abbrev pub Allowed : Env → Bytes → Action → Type 0
Allowed env input (dialed t) =
    (rest : Bytes) × (after : Bytes) × Authorized env input rest
    × (read_socks5_request rest ≡ ok (t, after))
    × (env.ssrf_ok t ≡ true)
Allowed env input (relayed t) =
    (rest : Bytes) × (after : Bytes) × Authorized env input rest
    × (read_socks5_request rest ≡ ok (t, after))
    × (env.ssrf_ok t ≡ true)
    × (env.dial t ≡ none)
    × (env.verify_connected t ≡ true)
Allowed env input _ = Unit {0}

All-append : {A : Type 0} (P : A → Type 0) (xs ys : List A) → All P xs → All P ys → All P (xs ++ ys)
All-append P [] ys a b = b
All-append P (x ∷ xs) ys (p, a) b = (p, All-append P xs ys a b)

All-ite :
    {A : Type 0} (P : A → Type 0) (xs ys : List A) (b : Bool)
    → (b ≡ true → All P xs)
    → (b ≡ false → All P ys)
    → All P (if b then xs else ys)
All-ite P xs ys true f g = f refl
All-ite P xs ys false f g = g refl

module _ (env : Env) (input : Bytes) where
  connect-Allowed :
      (rest after : Bytes) (t : Target)
      → Authorized env input rest
      → read_socks5_request rest ≡ ok (t, after)
      → env.ssrf_ok t ≡ true
      → All (Allowed env input) (connect env t)
  unfolding connect
  connect-Allowed rest after t a r s = elim (Option-cases (env.dial t)) [
    | inr (e, failed) ↦ rw (failed, connect) ((rest, after, a, r, s), (tt, tt))
    | inl up ↦
        rw (up, connect)
          (All-ite (Allowed env input) _ _ (env.verify_connected t)
            (λ good. ((rest, after, a, r, s), (tt, ((rest, after, a, r, s, up, good), (tt, tt)))))
            (λ _. ((rest, after, a, r, s), (tt, (tt, tt)))))
  ]

  serve-Allowed :
      (rest : Bytes) → Authorized env input rest → All (Allowed env input) (serve env rest)
  unfolding serve
  serve-Allowed rest a = elim (Result-cases (read_socks5_request rest)) [
    | inr (e, bad) ↦ rw (bad, serve) (tt, tt)
    | inl ((t, after), r) ↦
        rw (r, serve)
          (All-ite (Allowed env input) _ _ (env.ssrf_ok t)
            (λ good. connect-Allowed rest after t a r good) (λ _. (tt, tt)))
  ]

  authenticate-Allowed :
      (methods rest : Bytes)
      → is_auth_method_supported methods ≡ true
      → read_methods input ≡ ok (methods, rest)
      → All (Allowed env input) (authenticate env rest)
  unfolding authenticate
  authenticate-Allowed methods rest offered m =
      elim (Result-cases (read_authentication_request env.verify rest)) [
        | inr (e, bad) ↦ rw (bad, authenticate) (tt, tt)
        | inl ((_, after), r) ↦
            let (u, p, good, fits, at) = read_authentication_request_inv env.verify rest after r in
            let a : Authorized env input after =
              by_password methods u p after offered
                (subst (λ x. read_methods input ≡ ok (methods, x)) at m) good in
            rw (r, authenticate)
              (
                tt,
                All-ite (Allowed env input) _ _ (env.write_ok 1) (λ _. serve-Allowed after a)
                    (λ _. tt),
              )
      ]

  negotiate-Allowed :
      (methods rest : Bytes)
      → read_methods input ≡ ok (methods, rest)
      → All (Allowed env input) (negotiate env methods rest)
  unfolding negotiate
  negotiate-Allowed methods rest m =
      All-ite (Allowed env input) _ _ env.whitelisted
        (λ white. (
          tt,
          All-ite (Allowed env input) _ _ (env.write_ok 0)
              (λ _. serve-Allowed rest (by_whitelist methods rest white m)) (λ _. tt),
        ))
        (λ other.
          All-ite (Allowed env input) _ _ (is_auth_method_supported methods)
            (λ offered. (
              tt,
              All-ite (Allowed env input) _ _ (env.write_ok 0)
                  (λ _. authenticate-Allowed methods rest offered m) (λ _. tt),
            ))
            (λ _. (tt, tt)))

  session-Allowed : All (Allowed env input) (session env input)
  unfolding session
  session-Allowed = elim (Result-cases (read_methods input)) [
    | inr (e, bad) ↦ rw (bad, session) tt
    | inl ((methods, rest), m) ↦
        rw (m, session)
          (All-ite (Allowed env input) _ _ env.local_is_tcp (λ _. negotiate-Allowed methods rest m)
            (λ _. tt))
  ]

  -- Whatever the client sends, the handler connects to a target only when the client is authorised,
  -- by the whitelist or by a username and a password that verify, when that target is the one of
  -- the request read next and when the SSRF check admits it; and it relays data, and so answers
  -- success, only when the dial has succeeded and the address of the connection has been checked.
  pub handle-Allowed : All (Allowed env input) (handle env input)
  unfolding handle
  handle-Allowed =
      All-ite (Allowed env input) _ _ env.is_tcp
        (λ _.
          All-ite (Allowed env input) _ _ env.admits
            (λ _. (
              tt,
              All-append (Allowed env input) (session env input) (released ∷ closed ∷ [])
                  session-Allowed (tt, (tt, tt)),
            ))
            (λ _. (tt, tt)))
        (λ _. (tt, tt))
