-- ===== src/Web/PortRange.antt =====
-- internal/web/service_tunnel_server.go: what an accepted configuration of the tunnel server is.
use go_proxy_server.Prelude.{
  ℕ, zero, suc, ◌≡◌, refl, ◌≤◌, ◌⊎◌, ◌↔◌, Bool, true, false, Bytes, ok, ℤ, pos, negsuc, arith, not,
  ◌&&◌, ◌||◌, fail_if, ◌>>◌, err,
}
use go_proxy_server.Prelude.Strings.{trim_space, is_empty}
use go_proxy_server.Web.TunnelConfig.{
  validate_range, validate_server_config, validate_server_runtime, is_quic, quic_insecure,
  validate_tunnel_engine, token_required, insecure_with_cert, cert_without_key, Check,
}

-- No range, or a range of ports.
pub data IsRange : ℤ → ℤ → Type 0 where
  unset : IsRange (pos 0) (pos 0)
  range : (m n : ℕ) → 1 ≤ m → m ≤ n → n ≤ 65535 → IsRange (pos m) (pos n)

validate_range-IsRange : (first last : ℤ) → validate_range first last ≡ ok tt → IsRange first last
unfolding validate_range
validate_range-IsRange (pos zero) (pos zero) e = unset
validate_range-IsRange (pos zero) (pos (suc n)) e = absurd (ground arith)
validate_range-IsRange (pos (suc m)) (pos n) e =
    range (suc m) n (omega arith) (ground arith) (ground arith)
validate_range-IsRange (pos m) (negsuc n) e = absurd (ground arith)
validate_range-IsRange (negsuc m) last e = absurd (ground arith)

validate_range-ok : (first last : ℤ) → IsRange first last → validate_range first last ≡ ok tt
unfolding validate_range
validate_range-ok _ _ unset = refl
validate_range-ok _ _ (range m n a b c) = ground arith

-- What `ValidateTunnelServerRuntimeConfig` accepts: a known engine, which is not QUIC without TLS,
-- a token, no range or a range of ports, and a certificate exactly if there is a key, neither of
-- them where TLS is off.
pub record Accepted (engine token cert key : Bytes) (allow_insecure : Bool) (first last : ℤ)
    : Type 0 where
  pub known : validate_tunnel_engine (trim_space engine) ≡ ok tt
  pub in_range : IsRange first last
  pub has_token : is_empty (trim_space token) ≡ false
  pub files :
      ((allow_insecure ≡ true)
        × (is_quic (trim_space engine) ≡ false)
        × (is_empty (trim_space cert) ≡ true)
        × (is_empty (trim_space key) ≡ true))
      ⊎ ((allow_insecure ≡ false) × (is_empty (trim_space cert) ≡ is_empty (trim_space key)))

checks_lem :
    (engine_ok range_ok : Check) (quic no_token no_cert no_key insecure : Bool)
    → (((engine_ok >> (fail_if (insecure && quic) quic_insecure >> range_ok))
          >> (fail_if no_token token_required
              >> (fail_if (insecure && (not no_cert || not no_key)) insecure_with_cert
                  >> fail_if
                      (not insecure
                        && ((not no_cert && not (not no_key)) || (not (not no_cert) && not no_key)))
                      cert_without_key)))
        ≡ ok tt)
      ↔ ((engine_ok ≡ ok tt)
          × (range_ok ≡ ok tt)
          × (no_token ≡ false)
          × (((insecure ≡ true) × (quic ≡ false) × (no_cert ≡ true) × (no_key ≡ true))
              ⊎ ((insecure ≡ false) × (no_cert ≡ no_key))))
checks_lem (ok _) (ok _) quic no_token no_cert no_key insecure =
    (λ e. ground arith, λ a. ground arith)
checks_lem (ok _) (err r) quic no_token no_cert no_key insecure =
    (λ e. ground arith, λ a. ground arith)
checks_lem (err r) s quic no_token no_cert no_key insecure = (λ e. cc, λ a. ground arith)

-- The configuration of a tunnel server is accepted exactly if it is as `Accepted` says.
pub validate_server_runtime_iff :
    (engine token cert key : Bytes) (allow_insecure : Bool) (first last : ℤ)
    → (validate_server_runtime engine token cert key allow_insecure first last ≡ ok tt)
      ↔ Accepted engine token cert key allow_insecure first last
unfolding validate_server_runtime validate_server_config
validate_server_runtime_iff engine token cert key allow_insecure first last =
    let (to, from) =
      checks_lem (validate_tunnel_engine (trim_space engine)) (validate_range first last)
        (is_quic (trim_space engine)) (is_empty (trim_space token)) (is_empty (trim_space cert))
        (is_empty (trim_space key)) allow_insecure in
    (
      λ e.
          let (known, in_range, token, files) = to e in
          record {
            known = known;
            in_range = validate_range-IsRange first last in_range;
            has_token = token;
            files = files;
          },
      λ a. from (a.known, validate_range-ok first last a.in_range, a.has_token, a.files),
    )
