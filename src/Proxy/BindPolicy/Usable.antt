-- ===== src/Proxy/BindPolicy/Usable.antt =====
-- internal/proxy/bind_policy.go with the bindings that internal/runtime/config.go has validated.
use go_proxy_server.Prelude.{
  ◌≡◌, refl, ◌≢◌, Bool, true, false, if◌then◌else◌, List, [], ◌∷◌, Option, none, some, Bytes, All,
  ok, arith,
}
use go_proxy_server.Prelude.Strings.{trim_space}
use go_proxy_server.Runtime.Config.{ExitBinding}
use go_proxy_server.Runtime.Validate.{Parsers, bad_outbound, validate_exit_bindings}
use go_proxy_server.Runtime.Bindings.{IsBinding, validate_exit_bindings_iff}
use go_proxy_server.Proxy.BindPolicy.{
  IpMethods, unusable_outbound, BindDecision, ip_string_equal, use_binding, unmapped, resolve_loop,
  resolve,
}

module _ (parsers : Parsers) (ips : IpMethods) where
  -- A decision without the warning of an unusable binding.
  abbrev pub Usable : Option Bytes × BindDecision → Type 0
  Usable r = r.1.warning ≢ some unusable_outbound

  use_binding-Usable :
      (o : Option Bytes) (d : BindDecision)
      → bad_outbound parsers o ≡ false
      → d.warning ≡ none
      → Usable (use_binding parsers ips o d)
  unfolding use_binding bad_outbound
  use_binding-Usable none d h w = absurd (ground arith)
  use_binding-Usable (some ip) d h w = ground arith

  ite-Usable :
      (b : Bool) (x y : Option Bytes × BindDecision)
      → Usable x
      → Usable y
      → Usable (if b then x else y)
  ite-Usable true x y u v = u
  ite-Usable false x y u v = v

  unmapped-Usable :
      (ip : Bytes) (d : BindDecision) → d.warning ≡ none → Usable (unmapped parsers ips ip d)
  unmapped-Usable ip d w = ground arith

  resolve_loop-Usable :
      (ip : Bytes) (d : BindDecision) (bs : List ExitBinding)
      → d.warning ≡ none
      → All (IsBinding parsers) bs
      → Usable (resolve_loop parsers ips ip d bs)
  unfolding resolve_loop
  resolve_loop-Usable ip d [] w g = unmapped-Usable ip d w
  resolve_loop-Usable ip d (b ∷ bs) w (good, g) =
      ite-Usable (ip_string_equal parsers ips b.ingress_local_ip (ips.text ip)) _ _
        (use_binding-Usable (parsers.parse_ip (trim_space b.outbound_local_ip)) d good.outbound w)
        (resolve_loop-Usable ip d bs w g)

  -- With exit bindings that the validation of the configuration has accepted, no decision about the
  -- outbound address, whatever the ingress address, warns of an unusable binding.
  pub resolve-Usable :
      (enabled : Bool) (bs : List ExitBinding) (ingress : Option Bytes)
      → validate_exit_bindings parsers bs ≡ ok tt
      → Usable (resolve parsers ips enabled bs ingress)
  unfolding resolve
  resolve-Usable false bs ingress h = λ e. ground arith
  resolve-Usable true bs none h = λ e. ground arith
  resolve-Usable true bs (some ip) h =
      ite-Usable (parsers.is_unspecified ip) _ _ (λ e. ground arith)
        (resolve_loop-Usable ip _ bs refl ((validate_exit_bindings_iff parsers bs).0 h).0)
