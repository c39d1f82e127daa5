-- ===== src/Tests/BindPolicy.antt =====
-- internal/proxy/bind_policy.go at concrete inputs.
use go_proxy_server.Prelude.{◌≡◌, refl, true, false, List, [], ◌∷◌, none, some, codes, ok}
use go_proxy_server.Prelude.GoMap.{lookup}
use go_proxy_server.Runtime.Config.{ExitBinding}
use go_proxy_server.Runtime.Validate.{Parsers, bad_outbound, validate_exit_bindings}
use go_proxy_server.Proxy.BindPolicy.{IpMethods, resolve}
use go_proxy_server.Proxy.BindPolicy.Usable.{Usable, resolve-Usable}

-- Every text is an IP, and none is unspecified.
abbrev any_ip : Parsers
any_ip = record {
  parse_ip = λ s. some s;
  is_unspecified = λ _. false;
  parse_url = λ _. none;
  split_host_port = λ _. none;
  atoi = λ _. none;
}

abbrev as_text : IpMethods
as_text = record { text = λ s. s; equal = λ a b. true; is_loopback = λ _. false }

abbrev one_binding : List ExitBinding
one_binding =
    record { name = []; ingress_local_ip = codes "10.0.0.1"; outbound_local_ip = codes "10.0.1.1" }
    ∷ []

accepted : validate_exit_bindings any_ip one_binding ≡ ok tt
unfolding validate_exit_bindings bad_outbound lookup
accepted = refl

resolve-Usable_example :
    Usable any_ip as_text (resolve any_ip as_text true one_binding (some (codes "10.0.0.1")))
resolve-Usable_example =
    resolve-Usable any_ip as_text true one_binding (some (codes "10.0.0.1")) accepted
