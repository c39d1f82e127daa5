-- ===== src/Proxy/BindPolicy.antt =====
-- internal/proxy/bind_policy.go: the source address of an outbound connection. An IP is its bytes,
-- and what package net does with IPs is a record; the binding is that of internal/runtime/config.go,
-- which has the same fields.
pub mod Usable
use go_proxy_server.Prelude.{
  Bool, true, false, if◌then◌else◌, List, [], ◌∷◌, Option, none, some, Bytes,
}
use go_proxy_server.Prelude.Strings.{trim_space}
use go_proxy_server.Runtime.Config.{ExitBinding}
use go_proxy_server.Runtime.Validate.{Parsers, bad_outbound}

-- `ip.String()`, `a.Equal(b)` and `ip.IsLoopback()`
pub record IpMethods : Type 0 where
  pub text : Bytes → Bytes
  pub equal : Bytes → Bytes → Bool
  pub is_loopback : Bytes → Bool

pub data Warning : Type 0 where
  ingress_missing ingress_unspecified unusable_outbound : Warning

-- `BindDecision`; an empty text is `none`.
pub record BindDecision : Type 0 where
  pub bind_enabled : Bool
  pub ingress_local_ip : Option Bytes
  pub outbound_local_ip : Option Bytes
  pub mapped : Bool
  pub default_route : Bool
  pub warning : Option Warning

abbrev pub undecided : Bool → BindDecision
undecided enabled = record {
  bind_enabled = enabled;
  ingress_local_ip = none;
  outbound_local_ip = none;
  mapped = false;
  default_route = false;
  warning = none;
}

module _ (parsers : Parsers) (ips : IpMethods) where
  -- The comparison of `ipStringEqual`, of two texts that have been parsed.
  abbrev pub both_equal : Option Bytes → Option Bytes → Bool
  both_equal (some a) (some b) = ips.equal a b
  both_equal _ _ = false

  -- `ipStringEqual`
  unfoldable pub ip_string_equal : Bytes → Bytes → Bool
  ip_string_equal a b =
      both_equal (parsers.parse_ip (trim_space a)) (parsers.parse_ip (trim_space b))

  -- The binding that matches, with its outbound address parsed.
  unfoldable pub use_binding : Option Bytes → BindDecision → Option Bytes × BindDecision
  use_binding none d = (none, record d { warning = some unusable_outbound })
  use_binding (some ip) d =
      if parsers.is_unspecified ip
      then (none, record d { warning = some unusable_outbound })
      else (some ip, record d { outbound_local_ip = some (ips.text ip); mapped = true })

  -- What follows the loop.
  abbrev pub unmapped : Bytes → BindDecision → Option Bytes × BindDecision
  unmapped ip d =
      if ips.is_loopback ip
      then (none, record d { default_route = true })
      else (some ip, record d { outbound_local_ip = some (ips.text ip) })

  -- The loop over the bindings, for an ingress address.
  unfoldable pub resolve_loop :
      Bytes → BindDecision → List ExitBinding → Option Bytes × BindDecision
  unfolding use_binding
  resolve_loop ip d [] = unmapped ip d
  resolve_loop ip d (b ∷ bs) =
      let rest = resolve_loop ip d bs in
      if ip_string_equal b.ingress_local_ip (ips.text ip)
      then use_binding (parsers.parse_ip (trim_space b.outbound_local_ip)) d
      else rest

  -- `ResolveOutboundLocalAddr`
  unfoldable pub resolve : Bool → List ExitBinding → Option Bytes → Option Bytes × BindDecision
  unfolding resolve_loop
  resolve false bindings ingress = (none, undecided false)
  resolve true bindings none = (none, record (undecided true) { warning = some ingress_missing })
  resolve true bindings (some ip) =
      let d : BindDecision = record (undecided true) { ingress_local_ip = some (ips.text ip) } in
      if parsers.is_unspecified ip
      then (none, record d { warning = some ingress_unspecified })
      else resolve_loop ip d bindings
