-- ===== src/Tunnel/Store/Saved.antt =====
-- internal/tunnel/managed_store.go: what SaveRouteWithOptions stores.
use go_proxy_server.Prelude.{
  ℕ, ◌≡◌, refl, ap, sym, ◌∙◌, subst, ◌⊎◌, inl, inr, true, false, ◌||◌, [], Option, none, some,
  Bytes, Result, ok_inv, ok, err, ◌>>=◌, >>=_inv, fail_if_inv, ◌>>◌, ℤ, pos, lt_const, gt_const,
  arith,
}
use go_proxy_server.Prelude.Strings.{same, is_empty}
use go_proxy_server.Tunnel.Store.{
  TunnelRoute, StoreError, Outcome, Packages, protocol_tcp, protocol_udp, validate_protocol,
  validate_udp_settings, normalize_protocol, normalize_udp_idle_timeout, normalize_udp_max_payload,
  normalize_target_addr, public_port_range, names_required,
}
use go_proxy_server.Tunnel.Store.Database.{Found, found, missing, failed, Db, IsDb}
use go_proxy_server.Tunnel.Store.Operations.{
  RouteInput, new_route, stored_whitelist, with_target, checked_route, check_immutable, overwrite,
  is_route, and_then, created_or, unless_refused, write_route, save_checked, save_result,
  save_route_with_options,
}
use go_proxy_server.Tunnel.Store.Pinned.{same_refl}

-- `low ≤ z ≤ high`
abbrev pub Within : ℕ → ℕ → ℤ → Type 0
Within low high z = (lt_const z low ≡ false) × (gt_const z high ≡ false)

-- What a route satisfies that has passed the checks.
pub record IsRoute (r : TunnelRoute) : Type 0 where
  pub named : (is_empty r.client_name ≡ false) × (is_empty r.name ≡ false)
  pub protocol_known : (same r.protocol protocol_tcp || same r.protocol protocol_udp) ≡ true
  pub port_range : Within 0 65535 r.public_port
  pub udp_range :
      same r.protocol protocol_udp ≡ true
      → Within 10 3600 r.udp_idle_timeout_sec × Within 256 65507 r.udp_max_payload
  pub runtime_reset : (r.active_public_port ≡ pos 0) × (r.last_error ≡ [])
  pub unassigned : r.assigned_public_port ≡ pos 0

validate_protocol_inv :
    (p : Bytes) → validate_protocol p ≡ ok tt → (same p protocol_tcp || same p protocol_udp) ≡ true
unfolding validate_protocol
validate_protocol_inv p e = ground arith

validate_udp_settings_inv :
    (p : Bytes) (idle payload : ℤ)
    → validate_udp_settings p idle payload ≡ ok tt
    → same p protocol_udp ≡ true
    → Within 10 3600 idle × Within 256 65507 payload
unfolding validate_udp_settings
validate_udp_settings_inv p idle payload e u =
    ((ground arith, ground arith), (ground arith, ground arith))

with_target-IsRoute :
    (pkg : Packages) (a : RouteInput) (target : Bytes) (new : TunnelRoute)
    → (is_empty a.client_name || is_empty a.route_name) ≡ false
    → validate_protocol (normalize_protocol a.protocol) ≡ ok tt
    → with_target pkg a target ≡ ok new
    → IsRoute new
unfolding with_target
with_target-IsRoute pkg a target new names known e =
    let port = a.public_port in
    let p = normalize_protocol a.protocol in
    let idle = normalize_udp_idle_timeout a.udp_idle_timeout_sec in
    let payload = normalize_udp_max_payload a.udp_max_payload in
    let k1 : Result StoreError TunnelRoute =
      stored_whitelist pkg a.ip_whitelist >>= λ stored. ok (new_route a target stored) in
    let (range, e1) =
      fail_if_inv (lt_const port 0 || gt_const port 65535) public_port_range
        (validate_udp_settings p idle payload >> k1) new e in
    let (_, udp, e2) = >>=_inv (validate_udp_settings p idle payload) (λ _. k1) new e1 in
    let (stored, _, e3) =
      >>=_inv (stored_whitelist pkg a.ip_whitelist) (λ stored. ok (new_route a target stored)) new
        e2 in
    let is_new : new_route a target stored ≡ new = ok_inv (new_route a target stored) new e3 in
    subst IsRoute is_new (record {
      named = (ground arith, ground arith);
      protocol_known = validate_protocol_inv p known;
      port_range = (ground arith, ground arith);
      udp_range = validate_udp_settings_inv p idle payload udp;
      runtime_reset = (refl, refl);
      unassigned = refl;
    })

checked_route-IsRoute :
    (pkg : Packages) (a : RouteInput) (new : TunnelRoute)
    → checked_route pkg a ≡ ok new
    → IsRoute new
unfolding checked_route
checked_route-IsRoute pkg a new e =
    let p = normalize_protocol a.protocol in
    let k = normalize_target_addr pkg a.target_addr >>= with_target pkg a in
    let (names, e1) =
      fail_if_inv (is_empty a.client_name || is_empty a.route_name) names_required
        (validate_protocol p >> k) new e in
    let (_, known, e2) = >>=_inv (validate_protocol p) (λ _. k) new e1 in
    let (target, _, e3) =
      >>=_inv (normalize_target_addr pkg a.target_addr) (with_target pkg a) new e2 in
    with_target-IsRoute pkg a target new names known e3

and_then_inv :
    {D : Type 0} (o : D × Outcome) (k : D → D × Outcome) (d' : D)
    → and_then o k ≡ (d', ok tt)
    → (d1 : D) × (o ≡ (d1, ok tt)) × (k d1 ≡ (d', ok tt))
and_then_inv (d1, ok _) k d' e = (d1, refl, e)
and_then_inv (d1, err x) k d' e = absurd (ground arith)

unless_refused_inv :
    {D : Type 0} (d d' : D) (v : Outcome) (o : D × Outcome)
    → unless_refused d v o ≡ (d', ok tt)
    → o ≡ (d', ok tt)
unless_refused_inv d d' (ok _) o e = e
unless_refused_inv d d' (err x) o e = absurd (ground arith)

created_or_inv :
    {D : Type 0} (o : D × Outcome) (d' : D) → created_or o ≡ (d', ok tt) → o ≡ (d', ok tt)
created_or_inv (d, ok _) d' e = e
created_or_inv (d, err x) d' e = absurd (ground arith)

-- A route, with the assigned port of the one that was there, and none if none was.
abbrev pub with_port_of : TunnelRoute → Option TunnelRoute → TunnelRoute
with_port_of new none = record new { assigned_public_port = pos 0 }
with_port_of new (some old) = record new { assigned_public_port = old.assigned_public_port }

module _ {D : Type 0} (db : Db D) (route_of : D → Bytes → Bytes → Option TunnelRoute)
    (laws : IsDb db route_of) where
  -- The row of the names in `d'`, with the assigned port of the row that they had in `d`.
  abbrev pub Stored : TunnelRoute → D → D → Type 0
  Stored new d d' =
      route_of d' new.client_name new.name
      ≡ some (with_port_of new (route_of d new.client_name new.name))

  write_route-Stored :
      (new : TunnelRoute) (d d' : D) (o : Found TunnelRoute)
      → db.first_route d new.client_name new.name ≡ o
      → new.assigned_public_port ≡ pos 0
      → write_route db new d o ≡ (d', ok tt)
      → Stored new d d'
  unfolding write_route
  write_route-Stored new d d' missing at fresh e =
      laws.route_created new d d' (created_or_inv (db.create_route new d) d' e)
      ∙ ap (λ z. some (record new { assigned_public_port = z })) fresh
      ∙ ap (λ o. some (with_port_of new o)) (sym (laws.first_missing d new.client_name new.name at))
  write_route-Stored new d d' (failed x) at fresh e = absurd (ground arith)
  write_route-Stored new d d' (found route) at fresh e =
      let at_route = laws.first_found d new.client_name new.name route at in
      let p = is_route route.client_name route.name in
      let written = unless_refused_inv d d' (check_immutable route new) _ e in
      by_hit at_route (
        laws.updated p (overwrite new) d d' new.client_name new.name route (λ x. (refl, refl))
          written at_route)
    where
      by_hit :
          route_of d new.client_name new.name ≡ some route
          → ((is_route route.client_name route.name route ≡ true)
              × (route_of d' new.client_name new.name ≡ some (overwrite new route)))
            ⊎ ((is_route route.client_name route.name route ≡ false)
                × (route_of d' new.client_name new.name ≡ some route))
          → Stored new d d'
      by_hit at_route (inl (hit, at')) =
          let (same_client, same_name) = laws.keyed d new.client_name new.name route at_route in
          at'
          ∙ ap (λ c. some (record (overwrite new route) { client_name = c })) same_client
          ∙ ap (λ n. some (record (with_port_of new (some route)) { name = n })) same_name
          ∙ ap (λ o. some (with_port_of new o)) (sym at_route)
      by_hit at_route (inr (miss, at')) =
          absurd (ground (arith, same_refl route.client_name, same_refl route.name))

  abbrev ensured : D → TunnelRoute → D × Outcome
  ensured d new =
      db.first_or_create_client
        (record {
          name = new.client_name;
          remote_addr = [];
          engine = [];
          connected = false;
          last_seen_at = none;
        })
        d

  abbrev after_ensured : TunnelRoute → D → D × Outcome
  after_ensured new d1 = write_route db new d1 (db.first_route d1 new.client_name new.name)

  -- A SaveRouteWithOptions that succeeds stores, under its names, the row that the checks make of the
  -- input, with the assigned port of the row that was there before, or 0 if none was; and the
  -- checked row has names, a known protocol, a public port within 0 to 65535, with UDP an idle timeout
  -- within 10 to 3600 and a payload within 256 to 65507, no active or assigned port and no error.
  pub save_route_with_options-Stored :
      (pkg : Packages) (a : RouteInput) (d d' : D)
      → save_route_with_options db pkg a d ≡ (d', ok tt)
      → (new : TunnelRoute) × (checked_route pkg a ≡ ok new) × IsRoute new × Stored new d d'
  unfolding save_route_with_options save_result save_checked
  save_route_with_options-Stored pkg a d d' e = by_input (checked_route pkg a) refl e
    where
      kept :
          (new : TunnelRoute) (d1 : D)
          → ensured d new ≡ (d1, ok tt)
          → route_of d1 new.client_name new.name ≡ route_of d new.client_name new.name
      kept new d1 at =
          ap (λ o. route_of (o.0) new.client_name new.name) (sym at)
          ∙ laws.client_ensured _ d new.client_name new.name

      by_input :
          (o : Result StoreError TunnelRoute)
          → checked_route pkg a ≡ o
          → save_result db d o ≡ (d', ok tt)
          → (new : TunnelRoute) × (checked_route pkg a ≡ ok new) × IsRoute new × Stored new d d'
      by_input (err x) c h = absurd (ground arith)
      by_input (ok new) c h =
          let body = laws.committed (save_checked db new) d d' h in
          let (d1, ensured_at, written) =
            and_then_inv (ensured d new) (after_ensured new) d' body in
          (
            new,
            c,
            checked_route-IsRoute pkg a new c,
            write_route-Stored new d1 d' _ refl ((checked_route-IsRoute pkg a new c).unassigned)
                  written
                ∙ ap (λ o. some (with_port_of new o)) (kept new d1 ensured_at),
          )
