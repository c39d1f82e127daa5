-- ===== src/Tunnel/Store/Pinned.antt =====
-- internal/tunnel/managed_store.go: what becomes of a route that has an assigned public port.
use go_proxy_server.Prelude.{
  ◌≡◌, refl, ap, sym, subst, ◌∙◌, inl, inr, Bool, true, false, ◌&&◌, Option, some, some-injective,
  Bytes, ok, err, ℤ, pos, negsuc, gt_const, arith,
}
use go_proxy_server.Prelude.Strings.{same}
use go_proxy_server.Tunnel.Store.{TunnelRoute, Outcome, int_eq}
use go_proxy_server.Tunnel.Store.Database.{found, Db, IsDb, KeepsKey, Same}
use go_proxy_server.Tunnel.Store.Operations

abbrev pub IsAssigned : TunnelRoute → Type 0
IsAssigned r = gt_const r.assigned_public_port 0 ≡ true

-- The assigned port with what it was assigned for.
abbrev pub SamePort : TunnelRoute → TunnelRoute → Type 0
SamePort r r' =
    (r'.assigned_public_port ≡ r.assigned_public_port)
    × (r'.public_port ≡ r.public_port)
    × (r'.protocol ≡ r.protocol)

pub SamePort-trans : (r s t : TunnelRoute) → SamePort r s → SamePort s t → SamePort r t
SamePort-trans r s t (a, b, c) (a', b', c') = (a' ∙ a, b' ∙ b, c' ∙ c)

int_eq_inv : (a b : ℤ) → int_eq a b ≡ true → a ≡ b
unfolding int_eq
int_eq_inv (pos a) (pos b) e = ap pos (ground arith)
int_eq_inv (negsuc a) (negsuc b) e = ap negsuc (ground arith)
int_eq_inv (pos a) (negsuc b) e = absurd (ground arith)
int_eq_inv (negsuc a) (pos b) e = absurd (ground arith)

same_inv : (s t : Bytes) → same s t ≡ true → s ≡ t
unfolding same
same_inv s t e = ground arith

pub same_refl : (s : Bytes) → same s s ≡ true
unfolding same
same_refl s = ground arith

pub same_comm : (s t : Bytes) → same s t ≡ same t s
unfolding same
same_comm s t = ground arith

is_route_inv :
    (c n : Bytes) (r : TunnelRoute)
    → Operations.is_route c n r ≡ true
    → (r.client_name ≡ c) × (r.name ≡ n)
is_route_inv c n r e = (same_inv r.client_name c (ground arith), same_inv r.name n (ground arith))

pub check_immutable_inv :
    (route new : TunnelRoute)
    → Operations.check_immutable route new ≡ ok tt
    → IsAssigned route
    → SamePort route (Operations.overwrite new route)
unfolding Operations.check_immutable
check_immutable_inv route new e a = (
  refl,
  sym (int_eq_inv route.public_port new.public_port (ground arith)),
  sym (same_inv route.protocol new.protocol (ground arith)),
)

-- A route with an assigned port is not given one again.
pub set_runtime-SamePort :
    (route : TunnelRoute) (active : ℤ) (last : Bytes)
    → IsAssigned route
    → SamePort route (
        Operations.set_runtime
          (gt_const active 0 && int_eq route.assigned_public_port (pos 0))
          active
          last
          route)
unfolding int_eq
set_runtime-SamePort route active last a =
    by_first (gt_const active 0 && int_eq route.assigned_public_port (pos 0))
      (assigned_lem route.assigned_public_port a)
  where
    assigned_lem : (z : ℤ) → gt_const z 0 ≡ true → (gt_const active 0 && int_eq z (pos 0)) ≡ false
    assigned_lem z h = ground arith

    by_first : (b : Bool) → b ≡ false → SamePort route (Operations.set_runtime b active last route)
    by_first true e = absurd (ground arith)
    by_first false e = (refl, refl, refl)

pub set_runtime-KeepsKey :
    (first : Bool) (active : ℤ) (last : Bytes) → KeepsKey (Operations.set_runtime first active last)
set_runtime-KeepsKey true active last x = (refl, refl)
set_runtime-KeepsKey false active last x = (refl, refl)

module _ {D : Type 0} (db : Db D) (route_of : D → Bytes → Bytes → Option TunnelRoute)
    (laws : IsDb db route_of) where
  -- The route is there, with the port it had.
  abbrev pub Keeps : TunnelRoute → D → Bytes → Bytes → Type 0
  Keeps r d c n = (r' : TunnelRoute) × (route_of d c n ≡ some r') × SamePort r r'

  module _ (r : TunnelRoute) (c n : Bytes) (assigned : IsAssigned r) where
    -- The step keeps the route.
    abbrev pub Pins : D → D → Type 0
    Pins d d' = Keeps r d c n → Keeps r d' c n

    pub Same-Pins : (d d' : D) → Same route_of d d' → Pins d d'
    Same-Pins d d' same_routes (r', at, port) = (r', same_routes c n ∙ at, port)

    pub transaction-Pins :
        (f : D → D × Outcome) (d : D) → Pins d ((f d).0) → Pins d ((db.transaction f d).0)
    transaction-Pins f d h = by_end (db.transaction f d) refl
      where
        by_end : (o : D × Outcome) → db.transaction f d ≡ o → Pins d (o.0)
        by_end (d', ok _) e = subst (Pins d) (ap (λ o. o.0) (laws.committed f d d' e)) h
        by_end (d', err x) e = Same-Pins d d' (laws.rolled_back f d d' x e)

    update_ok :
        (p : TunnelRoute → Bool) (f : TunnelRoute → TunnelRoute) (d d' : D)
        → KeepsKey f
        → ((x : TunnelRoute)
            → route_of d c n ≡ some x
            → p x ≡ true
            → SamePort r x
            → SamePort x (f x))
        → db.update_routes p f d ≡ (d', ok tt)
        → Pins d d'
    update_ok p f d d' key h e (x, at, port) = elim (laws.updated p f d d' c n x key e at) [
      | inl (hit, at') ↦ (f x, at', SamePort-trans r x (f x) port (h x at hit port))
      | inr (miss, at') ↦ (x, at', port)
    ]

    pub update-Pins :
        (p : TunnelRoute → Bool) (f : TunnelRoute → TunnelRoute) (d : D)
        → KeepsKey f
        → ((x : TunnelRoute)
            → route_of d c n ≡ some x
            → p x ≡ true
            → SamePort r x
            → SamePort x (f x))
        → Pins d ((db.update_routes p f d).0)
    update-Pins p f d key h = by_end (db.update_routes p f d) refl
      where
        by_end : (o : D × Outcome) → db.update_routes p f d ≡ o → Pins d (o.0)
        by_end (d', ok _) e = update_ok p f d d' key h e
        by_end (d', err x) e = Same-Pins d d' (laws.not_updated p f d d' x e)

    one_route :
        (d : D) (c1 n1 : Bytes) (route x : TunnelRoute)
        → route_of d c1 n1 ≡ some route
        → c1 ≡ c
        → n1 ≡ n
        → route_of d c n ≡ some x
        → x ≡ route
    one_route d c1 n1 route x at1 ec en at =
        some-injective x route
          (sym at ∙ ap (λ y. route_of d y n) (sym ec) ∙ ap (route_of d c1) (sym en) ∙ at1)

    -- The update of the one route that has been read.
    pub update_found :
        (c1 n1 : Bytes) (route : TunnelRoute) (f : TunnelRoute → TunnelRoute) (d : D)
        → KeepsKey f
        → db.first_route d c1 n1 ≡ found route
        → (IsAssigned route → SamePort route (f route))
        → Pins d ((db.update_routes (Operations.is_route route.client_name route.name) f d).0)
    update_found c1 n1 route f d key at1 h =
        update-Pins (Operations.is_route route.client_name route.name) f d key same_route
      where
        same_route :
            (x : TunnelRoute)
            → route_of d c n ≡ some x
            → Operations.is_route route.client_name route.name x ≡ true
            → SamePort r x
            → SamePort x (f x)
        same_route x at hit port =
            let (kc, kn) = laws.keyed d c n x at in
            let at_route = laws.first_found d c1 n1 route at1 in
            let (kc1, kn1) = laws.keyed d c1 n1 route at_route in
            let (hc, hn) = is_route_inv route.client_name route.name x hit in
            let x_is : x ≡ route =
              one_route d c1 n1 route x at_route (sym kc1 ∙ sym hc ∙ kc) (sym kn1 ∙ sym hn ∙ kn)
                at in
            let a : IsAssigned route =
              ap (λ z. gt_const z 0) (sym (ap (λ y. y.assigned_public_port) x_is) ∙ port.0)
              ∙ assigned in
            subst (λ y. SamePort y (f y)) (sym x_is) (h a)
