-- ===== src/Tunnel/Routes/Stale.antt =====
-- internal/tunnel/managed_server.go: the listeners that the first loop of `applyRoutes` leaves.
use go_proxy_server.Prelude.{
  ◌≡◌, ◌≢◌, refl, ap, sym, subst, ◌∙◌, ◌⊎◌, inl, inr, Bool, true, false, List, [], ◌∷◌, Option,
  none, some, some-injective, Bytes, bytes_dec, All, if_pos, if_neg, arith,
}
use go_proxy_server.Prelude.GoMap.{GoMap, lookup, insert, delete, lookup-insert, lookup-delete}
use go_proxy_server.Tunnel.Routes.{
  ManagedRoute, RouteListener, Listeners, Surroundings, Progress, desired_of, is_on, stays,
  keep_or_drop, remove_stale,
}

-- The routes have different names.
abbrev pub DistinctNames : List ManagedRoute → Type 0
DistinctNames [] = Unit {0}
DistinctNames (r ∷ routes) = All (λ x. x.name ≢ r.name) routes × DistinctNames routes

desired_of-others :
    (routes : List ManagedRoute) (desired : GoMap Bytes ManagedRoute) (name : Bytes)
    → All (λ x. x.name ≢ name) routes
    → lookup bytes_dec name (desired_of routes desired) ≡ lookup bytes_dec name desired
unfolding desired_of
desired_of-others [] desired name h = refl
desired_of-others (r ∷ routes) desired name h =
    desired_of-others routes (insert bytes_dec r.name r desired) name h.1
    ∙ lookup-insert bytes_dec r.name name r desired
    ∙ if_neg (bytes_dec r.name name) (h.0) (some r) (lookup bytes_dec name desired)

pub desired_of-has :
    (routes : List ManagedRoute) (desired : GoMap Bytes ManagedRoute)
    → DistinctNames routes
    → All (λ r. lookup bytes_dec r.name (desired_of routes desired) ≡ some r) routes
unfolding desired_of
desired_of-has [] desired h = tt
desired_of-has (r ∷ routes) desired h = (
  desired_of-others routes (insert bytes_dec r.name r desired) r.name h.0
      ∙ lookup-insert bytes_dec r.name r.name r desired
      ∙ if_pos (bytes_dec r.name r.name) refl (some r) (lookup bytes_dec r.name desired),
  desired_of-has routes (insert bytes_dec r.name r desired) h.1,
)

keep_or_drop_inv :
    (closed keep : Bool) (listeners : Listeners) (name : Bytes) (l : RouteListener)
    (kept dropped : Progress)
    → (keep_or_drop closed keep listeners name l kept dropped).returned ≡ false
    → let o = keep_or_drop closed keep listeners name l kept dropped in
      ((keep ≡ true) × (o.listeners ≡ kept.listeners) × (kept.returned ≡ false))
      ⊎ ((keep ≡ false) × (o.listeners ≡ dropped.listeners) × (dropped.returned ≡ false))
keep_or_drop_inv true keep listeners name l kept dropped e = absurd (ground arith)
keep_or_drop_inv false true listeners name l kept dropped e = inl (refl, refl, e)
keep_or_drop_inv false false listeners name l kept dropped e = inr (refl, refl, e)

still_there :
    (n name : Bytes) (listeners : Listeners) (l : RouteListener)
    → lookup bytes_dec name (delete bytes_dec n listeners) ≡ some l
    → (n ≢ name) × (lookup bytes_dec name listeners ≡ some l)
still_there n name listeners l e = elim (bytes_dec n name) [
  | yes p ↦ absurd (ground (arith, lookup-delete bytes_dec n name listeners))
  | no q ↦ (q, ground (arith, lookup-delete bytes_dec n name listeners))
]

-- A property of the listener found under a name, of the first one and of the others.
by_name :
    (P : RouteListener → Type 0) (n name : Bytes) (y : RouteListener) (current : Listeners)
    → (n ≡ name → P y)
    → ((x : RouteListener) → lookup bytes_dec name current ≡ some x → P x)
    → (x : RouteListener) → lookup bytes_dec name ((n, y) ∷ current) ≡ some x
    → P x
unfolding lookup
by_name P n name y current first others x e = elim (bytes_dec n name) [
  | yes p ↦ subst P (some-injective y x (ground arith)) (first p)
  | no q ↦ others x (ground arith)
]

module _ (w : Surroundings) (desired : GoMap Bytes ManagedRoute) where
  -- Every listener is that of a desired route that may be exposed, on the port that the route asks
  -- for.
  abbrev pub Exposed : Listeners → Type 0
  Exposed listeners =
      (name : Bytes) (l : RouteListener)
      → lookup bytes_dec name listeners ≡ some l
      → (r : ManagedRoute) × (lookup bytes_dec name desired ≡ some r)
        × (is_on r ≡ true)
        × (r.public_port ≡ l.route.public_port)

  stays_inv :
      (o : Option ManagedRoute) (l : RouteListener)
      → stays o l ≡ true
      → (r : ManagedRoute) × (o ≡ some r) × (is_on r ≡ true) × (r.public_port ≡ l.route.public_port)
  stays_inv none l e = absurd (ground arith)
  stays_inv (some r) l e = (r, refl, ground arith, ground arith)

  Left : Listeners → Listeners → Type 0
  Left current listeners =
      (name : Bytes) (l : RouteListener)
      → lookup bytes_dec name ((remove_stale w desired current listeners).listeners) ≡ some l
      → (lookup bytes_dec name listeners ≡ some l)
        × ((x : RouteListener)
            → lookup bytes_dec name current ≡ some x
            → stays (lookup bytes_dec name desired) x ≡ true)

  -- The loop only takes listeners away, and what it leaves stays.
  remove_stale-Left :
      (current listeners : Listeners)
      → (remove_stale w desired current listeners).returned ≡ false
      → Left current listeners
  unfolding remove_stale lookup Left
  remove_stale-Left [] listeners e name l h = (h, λ x f. absurd (ground arith))
  remove_stale-Left ((n, y) ∷ current) listeners e name l h =
      elim (keep_or_drop_inv (w.closed_before_removal n) (stays (lookup bytes_dec n desired) y)
        listeners n y (remove_stale w desired current listeners)
        (remove_stale w desired current (delete bytes_dec n listeners)) e) [
          | inl (keep, same_map, going) ↦
              let (there, others) =
                remove_stale-Left current listeners going name l
                  (ap (lookup bytes_dec name) (sym same_map) ∙ h) in
              (
                there,
                by_name (λ x. stays (lookup bytes_dec name desired) x ≡ true) n name y current
                    (λ p. ap (λ m. stays (lookup bytes_dec m desired) y) (sym p) ∙ keep) others,
              )
          | inr (drop, same_map, going) ↦
              let (there, others) =
                remove_stale-Left current (delete bytes_dec n listeners) going name l
                  (ap (lookup bytes_dec name) (sym same_map) ∙ h) in
              let (other, before) = still_there n name listeners l there in
              (
                before,
                by_name (λ x. stays (lookup bytes_dec name desired) x ≡ true) n name y current
                    (λ p. absurd (other p)) others,
              )
        ]

  pub remove_stale-Exposed :
      (listeners : Listeners)
      → (remove_stale w desired listeners listeners).returned ≡ false
      → Exposed ((remove_stale w desired listeners listeners).listeners)
  unfolding Left
  remove_stale-Exposed listeners e name l h =
      let (there, stayed) = remove_stale-Left listeners listeners e name l h in
      stays_inv (lookup bytes_dec name desired) l (stayed l there)
