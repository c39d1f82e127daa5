-- ===== src/Tests/Pending.antt =====
-- internal/tunnel/managed_server.go: a public connection that waits and is fetched.
use go_proxy_server.Prelude.{◌≡◌, refl, true, none, some, bytes_dec, codes}
use go_proxy_server.Prelude.GoMap.{lookup}
use go_proxy_server.Tunnel.Pending.{
  RouteListener, accept, take_pending, accepts, takes, start, Reachable, begin, next,
}
use go_proxy_server.Tunnel.Pending.Conservation.{Conserved, Reachable-Conserved}

abbrev waiting : RouteListener
waiting = accept 128 true (some (codes "id")) true 7 start

abbrev fetched : RouteListener
fetched = (take_pending (codes "id") waiting).0

unused : lookup bytes_dec (codes "id") start.pending ≡ none
unfolding lookup
unused = refl

waiting-Reachable : Reachable 128 waiting
waiting-Reachable = next begin (accepts true true (codes "id") 7 unused)

fetched-Reachable : Reachable 128 fetched
fetched-Reachable = next waiting-Reachable (takes (codes "id"))

Reachable-Conserved_example : Conserved 128 fetched
Reachable-Conserved_example = Reachable-Conserved 128 fetched fetched-Reachable
