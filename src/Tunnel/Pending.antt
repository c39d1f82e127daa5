-- ===== src/Tunnel/Pending.antt =====
-- internal/tunnel/managed_server.go: the public connections that wait, under an identifier, for
-- the tunnel client to fetch them. A connection is a number; one call is one step. Besides the map
-- of the code the state keeps three lists: the connections accepted, those handed to a relay, and
-- those closed while nobody had fetched them.
pub mod Conservation
use go_proxy_server.Prelude.{
  ℕ, ◌≡◌, Bool, true, false, if◌then◌else◌, leb, List, [], ◌∷◌, ◌++◌, Option, none, some, Bytes,
  bytes_dec, length,
}
use go_proxy_server.Prelude.GoMap.{GoMap, lookup, insert, delete}

-- `managedRouteListener`
pub record RouteListener : Type 0 where
  pub pending : GoMap Bytes ℕ
  pub accepted : List ℕ
  pub handed : List ℕ
  pub closed : List ℕ

-- The connections of a map.
unfoldable pub values : GoMap Bytes ℕ → List ℕ
values [] = []
values ((id, conn) ∷ m) = conn ∷ values m

abbrev pub close_conn : ℕ → RouteListener → RouteListener
close_conn conn r = record r { closed = conn ∷ r.closed }

-- `openPendingConnection` with the identifier made, if one is, and whether the control message is
-- written; on an error `acceptPublicConnections` closes the connection.
unfoldable pub open_pending : ℕ → Option Bytes → Bool → ℕ → RouteListener → RouteListener
open_pending max id write_ok conn r =
    if leb max (length r.pending) then close_conn conn r else elim id [
      | none ↦ close_conn conn r
      | some i ↦
          if write_ok
          then record r { pending = insert bytes_dec i conn r.pending }
          else close_conn conn
              (record r { pending = delete bytes_dec i (insert bytes_dec i conn r.pending) })
    ]

-- What `acceptPublicConnections` does with a connection, `allowed` being `isSourceAllowed`.
unfoldable pub accept : ℕ → Bool → Option Bytes → Bool → ℕ → RouteListener → RouteListener
unfolding open_pending
accept max allowed id write_ok conn r =
    let r' : RouteListener = record r { accepted = conn ∷ r.accepted } in
    if allowed then open_pending max id write_ok conn r' else close_conn conn r'

-- `takePending`, whose connection goes to the relay.
unfoldable pub take_pending : Bytes → RouteListener → RouteListener × Option ℕ
take_pending id r = elim (lookup bytes_dec id r.pending) [
  | none ↦ (record r { pending = delete bytes_dec id r.pending }, none)
  | some conn ↦
      (record r { pending = delete bytes_dec id r.pending; handed = conn ∷ r.handed }, some conn)
]

-- `expirePendingConnection` when its timer fires.
unfoldable pub expire : Bytes → RouteListener → RouteListener
expire id r = elim (lookup bytes_dec id r.pending) [
  | none ↦ r
  | some conn ↦ close_conn conn (record r { pending = delete bytes_dec id r.pending })
]

-- `close`
unfoldable pub close_all : RouteListener → RouteListener
close_all r = record r { pending = []; closed = values r.pending ++ r.closed }

-- What can happen to a listener, in any order. The identifiers, 16 random bytes, do not collide
-- with one that is in use.
pub data Step (max : ℕ) (r : RouteListener) : RouteListener → Type 0 where
  accepts :
      (allowed write_ok : Bool) (id : Bytes) (conn : ℕ)
      → lookup bytes_dec id r.pending ≡ none
      → Step max r (accept max allowed (some id) write_ok conn r)
  accepts_without_id :
      (allowed write_ok : Bool) (conn : ℕ) → Step max r (accept max allowed none write_ok conn r)
  takes : (id : Bytes) → Step max r (take_pending id r).0
  expires : (id : Bytes) → Step max r (expire id r)
  closes : Step max r (close_all r)

abbrev pub start : RouteListener
start = record { pending = []; accepted = []; handed = []; closed = [] }

pub data Reachable (max : ℕ) : RouteListener → Type 0 where
  begin : Reachable max start
  next : {r r' : RouteListener} → Reachable max r → Step max r r' → Reachable max r'
