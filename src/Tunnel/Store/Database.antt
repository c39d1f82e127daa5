-- ===== src/Tunnel/Store/Database.antt =====
-- internal/tunnel/managed_store.go: what the store asks of the database, through GORM. A state of the
-- database is of any type `D`; `route_of` reads a route by its unique key.
use go_proxy_server.Prelude.{◌≡◌, ◌≢◌, ◌⊎◌, Bool, true, false, Option, none, some, Bytes, ok, err}
use go_proxy_server.Tunnel.Store.{TunnelRoute, TunnelClient, StoreError, Outcome}

-- `First`: the row, `gorm.ErrRecordNotFound`, or another error.
pub data Found (A : Type 0) : Type 0 where
  found : A → Found A
  missing : Found A
  failed : StoreError → Found A

-- A call with `Where` has the condition as a test, `Updates` the change as a function.
pub record Db (D : Type 0) : Type 0 where
  pub transaction : (D → D × Outcome) → D → D × Outcome
  pub first_client : D → Bytes → Found TunnelClient
  pub update_clients : (TunnelClient → Bool) → (TunnelClient → TunnelClient) → D → D × Outcome
  pub create_client : TunnelClient → D → D × Outcome
  pub first_or_create_client : TunnelClient → D → D × Outcome
  pub delete_client : Bytes → D → D × Outcome
  pub first_route : D → Bytes → Bytes → Found TunnelRoute
  pub update_routes : (TunnelRoute → Bool) → (TunnelRoute → TunnelRoute) → D → D × Outcome
  pub create_route : TunnelRoute → D → D × Outcome
  pub delete_routes : (TunnelRoute → Bool) → D → D × Outcome

-- The routes that another state has as well, or that it has changed by a function.
abbrev pub Same : {D : Type 0} → (D → Bytes → Bytes → Option TunnelRoute) → D → D → Type 0
Same route_of d d' = (c n : Bytes) → route_of d' c n ≡ route_of d c n

-- A change that leaves the key of a row as it is.
abbrev pub KeepsKey : (TunnelRoute → TunnelRoute) → Type 0
KeepsKey f = (x : TunnelRoute) → ((f x).client_name ≡ x.client_name) × ((f x).name ≡ x.name)

-- What the database documents, of the routes.
pub record IsDb {D : Type 0} (db : Db D) (route_of : D → Bytes → Bytes → Option TunnelRoute)
    : Type 0 where
  -- A transaction leaves what its body has made, or nothing.
  pub committed :
      (f : D → D × Outcome) (d d' : D) → db.transaction f d ≡ (d', ok tt) → f d ≡ (d', ok tt)
  pub rolled_back :
      (f : D → D × Outcome) (d d' : D) (e : StoreError)
      → db.transaction f d ≡ (d', err e)
      → Same route_of d d'
  -- The table of the clients is another one; the deletion of a client may take its routes with it.
  pub clients_updated :
      (p : TunnelClient → Bool) (f : TunnelClient → TunnelClient) (d : D)
      → Same route_of d ((db.update_clients p f d).0)
  pub client_created : (c : TunnelClient) (d : D) → Same route_of d ((db.create_client c d).0)
  pub client_ensured :
      (c : TunnelClient) (d : D) → Same route_of d ((db.first_or_create_client c d).0)
  pub client_deleted :
      (name : Bytes) (d : D) (c n : Bytes)
      → c ≢ name
      → route_of ((db.delete_client name d).0) c n ≡ route_of d c n
  pub client_named :
      (d : D) (name : Bytes) (c : TunnelClient) → db.first_client d name ≡ found c → c.name ≡ name
  -- The routes.
  pub keyed :
      (d : D) (c n : Bytes) (r : TunnelRoute)
      → route_of d c n ≡ some r
      → (r.client_name ≡ c) × (r.name ≡ n)
  pub first_found :
      (d : D) (c n : Bytes) (r : TunnelRoute)
      → db.first_route d c n ≡ found r
      → route_of d c n ≡ some r
  pub first_missing : (d : D) (c n : Bytes) → db.first_route d c n ≡ missing → route_of d c n ≡ none
  pub updated :
      (p : TunnelRoute → Bool) (f : TunnelRoute → TunnelRoute) (d d' : D) (c n : Bytes)
      (r : TunnelRoute)
      → KeepsKey f
      → db.update_routes p f d ≡ (d', ok tt)
      → route_of d c n ≡ some r
      → ((p r ≡ true) × (route_of d' c n ≡ some (f r)))
        ⊎ ((p r ≡ false) × (route_of d' c n ≡ some r))
  pub not_updated :
      (p : TunnelRoute → Bool) (f : TunnelRoute → TunnelRoute) (d d' : D) (e : StoreError)
      → db.update_routes p f d ≡ (d', err e)
      → Same route_of d d'
  pub created :
      (r : TunnelRoute) (d : D) (c n : Bytes) (old : TunnelRoute)
      → route_of d c n ≡ some old
      → route_of ((db.create_route r d).0) c n ≡ some old
  pub route_created :
      (r : TunnelRoute) (d d' : D)
      → db.create_route r d ≡ (d', ok tt)
      → route_of d' r.client_name r.name ≡ some r
  pub deleted :
      (p : TunnelRoute → Bool) (d : D) (c n : Bytes) (r : TunnelRoute)
      → route_of d c n ≡ some r
      → p r ≡ false
      → route_of ((db.delete_routes p d).0) c n ≡ some r
