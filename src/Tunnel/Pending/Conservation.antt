-- ===== src/Tunnel/Pending/Conservation.antt =====
-- internal/tunnel/managed_server.go: where the public connections of a route are.
use go_proxy_server.Prelude.{
  ℕ, ◌+◌, ◌<◌, ◌≤◌, ◌≡◌, refl, sym, ap, ◌∙◌, inl, inr, Bool, true, false, if◌then◌else◌, leb, List,
  [], ◌∷◌, ◌++◌, none, some, Bytes, bytes_dec, length, ite, ℕ_discrete, arith, Option-cases,
}
use go_proxy_server.Prelude.GoMap.{
  GoMap, lookup, insert, delete, lookup-insert, lookup-delete, length-delete-le, length-insert-le,
}
use go_proxy_server.Prelude.Counting.{count}
use go_proxy_server.Tunnel.Pending.{
  RouteListener, values, close_conn, open_pending, accept, take_pending, expire, close_all, Step,
  accepts, accepts_without_id, takes, expires, closes, Reachable, begin, next,
}

abbrev pub DistinctKeys : GoMap Bytes ℕ → Type 0
DistinctKeys [] = Unit {0}
DistinctKeys ((k, v) ∷ m) = (lookup bytes_dec k m ≡ none) × DistinctKeys m

-- How often a connection is in a list.
abbrev pub times : ℕ → List ℕ → ℕ
times c l = count ℕ_discrete c l

ite-DistinctKeys :
    {P : Type 0} (d : Dec P) (x y : GoMap Bytes ℕ)
    → (P → DistinctKeys x)
    → (¬ P → DistinctKeys y)
    → DistinctKeys (ite d x y)
ite-DistinctKeys (yes p) x y f g = f p
ite-DistinctKeys (no n) x y f g = g n

insert-DistinctKeys :
    (k : Bytes) (v : ℕ) (m : GoMap Bytes ℕ) → DistinctKeys m → DistinctKeys (insert bytes_dec k v m)
unfolding insert
insert-DistinctKeys k v [] d = (unfold lookup in refl, tt)
insert-DistinctKeys k v ((j, w) ∷ m) (new, d) =
    ite-DistinctKeys (bytes_dec j k) ((k, v) ∷ m) ((j, w) ∷ insert bytes_dec k v m)
      (λ p. (ap (λ x. lookup bytes_dec x m) (sym p) ∙ new, d))
      (λ n. (ground (arith, lookup-insert bytes_dec k j v m), insert-DistinctKeys k v m d))

delete-DistinctKeys :
    (k : Bytes) (m : GoMap Bytes ℕ) → DistinctKeys m → DistinctKeys (delete bytes_dec k m)
unfolding delete
delete-DistinctKeys k [] d = tt
delete-DistinctKeys k ((j, w) ∷ m) (new, d) =
    ite-DistinctKeys (bytes_dec j k) (delete bytes_dec k m) ((j, w) ∷ delete bytes_dec k m)
      (λ p. delete-DistinctKeys k m d)
      (λ n. (ground (arith, lookup-delete bytes_dec k j m), delete-DistinctKeys k m d))

times-insert :
    (c : ℕ) (k : Bytes) (v : ℕ) (m : GoMap Bytes ℕ)
    → lookup bytes_dec k m ≡ none
    → times c (values (insert bytes_dec k v m)) ≡ times c (v ∷ values m)
unfolding insert lookup values count
times-insert c k v [] h = refl
times-insert c k v ((j, w) ∷ m) h = ground (arith, times-insert c k v m)

delete_missing :
    (k : Bytes) (m : GoMap Bytes ℕ) → lookup bytes_dec k m ≡ none → delete bytes_dec k m ≡ m
unfolding delete lookup
delete_missing k [] h = refl
delete_missing k ((j, w) ∷ m) h = ground (arith, delete_missing k m)

times-delete :
    (c : ℕ) (k : Bytes) (v : ℕ) (m : GoMap Bytes ℕ)
    → DistinctKeys m
    → lookup bytes_dec k m ≡ some v
    → times c (v ∷ values (delete bytes_dec k m)) ≡ times c (values m)
unfolding delete lookup values count
times-delete c k v [] d h = ground arith
times-delete c k v ((j, w) ∷ m) (new, d) h = elim (bytes_dec j k) [
  | yes p ↦
      let gone = delete_missing k m (ap (λ x. lookup bytes_dec x m) (sym p) ∙ new) in ground arith
  | no n ↦ ground (arith, times-delete c k v m d)
]

times-append : (c : ℕ) (xs ys : List ℕ) → times c (xs ++ ys) ≡ times c xs + times c ys
unfolding count
times-append c [] ys = omega arith
times-append c (x ∷ xs) ys = ground (arith, times-append c xs ys)

-- Every connection accepted is in exactly one place: it waits, or it has been handed to a relay, or
-- it has been closed; and no more connections wait than the limit allows.
pub record Conserved (max : ℕ) (r : RouteListener) : Type 0 where
  pub distinct : DistinctKeys r.pending
  pub within : length r.pending ≤ max
  pub places :
      (c : ℕ)
      → times c (values r.pending) + times c r.handed + times c r.closed ≡ times c r.accepted

times-cons : (c v : ℕ) (l : List ℕ) → times c (v ∷ l) ≡ times c l + ite (ℕ_discrete v c) 1 0
unfolding count
times-cons c v l = ground arith

-- A connection is accepted and closed.
refuse-Conserved :
    (max conn : ℕ) (r : RouteListener)
    → Conserved max r
    → Conserved max (close_conn conn (record r { accepted = conn ∷ r.accepted }))
refuse-Conserved max conn r v = record {
  distinct = v.distinct;
  within = v.within;
  places =
      λ c. ground (arith, v.places c, times-cons c conn r.closed, times-cons c conn r.accepted);
}

wait-Conserved :
    (max : ℕ) (id : Bytes) (conn : ℕ) (r : RouteListener)
    → lookup bytes_dec id r.pending ≡ none
    → length r.pending < max
    → Conserved max r
    → Conserved max
        (record r { accepted = conn ∷ r.accepted; pending = insert bytes_dec id conn r.pending })
wait-Conserved max id conn r h room v = record {
  distinct = insert-DistinctKeys id conn r.pending v.distinct;
  within = omega (arith, length-insert-le bytes_dec id conn r.pending);
  places = λ c. ground (
    arith,
    v.places c,
    times-insert c id conn r.pending h,
    times-cons c conn (values r.pending),
    times-cons c conn r.accepted,
  );
}

-- A connection that waits is fetched or closed.
leave_places :
    (c conn : ℕ) (id : Bytes) (r : RouteListener)
    → DistinctKeys r.pending
    → lookup bytes_dec id r.pending ≡ some conn
    → times c (values (delete bytes_dec id r.pending)) + ite (ℕ_discrete conn c) 1 0
      ≡ times c (values r.pending)
leave_places c conn id r d h = ground (
  arith,
  times-delete c id conn r.pending d h,
  times-cons c conn (values (delete bytes_dec id r.pending)),
)

take_pending-Conserved :
    (max : ℕ) (id : Bytes) (r : RouteListener)
    → Conserved max r
    → Conserved max (take_pending id r).0
unfolding take_pending
take_pending-Conserved max id r v = elim (Option-cases (lookup bytes_dec id r.pending)) [
  | inl miss ↦
      rw (miss, take_pending)
        (record {
          distinct = delete-DistinctKeys id r.pending v.distinct;
          within = omega (arith, v.within, length-delete-le bytes_dec id r.pending);
          places = λ c. rw (delete_missing id r.pending miss) (v.places c);
        })
  | inr (conn, h) ↦
      rw (h, take_pending)
        (record {
          distinct = delete-DistinctKeys id r.pending v.distinct;
          within = omega (arith, v.within, length-delete-le bytes_dec id r.pending);
          places = λ c. ground (
            arith,
            v.places c,
            leave_places c conn id r v.distinct h,
            times-cons c conn r.handed,
          );
        })
]

expire-Conserved :
    (max : ℕ) (id : Bytes) (r : RouteListener) → Conserved max r → Conserved max (expire id r)
unfolding expire
expire-Conserved max id r v = elim (Option-cases (lookup bytes_dec id r.pending)) [
  | inl miss ↦ rw (miss, expire) v
  | inr (conn, h) ↦
      rw (h, expire)
        (record {
          distinct = delete-DistinctKeys id r.pending v.distinct;
          within = omega (arith, v.within, length-delete-le bytes_dec id r.pending);
          places = λ c. ground (
            arith,
            v.places c,
            leave_places c conn id r v.distinct h,
            times-cons c conn r.closed,
          );
        })
]

close_all-Conserved : (max : ℕ) (r : RouteListener) → Conserved max r → Conserved max (close_all r)
unfolding close_all values count
close_all-Conserved max r v = record {
  distinct = tt;
  within = omega arith;
  places = λ c. omega (arith, v.places c, times-append c (values r.pending) r.closed);
}

delete-insert :
    (k : Bytes) (v : ℕ) (m : GoMap Bytes ℕ)
    → lookup bytes_dec k m ≡ none
    → delete bytes_dec k (insert bytes_dec k v m) ≡ m
unfolding delete insert lookup
delete-insert k v [] h = ground arith
delete-insert k v ((j, w) ∷ m) h = ground (arith, delete-insert k v m)

ite-Conserved :
    (max : ℕ) (b : Bool) (x y : RouteListener)
    → (b ≡ true → Conserved max x)
    → (b ≡ false → Conserved max y)
    → Conserved max (if b then x else y)
ite-Conserved max true x y f g = f refl
ite-Conserved max false x y f g = g refl

accept-Conserved :
    (max : ℕ) (allowed write_ok : Bool) (id : Bytes) (conn : ℕ) (r : RouteListener)
    → lookup bytes_dec id r.pending ≡ none
    → Conserved max r
    → Conserved max (accept max allowed (some id) write_ok conn r)
unfolding accept open_pending
accept-Conserved max allowed write_ok id conn r h v =
    let refused = refuse-Conserved max conn r v in
    ite-Conserved max allowed _ _
      (λ _.
        ite-Conserved max (leb max (length r.pending)) _ _ (λ _. refused)
          (λ room.
            ite-Conserved max write_ok _ _ (λ _. wait-Conserved max id conn r h (ground arith) v)
              (λ _. rw (delete-insert id conn r.pending h) refused)))
      (λ _. refused)

accept_without_id-Conserved :
    (max : ℕ) (allowed write_ok : Bool) (conn : ℕ) (r : RouteListener)
    → Conserved max r
    → Conserved max (accept max allowed none write_ok conn r)
unfolding accept open_pending
accept_without_id-Conserved max allowed write_ok conn r v =
    let refused = refuse-Conserved max conn r v in
    ite-Conserved max allowed _ _
      (λ _. ite-Conserved max (leb max (length r.pending)) _ _ (λ _. refused) (λ _. refused))
      (λ _. refused)

Step-Conserved :
    (max : ℕ) (r r' : RouteListener) → Step max r r' → Conserved max r → Conserved max r'
Step-Conserved max r _ (accepts allowed write_ok id conn h) v =
    accept-Conserved max allowed write_ok id conn r h v
Step-Conserved max r _ (accepts_without_id allowed write_ok conn) v =
    accept_without_id-Conserved max allowed write_ok conn r v
Step-Conserved max r _ (takes id) v = take_pending-Conserved max id r v
Step-Conserved max r _ (expires id) v = expire-Conserved max id r v
Step-Conserved max r _ closes v = close_all-Conserved max r v

-- In every order of accepting, fetching, expiring and closing, each connection accepted is in
-- exactly one place, waiting, handed to a relay or closed, and no more wait than the limit allows.
pub Reachable-Conserved : (max : ℕ) (r : RouteListener) → Reachable max r → Conserved max r
unfolding values count
Reachable-Conserved max _ begin = record {
  distinct = tt;
  within = omega arith;
  places = λ c. omega arith;
}
Reachable-Conserved max r' (next {r} q s) = Step-Conserved max r r' s (Reachable-Conserved max r q)
