-- ===== src/Tests/Routes.antt =====
-- A database of routes for the tests: the list of its rows, with no table of clients.
use go_proxy_server.Prelude.{
  ◌≡◌, refl, ap, sym, subst, ◌∙◌, ◌⊎◌, inl, inr, Bool, true, false, Bool-cases, ◌&&◌, if◌then◌else◌,
  List, [], ◌∷◌, ◌++◌, Option, none, some, some-injective, Bytes, ok, err, arith,
}
use go_proxy_server.Prelude.Strings.{same}
use go_proxy_server.Tunnel.Store.{TunnelRoute, StoreError, Outcome, unique_failed}
use go_proxy_server.Tunnel.Store.Database.{Found, found, missing, Db, IsDb, KeepsKey}
use go_proxy_server.Tunnel.Store.Operations.{is_route}

abbrev pub Rows : Type 0
Rows = List TunnelRoute

unfoldable pub route_of : Rows → Bytes → Bytes → Option TunnelRoute
route_of [] c n = none
route_of (r ∷ rs) c n = let rest = route_of rs c n in if is_route c n r then some r else rest

abbrev pub answer_of : Option TunnelRoute → Found TunnelRoute
answer_of none = missing
answer_of (some r) = found r

unfoldable pub update : (TunnelRoute → Bool) → (TunnelRoute → TunnelRoute) → Rows → Rows
update p f [] = []
update p f (r ∷ rs) = (if p r then f r else r) ∷ update p f rs

unfoldable pub remove : (TunnelRoute → Bool) → Rows → Rows
remove p [] = []
remove p (r ∷ rs) = let rest = remove p rs in if p r then rest else r ∷ rest

abbrev pub add : TunnelRoute → Rows → Option TunnelRoute → Rows × Outcome
add r d none = (d ++ (r ∷ []), ok tt)
add r d (some _) = (d, err unique_failed)

abbrev pub close : Rows → Rows × Outcome → Rows × Outcome
close d (d', ok _) = (d', ok tt)
close d (d', err e) = (d, err e)

unfoldable pub rows_db : Db Rows
unfolding route_of update remove
rows_db = record {
  transaction = λ f d. close d (f d);
  first_client = λ d name. missing;
  update_clients = λ p f d. (d, ok tt);
  create_client = λ c d. (d, ok tt);
  first_or_create_client = λ c d. (d, ok tt);
  delete_client = λ name d. (d, ok tt);
  first_route = λ d c n. answer_of (route_of d c n);
  update_routes = λ p f d. (update p f d, ok tt);
  create_route = λ r d. add r d (route_of d r.client_name r.name);
  delete_routes = λ p d. (remove p d, ok tt);
}

committed_lem : (d d' : Rows) (o : Rows × Outcome) → close d o ≡ (d', ok tt) → o ≡ (d', ok tt)
committed_lem d d' (d1, ok _) e = e
committed_lem d d' (d1, err x) e = absurd (ground arith)

rolled_back_lem :
    (d d' : Rows) (x : StoreError) (o : Rows × Outcome) → close d o ≡ (d', err x) → d' ≡ d
rolled_back_lem d d' x (d1, ok _) e = absurd (ground arith)
rolled_back_lem d d' x (d1, err y) e = sym (ap (λ p. p.0) e)

is_route_inv :
    (c n : Bytes) (r : TunnelRoute) → is_route c n r ≡ true → (r.client_name ≡ c) × (r.name ≡ n)
unfolding same
is_route_inv c n r e = (ground arith, ground arith)

keyed_lem :
    (d : Rows) (c n : Bytes) (r : TunnelRoute)
    → route_of d c n ≡ some r
    → (r.client_name ≡ c) × (r.name ≡ n)
unfolding route_of same
keyed_lem [] c n r e = absurd (ground arith)
keyed_lem (x ∷ xs) c n r e = elim (Bool-cases (is_route c n x)) [
  | inl hit ↦
      let x_is : x ≡ r = some-injective x r (rw (hit, route_of) at e) in
      subst (λ y. (y.client_name ≡ c) × (y.name ≡ n)) x_is (is_route_inv c n x hit)
  | inr miss ↦ keyed_lem xs c n r (rw (miss, route_of) at e)
]

same_key :
    (p : TunnelRoute → Bool) (f : TunnelRoute → TunnelRoute) (x : TunnelRoute) (c n : Bytes)
    → KeepsKey f
    → is_route c n (if p x then f x else x) ≡ is_route c n x
same_key p f x c n key = by_hit (p x)
  where
    by_hit : (b : Bool) → is_route c n (if b then f x else x) ≡ is_route c n x
    by_hit true =
        ap (λ y. same y c && same (f x).name n) (key x).0
        ∙ ap (λ y. same x.client_name c && same y n) (key x).1
    by_hit false = refl

updated_lem :
    (p : TunnelRoute → Bool) (f : TunnelRoute → TunnelRoute) (d : Rows) (c n : Bytes)
    (r : TunnelRoute)
    → KeepsKey f
    → route_of d c n ≡ some r
    → route_of (update p f d) c n ≡ some (if p r then f r else r)
unfolding route_of update
updated_lem p f [] c n r key e = absurd (ground arith)
updated_lem p f (x ∷ xs) c n r key e = elim (Bool-cases (is_route c n x)) [
  | inl hit ↦
      let x_is : x ≡ r = some-injective x r (rw (hit, route_of) at e) in
      rw (same_key p f x c n key ∙ hit, route_of) (ap (λ y. some (if p y then f y else y)) x_is)
  | inr miss ↦
      rw (same_key p f x c n key ∙ miss, route_of)
        (updated_lem p f xs c n r key (rw (miss, route_of) at e))
]

created_lem :
    (d : Rows) (c n : Bytes) (new old : TunnelRoute)
    → route_of d c n ≡ some old
    → route_of (d ++ (new ∷ [])) c n ≡ some old
unfolding route_of
created_lem [] c n new old e = absurd (ground arith)
created_lem (r ∷ rs) c n new old e = ground (arith, created_lem rs c n new old)

new_lem :
    (d : Rows) (r : TunnelRoute)
    → route_of d r.client_name r.name ≡ none
    → route_of (d ++ (r ∷ [])) r.client_name r.name ≡ some r
unfolding route_of same
new_lem [] r e = ground arith
new_lem (x ∷ xs) r e = elim (Bool-cases (is_route r.client_name r.name x)) [
  | inl hit ↦ absurd (ground arith)
  | inr miss ↦ rw (miss, route_of) (new_lem xs r (rw (miss, route_of) at e))
]

deleted_lem :
    (p : TunnelRoute → Bool) (d : Rows) (c n : Bytes) (r : TunnelRoute)
    → route_of d c n ≡ some r
    → p r ≡ false
    → route_of (remove p d) c n ≡ some r
unfolding route_of remove
deleted_lem p [] c n r e h = absurd (ground arith)
deleted_lem p (x ∷ xs) c n r e h = elim (Bool-cases (is_route c n x)) [
  | inl hit ↦
      let x_is : x ≡ r = some-injective x r (rw (hit, route_of) at e) in
      let kept : p x ≡ false = ap p x_is ∙ h in rw (kept, remove, hit, route_of) (ap some x_is)
  | inr miss ↦
      let later = deleted_lem p xs c n r (rw (miss, route_of) at e) h in
      by_drop (p x) (rw (miss) refl) later
]
  where
    by_drop :
        (b : Bool)
        → is_route c n x ≡ false
        → route_of (remove p xs) c n ≡ some r
        → route_of (if b then remove p xs else x ∷ remove p xs) c n ≡ some r
    by_drop true m l = l
    by_drop false m l = rw (m, route_of) l

created_any :
    (r : TunnelRoute) (d : Rows) (c n : Bytes) (old : TunnelRoute) (o : Option TunnelRoute)
    → route_of d c n ≡ some old
    → route_of ((add r d o).0) c n ≡ some old
created_any r d c n old none e = created_lem d c n r old e
created_any r d c n old (some x) e = e

route_created_lem :
    (r : TunnelRoute) (d d' : Rows) (o : Option TunnelRoute)
    → route_of d r.client_name r.name ≡ o
    → add r d o ≡ (d', ok tt)
    → route_of d' r.client_name r.name ≡ some r
route_created_lem r d d' none a e =
    ap (λ l. route_of l r.client_name r.name) (sym (ap (λ p. p.0) e)) ∙ new_lem d r a
route_created_lem r d d' (some x) a e = absurd (ground arith)

by_test :
    (p : TunnelRoute → Bool) (f : TunnelRoute → TunnelRoute) (r : TunnelRoute) (b : Bool)
    (o : Option TunnelRoute)
    → p r ≡ b
    → o ≡ some (if b then f r else r)
    → ((p r ≡ true) × (o ≡ some (f r))) ⊎ ((p r ≡ false) × (o ≡ some r))
by_test p f r true o t e = inl (t, e)
by_test p f r false o t e = inr (t, e)

found_lem : (o : Option TunnelRoute) (r : TunnelRoute) → answer_of o ≡ found r → o ≡ some r
found_lem none r e = absurd (ground arith)
found_lem (some x) r e = ground arith

missing_lem : (o : Option TunnelRoute) → answer_of o ≡ missing → o ≡ none
missing_lem none e = refl
missing_lem (some x) e = absurd (ground arith)

pub rows_db-IsDb : IsDb rows_db route_of
unfolding rows_db
rows_db-IsDb = record {
  committed = λ f d d' e. committed_lem d d' (f d) e;
  rolled_back = λ f d d' x e c n. ap (λ l. route_of l c n) (rolled_back_lem d d' x (f d) e);
  clients_updated = λ p f d c n. refl;
  client_created = λ x d c n. refl;
  client_ensured = λ x d c n. refl;
  client_deleted = λ name d c n ne. refl;
  client_named = λ d name c e. absurd (ground arith);
  keyed = keyed_lem;
  first_found = λ d c n r e. found_lem (route_of d c n) r e;
  first_missing = λ d c n e. missing_lem (route_of d c n) e;
  updated = λ p f d d' c n r key e at.
      by_test p f r (p r) (route_of d' c n) refl
        (ap (λ l. route_of l c n) (sym (ap (λ o. o.0) e)) ∙ updated_lem p f d c n r key at);
  not_updated = λ p f d d' x e. absurd (ground arith);
  created = λ r d c n old e. created_any r d c n old (route_of d r.client_name r.name) e;
  route_created = λ r d d' e. route_created_lem r d d' (route_of d r.client_name r.name) refl e;
  deleted = deleted_lem;
}
