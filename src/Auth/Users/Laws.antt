-- ===== src/Auth/Users/Laws.antt =====
-- internal/auth/user.go: what AddUser and DeleteUser leave, of the table and of the credentials.
use go_proxy_server.Prelude.{
  ◌≡◌, ◌≢◌, refl, ap, sym, subst, ◌∙◌, inl, inr, true, false, List, [], ◌∷◌, ◌++◌, Option, none,
  some, Bytes, bytes_dec, Result, ok, err, All, Option-cases, Result-cases, arith, if_pos, if_neg,
}
use go_proxy_server.Prelude.GoMap.{lookup, insert, lookup-insert}
use go_proxy_server.Prelude.Hex.{IsBytes}
use go_proxy_server.Prelude.Strings.{same}
use go_proxy_server.Auth.Hash.{hash_password, hash_password_with_salt, verify_hash}
use go_proxy_server.Auth.Hash.Codec.{verify_hash-hash_password_with_salt}
use go_proxy_server.Auth.Table.{DbError, Done, Table, IsTable}
use go_proxy_server.Auth.Users.{
  User, Credentials, AuthError, Outcome, State, load_loop, load_rows, store_loaded,
  verify_credentials, load_credentials, after_insert, inserted, add_hashed, deleted, add_user,
  delete_user, validate_password_strength, invalid_credentials,
}

load_loop-keeps :
    (us : List User) (temp c : Credentials) (j p : Bytes)
    → load_loop us temp ≡ ok c
    → lookup bytes_dec j temp ≡ some p
    → lookup bytes_dec j c ≡ some p
unfolding load_loop
load_loop-keeps [] temp c j p e h = ground arith
load_loop-keeps (u ∷ us) temp c j p e h = elim (Option-cases (lookup bytes_dec u.username temp)) [
  | inr (q, there) ↦ absurd (ground arith)
  | inl absent ↦
      load_loop-keeps us (insert bytes_dec u.username u.password temp) c j p
        (rw (absent, load_loop) at e)
        (ground (arith, lookup-insert bytes_dec u.username j u.password temp))
]

load_loop-has :
    (xs ys : List User) (u : User) (temp c : Credentials)
    → load_loop (xs ++ (u ∷ ys)) temp ≡ ok c
    → lookup bytes_dec u.username c ≡ some u.password
unfolding load_loop
load_loop-has [] ys u temp c e = elim (Option-cases (lookup bytes_dec u.username temp)) [
  | inr (q, there) ↦ absurd (ground arith)
  | inl absent ↦
      load_loop-keeps ys (insert bytes_dec u.username u.password temp) c u.username u.password
        (rw (absent, load_loop) at e)
        (ground (arith, lookup-insert bytes_dec u.username u.username u.password temp))
]
load_loop-has (x ∷ xs) ys u temp c e = elim (Option-cases (lookup bytes_dec x.username temp)) [
  | inr (q, there) ↦ absurd (ground arith)
  | inl absent ↦
      load_loop-has xs ys u (insert bytes_dec x.username x.password temp) c
        (rw (absent, load_loop) at e)
]

load_loop-lacks :
    (us : List User) (temp c : Credentials) (j : Bytes)
    → load_loop us temp ≡ ok c
    → All (λ u. u.username ≢ j) us
    → lookup bytes_dec j temp ≡ none
    → lookup bytes_dec j c ≡ none
unfolding load_loop
load_loop-lacks [] temp c j e ne h = ground arith
load_loop-lacks (u ∷ us) temp c j e ne h = elim (Option-cases (lookup bytes_dec u.username temp)) [
  | inr (q, there) ↦ absurd (ground arith)
  | inl absent ↦
      load_loop-lacks us (insert bytes_dec u.username u.password temp) c j
        (rw (absent, load_loop) at e) ne.1
        (rw (lookup-insert bytes_dec u.username j u.password temp)
          (if_neg (bytes_dec u.username j) ne.0 (some u.password) (lookup bytes_dec j temp) ∙ h))
]

store_inv :
    (old c : Credentials) (r : Result DbError (List User))
    → store_loaded old (load_rows r) ≡ (c, ok tt)
    → (us : List User) × (r ≡ ok us) × (load_loop us [] ≡ ok c)
unfolding load_rows
store_inv old c (err e) h = absurd (ground arith)
store_inv old c (ok us) h = (us, refl, loaded (load_loop us []) h)
  where
    loaded : (m : Result AuthError Credentials) → store_loaded old m ≡ (c, ok tt) → m ≡ ok c
    loaded (err e) g = absurd (ground arith)
    loaded (ok c') g = ap ok (ap (λ p. p.0) g)

store-keeps :
    (old c : Credentials) (e : AuthError) (r : Result AuthError Credentials)
    → store_loaded old r ≡ (c, err e)
    → c ≡ old
store-keeps old c e (err e') h = sym (ap (λ p. p.0) h)
store-keeps old c e (ok c') h = absurd (ground arith)

verify_absent :
    (sha256 : Bytes → Bytes) (creds : Credentials) (username password : Bytes)
    → lookup bytes_dec username creds ≡ none
    → verify_credentials sha256 creds username password ≡ err invalid_credentials
unfolding verify_credentials
verify_absent sha256 creds username password absent = rw (absent, verify_credentials) refl

verify_present :
    (sha256 : Bytes → Bytes) (creds : Credentials) (username password salt : Bytes)
    → ((s : Bytes) → IsBytes (sha256 s))
    → IsBytes salt
    → lookup bytes_dec username creds ≡ some (hash_password_with_salt sha256 password salt)
    → verify_credentials sha256 creds username password ≡ ok tt
unfolding verify_credentials same
verify_present sha256 creds username password salt bytes salt_bytes there =
    let digest = sha256 (salt ++ password) in
    let matches : verify_hash sha256 (hash_password_with_salt sha256 password salt) password
        ≡ true =
      verify_hash-hash_password_with_salt sha256 password password salt bytes salt_bytes
      ∙ if_pos (bytes_dec digest digest) refl true false in
    rw (there, verify_credentials, matches) refl

module _ {D : Type 0} (users : Table D User) (rows : D → List User)
    (laws : IsTable users (λ u. u.username) rows) where
  load_credentials_inv :
      (s s' : State D)
      → load_credentials users s ≡ (s', ok tt)
      → (load_loop (rows s.db) [] ≡ ok s'.credentials) × (s'.db ≡ s.db)
  unfolding load_credentials
  load_credentials_inv s s' h =
      let db_kept : s'.db ≡ s.db = sym (ap (λ p. p.0.db) h) in
      let stored : store_loaded s.credentials (load_rows (users.find s.db))
          ≡ (s'.credentials, ok tt) =
        ap (λ p. (p.0.credentials, p.1)) h in
      let (us, found, loaded) = store_inv s.credentials s'.credentials (users.find s.db) stored in
      (subst (λ l. load_loop l [] ≡ ok s'.credentials) (laws.found s.db us found) loaded, db_kept)

  load_credentials-keeps :
      (s s' : State D) (e : AuthError)
      → load_credentials users s ≡ (s', err e)
      → (s'.credentials ≡ s.credentials) × (s'.db ≡ s.db)
  unfolding load_credentials
  load_credentials-keeps s s' e h = (
    store-keeps s.credentials s'.credentials e (load_rows (users.find s.db))
        (ap (λ p. (p.0.credentials, p.1)) h),
    sym (ap (λ p. p.0.db) h),
  )

  -- After a deletion that succeeds, the user is refused with every password.
  pub delete_user-refused :
      (sha256 : Bytes → Bytes) (s s' : State D) (username password : Bytes)
      → delete_user users s username ≡ (s', ok tt)
      → verify_credentials sha256 s'.credentials username password ≡ err invalid_credentials
  unfolding delete_user deleted lookup
  delete_user-refused sha256 s s' username password h =
      by_answer (users.delete s.db username) refl h
    where
      by_answer :
          (o : D × Done)
          → users.delete s.db username ≡ o
          → deleted users s o ≡ (s', ok tt)
          → verify_credentials sha256 s'.credentials username password ≡ err invalid_credentials
      by_answer (d, err e) a g = absurd (ground arith)
      by_answer (d, ok _) a g =
          let (loaded, same_db) = load_credentials_inv (record s { db = d }) s' g in
          let absent = laws.deleted s.db d username a in
          verify_absent sha256 s'.credentials username password
            (load_loop-lacks (rows d) [] s'.credentials username loaded absent refl)

  after_insert_inv :
      (username : Bytes) (s' : State D) (o : State D × Outcome)
      → after_insert users username o ≡ (s', ok tt)
      → o ≡ (s', ok tt)
  unfolding after_insert
  after_insert_inv username s' (t, ok _) h = h
  after_insert_inv username s' (t, err e) h = absurd (ground arith)

  inserted-has :
      (s s' : State D) (u : User) (o : D × Done)
      → users.create s.db u ≡ o
      → inserted users s u o ≡ (s', ok tt)
      → lookup bytes_dec u.username s'.credentials ≡ some u.password
  unfolding inserted
  inserted-has s s' u (d, err e) a h = absurd (ground arith)
  inserted-has s s' u (d, ok _) a h =
      let loaded_ok = after_insert_inv u.username s' _ h in
      let (loaded, same_db) = load_credentials_inv (record s { db = d }) s' loaded_ok in
      let (xs, ys, before, after, fresh) = laws.created s.db d u a in
      load_loop-has xs ys u [] s'.credentials
        (subst (λ l. load_loop l [] ≡ ok s'.credentials) after loaded)

  -- After an AddUser that succeeds, the user is let in with the password.
  pub add_user-verify_credentials :
      (sha256 : Bytes → Bytes) (salt : Option Bytes) (s s' : State D) (ip username password : Bytes)
      → ((t : Bytes) → IsBytes (sha256 t))
      → ((t : Bytes) → salt ≡ some t → IsBytes t)
      → add_user users sha256 salt s ip username password ≡ (s', ok tt)
      → verify_credentials sha256 s'.credentials username password ≡ ok tt
  unfolding add_user add_hashed hash_password
  add_user-verify_credentials sha256 salt s s' ip username password bytes salt_bytes h =
      elim (Result-cases (validate_password_strength password)) [
        | inr (e, weak) ↦ absurd (ground arith)
        | inl (_, strong) ↦ by_salt salt salt_bytes (rw (strong, add_user) at h)
      ]
    where
      by_salt :
          (salt : Option Bytes)
          → ((t : Bytes) → salt ≡ some t → IsBytes t)
          → add_hashed users s ip username (hash_password sha256 password salt) ≡ (s', ok tt)
          → verify_credentials sha256 s'.credentials username password ≡ ok tt
      by_salt none b g = absurd (ground arith)
      by_salt (some t) b g =
          let u : User = record {
            ip = ip;
            username = username;
            password = hash_password_with_salt sha256 password t;
          } in
          verify_present sha256 s'.credentials username password t bytes (b t refl)
            (inserted-has s s' u (users.create s.db u) refl g)

  after_insert-keeps :
      (s1 s' : State D) (username : Bytes) (e : AuthError) (o : State D × Outcome)
      → load_credentials users s1 ≡ o
      → after_insert users username o ≡ (s', err e)
      → (s'.credentials ≡ s1.credentials) × (s'.db ≡ (users.delete s1.db username).0)
  unfolding after_insert
  after_insert-keeps s1 s' username e (t, ok _) l h = absurd (ground arith)
  after_insert-keeps s1 s' username e (t, err f) l h =
      let (creds, db) = load_credentials-keeps s1 t f l in
      (
        sym (ap (λ p. p.0.credentials) h) ∙ creds,
        sym (ap (λ p. p.0.db) h) ∙ ap (λ d. (users.delete d username).0) db,
      )

  inserted-keeps :
      (s s' : State D) (u : User) (e : AuthError) (o : D × Done)
      → ((d : D) (k : Bytes) → (users.delete d k).1 ≡ ok tt)
      → users.create s.db u ≡ o
      → inserted users s u o ≡ (s', err e)
      → (s'.credentials ≡ s.credentials) × (rows s'.db ≡ rows s.db)
  unfolding inserted
  inserted-keeps s s' u e (d, err f) del a h = (
    sym (ap (λ p. p.0.credentials) h),
    sym (ap (λ p. rows p.0.db) h) ∙ laws.not_created s.db d u f a,
  )
  inserted-keeps s s' u e (d, ok _) del a h =
      let (creds, db) = after_insert-keeps (record s { db = d }) s' u.username e _ refl h in
      let (xs, ys, before, after, fresh) = laws.created s.db d u a in
      let rolled : rows (users.delete d u.username).0 ≡ xs ++ ys =
        laws.others_kept d (users.delete d u.username).0 u.username xs ys u
          (ap (λ r. ((users.delete d u.username).0, r)) (del d u.username)) after refl
          (subst (λ l. All (λ x. x.username ≢ u.username) l) before fresh) in
      (creds, ap rows db ∙ rolled ∙ sym before)

  -- An AddUser that fails leaves the credentials in memory and the rows of the table as they were,
  -- provided that the database does not refuse the deletion by which the insertion is taken back.
  pub add_user-rolls_back :
      (sha256 : Bytes → Bytes) (salt : Option Bytes) (s s' : State D) (ip username password : Bytes)
      (e : AuthError)
      → ((d : D) (k : Bytes) → (users.delete d k).1 ≡ ok tt)
      → add_user users sha256 salt s ip username password ≡ (s', err e)
      → (s'.credentials ≡ s.credentials) × (rows s'.db ≡ rows s.db)
  unfolding add_user add_hashed
  add_user-rolls_back sha256 salt s s' ip username password e del h =
      elim (Result-cases (validate_password_strength password)) [
        | inr (f, weak) ↦
            let same_state : s' ≡ s = sym (ap (λ p. p.0) (rw (weak, add_user) at h)) in
            (ap (λ t. t.credentials) same_state, ap (λ t. rows t.db) same_state)
        | inl (_, strong) ↦
            by_hash (hash_password sha256 password salt) (rw (strong, add_user) at h)
      ]
    where
      by_hash :
          (hashed : Option Bytes)
          → add_hashed users s ip username hashed ≡ (s', err e)
          → (s'.credentials ≡ s.credentials) × (rows s'.db ≡ rows s.db)
      by_hash none g = (sym (ap (λ p. p.0.credentials) g), sym (ap (λ p. rows p.0.db) g))
      by_hash (some hashed) g = inserted-keeps s s' _ e _ del refl g
