-- ===== src/Web/Admin/Guarded.antt =====
-- internal/web/admin_auth.go: who can set the administrator's password, and who can log in.
use go_proxy_server.Prelude.{
  ◌≤◌, ◌≡◌, refl, sym, ap, ◌⊎◌, inl, inr, Bool, true, false, if◌then◌else◌, ltb, [], ◌∷◌, Option,
  none, some, Bytes, bytes_dec, length, Result, ok, err, arith, Result-cases, Bool-cases,
}
use go_proxy_server.Prelude.Strings.{is_empty, same}
use go_proxy_server.Web.Admin.{
  Table, AdminError, password_too_short, password_configured, password_key, get_system_config,
  Manager, Inputs, ensure_token, token_matches, stored_first, store_first, check_expected,
  check_token, bootstrap, set_system_config, upgraded, upgrade_hash, upgrade, verify_password,
}

module _ {D : Type 0} (table : Table D) where
  -- What a successful bootstrap has gone through.
  pub record Bootstrapped (inp : Inputs table) (password provided : Bytes) (m m' : Manager table)
      : Type 0 where
    pub long_enough : 8 ≤ length password
    pub first : get_system_config table m.db password_key ≡ ok []
    pub expected : (ensure_token table inp m).1 ≡ ok provided
    pub given : is_empty provided ≡ false
    pub hash : Bytes
    pub hashed : inp.hash ≡ some hash
    pub stored :
        table.create_if_absent (ensure_token table inp m).0.db password_key hash
        ≡ (m'.db, some true)
    pub cleared : m'.bootstrap_token ≡ []

  stored_first_inv :
      (m m' : Manager table) (r : D × Option Bool)
      → stored_first table m r ≡ (m', ok tt)
      → (r ≡ (m'.db, some true)) × (m'.bootstrap_token ≡ [])
  unfolding stored_first
  stored_first_inv m m' (db, none) e = ground arith
  stored_first_inv m m' (db, some true) e = ground arith
  stored_first_inv m m' (db, some false) e = ground arith

  store_first_inv :
      (h : Option Bytes) (m m' : Manager table)
      → store_first table h m ≡ (m', ok tt)
      → (hash : Bytes) × (h ≡ some hash)
        × (table.create_if_absent m.db password_key hash ≡ (m'.db, some true))
        × (m'.bootstrap_token ≡ [])
  unfolding store_first
  store_first_inv none m m' e = ground arith
  store_first_inv (some hash) m m' e =
      let (stored, cleared) =
        stored_first_inv m m' (table.create_if_absent m.db password_key hash) e in
      (hash, refl, stored, cleared)

  token_matches_inv :
      (expected provided : Bytes)
      → token_matches table expected provided ≡ true
      → (expected ≡ provided) × (is_empty provided ≡ false)
  unfolding same
  token_matches_inv expected provided e = elim (bytes_dec expected provided) [
    | yes p ↦ (p, ground arith)
    | no n ↦ absurd (ground arith)
  ]

  check_expected_inv :
      (inp : Inputs table) (provided : Bytes) (r : Manager table × Result AdminError Bytes)
      (m' : Manager table)
      → check_expected table inp provided r ≡ (m', ok tt)
      → (r.1 ≡ ok provided)
        × (is_empty provided ≡ false)
        × (store_first table inp.hash r.0 ≡ (m', ok tt))
  unfolding check_expected
  check_expected_inv inp provided (m, err e) m' h = ground arith
  check_expected_inv inp provided (m, ok expected) m' h =
      elim (Bool-cases (token_matches table expected provided)) [
        | inl good ↦
            let (same_token, given) = token_matches_inv expected provided good in
            (ap (λ x. ok x) same_token, given, ground arith)
        | inr bad ↦ absurd (ground arith)
      ]

  bootstrap_steps :
      (inp : Inputs table) (password provided : Bytes) (m m' : Manager table)
      → bootstrap table inp password provided m ≡ (m', ok tt)
      → (8 ≤ length password)
        × (get_system_config table m.db password_key ≡ ok [])
        × (check_token table inp provided m ≡ (m', ok tt))
  unfolding bootstrap is_empty
  bootstrap_steps inp password provided m m' e =
      elim (Result-cases (get_system_config table m.db password_key)) [
        | inr (x, bad) ↦ absurd (ground arith)
        | inl ([], none_set) ↦ (ground arith, none_set, ground arith)
        | inl (c ∷ cs, set) ↦ absurd (ground arith)
      ]

  -- The bootstrap succeeds only with a password of 8 bytes at least, while none is configured,
  -- given the token that is expected, which is not empty; then the hash of the password has been
  -- inserted, not written over another one, and the token is spent.
  pub bootstrap-Bootstrapped :
      (inp : Inputs table) (password provided : Bytes) (m m' : Manager table)
      → bootstrap table inp password provided m ≡ (m', ok tt)
      → Bootstrapped inp password provided m m'
  unfolding check_token
  bootstrap-Bootstrapped inp password provided m m' e =
      let (long_enough, first, checked) = bootstrap_steps inp password provided m m' e in
      let (expected, given, storing) =
        check_expected_inv inp provided (ensure_token table inp m) m' checked in
      let (hash, hashed, stored, cleared) =
        store_first_inv inp.hash (ensure_token table inp m).0 m' storing in
      record {
        long_enough = long_enough;
        first = first;
        expected = expected;
        given = given;
        hash = hash;
        hashed = hashed;
        stored = stored;
        cleared = cleared;
      }

  -- Where a password is configured, the bootstrap changes nothing and reports that or, before it,
  -- that the new password is too short.
  pub bootstrap_configured :
      (inp : Inputs table) (password provided : Bytes) (m : Manager table) {value : Bytes}
      → get_system_config table m.db password_key ≡ ok value
      → is_empty value ≡ false
      → bootstrap table inp password provided m
        ≡ (m, err (if ltb (length password) 8 then password_too_short else password_configured))
  unfolding bootstrap
  bootstrap_configured inp password provided m e n = rw (e, bootstrap) (ground arith)

  upgraded_inv :
      (m m' : Manager table) (r : D × Result AdminError (Unit {0}))
      → upgraded table m r ≡ (m', ok true)
      → r ≡ (m'.db, ok tt)
  unfolding upgraded
  upgraded_inv m m' (db, err x) e = ground arith
  upgraded_inv m m' (db, ok _) e = ground arith

  upgrade_hash_inv :
      (h : Option Bytes) (m m' : Manager table)
      → upgrade_hash table h m ≡ (m', ok true)
      → (hash : Bytes) × (h ≡ some hash)
        × (set_system_config table m.db password_key hash ≡ (m'.db, ok tt))
  unfolding upgrade_hash
  upgrade_hash_inv none m m' e = ground arith
  upgrade_hash_inv (some hash) m m' e =
      (hash, refl, upgraded_inv m m' (set_system_config table m.db password_key hash) e)

  -- Nothing has changed, or the hash, an old one, has been replaced.
  abbrev pub Upgraded : Inputs table → Bool → Manager table → Manager table → Type 0
  Upgraded inp needs_upgrade m m' =
      (m' ≡ m)
      ⊎ ((needs_upgrade ≡ true)
          × ((hash : Bytes) × (inp.hash ≡ some hash)
              × (set_system_config table m.db password_key hash ≡ (m'.db, ok tt))))

  upgrade_inv :
      (inp : Inputs table) (answer : Bool × Bool) (m m' : Manager table)
      → upgrade table inp answer m ≡ (m', ok true)
      → (answer.0 ≡ true) × Upgraded inp answer.1 m m'
  unfolding upgrade
  upgrade_inv inp (false, n) m m' e = ground arith
  upgrade_inv inp (true, false) m m' e = (refl, inl (sym (ap (λ r. r.0) e)))
  upgrade_inv inp (true, true) m m' e = (refl, inr (refl, upgrade_hash_inv inp.hash m m' e))

  verify_configured :
      (verify : Bytes → Bytes → Bool × Bool) (inp : Inputs table) (password stored : Bytes)
      (m m' : Manager table)
      → get_system_config table m.db password_key ≡ ok stored
      → verify_password table verify inp password m ≡ (m', ok true)
      → (is_empty stored ≡ false) × (upgrade table inp (verify stored password) m ≡ (m', ok true))
  unfolding verify_password
  verify_configured verify inp password stored m m' g e = ground arith

  -- A login succeeds only against a stored hash, not the empty one, that the password verifies; the
  -- manager is then as before, unless the hash was of the old kind, and has been replaced by a new
  -- one.
  pub verify_password_inv :
      (verify : Bytes → Bytes → Bool × Bool) (inp : Inputs table) (password : Bytes)
      (m m' : Manager table)
      → verify_password table verify inp password m ≡ (m', ok true)
      → (stored : Bytes) × (get_system_config table m.db password_key ≡ ok stored)
        × (is_empty stored ≡ false)
        × ((verify stored password).0 ≡ true)
        × Upgraded inp (verify stored password).1 m m'
  unfolding verify_password
  verify_password_inv verify inp password m m' e =
      elim (Result-cases (get_system_config table m.db password_key)) [
        | inr (x, bad) ↦ absurd (ground arith)
        | inl (stored, found) ↦
            let (set, upgrading) = verify_configured verify inp password stored m m' found e in
            let (good, after) = upgrade_inv inp (verify stored password) m m' upgrading in
            (stored, found, set, good, after)
      ]
