-- ===== src/Auth/Users.antt =====
-- internal/auth/user.go and auth.go: the credentials in memory, their table, and the strength of a
-- password. A rune of a string is an ASCII character exactly where its byte is one, so the loop over
-- the runes is one over the bytes.
pub mod Strength
pub mod Laws
use go_proxy_server.Prelude.{
  ℕ, Bool, true, false, ◌&&◌, ◌||◌, if◌then◌else◌, ltb, leb, List, [], ◌∷◌, Option, none, some,
  Bytes, bytes_dec, length, Result, ok, err,
}
use go_proxy_server.Prelude.GoMap.{GoMap, lookup, insert}
use go_proxy_server.Auth.Hash.{hash_password, verify_hash}
use go_proxy_server.Auth.Table.{DbError, unique_failed, db_failed, Done, Table}

pub data AuthError : Type 0 where
  too_short too_long no_letter no_digit : AuthError
  no_salt : AuthError
  exists_already : AuthError
  create_failed : AuthError
  reload_failed : AuthError
  delete_failed : AuthError
  duplicate_username find_failed : AuthError
  invalid_credentials : AuthError
  invalid_ip : AuthError

abbrev pub Outcome : Type 0
Outcome = Result AuthError (Unit {0})

abbrev pub is_letter : ℕ → Bool
is_letter c = (leb 97 c && leb c 122) || (leb 65 c && leb c 90)

abbrev pub is_digit : ℕ → Bool
is_digit c = leb 48 c && leb c 57

-- The loop over the characters, with its break.
unfoldable pub scan : Bool → Bool → Bytes → Bool × Bool
scan has_letter has_digit [] = (has_letter, has_digit)
scan has_letter has_digit (c ∷ s) =
    let letter = has_letter || is_letter c in
    let digit = has_digit || is_digit c in
    let rest = scan letter digit s in if letter && digit then (letter, digit) else rest

-- `validatePasswordStrength`
unfoldable pub validate_password_strength : Bytes → Outcome
unfolding scan
validate_password_strength password =
    let (has_letter, has_digit) = scan false false password in
    if ltb (length password) 8
    then err too_short
    else if ltb 128 (length password)
    then err too_long
    else if has_letter
    then (if has_digit then ok tt else err no_digit)
    else err no_letter

-- `models.User`
pub record User : Type 0 where
  pub ip : Bytes
  pub username : Bytes
  pub password : Bytes

abbrev pub Credentials : Type 0
Credentials = GoMap Bytes Bytes

-- The loop of `LoadCredentialsFromDB` over the rows.
unfoldable pub load_loop : List User → Credentials → Result AuthError Credentials
load_loop [] temp = ok temp
load_loop (u ∷ users) temp = elim (lookup bytes_dec u.username temp) [
  | some _ ↦ err duplicate_username
  | none ↦ load_loop users (insert bytes_dec u.username u.password temp)
]

unfoldable pub load_rows : Result DbError (List User) → Result AuthError Credentials
unfolding load_loop
load_rows (err e) = err find_failed
load_rows (ok users) = load_loop users []

-- What is stored atomically: the new map, or else the old one stays.
abbrev pub store_loaded : Credentials → Result AuthError Credentials → Credentials × Outcome
store_loaded old (err e) = (old, err e)
store_loaded old (ok temp) = (temp, ok tt)

module _ (sha256 : Bytes → Bytes) where
  -- `VerifyCredentials`; the comparison with the dummy hash only takes its time.
  unfoldable pub verify_credentials : Credentials → Bytes → Bytes → Outcome
  verify_credentials creds username password = elim (lookup bytes_dec username creds) [
    | none ↦ err invalid_credentials
    | some expected ↦
        if verify_hash sha256 expected password then ok tt else err invalid_credentials
  ]

abbrev pub insert_error : DbError → AuthError
insert_error unique_failed = exists_already
insert_error db_failed = create_failed

-- The rows of the store, and the map in memory.
pub record State (D : Type 0) : Type 0 where
  pub db : D
  pub credentials : Credentials

module _ {D : Type 0} (users : Table D User) where
  -- `LoadCredentialsFromDB`
  unfoldable pub load_credentials : State D → State D × Outcome
  unfolding load_rows
  load_credentials s =
      let (creds, r) = store_loaded s.credentials (load_rows (users.find s.db)) in
      (record s { credentials = creds }, r)

  -- The reload after an insertion; if it fails, the row is deleted again.
  unfoldable pub after_insert : Bytes → State D × Outcome → State D × Outcome
  after_insert username (s, ok _) = (s, ok tt)
  after_insert username (s, err _) =
      let (db', _) = users.delete s.db username in (record s { db = db' }, err reload_failed)

  unfoldable pub inserted : State D → User → D × Done → State D × Outcome
  unfolding load_credentials after_insert
  inserted s u (db', ok _) = after_insert u.username (load_credentials (record s { db = db' }))
  inserted s u (db', err e) = (record s { db = db' }, err (insert_error e))

  unfoldable pub add_hashed : State D → Bytes → Bytes → Option Bytes → State D × Outcome
  unfolding inserted
  add_hashed s ip username none = (s, err no_salt)
  add_hashed s ip username (some hashed) =
      let u : User = record { ip = ip; username = username; password = hashed } in
      inserted s u (users.create s.db u)

  -- `AddUser`, with the salt that is drawn, if one is.
  unfoldable pub add_user :
      (Bytes → Bytes) → Option Bytes → State D → Bytes → Bytes → Bytes → State D × Outcome
  unfolding add_hashed
  add_user sha256 salt s ip username password = elim (validate_password_strength password) [
    | err e ↦ (s, err e)
    | ok _ ↦ add_hashed s ip username (hash_password sha256 password salt)
  ]

  unfoldable pub deleted : State D → D × Done → State D × Outcome
  unfolding load_credentials
  deleted s (db', err e) = (record s { db = db' }, err delete_failed)
  deleted s (db', ok _) = load_credentials (record s { db = db' })

  -- `DeleteUser`
  unfoldable pub delete_user : State D → Bytes → State D × Outcome
  unfolding deleted
  delete_user s username = deleted s (users.delete s.db username)
