-- ===== src/Auth/Whitelist.antt =====
-- internal/auth/whitelist.go: the addresses that need no credentials. A row is its address.
pub mod InStep
use go_proxy_server.Prelude.{
  Bool, true, false, if◌then◌else◌, List, [], ◌∷◌, Option, none, some, Bytes, bytes_dec, Result, ok,
  err,
}
use go_proxy_server.Prelude.GoMap.{GoMap, lookup, insert}
use go_proxy_server.Auth.Table.{DbError, unique_failed, db_failed, Done, Table}
use go_proxy_server.Auth.Users.{
  AuthError, Outcome, find_failed, reload_failed, delete_failed, invalid_ip, insert_error,
}

abbrev pub Whitelist : Type 0
Whitelist = GoMap Bytes Bool

-- `CheckIPWhitelist`; a missing key reads as `false`.
unfoldable pub check_ip_whitelist : Whitelist → Bytes → Bool
check_ip_whitelist whitelist client_ip = elim (lookup bytes_dec client_ip whitelist) [
  | none ↦ false
  | some b ↦ b
]

-- The loop of `LoadWhitelistFromDB`.
unfoldable pub fill : List Bytes → Whitelist → Whitelist
fill [] temp = temp
fill (ip ∷ ips) temp = fill ips (insert bytes_dec ip true temp)

pub record State (D : Type 0) : Type 0 where
  pub db : D
  pub whitelist : Whitelist

module _ {D : Type 0} (table : Table D Bytes) where
  unfoldable pub store_rows : State D → Result DbError (List Bytes) → State D × Outcome
  unfolding fill
  store_rows s (err e) = (s, err find_failed)
  store_rows s (ok ips) = (record s { whitelist = fill ips [] }, ok tt)

  -- `LoadWhitelistFromDB`
  unfoldable pub load_whitelist : State D → State D × Outcome
  unfolding store_rows
  load_whitelist s = store_rows s (table.find s.db)

  -- The reload after an insertion; if it fails, the row is deleted again.
  unfoldable pub after_insert : Bytes → State D × Outcome → State D × Outcome
  after_insert ip (s, ok _) = (s, ok tt)
  after_insert ip (s, err _) =
      let (db', _) = table.delete s.db ip in (record s { db = db' }, err reload_failed)

  unfoldable pub inserted : State D → Bytes → D × Done → State D × Outcome
  unfolding load_whitelist after_insert
  inserted s ip (db', ok _) = after_insert ip (load_whitelist (record s { db = db' }))
  inserted s ip (db', err e) = (record s { db = db' }, err (insert_error e))

  -- `AddIPToWhitelist`; the argument parses an IP.
  unfoldable pub add_ip : (Bytes → Option Bytes) → State D → Bytes → State D × Outcome
  unfolding inserted
  add_ip parse_ip s ip = elim (parse_ip ip) [
    | none ↦ (s, err invalid_ip)
    | some _ ↦ inserted s ip (table.create s.db ip)
  ]

  unfoldable pub deleted : State D → D × Done → State D × Outcome
  unfolding load_whitelist
  deleted s (db', err e) = (record s { db = db' }, err delete_failed)
  deleted s (db', ok _) = load_whitelist (record s { db = db' })

  -- `DeleteIPFromWhitelist`
  unfoldable pub delete_ip : State D → Bytes → State D × Outcome
  unfolding deleted
  delete_ip s ip = deleted s (table.delete s.db ip)
