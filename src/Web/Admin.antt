-- ===== src/Web/Admin.antt =====
-- internal/web/admin_auth.go and internal/config/system.go: the administrator's password, the
-- bootstrap token and the login.
pub mod Guarded
use go_proxy_server.Prelude.{
  ℕ, Bool, true, false, ◌||◌, not, if◌then◌else◌, ltb, List, [], ◌∷◌, Option, none, some, Bytes,
  codes, length, Result, ok, err, ◌>>=◌,
}
use go_proxy_server.Prelude.Strings.{trim_space, same, is_empty}
use go_proxy_server.Prelude.Hex.{hex_encode}

-- What a query for one row finds.
pub data Found : Type 0 where
  row : Bytes → Found
  not_found query_failed : Found

-- The table of the system configuration. A write says whether it succeeded, and the one that does
-- nothing on a conflict whether it has inserted a row, unless it failed.
pub record Table (D : Type 0) : Type 0 where
  pub find : D → Bytes → Found
  pub create : D → Bytes → Bytes → D × Bool
  pub save : D → Bytes → Bytes → D × Bool
  pub create_if_absent : D → Bytes → Bytes → D × Option Bool

pub data AdminError : Type 0 where
  database_error : AdminError
  password_too_short : AdminError
  password_configured : AdminError
  invalid_bootstrap_token : AdminError
  hash_failed random_failed : AdminError
  not_configured : AdminError

abbrev pub password_key : Bytes
password_key = codes "web_admin_password_hash"

module _ {D : Type 0} (table : Table D) where
  -- `GetSystemConfig`
  unfoldable pub get_system_config : D → Bytes → Result AdminError Bytes
  get_system_config db key = elim (table.find db key) [
    | row value ↦ ok value
    | not_found ↦ ok []
    | query_failed ↦ err database_error
  ]

  abbrev pub written : D × Bool → D × Result AdminError (Unit {0})
  written (db, true) = (db, ok tt)
  written (db, false) = (db, err database_error)

  -- `SetSystemConfig`
  unfoldable pub set_system_config : D → Bytes → Bytes → D × Result AdminError (Unit {0})
  set_system_config db key value = elim (table.find db key) [
    | not_found ↦ written (table.create db key value)
    | query_failed ↦ (db, err database_error)
    | row _ ↦ written (table.save db key value)
  ]

  -- The manager: its database and `adminBootstrapToken`, empty where there is none.
  pub record Manager : Type 0 where
    pub db : D
    pub bootstrap_token : Bytes

  -- What comes from outside: the environment variable, 16 random bytes, and the hash of the
  -- password; `none` is a failure.
  pub record Inputs : Type 0 where
    pub env_token : Bytes
    pub random : Option Bytes
    pub hash : Option Bytes

  -- `clearAdminBootstrapToken`
  abbrev pub clear_token : Manager → Manager
  clear_token m = record m { bootstrap_token = [] }

  -- The token of the environment, or else a random one, behind the test of the one at hand.
  unfoldable pub new_token : Inputs → Manager → Manager × Result AdminError Bytes
  new_token inp m =
      if is_empty (trim_space inp.env_token)
      then elim inp.random [
        | none ↦ (m, err random_failed)
        | some buf ↦ (record m { bootstrap_token = hex_encode buf }, ok (hex_encode buf))
      ]
      else (record m { bootstrap_token = trim_space inp.env_token }, ok (trim_space inp.env_token))

  -- `ensureAdminBootstrapToken`
  unfoldable pub ensure_token : Inputs → Manager → Manager × Result AdminError Bytes
  unfolding new_token
  ensure_token inp m = elim (get_system_config m.db password_key) [
    | err e ↦ (m, err e)
    | ok value ↦
        if not (is_empty value)
        then (clear_token m, ok [])
        else if not (is_empty m.bootstrap_token)
        then (m, ok m.bootstrap_token)
        else new_token inp m
  ]

  -- `validateAdminBootstrapToken` on the expected token.
  abbrev pub token_matches : Bytes → Bytes → Bool
  token_matches expected provided =
      if is_empty expected || is_empty provided then false else same expected provided

  -- The answer of `SetSystemConfigIfAbsent`, and what `bootstrapAdminPassword` does with it.
  unfoldable pub stored_first : Manager → D × Option Bool → Manager × Result AdminError (Unit {0})
  stored_first m (db, none) = (record m { db = db }, err database_error)
  stored_first m (db, some true) = (record { db = db; bootstrap_token = [] }, ok tt)
  stored_first m (db, some false) = (record m { db = db }, err password_configured)

  unfoldable pub store_first : Option Bytes → Manager → Manager × Result AdminError (Unit {0})
  unfolding stored_first
  store_first none m = (m, err hash_failed)
  store_first (some hash) m = stored_first m (table.create_if_absent m.db password_key hash)

  -- The test of the token that `ensureAdminBootstrapToken` answers with.
  unfoldable pub check_expected :
      Inputs → Bytes → Manager × Result AdminError Bytes → Manager × Result AdminError (Unit {0})
  check_expected inp provided (m, err e) = (m, err e)
  check_expected inp provided (m, ok expected) =
      if token_matches expected provided
      then store_first inp.hash m
      else (m, err invalid_bootstrap_token)

  -- `bootstrapAdminPassword` behind the test of the configured password.
  unfoldable pub check_token : Inputs → Bytes → Manager → Manager × Result AdminError (Unit {0})
  unfolding ensure_token check_expected
  check_token inp provided m = check_expected inp provided (ensure_token inp m)

  -- `bootstrapAdminPassword`. The length of the password is in bytes.
  unfoldable pub bootstrap :
      Inputs → Bytes → Bytes → Manager → Manager × Result AdminError (Unit {0})
  bootstrap inp password provided m =
      if ltb (length password) 8
      then (m, err password_too_short)
      else elim (get_system_config m.db password_key) [
        | err e ↦ (m, err e)
        | ok value ↦
            if not (is_empty value)
            then (m, err password_configured)
            else check_token inp provided m
      ]

  unfoldable pub password_set :
      Manager → D × Result AdminError (Unit {0}) → Manager × Result AdminError (Unit {0})
  password_set m (db, err e) = (record m { db = db }, err e)
  password_set m (db, ok _) = (record { db = db; bootstrap_token = [] }, ok tt)

  unfoldable pub store_password : Option Bytes → Manager → Manager × Result AdminError (Unit {0})
  unfolding password_set
  store_password none m = (m, err hash_failed)
  store_password (some hash) m = password_set m (set_system_config m.db password_key hash)

  -- `setAdminPassword`
  unfoldable pub set_password : Inputs → Bytes → Manager → Manager × Result AdminError (Unit {0})
  unfolding store_password
  set_password inp password m =
      if ltb (length password) 8 then (m, err password_too_short) else store_password inp.hash m

  unfoldable pub upgraded :
      Manager → D × Result AdminError (Unit {0}) → Manager × Result AdminError Bool
  upgraded m (db, err e) = (record m { db = db }, err e)
  upgraded m (db, ok _) = (record m { db = db }, ok true)

  unfoldable pub upgrade_hash : Option Bytes → Manager → Manager × Result AdminError Bool
  unfolding upgraded
  upgrade_hash none m = (m, err hash_failed)
  upgrade_hash (some hash) m = upgraded m (set_system_config m.db password_key hash)

  -- What `verifyAdminPassword` does once the hash has been compared.
  unfoldable pub upgrade : Inputs → Bool × Bool → Manager → Manager × Result AdminError Bool
  unfolding upgrade_hash
  upgrade inp (valid, needs_upgrade) m =
      if not valid || not needs_upgrade then (m, ok valid) else upgrade_hash inp.hash m

  -- `verifyAdminPassword`, where `verify` is `auth.VerifyAdminPasswordHash`.
  unfoldable pub verify_password :
      (Bytes → Bytes → Bool × Bool) → Inputs → Bytes → Manager → Manager × Result AdminError Bool
  unfolding upgrade
  verify_password verify inp password m = elim (get_system_config m.db password_key) [
    | err e ↦ (m, err e)
    | ok stored ↦
        if is_empty stored then (m, err not_configured) else upgrade inp (verify stored password) m
  ]
