-- ===== src/Config/Limits.antt =====
-- internal/config/limiter.go: the limits of the connection limiter, in memory and in the table of the
-- system configuration. `strconv.ParseInt(s, 10, 32)` and `strconv.Itoa` are arguments.
pub mod Restart
use go_proxy_server.Prelude.{
  ℕ, Bool, true, false, ◌||◌, if◌then◌else◌, List, [], ◌∷◌, Option, none, some, Bytes, codes,
  Result, ok, err, ℤ, pos, lt_const, gt_const,
}
use go_proxy_server.Web.Admin.{AdminError, Table, get_system_config, set_system_config}

abbrev pub key_max_connections : Bytes
key_max_connections = codes "max_concurrent_connections"

abbrev pub key_max_connections_per_ip : Bytes
key_max_connections_per_ip = codes "max_concurrent_connections_per_ip"

abbrev pub default_max_connections : ℤ
default_max_connections = pos 100000

abbrev pub default_max_connections_per_ip : ℤ
default_max_connections_per_ip = pos 1000

-- `LimiterConfig`, of two `int32`.
pub record Limits : Type 0 where
  pub max_connections : ℤ
  pub max_connections_per_ip : ℤ

pub data LimitError : Type 0 where
  load_failed save_failed : LimitError
  not_a_number : LimitError
  out_of_range : LimitError

pub record Decimals : Type 0 where
  pub parse_int32 : Bytes → Option ℤ
  pub itoa : ℤ → Bytes

pub record State (D : Type 0) : Type 0 where
  pub db : D
  pub limits : Limits

abbrev pub bad_limit : ℕ → ℤ → Bool
bad_limit high z = lt_const z 0 || gt_const z high

module _ {D : Type 0} (table : Table D) (decimals : Decimals) where
  abbrev pub saved_limit :
      {A : Type 0} → A → D × Result AdminError (Unit {0}) → D × Result LimitError A
  saved_limit a (db, ok _) = (db, ok a)
  saved_limit a (db, err e) = (db, err save_failed)

  abbrev pub in_range : ℕ → Option ℤ → Result LimitError ℤ
  in_range high none = err not_a_number
  in_range high (some z) = if bad_limit high z then err out_of_range else ok z

  -- A limit that is stored, or else the default, which is stored then.
  unfoldable pub limit_of : Bytes → ℤ → ℕ → D → Result AdminError Bytes → D × Result LimitError ℤ
  limit_of key default high db (err e) = (db, err load_failed)
  limit_of key default high db (ok []) =
      saved_limit default (set_system_config table db key (decimals.itoa default))
  limit_of key default high db (ok (c ∷ s)) = (db, in_range high (decimals.parse_int32 (c ∷ s)))

  unfoldable pub load_limit : Bytes → ℤ → ℕ → D → D × Result LimitError ℤ
  unfolding limit_of
  load_limit key default high db = limit_of key default high db (get_system_config table db key)

  abbrev pub store_limits :
      Limits → ℤ → D × Result LimitError ℤ → State D × Result LimitError (Unit {0})
  store_limits old max_connections (db, err e) = (record { db = db; limits = old }, err e)
  store_limits old max_connections (db, ok per_ip) = (
    record {
      db = db;
      limits = record { max_connections = max_connections; max_connections_per_ip = per_ip };
    },
    ok tt,
  )

  unfoldable pub load_second :
      Limits → D × Result LimitError ℤ → State D × Result LimitError (Unit {0})
  unfolding load_limit
  load_second old (db, err e) = (record { db = db; limits = old }, err e)
  load_second old (db, ok max_connections) =
      store_limits old max_connections
        (load_limit key_max_connections_per_ip default_max_connections_per_ip 100000 db)

  -- `InitLimiterConfig`
  unfoldable pub init_limiter_config : State D → State D × Result LimitError (Unit {0})
  unfolding load_second
  init_limiter_config s =
      load_second s.limits (load_limit key_max_connections default_max_connections 1000000 s.db)

  unfoldable pub save_second :
      Limits → ℤ → ℤ → D × Result AdminError (Unit {0}) → State D × Result LimitError (Unit {0})
  save_second old max_connections per_ip (db, err e) =
      (record { db = db; limits = old }, err save_failed)
  save_second old max_connections per_ip (db, ok _) = store_limits old max_connections (
      saved_limit per_ip
        (set_system_config table db key_max_connections_per_ip (decimals.itoa per_ip)))

  -- `UpdateLimiterConfig`
  unfoldable pub update_limiter_config : ℤ → ℤ → State D → State D × Result LimitError (Unit {0})
  unfolding save_second
  update_limiter_config max_connections per_ip s =
      if bad_limit 1000000 max_connections
      then (s, err out_of_range)
      else if bad_limit 100000 per_ip
      then (s, err out_of_range)
      else save_second s.limits max_connections per_ip
          (set_system_config table s.db key_max_connections (decimals.itoa max_connections))
