-- ===== src/Proxy/Limiter.antt =====
-- internal/proxy/limiter.go: `ConnectionLimiter`, each call taken as one step. The semaphore is a
-- channel of which the number of waiting values counts. The counters stay below the limits that
-- internal/config/limiter.go admits, far from the bounds of `int32` and `int64`.
pub mod Accounting
use go_proxy_server.Prelude.{
  ℕ, ◌+◌, ◌-◌, Bool, true, false, if◌then◌else◌, ltb, ◌==◌, [], Option, none, some, Bytes,
  bytes_dec,
}
use go_proxy_server.Prelude.GoMap.{GoMap, lookup, insert, delete}

-- `LimiterConfig`; 0 is no limit.
pub record LimiterConfig : Type 0 where
  pub max_connections : ℕ
  pub max_per_ip : ℕ

pub record ConnectionLimiter : Type 0 where
  pub sem_cap : ℕ
  pub sem_used : ℕ
  pub per_ip : GoMap Bytes ℕ
  pub total : ℕ

-- `NewConnectionLimiter`
unfoldable pub new_limiter : LimiterConfig → ConnectionLimiter
new_limiter cfg = record {
  sem_cap = if cfg.max_connections == 0 then 2147483647 else cfg.max_connections;
  sem_used = 0;
  per_ip = [];
  total = 0;
}

abbrev pub or_zero : Option ℕ → ℕ
or_zero none = 0
or_zero (some n) = n

-- `GetPerIPConnections`
unfoldable pub per_ip_connections : ConnectionLimiter → Bytes → ℕ
per_ip_connections l ip = or_zero (lookup bytes_dec ip l.per_ip)

-- The per-IP check of `Acquire`: `LoadOrStore`, the increment, and the roll back beyond the limit.
unfoldable pub acquire_ip : LimiterConfig → ConnectionLimiter → Bytes → ConnectionLimiter × Bool
acquire_ip cfg l ip =
    let count = or_zero (lookup bytes_dec ip l.per_ip) in
    if ltb cfg.max_per_ip (count + 1)
    then (
      record l {
        per_ip = insert bytes_dec ip count l.per_ip;
        sem_used = if ltb 0 cfg.max_connections then l.sem_used - 1 else l.sem_used;
      },
      false,
    )
    else (record l { per_ip = insert bytes_dec ip (count + 1) l.per_ip; total = l.total + 1 }, true)

unfoldable pub acquire_checked :
    LimiterConfig → ConnectionLimiter → Bytes → ConnectionLimiter × Bool
acquire_checked cfg l ip =
    if ltb 0 cfg.max_per_ip then acquire_ip cfg l ip else (record l { total = l.total + 1 }, true)

-- `Acquire`
unfoldable pub acquire : LimiterConfig → ConnectionLimiter → Bytes → ConnectionLimiter × Bool
unfolding acquire_ip acquire_checked
acquire cfg l ip =
    if ltb 0 cfg.max_connections
    then if ltb l.sem_used l.sem_cap
      then acquire_checked cfg (record l { sem_used = l.sem_used + 1 }) ip
      else (l, false)
    else acquire_checked cfg l ip

-- The counter after `Release`, which deletes it at 0 and leaves it where it is not positive.
unfoldable pub release_ip : Bytes → GoMap Bytes ℕ → GoMap Bytes ℕ
release_ip ip m = elim (lookup bytes_dec ip m) [
  | none ↦ m
  | some count ↦
      if count == 0
      then m
      else if count - 1 == 0
      then delete bytes_dec ip m
      else insert bytes_dec ip (count - 1) m
]

-- `Release`. Subtraction stops at 0, as the code makes it do for the semaphore and the total.
unfoldable pub release : LimiterConfig → ConnectionLimiter → Bytes → ConnectionLimiter
unfolding release_ip
release cfg l ip = record l {
  per_ip = if ltb 0 cfg.max_per_ip then release_ip ip l.per_ip else l.per_ip;
  sem_used = if ltb 0 cfg.max_connections then l.sem_used - 1 else l.sem_used;
  total = l.total - 1;
}
