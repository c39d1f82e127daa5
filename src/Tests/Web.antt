-- ===== src/Tests/Web.antt =====
-- internal/web/admin_auth.go at concrete inputs.
use go_proxy_server.Prelude.{
  ℕ, ◌≤◌, ◌≡◌, refl, Bool, true, false, ◌&&◌, not, leb, [], ◌∷◌, Option, none, some, Bytes,
  bytes_dec, length, ok, codes,
}
use go_proxy_server.Prelude.GoMap.{lookup}
use go_proxy_server.Prelude.Strings.{is_empty, same}
use go_proxy_server.Web.Sessions.{AdminSession, Sessions, validate_session}
use go_proxy_server.Web.Sessions.Live.{live, validate_session_lem}
use go_proxy_server.Web.Admin.{
  Table, Found, row, not_found, password_key, get_system_config, Manager, Inputs, bootstrap,
  verify_password, ensure_token, stored_first, store_first, check_expected, check_token, upgrade,
}
use go_proxy_server.Web.Admin.Guarded.{
  Bootstrapped, Upgraded, bootstrap-Bootstrapped, verify_password_inv,
}

-- Two sessions, of which the first has ended by the time 60.
abbrev two_sessions : Sessions
two_sessions =
    (codes "a", record { token = codes "a"; expires_at = 50; created_at = 0 })
    ∷ (codes "b", record { token = codes "b"; expires_at = 90; created_at = 40 })
    ∷ []

validate_session_lem_example :
    ((validate_session 60 (codes "a") two_sessions).1
      ≡ (not (is_empty (codes "a")) && live 60 two_sessions (codes "a")))
    × ((t : ℕ) (j : Bytes)
        → 60 ≤ t
        → live t (validate_session 60 (codes "a") two_sessions).0 j ≡ live t two_sessions j)
validate_session_lem_example = validate_session_lem 60 (codes "a") two_sessions

named : is_empty (codes "b") ≡ false
unfolding is_empty
named = refl

apart :
    lookup {V = AdminSession} bytes_dec
      (codes "a")
      ((codes "b", record { token = codes "b"; expires_at = 90; created_at = 40 }) ∷ [])
    ≡ none
unfolding lookup bytes_dec
apart = refl

alone : (s : Bytes) → lookup {V = AdminSession} bytes_dec s [] ≡ none
unfolding lookup
alone s = refl

abbrev found : Option Bytes → Found
found none = not_found
found (some v) = row v

-- A table that never fails, and holds one value at most.
abbrev one_row : Table (Option Bytes)
one_row = record {
  find = λ db _. found db;
  create = λ db _ v. (some v, true);
  save = λ db _ v. (some v, true);
  create_if_absent =
      λ db _ v. elim db [ none ↦ (some v, some true) | some w ↦ (some w, some false) ];
}

abbrev fresh : Manager one_row
fresh = record { db = none; bootstrap_token = codes "t0" }

abbrev configured : Manager one_row
configured = record { db = some (codes "h"); bootstrap_token = [] }

abbrev inputs : Inputs one_row
inputs = record { env_token = []; random = some (1 ∷ []); hash = some (codes "h") }

fresh-bootstrapped :
    bootstrap one_row inputs (codes "password") (codes "t0") fresh ≡ (configured, ok tt)
unfolding bootstrap check_token check_expected ensure_token store_first stored_first
    get_system_config is_empty same bytes_dec
fresh-bootstrapped = refl

bootstrap-Bootstrapped_example :
    Bootstrapped one_row inputs (codes "password") (codes "t0") fresh configured
bootstrap-Bootstrapped_example =
    bootstrap-Bootstrapped one_row inputs (codes "password") (codes "t0") fresh configured
      fresh-bootstrapped

configured_value : get_system_config one_row configured.db password_key ≡ ok (codes "h")
unfolding get_system_config
configured_value = refl

value_set : is_empty (codes "h") ≡ false
unfolding is_empty
value_set = refl

-- A hash no longer than the password verifies it.
abbrev by_length : Bytes → Bytes → Bool × Bool
by_length stored password = (leb (length stored) (length password), false)

logged_in : verify_password one_row by_length inputs (codes "x") configured ≡ (configured, ok true)
unfolding verify_password get_system_config is_empty upgrade
logged_in = refl

verify_password_inv_example :
    (stored : Bytes) × (get_system_config one_row configured.db password_key ≡ ok stored)
    × (is_empty stored ≡ false)
    × ((by_length stored (codes "x")).0 ≡ true)
    × Upgraded one_row inputs (by_length stored (codes "x")).1 configured configured
verify_password_inv_example =
    verify_password_inv one_row by_length inputs (codes "x") configured configured logged_in
