-- ===== src/Web/Sessions.antt =====
-- internal/web/admin_auth.go: the sessions of the web administration. A time is a number of
-- seconds, and `now.After(t)` is `t < now`; the clock and the random bytes are arguments.
pub mod Live
use go_proxy_server.Prelude.{
  ℕ, ◌+◌, ◌*◌, ◌/◌, ◌%◌, Bool, true, false, if◌then◌else◌, ltb, List, [], ◌∷◌, Option, none, some,
  Bytes, bytes_dec,
}
use go_proxy_server.Prelude.Hex.{hex_encode}
use go_proxy_server.Prelude.GoMap.{GoMap, lookup, insert, delete}
use go_proxy_server.Prelude.Strings.{is_empty}

-- `adminSession`
pub record AdminSession : Type 0 where
  pub token : Bytes
  pub expires_at : ℕ
  pub created_at : ℕ

abbrev pub Sessions : Type 0
Sessions = GoMap Bytes AdminSession

-- `adminSessionTTL`, twelve hours
abbrev pub session_ttl : ℕ
session_ttl = 43200

abbrev pub new_session : ℕ → Bytes → AdminSession
new_session now token = record { token = token; created_at = now; expires_at = now + session_ttl }

-- `createSession`; `none` is a failure of the random source.
unfoldable pub create_session : Option Bytes → ℕ → Sessions → Sessions × Option AdminSession
create_session none now sessions = (sessions, none)
create_session (some buf) now sessions =
    let session = new_session now (hex_encode buf) in
    (insert bytes_dec session.token session sessions, some session)

-- `validateSession`
unfoldable pub validate_session : ℕ → Bytes → Sessions → Sessions × Bool
validate_session now token sessions =
    if is_empty token then (sessions, false) else elim (lookup bytes_dec token sessions) [
      | none ↦ (sessions, false)
      | some s ↦
          if ltb s.expires_at now
          then (delete bytes_dec token sessions, false)
          else (sessions, true)
    ]

-- `deleteSession`
unfoldable pub delete_session : Bytes → Sessions → Sessions
delete_session token sessions = if is_empty token then sessions else delete bytes_dec token sessions

-- One round of `cleanupExpiredSessions`.
unfoldable pub clean_sessions : ℕ → Sessions → Sessions
clean_sessions now [] = []
clean_sessions now ((token, s) ∷ sessions) =
    let rest = clean_sessions now sessions in
    if ltb s.expires_at now then rest else (token, s) ∷ rest
