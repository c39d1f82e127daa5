-- ===== src/Web/Sessions/Live.antt =====
-- internal/web/admin_auth.go: which tokens are good, and until when, after each operation.
use go_proxy_server.Prelude.{
  ℕ, ◌+◌, ◌≤◌, ◌≡◌, refl, ap, Bool, false, leb, not, ◌&&◌, [], ◌∷◌, Option, none, some, Bytes,
  bytes_dec, ite, arith,
}
use go_proxy_server.Prelude.Hex.{hex_encode}
use go_proxy_server.Prelude.GoMap.{lookup, lookup-insert, lookup-delete}
use go_proxy_server.Prelude.Strings.{is_empty}
use go_proxy_server.Web.Sessions.{
  AdminSession, Sessions, session_ttl, new_session, create_session, validate_session,
  delete_session, clean_sessions,
}

-- A session that a token has is not past its end at a time.
unfoldable pub good_at : ℕ → Option AdminSession → Bool
good_at t none = false
good_at t (some s) = leb t s.expires_at

-- The token has a session that is good at a time.
unfoldable pub live : ℕ → Sessions → Bytes → Bool
live t sessions token = good_at t (lookup bytes_dec token sessions)

-- Validation answers whether a token that is not empty is live.
validate_session-live :
    (now : ℕ) (token : Bytes) (sessions : Sessions)
    → (validate_session now token sessions).1 ≡ (not (is_empty token) && live now sessions token)
unfolding validate_session live good_at
validate_session-live now token sessions = ground arith

-- It forgets only what is over.
live-validate_session :
    (t now : ℕ) (token j : Bytes) (sessions : Sessions)
    → now ≤ t
    → live t (validate_session now token sessions).0 j ≡ live t sessions j
unfolding validate_session live good_at
live-validate_session t now token j sessions h =
    ground (arith, lookup-delete bytes_dec token j sessions)

-- Validation says yes exactly to a token, not the empty one, whose session has not ended, and does
-- not change which tokens are live then and later.
pub validate_session_lem :
    (now : ℕ) (token : Bytes) (sessions : Sessions)
    → ((validate_session now token sessions).1 ≡ (not (is_empty token) && live now sessions token))
      × ((t : ℕ) (j : Bytes)
          → now ≤ t
          → live t (validate_session now token sessions).0 j ≡ live t sessions j)
validate_session_lem now token sessions = (
  validate_session-live now token sessions,
  λ t j h. live-validate_session t now token j sessions h,
)

-- A new session is live for twelve hours and no longer, and no other token is touched.
pub live-create_session :
    (buf : Bytes) (now t : ℕ) (j : Bytes) (sessions : Sessions)
    → live t (create_session (some buf) now sessions).0 j
      ≡ ite (bytes_dec (hex_encode buf) j) (leb t (now + session_ttl)) (live t sessions j)
unfolding create_session live good_at
live-create_session buf now t j sessions =
    ground (
      arith,
      lookup-insert bytes_dec (hex_encode buf) j (new_session now (hex_encode buf)) sessions,
    )

-- After a logout the token is not live at any time, and no other token is touched.
pub live-delete_session :
    (t : ℕ) (token j : Bytes) (sessions : Sessions)
    → is_empty token ≡ false
    → live t (delete_session token sessions) j ≡ ite (bytes_dec token j) false (live t sessions j)
unfolding delete_session live good_at
live-delete_session t token j sessions h = ground (arith, lookup-delete bytes_dec token j sessions)

-- The tokens of a map are distinct.
abbrev pub DistinctTokens : Sessions → Type 0
DistinctTokens [] = Unit {0}
DistinctTokens ((token, s) ∷ sessions) =
    (lookup bytes_dec token sessions ≡ none) × DistinctTokens sessions

lookup-clean_sessions-none :
    (now : ℕ) (token : Bytes) (sessions : Sessions)
    → lookup bytes_dec token sessions ≡ none
    → lookup bytes_dec token (clean_sessions now sessions) ≡ none
unfolding lookup clean_sessions
lookup-clean_sessions-none now token [] h = refl
lookup-clean_sessions-none now token ((k, s) ∷ sessions) h =
    ground (arith, lookup-clean_sessions-none now token sessions)

-- A round of the clean-up does not change which tokens are live then and later.
pub live-clean_sessions :
    (t now : ℕ) (j : Bytes) (sessions : Sessions)
    → DistinctTokens sessions
    → now ≤ t
    → live t (clean_sessions now sessions) j ≡ live t sessions j
unfolding clean_sessions live good_at lookup
live-clean_sessions t now j [] d h = refl
live-clean_sessions t now j ((k, s) ∷ sessions) (new, d) h =
    let ih = live-clean_sessions t now j sessions d h in
    let gone = lookup-clean_sessions-none now k sessions new in
    elim (bytes_dec k j) [
      | yes p ↦ ground (arith, ap (λ x. lookup bytes_dec x (clean_sessions now sessions)) p)
      | no n ↦ ground arith
    ]
