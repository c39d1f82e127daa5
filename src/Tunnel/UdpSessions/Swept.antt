-- ===== src/Tunnel/UdpSessions/Swept.antt =====
-- internal/tunnel/quic_server.go: one UDP session in a clean-up, and at the end of its route.
use go_proxy_server.Prelude.{
  ℕ, ◌-◌, ◌≡◌, ◌≢◌, refl, ap, sym, ◌∙◌, Bool, true, false, if◌then◌else◌, ite, if_pos, if_neg, [],
  ◌∷◌, Option, none, some, some-injective, Bytes, bytes_dec, All, arith,
}
use go_proxy_server.Prelude.GoMap.{GoMap, lookup, lookup-delete}
use go_proxy_server.Tunnel.UdpSessions.{
  UdpSession, UdpSessions, UdpRoute, drop, sweep, before, cleanup, close,
}
use go_proxy_server.Tunnel.UdpSessions.InStep.{InStep, Listed, all_Listed}
use go_proxy_server.Tunnel.UdpSessions.Follows.{is_idle, unless}

before-is_idle : (timeout now : ℕ) (o : Option ℕ) → before (now - timeout) o ≡ is_idle timeout now o
before-is_idle timeout now none = refl
before-is_idle timeout now (some time) = ground arith

either :
    (P : UdpSessions → Type 0) (b : Bool) (s t : UdpSessions)
    → (b ≡ true → P s)
    → (b ≡ false → P t)
    → P (if b then s else t)
either P true s t f g = f refl
either P false s t f g = g refl

drop-by_id :
    (key id : Bytes) (x : UdpSession) (s : UdpSessions)
    → lookup bytes_dec id ((drop key x s).by_id)
      ≡ ite (bytes_dec key id) none (lookup bytes_dec id s.by_id)
unfolding drop
drop-by_id key id x s = lookup-delete bytes_dec key id s.by_id

-- A session that is not there does not come back.
sweep-none :
    (test : UdpSession → Bool) (sessions : GoMap Bytes UdpSession) (id : Bytes) (s : UdpSessions)
    → lookup bytes_dec id s.by_id ≡ none
    → lookup bytes_dec id ((sweep test sessions s).by_id) ≡ none
unfolding sweep
sweep-none test [] id s e = e
sweep-none test ((key, x) ∷ sessions) id s e =
    either (λ t. lookup bytes_dec id t.by_id ≡ none) (test x) _ _
      (λ _. sweep-none test sessions id (drop key x s) (ground (arith, drop-by_id key id x s)))
      (λ _. sweep-none test sessions id s e)

-- A session that the test does not pick stays.
sweep-keeps :
    (test : UdpSession → Bool) (sessions : GoMap Bytes UdpSession) (id : Bytes) (s : UdpSessions)
    → All (λ p. p.0 ≡ id → test p.1 ≡ false) sessions
    → lookup bytes_dec id ((sweep test sessions s).by_id) ≡ lookup bytes_dec id s.by_id
unfolding sweep
sweep-keeps test [] id s h = refl
sweep-keeps test ((key, x) ∷ sessions) id s (h, hs) =
    let r = lookup bytes_dec id s.by_id in
    either (λ t. lookup bytes_dec id t.by_id ≡ r) (test x) _ _
      (λ picked.
        let other : key ≢ id = λ e. absurd (ground (arith, h e)) in
        sweep-keeps test sessions id (drop key x s) hs
        ∙ drop-by_id key id x s
        ∙ if_neg (bytes_dec key id) other none r)
      (λ _. sweep-keeps test sessions id s hs)

-- A session that the test picks goes.
sweep-drops :
    (test : UdpSession → Bool) (sessions : GoMap Bytes UdpSession) (id : Bytes) (x : UdpSession)
    (s : UdpSessions)
    → lookup bytes_dec id sessions ≡ some x
    → test x ≡ true
    → lookup bytes_dec id ((sweep test sessions s).by_id) ≡ none
unfolding sweep lookup
sweep-drops test [] id x s e picked = absurd (ground arith)
sweep-drops test ((key, y) ∷ sessions) id x s e picked = elim (bytes_dec key id) [
  | yes p ↦
      let is_x : y ≡ x =
        some-injective y x
          (sym (if_pos (bytes_dec key id) p (some y) (lookup bytes_dec id sessions)) ∙ e) in
      either (λ t. lookup bytes_dec id t.by_id ≡ none) (test y) _ _
        (λ _.
          sweep-none test sessions id (drop key y s) (
            drop-by_id key id y s ∙ if_pos (bytes_dec key id) p none (lookup bytes_dec id s.by_id)))
        (λ kept. absurd (ground (arith, ap test is_x)))
  | no q ↦
      let e' : lookup bytes_dec id sessions ≡ some x =
        sym (if_neg (bytes_dec key id) q (some y) (lookup bytes_dec id sessions)) ∙ e in
      either (λ t. lookup bytes_dec id t.by_id ≡ none) (test y) _ _
        (λ _. sweep-drops test sessions id x (drop key y s) e' picked)
        (λ _. sweep-drops test sessions id x s e' picked)
]

not_picked :
    (test : UdpSession → Bool) (id : Bytes) (x : UdpSession) (s : UdpSessions)
    (sessions : GoMap Bytes UdpSession)
    → lookup bytes_dec id s.by_id ≡ some x
    → test x ≡ false
    → Listed s sessions
    → All (λ p. p.0 ≡ id → test p.1 ≡ false) sessions
not_picked test id x s [] at keep h = tt
not_picked test id x s ((key, y) ∷ sessions) at keep (h, hs) = (
  (λ e.
      let is_x : x ≡ y =
        some-injective x y (sym at ∙ ap (λ i. lookup bytes_dec i s.by_id) (sym e) ∙ h) in
      ap test (sym is_x) ∙ keep),
  not_picked test id x s sessions at keep hs,
)

pub cleanup-by_id :
    (route : UdpRoute) (now : ℕ) (id : Bytes) (x : UdpSession) (s : UdpSessions)
    → InStep s
    → lookup bytes_dec id s.by_id ≡ some x
    → lookup bytes_dec id ((cleanup route now s).by_id)
      ≡ unless (is_idle route.udp_idle_timeout_sec now (lookup bytes_dec id s.last_activity)) x
unfolding cleanup
cleanup-by_id route now id x s v at = by_test _ refl
  where
    test : UdpSession → Bool
    test y = before (now - route.udp_idle_timeout_sec) (lookup bytes_dec y.id s.last_activity)

    is_test : test x ≡ is_idle route.udp_idle_timeout_sec now (lookup bytes_dec id s.last_activity)
    is_test =
        before-is_idle route.udp_idle_timeout_sec now (lookup bytes_dec x.id s.last_activity)
        ∙ ap (λ i. is_idle route.udp_idle_timeout_sec now (lookup bytes_dec i s.last_activity))
            ((v.from_id id x at).0)

    by_test :
        (b : Bool)
        → is_idle route.udp_idle_timeout_sec now (lookup bytes_dec id s.last_activity) ≡ b
        → lookup bytes_dec id ((sweep test s.by_id s).by_id) ≡ unless b x
    by_test true e = sweep-drops test s.by_id id x s at (is_test ∙ e)
    by_test false e =
        sweep-keeps test s.by_id id s
          (not_picked test id x s s.by_id at (is_test ∙ e) (all_Listed s v))
        ∙ at

pub cleanup-none :
    (route : UdpRoute) (now : ℕ) (id : Bytes) (s : UdpSessions)
    → lookup bytes_dec id s.by_id ≡ none
    → lookup bytes_dec id ((cleanup route now s).by_id) ≡ none
unfolding cleanup
cleanup-none route now id s e = sweep-none _ s.by_id id s e

pub close-by_id :
    (id : Bytes) (x : UdpSession) (gone : Bool) (s : UdpSessions)
    → lookup bytes_dec id s.by_id ≡ unless gone x
    → lookup bytes_dec id ((close s).by_id) ≡ none
unfolding close
close-by_id id x true s e = sweep-none (λ x. true) s.by_id id s e
close-by_id id x false s e = sweep-drops (λ x. true) s.by_id id x s e refl
