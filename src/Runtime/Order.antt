-- ===== src/Runtime/Order.antt =====
-- internal/runtime/runner.go: the order in which `Start` starts the services.
use go_proxy_server.Prelude.{
  ℕ, ◌+◌, ◌≡◌, refl, ap, ◌∙◌, inl, inr, Bool, true, false, if◌then◌else◌, not, List, [], ◌∷◌, ◌++◌,
  some, Result-cases,
}
use mathlib.Core.List.{append-nil, append_assoc}
use go_proxy_server.Runtime.Config.{Config}
use go_proxy_server.Runtime.Plan.{
  Service, socks, http, tunnel_server, tunnel_client, web, only, build_startup_plan,
}
use go_proxy_server.Runtime.Validate.{Parsers, validate}
use go_proxy_server.Runtime.Runner.{
  RunError, context_done, WebEnd, returned, returned_error, cancelled_cleanly, cancelled_error,
  World, Outcome, cleanup, shut_down, run_web, finish, start_one, start_loop, run,
}
use go_proxy_server.Runtime.Shutdown.{starts, without_web}

abbrev pub Prefix : List Service → List Service → Type 0
Prefix xs ys = (rest : List Service) × (xs ++ rest ≡ ys)

-- What an outcome starts is a prefix of a list.
abbrev InOrder : Outcome → List Service → Type 0
InOrder o ys = Prefix (starts o.0) ys

ite-InOrder :
    (b : Bool) (o p : Outcome) (ys : List Service)
    → (b ≡ true → InOrder o ys)
    → (b ≡ false → InOrder p ys)
    → InOrder (if b then o else p) ys
ite-InOrder true o p ys x y = x refl
ite-InOrder false o p ys x y = y refl

cleanup-InOrder :
    (started : Bool) (e : RunError) (ys : List Service) → InOrder (cleanup started, some e) ys
cleanup-InOrder true e ys = (ys, refl)
cleanup-InOrder false e ys = (ys, refl)

run_web-InOrder : (end : WebEnd) (ok started : Bool) → InOrder (run_web end ok started) (web ∷ [])
unfolding run_web
run_web-InOrder returned ok started = ([], refl)
run_web-InOrder returned_error ok true = ([], refl)
run_web-InOrder returned_error ok false = ([], refl)
run_web-InOrder cancelled_cleanly ok started = ([], refl)
run_web-InOrder cancelled_error ok started = ([], refl)

finish-InOrder :
    (w : World) (cfg : Config) (started : Bool)
    → InOrder (finish w cfg started) (only cfg.web.enabled web)
unfolding finish
finish-InOrder w cfg started = go cfg.web.enabled
  where
    go :
        (b : Bool)
        → InOrder
            (if not b
              then shut_down w.shutdown_ok (some context_done)
              else run_web w.web_end w.shutdown_ok started)
            (only b web)
    go true = run_web-InOrder w.web_end w.shutdown_ok started
    go false = ([], refl)

step-InOrder :
    (w : World) (started : Bool) (i : ℕ) (s : Service) (e : RunError) (o : Outcome)
    (ys : List Service)
    → InOrder o ys
    → InOrder (if w.cancelled i then (cleanup started, some e) else start_one w s o) (s ∷ ys)
step-InOrder w started i s e o ys (rest, p) =
    ite-InOrder (w.cancelled i) _ _ (s ∷ ys) (λ _. cleanup-InOrder started e (s ∷ ys))
      (λ _.
        ite-InOrder (w.start_ok s) _ _ (s ∷ ys) (λ _. (rest, ap (λ l. s ∷ l) p)) (λ _. (ys, refl)))

start_loop-InOrder :
    (w : World) (cfg : Config) (i : ℕ) (started : Bool) (plan : List Service)
    → InOrder (start_loop w cfg i started plan) (without_web plan ++ only cfg.web.enabled web)
unfolding start_loop
start_loop-InOrder w cfg i started [] = finish-InOrder w cfg started
start_loop-InOrder w cfg i started (web ∷ plan) =
    ite-InOrder (w.cancelled i) _ _ _ (λ _. cleanup-InOrder started context_done _)
      (λ _. start_loop-InOrder w cfg (i + 1) started plan)
start_loop-InOrder w cfg i started (socks ∷ plan) =
    step-InOrder w started i socks _ _ _ (start_loop-InOrder w cfg (i + 1) true plan)
start_loop-InOrder w cfg i started (http ∷ plan) =
    step-InOrder w started i http _ _ _ (start_loop-InOrder w cfg (i + 1) true plan)
start_loop-InOrder w cfg i started (tunnel_server ∷ plan) =
    step-InOrder w started i tunnel_server _ _ _ (start_loop-InOrder w cfg (i + 1) true plan)
start_loop-InOrder w cfg i started (tunnel_client ∷ plan) =
    step-InOrder w started i tunnel_client _ _ _ (start_loop-InOrder w cfg (i + 1) true plan)

without_web-only :
    (b : Bool) (s : Service) (xs : List Service)
    → without_web (s ∷ xs) ≡ s ∷ without_web xs
    → without_web (only b s ++ xs) ≡ only b s ++ without_web xs
without_web-only true s xs e = e
without_web-only false s xs e = refl

without_web-only_web : (b : Bool) → without_web (only b web) ≡ []
without_web-only_web true = refl
without_web-only_web false = refl

plan_lem :
    (a b c d e : Bool)
    → (without_web (
          only a socks
          ++ (only b http ++ (only c tunnel_server ++ (only d tunnel_client ++ only e web))))
        ++ only e web)
      ≡ (only a socks
          ++ (only b http ++ (only c tunnel_server ++ (only d tunnel_client ++ only e web))))
plan_lem a b c d e =
    rw
      (without_web-only a socks
        (only b http ++ (only c tunnel_server ++ (only d tunnel_client ++ only e web))) refl)
      (rw
        (without_web-only b http (only c tunnel_server ++ (only d tunnel_client ++ only e web))
          refl)
        (rw (without_web-only c tunnel_server (only d tunnel_client ++ only e web) refl) (
          rw (without_web-only d tunnel_client (only e web) refl)
            (rw (without_web-only_web e) (simp (append_assoc, append-nil))))))

-- Whatever fails, the services that `Start` starts are the first ones of its plan, in order.
pub run-Prefix :
    (parsers : Parsers) (w : World) (cfg : Config)
    → Prefix (starts (run parsers w cfg).0) (build_startup_plan cfg)
unfolding run build_startup_plan
run-Prefix parsers w cfg =
    let plan = build_startup_plan cfg in
    let (rest, p) = start_loop-InOrder w cfg 1 false plan in
    elim (Result-cases (validate parsers cfg)) [
      | inr (e, bad) ↦ rw (bad, run) (plan, refl)
      | inl (_, good) ↦
          rw (good, run)
            (ite-InOrder (not w.has_manager) _ _ plan (λ _. (plan, refl))
              (λ _.
                ite-InOrder (w.cancelled 0) _ _ plan (λ _. (plan, refl))
                  (λ _. (
                    rest,
                    p
                        ∙ plan_lem cfg.socks.enabled cfg.http.enabled cfg.tunnel_server.enabled
                            cfg.tunnel_client.enabled cfg.web.enabled,
                  ))))
    ]
