-- ===== src/Runtime/Shutdown.antt =====
-- internal/runtime/runner.go: how `Start` can end, and what it has started and shut down
-- by then.
use go_proxy_server.Prelude.{
  ℕ, ◌+◌, ◌≡◌, refl, ap, inl, inr, Bool, true, false, if◌then◌else◌, not, List, [], ◌∷◌, ◌++◌, none,
  some, arith, Result-cases,
}
use go_proxy_server.Runtime.Config.{Config}
use go_proxy_server.Runtime.Plan.{
  Service, socks, http, tunnel_server, tunnel_client, web, build_startup_plan,
}
use go_proxy_server.Runtime.Validate.{Parsers, validate}
use go_proxy_server.Runtime.Runner.{
  RunError, WebEnd, returned, returned_error, cancelled_cleanly, cancelled_error, World, Call,
  start, shutdown, Outcome, after, cleanup, shut_down, run_web, finish, start_one, start_loop, run,
}

-- The services started, in their order.
abbrev pub starts : List Call → List Service
starts [] = []
starts (start s ∷ cs) = s ∷ starts cs
starts (shutdown ∷ cs) = starts cs

-- Those among them that are not the web service.
abbrev pub without_web : List Service → List Service
without_web [] = []
without_web (web ∷ ss) = without_web ss
without_web (s ∷ ss) = s ∷ without_web ss

abbrev pub shutdowns : List Call → ℕ
shutdowns [] = 0
shutdowns (start s ∷ cs) = shutdowns cs
shutdowns (shutdown ∷ cs) = shutdowns cs + 1

-- How a start can end, `started` saying whether services were started before.
pub data Fate (end : WebEnd) (started : Bool) (o : Outcome) : Type 0 where
  untouched :
      (e : RunError)
      → o.1 ≡ some e
      → started ≡ false
      → without_web (starts o.0) ≡ []
      → shutdowns o.0 ≡ 0
      → Fate end started o
  served : end ≡ returned → o.1 ≡ none → shutdowns o.0 ≡ 0 → Fate end started o
  stopped :
      (e : RunError) (before : List Call)
      → o.1 ≡ some e
      → o.0 ≡ before ++ shutdown ∷ []
      → shutdowns before ≡ 0
      → Fate end started o

after-Fate :
    (end : WebEnd) (started : Bool) (s : Service) (o : Outcome)
    → Fate end true o
    → Fate end started (after (start s ∷ []) o)
after-Fate end started s o (untouched e r f w n) = absurd (ground arith)
after-Fate end started s o (served e r n) = served e r n
after-Fate end started s o (stopped e before r c n) =
    stopped e (start s ∷ before) r (ap (λ cs. start s ∷ cs) c) n

shut_down-Fate :
    (end : WebEnd) (started ok : Bool) (e : RunError) → Fate end started (shut_down ok (some e))
shut_down-Fate end started true e = stopped e [] refl refl refl
shut_down-Fate end started false e = stopped _ [] refl refl refl

run_web-Fate : (end : WebEnd) (ok started : Bool) → Fate end started (run_web end ok started)
unfolding run_web
run_web-Fate returned ok started = served refl refl refl
run_web-Fate returned_error ok true = stopped _ (start web ∷ []) refl refl refl
run_web-Fate returned_error ok false = untouched _ refl refl refl refl
run_web-Fate cancelled_cleanly ok started =
    after-Fate cancelled_cleanly started web _ (shut_down-Fate cancelled_cleanly true ok _)
run_web-Fate cancelled_error ok started =
    after-Fate cancelled_error started web _ (shut_down-Fate cancelled_error true ok _)

ite-Fate :
    (end : WebEnd) (started b : Bool) (o p : Outcome)
    → Fate end started o
    → Fate end started p
    → Fate end started (if b then o else p)
ite-Fate end started true o p x y = x
ite-Fate end started false o p x y = y

cleanup-Fate :
    (end : WebEnd) (started : Bool) (e : RunError) → Fate end started (cleanup started, some e)
cleanup-Fate end true e = stopped e [] refl refl refl
cleanup-Fate end false e = untouched e refl refl refl refl

start_one-Fate :
    (w : World) (started : Bool) (s : Service) (o : Outcome)
    → Fate w.web_end true o
    → Fate w.web_end started (start_one w s o)
start_one-Fate w started s o f =
    ite-Fate w.web_end started (w.start_ok s) _ _ (after-Fate w.web_end started s o f)
      (stopped _ (start s ∷ []) refl refl refl)

step-Fate :
    (w : World) (started : Bool) (i : ℕ) (s : Service) (e : RunError) (o : Outcome)
    → Fate w.web_end true o
    → Fate w.web_end started (if w.cancelled i then (cleanup started, some e) else start_one w s o)
step-Fate w started i s e o f =
    ite-Fate w.web_end started (w.cancelled i) _ _ (cleanup-Fate w.web_end started e)
      (start_one-Fate w started s o f)

start_loop-Fate :
    (w : World) (cfg : Config) (i : ℕ) (started : Bool) (plan : List Service)
    → Fate w.web_end started (start_loop w cfg i started plan)
unfolding start_loop finish
start_loop-Fate w cfg i started [] =
    ite-Fate w.web_end started (not cfg.web.enabled) _ _
      (shut_down-Fate w.web_end started w.shutdown_ok _)
      (run_web-Fate w.web_end w.shutdown_ok started)
start_loop-Fate w cfg i started (web ∷ plan) =
    ite-Fate w.web_end started (w.cancelled i) _ _ (cleanup-Fate w.web_end started _)
      (start_loop-Fate w cfg (i + 1) started plan)
start_loop-Fate w cfg i started (socks ∷ plan) =
    step-Fate w started i socks _ _ (start_loop-Fate w cfg (i + 1) true plan)
start_loop-Fate w cfg i started (http ∷ plan) =
    step-Fate w started i http _ _ (start_loop-Fate w cfg (i + 1) true plan)
start_loop-Fate w cfg i started (tunnel_server ∷ plan) =
    step-Fate w started i tunnel_server _ _ (start_loop-Fate w cfg (i + 1) true plan)
start_loop-Fate w cfg i started (tunnel_client ∷ plan) =
    step-Fate w started i tunnel_client _ _ (start_loop-Fate w cfg (i + 1) true plan)

-- `Start` ends in one of three ways: with an error, no service but perhaps the web service having
-- been started; without an error, because the web service has returned without one, nothing being
-- shut down; or with an error and a shutdown, the only one, as its last call.
pub run-Fate :
    (parsers : Parsers) (w : World) (cfg : Config) → Fate w.web_end false (run parsers w cfg)
unfolding run
run-Fate parsers w cfg = elim (Result-cases (validate parsers cfg)) [
  | inr (e, bad) ↦ rw (bad, run) (untouched _ refl refl refl refl)
  | inl (_, good) ↦
      rw (good, run)
        (ite-Fate w.web_end false (not w.has_manager) _ _ (untouched _ refl refl refl refl) (
          ite-Fate w.web_end false (w.cancelled 0) _ _ (untouched _ refl refl refl refl)
            (start_loop-Fate w cfg 1 false (build_startup_plan cfg))))
]
