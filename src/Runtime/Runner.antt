-- ===== src/Runtime/Runner.antt =====
-- internal/runtime/runner.go: `Runner.Start` as the list of its calls to the manager, with what it
-- returns. The answers of the manager and of the context are arguments: `cancelled i` is what
-- `ctx.Err()` says when it is asked for the i-th time before the wait for the end.
use go_proxy_server.Prelude.{
  ℕ, ◌+◌, Bool, true, false, if◌then◌else◌, not, List, [], ◌∷◌, ◌++◌, Option, none, some, ok, err,
}
use go_proxy_server.Runtime.Config.{Config}
use go_proxy_server.Runtime.Plan.{Service, web, build_startup_plan}
use go_proxy_server.Runtime.Validate.{Parsers, ConfigError, validate}

-- What `Start` returns, unless `nil`.
pub data RunError : Type 0 where
  invalid : ConfigError → RunError
  nil_manager : RunError
  context_done : RunError
  failed : Service → RunError
  shutdown_failed : RunError

-- How the web service ends: by itself, without or with an error, or after the context is done,
-- with no error or `context.Canceled`, or with another error.
pub data WebEnd : Type 0 where
  returned returned_error : WebEnd
  cancelled_cleanly cancelled_error : WebEnd

pub record World : Type 0 where
  pub has_manager : Bool
  pub cancelled : ℕ → Bool
  pub start_ok : Service → Bool
  pub shutdown_ok : Bool
  pub web_end : WebEnd

pub data Call : Type 0 where
  start : Service → Call
  shutdown : Call

abbrev pub Outcome : Type 0
Outcome = List Call × Option RunError

abbrev pub after : List Call → Outcome → Outcome
after calls o = (calls ++ o.0, o.1)

-- `if startedAny { cleanupOnFailure() }`
abbrev pub cleanup : Bool → List Call
cleanup started = if started then shutdown ∷ [] else []

-- `if err := r.Manager.Shutdown(); err != nil { return err }`, and else `e`.
abbrev pub shut_down : Bool → Option RunError → Outcome
shut_down shutdown_ok e = (shutdown ∷ [], if shutdown_ok then e else some shutdown_failed)

-- The `select` at the end, where the web service runs.
unfoldable pub run_web : WebEnd → Bool → Bool → Outcome
run_web returned shutdown_ok started = (start web ∷ [], none)
run_web returned_error shutdown_ok started = (start web ∷ cleanup started, some (failed web))
run_web cancelled_cleanly shutdown_ok started =
    after (start web ∷ []) (shut_down shutdown_ok (some context_done))
run_web cancelled_error shutdown_ok started =
    after (start web ∷ []) (shut_down shutdown_ok (some (failed web)))

-- What follows the loop.
unfoldable pub finish : World → Config → Bool → Outcome
unfolding run_web
finish w cfg started =
    if not cfg.web.enabled
    then shut_down w.shutdown_ok (some context_done)
    else run_web w.web_end w.shutdown_ok started

-- One service of the plan: the call, and how the loop goes on if it succeeds.
abbrev pub start_one : World → Service → Outcome → Outcome
start_one w s rest =
    if w.start_ok s then after (start s ∷ []) rest else (start s ∷ shutdown ∷ [], some (failed s))

-- The loop over the plan, whose `switch` has no case for the web service.
unfoldable pub start_loop : World → Config → ℕ → Bool → List Service → Outcome
unfolding finish
start_loop w cfg i started [] = finish w cfg started
start_loop w cfg i started (web ∷ plan) =
    let rest = start_loop w cfg (i + 1) started plan in
    if w.cancelled i then (cleanup started, some context_done) else rest
start_loop w cfg i started (s ∷ plan) =
    let rest = start_loop w cfg (i + 1) true plan in
    if w.cancelled i then (cleanup started, some context_done) else start_one w s rest

-- `Start`
unfoldable pub run : Parsers → World → Config → Outcome
unfolding start_loop
run parsers w cfg = elim (validate parsers cfg) [
  | err e ↦ ([], some (invalid e))
  | ok _ ↦
      if not w.has_manager
      then ([], some nil_manager)
      else if w.cancelled 0
      then ([], some context_done)
      else start_loop w cfg 1 false (build_startup_plan cfg)
]
