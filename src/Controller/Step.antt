-- ===== src/Controller/Step.antt =====
-- infrastructure/hyperloom/sglang-owner-adapter/controller.py: `_step`, `step`, `_publish` and `serve`.
use arch_linux_threadripper.Prelude.{
  ℕ, zero, suc, String, Bool, true, false, not, ◌&&◌, Option, none, some, List, [], ◌∷◌, leb, ltb,
  if◌then◌else◌, Result, ok, err,
}
use arch_linux_threadripper.Prelude.Int.{pos}
use arch_linux_threadripper.Json.{
  Json, null, bool, int, str, arr, obj, Fields, end, field, Items, nil, cons, items_length, get,
  get_or, put, truthy, mem_str,
}
use arch_linux_threadripper.Exchange.Terms.{Fault, refused, already_exists, is_job_id, is_text}
use arch_linux_threadripper.Exchange.Requests.{Request}
use arch_linux_threadripper.Exchange.Host.{max_queued}
use arch_linux_threadripper.Exchange.Retain.{retain_snapshot}
use arch_linux_threadripper.Controller.State.{
  Stop, raised, screened, root, job, State, Environment, M, ◌>>=◌, ◌>>◌, return, stop_with,
  lift_result, demand, modify, write,
}
use arch_linux_threadripper.Controller.Calls.{remaining, call, catch, stop_text, set_parked, park}
use arch_linux_threadripper.Controller.Owner.{check_closure, request_digest, attempt}

-- How a step ends: its status, and the document that it returns.
pub data Answer : Type 0 where
  exhausted idle failed : Answer
  handled : Fields → Answer

abbrev pub with_name : String → Result Fault (List String) → Result Fault (List String)
with_name s (ok names) = ok (s ∷ names)
with_name s (err f) = err f

-- The names of the queue, which are distinct job identities.
unfoldable pub read_names : Items → List String → Result Fault (List String)
read_names nil seen = ok []
read_names (cons (str s) rest) seen =
    let later = read_names rest (s ∷ seen) in
    if is_job_id s && not (mem_str s seen)
    then with_name s later
    else err (refused "bounded distinct exchange jobs required")
read_names (cons _ rest) seen = err (refused "bounded distinct exchange jobs required")

unfoldable pub read_queue : Option Json → Result Fault (List String)
read_queue (some (arr xs)) =
    if leb (items_length xs) max_queued
    then read_names xs []
    else err (refused "bounded distinct exchange jobs required")
read_queue _ = err (refused "bounded distinct exchange jobs required")

-- root.mkdir(): a job that was there before raises FileExistsError.
unfoldable pub make_job : String → M (Unit {0})
make_job id s =
    if mem_str id s.jobs
    then (err (raised already_exists), s)
    else (ok tt, record s { jobs = id ∷ s.jobs })

-- The outcome before the job is tried.
abbrev pub fresh_outcome : Environment → String → Request → Fields
fresh_outcome env id r = field "schema" (int (pos 1)) (
    field "id" (str id) (
      field "campaign_sha256" (str env.bound.campaign) (
        field "controller_sha256" (str env.bound.controller) (
          field "request_sha256" (str (request_digest env r)) (
            field "config_sha256" (str r.config) (
              field "source_set_sha256" (str r.source_set) (
                field "status" (str "FAILED") (
                  field "independent_release" (bool false) (
                    field "owner_seal_sha256" null (
                      field "payload" (obj end) (
                        field "owner_started" (bool false) (
                          field "adoption_authorized" (bool false) (
                            field "automatic_retry" (bool false) (
                              field "qualification" (bool false) (
                                field "park_campaign" (bool true)
                                  (field "reason" null end))))))))))))))))

abbrev pub start_outcome : Environment → String → Request → State → State
start_outcome env id r s = record s { outcome = fresh_outcome env id r }

-- outcome.update(status="FAILED", park_campaign=True, reason=…)
abbrev pub note_failure : Environment → Stop → State → State
note_failure env e s = record s {
  outcome =
      put (put (put s.outcome "status" (str "FAILED")) "park_campaign" (bool true)) "reason"
        (str (stop_text env e));
}

-- The two `except` clauses around the attempt.
unfoldable pub excuse : Environment → Stop → M (Unit {0})
excuse env screened = return tt
excuse env e = modify (note_failure env e)

-- The publication, and the check of its receipt
unfoldable pub send_outcome : Environment → String → Request → Fields → M (Unit {0})
send_outcome env id r outcome = do
  published ← call env "publish" (some r.id) (some (obj outcome)) (some r.expires)
  demand
      (is_text (env.codec.digest (env.codec.canonical (obj outcome)))
        (get published "published_sha256"))
      "published result identity mismatch"
  write (job id) "PUBLICATION.json" (obj published)

unfoldable pub park_here : M (Unit {0})
park_here = modify (set_parked true)

-- A publication that fails parks the controller, is noted, and goes on.
unfoldable pub note_lost : Environment → String → Request → Fields → Stop → M (Unit {0})
note_lost env id r outcome e = do
  park_here
  write (job id) "PUBLICATION-FAILURE.json" (
      obj (
        field "reason" (str (stop_text env e)) (
          field "retained" (str (env.codec.digest (env.codec.canonical (obj outcome))))
            (field "automatic_retry" (bool false) (field "park_campaign" (bool true) end)))))
  stop_with e

-- outcome.get("reason") or …
abbrev pub park_reason : Environment → Json → String
park_reason env reason =
    if truthy reason then env.shown reason else "owner operation requires campaign closeout"

unfoldable pub park_if : Environment → String → Bool → M (Unit {0})
park_if env reason true = park env reason
park_if env reason false = return tt

unfoldable pub park_as_told : Fields → M (Unit {0})
park_as_told outcome = modify (set_parked (truthy (get_or outcome "park_campaign" null)))

-- `_publish`
unfoldable pub publish_outcome : Environment → String → Request → Fields → M Answer
publish_outcome env id r outcome = do
  write (job id) "OUTCOME.json" (obj outcome)
  park_as_told outcome
  catch (send_outcome env id r outcome) (note_lost env id r outcome)
  park_if env (park_reason env (get_or outcome "reason" null))
      (truthy (get_or outcome "park_campaign" null))
  return (handled outcome)

unfoldable pub publish_job : Environment → String → Request → M Answer
publish_job env id r s = publish_outcome env id r s.outcome s

unfoldable pub begin_outcome : Environment → String → Request → M (Unit {0})
begin_outcome env id r = modify (start_outcome env id r)

-- The private copy of a job, and the attempt at it
unfoldable pub try_job : Environment → String → Fields → M Request
try_job env id snapshot = do
  p ← lift_result (retain_snapshot env.codec env.unpack env.bound (env.fresh id) (obj snapshot))
  begin_outcome env id p.request
  catch (attempt env id p) (excuse env)
  return p.request

-- A step from the moment when a job is taken.
unfoldable pub handle_job : Environment → String → M Answer
handle_job env id = do
  snapshot ← call env "take" (some id) none none
  make_job id
  r ← try_job env id snapshot
  publish_job env id r

unfoldable pub next_job : Environment → List String → M Answer
next_job env [] = do _ ← remaining env; return idle
next_job env (id ∷ rest) = handle_job env id

unfoldable pub poll : Environment → M Answer
poll env = do
  listing ← call env "list" none none none
  queue ← lift_result (read_queue (get listing "jobs"))
  next_job env queue

unfoldable pub end_budget : M Answer
end_budget = do park_here; return exhausted

-- `_step`
unfoldable pub try_step : Environment → M Answer
try_step env = do
  check_closure env
  left ← remaining env
  if leb left 30000 then end_budget else poll env

abbrev pub dispatch_failure : Environment → Stop → Json
dispatch_failure env e = obj (
    field "schema" (int (pos 1)) (
      field "status" (str "FAILED") (
        field "owner_started" null (
          field "park_campaign" (bool true) (
            field "reason" (str (stop_text env e)) (
              field "automatic_retry" (bool false) (
                field "adoption_authorized" (bool false)
                  (field "independent_release" (bool false) end))))))))

-- The `except` clause of `step`
unfoldable pub close_down : Environment → Stop → M Answer
close_down env e = do
  write root "DISPATCH-FAILURE.json" (dispatch_failure env e)
  park env (stop_text env e)
  return failed

-- `step`
unfoldable pub step_unless : Environment → Bool → M Answer
step_unless env true = stop_with (raised (refused "campaign is parked"))
step_unless env false = catch (try_step env) (close_down env)

unfoldable pub step : Environment → M Answer
step env s = step_unless env s.parked s

-- `(self.root / "STOP.json").exists()`, at the current reading
unfoldable pub sees_stop : Environment → M Bool
sees_stop env s = (ok (env.stop s.ticks), s)

-- The sleep of an idle turn reads the clock.
unfoldable pub pause : Environment → Answer → M (Unit {0})
pause env idle = do _ ← remaining env; return tt
pause env _ = return tt

-- The body of the loop, where STOP.json is there or not, and whether the loop goes on
unfoldable pub serve_turn : Environment → Bool → M Bool
serve_turn env true = do park env "campaign supervisor requested closeout"; return false
serve_turn env false = do answer ← step env; pause env answer; return true

-- The body of the loop where its test holds or not
unfoldable pub serve_while : Environment → Bool → M Bool
serve_while env false = return false
serve_while env true = do stopping ← sees_stop env; serve_turn env stopping

-- The test of the loop, `not self.parked and self.remaining() > 30`, and its body
unfoldable pub serve_unless : Environment → Bool → M Bool
serve_unless env true = return false
serve_unless env false = do left ← remaining env; serve_while env (ltb 30000 left)

unfoldable pub serve_once : Environment → M Bool
serve_once env s = serve_unless env s.parked s

unfoldable pub go_on :
    (State → Option (Result Stop (Unit {0}) × State))
    → Result Stop Bool × State
    → Option (Result Stop (Unit {0}) × State)
go_on later (ok true, s) = later s
go_on later (ok false, s) = some (ok tt, s)
go_on later (err e, s) = some (err e, s)

-- The loop of `serve`; none where the fuel is used up
unfoldable pub serve_loop : ℕ → Environment → State → Option (Result Stop (Unit {0}) × State)
serve_loop zero env s = none
serve_loop (suc fuel) env s = go_on (serve_loop fuel env) (serve_once env s)

-- The `finally` clause
unfoldable pub close_serving : Environment → M (Unit {0})
close_serving env = do
  park env "campaign controller stopped"
  left ← remaining env
  write root "CONTROLLER-STOPPED.json" (
      obj (
        field "schema" (int (pos 1)) (
          field "remaining_milliseconds" (int (pos left))
            (field "adoption_authorized" (bool false) (field "automatic_retry" (bool false) end)))))

-- An exception of the `finally` clause takes the place of the loop's.
unfoldable pub after_closing :
    Result Stop (Unit {0}) → Result Stop (Unit {0}) → Result Stop (Unit {0})
after_closing outcome (ok _) = outcome
after_closing outcome (err e) = err e

unfoldable pub finish :
    Environment → Result Stop (Unit {0}) × State → Result Stop (Unit {0}) × State
finish env (outcome, s) = (after_closing outcome (close_serving env s).0, (close_serving env s).1)

unfoldable pub finish_if :
    Environment → Option (Result Stop (Unit {0}) × State) → Option (Result Stop (Unit {0}) × State)
finish_if env none = none
finish_if env (some r) = some (finish env r)

-- `serve`
unfoldable pub serve : ℕ → Environment → State → Option (Result Stop (Unit {0}) × State)
serve fuel env s = finish_if env (serve_loop fuel env s)
