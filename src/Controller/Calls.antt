-- ===== src/Controller/Calls.antt =====
-- infrastructure/hyperloom/sglang-owner-adapter/controller.py: `remaining`, `_rpc`, `_cancelled` and `_park`.
use arch_linux_threadripper.Prelude.{
  ℕ, suc, ◌+◌, ◌-◌, String, Bool, true, false, Option, none, some, min, ltb, Result, ok, err, ◌∷◌,
}
use arch_linux_threadripper.Json.{Json, bool, str, obj, Fields, end, field, get}
use arch_linux_threadripper.Exchange.Terms.{Fault, refused, is_text}
use arch_linux_threadripper.Exchange.Requests.{Request}
use arch_linux_threadripper.Controller.State.{
  Stop, raised, screened, root, called, State, Environment, M, ◌>>=◌, ◌>>◌, return, lift_result,
  demand, write,
}

-- One reading of the clocks.
unfoldable pub read_clocks : Environment → M (ℕ × ℕ)
read_clocks env s = (ok (env.clocks s.ticks), record s { ticks = suc s.ticks })

-- `remaining`, in milliseconds; `max(0, …)` is the subtraction.
unfoldable pub remaining : Environment → M ℕ
remaining env = do
  now ← read_clocks env
  return (min (env.end_monotonic - now.0) (env.deadline - now.1))

-- `expires or deadline`
abbrev pub or_deadline : Environment → Option ℕ → ℕ
or_deadline env none = env.deadline
or_deadline env (some e) = e

-- The next number is taken, and the call goes out with its deadline.
unfoldable pub send : String → Option String → Option Json → ℕ → M ℕ
send action id payload deadline s = (
  ok (suc s.sequence),
  record s {
    sequence = suc s.sequence;
    log = called (suc s.sequence) action id payload deadline ∷ s.log;
  },
)

-- `_rpc`
unfoldable pub call : Environment → String → Option String → Option Json → Option ℕ → M Fields
call env action id payload expires = do
  left ← remaining env
  demand (ltb 10000 left) "campaign has no remaining transport budget"
  now ← read_clocks env
  later ← remaining env
  number ← send action id payload (min env.deadline (min (or_deadline env expires) (now.1 + later)))
  lift_result (env.rpc number)

-- `type(response.get("cancelled")) is bool`
abbrev pub read_flag : Option Json → Result Fault Bool
read_flag (some (bool b)) = ok b
read_flag _ = err (refused "explicit cancellation observation required")

-- The check of the digest in the answer that a job goes on
unfoldable pub confirm : Environment → Request → Fields → Bool → M Bool
confirm env request response true = return true
confirm env request response false = do
  demand
      (is_text (env.codec.digest (env.codec.canonical (obj request.document)))
        (get response "request_sha256"))
      "request changed after the private snapshot"
  return false

-- `_cancelled`
unfoldable pub ask_cancelled : Environment → Request → M Bool
ask_cancelled env request = do
  response ← call env "cancelled" (some request.id) none (some request.expires)
  flag ← lift_result (read_flag (get response "cancelled"))
  confirm env request response flag

-- `except Exception`: what the handler does with the exception. CandidateScreened is one too, where
-- nothing has caught it before.
abbrev pub handle : {A : Type 0} → (Stop → M A) → Result Stop A × State → Result Stop A × State
handle handler (ok a, s) = (ok a, s)
handle handler (err e, s) = handler e s

abbrev pub catch : {A : Type 0} → M A → (Stop → M A) → M A
catch m handler s = handle handler (m s)

abbrev pub stop_text : Environment → Stop → String
stop_text env (raised f) = env.error_text f
stop_text env screened = "CandidateScreened: "

-- The publication of the terminal record
unfoldable pub publish_terminal : Environment → String → M (Unit {0})
publish_terminal env reason = do
  published ← call env "park" none (some (obj (field "reason" (str reason) end))) none
  write root "TERMINAL-PUBLICATION.json" (obj published)

abbrev pub terminal_failure : Environment → Stop → Json
terminal_failure env e =
    obj (field "reason" (str (stop_text env e)) (field "automatic_retry" (bool false) end))

unfoldable pub publish_or_note : Environment → String → M (Unit {0})
publish_or_note env reason =
    catch (publish_terminal env reason)
      (λ e. write root "TERMINAL-PUBLICATION-FAILURE.json" (terminal_failure env e))

abbrev pub set_parked : Bool → State → State
set_parked b s = record s { parked = b }

abbrev pub set_attempted : State → State
set_attempted s = record s { terminal_attempted = true }

-- The rest of `_park`, where the terminal record has been attempted or not
unfoldable pub park_unless : Environment → String → Bool → M (Unit {0})
park_unless env reason true s = (ok tt, s)
park_unless env reason false s = publish_or_note env reason (set_attempted s)

-- `_park`, for the first 2,048 characters of the reason
unfoldable pub park : Environment → String → M (Unit {0})
park env reason s = park_unless env reason s.terminal_attempted (set_parked true s)
