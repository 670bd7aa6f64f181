-- ===== src/Tools/Upstream.antt =====
-- apps/base/shared-api/service_tools.py: `upstream_json` and `interrupt`.
use arch_linux_threadripper.Prelude.{
  ℕ, zero, suc, String, Bool, true, false, ◌||◌, Option, none, some, List, [], ◌∷◌, ◌++◌, ltb, leb,
  ◌==◌, if◌then◌else◌, Result, ok, err, length, all,
}
use arch_linux_threadripper.Json.{
  Json, null, bool, obj, Fields, end, field, get_or, eq_nat, is_true,
}
use arch_linux_threadripper.Tools.State.{
  Failure, refusal, value_error, sent, Response, Environment, M, ◌>>=◌, ◌>>◌, return, lift_result,
  note, next_await, as_dictionary,
}

-- The parts of a body, up to a bound.
unfoldable pub receive :
    ℕ → String → List (Result Failure (List ℕ)) → List ℕ → Result Failure (List ℕ)
receive limit code [] raw = ok raw
receive limit code (err e ∷ rest) raw = err e
receive limit code (ok part ∷ rest) raw =
    let later = receive limit code rest (raw ++ part) in
    if ltb limit (length (raw ++ part)) then err (refusal 502 code) else later

unfoldable pub check_status : ℕ → Result Failure (Unit {0})
check_status status =
    if status == 401 || status == 403 || status == 404
    then err (refusal status "not_authorized_or_missing")
    else if leb 400 status
    then err (refusal 503 "upstream_unavailable")
    else ok tt

-- json.loads
unfoldable pub decode : Environment → List ℕ → Result Failure Json
decode env raw = elim (env.loads raw) [ none ↦ err value_error | some v ↦ ok v ]

-- What `upstream_json` makes of an answer
unfoldable pub read_answer : Environment → Response → M Json
read_answer env response = do
  lift_result (check_status response.status)
  raw ← lift_result (receive 2097152 "upstream_response_too_large" response.parts [])
  lift_result (decode env raw)

-- `upstream_json`
unfoldable pub upstream_json : Environment → String → String → Option String → Option Json → M Json
upstream_json env method url auth body = do
  note (sent method url auth body)
  n ← next_await
  response ← lift_result (env.upstream n)
  read_answer env response

-- a + b
unfoldable pub join : String → String → String
join String.[] b = b
join (String.◌∷◌ c a) b = String.◌∷◌ c (join a b)

abbrev pub at_swarm : Environment → String → String
at_swarm env path = join env.swarm path

-- Nothing waits, loads or runs.
abbrev pub is_idle : Fields → Bool
is_idle counts =
    all (λ k. eq_nat (get_or counts k null) 0)
      ("waiting_gens" ∷ "loading_models" ∷ "waiting_backends" ∷ "live_gens" ∷ [])

-- The rest of a round of `interrupt`, where the backend is idle or not
unfoldable pub poll_again : Environment → M Bool → Bool → M Bool
poll_again env later true = return true
poll_again env later false = do n ← next_await; lift_result (env.sleep n); later

-- The rounds that are left
unfoldable pub poll_idle : ℕ → Environment → Json → M Bool
poll_idle zero env session = return false
poll_idle (suc rounds) env session = do
  status ←
      upstream_json env "POST" (at_swarm env "/API/GetCurrentStatus") none
        (some (obj (field "session_id" session end)))
  d ← lift_result (as_dictionary status)
  counts ← lift_result (as_dictionary (get_or d "status" status))
  poll_again env (poll_idle rounds env session) (is_idle counts)

unfoldable pub poll_if : Environment → Json → Bool → M Bool
poll_if env session true = poll_idle 10 env session
poll_if env session false = return false

-- `interrupt`
unfoldable pub interrupt : Environment → Json → M Bool
interrupt env session = do
  result ←
      upstream_json env "POST" (at_swarm env "/API/InterruptAll") none
        (some (obj (field "session_id" session (field "other_sessions" (bool false) end))))
  d ← lift_result (as_dictionary result)
  poll_if env session (is_true (get_or d "success" null))
