-- ===== src/Gateway/Chat.antt =====
-- apps/base/shared-api/boundary.py, `GatewayBoundary.chat`: admission of a chat request, and the
-- end of an admitted one. No await stands between the test on `active` and the insertion, so
-- admission is one step.
use arch_linux_threadripper.Prelude.{
  ℕ, ◌+◌, ◌*◌, String, Bool, false, not, ◌&&◌, Option, none, some, List, [], ◌∷◌, ◌++◌, ltb, leb,
  ◌==◌, if◌then◌else◌, Result, ok, err, ◌>>=◌, ◌>>◌, raise_if, length,
}
use arch_linux_threadripper.Prelude.Int.{pos}
use arch_linux_threadripper.Prelude.Text.{decimal}
use arch_linux_threadripper.Json.{
  Json, null, int, str, obj, Fields, get_or, contains, pop, put, keys_within, eq_str, eq_nat,
  int_within, hashable,
}
use arch_linux_threadripper.Gateway.State.{
  Failure, refusal, configuration, cancelled, timed_out, Active, Gateway, Headers, World, Sent,
  body, reply, error_document, output_cap, count_success, count_backend_error, count_cancelled,
}
use arch_linux_threadripper.Gateway.Body.{Message, read_body}
use arch_linux_threadripper.Gateway.Control.{is_ready}

abbrev pub max_body : ℕ
max_body = 1024 * 1024

abbrev pub chat_fields : List String
chat_fields =
    "model" ∷ "messages" ∷ "stream" ∷ "stream_options" ∷ "max_tokens" ∷ "max_completion_tokens"
    ∷ "temperature" ∷ "top_p" ∷ "top_k" ∷ "seed" ∷ "stop" ∷ "tools" ∷ "tool_choice"
    ∷ "parallel_tool_calls" ∷ "response_format" ∷ "presence_penalty" ∷ "frequency_penalty"
    ∷ "chat_template_kwargs" ∷ "n" ∷ []

-- `isinstance(data, dict)`
unfoldable pub chat_object : Json → Result Failure Fields
chat_object (obj d) = ok d
chat_object _ = err (refusal 400 "invalid_request")

-- `model not in CHAT_MODELS`: the name of a known model, with its output cap.
unfoldable pub chat_model : Json → Result Failure (String × ℕ)
chat_model (str s) = elim (output_cap s) [
  | none ↦ err (refusal 404 "unknown_model")
  | some cap ↦ ok (s, cap)
]
chat_model v = if hashable v then err (refusal 404 "unknown_model") else err configuration

-- The field that carries the output limit.
abbrev pub limit_field : Fields → String
limit_field d = if contains d "max_completion_tokens" then "max_completion_tokens" else "max_tokens"

-- The checks behind the model's, against the gateway as it is now; the request to forward.
unfoldable pub admit_for : Gateway → Fields → String × ℕ → Result Failure Fields
unfolding put
admit_for g request (model, cap) = do
  raise_if (not (is_ready g.phase && eq_str g.model model))
      (refusal 503 "requested_model_unavailable")
  raise_if (leb 4 (length g.active)) (refusal 429 "service_concurrency_limit")
  raise_if (not (eq_nat (get_or request "n" (int (pos 1))) 1))
      (refusal 400 "one_completion_per_request")
  raise_if (contains request "max_tokens" && contains request "max_completion_tokens")
      (refusal 400 "ambiguous_output_limit")
  let limit = get_or request (limit_field request) (int (pos cap))
  raise_if (not (int_within 1 cap limit)) (refusal 400 "output_limit_exceeded")
  ok (put request (limit_field request) limit)

-- The checks on the decoded request, without the user field that it may carry.
unfoldable pub admit_fields : Gateway → Fields → Result Failure Fields
unfolding chat_model pop admit_for
admit_fields g given = do
  let request = pop given "user"
  raise_if (not (keys_within chat_fields request)) (refusal 400 "unsupported_request_field")
  known ← chat_model (get_or request "model" null)
  admit_for g request known

-- The request that goes to the backend: the headers with the new length, and the body.
pub record Forwarded : Type 0 where
  pub headers : Headers
  pub fields : Fields
  pub content : List ℕ

unfoldable pub chat_request :
    World → Bool → Headers → List Message → Gateway → Result Failure Forwarded
chat_request w is_post headers messages g = do
  raise_if (not is_post) (refusal 405 "method_not_allowed")
  (bytes, _) ← read_body max_body messages
  value ← w.loads bytes
  given ← chat_object value
  fields ← admit_fields g given
  let content = w.dumps (obj fields)
  ok (record {
    headers = headers ++ ("content-length", decimal (length content)) ∷ [];
    fields = fields;
    content = content;
  })

-- self.active[task] = time.monotonic()
abbrev pub begin : World → ℕ → Gateway → Gateway
begin w task g = record g {
  active = record { task = task; since = w.monotonic; cancelling = false } ∷ g.active;
}

unfoldable pub chat :
    World → ℕ → Bool → Headers → List Message → Gateway → Result Failure (Forwarded × Gateway)
chat w task is_post headers messages g = do
  f ← chat_request w is_post headers messages g
  ok (f, begin w task g)

-- How an admitted request ends. A backend that sent no start counts as status 500.
pub data Ending : Type 0 where
  answered : Option ℕ → Ending
  backend_raised : Failure → Ending
  deadline : Ending
  client_disconnected : Ending
  told_to_cancel : Ending

-- `result`, by the status of the response
unfoldable pub count_answer : ℕ → Gateway → Gateway
count_answer status g =
    if ltb status 400
    then count_success g
    else if status == 429
    then record g { requests = record g.requests { limited = g.requests.limited + 1 } }
    else if leb 500 status
    then count_backend_error g
    else record g { requests = record g.requests { refused = g.requests.refused + 1 } }

-- self.active.pop(task, None)
unfoldable pub drop_task : ℕ → List Active → List Active
drop_task task [] = []
drop_task task (a ∷ rest) = if a.task == task then rest else a ∷ drop_task task rest

abbrev pub leave : ℕ → Gateway → Gateway
leave task g = record g { active = drop_task task g.active }

abbrev pub Finished : Type 0
Finished = Result Failure (Unit {0}) × List Sent × Gateway

-- `except TimeoutError`
unfoldable pub finish_late : World → ℕ → Bool → Gateway → Finished
finish_late w task started g = (
  ok tt,
  if started then body [] ∷ [] else reply w 504 (error_document "request_deadline"),
  leave task (count_backend_error g),
)

-- `except asyncio.CancelledError`, of a request whose client is still there
unfoldable pub finish_cancelled : World → ℕ → Bool → Gateway → Finished
finish_cancelled w task started g = (
  err cancelled,
  if started then [] else reply w 503 (error_document "request_cancelled"),
  leave task (count_cancelled g),
)

-- The `try` statement at the end of `chat`, with its `finally`: the counters, what is sent, and
-- whether an exception goes on to the caller.
unfoldable pub finish : World → ℕ → Bool → Ending → Gateway → Finished
unfolding finish_late finish_cancelled drop_task count_answer
finish w task started (answered none) g = (ok tt, [], leave task (count_answer 500 g))
finish w task started (answered (some status)) g = (ok tt, [], leave task (count_answer status g))
finish w task started deadline g = finish_late w task started g
finish w task started client_disconnected g = (err cancelled, [], leave task (count_cancelled g))
finish w task started told_to_cancel g = finish_cancelled w task started g
finish w task started (backend_raised timed_out) g = finish_late w task started g
finish w task started (backend_raised cancelled) g = finish_cancelled w task started g
finish w task started (backend_raised f) g = (err f, [], leave task g)
