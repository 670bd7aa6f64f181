-- ===== src/Tools/Image.antt =====
-- apps/base/shared-api/service_tools.py: `generate` and `image`.
use arch_linux_threadripper.Prelude.{
  ℕ, String, Bool, true, false, ◌||◌, Option, none, some, List, [], ◌∷◌, ◌==◌, if◌then◌else◌,
  Result, ok, err,
}
use arch_linux_threadripper.Prelude.Int.{pos}
use arch_linux_threadripper.Json.{
  Json, int, str, arr, obj, nil, cons, Fields, end, field, get_or, truthy,
}
use arch_linux_threadripper.Tools.State.{
  Failure, refusal, network, late, value_error, os_error, cancelled, killed, attribute_error, sent,
  submitted, cleared, Tools, Environment, M, ◌>>=◌, ◌>>◌, return, modify, lift_result, note,
  next_await, item, as_dictionary,
}
use arch_linux_threadripper.Tools.Upstream.{
  receive, read_answer, upstream_json, join, at_swarm, interrupt,
}
use arch_linux_threadripper.Tools.Requests.{
  Call, read_call, check_mode, dimensions, fill_workflow, generation, only_path, check_path,
  check_artifact, check_png,
}

unfoldable pub set_session : Option Json → M (Unit {0})
set_session v = modify (λ s. record s { session = v })

-- marker.open("x"), and what is written to it and to its directory
unfoldable pub place_unless : Environment → Bool → M (Unit {0})
place_unless env true s = (err os_error, s)
place_unless env false s = (env.store, record s { marker = true })

unfoldable pub place_marker : Environment → M (Unit {0})
place_marker env s = place_unless env s.marker s

-- The loop that looks at the caller's connection until the task is done
unfoldable pub watch_caller : List (Result Failure Bool) → Result Failure (Unit {0})
watch_caller [] = ok tt
watch_caller (err e ∷ rest) = err e
watch_caller (ok true ∷ rest) = err (refusal 499 "image_request_cancelled")
watch_caller (ok false ∷ rest) = watch_caller rest

-- The answer of the task, unless the caller goes away first
unfoldable pub await_task : Environment → ℕ → M Json
await_task env n = do
  lift_result (watch_caller env.watch)
  response ← lift_result (env.upstream n)
  read_answer env response

-- The task of the generation: it is sent, and its answer is read unless the caller goes away before it is there.
unfoldable pub submit : Environment → (Fields → String) → Json → String → Json → M Json
submit env shown session prompt size = do
  dims ← lift_result (dimensions size)
  workflow ← lift_result (fill_workflow env prompt dims)
  note (submitted prompt size)
  note (
      sent "POST" (at_swarm env "/API/GenerateText2Image") none
        (some (generation env shown session prompt dims workflow)))
  n ← next_await
  await_task env n

-- The image itself
unfoldable pub fetch_artifact : Environment → String → M (List ℕ)
fetch_artifact env path = do
  note (sent "GET" (join (at_swarm env "/") path) none none)
  n ← next_await
  response ← lift_result (env.upstream n)
  lift_result (check_artifact response)
  raw ← lift_result (receive 8388608 "image_artifact_too_large" response.parts [])
  lift_result (check_png raw)
  return raw

-- A session of the backend, once the gateway is in the mode for images
unfoldable pub open_session : Environment → M Json
open_session env = do
  state ← upstream_json env "GET" (join env.gateway "/_service/status") none none
  d ← lift_result (as_dictionary state)
  lift_result (check_mode env d)
  answer ← upstream_json env "POST" (at_swarm env "/API/GetNewSession") none (some (obj end))
  session ← lift_result (item answer "session_id")
  set_session (some session)
  return session

-- The image that the result of a generation names
unfoldable pub fetch_result : Environment → Json → M (List ℕ)
fetch_result env result = do
  d ← lift_result (as_dictionary result)
  path ← lift_result (only_path (get_or d "images" (arr nil)))
  checked ← lift_result (check_path env path)
  fetch_artifact env checked

-- The `try` block of `generate`
unfoldable pub make_image : Environment → (Fields → String) → String → Json → M (List ℕ)
make_image env shown prompt size = do
  session ← open_session env
  lift_result env.directory
  place_marker env
  result ← submit env shown session prompt size
  fetch_result env result

-- The exceptions of the interruption that are passed over
abbrev pub is_expected : Failure → Bool
is_expected (refusal _ _) = true
is_expected network = true
is_expected late = true
is_expected value_error = true
is_expected _ = false

-- An exception of the interruption that is not expected takes the place of the first.
abbrev pub after_interrupt : Failure → Result Failure Bool × Tools → Result Failure (List ℕ) × Tools
after_interrupt e (ok _, s) = (err e, s)
after_interrupt e (err f, s) = if is_expected f then (err e, s) else (err f, s)

unfoldable pub interrupt_if :
    Environment → Failure → Bool → Json → Tools → Result Failure (List ℕ) × Tools
interrupt_if env e true session s = after_interrupt e (interrupt env session s)
interrupt_if env e false session s = (err e, s)

abbrev pub is_killed : Failure → Bool
is_killed killed = true
is_killed _ = false

-- The `finally` clause of `generate` after an exception, which does not run where the process has ended
unfoldable pub close_unless :
    Environment → Failure → Bool → Option Json → Tools → Result Failure (List ℕ) × Tools
close_unless env e true session s = (err e, s)
close_unless env e false none s = (err e, s)
close_unless env e false (some session) s = interrupt_if env e (truthy session) session s

unfoldable pub close_generation :
    Environment → Result Failure (List ℕ) × Tools → Result Failure (List ℕ) × Tools
close_generation env (ok raw, s) = (ok raw, record s { marker = false; log = cleared ∷ s.log })
close_generation env (err e, s) = close_unless env e (is_killed e) s.session s

-- `generate`
unfoldable pub generate : Environment → (Fields → String) → String → Json → M (List ℕ)
generate env shown prompt size s =
    close_generation env (make_image env shown prompt size (record s { session = none }))

-- `finally: self.busy = False`
unfoldable pub release : Result Failure (List ℕ) × Tools → Result Failure (List ℕ) × Tools
release (ok raw, s) = (ok raw, record s { busy = false })
release (err e, s) = (err e, if is_killed e then s else record s { busy = false })

unfoldable pub take_unless : Environment → (Fields → String) → String × Json → Bool → M (List ℕ)
take_unless env shown order true s = (err (refusal 429 "image_busy_or_recovery_required"), s)
take_unless env shown order false s =
    release (generate env shown order.0 order.1 (record s { busy = true }))

-- The rest of `image` once the order is read
unfoldable pub take_order : Environment → (Fields → String) → String × Json → M (List ℕ)
take_order env shown order s = take_unless env shown order (s.busy || s.marker) s

unfoldable pub answer : Environment → (Fields → String) → Call → M (List ℕ)
answer env shown call = do order ← lift_result (read_call env call); take_order env shown order

-- The response: its status, its body and its headers.
pub record Reply : Type 0 where
  pub status : ℕ
  pub body : Json
  pub headers : List (String × String)

abbrev pub image_document : Environment → List ℕ → Json
image_document env raw = obj (
    field "created" (int (pos env.now))
      (field "data" (arr (cons (obj (field "b64_json" (str (env.base64 raw)) end)) nil)) end))

abbrev pub refused_reply : ℕ → String → Reply
refused_reply status code = record {
  status = status;
  body = obj (field "error" (obj (field "code" (str code) (field "message" (str code) end))) end);
  headers = if status == 429 || status == 503 then ("Retry-After", "5") ∷ [] else [];
}

abbrev pub unavailable_reply : Reply
unavailable_reply = record {
  status = 503;
  body = obj (field "error" (obj (field "code" (str "image_backend_unavailable") end)) end);
  headers = [];
}

-- The `except` clauses of `image`; the failures that they do not name pass.
unfoldable pub reply_to : Environment → Result Failure (List ℕ) → Result Failure Reply
reply_to env (ok raw) = ok (record {
  status = 200;
  body = image_document env raw;
  headers = ("Cache-Control", "no-store") ∷ [];
})
reply_to env (err (refusal status code)) = ok (refused_reply status code)
reply_to env (err attribute_error) = err attribute_error
reply_to env (err cancelled) = err cancelled
reply_to env (err killed) = err killed
reply_to env (err _) = ok unavailable_reply

-- `image`
unfoldable pub image : Environment → (Fields → String) → Call → M Reply
image env shown call s = (reply_to env (answer env shown call s).0, (answer env shown call s).1)
