-- ===== src/Gateway/State.antt =====
-- apps/base/shared-api/boundary.py: the failures, the state of `GatewayBoundary`, and what a
-- handler sends. The parameters of `World` are the process's surroundings at one request.
use arch_linux_threadripper.Prelude.{
  ◌≡◌, ℕ, ◌+◌, String, Bool, false, Option, none, some, List, [], ◌∷◌, Result, length, ◌==◌, ◌||◌,
  if◌then◌else◌, str_eq,
}
use arch_linux_threadripper.Prelude.Int.{pos}
use arch_linux_threadripper.Prelude.Text.{codes}
use arch_linux_threadripper.Json.{Json, null, bool, int, str, obj, end, field}

-- `Refusal(status, code)`; json.JSONDecodeError; OSError, ValueError, TypeError or KeyError;
-- asyncio.CancelledError; TimeoutError; any exception that the boundary does not name, such as
-- AttributeError. `waiting` is a receive channel that has nothing more to deliver yet.
pub data Failure : Type 0 where
  refusal : ℕ → String → Failure
  invalid_json configuration cancelled timed_out uncaught waiting : Failure

pub data Phase : Type 0 where
  ready starting draining unavailable maintenance : Phase

-- One entry of `active`: the task, when it began, and whether it has been told to cancel.
pub record Active : Type 0 where
  pub task : ℕ
  pub since : ℕ
  pub cancelling : Bool

-- `task in active`
abbrev pub has_task : ℕ → List Active → Bool
has_task t [] = false
has_task t (a ∷ rest) = a.task == t || has_task t rest

-- The keys of a dictionary are distinct.
abbrev pub AllDistinct : List Active → Type 0
AllDistinct [] = Unit {0}
AllDistinct (a ∷ rest) = (has_task a.task rest ≡ false) × AllDistinct rest

pub record Counters : Type 0 where
  pub success : ℕ
  pub refused : ℕ
  pub backend_error : ℕ
  pub cancelled_count : ℕ
  pub limited : ℕ

pub record Gateway : Type 0 where
  pub phase : Phase
  pub model : Json
  pub images : Bool
  pub active : List Active
  pub requests : Counters

abbrev pub initial : Gateway
initial = record {
  phase = unavailable;
  model = null;
  images = false;
  active = [];
  requests = record {
    success = 0;
    refused = 0;
    backend_error = 0;
    cancelled_count = 0;
    limited = 0;
  };
}

-- CHAT_MODELS, as the second entry: the output cap of a known model.
unfoldable pub output_cap : String → Option ℕ
output_cap m =
    if str_eq m "Qwen3.8-27B-FP8"
    then some 4096
    else if str_eq m "Qwen3.5-9B"
    then some 1024
    else none

abbrev pub phase_name : Phase → String
phase_name ready = "ready"
phase_name starting = "starting"
phase_name draining = "draining"
phase_name unavailable = "unavailable"
phase_name maintenance = "maintenance"

-- A header has a lower-case name and a value of bytes.
abbrev pub Headers : Type 0
Headers = List (String × List ℕ)

-- dict(headers).get(name): the last header of the name wins.
abbrev pub header : Headers → String → Option (List ℕ)
header [] name = none
header ((j, v) ∷ rest) name = elim (header rest name) [
  | some w ↦ some w
  | none ↦ if str_eq j name then some v else none
]

abbrev pub header_or_empty : Headers → String → List ℕ
header_or_empty h name = elim (header h name) [ none ↦ [] | some v ↦ v ]

-- A message for the client: the start of a response, a part of its body, or the metrics text.
pub data Metric : Type 0 where
  phase_line : Phase → Bool → Metric
  active_requests oldest_request : ℕ → Metric
  requests_total : String → ℕ → Metric

pub data Sent : Type 0 where
  start : ℕ → Headers → Sent
  body : List ℕ → Sent
  metrics_text : List Metric → Sent

-- json.loads and json.dumps, the decoded mapping file (or the failure to read it), the stripped
-- control key, and the clock as a dyadic number of seconds and as monotonic nanoseconds.
pub record World : Type 0 where
  pub loads : List ℕ → Result Failure Json
  pub dumps : Json → List ℕ
  pub mapping : Result Failure Json
  pub control_key : Result Failure (List ℕ)
  pub now : ℕ × ℕ
  pub monotonic : ℕ

-- `reply`: two messages, and a Retry-After for the statuses that are worth another attempt.
unfoldable pub reply : World → ℕ → Json → List Sent
reply w status value =
    let retry : Headers =
      if status == 429 || status == 503 then ("retry-after", codes "5") ∷ [] else [] in
    start status
      (("content-type", codes "application/json") ∷ ("cache-control", codes "no-store") ∷ retry)
    ∷ body (w.dumps value)
    ∷ []

abbrev pub status_document : Gateway → Json
status_document g = obj (
    field "phase" (str (phase_name g.phase)) (
      field "model" g.model
        (field "images" (bool g.images) (field "active" (int (pos (length g.active))) end))))

abbrev pub error_document : String → Json
error_document code = obj (field "error" (obj (field "code" (str code) end)) end)

abbrev pub refusal_document : String → Json
refusal_document code =
    obj (field "error" (obj (field "code" (str code) (field "message" (str code) end))) end)

-- self.requests["limited" if status == 429 else "refused"] += 1
abbrev pub count_refusal : ℕ → Gateway → Gateway
count_refusal status g = record g {
  requests =
      if status == 429
      then record g.requests { limited = g.requests.limited + 1 }
      else record g.requests { refused = g.requests.refused + 1 };
}

abbrev pub count_success : Gateway → Gateway
count_success g = record g { requests = record g.requests { success = g.requests.success + 1 } }

abbrev pub count_backend_error : Gateway → Gateway
count_backend_error g = record g {
  requests = record g.requests { backend_error = g.requests.backend_error + 1 };
}

abbrev pub count_cancelled : Gateway → Gateway
count_cancelled g = record g {
  requests = record g.requests { cancelled_count = g.requests.cancelled_count + 1 };
}
