-- ===== src/Tools/State.antt =====
-- apps/base/shared-api/service_tools.py, `ServiceTools`: its state, and computations that keep it through an
-- exception.
use arch_linux_threadripper.Prelude.{
  ℕ, suc, String, Bool, true, false, Option, none, some, List, ◌∷◌, Result, ok, err,
}
use arch_linux_threadripper.Json.{Json, Fields, obj, get}
use arch_linux_threadripper.Gateway.State as Gateway
pub use arch_linux_threadripper.Prelude.Effects.{
  Effect, continue_with, ◌>>=◌, ◌>>◌, return, stop_with, modify,
}

-- Refusal; httpx.HTTPError, TimeoutError and Python's own exceptions; CancelledError; and the end of the
-- process, after which no clause of the code runs.
pub data Failure : Type 0 where
  refusal : ℕ → String → Failure
  network late value_error type_error missing_key os_error attribute_error cancelled killed :
      Failure

-- The failures of boundary.py, where configuration is OSError, ValueError, TypeError or KeyError. A body that
-- never comes to its end is like one that the caller gives up.
unfoldable pub from_gateway : Gateway.Failure → Failure
from_gateway (Gateway.refusal status code) = refusal status code
from_gateway Gateway.invalid_json = value_error
from_gateway Gateway.configuration = value_error
from_gateway Gateway.cancelled = cancelled
from_gateway Gateway.timed_out = late
from_gateway Gateway.uncaught = attribute_error
from_gateway Gateway.waiting = cancelled

-- A request to another service, with the credential that it carries; the submission of a generation, with its prompt and its size; and the
-- removal of the marker.
pub data Event : Type 0 where
  sent : String → String → Option String → Option Json → Event
  submitted : String → Json → Event
  cleared : Event

-- `session` is the local variable of the generation under way, `marker` whether image-inflight.json is there,
-- `awaits` counts the awaits so far, and `log` has the latest event first.
pub record Tools : Type 0 where
  pub busy : Bool
  pub marker : Bool
  pub session : Option Json
  pub retrievals : ℕ
  pub awaits : ℕ
  pub log : List Event

-- What another service answers: its status, its content type, and the parts of its body as they come.
pub record Response : Type 0 where
  pub status : ℕ
  pub content_type : String
  pub parts : List (Result Failure (List ℕ))

-- What surrounds the service: the answer to each await that calls another service, what every other await
-- ends with, and, while a generation runs, what each look at the caller's connection finds. `store` is what
-- the writing of the opened marker ends with.
pub record Environment : Type 0 where
  pub webui : String
  pub swarm : String
  pub gateway : String
  pub image_profile : Fields
  pub image_workflow : Fields
  pub workflow_sha256 : String
  pub upstream : ℕ → Result Failure Response
  pub sleep : ℕ → Result Failure (Unit {0})
  pub watch : List (Result Failure Bool)
  pub store : Result Failure (Unit {0})
  pub directory : Result Failure (Unit {0})
  pub loads : List ℕ → Option Json
  pub unquote : String → String
  pub base64 : List ℕ → String
  pub seed : ℕ
  pub now : ℕ

abbrev pub M : Type 0 → Type 0
M A = Effect Failure Tools A

abbrev pub lift_result : {A : Type 0} → Result Failure A → M A
lift_result r s = (r, s)

abbrev pub raise_if : Bool → Failure → M (Unit {0})
raise_if true e s = (err e, s)
raise_if false e s = (ok tt, s)

abbrev pub note : Event → M (Unit {0})
note event s = (ok tt, record s { log = event ∷ s.log })

-- The number of this await
abbrev pub next_await : M ℕ
next_await s = (ok s.awaits, record s { awaits = suc s.awaits })

-- value[k], where the value is to be a dictionary
unfoldable pub item : Json → String → Result Failure Json
item (obj d) k = elim (get d k) [ none ↦ err missing_key | some v ↦ ok v ]
item _ k = err type_error

-- value.get, which only a dictionary has
unfoldable pub as_dictionary : Json → Result Failure Fields
as_dictionary (obj d) = ok d
as_dictionary _ = err attribute_error
