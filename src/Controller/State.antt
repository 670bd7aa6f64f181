-- ===== src/Controller/State.antt =====
-- infrastructure/hyperloom/sglang-owner-adapter/controller.py, `Controller`: its state, what surrounds it,
-- and computations that may raise and keep what they have done to the state.
use arch_linux_threadripper.Prelude.{
  ℕ, String, Bool, true, false, ◌&&◌, Option, List, [], ◌∷◌, any, if◌then◌else◌, Result, ok, err,
  str_eq,
}
use arch_linux_threadripper.Prelude.Assoc.{Assoc}
use arch_linux_threadripper.Json.{Json, Fields, end}
use arch_linux_threadripper.Exchange.Terms.{Fault, already_exists, refused, Codec, Kind}
use arch_linux_threadripper.Exchange.Config.{Bound}
use arch_linux_threadripper.Exchange.Retain.{Private}
pub use arch_linux_threadripper.Prelude.Effects.{
  Effect, continue_with, ◌>>=◌, ◌>>◌, return, stop_with, modify,
}

-- An exception, and CandidateScreened
pub data Stop : Type 0 where
  raised : Fault → Stop
  screened : Stop

-- The directory of a file: the controller's own, or that of a job.
pub data Place : Type 0 where
  root : Place
  job : String → Place

abbrev pub same_place : Place → Place → Bool
same_place root root = true
same_place (job a) (job b) = str_eq a b
same_place _ _ = false

-- What leaves the controller: a call of the exchange (its number, its action, its job, its payload and its
-- deadline), and the execution of an owner for a job.
pub data Event : Type 0 where
  called : ℕ → String → Option String → Option Json → ℕ → Event
  executed : String → Event

-- `outcome` is the local variable of the step in progress, and `ticks` counts the readings of the clocks.
-- `files` has the files that were written, and `log` what has left the controller, the latest first.
pub record State : Type 0 where
  pub sequence : ℕ
  pub ticks : ℕ
  pub parked : Bool
  pub terminal_attempted : Bool
  pub components : Assoc Json
  pub jobs : List String
  pub outcome : Fields
  pub files : List (Place × String × Json)
  pub log : List Event

abbrev pub initial : State
initial = record {
  sequence = 0;
  ticks = 0;
  parked = false;
  terminal_attempted = false;
  components = [];
  jobs = [];
  outcome = end;
  files = [];
  log = [];
}

-- What an owner's operation does once it is told to run: it asks whether the job is cancelled as often as
-- it likes, and ends with its observation or an exception.
pub data Execution : Type 0 where
  finished : Result Fault Fields → Execution
  asks : (Result Stop Bool → Execution) → Execution

-- What surrounds the controller. `clocks` are the monotonic and the wall clock at each reading, in
-- milliseconds; `rpc` the response to each call, by its number; `closure` what each check of the source
-- pins finds; `stop` whether STOP.json is there. `prepare`, `propose` and `execute` are the operation of
-- a kind, which the controller is given. `shown` is str(value)[:2048], and `error_text` the text of an
-- exception.
pub record Environment : Type 0 where
  pub codec : Codec
  pub bound : Bound
  pub selected_source_set : String
  pub allowed : List Kind
  pub owner : String
  pub owner_answer : String
  pub approval : Json
  pub end_monotonic : ℕ
  pub deadline : ℕ
  pub clocks : ℕ → ℕ × ℕ
  pub rpc : ℕ → Result Fault Fields
  pub closure : ℕ → Result Fault (Unit {0})
  pub stop : ℕ → Bool
  pub fresh : String → Bool
  pub unpack : String → Option (List ℕ)
  pub inputs : Kind → Result Fault Fields
  pub prepare : Kind → Private → Json → Json → Result Fault Fields
  pub propose : Kind → Json → Result Fault Fields
  pub execute : Kind → Json → Json → Execution
  pub shown : Json → String
  pub error_text : Fault → String
  pub utc : ℕ → String

abbrev pub M : Type 0 → Type 0
M A = Effect Stop State A

abbrev pub lift_result : {A : Type 0} → Result Fault A → M A
lift_result (ok a) s = (ok a, s)
lift_result (err f) s = (err (raised f), s)

-- `require` of hyperloom_sglang.py
abbrev pub demand : Bool → String → M (Unit {0})
demand true what s = (ok tt, s)
demand false what s = (err (raised (refused what)), s)

abbrev pub state : M State
state s = (ok s, s)

abbrev pub is_written : Place → String → List (Place × String × Json) → Bool
is_written place name files = any (λ f. same_place f.0 place && str_eq f.1 name) files

-- `write`: never over what is there.
unfoldable pub write : Place → String → Json → M (Unit {0})
write place name value s =
    if is_written place name s.files
    then (err (raised already_exists), s)
    else (ok tt, record s { files = (place, name, value) ∷ s.files })
