-- ===== src/Backend/Runs.antt =====
-- lib/workstation/hyperloom_owner_backend.py: `start`, `finish`, `run` and `benchmark`, over the exchange
-- and the output directories.
use Prim.Native.String.{◌++◌}
use arch_linux_threadripper.Prelude.{
  ℕ, zero, suc, String, Bool, true, false, Option, none, some, [], Result, ok, err,
}
use arch_linux_threadripper.Prelude.Effects.{Effect, ◌>>=◌, ◌>>◌, return, stop_with}
use arch_linux_threadripper.Prelude.Int.{pos}
use arch_linux_threadripper.Prelude.Assoc.{Assoc, find, place}
use arch_linux_threadripper.Json.{Json, int, str, obj, Fields}
use arch_linux_threadripper.Exchange.Terms.{
  Fault, refused, already_exists, too_deep, Codec, Kind, kind_name,
}
use arch_linux_threadripper.Exchange.Requests.{Request}
use arch_linux_threadripper.Exchange.Store.{Bytes, Exchange}
use arch_linux_threadripper.Exchange.Config.{validate_config}
use arch_linux_threadripper.Exchange.Submit.{Files, Submission}
use arch_linux_threadripper.Exchange.Write.{submit}
use arch_linux_threadripper.Backend.Samples.{Within}
use arch_linux_threadripper.Backend.Reports.{Binding, validate_report, validate_component}
use arch_linux_threadripper.Backend.Screen.{
  check_expected, screen_config, screen_gate, publish_in, begin, is_component,
}

-- The request tree with the reply tree, and the output directories by their paths.
pub record Desk : Type 0 where
  pub exchange : Exchange
  pub folders : Assoc (Assoc Bytes)

-- What the other programs and the machine do in the meantime, for each output directory: the new job's
-- name, the time at its submission, the source files at the three times at which they are read, and the
-- `wait` that the caller passes, during which the exchange goes on.
pub record Surroundings : Type 0 where
  pub token : String → String
  pub clock : String → ℕ
  pub at_screen : String → Files
  pub at_check : String → Files
  pub at_submit : String → Files
  pub wait : String → Request → Exchange → Result Fault Fields × Exchange

-- What is computed without a change
abbrev pub lift : {A : Type 0} → Result Fault A → Effect Fault Desk A
lift r d = (r, d)

abbrev pub with_folder : Desk → String → Result Fault (Assoc Bytes) → Result Fault (Unit {0}) × Desk
with_folder d o (err f) = (err f, d)
with_folder d o (ok folder) = (ok tt, record d { folders = place d.folders o folder })

unfoldable pub begin_in : Codec → String → Fields → Binding → Effect Fault Desk (Unit {0})
begin_in c o config binding d =
    with_folder d o (begin c d.exchange.parked config binding (find d.folders o))

-- One publication in the output directory
unfoldable pub write_in :
    Codec → String → String → Json → Desk → Option (Assoc Bytes) → Result Fault (Unit {0}) × Desk
write_in c o name v d none =
    (err (refused "existing canonical upstream output directory required"), d)
write_in c o name v d (some folder) = with_folder d o (publish_in c name v folder)

unfoldable pub write_to : Codec → String → String → Json → Effect Fault Desk (Unit {0})
write_to c o name v d = write_in c o name v d (find d.folders o)

abbrev pub submission : Fields → Binding → Kind → Option String → ℕ → Submission
submission config binding kind expected now = record {
  campaign = str binding.bound.campaign;
  selection = str binding.bound.selection;
  kind = str (kind_name kind);
  config = obj config;
  sources = obj binding.sources;
  caller_seconds = int (pos (binding.bound.caller_seconds kind));
  deadline = int (pos binding.bound.deadline);
  now = now;
  expected = expected;
}

abbrev pub with_exchange : {A : Type 0} → Desk → Result Fault A × Exchange → Result Fault A × Desk
with_exchange d (r, x) = (r, record d { exchange = x })

unfoldable pub submit_from : Codec → Surroundings → String → Submission → Effect Fault Desk Request
submit_from c env o s d = with_exchange d (submit c (env.at_submit o) (env.token o) s d.exchange)

unfoldable pub wait_for : Surroundings → String → Request → Effect Fault Desk Fields
wait_for env o r d = with_exchange d (env.wait o r d.exchange)

-- `_submit`
unfoldable pub submit_job :
    Codec → Surroundings → String → Fields → Binding → Option String → Effect Fault Desk Request
submit_job c env o config binding expected = do
  kind ← lift (validate_config config binding.bound)
  lift (check_expected c (env.at_check o) binding expected)
  request ← submit_from c env o (submission config binding kind expected (env.clock o))
  write_to c o "OWNER-JOB.json" (obj request.document)
  return request

unfoldable pub start :
    Codec → Surroundings → String → Fields → Binding → Option String → Effect Fault Desk Request
start c env o config binding expected = do
  begin_in c o config binding
  submit_job c env o config binding expected

-- The report, once the result is there
unfoldable pub report_of : Bool → Codec → Within → Fields → Request → Binding → Result Fault Fields
report_of true c within result r binding = validate_component c result r binding
report_of false c within result r binding = validate_report within result r binding

abbrev pub report_name : Bool → String
report_name true = "component_report.json"
report_name false = "benchmark_report.json"

unfoldable pub finish :
    Codec → Within → Fields → Request → String → Binding → Effect Fault Desk Fields
finish c within result r o binding = do
  write_to c o "OWNER-RESULT.json" (obj result)
  report ← lift (report_of (is_component r.kind) c within result r binding)
  write_to c o (report_name (is_component r.kind)) (obj report)
  return report

abbrev pub screen_folder : String → String
screen_folder o = o ++ "/component-screen"

-- mkdir: an existing directory raises FileExistsError.
unfoldable pub make_in : String → Desk → Option (Assoc Bytes) → Result Fault (Unit {0}) × Desk
make_in o d (some folder) = (err already_exists, d)
make_in o d none = with_folder d o (ok [])

unfoldable pub make_folder : String → Effect Fault Desk (Unit {0})
make_folder o d = make_in o d (find d.folders o)

-- The screen, if one is wanted, run by `again`
unfoldable pub screen_first :
    (Fields → String → Effect Fault Desk Fields)
    → String
    → Option Fields
    → Effect Fault Desk (Unit {0})
screen_first again o none = return tt
screen_first again o (some screened) = do
  make_folder (screen_folder o)
  report ← again screened (screen_folder o)
  lift (screen_gate report)

-- The body of `run` after `_begin`, with the recursive call as `again`
unfoldable pub run_begun :
    (Fields → String → Effect Fault Desk Fields)
    → Codec
    → Within
    → Surroundings
    → Binding
    → Fields
    → String
    → Effect Fault Desk Fields
run_begun again c within env binding config o = do
  plan ← lift (screen_config c (env.at_screen o) config binding)
  screen_first again o plan.0
  request ← submit_job c env o config binding (some plan.1)
  result ← wait_for env o request
  finish c within result request o binding

unfoldable pub run_with :
    (Fields → String → Effect Fault Desk Fields)
    → Codec
    → Within
    → Surroundings
    → Binding
    → Fields
    → String
    → Effect Fault Desk Fields
run_with again c within env binding config o = do
  begin_in c o config binding
  run_begun again c within env binding config o

-- `run`, with as many levels of calls as `depth`
unfoldable pub run :
    ℕ → Codec → Within → Surroundings → Binding → Fields → String → Effect Fault Desk Fields
run zero c within env binding config o = stop_with too_deep
run (suc depth) c within env binding config o =
    run_with (run depth c within env binding) c within env binding config o

-- `benchmark`: a fresh directory in the upstream's, and two levels of calls, which are enough
unfoldable pub benchmark :
    Codec → Within → Surroundings → Binding → Fields → String → Effect Fault Desk Fields
benchmark c within env binding config root = do
  make_folder (root ++ "/benchmark_owner")
  run 2 c within env binding config (root ++ "/benchmark_owner")
