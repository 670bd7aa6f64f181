-- ===== src/Backend/Screen.antt =====
-- lib/workstation/hyperloom_owner_backend.py: the component screen that comes before a job with changed
-- sources, and what has to be published in the output directory.
use arch_linux_threadripper.Prelude.{
  ℕ, ◌+◌, String, Bool, true, false, not, ◌||◌, Option, none, some, List, [], ◌∷◌, any, Result, ok,
  err, ◌>>=◌, ◌>>◌, require, is_some, str_eq,
}
use arch_linux_threadripper.Prelude.Int.{pos}
use arch_linux_threadripper.Prelude.Assoc.{Assoc, find, place}
use arch_linux_threadripper.Json.{
  Json, null, bool, int, str, obj, Fields, end, field, get_or, pop, put,
}
use arch_linux_threadripper.Exchange.Terms.{
  Fault, refused, Codec, Kind, component, kind_name, envelope_seconds, says_true, dictionary,
}
use arch_linux_threadripper.Exchange.Store.{Bytes, publish}
use arch_linux_threadripper.Exchange.Jobs.{require_campaign_open}
use arch_linux_threadripper.Exchange.Config.{Bound, validate_config, at_least}
use arch_linux_threadripper.Exchange.Submit.{
  Files, read_path, sorted_items, inventory_digest, encode,
}
use arch_linux_threadripper.Backend.Reports.{Binding, item}

unfoldable pub read_all : Files → Assoc Json → Result Fault (Assoc Bytes)
read_all disk [] = ok []
read_all disk ((name, path) ∷ rest) = do
  raw ← read_path disk path
  later ← read_all disk rest
  ok ((name, raw) ∷ later)

-- The digest of the sources as they are now
unfoldable pub source_set : Codec → Files → Binding → Result Fault String
source_set c disk binding = do
  files ← read_all disk (sorted_items binding.sources)
  ok (inventory_digest c files)

-- The sources are those of the screen.
unfoldable pub check_expected : Codec → Files → Binding → Option String → Result Fault (Unit {0})
check_expected c disk binding none = ok tt
check_expected c disk binding (some expected) = do
  found ← source_set c disk binding
  require (str_eq found expected) (refused "candidate changed after its component screen")

abbrev pub contract : Json
contract = obj (field "contract" (str "c4-fixed-geometry-v1") end)

-- The seconds that a job of a kind may take
abbrev pub envelope : Kind → Bound → ℕ
envelope kind bound = envelope_seconds kind (bound.caller_seconds kind)

-- The configuration of the screen
abbrev pub screened_benchmark : Fields → Bound → Fields
screened_benchmark given bound =
    put (put (pop given "profiler") "workstation_component" contract) "timeout_seconds"
      (int (pos (envelope component bound)))

abbrev pub screened_config : Fields → Fields → Bound → Fields
screened_config config given bound = put config "benchmark" (obj (screened_benchmark given bound))

abbrev pub is_component : Kind → Bool
is_component component = true
is_component _ = false

-- A screen is wanted, and the deadline leaves room for it.
unfoldable pub screen_for : Kind → Fields → Bound → Result Fault Fields
screen_for kind config bound = do
  given ←
      dictionary (get_or config "benchmark" null) "one explicit benchmark configuration required"
  require
      (at_least (envelope kind bound + envelope component bound)
        (get_or given "timeout_seconds" null))
      (refused
        "changed-source benchmark must include the component screen and serving/profile envelopes")
  ok (screened_config config given bound)

unfoldable pub screen_unless :
    Bool → Kind → Fields → Bound → String → Result Fault (Option Fields × String)
screen_unless true kind config bound current = ok (none, current)
screen_unless false kind config bound current = do
  screened ← screen_for kind config bound
  ok (some screened, current)

-- `_screen_config`
unfoldable pub screen_config :
    Codec → Files → Fields → Binding → Result Fault (Option Fields × String)
screen_config c disk config binding = do
  kind ← validate_config config binding.bound
  current ← source_set c disk binding
  screen_unless (is_component kind || str_eq current binding.selected_source_set) kind config
      binding.bound current

-- `_screen_gate`: ComponentRejected is a ValueError; the flags that its message adds are left out.
unfoldable pub screen_gate : Fields → Result Fault (Unit {0})
screen_gate report = do
  eligible ← item report "eligible_for_serving"
  require (says_true (some eligible)) (refused "Component screen refused serving")

abbrev pub used_names : List String
used_names =
    "benchmark_report.json" ∷ "OWNER-STARTED.json" ∷ "OWNER-JOB.json" ∷ "OWNER-RESULT.json" ∷ []

abbrev pub is_used : Assoc Bytes → Bool
is_used folder = any (λ n. is_some (find folder n)) used_names

abbrev pub started_document : String → Bound → Kind → Json
started_document config_sha bound kind = obj (
    field "adoption_authorized" (bool false) (
      field "automatic_retry" (bool false) (
        field "campaign_sha256" (str bound.campaign)
          (field "config_sha256" (str config_sha) (field "kind" (str (kind_name kind)) end)))))

-- One publication in a directory
unfoldable pub publish_in : Codec → String → Json → Assoc Bytes → Result Fault (Assoc Bytes)
publish_in c name v folder = do
  raw ← encode c v
  written ← publish (find folder name) raw
  ok (place folder name written)

unfoldable pub output_folder : Option (Assoc Bytes) → Result Fault (Assoc Bytes)
output_folder none = err (refused "existing canonical upstream output directory required")
output_folder (some folder) = ok folder

-- `_begin`, in the output directory, if it is there
unfoldable pub begin :
    Codec → Option Bytes → Fields → Binding → Option (Assoc Bytes) → Result Fault (Assoc Bytes)
begin c parked config binding output = do
  require_campaign_open c parked binding.bound.campaign binding.bound.controller
  kind ← validate_config config binding.bound
  folder ← output_folder output
  require (not (is_used folder)) (refused "upstream output already contains an invocation")
  raw ← encode c (obj config)
  publish_in c "OWNER-STARTED.json" (started_document (c.digest raw) binding.bound kind) folder
