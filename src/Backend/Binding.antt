-- ===== src/Backend/Binding.antt =====
-- lib/workstation/hyperloom_owner_backend.py, `read_binding`: the checks on the runner's binding.
use arch_linux_threadripper.Prelude.{
  ℕ, String, Bool, true, false, not, ◌&&◌, Option, some, [], ◌∷◌, ltb, leb, if◌then◌else◌, Result,
  ok, err, ◌>>=◌, ◌>>◌, require, str_eq,
}
use arch_linux_threadripper.Prelude.Int.{pos}
use arch_linux_threadripper.Json.{
  Json, null, int, str, obj, Fields, end, field, get, get_or, fields_length, keys_exactly, hashable,
}
use arch_linux_threadripper.Exchange.Terms.{
  Fault, refused, type_error, Kind, kind_name, is_name, identity, positive, is_exactly, is_text,
  says_false,
}
use arch_linux_threadripper.Backend.Latency.{read_policy}
use arch_linux_threadripper.Backend.Reports.{Binding, item, entries}

-- `pathlib` and the file system, for the paths that a binding names.
pub record Paths : Type 0 where
  pub is_directory : String → Bool
  pub is_relative_to : String → String → Bool
  pub is_absolute : String → Bool

-- `_directory`: `Path` of what is no text raises TypeError.
unfoldable pub directory_path : Paths → Json → Result Fault String
directory_path fs (str p) =
    if fs.is_directory p then ok p else err (refused "canonical exchange directory required")
directory_path fs _ = err type_error

-- Both roots, of which neither holds the other
unfoldable pub read_roots : Paths → Fields → Result Fault (String × String)
read_roots fs d = do
  requests_name ← item d "requests_root"
  requests ← directory_path fs requests_name
  replies_name ← item d "replies_root"
  replies ← directory_path fs replies_name
  require
      (not (str_eq requests replies)
        && not (fs.is_relative_to requests replies)
        && not (fs.is_relative_to replies requests))
      (refused "separate request/reply roots required")
  ok (requests, replies)

unfoldable pub declared_sources : Option Json → Result Fault Fields
declared_sources (some (obj d)) =
    if ltb 0 (fields_length d) && leb (fields_length d) 64
    then ok d
    else err (refused "declared candidate source closure required")
declared_sources _ = err (refused "declared candidate source closure required")

abbrev pub is_absolute_path : Paths → Json → Bool
is_absolute_path fs (str p) = fs.is_absolute p
is_absolute_path fs _ = false

-- The loop over the sources
unfoldable pub check_mapping : Paths → Fields → Result Fault (Unit {0})
check_mapping fs end = ok tt
check_mapping fs (field name source rest) = do
  require (is_name name && is_absolute_path fs source) (refused "candidate source mapping")
  check_mapping fs rest

abbrev pub is_filled_text : Option Json → Bool
is_filled_text (some (str s)) = not (str_eq s "")
is_filled_text _ = false

abbrev pub is_object : Option Json → Bool
is_object (some (obj _)) = true
is_object _ = false

unfoldable pub read_benchmark : Option Json → Result Fault Fields
read_benchmark (some (obj fixed)) = do
  require
      (is_text "sglang" (get fixed "framework")
        && is_text "gfx12" (get fixed "runner_type")
        && is_filled_text (get fixed "model")
        && is_object (get fixed "envs"))
      (refused "selected SGLang/gfx12 workload required")
  require (is_text "balanced_c1_c2" (get fixed "workstation_workload"))
      (refused "explicit mixed-concurrency workload required")
  ok fixed
read_benchmark _ = err (refused "selected SGLang/gfx12 workload required")

-- `type(v) is int and 0 < v <= 7160`; none where it is not
unfoldable pub cap : Option Json → ℕ → ℕ
cap (some (int (pos n))) default = if ltb 0 n && leb n 7160 then n else default
cap _ default = default

abbrev pub cap_of : Fields → Kind → ℕ
cap_of caps kind = cap (get caps (kind_name kind)) 0

unfoldable pub read_caps : Option Json → Result Fault (Kind → ℕ)
read_caps (some (obj caps)) =
    if keys_exactly ("serving" ∷ "profile" ∷ "component" ∷ []) caps
      && ltb 0 (cap_of caps Kind.serving)
      && ltb 0 (cap_of caps Kind.profile)
      && ltb 0 (cap_of caps Kind.component)
    then ok (cap_of caps)
    else err (refused "finite caller limits required")
read_caps _ = err (refused "finite caller limits required")

-- `in {"decode-0", …}`: what has no hash raises TypeError.
unfoldable pub check_window : Json → Result Fault (Unit {0})
check_window (str s) =
    if str_eq s "decode-0"
    then ok tt
    else if str_eq s "prefill-1"
    then ok tt
    else if str_eq s "prefill-2"
    then ok tt
    else err (refused "explicit informative primary trace window required")
check_window v =
    if hashable v
    then err (refused "explicit informative primary trace window required")
    else err type_error

-- `read_binding`, from the decoded document on
unfoldable pub read_binding : Paths → Json → Result Fault Binding
read_binding fs v = do
  d ← entries v
  require (is_exactly 1 (get d "schema") && is_text "workstation_owner" (get d "backend"))
      (refused "owner backend binding schema")
  campaign ← identity (get d "campaign_sha256") "invalid campaign_sha256"
  selection ← identity (get d "selection_sha256") "invalid selection_sha256"
  controller ← identity (get d "controller_sha256") "invalid controller_sha256"
  runtime ← identity (get d "runtime_sha256") "invalid runtime_sha256"
  workload ← identity (get d "workload_sha256") "invalid workload_sha256"
  deadline ← positive (get d "campaign_deadline_unix_ms") "campaign deadline required"
  _ ← read_roots fs d
  sources ← declared_sources (get d "sources")
  check_mapping fs sources
  benchmark ← read_benchmark (get d "benchmark")
  caps ← read_caps (get d "caller_seconds")
  policy ← read_policy (get_or d "latency_policy" null)
  selected ← identity (get d "selected_source_set_sha256") "invalid selected source set"
  check_window (get_or d "profile_primary_window" null)
  require (says_false (get d "automatic_retry") && says_false (get d "adoption_authorized"))
      (refused "runner cannot retry or adopt")
  ok (record {
    document = d;
    bound = record {
      campaign = campaign;
      selection = selection;
      controller = controller;
      caller_seconds = caps;
      deadline = deadline;
      benchmark = benchmark;
    };
    runtime = runtime;
    workload = workload;
    selected_source_set = selected;
    policy = policy;
    sources = sources;
  })
