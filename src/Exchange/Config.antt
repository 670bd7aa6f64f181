-- ===== src/Exchange/Config.antt =====
-- lib/workstation/hyperloom_owner_backend.py, `validate_config`: the kind of job that a configuration
-- asks for, within the policy that the controller has bound.
use arch_linux_threadripper.Prelude.{
  ℕ, ◌*◌, ◌^◌, String, Bool, true, false, not, ◌&&◌, [], ◌∷◌, ltb, leb, ◌==◌, if◌then◌else◌, Result,
  ok, err, ◌>>=◌, ◌>>◌, require,
}
use arch_linux_threadripper.Prelude.Int.{pos}
use arch_linux_threadripper.Json.{
  Json, null, bool, int, float, str, obj, Fields, end, field, get_or, pop, keys_exactly,
  keys_within,
}
use arch_linux_threadripper.Json.Equality.{json_eq}
use arch_linux_threadripper.Exchange.Terms.{
  Fault, refused, Kind, serving, profile, component, envelope_seconds, dictionary,
}

-- The controller's binding, as far as the exchange reads it.
pub record Bound : Type 0 where
  pub campaign : String
  pub selection : String
  pub controller : String
  pub caller_seconds : Kind → ℕ
  pub deadline : ℕ
  pub benchmark : Fields

abbrev pub is_text_or_null : Json → Bool
is_text_or_null null = true
is_text_or_null (str _) = true
is_text_or_null _ = false

-- `type(enabled) is bool`
unfoldable pub read_enabled : Json → Result Fault Bool
read_enabled (bool b) = ok b
read_enabled _ = err (refused "profiler policy is owner-bound")

-- A finite number, and at least n.
unfoldable pub at_least : ℕ → Json → Bool
at_least n (int (pos m)) = ltb 0 m && leb n m
at_least n (float (pos m) k) = ltb 0 m && leb (n * 2 ^ k) m
at_least n _ = false

-- The kind, once the profiler's flag is known.
unfoldable pub read_component : Bool → Json → Bound → Result Fault Kind
read_component enabled null bound = ok (if enabled then profile else serving)
read_component enabled wanted bound = do
  require (json_eq wanted (obj (field "contract" (str "c4-fixed-geometry-v1") end)) && not enabled)
      (refused "one fixed component contract without serving profiling required")
  require (bound.caller_seconds component == 2190)
      (refused "component caller is fixed at 2,190 seconds")
  ok component

unfoldable pub validate_config : Fields → Bound → Result Fault Kind
validate_config config bound = do
  require (keys_exactly ("benchmark" ∷ []) config)
      (refused "one explicit benchmark configuration required")
  given ←
      dictionary (get_or config "benchmark" null) "one explicit benchmark configuration required"
  let benchmark =
      pop (pop (pop (pop given "profiler") "workstation_component") "timeout_seconds") "result_dir"
  require (is_text_or_null (get_or given "result_dir" null)) (refused "benchmark result directory")
  profiler ←
      dictionary (get_or given "profiler" (obj end))
        "only the bound Kineto profiling route is supported"
  require (keys_within ("torch_profiler" ∷ []) profiler)
      (refused "only the bound Kineto profiling route is supported")
  torch ← dictionary (get_or profiler "torch_profiler" (obj end)) "profiler policy is owner-bound"
  require (keys_within ("enabled" ∷ []) torch) (refused "profiler policy is owner-bound")
  enabled ← read_enabled (get_or torch "enabled" (bool false))
  kind ← read_component enabled (get_or given "workstation_component" null) bound
  require (json_eq (obj benchmark) (obj bound.benchmark))
      (refused "benchmark changed fixed selected workload; owner refused")
  require
      (at_least (envelope_seconds kind (bound.caller_seconds kind))
        (get_or given "timeout_seconds" null))
      (refused "upstream timeout cannot truncate the caller/closeout envelope")
  ok kind
