-- ===== src/Backend/Reports.antt =====
-- lib/workstation/hyperloom_owner_backend.py, `validate_report` and `validate_component`: the checks on
-- a report before it is returned.
use arch_linux_threadripper.Prelude.{
  String, Bool, true, false, ◌&&◌, Option, none, some, List, [], ◌∷◌, Result, ok, err, ◌>>=◌, ◌>>◌,
  require, all, str_eq,
}
use arch_linux_threadripper.Json.{Json, null, bool, obj, Fields, end, get, get_or, eq_nat}
use arch_linux_threadripper.Exchange.Terms.{
  Fault, refused, missing_key, attribute_error, Codec, Kind, serving, profile, is_text, says_false,
  says_true, dictionary,
}
use arch_linux_threadripper.Exchange.Requests.{Request}
use arch_linux_threadripper.Exchange.Config.{Bound}
use arch_linux_threadripper.Exchange.Host.{eq_optional}
use arch_linux_threadripper.Backend.Samples.{Within}
use arch_linux_threadripper.Backend.Latency.{Policy, Series, read_series}

-- The binding of the runner, after `read_binding`.
pub record Binding : Type 0 where
  pub document : Fields
  pub bound : Bound
  pub runtime : String
  pub workload : String
  pub selected_source_set : String
  pub policy : Policy
  pub sources : Fields

-- d[k]
unfoldable pub item : Fields → String → Result Fault Json
item d k = elim (get d k) [ none ↦ err missing_key | some v ↦ ok v ]

-- What is no dictionary has no `get`.
unfoldable pub entries : Json → Result Fault Fields
entries (obj d) = ok d
entries _ = err attribute_error

-- a == b, where a missing value is None
abbrev pub same_value : Option Json → Option Json → Bool
same_value a none = eq_optional a null
same_value a (some v) = eq_optional a v

abbrev pub is_none : Option Json → Bool
is_none none = true
is_none (some null) = true
is_none _ = false

-- `result["status"] == "SUCCEEDED" and result["independent_release"] is True`, and the payload
unfoldable pub succeeded_payload : Fields → String → Result Fault Fields
succeeded_payload result what = do
  status ← item result "status"
  require (is_text "SUCCEEDED" (some status)) (refused what)
  released ← item result "independent_release"
  require (says_true (some released)) (refused what)
  payload ← item result "payload"
  entries payload

-- The owner that a report names
unfoldable pub check_owner : Fields → Fields → Request → Result Fault (Unit {0})
check_owner report result r = do
  owner ← dictionary (get_or report "owner_binding" (obj end)) "report belongs to another owner job"
  seal ← item result "owner_seal_sha256"
  require (eq_optional (get owner "owner_seal_sha256") seal)
      (refused "report belongs to another owner job")
  sha ← item result "request_sha256"
  require
      (eq_optional (get owner "request_sha256") sha
        && is_text r.source_set (get owner "source_set_sha256"))
      (refused "report belongs to another owner job")

abbrev pub control_keys : List String
control_keys =
    "selection_sha256" ∷ "runtime_sha256" ∷ "workload_sha256" ∷ "observation_id"
    ∷ "owner_seal_sha256" ∷ "quality_sha256" ∷ []

abbrev pub agree : List String → Fields → Fields → Bool
agree names a b = all (λ k. same_value (get a k) (get b k)) names

-- A serving report: the series, and its control in the same job
unfoldable pub check_serving :
    Within → Fields → Fields → Request → Binding → Result Fault (Series × Series)
check_serving within report result r binding = do
  require (says_false (get report "diagnostic_only"))
      (refused "diagnostic evidence cannot become serving timing")
  observed ← read_series within (get_or report "workstation_latency" null) binding.policy
  require
      (is_text binding.bound.selection (get observed.document "selection_sha256")
        && is_text binding.runtime (get observed.document "runtime_sha256")
        && is_text binding.workload (get observed.document "workload_sha256")
        && is_text r.source_set (get observed.document "candidate_sha256")
        && same_value (get observed.document "owner_seal_sha256") (get result "owner_seal_sha256"))
      (refused "latency series provenance mismatch")
  control ← read_series within (get_or report "workstation_latency_control" null) binding.policy
  require
      (str_eq control.arm "control"
        && str_eq observed.arm "mtp"
        && is_text binding.selected_source_set (get control.document "candidate_sha256")
        && agree control_keys control.document observed.document)
      (refused "same-job selected-C4 control provenance mismatch")
  ok (observed, control)

abbrev pub is_profile : Kind → Bool
is_profile profile = true
is_profile _ = false

-- A profile: no latency series, and a complete coverage of the owner's job
unfoldable pub check_profile : Fields → Fields → Request → Result Fault (Unit {0})
check_profile report result r = do
  require
      (is_profile r.kind
        && says_true (get report "diagnostic_only")
        && is_none (get report "workstation_latency")
        && is_none (get report "workstation_latency_control"))
      (refused "profiled durations cannot be a selectable latency series")
  coverage ← dictionary (get_or report "profile_coverage" null) "incomplete owner profile"
  require
      (says_true (get coverage "complete")
        && same_value (get coverage "owner_seal_sha256") (get result "owner_seal_sha256"))
      (refused "incomplete owner profile")

-- What a report of the kind needs
unfoldable pub check_kind :
    Kind → Within → Fields → Fields → Request → Binding → Result Fault (Unit {0})
check_kind serving within report result r binding = do
  _ ← check_serving within report result r binding
  ok tt
check_kind _ within report result r binding = check_profile report result r

unfoldable pub validate_report : Within → Fields → Request → Binding → Result Fault Fields
validate_report within result r binding = do
  payload ← succeeded_payload result "owner job did not complete and release"
  report ←
      dictionary (get_or payload "benchmark_report" null) "owner report subject/status mismatch"
  require
      (says_true (get report "success")
        && is_text "sglang" (get report "framework")
        && same_value (get report "model") (get binding.bound.benchmark "model"))
      (refused "owner report subject/status mismatch")
  require
      (is_text "workstation_owner" (get report "benchmark_backend")
        && says_true (get report "benchmark_valid"))
      (refused "owner report backend/validity mismatch")
  check_owner report result r
  gate ← entries (get_or report "quality_gate" (obj end))
  require (says_true (get gate "passed")) (refused "owner task quality gate failed")
  require (says_false (get report "adoption_authorized"))
      (refused "report cannot authorize adoption")
  check_kind r.kind within report result r binding
  ok report

-- `type(value) is bool`
unfoldable pub flag : Option Json → Result Fault Bool
flag (some (bool b)) = ok b
flag _ = err (refused "component screening disposition mismatch")

-- `value is (correct and useful and zero)`
abbrev pub is_flag : Bool → Option Json → Bool
is_flag true v = says_true v
is_flag false v = says_false v

-- The owner of a component report
unfoldable pub check_component_owner :
    Codec → Fields → Fields → Request → Binding → Result Fault (Unit {0})
check_component_owner c report result r binding = do
  owner ← entries (get_or report "owner_binding" (obj end))
  seal ← item result "owner_seal_sha256"
  require
      (eq_optional (get owner "owner_seal_sha256") seal
        && is_text (c.digest (c.canonical (obj r.document))) (get owner "request_sha256")
        && is_text r.source_set (get owner "source_set_sha256")
        && is_text binding.bound.controller (get owner "controller_sha256"))
      (refused "foreign component result")

unfoldable pub validate_component : Codec → Fields → Request → Binding → Result Fault Fields
validate_component c result r binding = do
  payload ← succeeded_payload result "component owner did not complete and release"
  report ←
      dictionary (get_or payload "component_report" null)
        "component timing is diagnostic, not a serving result"
  require
      (eq_nat (get_or report "schema" null) 1
        && says_true (get report "diagnostic_only")
        && says_false (get report "serving_tested")
        && says_false (get report "adoption_authorized"))
      (refused "component timing is diagnostic, not a serving result")
  check_component_owner c report result r binding
  correct ← flag (get report "correct_both_cards")
  useful ← flag (get report "useful_both_cards")
  zero_prefix ← flag (get report "zero_prefix_no_regression")
  require (is_flag (correct && useful && zero_prefix) (get report "eligible_for_serving"))
      (refused "component screening disposition mismatch")
  ok report
