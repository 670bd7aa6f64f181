-- ===== src/Backend/SeriesTests.antt =====
-- lib/workstation/hyperloom_latency.py and hyperloom_owner_backend.py: a series of six samples, and the
-- report that carries it with its control.
use Prim.Native.String.{◌++◌}
use arch_linux_threadripper.Prelude.{
  ℕ, zero, suc, String, ◌≡◌, refl, true, false, [], Result, ok, err,
}
use arch_linux_threadripper.Prelude.Int.{pos}
use arch_linux_threadripper.Json.{
  Json, null, bool, int, str, arr, obj, Fields, end, field, nil, cons,
}
use arch_linux_threadripper.Json.Equality.{json_eq, text_or_number_eq, number_eq}
use arch_linux_threadripper.Exchange.Terms.{Fault, is_sha, dictionary}
use arch_linux_threadripper.Exchange.Tests.{sha}
use arch_linux_threadripper.Exchange.SubmitTests.{submitted_request, writer}
use arch_linux_threadripper.Backend.Samples.{
  is_digest, bounded_text, list_of, natural, naturals, read_counts, read_sample_id, read_times,
  read_sample,
}
use arch_linux_threadripper.Backend.Latency.{
  Series, read_samples, read_concurrency, list_between, read_case, read_cases, require_digests,
  read_namespace, read_series,
}
use arch_linux_threadripper.Backend.Reports.{
  Binding, item, entries, succeeded_payload, check_owner, check_serving, check_kind,
  validate_report, flag, check_component_owner, validate_component,
}
use arch_linux_threadripper.Backend.Series.{IsSeries, read_series-IsSeries}
use arch_linux_threadripper.Backend.Evidence.{
  IsComponentReport, validate_component-IsComponentReport,
}
use arch_linux_threadripper.Backend.Accepted.{IsReport, validate_report-IsReport}
use arch_linux_threadripper.Backend.Tests.{
  binding_given, component_report, component_result, within_wall,
}

-- One value for each request
abbrev each : ℕ → Json → Json
each (suc zero) v = arr (cons v nil)
each _ v = arr (cons v (cons v nil))

abbrev sample_given : String → String → ℕ → Json
sample_given arm group n = obj (
    field "id" (str ("0123456789abcdef:" ++ (arm ++ (":" ++ group)))) (
      field "group_id" (str group) (
        field "request_e2e_ms" (each n (int (pos 40))) (
          field "group_wall_ms" (int (pos 41)) (
            field "warmup" (bool false) (
              field "completed" (int (pos n)) (
                field "prompt_tokens" (each n (int (pos 9))) (
                  field "completion_tokens" (each n (int (pos 8))) (
                    field "reasoning_tokens" (each n (int (pos 0))) (
                      field "final_tokens" (each n (int (pos 8))) (
                        field "response_sha256" (each n (str sha))
                          (field "task_quality_passed" (bool true) end))))))))))))

abbrev case_given : String → String → ℕ → Json
case_given arm name n = obj (
    field "id" (str name) (
      field "concurrency" (int (pos n)) (
        field "request_contract_sha256" (str sha) (
          field "samples"
            (arr (
              cons (sample_given arm (name ++ "1") n) (
                cons (sample_given arm (name ++ "2") n)
                  (cons (sample_given arm (name ++ "3") n) nil))))
            end))))

abbrev series_given : String → String → Fields
series_given arm candidate = field "schema" (int (pos 1)) (
    field "kind" (str "serving") (
      field "profiled" (bool false) (
        field "complete" (bool true) (
          field "quality_passed" (bool true) (
            field "independent_release" (bool true) (
              field "selection_sha256" (str sha) (
                field "runtime_sha256" (str sha) (
                  field "workload_sha256" (str sha) (
                    field "candidate_sha256" (str candidate) (
                      field "owner_seal_sha256" (str sha) (
                        field "quality_sha256" (str sha) (
                          field "observation_id" (str "0123456789abcdef") (
                            field "arm" (str arm) (
                              field "cases"
                                (arr
                                  (cons (case_given arm "a" 1) (cons (case_given arm "b" 2) nil)))
                                end))))))))))))))

abbrev series_or_empty : Result Fault Series → Series
series_or_empty (ok s) = s
series_or_empty (err f) = record { document = end; nonce = ""; arm = ""; cases = [] }

abbrev series_read : Result Fault Series
series_read = read_series within_wall (obj (series_given "mtp" sha)) binding_given.policy

series_is_read : series_read ≡ ok (series_or_empty series_read)
unfolding read_series read_namespace require_digests is_digest is_sha read_cases read_case
    read_concurrency list_between read_samples read_sample read_times read_sample_id read_counts
    naturals natural list_of bounded_text dictionary
series_is_read = refl

read_series-IsSeries_example : IsSeries binding_given.policy (series_or_empty series_read)
read_series-IsSeries_example =
    read_series-IsSeries within_wall (obj (series_given "mtp" sha)) binding_given.policy
      (series_or_empty series_read) series_is_read

abbrev serving_binding : Binding
serving_binding = record binding_given { selected_source_set = sha }

abbrev serving_report : Fields
serving_report = field "success" (bool true) (
    field "framework" (str "sglang") (
      field "model" null (
        field "benchmark_backend" (str "workstation_owner") (
          field "benchmark_valid" (bool true) (
            field "owner_binding"
              (obj (
                field "owner_seal_sha256" (str sha)
                  (field "request_sha256" (str sha) (field "source_set_sha256" (str sha) end))))
              (field "quality_gate" (obj (field "passed" (bool true) end)) (
                field "adoption_authorized" (bool false) (
                  field "diagnostic_only" (bool false) (
                    field "workstation_latency" (obj (series_given "mtp" sha)) (
                      field "workstation_latency_control" (obj (series_given "control" sha))
                        end))))))))))

abbrev serving_result : Fields
serving_result = field "status" (str "SUCCEEDED") (
    field "independent_release" (bool true) (
      field "owner_seal_sha256" (str sha) (
        field "request_sha256" (str sha)
          (field "payload" (obj (field "benchmark_report" (obj serving_report) end)) end))))

report_is_valid :
    validate_report within_wall serving_result submitted_request serving_binding ≡ ok serving_report
unfolding validate_report succeeded_payload item entries check_owner check_kind check_serving
    json_eq text_or_number_eq number_eq read_series read_namespace require_digests is_digest is_sha
    read_cases read_case read_concurrency list_between read_samples read_sample read_times
    read_sample_id read_counts naturals natural list_of bounded_text dictionary
report_is_valid = refl

validate_report-IsReport_example :
    IsReport within_wall serving_result submitted_request serving_binding serving_report
validate_report-IsReport_example =
    validate_report-IsReport within_wall serving_result serving_report submitted_request
      serving_binding report_is_valid

component_is_valid :
    validate_component writer component_result submitted_request binding_given ≡ ok component_report
unfolding validate_component check_component_owner flag succeeded_payload item entries json_eq
    text_or_number_eq number_eq dictionary
component_is_valid = refl

validate_component-IsComponentReport_example :
    IsComponentReport writer component_result submitted_request binding_given component_report
validate_component-IsComponentReport_example =
    validate_component-IsComponentReport writer component_result component_report submitted_request
      binding_given component_is_valid
