-- ===== src/Backend/WaitingTests.antt =====
-- lib/workstation/hyperloom_owner_backend.py: a component job whose result comes through the exchange.
use arch_linux_threadripper.Prelude.{
  true, ◌≡◌, refl, false, String, List, none, some, [], ◌∷◌, Result, ok,
}
use arch_linux_threadripper.Prelude.Int.{pos}
use arch_linux_threadripper.Prelude.Assoc.{find, place}
use arch_linux_threadripper.Json.{bool, int, str, Fields, field, pop}
use arch_linux_threadripper.Json.Equality.{json_eq, text_or_number_eq, number_eq}
use arch_linux_threadripper.Json.{obj}
use arch_linux_threadripper.Exchange.Terms.{
  Fault, Codec, is_sha, is_job_id, is_name, identity, positive, dictionary, kind_named,
  envelope_seconds,
}
use arch_linux_threadripper.Exchange.Requests.{
  Request, read_request, read_kind, read_id, read_name, read_size, read_source, read_sources,
  total_size, source_items,
}
use arch_linux_threadripper.Exchange.Store.{read_file, publish}
use arch_linux_threadripper.Exchange.Jobs.{
  require_campaign_open, read_result, validate_result, check_success, is_status,
}
use arch_linux_threadripper.Exchange.Config.{
  validate_config, read_component, read_enabled, at_least,
}
use arch_linux_threadripper.Exchange.Submit.{
  is_finite, all_finite, finite_fields, encode, recognized, whole, insert_entry, sorted_items,
  given_sources, read_path, gather, prepare,
}
use arch_linux_threadripper.Exchange.Write.{
  store_config, store_source, store_request, store_sources, write_job, keep_job, make_job,
  submit_prepared, submit,
}
use arch_linux_threadripper.Exchange.Wait.{
  Look, Roots, wait_state, wait_checked, wait_result, wait_loop, settle_wait, read_reply,
}
use arch_linux_threadripper.Exchange.Tests.{sha, job_id}
use arch_linux_threadripper.Exchange.SubmitTests.{texts}
use arch_linux_threadripper.Backend.Reports.{
  item, entries, succeeded_payload, flag, check_component_owner, validate_component,
}
use arch_linux_threadripper.Backend.Screen.{
  read_all, source_set, check_expected, screen_unless, screen_config, publish_in, output_folder,
  begin,
}
use arch_linux_threadripper.Backend.Runs.{
  Desk, Surroundings, begin_in, write_in, write_to, submit_from, wait_for, submit_job, report_of,
  finish, screen_first, run_begun, run_with, run,
}
use arch_linux_threadripper.Backend.Posted.{IsJob}
use arch_linux_threadripper.Backend.Waiting.{wait_at, wait_in, IsAuthenticated, run-IsAuthenticated}
use arch_linux_threadripper.Backend.Tests.{
  component_config, binding_given, component_report, component_result, surroundings, desk,
  within_wall,
}

abbrev exchanged_result : Fields
exchanged_result = field "schema" (int (pos 1)) (
    field "id" (str job_id) (
      field "campaign_sha256" (str sha) (
        field "config_sha256" (str sha) (
          field "source_set_sha256" (str sha) (
            field "request_sha256" (str sha) (
              field "controller_sha256" (str sha) (
                field "automatic_retry" (bool false)
                  (field "adoption_authorized" (bool false) component_result))))))))

abbrev reader : Codec
reader = record { canonical = texts; digest = λ b. sha; decode = λ b. ok (obj exchanged_result) }

abbrev turns : String → List Look
turns o =
    record { reply = some (record { claim = none; result = some (5 ∷ []) }); terminal = none } ∷ []

abbrev usable_roots : Roots
usable_roots = record { job_there = true; replies_there = true; separate = true }

abbrev exchanging : Surroundings
exchanging = record surroundings { wait = wait_in reader sha usable_roots turns }

abbrev exchanged : Result Fault Fields × Desk
exchanged = run 2 reader within_wall exchanging binding_given component_config "/out" desk

report_comes_through : exchanged ≡ (ok component_report, exchanged.1)
unfolding wait_in wait_at wait_result wait_state wait_checked wait_loop settle_wait read_reply
    read_result validate_result check_success is_status run run_with run_begun begin_in begin
    output_folder publish_in require_campaign_open validate_config read_component read_enabled
    at_least json_eq text_or_number_eq number_eq pop screen_config source_set read_all screen_unless
    screen_first submit_job check_expected submit_from wait_for finish report_of validate_component
    check_component_owner flag succeeded_payload item entries write_to write_in submit
    submit_prepared make_job keep_job write_job store_config store_source store_request
    store_sources prepare gather read_path given_sources sorted_items insert_entry whole recognized
    encode is_finite all_finite finite_fields find place read_file publish read_request read_kind
    read_id read_name read_size read_source read_sources total_size source_items is_sha is_job_id
    is_name identity positive dictionary kind_named envelope_seconds
report_comes_through = refl

run-IsAuthenticated_example :
    (current : String) × (source_set reader (exchanging.at_screen "/out") binding_given
      ≡ ok current)
    × (r : Request) × IsJob reader exchanging "/out" component_config binding_given current r
    × IsAuthenticated reader within_wall binding_given r component_report
run-IsAuthenticated_example =
    run-IsAuthenticated reader within_wall exchanging binding_given usable_roots turns 2
      component_config "/out" desk exchanged.1 component_report refl report_comes_through
