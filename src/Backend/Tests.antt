-- ===== src/Backend/Tests.antt =====
-- lib/workstation/hyperloom_owner_backend.py: a component job from its configuration to its report.
use arch_linux_threadripper.Prelude.{◌≡◌, refl, true, false, some, [], ◌∷◌, Result, ok, err}
use arch_linux_threadripper.Prelude.Int.{pos}
use arch_linux_threadripper.Prelude.Assoc.{find, place}
use arch_linux_threadripper.Json.{bool, int, str, obj, Fields, end, field, pop}
use arch_linux_threadripper.Json.Equality.{json_eq, text_or_number_eq, number_eq}
use arch_linux_threadripper.Exchange.Terms.{Fault, dictionary, envelope_seconds}
use arch_linux_threadripper.Exchange.Store.{publish}
use arch_linux_threadripper.Exchange.Jobs.{require_campaign_open}
use arch_linux_threadripper.Exchange.Config.{
  validate_config, read_component, read_enabled, at_least,
}
use arch_linux_threadripper.Exchange.Submit.{is_finite, all_finite, finite_fields, encode}
use arch_linux_threadripper.Exchange.SubmitTests.{empty_exchange, writer}
use arch_linux_threadripper.Exchange.Tests.{sha, job_id}
use arch_linux_threadripper.Backend.Samples.{Within}
use arch_linux_threadripper.Backend.Reports.{Binding}
use arch_linux_threadripper.Backend.Screen.{contract, publish_in, output_folder, begin}
use arch_linux_threadripper.Backend.Runs.{Desk, Surroundings, begin_in, run}
use arch_linux_threadripper.Backend.Depth.{run_depth}
use arch_linux_threadripper.Backend.Fresh.{run_once}

abbrev pub component_config : Fields
component_config =
    field "benchmark"
      (obj (field "workstation_component" contract (field "timeout_seconds" (int (pos 3000)) end)))
      end

abbrev pub binding_given : Binding
binding_given = record {
  document = end;
  bound = record {
    campaign = sha;
    selection = sha;
    controller = sha;
    caller_seconds = λ k. 2190;
    deadline = 4000000;
    benchmark = end;
  };
  runtime = sha;
  workload = sha;
  selected_source_set = "";
  policy = record {
    minimum_samples = 3;
    noise_floor = (1, 0);
    maximum_spread = (5, 0);
    minimum_gain = (1, 0);
    token_delta = (1, 0);
  };
  sources = field "model.py" (str "/candidate/model.py") end;
}

abbrev pub component_report : Fields
component_report = field "schema" (int (pos 1)) (
    field "diagnostic_only" (bool true) (
      field "serving_tested" (bool false) (
        field "adoption_authorized" (bool false) (
          field "owner_binding"
            (obj (
              field "owner_seal_sha256" (str sha) (
                field "request_sha256" (str sha)
                  (field "source_set_sha256" (str sha) (field "controller_sha256" (str sha) end)))))
            (field "correct_both_cards" (bool true) (
              field "useful_both_cards" (bool true) (
                field "zero_prefix_no_regression" (bool true)
                  (field "eligible_for_serving" (bool true) end))))))))

abbrev pub component_result : Fields
component_result = field "status" (str "SUCCEEDED") (
    field "independent_release" (bool true) (
      field "owner_seal_sha256" (str sha)
        (field "payload" (obj (field "component_report" (obj component_report) end)) end)))

abbrev pub surroundings : Surroundings
surroundings = record {
  token = λ o. job_id;
  clock = λ o. 1000;
  at_screen = λ o p. some (10 ∷ []);
  at_check = λ o p. some (10 ∷ []);
  at_submit = λ o p. some (10 ∷ []);
  wait = λ o r x. (ok component_result, x);
}

abbrev pub desk : Desk
desk = record { exchange = empty_exchange; folders = ("/out", []) ∷ [] }

abbrev pub within_wall : Within
within_wall v wall = true

abbrev running : Result Fault Fields × Desk
running = run 2 writer within_wall surroundings binding_given component_config "/out" desk

run_depth_example :
    run 5 writer within_wall surroundings binding_given component_config "/out" desk ≡ running
run_depth_example =
    run_depth writer within_wall surroundings binding_given 3 component_config "/out" desk

abbrev starting : Result Fault (Unit {0}) × Desk
starting = begin_in writer "/out" component_config binding_given desk

invocation_starts : starting ≡ (ok tt, starting.1)
unfolding begin_in begin output_folder publish_in require_campaign_open validate_config
    read_component read_enabled at_least json_eq text_or_number_eq number_eq pop encode is_finite
    all_finite finite_fields find place publish dictionary envelope_seconds
invocation_starts = refl

run_once_example :
    (f : Fault) × (run 2 writer within_wall surroundings binding_given component_config "/out"
        running.1
      ≡ (err f, running.1))
run_once_example =
    run_once 1 2 writer within_wall surroundings surroundings binding_given component_config
      component_config "/out" desk starting.1 invocation_starts
