-- ===== src/Controller/Tests.antt =====
-- infrastructure/hyperloom/sglang-owner-adapter/controller.py: one campaign of one job, and each result at it.
use arch_linux_threadripper.Prelude.{
  ◌⊎◌, ◌<◌, ℕ, ◌+◌, ◌*◌, ◌-◌, ◌≤◌, ◌≡◌, refl, String, Bool, true, false, Option, none, some, [],
  ◌∷◌, Result, ok, err, ◌==◌, if◌then◌else◌, leb, arith, is_some,
}
use arch_linux_threadripper.Prelude.Int.{pos}
use arch_linux_threadripper.Prelude.Assoc.{find, place}
use arch_linux_threadripper.Json.{
  Json, null, bool, int, str, obj, arr, Fields, end, field, nil, cons, pop, put,
}
use arch_linux_threadripper.Json.Equality.{json_eq}
use arch_linux_threadripper.Exchange.Terms.{
  Fault, refused, Codec, serving, is_sha, is_job_id, is_name, identity, positive, dictionary,
  kind_named, envelope_seconds,
}
use arch_linux_threadripper.Exchange.Requests.{
  read_request, read_kind, read_id, read_name, read_size, read_source, read_sources, total_size,
  source_items,
}
use arch_linux_threadripper.Exchange.Config.{
  Bound, validate_config, read_component, read_enabled, at_least,
}
use arch_linux_threadripper.Exchange.Retain.{
  Private, retain_snapshot, config_object, claim_object, read_encoded, decoded, retain_sources,
}
use arch_linux_threadripper.Controller.State.{
  Stop, State, Environment, Execution, finished, asks, initial, write,
}
use arch_linux_threadripper.Controller.Calls.{
  read_clocks, remaining, send, call, confirm, ask_cancelled, publish_terminal, publish_or_note,
  park_unless, park,
}
use arch_linux_threadripper.Controller.Owner.{
  item, item_of, check_closure, read_eligible, check_screen, stop_if_rejected, prepare, propose,
  read_candidate, authorization, authorize, clear, run_execution, update_fields, note_refusal,
  keep_component, mark_start, mark_execution, mark_observation, mark_refusal, check_outcome, launch,
  run_owner, choose, attempt, evaluable,
}
use arch_linux_threadripper.Controller.Step.{
  read_names, read_queue, make_job, excuse, send_outcome, park_here, note_lost, park_if,
  park_as_told, publish_outcome, publish_job, begin_outcome, try_job, handle_job, next_job, poll,
  end_budget, try_step, close_down, step_unless, step, sees_stop, pause, serve_turn, serve_while,
  serve_unless, serve_once, go_on, serve_loop, close_serving, after_closing, finish, finish_if,
  serve, Answer, failed,
}
use arch_linux_threadripper.Controller.Changes.{parks, runs}
use arch_linux_threadripper.Controller.Serving.{serve_once_only, serve_ends}
use arch_linux_threadripper.Controller.Parking.{serve-IsClosed}
use arch_linux_threadripper.Controller.Life.{left_at}
use arch_linux_threadripper.Controller.Grants.{IsGranted, run_owner-IsGranted}

abbrev sha : String
sha = "aaaaaaaaaaaaaaaaaaaaaaaaaaaaaaaaaaaaaaaaaaaaaaaaaaaaaaaaaaaaaaaa"

abbrev job_id : String
job_id = "0123456789abcdef0123456789abcdef"

abbrev source_row : Json
source_row =
    obj (field "name" (str evaluable) (field "sha256" (str sha) (field "bytes" (int (pos 3)) end)))

abbrev request_document : Fields
request_document = field "schema" (int (pos 1)) (
    field "kind" (str "serving") (
      field "id" (str job_id) (
        field "campaign_sha256" (str sha) (
          field "selection_sha256" (str sha) (
            field "config_sha256" (str sha) (
              field "source_set_sha256" (str sha) (
                field "created_unix_ms" (int (pos 1000)) (
                  field "expires_unix_ms" (int (pos 601000)) (
                    field "caller_seconds" (int (pos 100)) (
                      field "post_release_seconds" (int (pos 440)) (
                        field "sources" (arr (cons source_row nil)) (
                          field "automatic_retry" (bool false)
                            (field "adoption_authorized" (bool false) end)))))))))))))

abbrev config_document : Json
config_document = obj (field "benchmark" (obj (field "timeout_seconds" (int (pos 600)) end)) end)

abbrev claim_document : Json
claim_document = obj (
    field "id" (str job_id) (
      field "request_sha256" (str sha)
        (field "controller_sha256" (str sha) (field "gpu_admission" (bool false) end))))

abbrev snapshot_document : Fields
snapshot_document = field "schema" (int (pos 1)) (
    field "request" (obj request_document) (
      field "config" config_document (
        field "sources" (obj (field evaluable (str "ChQe") end))
          (field "claim" claim_document end))))

abbrev codec : Codec
codec = record {
  canonical = λ v. [];
  digest = λ b. sha;
  decode = λ b. err (refused "strict JSON required");
}

abbrev bound : Bound
bound = record {
  campaign = sha;
  selection = sha;
  controller = sha;
  caller_seconds = λ k. 100;
  deadline = 700000;
  benchmark = end;
}

-- The exchange answers its calls in their order: the queue, the job, its state twice, the publication, and
-- the terminal record.
abbrev answers : ℕ → Result Fault Fields
answers n =
    if n == 1
    then ok (field "jobs" (arr (cons (str job_id) nil)) end)
    else if n == 2
    then ok snapshot_document
    else if leb n 4
    then ok (field "cancelled" (bool false) (field "request_sha256" (str sha) end))
    else ok (field "published_sha256" (str sha) end)

abbrev observation : Fields
observation = field "id" (str job_id) (
    field "campaign_sha256" (str sha) (
      field "config_sha256" (str sha) (
        field "source_set_sha256" (str sha) (
          field "request_sha256" (str sha) (
            field "controller_sha256" (str sha)
              (field "status" (str "SUCCEEDED") (field "park_campaign" (bool true) end)))))))

abbrev inputs_document : Fields
inputs_document = field "owner" null (field "support" null end)

abbrev preparation_document : Fields
preparation_document =
    field "status" (str "PREPARED_NOT_REGISTERED_OR_RUN") (field "record" null end)

abbrev pinned : Json
pinned = obj (field "sha256" (str sha) end)

abbrev proposal_document : Fields
proposal_document = field "status" (str "PROPOSED_NOT_REGISTERED_OR_RUN") (
    field "record" null (
      field "campaign_root" (str "/campaign") (
        field "proposal" pinned (
          field "execute_once" pinned
            (field "nonce" (str "n") (field "index" (int (pos 1)) end))))))

-- The operation asks once whether its job is cancelled.
abbrev operation : Execution
operation = asks (λ answer. finished (ok observation))

-- The wall clock goes on by 100 seconds at each reading after the hundredth.
abbrev environment : Environment
environment = record {
  codec = codec;
  bound = bound;
  selected_source_set = sha;
  allowed = serving ∷ [];
  owner = "owner";
  owner_answer = "Derived from the retained campaign instruction: yes";
  approval = null;
  end_monotonic = 700000;
  deadline = 700000;
  clocks = λ n. (n * 100, 1000 + n * 100 + (n - 100) * 100000);
  rpc = answers;
  closure = λ n. ok tt;
  stop = λ n. false;
  fresh = λ id. true;
  unpack = λ s. some (10 ∷ 20 ∷ 30 ∷ []);
  inputs = λ k. ok inputs_document;
  prepare = λ k p a b. ok preparation_document;
  propose = λ k d. ok proposal_document;
  execute = λ k a b. operation;
  shown = λ v. "";
  error_text = λ f. "";
  utc = λ n. "";
}

abbrev outcome_or : Option (Result Stop (Unit {0}) × State) → Result Stop (Unit {0}) × State
outcome_or none = (ok tt, initial)
outcome_or (some o) = o

abbrev served : Result Stop (Unit {0}) × State
served = outcome_or (serve 3 environment initial)

outcome_is :
    (r : Option (Result Stop (Unit {0}) × State)) → is_some r ≡ true → r ≡ some (outcome_or r)
outcome_is none h = cc
outcome_is (some o) h = refl

it_ends : is_some (serve 3 environment initial) ≡ true
unfolding read_clocks remaining send call confirm ask_cancelled publish_terminal publish_or_note
    park_unless park item item_of check_closure read_eligible check_screen stop_if_rejected prepare
    propose read_candidate authorization authorize clear run_execution update_fields note_refusal
    keep_component mark_start mark_execution mark_observation mark_refusal check_outcome launch
    run_owner choose attempt write read_names read_queue make_job excuse send_outcome park_here
    note_lost park_if park_as_told publish_outcome publish_job begin_outcome try_job handle_job
    next_job poll end_budget try_step close_down step_unless step sees_stop pause serve_turn
    serve_while serve_unless serve_once go_on serve_loop close_serving after_closing finish
    finish_if serve retain_snapshot config_object claim_object read_encoded decoded retain_sources
    validate_config read_component read_enabled at_least json_eq pop put read_request read_kind
    read_id read_name read_size read_source read_sources total_size source_items is_sha is_job_id
    is_name identity positive dictionary kind_named envelope_seconds find place
it_ends = refl

is_served : serve 3 environment initial ≡ some served
is_served = outcome_is (serve 3 environment initial) it_ends

-- The one job of the campaign was run, and the terminal record sent.
is_run : (runs job_id served.1.log ≡ 1) × (parks served.1.log ≡ 1)
unfolding read_clocks remaining send call confirm ask_cancelled publish_terminal publish_or_note
    park_unless park item item_of check_closure read_eligible check_screen stop_if_rejected prepare
    propose read_candidate authorization authorize clear run_execution update_fields note_refusal
    keep_component mark_start mark_execution mark_observation mark_refusal check_outcome launch
    run_owner choose attempt write read_names read_queue make_job excuse send_outcome park_here
    note_lost park_if park_as_told publish_outcome publish_job begin_outcome try_job handle_job
    next_job poll end_budget try_step close_down step_unless step sees_stop pause serve_turn
    serve_while serve_unless serve_once go_on serve_loop close_serving after_closing finish
    finish_if serve retain_snapshot config_object claim_object read_encoded decoded retain_sources
    validate_config read_component read_enabled at_least json_eq pop put read_request read_kind
    read_id read_name read_size read_source read_sources total_size source_items is_sha is_job_id
    is_name identity positive dictionary kind_named envelope_seconds find place
is_run = (refl, refl)

serve_once_only_example : (parks served.1.log ≤ 1) × (runs job_id served.1.log ≤ 1)
serve_once_only_example = serve_once_only 3 environment served job_id is_served

serve-IsClosed_example :
    (served.1.parked ≡ true)
    × (served.1.terminal_attempted ≡ true)
    × ((1 ≤ parks served.1.log)
        ⊎ ((n : ℕ) × (n < served.1.ticks) × (left_at environment n ≤ 10000)))
serve-IsClosed_example = serve-IsClosed 3 environment initial served refl is_served

serve_ends_example : is_some (serve 108 environment initial) ≡ true
serve_ends_example = serve_ends environment 107 108 initial (λ n h. omega (arith, h)) (omega arith)

abbrev answer_or : Result Stop Answer → Answer
answer_or (ok a) = a
answer_or (err e) = failed

abbrev succeeds : Result Stop Answer → Bool
succeeds (ok a) = true
succeeds (err e) = false

answer_is : (r : Result Stop Answer × State) → succeeds r.0 ≡ true → r ≡ (ok (answer_or r.0), r.1)
answer_is (ok a, s) h = refl
answer_is (err e, s) h = cc

abbrev stepped : Result Stop Answer × State
stepped = step environment initial

it_steps : succeeds stepped.0 ≡ true
unfolding read_clocks remaining send call confirm ask_cancelled publish_terminal publish_or_note
    park_unless park item item_of check_closure read_eligible check_screen stop_if_rejected prepare
    propose read_candidate authorization authorize clear run_execution update_fields note_refusal
    keep_component mark_start mark_execution mark_observation mark_refusal check_outcome launch
    run_owner choose attempt write read_names read_queue make_job excuse send_outcome park_here
    note_lost park_if park_as_told publish_outcome publish_job begin_outcome try_job handle_job
    next_job poll end_budget try_step close_down step_unless step sees_stop pause serve_turn
    serve_while serve_unless serve_once go_on serve_loop close_serving after_closing finish
    finish_if serve retain_snapshot config_object claim_object read_encoded decoded retain_sources
    validate_config read_component read_enabled at_least json_eq pop put read_request read_kind
    read_id read_name read_size read_source read_sources total_size source_items is_sha is_job_id
    is_name identity positive dictionary kind_named envelope_seconds find place
it_steps = refl

abbrev no_private : Private
no_private = record {
  request = record {
    document = end;
    kind = serving;
    id = "";
    campaign = "";
    selection = "";
    config = "";
    source_set = "";
    created = 0;
    expires = 0;
    caller_seconds = 0;
    sources = [];
  };
  config = end;
  claim = end;
  sources = [];
}

abbrev private_or_empty : Result Fault Private → Private
private_or_empty (ok p) = p
private_or_empty (err f) = no_private

abbrev the_private : Private
the_private =
    private_or_empty (retain_snapshot codec environment.unpack bound true (obj snapshot_document))

owner_ran : runs job_id (run_owner environment job_id the_private initial).1.log ≡ 1
unfolding read_clocks remaining send call confirm ask_cancelled publish_terminal publish_or_note
    park_unless park item item_of check_closure read_eligible check_screen stop_if_rejected prepare
    propose read_candidate authorization authorize clear run_execution update_fields note_refusal
    keep_component mark_start mark_execution mark_observation mark_refusal check_outcome launch
    run_owner choose attempt write read_names read_queue make_job excuse send_outcome park_here
    note_lost park_if park_as_told publish_outcome publish_job begin_outcome try_job handle_job
    next_job poll end_budget try_step close_down step_unless step sees_stop pause serve_turn
    serve_while serve_unless serve_once go_on serve_loop close_serving after_closing finish
    finish_if serve retain_snapshot config_object claim_object read_encoded decoded retain_sources
    validate_config read_component read_enabled at_least json_eq pop put read_request read_kind
    read_id read_name read_size read_source read_sources total_size source_items is_sha is_job_id
    is_name identity positive dictionary kind_named envelope_seconds find place
owner_ran = refl

run_owner-IsGranted_example : IsGranted environment initial the_private.request
run_owner-IsGranted_example =
    run_owner-IsGranted environment job_id the_private initial (omega (arith, owner_ran))
