-- ===== src/Exchange/SubmitTests.antt =====
-- lib/workstation/hyperloom_exchange.py: a job that is submitted, inspected and answered.
use arch_linux_threadripper.Prelude.{
  ◌==◌, ◌≡◌, refl, true, none, some, [], ◌∷◌, Result, ok, err, if◌then◌else◌, str_eq,
}
use arch_linux_threadripper.Prelude.Int.{pos}
use arch_linux_threadripper.Prelude.Assoc.{Assoc, find, place}
use arch_linux_threadripper.Json.{pop, Json, bool, int, str, obj, Fields, end, field}
use arch_linux_threadripper.Exchange.Terms.{
  Fault, refused, Codec, serving, is_sha, is_job_id, is_name, identity, positive, dictionary,
  kind_named, envelope_seconds,
}
use arch_linux_threadripper.Exchange.Requests.{
  Request, read_request, read_kind, read_id, read_name, read_size, read_source, read_sources,
  total_size, source_items,
}
use arch_linux_threadripper.Exchange.Store.{Bytes, Reply, Exchange, read_file, publish}
use arch_linux_threadripper.Exchange.Jobs.{read_result, is_status}
use arch_linux_threadripper.Exchange.Submit.{
  Files, Submission, is_finite, all_finite, finite_fields, encode, recognized, whole, insert_entry,
  sorted_items, given_sources, read_path, gather, prepare, request_fields,
}
use arch_linux_threadripper.Exchange.Write.{
  store_config, store_source, store_request, store_sources, write_job, keep_job, make_job,
  submit_prepared, submit,
}
use arch_linux_threadripper.Exchange.Delivery.{IsDelivered, inspect-submit}
use arch_linux_threadripper.Exchange.Answer.{read_result-publish_result}
use arch_linux_threadripper.Exchange.Publish.{
  result_fields, publish_result, outcome, check_seal, claim_entries, claimed_controller,
}
use arch_linux_threadripper.Exchange.Tests.{sha, job_id, bound}
use arch_linux_threadripper.Exchange.Handover.{undisturbed, claimed, take_job-submit}
use arch_linux_threadripper.Exchange.Host.{take_job}
use arch_linux_threadripper.Exchange.Config.{
  validate_config, read_component, read_enabled, at_least,
}
use arch_linux_threadripper.Json.Equality.{json_eq, text_or_number_eq, number_eq}

abbrev config_given : Fields
config_given = field "benchmark" (obj (field "timeout_seconds" (int (pos 600)) end)) end

abbrev submission_given : Submission
submission_given = record {
  campaign = str sha;
  selection = str sha;
  kind = str "serving";
  config = obj config_given;
  sources = obj (field "model.py" (str "/candidate/model.py") end);
  caller_seconds = int (pos 100);
  deadline = int (pos 700000);
  now = 1000;
  expected = some sha;
}

abbrev disk : Files
disk path = if str_eq path "/candidate/model.py" then some (10 ∷ 20 ∷ []) else none

-- The texts of the two documents, under one byte each
abbrev pub texts : Json → Bytes
texts (obj (field k v d)) = if str_eq k "adoption_authorized" then 1 ∷ [] else 2 ∷ []
texts _ = 3 ∷ []

abbrev pub writer : Codec
writer = record { canonical = texts; digest = λ b. sha; decode = λ b. err (refused "") }

abbrev request_given : Fields
request_given =
    request_fields writer job_id sha sha serving (2 ∷ []) 1000 100 (("model.py", 10 ∷ 20 ∷ []) ∷ [])

abbrev read_text : Bytes → Result Fault Json
read_text (n ∷ []) = if n == 1 then ok (obj request_given) else ok (obj config_given)
read_text _ = err (refused "strict JSON required")

abbrev submit_codec : Codec
submit_codec = record { canonical = texts; digest = λ b. sha; decode = read_text }

abbrev pub empty_exchange : Exchange
empty_exchange = record { jobs = []; replies = []; parked = none }

abbrev submitting : Result Fault Request × Exchange
submitting = submit submit_codec disk job_id submission_given empty_exchange

abbrev pub submitted_request : Request
submitted_request = record {
  document = request_given;
  kind = serving;
  id = job_id;
  campaign = sha;
  selection = sha;
  config = sha;
  source_set = sha;
  created = 1000;
  expires = 601000;
  caller_seconds = 100;
  sources = record { name = "model.py"; sha256 = sha; size = 2 } ∷ [];
}

job_is_submitted : submitting ≡ (ok submitted_request, submitting.1)
unfolding submit submit_prepared make_job keep_job write_job store_config store_source store_request
    store_sources prepare gather read_path given_sources sorted_items insert_entry whole recognized
    encode is_finite all_finite finite_fields find place read_file publish read_request read_kind
    read_id read_name read_size read_source read_sources total_size source_items is_sha is_job_id
    is_name identity positive dictionary kind_named envelope_seconds
job_is_submitted = refl

-- The job in the exchange
inspect-submit_example :
    IsDelivered submit_codec disk job_id submission_given empty_exchange submitting.1
      submitted_request config_given
inspect-submit_example =
    inspect-submit submit_codec disk job_id submission_given empty_exchange submitting.1
      submitted_request config_given job_is_submitted refl refl refl

config_asks_for_serving : validate_config config_given bound ≡ ok serving
unfolding validate_config read_component read_enabled at_least json_eq text_or_number_eq number_eq
    pop dictionary envelope_seconds
config_asks_for_serving = refl

documents_are_equal :
    (json_eq (obj request_given) (obj request_given) ≡ true)
    × (json_eq (obj config_given) (obj config_given) ≡ true)
    × (is_sha sha ≡ true)
    × (find empty_exchange.replies job_id ≡ none)
unfolding json_eq text_or_number_eq number_eq envelope_seconds is_sha find
documents_are_equal = (refl, refl, refl, refl)

take_job-submit_example :
    (given : Fields) × (files : Assoc Bytes) × (obj
        (field "model.py" (str "/candidate/model.py") end)
      ≡ obj given)
    × (gather disk (sorted_items given) ≡ ok files)
    × (take_job submit_codec bound job_id 2000
          (undisturbed submit_codec submitted_request)
          submitting.1
          submitting.1
          submitting.1
        ≡ (
          ok (
            record { request = submitted_request; config = config_given; sources = files },
            obj config_given,
          ),
          claimed submit_codec bound submitted_request 2000 submitting.1,
        ))
take_job-submit_example =
    take_job-submit submit_codec disk job_id submission_given empty_exchange submitting.1
      submitted_request config_given bound 2000 (obj config_given) job_is_submitted refl refl refl
      refl refl documents_are_equal.2 refl refl config_asks_for_serving documents_are_equal.3 refl
      refl refl refl documents_are_equal.0 documents_are_equal.1

abbrev reply_given : Reply
reply_given = record { claim = some (9 ∷ []); result = none }

abbrev claim_given : Fields
claim_given =
    field "id" (str job_id)
      (field "request_sha256" (str sha) (field "controller_sha256" (str sha) end))

abbrev result_given : Fields
result_given =
    result_fields writer submitted_request (str "SUCCEEDED") (obj end) (str sha) (bool true)
      (str sha)

abbrev read_reply_text : Bytes → Result Fault Json
read_reply_text (n ∷ []) = if n == 9 then ok (obj claim_given) else ok (obj result_given)
read_reply_text _ = err (refused "strict JSON required")

abbrev reply_codec : Codec
reply_codec = record { canonical = λ v. 8 ∷ []; digest = λ b. sha; decode = read_reply_text }

result_is_published :
    publish_result reply_codec job_id reply_given submitted_request
      (str "SUCCEEDED")
      (obj end)
      (str sha)
      (bool true)
    ≡ ok (result_given, record reply_given { result = some (8 ∷ []) })
unfolding publish_result outcome check_seal claim_entries claimed_controller encode is_finite
    finite_fields read_file publish identity is_sha is_status
result_is_published = refl

read_result-publish_result_example :
    (reply_given.result ≡ none)
    × (some (9 ∷ []) ≡ reply_given.claim)
    × (read_result reply_codec job_id
          (record reply_given { result = some (8 ∷ []) })
          submitted_request
          sha
        ≡ ok result_given)
read_result-publish_result_example =
    read_result-publish_result reply_codec job_id reply_given
      (record reply_given { result = some (8 ∷ []) }) submitted_request (str "SUCCEEDED") (obj end)
      (str sha) (bool true) result_given sha result_is_published refl refl
