-- ===== src/Exchange/Tests.antt =====
-- lib/workstation/hyperloom_exchange.py and hyperloom_exchange_host.py: one job from its request to its
-- result, and each result at it.
use arch_linux_threadripper.Prelude.{
  String, ◌≡◌, refl, true, false, none, some, [], ◌∷◌, Result, ok, err, ◌==◌, if◌then◌else◌,
}
use arch_linux_threadripper.Prelude.Int.{pos}
use arch_linux_threadripper.Prelude.Assoc.{find, place}
use arch_linux_threadripper.Json.{
  Json, null, bool, int, str, obj, arr, Fields, end, field, nil, cons, pop,
}
use arch_linux_threadripper.Json.Equality.{json_eq}
use arch_linux_threadripper.Exchange.Terms.{
  Fault, refused, Codec, serving, is_sha, is_job_id, is_name, identity, positive, dictionary,
  kind_named, envelope_seconds,
}
use arch_linux_threadripper.Exchange.Requests.{
  Request, read_request, read_kind, read_id, read_name, read_size, read_source, read_sources,
  total_size, source_items,
}
use arch_linux_threadripper.Exchange.Store.{Bytes, Exchange, read_file, publish, open_directory}
use arch_linux_threadripper.Exchange.Jobs.{
  Meanwhile, inspect, check_sources, admit, write_claim, claim_admitted, make_reply, claim,
  answer_claim, check_success, is_status, validate_result,
}
use arch_linux_threadripper.Exchange.Config.{
  Bound, validate_config, read_component, read_enabled, at_least,
}
use arch_linux_threadripper.Exchange.Host.{
  claim_record, job_named, copy_sources, snapshot, Snapshot, match_claim, claim_snapshot, take_job,
  inspect_named, cancellation, is_cancelled, claimed_request, publish_outcome,
}
use arch_linux_threadripper.Exchange.Validity.{IsRequest, read_request-IsRequest}
use arch_linux_threadripper.Exchange.Reach.{Reach, here, there, optimizer, taken}
use arch_linux_threadripper.Exchange.Board.{Moves, board, Reach-Moves}
use arch_linux_threadripper.Exchange.Once.{IsTaken, take_once, publish_once}
use arch_linux_threadripper.Exchange.Snapshots.{IsSnapshot, take_job_sound}
use arch_linux_threadripper.Exchange.Replies.{IsResult}
use arch_linux_threadripper.Exchange.Wait.{
  Look, Roots, are_usable, wait_state, wait_checked, wait_result, settle_wait, give_up, wait_loop,
  cancel_wait, cancellation_document, wait_result_ends,
}
use arch_linux_threadripper.Exchange.Jobs.{require_campaign_open}
use arch_linux_threadripper.Exchange.Terms.{late, max_result}
use arch_linux_threadripper.Exchange.Store.{is_there, Job}
use arch_linux_threadripper.Prelude.{◌⊎◌, arith, List, length, ◌≤◌}
use arch_linux_threadripper.Prelude.{Option}
use arch_linux_threadripper.Exchange.Retain.{
  Private, retain_snapshot, config_object, claim_object, read_encoded, decoded, retain_sources,
  IsRetained, retain_snapshot-IsRetained,
}

abbrev pub sha : String
sha = "aaaaaaaaaaaaaaaaaaaaaaaaaaaaaaaaaaaaaaaaaaaaaaaaaaaaaaaaaaaaaaaa"

abbrev pub job_id : String
job_id = "0123456789abcdef0123456789abcdef"

abbrev pub source_row : Json
source_row =
    obj (field "name" (str "model.py") (field "sha256" (str sha) (field "bytes" (int (pos 3)) end)))

abbrev pub request_document : Fields
request_document = field "schema" (int (pos 1)) (
    field "kind" (str "serving") (
      field "id" (str job_id) (
        field "campaign_sha256" (str sha) (
          field "selection_sha256" (str sha) (
            field "config_sha256" (str sha) (
              field "source_set_sha256" (str sha) (
                field "created_unix_ms" (int (pos 1000)) (
                  field "expires_unix_ms" (int (pos 601000)) (
                    field "caller_seconds" (int (pos 100)) (
                      field "post_release_seconds" (int (pos 440)) (
                        field "sources" (arr (cons source_row nil)) (
                          field "automatic_retry" (bool false)
                            (field "adoption_authorized" (bool false) end)))))))))))))

abbrev pub config_document : Fields
config_document = field "benchmark" (obj (field "timeout_seconds" (int (pos 600)) end)) end

abbrev pub claim_fields : Fields
claim_fields = field "request_sha256" (str sha) end

abbrev result_document : Fields
result_document = field "schema" (int (pos 1)) (
    field "id" (str job_id) (
      field "campaign_sha256" (str sha) (
        field "config_sha256" (str sha) (
          field "source_set_sha256" (str sha) (
            field "request_sha256" (str sha) (
              field "controller_sha256" (str sha) (
                field "status" (str "SUCCEEDED") (
                  field "payload" (obj end) (
                    field "owner_seal_sha256" (str sha) (
                      field "independent_release" (bool true) (
                        field "automatic_retry" (bool false)
                          (field "adoption_authorized" (bool false) end))))))))))))

-- Three documents under one byte each: a request, a configuration and a claim.
abbrev decode_example : Bytes → Result Fault Json
decode_example (n ∷ []) =
    if n == 1
    then ok (obj request_document)
    else if n == 2
    then ok (obj config_document)
    else if n == 7
    then ok (obj claim_fields)
    else err (refused "strict JSON required")
decode_example _ = err (refused "strict JSON required")

abbrev pub codec : Codec
codec = record { canonical = λ v. 7 ∷ []; digest = λ b. sha; decode = decode_example }

abbrev pub bound : Bound
bound = record {
  campaign = sha;
  selection = sha;
  controller = sha;
  caller_seconds = λ k. 100;
  deadline = 700000;
  benchmark = end;
}

abbrev submitted : Exchange
submitted = record {
  jobs =
      (
        job_id,
        record {
          request = some (1 ∷ []);
          config = some (2 ∷ []);
          sources = ("model.py", 10 ∷ 20 ∷ 30 ∷ []) ∷ [];
          cancelled = none;
        },
      )
      ∷ [];
  replies = [];
  parked = none;
}

abbrev no_request : Request
no_request = record {
  document = end;
  kind = serving;
  id = "";
  campaign = "";
  selection = "";
  config = "";
  source_set = "";
  created = 0;
  expires = 0;
  caller_seconds = 0;
  sources = [];
}

abbrev request_or_empty : Result Fault Request → Request
request_or_empty (ok r) = r
request_or_empty (err f) = no_request

abbrev pub the_request : Request
the_request = request_or_empty (read_request codec (obj request_document))

request_is_read : read_request codec (obj request_document) ≡ ok the_request
unfolding read_request read_kind read_id read_name read_size read_source read_sources total_size
    source_items is_sha is_job_id is_name identity positive dictionary kind_named envelope_seconds
request_is_read = refl

read_request-IsRequest_example : IsRequest codec the_request
read_request-IsRequest_example =
    read_request-IsRequest codec (obj request_document) the_request request_is_read

abbrev no_snapshot : Snapshot
no_snapshot = record { request = no_request; config = end; sources = [] }

abbrev snapshot_or_empty : Result Fault (Snapshot × Json) → Snapshot × Json
snapshot_or_empty (ok s) = s
snapshot_or_empty (err f) = (no_snapshot, null)

-- The request is read again as it was, and nobody cancels.
abbrev unchanged : Meanwhile
unchanged = record { request = some (1 ∷ []); cancelled = false }

abbrev taking : Result Fault (Snapshot × Json) × Exchange
taking = take_job codec bound job_id 2000 unchanged submitted submitted submitted

abbrev the_snapshot : Snapshot
the_snapshot = (snapshot_or_empty taking.0).0

job_is_taken : taking ≡ (ok (the_snapshot, obj claim_fields), taking.1)
unfolding take_job claim_snapshot claim_record match_claim snapshot job_named inspect check_sources
    read_file open_directory find copy_sources validate_config read_component read_enabled at_least
    claim claim_admitted write_claim answer_claim admit make_reply publish place json_eq pop
    read_request read_kind read_id read_name read_size read_source read_sources total_size
    source_items is_sha is_job_id is_name identity positive dictionary kind_named envelope_seconds
job_is_taken = refl

take_job_sound_example :
    IsSnapshot codec bound job_id the_snapshot
    × IsTaken codec bound job_id 2000 submitted submitted submitted taking.1 the_snapshot
take_job_sound_example =
    take_job_sound codec bound job_id 2000 unchanged submitted submitted submitted taking.1
      the_snapshot (obj claim_fields) job_is_taken

-- The optimizer clears its tree, and writes the job again.
abbrev rewritten : Reach codec taking.1 (record taking.1 { jobs = submitted.jobs })
rewritten = there (optimizer taking.1 []) (
    there (optimizer (record taking.1 { jobs = [] }) submitted.jobs)
      (here (record taking.1 { jobs = submitted.jobs })))

take_once_example :
    (f : Fault) × (take_job codec bound job_id 3000 unchanged submitted submitted
        (record taking.1 { jobs = submitted.jobs })
      ≡ (err f, record taking.1 { jobs = submitted.jobs }))
take_once_example =
    take_once codec bound job_id 2000 unchanged submitted submitted submitted taking.1
      (record taking.1 { jobs = submitted.jobs }) the_snapshot (obj claim_fields) bound 3000
      unchanged submitted submitted job_is_taken rewritten

abbrev answer_or : Exchange → Result Fault (Json × Exchange) → Json × Exchange
answer_or x (ok a) = a
answer_or x (err f) = (null, x)

abbrev publishing : Json × Exchange
publishing = answer_or submitted (publish_outcome codec bound job_id (obj result_document) taking.1)

outcome_is_published :
    publish_outcome codec bound job_id (obj result_document) taking.1 ≡ ok publishing
unfolding publish_outcome claimed_request check_success is_status take_job claim_snapshot
    claim_record match_claim snapshot job_named inspect check_sources read_file open_directory find
    copy_sources validate_config read_component read_enabled at_least claim claim_admitted
    write_claim answer_claim admit make_reply publish place json_eq pop read_request read_kind
    read_id read_name read_size read_source read_sources total_size source_items is_sha is_job_id
    is_name identity positive dictionary kind_named envelope_seconds
outcome_is_published = refl

publish_once_example :
    (f : Fault) × (publish_outcome codec bound job_id
        (obj (field "status" (str "FAILED") end))
        publishing.1
      ≡ err f)
publish_once_example =
    publish_once codec bound job_id (obj result_document) publishing.0 taking.1 publishing.1
      publishing.1 bound (obj (field "status" (str "FAILED") end)) outcome_is_published
      (here publishing.1)

job_has_run_out : is_cancelled codec bound job_id 601000 submitted ≡ ok (true, some sha)
unfolding is_cancelled cancellation inspect_named take_job claim_snapshot claim_record match_claim
    snapshot job_named inspect check_sources read_file open_directory find copy_sources
    validate_config read_component read_enabled at_least claim claim_admitted write_claim
    answer_claim admit make_reply publish place json_eq pop read_request read_kind read_id read_name
    read_size read_source read_sources total_size source_items is_sha is_job_id is_name identity
    positive dictionary kind_named envelope_seconds
job_has_run_out = refl

result_is_valid : validate_result codec (obj result_document) the_request sha ≡ ok result_document
unfolding validate_result check_success is_status read_request read_kind read_id read_name read_size
    read_source read_sources total_size source_items is_sha is_job_id is_name identity positive
    dictionary kind_named envelope_seconds
result_is_valid = refl

-- A job that nobody answers.
abbrev waiting_job : Job
waiting_job = record {
  request = some (1 ∷ []);
  config = some (2 ∷ []);
  sources = [];
  cancelled = none;
}

abbrev looks : List Look
looks = record { reply = none; terminal = none } ∷ []

abbrev usable_roots : Roots
usable_roots = record { job_there = true; replies_there = true; separate = true }

wait_runs_out : (wait_result codec the_request sha usable_roots looks waiting_job).0 ≡ err late
unfolding wait_result wait_state wait_checked settle_wait give_up wait_loop cancel_wait
    require_campaign_open publish
wait_runs_out = refl

wait_result_ends_example :
    ((are_usable usable_roots ≡ true)
      × (d : Fields) × (wait_result codec the_request sha usable_roots looks waiting_job
          ≡ (ok d, waiting_job))
      × IsResult codec the_request sha d)
    ⊎ ((are_usable usable_roots ≡ true)
        × (f : Fault) × (after : Job) × (wait_result codec the_request sha usable_roots looks
              waiting_job
            ≡ (err f, after))
        × (is_there after.cancelled ≡ true))
    ⊎ ((are_usable usable_roots ≡ false)
        × (f : Fault) × (wait_result codec the_request sha usable_roots looks waiting_job
            ≡ (err f, waiting_job)))
wait_result_ends_example =
    wait_result_ends codec the_request sha usable_roots looks waiting_job short
  where
    short :
        (f : Fault)
        → length (codec.canonical (cancellation_document codec the_request f)) ≤ max_result
    short f = omega arith

abbrev pub snapshot_document : Fields
snapshot_document = field "schema" (int (pos 1)) (
    field "request" (obj request_document) (
      field "config" (obj config_document) (
        field "sources" (obj (field "model.py" (str "ChQe") end)) (
          field "claim"
            (obj (
              field "id" (str job_id) (
                field "request_sha256" (str sha)
                  (field "controller_sha256" (str sha) (field "gpu_admission" (bool false) end)))))
            end))))

abbrev unpack_example : String → Option Bytes
unpack_example s = some (10 ∷ 20 ∷ 30 ∷ [])

abbrev no_private : Private
no_private = record { request = no_request; config = end; claim = end; sources = [] }

abbrev private_or_empty : Result Fault Private → Private
private_or_empty (ok p) = p
private_or_empty (err f) = no_private

abbrev retained : Private
retained =
    private_or_empty (retain_snapshot codec unpack_example bound true (obj snapshot_document))

is_retained : retain_snapshot codec unpack_example bound true (obj snapshot_document) ≡ ok retained
unfolding retain_snapshot config_object claim_object read_encoded decoded retain_sources
    validate_config read_component read_enabled at_least json_eq pop read_request read_kind read_id
    read_name read_size read_source read_sources total_size source_items is_sha is_job_id is_name
    identity positive dictionary kind_named envelope_seconds
is_retained = refl

retain_snapshot-IsRetained_example : IsRetained codec bound retained
retain_snapshot-IsRetained_example =
    retain_snapshot-IsRetained codec unpack_example bound true (obj snapshot_document) retained
      is_retained

taken_once : Reach codec submitted taking.1
taken_once = there (taken submitted submitted submitted bound job_id 2000 unchanged) (here taking.1)

Reach-Moves_example : Moves (board submitted) (board taking.1)
Reach-Moves_example = Reach-Moves codec submitted taking.1 taken_once
