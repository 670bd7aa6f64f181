-- ===== src/Exchange/Jobs.antt =====
-- lib/workstation/hyperloom_exchange.py: `inspect`, `claim`, and the check of a result.
use arch_linux_threadripper.Prelude.{
  ℕ, ◌+◌, ◌*◌, String, Bool, true, false, not, ◌&&◌, ◌||◌, Option, none, some, List, [], ◌∷◌, map,
  leb, ◌==◌, if◌then◌else◌, Result, ok, err, ◌>>=◌, ◌>>◌, require, length, all, str_eq,
}
use arch_linux_threadripper.Prelude.Int.{pos}
use arch_linux_threadripper.Prelude.Assoc.{Assoc, find, place}
use arch_linux_threadripper.Json.{
  Json, bool, int, str, obj, null, Fields, end, field, get, get_or, eq_nat, mem_str, hashable,
}
use arch_linux_threadripper.Exchange.Terms.{
  Fault, refused, already_exists, type_error, Codec, post_release_seconds, max_json, max_source,
  identity, is_exactly, is_text, says_false, says_true, dictionary,
}
use arch_linux_threadripper.Exchange.Requests.{Source, Request, read_request}
use arch_linux_threadripper.Exchange.Store.{
  Bytes, Job, Reply, empty_reply, Exchange, read_file, publish, open_directory, is_there,
}

-- The loop of `inspect` over the rows of the inventory.
unfoldable pub check_sources : Codec → Assoc Bytes → List Source → Result Fault (Unit {0})
check_sources c files [] = ok tt
check_sources c files (row ∷ rest) = do
  raw ← read_file max_source (find files row.name)
  require (length raw == row.size && str_eq (c.digest raw) row.sha256)
      (refused "job source changed")
  check_sources c files rest

abbrev pub source_names : List Source → List String
source_names = map (λ s. s.name)

abbrev pub file_names : Assoc Bytes → List String
file_names = map (λ e. e.0)

-- The two sets of names are equal.
abbrev pub same_names : List String → List String → Bool
same_names a b = all (λ n. mem_str n b) a && all (λ n. mem_str n a) b

unfoldable pub inspect : Codec → String → Job → String → String → Result Fault (Request × Fields)
inspect c name job campaign selection = do
  raw ← read_file max_json job.request
  value ← c.decode raw
  request ← read_request c value
  require
      (str_eq name request.id
        && str_eq request.campaign campaign
        && str_eq request.selection selection)
      (refused "wrong campaign, selection or job")
  config_raw ← read_file max_json job.config
  require (str_eq (c.digest config_raw) request.config) (refused "job config changed")
  decoded ← c.decode config_raw
  config ← dictionary decoded "job config must be an object"
  require (same_names (file_names job.sources) (source_names request.sources))
      (refused "unexpected source member")
  check_sources c job.sources request.sources
  ok (request, config)

abbrev pub claim_document : String → String → String → ℕ → Json
claim_document id request_sha controller now = obj (
    field "schema" (int (pos 1)) (
      field "id" (str id) (
        field "request_sha256" (str request_sha) (
          field "controller_sha256" (str controller)
            (field "claimed_unix_ms" (int (pos now)) (field "gpu_admission" (bool false) end))))))

-- The time that a claim needs, in milliseconds.
abbrev pub needed_ms : Request → ℕ
needed_ms r = (r.caller_seconds + post_release_seconds r.kind) * 1000

-- reply.mkdir(): an existing reply raises FileExistsError.
unfoldable pub make_reply : Exchange → String → Result Fault (Unit {0})
make_reply x id = elim (find x.replies id) [ none ↦ ok tt | some r ↦ err already_exists ]

-- `claim` up to the making of the reply's directory: the request, its configuration, the job and the
-- controller.
unfoldable pub admit :
    Codec
    → String
    → String
    → String
    → Json
    → ℕ
    → Exchange
    → Result Fault (Request × Fields × Job × String)
admit c name campaign selection controller now x = do
  job ← open_directory x.jobs name
  (request, config) ← inspect c name job campaign selection
  owner ← identity (some controller) "invalid controller digest"
  require
      (leb request.created now
        && leb (now + needed_ms request) request.expires
        && not (is_there job.cancelled))
      (refused "job expired, clock moved or cancelled")
  make_reply x request.id
  ok (request, config, job, owner)

-- What is found of the job once the reply's directory is there: the bytes of its REQUEST.json, which are
-- read again, and whether it has been cancelled
pub record Meanwhile : Type 0 where
  pub request : Option Bytes
  pub cancelled : Bool

-- The bytes of CLAIM.json
unfoldable pub write_claim : Codec → Request → Option Bytes → String → ℕ → Result Fault Bytes
write_claim c request given owner now = do
  raw ← read_file max_json given
  publish none (c.canonical (claim_document request.id (c.digest raw) owner now))

abbrev pub with_reply : Exchange → String → Reply → Exchange
with_reply x id reply = record x { replies = place x.replies id reply }

-- The reply's directory is there from now on, with the claim if it could be written. A cancellation
-- that has come in the meantime is a refusal, and the claim stays.
unfoldable pub answer_claim :
    Bool
    → Exchange
    → Request
    → Fields
    → Result Fault Bytes
    → Result Fault (Request × Fields) × Exchange
answer_claim cancelled x request config (err f) = (err f, with_reply x request.id empty_reply)
answer_claim true x request config (ok raw) = (
  err (refused "job cancelled while being claimed"),
  with_reply x request.id (record empty_reply { claim = some raw }),
)
answer_claim false x request config (ok raw) =
    (ok (request, config), with_reply x request.id (record empty_reply { claim = some raw }))

unfoldable pub claim_admitted :
    Codec
    → ℕ
    → Meanwhile
    → Exchange
    → Result Fault (Request × Fields × Job × String)
    → Result Fault (Request × Fields) × Exchange
claim_admitted c now meanwhile x (err f) = (err f, x)
claim_admitted c now meanwhile x (ok (request, config, job, owner)) =
    answer_claim meanwhile.cancelled x request config
      (write_claim c request meanwhile.request owner now)

unfoldable pub claim :
    Codec
    → String
    → String
    → String
    → Json
    → ℕ
    → Meanwhile
    → Exchange
    → Result Fault (Request × Fields) × Exchange
claim c name campaign selection controller now meanwhile x =
    claim_admitted c now meanwhile x (admit c name campaign selection controller now x)

-- `status in {…}`, and whether the status has a hash, without which that test raises TypeError
abbrev pub has_hash : Option Json → Bool
has_hash none = true
has_hash (some v) = hashable v

unfoldable pub is_status : Option Json → Bool
is_status (some (str s)) =
    str_eq s "SUCCEEDED" || str_eq s "FAILED" || str_eq s "UNSUPPORTED" || str_eq s "CANCELLED"
is_status _ = false

abbrev pub is_dictionary : Option Json → Bool
is_dictionary (some (obj _)) = true
is_dictionary _ = false

-- The seal and the release that a success needs.
unfoldable pub check_success : Fields → String → String → Result Fault (Unit {0})
check_success d seal release =
    if is_text "SUCCEEDED" (get d "status")
    then (do
      _ ← identity (get d "owner_seal_sha256") seal
      require (says_true (get d "independent_release")) (refused release))
    else ok tt

-- `validate_result`: the predicate for a live reply and for a retained result.
unfoldable pub validate_result : Codec → Json → Request → String → Result Fault Fields
validate_result c result request controller = do
  d ← dictionary result "job result schema"
  require (is_exactly 1 (get d "schema")) (refused "job result schema")
  require
      (is_text request.id (get d "id")
        && is_text request.campaign (get d "campaign_sha256")
        && is_text request.config (get d "config_sha256")
        && is_text request.source_set (get d "source_set_sha256")
        && is_text (c.digest (c.canonical (obj request.document))) (get d "request_sha256")
        && is_text controller (get d "controller_sha256"))
      (refused "result identity changed or belongs to another request")
  require (has_hash (get d "status")) type_error
  require
      (is_status (get d "status")
        && says_false (get d "automatic_retry")
        && says_false (get d "adoption_authorized")
        && is_dictionary (get d "payload"))
      (refused "job result contract")
  check_success d "invalid result seal" "result missing independent release"
  ok d

-- `read_result`
unfoldable pub read_result : Codec → String → Reply → Request → String → Result Fault Fields
read_result c name reply request controller = do
  require (str_eq name request.id) (refused "wrong reply directory")
  raw ← read_file 16777216 reply.result
  result ← c.decode raw
  validate_result c result request controller

-- A parked campaign's reason
unfoldable pub parked_reason : Option Json → Result Fault String
parked_reason (some (str s)) = ok s
parked_reason _ = err (refused "foreign or invalid campaign terminal record")

-- `require_campaign_open`: an authenticated terminal record is a RuntimeError.
unfoldable pub require_campaign_open :
    Codec → Option Bytes → String → String → Result Fault (Unit {0})
require_campaign_open c none campaign controller = ok tt
require_campaign_open c (some raw) campaign controller = do
  bytes ← read_file max_json (some raw)
  value ← c.decode bytes
  d ← dictionary value "foreign or invalid campaign terminal record"
  require
      (eq_nat (get_or d "schema" null) 1
        && is_text campaign (get d "campaign_sha256")
        && is_text controller (get d "controller_sha256")
        && says_true (get d "park_campaign")
        && says_false (get d "automatic_retry")
        && says_false (get d "adoption_authorized"))
      (refused "foreign or invalid campaign terminal record")
  reason ← parked_reason (get d "reason")
  err (Fault.parked reason)
