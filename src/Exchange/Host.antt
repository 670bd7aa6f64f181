-- ===== src/Exchange/Host.antt =====
-- lib/workstation/hyperloom_exchange_host.py, `dispatch`: the controller's side of the exchange, one
-- action at a time.
use arch_linux_threadripper.Prelude.{
  ℕ, ◌+◌, String, Bool, true, false, not, ◌&&◌, ◌||◌, Option, none, some, List, [], ◌∷◌, map, ltb,
  leb, ◌==◌, if◌then◌else◌, Result, ok, err, ◌>>=◌, ◌>>◌, require, length, is_some, str_eq,
}
use arch_linux_threadripper.Prelude.Int.{pos}
use arch_linux_threadripper.Prelude.Text.{codes}
use arch_linux_threadripper.Prelude.Assoc.{Assoc, find, place}
use arch_linux_threadripper.Json.{
  Json, null, bool, int, str, obj, Fields, end, field, get, keys_exactly,
}
use arch_linux_threadripper.Json.Equality.{json_eq}
use arch_linux_threadripper.Exchange.Terms.{
  Fault, refused, already_exists, missing_key, type_error, late, Codec, Kind, max_json, max_source,
  is_job_id, is_text, says_false, dictionary, kind_name,
}
use arch_linux_threadripper.Exchange.Requests.{Source, Request}
use arch_linux_threadripper.Exchange.Store.{
  Bytes, Job, Exchange, read_file, publish, open_directory, is_there,
}
use arch_linux_threadripper.Exchange.Jobs.{
  Meanwhile, inspect, claim, is_status, has_hash, check_success,
}
use arch_linux_threadripper.Exchange.Config.{Bound, validate_config}

abbrev pub max_queued : ℕ
max_queued = 256

-- `_job`
unfoldable pub job_named : Exchange → String → Result Fault Job
job_named x id = do
  require (is_job_id id) (refused "invalid exchange job ID")
  open_directory x.jobs id

-- "park": the reason, and the terminal record.
abbrev pub reason_text : Option Json → Result Fault String
reason_text (some (str s)) =
    if ltb 0 (length (codes s)) && leb (length (codes s)) 2048
    then ok s
    else err (refused "bounded terminal campaign reason required")
reason_text _ = err (refused "bounded terminal campaign reason required")

unfoldable pub read_reason : Json → Result Fault String
read_reason (obj d) =
    if keys_exactly ("reason" ∷ []) d
    then reason_text (get d "reason")
    else err (refused "bounded terminal campaign reason required")
read_reason _ = err (refused "bounded terminal campaign reason required")

abbrev pub terminal_document : Bound → String → ℕ → Json
terminal_document bound reason now = obj (
    field "schema" (int (pos 1)) (
      field "campaign_sha256" (str bound.campaign) (
        field "controller_sha256" (str bound.controller) (
          field "reason" (str reason) (
            field "park_campaign" (bool true) (
              field "automatic_retry" (bool false) (
                field "adoption_authorized" (bool false) (
                  field "independent_release_claimed" (bool false)
                    (field "unix_ms" (int (pos now)) end)))))))))

-- The digest and the length of what was published.
abbrev pub receipt : Codec → Bytes → Json
receipt c raw = obj (
    field "schema" (int (pos 1))
      (field "published_sha256" (str (c.digest raw)) (field "bytes" (int (pos (length raw))) end)))

unfoldable pub park : Codec → Bound → Json → ℕ → Exchange → Result Fault (Json × Exchange)
park c bound result now x = do
  reason ← read_reason result
  raw ← publish x.parked (c.canonical (terminal_document bound reason now))
  ok (receipt c raw, record x { parked = some raw })

-- "list": the loop over the directory, which refuses an unexpected or excessive member.
unfoldable pub check_members : ℕ → List String → Result Fault (Unit {0})
check_members seen [] = ok tt
check_members seen (name ∷ rest) = do
  require (ltb seen max_queued && is_job_id name)
      (refused "bounded ordinary request directories required")
  check_members (seen + 1) rest

-- A complete request with no reply yet.
abbrev pub is_waiting : Exchange → String → Bool
is_waiting x name = elim (find x.jobs name) [
  | none ↦ false
  | some job ↦ is_there job.request && not (is_some (find x.replies name))
]

unfoldable pub keep : (String → Bool) → List String → List String
keep p [] = []
keep p (n ∷ rest) = let later = keep p rest in if p n then n ∷ later else later

abbrev pub text_leb : List ℕ → List ℕ → Bool
text_leb [] t = true
text_leb (a ∷ s) [] = false
text_leb (a ∷ s) (b ∷ t) = ltb a b || (a == b && text_leb s t)

-- sorted(names)
unfoldable pub insert_name : String → List String → List String
insert_name n [] = n ∷ []
insert_name n (m ∷ rest) =
    let later = insert_name n rest in
    if text_leb (codes n) (codes m) then n ∷ m ∷ rest else m ∷ later

unfoldable pub sort_names : List String → List String
sort_names [] = []
sort_names (n ∷ rest) = insert_name n (sort_names rest)

-- The waiting jobs, sorted.
unfoldable pub list_jobs : Exchange → Result Fault (List String)
list_jobs x = do
  let names = map (λ e. e.0) x.jobs
  check_members 0 names
  ok (sort_names (keep (is_waiting x) names))

-- "take": the sources are read again after the inspection, and checked again.
unfoldable pub copy_sources : Codec → Assoc Bytes → List Source → Result Fault (Assoc Bytes)
copy_sources c files [] = ok []
copy_sources c files (row ∷ rest) = do
  raw ← read_file max_source (find files row.name)
  require (length raw == row.size && str_eq (c.digest raw) row.sha256)
      (refused "source changed during snapshot")
  later ← copy_sources c files rest
  ok ((row.name, raw) ∷ later)

abbrev pub same_kind : Kind → Kind → Bool
same_kind a b = str_eq (kind_name a) (kind_name b)

-- The snapshot that leaves the exchange.
pub record Snapshot : Type 0 where
  pub request : Request
  pub config : Fields
  pub sources : Assoc Bytes

-- The optimizer may write between the inspection, the second read and the claim, so each sees an
-- exchange of its own.
unfoldable pub snapshot : Codec → Bound → String → Exchange → Exchange → Result Fault Snapshot
snapshot c bound id at_inspection at_reading = do
  job ← job_named at_inspection id
  (request, config) ← inspect c id job bound.campaign bound.selection
  require
      (request.caller_seconds == bound.caller_seconds request.kind
        && leb request.expires bound.deadline)
      (refused "request exceeds bound campaign or owner ceiling")
  kind ← validate_config config bound
  require (same_kind kind request.kind) (refused "request/config kind mismatch")
  later ← open_directory at_reading.jobs id
  sources ← copy_sources c later.sources request.sources
  ok (record { request = request; config = config; sources = sources })

-- CLAIM.json, as it is read back
unfoldable pub claim_record : Codec → String → Exchange → Result Fault Json
claim_record c id x = do
  reply ← open_directory x.replies id
  raw ← read_file max_json reply.claim
  c.decode raw

-- The claimed request and configuration are those of the snapshot, which leaves with the claim's record.
unfoldable pub match_claim :
    Codec
    → String
    → Snapshot
    → Result Fault (Request × Fields) × Exchange
    → Result Fault (Snapshot × Json) × Exchange
match_claim c id s (claimed, x) = (
  (do
    (request, config) ← claimed
    require
        (json_eq (obj request.document) (obj s.request.document)
          && json_eq (obj config) (obj s.config))
        (refused "request changed during claim")
    written ← claim_record c id x
    ok (s, written)),
  x,
)

-- The claim that follows the snapshot.
unfoldable pub claim_snapshot :
    Codec
    → Bound
    → String
    → ℕ
    → Meanwhile
    → Exchange
    → Result Fault Snapshot
    → Result Fault (Snapshot × Json) × Exchange
claim_snapshot c bound id now meanwhile x (err f) = (err f, x)
claim_snapshot c bound id now meanwhile x (ok s) =
    match_claim c id s
      (claim c id bound.campaign bound.selection (str bound.controller) now meanwhile x)

unfoldable pub take_job :
    Codec
    → Bound
    → String
    → ℕ
    → Meanwhile
    → Exchange
    → Exchange
    → Exchange
    → Result Fault (Snapshot × Json) × Exchange
take_job c bound id now meanwhile at_inspection at_reading at_claim =
    claim_snapshot c bound id now meanwhile at_claim (snapshot c bound id at_inspection at_reading)

unfoldable pub inspect_named : Codec → Bound → String → Exchange → Result Fault (Job × Request)
inspect_named c bound id x = do
  job ← open_directory x.jobs id
  (request, _) ← inspect c id job bound.campaign bound.selection
  ok (job, request)

-- `except (OSError, ValueError)`: another exception goes on.
unfoldable pub cancellation :
    Codec → ℕ → Result Fault (Job × Request) → Result Fault (Bool × Option String)
cancellation c now (ok (job, request)) = ok (
  is_there job.cancelled || leb request.expires now,
  some (c.digest (c.canonical (obj request.document))),
)
cancellation c now (err (refused m)) = ok (true, none)
cancellation c now (err already_exists) = ok (true, none)
cancellation c now (err late) = ok (true, none)
cancellation c now (err f) = err f

-- "cancelled": whether the job is, and the digest of its request.
unfoldable pub is_cancelled :
    Codec → Bound → String → ℕ → Exchange → Result Fault (Bool × Option String)
is_cancelled c bound id now x = do
  require (is_job_id id) (refused "invalid exchange job ID")
  cancellation c now (inspect_named c bound id x)

-- claim["request_sha256"]: what is no dictionary raises TypeError.
unfoldable pub claimed_request : Json → Result Fault Json
claimed_request (obj claim) = elim (get claim "request_sha256") [
  | none ↦ err missing_key
  | some v ↦ ok v
]
claimed_request _ = err type_error

abbrev pub eq_optional : Option Json → Json → Bool
eq_optional none v = json_eq null v
eq_optional (some w) v = json_eq w v

-- "publish": bound to the controller's claim, since the request may be gone.
unfoldable pub publish_outcome :
    Codec → Bound → String → Json → Exchange → Result Fault (Json × Exchange)
publish_outcome c bound id result x = do
  require (is_job_id id) (refused "invalid exchange job ID")
  d ← dictionary result "controller result required"
  reply ← open_directory x.replies id
  raw_claim ← read_file max_json reply.claim
  value ← c.decode raw_claim
  require
      (is_text id (get d "id")
        && is_text bound.controller (get d "controller_sha256")
        && is_text bound.campaign (get d "campaign_sha256"))
      (refused "foreign result publication")
  request_sha ← claimed_request value
  require (eq_optional (get d "request_sha256") request_sha) (refused "foreign result publication")
  require (has_hash (get d "status")) type_error
  require
      (is_status (get d "status")
        && says_false (get d "adoption_authorized")
        && says_false (get d "automatic_retry"))
      (refused "invalid controller disposition")
  check_success d "invalid completed owner seal" "unreleased owner cannot publish success"
  raw ← publish reply.result (c.canonical result)
  ok (receipt c raw, record x { replies = place x.replies id (record reply { result = some raw }) })
