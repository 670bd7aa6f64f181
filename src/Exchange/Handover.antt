-- ===== src/Exchange/Handover.antt =====
-- lib/workstation/hyperloom_exchange.py and hyperloom_exchange_host.py: a job from the optimizer's
-- `submit` to the controller's "take".
use arch_linux_threadripper.Prelude.{
  ℕ, ◌+◌, ◌≡◌, refl, String, true, false, none, some, leb, ◌==◌, ok, length, arith, subst, ap, ◌∙◌,
  eq_refl,
}
use arch_linux_threadripper.Prelude.Assoc.{Assoc, find, find-place_self}
use arch_linux_threadripper.Json.{Json, obj, str, Fields}
use arch_linux_threadripper.Json.Equality.{json_eq}
use arch_linux_threadripper.Exchange.Terms.{Codec, max_json, is_sha, is_job_id, identity}
use arch_linux_threadripper.Exchange.Requests.{Request}
use arch_linux_threadripper.Exchange.Store.{
  Bytes, Job, Exchange, read_file, publish, open_directory, empty_reply,
}
use arch_linux_threadripper.Exchange.Jobs.{
  Meanwhile, inspect, admit, write_claim, claim_document, needed_ms, make_reply, with_reply,
  answer_claim, claim_admitted, claim,
}
use arch_linux_threadripper.Exchange.Config.{Bound, validate_config}
use arch_linux_threadripper.Exchange.Host.{
  job_named, copy_sources, same_kind, snapshot, claim_record, match_claim, claim_snapshot, take_job,
}
use arch_linux_threadripper.Exchange.Submit.{Files, Submission, gather, sorted_items}
use arch_linux_threadripper.Exchange.Write.{submit}
use arch_linux_threadripper.Exchange.Delivery.{inspect-submit}

-- A complete job that lies in the exchange without a reply, for a controller whose campaign it is of.
pub record IsOffered (c : Codec) (bound : Bound) (now : ℕ) (x : Exchange) (r : Request)
    (config : Fields) (job : Job) (files : Assoc Bytes) : Type 0 where
  pub named : is_job_id r.id ≡ true
  pub found : find x.jobs r.id ≡ some job
  pub passes : inspect c r.id job bound.campaign bound.selection ≡ ok (r, config)
  pub written : job.request ≡ some (c.canonical (obj r.document))
  pub short : leb (length (c.canonical (obj r.document))) max_json ≡ true
  pub open_job : job.cancelled ≡ none
  pub copied : copy_sources c job.sources r.sources ≡ ok files
  pub unanswered : find x.replies r.id ≡ none
  pub own_controller : is_sha bound.controller ≡ true
  pub ceiling : (r.caller_seconds == bound.caller_seconds r.kind) ≡ true
  pub in_campaign : leb r.expires bound.deadline ≡ true
  pub own_kind : validate_config config bound ≡ ok r.kind
  pub begun : leb r.created now ≡ true
  pub in_time : leb (now + needed_ms r) r.expires ≡ true

-- The claim that such a job gets
abbrev pub claim_of : Codec → Bound → Request → ℕ → Json
claim_of c bound r now =
    claim_document r.id (c.digest (c.canonical (obj r.document))) bound.controller now

abbrev pub claimed : Codec → Bound → Request → ℕ → Exchange → Exchange
claimed c bound r now x =
    with_reply x r.id (record empty_reply { claim = some (c.canonical (claim_of c bound r now)) })

admit_offered :
    (c : Codec) (bound : Bound) (now : ℕ) (x : Exchange) (r : Request) (config : Fields) (job : Job)
    (files : Assoc Bytes)
    → IsOffered c bound now x r config job files
    → admit c r.id bound.campaign bound.selection (str bound.controller) now x
      ≡ ok (r, config, job, bound.controller)
unfolding admit open_directory identity make_reply
admit_offered c bound now x r config job files i =
    let a = i.found in
    let b = i.passes in
    let d = i.own_controller in
    let e = i.begun in
    let f = i.in_time in let g = i.open_job in let h = i.unanswered in ground arith

-- Between the inspection and the claim the request stays as it was written, and nobody cancels.
abbrev pub undisturbed : Codec → Request → Meanwhile
undisturbed c r = record { request = some (c.canonical (obj r.document)); cancelled = false }

write_offered :
    (c : Codec) (bound : Bound) (now : ℕ) (x : Exchange) (r : Request) (config : Fields) (job : Job)
    (files : Assoc Bytes)
    → IsOffered c bound now x r config job files
    → leb (length (c.canonical (claim_of c bound r now))) max_json ≡ true
    → write_claim c r (some (c.canonical (obj r.document))) bound.controller now
      ≡ ok (c.canonical (claim_of c bound r now))
unfolding write_claim read_file publish
write_offered c bound now x r config job files i small =
    let a = i.written in let b = i.short in ground arith

same_kind_refl : (r : Request) → same_kind r.kind r.kind ≡ true
same_kind_refl r = eq_refl _

snapshot_offered :
    (c : Codec) (bound : Bound) (now : ℕ) (x : Exchange) (r : Request) (config : Fields) (job : Job)
    (files : Assoc Bytes)
    → IsOffered c bound now x r config job files
    → snapshot c bound r.id x x ≡ ok (record { request = r; config = config; sources = files })
unfolding snapshot job_named open_directory
snapshot_offered c bound now x r config job files i =
    let a = i.named in
    let b = i.found in
    let d = i.passes in
    let e = i.ceiling in
    let f = i.in_campaign in
    let g = i.own_kind in let h = same_kind_refl r in let k = i.copied in ground arith

claim_offered :
    (c : Codec) (bound : Bound) (now : ℕ) (x : Exchange) (r : Request) (config : Fields) (job : Job)
    (files : Assoc Bytes)
    → IsOffered c bound now x r config job files
    → leb (length (c.canonical (claim_of c bound r now))) max_json ≡ true
    → claim c r.id bound.campaign bound.selection (str bound.controller) now (undisturbed c r) x
      ≡ (ok (r, config), claimed c bound r now x)
unfolding claim claim_admitted answer_claim
claim_offered c bound now x r config job files i small =
    rw
      (
        admit_offered c bound now x r config job files i,
        write_offered c bound now x r config job files i small,
      )
      refl

record_claimed :
    (c : Codec) (bound : Bound) (now : ℕ) (x : Exchange) (r : Request) (record_read : Json)
    → leb (length (c.canonical (claim_of c bound r now))) max_json ≡ true
    → c.decode (c.canonical (claim_of c bound r now)) ≡ ok record_read
    → claim_record c r.id (claimed c bound r now x) ≡ ok record_read
unfolding claim_record open_directory read_file
record_claimed c bound now x r record_read small reads = ground (
  arith,
  find-place_self x.replies r.id
      (record empty_reply { claim = some (c.canonical (claim_of c bound r now)) }),
)

-- An offered job is taken
take_offered :
    (c : Codec) (bound : Bound) (now : ℕ) (x : Exchange) (r : Request) (config : Fields) (job : Job)
    (files : Assoc Bytes) (record_read : Json)
    → IsOffered c bound now x r config job files
    → leb (length (c.canonical (claim_of c bound r now))) max_json ≡ true
    → c.decode (c.canonical (claim_of c bound r now)) ≡ ok record_read
    → json_eq (obj r.document) (obj r.document) ≡ true
    → json_eq (obj config) (obj config) ≡ true
    → take_job c bound r.id now (undisturbed c r) x x x ≡ (
      ok (record { request = r; config = config; sources = files }, record_read),
      claimed c bound r now x,
    )
unfolding take_job claim_snapshot match_claim
take_offered c bound now x r config job files record_read i small reads same_document same_config =
    let e = snapshot_offered c bound now x r config job files i in
    let f = claim_offered c bound now x r config job files i small in
    let g = record_claimed c bound now x r record_read small reads in
    rw (e, f, same_document, same_config, g) refl

-- A job that the optimizer has submitted the controller can take: `take_job`, with the request as it was written and no cancellation meanwhile, reserves it and hands out the
-- same request, the decoded configuration and the sources as the optimizer read them. This is so if the
-- controller is bound to the campaign and selection of the submission, to a caller of the same length
-- and to a deadline after the job's; if the configuration asks for the job's kind; if the job has no
-- reply yet, has begun and leaves enough time; if the decoder reads the request, the configuration and
-- the claim back from their canonical texts, of which the first and the last have at most 2,097,152
-- bytes; and if the two documents are equal to themselves.
pub take_job-submit :
    (c : Codec) (disk : Files) (id : String) (s : Submission) (x after : Exchange) (r : Request)
    (config : Fields) (bound : Bound) (now : ℕ) (record_read : Json)
    → submit c disk id s x ≡ (ok r, after)
    → c.decode (c.canonical (obj r.document)) ≡ ok (obj r.document)
    → c.decode (c.canonical s.config) ≡ ok (obj config)
    → leb (length (c.canonical (obj r.document))) max_json ≡ true
    → s.campaign ≡ str bound.campaign
    → s.selection ≡ str bound.selection
    → is_sha bound.controller ≡ true
    → (r.caller_seconds == bound.caller_seconds r.kind) ≡ true
    → leb r.expires bound.deadline ≡ true
    → validate_config config bound ≡ ok r.kind
    → find x.replies r.id ≡ none
    → leb r.created now ≡ true
    → leb (now + needed_ms r) r.expires ≡ true
    → leb (length (c.canonical (claim_of c bound r now))) max_json ≡ true
    → c.decode (c.canonical (claim_of c bound r now)) ≡ ok record_read
    → json_eq (obj r.document) (obj r.document) ≡ true
    → json_eq (obj config) (obj config) ≡ true
    → (given : Fields) × (files : Assoc Bytes) × (s.sources ≡ obj given)
      × (gather disk (sorted_items given) ≡ ok files)
      × (take_job c bound r.id now (undisturbed c r) after after after ≡ (
        ok (record { request = r; config = config; sources = files }, record_read),
        claimed c bound r now after,
      ))
take_job-submit c disk id s x after r config bound now record_read h reads₁ reads₂ small campaign
      selection own_controller ceiling in_campaign own_kind unanswered begun in_time short reads₃
      same_document same_config =
    let i = inspect-submit c disk id s x after r config h reads₁ reads₂ small in
    let own_campaign : r.campaign ≡ bound.campaign = let k = i.own_campaign in cc in
    let own_selection : r.selection ≡ bound.selection = let k = i.own_selection in cc in
    let offered : IsOffered c bound now after r config i.job i.files = record {
      named = i.valid.named;
      found = i.found;
      passes =
          subst (λ (t : String × String). inspect c r.id i.job t.0 t.1 ≡ ok (r, config))
            {x = (r.campaign, r.selection)} {y = (bound.campaign, bound.selection)} (cc) i.passes;
      written = i.written;
      short = small;
      open_job = i.open_job;
      copied = i.copied;
      unanswered = ap (λ replies. find replies r.id) i.same_replies ∙ unanswered;
      own_controller = own_controller;
      ceiling = ceiling;
      in_campaign = in_campaign;
      own_kind = own_kind;
      begun = begun;
      in_time = in_time;
    } in
    (
      i.given,
      i.files,
      i.listed,
      i.gathered,
      take_offered c bound now after r config i.job i.files record_read offered short reads₃
          same_document same_config,
    )
