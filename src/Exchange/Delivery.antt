-- ===== src/Exchange/Delivery.antt =====
-- lib/workstation/hyperloom_exchange.py: a job from `submit` to `inspect`.
use arch_linux_threadripper.Prelude.{
  ◌≡◌, refl, String, true, none, some, [], leb, ok, length, arith, eq_refl, ap, sym, ◌∙◌, subst,
}
use arch_linux_threadripper.Prelude.Assoc.{Assoc, find, find-place_self}
use arch_linux_threadripper.Json.{obj, str, Fields, get, arr}
use arch_linux_threadripper.Exchange.Terms.{Codec, max_json, dictionary}
use arch_linux_threadripper.Exchange.Requests.{Request, read_request, read_sources}
use arch_linux_threadripper.Exchange.Store.{Bytes, Job, Exchange, read_file}
use arch_linux_threadripper.Exchange.Host.{copy_sources}
use arch_linux_threadripper.Exchange.Prepare.{
  IsPrepared, prepare-IsPrepared, own_fields, write_job-IsStored, IsSubmitted,
  submit_prepared-IsSubmitted,
}
use arch_linux_threadripper.Exchange.Jobs.{
  inspect, check_sources, file_names, source_names, same_names,
}
use arch_linux_threadripper.Exchange.Validity.{IsRequest, read_request_sound}
use arch_linux_threadripper.Exchange.Submit.{
  Files, Submission, Prepared, prepare, gather, sorted_items, inventory, request_fields,
}
use arch_linux_threadripper.Exchange.Write.{submit}
use arch_linux_threadripper.Exchange.Submission.{
  check_sources-rows_of, copy_sources-rows_of, source_names-rows_of, same_names_refl,
  read_sources-inventory,
}

-- A complete job passes the inspection.
inspect_written :
    (c : Codec) (r : Request) (job : Job) (config_raw : Bytes) (files : Assoc Bytes)
    (config : Fields)
    → read_request c (obj r.document) ≡ ok r
    → c.decode (c.canonical (obj r.document)) ≡ ok (obj r.document)
    → c.decode config_raw ≡ ok (obj config)
    → c.digest config_raw ≡ r.config
    → leb (length (c.canonical (obj r.document))) max_json ≡ true
    → leb (length config_raw) max_json ≡ true
    → job.request ≡ some (c.canonical (obj r.document))
    → job.config ≡ some config_raw
    → same_names (file_names job.sources) (source_names r.sources) ≡ true
    → check_sources c job.sources r.sources ≡ ok tt
    → inspect c r.id job r.campaign r.selection ≡ ok (r, config)
unfolding inspect read_file dictionary
inspect_written c r job config_raw files config h₁ h₂ h₃ h₄ h₅ h₆ h₇ h₈ h₉ h₀ =
    ground (arith, eq_refl r.id, eq_refl r.campaign, eq_refl r.selection, eq_refl r.config)

-- A job that has gone from `submit` into the exchange: new, under the caller's identities, complete and
-- not cancelled, with the sources as they were read.
pub record IsDelivered (c : Codec) (disk : Files) (id : String) (s : Submission)
    (x after : Exchange) (r : Request) (config : Fields) : Type 0 where
  pub valid : IsRequest c r
  pub new : find x.jobs r.id ≡ none
  pub own_id : r.id ≡ id
  pub own_campaign : s.campaign ≡ str r.campaign
  pub own_selection : s.selection ≡ str r.selection
  pub job : Job
  pub found : find after.jobs r.id ≡ some job
  pub passes : inspect c r.id job r.campaign r.selection ≡ ok (r, config)
  pub written : job.request ≡ some (c.canonical (obj r.document))
  pub open_job : job.cancelled ≡ none
  pub given : Fields
  pub listed : s.sources ≡ obj given
  pub files : Assoc Bytes
  pub gathered : gather disk (sorted_items given) ≡ ok files
  pub copied : copy_sources c job.sources r.sources ≡ ok files
  pub same_replies : after.replies ≡ x.replies

delivered :
    (c : Codec) (disk : Files) (id : String) (s : Submission) (x after : Exchange) (p : Prepared)
    (r : Request) (config : Fields)
    → IsSubmitted c p x after r
    → (q : IsPrepared c disk id s p) → read_request c (obj r.document) ≡ ok r
    → request_fields c id r.campaign r.selection q.kind p.config_raw s.now q.caller p.files
      ≡ r.document
    → c.decode (c.canonical (obj r.document)) ≡ ok (obj r.document)
    → c.decode p.config_raw ≡ ok (obj config)
    → leb (length (c.canonical (obj r.document))) max_json ≡ true
    → IsDelivered c disk id s x after r config
delivered c disk id s x after p r config i q accepted document reads_request reads_config small =
    let (_, valid) = read_request_sound c (obj r.document) r accepted in
    let (_, _, own_config, own_id) =
      own_fields c id r.campaign r.selection q.kind p.config_raw s.now q.caller p.files r valid
        document in
    let listed : get r.document "sources" ≡ some (arr (inventory c p.files)) =
      subst (λ d. get d "sources" ≡ some (arr (inventory c p.files))) document refl in
    let same_items : valid.items ≡ inventory c p.files = let k = valid.inventory in cc in
    let (rows, bounded) =
      read_sources-inventory c p.files [] r.sources
        (subst (λ l. read_sources l [] ≡ ok r.sources) same_items valid.rows) in
    let (written, stored, is) = write_job-IsStored c p tt i.job i.written in
    let same_job : i.job ≡ record written { request = some (c.canonical (obj r.document)) } =
      is
      ∙ ap (λ (r : Request). record written { request = some (c.canonical (obj r.document)) })
          i.prepared in
    let names : same_names (file_names written.sources) (source_names r.sources) ≡ true =
      ap (λ l. same_names (file_names written.sources) (source_names l)) rows
      ∙ ap (λ l. same_names (file_names written.sources) l) (source_names-rows_of c p.files)
      ∙ ap (λ l. same_names l (file_names p.files)) stored.names
      ∙ same_names_refl (file_names p.files) in
    let job : Job = record written { request = some (c.canonical (obj r.document)) } in
    let found : find after.jobs r.id ≡ some job =
      ap (λ (y : Exchange). find y.jobs r.id) i.placed
      ∙ find-place_self x.jobs r.id i.job
      ∙ ap some same_job in
    let passes =
      inspect_written c r job p.config_raw p.files config accepted reads_request reads_config
        own_config small q.short refl stored.same_config names
        (ap (check_sources c written.sources) rows
          ∙ check_sources-rows_of c written.sources p.files stored.found bounded) in
    record {
      valid = valid;
      new = i.new;
      own_id = sym own_id;
      own_campaign = q.own_campaign ∙ ap str (ap (λ (r : Request). r.campaign) i.prepared);
      own_selection = q.own_selection ∙ ap str (ap (λ (r : Request). r.selection) i.prepared);
      job = job;
      found = found;
      passes = passes;
      written = refl;
      open_job = stored.same_cancelled;
      given = q.given;
      listed = q.listed;
      files = p.files;
      gathered = q.gathered;
      copied =
          ap (copy_sources c written.sources) rows
          ∙ copy_sources-rows_of c written.sources p.files stored.found bounded;
      same_replies = ap (λ (y : Exchange). y.replies) i.placed;
    }

-- A job that `submit` has written is new in the exchange, carries the caller's campaign and selection,
-- and passes the inspection: `inspect` returns the request that `submit` returned and the decoded
-- configuration, and the sources copied from the job are those that were read. This is so if the decoder reads the request and the
-- configuration back from their canonical texts, and the text of the request has at most 2,097,152
-- bytes.
pub inspect-submit :
    (c : Codec) (disk : Files) (id : String) (s : Submission) (x after : Exchange) (r : Request)
    (config : Fields)
    → submit c disk id s x ≡ (ok r, after)
    → c.decode (c.canonical (obj r.document)) ≡ ok (obj r.document)
    → c.decode (c.canonical s.config) ≡ ok (obj config)
    → leb (length (c.canonical (obj r.document))) max_json ≡ true
    → IsDelivered c disk id s x after r config
unfolding submit
inspect-submit c disk id s x after r config h reads_request reads_config small =
    let (p, e, i) = submit_prepared-IsSubmitted c x after r (prepare c disk id s) h in
    let q = prepare-IsPrepared c disk id s p e in
    delivered c disk id s x after p r config i q
      (subst (λ r. read_request c (obj r.document) ≡ ok r) i.prepared q.accepted)
      (subst
        (λ r.
          request_fields c id r.campaign r.selection q.kind p.config_raw s.now q.caller p.files
          ≡ r.document)
        i.prepared (sym q.document))
      reads_request (ap c.decode q.raw ∙ reads_config) small
