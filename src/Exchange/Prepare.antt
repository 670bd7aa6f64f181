-- ===== src/Exchange/Prepare.antt =====
-- lib/workstation/hyperloom_exchange.py, `submit`: what a submission that succeeds has prepared and left.
use arch_linux_threadripper.Prelude.{
  ℕ, ◌+◌, ◌*◌, ◌≡◌, refl, String, true, none, some, leb, Result, ok, err, length, arith, succeeded,
  met_requirement, ap, sym, ◌∙◌, subst, Option-cases, inl, inr,
}
use arch_linux_threadripper.Prelude.Assoc.{Assoc, find, place}
use arch_linux_threadripper.Prelude.Effects.{continued}
use arch_linux_threadripper.Json.{Json, obj, str, Fields, get}
use arch_linux_threadripper.Exchange.Terms.{
  Fault, Codec, Kind, envelope_seconds, max_json, identity, positive, dictionary,
}
use arch_linux_threadripper.Exchange.Requests.{Request, read_request}
use arch_linux_threadripper.Exchange.Store.{Bytes, Job, Exchange, publish}
use arch_linux_threadripper.Exchange.Validity.{IsRequest, read_request_sound}
use arch_linux_threadripper.Exchange.Submit.{
  Files, Submission, Prepared, prepare, encode, recognized, whole, reaches, given_sources, gather,
  sorted_items, is_expected, inventory_digest, request_fields,
}
use arch_linux_threadripper.Exchange.Write.{
  empty_job, store_config, store_sources, store_request, write_job, keep_job, make_job,
  submit_prepared,
}
use arch_linux_threadripper.Exchange.Submission.{IsStored, store_sources-IsStored}

-- What is prepared for a submission: a request that is accepted, of the caller's identities.
pub record IsPrepared (c : Codec) (disk : Files) (id : String) (s : Submission) (p : Prepared)
    : Type 0 where
  pub kind : Kind
  pub asked : recognized s.kind ≡ ok kind
  pub caller : ℕ
  pub document :
      p.request.document
      ≡ request_fields c id p.request.campaign p.request.selection kind p.config_raw s.now caller
          p.files
  pub accepted : read_request c (obj p.request.document) ≡ ok p.request
  pub own_campaign : s.campaign ≡ str p.request.campaign
  pub own_selection : s.selection ≡ str p.request.selection
  pub raw : p.config_raw ≡ c.canonical s.config
  pub short : leb (length p.config_raw) max_json ≡ true
  pub as_expected : is_expected s.expected (inventory_digest c p.files) ≡ true
  pub given : Fields
  pub listed : s.sources ≡ obj given
  pub gathered : gather disk (sorted_items given) ≡ ok p.files

encode_canonical : (c : Codec) (v : Json) (raw : Bytes) → encode c v ≡ ok raw → raw ≡ c.canonical v
unfolding encode
encode_canonical c v raw h = ground arith

identity_text : (v : Json) (what s : String) → identity (some v) what ≡ ok s → v ≡ str s
unfolding identity
identity_text v what s h = ground arith

given_object : (v : Json) (d : Fields) → given_sources v ≡ ok d → v ≡ obj d
unfolding given_sources
given_object v d h = ground arith

-- The fields of a request that was accepted as it was put together
pub own_fields :
    (c : Codec) (id campaign selection : String) (kind : Kind) (raw : Bytes) (now caller : ℕ)
    (files : Assoc Bytes) (r : Request)
    → IsRequest c r
    → request_fields c id campaign selection kind raw now caller files ≡ r.document
    → (campaign ≡ r.campaign) × (selection ≡ r.selection) × (c.digest raw ≡ r.config) × (id ≡ r.id)
own_fields c id campaign selection kind raw now caller files r i e =
    let back : r.document ≡ request_fields c id campaign selection kind raw now caller files =
      sym e in
    (
      text_of (subst (λ d. get d "campaign_sha256" ≡ some (str r.campaign)) back i.own_campaign),
      text_of (subst (λ d. get d "selection_sha256" ≡ some (str r.selection)) back i.own_selection),
      text_of (subst (λ d. get d "config_sha256" ≡ some (str r.config)) back i.own_config),
      text_of (subst (λ d. get d "id" ≡ some (str r.id)) back i.own_id),
    )
  where
    text_of : {s t : String} → some (str s) ≡ some (str t) → s ≡ t
    text_of h = cc

pub prepare-IsPrepared :
    (c : Codec) (disk : Files) (id : String) (s : Submission) (p : Prepared)
    → prepare c disk id s ≡ ok p
    → IsPrepared c disk id s p
unfolding prepare
prepare-IsPrepared c disk id s p h =
    succeeded (identity (some s.campaign) "invalid campaign") _ h λ campaign e₁ h.
      succeeded (identity (some s.selection) "invalid selection") _ h λ selection e₂ h.
        succeeded (positive (some s.caller_seconds) "finite campaign/job deadline required") _ h
          λ caller _ h. met_requirement (leb caller 7160) _ _ h λ _ h.
            succeeded (whole s.deadline) _ h λ deadline _ h.
              succeeded (recognized s.kind) _ h λ kind e₀ h.
                met_requirement (reaches (s.now + envelope_seconds kind caller * 1000) deadline) _ _
                  h
                  λ _ h.
                    succeeded (dictionary s.config "job configuration must be an object") _ h
                      λ _ _ h. succeeded (encode c s.config) _ h λ raw e₃ h.
                        met_requirement (leb (length raw) max_json) _ _ h λ short h.
                          succeeded (given_sources s.sources) _ h λ sources e₅ h.
                            succeeded (gather disk (sorted_items sources)) _ h λ files e₆ h.
                              met_requirement (is_expected s.expected (inventory_digest c files)) _
                                _ h
                                λ matched h.
                                  succeeded
                                    (read_request c (
                                      obj (
                                        request_fields c id campaign selection kind raw s.now caller
                                          files)))
                                    _ h
                                    λ request e₄ h.
                                      prepared_of campaign selection caller kind raw files request
                                        (identity_text s.campaign _ campaign e₁)
                                        (identity_text s.selection _ selection e₂)
                                        (encode_canonical c s.config raw e₃) short e₄ e₀ matched
                                        sources (given_object s.sources sources e₅) e₆ (cc)
  where
    prepared_of :
        (campaign selection : String) (caller : ℕ) (kind : Kind) (raw : Bytes) (files : Assoc Bytes)
        (request : Request)
        → s.campaign ≡ str campaign
        → s.selection ≡ str selection
        → raw ≡ c.canonical s.config
        → leb (length raw) max_json ≡ true
        → read_request c (obj (request_fields c id campaign selection kind raw s.now caller files))
          ≡ ok request
        → recognized s.kind ≡ ok kind
        → is_expected s.expected (inventory_digest c files) ≡ true
        → (given : Fields) → s.sources ≡ obj given
        → gather disk (sorted_items given) ≡ ok files
        → ◌≡◌ {A = Prepared} (record { request = request; config_raw = raw; files = files }) p
        → IsPrepared c disk id s p
    prepared_of campaign selection caller kind raw files request f₁ f₂ f₃ short e₄ f₅ matched
          sources f₆ f₇ h =
        let (given, i) = read_request_sound c _ request e₄ in
        let fields : request_fields c id campaign selection kind raw s.now caller files
            ≡ request.document =
          cc in
        let (own₁, own₂, own₃, own₄) =
          own_fields c id campaign selection kind raw s.now caller files request i fields in
        let same : ◌≡◌ {A = Prepared}
            (record { request = request; config_raw = raw; files = files }) p =
          h in
        subst (IsPrepared c disk id s) same (record {
          kind = kind;
          asked = f₅;
          caller = caller;
          document =
              sym fields
              ∙ ap
                  (λ (t : String × String). request_fields c id t.0 t.1 kind raw s.now caller files)
                  (cc);
          accepted = subst (λ d. read_request c (obj d) ≡ ok request) fields e₄;
          own_campaign = f₁ ∙ ap str own₁;
          own_selection = f₂ ∙ ap str own₂;
          raw = f₃;
          short = short;
          as_expected = matched;
          given = sources;
          listed = f₆;
          gathered = f₇;
        })

config_stored :
    (raw : Bytes) (u : Unit {0}) (job : Job)
    → store_config raw empty_job ≡ (ok u, job)
    → job ≡ record empty_job { config = some raw }
unfolding store_config publish
config_stored raw u job h = ground arith

request_stored :
    (raw : Bytes) (u : Unit {0}) (before job : Job)
    → store_request raw before ≡ (ok u, job)
    → job ≡ record before { request = some raw }
unfolding store_request publish
request_stored raw u before job h = ground arith

-- The job that was written in full
pub write_job-IsStored :
    (c : Codec) (p : Prepared) (u : Unit {0}) (job : Job)
    → write_job c p empty_job ≡ (ok u, job)
    → (written : Job) × IsStored p.files (record empty_job { config = some p.config_raw }) written
      × (job ≡ record written { request = some (c.canonical (obj p.request.document)) })
unfolding write_job
write_job-IsStored c p u job h =
    let (u₁, first, e₁, h) = continued _ (store_config p.config_raw empty_job) h in
    let (v, written, e₂, h) = continued _ (store_sources p.files first) h in
    let first_is : first ≡ record empty_job { config = some p.config_raw } =
      config_stored p.config_raw u₁ first e₁ in
    (
      written,
      subst (λ j. IsStored p.files j written) first_is
          (store_sources-IsStored p.files first written v e₂),
      request_stored _ u written job h,
    )

-- What a submission that succeeded has left in the exchange
pub record IsSubmitted (c : Codec) (p : Prepared) (x after : Exchange) (r : Request) : Type 0 where
  pub prepared : p.request ≡ r
  pub new : find x.jobs r.id ≡ none
  pub job : Job
  pub written : write_job c p empty_job ≡ (ok tt, job)
  pub placed : after ≡ record x { jobs = place x.jobs r.id job }

kept_job :
    (r s : Request) (x after : Exchange) (m : Result Fault (Unit {0}) × Job)
    → keep_job r x m ≡ (ok s, after)
    → (r ≡ s)
      × ((job : Job) × (m ≡ (ok tt, job)) × (after ≡ record x { jobs = place x.jobs r.id job }))
unfolding keep_job
kept_job r s x after (ok tt, job) h = (cc, (job, refl, sym (ap (λ q. q.1) h)))
kept_job r s x after (err f, job) h = absurd (cc)

make_job-IsSubmitted :
    (c : Codec) (p : Prepared) (x after : Exchange) (r : Request)
    → make_job c x p ≡ (ok r, after)
    → IsSubmitted c p x after r
unfolding make_job
make_job-IsSubmitted c p x after r h = elim (Option-cases (find x.jobs p.request.id)) [
  | inr (old, e) ↦ absurd (ground arith)
  | inl e ↦
      let told : keep_job p.request x (write_job c p empty_job) ≡ (ok r, after) = ground arith in
      let (same, (job, written, placed)) =
        kept_job p.request r x after (write_job c p empty_job) told in
      record {
        prepared = same;
        new = subst (λ q. find x.jobs q.id ≡ none) same e;
        job = job;
        written = written;
        placed = subst (λ q. after ≡ record x { jobs = place x.jobs q.id job }) same placed;
      }
]

pub submit_prepared-IsSubmitted :
    (c : Codec) (x after : Exchange) (r : Request) (m : Result Fault Prepared)
    → submit_prepared c x m ≡ (ok r, after)
    → (p : Prepared) × (m ≡ ok p) × IsSubmitted c p x after r
unfolding submit_prepared
submit_prepared-IsSubmitted c x after r (ok p) h = (p, refl, make_job-IsSubmitted c p x after r h)
submit_prepared-IsSubmitted c x after r (err f) h = absurd (cc)
