-- ===== src/Exchange/Claims.antt =====
-- lib/workstation/hyperloom_exchange.py: what an inspection has seen, and what a claim has reserved.
use arch_linux_threadripper.Prelude.{
  ℕ, ◌+◌, ◌≤◌, ◌≡◌, refl, String, Bool, true, false, not, ◌&&◌, Option, none, some, List, [], ◌∷◌,
  leb, ◌==◌, Result, ok, err, length, str_eq, arith, succeeded, met_requirement, All, subst, eq_iff,
  sym, ◌∙◌, ap, Result-cases, inl, inr, ◌⊎◌,
}
use arch_linux_threadripper.Prelude.Assoc.{Assoc, find, place}
use arch_linux_threadripper.Json.{Json, Fields}
use arch_linux_threadripper.Exchange.Terms.{
  Fault, Codec, max_json, max_source, identity, dictionary,
}
use arch_linux_threadripper.Exchange.Requests.{Source, Request, read_request}
use arch_linux_threadripper.Exchange.Store.{
  Bytes, Job, Reply, empty_reply, Exchange, read_file, open_directory, is_there,
}
use arch_linux_threadripper.Exchange.Jobs.{
  Meanwhile, check_sources, inspect, needed_ms, make_reply, admit, write_claim, with_reply,
  answer_claim, claim_admitted, claim, same_names, file_names, source_names,
}
use arch_linux_threadripper.Exchange.Validity.{IsRequest, read_request-IsRequest}

-- The file of a row of the inventory is what the row says.
pub record IsRow (c : Codec) (files : Assoc Bytes) (s : Source) : Type 0 where
  pub raw : Bytes
  pub present : find files s.name ≡ some raw
  pub long : length raw ≡ s.size
  pub digested : c.digest raw ≡ s.sha256

pub read_file_sound :
    (cap : ℕ) (v : Option Bytes) (raw : Bytes)
    → read_file cap v ≡ ok raw
    → (v ≡ some raw) × (length raw ≤ cap)
unfolding read_file
read_file_sound cap v raw h = ground arith

pub open_directory_sound {ℓ} :
    {A : Type ℓ} (tree : Assoc A) (name : String) (a : A)
    → open_directory tree name ≡ ok a
    → find tree name ≡ some a
unfolding open_directory
open_directory_sound tree name a h = ground arith

check_sources-rows :
    (c : Codec) (files : Assoc Bytes) (l : List Source) (u : Unit {0})
    → check_sources c files l ≡ ok u
    → All (IsRow c files) l
unfolding check_sources
check_sources-rows c files [] u h = tt
check_sources-rows c files (s ∷ rest) u h =
    succeeded (read_file max_source (find files s.name)) _ h λ raw e h₁.
      met_requirement (length raw == s.size && str_eq (c.digest raw) s.sha256) _ _ h₁ λ same h₂. (
        record {
          raw = raw;
          present = (read_file_sound max_source (find files s.name) raw e).0;
          long = ground arith;
          digested = ground (arith, eq_iff (c.digest raw) s.sha256);
        },
        check_sources-rows c files rest u h₂,
      )

-- What `inspect` has seen of a job.
pub record IsInspected (c : Codec) (name : String) (job : Job) (campaign selection : String)
    (r : Request) (config : Fields) : Type 0 where
  pub valid : IsRequest c r
  pub own_name : r.id ≡ name
  pub own_campaign : r.campaign ≡ campaign
  pub own_selection : r.selection ≡ selection
  pub config_bytes : Bytes
  pub config_file : job.config ≡ some config_bytes
  pub config_digest : c.digest config_bytes ≡ r.config
  pub only_sources : same_names (file_names job.sources) (source_names r.sources) ≡ true
  pub rows : All (IsRow c job.sources) r.sources

pub inspect-IsInspected :
    (c : Codec) (name : String) (job : Job) (campaign selection : String) (r : Request)
    (config : Fields)
    → inspect c name job campaign selection ≡ ok (r, config)
    → IsInspected c name job campaign selection r config
unfolding inspect
inspect-IsInspected c name job campaign selection r config h =
    succeeded (read_file max_json job.request) _ h λ raw _ h.
      succeeded (c.decode raw) _ h λ value _ h. succeeded (read_request c value) _ h λ request e h.
        met_requirement
          (str_eq name request.id
            && str_eq request.campaign campaign
            && str_eq request.selection selection)
          _ _ h
          λ own h. succeeded (read_file max_json job.config) _ h λ config_raw f h.
            met_requirement (str_eq (c.digest config_raw) request.config) _ _ h λ digest h.
              succeeded (c.decode config_raw) _ h λ decoded _ h.
                succeeded (dictionary decoded "job config must be an object") _ h λ given _ h.
                  met_requirement
                    (same_names (file_names job.sources) (source_names request.sources)) _ _ h
                    λ only h. succeeded (check_sources c job.sources request.sources) _ h λ u g h.
                      let same : request ≡ r = ground arith in
                      subst (λ r. IsInspected c name job campaign selection r config) same
                        (record {
                          valid = read_request-IsRequest c value request e;
                          own_name = ground (arith, eq_iff name request.id);
                          own_campaign = ground (arith, eq_iff request.campaign campaign);
                          own_selection = ground (arith, eq_iff request.selection selection);
                          config_bytes = config_raw;
                          config_file = (read_file_sound max_json job.config config_raw f).0;
                          config_digest =
                              ground (arith, eq_iff (c.digest config_raw) request.config);
                          only_sources = only;
                          rows = check_sources-rows c job.sources request.sources u g;
                        })

make_reply-fresh :
    (x : Exchange) (id : String) (u : Unit {0}) → make_reply x id ≡ ok u → find x.replies id ≡ none
unfolding make_reply
make_reply-fresh x id u h = ground arith

-- What `claim` has reserved: the job was there, inspected, in time and not cancelled, it had no reply,
-- and now it has one without a result. No other reply has changed.
pub record IsReserved (c : Codec) (name campaign selection : String) (now : ℕ) (x : Exchange)
    (r : Request) (config : Fields) (x' : Exchange) : Type 0 where
  pub job : Job
  pub present : find x.jobs name ≡ some job
  pub inspected : IsInspected c name job campaign selection r config
  pub started : r.created ≤ now
  pub in_time : now + needed_ms r ≤ r.expires
  pub wanted : is_there job.cancelled ≡ false
  pub fresh : find x.replies name ≡ none
  pub reply : Reply
  pub replies : x'.replies ≡ place x.replies name reply
  pub no_result : reply.result ≡ none
  pub same_jobs : x'.jobs ≡ x.jobs
  pub same_parked : x'.parked ≡ x.parked

-- The same before the reply is made.
record IsAdmitted (c : Codec) (name campaign selection : String) (now : ℕ) (x : Exchange)
    (r : Request) (config : Fields) : Type 0 where
  job : Job
  present : find x.jobs name ≡ some job
  inspected : IsInspected c name job campaign selection r config
  started : r.created ≤ now
  in_time : now + needed_ms r ≤ r.expires
  wanted : is_there job.cancelled ≡ false
  fresh : find x.replies name ≡ none

admit-IsAdmitted :
    (c : Codec) (name campaign selection : String) (controller : Json) (now : ℕ) (x : Exchange)
    (p : Request × Fields × Job × String)
    → admit c name campaign selection controller now x ≡ ok p
    → IsAdmitted c name campaign selection now x p.0 p.1
unfolding admit
admit-IsAdmitted c name campaign selection controller now x p h =
    succeeded (open_directory x.jobs name) _ h λ job e h.
      succeeded (inspect c name job campaign selection) _ h λ (request, given) f h.
        succeeded (identity (some controller) "invalid controller digest") _ h λ owner _ h.
          met_requirement
            (leb request.created now
              && leb (now + needed_ms request) request.expires
              && not (is_there job.cancelled))
            _ _ h
            λ clock h. succeeded (make_reply x request.id) _ h λ u g h.
              let i = inspect-IsInspected c name job campaign selection request given f in
              let same : ◌≡◌ {A = Request × Fields × Job × String} (request, given, job, owner) p =
                ground arith in
              subst
                (λ (p : Request × Fields × Job × String).
                  IsAdmitted c name campaign selection now x p.0 p.1)
                same
                (record {
                  job = job;
                  present = open_directory_sound x.jobs name job e;
                  inspected = i;
                  started = ground arith;
                  in_time = ground arith;
                  wanted = ground arith;
                  fresh =
                      subst (λ n. find x.replies n ≡ none) i.own_name
                        (make_reply-fresh x request.id u g);
                })

-- The reply that is left behind.
abbrev left_reply : Result Fault Bytes → Reply
left_reply (err f) = empty_reply
left_reply (ok raw) = record empty_reply { claim = some raw }

left_reply-no_result : (w : Result Fault Bytes) → (left_reply w).result ≡ none
left_reply-no_result (err f) = refl
left_reply-no_result (ok raw) = refl

answer_claim-after :
    (cancelled : Bool) (x : Exchange) (r : Request) (config : Fields) (w : Result Fault Bytes)
    → (answer_claim cancelled x r config w).1 ≡ with_reply x r.id (left_reply w)
unfolding answer_claim
answer_claim-after cancelled x r config (err f) = refl
answer_claim-after true x r config (ok raw) = refl
answer_claim-after false x r config (ok raw) = refl

handed_out :
    (cancelled : Bool) (x z : Exchange) (r : Request) (config : Fields) (w : Result Fault Bytes)
    (p : Request × Fields)
    → answer_claim cancelled x r config w ≡ (ok p, z)
    → (cancelled ≡ false) × (p ≡ (r, config))
unfolding answer_claim
handed_out cancelled x z r config (err f) p h = absurd (cc)
handed_out true x z r config (ok raw) p h = absurd (cc)
handed_out false x z r config (ok raw) p h = (refl, cc)

-- A claim leaves the exchange as it is, or reserves the job; only a job that it has reserved is handed
-- out, and only if no cancellation has come.
pub claim-cases :
    (c : Codec) (name campaign selection : String) (controller : Json) (now : ℕ)
    (meanwhile : Meanwhile) (x : Exchange)
    → ((f : Fault) × (claim c name campaign selection controller now meanwhile x ≡ (err f, x)))
      ⊎ ((r : Request) × (config : Fields) × IsReserved c name campaign selection now x r config
            (claim c name campaign selection controller now meanwhile x).1
          × ((p : Request × Fields) (z : Exchange)
              → claim c name campaign selection controller now meanwhile x ≡ (ok p, z)
              → (meanwhile.cancelled ≡ false) × (p ≡ (r, config))))
unfolding claim claim_admitted
claim-cases c name campaign selection controller now meanwhile x =
    elim (Result-cases (admit c name campaign selection controller now x)) [
      | inr (f, e) ↦ inl (f, ap (claim_admitted c now meanwhile x) e)
      | inl ((r, config, job, owner), e) ↦
          let w = write_claim c r meanwhile.request owner now in
          let a =
            admit-IsAdmitted c name campaign selection controller now x (r, config, job, owner) e in
          let same : claim c name campaign selection controller now meanwhile x
              ≡ answer_claim meanwhile.cancelled x r config w =
            ap (claim_admitted c now meanwhile x) e in
          let after : (claim c name campaign selection controller now meanwhile x).1
              ≡ with_reply x r.id (left_reply w) =
            ap (λ p. p.1) same ∙ answer_claim-after meanwhile.cancelled x r config w in
          inr (
            r,
            config,
            record {
              job = a.job;
              present = a.present;
              inspected = a.inspected;
              started = a.started;
              in_time = a.in_time;
              wanted = a.wanted;
              fresh = a.fresh;
              reply = left_reply w;
              replies =
                  ap (λ (y : Exchange). y.replies) after
                  ∙ ap (λ n. place x.replies n (left_reply w)) a.inspected.own_name;
              no_result = left_reply-no_result w;
              same_jobs = ap (λ (y : Exchange). y.jobs) after;
              same_parked = ap (λ (y : Exchange). y.parked) after;
            },
            λ p z h. handed_out meanwhile.cancelled x z r config w p (sym same ∙ h),
          )
    ]

-- A job with a reply cannot be claimed.
pub claim_taken :
    (c : Codec) (name campaign selection : String) (controller : Json) (now : ℕ)
    (meanwhile : Meanwhile) (x : Exchange) (reply : Reply)
    → find x.replies name ≡ some reply
    → (f : Fault) × (claim c name campaign selection controller now meanwhile x ≡ (err f, x))
claim_taken c name campaign selection controller now meanwhile x reply h =
    elim (claim-cases c name campaign selection controller now meanwhile x) [
      | inl taken ↦ taken
      | inr (r, config, i, _) ↦ let fresh : find x.replies name ≡ none = i.fresh in absurd (cc)
    ]
