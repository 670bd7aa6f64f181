-- ===== src/Exchange/Snapshots.antt =====
-- lib/workstation/hyperloom_exchange_host.py, "take" and "cancelled": what a snapshot holds, and what it
-- takes for a job to go on.
use arch_linux_threadripper.Prelude.{
  ℕ, ◌≤◌, ◌<◌, ◌≡◌, refl, String, true, false, ◌&&◌, ◌||◌, Option, some, List, [], ◌∷◌, leb, ◌==◌,
  Result, ok, err, length, str_eq, arith, succeeded, met_requirement, subst, eq_iff,
}
use arch_linux_threadripper.Prelude.Assoc.{Assoc, find}
use arch_linux_threadripper.Json.{Json, Fields, obj}
use arch_linux_threadripper.Exchange.Terms.{Fault, Codec, Kind, max_source, is_job_id}
use arch_linux_threadripper.Exchange.Requests.{Source, Request}
use arch_linux_threadripper.Exchange.Store.{
  Bytes, Job, Exchange, read_file, open_directory, is_there,
}
use arch_linux_threadripper.Exchange.Jobs.{Meanwhile, inspect}
use arch_linux_threadripper.Exchange.Config.{Bound, validate_config}
use arch_linux_threadripper.Exchange.Host.{
  take_job, snapshot, Snapshot, copy_sources, same_kind, job_named, is_cancelled, cancellation,
  inspect_named,
}
use arch_linux_threadripper.Exchange.Validity.{IsRequest}
use arch_linux_threadripper.Exchange.Claims.{IsInspected, inspect-IsInspected, open_directory_sound}
use arch_linux_threadripper.Exchange.Once.{IsTaken, take_job-IsTaken}

-- The copies are named after the rows, in their order, and each is what its row says.
abbrev pub AreCopies : Codec → List Source → Assoc Bytes → Type 0
AreCopies c [] [] = Unit
AreCopies c [] (f ∷ files) = ⊥
AreCopies c (s ∷ rows) [] = ⊥
AreCopies c (s ∷ rows) ((name, raw) ∷ files) =
    (name ≡ s.name) × (length raw ≡ s.size) × (c.digest raw ≡ s.sha256) × AreCopies c rows files

copy_sources-AreCopies :
    (c : Codec) (files : Assoc Bytes) (rows : List Source) (copies : Assoc Bytes)
    → copy_sources c files rows ≡ ok copies
    → AreCopies c rows copies
unfolding copy_sources
copy_sources-AreCopies c files [] copies h = subst (AreCopies c []) {x = []} (ground arith) tt
copy_sources-AreCopies c files (s ∷ rows) copies h =
    succeeded (read_file max_source (find files s.name)) _ h λ raw e h.
      met_requirement (length raw == s.size && str_eq (c.digest raw) s.sha256) _ _ h λ same h.
        succeeded (copy_sources c files rows) _ h λ later f h.
          subst (AreCopies c (s ∷ rows)) {x = (s.name, raw) ∷ later} (ground arith) (
            refl,
            ground arith,
            ground (arith, eq_iff (c.digest raw) s.sha256),
            copy_sources-AreCopies c files rows later f,
          )

-- What leaves the exchange with a job.
pub record IsSnapshot (c : Codec) (bound : Bound) (id : String) (s : Snapshot) : Type 0 where
  pub valid : IsRequest c s.request
  pub own_id : s.request.id ≡ id
  pub own_campaign : s.request.campaign ≡ bound.campaign
  pub own_selection : s.request.selection ≡ bound.selection
  pub caller : s.request.caller_seconds ≡ bound.caller_seconds s.request.kind
  pub before_deadline : s.request.expires ≤ bound.deadline
  pub kind : Kind
  pub configured : validate_config s.config bound ≡ ok kind
  pub agreed : same_kind kind s.request.kind ≡ true
  pub copies : AreCopies c s.request.sources s.sources

snapshot-IsSnapshot :
    (c : Codec) (bound : Bound) (id : String) (a b : Exchange) (s : Snapshot)
    → snapshot c bound id a b ≡ ok s
    → IsSnapshot c bound id s
unfolding snapshot
snapshot-IsSnapshot c bound id a b s h = succeeded (job_named a id) _ h λ job _ h.
    succeeded (inspect c id job bound.campaign bound.selection) _ h λ (request, config) e h.
      met_requirement
        (request.caller_seconds == bound.caller_seconds request.kind
          && leb request.expires bound.deadline)
        _ _ h
        λ ceiling h. succeeded (validate_config config bound) _ h λ kind f h.
          met_requirement (same_kind kind request.kind) _ _ h λ agreed h.
            succeeded (open_directory b.jobs id) _ h λ later _ h.
              succeeded (copy_sources c later.sources request.sources) _ h λ sources g h.
                let i =
                  inspect-IsInspected c id job bound.campaign bound.selection request config e in
                let taken : Snapshot = record {
                  request = request;
                  config = config;
                  sources = sources;
                } in
                let same : taken ≡ s = ground arith in
                subst (IsSnapshot c bound id) same (record {
                  valid = i.valid;
                  own_id = i.own_name;
                  own_campaign = i.own_campaign;
                  own_selection = i.own_selection;
                  caller = ground arith;
                  before_deadline = ground arith;
                  kind = kind;
                  configured = f;
                  agreed = agreed;
                  copies = copy_sources-AreCopies c later.sources request.sources sources g;
                })

-- Whatever the optimizer writes between the inspection, the second reading and the claim, a job that is
-- taken leaves with a valid request of its own name, campaign and selection, within the controller's
-- ceiling and deadline, a configuration of the request's kind that passes the controller's policy, and
-- one copy of each listed source whose length and digest are the listed ones. At the claim it had no
-- reply and was not cancelled, its request and configuration were equal to those of the snapshot, and
-- there was time left for the caller and the closing work.
pub take_job_sound :
    (c : Codec) (bound : Bound) (id : String) (now : ℕ) (meanwhile : Meanwhile) (a b x y : Exchange)
    (s : Snapshot) (j : Json)
    → take_job c bound id now meanwhile a b x ≡ (ok (s, j), y)
    → IsSnapshot c bound id s × IsTaken c bound id now a b x y s
take_job_sound c bound id now meanwhile a b x y s j h =
    let t = take_job-IsTaken c bound id now meanwhile a b x y s j h in
    (snapshot-IsSnapshot c bound id a b s t.read, t)

-- A job that is not cancelled at a time.
pub record IsRunning (c : Codec) (bound : Bound) (id : String) (now : ℕ) (x : Exchange)
    (answer : Option String) : Type 0 where
  pub job : Job
  pub present : find x.jobs id ≡ some job
  pub request : Request
  pub config : Fields
  pub inspected : IsInspected c id job bound.campaign bound.selection request config
  pub wanted : is_there job.cancelled ≡ false
  pub before : now < request.expires
  pub told : answer ≡ some (c.digest (c.canonical (obj request.document)))

inspect_named_sound :
    (c : Codec) (bound : Bound) (id : String) (x : Exchange) (job : Job) (r : Request)
    → inspect_named c bound id x ≡ ok (job, r)
    → (find x.jobs id ≡ some job)
      × ((config : Fields) × IsInspected c id job bound.campaign bound.selection r config)
unfolding inspect_named
inspect_named_sound c bound id x job r h = succeeded (open_directory x.jobs id) _ h λ found e h.
    succeeded (inspect c id found bound.campaign bound.selection) _ h λ (request, config) f h.
      let same : ◌≡◌ {A = Job × Request} (found, request) (job, r) = ground arith in
      subst
        (λ (p : Job × Request).
          (find x.jobs id ≡ some p.0)
          × ((config : Fields) × IsInspected c id p.0 bound.campaign bound.selection p.1 config))
        same
        (
          open_directory_sound x.jobs id found e,
          (config, inspect-IsInspected c id found bound.campaign bound.selection request config f),
        )

cancellation-IsRunning :
    (c : Codec) (bound : Bound) (id : String) (now : ℕ) (x : Exchange) (answer : Option String)
    (v : Result Fault (Job × Request))
    → inspect_named c bound id x ≡ v
    → cancellation c now v ≡ ok (false, answer)
    → IsRunning c bound id now x answer
unfolding cancellation
cancellation-IsRunning c bound id now x answer (ok (job, r)) e h =
    let (present, (config, i)) = inspect_named_sound c bound id x job r e in
    let quiet : (is_there job.cancelled || leb r.expires now) ≡ false = ground arith in
    record {
      job = job;
      present = present;
      request = r;
      config = config;
      inspected = i;
      wanted = ground arith;
      before = ground arith;
      told = ground arith;
    }
cancellation-IsRunning c bound id now x answer (err f) e h = absurd (ground arith)

-- A job is told to go on only if it is there and passes the inspection for this campaign and selection,
-- nobody has cancelled it and its deadline lies ahead; the answer then names its request by digest.
pub is_cancelled-IsRunning :
    (c : Codec) (bound : Bound) (id : String) (now : ℕ) (x : Exchange) (answer : Option String)
    → is_cancelled c bound id now x ≡ ok (false, answer)
    → IsRunning c bound id now x answer
unfolding is_cancelled
is_cancelled-IsRunning c bound id now x answer h =
    met_requirement (is_job_id id) _ _ h
      λ _ h. cancellation-IsRunning c bound id now x answer (inspect_named c bound id x) refl h
