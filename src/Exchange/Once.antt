-- ===== src/Exchange/Once.antt =====
-- lib/workstation/hyperloom_exchange_host.py: a job is taken at most once, and has at most one result.
use arch_linux_threadripper.Prelude.{
  ℕ, ◌≡◌, refl, String, Bool, true, false, ◌&&◌, none, some, Result, ok, err, ◌>>=◌, ◌>>◌, require,
  arith, succeeded, met_requirement, subst, eq_refl, sym, ◌∙◌, ap, Result-cases, inl, inr,
}
use arch_linux_threadripper.Prelude.Assoc.{find, find-place}
use arch_linux_threadripper.Json.{Json, str, Fields, obj}
use arch_linux_threadripper.Exchange.Terms.{Fault, refused, Codec}
use arch_linux_threadripper.Exchange.Requests.{Request}
use arch_linux_threadripper.Exchange.Store.{Reply, Exchange}
use arch_linux_threadripper.Exchange.Jobs.{Meanwhile, claim}
use arch_linux_threadripper.Exchange.Config.{Bound}
use arch_linux_threadripper.Exchange.Host.{
  publish_outcome, take_job, claim_snapshot, match_claim, snapshot, Snapshot, claim_record,
}
use arch_linux_threadripper.Json.Equality.{json_eq}
use arch_linux_threadripper.Exchange.Claims.{IsReserved, claim-cases, claim_taken}
use arch_linux_threadripper.Exchange.Outcomes.{publish_outcome-IsPublished}
use arch_linux_threadripper.Exchange.Reach.{Reach, Reach-Extends}

claim_snapshot_taken :
    (c : Codec) (bound : Bound) (id : String) (now : ℕ) (meanwhile : Meanwhile) (x : Exchange)
    (reply : Reply) (s : Result Fault Snapshot)
    → find x.replies id ≡ some reply
    → (f : Fault) × (claim_snapshot c bound id now meanwhile x s ≡ (err f, x))
unfolding claim_snapshot match_claim
claim_snapshot_taken c bound id now meanwhile x reply (err f) h = (f, refl)
claim_snapshot_taken c bound id now meanwhile x reply (ok s) h =
    let (f, e) =
      claim_taken c id bound.campaign bound.selection (str bound.controller) now meanwhile x reply
        h in
    (f, rw e refl)

-- A claim that hands a job out has reserved it.
pub claim-IsReserved :
    (c : Codec) (name campaign selection : String) (controller : Json) (now : ℕ)
    (meanwhile : Meanwhile) (x z : Exchange) (r : Request) (config : Fields)
    → claim c name campaign selection controller now meanwhile x ≡ (ok (r, config), z)
    → IsReserved c name campaign selection now x r config z × (meanwhile.cancelled ≡ false)
claim-IsReserved c name campaign selection controller now meanwhile x z r config h =
    elim (claim-cases c name campaign selection controller now meanwhile x) [
      | inl (f, e) ↦ absurd (let k = sym e ∙ h in cc)
      | inr (r', config', i, told) ↦
          let (quiet, same) = told (r, config) z h in
          let after : (claim c name campaign selection controller now meanwhile x).1 ≡ z =
            ap (λ p. p.1) h in
          let all_same : ◌≡◌ {A = Request × Fields × Exchange}
              (r', config', (claim c name campaign selection controller now meanwhile x).1)
              (r, config, z) =
            cc in
          (
            subst
                (λ (p : Request × Fields × Exchange).
                  IsReserved c name campaign selection now x p.0 p.1 p.2)
                all_same i,
            quiet,
          )
    ]

abbrev pair_with : Snapshot → Json → Result Fault (Snapshot × Json)
pair_with s w = ok (s, w)

matched :
    (c : Codec) (id : String) (s t : Snapshot) (j : Json)
    (v : Result Fault (Request × Fields) × Exchange) (z : Exchange)
    → match_claim c id s v ≡ (ok (t, j), z)
    → (p : Request × Fields) × (v ≡ (ok p, z))
      × (t ≡ s)
      × (json_eq (obj p.0.document) (obj s.request.document) ≡ true)
      × (json_eq (obj p.1) (obj s.config) ≡ true)
unfolding match_claim
matched c id s t j (err f, x) z h = absurd (cc)
matched c id s t j (ok (r, config), x) z h =
    let same_both : Bool =
      json_eq (obj r.document) (obj s.request.document) && json_eq (obj config) (obj s.config) in
    let read_back : Result Fault (Snapshot × Json) = claim_record c id x >>= pair_with s in
    let e : ◌≡◌ {A = Result Fault (Snapshot × Json)}
        (require same_both (refused "request changed during claim") >> read_back) (ok (t, j)) =
      ap (λ p. p.0) h in
    let after : x ≡ z = ap (λ p. p.1) h in
    met_requirement same_both (refused "request changed during claim") read_back e
      (λ (both : same_both ≡ true)
          (k : ◌≡◌ {A = Result Fault (Snapshot × Json)} read_back (ok (t, j))).
        succeeded (claim_record c id x) (pair_with s) k
          (λ w f (g : ◌≡◌ {A = Result Fault (Snapshot × Json)} (ok (s, w)) (ok (t, j))).
            ((r, config), cc, cc, ground arith, ground arith)))

-- What taking a job comes to: its snapshot, and the claim that followed it.
pub record IsTaken (c : Codec) (bound : Bound) (id : String) (now : ℕ) (a b x z : Exchange)
    (s : Snapshot) : Type 0 where
  pub read : snapshot c bound id a b ≡ ok s
  pub request : Request
  pub config : Fields
  pub reserved : IsReserved c id bound.campaign bound.selection now x request config z
  pub same_request : json_eq (obj request.document) (obj s.request.document) ≡ true
  pub same_config : json_eq (obj config) (obj s.config) ≡ true

claim_snapshot-IsTaken :
    (c : Codec) (bound : Bound) (id : String) (now : ℕ) (meanwhile : Meanwhile) (a b x z : Exchange)
    (s : Snapshot) (j : Json) (v : Result Fault Snapshot)
    → snapshot c bound id a b ≡ v
    → claim_snapshot c bound id now meanwhile x v ≡ (ok (s, j), z)
    → IsTaken c bound id now a b x z s
unfolding claim_snapshot
claim_snapshot-IsTaken c bound id now meanwhile a b x z s j (err f) e h = absurd (cc)
claim_snapshot-IsTaken c bound id now meanwhile a b x z s j (ok t) e h =
    let (p, k, same, r, cfg) =
      matched c id t s j
        (claim c id bound.campaign bound.selection (str bound.controller) now meanwhile x) z h in
    record {
      read = e ∙ ap ok (sym same);
      request = p.0;
      config = p.1;
      reserved =
          (claim-IsReserved c id bound.campaign bound.selection (str bound.controller) now meanwhile
            x z p.0 p.1 k).0;
      same_request =
          subst (λ (q : Snapshot). json_eq (obj p.0.document) (obj q.request.document) ≡ true)
            (sym same) r;
      same_config =
          subst (λ (q : Snapshot). json_eq (obj p.1) (obj q.config) ≡ true) (sym same) cfg;
    }

pub take_job-IsTaken :
    (c : Codec) (bound : Bound) (id : String) (now : ℕ) (meanwhile : Meanwhile) (a b x z : Exchange)
    (s : Snapshot) (j : Json)
    → take_job c bound id now meanwhile a b x ≡ (ok (s, j), z)
    → IsTaken c bound id now a b x z s
unfolding take_job
take_job-IsTaken c bound id now meanwhile a b x z s j h =
    claim_snapshot-IsTaken c bound id now meanwhile a b x z s j (snapshot c bound id a b) refl h

-- A job that has been taken is never taken again: whatever both sides do in between, any later attempt,
-- by this controller or another, raises and leaves the exchange as it is.
pub take_once :
    (c : Codec) (bound : Bound) (id : String) (now : ℕ) (meanwhile : Meanwhile)
    (a b x y z : Exchange) (s : Snapshot) (j : Json) (bound' : Bound) (later : ℕ)
    (meanwhile' : Meanwhile) (a' b' : Exchange)
    → take_job c bound id now meanwhile a b x ≡ (ok (s, j), y)
    → Reach c y z
    → (f : Fault) × (take_job c bound' id later meanwhile' a' b' z ≡ (err f, z))
unfolding take_job
take_once c bound id now meanwhile a b x y z s j bound' later meanwhile' a' b' h r =
    let t = take_job-IsTaken c bound id now meanwhile a b x y s j h in
    let claimed : Reply = t.reserved.reply in
    let there : find y.replies id ≡ some claimed =
      ap (λ d. find d id) t.reserved.replies
      ∙ (find-place x.replies id id claimed ∙ ground (arith, eq_refl id)) in
    let (reply, found, _) = (Reach-Extends c y z r).claims id claimed there in
    claim_snapshot_taken c bound' id later meanwhile' z reply (snapshot c bound' id a' b') found

-- After an outcome has been published, no other is, whatever both sides do in between: every later
-- attempt for that job raises.
pub publish_once :
    (c : Codec) (bound : Bound) (id : String) (result answer : Json) (x y z : Exchange)
    (bound' : Bound) (result' : Json)
    → publish_outcome c bound id result x ≡ ok (answer, y)
    → Reach c y z
    → (f : Fault) × (publish_outcome c bound' id result' z ≡ err f)
publish_once c bound id result answer x y z bound' result' h r =
    let i = publish_outcome-IsPublished c bound id result answer x y h in
    let after : Reply = record i.reply { result = some i.raw } in
    let there : find y.replies id ≡ some after =
      ap (λ d. find d id) i.replies
      ∙ (find-place x.replies id id after ∙ ground (arith, eq_refl id)) in
    let (reply, found, kept) = (Reach-Extends c y z r).results id after i.raw there refl in
    elim (Result-cases (publish_outcome c bound' id result' z)) [
      | inr (f, e) ↦ (f, e)
      | inl ((answer', z'), e) ↦
          let j = publish_outcome-IsPublished c bound' id result' answer' z z' e in
          let present : find z.replies id ≡ some j.reply = j.present in
          let same : reply ≡ j.reply = cc in
          let fresh : reply.result ≡ none =
            subst (λ (s : Reply). s.result ≡ none) (sym same) j.fresh in
          absurd (cc)
    ]
