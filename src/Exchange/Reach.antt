-- ===== src/Exchange/Reach.antt =====
-- lib/workstation/hyperloom_exchange_host.py and hyperloom_exchange.py: the steps that both sides of the
-- exchange take, and what no step undoes.
use arch_linux_threadripper.Prelude.{
  ℕ, ◌≡◌, refl, String, none, some, if◌then◌else◌, Result, ok, err, str_eq, arith, succeeded, subst,
  eq_iff, ◌∙◌, ap, inl, inr, Bool-cases,
}
use arch_linux_threadripper.Prelude.Assoc.{Assoc, find, find-place}
use arch_linux_threadripper.Json.{Json, str, Fields}
use arch_linux_threadripper.Exchange.Terms.{Fault, Codec}
use arch_linux_threadripper.Exchange.Requests.{Request}
use arch_linux_threadripper.Exchange.Store.{Bytes, Job, Reply, Exchange, publish}
use arch_linux_threadripper.Exchange.Jobs.{Meanwhile, claim}
use arch_linux_threadripper.Exchange.Config.{Bound}
use arch_linux_threadripper.Exchange.Host.{
  park, read_reason, terminal_document, publish_outcome, take_job, claim_snapshot, match_claim,
  snapshot, Snapshot,
}
use arch_linux_threadripper.Exchange.Claims.{IsReserved, claim-cases}
use arch_linux_threadripper.Exchange.Outcomes.{
  IsPublished, publish_outcome-IsPublished, publish_sound,
}

-- A step of the exchange: the optimizer rewrites its tree as it likes, or the controller takes a job,
-- publishes an outcome or parks the campaign.
pub data Step (c : Codec) : Exchange → Exchange → Type 0 where
  optimizer : (x : Exchange) (jobs : Assoc Job) → Step c x (record x { jobs = jobs })
  taken :
      (x at_inspection at_reading : Exchange) (bound : Bound) (id : String) (now : ℕ)
      (meanwhile : Meanwhile)
      → Step c x (take_job c bound id now meanwhile at_inspection at_reading x).1
  published :
      (x y : Exchange) (bound : Bound) (id : String) (result answer : Json)
      → publish_outcome c bound id result x ≡ ok (answer, y)
      → Step c x y
  parked :
      (x y : Exchange) (bound : Bound) (result answer : Json) (now : ℕ)
      → park c bound result now x ≡ ok (answer, y)
      → Step c x y

pub data Reach (c : Codec) : Exchange → Exchange → Type 0 where
  here : (x : Exchange) → Reach c x x
  there : {x y z : Exchange} → Step c x y → Reach c y z → Reach c x z

-- What one exchange has, a later one still has.
pub record Extends (x y : Exchange) : Type 0 where
  pub claims :
      (id : String) (r : Reply)
      → find x.replies id ≡ some r
      → (s : Reply) × (find y.replies id ≡ some s) × (s.claim ≡ r.claim)
  pub results :
      (id : String) (r : Reply) (b : Bytes)
      → find x.replies id ≡ some r
      → r.result ≡ some b
      → (s : Reply) × (find y.replies id ≡ some s) × (s.result ≡ some b)
  pub record_kept : (b : Bytes) → x.parked ≡ some b → y.parked ≡ some b

Extends-refl : (x : Exchange) → Extends x x
Extends-refl x = record {
  claims = λ id r h. (r, h, refl);
  results = λ id r b h k. (r, h, k);
  record_kept = λ b h. h;
}

Extends-trans : (x y z : Exchange) → Extends x y → Extends y z → Extends x z
Extends-trans x y z e f = record {
  claims = λ id r h.
      let (s, h₁, k₁) = e.claims id r h in let (t, h₂, k₂) = f.claims id s h₁ in (t, h₂, k₂ ∙ k₁);
  results = λ id r b h k. let (s, h₁, k₁) = e.results id r b h k in f.results id s b h₁ k₁;
  record_kept = λ b h. f.record_kept b (e.record_kept b h);
}

-- Replies that are the same, or one of which has been placed where none was or where it extends.
Extends-replies : (x y : Exchange) → y.replies ≡ x.replies → y.parked ≡ x.parked → Extends x y
Extends-replies x y e p = record {
  claims = λ id r h. (r, ap (λ d. find d id) e ∙ h, refl);
  results = λ id r b h k. (r, ap (λ d. find d id) e ∙ h, k);
  record_kept = λ b h. p ∙ h;
}

reserve-Extends :
    (c : Codec) (name campaign selection : String) (now : ℕ) (x y : Exchange) (r : Request)
    (config : Fields)
    → IsReserved c name campaign selection now x r config y
    → Extends x y
reserve-Extends c name campaign selection now x y r config i =
    let fresh : find x.replies name ≡ none = i.fresh in
    let seen : (id : String) (s : Reply) → find x.replies id ≡ some s → find y.replies id ≡ some s =
      λ id s h.
        ap (λ d. find d id) i.replies
        ∙ (find-place x.replies name id i.reply ∙ ground (arith, eq_iff name id)) in
    record {
      claims = λ id s h. (s, seen id s h, refl);
      results = λ id s b h k. (s, seen id s h, k);
      record_kept = λ b h. i.same_parked ∙ h;
    }

claim-Extends :
    (c : Codec) (name campaign selection : String) (controller : Json) (now : ℕ)
    (meanwhile : Meanwhile) (x : Exchange)
    → Extends x (claim c name campaign selection controller now meanwhile x).1
claim-Extends c name campaign selection controller now meanwhile x =
    elim (claim-cases c name campaign selection controller now meanwhile x) [
      | inl (f, e) ↦ rw e (Extends-refl x)
      | inr (r, config, i, _) ↦
          reserve-Extends c name campaign selection now x
            (claim c name campaign selection controller now meanwhile x).1 r config i
    ]

claim_snapshot-Extends :
    (c : Codec) (bound : Bound) (id : String) (now : ℕ) (meanwhile : Meanwhile) (x : Exchange)
    (s : Result Fault Snapshot)
    → Extends x (claim_snapshot c bound id now meanwhile x s).1
unfolding claim_snapshot match_claim
claim_snapshot-Extends c bound id now meanwhile x (err f) = Extends-refl x
claim_snapshot-Extends c bound id now meanwhile x (ok s) =
    claim-Extends c id bound.campaign bound.selection (str bound.controller) now meanwhile x

take-Extends :
    (c : Codec) (bound : Bound) (id : String) (now : ℕ) (meanwhile : Meanwhile) (a b x : Exchange)
    → Extends x (take_job c bound id now meanwhile a b x).1
unfolding take_job
take-Extends c bound id now meanwhile a b x =
    claim_snapshot-Extends c bound id now meanwhile x (snapshot c bound id a b)

pub park-fresh :
    (c : Codec) (bound : Bound) (result answer : Json) (now : ℕ) (x y : Exchange)
    → park c bound result now x ≡ ok (answer, y)
    → (x.parked ≡ none)
      × (y.replies ≡ x.replies)
      × (y.jobs ≡ x.jobs)
      × ((raw : Bytes) × (y.parked ≡ some raw))
unfolding park
park-fresh c bound result answer now x y h = succeeded (read_reason result) _ h λ reason _ h.
    succeeded (publish x.parked (c.canonical (terminal_document bound reason now))) _ h λ raw w h.
      let same : record x { parked = some raw } ≡ y = ground arith in
      subst
        (λ (y : Exchange).
          (x.parked ≡ none)
          × (y.replies ≡ x.replies)
          × (y.jobs ≡ x.jobs)
          × ((raw : Bytes) × (y.parked ≡ some raw)))
        same ((publish_sound x.parked _ raw w).0, refl, refl, (raw, refl))

publish-Extends :
    (c : Codec) (bound : Bound) (id : String) (result : Json) (x y : Exchange)
    → IsPublished c bound id result x y
    → Extends x y
publish-Extends c bound id result x y i =
    let after : Reply = record i.reply { result = some i.raw } in
    let present : find x.replies id ≡ some i.reply = i.present in
    let fresh : i.reply.result ≡ none = i.fresh in
    let found : (j : String)
        → find y.replies j ≡ (if str_eq id j then some after else find x.replies j) =
      λ j. ap (λ d. find d j) i.replies ∙ find-place x.replies id j after in
    record {
      claims = λ j r h. elim (Bool-cases (str_eq id j)) [
        | inl e ↦
            let same : id ≡ j = ground (arith, eq_iff id j) in
            let own : i.reply ≡ r =
              let there : find x.replies j ≡ some i.reply =
                subst (λ k. find x.replies k ≡ some i.reply) same present in
              cc in
            (after, found j ∙ ground arith, ap (λ (s : Reply). s.claim) own)
        | inr e ↦ (r, found j ∙ ground arith, refl)
      ];
      results = λ j r b h k. elim (Bool-cases (str_eq id j)) [
        | inl e ↦
            let same : id ≡ j = ground (arith, eq_iff id j) in
            let own : i.reply ≡ r =
              let there : find x.replies j ≡ some i.reply =
                subst (λ k. find x.replies k ≡ some i.reply) same present in
              cc in
            let none_there : r.result ≡ none = subst (λ (s : Reply). s.result ≡ none) own fresh in
            absurd (cc)
        | inr e ↦ (r, found j ∙ ground arith, k)
      ];
      record_kept = λ b h. i.same_parked ∙ h;
    }

Step-Extends : (c : Codec) (x y : Exchange) → Step c x y → Extends x y
Step-Extends c x y (optimizer _ jobs) = Extends-replies x (record x { jobs = jobs }) refl refl
Step-Extends c x y (taken _ a b bound id now meanwhile) =
    take-Extends c bound id now meanwhile a b x
Step-Extends c x y (published _ _ bound id result answer h) =
    publish-Extends c bound id result x y
      (publish_outcome-IsPublished c bound id result answer x y h)
Step-Extends c x y (parked _ _ bound result answer now h) =
    let (fresh, same, _, _) = park-fresh c bound result answer now x y h in
    record {
      claims = λ id r h. (r, ap (λ d. find d id) same ∙ h, refl);
      results = λ id r b h k. (r, ap (λ d. find d id) same ∙ h, k);
      record_kept =
          λ b h. absurd (let e : x.parked ≡ none = fresh in let f : x.parked ≡ some b = h in cc);
    }

-- Nothing that either side does afterwards takes a claim, a published result or the terminal record
-- back, or changes it.
pub Reach-Extends : (c : Codec) (x y : Exchange) → Reach c x y → Extends x y
Reach-Extends c x y (here _) = Extends-refl x
Reach-Extends c x y (there {y = z} s r) =
    Extends-trans x z y (Step-Extends c x z s) (Reach-Extends c z y r)
