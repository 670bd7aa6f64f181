-- ===== src/Controller/Clearance.antt =====
-- infrastructure/hyperloom/sglang-owner-adapter/controller.py: what comes before an owner runs adds nothing to what
-- has left the controller but its questions.
use arch_linux_threadripper.Prelude.{
  ℕ, ◌≡◌, refl, String, Bool, true, false, Option, none, some, arith, subst, Bool-cases, inl, inr,
}
use arch_linux_threadripper.Prelude.Assoc.{find}
use arch_linux_threadripper.Json.{Json, Fields, obj, get, eq_str}
use arch_linux_threadripper.Exchange.Terms.{is_text}
use arch_linux_threadripper.Exchange.Requests.{Request}
use arch_linux_threadripper.Exchange.Retain.{Private}
use arch_linux_threadripper.Controller.State.{job, State, Environment, lift_result, demand, write}
use arch_linux_threadripper.Controller.Calls.{read_clocks, call, read_flag, confirm, ask_cancelled}
use arch_linux_threadripper.Controller.Owner.{
  item, item_of, check_closure, is_allowed, read_eligible, needs_screen, check_screen,
  note_rejection, stop_if_rejected, prepare, propose, read_candidate, authorization, authorize,
  clear, request_digest,
}
use arch_linux_threadripper.Controller.Changes.{
  Change, nothing, Does, Quiet, Change-refl, Quiet-bind, Quiet-lift, Quiet-demand, Quiet-write,
  Quiet-clocks, park_calls, Does-call,
}

pub Quiet-call :
    (env : Environment) (action : String) (id : Option String) (payload : Option Json)
    (expires : Option ℕ)
    → park_calls action ≡ 0
    → Quiet (call env action id payload expires)
Quiet-call env action id payload expires e =
    subst (λ p. Does p nothing (call env action id payload expires)) e
      (Does-call env action id payload expires)

pub Quiet-confirm :
    (env : Environment) (r : Request) (response : Fields) (flag : Bool)
    → Quiet (confirm env r response flag)
unfolding confirm
Quiet-confirm env r response true s = Change-refl s
Quiet-confirm env r response false s =
    Quiet-bind
      (demand (is_text (request_digest env r) (get response "request_sha256"))
        "request changed after the private snapshot")
      _ (Quiet-demand _ _) (λ _ s. Change-refl s) s

pub Quiet-ask_cancelled : (env : Environment) (r : Request) → Quiet (ask_cancelled env r)
unfolding ask_cancelled
Quiet-ask_cancelled env r =
    Quiet-bind (call env "cancelled" (some r.id) none (some r.expires)) _
      (Quiet-call env "cancelled" (some r.id) none (some r.expires) refl)
      λ response.
        Quiet-bind (lift_result (read_flag (get response "cancelled"))) _ (Quiet-lift _)
          λ flag. Quiet-confirm env r response flag

pub Quiet-check_closure : (env : Environment) → Quiet (check_closure env)
unfolding check_closure
Quiet-check_closure env s = Quiet-lift (env.closure s.ticks) s

-- A change of the fields that no account is kept of.
pub same_account :
    (f : State → State) (s : State)
    → (f s).ticks ≡ s.ticks
    → (f s).jobs ≡ s.jobs
    → (f s).parked ≡ s.parked
    → (f s).terminal_attempted ≡ s.terminal_attempted
    → (f s).log ≡ s.log
    → Change 0 nothing s (f s)
same_account f s a b p c d = record {
  ticks = omega (arith, a);
  jobs = b;
  parked = p;
  attempted = c;
  sent = rw d (omega arith);
  told = rw d (omega arith);
  run = λ id. rw d (omega arith);
}

pub Quiet-check_screen : (env : Environment) (r : Request) → Quiet (check_screen env r)
unfolding check_screen
Quiet-check_screen env r s = elim (Bool-cases (needs_screen env r)) [
  | inr e ↦ rw e (Change-refl s)
  | inl e ↦ rw e (
      Quiet-bind (lift_result (read_eligible (find s.components r.source_set))) _ (Quiet-lift _)
        (λ eligible.
          Quiet-demand eligible
            "changed source needs a successful component screen in this campaign")
        s)
]

pub Quiet-stop_if_rejected :
    (status : Json) (preparation : Fields) → Quiet (stop_if_rejected status preparation)
unfolding stop_if_rejected
Quiet-stop_if_rejected status preparation s =
    elim (Bool-cases (eq_str status "CPU_CANDIDATE_REJECTED")) [
      | inr e ↦ rw e (Change-refl s)
      | inl e ↦ rw e (
          Quiet-bind (lift_result (item preparation "reason")) _ (Quiet-lift _)
            (λ reason t.
              same_account (note_rejection reason preparation) t refl refl refl refl refl)
            s)
    ]

pub Quiet-prepare : (env : Environment) (id : String) (p : Private) → Quiet (prepare env id p)
unfolding prepare
Quiet-prepare env id p =
    Quiet-bind (lift_result (env.inputs p.request.kind)) _ (Quiet-lift _) λ inputs.
      Quiet-bind (lift_result (item inputs "owner")) _ (Quiet-lift _) λ owner.
        Quiet-bind (lift_result (item inputs "support")) _ (Quiet-lift _) λ support.
          Quiet-bind (lift_result (env.prepare p.request.kind p owner support)) _ (Quiet-lift _)
            λ preparation.
              Quiet-bind (write (job id) "PREPARATION-RESULT.json" (obj preparation)) _
                (Quiet-write _ _ _)
                λ _. Quiet-bind (lift_result (item preparation "status")) _ (Quiet-lift _) λ status.
                  Quiet-bind (stop_if_rejected status preparation) _
                    (Quiet-stop_if_rejected status preparation)
                    λ _.
                      Quiet-bind
                        (demand (eq_str status "PREPARED_NOT_REGISTERED_OR_RUN")
                          "owner preparation refused")
                        _ (Quiet-demand _ _) (λ _ s. Change-refl s)

pub Quiet-propose :
    (env : Environment) (id : String) (p : Private) (preparation : Fields)
    → Quiet (propose env id p preparation)
unfolding propose
Quiet-propose env id p preparation =
    Quiet-bind (lift_result (item preparation "record")) _ (Quiet-lift _) λ prepared.
      Quiet-bind (lift_result (env.propose p.request.kind prepared)) _ (Quiet-lift _) λ proposal.
        Quiet-bind (write (job id) "PROPOSAL-RESULT.json" (obj proposal)) _ (Quiet-write _ _ _) λ _.
          Quiet-bind (lift_result (item proposal "status")) _ (Quiet-lift _) λ status.
            Quiet-bind
              (demand (eq_str status "PROPOSED_NOT_REGISTERED_OR_RUN") "owner proposal refused") _
              (Quiet-demand _ _) (λ _ s. Change-refl s)

pub Quiet-authorize :
    (env : Environment) (id : String) (r : Request) (proposal : Fields)
    → Quiet (authorize env id r proposal)
unfolding authorize
Quiet-authorize env id r proposal =
    Quiet-bind (demand (is_allowed env r.kind) "campaign does not cover this owner kind") _
      (Quiet-demand _ _)
      λ _. Quiet-bind (lift_result (read_candidate r.sources)) _ (Quiet-lift _) λ candidate.
        Quiet-bind (lift_result (item proposal "campaign_root")) _ (Quiet-lift _) λ campaign.
          Quiet-bind (lift_result (item proposal "proposal")) _ (Quiet-lift _) λ proposed.
            Quiet-bind (lift_result (item_of proposed "sha256")) _ (Quiet-lift _) λ proposed_sha.
              Quiet-bind (lift_result (item proposal "execute_once")) _ (Quiet-lift _) λ once.
                Quiet-bind (lift_result (item_of once "sha256")) _ (Quiet-lift _) λ once_sha.
                  Quiet-bind (lift_result (item proposal "nonce")) _ (Quiet-lift _) λ nonce.
                    Quiet-bind (lift_result (item proposal "index")) _ (Quiet-lift _) λ index.
                      Quiet-bind (read_clocks env) _ (Quiet-clocks env) λ now.
                        Quiet-bind
                          (write (job id) "DERIVED-OPERATION-AUTHORITY.json" (
                            authorization env r candidate campaign proposed_sha once_sha nonce index
                              now.1))
                          _ (Quiet-write _ _ _) (λ _ s. Change-refl s)

pub Quiet-clear : (env : Environment) (id : String) (p : Private) → Quiet (clear env id p)
unfolding clear
Quiet-clear env id p = Quiet-bind (check_closure env) _ (Quiet-check_closure env) λ _.
    Quiet-bind (check_screen env p.request) _ (Quiet-check_screen env p.request) λ _.
      Quiet-bind (prepare env id p) _ (Quiet-prepare env id p) λ preparation.
        Quiet-bind (propose env id p preparation) _ (Quiet-propose env id p preparation) λ proposal.
          Quiet-bind (authorize env id p.request proposal) _
            (Quiet-authorize env id p.request proposal)
            λ authority.
              Quiet-bind (check_closure env) _ (Quiet-check_closure env) (λ _ s. Change-refl s)
