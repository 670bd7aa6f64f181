-- ===== src/Controller/Attempts.antt =====
-- infrastructure/hyperloom/sglang-owner-adapter/controller.py: what the parts of a step may add to what has
-- left the controller.
use arch_linux_threadripper.Prelude.{
  ℕ, ◌+◌, refl, String, Bool, true, false, ◌&&◌, if◌then◌else◌, str_eq, arith, Bool-cases, inl, inr,
}
use arch_linux_threadripper.Json.{Json, Fields, get}
use arch_linux_threadripper.Exchange.Terms.{is_text}
use arch_linux_threadripper.Exchange.Requests.{Request}
use arch_linux_threadripper.Exchange.Retain.{Private}
use arch_linux_threadripper.Controller.State.{
  Environment, Execution, finished, asks, M, lift_result, demand, modify,
}
use arch_linux_threadripper.Controller.Calls.{read_clocks, remaining, ask_cancelled}
use arch_linux_threadripper.Controller.Owner.{
  item, item_of, is_allowed, clear, run_execution, note_start, note_observation, is_own_outcome,
  note_refusal, note_component, keep_component, launch, mark_start, mark_execution,
  mark_observation, mark_refusal, check_outcome, run_owner, note_cancelled, note_unsupported,
  choose, attempt, is_component,
}
use arch_linux_threadripper.Controller.Changes.{
  nothing, Does, Quiet, Change-refl, Change-trans, Change-weaken, Quiet-bind, Quiet-then,
  then-Quiet, Quiet-lift, Quiet-demand, Quiet-clocks, Quiet-remaining,
}
use arch_linux_threadripper.Controller.Clearance.{Quiet-ask_cancelled, same_account, Quiet-clear}

Quiet-run_execution :
    (env : Environment) (r : Request) (e : Execution) → Quiet (run_execution env r e)
unfolding run_execution
Quiet-run_execution env r (finished answer) s = Quiet-lift answer s
Quiet-run_execution env r (asks next) s =
    let asked = ask_cancelled env r s in
    Change-weaken 0 0 (λ id. 0 + 0) nothing s (run_execution env r (next asked.0) asked.1).1
      (omega arith) (λ id. omega arith)
      (Change-trans 0 0 nothing nothing s asked.1 (run_execution env r (next asked.0) asked.1).1
        (Quiet-ask_cancelled env r s) (Quiet-run_execution env r (next asked.0) asked.1))

Quiet-keep_component : (r : Request) → Quiet (keep_component r)
unfolding keep_component
Quiet-keep_component r s =
    elim (Bool-cases (is_component r.kind && is_text "SUCCEEDED" (get s.outcome "status"))) [
      | inr e ↦ rw e (Change-refl s)
      | inl e ↦ rw e (
          Quiet-bind (lift_result (item s.outcome "payload")) _ (Quiet-lift _)
            (λ payload.
              Quiet-bind (lift_result (item_of payload "component_report")) _ (Quiet-lift _)
                (λ report t.
                  same_account (note_component r.source_set report) t refl refl refl refl refl))
            s)
    ]

Quiet-mark_start : Quiet mark_start
unfolding mark_start
Quiet-mark_start s = same_account note_start s refl refl refl refl refl

Quiet-mark_observation : (observed : Fields) → Quiet (mark_observation observed)
unfolding mark_observation
Quiet-mark_observation observed s =
    same_account (note_observation observed) s refl refl refl refl refl

Quiet-check_outcome : (env : Environment) (r : Request) → Quiet (check_outcome env r)
unfolding check_outcome
Quiet-check_outcome env r s = Quiet-demand (is_own_outcome env r s.outcome) _ s

Quiet-mark_refusal : Quiet mark_refusal
unfolding mark_refusal note_refusal
Quiet-mark_refusal s = elim (Bool-cases (is_text "REFUSED" (get s.outcome "status"))) [
  | inl e ↦ rw e (record {
    ticks = omega arith;
    jobs = refl;
    parked = refl;
    attempted = refl;
    sent = omega arith;
    told = omega arith;
    run = λ id. omega arith;
  })
  | inr e ↦ rw e (Change-refl s)
]

-- One run of the job's own owner.
abbrev pub one : String → String → ℕ
one id k = if str_eq id k then 1 else 0

Does-mark_execution : (id : String) → Does 0 (one id) (mark_execution id)
unfolding mark_execution
Does-mark_execution id s = record {
  ticks = omega arith;
  jobs = refl;
  parked = refl;
  attempted = refl;
  sent = omega arith;
  told = omega arith;
  run = λ k. ground arith;
}

Does-launch :
    (env : Environment) (id : String) (r : Request) (proposal : Fields) (authority : Json)
    → Does 0 (one id) (launch env id r proposal authority)
unfolding launch
Does-launch env id r proposal authority = Quiet-then 0 (one id) mark_start _ Quiet-mark_start λ _.
    Quiet-then 0 (one id) (lift_result (item proposal "record")) _ (Quiet-lift _) λ prepared.
      then-Quiet 0 (one id) (mark_execution id) _ (Does-mark_execution id) λ _.
        Quiet-bind (run_execution env r (env.execute r.kind prepared authority)) _
          (Quiet-run_execution env r (env.execute r.kind prepared authority))
          λ observed.
            Quiet-bind (mark_observation observed) _ (Quiet-mark_observation observed) λ _.
              Quiet-bind (check_outcome env r) _ (Quiet-check_outcome env r)
                λ _. Quiet-bind mark_refusal _ Quiet-mark_refusal λ _. Quiet-keep_component r

allow_one : {A : Type 0} (id : String) (m : M A) → Quiet m → Does 0 (one id) m
allow_one id m q s =
    Change-weaken 0 0 nothing (one id) s (m s).1 (omega arith) (λ k. omega arith) (q s)

Does-run_owner :
    (env : Environment) (id : String) (p : Private) → Does 0 (one id) (run_owner env id p)
unfolding run_owner
Does-run_owner env id p =
    Quiet-then 0 (one id) (clear env id p) _ (Quiet-clear env id p)
      λ cleared. Does-launch env id p.request cleared.0 cleared.1

Does-choose :
    (env : Environment) (id : String) (p : Private) (b : Bool) → Does 0 (one id) (choose env id p b)
unfolding choose
Does-choose env id p true s =
    allow_one id (modify note_cancelled)
      (λ t. same_account note_cancelled t refl refl refl refl refl) s
Does-choose env id p false s = elim (Bool-cases (is_allowed env p.request.kind)) [
  | inl e ↦ rw e (Does-run_owner env id p s)
  | inr e ↦ rw e (
      allow_one id (modify note_unsupported)
        (λ t. same_account note_unsupported t refl refl refl refl refl) s)
]

-- One try of a job runs at most its own owner, once, and sends no terminal record.
pub Does-attempt :
    (env : Environment) (id : String) (p : Private) → Does 0 (one id) (attempt env id p)
unfolding attempt
Does-attempt env id p = Quiet-then 0 (one id) (remaining env) _ (Quiet-remaining env) λ left.
    Quiet-then 0 (one id) (read_clocks env) _ (Quiet-clocks env) λ now.
      Quiet-then 0 (one id) (demand _ "whole owner and closeout no longer fit the campaign") _
        (Quiet-demand _ _)
        λ _.
          Quiet-then 0 (one id) (ask_cancelled env p.request) _ (Quiet-ask_cancelled env p.request)
            λ cancelled. Does-choose env id p cancelled
