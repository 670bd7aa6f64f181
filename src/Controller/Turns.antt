-- ===== src/Controller/Turns.antt =====
-- infrastructure/hyperloom/sglang-owner-adapter/controller.py: `_step`, `step`, `_publish` and `serve` keep the
-- account of what has left the controller.
use arch_linux_threadripper.Prelude.{
  sym, ◌∙◌, ℕ, ◌+◌, ◌≤◌, ◌≡◌, refl, String, Bool, true, false, none, some, List, [], ◌∷◌,
  if◌then◌else◌, str_eq, arith, Bool-cases, inl, inr, subst, leb, ltb, eq_iff, ◌||◌,
}
use arch_linux_threadripper.Json.{null, Fields, obj, get, get_or, truthy, mem_str}
use arch_linux_threadripper.Exchange.Terms.{is_text}
use arch_linux_threadripper.Exchange.Requests.{Request}
use arch_linux_threadripper.Exchange.Retain.{retain_snapshot}
use arch_linux_threadripper.Controller.State.{
  Stop, raised, screened, root, job, State, Environment, ◌>>=◌, lift_result, demand, write,
}
use arch_linux_threadripper.Controller.Calls.{remaining, call, catch, stop_text, set_parked, park}
use arch_linux_threadripper.Controller.Owner.{check_closure, attempt}
use arch_linux_threadripper.Controller.Step.{
  Answer, idle, exhausted, failed, handled, make_job, begin_outcome, excuse, send_outcome,
  park_here, note_lost, park_if, park_as_told, publish_outcome, publish_job, try_job, handle_job,
  next_job, read_queue, poll, end_budget, try_step, dispatch_failure, close_down, step, step_unless,
  serve_unless, sees_stop, pause, serve_turn, serve_while, serve_once, close_serving,
}
use arch_linux_threadripper.Controller.Changes.{
  runs, Change, Does, Quiet, Change-refl, Quiet-bind, Quiet-then, then-Quiet, Does-catch,
  Quiet-lift, Quiet-demand, Quiet-write, Quiet-remaining,
}
use arch_linux_threadripper.Controller.Clearance.{Quiet-call, Quiet-check_closure}
use arch_linux_threadripper.Controller.Attempts.{one, Does-attempt}
use arch_linux_threadripper.Controller.Life.{
  mark, Kept, Keeps, Kept-refl, Kept-same, Quiet-Keeps, Keeps-catch, Keeps-bind, Keeps-Quiet,
  Change-Told, Keeps-park, after_continue,
}

Quiet-begin_outcome :
    (env : Environment) (id : String) (r : Request) → Quiet (begin_outcome env id r)
unfolding begin_outcome
Quiet-begin_outcome env id r s = record {
  ticks = omega arith;
  jobs = refl;
  parked = refl;
  attempted = refl;
  sent = omega arith;
  told = omega arith;
  run = λ id. omega arith;
}

Quiet-excuse : (env : Environment) (e : Stop) → Quiet (excuse env e)
unfolding excuse
Quiet-excuse env screened s = Change-refl s
Quiet-excuse env (raised f) s = record {
  ticks = omega arith;
  jobs = refl;
  parked = refl;
  attempted = refl;
  sent = omega arith;
  told = omega arith;
  run = λ id. omega arith;
}

pub Does-try_job :
    (env : Environment) (id : String) (snapshot : Fields)
    → Does 0 (one id) (try_job env id snapshot)
unfolding try_job
Does-try_job env id snapshot =
    Quiet-then 0 (one id)
      (lift_result (retain_snapshot env.codec env.unpack env.bound (env.fresh id) (obj snapshot))) _
      (Quiet-lift _)
      λ p.
        Quiet-then 0 (one id) (begin_outcome env id p.request) _
          (Quiet-begin_outcome env id p.request)
          λ _.
            then-Quiet 0 (one id) (catch (attempt env id p) (excuse env)) _
              (Does-catch 0 (one id) (attempt env id p) (excuse env) (Does-attempt env id p)
                (Quiet-excuse env))
              (λ _ s. Change-refl s)

-- What one more run adds, where the job is new.
once_more :
    (id k : String) (names : List String) (n m : ℕ)
    → mem_str id names ≡ false
    → n ≤ mark (mem_str k names)
    → m ≤ one id k + n
    → m ≤ mark (str_eq id k || mem_str k names)
once_more id k names n m new h c = elim (Bool-cases (str_eq id k)) [
  | inr e ↦ rw e (omega (arith, h, subst (λ b. m ≤ (if b then 1 else 0) + n) e c))
  | inl e ↦
      let none_before = subst (λ j. mem_str j names ≡ false) ((eq_iff id k).0 e) new in
      rw e (
        omega (
          arith,
          subst (λ b. m ≤ (if b then 1 else 0) + n) e c,
          subst (λ b. n ≤ mark b) none_before h,
        ))
]

module _ {env : Environment} where
  -- A job whose directory is new may run its owner once.
  entered_Kept :
      (id : String) (s t : State)
      → mem_str id s.jobs ≡ false
      → Change 0 (one id) (record s { jobs = id ∷ s.jobs }) t
      → Kept env s t
  entered_Kept id s t new c = record {
    clock = c.ticks;
    account = λ h. record {
      terminal = rw c.attempted (omega (arith, c.sent, h.terminal));
      once = λ k.
          rw c.jobs (once_more id k s.jobs (runs k s.log) (runs k t.log) new (h.once k) (c.run k));
    };
    told = λ h e.
        Change-Told env 0 (one id) (record s { jobs = id ∷ s.jobs }) t c (h (sym c.attempted ∙ e));
  }

Keeps-park_here : {env : Environment} → Keeps env park_here
unfolding park_here
Keeps-park_here s = Kept-same s (set_parked true s) refl refl refl refl

Keeps-park_as_told : {env : Environment} (outcome : Fields) → Keeps env (park_as_told outcome)
unfolding park_as_told
Keeps-park_as_told outcome s =
    Kept-same s (set_parked (truthy (get_or outcome "park_campaign" null)) s) refl refl refl refl

pub Quiet-send_outcome :
    (env : Environment) (id : String) (r : Request) (outcome : Fields)
    → Quiet (send_outcome env id r outcome)
unfolding send_outcome
Quiet-send_outcome env id r outcome =
    Quiet-bind (call env "publish" (some r.id) (some (obj outcome)) (some r.expires)) _
      (Quiet-call env "publish" (some r.id) (some (obj outcome)) (some r.expires) refl)
      λ published.
        Quiet-bind
          (demand
            (is_text (env.codec.digest (env.codec.canonical (obj outcome)))
              (get published "published_sha256"))
            "published result identity mismatch")
          _ (Quiet-demand _ _) λ _. Quiet-write (job id) "PUBLICATION.json" (obj published)

Keeps-note_lost :
    (env : Environment) (id : String) (r : Request) (outcome : Fields) (e : Stop)
    → Keeps env (note_lost env id r outcome e)
unfolding note_lost
Keeps-note_lost env id r outcome e = Keeps-bind park_here _ Keeps-park_here λ _.
    Keeps-Quiet (write (job id) "PUBLICATION-FAILURE.json" _) _ (Quiet-write _ _ _)
      (λ _ s. Kept-refl s)

Keeps-park_if : (env : Environment) (reason : String) (b : Bool) → Keeps env (park_if env reason b)
unfolding park_if
Keeps-park_if env reason true = Keeps-park env reason
Keeps-park_if env reason false = λ s. Kept-refl s

Keeps-publish_outcome :
    (env : Environment) (id : String) (r : Request) (outcome : Fields)
    → Keeps env (publish_outcome env id r outcome)
unfolding publish_outcome
Keeps-publish_outcome env id r outcome =
    Keeps-Quiet (write (job id) "OUTCOME.json" (obj outcome)) _ (Quiet-write _ _ _) λ _.
      Keeps-bind (park_as_told outcome) _ (Keeps-park_as_told outcome) λ _.
        Keeps-bind (catch (send_outcome env id r outcome) (note_lost env id r outcome)) _
          (Keeps-catch (send_outcome env id r outcome) (note_lost env id r outcome)
            (Quiet-Keeps (send_outcome env id r outcome) (Quiet-send_outcome env id r outcome))
            (Keeps-note_lost env id r outcome))
          λ _. Keeps-bind (park_if env _ _) _ (Keeps-park_if env _ _) (λ _ s. Kept-refl s)

Keeps-publish_job :
    (env : Environment) (id : String) (r : Request) → Keeps env (publish_job env id r)
unfolding publish_job
Keeps-publish_job env id r s = Keeps-publish_outcome env id r s.outcome s

Keeps-enter_job :
    (env : Environment) (id : String) (snapshot : Fields)
    → Keeps env (make_job id >>= λ _. try_job env id snapshot >>= publish_job env id)
unfolding make_job
Keeps-enter_job env id snapshot s = elim (Bool-cases (mem_str id s.jobs)) [
  | inl e ↦ rw e (Kept-refl s)
  | inr e ↦
      let entered = record s { jobs = id ∷ s.jobs } in
      let tried = try_job env id snapshot entered in
      rw e (
        after_continue (publish_job env id) s tried
          (entered_Kept id s tried.1 e (Does-try_job env id snapshot entered))
          (Keeps-publish_job env id))
]

-- After the take: the directory, the attempt, and the publication
Keeps-handle_job : (env : Environment) (id : String) → Keeps env (handle_job env id)
unfolding handle_job
Keeps-handle_job env id =
    Keeps-Quiet (call env "take" (some id) none none) _
      (Quiet-call env "take" (some id) none none refl) λ snapshot. Keeps-enter_job env id snapshot

Keeps-next_job : (env : Environment) (names : List String) → Keeps env (next_job env names)
unfolding next_job
Keeps-next_job env [] s = Keeps-Quiet (remaining env) _ (Quiet-remaining env) (λ _ t. Kept-refl t) s
Keeps-next_job env (id ∷ rest) s = Keeps-handle_job env id s

Keeps-poll : (env : Environment) → Keeps env (poll env)
unfolding poll
Keeps-poll env =
    Keeps-Quiet (call env "list" none none none) _ (Quiet-call env "list" none none none refl)
      λ listing.
        Keeps-Quiet (lift_result (read_queue (get listing "jobs"))) _ (Quiet-lift _)
          λ queue. Keeps-next_job env queue

Keeps-end_budget : {env : Environment} → Keeps env end_budget
unfolding end_budget
Keeps-end_budget = Keeps-bind park_here _ Keeps-park_here (λ _ s. Kept-refl s)

Keeps-choose_step :
    (env : Environment) (left : ℕ) → Keeps env (if leb left 30000 then end_budget else poll env)
Keeps-choose_step env left = elim (Bool-cases (leb left 30000)) [
  | inl e ↦ rw e Keeps-end_budget
  | inr e ↦ rw e (Keeps-poll env)
]

Keeps-try_step : (env : Environment) → Keeps env (try_step env)
unfolding try_step
Keeps-try_step env =
    Keeps-Quiet (check_closure env) _ (Quiet-check_closure env)
      λ _. Keeps-Quiet (remaining env) _ (Quiet-remaining env) λ left. Keeps-choose_step env left

Keeps-close_down : (env : Environment) (e : Stop) → Keeps env (close_down env e)
unfolding close_down
Keeps-close_down env e =
    Keeps-Quiet (write root "DISPATCH-FAILURE.json" (dispatch_failure env e)) _ (Quiet-write _ _ _)
      λ _.
        Keeps-bind (park env (stop_text env e)) _ (Keeps-park env (stop_text env e))
          (λ _ s. Kept-refl s)

Keeps-step_unless : (env : Environment) (b : Bool) → Keeps env (step_unless env b)
unfolding step_unless
Keeps-step_unless env true s = Kept-refl s
Keeps-step_unless env false s =
    Keeps-catch (try_step env) (close_down env) (Keeps-try_step env) (Keeps-close_down env) s

pub Keeps-step : (env : Environment) → Keeps env (step env)
unfolding step
Keeps-step env s = Keeps-step_unless env s.parked s

Quiet-pause : (env : Environment) (a : Answer) → Quiet (pause env a)
unfolding pause
Quiet-pause env idle s = Quiet-bind (remaining env) _ (Quiet-remaining env) (λ _ t. Change-refl t) s
Quiet-pause env exhausted s = Change-refl s
Quiet-pause env failed s = Change-refl s
Quiet-pause env (handled d) s = Change-refl s

Keeps-sees_stop : (env : Environment) → Keeps env (sees_stop env)
unfolding sees_stop
Keeps-sees_stop env s = Kept-refl s

Keeps-serve_turn : (env : Environment) (b : Bool) → Keeps env (serve_turn env b)
unfolding serve_turn
Keeps-serve_turn env true s =
    Keeps-bind (park env "campaign supervisor requested closeout") _ (Keeps-park env _)
      (λ _ t. Kept-refl t) s
Keeps-serve_turn env false s =
    Keeps-bind (step env) _ (Keeps-step env)
      (λ answer. Keeps-Quiet (pause env answer) _ (Quiet-pause env answer) (λ _ t. Kept-refl t)) s

pub Keeps-serve_while : (env : Environment) (b : Bool) → Keeps env (serve_while env b)
unfolding serve_while
Keeps-serve_while env false s = Kept-refl s
Keeps-serve_while env true s =
    Keeps-bind (sees_stop env) _ (Keeps-sees_stop env) (λ stopping. Keeps-serve_turn env stopping) s

Keeps-serve_unless : (env : Environment) (b : Bool) → Keeps env (serve_unless env b)
unfolding serve_unless
Keeps-serve_unless env true s = Kept-refl s
Keeps-serve_unless env false s =
    Keeps-Quiet (remaining env) _ (Quiet-remaining env)
      (λ left. Keeps-serve_while env (ltb 30000 left)) s

pub Keeps-serve_once : (env : Environment) → Keeps env (serve_once env)
unfolding serve_once
Keeps-serve_once env s = Keeps-serve_unless env s.parked s

pub Keeps-close_serving : (env : Environment) → Keeps env (close_serving env)
unfolding close_serving
Keeps-close_serving env =
    Keeps-bind (park env "campaign controller stopped") _ (Keeps-park env _) λ _.
      Keeps-Quiet (remaining env) _ (Quiet-remaining env)
        λ left. Quiet-Keeps (write root "CONTROLLER-STOPPED.json" _) (Quiet-write _ _ _)
