-- ===== src/Controller/Parking.antt =====
-- infrastructure/hyperloom/sglang-owner-adapter/controller.py: when the controller is parked.
use arch_linux_threadripper.Prelude.{
  ◌⊎◌, ◌<◌, ◌≤◌, ℕ, ◌≡◌, refl, String, Bool, true, false, Option, none, some, List, [], ◌∷◌,
  if◌then◌else◌, Result, ok, err, Bool-cases, inl, inr, subst, leb, ◌∙◌,
}
use arch_linux_threadripper.Json.{null, Fields, obj, get, get_or, truthy}
use arch_linux_threadripper.Exchange.Requests.{Request}
pub use arch_linux_threadripper.Prelude.Effects.{Holds, Holds-continue, Holds-after}
use arch_linux_threadripper.Controller.State.{
  Stop, root, job, State, Environment, M, ◌>>=◌, lift_result, write, continue_with,
}
use arch_linux_threadripper.Controller.Calls.{
  remaining, call, handle, catch, stop_text, set_parked, set_attempted, publish_or_note,
  park_unless, park,
}
use arch_linux_threadripper.Controller.Owner.{check_closure}
use arch_linux_threadripper.Controller.Step.{
  Answer, idle, exhausted, failed, handled, make_job, send_outcome, park_here, note_lost,
  park_reason, park_if, park_as_told, publish_outcome, publish_job, try_job, handle_job, next_job,
  read_queue, poll, end_budget, try_step, dispatch_failure, close_down, step, step_unless,
  close_serving, finish, finish_if, serve_loop, serve,
}
use arch_linux_threadripper.Controller.Changes.{
  parks, Change, nothing, Quiet, Quiet-lift, Quiet-write, Quiet-remaining, Quiet-bind,
}
use arch_linux_threadripper.Controller.Clearance.{Quiet-call, Quiet-check_closure}
use arch_linux_threadripper.Controller.Life.{Does-publish_or_note, left_at}
use arch_linux_threadripper.Controller.Turns.{Quiet-send_outcome}
use arch_linux_threadripper.Controller.Serving.{Ends, Ends-serve}

module _ {A B : Type 0} (Q : B → State → Type 0) where
  -- A quiet part leaves the controller parked or not.
  Holds-Quiet :
      (b : Bool) (m : M A) (k : A → M B) (s : State)
      → Quiet m
      → s.parked ≡ b
      → ((a : A) (t : State) → t.parked ≡ b → Holds Q (k a t))
      → Holds Q ((m >>= k) s)
  Holds-Quiet b m k s q e g =
      Holds-continue (λ _ t. t.parked ≡ b) Q k (m s) (still (m s) ((q s).parked ∙ e)) g
    where
      still : (r : Result Stop A × State) → r.1.parked ≡ b → Holds (λ _ t. t.parked ≡ b) r
      still (ok a, t) e = e
      still (err f, t) e = tt

module _ {A : Type 0} (Q : A → State → Type 0) where
  Holds-handle :
      (h : Stop → M A) (r : Result Stop A × State)
      → Holds Q r
      → ((e : Stop) (t : State) → Holds Q (h e t))
      → Holds Q (handle h r)
  Holds-handle h (ok a, t) c g = c
  Holds-handle h (err e, t) c g = g e t

-- Parked for good: and the terminal record was attempted.
abbrev pub IsClosed : State → Type 0
IsClosed s = (s.parked ≡ true) × (s.terminal_attempted ≡ true)

Change-IsClosed : (p : ℕ) (s t : State) → Change p nothing s t → IsClosed s → IsClosed t
Change-IsClosed p s t c h = (c.parked ∙ h.0, c.attempted ∙ h.1)

park_unless-IsClosed :
    (env : Environment) (reason : String) (b : Bool) (s : State)
    → s.parked ≡ true
    → s.terminal_attempted ≡ b
    → IsClosed (park_unless env reason b s).1
unfolding park_unless
park_unless-IsClosed env reason true s p e = (p, e)
park_unless-IsClosed env reason false s p e =
    Change-IsClosed 1 (set_attempted s) (publish_or_note env reason (set_attempted s)).1
      (Does-publish_or_note env reason (set_attempted s)) (p, refl)

pub park-IsClosed :
    (env : Environment) (reason : String) (s : State) → IsClosed (park env reason s).1
unfolding park
park-IsClosed env reason s =
    park_unless-IsClosed env reason s.terminal_attempted (set_parked true s) refl refl

IsClosed-continue :
    {A B : Type 0} (k : A → M B) (r : Result Stop A × State)
    → IsClosed r.1
    → ((a : A) → Quiet (k a))
    → IsClosed (continue_with k r).1
IsClosed-continue k (ok a, t) h q = Change-IsClosed 0 t (k a t).1 (q a t) h
IsClosed-continue k (err e, t) h q = h

close_serving-IsClosed : (env : Environment) (s : State) → IsClosed (close_serving env s).1
unfolding close_serving
close_serving-IsClosed env s =
    IsClosed-continue _ (park env "campaign controller stopped" s)
      (park-IsClosed env "campaign controller stopped" s)
      λ _.
        Quiet-bind (remaining env) _ (Quiet-remaining env)
          λ left. Quiet-write root "CONTROLLER-STOPPED.json" _

finish-IsClosed :
    (env : Environment) (r : Result Stop (Unit {0}) × State) → IsClosed (finish env r).1
unfolding finish
finish-IsClosed env (outcome, s) = close_serving-IsClosed env s

abbrev ClosedIf : Option (Result Stop (Unit {0}) × State) → Type 0
ClosedIf none = Unit {0}
ClosedIf (some o) = IsClosed o.1

finish_if-IsClosed :
    (env : Environment) (r : Option (Result Stop (Unit {0}) × State)) → ClosedIf (finish_if env r)
unfolding finish_if
finish_if-IsClosed env none = tt
finish_if-IsClosed env (some r) = finish-IsClosed env r

-- However a service ends, by itself or by an exception: a controller that had not attempted the terminal
-- record before is parked at the end and has set the flag of the attempt, and the call that publishes the
-- terminal record has gone out, unless at some reading of the clocks no more than the ten seconds that a
-- call needs were left.
pub serve-IsClosed :
    (fuel : ℕ) (env : Environment) (s : State) (o : Result Stop (Unit {0}) × State)
    → s.terminal_attempted ≡ false
    → serve fuel env s ≡ some o
    → (o.1.parked ≡ true)
      × (o.1.terminal_attempted ≡ true)
      × ((1 ≤ parks o.1.log) ⊎ ((n : ℕ) × (n < o.1.ticks) × (left_at env n ≤ 10000)))
unfolding serve
serve-IsClosed fuel env s o fresh e =
    let closed : IsClosed o.1 = subst ClosedIf e (finish_if-IsClosed env (serve_loop fuel env s)) in
    (
      closed.0,
      closed.1,
      (subst (Ends env s) e (Ends-serve fuel env s)).told (λ t. absurd (cc (t, fresh))) closed.1,
    )

-- What an answer says of the controller
abbrev pub parks_after : Answer → Bool
parks_after exhausted = true
parks_after idle = false
parks_after failed = true
parks_after (handled outcome) = truthy (get_or outcome "park_campaign" null)

abbrev AsTold : Answer → State → Type 0
AsTold a t = t.parked ≡ parks_after a

kept_parked :
    {A : Type 0} (b : Bool) (r : Result Stop A × State)
    → r.1.parked ≡ b
    → Holds (λ _ t. t.parked ≡ b) r
kept_parked b (ok a, t) e = e
kept_parked b (err f, t) e = tt

park_if-AsTold :
    (env : Environment) (reason : String) (b : Bool) (s : State)
    → s.parked ≡ b
    → Holds (λ _ t. t.parked ≡ b) (park_if env reason b s)
unfolding park_if
park_if-AsTold env reason true s e =
    kept_parked true (park env reason s) (park-IsClosed env reason s).0
park_if-AsTold env reason false s e = e

note_lost_raises :
    (Q : Unit {0} → State → Type 0) (env : Environment) (id : String) (r : Request)
    (outcome : Fields) (e : Stop) (s : State)
    → Holds Q (note_lost env id r outcome e s)
unfolding note_lost
note_lost_raises Q env id r outcome e s =
    Holds-after Q park_here _ s
      λ _ t. Holds-after Q (write (job id) "PUBLICATION-FAILURE.json" _) _ t (λ _ u. tt)

-- The publication of an outcome leaves the controller as the outcome says.
published_AsTold :
    (env : Environment) (id : String) (r : Request) (outcome : Fields) (s : State)
    → Holds AsTold (publish_outcome env id r outcome s)
unfolding publish_outcome park_as_told
published_AsTold env id r outcome s =
    let told = truthy (get_or outcome "park_campaign" null) in
    let as_told : Unit {0} → State → Type 0 = λ _ t. t.parked ≡ told in
    Holds-after AsTold (write (job id) "OUTCOME.json" (obj outcome)) _ s λ _ t.
      Holds-continue as_told AsTold _
        (catch (send_outcome env id r outcome) (note_lost env id r outcome) (set_parked told t))
        (Holds-handle as_told (note_lost env id r outcome)
          (send_outcome env id r outcome (set_parked told t))
          (kept_parked told (send_outcome env id r outcome (set_parked told t))
            (Quiet-send_outcome env id r outcome (set_parked told t)).parked)
          (note_lost_raises as_told env id r outcome))
        λ _ u e.
          Holds-continue as_told AsTold _
            (park_if env (park_reason env (get_or outcome "reason" null)) told u)
            (park_if-AsTold env (park_reason env (get_or outcome "reason" null)) told u e)
            λ _ v f. f

handle_job-AsTold :
    (env : Environment) (id : String) (s : State) → Holds AsTold (handle_job env id s)
unfolding handle_job publish_job
handle_job-AsTold env id s =
    Holds-after AsTold (call env "take" (some id) none none) _ s λ snapshot t.
      Holds-after AsTold (make_job id) _ t λ _ u.
        Holds-after AsTold (try_job env id snapshot) _ u
          λ r v. published_AsTold env id r v.outcome v

next_job-AsTold :
    (env : Environment) (names : List String) (s : State)
    → s.parked ≡ false
    → Holds AsTold (next_job env names s)
unfolding next_job
next_job-AsTold env [] s e =
    Holds-Quiet AsTold false (remaining env) _ s (Quiet-remaining env) e (λ _ t f. f)
next_job-AsTold env (id ∷ rest) s e = handle_job-AsTold env id s

poll-AsTold : (env : Environment) (s : State) → s.parked ≡ false → Holds AsTold (poll env s)
unfolding poll
poll-AsTold env s e =
    Holds-Quiet AsTold false (call env "list" none none none) _ s
      (Quiet-call env "list" none none none refl) e
      λ listing t f.
        Holds-Quiet AsTold false (lift_result (read_queue (get listing "jobs"))) _ t (Quiet-lift _)
          f λ queue u g. next_job-AsTold env queue u g

end_budget-AsTold : (s : State) → Holds AsTold (end_budget s)
unfolding end_budget park_here
end_budget-AsTold s = refl

choose_step-AsTold :
    (env : Environment) (left : ℕ) (s : State)
    → s.parked ≡ false
    → Holds AsTold ((if leb left 30000 then end_budget else poll env) s)
choose_step-AsTold env left s h = elim (Bool-cases (leb left 30000)) [
  | inl e ↦ rw e (end_budget-AsTold s)
  | inr e ↦ rw e (poll-AsTold env s h)
]

try_step-AsTold : (env : Environment) (s : State) → s.parked ≡ false → Holds AsTold (try_step env s)
unfolding try_step
try_step-AsTold env s e =
    Holds-Quiet AsTold false (check_closure env) _ s (Quiet-check_closure env) e λ _ t f.
      Holds-Quiet AsTold false (remaining env) _ t (Quiet-remaining env) f
        λ left u g. choose_step-AsTold env left u g

close_down-AsTold : (env : Environment) (e : Stop) (s : State) → Holds AsTold (close_down env e s)
unfolding close_down
close_down-AsTold env e s =
    let down : Unit {0} → State → Type 0 = λ _ t. t.parked ≡ true in
    Holds-after AsTold (write root "DISPATCH-FAILURE.json" (dispatch_failure env e)) _ s λ _ t.
      Holds-continue down AsTold _ (park env (stop_text env e) t)
        (kept_parked true (park env (stop_text env e) t) (park-IsClosed env (stop_text env e) t).0)
        (λ _ u f. f)

step_unless-AsTold :
    (env : Environment) (b : Bool) (s : State) → s.parked ≡ b → Holds AsTold (step_unless env b s)
unfolding step_unless
step_unless-AsTold env true s e = tt
step_unless-AsTold env false s e =
    Holds-handle AsTold (close_down env) (try_step env s) (try_step-AsTold env s e)
      (close_down-AsTold env)

-- After a step that returns, the controller is parked exactly if the step ended the budget, failed in its
-- dispatch, or handled a job whose outcome says so.
pub step-parks_after :
    (env : Environment) (s t : State) (a : Answer)
    → step env s ≡ (ok a, t)
    → t.parked ≡ parks_after a
unfolding step
step-parks_after env s t a e = subst (Holds AsTold) e (step_unless-AsTold env s.parked s refl)
