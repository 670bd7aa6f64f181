-- ===== src/Backend/Waiting.antt =====
-- lib/workstation/hyperloom_owner_backend.py, `run` with the `wait_result` of hyperloom_exchange.py: what
-- the exchange's own wait hands to the backend.
use arch_linux_threadripper.Prelude.{
  ◌⊎◌, inl, inr, ℕ, ◌≡◌, refl, String, Bool, true, false, Option, none, some, List, Result, ok, err,
  ap, sym, ◌∙◌, ◌≢◌,
}
use arch_linux_threadripper.Prelude.Assoc.{find, place}
use arch_linux_threadripper.Json.{Fields}
use arch_linux_threadripper.Exchange.Terms.{Fault, refused, Codec}
use arch_linux_threadripper.Exchange.Requests.{Request}
use arch_linux_threadripper.Exchange.Store.{Job, Exchange}
use arch_linux_threadripper.Exchange.Replies.{IsResult}
use arch_linux_threadripper.Exchange.Wait.{
  Look, Roots, wait_state, wait_checked, wait_result, settle_wait, give_up, wait_loop,
  wait_loop-IsResult, cancel_wait,
}
use arch_linux_threadripper.Backend.Samples.{Within}
use arch_linux_threadripper.Backend.Reports.{Binding}
use arch_linux_threadripper.Backend.Screen.{source_set, is_component}
use arch_linux_threadripper.Backend.Runs.{Desk, Surroundings, run, report_of}
use arch_linux_threadripper.Backend.Evidence.{
  IsComponentReport, validate_component-IsComponentReport,
}
use arch_linux_threadripper.Backend.Accepted.{IsReport, validate_report-IsReport}
use arch_linux_threadripper.Backend.Posted.{IsJob}
use arch_linux_threadripper.Backend.Provenance.{run_provenance}

-- The job's directory after a wait
abbrev pub waited : Exchange → String → Result Fault Fields × Job → Result Fault Fields × Exchange
waited x id (outcome, job) = (outcome, record x { jobs = place x.jobs id job })

unfoldable pub wait_at :
    Codec
    → String
    → Roots
    → List Look
    → Request
    → Exchange
    → Option Job
    → Result Fault Fields × Exchange
wait_at c controller roots looks r x none =
    (err (refused "canonical exchange directory required"), x)
wait_at c controller roots looks r x (some job) =
    waited x r.id (wait_result c r controller roots looks job)

-- `wait=exchange.wait_result`, for what its turns find at each output directory
unfoldable pub wait_in :
    Codec
    → String
    → Roots
    → (String → List Look)
    → String
    → Request
    → Exchange
    → Result Fault Fields × Exchange
wait_in c controller roots looks o r x = wait_at c controller roots (looks o) r x (find x.jobs r.id)

settled-IsResult :
    (c : Codec) (r : Request) (controller : String) (looks : List Look) (job : Job)
    (m : Result Fault Fields) (d : Fields)
    → wait_loop c r controller looks ≡ m
    → (settle_wait c r job m).0 ≡ ok d
    → IsResult c r controller d
unfolding settle_wait give_up
settled-IsResult c r controller looks job (ok found) d e h =
    wait_loop-IsResult c r controller looks d (e ∙ h)
settled-IsResult c r controller looks job (err f) d e h =
    absurd (never_given (cancel_wait c r f job) h)
  where
    never_given : (after : Result Fault Job) → (give_up f job after).0 ≢ ok d
    never_given (ok after) h = cc
    never_given (err g) h = cc

checked-IsResult :
    (c : Codec) (r : Request) (controller : String) (looks : List Look) (job : Job)
    (checked : Result Fault (Unit {0})) (d : Fields)
    → (wait_checked c r controller looks job checked).0 ≡ ok d
    → IsResult c r controller d
unfolding wait_checked
checked-IsResult c r controller looks job (err f) d h = absurd (cc)
checked-IsResult c r controller looks job (ok u) d h =
    settled-IsResult c r controller looks job (wait_loop c r controller looks) d refl h

wait_at-IsResult :
    (c : Codec) (controller : String) (roots : Roots) (looks : List Look) (r : Request)
    (x : Exchange) (job : Option Job) (d : Fields)
    → (wait_at c controller roots looks r x job).0 ≡ ok d
    → IsResult c r controller d
unfolding wait_at wait_result
wait_at-IsResult c controller roots looks r x none d h = absurd (cc)
wait_at-IsResult c controller roots looks r x (some job) d h =
    checked-IsResult c r controller looks job (wait_state roots) d h

-- The report that is returned, with all that it rests on
pub record IsAuthenticated (c : Codec) (within : Within) (binding : Binding) (r : Request)
    (report : Fields) : Type 0 where
  pub result : Fields
  pub own : IsResult c r binding.bound.controller result
  pub checked :
      ((is_component r.kind ≡ true) × IsComponentReport c result r binding report)
      ⊎ ((is_component r.kind ≡ false) × IsReport within result r binding report)

checked-IsReport :
    (c : Codec) (within : Within) (result report : Fields) (r : Request) (binding : Binding)
    (b : Bool)
    → is_component r.kind ≡ b
    → report_of b c within result r binding ≡ ok report
    → ((is_component r.kind ≡ true) × IsComponentReport c result r binding report)
      ⊎ ((is_component r.kind ≡ false) × IsReport within result r binding report)
unfolding report_of
checked-IsReport c within result report r binding true e h =
    inl (e, validate_component-IsComponentReport c result report r binding h)
checked-IsReport c within result report r binding false e h =
    inr (e, validate_report-IsReport within result report r binding h)

-- With the wait of the exchange, a report that `run` returns is authenticated from end to end: its job
-- was submitted for the configuration with the sources that were read; the result that carries it is one
-- of that request and of the bound controller; and it is a component report (`IsComponentReport`) for a
-- component job, and a benchmark report (`IsReport`) for any other, carried by that result and bound to
-- it, to the request and to the binding as these records say.
pub run-IsAuthenticated :
    (c : Codec) (within : Within) (env : Surroundings) (binding : Binding) (roots : Roots)
    (looks : String → List Look) (depth : ℕ) (config : Fields) (o : String) (d after : Desk)
    (report : Fields)
    → env.wait ≡ wait_in c binding.bound.controller roots looks
    → run depth c within env binding config o d ≡ (ok report, after)
    → (current : String) × (source_set c (env.at_screen o) binding ≡ ok current)
      × (r : Request) × IsJob c env o config binding current r
      × IsAuthenticated c within binding r report
unfolding wait_in
run-IsAuthenticated c within env binding roots looks depth config o d after report same h =
    let (current, read, before, served, _) =
      run_provenance c within env binding depth config o d after report h in
    let r = served.request in
    let meanwhile = served.posted.exchange in
    let answer = served.answer in
    (
      current,
      read,
      r,
      served.job,
      record {
        result = answer.result;
        own =
            wait_at-IsResult c binding.bound.controller roots (looks o) r meanwhile
              (find meanwhile.jobs r.id) answer.result
              (ap
                  (λ (w : String → Request → Exchange → Result Fault Fields × Exchange).
                    (w o r meanwhile).0)
                  (sym same)
                ∙ answer.answered);
        checked =
            checked-IsReport c within answer.result report r binding (is_component r.kind) refl
              answer.checked;
      },
    )
