-- ===== src/Backend/Provenance.antt =====
-- lib/workstation/hyperloom_owner_backend.py, `run`: what a report that is returned rests on.
use arch_linux_threadripper.Prelude.{
  ◌⊎◌, inl, inr, ℕ, zero, suc, ◌≡◌, String, true, ◌||◌, Option, some, ok, arith, ap, ◌∙◌, str_eq,
  subst,
}
use arch_linux_threadripper.Prelude.Effects.{Effect, continued}
use arch_linux_threadripper.Json.{bool, obj, Fields, get}
use arch_linux_threadripper.Exchange.Terms.{Fault, Codec, component}
use arch_linux_threadripper.Exchange.Requests.{Request}
use arch_linux_threadripper.Exchange.Store.{Exchange}
use arch_linux_threadripper.Backend.Samples.{Within}
use arch_linux_threadripper.Backend.Reports.{Binding, item}
use arch_linux_threadripper.Backend.Evidence.{
  IsComponentReport, validate_component-IsComponentReport, eligible_flags,
}
use arch_linux_threadripper.Backend.Screen.{source_set, screen_config, screen_gate, is_component}
use arch_linux_threadripper.Backend.Runs.{
  Desk, Surroundings, run, run_with, run_begun, screen_first, screen_folder, begin_in, make_folder,
  submit_job, write_to, wait_for, finish, report_of, report_name,
}
use arch_linux_threadripper.Backend.Plan.{IsScreen, screen_config-IsPlan, screen-component}
use arch_linux_threadripper.Backend.Posted.{
  IsJob, left_exchange, submit_job-IsJob, Stored, write_to-Stored,
}

-- A result that the wait has returned for a job from this state of the exchange, and the report in it
pub record IsAnswer (c : Codec) (within : Within) (env : Surroundings) (o : String)
    (binding : Binding) (r : Request) (meanwhile : Exchange) (report : Fields) : Type 0 where
  pub result : Fields
  pub answered : (env.wait o r meanwhile).0 ≡ ok result
  pub checked : report_of (is_component r.kind) c within result r binding ≡ ok report

module _ (c : Codec) (within : Within) (env : Surroundings) (binding : Binding) where
  finish_checks :
      (result report : Fields) (r : Request) (o : String) (d after : Desk)
      → finish c within result r o binding d ≡ (ok report, after)
      → report_of (is_component r.kind) c within result r binding ≡ ok report
  unfolding finish
  finish_checks result report r o d after h =
      let (u, d₁, e₁, h) = continued _ (write_to c o "OWNER-RESULT.json" (obj result) d) h in
      let (found, d₂, e₂, h) =
        continued _ (report_of (is_component r.kind) c within result r binding, d₁) h in
      let (v, d₃, e₃, h) =
        continued _ (write_to c o (report_name (is_component r.kind)) (obj found) d₂) h in
      let same : found ≡ report = cc in ap (λ m. m.0) e₂ ∙ ap ok same

  wait_answers :
      (o : String) (r : Request) (d after : Desk) (result : Fields)
      → wait_for env o r d ≡ (ok result, after)
      → (env.wait o r d.exchange).0 ≡ ok result
  unfolding wait_for
  wait_answers o r d after result h =
      ap (λ m. m.0) (left_exchange d after (env.wait o r d.exchange) result h)

  finish-Stored :
      (result report : Fields) (r : Request) (o : String) (d after : Desk)
      → finish c within result r o binding d ≡ (ok report, after)
      → Stored c o (report_name (is_component r.kind)) (obj report) after
  unfolding finish
  finish-Stored result report r o d after h =
      let (u, d₁, e₁, h) = continued _ (write_to c o "OWNER-RESULT.json" (obj result) d) h in
      let (found, d₂, e₂, h) =
        continued _ (report_of (is_component r.kind) c within result r binding, d₁) h in
      let (v, d₃, e₃, h) =
        continued _ (write_to c o (report_name (is_component r.kind)) (obj found) d₂) h in
      let same : found ≡ report = cc in
      let last : d₃ ≡ after = cc in
      subst (λ f. Stored c o (report_name (is_component r.kind)) (obj f) after) same
        (subst (Stored c o (report_name (is_component r.kind)) (obj found)) last
          (write_to-Stored c o _ (obj found) d₂ d₃ v e₃))

  -- A job that was submitted from one state of the desk, its answer from the state that this has led to,
  -- and its report in the output directory at the end
  pub record IsServed (config : Fields) (o current : String) (before after : Desk) (report : Fields)
      : Type 0 where
    pub request : Request
    pub posted : Desk
    pub submitted : submit_job c env o config binding (some current) before ≡ (ok request, posted)
    pub job : IsJob c env o config binding current request
    pub answer : IsAnswer c within env o binding request posted.exchange report
    pub stored : Stored c o (report_name (is_component request.kind)) (obj report) after

  -- One level of `run`: a job and its answer, after the screen
  run_with-IsAnswer :
      (again : Fields → String → Effect Fault Desk Fields) (config : Fields) (o : String)
      (d after : Desk) (report : Fields)
      → run_with again c within env binding config o d ≡ (ok report, after)
      → (plan : Option Fields × String) × (screen_config c (env.at_screen o) config binding
          ≡ ok plan)
        × (before : Desk) × ((e : Desk) × (screen_first again o plan.0 e ≡ (ok tt, before)))
        × IsServed config o plan.1 before after report
  unfolding run_with run_begun
  run_with-IsAnswer again config o d after report h =
      let (u, d₁, e₁, h) = continued _ (begin_in c o config binding d) h in
      let (plan, d₂, e₂, h) =
        continued _ (screen_config c (env.at_screen o) config binding, d₁) h in
      let (v, d₃, e₃, h) = continued _ (screen_first again o plan.0 d₂) h in
      let (r, d₄, e₄, h) = continued _ (submit_job c env o config binding (some plan.1) d₃) h in
      let (result, d₅, e₅, h) = continued _ (wait_for env o r d₄) h in
      (
        plan,
        ap (λ m. m.0) e₂,
        d₃,
        (d₂, e₃),
        record {
          request = r;
          posted = d₄;
          submitted = e₄;
          job = submit_job-IsJob c env o config binding plan.1 d₃ d₄ r e₄;
          answer = record {
            result = result;
            answered = wait_answers o r d₄ d₅ result e₅;
            checked = finish_checks result report r o d₅ after h;
          };
          stored = finish-Stored result report r o d₅ after h;
        },
      )

  -- A component screen that has let a job through: the state of the desk after it holds its report.
  pub record IsScreened (o : String) (before : Desk) : Type 0 where
    pub config : Fields
    pub report : Fields
    pub screened : String
    pub read : source_set c (env.at_screen (screen_folder o)) binding ≡ ok screened
    pub begun : Desk
    pub served : IsServed config (screen_folder o) screened begun before report
    pub kind : served.request.kind ≡ component
    pub correct : get report "correct_both_cards" ≡ some (bool true)
    pub useful : get report "useful_both_cards" ≡ some (bool true)
    pub zero_prefix : get report "zero_prefix_no_regression" ≡ some (bool true)

  gate_passed :
      (report : Fields) (u : Unit {0})
      → screen_gate report ≡ ok u
      → get report "eligible_for_serving" ≡ some (bool true)
  unfolding screen_gate item
  gate_passed report u h = ground arith

  run_answers :
      (depth : ℕ) (config : Fields) (o : String) (d after : Desk) (report : Fields)
      → run depth c within env binding config o d ≡ (ok report, after)
      → (current : String) × (source_set c (env.at_screen o) binding ≡ ok current)
        × (before : Desk) × IsServed config o current before after report
  unfolding run
  run_answers zero config o d after report h = absurd (cc)
  run_answers (suc depth) config o d after report h =
      let (plan, e, before, _, served) =
        run_with-IsAnswer (run depth c within env binding) config o d after report h in
      let (_, _, read, _) = screen_config-IsPlan c (env.at_screen o) config binding plan e in
      (plan.1, read, before, served)

  component_checked :
      (result report : Fields) (r : Request)
      → r.kind ≡ component
      → report_of (is_component r.kind) c within result r binding ≡ ok report
      → IsComponentReport c result r binding report
  unfolding report_of
  component_checked result report r e h =
      validate_component-IsComponentReport c result report r binding
        (subst (λ k. report_of (is_component k) c within result r binding ≡ ok report) e h)

  screen_passed :
      (depth : ℕ) (o : String) (screened : Fields) (d after : Desk)
      → IsScreen screened
      → screen_first (run depth c within env binding) o (some screened) d ≡ (ok tt, after)
      → IsScreened o after
  unfolding screen_first
  screen_passed depth o screened d after i h =
      let (u, d₁, e₁, h) = continued _ (make_folder (screen_folder o) d) h in
      let (report, d₂, e₂, h) =
        continued _ (run depth c within env binding screened (screen_folder o) d₁) h in
      let (current, read, begun, served) =
        run_answers depth screened (screen_folder o) d₁ d₂ report e₂ in
      let kind =
        screen-component screened binding.bound served.request.kind i served.job.configured in
      let (correct, useful, zero_prefix) =
        eligible_flags c served.answer.result report served.request binding
          (component_checked served.answer.result report served.request kind served.answer.checked)
          (gate_passed report tt (ap (λ m. m.0) h)) in
      subst (IsScreened o) (ap (λ m. m.1) h) (record {
        config = screened;
        report = report;
        screened = current;
        read = read;
        begun = begun;
        served = served;
        kind = kind;
        correct = correct;
        useful = useful;
        zero_prefix = zero_prefix;
      })

  pub run_provenance :
      (depth : ℕ) (config : Fields) (o : String) (d after : Desk) (report : Fields)
      → run depth c within env binding config o d ≡ (ok report, after)
      → (current : String) × (source_set c (env.at_screen o) binding ≡ ok current)
        × (before : Desk) × (served : IsServed config o current before after report)
        × (((is_component served.request.kind || str_eq current binding.selected_source_set) ≡ true)
            ⊎ IsScreened o before)
  unfolding run
  run_provenance zero config o d after report h = absurd (cc)
  run_provenance (suc depth) config o d after report h =
      let (plan, e, before, (d₁, screen), served) =
        run_with-IsAnswer (run depth c within env binding) config o d after report h in
      let (kind, f, read, asked) = screen_config-IsPlan c (env.at_screen o) config binding plan e in
      let same : kind ≡ served.request.kind = let g = served.job.configured in cc in
      (
        plan.1,
        read,
        before,
        served,
        elim asked [
          | inl (nothing, no_screen) ↦ inl (
              subst (λ k. (is_component k || str_eq plan.1 binding.selected_source_set) ≡ true) same
                no_screen)
          | inr (screened, wanted, i) ↦ inr (
              screen_passed depth o screened d₁ before i (
                subst (λ w. screen_first (run depth c within env binding) o w d₁ ≡ (ok tt, before))
                  wanted screen))
        ],
      )
