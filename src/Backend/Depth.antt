-- ===== src/Backend/Depth.antt =====
-- lib/workstation/hyperloom_owner_backend.py: `run` calls itself for the component screen, and
-- that call goes no deeper.
use arch_linux_threadripper.Prelude.{
  inl, inr, ℕ, suc, ◌≡◌, refl, String, Option, none, some, ok, ap, subst,
}
use arch_linux_threadripper.Prelude.Effects.{Effect, continue_with-ext}
use arch_linux_threadripper.Json.{Fields}
use arch_linux_threadripper.Exchange.Terms.{Fault, Codec}
use arch_linux_threadripper.Backend.Samples.{Within}
use arch_linux_threadripper.Backend.Reports.{Binding}
use arch_linux_threadripper.Backend.Screen.{screen_config}
use arch_linux_threadripper.Backend.Runs.{
  Desk, Surroundings, run, run_with, run_begun, screen_first, screen_folder, begin_in, make_folder,
}
use arch_linux_threadripper.Backend.Plan.{IsScreen, screen_config-IsPlan, screen_config_ends}

module _ (c : Codec) (within : Within) (env : Surroundings) (binding : Binding) where
  -- Two ways to run a screen that agree
  screen_first_agrees :
      (again next : Fields → String → Effect Fault Desk Fields) (o : String)
      (wanted : Option Fields) (d : Desk)
      → ((screened : Fields)
          → wanted ≡ some screened
          → (e : Desk) → again screened (screen_folder o) e ≡ next screened (screen_folder o) e)
      → screen_first again o wanted d ≡ screen_first next o wanted d
  unfolding screen_first
  screen_first_agrees again next o none d h = refl
  screen_first_agrees again next o (some screened) d h =
      continue_with-ext _ _ (make_folder (screen_folder o) d) λ u e _. rw (h screened refl e) refl

  run_with_agrees :
      (again next : Fields → String → Effect Fault Desk Fields) (config : Fields) (o : String)
      (d : Desk)
      → ((plan : Option Fields × String) (screened : Fields) (e : Desk)
          → screen_config c (env.at_screen o) config binding ≡ ok plan
          → plan.0 ≡ some screened
          → again screened (screen_folder o) e ≡ next screened (screen_folder o) e)
      → run_with again c within env binding config o d
        ≡ run_with next c within env binding config o d
  unfolding run_with run_begun
  run_with_agrees again next config o d h =
      continue_with-ext _ _ (begin_in c o config binding d) λ u e _.
        continue_with-ext _ _ (screen_config c (env.at_screen o) config binding, e)
          λ plan e found.
            rw
              (screen_first_agrees again next o plan.0 e
                (λ screened is e. h plan screened e (ap (λ q. q.0) found) is))
              refl

  -- A screen runs without another call.
  screen_alone :
      (again next : Fields → String → Effect Fault Desk Fields) (config : Fields) (o : String)
      (d : Desk)
      → IsScreen config
      → run_with again c within env binding config o d
        ≡ run_with next c within env binding config o d
  screen_alone again next config o d i =
      run_with_agrees again next config o d λ plan screened e f is.
        absurd (let ends = screen_config_ends c (env.at_screen o) config binding plan i f in cc)

  -- `run` calls itself at most once, for the component screen: two levels of calls do what any larger
  -- number does, on every configuration and whatever the surroundings are.
  pub run_depth :
      (more : ℕ) (config : Fields) (o : String) (d : Desk)
      → run (suc (suc more)) c within env binding config o d ≡ run 2 c within env binding config o d
  unfolding run
  run_depth more config o d = run_with_agrees _ _ config o d λ plan screened e f is.
      let (kind, _, _, asked) = screen_config-IsPlan c (env.at_screen o) config binding plan f in
      elim asked [
        | inl (nothing, _) ↦ absurd (cc)
        | inr (wanted, e', i) ↦
            screen_alone _ _ screened (screen_folder o) e
              (subst IsScreen {x = wanted} {y = screened} (cc) i)
      ]
