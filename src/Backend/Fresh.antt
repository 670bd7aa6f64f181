-- ===== src/Backend/Fresh.antt =====
-- lib/workstation/hyperloom_owner_backend.py, `_begin` and `run`: an output directory serves one
-- invocation.
use arch_linux_threadripper.Prelude.{
  ℕ, zero, suc, ◌≡◌, refl, String, Bool, true, false, Option, none, some, [], Result, ok, err,
  arith, ap, ◌∙◌, subst, str_eq, eq_iff,
}
use arch_linux_threadripper.Prelude.Effects.{Effect, continue_with}
use arch_linux_threadripper.Prelude.Assoc.{Assoc, find, place, find-place, find-place_self}
use arch_linux_threadripper.Json.{Json, Fields, obj}
use arch_linux_threadripper.Exchange.Terms.{Fault, Codec, too_deep}
use arch_linux_threadripper.Exchange.Requests.{Request}
use arch_linux_threadripper.Exchange.Store.{Bytes, Exchange}
use arch_linux_threadripper.Exchange.Config.{validate_config}
use arch_linux_threadripper.Exchange.Submit.{Submission}
use arch_linux_threadripper.Exchange.Write.{submit}
use arch_linux_threadripper.Backend.Samples.{Within}
use arch_linux_threadripper.Backend.Reports.{Binding}
use arch_linux_threadripper.Backend.Screen.{
  publish_in, begin, is_used, screen_config, screen_gate, is_component, check_expected,
}
use arch_linux_threadripper.Backend.Runs.{
  Desk, Surroundings, lift, with_folder, begin_in, write_to, write_in, make_in, with_exchange,
  submit_from, wait_for, submit_job, finish, make_folder, screen_first, run_with, run_begun, run,
  submission, report_of, report_name, screen_folder,
}
use arch_linux_threadripper.Backend.Begun.{IsBegun, is_used-publish_in, begin_refuses, begin_uses}

module _ (o : String) where
  -- A computation after which a directory that was begun in is still so
  abbrev Keeps : {A : Type 0} → Effect Fault Desk A → Type 0
  Keeps m = (d : Desk) → IsBegun o d → IsBegun o (m d).1

  Keeps-bind :
      {A B : Type 0} (m : Effect Fault Desk A) (k : A → Effect Fault Desk B)
      → Keeps m
      → ((a : A) → Keeps (k a))
      → Keeps (λ d. continue_with k (m d))
  Keeps-bind {A} {B} m k h g d i = after_first (m d) (h d i)
    where
      after_first : (r : Result Fault A × Desk) → IsBegun o r.1 → IsBegun o (continue_with k r).1
      after_first (ok a, d) i = g a d i
      after_first (err f, d) i = i

  Keeps-exchange :
      {A : Type 0} (d : Desk) (m : Result Fault A × Exchange)
      → IsBegun o d
      → IsBegun o (with_exchange d m).1
  Keeps-exchange d (r, x) i = i

  Keeps-folder :
      (p : String) (d : Desk) (r : Result Fault (Assoc Bytes))
      → ((after folder : Assoc Bytes)
          → r ≡ ok after
          → find d.folders p ≡ some folder
          → is_used folder ≡ true
          → is_used after ≡ true)
      → IsBegun o d
      → IsBegun o (with_folder d p r).1
  Keeps-folder p d (err f) h i = i
  Keeps-folder p d (ok after) h (folder, e, used) = at_name (str_eq p o) refl
    where
      at_name :
          (b : Bool) → str_eq p o ≡ b → IsBegun o (record d { folders = place d.folders p after })
      at_name true same =
          let name : p ≡ o = ground (arith, eq_iff p o) in
          (
            after,
            find-place d.folders p o after ∙ rw same refl,
            h after folder refl (ap (find d.folders) name ∙ e) used,
          )
      at_name false other = (folder, find-place d.folders p o after ∙ rw other e, used)

  Keeps-lift : {A : Type 0} (r : Result Fault A) → Keeps (lift r)
  Keeps-lift r d i = i

  module _ (c : Codec) (within : Within) (env : Surroundings) (binding : Binding) where
    Keeps-begin_in : (p : String) (config : Fields) → Keeps (begin_in c p config binding)
    unfolding begin_in
    Keeps-begin_in p config d i =
        Keeps-folder p d (begin c d.exchange.parked config binding (find d.folders p))
          (λ after folder e _ _.
            begin_uses c d.exchange.parked config binding (find d.folders p) after e)
          i

    Keeps-write_in :
        (p name : String) (v : Json) (d : Desk) (output : Option (Assoc Bytes))
        → find d.folders p ≡ output
        → IsBegun o d
        → IsBegun o (write_in c p name v d output).1
    unfolding write_in
    Keeps-write_in p name v d none e i = i
    Keeps-write_in p name v d (some folder) e i =
        Keeps-folder p d (publish_in c name v folder)
          (λ after old f g used.
            let same : old ≡ folder = cc in
            is_used-publish_in c name v folder after f (subst (λ x. is_used x ≡ true) same used))
          i

    Keeps-write_to : (p name : String) (v : Json) → Keeps (write_to c p name v)
    unfolding write_to
    Keeps-write_to p name v d i = Keeps-write_in p name v d (find d.folders p) refl i

    Keeps-make_in :
        (p : String) (d : Desk) (output : Option (Assoc Bytes))
        → find d.folders p ≡ output
        → IsBegun o d
        → IsBegun o (make_in p d output).1
    unfolding make_in
    Keeps-make_in p d (some folder) e i = i
    Keeps-make_in p d none e i = Keeps-folder p d (ok []) (λ after old f g used. absurd (cc)) i

    Keeps-make_folder : (p : String) → Keeps (make_folder p)
    unfolding make_folder
    Keeps-make_folder p d i = Keeps-make_in p d (find d.folders p) refl i

    Keeps-submit_from : (p : String) (s : Submission) → Keeps (submit_from c env p s)
    unfolding submit_from
    Keeps-submit_from p s d i =
        Keeps-exchange d (submit c (env.at_submit p) (env.token p) s d.exchange) i

    Keeps-wait_for : (p : String) (r : Request) → Keeps (wait_for env p r)
    unfolding wait_for
    Keeps-wait_for p r d i = Keeps-exchange d (env.wait p r d.exchange) i

    Keeps-submit_job :
        (p : String) (config : Fields) (expected : Option String)
        → Keeps (submit_job c env p config binding expected)
    unfolding submit_job
    Keeps-submit_job p config expected =
        Keeps-bind (lift (validate_config config binding.bound)) _
          (Keeps-lift (validate_config config binding.bound))
          λ kind.
            Keeps-bind (lift (check_expected c (env.at_check p) binding expected)) _
              (Keeps-lift (check_expected c (env.at_check p) binding expected))
              λ _.
                Keeps-bind
                  (submit_from c env p (submission config binding kind expected (env.clock p))) _
                  (Keeps-submit_from p _)
                  λ r.
                    Keeps-bind (write_to c p "OWNER-JOB.json" (obj r.document)) _
                      (Keeps-write_to p _ _) λ _ d i. i

    Keeps-finish :
        (p : String) (result : Fields) (r : Request) → Keeps (finish c within result r p binding)
    unfolding finish
    Keeps-finish p result r =
        Keeps-bind (write_to c p "OWNER-RESULT.json" (obj result)) _ (Keeps-write_to p _ _) λ _.
          Keeps-bind (lift (report_of (is_component r.kind) c within result r binding)) _
            (Keeps-lift (report_of (is_component r.kind) c within result r binding))
            λ report.
              Keeps-bind (write_to c p (report_name (is_component r.kind)) (obj report)) _
                (Keeps-write_to p _ _) λ _ d i. i

    Keeps-screen_first :
        (again : Fields → String → Effect Fault Desk Fields) (p : String) (wanted : Option Fields)
        → ((config : Fields) (q : String) → Keeps (again config q))
        → Keeps (screen_first again p wanted)
    unfolding screen_first
    Keeps-screen_first again p none h = λ d i. i
    Keeps-screen_first again p (some screened) h =
        Keeps-bind (make_folder (screen_folder p)) _ (Keeps-make_folder (screen_folder p)) λ _.
          Keeps-bind (again screened (screen_folder p)) _ (h screened (screen_folder p))
            λ report. Keeps-lift (screen_gate report)

    Keeps-run_begun :
        (again : Fields → String → Effect Fault Desk Fields) (config : Fields) (p : String)
        → ((config : Fields) (q : String) → Keeps (again config q))
        → Keeps (run_begun again c within env binding config p)
    unfolding run_begun
    Keeps-run_begun again config p h =
        Keeps-bind (lift (screen_config c (env.at_screen p) config binding)) _
          (Keeps-lift (screen_config c (env.at_screen p) config binding))
          λ plan.
            Keeps-bind (screen_first again p plan.0) _ (Keeps-screen_first again p plan.0 h) λ _.
              Keeps-bind (submit_job c env p config binding (some plan.1)) _
                (Keeps-submit_job p config (some plan.1))
                λ r.
                  Keeps-bind (wait_for env p r) _ (Keeps-wait_for p r)
                    λ result. Keeps-finish p result r

    Keeps-run :
        (depth : ℕ) (config : Fields) (p : String) → Keeps (run depth c within env binding config p)
    unfolding run run_with
    Keeps-run zero config p = λ d i. i
    Keeps-run (suc depth) config p =
        Keeps-bind (begin_in c p config binding) _ (Keeps-begin_in p config)
          λ _. Keeps-run_begun (run depth c within env binding) config p (Keeps-run depth)

-- A run refuses a directory that was begun in, and changes nothing.
run_refuses :
    (depth : ℕ) (c : Codec) (within : Within) (env : Surroundings) (binding : Binding)
    (config : Fields) (o : String) (d : Desk)
    → IsBegun o d
    → (f : Fault) × (run depth c within env binding config o d ≡ (err f, d))
unfolding run run_with begin_in
run_refuses zero c within env binding config o d i = (too_deep, refl)
run_refuses (suc depth) c within env binding config o d (folder, e, used) =
    let (f, refused) = begin_refuses c d.exchange.parked config binding folder used in
    (f, rw (e, refused) refl)

begin_in-IsBegun :
    (c : Codec) (o : String) (config : Fields) (binding : Binding) (d started : Desk) (u : Unit {0})
    → begin_in c o config binding d ≡ (ok u, started)
    → IsBegun o started
unfolding begin_in
begin_in-IsBegun c o config binding d started u h =
    placed (begin c d.exchange.parked config binding (find d.folders o)) refl h
  where
    placed :
        (r : Result Fault (Assoc Bytes))
        → begin c d.exchange.parked config binding (find d.folders o) ≡ r
        → with_folder d o r ≡ (ok u, started)
        → IsBegun o started
    placed (err f) e h = absurd (cc)
    placed (ok after) e h = subst (IsBegun o) (ap (λ m. m.1) h) (
      after,
      find-place_self d.folders o after,
      begin_uses c d.exchange.parked config binding (find d.folders o) after e,
    )

-- An output directory serves one invocation. Once `_begin` has gone through there, whatever becomes of
-- the run, every later run in that directory raises and changes nothing: neither another job nor another
-- file comes of it.
pub run_once :
    (depth more : ℕ) (c : Codec) (within : Within) (env later : Surroundings) (binding : Binding)
    (config next : Fields) (o : String) (d started : Desk)
    → begin_in c o config binding d ≡ (ok tt, started)
    → let after = (run (suc depth) c within env binding config o d).1 in
      (f : Fault) × (run more c within later binding next o after ≡ (err f, after))
unfolding run run_with
run_once depth more c within env later binding config next o d started h =
    let begun = begin_in-IsBegun c o config binding d started tt h in
    let kept =
      Keeps-run_begun o c within env binding (run depth c within env binding) config o
        (Keeps-run o c within env binding depth) started begun in
    run_refuses more c within later binding next o _ (rw h kept)
