-- ===== src/Controller/Grants.antt =====
-- infrastructure/hyperloom/sglang-owner-adapter/controller.py: what an owner needs before it runs.
use arch_linux_threadripper.Prelude.{
  ◌<◌, ◌≡◌, refl, String, Bool, true, false, List, [], ◌∷◌, Result, ok, err, Bool-cases, inl, inr,
  subst, sym, arith, str_eq,
}
use arch_linux_threadripper.Prelude.Assoc.{find}
use arch_linux_threadripper.Json.{Json, Fields}
use arch_linux_threadripper.Exchange.Terms.{Fault}
use arch_linux_threadripper.Exchange.Requests.{Request, Source}
use arch_linux_threadripper.Exchange.Retain.{Private}
use arch_linux_threadripper.Controller.State.{
  Stop, State, Environment, lift_result, demand, continue_with,
}
use arch_linux_threadripper.Controller.Owner.{
  check_closure, is_allowed, read_eligible, needs_screen, check_screen, evaluable, read_candidate,
  authorize, prepare, propose, clear, launch, run_owner,
}
use arch_linux_threadripper.Controller.Changes.{runs, Change, nothing}
use arch_linux_threadripper.Controller.Clearance.{Quiet-clear}
use arch_linux_threadripper.Controller.Parking.{Holds, Holds-continue, Holds-after}

module _ {A : Type 0} where
  -- A value of a result, and a test that did not raise
  Holds-lift :
      (r : Result Fault A) (s : State) → Holds (λ a t. (r ≡ ok a) × (t ≡ s)) (lift_result r s)
  Holds-lift (ok a) s = (refl, refl)
  Holds-lift (err f) s = tt

Holds-demand : (b : Bool) (what : String) (s : State) → Holds (λ _ _. b ≡ true) (demand b what s)
Holds-demand true what s = refl
Holds-demand false what s = tt

-- The kind is in the grant, the one file is the one that a candidate may change, and its set of sources is the
-- selected one or one that a component screen of this campaign made eligible, if it needs that.
abbrev pub IsCandidate : List Source → Type 0
IsCandidate sources = (s : Source) × (sources ≡ s ∷ []) × (str_eq s.name evaluable ≡ true)

pub data IsScreened (env : Environment) (s : State) (r : Request) : Type 0 where
  unneeded : needs_screen env r ≡ false → IsScreened env s r
  kept : read_eligible (find s.components r.source_set) ≡ ok true → IsScreened env s r

pub record IsGranted (env : Environment) (s : State) (r : Request) : Type 0 where
  pub kind : is_allowed env r.kind ≡ true
  pub candidate : IsCandidate r.sources
  pub screen : IsScreened env s r

read_candidate-IsCandidate :
    (sources : List Source) (s : Source) → read_candidate sources ≡ ok s → IsCandidate sources
unfolding read_candidate
read_candidate-IsCandidate [] s e = absurd (cc e)
read_candidate-IsCandidate (a ∷ []) s e = elim (Bool-cases (str_eq a.name evaluable)) [
  | inl h ↦ (a, refl, h)
  | inr h ↦ absurd (cc (h, e))
]
read_candidate-IsCandidate (a ∷ b ∷ rest) s e = absurd (cc e)

Holds-any : {A : Type 0} (Q : Type 0) (r : Result Stop A × State) → Q → Holds (λ _ _. Q) r
Holds-any Q (ok a, t) q = q
Holds-any Q (err e, t) q = tt

check_screen-IsScreened :
    (env : Environment) (r : Request) (s : State)
    → Holds (λ _ _. IsScreened env s r) (check_screen env r s)
unfolding check_screen
check_screen-IsScreened env r s = elim (Bool-cases (needs_screen env r)) [
  | inr h ↦ Holds-any (IsScreened env s r) (check_screen env r s) (unneeded h)
  | inl h ↦ rw h (
      Holds-continue (λ a t. (read_eligible (find s.components r.source_set) ≡ ok a) × (t ≡ s))
        (λ _ _. IsScreened env s r) _
        (lift_result (read_eligible (find s.components r.source_set)) s)
        (Holds-lift (read_eligible (find s.components r.source_set)) s)
        (λ eligible t k. demand_screen eligible t k.0))
]
  where
    demand_screen :
        (eligible : Bool) (t : State)
        → read_eligible (find s.components r.source_set) ≡ ok eligible
        → Holds
            (λ _ _. IsScreened env s r)
            (demand eligible "changed source needs a successful component screen in this campaign"
              t)
    demand_screen true t k = kept k
    demand_screen false t k = tt

abbrev IsAuthorized : Environment → Request → Type 0
IsAuthorized env r = (is_allowed env r.kind ≡ true) × IsCandidate r.sources

authorize-IsAuthorized :
    (env : Environment) (id : String) (r : Request) (proposal : Fields) (s : State)
    → Holds (λ _ _. IsAuthorized env r) (authorize env id r proposal s)
unfolding authorize
authorize-IsAuthorized env id r proposal s =
    Holds-continue (λ _ _. is_allowed env r.kind ≡ true) (λ _ _. IsAuthorized env r) _
      (demand (is_allowed env r.kind) "campaign does not cover this owner kind" s)
      (Holds-demand _ _ s)
      λ _ t k.
        Holds-continue (λ a u. (read_candidate r.sources ≡ ok a) × (u ≡ t))
          (λ _ _. IsAuthorized env r) _ (lift_result (read_candidate r.sources) t)
          (Holds-lift (read_candidate r.sources) t)
          λ a u h. Holds-any (IsAuthorized env r) _ (k, read_candidate-IsCandidate r.sources a h.0)

clear-IsGranted :
    (env : Environment) (id : String) (p : Private) (s : State)
    → Holds (λ _ _. IsGranted env s p.request) (clear env id p s)
unfolding clear check_closure
clear-IsGranted env id p s =
    Holds-continue (λ _ t. t ≡ s) (λ _ _. IsGranted env s p.request) _
      (lift_result (env.closure s.ticks) s) (Holds-state (env.closure s.ticks))
      λ _ t same.
        Holds-continue (λ _ _. IsScreened env s p.request) (λ _ _. IsGranted env s p.request) _
          (check_screen env p.request t)
          (subst (λ u. Holds (λ _ _. IsScreened env s p.request) (check_screen env p.request u))
            (sym same) (check_screen-IsScreened env p.request s))
          λ _ u screened.
            Holds-after (λ _ _. IsGranted env s p.request) (prepare env id p) _ u
              λ preparation v.
                Holds-after (λ _ _. IsGranted env s p.request) (propose env id p preparation) _ v
                  λ proposal w.
                    Holds-continue (λ _ _. IsAuthorized env p.request)
                      (λ _ _. IsGranted env s p.request) _ (authorize env id p.request proposal w)
                      (authorize-IsAuthorized env id p.request proposal w)
                      λ authority x authorized. Holds-any (IsGranted env s p.request) _ (record {
                        kind = authorized.0;
                        candidate = authorized.1;
                        screen = screened;
                      })
  where
    Holds-state : (r : Result Fault (Unit {0})) → Holds (λ _ t. t ≡ s) (lift_result r s)
    Holds-state (ok a) = refl
    Holds-state (err f) = tt

-- An owner runs for a job only if its kind is in the campaign's grant, the one file of the job is the one that a
-- candidate may change, and a changed set of sources, unless the job is its screen, was made eligible before.
pub run_owner-IsGranted :
    (env : Environment) (id : String) (p : Private) (s : State)
    → runs id s.log < runs id (run_owner env id p s).1.log
    → IsGranted env s p.request
unfolding run_owner
run_owner-IsGranted env id p s ran =
    cleared (clear env id p s) (clear-IsGranted env id p s) (Quiet-clear env id p s) ran
  where
    cleared :
        (r : Result Stop (Fields × Json) × State)
        → Holds (λ _ _. IsGranted env s p.request) r
        → Change 0 nothing s r.1
        → runs id s.log < runs id (continue_with (λ c. launch env id p.request c.0 c.1) r).1.log
        → IsGranted env s p.request
    cleared (ok c, t) granted q ran = granted
    cleared (err e, t) granted q ran = absurd (omega (arith, q.run id, ran))
