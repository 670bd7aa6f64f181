-- ===== src/Tools/Settled.antt =====
-- apps/base/shared-api/service_tools.py, `generate`: its parts keep the account of the generations settled.
use arch_linux_threadripper.Prelude.{
  ℕ, suc, ◌+◌, ◌≤◌, ◌≡◌, refl, sym, subst, String, Bool, true, false, Option, none, some, List, ◌∷◌,
  if◌then◌else◌, Result, ok, err, length, arith, All, Bool-cases, inl, inr,
}
use arch_linux_threadripper.Prelude.Text.{codes}
use arch_linux_threadripper.Json.{Json, arr, nil, Fields, get_or, truthy}
use arch_linux_threadripper.Tools.State.{
  Failure, sent, submitted, Tools, Environment, M, ◌>>=◌, continue_with, lift_result, as_dictionary,
}
use arch_linux_threadripper.Tools.Upstream.{at_swarm, interrupt}
use arch_linux_threadripper.Tools.Requests.{
  has_text, dimensions, fill_workflow, generation, only_path, check_path,
}
use arch_linux_threadripper.Tools.Image.{
  place_unless, place_marker, watch_caller, await_task, submit, fetch_result, open_session,
  make_image, is_expected, after_interrupt, interrupt_if, is_killed, close_unless, close_generation,
  generate,
}
use arch_linux_threadripper.Tools.Account.{
  submissions, clears, Account, account, Quiet, Leads, Quiet-Leads, Leads-bind, Leads-Quiet,
  lift-first, Quiet-read_answer, Quiet-interrupt, Quiet-open_session, Quiet-fetch_artifact,
}

abbrev pub mark : Bool → ℕ
mark b = if b then 1 else 0

-- What may be submitted: a prompt of 1 to 2,000 characters without the start of a macro.
abbrev pub IsOrder : String × Json → Type 0
IsOrder (prompt, size) =
    (1 ≤ length (codes prompt)) × (length (codes prompt) ≤ 2000) × (has_text "${" prompt ≡ false)

-- Of the generations that were submitted, at most one, whose marker is there, has neither been completed nor
-- been recovered from.
pub record IsSettled (a : Account) : Type 0 where
  pub few : length a.orders ≤ a.done + mark a.marker
  pub fine : All IsOrder a.orders

-- The marker is there, and nothing was submitted under it.
pub record HasRoom (a : Account) : Type 0 where
  pub marker : a.marker ≡ true
  pub room : length a.orders ≤ a.done
  pub fine : All IsOrder a.orders

pub HasRoom-IsSettled : (a : Account) → HasRoom a → IsSettled a
HasRoom-IsSettled a h = record { few = omega (arith, h.room); fine = h.fine }

pub submitted-IsSettled :
    (order : String × Json) (a : Account)
    → IsOrder order
    → HasRoom a
    → IsSettled (record a { orders = order ∷ a.orders })
submitted-IsSettled order a good h = record {
  few = rw h.marker (omega (arith, h.room));
  fine = (good, h.fine);
}

module _ {A B : Type 0} (P Q : Account → Type 0) where
  pub lift-Leads :
      (r : Result Failure A) (k : A → M B)
      → ((a : Account) → P a → Q a)
      → ((a : A) → Leads P Q (k a))
      → Leads P Q (lift_result r >>= k)
  lift-Leads (ok a) k f c s p = c a s p
  lift-Leads (err e) k f c s p = f (account s) p

pub Quiet-await_task : (env : Environment) (n : ℕ) → Quiet (await_task env n)
unfolding await_task
Quiet-await_task env n =
    lift-first (watch_caller env.watch) _
      λ _. lift-first (env.upstream n) _ λ response. Quiet-read_answer env response

pub submit-IsSettled :
    (env : Environment) (shown : Fields → String) (session : Json) (order : String × Json)
    → IsOrder order
    → Leads HasRoom IsSettled (submit env shown session order.0 order.1)
unfolding submit
submit-IsSettled env shown session (prompt, size) good =
    lift-Leads HasRoom IsSettled (dimensions size) _ HasRoom-IsSettled λ dims.
      lift-Leads HasRoom IsSettled (fill_workflow env prompt dims) _ HasRoom-IsSettled
        λ workflow s room.
          Leads-Quiet IsSettled (await_task env s.awaits) (Quiet-await_task env s.awaits)
            (record s {
              awaits = suc s.awaits;
              log =
                  sent "POST" (at_swarm env "/API/GenerateText2Image") none
                    (some (generation env shown session prompt dims workflow))
                  ∷ submitted prompt size
                  ∷ s.log;
            })
            (submitted-IsSettled (prompt, size) (account s) good room)

module _ {B : Type 0} where
  pub after_store :
      (k : Unit {0} → M B) (r : Result Failure (Unit {0})) (t : Tools)
      → HasRoom (account t)
      → ((a : Unit {0}) → Leads HasRoom IsSettled (k a))
      → IsSettled (account (continue_with k (r, t)).1)
  after_store k (ok a) t room c = c a t room
  after_store k (err e) t room c = HasRoom-IsSettled (account t) room

  pub placed_unless :
      (env : Environment) (k : Unit {0} → M B) (b : Bool) (s : Tools)
      → s.marker ≡ b
      → ((a : Unit {0}) → Leads HasRoom IsSettled (k a))
      → IsSettled (account s)
      → IsSettled (account (continue_with k (place_unless env b s)).1)
  unfolding place_unless
  placed_unless env k true s e c h = h
  placed_unless env k false s e c h =
      after_store k env.store (record s { marker = true })
        (record {
          marker = refl;
          room =
              omega
                (arith, subst (λ b. length (submissions s.log) ≤ clears s.log + mark b) e h.few);
          fine = h.fine;
        })
        c

  pub place_marker-Leads :
      (env : Environment) (k : Unit {0} → M B)
      → ((a : Unit {0}) → Leads HasRoom IsSettled (k a))
      → Leads IsSettled IsSettled (place_marker env >>= k)
  unfolding place_marker
  place_marker-Leads env k c s h = placed_unless env k s.marker s refl c h

pub Quiet-fetch_result : (env : Environment) (result : Json) → Quiet (fetch_result env result)
unfolding fetch_result
Quiet-fetch_result env result = lift-first (as_dictionary result) _ λ d.
    lift-first (only_path (get_or d "images" (arr nil))) _
      λ path. lift-first (check_path env path) _ λ checked. Quiet-fetch_artifact env checked

pub make_image-IsSettled :
    (env : Environment) (shown : Fields → String) (order : String × Json)
    → IsOrder order
    → Leads IsSettled IsSettled (make_image env shown order.0 order.1)
unfolding make_image
make_image-IsSettled env shown order good =
    Quiet-Leads IsSettled IsSettled (open_session env) _ (λ a h. h) (Quiet-open_session env)
      λ session.
        lift-Leads IsSettled IsSettled env.directory _ (λ a h. h)
          λ _. place_marker-Leads env _ λ _.
            Leads-bind HasRoom IsSettled (submit env shown session order.0 order.1) _
              (submit-IsSettled env shown session order good)
              λ result.
                Leads-Quiet IsSettled (fetch_result env result) (Quiet-fetch_result env result)

pub interrupted_IsSettled :
    (e : Failure) (a : Account) (r : Result Failure Bool × Tools)
    → account r.1 ≡ a
    → IsSettled a
    → IsSettled (account (after_interrupt e r).1)
interrupted_IsSettled e a (ok b, s) same h = subst IsSettled (sym same) h
interrupted_IsSettled e a (err f, s) same h = elim (Bool-cases (is_expected f)) [
  | inl x ↦ rw x (subst IsSettled (sym same) h)
  | inr x ↦ rw x (subst IsSettled (sym same) h)
]

pub interrupt_if-IsSettled :
    (env : Environment) (e : Failure) (b : Bool) (session : Json) (s : Tools)
    → IsSettled (account s)
    → IsSettled (account (interrupt_if env e b session s).1)
unfolding interrupt_if
interrupt_if-IsSettled env e true session s h =
    interrupted_IsSettled e (account s) (interrupt env session s) (Quiet-interrupt env session s) h
interrupt_if-IsSettled env e false session s h = h

pub close_unless-IsSettled :
    (env : Environment) (e : Failure) (b : Bool) (session : Option Json) (s : Tools)
    → IsSettled (account s)
    → IsSettled (account (close_unless env e b session s).1)
unfolding close_unless
close_unless-IsSettled env e true session s h = h
close_unless-IsSettled env e false none s h = h
close_unless-IsSettled env e false (some session) s h =
    interrupt_if-IsSettled env e (truthy session) session s h

pub mark_bound : (b : Bool) → mark b ≤ 1
mark_bound true = omega arith
mark_bound false = omega arith

pub close_generation-IsSettled :
    (env : Environment) (r : Result Failure (List ℕ) × Tools)
    → IsSettled (account r.1)
    → IsSettled (account (close_generation env r).1)
unfolding close_generation
close_generation-IsSettled env (ok raw, s) h = record {
  few = omega (arith, h.few, mark_bound s.marker);
  fine = h.fine;
}
close_generation-IsSettled env (err e, s) h =
    close_unless-IsSettled env e (is_killed e) s.session s h

pub generate-IsSettled :
    (env : Environment) (shown : Fields → String) (order : String × Json)
    → IsOrder order
    → Leads IsSettled IsSettled (generate env shown order.0 order.1)
unfolding generate
generate-IsSettled env shown order good s h =
    close_generation-IsSettled env
      (make_image env shown order.0 order.1 (record s { session = none }))
      (make_image-IsSettled env shown order good (record s { session = none }) h)

pub set_busy-IsSettled : (b : Bool) (a : Account) → IsSettled a → IsSettled (record a { busy = b })
set_busy-IsSettled b a h = record { few = h.few; fine = h.fine }
