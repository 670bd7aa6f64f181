-- ===== src/Controller/Serving.antt =====
-- infrastructure/hyperloom/sglang-owner-adapter/controller.py, `Controller.serve`: the whole service.
use arch_linux_threadripper.Prelude.{
  ℕ, zero, suc, ◌+◌, ◌≤◌, ◌<◌, ◌≡◌, refl, String, Bool, true, false, Option, none, some, Result, ok,
  err, arith, Bool-cases, inl, inr, subst, leb, ltb, is_some,
}
use arch_linux_threadripper.Json.{mem_str}
use arch_linux_threadripper.Controller.State.{Stop, State, Environment, initial}
use arch_linux_threadripper.Controller.Calls.{remaining, read_clocks}
use arch_linux_threadripper.Controller.Step.{
  serve_unless, serve_while, serve_once, go_on, serve_loop, close_serving, finish, finish_if, serve,
}
use arch_linux_threadripper.Controller.Changes.{parks, runs}
use arch_linux_threadripper.Controller.Life.{mark, left_at, Sound, Kept, Kept-trans}
use arch_linux_threadripper.Controller.Turns.{
  Keeps-serve_while, Keeps-serve_once, Keeps-close_serving,
}

-- Whatever the loop ends with was kept.
abbrev pub Ends : Environment → State → Option (Result Stop (Unit {0}) × State) → Type 0
Ends env s none = Unit {0}
Ends env s (some o) = Kept env s o.1

Ends-later :
    {env : Environment} (s t : State) (r : Option (Result Stop (Unit {0}) × State))
    → Kept env s t
    → Ends env t r
    → Ends env s r
Ends-later s t none c d = tt
Ends-later s t (some o) c d = Kept-trans s t o.1 c d

Ends-go_on :
    {env : Environment} (later : State → Option (Result Stop (Unit {0}) × State)) (s : State)
    (r : Result Stop Bool × State)
    → Kept env s r.1
    → ((t : State) → Ends env t (later t))
    → Ends env s (go_on later r)
unfolding go_on
Ends-go_on later s (ok true, t) c d = Ends-later s t (later t) c (d t)
Ends-go_on later s (ok false, t) c d = c
Ends-go_on later s (err f, t) c d = c

Ends-serve_loop : (fuel : ℕ) (env : Environment) (s : State) → Ends env s (serve_loop fuel env s)
unfolding serve_loop
Ends-serve_loop zero env s = tt
Ends-serve_loop (suc fuel) env s =
    Ends-go_on (serve_loop fuel env) s (serve_once env s) (Keeps-serve_once env s)
      (Ends-serve_loop fuel env)

Kept-finish :
    (env : Environment) (s : State) (r : Result Stop (Unit {0}) × State)
    → Kept env s r.1
    → Kept env s (finish env r).1
unfolding finish
Kept-finish env s (outcome, t) c =
    Kept-trans s t (close_serving env t).1 c (Keeps-close_serving env t)

Ends-finish_if :
    (env : Environment) (s : State) (r : Option (Result Stop (Unit {0}) × State))
    → Ends env s r
    → Ends env s (finish_if env r)
unfolding finish_if
Ends-finish_if env s none d = tt
Ends-finish_if env s (some r) d = Kept-finish env s r d

pub Ends-serve : (fuel : ℕ) (env : Environment) (s : State) → Ends env s (serve fuel env s)
unfolding serve
Ends-serve fuel env s = Ends-finish_if env s (serve_loop fuel env s) (Ends-serve_loop fuel env s)

initial-Sound : Sound initial
initial-Sound = record { terminal = omega arith; once = λ id. omega arith }

mark_bound : (b : Bool) → mark b ≤ 1
mark_bound true = omega arith
mark_bound false = omega arith

-- A controller that has served from its start, however long and whatever its surroundings answered, has sent
-- the exchange's terminal record at most once and run the owner of each job at most once.
pub serve_once_only :
    (fuel : ℕ) (env : Environment) (outcome : Result Stop (Unit {0}) × State) (id : String)
    → serve fuel env initial ≡ some outcome
    → (parks outcome.1.log ≤ 1) × (runs id outcome.1.log ≤ 1)
serve_once_only fuel env outcome id e =
    let sound = (subst (Ends env initial) e (Ends-serve fuel env initial)).account initial-Sound in
    (
      omega (arith, sound.terminal, mark_bound outcome.1.terminal_attempted),
      omega (arith, sound.once id, mark_bound (mem_str id outcome.1.jobs)),
    )

abbrev goes_on : Result Stop Bool → Bool
goes_on (ok b) = b
goes_on (err e) = false

-- A pass of the loop that goes on has read the clocks, and there was time left.
serve_unless_progress :
    (env : Environment) (b : Bool) (s : State)
    → goes_on (serve_unless env b s).0 ≡ true
    → (s.ticks < (serve_unless env b s).1.ticks) × (30000 < left_at env s.ticks)
unfolding serve_unless remaining read_clocks serve_while
serve_unless_progress env true s h = cc
serve_unless_progress env false s h = elim (Bool-cases (ltb 30000 (left_at env s.ticks))) [
  | inl e ↦ (
    omega (
      arith,
      (Keeps-serve_while env (ltb 30000 (left_at env s.ticks))
          (record s { ticks = suc s.ticks })).clock,
    ),
    ground arith,
  )
  | inr e ↦ absurd (
      cc (subst (λ b. goes_on (serve_while env b (record s { ticks = suc s.ticks })).0 ≡ true) e h))
]

is_some-go_on :
    (later : State → Option (Result Stop (Unit {0}) × State)) (r : Result Stop Bool × State)
    → (goes_on r.0 ≡ true → is_some (later r.1) ≡ true)
    → is_some (go_on later r) ≡ true
unfolding go_on
is_some-go_on later (ok true, s) h = h refl
is_some-go_on later (ok false, s) h = refl
is_some-go_on later (err e, s) h = refl

-- The fuel that is left, with the readings that were made, is enough.
module _ (env : Environment) (last : ℕ)
    (spent : (n : ℕ) → last ≤ n → env.deadline ≤ (env.clocks n).1) where
  in_time : (n : ℕ) → 30000 < left_at env n → n < last
  in_time n h = elim (Bool-cases (leb last n)) [
    | inl e ↦ omega (arith, h, spent n (ground arith))
    | inr e ↦ ground arith
  ]

  serve_loop-ends :
      (fuel : ℕ) (s : State) → last ≤ fuel + s.ticks → is_some (serve_loop (suc fuel) env s) ≡ true
  unfolding serve_loop serve_once
  serve_loop-ends zero s h = is_some-go_on (serve_loop zero env) (serve_once env s) λ again.
      let p = serve_unless_progress env s.parked s again in
      absurd (omega (arith, h, in_time s.ticks p.1))
  serve_loop-ends (suc fuel) s h =
      is_some-go_on (serve_loop (suc fuel) env) (serve_once env s) λ again.
        serve_loop-ends fuel (serve_once env s).1
          (omega (arith, h, (serve_unless_progress env s.parked s again).0))

is_some-finish_if :
    (env : Environment) (r : Option (Result Stop (Unit {0}) × State))
    → is_some r ≡ true
    → is_some (finish_if env r) ≡ true
unfolding finish_if
is_some-finish_if env none h = cc
is_some-finish_if env (some r) h = refl

-- If the campaign's deadline has passed at every reading of the clocks from the reading `last` on, the service
-- ends, from any state: fuel for more than `last` passes of the loop is enough.
pub serve_ends :
    (env : Environment) (last fuel : ℕ) (s : State)
    → ((n : ℕ) → last ≤ n → env.deadline ≤ (env.clocks n).1)
    → last < fuel
    → is_some (serve fuel env s) ≡ true
unfolding serve
serve_ends env last zero s spent h = absurd (omega (arith, h))
serve_ends env last (suc fuel) s spent h =
    is_some-finish_if env (serve_loop (suc fuel) env s)
      (serve_loop-ends env last spent fuel s (omega (arith, h)))
