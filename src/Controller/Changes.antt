-- ===== src/Controller/Changes.antt =====
-- infrastructure/hyperloom/sglang-owner-adapter/controller.py: what a computation of the controller may
-- add to what has left it, with the rules for the computations' parts.
use arch_linux_threadripper.Prelude.{
  ℕ, suc, ◌+◌, ◌≤◌, ◌≡◌, refl, String, Bool, true, false, Option, List, [], ◌∷◌, if◌then◌else◌,
  Result, ok, err, str_eq, arith, ◌∙◌, ltb, Bool-cases, inl, inr,
}
use arch_linux_threadripper.Json.{Json}
use arch_linux_threadripper.Exchange.Terms.{Fault}
use arch_linux_threadripper.Controller.State.{
  Stop, Place, Event, called, executed, State, Environment, M, ◌>>=◌, return, lift_result, demand,
  write, continue_with, is_written,
}
use arch_linux_threadripper.Controller.Calls.{read_clocks, remaining, send, call, handle, catch}

-- How often the terminal record has been sent, and an owner run for a job.
abbrev pub parks : List Event → ℕ
parks [] = 0
parks (called _ action _ _ _ ∷ rest) = if str_eq action "park" then suc (parks rest) else parks rest
parks (executed _ ∷ rest) = parks rest

abbrev pub runs : String → List Event → ℕ
runs id [] = 0
runs id (called _ _ _ _ _ ∷ rest) = runs id rest
runs id (executed k ∷ rest) = if str_eq k id then suc (runs id rest) else runs id rest

-- The clock goes on, no job is added, nothing parks, no terminal record is taken back, at most p terminal records are sent, and each job is run at most as
-- often as `more` says.
pub record Change (p : ℕ) (more : String → ℕ) (s t : State) : Type 0 where
  pub ticks : s.ticks ≤ t.ticks
  pub jobs : t.jobs ≡ s.jobs
  pub parked : t.parked ≡ s.parked
  pub attempted : t.terminal_attempted ≡ s.terminal_attempted
  pub sent : parks t.log ≤ p + parks s.log
  pub told : parks s.log ≤ parks t.log
  pub run : (id : String) → runs id t.log ≤ more id + runs id s.log

abbrev pub nothing : String → ℕ
nothing id = 0

abbrev pub Does : {A : Type 0} → ℕ → (String → ℕ) → M A → Type 0
Does p more m = (s : State) → Change p more s (m s).1

abbrev pub Quiet : {A : Type 0} → M A → Type 0
Quiet m = Does 0 nothing m

pub Change-refl : (s : State) → Change 0 nothing s s
Change-refl s = record {
  ticks = omega arith;
  jobs = refl;
  parked = refl;
  attempted = refl;
  sent = omega arith;
  told = omega arith;
  run = λ id. omega arith;
}

pub Change-trans :
    (p q : ℕ) (f g : String → ℕ) (s t u : State)
    → Change p f s t
    → Change q g t u
    → Change (p + q) (λ id. f id + g id) s u
Change-trans p q f g s t u c d = record {
  ticks = omega (arith, c.ticks, d.ticks);
  jobs = d.jobs ∙ c.jobs;
  parked = d.parked ∙ c.parked;
  attempted = d.attempted ∙ c.attempted;
  sent = omega (arith, c.sent, d.sent);
  told = omega (arith, c.told, d.told);
  run = λ id. omega (arith, c.run id, d.run id);
}

-- A larger allowance.
pub Change-weaken :
    (p q : ℕ) (f g : String → ℕ) (s t : State)
    → p ≤ q
    → ((id : String) → f id ≤ g id)
    → Change p f s t
    → Change q g s t
Change-weaken p q f g s t h k c = record {
  ticks = c.ticks;
  jobs = c.jobs;
  parked = c.parked;
  attempted = c.attempted;
  sent = omega (arith, c.sent);
  told = c.told;
  run = λ id. omega (arith, c.run id, k id);
}

module _ {A B : Type 0} where
  after_continue :
      (p q : ℕ) (f g : String → ℕ) (k : A → M B) (s : State) (r : Result Stop A × State)
      → Change p f s r.1
      → ((a : A) → Does q g (k a))
      → Change (p + q) (λ id. f id + g id) s (continue_with k r).1
  after_continue p q f g k s (ok a, t) c d = Change-trans p q f g s t (k a t).1 c (d a t)
  after_continue p q f g k s (err e, t) c d =
      Change-weaken p (p + q) f (λ id. f id + g id) s t (omega arith) (λ id. omega arith) c

  pub Does-bind :
      (p q : ℕ) (f g : String → ℕ) (m : M A) (k : A → M B)
      → Does p f m
      → ((a : A) → Does q g (k a))
      → Does (p + q) (λ id. f id + g id) (m >>= k)
  Does-bind p q f g m k c d s = after_continue p q f g k s (m s) (c s) d

  -- Two quiet parts, and a quiet part before or after one that is not.
  pub Quiet-bind : (m : M A) (k : A → M B) → Quiet m → ((a : A) → Quiet (k a)) → Quiet (m >>= k)
  Quiet-bind m k c d s =
      Change-weaken 0 0 (λ id. 0 + 0) nothing s ((m >>= k) s).1 (omega arith) (λ id. omega arith)
        (Does-bind 0 0 nothing nothing m k c d s)

  pub Quiet-then :
      (p : ℕ) (f : String → ℕ) (m : M A) (k : A → M B)
      → Quiet m
      → ((a : A) → Does p f (k a))
      → Does p f (m >>= k)
  Quiet-then p f m k c d s =
      Change-weaken (0 + p) p (λ id. 0 + f id) f s ((m >>= k) s).1 (omega arith) (λ id. omega arith)
        (Does-bind 0 p nothing f m k c d s)

  pub then-Quiet :
      (p : ℕ) (f : String → ℕ) (m : M A) (k : A → M B)
      → Does p f m
      → ((a : A) → Quiet (k a))
      → Does p f (m >>= k)
  then-Quiet p f m k c d s =
      Change-weaken (p + 0) p (λ id. f id + 0) f s ((m >>= k) s).1 (omega arith) (λ id. omega arith)
        (Does-bind p 0 f nothing m k c d s)

module _ {A : Type 0} where
  after_handle :
      (p : ℕ) (f : String → ℕ) (h : Stop → M A) (s : State) (r : Result Stop A × State)
      → Change p f s r.1
      → ((e : Stop) → Quiet (h e))
      → Change p f s (handle h r).1
  after_handle p f h s (ok a, t) c d = c
  after_handle p f h s (err e, t) c d =
      Change-weaken (p + 0) p (λ id. f id + 0) f s (h e t).1 (omega arith) (λ id. omega arith)
        (Change-trans p 0 f nothing s t (h e t).1 c (d e t))

  -- An exception handler that is quiet.
  pub Does-catch :
      (p : ℕ) (f : String → ℕ) (m : M A) (h : Stop → M A)
      → Does p f m
      → ((e : Stop) → Quiet (h e))
      → Does p f (catch m h)
  Does-catch p f m h c d s = after_handle p f h s (m s) (c s) d

  pub Quiet-return : (a : A) → Quiet (return a)
  Quiet-return a s = Change-refl s

  pub Quiet-lift : (r : Result Fault A) → Quiet (lift_result r)
  Quiet-lift (ok a) s = Change-refl s
  Quiet-lift (err f) s = Change-refl s

pub Quiet-demand : (b : Bool) (what : String) → Quiet (demand b what)
Quiet-demand true what s = Change-refl s
Quiet-demand false what s = Change-refl s

pub Quiet-write : (place : Place) (name : String) (value : Json) → Quiet (write place name value)
unfolding write
Quiet-write place name value s = elim (Bool-cases (is_written place name s.files)) [
  | inl e ↦ rw e (Change-refl s)
  | inr e ↦ rw e (record {
    ticks = omega arith;
    jobs = refl;
    parked = refl;
    attempted = refl;
    sent = omega arith;
    told = omega arith;
    run = λ id. omega arith;
  })
]

pub Quiet-clocks : (env : Environment) → Quiet (read_clocks env)
unfolding read_clocks
Quiet-clocks env s = record {
  ticks = omega arith;
  jobs = refl;
  parked = refl;
  attempted = refl;
  sent = omega arith;
  told = omega arith;
  run = λ id. omega arith;
}

pub Quiet-remaining : (env : Environment) → Quiet (remaining env)
unfolding remaining
Quiet-remaining env = Quiet-bind (read_clocks env) _ (Quiet-clocks env) (λ now s. Change-refl s)

-- A call sends what it is told to send.
abbrev pub park_calls : String → ℕ
park_calls action = if str_eq action "park" then 1 else 0

Does-send :
    (action : String) (id : Option String) (payload : Option Json) (deadline : ℕ)
    → Does (park_calls action) nothing (send action id payload deadline)
unfolding send
Does-send action id payload deadline s = record {
  ticks = omega arith;
  jobs = refl;
  parked = refl;
  attempted = refl;
  sent = ground arith;
  told = ground arith;
  run = λ id. omega arith;
}

pub Does-call :
    (env : Environment) (action : String) (id : Option String) (payload : Option Json)
    (expires : Option ℕ)
    → Does (park_calls action) nothing (call env action id payload expires)
unfolding call
Does-call env action id payload expires =
    Quiet-then (park_calls action) nothing (remaining env) _ (Quiet-remaining env) λ left.
      Quiet-then (park_calls action) nothing
        (demand (ltb 10000 left) "campaign has no remaining transport budget") _ (Quiet-demand _ _)
        λ _. Quiet-then (park_calls action) nothing (read_clocks env) _ (Quiet-clocks env) λ now.
          Quiet-then (park_calls action) nothing (remaining env) _ (Quiet-remaining env) λ later.
            then-Quiet (park_calls action) nothing _ _ (Does-send action id payload _)
              λ number. Quiet-lift (env.rpc number)
