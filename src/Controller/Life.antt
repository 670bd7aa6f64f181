-- ===== src/Controller/Life.antt =====
-- infrastructure/hyperloom/sglang-owner-adapter/controller.py: what holds of a controller between its
-- operations, through every one of them.
use arch_linux_threadripper.Prelude.{
  ℕ, suc, ◌-◌, ◌<◌, ◌⊎◌, inl, inr, min, ltb, ◌∙◌, sym, Bool-cases, Option, ◌≤◌, ◌≡◌, refl, String,
  Bool, true, false, none, some, if◌then◌else◌, Result, ok, err, arith, subst,
}
use arch_linux_threadripper.Json.{Json, str, obj, field, end, mem_str}
use arch_linux_threadripper.Controller.State.{
  Stop, root, State, Environment, M, ◌>>=◌, continue_with,
}
use arch_linux_threadripper.Controller.Calls.{
  remaining, read_clocks, send, call, handle, catch, publish_terminal, terminal_failure,
  publish_or_note, set_parked, set_attempted, park_unless, park,
}
use arch_linux_threadripper.Controller.Changes.{
  parks, runs, Change, nothing, Does, Quiet, then-Quiet, Quiet-lift, Does-catch, Quiet-write,
  Does-call,
}

abbrev pub mark : Bool → ℕ
mark b = if b then 1 else 0

-- The terminal record was sent at most once, and only if the flag says so; the owner of a job ran at most
-- once, and only if the job has its directory.
pub record Sound (s : State) : Type 0 where
  pub terminal : parks s.log ≤ mark s.terminal_attempted
  pub once : (id : String) → runs id s.log ≤ mark (mem_str id s.jobs)

-- What `remaining` gives at a reading of the clocks
abbrev pub left_at : Environment → ℕ → ℕ
left_at env n = min (env.end_monotonic - (env.clocks n).0) (env.deadline - (env.clocks n).1)

-- The terminal record has been sent, or at some reading of the clocks no more than the ten seconds that a
-- call needs were left.
abbrev pub Told : Environment → State → Type 0
Told env s = (1 ≤ parks s.log) ⊎ ((n : ℕ) × (n < s.ticks) × (left_at env n ≤ 10000))

Told-later :
    (env : Environment) (s t : State)
    → s.ticks ≤ t.ticks
    → parks s.log ≤ parks t.log
    → Told env s
    → Told env t
Told-later env s t a b (inl sent) = inl (omega (arith, b, sent))
Told-later env s t a b (inr (n, early, spent)) = inr (n, omega (arith, a, early), spent)

pub Change-Told :
    (env : Environment) (p : ℕ) (f : String → ℕ) (s t : State)
    → Change p f s t
    → Told env s
    → Told env t
Change-Told env p f s t c h = Told-later env s t c.ticks c.told h

-- One part of the controller's life: the clock goes on, the account stays sound, and if the flag of the
-- terminal record is set only after it was told, it still is.
pub record Kept (env : Environment) (s t : State) : Type 0 where
  pub clock : s.ticks ≤ t.ticks
  pub account : Sound s → Sound t
  pub told : (s.terminal_attempted ≡ true → Told env s) → t.terminal_attempted ≡ true → Told env t

abbrev pub Keeps : {A : Type 0} → Environment → M A → Type 0
Keeps env m = (s : State) → Kept env s (m s).1

pub Kept-refl : {env : Environment} (s : State) → Kept env s s
Kept-refl s = record { clock = omega arith; account = λ h. h; told = λ h. h }

pub Kept-trans : {env : Environment} (s t u : State) → Kept env s t → Kept env t u → Kept env s u
Kept-trans s t u a b = record {
  clock = omega (arith, a.clock, b.clock);
  account = λ h. b.account (a.account h);
  told = λ h. b.told (a.told h);
}

module _ {env : Environment} where
  -- What only changes the fields that no account is kept of
  pub Kept-same :
      (s t : State)
      → t.ticks ≡ s.ticks
      → t.jobs ≡ s.jobs
      → t.terminal_attempted ≡ s.terminal_attempted
      → t.log ≡ s.log
      → Kept env s t
  Kept-same s t a j p l = record {
    clock = omega (arith, a);
    account = λ h. record { terminal = rw (l, p) h.terminal; once = λ id. rw (l, j) (h.once id) };
    told = λ h e. Told-later env s t (omega (arith, a)) (rw l (omega arith)) (h (sym p ∙ e));
  }

  pub Change-Kept : (s t : State) → Change 0 nothing s t → Kept env s t
  Change-Kept s t c = record {
    clock = c.ticks;
    account = λ h. record {
      terminal = rw c.attempted (omega (arith, c.sent, h.terminal));
      once = λ id. rw c.jobs (omega (arith, c.run id, h.once id));
    };
    told = λ h e. Change-Told env 0 nothing s t c (h (sym c.attempted ∙ e));
  }

module _ {A : Type 0} {env : Environment} where
  pub Quiet-Keeps : (m : M A) → Quiet m → Keeps env m
  Quiet-Keeps m q s = Change-Kept s (m s).1 (q s)

  after_handle :
      (h : Stop → M A) (s : State) (r : Result Stop A × State)
      → Kept env s r.1
      → ((e : Stop) → Keeps env (h e))
      → Kept env s (handle h r).1
  after_handle h s (ok a, t) c d = c
  after_handle h s (err e, t) c d = Kept-trans s t (h e t).1 c (d e t)

  pub Keeps-catch :
      (m : M A) (h : Stop → M A)
      → Keeps env m
      → ((e : Stop) → Keeps env (h e))
      → Keeps env (catch m h)
  Keeps-catch m h c d s = after_handle h s (m s) (c s) d

module _ {A B : Type 0} {env : Environment} where
  pub after_continue :
      (k : A → M B) (s : State) (r : Result Stop A × State)
      → Kept env s r.1
      → ((a : A) → Keeps env (k a))
      → Kept env s (continue_with k r).1
  after_continue k s (ok a, t) c d = Kept-trans s t (k a t).1 c (d a t)
  after_continue k s (err e, t) c d = c

  pub Keeps-bind :
      (m : M A) (k : A → M B) → Keeps env m → ((a : A) → Keeps env (k a)) → Keeps env (m >>= k)
  Keeps-bind m k c d s = after_continue k s (m s) (c s) d

  pub Keeps-Quiet :
      (m : M A) (k : A → M B) → Quiet m → ((a : A) → Keeps env (k a)) → Keeps env (m >>= k)
  Keeps-Quiet m k c d = Keeps-bind m k (Quiet-Keeps m c) d

-- The terminal record: one call at most, and nothing else of note
Does-publish_terminal :
    (env : Environment) (reason : String) → Does 1 nothing (publish_terminal env reason)
unfolding publish_terminal
Does-publish_terminal env reason =
    then-Quiet 1 nothing (call env "park" none (some (obj (field "reason" (str reason) end))) none)
      _ (Does-call env "park" none (some (obj (field "reason" (str reason) end))) none)
      λ published. Quiet-write root "TERMINAL-PUBLICATION.json" (obj published)

pub Does-publish_or_note :
    (env : Environment) (reason : String) → Does 1 nothing (publish_or_note env reason)
unfolding publish_or_note
Does-publish_or_note env reason =
    Does-catch 1 nothing (publish_terminal env reason) _ (Does-publish_terminal env reason)
      (λ e. Quiet-write root "TERMINAL-PUBLICATION-FAILURE.json" (terminal_failure env e))

continue-Told :
    {A B : Type 0} (env : Environment) (k : A → M B) (r : Result Stop A × State)
    → ((a : A) → Quiet (k a))
    → Told env r.1
    → Told env (continue_with k r).1
continue-Told env k (ok a, t) q h = Change-Told env 0 nothing t (k a t).1 (q a t) h
continue-Told env k (err e, t) q h = h

handle-Told :
    {A : Type 0} (env : Environment) (k : Stop → M A) (r : Result Stop A × State)
    → ((e : Stop) → Quiet (k e))
    → Told env r.1
    → Told env (handle k r).1
handle-Told env k (ok a, t) q h = h
handle-Told env k (err e, t) q h = Change-Told env 0 nothing t (k e t).1 (q e t) h

-- A call for the terminal record sends it, if the time is there.
call-Told :
    (env : Environment) (payload : Option Json) (s : State)
    → Told env (call env "park" none payload none s).1
unfolding call remaining read_clocks send
call-Told env payload s = elim (Bool-cases (ltb 10000 (left_at env s.ticks))) [
  | inr e ↦ rw e (inr (s.ticks, omega arith, ground arith))
  | inl e ↦
      rw e (
        Change-Told env 0 nothing _ _ (Quiet-lift (env.rpc (suc s.sequence)) _) (inl (omega arith)))
]

publish_or_note-Told :
    (env : Environment) (reason : String) (s : State) → Told env (publish_or_note env reason s).1
unfolding publish_or_note publish_terminal
publish_or_note-Told env reason s =
    handle-Told env _ (publish_terminal env reason s) (λ e. Quiet-write root _ _)
      (continue-Told env _
        (call env "park" none (some (obj (field "reason" (str reason) end))) none s)
        (λ published. Quiet-write root _ _)
        (call-Told env (some (obj (field "reason" (str reason) end))) s))

Keeps-park_unless :
    (env : Environment) (reason : String) (b : Bool) (s : State)
    → s.terminal_attempted ≡ b
    → Kept env s (park_unless env reason b s).1
unfolding park_unless
Keeps-park_unless env reason true s e = Kept-refl s
Keeps-park_unless env reason false s e =
    let c = Does-publish_or_note env reason (set_attempted s) in
    record {
      clock = c.ticks;
      account = λ h. record {
        terminal =
            rw c.attempted (omega (arith, c.sent, subst (λ b. parks s.log ≤ mark b) e h.terminal));
        once = λ id. rw c.jobs (omega (arith, c.run id, h.once id));
      };
      told = λ _ _. publish_or_note-Told env reason (set_attempted s);
    }

pub Keeps-park : (env : Environment) (reason : String) → Keeps env (park env reason)
unfolding park
Keeps-park env reason s =
    Kept-trans s (set_parked true s) (park env reason s).1
      (Kept-same s (set_parked true s) refl refl refl refl)
      (Keeps-park_unless env reason s.terminal_attempted (set_parked true s) refl)
