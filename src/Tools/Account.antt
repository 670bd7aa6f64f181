-- ===== src/Tools/Account.antt =====
-- apps/base/shared-api/service_tools.py: the account of the generations that were submitted, and the parts of
-- an image request that leave it alone.
use arch_linux_threadripper.Prelude.{
  ℕ, zero, suc, ◌≡◌, refl, sym, subst, ◌∙◌, String, Bool, true, false, Option, none, some, List, [],
  ◌∷◌, Result, ok, err,
}
use arch_linux_threadripper.Json.{Json, null, obj, end, get_or, is_true}
use arch_linux_threadripper.Tools.State.{
  Failure, Event, sent, submitted, cleared, Tools, Response, Environment, M, ◌>>=◌, continue_with,
  lift_result, note, next_await, as_dictionary, item,
}
use arch_linux_threadripper.Tools.Upstream.{
  receive, decode, check_status, read_answer, upstream_json, at_swarm, is_idle, poll_again,
  poll_idle, poll_if, interrupt, join,
}
use arch_linux_threadripper.Tools.Requests.{check_mode, check_artifact, check_png}
use arch_linux_threadripper.Tools.Image.{set_session, open_session, fetch_artifact}

abbrev pub submissions : List Event → List (String × Json)
submissions [] = []
submissions (submitted prompt size ∷ log) = (prompt, size) ∷ submissions log
submissions (sent _ _ _ _ ∷ log) = submissions log
submissions (cleared ∷ log) = submissions log

abbrev pub clears : List Event → ℕ
clears [] = 0
clears (cleared ∷ log) = suc (clears log)
clears (sent _ _ _ _ ∷ log) = clears log
clears (submitted _ _ ∷ log) = clears log

pub record Account : Type 0 where
  pub busy : Bool
  pub marker : Bool
  pub orders : List (String × Json)
  pub done : ℕ
  pub retrievals : ℕ

abbrev pub account : Tools → Account
account s = record {
  busy = s.busy;
  marker = s.marker;
  orders = submissions s.log;
  done = clears s.log;
  retrievals = s.retrievals;
}

abbrev pub Quiet : {A : Type 0} → M A → Type 0
Quiet m = (s : Tools) → account (m s).1 ≡ account s

-- From one predicate of the account to another, whether the computation raises or not
abbrev pub Leads : {A : Type 0} → (Account → Type 0) → (Account → Type 0) → M A → Type 0
Leads P Q m = (s : Tools) → P (account s) → Q (account (m s).1)

module _ {A B : Type 0} where
  Quiet-continue :
      (k : A → M B) (s : Tools) (r : Result Failure A × Tools)
      → account r.1 ≡ account s
      → ((a : A) → Quiet (k a))
      → account (continue_with k r).1 ≡ account s
  Quiet-continue k s (ok a, t) e q = q a t ∙ e
  Quiet-continue k s (err f, t) e q = e

  pub Quiet-bind : (m : M A) (k : A → M B) → Quiet m → ((a : A) → Quiet (k a)) → Quiet (m >>= k)
  Quiet-bind m k q c s = Quiet-continue k s (m s) (q s) c

module _ {A B : Type 0} (P Q : Account → Type 0) where
  Leads-continue :
      (k : A → M B) (r : Result Failure A × Tools)
      → P (account r.1)
      → (P (account r.1) → Q (account r.1))
      → ((a : A) → Leads P Q (k a))
      → Q (account (continue_with k r).1)
  Leads-continue k (ok a, t) p f c = c a t p
  Leads-continue k (err e, t) p f c = f p

  -- A quiet part comes first, or what comes later is kept.
  pub Quiet-Leads :
      (m : M A) (k : A → M B)
      → ((a : Account) → P a → Q a)
      → Quiet m
      → ((a : A) → Leads P Q (k a))
      → Leads P Q (m >>= k)
  Quiet-Leads m k f q c s p = Leads-continue k (m s) (subst P (sym (q s)) p) (f (account (m s).1)) c

module _ {A B : Type 0} (P Q : Account → Type 0) where
  pub Leads-bind :
      (m : M A) (k : A → M B) → Leads P Q m → ((a : A) → Leads Q Q (k a)) → Leads P Q (m >>= k)
  Leads-bind m k c d s p = Leads-continue Q Q k (m s) (c s p) (λ q. q) d

pub Leads-Quiet : {A : Type 0} (Q : Account → Type 0) (m : M A) → Quiet m → Leads Q Q m
Leads-Quiet Q m q s p = subst Q (sym (q s)) p

pub Quiet-lift : {A : Type 0} (r : Result Failure A) → Quiet (lift_result r)
Quiet-lift r s = refl

pub Quiet-sent :
    (method url : String) (auth : Option String) (body : Option Json)
    → Quiet (note (sent method url auth body))
Quiet-sent method url auth body s = refl

pub Quiet-next_await : Quiet next_await
Quiet-next_await s = refl

pub lift-first :
    {A B : Type 0} (r : Result Failure A) (k : A → M B)
    → ((a : A) → Quiet (k a))
    → Quiet (lift_result r >>= k)
lift-first (ok a) k c s = c a s
lift-first (err f) k c s = refl

pub Quiet-read_answer : (env : Environment) (response : Response) → Quiet (read_answer env response)
unfolding read_answer
Quiet-read_answer env response = lift-first (check_status response.status) _ λ _.
    lift-first (receive 2097152 "upstream_response_too_large" response.parts []) _
      λ raw. Quiet-lift (decode env raw)

pub Quiet-upstream_json :
    (env : Environment) (method url : String) (auth : Option String) (body : Option Json)
    → Quiet (upstream_json env method url auth body)
unfolding upstream_json
Quiet-upstream_json env method url auth body s =
    lift-first (env.upstream s.awaits) (read_answer env) (Quiet-read_answer env)
      (record s { awaits = suc s.awaits; log = sent method url auth body ∷ s.log })

Quiet-poll_again :
    (env : Environment) (later : M Bool) (b : Bool) → Quiet later → Quiet (poll_again env later b)
unfolding poll_again
Quiet-poll_again env later true q s = refl
Quiet-poll_again env later false q s =
    lift-first (env.sleep s.awaits) (λ _. later) (λ _. q) (record s { awaits = suc s.awaits })

Quiet-poll_idle :
    (rounds : ℕ) (env : Environment) (session : Json) → Quiet (poll_idle rounds env session)
unfolding poll_idle
Quiet-poll_idle zero env session s = refl
Quiet-poll_idle (suc rounds) env session s =
    Quiet-bind (upstream_json env "POST" (at_swarm env "/API/GetCurrentStatus") none _) _
      (Quiet-upstream_json env _ _ _ _)
      (λ status. lift-first (as_dictionary status) _ (λ d.
        lift-first (as_dictionary (get_or d "status" status)) _ (λ counts.
          Quiet-poll_again env (poll_idle rounds env session) (is_idle counts)
            (Quiet-poll_idle rounds env session))))
      s

Quiet-poll_if : (env : Environment) (session : Json) (b : Bool) → Quiet (poll_if env session b)
unfolding poll_if
Quiet-poll_if env session true = Quiet-poll_idle 10 env session
Quiet-poll_if env session false = λ s. refl

pub Quiet-interrupt : (env : Environment) (session : Json) → Quiet (interrupt env session)
unfolding interrupt
Quiet-interrupt env session =
    Quiet-bind (upstream_json env "POST" (at_swarm env "/API/InterruptAll") none _) _
      (Quiet-upstream_json env _ _ _ _)
      λ result.
        lift-first (as_dictionary result) _
          λ d. Quiet-poll_if env session (is_true (get_or d "success" null))

Quiet-set_session : (v : Option Json) → Quiet (set_session v)
unfolding set_session
Quiet-set_session v s = refl

pub Quiet-open_session : (env : Environment) → Quiet (open_session env)
unfolding open_session
Quiet-open_session env =
    Quiet-bind (upstream_json env "GET" (join env.gateway "/_service/status") none none) _
      (Quiet-upstream_json env _ _ _ _)
      λ state. lift-first (as_dictionary state) _ λ d. lift-first (check_mode env d) _ λ _.
        Quiet-bind
          (upstream_json env "POST" (at_swarm env "/API/GetNewSession") none (some (obj end))) _
          (Quiet-upstream_json env _ _ _ _)
          λ answer. lift-first (item answer "session_id") _ λ session.
            Quiet-bind (set_session (some session)) _ (Quiet-set_session (some session))
              (λ _ s. refl)

pub Quiet-fetch_artifact : (env : Environment) (path : String) → Quiet (fetch_artifact env path)
unfolding fetch_artifact
Quiet-fetch_artifact env path s =
    lift-first (env.upstream s.awaits) _
      (λ response. lift-first (check_artifact response) _ (λ _.
        lift-first (receive 8388608 "image_artifact_too_large" response.parts []) _
          (λ raw. lift-first (check_png raw) _ (λ _ t. refl))))
      (record s {
        awaits = suc s.awaits;
        log = sent "GET" (join (at_swarm env "/") path) none none ∷ s.log;
      })
