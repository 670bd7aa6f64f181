-- ===== src/Tools/Paid.antt =====
-- apps/base/shared-api/service_tools.py, `image`: the marker is taken away only by a request that answers with
-- its image.
use arch_linux_threadripper.Prelude.{
  ℕ, ◌+◌, ◌≤◌, ◌≡◌, refl, sym, subst, String, Bool, true, false, Option, none, some, List, ◌∷◌,
  if◌then◌else◌, Result, ok, err, arith, ◌==◌, Bool-cases, inl, inr, ◌||◌,
}
use arch_linux_threadripper.Json.{Json, Fields, truthy}
use arch_linux_threadripper.Tools.State.{
  Failure, sent, submitted, Tools, Environment, ◌>>=◌, lift_result,
}
use arch_linux_threadripper.Tools.Upstream.{at_swarm, interrupt}
use arch_linux_threadripper.Tools.Requests.{Call, dimensions, fill_workflow, generation, read_call}
use arch_linux_threadripper.Tools.Image.{
  place_unless, place_marker, await_task, submit, fetch_result, open_session, make_image,
  is_expected, after_interrupt, interrupt_if, is_killed, close_unless, close_generation, generate,
  release, take_unless, take_order, answer, reply_to, Reply, image,
}
use arch_linux_threadripper.Tools.Account.{
  clears, Account, account, Leads, Quiet-Leads, Leads-bind, Leads-Quiet, Quiet-interrupt,
  Quiet-open_session,
}
use arch_linux_threadripper.Tools.Settled.{lift-Leads, Quiet-await_task, Quiet-fetch_result}

-- The marker has been taken away this often.
abbrev HasDone : ℕ → Account → Type 0
HasDone n a = a.done ≡ n

module _ (env : Environment) (shown : Fields → String) (n : ℕ) where
  submit-HasDone :
      (session : Json) (prompt : String) (size : Json)
      → Leads (HasDone n) (HasDone n) (submit env shown session prompt size)
  unfolding submit
  submit-HasDone session prompt size =
      lift-Leads (HasDone n) (HasDone n) (dimensions size) _ (λ a h. h)
        λ dims.
          lift-Leads (HasDone n) (HasDone n) (fill_workflow env prompt dims) _ (λ a h. h)
            λ workflow s h.
              Leads-Quiet (HasDone n) (await_task env s.awaits) (Quiet-await_task env s.awaits)
                (record s {
                  awaits = ℕ.suc s.awaits;
                  log =
                      sent "POST" (at_swarm env "/API/GenerateText2Image") none
                        (some (generation env shown session prompt dims workflow))
                      ∷ submitted prompt size
                      ∷ s.log;
                })
                h

  place_unless-HasDone : (b : Bool) → Leads (HasDone n) (HasDone n) (place_unless env b)
  unfolding place_unless
  place_unless-HasDone true s h = h
  place_unless-HasDone false s h = h

  place_marker-HasDone : Leads (HasDone n) (HasDone n) (place_marker env)
  unfolding place_marker
  place_marker-HasDone s h = place_unless-HasDone s.marker s h

  make_image-HasDone :
      (prompt : String) (size : Json)
      → Leads (HasDone n) (HasDone n) (make_image env shown prompt size)
  unfolding make_image
  make_image-HasDone prompt size =
      Quiet-Leads (HasDone n) (HasDone n) (open_session env) _ (λ a h. h) (Quiet-open_session env)
        λ session.
          lift-Leads (HasDone n) (HasDone n) env.directory _ (λ a h. h)
            λ _. Leads-bind (HasDone n) (HasDone n) (place_marker env) _ place_marker-HasDone λ _.
              Leads-bind (HasDone n) (HasDone n) (submit env shown session prompt size) _
                (submit-HasDone session prompt size)
                λ result.
                  Leads-Quiet (HasDone n) (fetch_result env result) (Quiet-fetch_result env result)

-- One removal for an image, and none for a failure
abbrev pub paid : {A : Type 0} → Result Failure A → ℕ
paid (ok _) = 1
paid (err _) = 0

abbrev IsPaid : {A : Type 0} → ℕ → Result Failure A × Tools → Type 0
IsPaid n (r, s) = clears s.log ≤ n + paid r

interrupted_IsPaid :
    (e : Failure) (n : ℕ) (r : Result Failure Bool × Tools)
    → clears r.1.log ≡ n
    → IsPaid n (after_interrupt e r)
interrupted_IsPaid e n (ok b, s) h = omega (arith, h)
interrupted_IsPaid e n (err f, s) h = elim (Bool-cases (is_expected f)) [
  | inl x ↦ rw x (omega (arith, h))
  | inr x ↦ rw x (omega (arith, h))
]

interrupt_if-IsPaid :
    (env : Environment) (e : Failure) (b : Bool) (session : Json) (n : ℕ) (s : Tools)
    → clears s.log ≡ n
    → IsPaid n (interrupt_if env e b session s)
unfolding interrupt_if
interrupt_if-IsPaid env e true session n s h =
    interrupted_IsPaid e n (interrupt env session s)
      (subst (λ a. a.done ≡ n) {x = account s} (sym (Quiet-interrupt env session s)) h)
interrupt_if-IsPaid env e false session n s h = omega (arith, h)

close_unless-IsPaid :
    (env : Environment) (e : Failure) (b : Bool) (session : Option Json) (n : ℕ) (s : Tools)
    → clears s.log ≡ n
    → IsPaid n (close_unless env e b session s)
unfolding close_unless
close_unless-IsPaid env e true session n s h = omega (arith, h)
close_unless-IsPaid env e false none n s h = omega (arith, h)
close_unless-IsPaid env e false (some session) n s h =
    interrupt_if-IsPaid env e (truthy session) session n s h

close_generation-IsPaid :
    (env : Environment) (n : ℕ) (r : Result Failure (List ℕ) × Tools)
    → clears r.1.log ≡ n
    → IsPaid n (close_generation env r)
unfolding close_generation
close_generation-IsPaid env n (ok raw, s) h = omega (arith, h)
close_generation-IsPaid env n (err e, s) h = close_unless-IsPaid env e (is_killed e) s.session n s h

release-IsPaid : (n : ℕ) (r : Result Failure (List ℕ) × Tools) → IsPaid n r → IsPaid n (release r)
unfolding release
release-IsPaid n (ok raw, s) h = h
release-IsPaid n (err e, s) h = elim (Bool-cases (is_killed e)) [ inl x ↦ rw x h | inr x ↦ rw x h ]

module _ (env : Environment) (shown : Fields → String) where
  generate-IsPaid :
      (prompt : String) (size : Json) (s : Tools)
      → IsPaid (clears s.log) (generate env shown prompt size s)
  unfolding generate
  generate-IsPaid prompt size s =
      close_generation-IsPaid env (clears s.log)
        (make_image env shown prompt size (record s { session = none }))
        (make_image-HasDone env shown (clears s.log) prompt size (record s { session = none }) refl)

  take_unless-IsPaid :
      (order : String × Json) (b : Bool) (s : Tools)
      → IsPaid (clears s.log) (take_unless env shown order b s)
  unfolding take_unless
  take_unless-IsPaid order true s = omega arith
  take_unless-IsPaid order false s =
      release-IsPaid (clears s.log) (generate env shown order.0 order.1 (record s { busy = true }))
        (generate-IsPaid order.0 order.1 (record s { busy = true }))

  ordered_IsPaid :
      (r : Result Failure (String × Json)) (s : Tools)
      → IsPaid (clears s.log) ((lift_result r >>= take_order env shown) s)
  unfolding take_order
  ordered_IsPaid (ok order) s = take_unless-IsPaid order (s.busy || s.marker) s
  ordered_IsPaid (err e) s = omega arith

  answer-IsPaid : (call : Call) (s : Tools) → IsPaid (clears s.log) (answer env shown call s)
  unfolding answer
  answer-IsPaid call s = ordered_IsPaid (read_call env call) s

-- Whether the response is the image
abbrev pub images : Result Failure Reply → ℕ
images (ok reply) = if reply.status == 200 then 1 else 0
images (err _) = 0

-- A request that has its image is answered with it.
images-reply_to :
    (env : Environment) (r : Result Failure (List ℕ)) → paid r ≤ images (reply_to env r)
unfolding reply_to
images-reply_to env (ok raw) = omega arith
images-reply_to env (err e) = omega arith

pub clears-image :
    (env : Environment) (shown : Fields → String) (call : Call) (s : Tools)
    → clears (image env shown call s).1.log ≤ clears s.log + images (image env shown call s).0
unfolding image
clears-image env shown call s =
    omega (arith, answer-IsPaid env shown call s, images-reply_to env (answer env shown call s).0)
