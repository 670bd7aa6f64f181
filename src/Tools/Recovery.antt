-- ===== src/Tools/Recovery.antt =====
-- apps/base/shared-api/service_tools.py, `image`: while an image is made or was left unfinished, and after.
use arch_linux_threadripper.Prelude.{
  ℕ, ◌≡◌, ◌≢◌, refl, ap, String, Bool, true, false, ◌||◌, List, Result, ok, err, Bool-cases, inl,
  inr,
}
use arch_linux_threadripper.Json.{Json, Fields}
use arch_linux_threadripper.Tools.State.{
  Failure, refusal, network, late, value_error, type_error, missing_key, os_error, attribute_error,
  cancelled, killed, Tools, Environment, ◌>>=◌, lift_result,
}
use arch_linux_threadripper.Tools.Requests.{Call, read_call}
use arch_linux_threadripper.Tools.Image.{
  is_killed, generate, release, take_unless, take_order, answer, reply_to, image,
}

-- The answer to a request that meets a busy service: its own fault, or 429
abbrev pub turned_away : Result Failure (String × Json) → Result Failure (List ℕ)
turned_away (ok order) = err (refusal 429 "image_busy_or_recovery_required")
turned_away (err e) = err e

turned-answer :
    (env : Environment) (shown : Fields → String) (r : Result Failure (String × Json)) (s : Tools)
    → s.busy || s.marker ≡ true
    → (lift_result r >>= take_order env shown) s ≡ (turned_away r, s)
unfolding take_order take_unless
turned-answer env shown (ok order) s h = ap (λ b. take_unless env shown order b s) h
turned-answer env shown (err e) s h = refl

-- While another image is being made, or the marker of one that was not completed is there, a request for an image
-- that is well-formed and allowed is answered with 429, and any other by its own fault; no other service is called
-- and nothing changes.
pub image-turned_away :
    (env : Environment) (shown : Fields → String) (call : Call) (s : Tools)
    → s.busy || s.marker ≡ true
    → image env shown call s ≡ (reply_to env (turned_away (read_call env call)), s)
unfolding image answer
image-turned_away env shown call s h =
    ap (λ r. (reply_to env r.0, r.1)) (turned-answer env shown (read_call env call) s h)

pub is_killed-eq : (e : Failure) → is_killed e ≡ true → e ≡ killed
is_killed-eq killed h = refl
is_killed-eq (refusal _ _) h = cc
is_killed-eq network h = cc
is_killed-eq late h = cc
is_killed-eq value_error h = cc
is_killed-eq type_error h = cc
is_killed-eq missing_key h = cc
is_killed-eq os_error h = cc
is_killed-eq attribute_error h = cc
is_killed-eq cancelled h = cc

release_lem :
    (r : Result Failure (List ℕ) × Tools) → (release r).0 ≢ err killed → (release r).1.busy ≡ false
unfolding release
release_lem (ok raw, s) h = refl
release_lem (err e, s) h = elim (Bool-cases (is_killed e)) [
  | inl x ↦ absurd (h (ap err (is_killed-eq e x)))
  | inr x ↦ rw x refl
]

take_unless_lem :
    (env : Environment) (shown : Fields → String) (order : String × Json) (b : Bool) (s : Tools)
    → s.busy ≡ false
    → (take_unless env shown order b s).0 ≢ err killed
    → (take_unless env shown order b s).1.busy ≡ false
unfolding take_unless
take_unless_lem env shown order true s free h = free
take_unless_lem env shown order false s free h =
    release_lem (generate env shown order.0 order.1 (record s { busy = true })) h

freed :
    (env : Environment) (shown : Fields → String) (r : Result Failure (String × Json)) (s : Tools)
    → s.busy ≡ false
    → ((lift_result r >>= take_order env shown) s).0 ≢ err killed
    → ((lift_result r >>= take_order env shown) s).1.busy ≡ false
unfolding take_order
freed env shown (ok order) s free h = take_unless_lem env shown order (s.busy || s.marker) s free h
freed env shown (err e) s free h = free

-- However a request ends, by an image, a refusal, a fault of another service or the caller's departure, the service
-- is free for the next one, unless the process itself has ended.
pub image_frees :
    (env : Environment) (shown : Fields → String) (call : Call) (s : Tools)
    → s.busy ≡ false
    → (image env shown call s).0 ≢ err killed
    → (image env shown call s).1.busy ≡ false
unfolding image answer reply_to
image_frees env shown call s free h =
    freed env shown (read_call env call) s free (λ e. h (ap (reply_to env) e))
