-- ===== src/Tools/Safety.antt =====
-- apps/base/shared-api/service_tools.py: what holds of the image service over any number of requests, ends of the
-- process and recoveries.
use arch_linux_threadripper.Prelude.{
  All, ◌+◌, suc, ℕ, ◌≤◌, ◌≡◌, refl, subst, String, Bool, true, false, not, ◌||◌, none, List, [],
  ◌∷◌, Result, ok, err, length, arith, Bool-cases, inl, inr, succeeded, passed_guard,
}
use arch_linux_threadripper.Prelude.Text.{codes}
use arch_linux_threadripper.Json.{Json, null, str, Fields, get_or, obj, keys_within}
use arch_linux_threadripper.Gateway.Auth.{browser_key}
use arch_linux_threadripper.Gateway.Body.{read_body}
use arch_linux_threadripper.Tools.State.{Failure, cleared, Tools, Environment, ◌>>=◌, lift_result}
use arch_linux_threadripper.Tools.Upstream.{decode}
use arch_linux_threadripper.Tools.Requests.{
  has_text, Call, translate, read_call, read_prompt, read_order, is_unsupported, is_among,
}
use arch_linux_threadripper.Tools.Image.{
  is_killed, generate, release, take_unless, take_order, answer, image,
}
use arch_linux_threadripper.Tools.Account.{account, submissions, clears, Leads}
use arch_linux_threadripper.Tools.Paid.{images, clears-image}
use arch_linux_threadripper.Tools.Settled.{
  mark, IsOrder, IsSettled, mark_bound, generate-IsSettled, set_busy-IsSettled,
}

release-IsSettled :
    (r : Result Failure (List ℕ) × Tools)
    → IsSettled (account r.1)
    → IsSettled (account (release r).1)
unfolding release
release-IsSettled (ok raw, s) h = set_busy-IsSettled false (account s) h
release-IsSettled (err e, s) h = elim (Bool-cases (is_killed e)) [
  | inl x ↦ rw x h
  | inr x ↦ rw x (set_busy-IsSettled false (account s) h)
]

take_unless-IsSettled :
    (env : Environment) (shown : Fields → String) (order : String × Json) (b : Bool)
    → IsOrder order
    → Leads IsSettled IsSettled (take_unless env shown order b)
unfolding take_unless
take_unless-IsSettled env shown order true good s h = h
take_unless-IsSettled env shown order false good s h =
    release-IsSettled (generate env shown order.0 order.1 (record s { busy = true })) (
      generate-IsSettled env shown order good (record s { busy = true })
        (set_busy-IsSettled true (account s) h))

read_prompt_sound :
    (v : Json) (p : String)
    → read_prompt v ≡ ok p
    → (1 ≤ length (codes p)) × (length (codes p) ≤ 2000)
unfolding read_prompt
read_prompt_sound (str s) p h = ground arith
read_prompt_sound _ p h = cc

read_order-IsOrder :
    (env : Environment) (v : Json) (order : String × Json)
    → read_order env v ≡ ok order
    → IsOrder order
unfolding read_order
read_order-IsOrder env (obj d) order h =
    passed_guard (not (keys_within ("model" ∷ "prompt" ∷ "n" ∷ "size" ∷ "response_format" ∷ []) d))
      _ _ h
      λ _ h. passed_guard (is_unsupported env d) _ _ h λ _ h.
        succeeded (read_prompt (get_or d "prompt" (str ""))) _ h λ prompt e h.
          passed_guard
            (not (
              is_among (get_or env.image_profile "sizes" null) (get_or d "size" (str "1024x1024"))))
            _ _ h
            λ _ h. passed_guard (has_text "${" prompt) _ _ h λ plain h.
              let (low, high) = read_prompt_sound (get_or d "prompt" (str "")) prompt e in
              let same : (prompt, get_or d "size" (str "1024x1024")) ≡ order = cc in
              subst IsOrder same (low, high, plain)
read_order-IsOrder env _ order h = cc

ordered_IsSettled :
    (env : Environment) (shown : Fields → String) (r : Result Failure (String × Json))
    → ((order : String × Json) → r ≡ ok order → IsOrder order)
    → Leads IsSettled IsSettled (lift_result r >>= take_order env shown)
unfolding take_order
ordered_IsSettled env shown (ok order) good s h =
    take_unless-IsSettled env shown order (s.busy || s.marker) (good order refl) s h
ordered_IsSettled env shown (err e) good s h = h

read_call-IsOrder :
    (env : Environment) (call : Call) (order : String × Json)
    → read_call env call ≡ ok order
    → IsOrder order
unfolding read_call
read_call-IsOrder env call order h = succeeded call.credentials _ h λ credentials _ h.
    succeeded (translate (browser_key call.headers true credentials call.time false)) _ h λ key _ h.
      succeeded (translate (read_body 16384 call.messages)) _ h λ body _ h.
        succeeded (decode env body.0) _ h λ value _ h. read_order-IsOrder env value order h

answer-IsSettled :
    (env : Environment) (shown : Fields → String) (call : Call)
    → Leads IsSettled IsSettled (answer env shown call)
unfolding answer
answer-IsSettled env shown call =
    ordered_IsSettled env shown (read_call env call) (read_call-IsOrder env call)

image-IsSettled :
    (env : Environment) (shown : Fields → String) (call : Call)
    → Leads IsSettled IsSettled (image env shown call)
unfolding image
image-IsSettled env shown call s h = answer-IsSettled env shown call s h

-- The service over time: requests, whatever surrounds each; the process ends and starts again; and the operator
-- takes the marker away.
abbrev pub restart : Tools → Tools
restart s = record s { busy = false; session = none; retrievals = 0 }

-- The operator's recovery, of a marker that is there
abbrev pub recover : Tools → Tools
recover s = record s { marker = false; log = cleared ∷ s.log }

abbrev pub fresh : Tools
fresh = record {
  busy = false;
  marker = false;
  session = none;
  retrievals = 0;
  awaits = 0;
  log = [];
}

pub data Reach : Tools → Type 0 where
  start : Reach fresh
  request :
      (env : Environment) (shown : Fields → String) (call : Call) (s : Tools)
      → Reach s
      → Reach (image env shown call s).1
  ends : (s : Tools) → Reach s → Reach (restart s)
  recovers : (s : Tools) → s.marker ≡ true → Reach s → Reach (recover s)

-- The generations that are accounted for: the requests that were answered with an image, and the operator's
-- recoveries
abbrev pub accounted : (s : Tools) → Reach s → ℕ
accounted _ start = 0
accounted _ (request env shown call s r) = accounted s r + images (image env shown call s).0
accounted _ (ends s r) = accounted s r
accounted _ (recovers s marked r) = suc (accounted s r)

Reach-clears : (s : Tools) (r : Reach s) → clears s.log ≤ accounted s r
Reach-clears _ start = omega arith
Reach-clears _ (request env shown call s r) =
    omega (arith, clears-image env shown call s, Reach-clears s r)
Reach-clears _ (ends s r) = Reach-clears s r
Reach-clears _ (recovers s marked r) = omega (arith, Reach-clears s r)

Reach-account : (s : Tools) → Reach s → IsSettled (account s)
Reach-account _ start = record { few = omega arith; fine = tt }
Reach-account _ (request env shown call s r) = image-IsSettled env shown call s (Reach-account s r)
Reach-account _ (ends s r) = let h = Reach-account s r in record { few = h.few; fine = h.fine }
Reach-account _ (recovers s marked r) =
    let h = Reach-account s r in
    record { few = omega (arith, h.few, mark_bound s.marker); fine = h.fine }

-- Over any image requests, ends of the process and recoveries of a marker by the operator: the generations
-- that were submitted are at most as many as the requests that were answered with an image and the recoveries
-- together, and at most one more while the marker is there; and each was of a prompt of 1 to 2,000 characters
-- without the start of a workflow macro.
pub Reach-IsSettled :
    (s : Tools) (r : Reach s)
    → (length (submissions s.log) ≤ accounted s r + mark s.marker) × All IsOrder (submissions s.log)
Reach-IsSettled s r = let h = Reach-account s r in (omega (arith, h.few, Reach-clears s r), h.fine)
