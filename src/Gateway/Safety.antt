-- ===== src/Gateway/Safety.antt =====
-- apps/base/shared-api/boundary.py: what holds of the gateway whatever requests arrive and in
-- whatever order the admitted ones end.
use arch_linux_threadripper.Prelude.{
  String, ℕ, ◌+◌, ◌≡◌, refl, ap, subst, sym, Bool, true, false, none, some, List, [], ◌∷◌, arith,
  Result, ok, err, if◌then◌else◌, inl, inr, Bool-cases, succeeded, All, All-append, ◌++◌, ◌||◌,
  ◌>>=◌, str_eq, ◌==◌, ==_iff, ◌⊎◌,
}
use arch_linux_threadripper.Prelude.Text.{codes, has_prefix, text_eq, text_eq→eq}
use arch_linux_threadripper.Gateway.State.{
  Failure, invalid_json, uncaught, waiting, Headers, has_task, Active, Counters, Gateway, World,
  initial, count_refusal, reply, refusal_document,
}
use arch_linux_threadripper.Gateway.Body.{Message}
use arch_linux_threadripper.Gateway.Orders.{IsSound, apply_order-IsSound}
use arch_linux_threadripper.Gateway.Chat.{
  Forwarded, begin, Ending, answered, backend_raised, drop_task, finish, count_answer,
}
use arch_linux_threadripper.Gateway.Route.{
  Scope, Next, responded, passed, streaming, dict_headers, has_identity, is_forwarded, forwarded,
  settle_end, admit_scope, route, settle, settle_route, call, chat_end,
}
use arch_linux_threadripper.Gateway.Run.{
  IsSentOn, is_streaming, Routed, same, ordered, begun, route-Routed, begin-IsSound, settle-IsSound,
  chat_end-IsSound,
}

-- An `except` clause answers, or lets a failure go on.
settle_answers :
    (w : World) (x : Failure) (g : Gateway) (f : Forwarded)
    → ((do sent ← (settle w false x g).0; ok (responded sent)) ≡ ok (streaming f))
    → ⊥
settle_answers w x g f h = succeeded (settle w false x g).0 _ h λ sent _ h'. cc

Routed-IsSound :
    (w : World) (t : ℕ) (g : Gateway) {n : Next} {g' : Gateway}
    → has_task t g.active ≡ false
    → IsSound g
    → Routed w t g n g'
    → IsSound g'
Routed-IsSound w t g fresh s (same _ _ _ e) = rw e s
Routed-IsSound w t g fresh s (ordered _ _ o _ c e) = rw e (apply_order-IsSound o g c s)
Routed-IsSound w t g fresh s (begun _ _ f _ sent e) =
    rw e (begin-IsSound w t g sent.fields.has_room fresh s)

settle_route-IsSound :
    (w : World) (r : Result Failure (Next × Gateway)) (g : Gateway)
    → ((n : Next) (g' : Gateway) → r ≡ ok (n, g') → IsSound g')
    → IsSound g
    → IsSound (settle_route w r g).1
unfolding settle_route
settle_route-IsSound w (ok (n, g')) g k s = k n g' refl
settle_route-IsSound w (err f) g k s = settle-IsSound w false f g s

call-IsSound :
    (w : World) (t : ℕ) (s : Scope) (ms : List Message) (g : Gateway)
    → has_task t g.active ≡ false
    → IsSound g
    → IsSound (call w t s ms g).1
unfolding call
call-IsSound w t s ms g fresh h =
    elim s.is_http
      as (λ b. IsSound (if b then settle_route w (route w t s ms g) g else (ok (passed s), g)).1) [
        | true ↦
            settle_route-IsSound w (route w t s ms g) g
              (λ n g' r. Routed-IsSound w t g fresh h (route-Routed w t s ms g n g' r)) h
        | false ↦ h
      ]

-- One step of the event loop: a request under a task that is not active, the end of an active chat
-- request, or an exception from the application behind a request that was passed on.
pub data Step (g : Gateway) : Gateway → Type 0 where
  request :
      (w : World) (t : ℕ) (s : Scope) (ms : List Message)
      → has_task t g.active ≡ false
      → Step g (call w t s ms g).1
  ended :
      (w : World) (t : ℕ) (started : Bool) (e : Ending)
      → has_task t g.active ≡ true
      → Step g (chat_end w t started e g).2
  behind : (w : World) (started : Bool) (f : Failure) → Step g (settle w started f g).1

pub data Reach (g : Gateway) : Gateway → Type 0 where
  here : Reach g g
  next : {a b : Gateway} → Reach g a → Step a b → Reach g b

Step-IsSound : {a b : Gateway} → IsSound a → Step a b → IsSound b
Step-IsSound h (request w t s ms fresh) = call-IsSound w t s ms _ fresh h
Step-IsSound h (ended w t b e _) = chat_end-IsSound w t b e _ h
Step-IsSound h (behind w b f) = settle-IsSound w b f _ h

-- From the start of the process, after any requests, orders and endings in any order: at most four
-- chat requests are active, under distinct tasks; a ready or starting gateway names a known model;
-- and images are on only while it is ready with the model of the split profile.
pub Reach-IsSound : {g : Gateway} → Reach initial g → IsSound g
Reach-IsSound here = record { few = omega arith; served = λ e. cc; split = λ e. cc; distinct = tt }
Reach-IsSound (next r s) = Step-IsSound (Reach-IsSound r) s

streaming-Routed :
    (w : World) (t : ℕ) (g : Gateway) {n : Next} {g' : Gateway} (f : Forwarded)
    → Routed w t g n g'
    → n ≡ streaming f
    → IsSentOn g f × (g' ≡ begin w t g)
streaming-Routed w t g f (same _ _ e _) s = absurd (cc (ap is_streaming s))
streaming-Routed w t g f (ordered _ _ o e _ _) s = absurd (cc (ap is_streaming s))
streaming-Routed w t g f (begun _ _ f' e sent e') s =
    let own : f' ≡ f = ground arith in (subst (IsSentOn g) own sent, e')

settle_route-streaming :
    (w : World) (r : Result Failure (Next × Gateway)) (g : Gateway) (f : Forwarded)
    → (settle_route w r g).0 ≡ ok (streaming f)
    → r ≡ ok (streaming f, (settle_route w r g).1)
unfolding settle_route
settle_route-streaming w (ok (n, g')) g f h = ground arith
settle_route-streaming w (err x) g f h = ground (arith, settle_answers w x g f)

abbrev pub is_sent : String → Bool
is_sent name = is_forwarded name || str_eq name "content-length"

forwarded-is_sent : (h : Headers) → All (λ (e : String × List ℕ). is_sent e.0 ≡ true) (forwarded h)
unfolding forwarded
forwarded-is_sent [] = tt
forwarded-is_sent ((j, v) ∷ rest) = elim (Bool-cases (is_forwarded j)) [
  | inl e ↦ rw e (rw e refl, forwarded-is_sent rest)
  | inr e ↦ rw e (forwarded-is_sent rest)
]

sent_headers :
    (kept h : Headers) (n : List ℕ)
    → h ≡ forwarded kept ++ ("content-length", n) ∷ []
    → All (λ (e : String × List ℕ). is_sent e.0 ≡ true) h
sent_headers kept h n e = rw e (
    All-append (λ (x : String × List ℕ). is_sent x.0 ≡ true) (forwarded kept) _
      (forwarded-is_sent kept) (refl, tt))

settle_streaming :
    (w : World) (t : ℕ) (s : Scope) (ms : List Message) (g : Gateway) (f : Forwarded)
    → let r = settle_route w (route w t s ms g) g in
      r.0 ≡ ok (streaming f)
      → IsSentOn g f
        × (r.1 ≡ begin w t g)
        × All (λ (e : String × List ℕ). is_sent e.0 ≡ true) f.headers
settle_streaming w t s ms g f h =
    let routed =
      route-Routed w t s ms g (streaming f) _ (settle_route-streaming w (route w t s ms g) g f h) in
    let (sent, e) = streaming-Routed w t g f routed refl in
    (sent, e, sent_headers sent.kept f.headers _ sent.headers)

-- A chat request goes to the backend only if it was admitted, and then the gateway has gained just
-- its task; the headers that go with it are the authorization, the content type, the accepted types
-- and the length, so no identity, cookie or other header of the caller is among them.
pub call_streaming :
    (w : World) (t : ℕ) (s : Scope) (ms : List Message) (g : Gateway) (f : Forwarded)
    → (call w t s ms g).0 ≡ ok (streaming f)
    → IsSentOn g f
      × ((call w t s ms g).1 ≡ begin w t g)
      × All (λ (e : String × List ℕ). is_sent e.0 ≡ true) f.headers
unfolding call
call_streaming w t s ms g f =
    elim s.is_http
      as (λ b.
        let r = if b then settle_route w (route w t s ms g) g else (ok (passed s), g) in
        r.0 ≡ ok (streaming f)
        → IsSentOn g f
          × (r.1 ≡ begin w t g)
          × All (λ (e : String × List ℕ). is_sent e.0 ≡ true) f.headers) [
            | true ↦ settle_streaming w t s ms g f
            | false ↦ λ h. absurd (cc h)
          ]

off_path : (p s q : List ℕ) → has_prefix p s ≡ false → has_prefix p q ≡ true → text_eq s q ≡ false
off_path p s q h k = elim (Bool-cases (text_eq s q)) [
  | inl e ↦ absurd (let same = text_eq→eq s q e in cc (h, k, ap (has_prefix p) same))
  | inr e ↦ e
]

-- A request with an identity header of the browser application, on a path that is not the
-- application's own, is answered by a refusal; it is counted, and nothing else changes.
pub call_untrusted :
    (w : World) (t : ℕ) (s : Scope) (ms : List Message) (g : Gateway)
    → s.is_http ≡ true
    → has_prefix (codes "/_service/") s.path ≡ false
    → has_prefix (codes "/webui/") s.path ≡ false
    → has_identity (dict_headers [] s.headers) ≡ true
    → call w t s ms g ≡ (
      ok (responded (reply w 400 (refusal_document "untrusted_identity_header"))),
      count_refusal 400 g,
    )
unfolding call settle_route route admit_scope settle
call_untrusted w t s ms g http service webui identity = ground (
  arith,
  off_path (codes "/_service/") s.path (codes "/_service/status") service refl,
  off_path (codes "/_service/") s.path (codes "/_service/metrics") service refl,
  off_path (codes "/_service/") s.path (codes "/_service/control") service refl,
)

-- The number of requests that the counters have seen.
abbrev pub total : Counters → ℕ
total c = c.success + c.refused + c.backend_error + c.cancelled_count + c.limited

-- An exception that the boundary does not name, or that comes from a malformed document, is not
-- counted; every other ending is counted once.
abbrev pub counts : Ending → ℕ
counts (backend_raised invalid_json) = 0
counts (backend_raised uncaught) = 0
counts (backend_raised waiting) = 0
counts _ = 1

-- The first entry of a task, if there is one, is gone; all others are there, in their order.
abbrev pub Leaves : ℕ → List Active → List Active → Type 0
Leaves t old new =
    ((has_task t old ≡ false) × (new ≡ old))
    ⊎ ((before : List Active) × (a : Active) × (after : List Active) × (old ≡ before ++ a ∷ after)
        × (a.task ≡ t)
        × (has_task t before ≡ false)
        × (new ≡ before ++ after))

keeps_front :
    (t : ℕ) (a : Active) (old new : List Active)
    → (a.task == t) ≡ false
    → Leaves t old new
    → Leaves t (a ∷ old) (a ∷ new)
keeps_front t a old new other (inl (absent, kept)) = inl (ground arith, ap (λ l. a ∷ l) kept)
keeps_front t a old new other (inr (before, b, after, split, own, absent, rest)) =
    inr (a ∷ before, b, after, ap (λ l. a ∷ l) split, own, ground arith, ap (λ l. a ∷ l) rest)

drop_task-Leaves : (t : ℕ) (l : List Active) → Leaves t l (drop_task t l)
unfolding drop_task
drop_task-Leaves t [] = inl (refl, refl)
drop_task-Leaves t (a ∷ l) = elim (Bool-cases (a.task == t)) [
  | inl own ↦ inr ([], a, l, refl, (==_iff a.task t).0 own, refl, rw own refl)
  | inr other ↦
      let kept : drop_task t (a ∷ l) ≡ a ∷ drop_task t l = unfold drop_task in rw other refl in
      subst (Leaves t (a ∷ l)) (sym kept)
        (keeps_front t a l (drop_task t l) other (drop_task-Leaves t l))
]

chat_end_drops :
    (w : World) (t : ℕ) (started : Bool) (e : Ending) (g : Gateway)
    → (chat_end w t started e g).2.active ≡ drop_task t g.active
unfolding chat_end settle_end finish settle count_answer
chat_end_drops w t started (answered none) g = ground arith
chat_end_drops w t started (answered (some s)) g = ground arith
chat_end_drops w t started (backend_raised f) g = ground arith
chat_end_drops w t started _ g = ground arith

-- The end of an admitted request adds one to the sum of the counters, except where the backend raised a
-- JSON decoding error or an exception that no clause catches, or is still waiting, which add nothing.
-- Its task's entry is removed from the active ones in each case, and every other entry stays.
pub chat_end_accounts :
    (w : World) (t : ℕ) (started : Bool) (e : Ending) (g : Gateway)
    → let g' = (chat_end w t started e g).2 in
      (total g'.requests ≡ total g.requests + counts e) × Leaves t g.active g'.active
unfolding chat_end settle_end finish settle count_answer
chat_end_accounts w t started (answered none) g = (
  ground arith,
  subst (Leaves t g.active) (sym (chat_end_drops w t started (answered none) g))
      (drop_task-Leaves t g.active),
)
chat_end_accounts w t started (answered (some s)) g = (
  ground arith,
  subst (Leaves t g.active) (sym (chat_end_drops w t started (answered (some s)) g))
      (drop_task-Leaves t g.active),
)
chat_end_accounts w t started (backend_raised f) g = (
  ground arith,
  subst (Leaves t g.active) (sym (chat_end_drops w t started (backend_raised f) g))
      (drop_task-Leaves t g.active),
)
chat_end_accounts w t started e g = (
  ground arith,
  subst (Leaves t g.active) (sym (chat_end_drops w t started e g)) (drop_task-Leaves t g.active),
)
