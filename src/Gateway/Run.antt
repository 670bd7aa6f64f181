-- ===== src/Gateway/Run.antt =====
-- apps/base/shared-api/boundary.py: the gateway over time. Requests and the ends of admitted
-- requests interleave in any order, one event-loop step at a time.
use arch_linux_threadripper.Prelude.{
  ℕ, ◌≤◌, ◌<◌, ◌≡◌, ◌⊎◌, refl, subst, ◌++◌, not, passed_guard, split_if, Bool, true, false, ◌||◌,
  none, some, List, [], ◌∷◌, arith, Result, ok, err, length, succeeded, inl, inr, Result-cases,
}
use arch_linux_threadripper.Gateway.State.{
  Failure, refusal, configuration, timed_out, Active, has_task, AllDistinct, Counters, Gateway,
  World, Sent, Headers,
}
use arch_linux_threadripper.Gateway.Body.{Message, read_body}
use arch_linux_threadripper.Prelude.Text.{decimal}
use arch_linux_threadripper.Gateway.Control.{Order, apply_order, control}
use arch_linux_threadripper.Gateway.Orders.{IsChecked, IsSound, control_sound}
use arch_linux_threadripper.Gateway.Chat.{
  Forwarded, max_body, chat_object, admit_fields, begin, chat_request, chat, Ending, answered,
  backend_raised, drop_task, leave, finish, count_answer,
}
use arch_linux_threadripper.Gateway.Admission.{IsAdmitted, admit_fields-IsAdmitted}
use arch_linux_threadripper.Gateway.Route.{
  Scope, Next, streaming, forwarded, is_path, dict_headers, admit_scope, forward, route, settle,
  settle_end, chat_end,
}

drop_task-fewer : (t : ℕ) (l : List Active) → length (drop_task t l) ≤ length l
unfolding drop_task
drop_task-fewer t [] = omega arith
drop_task-fewer t (a ∷ l) = ground (arith, drop_task-fewer t l)

drop_task-keeps :
    (t u : ℕ) (l : List Active) → has_task u l ≡ false → has_task u (drop_task t l) ≡ false
unfolding drop_task
drop_task-keeps t u [] h = refl
drop_task-keeps t u (a ∷ l) h = ground (arith, drop_task-keeps t u l)

drop_task-AllDistinct : (t : ℕ) (l : List Active) → AllDistinct l → AllDistinct (drop_task t l)
unfolding drop_task
drop_task-AllDistinct t [] h = tt
drop_task-AllDistinct t (a ∷ l) h =
    ground (arith, drop_task-keeps t a.task l, drop_task-AllDistinct t l h.1)

-- Two gateways that differ at most in the counters, and in `active` as the second list says.
leave-IsSound :
    (t : ℕ) (g : Gateway) (c : Counters)
    → IsSound g
    → IsSound (record g { active = drop_task t g.active; requests = c })
leave-IsSound t g c s = record {
  few = omega (arith, drop_task-fewer t g.active, s.few);
  served = s.served;
  split = s.split;
  distinct = drop_task-AllDistinct t g.active s.distinct;
}

recount-IsSound : (g : Gateway) (c : Counters) → IsSound g → IsSound (record g { requests = c })
recount-IsSound g c s = record {
  few = s.few;
  served = s.served;
  split = s.split;
  distinct = s.distinct;
}

pub settle-IsSound :
    (w : World) (b : Bool) (f : Failure) (g : Gateway) → IsSound g → IsSound (settle w b f g).1
unfolding settle
settle-IsSound w b (refusal s c) g h = recount-IsSound g _ h
settle-IsSound w b configuration g h = recount-IsSound g _ h
settle-IsSound w b timed_out g h = recount-IsSound g _ h
settle-IsSound w b _ g h = h

pub begin-IsSound :
    (w : World) (t : ℕ) (g : Gateway)
    → length g.active < 4
    → has_task t g.active ≡ false
    → IsSound g
    → IsSound (begin w t g)
begin-IsSound w t g room fresh s = record {
  few = omega (arith, room);
  served = s.served;
  split = s.split;
  distinct = (fresh, s.distinct);
}

answer_counters :
    (s : ℕ) (g : Gateway) → (c : Counters) × (count_answer s g ≡ record g { requests = c })
unfolding count_answer
answer_counters s g = ((count_answer s g).requests, ground arith)

answer-IsSound : (t s : ℕ) (g : Gateway) → IsSound g → IsSound (leave t (count_answer s g))
answer-IsSound t s g h = let (c, e) = answer_counters s g in rw e (leave-IsSound t g c h)

finish-IsSound :
    (w : World) (t : ℕ) (b : Bool) (e : Ending) (g : Gateway)
    → IsSound g
    → IsSound (finish w t b e g).2
unfolding finish
finish-IsSound w t b (answered none) g h = answer-IsSound t 500 g h
finish-IsSound w t b (answered (some s)) g h = answer-IsSound t s g h
finish-IsSound w t b (backend_raised timed_out) g h = leave-IsSound t g _ h
finish-IsSound w t b (backend_raised _) g h = leave-IsSound t g _ h
finish-IsSound w t b _ g h = leave-IsSound t g _ h

settle_end-IsSound :
    (w : World) (b : Bool) (r : Result Failure (Unit {0})) (sent : List Sent) (g : Gateway)
    → IsSound g
    → IsSound (settle_end w b (r, sent, g)).2
unfolding settle_end
settle_end-IsSound w b (ok u) sent g h = h
settle_end-IsSound w b (err f) sent g h = passed_on (Result-cases (settle w b f g).0)
  where
    passed_on :
        ((a : List Sent) × ((settle w b f g).0 ≡ ok a))
          ⊎ ((x : Failure) × ((settle w b f g).0 ≡ err x))
        → IsSound (settle_end w b (err f, sent, g)).2
    passed_on (inl (a, e)) = rw (e, settle_end) (settle-IsSound w b f g h)
    passed_on (inr (x, e)) = rw (e, settle_end) (settle-IsSound w b f g h)

pub chat_end-IsSound :
    (w : World) (t : ℕ) (b : Bool) (e : Ending) (g : Gateway)
    → IsSound g
    → IsSound (chat_end w t b e g).2
unfolding chat_end
chat_end-IsSound w t b e g h =
    let (r, sent, g') = finish w t b e g in
    settle_end-IsSound w b r sent g' (finish-IsSound w t b e g h)

-- What an admitted request sends on: the three permitted headers and the length, and the fields.
pub record IsSentOn (g : Gateway) (f : Forwarded) : Type 0 where
  pub kept : Headers
  pub headers : f.headers ≡ forwarded kept ++ ("content-length", decimal (length f.content)) ∷ []
  pub fields : IsAdmitted g f.fields

abbrev pub is_streaming : Next → Bool
is_streaming (streaming _) = true
is_streaming _ = false

-- What the `try` block of `__call__` can do when it does not raise.
pub data Routed (w : World) (task : ℕ) (g : Gateway) : Next → Gateway → Type 0 where
  same : (n : Next) (g' : Gateway) → is_streaming n ≡ false → g' ≡ g → Routed w task g n g'
  ordered :
      (n : Next) (g' : Gateway) (o : Order)
      → is_streaming n ≡ false
      → IsChecked o
      → g' ≡ apply_order o g
      → Routed w task g n g'
  begun :
      (n : Next) (g' : Gateway) (f : Forwarded)
      → n ≡ streaming f
      → IsSentOn g f
      → g' ≡ begin w task g
      → Routed w task g n g'

chat_request-IsSentOn :
    (w : World) (p : Bool) (kept : Headers) (ms : List Message) (g : Gateway) (f : Forwarded)
    → chat_request w p (forwarded kept) ms g ≡ ok f
    → IsSentOn g f
unfolding chat_request
chat_request-IsSentOn w p kept ms g f h = passed_guard (not p) _ _ h λ _ h₁.
    succeeded (read_body max_body ms) _ h₁ λ r _ h₂. succeeded (w.loads r.0) _ h₂ λ v _ h₃.
      succeeded (chat_object v) _ h₃ λ given _ h₄.
        succeeded (admit_fields g given) _ h₄ λ sent e h₅. record {
          kept = kept;
          headers = ground arith;
          fields = subst (IsAdmitted g) (ground arith) (admit_fields-IsAdmitted g given sent e);
        }

forward-Routed :
    (w : World) (t : ℕ) (s : Scope) (kept : Headers) (ms : List Message) (g : Gateway) (n : Next)
    (g' : Gateway)
    → s.headers ≡ forwarded kept
    → forward w t s ms g ≡ ok (n, g')
    → Routed w t g n g'
unfolding forward chat
forward-Routed w t s kept ms g n g' own h =
    split_if (is_path s "/v1/chat/completions") _ _ h
      (λ _ h₁. succeeded (chat w t s.is_post s.headers ms g) _ h₁ λ r e h₂.
        succeeded (chat_request w s.is_post s.headers ms g) _ e λ f e' h₃.
          begun n g' f (ground arith) (chat_request-IsSentOn w s.is_post kept ms g f (rw own at e'))
            (ground arith))
      (λ _ h₁.
        split_if (is_path s "/v1/responses" || is_path s "/responses") _ _ h₁ (λ _ h₂. absurd (cc))
          (λ _ h₂. same n g' (ground arith) (ground arith)))

pub route-Routed :
    (w : World) (t : ℕ) (s : Scope) (ms : List Message) (g : Gateway) (n : Next) (g' : Gateway)
    → route w t s ms g ≡ ok (n, g')
    → Routed w t g n g'
unfolding route
route-Routed w t s ms g n g' h =
    split_if (is_path s "/_service/status") _ _ h (λ _ h₁. same n g' (ground arith) (ground arith))
      (λ _ h₁.
        split_if (is_path s "/_service/metrics") _ _ h₁
          (λ _ h₂. same n g' (ground arith) (ground arith))
          (λ _ h₂.
            split_if (is_path s "/_service/control") _ _ h₂
              (λ _ h₃.
                succeeded (control w s.is_post (dict_headers [] s.headers) ms g) _ h₃ λ r e h₄.
                  let (_, (o, c, a, _)) =
                    control_sound w s.is_post (dict_headers [] s.headers) ms g r.1 r.0 e in
                  ordered n g' o (ground arith) c (ground arith))
              (λ _ h₃. succeeded (admit_scope w s (dict_headers [] s.headers)) _ h₃ λ r e h₄.
                forward-Routed w t (record s { path = r.0; headers = forwarded r.1 }) r.1 ms g n g'
                  refl h₄)))
