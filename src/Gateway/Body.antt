-- ===== src/Gateway/Body.antt =====
-- apps/base/shared-api/boundary.py, `read_body`: the bounded read of a request's body.
use arch_linux_threadripper.Prelude.{
  ℕ, ◌≤◌, ◌≡◌, Bool, true, false, Option, none, some, List, [], ◌∷◌, ◌++◌, arith, ltb, ◌∙◌, sym,
  ◌↔◌, inl, inr, Option-cases, if◌then◌else◌, Result, ok, err, length, length-append,
}
use mathlib.Core.List.{append_assoc}
use arch_linux_threadripper.Gateway.State.{Failure, refusal, cancelled, waiting}

-- What `receive` delivers: a disconnect, or a part of the body with its `more_body` flag.
pub data Message : Type 0 where
  disconnect : Message
  part : List ℕ → Bool → Message

-- The loop of `read_body`, over the buffer; the messages that it left unread come with the result.
unfoldable pub read_from : ℕ → List ℕ → List Message → Result Failure (List ℕ × List Message)
read_from limit buffer [] = err waiting
read_from limit buffer (disconnect ∷ rest) = err cancelled
read_from limit buffer (part bytes more ∷ rest) =
    let longer = read_from limit (buffer ++ bytes) rest in
    if ltb limit (length (buffer ++ bytes))
    then err (refusal 413 "request_too_large")
    else if more
    then longer
    else ok (buffer ++ bytes, rest)

unfoldable pub read_body : ℕ → List Message → Result Failure (List ℕ × List Message)
unfolding read_from
read_body limit messages = read_from limit [] messages

-- The body that the messages carry, whatever its size: the parts up to the first final one.
unfoldable pub whole_body : List Message → Option (List ℕ × List Message)
whole_body [] = none
whole_body (disconnect ∷ rest) = none
whole_body (part bytes false ∷ rest) = some (bytes, rest)
whole_body (part bytes true ∷ rest) = elim (whole_body rest) [
  | none ↦ none
  | some (later, left) ↦ some (bytes ++ later, left)
]

length-append_left : (xs ys : List ℕ) → length xs ≤ length (xs ++ ys)
length-append_left xs ys = omega (arith, length-append {0} xs ys)

-- The loop returns the whole body, and within the limit.
read_from_sound :
    (limit : ℕ) (buffer : List ℕ) (messages : List Message) (result : List ℕ) (left : List Message)
    → read_from limit buffer messages ≡ ok (result, left)
    → (bytes : List ℕ) × (whole_body messages ≡ some (bytes, left))
      × (result ≡ buffer ++ bytes)
      × (length result ≤ limit)
unfolding read_from whole_body
read_from_sound limit buffer [] result left h = cc
read_from_sound limit buffer (disconnect ∷ rest) result left h = cc
read_from_sound limit buffer (part bytes false ∷ rest) result left h =
    (bytes, ground arith, ground arith, ground arith)
read_from_sound limit buffer (part bytes true ∷ rest) result left h =
    let h' : read_from limit (buffer ++ bytes) rest ≡ ok (result, left) = ground arith in
    let (later, e, r, bound) = read_from_sound limit (buffer ++ bytes) rest result left h' in
    (bytes ++ later, rw e, r ∙ append_assoc buffer bytes later, bound)

-- A body that fits the limit is read to its end: the parts before the last one fit too.
read_from_complete :
    (limit : ℕ) (buffer : List ℕ) (messages : List Message) (bytes : List ℕ) (left : List Message)
    → whole_body messages ≡ some (bytes, left)
    → length (buffer ++ bytes) ≤ limit
    → read_from limit buffer messages ≡ ok (buffer ++ bytes, left)
unfolding read_from whole_body
read_from_complete limit buffer [] bytes left h fits = cc
read_from_complete limit buffer (disconnect ∷ rest) bytes left h fits = cc
read_from_complete limit buffer (part first false ∷ rest) bytes left h fits = ground arith
read_from_complete limit buffer (part first true ∷ rest) bytes left h fits =
    elim (Option-cases (whole_body rest)) [
      | inl e ↦ ground arith
      | inr ((later, l), e) ↦
          let same : bytes ≡ first ++ later = ground arith in
          let l_same : l ≡ left = ground arith in
          let split : buffer ++ bytes ≡ (buffer ++ first) ++ later =
            rw same (sym (append_assoc buffer first later)) in
          let fits' : length ((buffer ++ first) ++ later) ≤ limit = rw split at fits in
          let ih = read_from_complete limit (buffer ++ first) rest later l e fits' in
          ground (arith, length-append_left (buffer ++ first) later, ih, split, l_same)
    ]

-- `read_body` accepts exactly the bodies that arrive whole and fit the limit, and returns every
-- byte of them in order with the messages that follow.
pub read_body_iff :
    (limit : ℕ) (messages : List Message) (bytes : List ℕ) (left : List Message)
    → (read_body limit messages ≡ ok (bytes, left))
      ↔ ((whole_body messages ≡ some (bytes, left)) × (length bytes ≤ limit))
unfolding read_body
read_body_iff limit messages bytes left = (
  λ h. let (b, e, r, fits) = read_from_sound limit [] messages bytes left h in (rw r e, fits),
  λ h. read_from_complete limit [] messages bytes left h.0 h.1,
)
