-- ===== src/Exchange/Wait.antt =====
-- lib/workstation/hyperloom_exchange.py, `wait_result` and `_cancel_wait`: the optimizer waits for the
-- result of a job that it has submitted.
use arch_linux_threadripper.Prelude.{
  ◌≤◌, ◌≡◌, refl, String, Bool, true, false, Option, none, some, List, [], ◌∷◌, if◌then◌else◌,
  Result, ok, err, ◌>>=◌, ◌>>◌, length, arith, succeeded, met_requirement, split_if, ap, ◌⊎◌, inl,
  inr, Result-cases, ◌∙◌, str_eq, Option-cases, ◌&&◌, require, Bool-cases,
}
use arch_linux_threadripper.Json.{Json, bool, str, obj, Fields, end, field}
use arch_linux_threadripper.Exchange.Terms.{
  Fault, refused, parked, already_exists, missing_key, type_error, attribute_error, late, too_deep,
  Codec, max_result,
}
use arch_linux_threadripper.Exchange.Requests.{Request}
use arch_linux_threadripper.Exchange.Store.{Bytes, Job, Reply, publish, is_there, read_file}
use arch_linux_threadripper.Exchange.Jobs.{read_result, require_campaign_open}
use arch_linux_threadripper.Exchange.Replies.{IsResult, validate_result-IsResult}

-- What one turn of the loop finds: the reply to the job, if there is one, and the terminal record.
pub record Look : Type 0 where
  pub reply : Option Reply
  pub terminal : Option Bytes

-- `(reply / "RESULT.json").exists()`
abbrev pub has_result : Option Reply → Bool
has_result none = false
has_result (some r) = is_there r.result

-- The result of a reply that has one
unfoldable pub read_reply : Codec → Option Reply → Request → String → Result Fault Fields
read_reply c none request controller = err (refused "canonical exchange directory required")
read_reply c (some reply) request controller = read_result c request.id reply request controller

-- The loop, over the turns before the deadline.
unfoldable pub wait_loop : Codec → Request → String → List Look → Result Fault Fields
wait_loop c request controller [] = err late
wait_loop c request controller (look ∷ rest) =
    let go_on =
      require_campaign_open c look.terminal request.campaign controller
      >> wait_loop c request controller rest in
    if has_result look.reply then read_reply c look.reply request controller else go_on

-- type(error).__name__
abbrev pub fault_name : Fault → String
fault_name (refused _) = "ValueError"
fault_name (parked _) = "RuntimeError"
fault_name already_exists = "FileExistsError"
fault_name missing_key = "KeyError"
fault_name type_error = "TypeError"
fault_name attribute_error = "AttributeError"
fault_name late = "TimeoutError"
fault_name too_deep = "RecursionError"

abbrev pub cancellation_document : Codec → Request → Fault → Json
cancellation_document c request f = obj (
    field "id" (str request.id) (
      field "request_sha256" (str (c.digest (c.canonical (obj request.document))))
        (field "reason" (str (fault_name f)) (field "owner_release_claimed" (bool false) end))))

-- `_cancel_wait`: a job that is cancelled already stays as it is.
unfoldable pub cancel_wait : Codec → Request → Fault → Job → Result Fault Job
cancel_wait c request f job =
    let fresh : Result Fault Job =
      publish job.cancelled (c.canonical (cancellation_document c request f)) >>= λ raw.
      ok (record job { cancelled = some raw }) in
    if is_there job.cancelled then ok job else fresh

-- The `except` clause: the job is cancelled before the exception goes on.
unfoldable pub give_up : Fault → Job → Result Fault Job → Result Fault Fields × Job
give_up f job (ok after) = (err f, after)
give_up f job (err g) = (err g, job)

unfoldable pub settle_wait : Codec → Request → Job → Result Fault Fields → Result Fault Fields × Job
settle_wait c request job (ok d) = (ok d, job)
settle_wait c request job (err f) = give_up f job (cancel_wait c request f job)

-- What is found of the job's directory, of the replies' root, and of whether neither tree holds the other
pub record Roots : Type 0 where
  pub job_there : Bool
  pub replies_there : Bool
  pub separate : Bool

abbrev pub are_usable : Roots → Bool
are_usable roots = roots.job_there && roots.replies_there && roots.separate

-- The checks of `_wait_state`, before the `try` clause
unfoldable pub wait_state : Roots → Result Fault (Unit {0})
wait_state roots = do
  require roots.job_there (refused "canonical exchange directory required")
  require roots.replies_there (refused "canonical exchange directory required")
  require roots.separate (refused "separate request/reply trees required")

unfoldable pub wait_checked :
    Codec → Request → String → List Look → Job → Result Fault (Unit {0}) → Result Fault Fields × Job
wait_checked c request controller looks job (err f) = (err f, job)
wait_checked c request controller looks job (ok _) =
    settle_wait c request job (wait_loop c request controller looks)

unfoldable pub wait_result :
    Codec → Request → String → Roots → List Look → Job → Result Fault Fields × Job
wait_result c request controller roots looks job =
    wait_checked c request controller looks job (wait_state roots)

read_reply-IsResult :
    (c : Codec) (o : Option Reply) (r : Request) (controller : String) (d : Fields)
    → read_reply c o r controller ≡ ok d
    → IsResult c r controller d
unfolding read_reply read_result
read_reply-IsResult c none r controller d h = absurd (cc)
read_reply-IsResult c (some reply) r controller d h =
    met_requirement (str_eq r.id r.id) _ _ h λ _ h.
      succeeded (read_file 16777216 reply.result) _ h λ raw _ h.
        succeeded (c.decode raw) _ h λ v _ h. (validate_result-IsResult c v r controller d h).1

pub wait_loop-IsResult :
    (c : Codec) (r : Request) (controller : String) (looks : List Look) (d : Fields)
    → wait_loop c r controller looks ≡ ok d
    → IsResult c r controller d
unfolding wait_loop
wait_loop-IsResult c r controller [] d h = absurd (cc)
wait_loop-IsResult c r controller (look ∷ rest) d h =
    split_if (has_result look.reply) _ _ h
      (λ _ e. read_reply-IsResult c look.reply r controller d e)
      (λ _ e.
        succeeded (require_campaign_open c look.terminal r.campaign controller) _ e
          λ _ _ k. wait_loop-IsResult c r controller rest d k)

cancel_wait_leaves :
    (c : Codec) (r : Request) (f : Fault) (job : Job)
    → length (c.canonical (cancellation_document c r f)) ≤ max_result
    → (after : Job) × (cancel_wait c r f job ≡ ok after) × (is_there after.cancelled ≡ true)
unfolding cancel_wait publish
cancel_wait_leaves c r f job short = elim (Option-cases job.cancelled) [
  | inl e ↦ (
    record job { cancelled = some (c.canonical (cancellation_document c r f)) },
    ground arith,
    refl,
  )
  | inr (raw, e) ↦ (job, ground arith, ground arith)
]

wait_state_sound :
    (roots : Roots)
    → ((are_usable roots ≡ true) × (wait_state roots ≡ ok tt))
      ⊎ ((are_usable roots ≡ false) × ((f : Fault) × (wait_state roots ≡ err f)))
unfolding wait_state
wait_state_sound roots = elim (Bool-cases roots.job_there) [
  | inr e ↦ inr (ground arith, (refused "canonical exchange directory required", ground arith))
  | inl e ↦ elim (Bool-cases roots.replies_there) [
    | inr g ↦ inr (ground arith, (refused "canonical exchange directory required", ground arith))
    | inl g ↦ elim (Bool-cases roots.separate) [
      | inr k ↦ inr (ground arith, (refused "separate request/reply trees required", ground arith))
      | inl k ↦ inl (ground arith, ground arith)
    ]
  ]
]

-- A wait ends in one of three ways. If the job's directory and the replies' root are there and neither
-- tree holds the other, it either returns a result of this request and this controller, and the job is
-- as it was; or it raises, and the job is cancelled then. Otherwise it raises before it begins, and the
-- job is as it was. This is so if the cancellation itself can be written: its document has at most
-- 16,777,216 bytes.
pub wait_result_ends :
    (c : Codec) (r : Request) (controller : String) (roots : Roots) (looks : List Look) (job : Job)
    → ((f : Fault) → length (c.canonical (cancellation_document c r f)) ≤ max_result)
    → ((are_usable roots ≡ true)
        × (d : Fields) × (wait_result c r controller roots looks job ≡ (ok d, job))
        × IsResult c r controller d)
      ⊎ ((are_usable roots ≡ true)
          × (f : Fault) × (after : Job) × (wait_result c r controller roots looks job
              ≡ (err f, after))
          × (is_there after.cancelled ≡ true))
      ⊎ ((are_usable roots ≡ false)
          × (f : Fault) × (wait_result c r controller roots looks job ≡ (err f, job)))
unfolding wait_result wait_checked settle_wait give_up
wait_result_ends c r controller roots looks job short = elim (wait_state_sound roots) [
  | inr (unusable, failed) ↦
      let (f, e) = failed in inr (inr (unusable, f, ap (wait_checked c r controller looks job) e))
  | inl (usable, e) ↦
      let begun : wait_result c r controller roots looks job
          ≡ settle_wait c r job (wait_loop c r controller looks) =
        ap (wait_checked c r controller looks job) e in
      elim (Result-cases (wait_loop c r controller looks)) [
        | inl (d, g) ↦ inl (
          usable,
          d,
          begun ∙ ap (settle_wait c r job) g,
          wait_loop-IsResult c r controller looks d g,
        )
        | inr (f, g) ↦
            let (after, k, there) = cancel_wait_leaves c r f job (short f) in
            inr (
              inl (
                usable,
                f,
                after,
                begun ∙ ap (settle_wait c r job) g ∙ ap (give_up f job) k,
                there,
              ))
      ]
]
