-- ===== src/Backend/Samples.antt =====
-- lib/workstation/hyperloom_latency.py, `_series`: one sample of a latency case.
use Prim.Native.String.{◌++◌}
use arch_linux_threadripper.Prelude.{
  ℕ, suc, ◌+◌, String, Bool, true, false, not, ◌&&◌, Option, none, some, List, [], ◌∷◌, ltb, leb,
  ◌==◌, if◌then◌else◌, Result, ok, err, ◌>>=◌, ◌>>◌, require, length, all, str_eq,
}
use arch_linux_threadripper.Prelude.Int.{pos}
use arch_linux_threadripper.Prelude.Text.{codes}
use arch_linux_threadripper.Json.{
  Json, null, int, float, str, arr, Fields, get, get_or, Items, nil, cons, items_length, items_list,
  mem_str,
}
use arch_linux_threadripper.Exchange.Terms.{
  Fault, refused, is_sha, is_exactly, says_false, says_true, dictionary,
}

-- `value <= wall + 1e-3` in floating-point arithmetic.
abbrev pub Within : Type 0
Within = Json → Json → Bool

-- `positive` of hyperloom_sglang.py
abbrev pub is_positive : Json → Bool
is_positive (int (pos (suc n))) = true
is_positive (float (pos (suc n)) k) = true
is_positive _ = false

-- `_digest`
unfoldable pub is_digest : Option Json → Bool
is_digest (some (str s)) = is_sha s
is_digest _ = false

-- `isinstance(value, str) and 0 < len(value) <= bound`
unfoldable pub bounded_text : ℕ → Option Json → String → Result Fault String
bounded_text bound (some (str s)) what =
    if ltb 0 (length (codes s)) && leb (length (codes s)) bound then ok s else err (refused what)
bounded_text bound _ what = err (refused what)

-- `isinstance(value, list) and len(value) == n`
unfoldable pub list_of : ℕ → Option Json → String → Result Fault Items
list_of n (some (arr xs)) what = if items_length xs == n then ok xs else err (refused what)
list_of n _ what = err (refused what)

-- A token count: `type(n) is int and 0 <= n <= 1 << 20`
unfoldable pub natural : Json → String → Result Fault ℕ
natural (int (pos n)) what = if leb n 1048576 then ok n else err (refused what)
natural _ what = err (refused what)

unfoldable pub naturals : Items → String → Result Fault (List ℕ)
naturals nil what = ok []
naturals (cons v rest) what = do n ← natural v what; later ← naturals rest what; ok (n ∷ later)

unfoldable pub read_counts : ℕ → Fields → String → Result Fault (List ℕ)
read_counts n d key = do
  xs ← list_of n (get d key) ("complete native token counts required: " ++ key)
  naturals xs ("complete native token counts required: " ++ key)

-- Reasoning and final tokens are within the completion.
abbrev pub segments_fit : List ℕ → List ℕ → List ℕ → Bool
segments_fit (r ∷ rs) (f ∷ fs) (n ∷ ns) = leb (r + f) n && segments_fit rs fs ns
segments_fit _ _ _ = true

abbrev pub all_positive : List ℕ → Bool
all_positive = all (λ n. ltb 0 n)

-- A sample that is accepted; its time is the mean of `times`.
pub record Sample : Type 0 where
  pub id : String
  pub times : List Json
  pub wall : Json
  pub prompts : List ℕ
  pub completions : List ℕ

-- The sample's own name: the observation, the arm and the group.
unfoldable pub read_sample_id : String → List String → Fields → Result Fault String
read_sample_id prefix seen d = do
  id ← bounded_text 128 (get d "id") "latency sample reused or namespace changed"
  group ← bounded_text 80 (get d "group_id") "latency sample reused or namespace changed"
  require (str_eq id (prefix ++ group) && not (mem_str id seen))
      (refused "latency sample reused or namespace changed")
  ok id

unfoldable pub read_times : Within → ℕ → Fields → Result Fault (List Json)
read_times within concurrency d = do
  times ← list_of concurrency (get d "request_e2e_ms") "invalid request/group latency"
  require
      (all is_positive (items_list times)
        && is_positive (get_or d "group_wall_ms" null)
        && all (λ v. within v (get_or d "group_wall_ms" null)) (items_list times))
      (refused "invalid request/group latency")
  ok (items_list times)

abbrev pub same_counts : List ℕ → List ℕ → Bool
same_counts [] [] = true
same_counts (a ∷ s) (b ∷ t) = a == b && same_counts s t
same_counts _ _ = false

-- `prompts == sample["prompt_tokens"]`, after the first sample
abbrev pub same_prompts : Option (List ℕ) → List ℕ → Bool
same_prompts none found = true
same_prompts (some wanted) found = same_counts wanted found

unfoldable pub read_sample :
    Within → String → ℕ → List String → Option (List ℕ) → Json → Result Fault Sample
read_sample within prefix concurrency seen expected v = do
  d ← dictionary v "latency sample must be an object"
  id ← read_sample_id prefix seen d
  times ← read_times within concurrency d
  require (says_false (get d "warmup") && is_exactly concurrency (get d "completed"))
      (refused "warmup or incomplete group cannot be scored")
  prompts ← read_counts concurrency d "prompt_tokens"
  completions ← read_counts concurrency d "completion_tokens"
  reasoning ← read_counts concurrency d "reasoning_tokens"
  final ← read_counts concurrency d "final_tokens"
  require
      (all_positive prompts
        && all_positive completions
        && all_positive final
        && segments_fit reasoning final completions)
      (refused "invalid native output segment counts")
  responses ←
      list_of concurrency (get d "response_sha256") "sample quality/response binding required"
  require
      (all (λ r. is_digest (some r)) (items_list responses)
        && says_true (get d "task_quality_passed"))
      (refused "sample quality/response binding required")
  require (same_prompts expected prompts) (refused "case prompt token counts changed")
  ok (record {
    id = id;
    times = times;
    wall = get_or d "group_wall_ms" null;
    prompts = prompts;
    completions = completions;
  })
