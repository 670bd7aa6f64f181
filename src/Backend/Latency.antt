-- ===== src/Backend/Latency.antt =====
-- lib/workstation/hyperloom_latency.py: `_policy`, and `_series`, the checks on a series of latency
-- measurements.
use Prim.Native.String.{◌++◌}
use arch_linux_threadripper.Prelude.{
  ℕ, ◌*◌, ◌^◌, String, Bool, not, ◌&&◌, ◌||◌, Option, none, some, List, [], ◌∷◌, ◌++◌ as append,
  map, ltb, leb, ◌==◌, if◌then◌else◌, Result, ok, err, ◌>>=◌, ◌>>◌, require, any, str_eq,
}
use arch_linux_threadripper.Prelude.Int.{pos}
use arch_linux_threadripper.Prelude.Text.{codes}
use arch_linux_threadripper.Json.{
  Json, int, float, str, arr, Fields, get, Items, nil, cons, items_length, keys_exactly, mem_str,
}
use arch_linux_threadripper.Exchange.Terms.{
  Fault, refused, hex_text, is_exactly, is_text, says_false, says_true, dictionary,
}
use arch_linux_threadripper.Backend.Samples.{Within, is_digest, bounded_text, Sample, read_sample}

-- A number that is not negative, as m / 2 ^ k.
abbrev pub Amount : Type 0
Amount = ℕ × ℕ

-- a <= b
abbrev pub amount_le : Amount → Amount → Bool
amount_le (m, k) (n, j) = leb (m * 2 ^ j) (n * 2 ^ k)

pub record Policy : Type 0 where
  pub minimum_samples : ℕ
  pub noise_floor : Amount
  pub maximum_spread : Amount
  pub minimum_gain : Amount
  pub token_delta : Amount

-- `type(value) in (int, float) and math.isfinite(value) and 0 <= value <= 10`
unfoldable pub percentage : Option Json → String → Result Fault Amount
percentage (some (int (pos m))) name =
    if leb m 10 then ok (m, 0) else err (refused ("invalid latency policy: " ++ name))
percentage (some (float (pos m) k)) name =
    if leb m (10 * 2 ^ k) then ok (m, k) else err (refused ("invalid latency policy: " ++ name))
percentage _ name = err (refused ("invalid latency policy: " ++ name))

-- `type(value) is int and 3 <= value <= 32`
unfoldable pub sample_count : Option Json → Result Fault ℕ
sample_count (some (int (pos n))) =
    if leb 3 n && leb n 32
    then ok n
    else err (refused "latency policy needs at least three independent samples")
sample_count _ = err (refused "latency policy needs at least three independent samples")

abbrev pub policy_keys : List String
policy_keys =
    "minimum_samples" ∷ "noise_floor_pct" ∷ "maximum_spread_pct" ∷ "minimum_gain_pct"
    ∷ "maximum_output_token_delta_pct" ∷ []

unfoldable pub read_policy : Json → Result Fault Policy
read_policy v = do
  d ← dictionary v "complete explicit latency policy required"
  require (keys_exactly policy_keys d) (refused "complete explicit latency policy required")
  minimum ← sample_count (get d "minimum_samples")
  noise ← percentage (get d "noise_floor_pct") "noise_floor_pct"
  spread ← percentage (get d "maximum_spread_pct") "maximum_spread_pct"
  gain ← percentage (get d "minimum_gain_pct") "minimum_gain_pct"
  delta ← percentage (get d "maximum_output_token_delta_pct") "maximum_output_token_delta_pct"
  require (ltb 0 spread.0 && ltb 0 gain.0 && amount_le noise spread)
      (refused "invalid noise/gain bounds")
  ok (record {
    minimum_samples = minimum;
    noise_floor = noise;
    maximum_spread = spread;
    minimum_gain = gain;
    token_delta = delta;
  })

-- A case that is accepted: its timings are those of its samples.
pub record Case : Type 0 where
  pub name : String
  pub concurrency : ℕ
  pub contract : Option Json
  pub samples : List Sample

abbrev pub sample_ids : List Sample → List String
sample_ids = map (λ s. s.id)

-- The prompts of the first sample are those of the case.
abbrev pub case_prompts : Option (List ℕ) → Sample → Option (List ℕ)
case_prompts none s = some s.prompts
case_prompts (some wanted) s = some wanted

-- The loop over the samples, with the names that the series has used.
unfoldable pub read_samples :
    Within → String → ℕ → List String → Option (List ℕ) → Items → Result Fault (List Sample)
read_samples within prefix concurrency seen expected nil = ok []
read_samples within prefix concurrency seen expected (cons v rest) = do
  s ← read_sample within prefix concurrency seen expected v
  later ← read_samples within prefix concurrency (s.id ∷ seen) (case_prompts expected s) rest
  ok (s ∷ later)

-- `type(concurrency) is int and concurrency in (1, 2)`
unfoldable pub read_concurrency : Option Json → Result Fault ℕ
read_concurrency (some (int (pos n))) =
    if n == 1 || n == 2 then ok n else err (refused "only C1/C2 are scored")
read_concurrency _ = err (refused "only C1/C2 are scored")

-- A list of at least `low` and at most `high` members
unfoldable pub list_between : ℕ → ℕ → Option Json → String → Result Fault Items
list_between low high (some (arr xs)) what =
    if leb low (items_length xs) && leb (items_length xs) high then ok xs else err (refused what)
list_between low high _ what = err (refused what)

unfoldable pub read_case :
    Within → ℕ → String → List String → List String → Json → Result Fault Case
read_case within minimum prefix names seen v = do
  d ← dictionary v "latency case must be an object"
  name ← bounded_text 128 (get d "id") "unique latency case ID required"
  require (not (mem_str name names)) (refused "unique latency case ID required")
  concurrency ← read_concurrency (get d "concurrency")
  require (is_digest (get d "request_contract_sha256")) (refused "case request contract required")
  items ←
      list_between minimum 32 (get d "samples")
        "insufficient or excessive independent latency samples"
  samples ← read_samples within prefix concurrency seen none items
  ok (record {
    name = name;
    concurrency = concurrency;
    contract = get d "request_contract_sha256";
    samples = samples;
  })

-- The loop over the cases, with the names of the cases and of the samples before
unfoldable pub read_cases :
    Within → ℕ → String → List String → List String → Items → Result Fault (List Case)
read_cases within minimum prefix names seen nil = ok []
read_cases within minimum prefix names seen (cons v rest) = do
  k ← read_case within minimum prefix names seen v
  later ←
      read_cases within minimum prefix (k.name ∷ names) (append (sample_ids k.samples) seen) rest
  ok (k ∷ later)

abbrev pub identity_keys : List String
identity_keys =
    "selection_sha256" ∷ "runtime_sha256" ∷ "workload_sha256" ∷ "candidate_sha256"
    ∷ "owner_seal_sha256" ∷ "quality_sha256" ∷ []

unfoldable pub require_digests : Fields → List String → Result Fault (Unit {0})
require_digests d [] = ok tt
require_digests d (k ∷ rest) = do
  require (is_digest (get d k)) (refused ("latency evidence identity: " ++ k))
  require_digests d rest

-- The nonce and the arm
unfoldable pub read_namespace : Fields → Result Fault (String × String)
read_namespace d = namespace_of (get d "observation_id") (get d "arm")
  where
    namespace_of : Option Json → Option Json → Result Fault (String × String)
    namespace_of (some (str nonce)) (some (str arm)) =
        if hex_text 16 (codes nonce) && (str_eq arm "control" || str_eq arm "mtp")
        then ok (nonce, arm)
        else err (refused "owner observation namespace required")
    namespace_of _ _ = err (refused "owner observation namespace required")

pub record Series : Type 0 where
  pub document : Fields
  pub nonce : String
  pub arm : String
  pub cases : List Case

abbrev pub has_concurrency : ℕ → List Case → Bool
has_concurrency n = any (λ (k : Case). k.concurrency == n)

unfoldable pub read_series : Within → Json → Policy → Result Fault Series
read_series within v policy = do
  d ← dictionary v "latency measurement schema"
  require (is_exactly 1 (get d "schema")) (refused "latency measurement schema")
  require
      (is_text "serving" (get d "kind")
        && says_false (get d "profiled")
        && says_true (get d "complete")
        && says_true (get d "quality_passed")
        && says_true (get d "independent_release"))
      (refused "complete unprofiled serving, quality and release evidence required")
  require_digests d identity_keys
  (nonce, arm) ← read_namespace d
  items ← list_between 2 64 (get d "cases") "bounded C1/C2 cases required"
  cases ← read_cases within policy.minimum_samples (nonce ++ (":" ++ (arm ++ ":"))) [] [] items
  require (has_concurrency 1 cases && has_concurrency 2 cases) (refused "both C1 and C2 required")
  ok (record { document = d; nonce = nonce; arm = arm; cases = cases })
