-- ===== src/Search/Policy.antt =====
-- apps/base/shared-api/web_search.py, `WebSearch.__init__`: the policy with its limits.
use arch_linux_threadripper.Prelude.{
  ℕ, ◌≤◌, ◌≡◌, String, ◌&&◌, Option, none, some, List, [], ◌∷◌, leb, if◌then◌else◌, Result, ok, err,
  ◌>>=◌, ◌>>◌, require, str_eq, arith, succeeded, met_requirement, subst,
}
use arch_linux_threadripper.Prelude.Int.{pos}
use arch_linux_threadripper.Json.{Json, null, int, str, obj, Fields, get_or, keys_exactly, hashable}

-- Refusal with its status and code; ValueError; TypeError.
pub data Fault : Type 0 where
  refusal : ℕ → String → Fault
  invalid type_error : Fault

pub data Provider : Type 0 where
  exa tavily : Provider

pub record Policy : Type 0 where
  pub provider : Provider
  pub monthly : ℕ
  pub daily : ℕ
  pub per_minute : ℕ
  pub max_results : ℕ
  pub max_content : ℕ

abbrev pub policy_keys : List String
policy_keys =
    "provider" ∷ "monthly_requests" ∷ "daily_requests" ∷ "requests_per_minute" ∷ "max_results"
    ∷ "max_content_chars" ∷ []

-- `provider not in PROVIDERS`
unfoldable pub read_provider : Json → Result Fault Provider
read_provider (str s) =
    if str_eq s "exa" then ok exa else if str_eq s "tavily" then ok tavily else err invalid
read_provider v = if hashable v then err invalid else err type_error

-- `type(n) is not int or not 1 <= n <= 100000`
unfoldable pub read_limit : Json → Result Fault ℕ
read_limit (int (pos n)) = if leb 1 n && leb n 100000 then ok n else err invalid
read_limit _ = err invalid

-- A limit that the caller sets on the content
unfoldable pub narrow : Option ℕ → ℕ → Result Fault ℕ
narrow none most = ok most
narrow (some n) most = if leb 1 n && leb n most then ok n else err invalid

unfoldable pub policy_object : Json → Result Fault Fields
policy_object (obj d) = ok d
policy_object _ = err invalid

unfoldable pub read_policy : Json → Option ℕ → Result Fault Policy
read_policy document content_limit = do
  d ← policy_object document
  require (keys_exactly policy_keys d) invalid
  provider ← read_provider (get_or d "provider" null)
  monthly ← read_limit (get_or d "monthly_requests" null)
  daily ← read_limit (get_or d "daily_requests" null)
  per_minute ← read_limit (get_or d "requests_per_minute" null)
  results ← read_limit (get_or d "max_results" null)
  content ← read_limit (get_or d "max_content_chars" null)
  require (leb results 3 && leb content 12000) invalid
  limit ← narrow content_limit content
  ok (record {
    provider = provider;
    monthly = monthly;
    daily = daily;
    per_minute = per_minute;
    max_results = results;
    max_content = limit;
  })

-- What an accepted policy allows.
pub record IsBounded (p : Policy) : Type 0 where
  pub month : (1 ≤ p.monthly) × (p.monthly ≤ 100000)
  pub day : (1 ≤ p.daily) × (p.daily ≤ 100000)
  pub minute : (1 ≤ p.per_minute) × (p.per_minute ≤ 100000)
  pub results : (1 ≤ p.max_results) × (p.max_results ≤ 3)
  pub content : (1 ≤ p.max_content) × (p.max_content ≤ 12000)

read_limit_sound : (v : Json) (n : ℕ) → read_limit v ≡ ok n → (1 ≤ n) × (n ≤ 100000)
unfolding read_limit
read_limit_sound v n h = ground arith

narrow_sound : (o : Option ℕ) (most n : ℕ) → 1 ≤ most → narrow o most ≡ ok n → (1 ≤ n) × (n ≤ most)
unfolding narrow
narrow_sound o most n low h = ground arith

-- An accepted policy has budgets between 1 and 100,000, at most three results, and at most 12,000
-- characters of content, whatever the caller asks for.
pub read_policy-IsBounded :
    (document : Json) (content_limit : Option ℕ) (p : Policy)
    → read_policy document content_limit ≡ ok p
    → IsBounded p
unfolding read_policy
read_policy-IsBounded document content_limit p h = succeeded (policy_object document) _ h λ d _ h.
    met_requirement (keys_exactly policy_keys d) _ _ h λ _ h.
      succeeded (read_provider (get_or d "provider" null)) _ h λ provider _ h.
        succeeded (read_limit (get_or d "monthly_requests" null)) _ h λ monthly e₁ h.
          succeeded (read_limit (get_or d "daily_requests" null)) _ h λ daily e₂ h.
            succeeded (read_limit (get_or d "requests_per_minute" null)) _ h λ per_minute e₃ h.
              succeeded (read_limit (get_or d "max_results" null)) _ h λ results e₄ h.
                succeeded (read_limit (get_or d "max_content_chars" null)) _ h λ content e₅ h.
                  met_requirement (leb results 3 && leb content 12000) _ _ h λ few h.
                    succeeded (narrow content_limit content) _ h λ limit e₆ h.
                      let (low, high) =
                        narrow_sound content_limit content limit (read_limit_sound _ content e₅).0
                          e₆ in
                      let policy : Policy = record {
                        provider = provider;
                        monthly = monthly;
                        daily = daily;
                        per_minute = per_minute;
                        max_results = results;
                        max_content = limit;
                      } in
                      let same : policy ≡ p = ground arith in
                      subst IsBounded same (record {
                        month = read_limit_sound _ monthly e₁;
                        day = read_limit_sound _ daily e₂;
                        minute = read_limit_sound _ per_minute e₃;
                        results = ((read_limit_sound _ results e₄).0, ground arith);
                        content = (low, ground arith);
                      })
