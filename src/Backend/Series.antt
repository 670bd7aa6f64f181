-- ===== src/Backend/Series.antt =====
-- lib/workstation/hyperloom_latency.py, `_series`: what a series that is accepted consists of.
use Prim.Native.String.{◌++◌ as join}
use arch_linux_threadripper.Prelude.{
  ◌⊎◌, ℕ, ◌≤◌, ◌≡◌, refl, String, true, false, not, ◌&&◌, Option, none, List, [], ◌∷◌, ◌++◌, map,
  ok, length, arith, succeeded, met_requirement, both_true, All, subst,
}
use arch_linux_threadripper.Json.{Json, get, Items, nil, cons, items_length, mem_str}
use arch_linux_threadripper.Exchange.Terms.{is_exactly, is_text, says_false, says_true, dictionary}
use arch_linux_threadripper.Backend.Samples.{Within, is_digest, bounded_text, Sample, read_sample}
use arch_linux_threadripper.Backend.Latency.{
  Policy, Case, sample_ids, case_prompts, read_samples, read_concurrency, list_between, read_case,
  read_cases, identity_keys, require_digests, read_namespace, Series, has_concurrency, read_series,
}
use arch_linux_threadripper.Backend.Measured.{IsSample, read_sample-IsSample}
use arch_linux_threadripper.Backend.Distinct.{
  AreDistinct, AreApart, apart_of_cons, apart_of_append, apart_append, distinct_append,
}

read_samples_sound :
    (within : Within) (prefix : String) (n : ℕ) (seen : List String) (expected : Option (List ℕ))
    (v : Items) (l : List Sample)
    → read_samples within prefix n seen expected v ≡ ok l
    → All (IsSample prefix n) l
      × AreApart seen (sample_ids l)
      × AreDistinct (sample_ids l)
      × (length l ≡ items_length v)
unfolding read_samples
read_samples_sound within prefix n seen expected nil l h =
    let same : [] ≡ l = cc in
    subst
      (λ l.
        All (IsSample prefix n) l
        × AreApart seen (sample_ids l)
        × AreDistinct (sample_ids l)
        × (length l ≡ 0))
      same (tt, tt, tt, refl)
read_samples_sound within prefix n seen expected (cons v rest) l h =
    succeeded (read_sample within prefix n seen expected v) _ h λ s e h.
      succeeded (read_samples within prefix n (s.id ∷ seen) (case_prompts expected s) rest) _ h
        λ later f h.
          let (good, new) = read_sample-IsSample within prefix n seen expected v s e in
          let (all_good, apart, distinct, long) =
            read_samples_sound within prefix n (s.id ∷ seen) (case_prompts expected s) rest later
              f in
          let (others, alone) = apart_of_cons s.id seen (sample_ids later) apart in
          let same : (s ∷ later) ≡ l = cc in
          subst
            (λ l.
              All (IsSample prefix n) l
              × AreApart seen (sample_ids l)
              × AreDistinct (sample_ids l)
              × (length l ≡ items_length (cons v rest)))
            same ((good, all_good), (new, others), (alone, distinct), omega (arith, long))

-- A case: one or two requests at once, between the policy's minimum and 32 samples.
pub record IsCase (minimum : ℕ) (prefix : String) (k : Case) : Type 0 where
  pub concurrency : (k.concurrency ≡ 1) ⊎ (k.concurrency ≡ 2)
  pub samples : All (IsSample prefix k.concurrency) k.samples
  pub enough : minimum ≤ length k.samples
  pub few : length k.samples ≤ 32

read_concurrency_sound : (v : Option Json) (n : ℕ) → read_concurrency v ≡ ok n → (n ≡ 1) ⊎ (n ≡ 2)
unfolding read_concurrency
read_concurrency_sound v n h = ground arith

list_between_sound :
    (low high : ℕ) (v : Option Json) (what : String) (xs : Items)
    → list_between low high v what ≡ ok xs
    → (low ≤ items_length xs) × (items_length xs ≤ high)
unfolding list_between
list_between_sound low high v what xs h = ground arith

read_case-IsCase :
    (within : Within) (minimum : ℕ) (prefix : String) (names seen : List String) (v : Json)
    (k : Case)
    → read_case within minimum prefix names seen v ≡ ok k
    → IsCase minimum prefix k
      × (mem_str k.name names ≡ false)
      × AreApart seen (sample_ids k.samples)
      × AreDistinct (sample_ids k.samples)
unfolding read_case
read_case-IsCase within minimum prefix names seen v k h =
    succeeded (dictionary v "latency case must be an object") _ h λ d _ h.
      succeeded (bounded_text 128 (get d "id") "unique latency case ID required") _ h λ name _ h.
        met_requirement (not (mem_str name names)) _ _ h λ new h.
          succeeded (read_concurrency (get d "concurrency")) _ h λ n e₁ h.
            met_requirement (is_digest (get d "request_contract_sha256")) _ _ h λ _ h.
              succeeded
                (list_between minimum 32 (get d "samples")
                  "insufficient or excessive independent latency samples")
                _ h
                λ items e₂ h.
                  succeeded (read_samples within prefix n seen none items) _ h λ samples e₃ h.
                    let (good, apart, distinct, long) =
                      read_samples_sound within prefix n seen none items samples e₃ in
                    let (low, high) = list_between_sound minimum 32 (get d "samples") _ items e₂ in
                    let found : Case = record {
                      name = name;
                      concurrency = n;
                      contract = get d "request_contract_sha256";
                      samples = samples;
                    } in
                    let same : found ≡ k = cc in
                    subst
                      (λ k.
                        IsCase minimum prefix k
                        × (mem_str k.name names ≡ false)
                        × AreApart seen (sample_ids k.samples)
                        × AreDistinct (sample_ids k.samples))
                      same
                      (
                        record {
                          concurrency = read_concurrency_sound (get d "concurrency") n e₁;
                          samples = good;
                          enough = omega (arith, long, low);
                          few = omega (arith, long, high);
                        },
                        ground arith,
                        apart,
                        distinct,
                      )

abbrev pub case_names : List Case → List String
case_names = map (λ k. k.name)

-- The names of all samples of a series
abbrev pub all_ids : List Case → List String
all_ids [] = []
all_ids (k ∷ rest) = sample_ids k.samples ++ all_ids rest

-- What the loop over the cases has found
pub record AreCases (minimum : ℕ) (prefix : String) (names seen : List String) (ks : List Case)
    : Type 0 where
  pub each : All (IsCase minimum prefix) ks
  pub new_names : AreApart names (case_names ks)
  pub own_names : AreDistinct (case_names ks)
  pub new_ids : AreApart seen (all_ids ks)
  pub own_ids : AreDistinct (all_ids ks)

read_cases-AreCases :
    (within : Within) (minimum : ℕ) (prefix : String) (names seen : List String) (v : Items)
    (ks : List Case)
    → read_cases within minimum prefix names seen v ≡ ok ks
    → AreCases minimum prefix names seen ks
unfolding read_cases
read_cases-AreCases within minimum prefix names seen nil ks h =
    let same : [] ≡ ks = cc in
    subst (AreCases minimum prefix names seen) same
      (record { each = tt; new_names = tt; own_names = tt; new_ids = tt; own_ids = tt })
read_cases-AreCases within minimum prefix names seen (cons v rest) ks h =
    succeeded (read_case within minimum prefix names seen v) _ h λ k e h.
      succeeded
        (read_cases within minimum prefix (k.name ∷ names) (sample_ids k.samples ++ seen) rest) _ h
        λ later f h.
          let (good, new, apart, distinct) =
            read_case-IsCase within minimum prefix names seen v k e in
          let i =
            read_cases-AreCases within minimum prefix (k.name ∷ names)
              (sample_ids k.samples ++ seen) rest later f in
          let (other_names, alone) = apart_of_cons k.name names (case_names later) i.new_names in
          let (own, before) =
            apart_of_append (all_ids later) (sample_ids k.samples) seen i.new_ids in
          let same : (k ∷ later) ≡ ks = cc in
          subst (AreCases minimum prefix names seen) same (record {
            each = (good, i.each);
            new_names = (new, other_names);
            own_names = (alone, i.own_names);
            new_ids = apart_append seen (sample_ids k.samples) (all_ids later) apart before;
            own_ids = distinct_append (sample_ids k.samples) (all_ids later) distinct i.own_ids own;
          })

-- A series that is accepted
pub record IsSeries (policy : Policy) (v : Series) : Type 0 where
  pub cases : All (IsCase policy.minimum_samples (join v.nonce (join ":" (join v.arm ":")))) v.cases
  pub names : AreDistinct (case_names v.cases)
  pub ids : AreDistinct (all_ids v.cases)
  pub single : has_concurrency 1 v.cases ≡ true
  pub paired : has_concurrency 2 v.cases ≡ true

-- In a series that is accepted no case and no sample is counted twice: the cases have distinct names,
-- and so have the samples of all cases together. Each case runs one or two requests at once and has at
-- least the policy's minimum of samples and at most 32; each sample carries the observation and the arm
-- of the series in its name, and has one positive time and one count of either kind for each request.
-- Both concurrencies occur.
pub read_series-IsSeries :
    (within : Within) (v : Json) (policy : Policy) (series : Series)
    → read_series within v policy ≡ ok series
    → IsSeries policy series
unfolding read_series
read_series-IsSeries within v policy series h =
    succeeded (dictionary v "latency measurement schema") _ h λ d _ h.
      met_requirement (is_exactly 1 (get d "schema")) _ _ h λ _ h.
        met_requirement
          (is_text "serving" (get d "kind")
            && says_false (get d "profiled")
            && says_true (get d "complete")
            && says_true (get d "quality_passed")
            && says_true (get d "independent_release"))
          _ _ h
          λ _ h. succeeded (require_digests d identity_keys) _ h λ _ _ h.
            succeeded (read_namespace d) _ h λ space _ h.
              succeeded (list_between 2 64 (get d "cases") "bounded C1/C2 cases required") _ h
                λ items _ h.
                  succeeded
                    (read_cases within policy.minimum_samples
                      (join space.0 (join ":" (join space.1 ":"))) [] [] items)
                    _ h
                    λ cases e h.
                      met_requirement (has_concurrency 1 cases && has_concurrency 2 cases) _ _ h
                        λ both h.
                          let i =
                            read_cases-AreCases within policy.minimum_samples
                              (join space.0 (join ":" (join space.1 ":"))) [] [] items cases e in
                          let (single, paired) =
                            both_true (has_concurrency 1 cases) (has_concurrency 2 cases) both in
                          let found : Series = record {
                            document = d;
                            nonce = space.0;
                            arm = space.1;
                            cases = cases;
                          } in
                          let same : found ≡ series = cc in
                          subst (IsSeries policy) same (record {
                            cases = i.each;
                            names = i.own_names;
                            ids = i.own_ids;
                            single = single;
                            paired = paired;
                          })
