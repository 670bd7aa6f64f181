-- ===== src/Backend/Measured.antt =====
-- lib/workstation/hyperloom_latency.py, `_series`: what a sample that is accepted consists of.
use Prim.Native.String.{◌++◌ as join}
use arch_linux_threadripper.Prelude.{
  ℕ, suc, ◌≡◌, refl, String, true, false, not, ◌&&◌, Option, some, List, ◌∷◌, ok, length, all,
  arith, succeeded, met_requirement, both_true, subst, ap, sym, ◌∙◌, str_eq, eq_iff,
}
use arch_linux_threadripper.Json.{
  Json, null, Fields, get, get_or, Items, nil, cons, items_length, items_list, mem_str,
}
use arch_linux_threadripper.Exchange.Terms.{is_exactly, says_false, says_true, dictionary}
use arch_linux_threadripper.Backend.Samples.{
  Within, is_positive, is_digest, bounded_text, list_of, natural, naturals, read_counts,
  segments_fit, all_positive, Sample, read_sample_id, read_times, same_prompts, read_sample,
}

-- A sample of a case: as many times and counts as requests at once, and the case's prefix in its name.
pub record IsSample (prefix : String) (concurrency : ℕ) (s : Sample) : Type 0 where
  pub times : length s.times ≡ concurrency
  pub prompts : length s.prompts ≡ concurrency
  pub completions : length s.completions ≡ concurrency
  pub group : String
  pub named : s.id ≡ join prefix group
  pub positive : all is_positive s.times ≡ true

items_list-length : (xs : Items) → length (items_list xs) ≡ items_length xs
items_list-length nil = refl
items_list-length (cons x xs) = omega (arith, items_list-length xs)

list_of_sound :
    (n : ℕ) (v : Option Json) (what : String) (xs : Items)
    → list_of n v what ≡ ok xs
    → items_length xs ≡ n
unfolding list_of
list_of_sound n v what xs h = ground arith

length-naturals :
    (xs : Items) (what : String) (ns : List ℕ)
    → naturals xs what ≡ ok ns
    → length ns ≡ items_length xs
unfolding naturals
length-naturals nil what ns h = ground arith
length-naturals (cons v xs) what ns h = succeeded (natural v what) _ h λ n _ h.
    succeeded (naturals xs what) _ h λ later e h.
      let same : (n ∷ later) ≡ ns = cc in
      ap length (sym same) ∙ ap suc (length-naturals xs what later e)

length-read_counts :
    (n : ℕ) (d : Fields) (key : String) (ns : List ℕ) → read_counts n d key ≡ ok ns → length ns ≡ n
unfolding read_counts
length-read_counts n d key ns h =
    succeeded (list_of n (get d key) _) _ h
      λ xs e h. length-naturals xs _ ns h ∙ list_of_sound n (get d key) _ xs e

read_sample_id_sound :
    (prefix : String) (seen : List String) (d : Fields) (id : String)
    → read_sample_id prefix seen d ≡ ok id
    → (mem_str id seen ≡ false) × ((group : String) × (id ≡ join prefix group))
unfolding read_sample_id
read_sample_id_sound prefix seen d id h =
    succeeded (bounded_text 128 (get d "id") _) _ h λ found _ h.
      succeeded (bounded_text 80 (get d "group_id") _) _ h λ group _ h.
        met_requirement (str_eq found (join prefix group) && not (mem_str found seen)) _ _ h
          λ both h.
            let same : found ≡ id = cc in
            let (named, new) =
              both_true (str_eq found (join prefix group)) (not (mem_str found seen)) both in
            subst (λ id. (mem_str id seen ≡ false) × ((group : String) × (id ≡ join prefix group)))
              same (ground arith, (group, ground (arith, eq_iff found (join prefix group))))

read_times_sound :
    (within : Within) (n : ℕ) (d : Fields) (times : List Json)
    → read_times within n d ≡ ok times
    → (length times ≡ n) × (all is_positive times ≡ true)
unfolding read_times
read_times_sound within n d times h = succeeded (list_of n (get d "request_e2e_ms") _) _ h λ xs e h.
    met_requirement
      (all is_positive (items_list xs)
        && is_positive (get_or d "group_wall_ms" null)
        && all (λ v. within v (get_or d "group_wall_ms" null)) (items_list xs))
      _ _ h
      λ good h.
        let (good, _) = both_true _ _ good in
        let (first, _) = both_true _ _ good in
        let same : items_list xs ≡ times = cc in
        subst (λ l. (length l ≡ n) × (all is_positive l ≡ true)) same
          (items_list-length xs ∙ list_of_sound n (get d "request_e2e_ms") _ xs e, first)

pub read_sample-IsSample :
    (within : Within) (prefix : String) (n : ℕ) (seen : List String) (expected : Option (List ℕ))
    (v : Json) (s : Sample)
    → read_sample within prefix n seen expected v ≡ ok s
    → IsSample prefix n s × (mem_str s.id seen ≡ false)
unfolding read_sample
read_sample-IsSample within prefix n seen expected v s h =
    succeeded (dictionary v "latency sample must be an object") _ h λ d _ h.
      succeeded (read_sample_id prefix seen d) _ h λ id e₁ h.
        succeeded (read_times within n d) _ h λ times e₂ h.
          met_requirement (says_false (get d "warmup") && is_exactly n (get d "completed")) _ _ h
            λ _ h. succeeded (read_counts n d "prompt_tokens") _ h λ prompts e₃ h.
              succeeded (read_counts n d "completion_tokens") _ h λ completions e₄ h.
                succeeded (read_counts n d "reasoning_tokens") _ h λ reasoning _ h.
                  succeeded (read_counts n d "final_tokens") _ h λ final _ h.
                    met_requirement
                      (all_positive prompts
                        && all_positive completions
                        && all_positive final
                        && segments_fit reasoning final completions)
                      _ _ h
                      λ _ h.
                        succeeded
                          (list_of n (get d "response_sha256")
                            "sample quality/response binding required")
                          _ h
                          λ responses _ h.
                            met_requirement
                              (all (λ r. is_digest (some r)) (items_list responses)
                                && says_true (get d "task_quality_passed"))
                              _ _ h
                              λ _ h. met_requirement (same_prompts expected prompts) _ _ h λ _ h.
                                let (new, (group, named)) =
                                  read_sample_id_sound prefix seen d id e₁ in
                                let (long, good) = read_times_sound within n d times e₂ in
                                let sample : Sample = record {
                                  id = id;
                                  times = times;
                                  wall = get_or d "group_wall_ms" null;
                                  prompts = prompts;
                                  completions = completions;
                                } in
                                let same : sample ≡ s = cc in
                                subst (λ s. IsSample prefix n s × (mem_str s.id seen ≡ false)) same
                                  (
                                    record {
                                      times = long;
                                      prompts = length-read_counts n d "prompt_tokens" prompts e₃;
                                      completions =
                                          length-read_counts n d "completion_tokens" completions e₄;
                                      group = group;
                                      named = named;
                                      positive = good;
                                    },
                                    new,
                                  )
