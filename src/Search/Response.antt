-- ===== src/Search/Response.antt =====
-- apps/base/shared-api/web_search.py, `request`: the provider's response, read under a bound.
use arch_linux_threadripper.Prelude.{
  ℕ, ◌*◌, ◌≤◌, ◌≡◌, refl, not, Option, none, some, List, [], ◌∷◌, ◌++◌, ltb, ◌==◌, Result, ok, err,
  ◌>>=◌, ◌>>◌, raise_if, if◌then◌else◌, length, arith, succeeded, passed_guard, subst, ◌∙◌,
}
use mathlib.Core.List.{append_assoc, append-nil}
use arch_linux_threadripper.Json.{Json, obj, Fields}
use arch_linux_threadripper.Search.Policy.{Fault, refusal}

abbrev pub max_response : ℕ
max_response = 2 * 1024 * 1024

-- The parts of the response's body; a part that is missing stands for a failing or late transfer.
unfoldable pub receive_parts : List (Option (List ℕ)) → List ℕ → Result Fault (List ℕ)
receive_parts [] raw = ok raw
receive_parts (none ∷ rest) raw = err (refusal 503 "web_search_provider_unavailable")
receive_parts (some part ∷ rest) raw =
    let later = receive_parts rest (raw ++ part) in
    if ltb max_response (length (raw ++ part))
    then err (refusal 502 "web_search_response_too_large")
    else later

-- json.loads: a ValueError is the provider's.
unfoldable pub decode_response : Option Json → Result Fault Fields
decode_response none = err (refusal 503 "web_search_provider_unavailable")
decode_response (some (obj d)) = ok d
decode_response (some _) = err (refusal 502 "web_search_invalid_response")

unfoldable pub read_response :
    (List ℕ → Option Json) → ℕ → List (Option (List ℕ)) → Result Fault Fields
read_response loads status parts = do
  raise_if (status == 429) (refusal 429 "web_search_provider_limit")
  raise_if (not (status == 200)) (refusal 503 "web_search_provider_unavailable")
  raw ← receive_parts parts []
  decode_response (loads raw)

-- The whole body, if every part has come.
abbrev pub whole_response : List (Option (List ℕ)) → Option (List ℕ)
whole_response [] = some []
whole_response (none ∷ rest) = none
whole_response (some part ∷ rest) = elim (whole_response rest) [
  | none ↦ none
  | some later ↦ some (part ++ later)
]

receive_parts_sound :
    (parts : List (Option (List ℕ))) (raw result : List ℕ)
    → length raw ≤ max_response
    → receive_parts parts raw ≡ ok result
    → (bytes : List ℕ) × (whole_response parts ≡ some bytes)
      × (result ≡ raw ++ bytes)
      × (length result ≤ max_response)
unfolding receive_parts
receive_parts_sound [] raw result low h = ([], refl, ground (arith, append-nil raw), ground arith)
receive_parts_sound (none ∷ rest) raw result low h = absurd (cc)
receive_parts_sound (some part ∷ rest) raw result low h =
    let fits : length (raw ++ part) ≤ max_response = ground arith in
    let h' : receive_parts rest (raw ++ part) ≡ ok result = ground arith in
    let (later, e, r, bound) = receive_parts_sound rest (raw ++ part) result fits h' in
    (part ++ later, rw e refl, r ∙ append_assoc raw part later, bound)

decode_response_sound : (o : Option Json) (d : Fields) → decode_response o ≡ ok d → o ≡ some (obj d)
unfolding decode_response
decode_response_sound o d h = ground arith

-- A response is used only if its status is 200, all of it has come, it has at most 2,097,152 bytes, and
-- these decode to an object, which is the result.
pub read_response_sound :
    (loads : List ℕ → Option Json) (status : ℕ) (parts : List (Option (List ℕ))) (d : Fields)
    → read_response loads status parts ≡ ok d
    → (status ≡ 200)
      × ((bytes : List ℕ) × (whole_response parts ≡ some bytes)
          × (length bytes ≤ max_response)
          × (loads bytes ≡ some (obj d)))
unfolding read_response
read_response_sound loads status parts d h = passed_guard (status == 429) _ _ h λ _ h.
    passed_guard (not (status == 200)) _ _ h λ good h.
      succeeded (receive_parts parts []) _ h λ raw e h.
        let (bytes, whole, same, bound) = receive_parts_sound parts [] raw (ground arith) e in
        (
          ground arith,
          (
            bytes,
            whole,
            subst (λ (b : List ℕ). length b ≤ max_response) same bound,
            subst (λ (b : List ℕ). loads b ≡ some (obj d)) same
                (decode_response_sound (loads raw) d h),
          ),
        )
