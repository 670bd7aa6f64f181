-- ===== src/Gateway/Admission.antt =====
-- apps/base/shared-api/boundary.py, `GatewayBoundary.chat`: what an admitted request has shown.
use arch_linux_threadripper.Prelude.{
  ℕ, ◌≤◌, ◌<◌, String, ◌≡◌, refl, ap, ◌∙◌, not, raise_if, Bool, true, false, none, some, arith, ok,
  length, >>=-eq-ok, str_eq, eq_refl, Bool-cases, inl, inr,
}
use arch_linux_threadripper.Prelude.Int.{pos, negsuc}
use arch_linux_threadripper.Json.{
  Json, null, int, str, Fields, get, get_or, contains, pop, put, keys_within, mem_str, eq_str,
  eq_nat, int_within,
}
use arch_linux_threadripper.Json.Laws.{get-pop, get-put, keys_within-put}
use arch_linux_threadripper.Gateway.State.{Failure, refusal, Gateway, output_cap}
use arch_linux_threadripper.Gateway.Control.{is_ready}
use arch_linux_threadripper.Gateway.Chat.{
  chat_fields, chat_model, limit_field, admit_for, admit_fields,
}

-- The request to forward, against the gateway that admits it.
pub record IsAdmitted (g : Gateway) (sent : Fields) : Type 0 where
  pub is_serving : is_ready g.phase ≡ true
  pub has_room : length g.active < 4
  pub model : String
  pub cap : ℕ
  pub known : output_cap model ≡ some cap
  pub asked : get sent "model" ≡ some (str model)
  pub served : eq_str g.model model ≡ true
  pub limit : ℕ
  pub limited : get sent (limit_field sent) ≡ some (int (pos limit))
  pub positive : 1 ≤ limit
  pub within : limit ≤ cap
  pub unambiguous :
      contains sent "max_tokens" ≡ true → contains sent "max_completion_tokens" ≡ false
  pub single : eq_nat (get_or sent "n" (int (pos 1))) 1 ≡ true
  pub anonymous : get sent "user" ≡ none
  pub allowed : keys_within chat_fields sent ≡ true

chat_model_sound :
    (v : Json) (m : String) (c : ℕ)
    → chat_model v ≡ ok (m, c)
    → (v ≡ str m) × (output_cap m ≡ some c)
unfolding chat_model
chat_model_sound (str s) m c h = ground arith
chat_model_sound _ m c h = ground arith

within_limits :
    (v : Json) (cap : ℕ)
    → int_within 1 cap v ≡ true
    → (n : ℕ) × (v ≡ int (pos n)) × (1 ≤ n) × (n ≤ cap)
within_limits (int (pos n)) cap h = (n, refl, ground arith, ground arith)
within_limits (int (negsuc n)) cap h = cc
within_limits _ cap h = cc

not_raised : (b : Bool) (f : Failure) → raise_if (not b) f ≡ ok tt → b ≡ true
not_raised true f h = refl
not_raised false f h = cc

same_default :
    (a b : Fields) (k : String) (v : Json) → get a k ≡ get b k → get_or a k v ≡ get_or b k v
same_default a b k v h = ground arith

found_text : (d : Fields) (k s : String) → get_or d k null ≡ str s → get d k ≡ some (str s)
found_text d k s h = ground arith

-- The write of the output limit leaves every other entry alone.
module _ (request : Fields) (v : Json) where
  other_entry :
      (k : String)
      → str_eq "max_tokens" k ≡ false
      → str_eq "max_completion_tokens" k ≡ false
      → get (put request (limit_field request) v) k ≡ get request k
  other_entry k a b = elim (Bool-cases (contains request "max_completion_tokens")) [
    | inl e ↦ rw (e, get-put, b)
    | inr e ↦ rw (e, get-put, a)
  ]

  own_entry : get (put request (limit_field request) v) (limit_field request) ≡ some v
  own_entry = rw (get-put, eq_refl)

  contains_completion :
      contains (put request (limit_field request) v) "max_completion_tokens"
      ≡ contains request "max_completion_tokens"
  contains_completion = elim (Bool-cases (contains request "max_completion_tokens")) [
    | inl e ↦ rw (e, get-put)
    | inr e ↦ rw (e, get-put) e
  ]

  -- The field that carries the limit is the same after the write.
  same_field : limit_field (put request (limit_field request) v) ≡ limit_field request
  same_field = rw contains_completion

  single_limit :
      (contains request "max_tokens" ≡ true → contains request "max_completion_tokens" ≡ false)
      → contains (put request (limit_field request) v) "max_tokens" ≡ true
      → contains (put request (limit_field request) v) "max_completion_tokens" ≡ false
  single_limit one h = elim (Bool-cases (contains request "max_completion_tokens")) [
    | inl e ↦ let h' : contains request "max_tokens" ≡ true = rw (e, get-put) at h in cc (e, one h')
    | inr e ↦ contains_completion ∙ e
  ]

  limit_field_is_allowed : mem_str (limit_field request) chat_fields ≡ true
  limit_field_is_allowed = elim (Bool-cases (contains request "max_completion_tokens")) [
    | inl e ↦ rw e
    | inr e ↦ rw e
  ]

module _ (g : Gateway) (request : Fields) (model : String) (cap : ℕ) where
  -- What `admit_for` has tested.
  record Tests (sent : Fields) : Type 0 where
    serving : is_ready g.phase ≡ true
    served : eq_str g.model model ≡ true
    room : length g.active < 4
    single : eq_nat (get_or request "n" (int (pos 1))) 1 ≡ true
    one_limit :
        contains request "max_tokens" ≡ true → contains request "max_completion_tokens" ≡ false
    within : int_within 1 cap (get_or request (limit_field request) (int (pos cap))) ≡ true
    written :
        sent
        ≡ put request (limit_field request) (get_or request (limit_field request) (int (pos cap)))

  admit_for-Tests : (sent : Fields) → admit_for g request (model, cap) ≡ ok sent → Tests sent
  unfolding admit_for
  admit_for-Tests sent h = ground arith

  admitted :
      (sent : Fields)
      → output_cap model ≡ some cap
      → get request "model" ≡ some (str model)
      → get request "user" ≡ none
      → keys_within chat_fields request ≡ true
      → Tests sent
      → IsAdmitted g sent
  admitted sent known asked anonymous allowed t =
      let v = get_or request (limit_field request) (int (pos cap)) in
      let (n, e, low, high) = within_limits v cap t.within in
      rw t.written (record {
        is_serving = t.serving;
        has_room = t.room;
        model = model;
        cap = cap;
        known = known;
        asked = rw other_entry asked;
        served = t.served;
        limit = n;
        limited = rw same_field (own_entry request v ∙ ap some e);
        positive = low;
        within = high;
        unambiguous = single_limit request v t.one_limit;
        single =
            ap (λ (j : Json). eq_nat j 1)
              (same_default (put request (limit_field request) v) request "n" (int (pos 1))
                (other_entry request v "n" refl refl))
            ∙ t.single;
        anonymous = rw other_entry anonymous;
        allowed =
            keys_within-put chat_fields request (limit_field request) v allowed
              (limit_field_is_allowed request v);
      })

-- An admitted chat request meets a ready gateway that serves the requested model and has fewer than
-- four active requests. What goes to the backend names that model, asks for one completion, carries
-- one output limit between 1 and the model's cap, and has no user field and no unlisted field.
pub admit_fields-IsAdmitted :
    (g : Gateway) (given sent : Fields) → admit_fields g given ≡ ok sent → IsAdmitted g sent
unfolding admit_fields
admit_fields-IsAdmitted g given sent h =
    let request = pop given "user" in
    let (_, listed, h₁) =
      >>=-eq-ok
        (raise_if (not (keys_within chat_fields request)) (refusal 400 "unsupported_request_field"))
        _ h in
    let ((model, cap), known, h₂) = >>=-eq-ok (chat_model (get_or request "model" null)) _ h₁ in
    let (asked, limits) = chat_model_sound (get_or request "model" null) model cap known in
    admitted g request model cap sent limits (found_text request "model" model asked) (rw get-pop)
      (not_raised (keys_within chat_fields request) _ listed)
      (admit_for-Tests g request model cap sent h₂)
