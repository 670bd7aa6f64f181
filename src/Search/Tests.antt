-- ===== src/Search/Tests.antt =====
-- apps/base/shared-api/web_search.py: a policy, two requests in one minute, and a response.
use arch_linux_threadripper.Prelude.{
  ℕ, ◌≤◌, ◌≡◌, refl, Option, none, some, List, [], ◌∷◌, Result, ok, err, length,
}
use arch_linux_threadripper.Prelude.Int.{pos}
use arch_linux_threadripper.Prelude.Assoc.{find, place}
use arch_linux_threadripper.Json.{Json, int, str, obj, end, field}
use arch_linux_threadripper.Search.Policy.{
  Fault, refusal, exa, Policy, read_policy, read_provider, read_limit, narrow, policy_object,
  read_policy-IsBounded,
}
use arch_linux_threadripper.Search.Budget.{
  Stamp, no_usage, check_period, add_one, reserve_usage, reserve, Search, begin_request,
  end_request,
}
use arch_linux_threadripper.Search.Response.{
  max_response, receive_parts, decode_response, read_response, whole_response, read_response_sound,
}
use arch_linux_threadripper.Search.Ledger.{fresh, began, ended, IsAccounted, Reach-IsAccounted}

abbrev policy_document : Json
policy_document = obj (
    field "provider" (str "exa") (
      field "monthly_requests" (int (pos 100)) (
        field "daily_requests" (int (pos 10)) (
          field "requests_per_minute" (int (pos 1)) (
            field "max_results" (int (pos 3)) (field "max_content_chars" (int (pos 12000)) end))))))

abbrev policy : Policy
policy = record {
  provider = exa;
  monthly = 100;
  daily = 10;
  per_minute = 1;
  max_results = 3;
  max_content = 4000;
}

policy_is_read : read_policy policy_document (some 4000) ≡ ok policy
unfolding read_policy read_provider read_limit narrow policy_object
policy_is_read = refl

abbrev moment : Stamp
moment = record { month = "2026-01"; day = "2026-01-05"; minute = "2026-01-05T10:00" }

abbrev nothing_yet : Search
nothing_yet = record { usage = no_usage; active = 0 }

abbrev search_or : Search → Result Fault Search → Search
search_or s (ok t) = t
search_or s (err f) = s

abbrev after_one : Search
after_one = search_or nothing_yet (begin_request policy (ok "k") moment none nothing_yet)

request_begins : begin_request policy (ok "k") moment none nothing_yet ≡ ok after_one
unfolding begin_request reserve reserve_usage check_period add_one find place
request_begins = refl

minute_is_spent :
    begin_request policy (ok "k") moment none after_one
    ≡ err (refusal 429 "web_search_minute_limit")
unfolding begin_request reserve reserve_usage check_period add_one find place
minute_is_spent = refl

Reach-IsAccounted_example : IsAccounted policy (moment ∷ []) (end_request after_one)
Reach-IsAccounted_example =
    Reach-IsAccounted policy (moment ∷ []) (end_request after_one)
      (read_policy-IsBounded policy_document (some 4000) policy policy_is_read)
      (ended (moment ∷ []) after_one
        (began [] nothing_yet after_one (ok "k") moment none fresh request_begins))

abbrev loads_example : List ℕ → Option Json
loads_example b = some (obj end)

response_is_read : read_response loads_example 200 (some (123 ∷ []) ∷ some (125 ∷ []) ∷ []) ≡ ok end
unfolding read_response receive_parts decode_response
response_is_read = refl

read_response_sound_example :
    (◌≡◌ {A = ℕ} 200 200)
    × ((bytes : List ℕ) × (whole_response (some (123 ∷ []) ∷ some (125 ∷ []) ∷ []) ≡ some bytes)
        × (length bytes ≤ max_response)
        × (loads_example bytes ≡ some (obj end)))
read_response_sound_example =
    read_response_sound loads_example 200 (some (123 ∷ []) ∷ some (125 ∷ []) ∷ []) end
      response_is_read
