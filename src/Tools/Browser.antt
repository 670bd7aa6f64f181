-- ===== src/Tools/Browser.antt =====
-- apps/base/shared-api/service_tools.py: `browser_search` and `browser_fetch`, the routes of the web interface's own
-- search.
use arch_linux_threadripper.Prelude.{
  ℕ, ◌≡◌, ◌≢◌, refl, String, false, Option, List, [], ◌∷◌, Result, ok, err, if◌then◌else◌,
}
use arch_linux_threadripper.Json.{Json, str, obj, Fields, get_or, keys_exactly, null}
use arch_linux_threadripper.Gateway.State as Gateway
use arch_linux_threadripper.Gateway.Auth.{
  browser_key, check_application, IsProvisioned, browser_key-IsProvisioned,
}
use arch_linux_threadripper.Gateway.Body.{read_body}
use arch_linux_threadripper.Tools.State.{
  Failure, refusal, late, value_error, type_error, missing_key, os_error, Tools, Environment, M,
  ◌>>=◌, ◌>>◌, continue_with, lift_result,
}
use arch_linux_threadripper.Tools.Upstream.{decode}
use arch_linux_threadripper.Tools.Requests.{Call, translate}
use arch_linux_threadripper.Tools.Image.{Reply}
use arch_linux_threadripper.Tools.Mcp.{WebSearch, check_origin, require_web_search, error_reply}

-- The identity of the caller, as the key's translation finds it
unfoldable pub identify : Call → Result Failure (Json × List ℕ)
identify call = elim call.credentials [
  | err e ↦ err e
  | ok credentials ↦ translate (browser_key call.headers false credentials call.time false)
]

unfoldable pub search_body : Environment → Option WebSearch → Call → M Json
search_body env web call = do
  body ← lift_result (translate (read_body 4096 call.messages))
  value ← lift_result (decode env body.0)
  enabled ← lift_result (require_web_search web)
  enabled.search value

-- The `try` block of `browser_search`, for the text of the `origin` header
unfoldable pub browser_search_body : Environment → Option WebSearch → String → Call → M Json
browser_search_body env web origin call = do
  lift_result (check_origin origin)
  identity ← lift_result (identify call)
  search_body env web call

-- The `except` clauses of the two routes; a TimeoutError is an OSError.
unfoldable pub excuse_browser : String → Result Failure Json → Result Failure Reply
excuse_browser code (ok value) =
    ok (record { status = 200; body = value; headers = ("Cache-Control", "no-store") ∷ [] })
excuse_browser code (err (refusal status reason)) = ok (error_reply status reason)
excuse_browser code (err os_error) = ok (error_reply 503 code)
excuse_browser code (err late) = ok (error_reply 503 code)
excuse_browser code (err value_error) = ok (error_reply 503 code)
excuse_browser code (err type_error) = ok (error_reply 503 code)
excuse_browser code (err missing_key) = ok (error_reply 503 code)
excuse_browser code (err e) = err e

-- `browser_search`
unfoldable pub browser_search : Environment → Option WebSearch → String → Call → M Reply
browser_search env web origin call s = (
  excuse_browser "web_search_unavailable" (browser_search_body env web origin call s).0,
  (browser_search_body env web origin call s).1,
)

unfoldable pub read_fetch : Json → Result Failure Json
read_fetch (obj d) =
    if keys_exactly ("urls" ∷ []) d
    then ok (get_or d "urls" null)
    else err (refusal 400 "invalid_tool_arguments")
read_fetch _ = err (refusal 400 "invalid_tool_arguments")

-- The `try` block of `browser_fetch`, which asks only for the application's credential
unfoldable pub browser_fetch_body : Environment → Option WebSearch → String → Call → M Json
browser_fetch_body env web origin call = do
  lift_result (check_origin origin)
  credentials ← lift_result call.credentials
  lift_result (
      translate (
        check_application (Gateway.header_or_empty call.headers "authorization")
          (get_or credentials "service_key" (str ""))))
  body ← lift_result (translate (read_body 8192 call.messages))
  value ← lift_result (decode env body.0)
  urls ← lift_result (read_fetch value)
  enabled ← lift_result (require_web_search web)
  enabled.extract urls

-- `browser_fetch`
unfoldable pub browser_fetch : Environment → Option WebSearch → String → Call → M Reply
browser_fetch env web origin call s = (
  excuse_browser "web_page_unavailable" (browser_fetch_body env web origin call s).0,
  (browser_fetch_body env web origin call s).1,
)

-- Who asked, and what was shown for it
pub record IsCaller (call : Call) : Type 0 where
  pub credentials : Fields
  pub key : Json
  pub uid : List ℕ
  pub read : call.credentials ≡ ok credentials
  pub provisioned : IsProvisioned call.headers false credentials call.time false key uid

translated_ok :
    (r : Result Gateway.Failure (Json × List ℕ)) (a : Json × List ℕ) → translate r ≡ ok a → r ≡ ok a
translated_ok (ok b) a h = cc
translated_ok (err e) a h = cc

identify-IsCaller : (call : Call) (a : Json × List ℕ) → identify call ≡ ok a → IsCaller call
unfolding identify
identify-IsCaller call (key, uid) h = known call.credentials refl h
  where
    known :
        (r : Result Failure Fields)
        → call.credentials ≡ r
        → elim r [
          | err e ↦ err e
          | ok c ↦ translate (browser_key call.headers false c call.time false)
        ]
          ≡ ok (key, uid)
        → IsCaller call
    known (err e) same x = absurd (cc x)
    known (ok c) same x = record {
      credentials = c;
      key = key;
      uid = uid;
      read = same;
      provisioned =
          browser_key-IsProvisioned call.headers false c call.time false key uid
            (translated_ok (browser_key call.headers false c call.time false) (key, uid) x);
    }

changed_IsCaller :
    {A : Type 0} (call : Call) (r : Result Failure (Json × List ℕ)) (k : Json × List ℕ → M A)
    (s : Tools)
    → identify call ≡ r
    → (continue_with k (lift_result r s)).1 ≢ s
    → IsCaller call
changed_IsCaller call (ok a) k s e h = identify-IsCaller call a e
changed_IsCaller call (err f) k s e h = absurd (h refl)

-- A search through the web interface does anything at all only for a listed, unexpired user of the application, whose
-- credential the request carries.
pub browser_search-IsCaller :
    (env : Environment) (web : Option WebSearch) (origin : String) (call : Call) (s : Tools)
    → (browser_search env web origin call s).1 ≢ s
    → IsCaller call
unfolding browser_search browser_search_body
browser_search-IsCaller env web origin call s h = judged (check_origin origin) h
  where
    judged :
        (r : Result Failure (Unit {0}))
        → (continue_with
            (λ _. lift_result (identify call) >>= λ _. search_body env web call)
            (lift_result r s)).1
          ≢ s
        → IsCaller call
    judged (ok a) x = changed_IsCaller call (identify call) (λ _. search_body env web call) s refl x
    judged (err e) x = absurd (x refl)
