-- ===== src/Gateway/Route.antt =====
-- apps/base/shared-api/boundary.py, `GatewayBoundary.__call__`: the routes, the headers that go on,
-- and what becomes of each failure.
use arch_linux_threadripper.Prelude.{
  ℕ, ◌-◌, String, Bool, true, false, ◌||◌, List, [], ◌∷◌, ◌++◌, map, max, if◌then◌else◌, Result, ok,
  err, ◌>>=◌, length, any, str_eq,
}
use arch_linux_threadripper.Prelude.Text.{codes, text_eq, has_prefix, utf8}
use arch_linux_threadripper.Json.{Json, str, obj, Fields}
use arch_linux_threadripper.Gateway.State.{
  Failure, refusal, invalid_json, configuration, timed_out, Phase, ready, starting, draining,
  unavailable, maintenance, Active, Gateway, Headers, World, phase_line, active_requests,
  oldest_request, requests_total, Sent, start, metrics_text, reply, status_document, error_document,
  refusal_document, count_refusal, count_backend_error,
}
use arch_linux_threadripper.Gateway.Auth.{browser_key}
use arch_linux_threadripper.Gateway.Body.{Message}
use arch_linux_threadripper.Gateway.Control.{control}
use arch_linux_threadripper.Gateway.Chat.{Forwarded, chat, Ending, Finished, finish}

-- The part of an ASGI scope that the boundary reads and writes.
pub record Scope : Type 0 where
  pub is_http : Bool
  pub is_post : Bool
  pub path : List ℕ
  pub headers : Headers

-- What the handler does next: it has sent a response, hands the request to the application behind
-- it, or hands over an admitted chat request and waits for its end.
pub data Next : Type 0 where
  responded : List Sent → Next
  passed : Scope → Next
  streaming : Forwarded → Next

-- headers[name] = value, in the order of first insertion
unfoldable pub put_header : Headers → String → List ℕ → Headers
put_header [] name value = (name, value) ∷ []
put_header ((j, v) ∷ rest) name value =
    if str_eq j name then (j, value) ∷ rest else (j, v) ∷ put_header rest name value

-- dict(scope["headers"])
unfoldable pub dict_headers : Headers → Headers → Headers
unfolding put_header
dict_headers seen [] = seen
dict_headers seen ((j, v) ∷ rest) = dict_headers (put_header seen j v) rest

-- `any(k.startswith(b"x-openwebui-") for k in headers)`
abbrev pub has_identity : Headers → Bool
has_identity = any (λ e. has_prefix (codes "x-openwebui-") (codes e.0))

abbrev pub is_forwarded : String → Bool
is_forwarded name =
    str_eq name "authorization" || str_eq name "content-type" || str_eq name "accept"

-- The three headers that the backend may see.
unfoldable pub forwarded : Headers → Headers
forwarded [] = []
forwarded ((j, v) ∷ rest) =
    let later = forwarded rest in if is_forwarded j then (j, v) ∷ later else later

abbrev pub is_path : Scope → String → Bool
is_path s p = text_eq s.path (codes p)

-- `secret_json`: a document that is no dictionary raises ValueError.
unfoldable pub secret_json : Result Failure Json → Result Failure Fields
secret_json (ok (obj d)) = ok d
secret_json (ok _) = err configuration
secret_json (err f) = err f

-- `"Bearer " + key`: a key that is no text raises TypeError.
unfoldable pub bearer : Json → Result Failure (List ℕ)
bearer (str key) = ok (codes "Bearer " ++ utf8 (codes key))
bearer _ = err configuration

-- path.removeprefix("/webui")
unfoldable pub remove_prefix : List ℕ → List ℕ → List ℕ
remove_prefix [] s = s
remove_prefix (a ∷ p) [] = []
remove_prefix (a ∷ p) (b ∷ s) = remove_prefix p s

-- The browser route: the path without its prefix, and the user's own key.
unfoldable pub translate : World → Scope → Headers → Result Failure (List ℕ × Headers)
unfolding secret_json bearer remove_prefix put_header
translate w s headers =
    if is_path s "/webui/v1/models" || is_path s "/webui/v1/chat/completions"
    then (do
      credentials ← secret_json w.mapping
      (key, _) ← browser_key headers false credentials w.now true
      value ← bearer key
      ok (remove_prefix (codes "/webui") s.path, put_header headers "authorization" value))
    else err (refusal 404 "unsupported_route")

-- The path and the headers with which the request goes on.
unfoldable pub admit_scope : World → Scope → Headers → Result Failure (List ℕ × Headers)
unfolding translate
admit_scope w s headers =
    if has_prefix (codes "/webui/") s.path
    then translate w s headers
    else if has_identity headers
    then err (refusal 400 "untrusted_identity_header")
    else ok (s.path, headers)

abbrev pub phase_is : Phase → Phase → Bool
phase_is ready ready = true
phase_is starting starting = true
phase_is draining draining = true
phase_is unavailable unavailable = true
phase_is maintenance maintenance = true
phase_is _ _ = false

abbrev pub oldest : ℕ → List Active → ℕ
oldest now [] = 0
oldest now (a ∷ rest) = max (now - a.since) (oldest now rest)

unfoldable pub metrics : World → Gateway → List Sent
metrics w g =
    start 200 (("content-type", codes "text/plain; version=0.0.4") ∷ [])
    ∷ metrics_text (
        map (λ p. phase_line p (phase_is p g.phase))
          (ready ∷ starting ∷ draining ∷ unavailable ∷ maintenance ∷ [])
        ++ active_requests (length g.active)
          ∷ oldest_request (oldest w.monotonic g.active)
          ∷ requests_total "ok" g.requests.success
          ∷ requests_total "refused" g.requests.refused
          ∷ requests_total "backend_error" g.requests.backend_error
          ∷ requests_total "cancelled" g.requests.cancelled_count
          ∷ requests_total "limited" g.requests.limited
          ∷ [])
    ∷ []

-- The routes behind the header check.
unfoldable pub forward :
    World → ℕ → Scope → List Message → Gateway → Result Failure (Next × Gateway)
forward w task s messages g =
    if is_path s "/v1/chat/completions"
    then (do (f, g') ← chat w task s.is_post s.headers messages g; ok (streaming f, g'))
    else if is_path s "/v1/responses" || is_path s "/responses"
    then err (refusal 501 "responses_api_not_qualified")
    else ok (passed s, g)

-- The `try` block of `__call__`.
unfoldable pub route : World → ℕ → Scope → List Message → Gateway → Result Failure (Next × Gateway)
route w task s messages g =
    let headers = dict_headers [] s.headers in
    if is_path s "/_service/status"
    then ok (responded (reply w 200 (status_document g)), g)
    else if is_path s "/_service/metrics"
    then ok (responded (metrics w g), g)
    else if is_path s "/_service/control"
    then (do (sent, g') ← control w s.is_post headers messages g; ok (responded sent, g'))
    else do
      (path, kept) ← admit_scope w s headers
      forward w task (record s { path = path; headers = forwarded kept }) messages g

-- The `except` clauses of `__call__`: the response, or the failure that goes on.
unfoldable pub settle : World → Bool → Failure → Gateway → Result Failure (List Sent) × Gateway
settle w started (refusal status code) g =
    (ok (reply w status (refusal_document code)), count_refusal status g)
settle w started invalid_json g =
    (if started then err invalid_json else ok (reply w 400 (error_document "invalid_json")), g)
settle w started configuration g = (
  if started
      then err configuration
      else ok (reply w 503 (error_document "service_configuration_unavailable")),
  count_backend_error g,
)
settle w started timed_out g = (
  if started
      then err timed_out
      else ok (reply w 503 (error_document "service_configuration_unavailable")),
  count_backend_error g,
)
settle w started f g = (err f, g)

-- A failed `try` block goes to the `except` clauses; nothing has been sent then.
unfoldable pub settle_route :
    World → Result Failure (Next × Gateway) → Gateway → Result Failure Next × Gateway
settle_route w (ok (next, g')) g = (ok next, g')
settle_route w (err f) g =
    let (r, g') = settle w false f g in ((do sent ← r; ok (responded sent)), g')

-- `__call__` up to its answer, or up to the moment when it waits for the application.
unfoldable pub call : World → ℕ → Scope → List Message → Gateway → Result Failure Next × Gateway
call w task s messages g =
    if s.is_http then settle_route w (route w task s messages g) g else (ok (passed s), g)

-- The end of an admitted request: the failure that `chat` lets through meets the same clauses.
unfoldable pub settle_end :
    World → Bool → Finished → Result Failure (Unit {0}) × List Sent × Gateway
settle_end w started (ok u, sent, g) = (ok u, sent, g)
settle_end w started (err f, sent, g) =
    let (r, g') = settle w started f g in
    elim r [ ok more ↦ (ok tt, sent ++ more, g') | err f' ↦ (err f', sent, g') ]

unfoldable pub chat_end : World → ℕ → Bool → Ending → Gateway → Finished
chat_end w task started ending g = settle_end w started (finish w task started ending g)
