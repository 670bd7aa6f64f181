-- ===== src/Gateway/Tests.antt =====
-- apps/base/shared-api/boundary.py: the gateway on concrete requests, and each result at one of them.
use arch_linux_threadripper.Prelude.{
  ℕ, ◌+◌, ◌≤◌, String, ◌≡◌, ◌↔◌, refl, true, false, some, List, [], ◌∷◌, ok, err, length, All,
}
use arch_linux_threadripper.Prelude.Int.{pos}
use arch_linux_threadripper.Prelude.Text.{codes, decimal_from}
use arch_linux_threadripper.Json.{Json, null, bool, int, str, obj, Fields, end, field}
use arch_linux_threadripper.Gateway.State.{
  refusal, configuration, ready, Gateway, Headers, World, initial, reply, status_document,
  output_cap,
}
use arch_linux_threadripper.Gateway.Body.{Message, part, read_body, whole_body, read_body_iff}
use arch_linux_threadripper.Gateway.Auth.{
  browser_key, IsProvisioned, browser_key-IsProvisioned, check_application, get_codes, expired,
  as_object, found_record, translated, check_virtual_key,
}
use arch_linux_threadripper.Gateway.Control.{
  Order, control_order, control, apply_order, read_order, authorize,
}
use arch_linux_threadripper.Gateway.Orders.{IsChecked, IsAuthorized, IsSound, control_sound}
use arch_linux_threadripper.Gateway.Chat.{
  Forwarded, begin, deadline, admit_fields, chat, chat_request, chat_object,
}
use arch_linux_threadripper.Gateway.Admission.{IsAdmitted, admit_fields-IsAdmitted}
use arch_linux_threadripper.Gateway.Route.{
  Scope, streaming, call, route, settle_route, admit_scope, forward, dict_headers, forwarded,
  chat_end, has_identity,
}
use arch_linux_threadripper.Gateway.Run.{IsSentOn}
use arch_linux_threadripper.Gateway.Safety.{
  request, here, next, Reach-IsSound, is_sent, call_streaming, total, chat_end_accounts, Leaves,
}

abbrev control_key : List ℕ
control_key = codes "0123456789abcdef0123456789abcdef"

-- A host document that makes the gateway ready, and a chat request.
abbrev ready_document : Fields
ready_document =
    field "phase" (str "ready") (field "model" (str "Qwen3.5-9B") (field "images" (bool true) end))

abbrev chat_document : Fields
chat_document =
    field "model" (str "Qwen3.5-9B")
      (field "user" (str "someone") (field "max_tokens" (int (pos 64)) end))

abbrev world : Json → World
world document = record {
  loads = λ b. ok document;
  dumps = λ v. 123 ∷ 125 ∷ [];
  mapping = ok (obj end);
  control_key = ok control_key;
  now = (1000, 0);
  monotonic = 5;
}

abbrev one_part : List Message
one_part = part (123 ∷ []) true ∷ part (125 ∷ []) false ∷ []

read_body_iff_example :
    (read_body 2 one_part ≡ ok (123 ∷ 125 ∷ [], []))
    ↔ ((whole_body one_part ≡ some (123 ∷ 125 ∷ [], [])) × (length {A = ℕ} (123 ∷ 125 ∷ []) ≤ 2))
read_body_iff_example = read_body_iff 2 one_part (123 ∷ 125 ∷ []) []

read_body_too_large : read_body 1 one_part ≡ err (refusal 413 "request_too_large")
unfolding read_body
read_body_too_large = refl

-- The browser route.
abbrev service_key : String
service_key = "an-application-key-of-32-letters"

abbrev browser_headers : Headers
browser_headers =
    ("authorization", codes "Bearer an-application-key-of-32-letters")
    ∷ ("x-openwebui-user-id", codes "u1")
    ∷ []

abbrev entry : Fields
entry = field "key" (str "sk-abcdefghijklmnopqrstuvwxyz") (field "expires_at" (int (pos 2000)) end)

abbrev mapping : Fields
mapping =
    field "service_key" (str service_key) (field "users" (obj (field "u1" (obj entry) end)) end)

browser_key_accepts :
    browser_key browser_headers false mapping (1000, 0) true
    ≡ ok (str "sk-abcdefghijklmnopqrstuvwxyz", codes "u1")
unfolding browser_key check_application get_codes expired found_record translated check_virtual_key
browser_key_accepts = refl

browser_key-IsProvisioned_example :
    IsProvisioned browser_headers false mapping
      (1000, 0)
      true
      (str "sk-abcdefghijklmnopqrstuvwxyz")
      (codes "u1")
browser_key-IsProvisioned_example =
    browser_key-IsProvisioned browser_headers false mapping (1000, 0) true
      (str "sk-abcdefghijklmnopqrstuvwxyz") (codes "u1") browser_key_accepts

-- A credential that is not ASCII makes the comparison raise TypeError.
browser_key_not_ascii :
    browser_key (("authorization", 0xe9 ∷ []) ∷ []) false mapping (1000, 0) true ≡ err configuration
unfolding browser_key check_application
browser_key_not_ascii = refl

-- The host's order, and the gateway that it makes.
abbrev control_headers : Headers
control_headers = ("authorization", codes "Bearer 0123456789abcdef0123456789abcdef") ∷ []

abbrev ready_gateway : Gateway
ready_gateway = record initial { phase = ready; model = str "Qwen3.5-9B"; images = true }

control_accepts :
    control (world (obj ready_document)) true control_headers one_part initial
    ≡ ok (reply (world (obj ready_document)) 200 (status_document ready_gateway), ready_gateway)
unfolding control control_order apply_order read_order authorize as_object read_body output_cap
control_accepts = refl

control_sound_example :
    IsAuthorized (world (obj ready_document)) true control_headers
    × ((o : Order) × IsChecked o
        × (ready_gateway ≡ apply_order o initial)
        × (control_order (world (obj ready_document)) true control_headers one_part ≡ ok o))
control_sound_example =
    control_sound (world (obj ready_document)) true control_headers one_part initial ready_gateway
      (reply (world (obj ready_document)) 200 (status_document ready_gateway)) control_accepts

-- A chat request that the ready gateway admits.
abbrev chat_fields_sent : Fields
chat_fields_sent = field "model" (str "Qwen3.5-9B") (field "max_tokens" (int (pos 64)) end)

admit_fields_accepts : admit_fields ready_gateway chat_document ≡ ok chat_fields_sent
unfolding admit_fields output_cap
admit_fields_accepts = refl

admit_fields-IsAdmitted_example : IsAdmitted ready_gateway chat_fields_sent
admit_fields-IsAdmitted_example =
    admit_fields-IsAdmitted ready_gateway chat_document chat_fields_sent admit_fields_accepts

abbrev chat_scope : Scope
chat_scope = record {
  is_http = true;
  is_post = true;
  path = codes "/v1/chat/completions";
  headers = ("accept", codes "*/*") ∷ ("cookie", codes "x") ∷ [];
}

abbrev chat_sent : Forwarded
chat_sent = record {
  headers = ("accept", codes "*/*") ∷ ("content-length", codes "2") ∷ [];
  fields = chat_fields_sent;
  content = 123 ∷ 125 ∷ [];
}

call_admits :
    (call (world (obj chat_document)) 7 chat_scope one_part ready_gateway).0
    ≡ ok (streaming chat_sent)
unfolding call settle_route route admit_scope forward dict_headers forwarded chat chat_request
    chat_object read_body admit_fields output_cap decimal_from
call_admits = refl

call_streaming_example :
    IsSentOn ready_gateway chat_sent
    × ((call (world (obj chat_document)) 7 chat_scope one_part ready_gateway).1
        ≡ begin (world (obj chat_document)) 7 ready_gateway)
    × All (λ (e : String × List ℕ). is_sent e.0 ≡ true) chat_sent.headers
call_streaming_example =
    call_streaming (world (obj chat_document)) 7 chat_scope one_part ready_gateway chat_sent
      call_admits

Reach-IsSound_example : IsSound (call (world (obj chat_document)) 7 chat_scope one_part initial).1
Reach-IsSound_example =
    Reach-IsSound (next here (request (world (obj chat_document)) 7 chat_scope one_part refl))

abbrev spoofed : Scope
spoofed = record chat_scope { headers = ("x-openwebui-user-id", codes "u1") ∷ [] }

spoofed_has_identity : has_identity (dict_headers [] spoofed.headers) ≡ true
unfolding dict_headers
spoofed_has_identity = refl

chat_end_accounts_example :
    let g' = (chat_end (world null) 7 false deadline (begin (world null) 7 ready_gateway)).2 in
    (total g'.requests ≡ total ready_gateway.requests + 1)
    × Leaves 7 (begin (world null) 7 ready_gateway).active g'.active
chat_end_accounts_example =
    chat_end_accounts (world null) 7 false deadline (begin (world null) 7 ready_gateway)
