-- ===== src/Tools/Requests.antt =====
-- apps/base/shared-api/service_tools.py, `image` and `generate`: what is asked for, the workflow that is sent,
-- and what comes back.
use arch_linux_threadripper.Prelude.{
  ℕ, String, Bool, true, false, not, ◌&&◌, ◌||◌, List, [], ◌∷◌, leb, ◌==◌, if◌then◌else◌, Result,
  ok, err, ◌>>=◌, ◌>>◌, raise_if, length, any, str_eq,
}
use arch_linux_threadripper.Prelude.Int.{pos}
use arch_linux_threadripper.Prelude.Text.{codes, has_prefix, text_eq}
use arch_linux_threadripper.Json.{
  Json, null, int, str, arr, obj, nil, cons, items_list, Fields, end, field, get_or, put, truthy,
  eq_str, keys_within,
}
use arch_linux_threadripper.Json.Equality.{json_eq}
use arch_linux_threadripper.Gateway.State as Gateway
use arch_linux_threadripper.Gateway.Auth.{browser_key}
use arch_linux_threadripper.Gateway.Body.{Message, read_body}
use arch_linux_threadripper.Tools.Upstream.{decode}
use arch_linux_threadripper.Tools.State.{
  Failure, refusal, value_error, type_error, missing_key, attribute_error, Response, Environment,
  item, as_dictionary, from_gateway,
}

-- part in text
unfoldable pub has_infix : List ℕ → List ℕ → Bool
has_infix part [] = has_prefix part []
has_infix part (c ∷ text) = has_prefix part (c ∷ text) || has_infix part text

abbrev pub has_text : String → String → Bool
has_text part text = has_infix (codes part) (codes text)

-- value in values, for a list
abbrev pub is_among : Json → Json → Bool
is_among (arr xs) v = any (λ w. json_eq v w) (items_list xs)
is_among _ v = false

-- type(value) is int and value == 1
abbrev pub is_one : Json → Bool
is_one (int (pos n)) = n == 1
is_one _ = false

-- `isinstance(prompt, str) and 1 <= len(prompt) <= 2000`
unfoldable pub read_prompt : Json → Result Failure String
read_prompt (str s) =
    if leb 1 (length (codes s)) && leb (length (codes s)) 2000
    then ok s
    else err (refusal 400 "image_limits_exceeded")
read_prompt _ = err (refusal 400 "image_limits_exceeded")

abbrev pub is_unsupported : Environment → Fields → Bool
is_unsupported env d =
    not (json_eq (get_or d "model" null) (get_or env.image_profile "id" null))
    || not (is_one (get_or d "n" (int (pos 1))))
    || not (eq_str (get_or d "response_format" (str "b64_json")) "b64_json")

-- The checks of `image` on the body
unfoldable pub read_order : Environment → Json → Result Failure (String × Json)
read_order env (obj d) = do
  raise_if (not (keys_within ("model" ∷ "prompt" ∷ "n" ∷ "size" ∷ "response_format" ∷ []) d))
      (refusal 400 "invalid_image_request")
  raise_if (is_unsupported env d) (refusal 400 "unsupported_image_parameters")
  prompt ← read_prompt (get_or d "prompt" (str ""))
  raise_if
      (not (is_among (get_or env.image_profile "sizes" null) (get_or d "size" (str "1024x1024"))))
      (refusal 400 "image_limits_exceeded")
  raise_if (has_text "${" prompt) (refusal 400 "workflow_macros_not_supported")
  ok (prompt, get_or d "size" (str "1024x1024"))
read_order env _ = err (refusal 400 "invalid_image_request")

-- A request: its headers, its body as it comes, what is in the file of the credentials, and the time.
pub record Call : Type 0 where
  pub headers : Gateway.Headers
  pub messages : List Message
  pub credentials : Result Failure Fields
  pub time : ℕ × ℕ

abbrev pub translate : {A : Type 0} → Result Gateway.Failure A → Result Failure A
translate (ok a) = ok a
translate (err e) = err (from_gateway e)

-- What `image` does before it looks at the service
unfoldable pub read_call : Environment → Call → Result Failure (String × Json)
read_call env call = do
  credentials ← call.credentials
  key ← translate (browser_key call.headers true credentials call.time false)
  body ← translate (read_body 16384 call.messages)
  value ← decode env body.0
  read_order env value

-- The gateway is ready, with images, and serves the model that leaves room for them.
unfoldable pub check_mode : Environment → Fields → Result Failure (Unit {0})
check_mode env state =
    raise_if
      (not (eq_str (get_or state "phase" null) "ready")
        || not (truthy (get_or state "images" null))
        || not
            (json_eq (get_or state "model" null) (get_or env.image_profile "serving_model" null)))
      (refusal 503 "images_require_ready_split_mode")

-- map(int, size.split("x")), for the two sizes that load_image_profile allows
unfoldable pub dimensions : Json → Result Failure (ℕ × ℕ)
dimensions (str size) =
    if str_eq size "512x512"
    then ok (512, 512)
    else if str_eq size "1024x1024"
    then ok (1024, 1024)
    else err value_error
dimensions _ = err attribute_error

-- workflow[node]["inputs"], changed
unfoldable pub change_inputs : Fields → String → (Fields → Fields) → Result Failure Fields
change_inputs workflow node change = do
  found ← item (obj workflow) node
  inputs ← item found "inputs"
  n ← as_dictionary found
  d ← as_dictionary inputs
  ok (put workflow node (obj (put n "inputs" (obj (change d)))))

unfoldable pub fill_workflow : Environment → String → ℕ × ℕ → Result Failure Fields
fill_workflow env prompt size = do
  a ← change_inputs env.image_workflow "2" (λ d. put d "text" (str prompt))
  b ← change_inputs a "4" (λ d. put (put d "width" (int (pos size.0))) "height" (int (pos size.1)))
  change_inputs b "5" (λ d. put d "seed" (int (pos env.seed)))

-- The body of the generation's request; `shown` is json.dumps of the workflow.
unfoldable pub generation : Environment → (Fields → String) → Json → String → ℕ × ℕ → Fields → Json
generation env shown session prompt size workflow = obj (
    field "session_id" session (
      field "images" (int (pos 1)) (
        field "prompt" (str prompt) (
          field "model" (get_or env.image_profile "swarm_model" null) (
            field "width" (int (pos size.0)) (
              field "height" (int (pos size.1)) (
                field "steps" (get_or env.image_profile "steps" null) (
                  field "cfgscale" (get_or env.image_profile "cfg_scale" null) (
                    field "seed" (int (pos env.seed))
                      (field "comfyworkflowraw" (str (shown workflow)) end))))))))))

-- `len(paths) != 1 or not isinstance(paths[0], str)`
unfoldable pub only_path : Json → Result Failure String
only_path (arr (cons (str path) nil)) = ok path
only_path (arr _) = err (refusal 502 "image_generation_failed")
only_path (str s) =
    if length (codes s) == 1 then ok s else err (refusal 502 "image_generation_failed")
only_path (obj (field _ _ end)) = err missing_key
only_path (obj _) = err (refusal 502 "image_generation_failed")
only_path _ = err type_error

unfoldable pub check_path : Environment → String → Result Failure String
check_path env path = do
  raise_if
      (not (has_prefix (codes "View/") (codes path))
        || any (λ part. has_text part (env.unquote path)) (".." ∷ "\\" ∷ "?" ∷ "#" ∷ ":" ∷ []))
      (refusal 502 "invalid_image_artifact")
  ok path

-- text.split(";")[0]
unfoldable pub before_semicolon : List ℕ → List ℕ
before_semicolon [] = []
before_semicolon (c ∷ text) = let rest = before_semicolon text in if c == b';' then [] else c ∷ rest

unfoldable pub check_artifact : Response → Result Failure (Unit {0})
check_artifact response =
    raise_if
      (not (response.status == 200)
        || not (text_eq (before_semicolon (codes response.content_type)) (codes "image/png")))
      (refusal 502 "invalid_image_artifact")

-- b"\x89PNG\r\n\x1a\n"
abbrev pub png : List ℕ
png = 137 ∷ 80 ∷ 78 ∷ 71 ∷ 13 ∷ 10 ∷ 26 ∷ 10 ∷ []

unfoldable pub check_png : List ℕ → Result Failure (Unit {0})
check_png raw = raise_if (not (has_prefix png raw)) (refusal 502 "invalid_image_artifact")
