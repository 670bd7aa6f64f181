-- ===== src/Gateway/Control.antt =====
-- apps/base/shared-api/boundary.py, `GatewayBoundary.control`: the host sets the phase.
use arch_linux_threadripper.Prelude.{
  ℕ, Bool, true, false, not, ◌&&◌, ◌||◌, List, ◌++◌, map, ltb, if◌then◌else◌, Result, ok, err,
  ◌>>=◌, ◌>>◌, raise_if, length, is_some, str_eq,
}
use arch_linux_threadripper.Prelude.Text.{codes, text_eq, utf8}
use arch_linux_threadripper.Json.{Json, null, bool, str, Fields, get_or, eq_str, is_true, hashable}
use arch_linux_threadripper.Gateway.State.{
  Failure, refusal, configuration, Phase, ready, starting, draining, unavailable, maintenance,
  Active, Gateway, Headers, header_or_empty, World, Sent, reply, status_document, output_cap,
}
use arch_linux_threadripper.Gateway.Auth.{as_object}
use arch_linux_threadripper.Gateway.Body.{Message, read_body}

-- `phase not in {…}`: an unhashable value raises TypeError.
unfoldable pub known_phase : Json → Result Failure Phase
known_phase (str s) =
    if str_eq s "ready"
    then ok ready
    else if str_eq s "starting"
    then ok starting
    else if str_eq s "draining"
    then ok draining
    else if str_eq s "unavailable"
    then ok unavailable
    else if str_eq s "maintenance"
    then ok maintenance
    else err (refusal 400 "invalid_phase")
known_phase v = if hashable v then err (refusal 400 "invalid_phase") else err configuration

-- `phase in {"ready", "starting"}`
abbrev pub needs_model : Phase → Bool
needs_model ready = true
needs_model starting = true
needs_model _ = false

-- `model in CHAT_MODELS`
abbrev pub is_chat_model : Json → Bool
is_chat_model (str s) = is_some (output_cap s)
is_chat_model _ = false

unfoldable pub check_model : Phase → Json → Result Failure (Unit {0})
check_model phase model =
    if needs_model phase
    then (if is_chat_model model
        then ok tt
        else if hashable model
        then err (refusal 400 "invalid_model")
        else err configuration)
    else ok tt

-- `type(images) is not bool or (images and model != "Qwen3.5-9B")`
unfoldable pub check_images : Json → Json → Result Failure Bool
check_images (bool images) model =
    if images && not (eq_str model "Qwen3.5-9B")
    then err (refusal 400 "images_require_split_profile")
    else ok images
check_images _ model = err (refusal 400 "images_require_split_profile")

-- `phase in {"draining", "unavailable"}`
abbrev pub may_cancel : Phase → Bool
may_cancel draining = true
may_cancel unavailable = true
may_cancel _ = false

abbrev pub is_ready : Phase → Bool
is_ready ready = true
is_ready _ = false

abbrev pub mark_cancelling : Active → Active
mark_cancelling a = record a { cancelling = true }

-- A checked request for a phase.
pub record Order : Type 0 where
  pub target : Phase
  pub model : Json
  pub images : Bool
  pub cancel : Bool

-- The checks on the decoded document, in their order.
unfoldable pub read_order : Fields → Result Failure Order
unfolding known_phase check_model check_images
read_order request = do
  let model = get_or request "model" null
  phase ← known_phase (get_or request "phase" null)
  check_model phase model
  images ← check_images (get_or request "images" (bool false)) model
  let cancel = is_true (get_or request "cancel" null)
  raise_if (cancel && not (may_cancel phase)) (refusal 400 "invalid_cancel_phase")
  ok (record { target = phase; model = model; images = images; cancel = cancel })

-- The assignment of `state`, and `task.cancel()` for every active task.
unfoldable pub apply_order : Order → Gateway → Gateway
apply_order o g = record g {
  phase = o.target;
  model = o.model;
  images = o.images && is_ready o.target;
  active = if o.cancel then map mark_cancelling g.active else g.active;
}

-- The method and the credential: any failure is one refusal.
unfoldable pub authorize : Bool → Headers → List ℕ → Result Failure (Unit {0})
authorize is_post headers key =
    raise_if
      (not is_post
        || ltb (length key) 32
        || not (text_eq (header_or_empty headers "authorization") (codes "Bearer " ++ utf8 key)))
      (refusal 401 "invalid_control_credential")

-- What the request asks for, read to the end; nothing before this point changes the gateway.
unfoldable pub control_order : World → Bool → Headers → List Message → Result Failure Order
control_order w is_post headers messages = do
  key ← w.control_key
  authorize is_post headers key
  (body, _) ← read_body 4096 messages
  value ← w.loads body
  request ← as_object value
  read_order request

unfoldable pub control :
    World → Bool → Headers → List Message → Gateway → Result Failure (List Sent × Gateway)
control w is_post headers messages g = do
  o ← control_order w is_post headers messages
  let g' = apply_order o g
  ok (reply w 200 (status_document g'), g')
