-- ===== src/Gateway/Orders.antt =====
-- apps/base/shared-api/boundary.py, `GatewayBoundary.control`: which states an order can set.
use arch_linux_threadripper.Prelude.{
  ◌≡◌, refl, Bool, true, false, not, ◌&&◌, List, [], ◌∷◌, ◌++◌, map, arith, ok, length, length-map,
  succeeded, passed_guard, ◌∙◌, ◌≤◌, ℕ, inl, inr, Bool-cases,
}
use arch_linux_threadripper.Json.{Json, null, bool, Fields, get_or, eq_str, is_true}
use arch_linux_threadripper.Gateway.State.{
  Phase, Active, has_task, AllDistinct, Gateway, Headers, header_or_empty, World, Sent,
}
use arch_linux_threadripper.Prelude.Text.{codes, text_eq→eq, utf8}
use arch_linux_threadripper.Gateway.Auth.{as_object}
use arch_linux_threadripper.Gateway.Body.{Message, read_body}
use arch_linux_threadripper.Gateway.Control.{
  known_phase, needs_model, is_chat_model, check_model, check_images, may_cancel, is_ready,
  mark_cancelling, Order, authorize, read_order, apply_order, control_order, control,
}

-- An order that the checks let through.
pub record IsChecked (o : Order) : Type 0 where
  pub model_known : needs_model o.target ≡ true → is_chat_model o.model ≡ true
  pub images_split : o.images ≡ true → eq_str o.model "Qwen3.5-9B" ≡ true
  pub cancel_closing : o.cancel ≡ true → may_cancel o.target ≡ true

check_model_sound :
    (p : Phase) (m : Json) → check_model p m ≡ ok tt → needs_model p ≡ true → is_chat_model m ≡ true
unfolding check_model
check_model_sound p m h n = ground arith

check_images_sound :
    (v m : Json) (b : Bool) → check_images v m ≡ ok b → b ≡ true → eq_str m "Qwen3.5-9B" ≡ true
unfolding check_images
check_images_sound (bool images) m b h e = ground arith
check_images_sound _ m b h e = cc

pub read_order-IsChecked : (request : Fields) (o : Order) → read_order request ≡ ok o → IsChecked o
unfolding read_order
read_order-IsChecked request o h =
    let model = get_or request "model" null in
    let cancel = is_true (get_or request "cancel" null) in
    succeeded (known_phase (get_or request "phase" null)) _ h λ p _ h₁.
      succeeded (check_model p model) _ h₁ λ _ m h₂.
        succeeded (check_images (get_or request "images" (bool false)) model) _ h₂ λ images i h₃.
          passed_guard (cancel && not (may_cancel p)) _ _ h₃ λ c h₄. record {
            model_known = λ n. ground (arith, check_model_sound p model m);
            images_split = λ e.
                ground
                  (arith, check_images_sound (get_or request "images" (bool false)) model images i);
            cancel_closing = λ e. ground arith;
          }

-- What holds of a gateway at every moment.
pub record IsSound (g : Gateway) : Type 0 where
  pub few : length g.active ≤ 4
  pub served : needs_model g.phase ≡ true → is_chat_model g.model ≡ true
  pub split : g.images ≡ true → (is_ready g.phase ≡ true) × (eq_str g.model "Qwen3.5-9B" ≡ true)
  pub distinct : AllDistinct g.active

has_task-mark : (t : ℕ) (l : List Active) → has_task t (map mark_cancelling l) ≡ has_task t l
has_task-mark t [] = refl
has_task-mark t (a ∷ l) = ground (arith, has_task-mark t l)

AllDistinct-mark : (l : List Active) → AllDistinct l → AllDistinct (map mark_cancelling l)
AllDistinct-mark [] h = tt
AllDistinct-mark (a ∷ l) h = (has_task-mark a.task l ∙ h.0, AllDistinct-mark l h.1)

pub apply_order-IsSound :
    (o : Order) (g : Gateway) → IsChecked o → IsSound g → IsSound (apply_order o g)
unfolding apply_order
apply_order-IsSound o g c s = record {
  few = ground (arith, length-map mark_cancelling g.active);
  served = c.model_known;
  split = λ e. ground (arith, c.images_split);
  distinct = elim (Bool-cases o.cancel) [
    | inl e ↦ rw e (AllDistinct-mark g.active s.distinct)
    | inr e ↦ rw e s.distinct
  ];
}

-- The credential that the host has shown.
pub record IsAuthorized (w : World) (is_post : Bool) (headers : Headers) : Type 0 where
  pub post : is_post ≡ true
  pub key : List ℕ
  pub own_key : w.control_key ≡ ok key
  pub long_key : 32 ≤ length key
  pub bearer : header_or_empty headers "authorization" ≡ codes "Bearer " ++ utf8 key

authorize_sound :
    (w : World) (is_post : Bool) (headers : Headers) (key : List ℕ)
    → w.control_key ≡ ok key
    → authorize is_post headers key ≡ ok tt
    → IsAuthorized w is_post headers
unfolding authorize
authorize_sound w is_post headers key e h = record {
  post = ground arith;
  key = key;
  own_key = e;
  long_key = ground arith;
  bearer =
      text_eq→eq (header_or_empty headers "authorization") (codes "Bearer " ++ utf8 key)
        (ground arith);
}

control_order_sound :
    (w : World) (is_post : Bool) (headers : Headers) (messages : List Message) (o : Order)
    → control_order w is_post headers messages ≡ ok o
    → IsAuthorized w is_post headers × IsChecked o
unfolding control_order
control_order_sound w is_post headers messages o h = succeeded w.control_key _ h λ key e h₁.
    succeeded (authorize is_post headers key) _ h₁ λ _ a h₂.
      succeeded (read_body 4096 messages) _ h₂ λ r _ h₃. succeeded (w.loads r.0) _ h₃ λ value _ h₄.
        succeeded (as_object value) _ h₄ λ request _ h₅.
          (authorize_sound w is_post headers key e a, read_order-IsChecked request o h₅)

-- A control request changes the gateway only if it is a POST with the bearer form of a control key
-- of 32 characters or more, and only by an order that the checks on the document let through; the
-- gateway is then what that order makes of it.
pub control_sound :
    (w : World) (is_post : Bool) (headers : Headers) (messages : List Message) (g g' : Gateway)
    (sent : List Sent)
    → control w is_post headers messages g ≡ ok (sent, g')
    → IsAuthorized w is_post headers
      × ((o : Order) × IsChecked o
          × (g' ≡ apply_order o g)
          × (control_order w is_post headers messages ≡ ok o))
unfolding control
control_sound w is_post headers messages g g' sent h =
    succeeded (control_order w is_post headers messages) _ h λ o e h₁.
      let (a, c) = control_order_sound w is_post headers messages o e in
      (a, (o, c, ground arith, e))
