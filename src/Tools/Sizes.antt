-- ===== src/Tools/Sizes.antt =====
-- apps/base/shared-api/service_tools.py: the sizes that the loaded profile lets a request ask for.
use arch_linux_threadripper.Prelude.{
  ℕ, ◌≡◌, refl, ap, subst, ◌⊎◌, inl, inr, String, Bool, true, false, not, ◌&&◌, [], ◌∷◌, ok, eq_iff,
  Bool-cases, both_true, succeeded, passed_guard,
}
use arch_linux_threadripper.Json.{
  Json, null, bool, int, float, infinite, nan, str, arr, obj, nil, cons, Fields, get_or,
  keys_within, keys_exactly,
}
use arch_linux_threadripper.Json.Equality.{json_eq, text_or_number_eq, number_eq, items_eq}
use arch_linux_threadripper.Gateway.Auth.{browser_key}
use arch_linux_threadripper.Gateway.Body.{read_body}
use arch_linux_threadripper.Tools.Upstream.{decode}
use arch_linux_threadripper.Tools.State.{Environment}
use arch_linux_threadripper.Tools.Requests.{
  is_among, is_unsupported, has_text, read_prompt, read_order, dimensions, Call, translate,
  read_call,
}
use arch_linux_threadripper.Tools.Profile.{
  profile_keys, allowed_sizes, is_profile, read_profile, read_workflow, load_image_profile,
}

not-false : (b : Bool) → not b ≡ false → b ≡ true
not-false true h = refl
not-false false h = cc

json_eq-str : (v : Json) (s : String) → json_eq v (str s) ≡ true → v ≡ str s
unfolding json_eq text_or_number_eq number_eq
json_eq-str null s h = cc
json_eq-str (bool true) s h = cc
json_eq-str (bool false) s h = cc
json_eq-str (int n) s h = cc
json_eq-str (float m k) s h = cc
json_eq-str (infinite true) s h = cc
json_eq-str (infinite false) s h = cc
json_eq-str nan s h = cc
json_eq-str (str t) s h = ap str ((eq_iff t s).0 h)
json_eq-str (arr xs) s h = cc
json_eq-str (obj d) s h = cc

-- One of the two sizes
abbrev pub IsSize : Json → Type 0
IsSize v = (v ≡ str "512x512") ⊎ (v ≡ str "1024x1024")

IsSize-among : (v sizes : Json) → sizes ≡ allowed_sizes → is_among sizes v ≡ true → IsSize v
IsSize-among v sizes e h =
    let among = subst (λ z. is_among z v ≡ true) e h in
    elim (Bool-cases (json_eq v (str "512x512"))) [
      | inl x ↦ inl (json_eq-str v "512x512" x)
      | inr x ↦ elim (Bool-cases (json_eq v (str "1024x1024"))) [
        | inl y ↦ inr (json_eq-str v "1024x1024" y)
        | inr y ↦ absurd (cc (among, x, y))
      ]
    ]

sizes_eq : (v : Json) → json_eq v allowed_sizes ≡ true → v ≡ allowed_sizes
unfolding json_eq items_eq text_or_number_eq number_eq
sizes_eq (arr nil) h = cc
sizes_eq (arr (cons a nil)) h = cc ((both_true (json_eq a (str "512x512")) false h).1)
sizes_eq (arr (cons a (cons b nil))) h =
    let (x, later) =
      both_true (json_eq a (str "512x512")) (json_eq b (str "1024x1024") && true) h in
    let (y, _) = both_true (json_eq b (str "1024x1024")) true later in
    rw (json_eq-str a "512x512" x, json_eq-str b "1024x1024" y) refl
sizes_eq (arr (cons a (cons b (cons c xs)))) h =
    let (x, later) =
      both_true (json_eq a (str "512x512")) (json_eq b (str "1024x1024") && false) h in
    let (y, end) = both_true (json_eq b (str "1024x1024")) false later in cc end
sizes_eq null h = cc
sizes_eq nan h = cc
sizes_eq (bool true) h = cc
sizes_eq (bool false) h = cc
sizes_eq (int n) h = cc
sizes_eq (float m k) h = cc
sizes_eq (infinite true) h = cc
sizes_eq (infinite false) h = cc
sizes_eq (str s) h = cc
sizes_eq (obj d) h = cc

is_profile-sizes :
    (shown : Json → String) (d : Fields)
    → is_profile shown d ≡ true
    → get_or d "sizes" null ≡ allowed_sizes
unfolding is_profile
is_profile-sizes shown d h =
    let (h, _) = both_true _ _ h in
    let (h, _) = both_true _ _ h in
    let (_, same) = both_true _ _ h in sizes_eq (get_or d "sizes" null) same

read_profile-sizes :
    (shown : Json → String) (v : Json) (d : Fields)
    → read_profile shown v ≡ ok d
    → get_or d "sizes" null ≡ allowed_sizes
unfolding read_profile
read_profile-sizes shown (obj e) d h = passed_guard (not (keys_exactly profile_keys e)) _ _ h λ _ h.
    passed_guard (not (is_profile shown e)) _ _ h λ good h.
      let same : e ≡ d = cc in
      subst (λ x. get_or x "sizes" null ≡ allowed_sizes) same
        (is_profile-sizes shown e (not-false (is_profile shown e) good))
read_profile-sizes shown _ d h = cc

load-sizes :
    (shown : Json → String) (profile workflow : Json) (d w : Fields)
    → load_image_profile shown profile workflow ≡ ok (d, w)
    → get_or d "sizes" null ≡ allowed_sizes
unfolding load_image_profile
load-sizes shown profile workflow d w h = succeeded (read_profile shown profile) _ h λ e f h.
    succeeded (read_workflow e workflow) _ h λ x g h.
      let same : e ≡ d = cc in
      subst (λ y. get_or y "sizes" null ≡ allowed_sizes) same (read_profile-sizes shown profile e f)

read_order-IsSize :
    (env : Environment) (v : Json) (prompt : String) (size : Json)
    → get_or env.image_profile "sizes" null ≡ allowed_sizes
    → read_order env v ≡ ok (prompt, size)
    → IsSize size
unfolding read_order
read_order-IsSize env (obj d) prompt size e h =
    passed_guard (not (keys_within ("model" ∷ "prompt" ∷ "n" ∷ "size" ∷ "response_format" ∷ []) d))
      _ _ h
      λ _ h. passed_guard (is_unsupported env d) _ _ h λ _ h.
        succeeded (read_prompt (get_or d "prompt" (str ""))) _ h λ given _ h.
          passed_guard
            (not (
              is_among (get_or env.image_profile "sizes" null) (get_or d "size" (str "1024x1024"))))
            _ _ h
            λ among h. passed_guard (has_text "${" given) _ _ h λ _ h.
              let same : get_or d "size" (str "1024x1024") ≡ size = cc in
              subst IsSize same (
                IsSize-among (get_or d "size" (str "1024x1024"))
                  (get_or env.image_profile "sizes" null) e (not-false _ among))
read_order-IsSize env _ prompt size e h = cc

-- The width and the height of one of the two sizes
dimensions-IsSize : (size : Json) → IsSize size → (dims : ℕ × ℕ) × (dimensions size ≡ ok dims)
unfolding dimensions
dimensions-IsSize size (inl e) = ((512, 512), rw e refl)
dimensions-IsSize size (inr e) = ((1024, 1024), rw e refl)

-- A service that has loaded its profile and its workflow accepts a request only for 512x512 or 1024x1024, so that
-- the size of every order that it reads has a width and a height.
pub read_call-dimensions :
    (env : Environment) (shown : Json → String) (profile workflow : Json) (call : Call)
    (prompt : String) (size : Json)
    → load_image_profile shown profile workflow ≡ ok (env.image_profile, env.image_workflow)
    → read_call env call ≡ ok (prompt, size)
    → (dims : ℕ × ℕ) × (dimensions size ≡ ok dims)
unfolding read_call
read_call-dimensions env shown profile workflow call prompt size loaded h =
    succeeded call.credentials _ h λ credentials _ h.
      succeeded (translate (browser_key call.headers true credentials call.time false)) _ h
        λ key _ h. succeeded (translate (read_body 16384 call.messages)) _ h λ body _ h.
          succeeded (decode env body.0) _ h λ value _ h. dimensions-IsSize size (
            read_order-IsSize env value prompt size
              (load-sizes shown profile workflow env.image_profile env.image_workflow loaded) h)
