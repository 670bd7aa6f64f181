-- ===== src/Gateway/Auth.antt =====
-- apps/base/shared-api/boundary.py, `browser_key`: the only translation of a trusted browser
-- user into that user's virtual key.
use arch_linux_threadripper.Prelude.{
  ℕ, ◌*◌, ◌^◌, ◌≤◌, String, ◌≡◌, refl, Bool, true, false, not, ◌&&◌, ◌||◌, Option, none, some, List,
  ◌++◌, arith, ltb, leb, if◌then◌else◌, Result, ok, err, ◌>>=◌, ◌>>◌, raise_if, length, >>=-eq-ok,
}
use arch_linux_threadripper.Prelude.Int.{pos, negsuc}
use arch_linux_threadripper.Prelude.Text.{codes, text_eq, text_eq→eq, has_prefix, is_ascii}
use arch_linux_threadripper.Json.{
  Json, nan, bool, int, float, infinite, str, arr, obj, Fields, end, field, get_or, items_length,
  fields_length, truthy,
}
use arch_linux_threadripper.Gateway.State.{
  Failure, refusal, configuration, uncaught, Headers, header_or_empty,
}

-- hmac.compare_digest on two texts raises TypeError unless both are ASCII.
unfoldable pub compare_digest : List ℕ → List ℕ → Result Failure Bool
compare_digest a b = if is_ascii a && is_ascii b then ok (text_eq a b) else err configuration

-- The credential check: `expected` is any JSON value, and `len` or `+` may raise TypeError.
unfoldable pub check_application : List ℕ → Json → Result Failure (Unit {0})
unfolding compare_digest
check_application auth (str s) =
    if ltb (length (codes s)) 32 then err (refusal 401 "invalid_application_credential") else do
      same ← compare_digest auth (codes "Bearer " ++ codes s)
      raise_if (not same) (refusal 401 "invalid_application_credential")
check_application auth (arr xs) =
    if ltb (items_length xs) 32
    then err (refusal 401 "invalid_application_credential")
    else err configuration
check_application auth (obj d) =
    if ltb (fields_length d) 32
    then err (refusal 401 "invalid_application_credential")
    else err configuration
check_application auth _ = err configuration

-- d.get(uid), with the key as code points
unfoldable pub get_codes : Fields → List ℕ → Option Json
get_codes end k = none
get_codes (field j v d) k = if text_eq (codes j) k then some v else get_codes d k

-- expires_at <= now, at the dyadic time m / 2 ^ k; another type raises TypeError.
unfoldable pub expired : Json → ℕ × ℕ → Result Failure Bool
expired (int (pos n)) (m, k) = ok (leb (n * 2 ^ k) m)
expired (int (negsuc n)) t = ok true
expired (float (pos n) j) (m, k) = ok (leb (n * 2 ^ k) (m * 2 ^ j))
expired (float (negsuc n) j) t = ok true
expired (bool true) (m, k) = ok (leb (2 ^ k) m)
expired (bool false) t = ok true
expired (infinite negative) t = ok negative
expired nan t = ok false
expired _ t = err configuration

-- `.get` of a value that is no dictionary raises AttributeError.
unfoldable pub as_object : Json → Result Failure Fields
as_object (obj d) = ok d
as_object _ = err uncaught

-- `not record`, for the record that `.get` may not have found
unfoldable pub found_record : Option Json → Result Failure Fields
unfolding as_object
found_record none = err (refusal 403 "browser_user_not_provisioned")
found_record (some v) =
    if truthy v then as_object v else err (refusal 403 "browser_user_not_provisioned")

-- `not key.startswith("sk-") or len(key) < 24`
unfoldable pub check_key : Json → Result Failure (Unit {0})
check_key (str s) =
    raise_if (not (has_prefix (codes "sk-") (codes s)) || ltb (length (codes s)) 24)
      (refusal 403 "browser_user_not_provisioned")
check_key _ = err uncaught

-- `need_virtual_key and (…)`
unfoldable pub check_virtual_key : Bool → Json → Result Failure (Unit {0})
unfolding check_key
check_virtual_key true key = check_key key
check_virtual_key false key = ok tt

-- The rest of `browser_key`, for a user's entry.
unfoldable pub translated : Bool → Bool → Fields → Bool → List ℕ → Result Failure (Json × List ℕ)
translated gone path_is_images entry need_virtual_key uid = do
  raise_if gone (refusal 403 "browser_user_not_provisioned")
  raise_if (path_is_images && not (truthy (get_or entry "images" (bool false))))
      (refusal 403 "image_permission_denied")
  let key = get_or entry "key" (str "")
  check_virtual_key need_virtual_key key
  ok (key, uid)

-- `path_is_images` is path.endswith("images/generations").
unfoldable pub browser_key : Headers → Bool → Fields → ℕ × ℕ → Bool → Result Failure (Json × List ℕ)
browser_key headers path_is_images credentials now need_virtual_key = do
  let auth = header_or_empty headers "authorization"
  check_application auth (get_or credentials "service_key" (str ""))
  let uid = header_or_empty headers "x-openwebui-user-id"
  users ← as_object (get_or credentials "users" (obj end))
  entry ← found_record (get_codes users uid)
  gone ← expired (get_or entry "expires_at" (int (pos 0))) now
  translated gone path_is_images entry need_virtual_key uid

-- A virtual key is a text that begins with "sk-" and has at least 24 characters.
abbrev pub IsVirtualKey : Json → Type 0
IsVirtualKey (str s) = (has_prefix (codes "sk-") (codes s) ≡ true) × (24 ≤ length (codes s))
IsVirtualKey _ = ⊥

check_key_sound : (key : Json) → check_key key ≡ ok tt → IsVirtualKey key
unfolding check_key
check_key_sound (str s) h = ground arith
check_key_sound _ h = cc

-- What an accepted request has shown.
pub record IsProvisioned (headers : Headers) (images : Bool) (credentials : Fields) (now : ℕ × ℕ)
    (need : Bool) (key : Json) (uid : List ℕ) : Type 0 where
  pub secret : String
  pub service_key : get_or credentials "service_key" (str "") ≡ str secret
  pub long_secret : 32 ≤ length (codes secret)
  pub bearer : header_or_empty headers "authorization" ≡ codes "Bearer " ++ codes secret
  pub owner : uid ≡ header_or_empty headers "x-openwebui-user-id"
  pub users : Fields
  pub users_found : get_or credentials "users" (obj end) ≡ obj users
  pub entry : Fields
  pub listed : get_codes users uid ≡ some (obj entry)
  pub current : expired (get_or entry "expires_at" (int (pos 0))) now ≡ ok false
  pub may_draw : images ≡ true → truthy (get_or entry "images" (bool false)) ≡ true
  pub own_key : key ≡ get_or entry "key" (str "")
  pub virtual : need ≡ true → IsVirtualKey key

check_application_sound :
    (auth : List ℕ) (expected : Json)
    → check_application auth expected ≡ ok tt
    → (s : String) × (expected ≡ str s)
      × (32 ≤ length (codes s))
      × (auth ≡ codes "Bearer " ++ codes s)
unfolding check_application
check_application_sound auth (str s) h =
    (s, refl, ground arith, ground (arith, text_eq→eq auth (codes "Bearer " ++ codes s)))
check_application_sound auth (arr xs) h = ground arith
check_application_sound auth (obj d) h = ground arith
check_application_sound auth _ h = cc

as_object_sound : (v : Json) {d : Fields} → as_object v ≡ ok d → v ≡ obj d
unfolding as_object
as_object_sound (obj d) h = ground arith
as_object_sound _ h = cc

found_record_sound : (v : Option Json) {d : Fields} → found_record v ≡ ok d → v ≡ some (obj d)
unfolding found_record
found_record_sound none h = cc
found_record_sound (some v) h = ground (arith, as_object_sound v)

-- The checks that stand behind the look-ups, once these have succeeded.
accepted :
    (headers : Headers) (images : Bool) (credentials : Fields) (now : ℕ × ℕ) (need : Bool)
    (key : Json) (uid : List ℕ) (users entry : Fields) (gone : Bool) (secret : String)
    → get_or credentials "service_key" (str "") ≡ str secret
    → 32 ≤ length (codes secret)
    → header_or_empty headers "authorization" ≡ codes "Bearer " ++ codes secret
    → get_or credentials "users" (obj end) ≡ obj users
    → get_codes users (header_or_empty headers "x-openwebui-user-id") ≡ some (obj entry)
    → expired (get_or entry "expires_at" (int (pos 0))) now ≡ ok gone
    → translated gone images entry need (header_or_empty headers "x-openwebui-user-id")
      ≡ ok (key, uid)
    → IsProvisioned headers images credentials now need key uid
unfolding translated check_virtual_key
accepted headers images credentials now need key uid users entry gone secret s l b u f x h =
    let own : key ≡ get_or entry "key" (str "") = ground arith in
    record {
      secret = secret;
      service_key = s;
      long_secret = l;
      bearer = b;
      owner = ground arith;
      users = users;
      users_found = u;
      entry = entry;
      listed = ground arith;
      current = ground arith;
      may_draw = ground arith;
      own_key = own;
      virtual = λ n. rw own (check_key_sound (get_or entry "key" (str "")) (ground arith));
    }

-- An accepted browser request carried the application's own credential, of 32 characters or more,
-- and named a listed user whose entry has not expired; for an image route that entry allows images.
-- The key that is returned is the entry's own, and a well-formed virtual key where one is needed.
pub browser_key-IsProvisioned :
    (headers : Headers) (images : Bool) (credentials : Fields) (now : ℕ × ℕ) (need : Bool)
    (key : Json) (uid : List ℕ)
    → browser_key headers images credentials now need ≡ ok (key, uid)
    → IsProvisioned headers images credentials now need key uid
unfolding browser_key
browser_key-IsProvisioned headers images credentials now need key uid h =
    let auth = header_or_empty headers "authorization" in
    let uid' = header_or_empty headers "x-openwebui-user-id" in
    let service = get_or credentials "service_key" (str "") in
    let (_, c, h₁) = >>=-eq-ok (check_application auth service) _ h in
    let (users, u, h₂) = >>=-eq-ok (as_object (get_or credentials "users" (obj end))) _ h₁ in
    let (entry, f, h₃) = >>=-eq-ok (found_record (get_codes users uid')) _ h₂ in
    let stamp = get_or entry "expires_at" (int (pos 0)) in
    let (gone, x, h₄) = >>=-eq-ok (expired stamp now) _ h₃ in
    let (secret, e, long, bearer) = check_application_sound auth service c in
    accepted headers images credentials now need key uid users entry gone secret e long bearer
      (as_object_sound (get_or credentials "users" (obj end)) u)
      (found_record_sound (get_codes users uid') f) x h₄
