-- ===== src/Tools/Retrieval.antt =====
-- apps/base/shared-api/service_tools.py: `webui_identity` and `retrieve`.
use arch_linux_threadripper.Prelude.{
  String, Bool, false, not, ◌&&◌, ◌||◌, Option, none, some, List, [], ◌∷◌, ltb, leb, ◌==◌, all, map,
  take, if◌then◌else◌, Result, ok, err, length,
}
use arch_linux_threadripper.Prelude.Int.{pos}
use arch_linux_threadripper.Prelude.Text.{codes, has_prefix, first_chars}
use arch_linux_threadripper.Json.{
  Json, null, bool, int, str, arr, obj, nil, cons, items_list, Fields, end, field, keys, get,
  get_or, truthy, eq_str, keys_within,
}
use arch_linux_threadripper.Exchange.Terms.{is_alnum}
use arch_linux_threadripper.Tools.State.{
  Failure, refusal, type_error, missing_key, Tools, Environment, M, ◌>>=◌, ◌>>◌, return,
  lift_result, as_dictionary,
}
use arch_linux_threadripper.Tools.Upstream.{upstream_json, join}

-- ID.fullmatch
unfoldable pub is_id : String → Bool
is_id s =
    leb 1 (length (codes s))
    && leb (length (codes s)) 160
    && all (λ c. is_alnum c || c == b'_' || c == b'-') (codes s)

unfoldable pub check_credential : String → Result Failure (Unit {0})
check_credential auth =
    if not (has_prefix (codes "Bearer ") (codes auth)) || ltb 8192 (length (codes auth))
    then err (refusal 401 "user_credential_required")
    else ok tt

unfoldable pub check_role : Fields → Result Failure (Unit {0})
check_role user =
    if eq_str (get_or user "role" null) "user"
    then ok tt
    else err (refusal 403 "restricted_user_required")

-- `webui_identity`, for the header's text; its result is the credential of the further calls.
unfoldable pub webui_identity : Environment → String → M String
webui_identity env auth = do
  lift_result (check_credential auth)
  user ← upstream_json env "GET" (join env.webui "/api/v1/auths/") (some auth) none
  d ← lift_result (as_dictionary user)
  lift_result (check_role d)
  return auth

unfoldable pub read_collection : Json → Result Failure String
read_collection (str s) = if is_id s then ok s else err (refusal 400 "invalid_collection")
read_collection _ = err (refusal 400 "invalid_collection")

unfoldable pub read_query : Json → Result Failure String
read_query (str s) =
    if leb 1 (length (codes s)) && leb (length (codes s)) 2000
    then ok s
    else err (refusal 400 "invalid_query")
read_query _ = err (refusal 400 "invalid_query")

unfoldable pub read_arguments : Json → Result Failure Fields
read_arguments (obj d) =
    if keys_within ("collection" ∷ "query" ∷ []) d
    then ok d
    else err (refusal 400 "invalid_tool_arguments")
read_arguments _ = err (refusal 400 "invalid_tool_arguments")

-- (value or [[]])[0]
unfoldable pub first_of : Json → Result Failure Json
first_of (arr nil) = ok (arr nil)
first_of (arr (cons x xs)) = ok x
first_of (str String.[]) = ok (arr nil)
first_of (str s) = ok (str (first_chars 1 s))
first_of (obj end) = ok (arr nil)
first_of (obj d) = err missing_key
first_of v = if truthy v then err type_error else ok (arr nil)

unfoldable pub characters : String → List Json
characters String.[] = []
characters (String.◌∷◌ c s) = str (String.◌∷◌ c String.[]) ∷ characters s

-- What a `for` goes through
unfoldable pub iterate : Json → Result Failure (List Json)
iterate (arr xs) = ok (items_list xs)
iterate (str s) = ok (characters s)
iterate (obj d) = ok (map str (keys d))
iterate _ = err type_error

abbrev pub zip : List Json → List Json → List (Json × Json)
zip (a ∷ xs) (b ∷ ys) = (a, b) ∷ zip xs ys
zip _ _ = []

pub record Hit : Type 0 where
  pub snippet : String
  pub file_id : String
  pub source : String

-- The file that a passage says it is from
unfoldable pub file_of : Json → Option String
file_of (obj d) = elim (get d "file_id") [
  | some (str s) ↦ if is_id s then some s else none
  | some other ↦ none
  | none ↦ none
]
file_of _ = none

-- A passage whose file the caller may see; `shown` is Python's str.
unfoldable pub make_hit : (Json → String) → Json → String → Fields → Option Hit
make_hit shown (str content) file_id file =
    if eq_str (get_or file "id" null) file_id
    then some (record {
      snippet = first_chars 1600 content;
      file_id = file_id;
      source = first_chars 240 (shown (get_or file "filename" (str file_id)));
    })
    else none
make_hit shown content file_id file = none

-- Deleted, or newly private
abbrev pub is_gone : Failure → Bool
is_gone (refusal status _) = status == 403 || status == 404
is_gone _ = false

unfoldable pub judge_file :
    (Json → String)
    → Json
    → String
    → Result Failure Json × Tools
    → Result Failure (Option Hit) × Tools
judge_file shown content file_id (ok (obj file), s) = (ok (make_hit shown content file_id file), s)
judge_file shown content file_id (ok other, s) = (err Failure.attribute_error, s)
judge_file shown content file_id (err e, s) = if is_gone e then (ok none, s) else (err e, s)

unfoldable pub read_hit :
    Environment → (Json → String) → String → Json → Option String → M (Option Hit)
read_hit env shown auth content none s = (ok none, s)
read_hit env shown auth content (some file_id) s =
    judge_file shown content file_id
      (upstream_json env "GET" (join env.webui (join "/api/v1/files/" file_id)) (some auth) none s)

abbrev pub with_hit : Option Hit → List Hit → List Hit
with_hit none hits = hits
with_hit (some h) hits = h ∷ hits

-- The loop over the passages
unfoldable pub read_hits :
    Environment → (Json → String) → String → List (Json × Json) → M (List Hit)
read_hits env shown auth [] = return []
read_hits env shown auth (passage ∷ rest) = do
  hit ← read_hit env shown auth passage.0 (file_of passage.1)
  later ← read_hits env shown auth rest
  return (with_hit hit later)

abbrev pub question : String → String → Json
question collection query = obj (
    field "collection_names" (arr (cons (str collection) nil)) (
      field "query" (str query) (
        field "k" (int (pos 3))
          (field "k_reranker" (int (pos 3)) (field "enable_enriched_texts" (bool false) end)))))

unfoldable pub pair_up :
    Result Failure (List Json) → Result Failure (List Json) → Result Failure (List (Json × Json))
pair_up (err e) _ = err e
pair_up (ok xs) (err e) = err e
pair_up (ok xs) (ok ys) = ok (take 3 (zip xs ys))

-- list(zip(documents, metadata))[:3], where both are there
unfoldable pub pair_values :
    Result Failure Json → Result Failure Json → Result Failure (List (Json × Json))
pair_values (err e) _ = err e
pair_values (ok documents) (err e) = err e
pair_values (ok documents) (ok metadata) = pair_up (iterate documents) (iterate metadata)

unfoldable pub read_passages : Fields → Result Failure (List (Json × Json))
read_passages d =
    pair_values (first_of (get_or d "documents" null)) (first_of (get_or d "metadatas" null))

-- `retrieve`
unfoldable pub retrieve : Environment → (Json → String) → Json → String → M (List Hit)
retrieve env shown args auth = do
  d ← lift_result (read_arguments args)
  collection ← lift_result (read_collection (get_or d "collection" (str "")))
  query ← lift_result (read_query (get_or d "query" (str "")))
  result ←
      upstream_json env "POST" (join env.webui "/api/v1/retrieval/query/collection") (some auth)
        (some (question collection query))
  found ← lift_result (as_dictionary result)
  passages ← lift_result (read_passages found)
  read_hits env shown auth passages
