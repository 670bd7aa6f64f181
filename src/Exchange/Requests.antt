-- ===== src/Exchange/Requests.antt =====
-- lib/workstation/hyperloom_exchange.py, `_request`: the checks on a request document. The result is
-- the document with its checked parts.
use arch_linux_threadripper.Prelude.{
  ℕ, ◌+◌, ◌-◌, ◌*◌, String, not, ◌&&◌, Option, none, some, List, [], ◌∷◌, ltb, leb, ◌==◌,
  if◌then◌else◌, Result, ok, err, ◌>>=◌, ◌>>◌, require, str_eq,
}
use arch_linux_threadripper.Json.{
  Json, arr, str, Fields, get, Items, nil, cons, items_length, mem_str, hashable,
}
use arch_linux_threadripper.Exchange.Terms.{
  Fault, refused, type_error, Codec, Kind, kind_named, post_release_seconds, envelope_seconds,
  max_source, max_source_total, is_job_id, is_name, identity, positive, is_exactly, says_false,
  dictionary,
}

-- One row of the inventory of sources.
pub record Source : Type 0 where
  pub name : String
  pub sha256 : String
  pub size : ℕ

pub record Request : Type 0 where
  pub document : Fields
  pub kind : Kind
  pub id : String
  pub campaign : String
  pub selection : String
  pub config : String
  pub source_set : String
  pub created : ℕ
  pub expires : ℕ
  pub caller_seconds : ℕ
  pub sources : List Source

-- `value.get("kind") in KINDS`: a value that has no hash raises TypeError.
unfoldable pub read_kind : Option Json → Result Fault Kind
read_kind none = err (refused "job kind/identity")
read_kind (some (str s)) = elim (kind_named s) [
  | none ↦ err (refused "job kind/identity")
  | some k ↦ ok k
]
read_kind (some v) = if hashable v then err (refused "job kind/identity") else err type_error

unfoldable pub read_id : Option Json → Result Fault String
read_id (some (str s)) = if is_job_id s then ok s else err (refused "job kind/identity")
read_id _ = err (refused "job kind/identity")

-- `isinstance(name, str) and NAME.fullmatch(name) and name not in names`
unfoldable pub read_name : Option Json → List String → Result Fault String
read_name (some (str s)) names =
    if is_name s && not (mem_str s names)
    then ok s
    else err (refused "unique source basename required")
read_name _ names = err (refused "unique source basename required")

unfoldable pub read_size : Option Json → Result Fault ℕ
read_size v = do
  n ← positive v "source size"
  require (leb n max_source) (refused "source size")
  ok n

-- One turn of the loop over the sources, with the names seen before.
unfoldable pub read_source : Json → List String → Result Fault Source
read_source v names = do
  d ← dictionary v "unique source basename required"
  name ← read_name (get d "name") names
  sha ← identity (get d "sha256") "invalid source digest"
  size ← read_size (get d "bytes")
  ok (record { name = name; sha256 = sha; size = size })

unfoldable pub read_sources : Items → List String → Result Fault (List Source)
read_sources nil names = ok []
read_sources (cons v rest) names = do
  s ← read_source v names
  later ← read_sources rest (s.name ∷ names)
  ok (s ∷ later)

unfoldable pub total_size : List Source → ℕ
total_size [] = 0
total_size (s ∷ rest) = s.size + total_size rest

-- `isinstance(sources, list) and 0 < len(sources) <= 64`
unfoldable pub source_items : Option Json → Result Fault Items
source_items (some (arr xs)) =
    if ltb 0 (items_length xs) && leb (items_length xs) 64
    then ok xs
    else err (refused "bounded source set required")
source_items _ = err (refused "bounded source set required")

unfoldable pub read_request : Codec → Json → Result Fault Request
read_request c value = do
  d ← dictionary value "job schema"
  require (is_exactly 1 (get d "schema")) (refused "job schema")
  kind ← read_kind (get d "kind")
  id ← read_id (get d "id")
  campaign ← identity (get d "campaign_sha256") "invalid campaign_sha256"
  selection ← identity (get d "selection_sha256") "invalid selection_sha256"
  config ← identity (get d "config_sha256") "invalid config_sha256"
  source_set ← identity (get d "source_set_sha256") "invalid source_set_sha256"
  created ← positive (get d "created_unix_ms") "finite job clock required"
  expires ← positive (get d "expires_unix_ms") "finite job clock required"
  caller ← positive (get d "caller_seconds") "finite job clock required"
  require (is_exactly (post_release_seconds kind) (get d "post_release_seconds"))
      (refused "post-release grading reserve changed")
  require
      (leb caller 7160
        && ltb created expires
        && expires - created == envelope_seconds kind caller * 1000)
      (refused "job exceeds caller envelope")
  items ← source_items (get d "sources")
  sources ← read_sources items []
  require
      (leb (total_size sources) max_source_total
        && str_eq (c.digest (c.canonical (arr items))) source_set)
      (refused "source set identity/size")
  require (says_false (get d "automatic_retry") && says_false (get d "adoption_authorized"))
      (refused "job cannot retry or adopt")
  ok (record {
    document = d;
    kind = kind;
    id = id;
    campaign = campaign;
    selection = selection;
    config = config;
    source_set = source_set;
    created = created;
    expires = expires;
    caller_seconds = caller;
    sources = sources;
  })
