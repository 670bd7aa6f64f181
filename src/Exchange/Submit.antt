-- ===== src/Exchange/Submit.antt =====
-- lib/workstation/hyperloom_exchange.py, `submit`: what is checked and read before a job is written.
use arch_linux_threadripper.Prelude.{
  ℕ, ◌+◌, ◌*◌, String, Bool, true, false, ◌&&◌, Option, none, some, [], ◌∷◌, ltb, leb,
  if◌then◌else◌, Result, ok, err, require, length, str_eq, ◌>>=◌, ◌>>◌,
}
use arch_linux_threadripper.Prelude.Int.{ℤ, pos}
use arch_linux_threadripper.Prelude.Text.{codes}
use arch_linux_threadripper.Prelude.Assoc.{Assoc}
use arch_linux_threadripper.Json.{
  Json, nan, bool, int, infinite, str, arr, obj, Items, nil, cons, Fields, end, field, hashable,
}
use arch_linux_threadripper.Exchange.Terms.{
  Fault, refused, type_error, Codec, Kind, kind_named, kind_name, post_release_seconds,
  envelope_seconds, max_json, max_source, is_name, identity, positive, dictionary,
}
use arch_linux_threadripper.Exchange.Requests.{Request, read_request}
use arch_linux_threadripper.Exchange.Store.{Bytes, read_file}
use arch_linux_threadripper.Exchange.Host.{text_leb}

-- What the caller passes, and `time.time()` in milliseconds.
pub record Submission : Type 0 where
  pub campaign : Json
  pub selection : Json
  pub kind : Json
  pub config : Json
  pub sources : Json
  pub caller_seconds : Json
  pub deadline : Json
  pub now : ℕ
  pub expected : Option String

-- The regular files that `_read` can open.
abbrev pub Files : Type 0
Files = String → Option Bytes

unfoldable mutual
  -- `allow_nan=False`: whether a value has a JSON text.
  pub is_finite : Json → Bool
  is_finite nan = false
  is_finite (infinite _) = false
  is_finite (arr xs) = all_finite xs
  is_finite (obj d) = finite_fields d
  is_finite _ = true

  pub all_finite : Items → Bool
  all_finite nil = true
  all_finite (cons x xs) = is_finite x && all_finite xs

  pub finite_fields : Fields → Bool
  finite_fields end = true
  finite_fields (field _ v d) = is_finite v && finite_fields d

-- `canonical`
unfoldable pub encode : Codec → Json → Result Fault Bytes
encode c v =
    if is_finite v
    then ok (c.canonical v)
    else err (refused "Out of range float values are not JSON compliant")

-- The checks of `envelope_seconds` on a kind.
unfoldable pub recognized : Json → Result Fault Kind
recognized (str s) = elim (kind_named s) [
  | none ↦ err (refused "finite recognized owner envelope required")
  | some k ↦ ok k
]
recognized v =
    if hashable v then err (refused "finite recognized owner envelope required") else err type_error

-- `type(deadline) is int`
unfoldable pub whole : Json → Result Fault ℤ
whole (int d) = ok d
whole _ = err (refused "finite campaign/job deadline required")

abbrev pub reaches : ℕ → ℤ → Bool
reaches n (pos d) = leb n d
reaches n _ = false

-- sorted(sources.items())
unfoldable pub insert_entry : String → Json → Assoc Json → Assoc Json
insert_entry k v [] = (k, v) ∷ []
insert_entry k v ((j, w) ∷ rest) =
    let later = insert_entry k v rest in
    if text_leb (codes k) (codes j) then (k, v) ∷ (j, w) ∷ rest else (j, w) ∷ later

unfoldable pub sorted_items : Fields → Assoc Json
sorted_items end = []
sorted_items (field k v d) = insert_entry k v (sorted_items d)

-- `isinstance(sources, dict) and sources`
unfoldable pub given_sources : Json → Result Fault Fields
given_sources (obj (field k v d)) = ok (field k v d)
given_sources _ = err (refused "bounded configuration/sources required")

-- `Path(path)` raises TypeError on what is no text.
unfoldable pub read_path : Files → Json → Result Fault Bytes
read_path files (str path) = read_file max_source (files path)
read_path files _ = err type_error

-- The loop over the sorted sources
unfoldable pub gather : Files → Assoc Json → Result Fault (Assoc Bytes)
gather files [] = ok []
gather files ((name, path) ∷ rest) = do
  require (is_name name) (refused "source must have a simple name")
  raw ← read_path files path
  require (ltb 0 (length raw)) (refused "empty candidate source")
  later ← gather files rest
  ok ((name, raw) ∷ later)

-- A row of the inventory, with its keys in the order in which `canonical` writes them.
abbrev pub inventory_row : Codec → String → Bytes → Json
inventory_row c name raw = obj (
    field "bytes" (int (pos (length raw)))
      (field "name" (str name) (field "sha256" (str (c.digest raw)) end)))

abbrev pub inventory : Codec → Assoc Bytes → Items
inventory c [] = nil
inventory c ((name, raw) ∷ rest) = cons (inventory_row c name raw) (inventory c rest)

abbrev pub inventory_digest : Codec → Assoc Bytes → String
inventory_digest c files = c.digest (c.canonical (arr (inventory c files)))

abbrev pub is_expected : Option String → String → Bool
is_expected none found = true
is_expected (some wanted) found = str_eq found wanted

-- The request, in the same order of keys
abbrev pub request_fields :
    Codec → String → String → String → Kind → Bytes → ℕ → ℕ → Assoc Bytes → Fields
request_fields c id campaign selection kind config_raw now caller files =
    field "adoption_authorized" (bool false) (
      field "automatic_retry" (bool false) (
        field "caller_seconds" (int (pos caller)) (
          field "campaign_sha256" (str campaign) (
            field "config_sha256" (str (c.digest config_raw)) (
              field "created_unix_ms" (int (pos now)) (
                field "expires_unix_ms" (int (pos (now + envelope_seconds kind caller * 1000))) (
                  field "id" (str id) (
                    field "kind" (str (kind_name kind)) (
                      field "post_release_seconds" (int (pos (post_release_seconds kind))) (
                        field "schema" (int (pos 1)) (
                          field "selection_sha256" (str selection) (
                            field "source_set_sha256" (str (inventory_digest c files))
                              (field "sources" (arr (inventory c files)) end)))))))))))))

-- What is to be written
pub record Prepared : Type 0 where
  pub request : Request
  pub config_raw : Bytes
  pub files : Assoc Bytes

-- `submit` before it makes the job's directory; `id` is what `secrets.token_hex(16)` returns.
unfoldable pub prepare : Codec → Files → String → Submission → Result Fault Prepared
prepare c disk id s = do
  campaign ← identity (some s.campaign) "invalid campaign"
  selection ← identity (some s.selection) "invalid selection"
  caller ← positive (some s.caller_seconds) "finite campaign/job deadline required"
  require (leb caller 7160) (refused "finite campaign/job deadline required")
  deadline ← whole s.deadline
  kind ← recognized s.kind
  require (reaches (s.now + envelope_seconds kind caller * 1000) deadline)
      (refused "full caller envelope does not fit campaign")
  _ ← dictionary s.config "job configuration must be an object"
  config_raw ← encode c s.config
  require (leb (length config_raw) max_json) (refused "bounded configuration/sources required")
  sources ← given_sources s.sources
  files ← gather disk (sorted_items sources)
  require (is_expected s.expected (inventory_digest c files))
      (refused "candidate changed while copying the screened source snapshot")
  request ←
      read_request c
        (obj (request_fields c id campaign selection kind config_raw s.now caller files))
  ok (record { request = request; config_raw = config_raw; files = files })
