-- ===== src/Exchange/Submission.antt =====
-- lib/workstation/hyperloom_exchange.py: what `submit` writes, `inspect` accepts.
use arch_linux_threadripper.Prelude.{
  ◌≡◌, refl, String, true, none, some, List, [], ◌∷◌, ◌++◌, leb, ok, length, all, arith, succeeded,
  eq_iff, eq_refl, All, ap, sym, ◌∙◌, Option-cases, inl, inr, subst,
}
use mathlib.Core.List.{append-nil, append_assoc}
use arch_linux_threadripper.Prelude.Assoc.{Assoc, find, place, find-place}
use arch_linux_threadripper.Prelude.Effects.{continued}
use arch_linux_threadripper.Json.{mem_str}
use arch_linux_threadripper.Exchange.Terms.{Codec, max_source, identity, positive, dictionary}
use arch_linux_threadripper.Exchange.Requests.{
  Source, read_source, read_sources, read_name, read_size,
}
use arch_linux_threadripper.Exchange.Store.{Bytes, Job, read_file, publish}
use arch_linux_threadripper.Exchange.Host.{copy_sources}
use arch_linux_threadripper.Exchange.Jobs.{check_sources, file_names, source_names, same_names}
use arch_linux_threadripper.Exchange.Submit.{inventory, inventory_row}
use arch_linux_threadripper.Exchange.Write.{store_sources, store_source}

-- The rows that the inventory of some files is read as.
abbrev pub rows_of : Codec → Assoc Bytes → List Source
rows_of c [] = []
rows_of c ((name, raw) ∷ rest) =
    record { name = name; sha256 = c.digest raw; size = length raw } ∷ rows_of c rest

read_row :
    (c : Codec) (name : String) (raw : Bytes) (seen : List String) (row : Source)
    → read_source (inventory_row c name raw) seen ≡ ok row
    → (row ≡ record { name = name; sha256 = c.digest raw; size = length raw })
      × (leb (length raw) max_source ≡ true)
unfolding read_source read_name read_size identity positive dictionary
read_row c name raw seen row h = ground arith

-- An inventory that is accepted is read as its files, each within its bound.
pub read_sources-inventory :
    (c : Codec) (files : Assoc Bytes) (seen : List String) (rows : List Source)
    → read_sources (inventory c files) seen ≡ ok rows
    → (rows ≡ rows_of c files) × All (λ e. leb (length e.1) max_source ≡ true) files
unfolding read_sources
read_sources-inventory c [] seen rows h = (ground arith, tt)
read_sources-inventory c ((name, raw) ∷ rest) seen rows h =
    succeeded (read_source (inventory_row c name raw) seen) _ h λ row e h.
      succeeded (read_sources (inventory c rest) (row.name ∷ seen)) _ h λ later f h.
        let (same, small) = read_row c name raw seen row e in
        let (others, bounded) = read_sources-inventory c rest (row.name ∷ seen) later f in
        (cc, (small, bounded))

place_new :
    (files : Assoc Bytes) (name : String) (raw : Bytes)
    → find files name ≡ none
    → file_names (place files name raw) ≡ file_names files ++ (name ∷ [])
unfolding find place
place_new [] name raw h = refl
place_new ((n, b) ∷ rest) name raw h = ground (arith, place_new rest name raw)

-- What a loop of publications leaves in a job's directory.
pub record IsStored (files : Assoc Bytes) (before after : Job) : Type 0 where
  pub kept :
      (name : String) (raw : Bytes)
      → find before.sources name ≡ some raw
      → find after.sources name ≡ some raw
  pub found : All (λ e. find after.sources e.0 ≡ some e.1) files
  pub names : file_names after.sources ≡ file_names before.sources ++ file_names files
  pub same_config : after.config ≡ before.config
  pub same_request : after.request ≡ before.request
  pub same_cancelled : after.cancelled ≡ before.cancelled

store_one :
    (name : String) (raw : Bytes) (before after : Job) (u : Unit {0})
    → store_source name raw before ≡ (ok u, after)
    → (find before.sources name ≡ none)
      × (after ≡ record before { sources = place before.sources name raw })
unfolding store_source publish
store_one name raw before after u h = elim (Option-cases (find before.sources name)) [
  | inl e ↦ (e, ground arith)
  | inr (old, e) ↦ absurd (ground arith)
]

-- One publication, and then the others
cons-IsStored :
    (name : String) (raw : Bytes) (rest : Assoc Bytes) (before after : Job)
    → find before.sources name ≡ none
    → IsStored rest (record before { sources = place before.sources name raw }) after
    → IsStored ((name, raw) ∷ rest) before after
cons-IsStored name raw rest before after fresh later = record {
  kept =
      λ n b e. later.kept n b (ground (arith, find-place before.sources name n raw, eq_iff name n));
  found = (
    later.kept name raw (ground (arith, find-place before.sources name name raw, eq_refl name)),
    later.found,
  );
  names =
      later.names
      ∙ ap (λ l. l ++ file_names rest) (place_new before.sources name raw fresh)
      ∙ append_assoc (file_names before.sources) (name ∷ []) (file_names rest);
  same_config = later.same_config;
  same_request = later.same_request;
  same_cancelled = later.same_cancelled;
}

pub store_sources-IsStored :
    (files : Assoc Bytes) (before after : Job) (u : Unit {0})
    → store_sources files before ≡ (ok u, after)
    → IsStored files before after
unfolding store_sources
store_sources-IsStored [] before after u h =
    let same : before ≡ after = ap (λ p. p.1) h in
    subst (IsStored [] before) same (record {
      kept = λ n b e. e;
      found = tt;
      names = sym (append-nil (file_names before.sources));
      same_config = refl;
      same_request = refl;
      same_cancelled = refl;
    })
store_sources-IsStored ((name, raw) ∷ rest) before after u h =
    let (_, next, e, k) = continued (λ _. store_sources rest) (store_source name raw before) h in
    let (fresh, same) = store_one name raw before next _ e in
    let later = store_sources-IsStored rest next after u k in
    cons-IsStored name raw rest before after fresh (subst (λ j. IsStored rest j after) same later)

pub check_sources-rows_of :
    (c : Codec) (written files : Assoc Bytes)
    → All (λ e. find written e.0 ≡ some e.1) files
    → All (λ e. leb (length e.1) max_source ≡ true) files
    → check_sources c written (rows_of c files) ≡ ok tt
unfolding check_sources read_file
check_sources-rows_of c written [] found small = refl
check_sources-rows_of c written ((name, raw) ∷ rest) (e, found) (s, small) =
    ground (arith, check_sources-rows_of c written rest, eq_refl (c.digest raw))

pub copy_sources-rows_of :
    (c : Codec) (written files : Assoc Bytes)
    → All (λ e. find written e.0 ≡ some e.1) files
    → All (λ e. leb (length e.1) max_source ≡ true) files
    → copy_sources c written (rows_of c files) ≡ ok files
unfolding copy_sources read_file
copy_sources-rows_of c written [] found small = refl
copy_sources-rows_of c written ((name, raw) ∷ rest) (e, found) (s, small) =
    ground (arith, copy_sources-rows_of c written rest, eq_refl (c.digest raw))

pub source_names-rows_of :
    (c : Codec) (files : Assoc Bytes) → source_names (rows_of c files) ≡ file_names files
source_names-rows_of c [] = refl
source_names-rows_of c ((name, raw) ∷ rest) = ap (λ l. name ∷ l) (source_names-rows_of c rest)

all_mem :
    (names whole : List String)
    → ((n : String) → mem_str n names ≡ true → mem_str n whole ≡ true)
    → all (λ n. mem_str n whole) names ≡ true
all_mem [] whole h = refl
all_mem (n ∷ rest) whole h =
    ground (arith, h n (ground (arith, eq_refl n)), all_mem rest whole (λ m e. h m (ground arith)))

pub same_names_refl : (names : List String) → same_names names names ≡ true
same_names_refl names = ground (arith, all_mem names names (λ n e. e))
