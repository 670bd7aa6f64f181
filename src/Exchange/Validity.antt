-- ===== src/Exchange/Validity.antt =====
-- lib/workstation/hyperloom_exchange.py, `_request`: what a request that passes is bound to.
use arch_linux_threadripper.Prelude.{
  ℕ, ◌+◌, ◌-◌, ◌*◌, ◌≤◌, ◌<◌, ◌≡◌, refl, String, true, false, ◌&&◌, Option, some, List, [], ◌∷◌,
  ltb, leb, ◌==◌, ok, length, str_eq, arith, succeeded, met_requirement, All, subst, eq_iff,
}
use arch_linux_threadripper.Prelude.Int.{pos}
use arch_linux_threadripper.Json.{
  Json, Fields, obj, arr, str, int, get, Items, nil, cons, items_length, mem_str,
}
use arch_linux_threadripper.Exchange.Terms.{
  Codec, post_release_seconds, envelope_seconds, max_source, max_source_total, is_sha, is_job_id,
  is_name, identity, positive, is_exactly, says_false, dictionary,
}
use arch_linux_threadripper.Exchange.Requests.{
  Source, Request, read_request, read_kind, read_id, read_name, read_size, read_source,
  read_sources, total_size, source_items,
}

pub record IsSource (s : Source) : Type 0 where
  pub named : is_name s.name ≡ true
  pub digested : is_sha s.sha256 ≡ true
  pub some_bytes : 0 < s.size
  pub few_bytes : s.size ≤ max_source

-- No name of a source is among those given, nor comes twice.
abbrev pub AreFresh : List String → List Source → Type 0
AreFresh names [] = Unit
AreFresh names (s ∷ rest) = (mem_str s.name names ≡ false) × AreFresh (s.name ∷ names) rest

identity_sound :
    (v : Option Json) (what : String) (s : String)
    → identity v what ≡ ok s
    → (v ≡ some (str s)) × (is_sha s ≡ true)
unfolding identity
identity_sound v what s h = ground arith

positive_sound :
    (v : Option Json) (what : String) (n : ℕ)
    → positive v what ≡ ok n
    → (v ≡ some (int (pos n))) × (0 < n)
unfolding positive
positive_sound v what n h = ground arith

read_name_sound :
    (v : Option Json) (names : List String) (s : String)
    → read_name v names ≡ ok s
    → (is_name s ≡ true) × (mem_str s names ≡ false)
unfolding read_name
read_name_sound v names s h = ground arith

read_size_sound : (v : Option Json) (n : ℕ) → read_size v ≡ ok n → (0 < n) × (n ≤ max_source)
unfolding read_size
read_size_sound v n h = succeeded (positive v "source size") _ h λ m e h₁.
    met_requirement (leb m max_source) _ _ h₁ λ c h₂.
      let same : m ≡ n = ground arith in
      subst (λ k. (0 < k) × (k ≤ max_source)) same
        ((positive_sound v "source size" m e).1, ground arith)

read_source_sound :
    (v : Json) (names : List String) (s : Source)
    → read_source v names ≡ ok s
    → IsSource s × (mem_str s.name names ≡ false)
unfolding read_source
read_source_sound v names s h =
    succeeded (dictionary v "unique source basename required") _ h λ d _ h₁.
      succeeded (read_name (get d "name") names) _ h₁ λ name e h₂.
        succeeded (identity (get d "sha256") "invalid source digest") _ h₂ λ sha f h₃.
          succeeded (read_size (get d "bytes")) _ h₃ λ n g h₄.
            let (named, fresh) = read_name_sound (get d "name") names name e in
            let (low, high) = read_size_sound (get d "bytes") n g in
            let sha_ok = (identity_sound (get d "sha256") "invalid source digest" sha f).1 in
            let row : Source = record { name = name; sha256 = sha; size = n } in
            let same : row ≡ s = ground arith in
            subst (λ s. IsSource s × (mem_str s.name names ≡ false)) same
              (
                record { named = named; digested = sha_ok; some_bytes = low; few_bytes = high },
                fresh,
              )

read_sources_sound :
    (v : Items) (names : List String) (l : List Source)
    → read_sources v names ≡ ok l
    → All IsSource l × AreFresh names l × (length l ≡ items_length v)
unfolding read_sources
read_sources_sound nil names l h =
    subst (λ l. All IsSource l × AreFresh names l × (length l ≡ 0)) {x = []} (ground arith)
      (tt, tt, refl)
read_sources_sound (cons v rest) names l h = succeeded (read_source v names) _ h λ s e h₁.
    succeeded (read_sources rest (s.name ∷ names)) _ h₁ λ later f h₂.
      let (good, fresh) = read_source_sound v names s e in
      let (all_good, all_fresh, long) = read_sources_sound rest (s.name ∷ names) later f in
      let same : (s ∷ later) ≡ l = ground arith in
      subst (λ l. All IsSource l × AreFresh names l × (length l ≡ items_length (cons v rest))) same
        ((good, all_good), (fresh, all_fresh), ground arith)

-- What a request that passed the checks is bound to.
pub record IsRequest (c : Codec) (r : Request) : Type 0 where
  pub named : is_job_id r.id ≡ true
  pub own_id : get r.document "id" ≡ some (str r.id)
  pub own_campaign : get r.document "campaign_sha256" ≡ some (str r.campaign)
  pub own_selection : get r.document "selection_sha256" ≡ some (str r.selection)
  pub own_config : get r.document "config_sha256" ≡ some (str r.config)
  pub own_kind : read_kind (get r.document "kind") ≡ ok r.kind
  pub own_start : get r.document "created_unix_ms" ≡ some (int (pos r.created))
  pub identified : is_sha r.campaign ≡ true
  pub selected : is_sha r.selection ≡ true
  pub configured : is_sha r.config ≡ true
  pub started : 0 < r.created
  pub envelope : r.expires ≡ r.created + envelope_seconds r.kind r.caller_seconds * 1000
  pub caller_positive : 0 < r.caller_seconds
  pub caller_bounded : r.caller_seconds ≤ 7160
  pub sources : All IsSource r.sources
  pub distinct : AreFresh [] r.sources
  pub some_sources : 0 < length r.sources
  pub few_sources : length r.sources ≤ 64
  pub total : total_size r.sources ≤ max_source_total
  pub items : Items
  pub inventory : get r.document "sources" ≡ some (arr items)
  pub rows : read_sources items [] ≡ ok r.sources
  pub digest : r.source_set ≡ c.digest (c.canonical (arr items))
  pub no_retry : says_false (get r.document "automatic_retry") ≡ true
  pub no_adoption : says_false (get r.document "adoption_authorized") ≡ true

source_items_sound :
    (v : Option Json) (xs : Items)
    → source_items v ≡ ok xs
    → (v ≡ some (arr xs)) × (0 < items_length xs) × (items_length xs ≤ 64)
unfolding source_items
source_items_sound v xs h = ground arith

read_id_sound :
    (v : Option Json) (s : String) → read_id v ≡ ok s → (v ≡ some (str s)) × (is_job_id s ≡ true)
unfolding read_id
read_id_sound v s h = ground arith

request_is_object : (v : Json) (d : Fields) → dictionary v "job schema" ≡ ok d → v ≡ obj d
unfolding dictionary
request_is_object v d h = ground arith

pub read_request_sound :
    (c : Codec) (v : Json) (r : Request)
    → read_request c v ≡ ok r
    → (v ≡ obj r.document) × IsRequest c r
unfolding read_request
read_request_sound c v r h = succeeded (dictionary v "job schema") _ h λ d is_d h.
    met_requirement (is_exactly 1 (get d "schema")) _ _ h λ _ h.
      succeeded (read_kind (get d "kind")) _ h λ kind e₀ h.
        succeeded (read_id (get d "id")) _ h λ id eid h.
          succeeded (identity (get d "campaign_sha256") "invalid campaign_sha256") _ h
            λ campaign e₁ h.
              succeeded (identity (get d "selection_sha256") "invalid selection_sha256") _ h
                λ selection e₂ h.
                  succeeded (identity (get d "config_sha256") "invalid config_sha256") _ h
                    λ config e₃ h.
                      succeeded (identity (get d "source_set_sha256") "invalid source_set_sha256") _
                        h
                        λ source_set _ h.
                          succeeded (positive (get d "created_unix_ms") "finite job clock required")
                            _ h
                            λ created e₅ h.
                              succeeded
                                (positive (get d "expires_unix_ms") "finite job clock required") _ h
                                λ expires _ h.
                                  succeeded
                                    (positive (get d "caller_seconds") "finite job clock required")
                                    _ h
                                    λ caller e₇ h.
                                      met_requirement
                                        (is_exactly (post_release_seconds kind)
                                          (get d "post_release_seconds"))
                                        _ _ h
                                        λ _ h.
                                          met_requirement
                                            (leb caller 7160
                                              && ltb created expires
                                              && expires - created
                                                == envelope_seconds kind caller * 1000)
                                            _ _ h
                                            λ clock h.
                                              succeeded (source_items (get d "sources")) _ h
                                                λ items e₈ h.
                                                  succeeded (read_sources items []) _ h
                                                    λ sources e₉ h.
                                                      met_requirement
                                                        (leb (total_size sources) max_source_total
                                                          && str_eq
                                                            (c.digest (c.canonical (arr items)))
                                                            source_set)
                                                        _ _ h
                                                        λ total h.
                                                          met_requirement
                                                            (says_false (get d "automatic_retry")
                                                            && says_false
                                                            (get d "adoption_authorized"))
                                                            _ _ h
                                                            λ bare h.
                                                            let (good, fresh, long) =
                                                            read_sources_sound items [] sources
                                                            e₉ in
                                                            let (listed, low, high) =
                                                            source_items_sound (get d "sources")
                                                            items e₈ in
                                                            let request : Request = record {
                                                            document = d;
                                                            kind = kind;
                                                            id = id;
                                                            campaign = campaign;
                                                            selection = selection;
                                                            config = config;
                                                            source_set = source_set;
                                                            created = created;
                                                            expires = expires;
                                                            caller_seconds = caller;
                                                            sources = sources;
                                                            } in
                                                            let same : request ≡ r = ground arith in
                                                            subst
                                                            (λ r.
                                                            (v ≡ obj r.document) × IsRequest c r)
                                                            same
                                                            (
                                                            request_is_object v d is_d,
                                                            record {
                                                            own_id =
                                                            (read_id_sound (get d "id") id eid).0;
                                                            own_campaign =
                                                            (identity_sound _ _ campaign e₁).0;
                                                            own_selection =
                                                            (identity_sound _ _ selection e₂).0;
                                                            own_config =
                                                            (identity_sound _ _ config e₃).0;
                                                            own_kind = e₀;
                                                            own_start =
                                                            (positive_sound _ _ created e₅).0;
                                                            named =
                                                            (read_id_sound (get d "id") id eid).1;
                                                            identified =
                                                            (identity_sound _ _ campaign e₁).1;
                                                            selected =
                                                            (identity_sound _ _ selection e₂).1;
                                                            configured =
                                                            (identity_sound _ _ config e₃).1;
                                                            started =
                                                            (positive_sound _ _ created e₅).1;
                                                            envelope = ground arith;
                                                            caller_positive =
                                                            (positive_sound _ _ caller e₇).1;
                                                            caller_bounded = ground arith;
                                                            sources = good;
                                                            distinct = fresh;
                                                            some_sources = ground arith;
                                                            few_sources = ground arith;
                                                            total = ground arith;
                                                            items = items;
                                                            inventory = listed;
                                                            rows = e₉;
                                                            digest = ground (
                                                            arith,
                                                            eq_iff
                                                            (c.digest (c.canonical (arr items)))
                                                            source_set,
                                                            );
                                                            no_retry = ground arith;
                                                            no_adoption = ground arith;
                                                            },
                                                            )

-- A request that passes has a positive start and a deadline that lies exactly one envelope of its
-- kind and caller after it, with a caller of at most 7,160 seconds; its identities are digests; it
-- lists between 1 and 64 sources under distinct plain names, each of 1 to 4,194,304 bytes and all of
-- at most 33,554,432; its source set is the digest of that list; and it asks neither for a retry nor
-- for an adoption.
pub read_request-IsRequest :
    (c : Codec) (v : Json) (r : Request) → read_request c v ≡ ok r → IsRequest c r
read_request-IsRequest c v r h = (read_request_sound c v r h).1
