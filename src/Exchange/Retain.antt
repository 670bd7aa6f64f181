-- ===== src/Exchange/Retain.antt =====
-- lib/workstation/hyperloom_exchange_host.py, `retain_snapshot`: the controller's private copy of what it
-- has taken, checked again on its own side of the transport.
use arch_linux_threadripper.Prelude.{
  ◌+◌, ◌*◌, ◌/◌, ◌≤◌, ◌≡◌, refl, String, Bool, true, not, ◌&&◌, Option, none, some, List, [], ◌∷◌,
  leb, ◌==◌, if◌then◌else◌, Result, ok, err, ◌>>=◌, ◌>>◌, require, length, all, str_eq, arith,
  succeeded, met_requirement, both_true, subst, eq_iff, ==_iff, leb→le, ap,
}
use arch_linux_threadripper.Prelude.Text.{codes}
use arch_linux_threadripper.Prelude.Assoc.{Assoc}
use arch_linux_threadripper.Json.{
  Json, null, str, arr, obj, Fields, get, get_or, keys_exactly, eq_nat, eq_str, hashable, keys,
  items_list, items_length,
}
use arch_linux_threadripper.Exchange.Terms.{
  Fault, refused, type_error, attribute_error, Codec, max_source, is_text, says_false, dictionary,
  Kind,
}
use arch_linux_threadripper.Exchange.Requests.{Source, Request, read_request}
use arch_linux_threadripper.Exchange.Store.{Bytes}
use arch_linux_threadripper.Exchange.Jobs.{same_names, source_names}
use arch_linux_threadripper.Exchange.Config.{Bound, validate_config}
use arch_linux_threadripper.Exchange.Host.{same_kind}
use arch_linux_threadripper.Exchange.Validity.{IsRequest, read_request-IsRequest}
use arch_linux_threadripper.Exchange.Snapshots.{AreCopies}

-- `set(config) == {"benchmark"}` and the rest of the policy, for a value that may be no dictionary: a
-- text is no such set, a list of just that text fails at the subscription, and what cannot be made a
-- set raises TypeError.
unfoldable pub config_object : Json → Result Fault Fields
config_object (obj d) = ok d
config_object (str s) = err (refused "one explicit benchmark configuration required")
config_object (arr xs) =
    if all hashable (items_list xs)
      && not (leb 1 (items_length xs) && all (λ v. eq_str v "benchmark") (items_list xs))
    then err (refused "one explicit benchmark configuration required")
    else err type_error
config_object _ = err type_error

-- `claim.get`: AttributeError on what is no dictionary.
unfoldable pub claim_object : Json → Result Fault Fields
claim_object (obj d) = ok d
claim_object _ = err attribute_error

-- `encoded[name]` is there, since the key sets agree.
unfoldable pub read_encoded : Json → Result Fault String
read_encoded (str s) =
    if leb (length (codes s)) (4 * ((max_source + 2) / 3))
    then ok s
    else err (refused "snapshot source size")
read_encoded _ = err (refused "snapshot source size")

-- base64.b64decode(value, validate=True): its failure is a ValueError.
unfoldable pub decoded : Option Bytes → Result Fault Bytes
decoded none = err (refused "base64")
decoded (some raw) = ok raw

unfoldable pub retain_sources :
    Codec → (String → Option Bytes) → Fields → List Source → Result Fault (Assoc Bytes)
retain_sources c unpack encoded [] = ok []
retain_sources c unpack encoded (row ∷ rest) = do
  value ← read_encoded (get_or encoded row.name null)
  raw ← decoded (unpack value)
  require (length raw == row.size && str_eq (c.digest raw) row.sha256)
      (refused "snapshot source digest mismatch")
  later ← retain_sources c unpack encoded rest
  ok ((row.name, raw) ∷ later)

-- The private copy.
pub record Private : Type 0 where
  pub request : Request
  pub config : Fields
  pub claim : Fields
  pub sources : Assoc Bytes

-- `is_fresh`: the destination is an absolute path that is not there yet, in a directory that is.
unfoldable pub retain_snapshot :
    Codec → (String → Option Bytes) → Bound → Bool → Json → Result Fault Private
retain_snapshot c unpack bound is_fresh snapshot = do
  d ← dictionary snapshot "snapshot schema"
  require
      (keys_exactly ("schema" ∷ "request" ∷ "config" ∷ "sources" ∷ "claim" ∷ []) d
        && eq_nat (get_or d "schema" null) 1)
      (refused "snapshot schema")
  request ← read_request c (get_or d "request" null)
  require
      (str_eq request.campaign bound.campaign
        && str_eq request.selection bound.selection
        && request.caller_seconds == bound.caller_seconds request.kind
        && leb request.expires bound.deadline)
      (refused "snapshot campaign/ceiling mismatch")
  require (str_eq (c.digest (c.canonical (get_or d "config" null))) request.config)
      (refused "snapshot config mismatch")
  config ← config_object (get_or d "config" null)
  kind ← validate_config config bound
  require (same_kind kind request.kind) (refused "snapshot config mismatch")
  claim ← claim_object (get_or d "claim" null)
  require
      (is_text request.id (get claim "id")
        && is_text (c.digest (c.canonical (obj request.document))) (get claim "request_sha256")
        && is_text bound.controller (get claim "controller_sha256")
        && says_false (get claim "gpu_admission"))
      (refused "snapshot claim mismatch")
  encoded ← dictionary (get_or d "sources" null) "closed snapshot source set required"
  require (same_names (keys encoded) (source_names request.sources))
      (refused "closed snapshot source set required")
  sources ← retain_sources c unpack encoded request.sources
  require is_fresh (refused "fresh private snapshot destination required")
  ok (record { request = request; config = config; claim = claim; sources = sources })

retain_sources-AreCopies :
    (c : Codec) (unpack : String → Option Bytes) (encoded : Fields) (rows : List Source)
    (copies : Assoc Bytes)
    → retain_sources c unpack encoded rows ≡ ok copies
    → AreCopies c rows copies
unfolding retain_sources
retain_sources-AreCopies c unpack encoded [] copies h =
    subst (AreCopies c []) {x = []} (ground arith) tt
retain_sources-AreCopies c unpack encoded (s ∷ rows) copies h =
    succeeded (read_encoded (get_or encoded s.name null)) _ h λ value _ h.
      succeeded (decoded (unpack value)) _ h λ raw _ h.
        met_requirement (length raw == s.size && str_eq (c.digest raw) s.sha256) _ _ h λ same h.
          succeeded (retain_sources c unpack encoded rows) _ h λ later f h.
            subst (AreCopies c (s ∷ rows)) {x = (s.name, raw) ∷ later} (ground arith) (
              refl,
              ground arith,
              ground (arith, eq_iff (c.digest raw) s.sha256),
              retain_sources-AreCopies c unpack encoded rows later f,
            )

config_object_sound : (v : Json) (d : Fields) → config_object v ≡ ok d → v ≡ obj d
unfolding config_object
config_object_sound (obj e) d h = ap obj (ground arith)
config_object_sound (arr xs) d h = absurd (ground arith)
config_object_sound _ d h = absurd (cc)

-- What the private copy is bound to.
pub record IsRetained (c : Codec) (bound : Bound) (p : Private) : Type 0 where
  pub valid : IsRequest c p.request
  pub own_campaign : p.request.campaign ≡ bound.campaign
  pub own_selection : p.request.selection ≡ bound.selection
  pub caller : p.request.caller_seconds ≡ bound.caller_seconds p.request.kind
  pub before_deadline : p.request.expires ≤ bound.deadline
  pub own_config : c.digest (c.canonical (obj p.config)) ≡ p.request.config
  pub kind : Kind
  pub configured : validate_config p.config bound ≡ ok kind
  pub agreed : same_kind kind p.request.kind ≡ true
  pub own_claim : is_text p.request.id (get p.claim "id") ≡ true
  pub own_request :
      is_text (c.digest (c.canonical (obj p.request.document))) (get p.claim "request_sha256")
      ≡ true
  pub own_controller : is_text bound.controller (get p.claim "controller_sha256") ≡ true
  pub no_admission : says_false (get p.claim "gpu_admission") ≡ true
  pub copies : AreCopies c p.request.sources p.sources

-- Whatever the transport delivers, what the controller retains is a valid request of its campaign and
-- selection, within its ceiling and deadline, with the configuration whose digest the request names, of
-- the request's kind under its policy, a claim of that very request by this controller, and one copy of each listed source whose
-- length and digest are the listed ones.
pub retain_snapshot-IsRetained :
    (c : Codec) (unpack : String → Option Bytes) (bound : Bound) (is_fresh : Bool) (snapshot : Json)
    (p : Private)
    → retain_snapshot c unpack bound is_fresh snapshot ≡ ok p
    → IsRetained c bound p
unfolding retain_snapshot
retain_snapshot-IsRetained c unpack bound is_fresh snapshot p h =
    succeeded (dictionary snapshot "snapshot schema") _ h λ d _ h.
      met_requirement
        (keys_exactly ("schema" ∷ "request" ∷ "config" ∷ "sources" ∷ "claim" ∷ []) d
          && eq_nat (get_or d "schema" null) 1)
        _ _ h
        λ _ h. succeeded (read_request c (get_or d "request" null)) _ h λ request e h.
          met_requirement
            (str_eq request.campaign bound.campaign
              && str_eq request.selection bound.selection
              && request.caller_seconds == bound.caller_seconds request.kind
              && leb request.expires bound.deadline)
            _ _ h
            λ ceiling h.
              met_requirement
                (str_eq (c.digest (c.canonical (get_or d "config" null))) request.config) _ _ h
                λ digest h. succeeded (config_object (get_or d "config" null)) _ h λ config e' h.
                  succeeded (validate_config config bound) _ h λ kind f h.
                    met_requirement (same_kind kind request.kind) _ _ h λ agreed h.
                      succeeded (claim_object (get_or d "claim" null)) _ h λ claim _ h.
                        met_requirement
                          (is_text request.id (get claim "id")
                            && is_text (c.digest (c.canonical (obj request.document)))
                                (get claim "request_sha256")
                            && is_text bound.controller (get claim "controller_sha256")
                            && says_false (get claim "gpu_admission"))
                          _ _ h
                          λ own h.
                            succeeded
                              (dictionary (get_or d "sources" null)
                                "closed snapshot source set required")
                              _ h
                              λ encoded _ h.
                                met_requirement
                                  (same_names (keys encoded) (source_names request.sources)) _ _ h
                                  λ _ h.
                                    succeeded (retain_sources c unpack encoded request.sources) _ h
                                      λ sources g h. met_requirement is_fresh _ _ h λ _ h.
                                        let (own, o₄) = both_true _ _ own in
                                        let (own, o₃) = both_true _ _ own in
                                        let (o₁, o₂) = both_true _ _ own in
                                        let (ceiling, c₄) = both_true _ _ ceiling in
                                        let (ceiling, c₃) = both_true _ _ ceiling in
                                        let (c₁, c₂) = both_true _ _ ceiling in
                                        let kept : Private = record {
                                          request = request;
                                          config = config;
                                          claim = claim;
                                          sources = sources;
                                        } in
                                        let same : kept ≡ p = ground arith in
                                        subst (IsRetained c bound) same (record {
                                          valid =
                                              read_request-IsRequest c (get_or d "request" null)
                                                request e;
                                          own_campaign =
                                              (eq_iff request.campaign bound.campaign).0 c₁;
                                          own_selection =
                                              (eq_iff request.selection bound.selection).0 c₂;
                                          caller =
                                              (==_iff request.caller_seconds
                                                  (bound.caller_seconds request.kind)).0
                                                c₃;
                                          before_deadline =
                                              leb→le request.expires bound.deadline c₄;
                                          own_config =
                                              subst (λ v. c.digest (c.canonical v) ≡ request.config)
                                                (config_object_sound (get_or d "config" null) config
                                                  e')
                                                ((eq_iff
                                                    (c.digest
                                                      (c.canonical (get_or d "config" null)))
                                                    request.config).0
                                                  digest);
                                          kind = kind;
                                          configured = f;
                                          agreed = agreed;
                                          own_claim = o₁;
                                          own_request = o₂;
                                          own_controller = o₃;
                                          no_admission = o₄;
                                          copies =
                                              retain_sources-AreCopies c unpack encoded
                                                request.sources sources g;
                                        })
