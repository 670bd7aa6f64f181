-- ===== src/Exchange/Answer.antt =====
-- lib/workstation/hyperloom_exchange.py: what `publish_result` writes, `read_result` accepts.
use arch_linux_threadripper.Prelude.{
  ◌≡◌, String, true, ◌&&◌, Option, none, some, ok, str_eq, arith, succeeded, subst, leb,
  met_requirement, eq_refl, length, ap, ◌∙◌, sym,
}
use arch_linux_threadripper.Json.{Json, str, obj, Fields, get}
use arch_linux_threadripper.Exchange.Terms.{
  Codec, max_json, max_result, identity, is_text, dictionary,
}
use arch_linux_threadripper.Exchange.Requests.{Request}
use arch_linux_threadripper.Exchange.Store.{Bytes, Reply, read_file, publish, is_there}
use arch_linux_threadripper.Exchange.Jobs.{
  has_hash, is_status, is_dictionary, read_result, validate_result, check_success,
}
use arch_linux_threadripper.Exchange.Submit.{encode}
use arch_linux_threadripper.Exchange.Publish.{
  claim_entries, claimed_controller, check_seal, result_fields, outcome, publish_result,
}

-- What an outcome has passed
record IsOutcome (c : Codec) (name : String) (r : Request) (d : Fields) : Type 0 where
  status : Json
  payload : Json
  seal : Json
  release : Json
  controller : Json
  same : d ≡ result_fields c r status payload seal release controller
  named : str_eq name r.id ≡ true
  known : is_status (some status) ≡ true
  hashed : has_hash (some status) ≡ true
  with_payload : is_dictionary (some payload) ≡ true
  sealed : check_seal status seal release ≡ ok tt

outcome-IsOutcome :
    (c : Codec) (name : String) (reply : Reply) (r : Request) (status payload seal release : Json)
    (d : Fields)
    → outcome c name reply r status payload seal release ≡ ok d
    → IsOutcome c name r d
unfolding outcome
outcome-IsOutcome c name reply r status payload seal release d h =
    met_requirement (has_hash (some status)) _ _ h λ hashed h.
      met_requirement (is_status (some status) && is_dictionary (some payload)) _ _ h λ known h.
        met_requirement (str_eq name r.id && is_there reply.claim) _ _ h λ named h.
          succeeded (read_file max_json reply.claim) _ h λ raw _ h.
            succeeded (c.decode raw) _ h λ value _ h.
              succeeded (claim_entries value) _ h λ claim _ h.
                met_requirement
                  (is_text r.id (get claim "id")
                    && is_text (c.digest (c.canonical (obj r.document)))
                        (get claim "request_sha256"))
                  _ _ h
                  λ _ h. succeeded (check_seal status seal release) _ h λ u sealed h.
                    succeeded (claimed_controller claim) _ h λ controller _ h. record {
                      status = status;
                      payload = payload;
                      seal = seal;
                      release = release;
                      controller = controller;
                      same = cc;
                      named = ground arith;
                      known = ground arith;
                      hashed = hashed;
                      with_payload = ground arith;
                      sealed = sealed;
                    }

-- The check of a success reads what the publication has checked.
check_success-check_seal :
    (c : Codec) (r : Request) (status payload seal release controller : Json)
    → check_seal status seal release ≡ ok tt
    → check_success
        (result_fields c r status payload seal release controller)
        "invalid result seal"
        "result missing independent release"
      ≡ ok tt
unfolding check_success check_seal identity
check_success-check_seal c r status payload seal release controller h = ground arith

validate-result_fields :
    (c : Codec) (r : Request) (status payload seal release : Json) (controller : String)
    → is_status (some status) ≡ true
    → has_hash (some status) ≡ true
    → is_dictionary (some payload) ≡ true
    → check_seal status seal release ≡ ok tt
    → validate_result c
        (obj (result_fields c r status payload seal release (str controller)))
        r
        controller
      ≡ ok (result_fields c r status payload seal release (str controller))
unfolding validate_result dictionary
validate-result_fields c r status payload seal release controller known hashed given sealed =
    ground (
      arith,
      check_success-check_seal c r status payload seal release (str controller) sealed,
      eq_refl r.id,
      eq_refl r.campaign,
      eq_refl r.config,
      eq_refl r.source_set,
      eq_refl (c.digest (c.canonical (obj r.document))),
      eq_refl controller,
    )

validate-outcome :
    (c : Codec) (name : String) (r : Request) (d : Fields) (controller : String)
    → IsOutcome c name r d
    → get d "controller_sha256" ≡ some (str controller)
    → validate_result c (obj d) r controller ≡ ok d
validate-outcome c name r d controller i h =
    let own : some i.controller ≡ some (str controller) =
      subst (λ d. get d "controller_sha256" ≡ some (str controller)) i.same h in
    let same : d ≡ result_fields c r i.status i.payload i.seal i.release (str controller) =
      i.same ∙ ap (λ v. result_fields c r i.status i.payload i.seal i.release v) (cc) in
    subst (λ d. validate_result c (obj d) r controller ≡ ok d) (sym same)
      (validate-result_fields c r i.status i.payload i.seal i.release controller i.known i.hashed
        i.with_payload i.sealed)

publish-encode :
    (c : Codec) (old : Option Bytes) (v : Json) (raw written : Bytes)
    → encode c v ≡ ok raw
    → publish old raw ≡ ok written
    → (old ≡ none) × (written ≡ c.canonical v) × (leb (length written) max_result ≡ true)
unfolding encode publish
publish-encode c old v raw written e h = ground arith

read_back :
    (c : Codec) (name : String) (reply : Reply) (r : Request) (controller : String) (raw : Bytes)
    (d : Fields)
    → reply.result ≡ some raw
    → leb (length raw) max_result ≡ true
    → c.decode raw ≡ ok (obj d)
    → str_eq name r.id ≡ true
    → validate_result c (obj d) r controller ≡ ok d
    → read_result c name reply r controller ≡ ok d
unfolding read_result read_file
read_back c name reply r controller raw d h₁ h₂ h₃ h₄ h₅ = ground arith

-- A result is published only where there is none yet, and the claim stays. The reader accepts what has
-- been published, and returns the same document, if it asks for the controller that the document names
-- and the decoder reads the document back from its canonical text.
pub read_result-publish_result :
    (c : Codec) (name : String) (reply after : Reply) (r : Request)
    (status payload seal release : Json) (d : Fields) (controller : String)
    → publish_result c name reply r status payload seal release ≡ ok (d, after)
    → get d "controller_sha256" ≡ some (str controller)
    → c.decode (c.canonical (obj d)) ≡ ok (obj d)
    → (reply.result ≡ none)
      × (after.claim ≡ reply.claim)
      × (read_result c name after r controller ≡ ok d)
unfolding publish_result
read_result-publish_result c name reply after r status payload seal release d controller h own
      reads =
    succeeded (outcome c name reply r status payload seal release) _ h λ e i h.
      succeeded (encode c (obj e)) _ h λ raw f h.
        succeeded (publish reply.result raw) _ h λ written g h.
          let same : e ≡ d = cc in
          let (new, is, short) = publish-encode c reply.result (obj e) raw written f g in
          let after_is : record reply { result = some written } ≡ after = cc in
          let o =
            subst (IsOutcome c name r) same
              (outcome-IsOutcome c name reply r status payload seal release e i) in
          (
            new,
            sym (ap (λ (y : Reply). y.claim) after_is),
            read_back c name after r controller written d
                (sym (ap (λ (y : Reply). y.result) after_is)) short
                (ap c.decode (is ∙ ap (λ d. c.canonical (obj d)) same) ∙ reads) o.named
                (validate-outcome c name r d controller o own),
          )
