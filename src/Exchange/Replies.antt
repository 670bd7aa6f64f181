-- ===== src/Exchange/Replies.antt =====
-- lib/workstation/hyperloom_exchange.py, `validate_result` and `read_result`: what a result that is
-- accepted says.
use arch_linux_threadripper.Prelude.{
  ◌≡◌, String, true, ◌&&◌, Option, some, ok, ◌>>=◌, require, arith, succeeded, met_requirement,
  both_true, subst, eq_iff,
}
use arch_linux_threadripper.Json.{Json, str, Fields, get, obj}
use arch_linux_threadripper.Exchange.Terms.{
  refused, Codec, dictionary, is_exactly, is_text, says_false, says_true, is_sha, identity,
}
use arch_linux_threadripper.Exchange.Requests.{Request}
use arch_linux_threadripper.Exchange.Jobs.{
  validate_result, check_success, is_status, has_hash, is_dictionary,
}
use arch_linux_threadripper.Exchange.Outcomes.{dictionary_sound}

pub is_text_sound : (t : String) (v : Option Json) → is_text t v ≡ true → v ≡ some (str t)
is_text_sound t v h =
    elim v as (λ v. is_text t v ≡ true → v ≡ some (str t)) [
      | some (str s) ↦ λ h. ground (arith, eq_iff s t)
      | _ ↦ λ h. absurd (ground arith)
    ]
      h

-- A result that belongs to a request and a controller.
pub record IsResult (c : Codec) (r : Request) (controller : String) (d : Fields) : Type 0 where
  pub own_id : get d "id" ≡ some (str r.id)
  pub own_campaign : get d "campaign_sha256" ≡ some (str r.campaign)
  pub own_config : get d "config_sha256" ≡ some (str r.config)
  pub own_sources : get d "source_set_sha256" ≡ some (str r.source_set)
  pub own_request : get d "request_sha256" ≡ some (str (c.digest (c.canonical (obj r.document))))
  pub own_controller : get d "controller_sha256" ≡ some (str controller)
  pub status : is_status (get d "status") ≡ true
  pub no_retry : says_false (get d "automatic_retry") ≡ true
  pub no_adoption : says_false (get d "adoption_authorized") ≡ true
  pub success :
      get d "status" ≡ some (str "SUCCEEDED")
      → ((seal : String) × (get d "owner_seal_sha256" ≡ some (str seal)) × (is_sha seal ≡ true))
        × (says_true (get d "independent_release") ≡ true)

check_success-sealed :
    (d : Fields) (seal release : String) (u : Unit {0})
    → check_success d seal release ≡ ok u
    → get d "status" ≡ some (str "SUCCEEDED")
    → ((t : String) × (get d "owner_seal_sha256" ≡ some (str t)) × (is_sha t ≡ true))
      × (says_true (get d "independent_release") ≡ true)
unfolding check_success identity
check_success-sealed d seal release u h e =
    let h : (identity (get d "owner_seal_sha256") seal >>= λ _.
    require (says_true (get d "independent_release")) (refused release))
        ≡ ok u =
      ground arith in
    succeeded (identity (get d "owner_seal_sha256") seal) _ h
      λ t k h. ((t, ground arith, ground arith), ground arith)

-- A result that is accepted for a request carries the request's identities, the digest of the request
-- itself and the controller's; it allows neither a retry nor an adoption; and if it says SUCCEEDED, it
-- has the digest of an owner's seal and an independent release.
pub validate_result-IsResult :
    (c : Codec) (v : Json) (r : Request) (controller : String) (d : Fields)
    → validate_result c v r controller ≡ ok d
    → (v ≡ obj d) × IsResult c r controller d
unfolding validate_result
validate_result-IsResult c v r controller d h =
    succeeded (dictionary v "job result schema") _ h λ t e h.
      met_requirement (is_exactly 1 (get t "schema")) _ _ h λ _ h.
        met_requirement
          (is_text r.id (get t "id")
            && is_text r.campaign (get t "campaign_sha256")
            && is_text r.config (get t "config_sha256")
            && is_text r.source_set (get t "source_set_sha256")
            && is_text (c.digest (c.canonical (obj r.document))) (get t "request_sha256")
            && is_text controller (get t "controller_sha256"))
          _ _ h
          λ own h. met_requirement (has_hash (get t "status")) _ _ h λ _ h.
            met_requirement
              (is_status (get t "status")
                && says_false (get t "automatic_retry")
                && says_false (get t "adoption_authorized")
                && is_dictionary (get t "payload"))
              _ _ h
              λ contract h.
                succeeded
                  (check_success t "invalid result seal" "result missing independent release") _ h
                  λ u s h.
                    let (own, o₆) = both_true _ _ own in
                    let (own, o₅) = both_true _ _ own in
                    let (own, o₄) = both_true _ _ own in
                    let (own, o₃) = both_true _ _ own in
                    let (o₁, o₂) = both_true _ _ own in
                    let same : t ≡ d = ground arith in
                    subst (λ d. (v ≡ obj d) × IsResult c r controller d) same
                      (
                        dictionary_sound v "job result schema" t e,
                        record {
                          own_id = is_text_sound r.id (get t "id") o₁;
                          own_campaign = is_text_sound r.campaign (get t "campaign_sha256") o₂;
                          own_config = is_text_sound r.config (get t "config_sha256") o₃;
                          own_sources = is_text_sound r.source_set (get t "source_set_sha256") o₄;
                          own_request =
                              is_text_sound (c.digest (c.canonical (obj r.document)))
                                (get t "request_sha256") o₅;
                          own_controller = is_text_sound controller (get t "controller_sha256") o₆;
                          status = ground arith;
                          no_retry = ground arith;
                          no_adoption = ground arith;
                          success =
                              check_success-sealed t "invalid result seal"
                                "result missing independent release" u s;
                        },
                      )
