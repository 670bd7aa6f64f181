-- ===== src/Exchange/Outcomes.antt =====
-- lib/workstation/hyperloom_exchange_host.py, "publish": what a published outcome has passed.
use arch_linux_threadripper.Prelude.{
  ◌≡◌, refl, String, true, ◌&&◌, Option, none, some, ok, ◌>>=◌, require, arith, succeeded,
  met_requirement, both_true, subst,
}
use arch_linux_threadripper.Prelude.Assoc.{find, place}
use arch_linux_threadripper.Json.{Json, Fields, get, obj}
use arch_linux_threadripper.Exchange.Terms.{
  refused, Codec, max_json, dictionary, is_job_id, is_text, says_true, says_false, identity,
}
use arch_linux_threadripper.Exchange.Store.{
  Bytes, Reply, Exchange, read_file, publish, open_directory,
}
use arch_linux_threadripper.Exchange.Jobs.{check_success, is_status, has_hash}
use arch_linux_threadripper.Exchange.Config.{Bound}
use arch_linux_threadripper.Exchange.Host.{publish_outcome, claimed_request, eq_optional}
use arch_linux_threadripper.Exchange.Claims.{open_directory_sound, read_file_sound}

-- What `publish` has written.
pub record IsPublished (c : Codec) (bound : Bound) (id : String) (result : Json) (x y : Exchange)
    : Type 0 where
  pub reply : Reply
  pub present : find x.replies id ≡ some reply
  pub fresh : reply.result ≡ none
  pub raw : Bytes
  pub encoded : raw ≡ c.canonical result
  pub replies : y.replies ≡ place x.replies id (record reply { result = some raw })
  pub same_jobs : y.jobs ≡ x.jobs
  pub same_parked : y.parked ≡ x.parked
  pub claim_bytes : Bytes
  pub claimed : reply.claim ≡ some claim_bytes
  pub fields : Fields
  pub is_fields : result ≡ obj fields
  pub own_id : is_text id (get fields "id") ≡ true
  pub own_controller : is_text bound.controller (get fields "controller_sha256") ≡ true
  pub own_campaign : is_text bound.campaign (get fields "campaign_sha256") ≡ true
  pub status : is_status (get fields "status") ≡ true
  pub no_retry : says_false (get fields "automatic_retry") ≡ true
  pub no_adoption : says_false (get fields "adoption_authorized") ≡ true
  pub released :
      is_text "SUCCEEDED" (get fields "status") ≡ true
      → says_true (get fields "independent_release") ≡ true

pub check_success-released :
    (d : Fields) (seal release : String) (u : Unit {0})
    → check_success d seal release ≡ ok u
    → is_text "SUCCEEDED" (get d "status") ≡ true
    → says_true (get d "independent_release") ≡ true
unfolding check_success
check_success-released d seal release u h e =
    let h : (identity (get d "owner_seal_sha256") seal >>= λ _.
    require (says_true (get d "independent_release")) (refused release))
        ≡ ok u =
      ground arith in
    succeeded (identity (get d "owner_seal_sha256") seal) _ h λ _ _ h. ground arith

pub publish_sound :
    (old : Option Bytes) (raw out : Bytes) → publish old raw ≡ ok out → (old ≡ none) × (out ≡ raw)
unfolding publish
publish_sound old raw out h = ground arith

pub dictionary_sound :
    (v : Json) (what : String) (d : Fields) → dictionary v what ≡ ok d → v ≡ obj d
unfolding dictionary
dictionary_sound v what d h = ground arith

-- An outcome is published only for a job that this exchange has a claim of and no result yet, under the
-- identities of the job, the controller and the campaign, with a known status, with neither a retry nor
-- an adoption, and a success only with an independent release. It is then the job's result, and
-- nothing else of the exchange has changed.
pub publish_outcome-IsPublished :
    (c : Codec) (bound : Bound) (id : String) (result answer : Json) (x y : Exchange)
    → publish_outcome c bound id result x ≡ ok (answer, y)
    → IsPublished c bound id result x y
unfolding publish_outcome
publish_outcome-IsPublished c bound id result answer x y h =
    met_requirement (is_job_id id) _ _ h λ _ h.
      succeeded (dictionary result "controller result required") _ h λ d e h.
        succeeded (open_directory x.replies id) _ h λ reply f h.
          succeeded (read_file max_json reply.claim) _ h λ raw_claim g h.
            succeeded (c.decode raw_claim) _ h λ value _ h.
              met_requirement
                (is_text id (get d "id")
                  && is_text bound.controller (get d "controller_sha256")
                  && is_text bound.campaign (get d "campaign_sha256"))
                _ _ h
                λ own h. succeeded (claimed_request value) _ h λ request_sha _ h.
                  met_requirement (eq_optional (get d "request_sha256") request_sha) _ _ h λ _ h.
                    met_requirement (has_hash (get d "status")) _ _ h λ _ h.
                      met_requirement
                        (is_status (get d "status")
                          && says_false (get d "adoption_authorized")
                          && says_false (get d "automatic_retry"))
                        _ _ h
                        λ contract h.
                          succeeded
                            (check_success d "invalid completed owner seal"
                              "unreleased owner cannot publish success")
                            _ h
                            λ u s h.
                              succeeded (publish reply.result (c.canonical result)) _ h λ raw w h.
                                let (fresh, written) =
                                  publish_sound reply.result (c.canonical result) raw w in
                                let same : record x {
                                  replies = place x.replies id (record reply { result = some raw });
                                }
                                    ≡ y =
                                  ground arith in
                                let (o₁₂, o₃) = both_true _ _ own in
                                let (o₁, o₂) = both_true _ _ o₁₂ in
                                subst (IsPublished c bound id result x) same (record {
                                  reply = reply;
                                  present = open_directory_sound x.replies id reply f;
                                  fresh = fresh;
                                  raw = raw;
                                  encoded = written;
                                  replies = refl;
                                  same_jobs = refl;
                                  same_parked = refl;
                                  claim_bytes = raw_claim;
                                  claimed = (read_file_sound max_json reply.claim raw_claim g).0;
                                  fields = d;
                                  is_fields =
                                      dictionary_sound result "controller result required" d e;
                                  own_id = o₁;
                                  own_controller = o₂;
                                  own_campaign = o₃;
                                  status = ground arith;
                                  no_retry = ground arith;
                                  no_adoption = ground arith;
                                  released =
                                      check_success-released d "invalid completed owner seal"
                                        "unreleased owner cannot publish success" u s;
                                })
