-- ===== src/Backend/Evidence.antt =====
-- lib/workstation/hyperloom_owner_backend.py, `validate_component`: what a component report
-- that passes says.
use arch_linux_threadripper.Prelude.{
  eq_iff, ◌≡◌, String, Bool, true, false, ◌&&◌, Option, some, ok, arith, succeeded, met_requirement,
  require_sound, both_true, subst, ap, ◌∙◌, str_eq,
}
use arch_linux_threadripper.Json.{Json, null, bool, str, obj, Fields, end, get, get_or, eq_nat}
use arch_linux_threadripper.Exchange.Terms.{Codec, is_text, says_false, says_true, dictionary}
use arch_linux_threadripper.Exchange.Requests.{Request}
use arch_linux_threadripper.Exchange.Host.{eq_optional}
use arch_linux_threadripper.Exchange.Replies.{is_text_sound}
use arch_linux_threadripper.Backend.Reports.{
  Binding, item, entries, succeeded_payload, flag, is_flag, check_component_owner,
  validate_component,
}

pub item_sound : (d : Fields) (k : String) (v : Json) → item d k ≡ ok v → get d k ≡ some v
unfolding item
item_sound d k v h = ground arith

pub entries_sound : (v : Json) (d : Fields) → entries v ≡ ok d → v ≡ obj d
unfolding entries
entries_sound v d h = ground arith

pub object_sound : (v : Json) (what : String) (d : Fields) → dictionary v what ≡ ok d → v ≡ obj d
unfolding dictionary
object_sound v what d h = ground arith

pub says_true_sound : (v : Option Json) → says_true v ≡ true → v ≡ some (bool true)
says_true_sound v h = ground arith

pub says_false_sound : (v : Option Json) → says_false v ≡ true → v ≡ some (bool false)
says_false_sound v h = ground arith

pub same_text : (s t : String) → str_eq s t ≡ true → s ≡ t
same_text s t h = ground (arith, eq_iff s t)

-- The payload of a result that succeeded after an independent release.
pub record IsSuccess (result payload : Fields) : Type 0 where
  pub status : get result "status" ≡ some (str "SUCCEEDED")
  pub released : get result "independent_release" ≡ some (bool true)
  pub carried : get result "payload" ≡ some (obj payload)

pub succeeded_payload-IsSuccess :
    (result : Fields) (what : String) (payload : Fields)
    → succeeded_payload result what ≡ ok payload
    → IsSuccess result payload
unfolding succeeded_payload
succeeded_payload-IsSuccess result what payload h =
    succeeded (item result "status") _ h λ status e₁ h.
      met_requirement (is_text "SUCCEEDED" (some status)) _ _ h λ good h.
        succeeded (item result "independent_release") _ h λ released e₂ h.
          met_requirement (says_true (some released)) _ _ h λ free h.
            succeeded (item result "payload") _ h λ p e₃ h. record {
              status =
                  item_sound result "status" status e₁
                  ∙ is_text_sound "SUCCEEDED" (some status) good;
              released =
                  item_sound result "independent_release" released e₂
                  ∙ says_true_sound (some released) free;
              carried = item_sound result "payload" p e₃ ∙ ap some (entries_sound p payload h);
            }

-- A report of the component screen for a request, with the three findings that decide on it.
pub record IsComponentReport (c : Codec) (result : Fields) (r : Request) (binding : Binding)
    (report : Fields) : Type 0 where
  pub payload : Fields
  pub success : IsSuccess result payload
  pub carried : get_or payload "component_report" null ≡ obj report
  pub diagnostic : get report "diagnostic_only" ≡ some (bool true)
  pub not_served : get report "serving_tested" ≡ some (bool false)
  pub no_adoption : get report "adoption_authorized" ≡ some (bool false)
  pub owner : Fields
  pub named : get_or report "owner_binding" (obj end) ≡ obj owner
  pub seal : Json
  pub result_seal : get result "owner_seal_sha256" ≡ some seal
  pub own_seal : eq_optional (get owner "owner_seal_sha256") seal ≡ true
  pub own_request :
      get owner "request_sha256" ≡ some (str (c.digest (c.canonical (obj r.document))))
  pub own_sources : get owner "source_set_sha256" ≡ some (str r.source_set)
  pub own_controller : get owner "controller_sha256" ≡ some (str binding.bound.controller)
  pub correct : Bool
  pub useful : Bool
  pub zero_prefix : Bool
  pub found_correct : get report "correct_both_cards" ≡ some (bool correct)
  pub found_useful : get report "useful_both_cards" ≡ some (bool useful)
  pub found_zero : get report "zero_prefix_no_regression" ≡ some (bool zero_prefix)
  pub eligible : get report "eligible_for_serving" ≡ some (bool (correct && useful && zero_prefix))

record IsOwnedBy (c : Codec) (report result : Fields) (r : Request) (binding : Binding)
    : Type 0 where
  pub owner : Fields
  pub named : get_or report "owner_binding" (obj end) ≡ obj owner
  pub seal : Json
  pub result_seal : get result "owner_seal_sha256" ≡ some seal
  pub own_seal : eq_optional (get owner "owner_seal_sha256") seal ≡ true
  own_request : get owner "request_sha256" ≡ some (str (c.digest (c.canonical (obj r.document))))
  pub own_sources : get owner "source_set_sha256" ≡ some (str r.source_set)
  own_controller : get owner "controller_sha256" ≡ some (str binding.bound.controller)

check_component_owner-IsOwnedBy :
    (c : Codec) (report result : Fields) (r : Request) (binding : Binding) (u : Unit {0})
    → check_component_owner c report result r binding ≡ ok u
    → IsOwnedBy c report result r binding
unfolding check_component_owner
check_component_owner-IsOwnedBy c report result r binding u h =
    succeeded (entries (get_or report "owner_binding" (obj end))) _ h λ owner e₀ h.
      succeeded (item result "owner_seal_sha256") _ h λ seal e h.
        let own =
          require_sound
            (eq_optional (get owner "owner_seal_sha256") seal
              && is_text (c.digest (c.canonical (obj r.document))) (get owner "request_sha256")
              && is_text r.source_set (get owner "source_set_sha256")
              && is_text binding.bound.controller (get owner "controller_sha256"))
            _ h in
        let (own, o₄) = both_true _ _ own in
        let (own, o₃) = both_true _ _ own in
        let (o₁, o₂) = both_true _ _ own in
        record {
          owner = owner;
          named = entries_sound (get_or report "owner_binding" (obj end)) owner e₀;
          seal = seal;
          result_seal = item_sound result "owner_seal_sha256" seal e;
          own_seal = o₁;
          own_request = is_text_sound _ (get owner "request_sha256") o₂;
          own_sources = is_text_sound r.source_set (get owner "source_set_sha256") o₃;
          own_controller =
              is_text_sound binding.bound.controller (get owner "controller_sha256") o₄;
        }

flag_sound : (v : Option Json) (b : Bool) → flag v ≡ ok b → v ≡ some (bool b)
unfolding flag
flag_sound v b h = ground arith

is_flag_sound : (b : Bool) (v : Option Json) → is_flag b v ≡ true → v ≡ some (bool b)
is_flag_sound true v h = says_true_sound v h
is_flag_sound false v h = says_false_sound v h

-- A component report that is accepted comes from a result that succeeded after an independent release;
-- it is the component report of the result's payload, diagnostic, was not served and authorizes no
-- adoption; its owner binding names the owner's seal of the result, the request, its source set and the
-- controller; and it is eligible for serving exactly if both cards
-- are correct, both are useful and the case without a prefix has not become worse.
pub validate_component-IsComponentReport :
    (c : Codec) (result report : Fields) (r : Request) (binding : Binding)
    → validate_component c result r binding ≡ ok report
    → IsComponentReport c result r binding report
unfolding validate_component
validate_component-IsComponentReport c result report r binding h =
    succeeded (succeeded_payload result "component owner did not complete and release") _ h
      λ payload e₁ h.
        succeeded
          (dictionary (get_or payload "component_report" null)
            "component timing is diagnostic, not a serving result")
          _ h
          λ d e₀ h.
            met_requirement
              (eq_nat (get_or d "schema" null) 1
                && says_true (get d "diagnostic_only")
                && says_false (get d "serving_tested")
                && says_false (get d "adoption_authorized"))
              _ _ h
              λ head h. succeeded (check_component_owner c d result r binding) _ h λ u e₂ h.
                succeeded (flag (get d "correct_both_cards")) _ h λ correct e₃ h.
                  succeeded (flag (get d "useful_both_cards")) _ h λ useful e₄ h.
                    succeeded (flag (get d "zero_prefix_no_regression")) _ h λ zero_prefix e₅ h.
                      met_requirement
                        (is_flag (correct && useful && zero_prefix) (get d "eligible_for_serving"))
                        _ _ h
                        λ eligible h.
                          let same : d ≡ report = cc in
                          let own = check_component_owner-IsOwnedBy c d result r binding u e₂ in
                          let (head, o₃) = both_true _ _ head in
                          let (head, o₂) = both_true _ _ head in
                          let (_, o₁) = both_true _ _ head in
                          subst (IsComponentReport c result r binding) same (record {
                            payload = payload;
                            success = succeeded_payload-IsSuccess result _ payload e₁;
                            carried = object_sound (get_or payload "component_report" null) _ d e₀;
                            diagnostic = says_true_sound (get d "diagnostic_only") o₁;
                            not_served = says_false_sound (get d "serving_tested") o₂;
                            no_adoption = says_false_sound (get d "adoption_authorized") o₃;
                            owner = own.owner;
                            named = own.named;
                            seal = own.seal;
                            result_seal = own.result_seal;
                            own_seal = own.own_seal;
                            own_request = own.own_request;
                            own_sources = own.own_sources;
                            own_controller = own.own_controller;
                            correct = correct;
                            useful = useful;
                            zero_prefix = zero_prefix;
                            found_correct = flag_sound (get d "correct_both_cards") correct e₃;
                            found_useful = flag_sound (get d "useful_both_cards") useful e₄;
                            found_zero =
                                flag_sound (get d "zero_prefix_no_regression") zero_prefix e₅;
                            eligible =
                                is_flag_sound (correct && useful && zero_prefix)
                                  (get d "eligible_for_serving") eligible;
                          })

-- A screen that is eligible has all three findings.
pub eligible_flags :
    (c : Codec) (result report : Fields) (r : Request) (binding : Binding)
    → IsComponentReport c result r binding report
    → get report "eligible_for_serving" ≡ some (bool true)
    → (get report "correct_both_cards" ≡ some (bool true))
      × (get report "useful_both_cards" ≡ some (bool true))
      × (get report "zero_prefix_no_regression" ≡ some (bool true))
eligible_flags c result report r binding i h =
    let told = i.eligible in
    let found : (i.correct && i.useful && i.zero_prefix) ≡ true = cc in
    let (found, zero_prefix) = both_true _ _ found in
    let (correct, useful) = both_true _ _ found in
    (
      i.found_correct ∙ ap (λ b. some (bool b)) correct,
      i.found_useful ∙ ap (λ b. some (bool b)) useful,
      i.found_zero ∙ ap (λ b. some (bool b)) zero_prefix,
    )
