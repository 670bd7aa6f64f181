-- ===== src/Backend/Accepted.antt =====
-- lib/workstation/hyperloom_owner_backend.py, `validate_report`: what a benchmark report that
-- passes says.
use arch_linux_threadripper.Prelude.{
  ◌⊎◌, inl, inr, ◌≡◌, refl, true, false, ◌&&◌, some, ok, succeeded, met_requirement, require_sound,
  both_true, subst, str_eq,
}
use arch_linux_threadripper.Json.{Json, null, bool, str, obj, Fields, end, get, get_or}
use arch_linux_threadripper.Exchange.Terms.{
  Kind, serving, profile, component, is_text, says_false, says_true, dictionary,
}
use arch_linux_threadripper.Exchange.Requests.{Request}
use arch_linux_threadripper.Exchange.Host.{eq_optional}
use arch_linux_threadripper.Exchange.Replies.{is_text_sound}
use arch_linux_threadripper.Backend.Samples.{Within}
use arch_linux_threadripper.Backend.Latency.{Series, read_series}
use arch_linux_threadripper.Backend.Reports.{
  Binding, item, entries, same_value, is_none, is_profile, succeeded_payload, check_owner,
  control_keys, agree, check_serving, check_profile, check_kind, validate_report,
}
use arch_linux_threadripper.Backend.Evidence.{
  item_sound, says_true_sound, says_false_sound, same_text, IsSuccess, succeeded_payload-IsSuccess,
  object_sound, entries_sound,
}

-- The latency series of a serving report: of the candidate, and of the selected sources in the same job
pub record IsPair (within : Within) (report result : Fields) (r : Request) (binding : Binding)
    : Type 0 where
  pub observed : Series
  pub control : Series
  pub read_observed :
      read_series within (get_or report "workstation_latency" null) binding.policy ≡ ok observed
  pub read_control :
      read_series within (get_or report "workstation_latency_control" null) binding.policy
      ≡ ok control
  pub arms : (observed.arm ≡ "mtp") × (control.arm ≡ "control")
  pub selection : get observed.document "selection_sha256" ≡ some (str binding.bound.selection)
  pub runtime : get observed.document "runtime_sha256" ≡ some (str binding.runtime)
  pub workload : get observed.document "workload_sha256" ≡ some (str binding.workload)
  pub own_seal :
      same_value (get observed.document "owner_seal_sha256") (get result "owner_seal_sha256") ≡ true
  pub candidate : get observed.document "candidate_sha256" ≡ some (str r.source_set)
  pub selected : get control.document "candidate_sha256" ≡ some (str binding.selected_source_set)
  pub agreed : agree control_keys control.document observed.document ≡ true

-- A complete coverage of the profile, under the owner's seal of the result
pub record IsCovered (report result : Fields) : Type 0 where
  pub coverage : Fields
  pub told : get_or report "profile_coverage" null ≡ obj coverage
  pub complete : get coverage "complete" ≡ some (bool true)
  pub own_seal :
      same_value (get coverage "owner_seal_sha256") (get result "owner_seal_sha256") ≡ true

-- A serving job has a pair of series, and no other job than a profile passes without one.
abbrev pub IsKindChecked : Within → Fields → Fields → Request → Binding → Type 0
IsKindChecked within report result r binding =
    ((r.kind ≡ serving)
      × (get report "diagnostic_only" ≡ some (bool false))
      × IsPair within report result r binding)
    ⊎ ((r.kind ≡ profile)
        × (get report "diagnostic_only" ≡ some (bool true))
        × (is_none (get report "workstation_latency") ≡ true)
        × (is_none (get report "workstation_latency_control") ≡ true)
        × IsCovered report result)

check_serving-IsPair :
    (within : Within) (report result : Fields) (r : Request) (binding : Binding)
    (pair : Series × Series)
    → check_serving within report result r binding ≡ ok pair
    → (get report "diagnostic_only" ≡ some (bool false)) × IsPair within report result r binding
unfolding check_serving
check_serving-IsPair within report result r binding pair h =
    met_requirement (says_false (get report "diagnostic_only")) _ _ h λ timed h.
      succeeded (read_series within (get_or report "workstation_latency" null) binding.policy) _ h
        λ observed e₁ h.
          met_requirement
            (is_text binding.bound.selection (get observed.document "selection_sha256")
              && is_text binding.runtime (get observed.document "runtime_sha256")
              && is_text binding.workload (get observed.document "workload_sha256")
              && is_text r.source_set (get observed.document "candidate_sha256")
              && same_value (get observed.document "owner_seal_sha256")
                  (get result "owner_seal_sha256"))
            _ _ h
            λ own h.
              succeeded
                (read_series within (get_or report "workstation_latency_control" null)
                  binding.policy)
                _ h
                λ control e₂ h.
                  met_requirement
                    (str_eq control.arm "control"
                      && str_eq observed.arm "mtp"
                      && is_text binding.selected_source_set
                          (get control.document "candidate_sha256")
                      && agree control_keys control.document observed.document)
                    _ _ h
                    λ paired h.
                      let (own, o₅) = both_true _ _ own in
                      let (own, o₄) = both_true _ _ own in
                      let (own, o₃) = both_true _ _ own in
                      let (o₁, o₂) = both_true _ _ own in
                      let (paired, p₄) = both_true _ _ paired in
                      let (paired, p₃) = both_true _ _ paired in
                      let (p₁, p₂) = both_true _ _ paired in
                      (
                        says_false_sound (get report "diagnostic_only") timed,
                        record {
                          observed = observed;
                          control = control;
                          read_observed = e₁;
                          read_control = e₂;
                          arms =
                              (same_text observed.arm "mtp" p₂, same_text control.arm "control" p₁);
                          selection = is_text_sound _ (get observed.document "selection_sha256") o₁;
                          runtime = is_text_sound _ (get observed.document "runtime_sha256") o₂;
                          workload = is_text_sound _ (get observed.document "workload_sha256") o₃;
                          own_seal = o₅;
                          candidate =
                              is_text_sound r.source_set (get observed.document "candidate_sha256")
                                o₄;
                          selected =
                              is_text_sound binding.selected_source_set
                                (get control.document "candidate_sha256") p₃;
                          agreed = p₄;
                        },
                      )

-- A report of a benchmark that passes, for a job of its kind.
pub record IsReport (within : Within) (result : Fields) (r : Request) (binding : Binding)
    (report : Fields) : Type 0 where
  pub payload : Fields
  pub success : IsSuccess result payload
  pub carried : get_or payload "benchmark_report" null ≡ obj report
  pub succeeds : get report "success" ≡ some (bool true)
  pub framework : get report "framework" ≡ some (str "sglang")
  pub model : same_value (get report "model") (get binding.bound.benchmark "model") ≡ true
  pub valid : get report "benchmark_valid" ≡ some (bool true)
  pub backend : get report "benchmark_backend" ≡ some (str "workstation_owner")
  pub no_adoption : get report "adoption_authorized" ≡ some (bool false)
  pub gate : Fields
  pub gated : get_or report "quality_gate" (obj end) ≡ obj gate
  pub quality : get gate "passed" ≡ some (bool true)
  pub owner : Fields
  pub named : get_or report "owner_binding" (obj end) ≡ obj owner
  pub seal : Json
  pub result_seal : get result "owner_seal_sha256" ≡ some seal
  pub own_seal : eq_optional (get owner "owner_seal_sha256") seal ≡ true
  pub sha : Json
  pub result_sha : get result "request_sha256" ≡ some sha
  pub own_request : eq_optional (get owner "request_sha256") sha ≡ true
  pub own_sources : get owner "source_set_sha256" ≡ some (str r.source_set)
  pub own_kind : IsKindChecked within report result r binding

is_profile_sound : (k : Kind) → is_profile k ≡ true → k ≡ profile
is_profile_sound profile h = refl
is_profile_sound serving h = absurd (cc)
is_profile_sound component h = absurd (cc)

check_profile_sound :
    (report result : Fields) (r : Request) (u : Unit {0})
    → check_profile report result r ≡ ok u
    → (r.kind ≡ profile)
      × (get report "diagnostic_only" ≡ some (bool true))
      × (is_none (get report "workstation_latency") ≡ true)
      × (is_none (get report "workstation_latency_control") ≡ true)
      × IsCovered report result
unfolding check_profile
check_profile_sound report result r u h =
    met_requirement
      (is_profile r.kind
        && says_true (get report "diagnostic_only")
        && is_none (get report "workstation_latency")
        && is_none (get report "workstation_latency_control"))
      _ _ h
      λ bare h.
        succeeded (dictionary (get_or report "profile_coverage" null) "incomplete owner profile") _
          h
          λ coverage e h.
            let (complete, seal) =
              both_true (says_true (get coverage "complete")) _ (require_sound _ _ h) in
            let (bare, o₄) = both_true _ _ bare in
            let (bare, o₃) = both_true _ _ bare in
            let (o₁, o₂) = both_true _ _ bare in
            (
              is_profile_sound r.kind o₁,
              says_true_sound (get report "diagnostic_only") o₂,
              o₃,
              o₄,
              record {
                coverage = coverage;
                told = object_sound (get_or report "profile_coverage" null) _ coverage e;
                complete = says_true_sound (get coverage "complete") complete;
                own_seal = seal;
              },
            )

check_kind-IsKindChecked :
    (kind : Kind) (within : Within) (report result : Fields) (r : Request) (binding : Binding)
    (u : Unit {0})
    → r.kind ≡ kind
    → check_kind kind within report result r binding ≡ ok u
    → IsKindChecked within report result r binding
unfolding check_kind
check_kind-IsKindChecked serving within report result r binding u e h =
    succeeded (check_serving within report result r binding) _ h λ pair f _.
      let (timed, pair) = check_serving-IsPair within report result r binding pair f in
      inl (e, timed, pair)
check_kind-IsKindChecked profile within report result r binding u e h =
    inr (check_profile_sound report result r u h)
check_kind-IsKindChecked component within report result r binding u e h =
    inr (check_profile_sound report result r u h)

check_owner_sound :
    (report result : Fields) (r : Request) (u : Unit {0})
    → check_owner report result r ≡ ok u
    → (owner : Fields) × (seal : Json) × (sha : Json) × (get_or report "owner_binding" (obj end)
        ≡ obj owner)
      × (get result "owner_seal_sha256" ≡ some seal)
      × (eq_optional (get owner "owner_seal_sha256") seal ≡ true)
      × (get result "request_sha256" ≡ some sha)
      × (eq_optional (get owner "request_sha256") sha ≡ true)
      × (get owner "source_set_sha256" ≡ some (str r.source_set))
unfolding check_owner
check_owner_sound report result r u h =
    succeeded
      (dictionary (get_or report "owner_binding" (obj end)) "report belongs to another owner job") _
      h
      λ owner e₀ h. succeeded (item result "owner_seal_sha256") _ h λ seal e h.
        met_requirement (eq_optional (get owner "owner_seal_sha256") seal) _ _ h λ own h.
          succeeded (item result "request_sha256") _ h λ sha e' h.
            let (o₁, o₂) =
              both_true (eq_optional (get owner "request_sha256") sha)
                (is_text r.source_set (get owner "source_set_sha256")) (require_sound _ _ h) in
            (
              owner,
              seal,
              sha,
              object_sound (get_or report "owner_binding" (obj end)) _ owner e₀,
              item_sound result "owner_seal_sha256" seal e,
              own,
              item_sound result "request_sha256" sha e',
              o₁,
              is_text_sound r.source_set (get owner "source_set_sha256") o₂,
            )

-- A benchmark report that is accepted comes from a result that succeeded after an independent release;
-- it is the benchmark report of the result's payload, succeeded on the bound model and framework, is
-- valid, says that its own quality gate passed, and authorizes no adoption; its owner binding names the
-- owner's seal and the request digest of the result, and the request's source set. It is either a serving
-- report, with a latency series of those sources under the bound selection, runtime and workload and the
-- result's seal, and a control series of the selected sources that agrees on the job; or the report of a
-- profile, diagnostic, without any latency series, and with a complete coverage under the result's seal.
-- No other kind of job has one.
pub validate_report-IsReport :
    (within : Within) (result report : Fields) (r : Request) (binding : Binding)
    → validate_report within result r binding ≡ ok report
    → IsReport within result r binding report
unfolding validate_report
validate_report-IsReport within result report r binding h =
    succeeded (succeeded_payload result "owner job did not complete and release") _ h
      λ payload e₁ h.
        succeeded
          (dictionary (get_or payload "benchmark_report" null)
            "owner report subject/status mismatch")
          _ h
          λ d e₀ h.
            met_requirement
              (says_true (get d "success")
                && is_text "sglang" (get d "framework")
                && same_value (get d "model") (get binding.bound.benchmark "model"))
              _ _ h
              λ subject h.
                met_requirement
                  (is_text "workstation_owner" (get d "benchmark_backend")
                    && says_true (get d "benchmark_valid"))
                  _ _ h
                  λ valid h. succeeded (check_owner d result r) _ h λ u e₂ h.
                    succeeded (entries (get_or d "quality_gate" (obj end))) _ h λ gate e₄ h.
                      met_requirement (says_true (get gate "passed")) _ _ h λ passed h.
                        met_requirement (says_false (get d "adoption_authorized")) _ _ h λ bare h.
                          succeeded (check_kind r.kind within d result r binding) _ h λ v e₃ h.
                            let same : d ≡ report = cc in
                            let (v₁, v₂) = both_true _ _ valid in
                            let (subject, model) = both_true _ _ subject in
                            let (s₁, s₂) = both_true _ _ subject in
                            let (owner, seal, sha, named, f, own, g, own_request, sources) =
                              check_owner_sound d result r u e₂ in
                            subst (IsReport within result r binding) same (record {
                              payload = payload;
                              success = succeeded_payload-IsSuccess result _ payload e₁;
                              carried =
                                  object_sound (get_or payload "benchmark_report" null) _ d e₀;
                              succeeds = says_true_sound (get d "success") s₁;
                              framework = is_text_sound "sglang" (get d "framework") s₂;
                              model = model;
                              valid = says_true_sound (get d "benchmark_valid") v₂;
                              backend = is_text_sound _ (get d "benchmark_backend") v₁;
                              no_adoption = says_false_sound (get d "adoption_authorized") bare;
                              gate = gate;
                              gated = entries_sound (get_or d "quality_gate" (obj end)) gate e₄;
                              quality = says_true_sound (get gate "passed") passed;
                              owner = owner;
                              named = named;
                              seal = seal;
                              result_seal = f;
                              own_seal = own;
                              sha = sha;
                              result_sha = g;
                              own_request = own_request;
                              own_sources = sources;
                              own_kind =
                                  check_kind-IsKindChecked r.kind within d result r binding v refl
                                    e₃;
                            })
