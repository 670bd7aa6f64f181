-- ===== src/Backend/Begun.antt =====
-- lib/workstation/hyperloom_owner_backend.py, `_begin`: a directory that was begun in.
use arch_linux_threadripper.Prelude.{
  inl, inr, ◌≡◌, String, true, not, Option, some, ok, err, arith, succeeded, met_requirement, subst,
  is_some, ◌≢◌, Result-cases,
}
use arch_linux_threadripper.Prelude.Assoc.{Assoc, find, place, find-place, find-place_self}
use arch_linux_threadripper.Json.{Json, Fields, obj}
use arch_linux_threadripper.Exchange.Terms.{Fault, Codec}
use arch_linux_threadripper.Exchange.Store.{Bytes, publish}
use arch_linux_threadripper.Exchange.Jobs.{require_campaign_open}
use arch_linux_threadripper.Exchange.Config.{validate_config}
use arch_linux_threadripper.Exchange.Submit.{encode}
use arch_linux_threadripper.Backend.Reports.{Binding}
use arch_linux_threadripper.Backend.Screen.{
  publish_in, begin, is_used, started_document, output_folder,
}
use arch_linux_threadripper.Backend.Runs.{Desk}

-- An output directory that an invocation has begun in.
abbrev pub IsBegun : String → Desk → Type 0
IsBegun o d = (folder : Assoc Bytes) × (find d.folders o ≡ some folder) × (is_used folder ≡ true)

is_some-place :
    (folder : Assoc Bytes) (name k : String) (raw : Bytes)
    → is_some (find folder k) ≡ true
    → is_some (find (place folder name raw) k) ≡ true
is_some-place folder name k raw h = ground (arith, find-place folder name k raw)

is_used-place :
    (folder : Assoc Bytes) (name : String) (raw : Bytes)
    → is_used folder ≡ true
    → is_used (place folder name raw) ≡ true
is_used-place folder name raw h = ground (
  arith,
  is_some-place folder name "benchmark_report.json" raw,
  is_some-place folder name "OWNER-STARTED.json" raw,
  is_some-place folder name "OWNER-JOB.json" raw,
  is_some-place folder name "OWNER-RESULT.json" raw,
)

pub is_used-publish_in :
    (c : Codec) (name : String) (v : Json) (folder after : Assoc Bytes)
    → publish_in c name v folder ≡ ok after
    → is_used folder ≡ true
    → is_used after ≡ true
unfolding publish_in
is_used-publish_in c name v folder after h used = succeeded (encode c v) _ h λ raw _ h.
    succeeded (publish (find folder name) raw) _ h λ written _ h.
      let same : place folder name written ≡ after = cc in
      subst (λ f. is_used f ≡ true) same (is_used-place folder name written used)

never_begun :
    (c : Codec) (parked : Option Bytes) (config : Fields) (binding : Binding)
    (folder after : Assoc Bytes)
    → is_used folder ≡ true
    → begin c parked config binding (some folder) ≢ ok after
unfolding begin output_folder
never_begun c parked config binding folder after used h =
    succeeded (require_campaign_open c parked binding.bound.campaign binding.bound.controller) _ h
      λ u _ h.
        succeeded (validate_config config binding.bound) _ h
          λ kind _ h. met_requirement (not (is_used folder)) _ _ h λ fresh _. absurd (ground arith)

-- A directory that is used refuses the start.
pub begin_refuses :
    (c : Codec) (parked : Option Bytes) (config : Fields) (binding : Binding) (folder : Assoc Bytes)
    → is_used folder ≡ true
    → (f : Fault) × (begin c parked config binding (some folder) ≡ err f)
begin_refuses c parked config binding folder used =
    elim (Result-cases (begin c parked config binding (some folder))) [
      | inr (f, e) ↦ (f, e)
      | inl (after, h) ↦ absurd (never_begun c parked config binding folder after used h)
    ]

-- After the start the directory is used.
pub begin_uses :
    (c : Codec) (parked : Option Bytes) (config : Fields) (binding : Binding)
    (output : Option (Assoc Bytes)) (after : Assoc Bytes)
    → begin c parked config binding output ≡ ok after
    → is_used after ≡ true
unfolding begin publish_in
begin_uses c parked config binding output after h =
    succeeded (require_campaign_open c parked binding.bound.campaign binding.bound.controller) _ h
      λ u _ h. succeeded (validate_config config binding.bound) _ h λ kind _ h.
        succeeded (output_folder output) _ h λ folder _ h.
          met_requirement (not (is_used folder)) _ _ h λ _ h.
            succeeded (encode c (obj config)) _ h λ raw _ h.
              succeeded (encode c (started_document (c.digest raw) binding.bound kind)) _ h
                λ started _ h.
                  succeeded (publish (find folder "OWNER-STARTED.json") started) _ h λ written _ h.
                    let same : place folder "OWNER-STARTED.json" written ≡ after = cc in
                    subst (λ f. is_used f ≡ true) same
                      (ground (arith, find-place_self folder "OWNER-STARTED.json" written))
