-- ===== src/Backend/Posted.antt =====
-- lib/workstation/hyperloom_owner_backend.py, `_submit`: the job that it has submitted.
use arch_linux_threadripper.Prelude.{
  ◌≡◌, refl, String, Option, none, some, Result, ok, err, arith, succeeded, ap, ◌∙◌, sym, subst,
  eq_iff,
}
use arch_linux_threadripper.Prelude.Assoc.{Assoc, find, place, find-place_self}
use arch_linux_threadripper.Prelude.Effects.{continued}
use arch_linux_threadripper.Json.{Json, obj, Fields}
use arch_linux_threadripper.Exchange.Terms.{Fault, Codec}
use arch_linux_threadripper.Exchange.Requests.{Request}
use arch_linux_threadripper.Exchange.Store.{Bytes, Exchange, publish}
use arch_linux_threadripper.Exchange.Config.{validate_config}
use arch_linux_threadripper.Exchange.Submit.{Files, encode}
use arch_linux_threadripper.Exchange.Write.{submit}
use arch_linux_threadripper.Exchange.Carried.{submit_carries}
use arch_linux_threadripper.Backend.Reports.{Binding}
use arch_linux_threadripper.Backend.Screen.{source_set, check_expected, publish_in}
use arch_linux_threadripper.Backend.Runs.{
  Desk, Surroundings, submit_job, submit_from, submission, write_to, with_exchange, write_in,
  with_folder,
}

-- A request that was submitted for a configuration, with the source set that is expected.
pub record IsJob (c : Codec) (env : Surroundings) (o : String) (config : Fields) (binding : Binding)
    (expected : String) (r : Request) : Type 0 where
  pub configured : validate_config config binding.bound ≡ ok r.kind
  pub current : source_set c (env.at_check o) binding ≡ ok expected
  pub sources : r.source_set ≡ expected
  pub before : Exchange
  pub after : Exchange
  pub submitted :
      submit c
        (env.at_submit o)
        (env.token o)
        (submission config binding r.kind (some expected) (env.clock o))
        before
      ≡ (ok r, after)

check_expected_sound :
    (c : Codec) (disk : Files) (binding : Binding) (expected : String) (u : Unit {0})
    → check_expected c disk binding (some expected) ≡ ok u
    → source_set c disk binding ≡ ok expected
unfolding check_expected
check_expected_sound c disk binding expected u h =
    succeeded (source_set c disk binding) _ h λ found e h.
      let same : found ≡ expected = ground (arith, eq_iff found expected) in e ∙ ap ok same

pub left_exchange :
    {A : Type 0} (d after : Desk) (m : Result Fault A × Exchange) (a : A)
    → with_exchange d m ≡ (ok a, after)
    → m ≡ (ok a, after.exchange)
left_exchange d after (ok b, x) a h = cc
left_exchange d after (err f, x) a h = absurd (cc)

pub submit_job-IsJob :
    (c : Codec) (env : Surroundings) (o : String) (config : Fields) (binding : Binding)
    (expected : String) (d after : Desk) (r : Request)
    → submit_job c env o config binding (some expected) d ≡ (ok r, after)
    → IsJob c env o config binding expected r
unfolding submit_job submit_from
submit_job-IsJob c env o config binding expected d after r h =
    let (kind, d₁, e₁, h) = continued _ (validate_config config binding.bound, d) h in
    let (u, d₂, e₂, h) =
      continued _ (check_expected c (env.at_check o) binding (some expected), d₁) h in
    let (q, d₃, e₃, h) =
      continued _
        (submit_from c env o (submission config binding kind (some expected) (env.clock o)) d₂) h in
    let (v, d₄, e₄, h) = continued _ (write_to c o "OWNER-JOB.json" (obj q.document) d₃) h in
    let same : q ≡ r = cc in
    let valid : validate_config config binding.bound ≡ ok kind = ap (λ m. m.0) e₁ in
    let done =
      left_exchange d₂ d₃
        (submit c (env.at_submit o) (env.token o)
          (submission config binding kind (some expected) (env.clock o)) d₂.exchange)
        q e₃ in
    let (own_kind, own_set) =
      submit_carries c (env.at_submit o) (env.token o)
        (submission config binding kind (some expected) (env.clock o)) d₂.exchange d₃.exchange q
        kind expected done refl refl in
    subst (IsJob c env o config binding expected) same (record {
      configured = valid ∙ ap ok (sym own_kind);
      current = check_expected_sound c (env.at_check o) binding expected u (ap (λ m. m.0) e₂);
      sources = own_set;
      before = d₂.exchange;
      after = d₃.exchange;
      submitted =
          subst
            (λ k.
              submit c (env.at_submit o) (env.token o)
                (submission config binding k (some expected) (env.clock o)) d₂.exchange
              ≡ (ok q, d₃.exchange))
            (sym own_kind) done;
    })

-- A document that lies in an output directory
abbrev pub Stored : Codec → String → String → Json → Desk → Type 0
Stored c o name v d =
    (folder : Assoc Bytes) × (raw : Bytes) × (find d.folders o ≡ some folder)
    × (find folder name ≡ some raw)
    × (encode c v ≡ ok raw)

published_same :
    (old : Option Bytes) (raw written : Bytes) → publish old raw ≡ ok written → raw ≡ written
unfolding publish
published_same old raw written h = ground arith

publish_in_stores :
    (c : Codec) (name : String) (v : Json) (folder after : Assoc Bytes)
    → publish_in c name v folder ≡ ok after
    → (raw : Bytes) × (find after name ≡ some raw) × (encode c v ≡ ok raw)
unfolding publish_in
publish_in_stores c name v folder after h = succeeded (encode c v) _ h λ raw e h.
    succeeded (publish (find folder name) raw) _ h λ written f h.
      let same : place folder name written ≡ after = cc in
      (
        written,
        subst (λ a. find a name ≡ some written) same (find-place_self folder name written),
        e ∙ ap ok (published_same (find folder name) raw written f),
      )

with_folder-Stored :
    (c : Codec) (o name : String) (v : Json) (d after : Desk) (folder : Assoc Bytes)
    (m : Result Fault (Assoc Bytes)) (u : Unit {0})
    → publish_in c name v folder ≡ m
    → with_folder d o m ≡ (ok u, after)
    → Stored c o name v after
with_folder-Stored c o name v d after folder (err f) u e h = absurd (cc)
with_folder-Stored c o name v d after folder (ok kept) u e h =
    let (raw, there, encoded) = publish_in_stores c name v folder kept e in
    let same : record d { folders = place d.folders o kept } ≡ after = ap (λ m. m.1) h in
    subst (Stored c o name v) same (kept, raw, find-place_self d.folders o kept, there, encoded)

write_in-Stored :
    (c : Codec) (o name : String) (v : Json) (d after : Desk) (there : Option (Assoc Bytes))
    (u : Unit {0})
    → write_in c o name v d there ≡ (ok u, after)
    → Stored c o name v after
unfolding write_in
write_in-Stored c o name v d after none u h = absurd (cc)
write_in-Stored c o name v d after (some folder) u h =
    with_folder-Stored c o name v d after folder (publish_in c name v folder) u refl h

pub write_to-Stored :
    (c : Codec) (o name : String) (v : Json) (d after : Desk) (u : Unit {0})
    → write_to c o name v d ≡ (ok u, after)
    → Stored c o name v after
unfolding write_to
write_to-Stored c o name v d after u h = write_in-Stored c o name v d after (find d.folders o) u h
