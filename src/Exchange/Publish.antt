-- ===== src/Exchange/Publish.antt =====
-- lib/workstation/hyperloom_exchange.py, `publish_result`: the outcome of a claimed request.
use arch_linux_threadripper.Prelude.{
  String, false, ◌&&◌, none, some, Result, ok, err, ◌>>=◌, ◌>>◌, require, str_eq, if◌then◌else◌,
}
use arch_linux_threadripper.Prelude.Int.{pos}
use arch_linux_threadripper.Json.{Json, bool, int, str, obj, Fields, end, field, get}
use arch_linux_threadripper.Exchange.Terms.{
  Fault, refused, missing_key, type_error, attribute_error, Codec, max_json, identity, is_text,
  says_true,
}
use arch_linux_threadripper.Exchange.Requests.{Request}
use arch_linux_threadripper.Exchange.Store.{Reply, read_file, publish, is_there}
use arch_linux_threadripper.Exchange.Jobs.{has_hash, is_status, is_dictionary}
use arch_linux_threadripper.Exchange.Submit.{encode}

-- `claim_record.get`: what is no dictionary raises AttributeError.
unfoldable pub claim_entries : Json → Result Fault Fields
claim_entries (obj d) = ok d
claim_entries _ = err attribute_error

unfoldable pub claimed_controller : Fields → Result Fault Json
claimed_controller claim = elim (get claim "controller_sha256") [
  | none ↦ err missing_key
  | some v ↦ ok v
]

-- What a success needs
unfoldable pub check_seal : Json → Json → Json → Result Fault (Unit {0})
check_seal status seal release =
    if is_text "SUCCEEDED" (some status)
    then (do
      _ ← identity (some seal) "invalid owner result seal"
      require (says_true (some release)) (refused "successful job requires independent release"))
    else ok tt

-- The keys are in the order in which `canonical` writes them.
abbrev pub result_fields : Codec → Request → Json → Json → Json → Json → Json → Fields
result_fields c r status payload seal release controller =
    field "adoption_authorized" (bool false) (
      field "automatic_retry" (bool false) (
        field "campaign_sha256" (str r.campaign) (
          field "config_sha256" (str r.config) (
            field "controller_sha256" controller (
              field "id" (str r.id) (
                field "independent_release" release (
                  field "owner_seal_sha256" seal (
                    field "payload" payload (
                      field "request_sha256" (str (c.digest (c.canonical (obj r.document)))) (
                        field "schema" (int (pos 1)) (
                          field "source_set_sha256" (str r.source_set)
                            (field "status" status end))))))))))))

unfoldable pub outcome :
    Codec → String → Reply → Request → Json → Json → Json → Json → Result Fault Fields
outcome c name reply r status payload seal release = do
  require (has_hash (some status)) type_error
  require (is_status (some status) && is_dictionary (some payload))
      (refused "job result status/payload")
  require (str_eq name r.id && is_there reply.claim) (refused "controller claim required")
  raw ← read_file max_json reply.claim
  value ← c.decode raw
  claim ← claim_entries value
  require
      (is_text r.id (get claim "id")
        && is_text (c.digest (c.canonical (obj r.document))) (get claim "request_sha256"))
      (refused "claim/request binding")
  check_seal status seal release
  controller ← claimed_controller claim
  ok (result_fields c r status payload seal release controller)

unfoldable pub publish_result :
    Codec → String → Reply → Request → Json → Json → Json → Json → Result Fault (Fields × Reply)
publish_result c name reply r status payload seal release = do
  d ← outcome c name reply r status payload seal release
  raw ← encode c (obj d)
  written ← publish reply.result raw
  ok (d, record reply { result = some written })
