-- ===== src/Controller/Owner.antt =====
-- infrastructure/hyperloom/sglang-owner-adapter/controller.py, the `try` block of `_step`: from a retained
-- job to its owner's observation.
use arch_linux_threadripper.Prelude.{
  ℕ, ◌+◌, ◌*◌, String, Bool, true, false, not, ◌&&◌, Option, none, some, List, [], ◌∷◌, any, leb,
  if◌then◌else◌, Result, ok, err, str_eq,
}
use arch_linux_threadripper.Prelude.Int.{pos}
use arch_linux_threadripper.Prelude.Assoc.{find, place}
use arch_linux_threadripper.Json.{
  Json, null, bool, int, str, obj, Fields, end, field, get, put, eq_str,
}
use arch_linux_threadripper.Exchange.Terms.{
  Fault, refused, missing_key, type_error, attribute_error, Kind, component, kind_name,
  post_release_seconds, is_text, says_true,
}
use arch_linux_threadripper.Exchange.Requests.{Source, Request}
use arch_linux_threadripper.Exchange.Host.{same_kind}
use arch_linux_threadripper.Exchange.Retain.{Private}
use arch_linux_threadripper.Controller.State.{
  screened, job, executed, State, Environment, Execution, finished, asks, M, ◌>>=◌, ◌>>◌, return,
  stop_with, lift_result, demand, modify, write,
}
use arch_linux_threadripper.Controller.Calls.{read_clocks, remaining, ask_cancelled}

-- d[k], and value[k]
unfoldable pub item : Fields → String → Result Fault Json
item d k = elim (get d k) [ none ↦ err missing_key | some v ↦ ok v ]

unfoldable pub item_of : Json → String → Result Fault Json
item_of (obj d) k = item d k
item_of _ k = err type_error

-- `source_closure`, at the current reading
unfoldable pub check_closure : Environment → M (Unit {0})
check_closure env s = lift_result (env.closure s.ticks) s

abbrev pub is_allowed : Environment → Kind → Bool
is_allowed env kind = any (same_kind kind) env.allowed

abbrev pub request_digest : Environment → Request → String
request_digest env r = env.codec.digest (env.codec.canonical (obj r.document))

-- components.get(source_set, {}).get("eligible_for_serving") is True
unfoldable pub read_eligible : Option Json → Result Fault Bool
read_eligible none = ok false
read_eligible (some (obj d)) = ok (says_true (get d "eligible_for_serving"))
read_eligible (some _) = err attribute_error

abbrev pub is_component : Kind → Bool
is_component component = true
is_component _ = false

-- A changed source needs its component's screen first, unless the job is that screen.
abbrev pub needs_screen : Environment → Request → Bool
needs_screen env r = not (is_component r.kind) && not (str_eq r.source_set env.selected_source_set)

unfoldable pub check_screen : Environment → Request → M (Unit {0})
check_screen env r s =
    if needs_screen env r
    then (do
      eligible ← lift_result (read_eligible (find s.components r.source_set))
      demand eligible "changed source needs a successful component screen in this campaign")
        s
    else (ok tt, s)

-- outcome.update(status="FAILED", park_campaign=False, reason=…, payload=…)
abbrev pub note_rejection : Json → Fields → State → State
note_rejection reason preparation s = record s {
  outcome =
      put
        (put (put (put s.outcome "status" (str "FAILED")) "park_campaign" (bool false)) "reason"
          reason)
        "payload" (obj (field "component_compile" (obj preparation) end));
}

-- A rejected candidate ends the block.
unfoldable pub stop_if_rejected : Json → Fields → M (Unit {0})
stop_if_rejected status preparation =
    if eq_str status "CPU_CANDIDATE_REJECTED"
    then (do
      reason ← lift_result (item preparation "reason")
      modify (note_rejection reason preparation)
      stop_with screened)
    else return tt

unfoldable pub prepare : Environment → String → Private → M Fields
prepare env id p = do
  inputs ← lift_result (env.inputs p.request.kind)
  owner ← lift_result (item inputs "owner")
  support ← lift_result (item inputs "support")
  preparation ← lift_result (env.prepare p.request.kind p owner support)
  write (job id) "PREPARATION-RESULT.json" (obj preparation)
  status ← lift_result (item preparation "status")
  stop_if_rejected status preparation
  -- The message goes on with the preparation's reason; so does the proposal's below.
  demand (eq_str status "PREPARED_NOT_REGISTERED_OR_RUN") "owner preparation refused"
  return preparation

unfoldable pub propose : Environment → String → Private → Fields → M Fields
propose env id p preparation = do
  prepared ← lift_result (item preparation "record")
  proposal ← lift_result (env.propose p.request.kind prepared)
  write (job id) "PROPOSAL-RESULT.json" (obj proposal)
  status ← lift_result (item proposal "status")
  demand (eq_str status "PROPOSED_NOT_REGISTERED_OR_RUN") "owner proposal refused"
  return proposal

-- The one source that a candidate may change.
abbrev pub evaluable : String
evaluable = "extend_attention_fwd_candidate.py"

unfoldable pub read_candidate : List Source → Result Fault Source
read_candidate (s ∷ []) =
    if str_eq s.name evaluable then ok s else err (refused "undeclared optimization surface")
read_candidate _ = err (refused "undeclared optimization surface")

-- `_authorization`: the document that lets one owner run once.
unfoldable pub authorization :
    Environment → Request → Source → Json → Json → Json → Json → Json → ℕ → Json
authorization env r candidate campaign proposal execute_once nonce index now = obj (
    field "schema" (int (pos 1)) (
      field "kind" (str (kind_name r.kind)) (
        field "campaign" campaign (
          field "proposal_sha256" proposal (
            field "execute_once_sha256" execute_once (
              field "nonce" nonce (
                field "global_gpu_attempt_index" index (
                  field "request_sha256" (str (request_digest env r)) (
                    field "source_set_sha256" (str r.source_set) (
                      field "candidate_sha256" (str candidate.sha256) (
                        field "campaign_sha256" (str env.bound.campaign) (
                          field "controller_sha256" (str env.bound.controller) (
                            field "owner" (str env.owner) (
                              field "owner_answer" (str env.owner_answer) (
                                field "approval" env.approval (
                                  field "no_retry" (bool true) (
                                    field "one_invocation" (bool true) (
                                      field "deployment" (bool false) (
                                        field "promotion" (bool false) (
                                          field "publication" (bool false) (
                                            field "adoption_authorized" (bool false) (
                                              field "qualification" (bool false) (
                                                field "utc" (str (env.utc now))
                                                  end)))))))))))))))))))))))

unfoldable pub authorize : Environment → String → Request → Fields → M Json
authorize env id r proposal = do
  demand (is_allowed env r.kind) "campaign does not cover this owner kind"
  candidate ← lift_result (read_candidate r.sources)
  campaign ← lift_result (item proposal "campaign_root")
  proposed ← lift_result (item proposal "proposal")
  proposed_sha ← lift_result (item_of proposed "sha256")
  once ← lift_result (item proposal "execute_once")
  once_sha ← lift_result (item_of once "sha256")
  nonce ← lift_result (item proposal "nonce")
  index ← lift_result (item proposal "index")
  now ← read_clocks env
  let value = authorization env r candidate campaign proposed_sha once_sha nonce index now.1
  write (job id) "DERIVED-OPERATION-AUTHORITY.json" value
  return value

-- Everything before the owner runs: its proposal and its authorization.
unfoldable pub clear : Environment → String → Private → M (Fields × Json)
clear env id p = do
  check_closure env
  check_screen env p.request
  preparation ← prepare env id p
  proposal ← propose env id p preparation
  authority ← authorize env id p.request proposal
  check_closure env
  return (proposal, authority)

-- The operation runs, and asks the exchange through the controller.
unfoldable pub run_execution : Environment → Request → Execution → M Fields
run_execution env r (finished answer) s = lift_result answer s
run_execution env r (asks next) s =
    let (answer, s') = ask_cancelled env r s in run_execution env r (next answer) s'

abbrev pub note_start : State → State
note_start s = record s {
  outcome =
      put (put s.outcome "owner_started" null) "release_disposition"
        (str "UNVERIFIED_PARK_CAMPAIGN");
}

abbrev pub note_execution : String → State → State
note_execution id s = record s { log = executed id ∷ s.log }

-- d.update(e)
unfoldable pub update_fields : Fields → Fields → Fields
update_fields d end = d
update_fields d (field k v e) = update_fields (put d k v) e

abbrev pub note_observation : Fields → State → State
note_observation observed s = record s { outcome = update_fields s.outcome observed }

-- The observation belongs to the request.
abbrev pub is_own_outcome : Environment → Request → Fields → Bool
is_own_outcome env r d =
    is_text r.id (get d "id")
    && is_text r.campaign (get d "campaign_sha256")
    && is_text r.config (get d "config_sha256")
    && is_text r.source_set (get d "source_set_sha256")
    && is_text (request_digest env r) (get d "request_sha256")
    && is_text env.bound.controller (get d "controller_sha256")

-- A refused operation is a failure.
unfoldable pub note_refusal : State → State
note_refusal s =
    if is_text "REFUSED" (get s.outcome "status")
    then record s {
      outcome = put (put s.outcome "status" (str "FAILED")) "park_campaign" (bool true);
    }
    else s

abbrev pub note_component : String → Json → State → State
note_component source_set report s = record s { components = place s.components source_set report }

-- A successful screen is kept for the campaign.
unfoldable pub keep_component : Request → M (Unit {0})
keep_component r s =
    if is_component r.kind && is_text "SUCCEEDED" (get s.outcome "status")
    then (do
      payload ← lift_result (item s.outcome "payload")
      report ← lift_result (item_of payload "component_report")
      modify (note_component r.source_set report))
        s
    else (ok tt, s)

unfoldable pub mark_start : M (Unit {0})
mark_start = modify note_start

unfoldable pub mark_execution : String → M (Unit {0})
mark_execution id = modify (note_execution id)

unfoldable pub mark_observation : Fields → M (Unit {0})
mark_observation observed = modify (note_observation observed)

unfoldable pub mark_refusal : M (Unit {0})
mark_refusal = modify note_refusal

unfoldable pub check_outcome : Environment → Request → M (Unit {0})
check_outcome env r s =
    demand (is_own_outcome env r s.outcome) "operation returned another request" s

-- `execute` and what follows it.
unfoldable pub launch : Environment → String → Request → Fields → Json → M (Unit {0})
launch env id r proposal authority = do
  mark_start
  prepared ← lift_result (item proposal "record")
  mark_execution id
  observed ← run_execution env r (env.execute r.kind prepared authority)
  mark_observation observed
  check_outcome env r
  mark_refusal
  keep_component r

unfoldable pub run_owner : Environment → String → Private → M (Unit {0})
run_owner env id p = do cleared ← clear env id p; launch env id p.request cleared.0 cleared.1

abbrev pub note_cancelled : State → State
note_cancelled s = record s {
  outcome =
      put
        (put (put s.outcome "status" (str "CANCELLED")) "reason"
          (str "cancelled before packet preparation"))
        "park_campaign" (bool false);
}

abbrev pub note_unsupported : State → State
note_unsupported s = record s {
  outcome =
      put (put s.outcome "status" (str "UNSUPPORTED")) "reason"
        (str "owner kind outside the campaign grant");
}

unfoldable pub choose : Environment → String → Private → Bool → M (Unit {0})
choose env id p true = modify note_cancelled
choose env id p false =
    if is_allowed env p.request.kind then run_owner env id p else modify note_unsupported

-- The `try` block.
unfoldable pub attempt : Environment → String → Private → M (Unit {0})
attempt env id p = do
  let need = (p.request.caller_seconds + post_release_seconds p.request.kind) * 1000
  left ← remaining env
  now ← read_clocks env
  demand (leb need left && leb (now.1 + need) p.request.expires)
      "whole owner and closeout no longer fit the campaign"
  cancelled ← ask_cancelled env p.request
  choose env id p cancelled
