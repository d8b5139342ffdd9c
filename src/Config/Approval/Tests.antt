-- ===== src/Config/Approval/Tests.antt =====
-- pdsno/config/approval_engine.py: the approval workflow at concrete inputs.
use partially_distributed_sm.Common.{
  List, Option, String, [], false, if◌then◌else◌, insert, lookup, map, nat_eq, refl, some,
  string_eq, true, values, ℕ, ◌&&◌, ◌++◌, ◌+◌, ◌==◌, ◌∷◌, ◌≡◌,
}
use partially_distributed_sm.Fixtures.{platform, platform-ReadsBack, platform-writes_text}
use partially_distributed_sm.Config.Sensitivity.{medium}
use partially_distributed_sm.Config.Approval.Request.{
  ApprovalRequest, approved, expired, from_dict, from_dict-to_dict_request, new_request,
  pending_approval, to_dict,
}
use partially_distributed_sm.Config.Approval.Engine.{
  ConfigData, Engine, approve_found, approve_request, cache, can_approve, config_of, create_request,
  get_request, is_expired, is_pending, load_request_from_nib, new_engine, persist_request,
  read_config, reject_request, role_of, set_execution_token, set_token_found, submit_found,
  submit_request, write_request,
}
use partially_distributed_sm.Config.Approval.Sharing.{rejected_then_approved, submit-get_request}
use partially_distributed_sm.Config.Approval.Decisions.{approve_request_outcome, may_pass}
use partially_distributed_sm.Config.Approval.Soundness.{
  Call, IsTrusted, approve, call, create, run, run-IsTrusted, set_token, submit,
}
use partially_distributed_sm.Nib.Store.{NibStore, empty_store}
use partially_distributed_sm.Nib.Configs.{get_config}

abbrev clock : ℕ → ℕ
clock n = 10 + n

abbrev request : ApprovalRequest
request = new_request "req" "sw" ("vlan 7" ∷ []) medium "lc" 1

abbrev pending_request : ApprovalRequest
pending_request = record request { state = pending_approval; submitted_at = some 10 }

abbrev empty_nib : NibStore ConfigData
empty_nib = empty_store

-- The local controller's engine, with a draft.
abbrev local_engine : Engine
local_engine = cache "req" request (new_engine "lc" "local" 30 (some empty_nib))

abbrev shared_nib : NibStore ConfigData
shared_nib = record empty_nib { configs = config_of platform pending_request ∷ [] }

abbrev regional_engine : Engine
regional_engine = new_engine "regional-1" "regional" 30 (some shared_nib)

abbrev global_engine : Engine
global_engine = new_engine "global-1" "global" 30 (some shared_nib)

from_dict-to_dict_request_example :
    from_dict platform (to_dict platform pending_request) ≡ some pending_request
from_dict-to_dict_request_example =
    from_dict-to_dict_request platform platform-ReadsBack platform-writes_text pending_request

submit-get_request_example :
    let (lc', done) = submit_request platform "req" clock local_engine in
    (done ≡ true)
    × ((get_request platform "req" (record regional_engine { nib_store = lc'.nib_store })).1
        ≡ some (record request { state = pending_approval; submitted_at = some 10 }))
unfolding new_engine new_request lookup insert get_config
submit-get_request_example =
    submit-get_request platform platform-ReadsBack platform-writes_text "req" request clock
      local_engine regional_engine {nib = empty_nib} refl refl refl refl refl refl refl refl refl
      refl

reads_pending :
    read_config platform (some (config_of platform pending_request)) ≡ some pending_request
unfolding config_of
reads_pending = from_dict-to_dict_request_example

rejected_then_approved_example :
    let (rc', was_rejected) =
      reject_request platform "req" "regional-1" "no" clock regional_engine in
    (was_rejected ≡ true)
    × ((approve_request platform "req" "global-1" clock
          (record global_engine { nib_store = rc'.nib_store })).1
        ≡ true)
unfolding new_engine new_request lookup insert get_config config_of can_approve role_of is_expired
rejected_then_approved_example =
    rejected_then_approved platform "req" "regional-1" "no" "global-1" clock clock pending_request
      regional_engine global_engine {nib = shared_nib} {c = config_of platform pending_request} refl
      refl reads_pending refl refl refl refl refl refl refl

abbrev cached_engine : Engine
cached_engine = cache "req" pending_request regional_engine

approve_request_outcome_example :
    let (e', done) = approve_request platform "req" "regional-1" clock cached_engine in
    (done ≡ may_pass pending_request "regional-1" cached_engine.approval_timeout 10)
    × (done ≡ true
        → lookup "req" e'.requests
          ≡ some (record pending_request {
            state = approved;
            approved_at = some 11;
            approvers = pending_request.approvers ++ "regional-1" ∷ [];
          }))
    × (done ≡ false
        → lookup "req" e'.requests
          ≡ some (record pending_request {
            state =
                if is_pending pending_request.state && can_approve pending_request "regional-1"
                then expired
                else pending_request.state;
          }))
    × ((j : String) → ("req" == j) ≡ false → lookup j e'.requests ≡ lookup j cached_engine.requests)
unfolding new_engine new_request lookup insert
approve_request_outcome_example =
    approve_request_outcome platform "req" "regional-1" clock cached_engine pending_request refl

abbrev fresh_engine : Engine
fresh_engine = new_engine "regional-1" "regional" 30 (some empty_nib)

fresh-IsTrusted : IsTrusted platform fresh_engine
unfolding new_engine lookup load_request_from_nib get_config
fresh-IsTrusted = record { cached = λ id r h. cc; loadable = λ id r h. cc }

abbrev calls : List Call
calls =
    create "req" "sw" ("vlan 7" ∷ []) medium 1
    ∷ submit "req" clock
    ∷ approve "req" "local-9" clock
    ∷ approve "req" "regional-1" clock
    ∷ set_token "req" "tok" clock
    ∷ []

-- The medium request was approved by the regional controller alone.
approved_state :
    map {B = List String × Option String}
      (λ r. (r.approvers, r.execution_token))
      (values (run platform calls fresh_engine).requests)
    ≡ ("regional-1" ∷ [], some "tok") ∷ []
unfolding run call create_request new_request new_engine submit_request submit_found approve_request
    approve_found set_execution_token set_token_found get_request load_request_from_nib lookup
    insert can_approve role_of is_expired persist_request write_request
approved_state = refl

run-IsTrusted_example : IsTrusted platform (run platform calls fresh_engine)
run-IsTrusted_example =
    run-IsTrusted platform platform-ReadsBack platform-writes_text calls fresh_engine
      fresh-IsTrusted
