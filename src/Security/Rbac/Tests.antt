-- ===== src/Security/Rbac/Tests.antt =====
-- pdsno/security/rbac.py: the access control at concrete inputs.
use partially_distributed_sm.Common.{
  List, String, [], false, insert, lookup, nat_eq, none, refl, some, string_eq, true, ◌∷◌, ◌≡◌,
}
use partially_distributed_sm.Config.Approval.Request.{
  ApprovalRequest, new_request, sensitivity_value,
}
use partially_distributed_sm.Config.Approval.Engine.{can_approve, role_of}
use partially_distributed_sm.Security.Rbac.Roles.{
  Role, action_eq, add_permission, any_matches, api_client_readonly, approve, config, delete,
  device, global_admin, has_permission, local_controller, matches, new_role, read,
  regional_controller, resource_eq, role_eq, viewer,
}
use partially_distributed_sm.Security.Rbac.Manager.{
  add_grants, assign_role, can_approve_config, check_permission, check_role, default_grants,
  default_role, default_roles, get_role, new_rbac,
}
use partially_distributed_sm.Security.Rbac.Matrix.{
  assign_all, assigned, can_approve_config_matrix, last_role, may_sign,
}
use partially_distributed_sm.Security.Rbac.Granted.{
  check_permission-admin, check_permission_no_context,
}
use partially_distributed_sm.Security.Rbac.Agreement.{can_approve-agrees, controller_role_of}
use partially_distributed_sm.Config.Sensitivity.{SensitivityLevel}

abbrev assignments : List (String × Role)
assignments =
    ("regional_cntl_1", viewer)
    ∷ ("regional_cntl_1", regional_controller)
    ∷ ("monitor", api_client_readonly)
    ∷ ("root", global_admin)
    ∷ []

can_approve_config_matrix_example :
    can_approve_config (assigned assignments) "regional_cntl_1" "HIGH" (some "zone-A")
    ≡ may_sign regional_controller "HIGH"
can_approve_config_matrix_example =
    can_approve_config_matrix assignments "regional_cntl_1" "HIGH" (some "zone-A")

abbrev request : ApprovalRequest
request = new_request "req" "sw" [] SensitivityLevel.medium "lc" 0

regional_role :
    last_role "regional_cntl_1" assignments none
    ≡ some (controller_role_of (role_of "regional_cntl_1"))
unfolding role_of
regional_role = refl

can_approve-agrees_example :
    can_approve_config
      (assigned assignments)
      "regional_cntl_1"
      (sensitivity_value request.sensitivity)
      none
    ≡ can_approve request "regional_cntl_1"
can_approve-agrees_example =
    can_approve-agrees assignments request "regional_cntl_1" none regional_role

-- A local controller may approve nothing but low configs, unless the caller gives no context.
local_high :
    check_permission
      (assigned (("lc", local_controller) ∷ []))
      "lc"
      config
      approve
      (some (("sensitivity", "HIGH") ∷ []))
    ≡ false
unfolding check_permission check_role get_role lookup assign_all assign_role new_rbac default_roles
    insert has_permission any_matches matches default_role add_grants default_grants new_role
    add_permission
local_high = refl

root_deletes :
    check_permission (assigned assignments) "root" config delete (some (("region", "A") ∷ []))
    ≡ true
root_deletes = check_permission-admin assignments "root" config delete _ refl

check_permission_no_context_example :
    check_permission (assigned assignments) "root" config delete none ≡ true
check_permission_no_context_example =
    check_permission_no_context (assigned assignments) "root" config delete
      (some (("region", "A") ∷ [])) root_deletes

monitor_reads : check_permission (assigned assignments) "monitor" device read none ≡ true
unfolding check_permission check_role get_role lookup assign_all assign_role new_rbac default_roles
    insert has_permission any_matches matches default_role add_grants default_grants new_role
    add_permission
monitor_reads = refl
