-- ===== src/Security/Rbac/Manager.antt =====
-- pdsno/security/rbac.py: `RBACManager`. Log lines are left out.
use partially_distributed_sm.Common.{
  Bool, Dict, List, Option, String, [], false, if◌then◌else◌, insert, lookup, nat_eq, non_empty,
  none, some, string_eq, ◌++◌, ◌∷◌,
}
use partially_distributed_sm.Security.Rbac.Roles.{
  Action, Context, Permission, Resource, Role, RoleDefinition, action_eq, add_permission,
  all_actions, all_resources, api_client, api_client_readonly, approve, audit_log, backup, config,
  controller, create, device, discovery_report, execute, execution_token, global_admin,
  global_controller, has_permission, key_material, local_controller, local_operator, new_role, read,
  regional_admin, regional_controller, resource_eq, role_eq, rollback, update, validate, viewer,
}

pub record RbacManager : Type 0 where
  pub roles : Dict Role RoleDefinition
  pub role_assignments : Dict String Role

-- A call of `add_permission` in `_initialize_default_roles`.
abbrev pub Grant : Type 0
Grant = Resource × Action × Option Context

unfoldable pub add_grants : List Grant → RoleDefinition → RoleDefinition
add_grants [] d = d
add_grants ((resource, action, conditions) ∷ gs) d =
    add_grants gs (add_permission resource action conditions d)

abbrev pub on_sensitivity : String → Option Context
on_sensitivity s = some (("sensitivity", s) ∷ [])

abbrev pub grants_of_actions : Resource → List Action → List Grant
grants_of_actions resource [] = []
grants_of_actions resource (a ∷ as') = (resource, a, none) ∷ grants_of_actions resource as'

abbrev pub grants_of_resources : List Resource → List Grant
grants_of_resources [] = []
grants_of_resources (r ∷ rs) = grants_of_actions r all_actions ++ grants_of_resources rs

-- The permissions of `_initialize_default_roles`, in the order in which they are added.
unfoldable pub default_grants : Role → List Grant
default_grants global_controller =
    (controller, validate, none)
    ∷ (config, approve, on_sensitivity "HIGH")
    ∷ (config, approve, on_sensitivity "MEDIUM")
    ∷ (config, approve, on_sensitivity "LOW")
    ∷ (execution_token, create, none)
    ∷ (audit_log, read, none)
    ∷ (device, read, none)
    ∷ (key_material, create, none)
    ∷ (key_material, read, none)
    ∷ []
default_grants regional_controller =
    (controller, validate, none)
    ∷ (config, approve, on_sensitivity "MEDIUM")
    ∷ (config, approve, on_sensitivity "LOW")
    ∷ (execution_token, create, none)
    ∷ (audit_log, read, none)
    ∷ (device, read, none)
    ∷ (discovery_report, read, none)
    ∷ []
default_grants local_controller =
    (config, create, none)
    ∷ (config, approve, on_sensitivity "LOW")
    ∷ (config, execute, none)
    ∷ (config, rollback, none)
    ∷ (backup, create, none)
    ∷ (backup, read, none)
    ∷ (discovery_report, create, none)
    ∷ (device, read, none)
    ∷ (device, update, none)
    ∷ []
default_grants global_admin = grants_of_resources all_resources
default_grants regional_admin =
    (config, create, none)
    ∷ (config, read, none)
    ∷ (config, approve, on_sensitivity "MEDIUM")
    ∷ (config, approve, on_sensitivity "LOW")
    ∷ (audit_log, read, none)
    ∷ (device, read, none)
    ∷ (device, update, none)
    ∷ (controller, read, none)
    ∷ (backup, create, none)
    ∷ (backup, read, none)
    ∷ []
default_grants local_operator =
    (config, create, on_sensitivity "LOW")
    ∷ (config, read, none)
    ∷ (device, read, none)
    ∷ (audit_log, read, none)
    ∷ []
default_grants viewer =
    (config, read, none)
    ∷ (device, read, none)
    ∷ (audit_log, read, none)
    ∷ (controller, read, none)
    ∷ []
default_grants api_client =
    (config, create, none)
    ∷ (config, read, none)
    ∷ (device, read, none)
    ∷ (audit_log, read, none)
    ∷ []
default_grants api_client_readonly =
    (config, read, none) ∷ (device, read, none) ∷ (audit_log, read, none) ∷ []

unfoldable pub default_role : Role → RoleDefinition
default_role role = add_grants (default_grants role) (new_role role)

unfoldable pub default_roles : List Role → Dict Role RoleDefinition → Dict Role RoleDefinition
default_roles [] roles = roles
default_roles (r ∷ rs) roles = default_roles rs (insert r (default_role r) roles)

abbrev pub all_roles : List Role
all_roles =
    global_controller ∷ regional_controller ∷ local_controller ∷ global_admin ∷ regional_admin
    ∷ local_operator ∷ viewer ∷ api_client ∷ api_client_readonly ∷ []

-- `__init__`
unfoldable pub new_rbac : RbacManager
new_rbac = record { roles = default_roles all_roles []; role_assignments = [] }

unfoldable pub assign_role : String → Role → RbacManager → RbacManager
assign_role entity_id role m = record m {
  role_assignments = insert entity_id role m.role_assignments;
}

unfoldable pub get_role : String → RbacManager → Option Role
get_role entity_id m = lookup entity_id m.role_assignments

unfoldable pub check_role : RbacManager → Role → Resource → Action → Option Context → Bool
check_role m role resource action context = elim (lookup role m.roles) [
  | none ↦ false
  | some d ↦ has_permission d resource action context
]

unfoldable pub check_permission : RbacManager → String → Resource → Action → Option Context → Bool
check_permission m entity_id resource action context = elim (get_role entity_id m) [
  | none ↦ false
  | some role ↦ check_role m role resource action context
]

abbrev pub permissions_of : Option RoleDefinition → List Permission
permissions_of none = []
permissions_of (some d) = d.permissions

unfoldable pub get_permissions : RbacManager → String → List Permission
get_permissions m entity_id = elim (get_role entity_id m) [
  | none ↦ []
  | some role ↦ permissions_of (lookup role m.roles)
]

-- The context of `can_approve_config`: an absent or empty region is left out.
abbrev pub approval_context : String → Option String → Context
approval_context sensitivity none = ("sensitivity", sensitivity) ∷ []
approval_context sensitivity (some region) =
    if non_empty region
    then insert "region" region (("sensitivity", sensitivity) ∷ [])
    else ("sensitivity", sensitivity) ∷ []

unfoldable pub can_approve_config : RbacManager → String → String → Option String → Bool
can_approve_config m entity_id sensitivity region =
    check_permission m entity_id config approve (some (approval_context sensitivity region))

unfoldable pub can_execute_config : RbacManager → String → String → Bool
can_execute_config m entity_id device_id =
    check_permission m entity_id config execute (some (("device_id", device_id) ∷ []))

unfoldable pub can_validate_controller : RbacManager → String → String → Bool
can_validate_controller m validator_id controller_type =
    check_permission m validator_id controller validate
      (some (("controller_type", controller_type) ∷ []))
