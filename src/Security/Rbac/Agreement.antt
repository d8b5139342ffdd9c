-- ===== src/Security/Rbac/Agreement.antt =====
-- pdsno/security/rbac.py and pdsno/config/approval_engine.py: the two authorities of the
-- program, the access control and the engine, which reads a role off an id.
use partially_distributed_sm.Common.{
  List, Option, String, nat_eq, none, refl, some, string_eq, ◌∙◌, ◌≡◌,
}
use partially_distributed_sm.Config.Sensitivity.{SensitivityLevel, high, low, medium}
use partially_distributed_sm.Config.Approval.Request.{ApprovalRequest, sensitivity_value}
use partially_distributed_sm.Config.Approval.Engine.{
  InferredRole, can_approve, global, local, may_approve, regional, role_of,
}
use partially_distributed_sm.Security.Rbac.Roles.{
  Role, action_eq, global_controller, local_controller, regional_controller, resource_eq, role_eq,
}
use partially_distributed_sm.Security.Rbac.Manager.{can_approve_config}
use partially_distributed_sm.Security.Rbac.Matrix.{
  assigned, can_approve_config_matrix, last_role, may_sign,
}

-- The controller's role for the one that the approval engine infers.
abbrev pub controller_role_of : InferredRole → Role
controller_role_of global = global_controller
controller_role_of regional = regional_controller
controller_role_of local = local_controller

may_sign-controller :
    (s : SensitivityLevel) (k : InferredRole)
    → may_sign (controller_role_of k) (sensitivity_value s) ≡ may_approve s k
may_sign-controller low global = refl
may_sign-controller low _ = refl
may_sign-controller medium global = refl
may_sign-controller medium _ = refl
may_sign-controller high global = refl
may_sign-controller high _ = refl

-- Where an approver was last assigned the role that its id spells, the approval engine and the
-- access control agree on each request.
pub can_approve-agrees :
    (as' : List (String × Role)) (r : ApprovalRequest) (id : String) (region : Option String)
    → last_role id as' none ≡ some (controller_role_of (role_of id))
    → can_approve_config (assigned as') id (sensitivity_value r.sensitivity) region
      ≡ can_approve r id
unfolding can_approve
can_approve-agrees as' r id region last =
    can_approve_config_matrix as' id _ region
    ∙ rw last (may_sign-controller r.sensitivity (role_of id))
