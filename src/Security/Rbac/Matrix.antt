-- ===== src/Security/Rbac/Matrix.antt =====
-- pdsno/security/rbac.py: who may do what after any assignment of the default roles.
use partially_distributed_sm.Common.{
  Bool, List, Option, Option-cases, String, [], ap, arith, false, if◌then◌else◌, inl, inr, insert,
  lookup, lookup-insert, nat_eq, none, refl, some, string_eq, true, ◌==◌, ◌||◌, ◌∙◌, ◌∷◌, ◌≡◌,
}
use partially_distributed_sm.Security.Rbac.Roles.{
  Action, Context, Resource, Role, action_eq, add_permission, any_matches, approve, config,
  global_admin, global_controller, has_permission, local_controller, matches, new_role,
  regional_admin, regional_controller, resource_eq, role_eq,
}
use partially_distributed_sm.Security.Rbac.Manager.{
  RbacManager, add_grants, approval_context, assign_role, can_approve_config, check_permission,
  check_role, default_grants, default_role, default_roles, get_role, new_rbac,
}

-- The calls of `assign_role`, in order.
unfoldable pub assign_all : List (String × Role) → RbacManager → RbacManager
assign_all [] m = m
assign_all ((entity_id, role) ∷ as') m = assign_all as' (assign_role entity_id role m)

-- The role that an entity was assigned last.
abbrev pub last_role : String → List (String × Role) → Option Role → Option Role
last_role id [] before = before
last_role id ((j, role) ∷ as') before = last_role id as' (if j == id then some role else before)

abbrev pub may_sign : Role → String → Bool
may_sign global_controller s = s == "HIGH" || s == "MEDIUM" || s == "LOW"
may_sign regional_controller s = s == "MEDIUM" || s == "LOW"
may_sign local_controller s = s == "LOW"
may_sign global_admin s = true
may_sign regional_admin s = s == "MEDIUM" || s == "LOW"
may_sign _ s = false

assign-roles : (as' : List (String × Role)) (m : RbacManager) → (assign_all as' m).roles ≡ m.roles
unfolding assign_all assign_role
assign-roles [] m = refl
assign-roles ((id, role) ∷ as') m = assign-roles as' (assign_role id role m)

get_role-assign :
    (as' : List (String × Role)) (m : RbacManager) (id : String)
    → get_role id (assign_all as' m) ≡ last_role id as' (get_role id m)
unfolding assign_all assign_role get_role
get_role-assign [] m id = refl
get_role-assign ((j, role) ∷ as') m id =
    get_role-assign as' (assign_role j role m) id
    ∙ ap (last_role id as') (lookup-insert j id role m.role_assignments)

-- The manager after the given assignments.
abbrev pub assigned : List (String × Role) → RbacManager
assigned as' = assign_all as' new_rbac

pub assigned_role :
    (as' : List (String × Role)) (id : String) → get_role id (assigned as') ≡ last_role id as' none
unfolding new_rbac get_role lookup
assigned_role as' id = get_role-assign as' new_rbac id

lookup-default : (role : Role) → lookup role new_rbac.roles ≡ some (default_role role)
unfolding lookup insert new_rbac default_roles
lookup-default global_controller = refl
lookup-default _ = refl

-- An entity is judged by the definition of the role that it was assigned last.
pub check-default :
    (as' : List (String × Role)) (id : String) (role : Role) (resource : Resource) (action : Action)
    (context : Option Context)
    → last_role id as' none ≡ some role
    → check_permission (assigned as') id resource action context
      ≡ has_permission (default_role role) resource action context
unfolding check_permission check_role
check-default as' id role resource action context last =
    rw
      (
        assigned_role as' id,
        check_permission,
        last,
        assign-roles as' new_rbac,
        check_role,
        lookup-default role,
      )
      refl

-- An entity without a role is permitted nothing.
pub check-nobody :
    (as' : List (String × Role)) (id : String) (resource : Resource) (action : Action)
    (context : Option Context)
    → last_role id as' none ≡ none
    → check_permission (assigned as') id resource action context ≡ false
unfolding check_permission
check-nobody as' id resource action context nobody =
    rw (assigned_role as' id, check_permission, nobody) refl

sign-default :
    (role : Role) (s : String) (region : Option String)
    → has_permission (default_role role) config approve (some (approval_context s region))
      ≡ may_sign role s
unfolding has_permission any_matches matches default_role add_grants default_grants new_role
    add_permission lookup insert
sign-default global_controller s none = ground arith
sign-default regional_controller s none = ground arith
sign-default local_controller s none = ground arith
sign-default regional_admin s none = ground arith
sign-default global_controller s (some r) = ground arith
sign-default regional_controller s (some r) = ground arith
sign-default local_controller s (some r) = ground arith
sign-default regional_admin s (some r) = ground arith
sign-default _ s none = refl
sign-default _ s (some r) = ground arith

-- The approval matrix: after any assignments, an entity may approve a config of a sensitivity
-- exactly as its last role says: a global controller any of the three, a regional controller or
-- administrator medium and low, a local controller low, a global administrator anything, and every
-- other role, or none, nothing. The region makes no difference.
pub can_approve_config_matrix :
    (as' : List (String × Role)) (id sensitivity : String) (region : Option String)
    → can_approve_config (assigned as') id sensitivity region
      ≡ elim (last_role id as' none) [ none ↦ false | some role ↦ may_sign role sensitivity ]
unfolding can_approve_config
can_approve_config_matrix as' id s region = elim (Option-cases (last_role id as' none)) [
  | inl nobody ↦ rw nobody (check-nobody as' id config approve _ nobody)
  | inr (role, last) ↦
      rw last (check-default as' id role config approve _ last ∙ sign-default role s region)
]
