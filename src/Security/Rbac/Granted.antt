-- ===== src/Security/Rbac/Granted.antt =====
-- pdsno/security/rbac.py: the permission that grants an access, and the context it is asked in.
use partially_distributed_sm.Common.{
  All, Bool, Bool-cases, List, Option, Option-cases, String, [], arith, false, inl, inr, lookup,
  nat_eq, none, refl, some, string_eq, sym, true, ◌||◌, ◌∙◌, ◌∷◌, ◌≡◌,
}
use partially_distributed_sm.Security.Rbac.Roles.{
  Action, Context, Permission, Resource, Role, action_eq, add_permission, any_matches,
  api_client_readonly, approval, audit_log, backup, conditions_met, config, controller, create,
  device, discovery_report, execution_token, global_admin, has_permission, key_material, matches,
  new_role, read, resource_eq, role_eq, user_account, viewer,
}
use partially_distributed_sm.Security.Rbac.Manager.{
  RbacManager, add_grants, check_permission, check_role, default_grants, default_role, get_role,
}
use partially_distributed_sm.Security.Rbac.Matrix.{assigned, check-default, last_role}

conditions_met-none :
    (c context : Option Context) → conditions_met c context ≡ true → conditions_met c none ≡ true
conditions_met-none none context h = refl
conditions_met-none (some c) context h = refl

matches-none :
    (p : Permission) (resource : Resource) (action : Action) (context : Option Context)
    → matches p resource action context ≡ true
    → matches p resource action none ≡ true
unfolding matches
matches-none p resource action context h = ground (arith, conditions_met-none p.conditions context)

any_matches-none :
    (ps : List Permission) (resource : Resource) (action : Action) (context : Option Context)
    → any_matches ps resource action context ≡ true
    → any_matches ps resource action none ≡ true
unfolding any_matches
any_matches-none [] resource action context h = h
any_matches-none (p ∷ ps) resource action context h =
    ground
      (arith, matches-none p resource action context, any_matches-none ps resource action context)

check_role-none :
    (m : RbacManager) (role : Role) (resource : Resource) (action : Action)
    (context : Option Context)
    → check_role m role resource action context ≡ true
    → check_role m role resource action none ≡ true
unfolding check_role has_permission
check_role-none m role resource action context = elim (Option-cases (lookup role m.roles)) [
  | inl missing ↦ rw (missing, check_role) (λ t. t)
  | inr (d, found) ↦ rw (found, check_role) (any_matches-none d.permissions resource action context)
]

-- The conditions of a permission restrict nothing when the caller gives no context: whatever is
-- permitted in some context is permitted without one, whatever the roles and the assignments.
pub check_permission_no_context :
    (m : RbacManager) (id : String) (resource : Resource) (action : Action)
    (context : Option Context)
    → check_permission m id resource action context ≡ true
    → check_permission m id resource action none ≡ true
unfolding check_permission
check_permission_no_context m id resource action context = elim (Option-cases (get_role id m)) [
  | inl nobody ↦ rw (nobody, check_permission) (λ t. t)
  | inr (role, found) ↦
      rw (found, check_permission) (check_role-none m role resource action context)
]

matches-action :
    (p : Permission) (resource : Resource) (action : Action) (context : Option Context)
    → matches p resource action context ≡ true
    → p.action ≡ action
unfolding matches
matches-action p resource action context h = ground (arith, action_eq.beq_iff p.action action)

or_right : (a b : Bool) → a ≡ false → (a || b) ≡ true → b ≡ true
or_right a b h t = ground arith

-- Where every permission of a list is for one action, nothing else is permitted.
any_matches-action :
    (a : Action) (ps : List Permission) (resource : Resource) (action : Action)
    (context : Option Context)
    → All (λ p. p.action ≡ a) ps
    → any_matches ps resource action context ≡ true
    → action ≡ a
unfolding any_matches
any_matches-action a [] resource action context h t = cc
any_matches-action a (p ∷ ps) resource action context (same, rest) t =
    elim (Bool-cases (matches p resource action context)) [
      | inl granted ↦ sym (matches-action p resource action context granted) ∙ same
      | inr other ↦ any_matches-action a ps resource action context rest (or_right _ _ other t)
    ]

abbrev pub is_reader : Role → Bool
is_reader viewer = true
is_reader api_client_readonly = true
is_reader _ = false

reader-permissions :
    (role : Role)
    → is_reader role ≡ true
    → All (λ p. p.action ≡ read) (default_role role).permissions
unfolding default_role add_grants default_grants new_role add_permission
reader-permissions viewer h = (refl, (refl, (refl, (refl, tt))))
reader-permissions api_client_readonly h = (refl, (refl, (refl, tt)))
reader-permissions _ h = cc

-- After any assignments, an entity whose last role is that of a viewer or of a read-only client is
-- permitted no action but to read, on any resource and in any context.
pub check_permission-reader :
    (as' : List (String × Role)) (id : String) (role : Role) (resource : Resource) (action : Action)
    (context : Option Context)
    → last_role id as' none ≡ some role
    → is_reader role ≡ true
    → check_permission (assigned as') id resource action context ≡ true
    → action ≡ read
unfolding has_permission
check_permission-reader as' id role resource action context last reader h =
    any_matches-action read (default_role role).permissions resource action context
      (reader-permissions role reader)
      (sym (check-default as' id role resource action context last) ∙ h)

admin-permissions :
    (resource : Resource) (action : Action) (context : Option Context)
    → has_permission (default_role global_admin) resource action context ≡ true
unfolding has_permission any_matches matches default_role add_grants default_grants new_role
    add_permission
admin-permissions config create context = refl
admin-permissions config _ context = refl
admin-permissions device create context = refl
admin-permissions device _ context = refl
admin-permissions controller create context = refl
admin-permissions controller _ context = refl
admin-permissions audit_log create context = refl
admin-permissions audit_log _ context = refl
admin-permissions approval create context = refl
admin-permissions approval _ context = refl
admin-permissions execution_token create context = refl
admin-permissions execution_token _ context = refl
admin-permissions backup create context = refl
admin-permissions backup _ context = refl
admin-permissions discovery_report create context = refl
admin-permissions discovery_report _ context = refl
admin-permissions key_material create context = refl
admin-permissions key_material _ context = refl
admin-permissions user_account create context = refl
admin-permissions user_account _ context = refl

-- After any assignments, an entity whose last role is that of a global administrator is permitted
-- every action on every resource in any context.
pub check_permission-admin :
    (as' : List (String × Role)) (id : String) (resource : Resource) (action : Action)
    (context : Option Context)
    → last_role id as' none ≡ some global_admin
    → check_permission (assigned as') id resource action context ≡ true
check_permission-admin as' id resource action context last =
    check-default as' id global_admin resource action context last
    ∙ admin-permissions resource action context
