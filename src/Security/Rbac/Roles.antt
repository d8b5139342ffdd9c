-- ===== src/Security/Rbac/Roles.antt =====
-- pdsno/security/rbac.py: `Role`, `Resource`, `Action`, `Permission` and `RoleDefinition`. The
-- description of a role is left out; a condition and a context map texts to texts.
use partially_distributed_sm.Common.{
  Bool, Dict, Eq, List, Option, String, [], arith, enum_eq, false, lookup, nat_eq, none, some,
  string_eq, true, ℕ, ◌&&◌, ◌++◌, ◌==◌, ◌||◌, ◌∷◌, ◌≡◌,
}

pub data Role : Type 0 where
  global_controller regional_controller local_controller : Role
  global_admin regional_admin local_operator viewer : Role
  api_client api_client_readonly : Role

pub data Resource : Type 0 where
  config device controller audit_log approval execution_token backup : Resource
  discovery_report key_material user_account : Resource

pub data Action : Type 0 where
  create read update delete approve reject execute rollback validate : Action

abbrev pub role_index : Role → ℕ
role_index global_controller = 0
role_index regional_controller = 1
role_index local_controller = 2
role_index global_admin = 3
role_index regional_admin = 4
role_index local_operator = 5
role_index viewer = 6
role_index api_client = 7
role_index api_client_readonly = 8

abbrev pub resource_index : Resource → ℕ
resource_index config = 0
resource_index device = 1
resource_index controller = 2
resource_index audit_log = 3
resource_index approval = 4
resource_index execution_token = 5
resource_index backup = 6
resource_index discovery_report = 7
resource_index key_material = 8
resource_index user_account = 9

abbrev pub action_index : Action → ℕ
action_index create = 0
action_index read = 1
action_index update = 2
action_index delete = 3
action_index approve = 4
action_index reject = 5
action_index execute = 6
action_index rollback = 7
action_index validate = 8

pub role_index_inj : (a b : Role) → role_index a ≡ role_index b → a ≡ b
role_index_inj a b h = ground arith

pub resource_index_inj : (a b : Resource) → resource_index a ≡ resource_index b → a ≡ b
resource_index_inj a b h = ground arith

pub action_index_inj : (a b : Action) → action_index a ≡ action_index b → a ≡ b
action_index_inj a b h = ground arith

instance abbrev pub role_eq : Eq Role
role_eq = enum_eq role_index role_index_inj

instance abbrev pub resource_eq : Eq Resource
resource_eq = enum_eq resource_index resource_index_inj

instance abbrev pub action_eq : Eq Action
action_eq = enum_eq action_index action_index_inj

-- `for resource in Resource`, `for action in Action`
abbrev pub all_resources : List Resource
all_resources =
    config ∷ device ∷ controller ∷ audit_log ∷ approval ∷ execution_token ∷ backup
    ∷ discovery_report ∷ key_material ∷ user_account ∷ []

abbrev pub all_actions : List Action
all_actions =
    create ∷ read ∷ update ∷ delete ∷ approve ∷ reject ∷ execute ∷ rollback ∷ validate ∷ []

abbrev pub Context : Type 0
Context = Dict String String

pub record Permission : Type 0 where
  pub resource : Resource
  pub action : Action
  pub conditions : Option Context

-- `context.get(key) == value` for every condition.
abbrev pub meets : Context → Context → Bool
meets [] context = true
meets ((key, value) ∷ conditions) context =
    elim (lookup key context) [ none ↦ false | some v ↦ v == value ] && meets conditions context

-- `if self.conditions and context`: an absent or empty dictionary counts as no condition.
abbrev pub conditions_met : Option Context → Option Context → Bool
conditions_met none context = true
conditions_met (some c) none = true
conditions_met (some c) (some []) = true
conditions_met (some c) (some (x ∷ xs)) = meets c (x ∷ xs)

unfoldable pub matches : Permission → Resource → Action → Option Context → Bool
matches p resource action context =
    p.resource == resource && p.action == action && conditions_met p.conditions context

pub record RoleDefinition : Type 0 where
  pub role : Role
  pub permissions : List Permission

unfoldable pub new_role : Role → RoleDefinition
new_role role = record { role = role; permissions = [] }

unfoldable pub add_permission : Resource → Action → Option Context → RoleDefinition → RoleDefinition
add_permission resource action conditions d = record d {
  permissions =
      d.permissions
      ++ record { resource = resource; action = action; conditions = conditions } ∷ [];
}

unfoldable pub any_matches : List Permission → Resource → Action → Option Context → Bool
any_matches [] resource action context = false
any_matches (p ∷ ps) resource action context =
    matches p resource action context || any_matches ps resource action context

unfoldable pub has_permission : RoleDefinition → Resource → Action → Option Context → Bool
has_permission d resource action context = any_matches d.permissions resource action context
