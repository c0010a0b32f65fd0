-- ===== src/Authz/Principal.antt =====
-- The role assignments of a caller, and the tests on them: `principal` of authz/resolver.go.
use reactorcide.Prelude.{
  String, List, [], ◌∷◌, Bool, true, false, ◌&&◌, Option, none, some, if◌then◌else◌, str_eq,
}
use reactorcide.Store.World.{Result}
use reactorcide.Authz.Types.{◌>>=◌, RoleAssignment, RoleStore}

-- The scope is there, and is the wanted one.
abbrev pub is_scope : Option String → String → Bool
is_scope none id = false
is_scope (some scope) id = str_eq scope id

abbrev pub is_global_admin_assignment : RoleAssignment → Bool
is_global_admin_assignment a = str_eq a.scope_type "global" && str_eq a.role "admin"

unfoldable pub has_global_admin : List RoleAssignment → Bool
has_global_admin [] = false
has_global_admin (a ∷ assignments) =
    if is_global_admin_assignment a then true else has_global_admin assignments

unfoldable pub has_org_role : List RoleAssignment → String → String → Bool
has_org_role [] org_id role = false
has_org_role (a ∷ assignments) org_id role =
    if str_eq a.scope_type "org" && str_eq a.role role && is_scope a.scope_id org_id
    then true
    else has_org_role assignments org_id role

unfoldable pub has_any_org_role : List RoleAssignment → String → Bool
has_any_org_role [] org_id = false
has_any_org_role (a ∷ assignments) org_id =
    if str_eq a.scope_type "org" && is_scope a.scope_id org_id
    then true
    else has_any_org_role assignments org_id

unfoldable pub has_project_role : List RoleAssignment → String → String → Bool
has_project_role [] project_id role = false
has_project_role (a ∷ assignments) project_id role =
    if str_eq a.scope_type "project" && str_eq a.role role && is_scope a.scope_id project_id
    then true
    else has_project_role assignments project_id role

unfoldable pub has_any_project_role : List RoleAssignment → String → Bool
has_any_project_role [] project_id = false
has_any_project_role (a ∷ assignments) project_id =
    if str_eq a.scope_type "project" && is_scope a.scope_id project_id
    then true
    else has_any_project_role assignments project_id

module _ (store : RoleStore) where
  unfoldable pub load_principal : String → Result (List RoleAssignment)
  load_principal user_id = do
    groups ← store.list_groups_for_user user_id
    store.list_role_assignments_for_principal user_id groups
