-- ===== src/Authz/Examples.antt =====
-- Callers, projects and what they may do and see.
use reactorcide.Prelude.{
  ◌≡◌, refl, String, List, [], ◌∷◌, true, false, none, some, if◌then◌else◌, str_eq,
}
use reactorcide.Models.Status.{running}
use reactorcide.Models.Samples.{job}
use reactorcide.Store.World.{not_found, Result, ok, err}
use reactorcide.Authz.Types.{
  ◌>>=◌, user_identity, anonymous_identity, User, Project, RoleAssignment, RoleStore,
  is_effectively_private,
}
use reactorcide.Authz.Principal.{load_principal, has_global_admin, has_org_role, has_project_role}
use reactorcide.Authz.Resolver.{
  owner, is_org_admin, is_global_admin, is_project_owner, effective_role_for_project, denied,
  require_project_owner,
}
use reactorcide.Authz.Capabilities.{org_admin_caps, capabilities}
use reactorcide.Authz.Visibility.{
  Viewer, can_view_private, new_viewer, can_view_project, filter_visible_projects, can_view_job,
  filter_visible_jobs, filter_loop, view_project, get_owner, get_user, get_cached, recall, remember,
}
use reactorcide.Authz.Filters.{
  filter_each, filter_visible_projects-eq-filter_each, filter_visible_jobs-eq-filter_each,
}
use reactorcide.Authz.Rule.{view_rule, can_view_private-eq-view_rule}
use reactorcide.Authz.Tiers.{capabilities-is_org_admin}

abbrev assignment : String → String → String → RoleAssignment
assignment scope_type scope_id role = record {
  scope_type = scope_type;
  scope_id = some scope_id;
  role = role;
}

abbrev site : Project
site = record { project_id = "site"; user_id = some "acme"; is_private = true }

abbrev docs : Project
docs = record { project_id = "docs"; user_id = some "other"; is_private = false }

abbrev user_row : String → Result User
user_row id =
    if str_eq id "acme"
    then ok (record { user_id = "acme"; is_private = true })
    else if str_eq id "other"
    then ok (record { user_id = "other"; is_private = false })
    else err not_found

abbrev project_row : String → Result Project
project_row id = if str_eq id "site" then ok site else err not_found

abbrev roles : String → List String → Result (List RoleAssignment)
roles id groups =
    if str_eq id "ann"
    then ok (assignment "project" "site" "owner" ∷ [])
    else if str_eq id "bob"
    then ok (assignment "org" "acme" "admin" ∷ [])
    else ok []

abbrev directory : RoleStore
directory = record {
  get_user_by_id = user_row;
  get_project_by_id = project_row;
  list_groups_for_user = λ id. ok [];
  list_role_assignments_for_principal = roles;
}

owner_may_not_kill :
    (capabilities directory false
        (user_identity "ann")
        (record { org_id = none; project_id = some "site" })
      >>= λ caps. ok caps.kill)
    ≡ ok false
unfolding capabilities load_principal has_global_admin has_org_role has_project_role
owner_may_not_kill = refl

owner_tier : effective_role_for_project directory (user_identity "ann") "site" ≡ ok owner
unfolding effective_role_for_project is_project_owner is_global_admin load_principal
    has_global_admin has_project_role
owner_tier = refl

stranger_denied : require_project_owner directory (user_identity "eve") "site" ≡ ok denied
unfolding require_project_owner is_project_owner load_principal has_global_admin has_project_role
    has_org_role
stranger_denied = refl

public_only :
    filter_visible_projects directory anonymous_identity (site ∷ docs ∷ []) ≡ ok (docs ∷ [])
unfolding filter_visible_projects new_viewer filter_loop view_project get_owner get_user get_cached
    recall remember is_effectively_private can_view_private
public_only = refl

filter_visible_projects-eq-filter_each_example :
    filter_visible_projects directory (user_identity "ann") (site ∷ docs ∷ []) ≡ (
      new_viewer directory (user_identity "ann") >>= λ _.
      filter_each (can_view_project directory (user_identity "ann")) (site ∷ docs ∷ []))
filter_visible_projects-eq-filter_each_example =
    filter_visible_projects-eq-filter_each directory (user_identity "ann") (site ∷ docs ∷ [])

filter_visible_jobs-eq-filter_each_example :
    filter_visible_jobs directory (user_identity "bob") (job "j" running ∷ []) ≡ (
      new_viewer directory (user_identity "bob") >>= λ _.
      filter_each (can_view_job directory (user_identity "bob")) (job "j" running ∷ []))
filter_visible_jobs-eq-filter_each_example =
    filter_visible_jobs-eq-filter_each directory (user_identity "bob") (job "j" running ∷ [])

abbrev bob : Viewer
bob = record {
  id = user_identity "bob";
  principal = some (assignment "org" "acme" "admin" ∷ []);
  global_admin = false;
}

can_view_private-eq-view_rule_example :
    can_view_private bob "acme" (some "site")
    ≡ view_rule (user_identity "bob") (assignment "org" "acme" "admin" ∷ []) "acme" "site"
unfolding load_principal new_viewer has_global_admin
can_view_private-eq-view_rule_example =
    can_view_private-eq-view_rule directory (user_identity "bob")
      (assignment "org" "acme" "admin" ∷ []) bob "acme" "site" refl refl

capabilities-is_org_admin_example :
    (is_org_admin directory (user_identity "bob") "acme" ≡ ok org_admin_caps.kill)
    × (is_global_admin directory (user_identity "bob") ≡ ok org_admin_caps.global_admin)
unfolding capabilities load_principal has_global_admin has_org_role
capabilities-is_org_admin_example =
    capabilities-is_org_admin directory false (user_identity "bob") "acme" org_admin_caps refl refl
