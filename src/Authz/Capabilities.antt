-- ===== src/Authz/Capabilities.antt =====
-- `Capabilities` of authz/capabilities.go.
use reactorcide.Prelude.{
  String, List, Bool, true, false, ◌||◌, Option, none, some, if◌then◌else◌, str_eq,
}
use reactorcide.Store.World.{not_found, Result, ok, err}
use reactorcide.Authz.Types.{◌>>=◌, Identity, Project, RoleAssignment, RoleStore}
use reactorcide.Authz.Principal.{
  has_global_admin, has_org_role, has_project_role, has_any_project_role, load_principal,
}
use reactorcide.Authz.Resolver.{is_nobody}

pub record Scope : Type 0 where
  pub org_id : Option String
  pub project_id : Option String

pub record Caps : Type 0 where
  pub view_private : Bool
  pub cancel : Bool
  pub kill : Bool
  pub retry : Bool
  pub create_project : Bool
  pub delete_project : Bool
  pub manage_webhook_secrets : Bool
  pub manage_vcs_credentials : Bool
  pub manage_secrets : Bool
  pub manage_groups_roles : Bool
  pub project_settings : Bool
  pub global_admin : Bool

abbrev pub no_caps : Caps
no_caps = record {
  view_private = false;
  cancel = false;
  kill = false;
  retry = false;
  create_project = false;
  delete_project = false;
  manage_webhook_secrets = false;
  manage_vcs_credentials = false;
  manage_secrets = false;
  manage_groups_roles = false;
  project_settings = false;
  global_admin = false;
}

abbrev pub org_admin_caps : Caps
org_admin_caps = record {
  view_private = true;
  cancel = true;
  kill = true;
  retry = true;
  create_project = true;
  delete_project = true;
  manage_webhook_secrets = true;
  manage_vcs_credentials = true;
  manage_secrets = true;
  manage_groups_roles = true;
  project_settings = true;
  global_admin = false;
}

-- The owner of a project that was looked up: none, if there is no such project.
abbrev pub owner_of : Result Project → Result (Option String)
owner_of (ok project) = ok project.user_id
owner_of (err not_found) = ok none
owner_of (err e) = err e

-- The caller is the organization itself, or an admin of it.
abbrev pub is_admin_of : Identity → List RoleAssignment → Option String → Bool
is_admin_of id p none = false
is_admin_of id p (some org) = str_eq org id.user_id || has_org_role p org "admin"

abbrev pub on_project : (String → Bool) → Option String → Bool
on_project test none = false
on_project test (some project_id) = test project_id

-- What is left to decide once the organization is known.
unfoldable pub caps_in : Identity → List RoleAssignment → Option String → Option String → Caps
caps_in id p org_id project_id =
    if is_admin_of id p org_id
    then org_admin_caps
    else if on_project (λ project. has_project_role p project "owner") project_id
    then record no_caps {
      view_private = true;
      cancel = true;
      retry = true;
      project_settings = true;
    }
    else record no_caps { view_private = on_project (has_any_project_role p) project_id }

module _ (store : RoleStore) where
  unfoldable pub org_of_scope : Scope → Result (Option String)
  org_of_scope scope = by_org scope.org_id scope.project_id
    where
      by_org : Option String → Option String → Result (Option String)
      by_org (some org) project = ok (some org)
      by_org none none = ok none
      by_org none (some project) = owner_of (store.get_project_by_id project)

  -- `mode_none`: no login is configured.
  unfoldable pub capabilities : Bool → Identity → Scope → Result Caps
  unfolding org_of_scope caps_in
  capabilities mode_none id scope =
      if is_nobody id
      then ok (if mode_none then record no_caps { cancel = true; retry = true } else no_caps)
      else (load_principal store id.user_id >>= λ p.
          if has_global_admin p
          then ok (record org_admin_caps { global_admin = true })
          else (org_of_scope scope >>= λ org_id. ok (caps_in id p org_id scope.project_id)))
