-- ===== src/Authz/Types.antt =====
-- The callers, rows and answers of the package authz, and the store that it asks.
use reactorcide.Prelude.{String, List, Bool, true, false, Option, none, some, if◌then◌else◌, str_eq}
use reactorcide.Store.World.{Result, ok, err}

infixl 5 ◌>>=◌
-- An error ends the run.
abbrev pub ◌>>=◌ : {A B : Type 0} → Result A → (A → Result B) → Result B
ok a >>= f = f a
err e >>= f = err e

pub record Identity : Type 0 where
  pub anonymous : Bool
  pub user_id : String

abbrev pub anonymous_identity : Identity
anonymous_identity = record { anonymous = true; user_id = "" }

abbrev pub user_identity : String → Identity
user_identity id = record { anonymous = false; user_id = id }

-- Of a user, a project and a role assignment, what the package reads.
pub record User : Type 0 where
  pub user_id : String
  pub is_private : Bool

pub record Project : Type 0 where
  pub project_id : String
  pub user_id : Option String
  pub is_private : Bool

pub record RoleAssignment : Type 0 where
  pub scope_type : String
  pub scope_id : Option String
  pub role : String

-- A nil user, or one without a key, is anonymous.
unfoldable pub identity_from_user : Option User → Identity
identity_from_user none = anonymous_identity
identity_from_user (some user) =
    if str_eq user.user_id "" then anonymous_identity else user_identity user.user_id

unfoldable pub is_effectively_private : Project → Bool → Bool
is_effectively_private project org_is_private = if project.is_private then true else org_is_private

-- `RoleStore`: the answers of the database while one call runs. Groups are given by their ids.
pub record RoleStore : Type 0 where
  pub get_user_by_id : String → Result User
  pub get_project_by_id : String → Result Project
  pub list_groups_for_user : String → Result (List String)
  pub list_role_assignments_for_principal : String → List String → Result (List RoleAssignment)
