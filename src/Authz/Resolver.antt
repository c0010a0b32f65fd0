-- ===== src/Authz/Resolver.antt =====
-- The tiers of authz/resolver.go, and the guards.
use reactorcide.Prelude.{
  String, List, Bool, true, false, ◌||◌, Option, none, some, if◌then◌else◌, str_eq,
}
use reactorcide.Store.World.{not_found, Result, ok, err}
use reactorcide.Authz.Types.{◌>>=◌, Identity, Project, RoleAssignment, RoleStore}
use reactorcide.Authz.Principal.{
  has_global_admin, has_org_role, has_any_org_role, has_project_role, has_any_project_role,
  load_principal,
}

-- Not somebody.
abbrev pub is_nobody : Identity → Bool
is_nobody id = id.anonymous || str_eq id.user_id ""

-- The owner of a project that was found; that it was not found is no error.
unfoldable pub owns : Identity → List RoleAssignment → Result Project → Result Bool
owns id p (err not_found) = ok false
owns id p (err e) = err e
owns id p (ok project) = by_owner project.user_id
  where
    by_owner : Option String → Result Bool
    by_owner none = ok false
    by_owner (some owner) =
        if str_eq owner id.user_id then ok true else ok (has_org_role p owner "admin")

-- `models.RoleAdmin`, `RoleOwner`, `RoleMember`, or none.
pub data Tier : Type 0 where
  admin owner member no_tier : Tier

-- What a guard answers: allowed, or a `PermissionError`.
pub data Verdict : Type 0 where
  allowed denied : Verdict

abbrev pub verdict : Bool → Verdict
verdict b = if b then allowed else denied

module _ (store : RoleStore) where
  unfoldable pub is_global_admin : Identity → Result Bool
  is_global_admin id =
      if is_nobody id
      then ok false
      else (load_principal store id.user_id >>= λ p. ok (has_global_admin p))

  unfoldable pub is_org_admin : Identity → String → Result Bool
  is_org_admin id org_id =
      if is_nobody id || str_eq org_id ""
      then ok false
      else if str_eq org_id id.user_id
      then ok true
      else (load_principal store id.user_id >>= λ p.
          if has_global_admin p then ok true else ok (has_org_role p org_id "admin"))

  unfoldable pub is_project_owner : Identity → String → Result Bool
  unfolding owns
  is_project_owner id project_id =
      if is_nobody id || str_eq project_id ""
      then ok false
      else (load_principal store id.user_id >>= λ p.
          if has_global_admin p
          then ok true
          else if has_project_role p project_id "owner"
          then ok true
          else owns id p (store.get_project_by_id project_id))

  -- The tier of a caller that is an owner.
  unfoldable pub tier_of_owner : Identity → String → Result Tier
  tier_of_owner id project_id = do
    is_global ← is_global_admin id
    if is_global
        then ok admin
        else (load_principal store id.user_id >>= λ p.
            if has_project_role p project_id "owner" then ok owner else ok admin)

  unfoldable pub effective_role_for_project : Identity → String → Result Tier
  unfolding tier_of_owner
  effective_role_for_project id project_id =
      if is_nobody id || str_eq project_id ""
      then ok no_tier
      else (is_project_owner id project_id >>= λ is_owner.
          if is_owner
          then tier_of_owner id project_id
          else (load_principal store id.user_id >>= λ p.
              if has_any_project_role p project_id then ok member else ok no_tier))

  unfoldable pub effective_role_for_org : Identity → String → Result Tier
  effective_role_for_org id org_id =
      if is_nobody id || str_eq org_id ""
      then ok no_tier
      else (is_org_admin id org_id >>= λ is_admin.
          if is_admin
          then ok admin
          else (load_principal store id.user_id >>= λ p.
              if has_any_org_role p org_id then ok member else ok no_tier))

  unfoldable pub require_global_admin : Identity → Result Verdict
  require_global_admin id = is_global_admin id >>= λ b. ok (verdict b)

  unfoldable pub require_org_admin : Identity → String → Result Verdict
  require_org_admin id org_id = is_org_admin id org_id >>= λ b. ok (verdict b)

  unfoldable pub require_project_owner : Identity → String → Result Verdict
  require_project_owner id project_id = is_project_owner id project_id >>= λ b. ok (verdict b)
