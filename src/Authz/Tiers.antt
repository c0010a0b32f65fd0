-- ===== src/Authz/Tiers.antt =====
-- How the capabilities of a caller and its tiers go together.
use reactorcide.Prelude.{
  ◌≡◌, ap, String, List, Bool, true, false, ◌||◌, none, some, if◌then◌else◌, str_eq,
}
use reactorcide.Store.World.{Result, ok, err}
use reactorcide.Authz.Types.{◌>>=◌, Identity, RoleAssignment, RoleStore}
use reactorcide.Authz.Principal.{has_global_admin, has_org_role, load_principal}
use reactorcide.Authz.Resolver.{is_nobody, is_org_admin, is_global_admin}
use reactorcide.Authz.Capabilities.{
  Scope, Caps, org_admin_caps, no_caps, caps_in, org_of_scope, capabilities,
}

-- The scope of an organization as a whole.
abbrev pub org_scope : String → Scope
org_scope org_id = record { org_id = some org_id; project_id = none }

abbrev caps_of : Result Caps → Caps
caps_of (ok caps) = caps
caps_of (err e) = no_caps

module _ (caps : Caps) where
  -- An answer has the two capabilities of what it is equal to.
  answer_lem :
      (r : Result Caps)
      → r ≡ ok caps
      → (ok (caps_of r).kill ≡ ok caps.kill) × (ok (caps_of r).global_admin ≡ ok caps.global_admin)
  answer_lem r e = (ap (λ x. ok (caps_of x).kill) e, ap (λ x. ok (caps_of x).global_admin) e)

  nobody_lem :
      (mode_none : Bool)
      → ok (if mode_none then record no_caps { cancel = true; retry = true } else no_caps) ≡ ok caps
      → (ok false ≡ ok caps.kill) × (ok false ≡ ok caps.global_admin)
  nobody_lem true e = answer_lem _ e
  nobody_lem false e = answer_lem _ e

  -- The caller is the organization; is a global admin; is an admin of the organization.
  somebody_lem :
      (self global admin : Bool)
      → (if global
          then ok (record org_admin_caps { global_admin = true })
          else ok
              (if self || admin then org_admin_caps else record no_caps { view_private = false }))
        ≡ ok caps
      → ((if self then ok true else if global then ok true else ok admin) ≡ ok caps.kill)
        × (ok global ≡ ok caps.global_admin)
  somebody_lem true true admin e = answer_lem _ e
  somebody_lem true false admin e = answer_lem _ e
  somebody_lem false true admin e = answer_lem _ e
  somebody_lem false false true e = answer_lem _ e
  somebody_lem false false false e = answer_lem _ e

module _ (store : RoleStore) where
  -- Whatever the capabilities of a caller in an organization are, the one to kill jobs is there exactly
  -- where the caller is an admin of the organization, in every login mode; and the one over the whole
  -- system exactly where it is a global admin.
  pub capabilities-is_org_admin :
      (mode_none : Bool) (id : Identity) (org_id : String) (caps : Caps)
      → str_eq org_id "" ≡ false
      → capabilities store mode_none id (org_scope org_id) ≡ ok caps
      → (is_org_admin store id org_id ≡ ok caps.kill)
        × (is_global_admin store id ≡ ok caps.global_admin)
  unfolding capabilities is_org_admin is_global_admin org_of_scope caps_in
  capabilities-is_org_admin mode_none id org_id caps named e =
      by_case (is_nobody id) (load_principal store id.user_id) e
    where
      self : Bool
      self = str_eq org_id id.user_id

      by_case :
          (nobody : Bool) (r : Result (List RoleAssignment))
          → (if nobody
              then ok
                  (if mode_none then record no_caps { cancel = true; retry = true } else no_caps)
              else (r >>= λ p.
                  if has_global_admin p
                  then ok (record org_admin_caps { global_admin = true })
                  else ok (
                      if self || has_org_role p org_id "admin"
                      then org_admin_caps
                      else record no_caps { view_private = false })))
            ≡ ok caps
          → ((if nobody || str_eq org_id ""
                then ok false
                else if self
                then ok true
                else (r >>= λ p.
                    if has_global_admin p then ok true else ok (has_org_role p org_id "admin")))
              ≡ ok caps.kill)
            × ((if nobody then ok false else (r >>= λ p. ok (has_global_admin p)))
                ≡ ok caps.global_admin)
      by_case true r h = nobody_lem caps mode_none h
      by_case false (ok p) h =
          rw named (somebody_lem caps self (has_global_admin p) (has_org_role p org_id "admin") h)
      by_case false (err x) h = absurd (cc)
