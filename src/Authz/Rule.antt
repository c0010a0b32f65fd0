-- ===== src/Authz/Rule.antt =====
-- Who sees a private row: one rule for each role assignment.
use reactorcide.Prelude.{
  ◌≡◌, refl, sym, ap, ap₂, ◌∙◌, subst, String, List, [], ◌∷◌, Bool, true, false, ◌||◌, ◌&&◌, not,
  none, some, if◌then◌else◌, str_eq,
}
use reactorcide.Store.World.{Result, ok, err}
use reactorcide.Authz.Types.{◌>>=◌, Identity, RoleAssignment, RoleStore}
use reactorcide.Authz.Principal.{
  is_scope, is_global_admin_assignment, has_global_admin, has_org_role, has_project_role,
  has_any_project_role, load_principal,
}
use reactorcide.Authz.Resolver.{is_nobody}
use reactorcide.Authz.Visibility.{Viewer, can_view_private, new_viewer}

-- Some assignment passes a test.
unfoldable pub any_assignment : (RoleAssignment → Bool) → List RoleAssignment → Bool
any_assignment test [] = false
any_assignment test (a ∷ assignments) = test a || any_assignment test assignments

abbrev on_org : String → RoleAssignment → Bool
on_org owner a = str_eq a.scope_type "org" && str_eq a.role "admin" && is_scope a.scope_id owner

abbrev in_project : String → RoleAssignment → Bool
in_project project a = str_eq a.scope_type "project" && is_scope a.scope_id project

-- An assignment lets its holder see the private rows of a project: admin of everything, admin of the
-- organization that owns the project, if one does, or any role in the project.
abbrev pub gives_view : String → String → RoleAssignment → Bool
gives_view owner project a =
    is_global_admin_assignment a
    || (not (str_eq owner "") && on_org owner a || in_project project a)

abbrev pub view_rule : Identity → List RoleAssignment → String → String → Bool
view_rule id p owner project =
    not (is_nobody id)
    && (not (str_eq owner "") && str_eq owner id.user_id
        || any_assignment (gives_view owner project) p)

any_or :
    (f g : RoleAssignment → Bool) (p : List RoleAssignment)
    → any_assignment (λ a. f a || g a) p ≡ (any_assignment f p || any_assignment g p)
unfolding any_assignment
any_or f g [] = refl
any_or f g (a ∷ p) = ap (λ r. (f a || g a) || r) (any_or f g p) ∙ swap (f a) (g a) _ _
  where
    swap : (x y u v : Bool) → ((x || y) || (u || v)) ≡ ((x || u) || (y || v))
    swap true y u v = refl
    swap false true true v = refl
    swap false true false v = refl
    swap false false true v = refl
    swap false false false v = refl

any_and :
    (b : Bool) (f : RoleAssignment → Bool) (p : List RoleAssignment)
    → any_assignment (λ a. b && f a) p ≡ (b && any_assignment f p)
unfolding any_assignment
any_and true f p = refl
any_and false f [] = refl
any_and false f (a ∷ p) = any_and false f p

scan_or : (b r : Bool) → (if b then true else r) ≡ (b || r)
scan_or true r = refl
scan_or false r = refl

has_global_admin_lem :
    (p : List RoleAssignment) → has_global_admin p ≡ any_assignment is_global_admin_assignment p
unfolding has_global_admin any_assignment
has_global_admin_lem [] = refl
has_global_admin_lem (a ∷ p) =
    ap (λ r. if is_global_admin_assignment a then true else r) (has_global_admin_lem p)
    ∙ scan_or (is_global_admin_assignment a) _

has_org_role_lem :
    (owner : String) (p : List RoleAssignment)
    → has_org_role p owner "admin" ≡ any_assignment (on_org owner) p
unfolding has_org_role any_assignment
has_org_role_lem owner [] = refl
has_org_role_lem owner (a ∷ p) =
    ap (λ r. if on_org owner a then true else r) (has_org_role_lem owner p)
    ∙ scan_or (on_org owner a) _

has_any_project_role_lem :
    (project : String) (p : List RoleAssignment)
    → has_any_project_role p project ≡ any_assignment (in_project project) p
unfolding has_any_project_role any_assignment
has_any_project_role_lem project [] = refl
has_any_project_role_lem project (a ∷ p) =
    ap (λ r. if in_project project a then true else r) (has_any_project_role_lem project p)
    ∙ scan_or (in_project project a) _

-- An owner has a role.
owner_or_any :
    (project : String) (p : List RoleAssignment)
    → (if has_project_role p project "owner" then true else has_any_project_role p project)
      ≡ has_any_project_role p project
unfolding has_project_role has_any_project_role
owner_or_any project [] = refl
owner_or_any project (a ∷ p) =
    absorb (str_eq a.scope_type "project") (str_eq a.role "owner") (is_scope a.scope_id project) _ _
      (owner_or_any project p)
  where
    absorb :
        (t o s x y : Bool)
        → (if x then true else y) ≡ y
        → (if (if t && o && s then true else x) then true else (if t && s then true else y))
          ≡ (if t && s then true else y)
    absorb true true true x y h = refl
    absorb true true false x y h = h
    absorb true false true true y h = refl
    absorb true false true false y h = refl
    absorb true false false x y h = h
    absorb false o s x y h = h

gives_view_lem :
    (owner project : String) (p : List RoleAssignment)
    → (has_global_admin p
        || (not (str_eq owner "") && has_org_role p owner "admin"
            || has_any_project_role p project))
      ≡ any_assignment (gives_view owner project) p
gives_view_lem owner project p =
    ap₂ (λ x y. x || y) (has_global_admin_lem p)
      (ap₂ (λ x y. x || y)
          (ap (λ x. not (str_eq owner "") && x) (has_org_role_lem owner p)
            ∙ sym (any_and (not (str_eq owner "")) (on_org owner) p))
          (has_any_project_role_lem project p)
        ∙ sym (any_or (λ a. not (str_eq owner "") && on_org owner a) (in_project project) p))
    ∙ sym (
        any_or is_global_admin_assignment
          (λ a. not (str_eq owner "") && on_org owner a || in_project project a) p)

-- The tests in their order are one disjunction.
tests_lem :
    (x g m r : Bool) {s : Bool}
    → r ≡ s
    → (if x then true else if g then true else if m then true else r) ≡ (x || (g || (m || s)))
tests_lem true g m r h = refl
tests_lem false true m r h = refl
tests_lem false false true r h = refl
tests_lem false false false r h = h

viewer_of : Viewer → Result Viewer → Viewer
viewer_of v (ok viewer) = viewer
viewer_of v (err e) = v

module _ (store : RoleStore) where
  -- A caller, as its roles were loaded, sees a private row of a project exactly by the rule: it is
  -- somebody, and it owns the row, or one of its role assignments gives it the sight.
  pub can_view_private-eq-view_rule :
      (id : Identity) (p : List RoleAssignment) (viewer : Viewer) (owner project : String)
      → load_principal store id.user_id ≡ ok p
      → new_viewer store id ≡ ok viewer
      → can_view_private viewer owner (some project) ≡ view_rule id p owner project
  unfolding can_view_private new_viewer viewer_of
  can_view_private-eq-view_rule id p viewer owner project e q =
      by_case (is_nobody id) refl (subst (λ r. viewer_from (is_nobody id) r ≡ ok viewer) e q)
    where
      viewer_from : Bool → Result (List RoleAssignment) → Result Viewer
      viewer_from nobody r =
          if nobody
          then ok (record { id = id; principal = none; global_admin = false })
          else (r >>= λ p.
              ok (record { id = id; principal = some p; global_admin = has_global_admin p }))

      by_case :
          (nobody : Bool)
          → is_nobody id ≡ nobody
          → viewer_from nobody (ok p) ≡ ok viewer
          → can_view_private viewer owner (some project) ≡ view_rule id p owner project
      by_case true n h =
          subst (λ v. can_view_private v owner (some project) ≡ view_rule id p owner project)
            (ap (viewer_of viewer) h) (rw n)
      by_case false n h =
          subst (λ v. can_view_private v owner (some project) ≡ view_rule id p owner project)
            (ap (viewer_of viewer) h)
            (rw n (
              tests_lem _ (has_global_admin p) _ _ (owner_or_any project p)
              ∙ ap (λ r. not (str_eq owner "") && str_eq owner id.user_id || r)
                  (gives_view_lem owner project p)))
