-- ===== src/Authz/Visibility.antt =====
-- authz/visibility.go: what a caller sees, with lookups that are remembered while one call runs.
use reactorcide.Prelude.{
  String, List, [], ◌∷◌, Bool, true, false, not, ◌&&◌, Option, none, some, if◌then◌else◌, str_eq,
  lookup, insert,
}
use reactorcide.Models.Job.{Job}
use reactorcide.Models.Workflow.{WorkflowInstance}
use reactorcide.Store.World.{not_found, Result, ok, err}
use reactorcide.Authz.Types.{
  ◌>>=◌, Identity, User, Project, RoleAssignment, RoleStore, is_effectively_private,
}
use reactorcide.Authz.Principal.{
  has_global_admin, has_org_role, has_project_role, has_any_project_role, load_principal,
}
use reactorcide.Authz.Resolver.{is_nobody}
use reactorcide.Runtime.Evaluate.{deref_string}

-- Of a `visibilityBatch`, what does not change: the caller, with its roles if it is somebody.
pub record Viewer : Type 0 where
  pub id : Identity
  pub principal : Option (List RoleAssignment)
  pub global_admin : Bool

-- And what does: the rows that were looked up, `none` for a row that is not there.
pub record Caches : Type 0 where
  pub users : List (String × Option User)
  pub projects : List (String × Option Project)

-- Of a summary, what is read here.
pub record WorkflowSummary : Type 0 where
  pub user_id : String
  pub project_id : Option String

-- The setting for new projects: `none` where there is no row, and inside it where its value is no JSON
-- Boolean.
unfoldable pub new_project_is_private : Result (Option (Option Bool)) → Bool
new_project_is_private (ok (some (some v))) = v
new_project_is_private _ = false

abbrev pub no_caches : Caches
no_caches = record { users = []; projects = [] }

module _ {A : Type 0} where
  unfoldable pub remember :
      String → List (String × Option A) → Result A → Result (Option A × List (String × Option A))
  remember id cache (ok a) = ok (some a, insert id (some a) cache)
  remember id cache (err not_found) = ok (none, insert id none cache)
  remember id cache (err e) = err e

  unfoldable pub recall :
      (String → Result A)
      → String
      → List (String × Option A)
      → Option (Option A)
      → Result (Option A × List (String × Option A))
  recall fetch id cache (some a) = ok (a, cache)
  recall fetch id cache none = remember id cache (fetch id)

  -- The steps of `getUser` and of `getProject`.
  unfoldable pub get_cached :
      (String → Result A)
      → String
      → List (String × Option A)
      → Result (Option A × List (String × Option A))
  get_cached fetch id cache =
      if str_eq id "" then ok (none, cache) else recall fetch id cache (lookup id cache)

-- The caller is the owner, an admin of the owner's organization or of everything, or has a role in the
-- project.
unfoldable pub can_view_private : Viewer → String → Option String → Bool
can_view_private viewer owner project_id =
    if is_nobody viewer.id
    then false
    else if not (str_eq owner "") && str_eq owner viewer.id.user_id
    then true
    else if viewer.global_admin
    then true
    else by_principal viewer.principal project_id
  where
    by_project : List RoleAssignment → Option String → Bool
    by_project p none = false
    by_project p (some project) =
        if has_project_role p project "owner" then true else has_any_project_role p project

    by_principal : Option (List RoleAssignment) → Option String → Bool
    by_principal none project = false
    by_principal (some p) project =
        if not (str_eq owner "") && has_org_role p owner "admin" then true else by_project p project

abbrev pub private_user : Option User → Bool
private_user none = false
private_user (some user) = user.is_private

-- The loop of the filters.
unfoldable pub filter_loop :
    {A : Type 0} → (A → Caches → Result (Bool × Caches)) → List A → Caches → Result (List A)
filter_loop view [] caches = ok []
filter_loop view (x ∷ rows) caches = view x caches >>= λ (visible, caches').
    filter_loop view rows caches' >>= λ rest. ok (if visible then x ∷ rest else rest)

abbrev pub answer : Result (Bool × Caches) → Result Bool
answer (ok (visible, _)) = ok visible
answer (err e) = err e

module _ (store : RoleStore) where
  unfoldable pub new_viewer : Identity → Result Viewer
  new_viewer id =
      if is_nobody id
      then ok (record { id = id; principal = none; global_admin = false })
      else (load_principal store id.user_id >>= λ p.
          ok (record { id = id; principal = some p; global_admin = has_global_admin p }))

  unfoldable pub get_user : String → Caches → Result (Option User × Caches)
  get_user id caches = get_cached store.get_user_by_id id caches.users >>= λ (user, users).
      ok (user, record caches { users = users })

  unfoldable pub get_project : String → Caches → Result (Option Project × Caches)
  get_project id caches =
      get_cached store.get_project_by_id id caches.projects >>= λ (project, projects).
      ok (project, record caches { projects = projects })

  -- Nothing is looked up for a project without an owner.
  unfoldable pub get_owner : Option String → Caches → Result (Option User × Caches)
  get_owner none caches = ok (none, caches)
  get_owner (some id) caches = get_user id caches

  unfoldable pub view_project : Viewer → Project → Caches → Result (Bool × Caches)
  view_project viewer project caches = get_owner project.user_id caches >>= λ (owner, caches'). ok (
    (if not (is_effectively_private project (private_user owner))
        then true
        else can_view_private viewer (deref_string project.user_id) (some project.project_id)),
    caches',
  )

  unfoldable pub view_by_owner : Viewer → String → Caches → Result (Bool × Caches)
  view_by_owner viewer owner_id caches = get_user owner_id caches >>= λ (owner, caches').
      ok (
        (if not (private_user owner) then true else can_view_private viewer owner_id none),
        caches',
      )

  -- A project that is not there counts as none.
  unfoldable pub view_found : Viewer → String → Option Project → Caches → Result (Bool × Caches)
  view_found viewer owner_id (some project) caches = view_project viewer project caches
  view_found viewer owner_id none caches = view_by_owner viewer owner_id caches

  unfoldable pub view_owned : Viewer → String → Option String → Caches → Result (Bool × Caches)
  view_owned viewer owner_id project_id caches =
      if not (str_eq (deref_string project_id) "")
      then (get_project (deref_string project_id) caches >>= λ (found, caches').
          view_found viewer owner_id found caches')
      else view_by_owner viewer owner_id caches

  unfoldable pub can_view_project : Identity → Project → Result Bool
  can_view_project id project =
      new_viewer id >>= λ viewer. answer (view_project viewer project no_caches)

  unfoldable pub filter_visible_projects : Identity → List Project → Result (List Project)
  filter_visible_projects id projects =
      new_viewer id >>= λ viewer. filter_loop (view_project viewer) projects no_caches

  unfoldable pub can_view_job : Identity → Job → Result Bool
  can_view_job id job = new_viewer id >>= λ viewer.
      answer (view_owned viewer job.spec.user_id job.spec.project_id no_caches)

  unfoldable pub filter_visible_jobs : Identity → List Job → Result (List Job)
  filter_visible_jobs id jobs = new_viewer id >>= λ viewer.
      filter_loop (λ job. view_owned viewer job.spec.user_id job.spec.project_id) jobs no_caches

  unfoldable pub can_view_workflow_instance : Identity → WorkflowInstance → Result Bool
  can_view_workflow_instance id wf =
      new_viewer id >>= λ viewer. answer (view_owned viewer wf.user_id wf.project_id no_caches)

  unfoldable pub can_view_workflow_summary : Identity → WorkflowSummary → Result Bool
  can_view_workflow_summary id summary = new_viewer id >>= λ viewer.
      answer (view_owned viewer summary.user_id summary.project_id no_caches)

  unfoldable pub filter_visible_workflow_summaries :
      Identity → List WorkflowSummary → Result (List WorkflowSummary)
  filter_visible_workflow_summaries id summaries = new_viewer id >>= λ viewer.
      filter_loop (λ summary. view_owned viewer summary.user_id summary.project_id) summaries
        no_caches
