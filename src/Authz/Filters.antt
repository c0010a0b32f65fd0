-- ===== src/Authz/Filters.antt =====
-- The filters against the single questions.
use reactorcide.Prelude.{◌≡◌, refl, sym, ap, ◌∙◌, List, [], ◌∷◌, Bool, if◌then◌else◌}
use reactorcide.Models.Job.{Job}
use reactorcide.Store.World.{Result, ok, err}
use reactorcide.Authz.Types.{◌>>=◌, Identity, Project, RoleStore}
use reactorcide.Authz.Visibility.{
  Viewer, Caches, no_caches, view_project, view_owned, filter_loop, answer, new_viewer,
  can_view_project, filter_visible_projects, can_view_job, filter_visible_jobs,
}
use reactorcide.Authz.Cache.{
  Answers, AllAgree, view_project-Answers, view_owned-Answers, project_fresh, owned_fresh,
}

-- The rows that pass a test made for each of them on its own.
unfoldable pub filter_each : {A : Type 0} → (A → Result Bool) → List A → Result (List A)
filter_each test [] = ok []
filter_each test (x ∷ rows) =
    test x >>= λ visible. filter_each test rows >>= λ rest. ok (if visible then x ∷ rest else rest)

module _ {A : Type 0} (P : Caches → Type 0) where
  filter_loop-eq-filter_each :
      (view : A → Caches → Result (Bool × Caches)) (test : A → Result Bool) (rows : List A)
      (caches : Caches)
      → ((x : A) (c : Caches) → P c → Answers P (view x c) (test x))
      → P caches
      → filter_loop view rows caches ≡ filter_each test rows
  unfolding filter_loop filter_each
  filter_loop-eq-filter_each view test [] caches h k = refl
  filter_loop-eq-filter_each view test (x ∷ rows) caches h k =
      by_case (view x caches) (h x caches k) (λ c. filter_loop-eq-filter_each view test rows c h)
    where
      by_case :
          (r : Result (Bool × Caches))
          → Answers P r (test x)
          → ((c : Caches) → P c → filter_loop view rows c ≡ filter_each test rows)
          → (r >>= λ (visible, c).
              filter_loop view rows c >>= λ rest. ok (if visible then x ∷ rest else rest))
            ≡ (test x >>= λ visible.
                filter_each test rows >>= λ rest. ok (if visible then x ∷ rest else rest))
      by_case (ok (b, c)) (e, p) ih =
          ap (λ l. l >>= λ rest. ok (if b then x ∷ rest else rest)) (ih c p)
          ∙ ap
              (λ t. t >>= λ visible.
                filter_each test rows >>= λ rest. ok (if visible then x ∷ rest else rest))
              (sym e)
      by_case (err e') e ih =
          ap
            (λ t. t >>= λ visible.
              filter_each test rows >>= λ rest. ok (if visible then x ∷ rest else rest))
            (sym e)

answer-Answers :
    (P : Caches → Type 0) (x : Result (Bool × Caches)) (r : Result Bool)
    → Answers P x r
    → r ≡ answer x
answer-Answers P (ok (b, c)) r (e, p) = e
answer-Answers P (err e') r e = e

filter_each-ap :
    {A : Type 0} (test other : A → Result Bool) (rows : List A)
    → ((x : A) → test x ≡ other x)
    → filter_each test rows ≡ filter_each other rows
filter_each-ap test other rows h = ap (λ t. filter_each t rows) (λ i x. h x i)

module _ (store : RoleStore) where
  no_caches-AllAgree : AllAgree store no_caches
  no_caches-AllAgree = (λ id a e. absurd (cc), λ id a e. absurd (cc))

  -- To filter projects, with the caller's roles loaded once and every owner looked up once, is to ask
  -- of each project on its own whether the caller may see it, once the caller's roles can be loaded.
  pub filter_visible_projects-eq-filter_each :
      (id : Identity) (projects : List Project)
      → filter_visible_projects store id projects
        ≡ (new_viewer store id >>= λ _. filter_each (can_view_project store id) projects)
  unfolding filter_visible_projects can_view_project
  filter_visible_projects-eq-filter_each id projects = by_case (new_viewer store id)
    where
      by_case :
          (r : Result Viewer)
          → (r >>= λ viewer. filter_loop (view_project store viewer) projects no_caches) ≡ (
              r >>= λ _.
              filter_each
                (λ p. r >>= λ viewer. answer (view_project store viewer p no_caches))
                projects)
      by_case (ok viewer) =
          filter_loop-eq-filter_each (AllAgree store) (view_project store viewer)
            (project_fresh store viewer) projects no_caches (view_project-Answers store viewer)
            no_caches-AllAgree
          ∙ filter_each-ap _ _ projects (λ p.
            answer-Answers (AllAgree store) _ _
              (view_project-Answers store viewer p no_caches no_caches-AllAgree))
      by_case (err e) = refl

  -- The same of jobs, with every project and every owner looked up once.
  pub filter_visible_jobs-eq-filter_each :
      (id : Identity) (jobs : List Job)
      → filter_visible_jobs store id jobs
        ≡ (new_viewer store id >>= λ _. filter_each (can_view_job store id) jobs)
  unfolding filter_visible_jobs can_view_job
  filter_visible_jobs-eq-filter_each id jobs = by_case (new_viewer store id)
    where
      view : Viewer → Job → Caches → Result (Bool × Caches)
      view viewer job = view_owned store viewer job.spec.user_id job.spec.project_id

      by_case :
          (r : Result Viewer)
          → (r >>= λ viewer. filter_loop (view viewer) jobs no_caches) ≡ (
              r >>= λ _.
              filter_each (λ job. r >>= λ viewer. answer (view viewer job no_caches)) jobs)
      by_case (ok viewer) =
          filter_loop-eq-filter_each (AllAgree store) (view viewer)
            (λ job. owned_fresh store viewer job.spec.user_id job.spec.project_id) jobs no_caches
            (λ job. view_owned-Answers store viewer job.spec.user_id job.spec.project_id)
            no_caches-AllAgree
          ∙ filter_each-ap _ _ jobs (λ job. answer-Answers (AllAgree store) _ _ (
              view_owned-Answers store viewer job.spec.user_id job.spec.project_id no_caches
                no_caches-AllAgree))
      by_case (err e) = refl
