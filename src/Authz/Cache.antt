-- ===== src/Authz/Cache.antt =====
-- The rows that a call remembers change no answer.
use reactorcide.Prelude.{
  ◌≡◌, refl, sym, ap, ◌∙◌, subst, inl, inr, String, List, Bool, true, false, Bool-cases, not,
  Option, none, some, if◌then◌else◌, str_eq, str_eq_iff, lookup, insert, lookup-insert,
}
use reactorcide.Store.World.{
  not_found, store_error, corndogs_error, not_cancellable, not_retryable, workflow_not_retryable,
  workflows_unsupported, caused_by, Result, ok, err,
}
use reactorcide.Runtime.Build.{value_or}
use reactorcide.Runtime.Evaluate.{deref_string}
use reactorcide.Authz.Types.{◌>>=◌, User, Project, RoleStore, is_effectively_private}
use reactorcide.Authz.Visibility.{
  private_user, can_view_private, Viewer, Caches, remember, recall, get_cached, get_user,
  get_project, get_owner, view_project, view_by_owner, view_found, view_owned,
}

-- What the store says of a row, that it is not there being an answer too.
abbrev pub found : {A : Type 0} → Result A → Result (Option A)
found (ok a) = ok (some a)
found (err not_found) = ok none
found (err e) = err e

-- The remembered rows are those of the store.
abbrev pub Agrees : {A : Type 0} → (String → Result A) → List (String × Option A) → Type 0
Agrees {A} fetch cache =
    (id : String) (a : Option A) → lookup id cache ≡ some a → found (fetch id) ≡ ok a

-- A run that answers as `r` does, and leaves a cache with `P`.
abbrev pub Answers : {A C : Type 0} → (C → Type 0) → Result (A × C) → Result A → Type 0
Answers P (ok (a, c)) r = (r ≡ ok a) × P c
Answers P (err e) r = r ≡ err e

module _ {A : Type 0} (fetch : String → Result A) where
  insert-Agrees :
      (id : String) (cache : List (String × Option A)) (a : Option A)
      → Agrees fetch cache
      → found (fetch id) ≡ ok a
      → Agrees fetch (insert id a cache)
  insert-Agrees id cache a h e k b q =
      let held = sym (lookup-insert id k a cache) ∙ q in
      elim (Bool-cases (str_eq id k)) [
        | inl s ↦
            subst (λ j. found (fetch j) ≡ ok b) ((str_eq_iff id k).0 s)
              (e ∙ ap ok (ap (λ o. value_or o a) (rw s at held)))
        | inr s ↦ h k b (rw s at held)
      ]

  remember-Answers :
      (id : String) (cache : List (String × Option A)) (r : Result A)
      → Agrees fetch cache
      → fetch id ≡ r
      → Answers (Agrees fetch) (remember id cache r) (found r)
  unfolding remember
  remember-Answers id cache (ok a) h e = (refl, insert-Agrees id cache (some a) h (ap found e))
  remember-Answers id cache (err not_found) h e = (refl, insert-Agrees id cache none h (ap found e))
  remember-Answers id cache (err store_error) h e = refl
  remember-Answers id cache (err corndogs_error) h e = refl
  remember-Answers id cache (err not_cancellable) h e = refl
  remember-Answers id cache (err not_retryable) h e = refl
  remember-Answers id cache (err workflow_not_retryable) h e = refl
  remember-Answers id cache (err workflows_unsupported) h e = refl
  remember-Answers id cache (err (caused_by _)) h e = refl

  recall-Answers :
      (id : String) (cache : List (String × Option A)) (held : Option (Option A))
      → lookup id cache ≡ held
      → Agrees fetch cache
      → Answers (Agrees fetch) (recall fetch id cache held) (found (fetch id))
  unfolding recall
  recall-Answers id cache (some a) e h = (h id a e, h)
  recall-Answers id cache none e h = remember-Answers id cache (fetch id) h refl

  -- Without a key nothing is asked.
  abbrev pub get_fresh : String → Result (Option A)
  get_fresh id = if str_eq id "" then ok none else found (fetch id)

  get_cached-Answers :
      (id : String) (cache : List (String × Option A))
      → Agrees fetch cache
      → Answers (Agrees fetch) (get_cached fetch id cache) (get_fresh id)
  unfolding get_cached
  get_cached-Answers id cache h = by_case (str_eq id "") (recall-Answers id cache _ refl h)
    where
      by_case :
          (b : Bool)
          → Answers (Agrees fetch) (recall fetch id cache (lookup id cache)) (found (fetch id))
          → Answers
              (Agrees fetch)
              (if b then ok (none, cache) else recall fetch id cache (lookup id cache))
              (if b then ok none else found (fetch id))
      by_case true k = (refl, h)
      by_case false k = k

-- Steps in order: the second answers for what the first answered.
>>=-Answers :
    {A B C D : Type 0} (P : C → Type 0) (Q : D → Type 0) (x : Result (A × C)) (r : Result A)
    (f : A × C → Result (B × D)) (g : A → Result B)
    → Answers P x r
    → ((a : A) (c : C) → P c → Answers Q (f (a, c)) (g a))
    → Answers Q (x >>= f) (r >>= g)
>>=-Answers P Q (ok (a, c)) r f g (e, p) h =
    subst (λ s. Answers Q (f (a, c)) (s >>= g)) (sym e) (h a c p)
>>=-Answers P Q (err e') r f g e h = subst (λ s. s >>= g ≡ err e') (sym e) refl

module _ (store : RoleStore) where
  abbrev pub AllAgree : Caches → Type 0
  AllAgree caches =
      Agrees store.get_user_by_id caches.users × Agrees store.get_project_by_id caches.projects

  get_user-Answers :
      (id : String) (caches : Caches)
      → AllAgree caches
      → Answers AllAgree (get_user store id caches) (get_fresh store.get_user_by_id id >>= ok)
  unfolding get_user
  get_user-Answers id caches h =
      >>=-Answers (Agrees store.get_user_by_id) AllAgree _ _ _ _
        (get_cached-Answers store.get_user_by_id id caches.users h.0)
        (λ user users k. (refl, (k, h.1)))

  get_project-Answers :
      (id : String) (caches : Caches)
      → AllAgree caches
      → Answers AllAgree (get_project store id caches) (get_fresh store.get_project_by_id id >>= ok)
  unfolding get_project
  get_project-Answers id caches h =
      >>=-Answers (Agrees store.get_project_by_id) AllAgree _ _ _ _
        (get_cached-Answers store.get_project_by_id id caches.projects h.1)
        (λ project projects k. (refl, (h.0, k)))

  -- The visibility of a project, and of a row with an owner, when nothing is remembered.
  abbrev pub owner_fresh : Option String → Result (Option User)
  owner_fresh none = ok none
  owner_fresh (some id) = get_fresh store.get_user_by_id id >>= ok

  abbrev pub project_fresh : Viewer → Project → Result Bool
  project_fresh viewer project = owner_fresh project.user_id >>= λ owner. ok (
      if not (is_effectively_private project (private_user owner))
      then true
      else can_view_private viewer (deref_string project.user_id) (some project.project_id))

  abbrev pub by_owner_fresh : Viewer → String → Result Bool
  by_owner_fresh viewer owner_id = (get_fresh store.get_user_by_id owner_id >>= ok) >>= λ owner.
      ok (if not (private_user owner) then true else can_view_private viewer owner_id none)

  abbrev pub found_fresh : Viewer → String → Option Project → Result Bool
  found_fresh viewer owner_id (some project) = project_fresh viewer project
  found_fresh viewer owner_id none = by_owner_fresh viewer owner_id

  abbrev pub owned_fresh : Viewer → String → Option String → Result Bool
  owned_fresh viewer owner_id project_id =
      if not (str_eq (deref_string project_id) "")
      then ((get_fresh store.get_project_by_id (deref_string project_id) >>= ok)
          >>= found_fresh viewer owner_id)
      else by_owner_fresh viewer owner_id

  get_owner-Answers :
      (id : Option String) (caches : Caches)
      → AllAgree caches
      → Answers AllAgree (get_owner store id caches) (owner_fresh id)
  unfolding get_owner
  get_owner-Answers none caches h = (refl, h)
  get_owner-Answers (some id) caches h = get_user-Answers id caches h

  pub view_project-Answers :
      (viewer : Viewer) (project : Project) (caches : Caches)
      → AllAgree caches
      → Answers AllAgree (view_project store viewer project caches) (project_fresh viewer project)
  unfolding view_project
  view_project-Answers viewer project caches h =
      >>=-Answers AllAgree AllAgree _ _ _ _ (get_owner-Answers project.user_id caches h)
        (λ owner c k. (refl, k))

  view_by_owner-Answers :
      (viewer : Viewer) (owner_id : String) (caches : Caches)
      → AllAgree caches
      → Answers AllAgree
          (view_by_owner store viewer owner_id caches)
          (by_owner_fresh viewer owner_id)
  unfolding view_by_owner
  view_by_owner-Answers viewer owner_id caches h =
      >>=-Answers AllAgree AllAgree _ _ _ _ (get_user-Answers owner_id caches h)
        (λ owner c k. (refl, k))

  view_found-Answers :
      (viewer : Viewer) (owner_id : String) (project : Option Project) (caches : Caches)
      → AllAgree caches
      → Answers AllAgree
          (view_found store viewer owner_id project caches)
          (found_fresh viewer owner_id project)
  unfolding view_found
  view_found-Answers viewer owner_id (some project) caches h =
      view_project-Answers viewer project caches h
  view_found-Answers viewer owner_id none caches h = view_by_owner-Answers viewer owner_id caches h

  pub view_owned-Answers :
      (viewer : Viewer) (owner_id : String) (project_id : Option String) (caches : Caches)
      → AllAgree caches
      → Answers AllAgree
          (view_owned store viewer owner_id project_id caches)
          (owned_fresh viewer owner_id project_id)
  unfolding view_owned
  view_owned-Answers viewer owner_id project_id caches h =
      by_case (not (str_eq (deref_string project_id) "")) _ _ _ _
        (>>=-Answers AllAgree AllAgree _ _ _ _
          (get_project-Answers (deref_string project_id) caches h)
          (λ project c k. view_found-Answers viewer owner_id project c k))
        (view_by_owner-Answers viewer owner_id caches h)
    where
      by_case :
          (b : Bool) (x y : Result (Bool × Caches)) (r s : Result Bool)
          → Answers AllAgree x r
          → Answers AllAgree y s
          → Answers AllAgree (if b then x else y) (if b then r else s)
      by_case true x y r s k l = k
      by_case false x y r s k l = l
