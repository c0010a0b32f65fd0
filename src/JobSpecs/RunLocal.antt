-- ===== src/JobSpecs/RunLocal.antt =====
-- What becomes of the mark that a job is not to be run locally.
use reactorcide.Prelude.{
  ◌≡◌, refl, sym, ap, ◌∙◌, inl, inr, String, List, [], ◌∷◌, Bool, false, Bool-cases, Option, str_eq,
}
use reactorcide.JobSpecs.Merge.{
  JobSpec, SecretOverride, copy_base, merge_job_specs, Loaded, loaded, refused, load_job_spec,
  load_overlays, check_command, merge_loaded, with_base, load_job_spec_with_overlays,
}
use reactorcide.JobSpecs.Overlays.{run_local_lem}

-- The mark of what was loaded.
abbrev mark_of : Loaded (JobSpec × List SecretOverride) → Bool
mark_of (loaded merged) = merged.0.disable_run_local
mark_of (refused e) = false

checked :
    (merged : JobSpec × List SecretOverride)
    → merged.0.disable_run_local ≡ false
    → mark_of (check_command merged) ≡ false
checked (merged, overrides) h = elim (Bool-cases (str_eq merged.command "")) [
  | inl e ↦ rw e refl
  | inr e ↦ rw e h
]

merged_mark :
    (base : JobSpec) (overlays : Loaded (List JobSpec × List String))
    → mark_of (merge_loaded base overlays) ≡ false
unfolding merge_loaded merge_job_specs copy_base
merged_mark base (refused e) = refl
merged_mark base (loaded (overlays, files)) =
    checked (merge_job_specs base overlays files)
      (run_local_lem overlays files (copy_base base, []))

any_base :
    (read : String → Option JobSpec) (path : String) (paths : List String) (base : Loaded JobSpec)
    → mark_of (with_base read (path ∷ paths) base) ≡ false
unfolding with_base
any_base read path paths (refused e) = refl
any_base read path paths (loaded base) = merged_mark base (load_overlays read (path ∷ paths))

-- A job specification that is loaded with an overlay, whatever the overlay says, is not marked
-- as one that is not to be run locally, even if its job file is.
pub load_job_spec_with_overlays-unmarked :
    (base_name : String → String) (read : String → Option JobSpec) (path overlay : String)
    (overlays : List String) (merged : JobSpec × List SecretOverride)
    → load_job_spec_with_overlays base_name read path (overlay ∷ overlays) ≡ loaded merged
    → merged.0.disable_run_local ≡ false
unfolding load_job_spec_with_overlays
load_job_spec_with_overlays-unmarked base_name read path overlay overlays merged h =
    sym (ap mark_of h) ∙ any_base read overlay overlays (load_job_spec base_name path (read path))
