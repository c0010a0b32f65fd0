-- ===== src/Projects/Examples.antt =====
-- Events at a small project.
use mathlib.Core.List.{Memᴰ}
use reactorcide.Prelude.{◌≡◌, refl, ◌↔◌, ◌⊎◌, [], ◌∷◌, true, false, none, some, codes}
use reactorcide.Projects.Events.{tag_created, pull_request_merged, generic_event_from_github}
use reactorcide.Projects.Filter.{ProjectFilter, should_process_event, should_process_event_iff}

abbrev main_only : ProjectFilter
main_only = record {
  enabled = true;
  target_branches = "main" ∷ [];
  allowed_event_types = "push" ∷ [];
}

tag_event : generic_event_from_github "push" "" none (some (codes "refs/tags/v1")) ≡ tag_created
unfolding generic_event_from_github
tag_event = refl

merged_event :
    generic_event_from_github "pull_request" "closed" (some true) none ≡ pull_request_merged
unfolding generic_event_from_github
merged_event = refl

other_branch : should_process_event main_only "push" "topic" ≡ false
unfolding should_process_event
other_branch = refl

should_process_event_iff_example : (should_process_event main_only "push" "main" ≡ true) ↔ (
    (main_only.enabled ≡ true)
    × Memᴰ "push" main_only.allowed_event_types
    × ((main_only.target_branches ≡ []) ⊎ Memᴰ "main" main_only.target_branches))
should_process_event_iff_example = should_process_event_iff main_only "push" "main"
