-- ===== src/Projects/Events.antt =====
-- `GenericEventFromGitHub` of vcs/event_types.go.
use reactorcide.Prelude.{
  String, Bool, true, ◌||◌, Option, none, some, if◌then◌else◌, str_eq, Bytes, codes,
}
use reactorcide.Secrets.Masker.{starts}

pub data EventType : Type 0 where
  push pull_request_opened pull_request_updated pull_request_merged : EventType
  pull_request_closed tag_created ping directly_submitted unknown : EventType

-- By the ref of a push, if there is one.
abbrev by_push : Option Bytes → EventType
by_push none = unknown
by_push (some ref) =
    if starts (codes "refs/tags/") ref
    then tag_created
    else if starts (codes "refs/heads/") ref
    then push
    else unknown

-- Whether a pull request that was closed had been merged, if there is one.
abbrev by_merged : Option Bool → EventType
by_merged (some true) = pull_request_merged
by_merged _ = pull_request_closed

-- Of a pull request and of a push only what is read: whether it was merged, and its ref.
unfoldable pub generic_event_from_github : String → String → Option Bool → Option Bytes → EventType
generic_event_from_github event_type action merged ref =
    if str_eq event_type "ping"
    then ping
    else if str_eq event_type "push"
    then by_push ref
    else if str_eq event_type "pull_request"
    then (if str_eq action "opened" || str_eq action "reopened"
        then pull_request_opened
        else if str_eq action "synchronize"
        then pull_request_updated
        else if str_eq action "closed"
        then by_merged merged
        else unknown)
    else unknown
