-- ===== src/Collaboration/Store.antt =====
-- `CollaborationEventStore` and its summaries, of crates/gitmesh-collaboration/src/lib.rs.
pub mod Log
use git_mesh.Prelude.{
  ℕ, suc, ◌+◌, ◌≡◌, Bool, true, false, Option, none, some, List, [], ◌∷◌, ◌++◌, Bytes, length, eqb,
  if◌then◌else◌,
}
use git_mesh.Prelude.Order.{◌==◌, nat_ord, list_ord}
use git_mesh.SortedMap.{SortedSet, contains, insert}
use git_mesh.Core.Cid.{Cid, cid_ord}
use git_mesh.Collaboration.Event.{
  CollaborationEvent, CollaborationEventKind, code, issue_opened, pull_request_opened,
}

pub record CollaborationEventStore : Type 0 where
  pub events : List CollaborationEvent
  pub seen : SortedSet Cid

abbrev pub empty_store : CollaborationEventStore
empty_store = record { events = []; seen = [] }

-- The flag says whether the event is new.
unfoldable pub insert_event :
    CollaborationEvent → CollaborationEventStore → CollaborationEventStore × Bool
insert_event event s =
    if contains event.event_id s.seen
    then (s, false)
    else (record { events = s.events ++ event ∷ []; seen = insert event.event_id tt s.seen }, true)

unfoldable pub event_count : CollaborationEventStore → ℕ
event_count s = length s.events

abbrev pub filter {ℓ} : {A : Type ℓ} → (A → Bool) → List A → List A
filter p [] = []
filter p (x ∷ xs) = let rest = filter p xs in if p x then x ∷ rest else rest

unfoldable pub events_for_repo : Bytes → CollaborationEventStore → List CollaborationEvent
events_for_repo repo s = filter (λ (e : CollaborationEvent). e.repo == repo) s.events

abbrev pub is_kind : CollaborationEventKind → CollaborationEvent → Bool
is_kind kind event = eqb (code event.kind) (code kind)

pub record IssueSummary : Type 0 where
  pub number : ℕ
  pub title : Bytes
  pub actor : Bytes
  pub labels : List Bytes
  pub event_id : Cid

pub record PullRequestSummary : Type 0 where
  pub number : ℕ
  pub title : Bytes
  pub actor : Bytes
  pub source_ref : Bytes
  pub target_ref : Bytes
  pub labels : List Bytes
  pub event_id : Cid

-- `enumerate`, from the index `n`.
abbrev pub map_from {ℓ κ} : {A : Type ℓ} {B : Type κ} → (ℕ → A → B) → ℕ → List A → List B
map_from f n [] = []
map_from f n (x ∷ xs) = f n x ∷ map_from f (n + 1) xs

abbrev pub or_empty : Option Bytes → Bytes
or_empty none = []
or_empty (some text) = text

unfoldable pub issue_summary : ℕ → CollaborationEvent → IssueSummary
issue_summary index event = record {
  number = index + 1;
  title = event.payload.title;
  actor = event.actor;
  labels = event.payload.labels;
  event_id = event.event_id;
}

unfoldable pub issue_summaries : Bytes → CollaborationEventStore → List IssueSummary
unfolding issue_summary
issue_summaries repo s =
    map_from issue_summary 0 (filter (is_kind issue_opened) (events_for_repo repo s))

unfoldable pub pull_request_summary : ℕ → CollaborationEvent → PullRequestSummary
pull_request_summary index event = record {
  number = index + 1;
  title = event.payload.title;
  actor = event.actor;
  source_ref = or_empty event.payload.source_ref;
  target_ref = or_empty event.payload.target_ref;
  labels = event.payload.labels;
  event_id = event.event_id;
}

unfoldable pub pull_request_summaries : Bytes → CollaborationEventStore → List PullRequestSummary
unfolding pull_request_summary
pull_request_summaries repo s =
    map_from pull_request_summary 0 (filter (is_kind pull_request_opened) (events_for_repo repo s))
