-- ===== src/Collaboration/Store/Log.antt =====
-- The log of events: each event once, and summaries with stable numbers.
use git_mesh.Prelude.{
  ℕ, suc, ◌+◌, ◌≡◌, inl, inr, refl, sym, ap, ◌∙◌, Bool, false, not, ◌&&◌, ◌||◌, List, [], ◌∷◌, ◌++◌,
  append-nil, arith, Bytes, length, any, Bool-cases, if◌then◌else◌,
}
use git_mesh.Prelude.Order.{◌==◌, nat_ord, list_ord, ==_self, ==→eq}
use git_mesh.SortedMap.{contains, contains_key, contains_key-insert, get}
use git_mesh.Core.Cid.{Cid, cid_ord}
use git_mesh.Collaboration.Event.{
  CollaborationEvent, CollaborationEventKind, issue_opened, pull_request_opened,
}
use git_mesh.Collaboration.Store.{
  CollaborationEventStore, empty_store, insert_event, filter, events_for_repo, is_kind, map_from,
  issue_summary, issue_summaries, pull_request_summary, pull_request_summaries,
}

-- An event of the list has the identifier.
abbrev pub has_id : Cid → List CollaborationEvent → Bool
has_id id events = any (λ (e : CollaborationEvent). id == e.event_id) events

abbrev pub AreUnique : List CollaborationEvent → Type 0
AreUnique [] = Unit
AreUnique (e ∷ es) = (has_id e.event_id es ≡ false) × AreUnique es

pub record IsLog (s : CollaborationEventStore) : Type 0 where
  pub unique : AreUnique s.events
  pub indexed : (id : Cid) → contains id s.seen ≡ has_id id s.events

has_id-concat :
    (id : Cid) (es : List CollaborationEvent) (e : CollaborationEvent)
    → has_id id (es ++ e ∷ []) ≡ ((id == e.event_id) || has_id id es)
has_id-concat id [] e = ground arith
has_id-concat id (x ∷ es) e = ground (arith, has_id-concat id es e)

AreUnique-concat :
    (es : List CollaborationEvent) (e : CollaborationEvent)
    → AreUnique es
    → has_id e.event_id es ≡ false
    → AreUnique (es ++ e ∷ [])
AreUnique-concat [] e u h = (refl, tt)
AreUnique-concat (x ∷ es) e (fresh, u) h = (
  ground (arith, has_id-concat x.event_id es e, ==→eq x.event_id e.event_id, ==_self e.event_id),
  AreUnique-concat es e u (ground arith),
)

pub insert_event-IsLog :
    (e : CollaborationEvent) (s : CollaborationEventStore) → IsLog s → IsLog (insert_event e s).0
unfolding insert_event
insert_event-IsLog e s v = elim (Bool-cases (contains e.event_id s.seen)) [
  | inl old ↦ rw (old, insert_event) v
  | inr new ↦
      rw (new, insert_event)
        (record {
          unique = AreUnique-concat s.events e v.unique (sym (v.indexed e.event_id) ∙ new);
          indexed = λ id.
              contains_key-insert e.event_id id tt s.seen
              ∙ (ap (λ b. (id == e.event_id) || b) (v.indexed id)
                  ∙ sym (has_id-concat id s.events e));
        })
]

unfoldable pub insert_all :
    List CollaborationEvent → CollaborationEventStore → CollaborationEventStore
insert_all [] s = s
insert_all (e ∷ es) s = insert_all es (insert_event e s).0

insert_all-IsLog_from :
    (es : List CollaborationEvent) (s : CollaborationEventStore) → IsLog s → IsLog (insert_all es s)
unfolding insert_all
insert_all-IsLog_from [] s v = v
insert_all-IsLog_from (e ∷ es) s v =
    insert_all-IsLog_from es (insert_event e s).0 (insert_event-IsLog e s v)

pub empty_store-IsLog : IsLog empty_store
unfolding contains_key get
empty_store-IsLog = record { unique = tt; indexed = λ id. refl }

-- Whatever events arrive, in whatever order and how often, the log keeps each identifier once,
-- and its index of seen identifiers is that of the log.
pub insert_all-IsLog : (es : List CollaborationEvent) → IsLog (insert_all es empty_store)
insert_all-IsLog es = insert_all-IsLog_from es empty_store empty_store-IsLog

filter-concat {ℓ} :
    {A : Type ℓ} (p : A → Bool) (xs : List A) (x : A)
    → filter p (xs ++ x ∷ []) ≡ filter p xs ++ (if p x then x ∷ [] else [])
filter-concat p [] x = ground arith
filter-concat p (y ∷ xs) x = ground (arith, filter-concat p xs x)

map_from-concat {ℓ κ} :
    {A : Type ℓ} {B : Type κ} (f : ℕ → A → B) (n : ℕ) (xs : List A) (x : A)
    → map_from f n (xs ++ x ∷ []) ≡ map_from f n xs ++ f (n + length xs) x ∷ []
map_from-concat f n [] x = ap (λ k. f k x ∷ []) (omega arith)
map_from-concat f n (y ∷ xs) x =
    ap (λ l. f n y ∷ l)
      (map_from-concat f (n + 1) xs x ∙ ap (λ k. map_from f (n + 1) xs ++ f k x ∷ []) (omega arith))

length-map_from {ℓ κ} :
    {A : Type ℓ} {B : Type κ} (f : ℕ → A → B) (n : ℕ) (xs : List A)
    → length (map_from f n xs) ≡ length xs
length-map_from f n [] = refl
length-map_from f n (x ∷ xs) = ap suc (length-map_from f (n + 1) xs)

-- The events that a summary counts.
abbrev pub counted :
    CollaborationEventKind → Bytes → CollaborationEventStore → List CollaborationEvent
counted kind repo s = filter (is_kind kind) (events_for_repo repo s)

abbrev pub counts : CollaborationEventKind → Bytes → CollaborationEvent → Bool
counts kind repo e = (e.repo == repo) && is_kind kind e

counted-insert :
    (kind : CollaborationEventKind) (repo : Bytes) (e : CollaborationEvent)
    (s : CollaborationEventStore)
    → counted kind repo (insert_event e s).0
      ≡ counted kind repo s
        ++ (if not (contains e.event_id s.seen) && counts kind repo e then e ∷ [] else [])
unfolding insert_event events_for_repo
counted-insert kind repo e s = elim (Bool-cases (contains e.event_id s.seen)) [
  | inl old ↦ rw (old, insert_event) (sym (append-nil (counted kind repo s)))
  | inr new ↦
      rw (new, insert_event, filter-concat)
        (elim (Bool-cases (e.repo == repo)) [
          | inl here ↦ rw (here, filter-concat)
          | inr there ↦ rw (there, append-nil) (sym (append-nil (counted kind repo s)))
        ])
]

module _ {ℓ} {B : Type ℓ} (f : ℕ → CollaborationEvent → B) where
  summaries-insert :
      (kind : CollaborationEventKind) (repo : Bytes) (e : CollaborationEvent)
      (s : CollaborationEventStore)
      → map_from f 0 (counted kind repo (insert_event e s).0)
        ≡ map_from f 0 (counted kind repo s)
          ++ (if not (contains e.event_id s.seen) && counts kind repo e
              then f (length (counted kind repo s)) e ∷ []
              else [])
  summaries-insert kind repo e s =
      elim (Bool-cases (not (contains e.event_id s.seen) && counts kind repo e)) [
        | inl yes_it ↦
            rw (counted-insert kind repo e s, yes_it, map_from-concat f 0 (counted kind repo s) e)
              (ap (λ k. map_from f 0 (counted kind repo s) ++ f k e ∷ []) (omega arith))
        | inr no_it ↦
            rw (counted-insert kind repo e s, no_it, append-nil)
              (sym (append-nil (map_from f 0 (counted kind repo s))))
      ]

-- The numbers of issues are stable: an event adds one summary at the end, under the next number,
-- if it is new and opens an issue of the repository, and changes no summary otherwise.
pub issue_summaries-insert :
    (repo : Bytes) (e : CollaborationEvent) (s : CollaborationEventStore)
    → issue_summaries repo (insert_event e s).0
      ≡ issue_summaries repo s
        ++ (if not (contains e.event_id s.seen) && counts issue_opened repo e
            then issue_summary (length (issue_summaries repo s)) e ∷ []
            else [])
unfolding issue_summaries
issue_summaries-insert repo e s =
    summaries-insert issue_summary issue_opened repo e s
    ∙ ap
        (λ n.
          map_from issue_summary 0 (counted issue_opened repo s)
          ++ (if not (contains e.event_id s.seen) && counts issue_opened repo e
              then issue_summary n e ∷ []
              else []))
        (sym (length-map_from issue_summary 0 (counted issue_opened repo s)))

-- The numbers of pull requests are stable: an event adds one summary at the end, under the next
-- number, if it is new and opens a pull request of the repository, and changes no summary
-- otherwise.
pub pull_request_summaries-insert :
    (repo : Bytes) (e : CollaborationEvent) (s : CollaborationEventStore)
    → pull_request_summaries repo (insert_event e s).0
      ≡ pull_request_summaries repo s
        ++ (if not (contains e.event_id s.seen) && counts pull_request_opened repo e
            then pull_request_summary (length (pull_request_summaries repo s)) e ∷ []
            else [])
unfolding pull_request_summaries
pull_request_summaries-insert repo e s =
    summaries-insert pull_request_summary pull_request_opened repo e s
    ∙ ap
        (λ n.
          map_from pull_request_summary 0 (counted pull_request_opened repo s)
          ++ (if not (contains e.event_id s.seen) && counts pull_request_opened repo e
              then pull_request_summary n e ∷ []
              else []))
        (sym (length-map_from pull_request_summary 0 (counted pull_request_opened repo s)))
