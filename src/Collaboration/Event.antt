-- ===== src/Collaboration/Event.antt =====
-- `CollaborationEvent`, its payload, its canonical body and its checks, of
-- crates/gitmesh-collaboration/src/lib.rs. `put_bytes` panics on a field of 2 ^ 32 bytes or more,
-- and so does `put_transcript_field`: the outcome `panicked`.
pub mod Identity
pub mod Injective
pub mod Body
use git_mesh.Prelude.{
  ℕ, ◌≡◌, Bool, true, false, not, ◌||◌, Option, none, some, List, [], ◌∷◌, ◌++◌, Bytes, codes,
  length, every, is_empty, ltb, leb, eqb, Result, ok, err, fail_if, map_err, if◌then◌else◌, ◌>>=◌,
  ◌>>◌,
}
use git_mesh.Prelude.Order.{◌==◌, nat_ord, list_ord}
use git_mesh.Text.Search.{is_ascii_alphanumeric}
use git_mesh.Text.Spaces.{is_blank}
use git_mesh.Text.Decimal.{max_u32}
use git_mesh.Text.Words.{be_bytes}
use git_mesh.Core.Hash.{Blake3}
use git_mesh.Core.Hex.{CoreError, field_too_large}
use git_mesh.Core.Cid.{Cid}
use git_mesh.Core.Envelope
use git_mesh.Core.Envelope.{envelope_cid}
use git_mesh.Identity.Certificate.{IdentityError}

pub data CollaborationEventKind : Type 0 where
  issue_opened issue_closed pull_request_opened : CollaborationEventKind
  pull_request_merged comment_added review_submitted : CollaborationEventKind

abbrev pub code : CollaborationEventKind → ℕ
code issue_opened = 1
code issue_closed = 2
code pull_request_opened = 3
code pull_request_merged = 4
code comment_added = 5
code review_submitted = 6

abbrev pub label : CollaborationEventKind → Bytes
label issue_opened = codes "issue.opened"
label issue_closed = codes "issue.closed"
label pull_request_opened = codes "pull_request.opened"
label pull_request_merged = codes "pull_request.merged"
label comment_added = codes "comment.added"
label review_submitted = codes "review.submitted"

-- `panicked` stands for an `expect` that fails.
pub data CollaborationError : Type 0 where
  invalid_actor_or_repo empty_title missing_pull_request_refs : CollaborationError
  invalid_snapshot signer_mismatch panicked : CollaborationError
  io : Bytes → CollaborationError
  core : CoreError → CollaborationError
  identity : IdentityError → CollaborationError

unfoldable pub parse_label : Bytes → Result CollaborationError CollaborationEventKind
parse_label value =
    if value == codes "issue.opened"
    then ok issue_opened
    else if value == codes "issue.closed"
    then ok issue_closed
    else if value == codes "pull_request.opened"
    then ok pull_request_opened
    else if value == codes "pull_request.merged"
    then ok pull_request_merged
    else if value == codes "comment.added"
    then ok comment_added
    else if value == codes "review.submitted"
    then ok review_submitted
    else err invalid_snapshot

pub record CollaborationPayload : Type 0 where
  pub title : Bytes
  pub body : Bytes
  pub labels : List Bytes
  pub source_ref : Option Bytes
  pub target_ref : Option Bytes

abbrev pub issue : Bytes → Bytes → List Bytes → CollaborationPayload
issue title body labels = record {
  title = title;
  body = body;
  labels = labels;
  source_ref = none;
  target_ref = none;
}

abbrev pub pull_request : Bytes → Bytes → List Bytes → Bytes → Bytes → CollaborationPayload
pull_request title body labels source_ref target_ref = record {
  title = title;
  body = body;
  labels = labels;
  source_ref = some source_ref;
  target_ref = some target_ref;
}

pub record CollaborationEvent : Type 0 where
  pub event_id : Cid
  pub repo : Bytes
  pub kind : CollaborationEventKind
  pub actor : Bytes
  pub parents : List Cid
  pub timestamp_unix : ℕ
  pub payload : CollaborationPayload

-- What `put_bytes` and `put_string` append.
unfoldable pub put_bytes : Bytes → Result CollaborationError Bytes
put_bytes value =
    if leb (length value) max_u32 then ok (be_bytes 4 (length value) ++ value) else err panicked

unfoldable pub put_optional_string : Option Bytes → Result CollaborationError Bytes
put_optional_string none = ok (0 ∷ [])
put_optional_string (some value) = do out ← put_bytes value; ok (1 ∷ out)

unfoldable pub put_strings : List Bytes → Result CollaborationError Bytes
put_strings [] = ok []
put_strings (value ∷ values) = do out ← put_bytes value; rest ← put_strings values; ok (out ++ rest)

unfoldable pub put_string_vec : List Bytes → Result CollaborationError Bytes
put_string_vec values =
    if leb (length values) max_u32
    then (do rest ← put_strings values; ok (be_bytes 4 (length values) ++ rest))
    else err (core field_too_large)

unfoldable pub digests : List Cid → Bytes
digests [] = []
digests (cid ∷ cids) = cid.digest ++ digests cids

unfoldable pub put_cid_vec : List Cid → Result CollaborationError Bytes
put_cid_vec cids =
    if leb (length cids) max_u32
    then ok (be_bytes 4 (length cids) ++ digests cids)
    else err (core field_too_large)

unfoldable pub canonical_event_body :
    Bytes
    → CollaborationEventKind
    → Bytes
    → List Cid
    → ℕ
    → CollaborationPayload
    → Result CollaborationError Bytes
canonical_event_body repo kind actor parents timestamp payload = do
  repo' ← put_bytes repo
  label' ← put_bytes (label kind)
  actor' ← put_bytes actor
  parents' ← put_cid_vec parents
  title' ← put_bytes payload.title
  body' ← put_bytes payload.body
  labels' ← put_string_vec payload.labels
  source' ← put_optional_string payload.source_ref
  target' ← put_optional_string payload.target_ref
  ok (
      codes "gitmesh-collaboration-event-v0"
      ++ (repo'
          ++ (be_bytes 2 (code kind)
              ++ (label'
                  ++ (actor'
                      ++ (be_bytes 8 timestamp
                          ++ (parents'
                              ++ (title' ++ (body' ++ (labels' ++ (source' ++ target')))))))))))

unfoldable pub is_identifier_byte : ℕ → Bool
is_identifier_byte byte =
    is_ascii_alphanumeric byte || eqb byte b'-' || eqb byte b'_' || eqb byte b'.' || eqb byte b'/'

unfoldable pub validate_actor_or_repo : Bytes → Result CollaborationError (Unit {0})
validate_actor_or_repo value = do
  fail_if (is_empty value || ltb 160 (length value) || not (every is_identifier_byte value))
      invalid_actor_or_repo
  ok tt

abbrev pub is_some {ℓ} : {A : Type ℓ} → Option A → Bool
is_some none = false
is_some (some a) = true

abbrev pub differ : Bool → Bool → Bool
differ true b = not b
differ false b = b

unfoldable pub validate_payload : CollaborationPayload → Result CollaborationError (Unit {0})
validate_payload payload = do
  fail_if (is_blank payload.title) empty_title
  fail_if (differ (is_some payload.source_ref) (is_some payload.target_ref))
      missing_pull_request_refs
  ok tt

-- `CollaborationEvent::new`.
unfoldable pub new_event :
    Blake3
    → Bytes
    → CollaborationEventKind
    → Bytes
    → List Cid
    → ℕ
    → CollaborationPayload
    → Result CollaborationError CollaborationEvent
new_event h repo kind actor parents timestamp payload = do
  validate_actor_or_repo repo
  validate_actor_or_repo actor
  validate_payload payload
  body ← canonical_event_body repo kind actor parents timestamp payload
  envelope ← map_err (Envelope.new (codes "gitmesh.collaboration-event") body) core
  event_id ← map_err (envelope_cid h envelope) core
  ok (record {
    event_id = event_id;
    repo = repo;
    kind = kind;
    actor = actor;
    parents = parents;
    timestamp_unix = timestamp;
    payload = payload;
  })
