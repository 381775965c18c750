-- ===== src/Collaboration/Snapshot.antt =====
-- `CollaborationEventStore::to_snapshot` and `from_snapshot`, and the encodings of their fields,
-- of crates/gitmesh-collaboration/src/lib.rs.
pub mod Authentic
use git_mesh.Prelude.{
  not, ◌||◌, Option, none, some, List, [], ◌∷◌, ◌++◌, map, Bytes, codes, is_empty, eqb, Result, ok,
  err, ok_or, fail_if, map_err, if◌then◌else◌, ◌>>=◌, ◌>>◌,
}
use git_mesh.Prelude.Order.{◌==◌, nat_ord, list_ord}
use git_mesh.Text.Search.{starts_with}
use git_mesh.Text.Split.{split, join, lines}
use git_mesh.Text.Decimal.{decimal, parse_u64}
use git_mesh.Text.Utf8.{is_utf8}
use git_mesh.SnapshotText.{line, load_lines}
use git_mesh.Core.Hash.{Blake3}
use git_mesh.Core.Hex.{hex, decode_hex, decode_fixed_hex}
use git_mesh.Core.Cid.{
  Cid, protocol_object, blake3_256, kind_code, algorithm_code, to_text, from_text, from_digest,
  cid_ord,
}
use git_mesh.Collaboration.Event.{
  CollaborationEvent, CollaborationError, invalid_snapshot, label, parse_label, new_event,
}
use git_mesh.Collaboration.Store.{CollaborationEventStore, empty_store, insert_event}

abbrev pub store_header : Bytes
store_header = codes "gitmesh-collaboration-store-v0"

unfoldable pub encode_text : Bytes → Bytes
encode_text value = hex value

-- The crate has its own copy of `decode_hex`, equal to that of gitmesh-core but for the error.
unfoldable pub decode_text : Bytes → Result CollaborationError Bytes
decode_text value = do
  bytes ← map_err (decode_hex value) (λ _. invalid_snapshot)
  if is_utf8 bytes then ok bytes else err invalid_snapshot

unfoldable pub encode_optional_text : Option Bytes → Bytes
encode_optional_text none = codes "-"
encode_optional_text (some value) = encode_text value

unfoldable pub decode_optional_text : Bytes → Result CollaborationError (Option Bytes)
decode_optional_text value =
    if value == codes "-" then ok none else do text ← decode_text value; ok (some text)

unfoldable pub encode_text_list : List Bytes → Bytes
encode_text_list values = if is_empty values then codes "-" else join b',' (map encode_text values)

-- `collect` of results: the first error wins.
unfoldable pub decode_each {ℓ} :
    {A : Type ℓ}
    → (Bytes → Result CollaborationError A)
    → List Bytes
    → Result CollaborationError (List A)
decode_each decode [] = ok []
decode_each decode (part ∷ parts) = do
  value ← decode part
  values ← decode_each decode parts
  ok (value ∷ values)

unfoldable pub decode_text_list : Bytes → Result CollaborationError (List Bytes)
decode_text_list value =
    if value == codes "-" then ok [] else decode_each decode_text (split b',' value)

unfoldable pub encode_parents : List Cid → Bytes
encode_parents parents = if is_empty parents then codes "-" else join b',' (map to_text parents)

unfoldable pub parse_protocol_cid_digest : Bytes → Result CollaborationError Cid
parse_protocol_cid_digest value =
    if starts_with (codes "gitmesh:") value
    then (do
      cid ← map_err (from_text value) (λ _. invalid_snapshot)
      fail_if
          (not (eqb (kind_code cid.kind) (kind_code protocol_object))
            || not (eqb (algorithm_code cid.hash_algorithm) (algorithm_code blake3_256)))
          invalid_snapshot
      ok cid)
    else (do
      digest ← map_err (decode_fixed_hex 32 value) (λ _. invalid_snapshot)
      ok (from_digest protocol_object blake3_256 digest))

unfoldable pub decode_parents : Bytes → Result CollaborationError (List Cid)
decode_parents value =
    if value == codes "-" then ok [] else decode_each parse_protocol_cid_digest (split b',' value)

unfoldable pub event_fields : CollaborationEvent → List Bytes
event_fields e =
    codes "event"
    ∷ to_text e.event_id
    ∷ encode_text e.repo
    ∷ label e.kind
    ∷ encode_text e.actor
    ∷ encode_parents e.parents
    ∷ decimal e.timestamp_unix
    ∷ encode_text e.payload.title
    ∷ encode_text e.payload.body
    ∷ encode_text_list e.payload.labels
    ∷ encode_optional_text e.payload.source_ref
    ∷ encode_optional_text e.payload.target_ref
    ∷ []

unfoldable pub event_lines : List CollaborationEvent → Bytes
event_lines [] = []
event_lines (e ∷ es) = line (event_fields e) ++ event_lines es

unfoldable pub to_snapshot : CollaborationEventStore → Bytes
to_snapshot s = line (store_header ∷ []) ++ event_lines s.events

-- An event is kept if its stored identifier is the one of its fields and it is new.
unfoldable pub admit :
    CollaborationEventStore
    → Cid
    → CollaborationEvent
    → Result CollaborationError CollaborationEventStore
admit s stored_event_id event = do
  fail_if (not (event.event_id == stored_event_id) || not (insert_event event s).1) invalid_snapshot
  ok (insert_event event s).0

module _ (h : Blake3) where
  unfoldable pub load_line :
      CollaborationEventStore → List Bytes → Result CollaborationError CollaborationEventStore
  load_line s
        (tag ∷ id ∷ repo ∷ kind ∷ actor ∷ parents ∷ timestamp ∷ title ∷ body ∷ labels ∷ source
          ∷ target ∷ []) =
      do
        fail_if (not (tag == codes "event")) invalid_snapshot
        stored_event_id ← parse_protocol_cid_digest id
        repo' ← decode_text repo
        kind' ← parse_label kind
        actor' ← decode_text actor
        parents' ← decode_parents parents
        timestamp' ← ok_or (parse_u64 timestamp) invalid_snapshot
        title' ← decode_text title
        body' ← decode_text body
        labels' ← decode_text_list labels
        source' ← decode_optional_text source
        target' ← decode_optional_text target
        event ← new_event h repo' kind' actor' parents' timestamp' (record {
          title = title';
          body = body';
          labels = labels';
          source_ref = source';
          target_ref = target';
        })
        admit s stored_event_id event
  load_line s _ = err invalid_snapshot

  unfoldable pub load_store : List Bytes → Result CollaborationError CollaborationEventStore
  load_store [] = err invalid_snapshot
  load_store (header ∷ rest) =
      if header == store_header then load_lines load_line empty_store rest else err invalid_snapshot

  unfoldable pub from_snapshot : Bytes → Result CollaborationError CollaborationEventStore
  from_snapshot text = load_store (lines text)
