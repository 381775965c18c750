-- ===== src/Collaboration/Tests.antt =====
-- The theorems on events at concrete events.
use git_mesh.Prelude.{
  ℕ, ◌≡◌, ◌↔◌, ◌⊎◌, refl, false, not, ◌&&◌, none, some, [], ◌∷◌, ◌++◌, arith, Bytes, codes, length,
  ok, if◌then◌else◌,
}
use git_mesh.Prelude.Order.{nat_ord, list_ord}
use git_mesh.SortedMap.{contains}
use git_mesh.Text.Spaces.{is_blank}
use git_mesh.Text.Words.{be_bytes}
use git_mesh.Core.Cid.{cid_ord, from_digest, protocol_object, blake3_256, Cid}
use git_mesh.Core.Tests.{sample_cid, sum_hash, repeat}
use git_mesh.Collaboration.Event.{
  CollaborationEvent, CollaborationEventKind, CollaborationPayload, issue_opened,
  pull_request_opened, issue, canonical_event_body, put_bytes, put_cid_vec, put_string_vec,
  put_strings, put_optional_string, digests, validate_payload,
}
use git_mesh.Collaboration.Event.Injective.{digest_list}
use git_mesh.Collaboration.Event.Body.{canonical_event_body-injective, validate_payload_iff}
use git_mesh.Collaboration.Snapshot.{to_snapshot, from_snapshot, load_store, load_line}
use git_mesh.Collaboration.Snapshot.Authentic.{IsAuthenticLog, from_snapshot-IsAuthenticLog}
use git_mesh.SnapshotText.{load_lines}
use git_mesh.Collaboration.Store.{
  CollaborationEventStore, empty_store, insert_event, issue_summaries, issue_summary,
  pull_request_summaries, pull_request_summary,
}
use git_mesh.Collaboration.Store.Log.{
  IsLog, insert_all, insert_all-IsLog, counts, issue_summaries-insert,
  pull_request_summaries-insert,
}

abbrev payload : CollaborationPayload
payload = issue (codes "title") (codes "text") (codes "web" ∷ [])

abbrev event : CollaborationEventKind → CollaborationEvent
event kind = record {
  event_id = sample_cid;
  repo = codes "a/b";
  kind = kind;
  actor = codes "mesh-dev";
  parents = [];
  timestamp_unix = 5;
  payload = payload;
}

insert_all-IsLog_example :
    IsLog (insert_all (event issue_opened ∷ event issue_opened ∷ []) empty_store)
insert_all-IsLog_example = insert_all-IsLog (event issue_opened ∷ event issue_opened ∷ [])

issue_summaries-insert_example :
    issue_summaries (codes "a/b") (insert_event (event issue_opened) empty_store).0
    ≡ issue_summaries (codes "a/b") empty_store
      ++ (if not (contains sample_cid empty_store.seen)
            && counts issue_opened (codes "a/b") (event issue_opened)
          then issue_summary
              (length (issue_summaries (codes "a/b") empty_store))
              (event issue_opened)
            ∷ []
          else [])
issue_summaries-insert_example =
    issue_summaries-insert (codes "a/b") (event issue_opened) empty_store

pull_request_summaries-insert_example :
    pull_request_summaries (codes "a/b") (insert_event (event pull_request_opened) empty_store).0
    ≡ pull_request_summaries (codes "a/b") empty_store
      ++ (if not (contains sample_cid empty_store.seen)
            && counts pull_request_opened (codes "a/b") (event pull_request_opened)
          then pull_request_summary
              (length (pull_request_summaries (codes "a/b") empty_store))
              (event pull_request_opened)
            ∷ []
          else [])
pull_request_summaries-insert_example =
    pull_request_summaries-insert (codes "a/b") (event pull_request_opened) empty_store

validate_payload_iff_example : (validate_payload payload ≡ ok tt) ↔ (
    (is_blank payload.title ≡ false)
    × (((payload.source_ref ≡ none) × (payload.target_ref ≡ none))
        ⊎ ((s : Bytes) × (t : Bytes) × (payload.source_ref ≡ some s)
            × (payload.target_ref ≡ some t))))
validate_payload_iff_example = validate_payload_iff payload

abbrev sized : ℕ → Bytes
sized n = 0 ∷ 0 ∷ 0 ∷ n ∷ []

abbrev body : Bytes
body =
    codes "gitmesh-collaboration-event-v0"
    ++ (sized 3
        ++ (codes "a/b"
            ++ (0 ∷ 1 ∷ []
                ++ (sized 12
                    ++ (codes "issue.opened"
                        ++ (sized 8
                            ++ (codes "mesh-dev"
                                ++ (0 ∷ 0 ∷ 0 ∷ 0 ∷ 0 ∷ 0 ∷ 0 ∷ 5 ∷ []
                                    ++ (sized 0
                                        ++ (sized 5
                                            ++ (codes "title"
                                                ++ (sized 4
                                                    ++ (codes "text"
                                                        ++ (sized 1
                                                            ++ (sized 3
                                                            ++ (codes "web"
                                                            ++ 0 ∷ 0 ∷ []))))))))))))))))

encoded : canonical_event_body (codes "a/b") issue_opened (codes "mesh-dev") [] 5 payload ≡ ok body
unfolding canonical_event_body put_bytes put_cid_vec put_string_vec put_strings put_optional_string
    digests be_bytes
encoded = refl

canonical_event_body-injective_example :
    (codes "a/b" ≡ codes "a/b")
    × (◌≡◌ {A = CollaborationEventKind} issue_opened issue_opened)
    × (codes "mesh-dev" ≡ codes "mesh-dev")
    × (digest_list [] ≡ digest_list [])
    × (◌≡◌ {A = ℕ} 5 5)
    × (payload ≡ payload)
canonical_event_body-injective_example =
    canonical_event_body-injective (codes "a/b") issue_opened (codes "mesh-dev") [] 5 payload
      (codes "a/b") issue_opened (codes "mesh-dev") [] 5 payload body tt tt (omega arith)
      (omega arith) encoded encoded

-- The event that `new` makes, with the identifier that it gives it.
abbrev authored : CollaborationEvent
authored = record {
  event_id = from_digest protocol_object blake3_256 (repeat 32 82);
  repo = codes "a/b";
  kind = issue_opened;
  actor = codes "mesh-dev";
  parents = [];
  timestamp_unix = 5;
  payload = payload;
}

abbrev saved : Bytes
saved = to_snapshot (record { events = authored ∷ []; seen = [] })

abbrev loaded_store : CollaborationEventStore
loaded_store = record { events = authored ∷ []; seen = (authored.event_id, tt) ∷ [] }

loaded : from_snapshot sum_hash saved ≡ ok loaded_store
unfolding from_snapshot load_store load_lines load_line to_snapshot git_mesh.Text.Split.lines
    git_mesh.SnapshotText.line git_mesh.Text.Split.join git_mesh.Collaboration.Snapshot.event_lines
    git_mesh.Collaboration.Snapshot.event_fields git_mesh.Core.Cid.to_text
    git_mesh.Text.Decimal.decimal git_mesh.Core.Hex.hex git_mesh.Core.Hex.nibble_digit
    git_mesh.Collaboration.Snapshot.encode_text git_mesh.Collaboration.Snapshot.encode_parents
    git_mesh.Collaboration.Snapshot.encode_text_list
    git_mesh.Collaboration.Snapshot.encode_optional_text is_blank git_mesh.Text.Spaces.is_space1
    git_mesh.Text.Spaces.is_space2 git_mesh.Text.Spaces.is_space3 canonical_event_body digests
    git_mesh.Collaboration.Event.is_identifier_byte git_mesh.Collaboration.Event.new_event
    git_mesh.Collaboration.Event.parse_label put_bytes put_cid_vec put_optional_string
    put_string_vec put_strings git_mesh.Collaboration.Event.validate_actor_or_repo validate_payload
    git_mesh.Collaboration.Snapshot.admit git_mesh.Collaboration.Snapshot.decode_each
    git_mesh.Collaboration.Snapshot.decode_optional_text
    git_mesh.Collaboration.Snapshot.decode_parents git_mesh.Collaboration.Snapshot.decode_text
    git_mesh.Collaboration.Snapshot.decode_text_list
    git_mesh.Collaboration.Snapshot.parse_protocol_cid_digest insert_event git_mesh.Core.Cid.as_hex
    git_mesh.Core.Cid.cid_transcript git_mesh.Core.Cid.from_text git_mesh.Core.Cid.new
    git_mesh.Core.Cid.parse_algorithm_label git_mesh.Core.Cid.parse_kind_label
    git_mesh.Core.Cid.parse_parts git_mesh.Core.Cid.parse_version
    git_mesh.Core.Envelope.canonical_bytes git_mesh.Core.Envelope.envelope_cid
    git_mesh.Core.Envelope.is_domain_byte git_mesh.Core.Envelope.new
    git_mesh.Core.Envelope.put_bytes git_mesh.Core.Envelope.put_string
    git_mesh.Core.Envelope.validate_domain git_mesh.Core.Hex.decode_chunks
    git_mesh.Core.Hex.decode_fixed_hex git_mesh.Core.Hex.decode_hex git_mesh.Core.Hex.decode_pair
    git_mesh.Core.Hex.hex_nibble git_mesh.SortedMap.contains_key git_mesh.SortedMap.get
    git_mesh.SortedMap.insert git_mesh.Text.Decimal.digits git_mesh.Text.Decimal.parse
    git_mesh.Text.Decimal.scan git_mesh.Text.Search.is_ascii_alphanumeric
    git_mesh.Text.Search.starts_with git_mesh.Text.Search.strip_prefix git_mesh.Text.Split.split
    git_mesh.Text.Split.strip_cr git_mesh.Text.Split.terminated git_mesh.Text.Utf8.is_utf8
    git_mesh.Text.Utf8.second_of_four git_mesh.Text.Utf8.second_of_three be_bytes
loaded = refl

from_snapshot-IsAuthenticLog_example : IsAuthenticLog sum_hash loaded_store
from_snapshot-IsAuthenticLog_example =
    from_snapshot-IsAuthenticLog sum_hash saved loaded_store loaded
