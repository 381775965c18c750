-- ===== src/Collaboration/Snapshot/Authentic.antt =====
-- What a snapshot that loads holds.
use git_mesh.Prelude.{
  ℕ, ◌≡◌, List, [], ◌∷◌, arith, Bytes, All, All-append, ok, subst, >>=-eq-ok, ok_or, fail_if, not,
  codes, Bool-cases, inl, inr,
}
use git_mesh.Prelude.Order.{◌==◌, nat_ord, list_ord}
use git_mesh.SortedMap.{contains}
use git_mesh.Text.Split.{lines}
use git_mesh.Text.Decimal.{parse_u64}
use git_mesh.SnapshotText.Loading.{load_lines_induction}
use git_mesh.Core.Hash.{Blake3}
use git_mesh.Core.Cid.{Cid, cid_ord}
use git_mesh.Collaboration.Event.{
  CollaborationEvent, CollaborationEventKind, CollaborationPayload, new_event, parse_label,
  invalid_snapshot,
}
use git_mesh.Collaboration.Store.{CollaborationEventStore, empty_store, insert_event}
use git_mesh.Collaboration.Store.Log.{IsLog, insert_event-IsLog, empty_store-IsLog}
use git_mesh.Collaboration.Snapshot.{
  admit, load_line, load_store, from_snapshot, store_header, decode_text, decode_parents,
  decode_text_list, decode_optional_text, parse_protocol_cid_digest,
}

module _ (h : Blake3) where
  -- The event is the one that `new` makes of its fields: its checks pass, and its identifier is
  -- the hash of its body.
  abbrev pub IsAuthentic : CollaborationEvent → Type 0
  IsAuthentic e = new_event h e.repo e.kind e.actor e.parents e.timestamp_unix e.payload ≡ ok e

  new_event-fields :
      (repo : Bytes) (kind : CollaborationEventKind) (actor : Bytes) (parents : List Cid)
      (timestamp : ℕ) (payload : CollaborationPayload) (e : CollaborationEvent)
      → new_event h repo kind actor parents timestamp payload ≡ ok e
      → (repo ≡ e.repo)
        × (kind ≡ e.kind)
        × (actor ≡ e.actor)
        × (parents ≡ e.parents)
        × (timestamp ≡ e.timestamp_unix)
        × (payload ≡ e.payload)
  unfolding new_event
  new_event-fields repo kind actor parents timestamp payload e made = ground arith

  new_event-IsAuthentic :
      (repo : Bytes) (kind : CollaborationEventKind) (actor : Bytes) (parents : List Cid)
      (timestamp : ℕ) (payload : CollaborationPayload) (e : CollaborationEvent)
      → new_event h repo kind actor parents timestamp payload ≡ ok e
      → IsAuthentic e
  new_event-IsAuthentic repo kind actor parents timestamp payload e made =
      let (a, b, c, d, f, g) = new_event-fields repo kind actor parents timestamp payload e made in
      simp (← a, ← b, ← c, ← d, ← f, ← g) made

  pub record IsAuthenticLog (s : CollaborationEventStore) : Type 0 where
    pub log : IsLog s
    pub authentic : All IsAuthentic s.events

  admit-eq-ok :
      (s : CollaborationEventStore) (id : Cid) (e : CollaborationEvent)
      (t : CollaborationEventStore)
      → admit s id e ≡ ok t
      → (insert_event e s).0 ≡ t
  unfolding admit
  admit-eq-ok s id e t admitted = ground arith

  insert_event-IsAuthentic :
      (e : CollaborationEvent) (s : CollaborationEventStore)
      → IsAuthentic e
      → All IsAuthentic s.events
      → All IsAuthentic (insert_event e s).0.events
  unfolding insert_event
  insert_event-IsAuthentic e s a v = elim (Bool-cases (contains e.event_id s.seen)) [
    | inl old ↦ rw (old, insert_event) v
    | inr new ↦ rw (new, insert_event) (All-append IsAuthentic s.events (e ∷ []) v (a, tt))
  ]

  admit-IsAuthenticLog :
      (s : CollaborationEventStore) (id : Cid) (e : CollaborationEvent)
      (t : CollaborationEventStore)
      → IsAuthenticLog s
      → IsAuthentic e
      → admit s id e ≡ ok t
      → IsAuthenticLog t
  admit-IsAuthenticLog s id e t v a admitted =
      subst IsAuthenticLog (admit-eq-ok s id e t admitted) (record {
        log = insert_event-IsLog e s v.log;
        authentic = insert_event-IsAuthentic e s a v.authentic;
      })

  load_line-IsAuthenticLog :
      (s t : CollaborationEventStore) (ps : List Bytes)
      → IsAuthenticLog s
      → load_line h s ps ≡ ok t
      → IsAuthenticLog t
  unfolding load_line
  load_line-IsAuthenticLog s t
        (tag ∷ id ∷ repo ∷ kind ∷ actor ∷ parents ∷ timestamp ∷ title ∷ body ∷ labels ∷ source
          ∷ target ∷ [])
        v e0 =
      let (_, _, e1) = >>=-eq-ok (fail_if (not (tag == codes "event")) invalid_snapshot) _ e0 in
      let (id', _, e2) = >>=-eq-ok (parse_protocol_cid_digest id) _ e1 in
      let (repo', _, e3) = >>=-eq-ok (decode_text repo) _ e2 in
      let (kind', _, e4) = >>=-eq-ok (parse_label kind) _ e3 in
      let (actor', _, e5) = >>=-eq-ok (decode_text actor) _ e4 in
      let (parents', _, e6) = >>=-eq-ok (decode_parents parents) _ e5 in
      let (timestamp', _, e7) = >>=-eq-ok (ok_or (parse_u64 timestamp) invalid_snapshot) _ e6 in
      let (title', _, e8) = >>=-eq-ok (decode_text title) _ e7 in
      let (body', _, e9) = >>=-eq-ok (decode_text body) _ e8 in
      let (labels', _, e10) = >>=-eq-ok (decode_text_list labels) _ e9 in
      let (source', _, e11) = >>=-eq-ok (decode_optional_text source) _ e10 in
      let (target', _, e12) = >>=-eq-ok (decode_optional_text target) _ e11 in
      let (event, made, admitted) =
        >>=-eq-ok
          (new_event h repo' kind' actor' parents' timestamp' (record {
            title = title';
            body = body';
            labels = labels';
            source_ref = source';
            target_ref = target';
          }))
          _ e12 in
      admit-IsAuthenticLog s id' event t v
        (new_event-IsAuthentic repo' kind' actor' parents' timestamp' _ event made) admitted
  load_line-IsAuthenticLog s t _ v e0 = cc

  empty_store-IsAuthenticLog : IsAuthenticLog empty_store
  empty_store-IsAuthenticLog = record { log = empty_store-IsLog; authentic = tt }

  load_store-IsAuthenticLog :
      (ls : List Bytes) (s : CollaborationEventStore) → load_store h ls ≡ ok s → IsAuthenticLog s
  unfolding load_store
  load_store-IsAuthenticLog [] s e = cc
  load_store-IsAuthenticLog (l ∷ ls) s e = elim (Bool-cases (l == store_header)) [
    | inl t ↦
        load_lines_induction (load_line h) IsAuthenticLog
          (λ s t ps v e. load_line-IsAuthenticLog s t ps v e) empty_store s ls
          empty_store-IsAuthenticLog (ground arith)
    | inr f ↦ ground arith
  ]

  -- A collaboration snapshot that loads holds each identifier once, with the index of its
  -- identifiers, and every event in it is the one that `new` makes of its fields: its checks
  -- pass, and its identifier is the hash of its body.
  pub from_snapshot-IsAuthenticLog :
      (text : Bytes) (s : CollaborationEventStore) → from_snapshot h text ≡ ok s → IsAuthenticLog s
  unfolding from_snapshot
  from_snapshot-IsAuthenticLog text s e = load_store-IsAuthenticLog (lines text) s e
