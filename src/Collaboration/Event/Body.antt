-- ===== src/Collaboration/Event/Body.antt =====
-- The canonical body of an event, and what its checks let through.
use git_mesh.Prelude.{
  ℕ, ◌^◌, ◌<◌, ◌≡◌, ◌↔◌, ◌⊎◌, sym, ◌∙◌, none, some, false, List, [], ◌++◌, append-nil, arith, Bytes,
  codes, All, append_cancel_left, ok, ok-injective, >>=-eq-ok,
}
use git_mesh.Text.Words.{be_bytes}
use git_mesh.Text.Spaces.{is_blank}
use git_mesh.Core.Cid.{Cid, IsCid}
use git_mesh.Core.Envelope.Injective.{be_bytes_cancel}
use git_mesh.Collaboration.Event.{
  CollaborationEventKind, CollaborationPayload, code, label, put_bytes, put_optional_string,
  put_string_vec, put_cid_vec, canonical_event_body, validate_payload,
}
use git_mesh.Collaboration.Event.Injective.{
  digest_list, put_bytes_cancel, put_optional_cancel, put_string_vec_cancel, put_cid_vec_cancel,
}

-- The encoded fields of a body.
record Parts (repo : Bytes) (kind : CollaborationEventKind) (actor : Bytes) (parents : List Cid)
    (timestamp : ℕ) (payload : CollaborationPayload) (body : Bytes) : Type 0 where
  repo' : Bytes
  label' : Bytes
  actor' : Bytes
  parents' : Bytes
  title' : Bytes
  body' : Bytes
  labels' : Bytes
  source' : Bytes
  target' : Bytes
  at_repo : put_bytes repo ≡ ok repo'
  at_label : put_bytes (label kind) ≡ ok label'
  at_actor : put_bytes actor ≡ ok actor'
  at_parents : put_cid_vec parents ≡ ok parents'
  at_title : put_bytes payload.title ≡ ok title'
  at_body : put_bytes payload.body ≡ ok body'
  at_labels : put_string_vec payload.labels ≡ ok labels'
  at_source : put_optional_string payload.source_ref ≡ ok source'
  at_target : put_optional_string payload.target_ref ≡ ok target'
  whole :
      body
      ≡ codes "gitmesh-collaboration-event-v0"
        ++ (repo'
            ++ (be_bytes 2 (code kind)
                ++ (label'
                    ++ (actor'
                        ++ (be_bytes 8 timestamp
                            ++ (parents'
                                ++ (title'
                                    ++ (body' ++ (labels' ++ (source' ++ (target' ++ [])))))))))))

code-injective : (k l : CollaborationEventKind) → code k ≡ code l → k ≡ l
code-injective k l e = ground arith

code-lt : (k : CollaborationEventKind) → code k < 256 ^ 2
code-lt k = ground arith

canonical_event_body-eq-ok :
    (repo : Bytes) (kind : CollaborationEventKind) (actor : Bytes) (parents : List Cid)
    (timestamp : ℕ) (payload : CollaborationPayload) (body : Bytes)
    → canonical_event_body repo kind actor parents timestamp payload ≡ ok body
    → Parts repo kind actor parents timestamp payload body
unfolding canonical_event_body
canonical_event_body-eq-ok repo kind actor parents timestamp payload body h =
    let (repo', at_repo, h1) = >>=-eq-ok (put_bytes repo) _ h in
    let (label', at_label, h2) = >>=-eq-ok (put_bytes (label kind)) _ h1 in
    let (actor', at_actor, h3) = >>=-eq-ok (put_bytes actor) _ h2 in
    let (parents', at_parents, h4) = >>=-eq-ok (put_cid_vec parents) _ h3 in
    let (title', at_title, h5) = >>=-eq-ok (put_bytes payload.title) _ h4 in
    let (body', at_body, h6) = >>=-eq-ok (put_bytes payload.body) _ h5 in
    let (labels', at_labels, h7) = >>=-eq-ok (put_string_vec payload.labels) _ h6 in
    let (source', at_source, h8) = >>=-eq-ok (put_optional_string payload.source_ref) _ h7 in
    let (target', at_target, h9) = >>=-eq-ok (put_optional_string payload.target_ref) _ h8 in
    record {
      repo' = repo';
      label' = label';
      actor' = actor';
      parents' = parents';
      title' = title';
      body' = body';
      labels' = labels';
      source' = source';
      target' = target';
      at_repo = at_repo;
      at_label = at_label;
      at_actor = at_actor;
      at_parents = at_parents;
      at_title = at_title;
      at_body = at_body;
      at_labels = at_labels;
      at_source = at_source;
      at_target = at_target;
      whole = rw append-nil (sym (ok-injective h9));
    }

-- Two events with 64-bit times and well-formed parents that have one body have the same
-- repository, kind, actor, time and payload, and parents with the same digests.
pub canonical_event_body-injective :
    (repo : Bytes) (kind : CollaborationEventKind) (actor : Bytes) (parents : List Cid)
    (timestamp : ℕ) (payload : CollaborationPayload) (repo2 : Bytes)
    (kind2 : CollaborationEventKind) (actor2 : Bytes) (parents2 : List Cid) (timestamp2 : ℕ)
    (payload2 : CollaborationPayload) (body : Bytes)
    → All IsCid parents
    → All IsCid parents2
    → timestamp < 2 ^ 64
    → timestamp2 < 2 ^ 64
    → canonical_event_body repo kind actor parents timestamp payload ≡ ok body
    → canonical_event_body repo2 kind2 actor2 parents2 timestamp2 payload2 ≡ ok body
    → (repo ≡ repo2)
      × (kind ≡ kind2)
      × (actor ≡ actor2)
      × (digest_list parents ≡ digest_list parents2)
      × (timestamp ≡ timestamp2)
      × (payload ≡ payload2)
canonical_event_body-injective repo kind actor parents ts payload repo2 kind2 actor2 parents2 ts2
      payload2 body v w t t2 h h2 =
    let p = canonical_event_body-eq-ok repo kind actor parents ts payload body h in
    let q = canonical_event_body-eq-ok repo2 kind2 actor2 parents2 ts2 payload2 body h2 in
    let e0 =
      append_cancel_left (codes "gitmesh-collaboration-event-v0") _ _ (sym p.whole ∙ q.whole) in
    let (repos, e1) = put_bytes_cancel repo repo2 p.repo' q.repo' _ _ p.at_repo q.at_repo e0 in
    let (kinds, e2) =
      be_bytes_cancel 2 (code kind) (code kind2) _ _ (code-lt kind) (code-lt kind2) e1 in
    let (_, e3) =
      put_bytes_cancel (label kind) (label kind2) p.label' q.label' _ _ p.at_label q.at_label e2 in
    let (actors, e4) =
      put_bytes_cancel actor actor2 p.actor' q.actor' _ _ p.at_actor q.at_actor e3 in
    let (times, e5) = be_bytes_cancel 8 ts ts2 _ _ t t2 e4 in
    let (cids, e6) =
      put_cid_vec_cancel parents parents2 p.parents' q.parents' _ _ v w p.at_parents q.at_parents
        e5 in
    let (titles, e7) =
      put_bytes_cancel payload.title payload2.title p.title' q.title' _ _ p.at_title q.at_title
        e6 in
    let (bodies, e8) =
      put_bytes_cancel payload.body payload2.body p.body' q.body' _ _ p.at_body q.at_body e7 in
    let (labels, e9) =
      put_string_vec_cancel payload.labels payload2.labels p.labels' q.labels' _ _ p.at_labels
        q.at_labels e8 in
    let (sources, e10) =
      put_optional_cancel payload.source_ref payload2.source_ref p.source' q.source' _ _ p.at_source
        q.at_source e9 in
    let (targets, _) =
      put_optional_cancel payload.target_ref payload2.target_ref p.target' q.target' [] []
        p.at_target q.at_target e10 in
    (
      repos,
      code-injective kind kind2 kinds,
      actors,
      cids,
      times,
      λ i. record {
        title = titles i;
        body = bodies i;
        labels = labels i;
        source_ref = sources i;
        target_ref = targets i;
      },
    )

-- A payload is accepted exactly when its title is not blank and it names both refs or neither.
pub validate_payload_iff :
    (p : CollaborationPayload)
    → (validate_payload p ≡ ok tt) ↔ (
        (is_blank p.title ≡ false)
        × (((p.source_ref ≡ none) × (p.target_ref ≡ none))
            ⊎ ((s : Bytes) × (t : Bytes) × (p.source_ref ≡ some s) × (p.target_ref ≡ some t))))
unfolding validate_payload
validate_payload_iff p = (λ h. ground arith, λ h. ground arith)
