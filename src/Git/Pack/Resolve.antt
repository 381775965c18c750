-- ===== src/Git/Pack/Resolve.antt =====
-- `resolve_pack_entry` and `resolve_pack_entries` of crates/gitmesh-git/src/lib.rs. The vectors and
-- the map that the calls change are a state, which a failed call leaves as it is by then.
pub mod Full
pub mod Fresh
pub mod Depth
use git_mesh.Prelude.{
  ℕ, zero, suc, ◌+◌, Bool, true, false, Option, none, some, List, [], ◌∷◌, Bytes, length, map,
  get_elem?, set, replicate, Result, ok, err, ok_or, if◌then◌else◌, ◌>>=◌,
}
use git_mesh.Prelude.Order.{◌==◌, nat_ord}
use git_mesh.SortedMap.{SortedMap, get, insert}
use git_mesh.Git.Oid.{GitSha1Oid, oid_ord}
use git_mesh.Git.Object.{
  GitError, invalid_pack_delta, panicked, out_of_fuel, GitObject, Sha1, sha1_oid,
}
use git_mesh.Git.Pack.Delta.{apply_pack_delta}
use git_mesh.Git.Pack.Entry.{PackEntry, PackDeltaBase, offset_base, oid_base, full_object_kind}

pub record Resolving : Type 0 where
  pub oid_index : SortedMap GitSha1Oid ℕ
  pub resolved : List (Option GitObject)
  pub resolving : List Bool

abbrev pub Outcome : Type 0
Outcome = Resolving × Result GitError GitObject

-- `GitObject::new(base.kind, apply_pack_delta(..)?)`, when there is a base.
unfoldable pub apply_to : PackEntry → Outcome → Outcome
apply_to entry (s, r) = (
  s,
  do
    base ← r
    payload ← apply_pack_delta base.payload entry.payload
    ok (record { kind = base.kind; payload = payload }),
)

-- A failure on the way leaves `resolving` set.
unfoldable pub keep : ℕ → Outcome → Outcome
keep index (s, ok object) = (
  record s {
    resolving = set s.resolving index false;
    resolved = set s.resolved index (some object);
  },
  ok object,
)
keep index (s, err e) = (s, err e)

unfoldable pub mark : ℕ → Resolving → Resolving
mark index s = record s { resolving = set s.resolving index true }

-- `range from n` lists the `n` indices from `from` on.
abbrev pub range : ℕ → ℕ → List ℕ
range from zero = []
range from (suc n) = from ∷ range (suc from) n

module _ (h : Sha1) (entries : List PackEntry) (offset_index : SortedMap ℕ ℕ) where
  unfoldable pub is_object : GitSha1Oid → Result GitError GitObject → Bool
  is_object oid (ok object) = sha1_oid h object == oid
  is_object oid (err e) = false

  module _ (resolve : ℕ → Resolving → Outcome) where
    -- `find_map` over the candidates: every call may change the state.
    unfoldable pub find_base : GitSha1Oid → List ℕ → Resolving → Resolving × Option ℕ
    unfolding is_object
    find_base oid [] s = (s, none)
    find_base oid (candidate ∷ later) s =
        let (next, r) = resolve candidate s in
        let rest = find_base oid later next in
        if is_object oid r then (next, some candidate) else rest

    unfoldable pub after_search : PackEntry → GitSha1Oid → Resolving × Option ℕ → Outcome
    unfolding apply_to
    after_search entry oid (s, none) = (s, err invalid_pack_delta)
    after_search entry oid (s, some index) =
        apply_to entry (resolve index (record s { oid_index = insert oid index s.oid_index }))

    unfoldable pub resolve_base : PackEntry → Option PackDeltaBase → Resolving → Outcome
    unfolding apply_to find_base after_search
    resolve_base entry none s = (
      s,
      do kind ← full_object_kind entry.kind; ok (record { kind = kind; payload = entry.payload }),
    )
    resolve_base entry (some (offset_base base_offset)) s = elim (get base_offset offset_index) [
      | none ↦ (s, err invalid_pack_delta)
      | some index ↦ apply_to entry (resolve index s)
    ]
    resolve_base entry (some (oid_base base_oid)) s = elim (get base_oid s.oid_index) [
      | some index ↦ apply_to entry (resolve index s)
      | none ↦ after_search entry base_oid (find_base base_oid (range 0 (length entries)) s)
    ]

    -- One call, whose own calls are `resolve`. An index past the end panics.
    unfoldable pub resolve_round : ℕ → Resolving → Outcome
    unfolding resolve_base keep mark
    resolve_round index s = elim (get_elem? s.resolved index) [
      | none ↦ (s, err panicked)
      | some (some object) ↦ (s, ok object)
      | some none ↦ elim (get_elem? s.resolving index) [
        | none ↦ (s, err panicked)
        | some true ↦ (s, err invalid_pack_delta)
        | some false ↦ elim (get_elem? entries index) [
          | none ↦ (mark index s, err panicked)
          | some entry ↦ keep index (resolve_base entry entry.base (mark index s))
        ]
      ]
    ]

  unfoldable pub resolve_pack_entry : ℕ → ℕ → Resolving → Outcome
  resolve_pack_entry zero index s = (s, err out_of_fuel)
  resolve_pack_entry (suc fuel) index s = resolve_round (resolve_pack_entry fuel) index s

  -- The `for` loop: `?` ends it at the first failure.
  unfoldable pub resolve_each : ℕ → List ℕ → Resolving → Result GitError Resolving
  resolve_each fuel [] s = ok s
  resolve_each fuel (index ∷ later) s = do
    let (next, r) = resolve_pack_entry fuel index s
    object ← r
    resolve_each fuel later
        (record next { oid_index = insert (sha1_oid h object) index next.oid_index })

unfoldable pub index_offsets : ℕ → List PackEntry → SortedMap ℕ ℕ → SortedMap ℕ ℕ
index_offsets from [] m = m
index_offsets from (entry ∷ later) m = index_offsets (suc from) later (insert entry.offset from m)

unfoldable pub collect_objects : List (Option GitObject) → Result GitError (List GitObject)
collect_objects [] = ok []
collect_objects (o ∷ later) = do
  object ← ok_or o invalid_pack_delta
  objects ← collect_objects later
  ok (object ∷ objects)

abbrev pub at_first : ℕ → Resolving
at_first n = record { oid_index = []; resolved = replicate n none; resolving = replicate n false }

-- Each call within a call has an entry more that is being resolved.
unfoldable pub resolve_pack_entries : Sha1 → List PackEntry → Result GitError (List GitObject)
unfolding resolve_each index_offsets collect_objects
resolve_pack_entries h entries = do
  let n = length entries
  s ← resolve_each h entries (index_offsets 0 entries []) (suc n) (range 0 n) (at_first n)
  collect_objects s.resolved
