-- ===== src/Git/Pack/Resolve/Full.antt =====
-- The resolution of a pack whose entries are whole objects.
use git_mesh.Prelude.{
  ℕ, suc, ◌+◌, ◌≡◌, refl, sym, ap, ◌∙◌, arith, Bool, true, false, none, some, List, [], ◌∷◌, ◌++◌,
  append_assoc, append-nil, length, length-append, map, get_elem?, set, replicate, get_elem?-append,
  set_twice, get_elem?-replicate, set-replicate, ok,
}
use git_mesh.SortedMap.{SortedMap, insert}
use git_mesh.Git.Oid.{oid_ord}
use git_mesh.Git.Object.{GitObject, Sha1, sha1_oid}
use git_mesh.Git.Pack.Entry.{PackEntry, full_object_kind}
use git_mesh.Git.Pack.Resolve.{
  Resolving, keep, mark, range, resolve_base, resolve_round, resolve_pack_entry, resolve_each,
  collect_objects, index_offsets, at_first, resolve_pack_entries,
}

pub record IsFull (entry : PackEntry) (o : GitObject) : Type 0 where
  pub no_base : entry.base ≡ none
  pub same_payload : entry.payload ≡ o.payload
  pub same_kind : full_object_kind entry.kind ≡ ok o.kind

abbrev pub AllFull : List PackEntry → List GitObject → Type 0
AllFull [] [] = Unit
AllFull [] (o ∷ os) = ⊥
AllFull (entry ∷ entries) [] = ⊥
AllFull (entry ∷ entries) (o ∷ os) = IsFull entry o × AllFull entries os

abbrev next_state : ℕ → GitObject → Resolving → Resolving
next_state k o s = record s {
  resolving = set (set s.resolving k true) k false;
  resolved = set s.resolved k (some o);
}

to_do :
    (done : List GitObject) (n : ℕ)
    → get_elem? (map some done ++ replicate (suc n) none) (length done) ≡ some none
to_do [] n = refl
to_do (o ∷ done) n = to_do done n

put_done :
    (done : List GitObject) (o : GitObject) (n : ℕ)
    → set (map some done ++ replicate (suc n) none) (length done) (some o)
      ≡ map some (done ++ o ∷ []) ++ replicate n none
put_done [] o n = refl
put_done (p ∷ done) o n = ap (λ os. some p ∷ os) (put_done done o n)

still_free :
    (n k : ℕ) (flags : List Bool)
    → flags ≡ replicate (k + suc n) false
    → set (set flags k true) k false ≡ replicate (suc k + n) false
still_free n k flags e =
    set_twice flags k true false
    ∙ ap (λ fs. set fs k false) e
    ∙ set-replicate (k + suc n) k false
    ∙ ap (λ m. replicate m false) (omega arith)

module _ (h : Sha1) (entries : List PackEntry) (offset_index : SortedMap ℕ ℕ) where
  resolve_full :
      (fuel k : ℕ) (s : Resolving) (entry : PackEntry) (o : GitObject)
      → get_elem? s.resolved k ≡ some none
      → get_elem? s.resolving k ≡ some false
      → get_elem? entries k ≡ some entry
      → IsFull entry o
      → resolve_pack_entry h entries offset_index (suc fuel) k s ≡ (next_state k o s, ok o)
  unfolding resolve_pack_entry resolve_round resolve_base keep mark
  resolve_full fuel k s entry o unresolved free here full =
      rw (resolve_round, unresolved, free, here, full.no_base)
        (rw (full.same_kind, full.same_payload))

  -- A step of the loop that resolves its entry.
  bind_step :
      (fuel k : ℕ) (later : List ℕ) (s next : Resolving) (o : GitObject) (last : Resolving)
      → resolve_pack_entry h entries offset_index fuel k s ≡ (next, ok o)
      → resolve_each h entries offset_index fuel later
          (record next { oid_index = insert (sha1_oid h o) k next.oid_index })
        ≡ ok last
      → resolve_each h entries offset_index fuel (k ∷ later) s ≡ ok last
  unfolding resolve_each
  bind_step fuel k later s next o last step run = rw step run

  resolve_each_full :
      (fuel k : ℕ) (front back : List PackEntry) (done objects : List GitObject) (s : Resolving)
      → k ≡ length front
      → k ≡ length done
      → entries ≡ front ++ back
      → AllFull back objects
      → s.resolved ≡ map some done ++ replicate (length back) none
      → s.resolving ≡ replicate (k + length back) false
      → (last : Resolving) × (resolve_each h entries offset_index
            (suc fuel)
            (range k (length back))
            s
          ≡ ok last)
        × (last.resolved ≡ map some (done ++ objects))
  unfolding resolve_each
  resolve_each_full fuel k front [] done [] s at_front at_done split full at_resolved at_resolving =
      (
        s,
        refl,
        at_resolved ∙ append-nil (map some done) ∙ ap (λ os. map some os) (sym (append-nil done)),
      )
  resolve_each_full fuel k front [] done (o ∷ objects) s at_front at_done split full at_resolved
        at_resolving =
      absurd full
  resolve_each_full fuel k front (entry ∷ back) done [] s at_front at_done split full at_resolved
        at_resolving =
      absurd full
  resolve_each_full fuel k front (entry ∷ back) done (o ∷ objects) s at_front at_done split
        (full, later) at_resolved at_resolving =
      let step =
        resolve_full fuel k s entry o (rw (at_resolved, at_done) (to_do done (length back)))
          (rw at_resolving (get_elem?-replicate (k + suc (length back)) k false (omega arith)))
          (rw (split, at_front) (get_elem?-append front back entry)) full in
      let (last, run, whole) =
        resolve_each_full fuel (suc k) (front ++ entry ∷ []) back (done ++ o ∷ []) objects
          (record (next_state k o s) { oid_index = insert (sha1_oid h o) k s.oid_index })
          (omega (arith, at_front, length-append front (entry ∷ [])))
          (omega (arith, at_done, length-append done (o ∷ [])))
          (split ∙ sym (append_assoc front (entry ∷ []) back)) later
          (rw (at_resolved, at_done) (put_done done o (length back)))
          (still_free (length back) k s.resolving at_resolving) in
      (
        last,
        bind_step (suc fuel) k (range (suc k) (length back)) s (next_state k o s) o last step run,
        whole ∙ ap (λ os. map some os) (append_assoc done (o ∷ []) objects),
      )

collect_objects_full : (os : List GitObject) → collect_objects (map some os) ≡ ok os
unfolding collect_objects
collect_objects_full [] = refl
collect_objects_full (o ∷ os) = rw (collect_objects_full os)

pub resolve_pack_entries_full :
    (h : Sha1) (entries : List PackEntry) (objects : List GitObject)
    → AllFull entries objects
    → resolve_pack_entries h entries ≡ ok objects
unfolding resolve_pack_entries
resolve_pack_entries_full h entries objects full =
    let (last, run, whole) =
      resolve_each_full h entries (index_offsets 0 entries []) (length entries) 0 [] entries []
        objects (at_first (length entries)) refl refl refl full refl
        (ap (λ n. replicate n false) (omega arith)) in
    rw (run, whole, collect_objects_full objects)
