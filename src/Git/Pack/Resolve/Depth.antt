-- ===== src/Git/Pack/Resolve/Depth.antt =====
-- The calls of `resolve_pack_entry` end: each call within a call marks an entry that was neither
-- resolved nor being resolved, so that the fuel is never used up.
use git_mesh.Prelude.{
  ℕ, zero, suc, ◌≡◌, ◌≢◌, ◌≤◌, ◌<◌, refl, sym, ap, subst, inl, inr, arith, true, false, Option,
  none, some, List, [], ◌∷◌, length, get_elem?, Result, ok, err, ◌>>=◌, Bool-cases, Option-cases,
  Result-cases, >>=-avoids, Bytes,
}
use git_mesh.Prelude.Order.{nat_ord}
use git_mesh.SortedMap.{SortedMap, insert, get}
use git_mesh.Git.Oid.{GitSha1Oid, oid_ord}
use git_mesh.Git.Object.{
  GitError, panicked, out_of_fuel, invalid_pack_delta, GitObject, Sha1, sha1_oid,
}
use git_mesh.Git.Pack.Delta.{apply_pack_delta}
use git_mesh.Git.Pack.Delta.Ends.{apply_pack_delta-eq-err}
use git_mesh.Git.Pack.Entry.{PackEntry, PackDeltaBase, offset_base, oid_base, full_object_kind}
use git_mesh.Git.Pack.Resolve.{
  Resolving, Outcome, apply_to, keep, mark, range, is_object, find_base, after_search, resolve_base,
  resolve_round, resolve_pack_entry, resolve_each, collect_objects, index_offsets, at_first,
  resolve_pack_entries,
}
use git_mesh.Git.Pack.Resolve.Fresh.{fresh, fresh-keep, fresh-mark, marked_low, fresh_of-replicate}

apply_pack_delta-ends : (base delta : Bytes) → apply_pack_delta base delta ≢ err out_of_fuel
apply_pack_delta-ends base delta e = elim (apply_pack_delta-eq-err base delta out_of_fuel e) [
  | inl other ↦ cc
  | inr other ↦ cc
]

module _ (h : Sha1) (entries : List PackEntry) (offset_index : SortedMap ℕ ℕ) where
  -- Two runs that agree, leave no more entries to do than `n`, and have fuel left.
  abbrev Agrees : ℕ → Outcome → Outcome → Type 0
  Agrees n x y = (x ≡ y) × (fresh x.0 ≤ n) × (x.1 ≢ err out_of_fuel)

  abbrev CallsAgree : ℕ → (ℕ → Resolving → Outcome) → (ℕ → Resolving → Outcome) → Type 0
  CallsAgree k go other =
      (i : ℕ) (s : Resolving) → fresh s < k → Agrees (fresh s) (go i s) (other i s)

  stays :
      (s : Resolving) (r : Result GitError GitObject)
      → r ≢ err out_of_fuel
      → Agrees (fresh s) (s, r) (s, r)
  stays s r e = (refl, omega arith, e)

  weaken : {m n : ℕ} {x y : Outcome} → m ≤ n → Agrees m x y → Agrees n x y
  weaken le (same, less, fuel) = (same, omega (arith, le, less), fuel)

  keep-fuel : (i : ℕ) (x : Outcome) → x.1 ≢ err out_of_fuel → (keep i x).1 ≢ err out_of_fuel
  unfolding keep
  keep-fuel i (s, ok o) e k = cc
  keep-fuel i (s, err c) e k = e k

  keep-Agrees : (i n : ℕ) (x y : Outcome) → Agrees n x y → Agrees n (keep i x) (keep i y)
  keep-Agrees i n x y (same, less, fuel) =
      (ap (λ z. keep i z) same, omega (arith, fresh-keep i x, less), keep-fuel i x fuel)

  apply_to-fuel :
      (entry : PackEntry) (s : Resolving) (r : Result GitError GitObject)
      → r ≢ err out_of_fuel
      → (apply_to entry (s, r)).1 ≢ err out_of_fuel
  unfolding apply_to
  apply_to-fuel entry s (ok base) e k =
      elim (Result-cases (apply_pack_delta base.payload entry.payload)) [
        | inl (p, done) ↦ cc
        | inr (c, failed) ↦ apply_pack_delta-ends base.payload entry.payload cc
      ]
  apply_to-fuel entry s (err c) e k = e cc

  apply_to-Agrees :
      (n : ℕ) (entry : PackEntry) (x y : Outcome)
      → Agrees n x y
      → Agrees n (apply_to entry x) (apply_to entry y)
  apply_to-Agrees n entry (s, r) y (same, less, fuel) =
      (ap (λ z. apply_to entry z) same, unfold apply_to in less, apply_to-fuel entry s r fuel)

  module _ (k : ℕ) (go other : ℕ → Resolving → Outcome) (agree : CallsAgree k go other) where
    find_base_agree :
        (oid : GitSha1Oid) (cs : List ℕ) (s : Resolving)
        → fresh s < k
        → (find_base h entries offset_index go oid cs s
            ≡ find_base h entries offset_index other oid cs s)
          × (fresh (find_base h entries offset_index go oid cs s).0 ≤ fresh s)
    unfolding find_base
    find_base_agree oid [] s low = (refl, omega arith)
    find_base_agree oid (c ∷ cs) s low =
        let (same, less, _) = agree c s low in
        let (later, less') = find_base_agree oid cs (go c s).0 (omega (arith, less)) in
        elim (Bool-cases (is_object h entries offset_index oid (go c s).1)) [
          | inl found ↦ rw (sym same, found) (refl, less)
          | inr missed ↦ rw (sym same, missed) (later, omega (arith, less, less'))
        ]

    after_search_agree :
        (entry : PackEntry) (oid : GitSha1Oid) (s : Resolving) (found : Option ℕ)
        → fresh s < k
        → Agrees
            (fresh s)
            (after_search h entries offset_index go entry oid (s, found))
            (after_search h entries offset_index other entry oid (s, found))
    unfolding after_search
    after_search_agree entry oid s none low = stays s (err invalid_pack_delta) (λ e. cc)
    after_search_agree entry oid s (some i) low =
        apply_to-Agrees (fresh s) entry (go i (record s { oid_index = insert oid i s.oid_index })) _
          (agree i (record s { oid_index = insert oid i s.oid_index }) low)

    search_agree :
        (entry : PackEntry) (oid : GitSha1Oid) (s : Resolving)
        → fresh s < k
        → Agrees
            (fresh s)
            (after_search h entries offset_index go entry oid
              (find_base h entries offset_index go oid (range 0 (length entries)) s))
            (after_search h entries offset_index other entry oid
              (find_base h entries offset_index other oid (range 0 (length entries)) s))
    search_agree entry oid s low =
        let (same, less) = find_base_agree oid (range 0 (length entries)) s low in
        subst
          (λ z.
            Agrees (fresh s)
              (after_search h entries offset_index go entry oid
                (find_base h entries offset_index go oid (range 0 (length entries)) s))
              (after_search h entries offset_index other entry oid z))
          same
          (weaken less (
            after_search_agree entry oid
              (find_base h entries offset_index go oid (range 0 (length entries)) s).0
              (find_base h entries offset_index go oid (range 0 (length entries)) s).1
              (omega (arith, less))))

    full_ends :
        (entry : PackEntry) (s : Resolving)
        → (resolve_base h entries offset_index go entry none s).1 ≢ err out_of_fuel
    unfolding resolve_base full_object_kind
    full_ends entry s e = ground arith

    resolve_base_agree :
        (entry : PackEntry) (base : Option PackDeltaBase) (s : Resolving)
        → fresh s < k
        → Agrees
            (fresh s)
            (resolve_base h entries offset_index go entry base s)
            (resolve_base h entries offset_index other entry base s)
    unfolding resolve_base
    resolve_base_agree entry none s low = stays s _ (full_ends entry s)
    resolve_base_agree entry (some (offset_base o)) s low =
        elim (Option-cases (get o offset_index)) [
          | inl none_at ↦ rw (resolve_base, none_at) (stays s (err invalid_pack_delta) (λ e. cc))
          | inr (i, at) ↦
              rw (resolve_base, at)
                (apply_to-Agrees (fresh s) entry (go i s) (other i s) (agree i s low))
        ]
    resolve_base_agree entry (some (oid_base o)) s low = elim (Option-cases (get o s.oid_index)) [
      | inl none_at ↦ rw (resolve_base, none_at) (search_agree entry o s low)
      | inr (i, at) ↦
          rw (resolve_base, at)
            (apply_to-Agrees (fresh s) entry (go i s) (other i s) (agree i s low))
    ]

    resolve_round_agree :
        (i : ℕ) (s : Resolving)
        → fresh s < suc k
        → Agrees
            (fresh s)
            (resolve_round h entries offset_index go i s)
            (resolve_round h entries offset_index other i s)
    unfolding resolve_round
    resolve_round_agree i s low = elim (Option-cases (get_elem? s.resolved i)) [
      | inl outside ↦ rw (resolve_round, outside) (stays s (err panicked) (λ e. cc))
      | inr (some o, done) ↦ rw (resolve_round, done) (stays s (ok o) (λ e. cc))
      | inr (none, to_do) ↦ elim (Option-cases (get_elem? s.resolving i)) [
        | inl outside ↦ rw (resolve_round, to_do, outside) (stays s (err panicked) (λ e. cc))
        | inr (true, busy) ↦
            rw (resolve_round, to_do, busy) (stays s (err invalid_pack_delta) (λ e. cc))
        | inr (false, free) ↦ elim (Option-cases (get_elem? entries i)) [
          | inl outside ↦
              rw (resolve_round, to_do, free, outside)
                (weaken (fresh-mark s i to_do free) (stays (mark i s) (err panicked) (λ e. cc)))
          | inr (entry, at) ↦
              rw (resolve_round, to_do, free, at)
                (keep-Agrees i (fresh s) _ _ (
                  weaken (fresh-mark s i to_do free) (
                    resolve_base_agree entry entry.base (mark i s)
                      (marked_low s i to_do free low))))
        ]
      ]
    ]

  resolve_pack_entry_agree :
      (fuel more : ℕ)
      → fuel ≤ more
      → CallsAgree fuel
          (resolve_pack_entry h entries offset_index fuel)
          (resolve_pack_entry h entries offset_index more)
  unfolding resolve_pack_entry
  resolve_pack_entry_agree zero more le i s low = absurd (omega arith)
  resolve_pack_entry_agree (suc fuel) zero le i s low = absurd (omega arith)
  resolve_pack_entry_agree (suc fuel) (suc more) le i s low =
      resolve_round_agree fuel (resolve_pack_entry h entries offset_index fuel)
        (resolve_pack_entry h entries offset_index more)
        (resolve_pack_entry_agree fuel more (omega arith)) i s low

  resolve_each_agree :
      (fuel more : ℕ) (indices : List ℕ) (s : Resolving)
      → fuel ≤ more
      → fresh s < fuel
      → (resolve_each h entries offset_index more indices s
          ≡ resolve_each h entries offset_index fuel indices s)
        × (resolve_each h entries offset_index fuel indices s ≢ err out_of_fuel)
  unfolding resolve_each
  resolve_each_agree fuel more [] s le low = (refl, λ e. cc)
  resolve_each_agree fuel more (i ∷ indices) s le low =
      let (same, less, left) = resolve_pack_entry_agree fuel more le i s low in
      let next = (resolve_pack_entry h entries offset_index fuel i s).0 in
      elim (Result-cases (resolve_pack_entry h entries offset_index fuel i s).1) [
        | inl (o, done) ↦
            rw (sym same, done)
              (resolve_each_agree fuel more indices
                (record next { oid_index = insert (sha1_oid h o) i next.oid_index }) le
                (omega (arith, less)))
        | inr (e, failed) ↦ rw (sym same, failed) (refl, λ gone. left cc)
      ]

collect_objects-ends : (os : List (Option GitObject)) → collect_objects os ≢ err out_of_fuel
unfolding collect_objects
collect_objects-ends [] e = cc
collect_objects-ends (none ∷ os) e = cc
collect_objects-ends (some o ∷ os) e =
    >>=-avoids out_of_fuel (collect_objects os) _ (collect_objects-ends os) (λ objects k. cc) e

-- `resolve_pack_entries` with calls within calls to the depth `fuel`.
abbrev pub resolve_to_depth : Sha1 → ℕ → List PackEntry → Result GitError (List GitObject)
resolve_to_depth h fuel entries =
    resolve_each h entries (index_offsets 0 entries []) fuel (range 0 (length entries))
      (at_first (length entries))
    >>= λ s. collect_objects s.resolved

-- With calls within calls to any depth above the number of entries, resolving a pack's entries
-- gives the same answer, and it never runs out of depth.
pub resolve_pack_entries_depth :
    (h : Sha1) (entries : List PackEntry) (depth : ℕ)
    → length entries < depth
    → (resolve_to_depth h depth entries ≡ resolve_pack_entries h entries)
      × (resolve_pack_entries h entries ≢ err out_of_fuel)
unfolding resolve_pack_entries
resolve_pack_entries_depth h entries depth enough =
    let (same, left) =
      resolve_each_agree h entries (index_offsets 0 entries []) (suc (length entries)) depth
        (range 0 (length entries)) (at_first (length entries)) enough
        (omega (arith, fresh_of-replicate (length entries))) in
    (
      ap (λ r. r >>= λ s. collect_objects s.resolved) same,
      >>=-avoids out_of_fuel _ _ left (λ s. collect_objects-ends s.resolved),
    )
