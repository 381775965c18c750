-- ===== src/Coordination/Store/Chain.antt =====
-- The chain of checkpoints of a store.
use git_mesh.Prelude.{
  ℕ, ◌+◌, ◌%◌, ◌^◌, ◌≡◌, refl, sym, true, none, some, Option, Option-cases, Bool-cases, inl, inr,
  arith, List, [], ◌∷◌, ◌++◌, length, length-append, last?, ok, eqb, eqb_self,
}
use git_mesh.Prelude.Order.{◌==◌, ==_self, nat_ord, list_ord, option_ord}
use git_mesh.SortedMap.{SortedMap, get}
use git_mesh.Coordination.Names.{RefName}
use git_mesh.Core.Hash.{Blake3}
use git_mesh.Core.Cid.{cid_ord}
use git_mesh.Git.Oid.{GitSha1Oid, oid_ord}
use git_mesh.Coordination.Update.{RefUpdate}
use git_mesh.Coordination.Checkpoint.{
  RefCheckpoint, RefMutation, validate_checkpoint_chain, expected_sequence, next_u64,
}
use git_mesh.Coordination.Store.{
  RefStore, empty_store, apply, apply_all, commit, refuse, current, latest_checkpoint,
  next_checkpoint, next_sequence, append_checkpoint, committed_mutation,
}
use git_mesh.Coordination.Store.Apply.{apply_known, apply-commit, apply-refuse}

next_sequence-concat :
    (ms : List RefMutation) (m : RefMutation) → next_sequence ms ≡ length (ms ++ m ∷ []) % 2 ^ 64
unfolding next_sequence
next_sequence-concat ms m = rw (length-append ms (m ∷ [])) (omega arith)

module _ (h : Blake3) where
  -- Every checkpoint of the list follows the one before it, the first one `previous`.
  abbrev pub IsChain : Option RefCheckpoint → List RefCheckpoint → Type 0
  IsChain previous [] = Unit
  IsChain previous (c ∷ cs) = (validate_checkpoint_chain h previous c ≡ ok tt) × IsChain (some c) cs

  abbrev last_after : Option RefCheckpoint → List RefCheckpoint → Option RefCheckpoint
  last_after previous [] = previous
  last_after previous (c ∷ cs) = last_after (some c) cs

  IsChain-concat :
      (previous : Option RefCheckpoint) (cs : List RefCheckpoint) (c : RefCheckpoint)
      → IsChain previous cs
      → validate_checkpoint_chain h (last_after previous cs) c ≡ ok tt
      → IsChain previous (cs ++ c ∷ [])
  IsChain-concat previous [] c v next = (next, tt)
  IsChain-concat previous (b ∷ cs) c (first, v) next = (first, IsChain-concat (some b) cs c v next)

  last_after-concat :
      (previous : Option RefCheckpoint) (cs : List RefCheckpoint) (c : RefCheckpoint)
      → last_after previous (cs ++ c ∷ []) ≡ some c
  last_after-concat previous [] c = refl
  last_after-concat previous (b ∷ cs) c = last_after-concat (some b) cs c

  abbrev sequence_of : Option RefCheckpoint → ℕ
  sequence_of none = 0
  sequence_of (some c) = c.sequence

  last_after-last :
      (previous : Option RefCheckpoint) (c : RefCheckpoint) (cs : List RefCheckpoint)
      → last_after previous (c ∷ cs) ≡ last? (c ∷ cs)
  last_after-last previous c [] = refl
  last_after-last previous c (d ∷ cs) = last_after-last (some c) d cs

  last_after-latest : (s : RefStore) → latest_checkpoint s ≡ last_after none s.checkpoints
  unfolding latest_checkpoint
  last_after-latest s = last_of s.checkpoints
    where
      last_of : (cs : List RefCheckpoint) → last? cs ≡ last_after none cs
      last_of [] = refl
      last_of (c ∷ cs) = sym (last_after-last none c cs)

  pub next_checkpoint-chain :
      (latest : Option RefCheckpoint) (refs : SortedMap RefName GitSha1Oid) (m : RefMutation)
      → m.sequence ≡ (sequence_of latest + 1) % 2 ^ 64
      → validate_checkpoint_chain h latest (next_checkpoint h latest refs m) ≡ ok tt
  unfolding validate_checkpoint_chain next_checkpoint expected_sequence next_u64
  next_checkpoint-chain none refs m e =
      let here : eqb m.sequence 1 ≡ true = rw e (eqb_self 1) in simp (here, ==_self)
  next_checkpoint-chain (some c) refs m e =
      let here : eqb m.sequence (next_u64 c.sequence) ≡ true =
        rw e (eqb_self (next_u64 c.sequence)) in
      simp (here, ==_self)

  -- The chain is whole, and its last sequence number is the length of the log, in 64 bits.
  pub record IsChained (s : RefStore) : Type 0 where
    pub chain : IsChain none s.checkpoints
    pub sequence : sequence_of (last_after none s.checkpoints) ≡ length s.mutations % 2 ^ 64

  commit-IsChained :
      (s : RefStore) (u : RefUpdate)
      → IsChained s
      → IsChained (commit h s u (current s u.ref_name)).0
  unfolding commit append_checkpoint committed_mutation next_sequence
  commit-IsChained s u v =
      let follows : (refs : SortedMap RefName GitSha1Oid) (m : RefMutation)
          → m.sequence ≡ next_sequence s.mutations
          → validate_checkpoint_chain h (last_after none s.checkpoints)
              (next_checkpoint h (latest_checkpoint s) refs m)
            ≡ ok tt =
        λ refs m e. rw (last_after-latest s) (
          next_checkpoint-chain (last_after none s.checkpoints) refs m (rw (e, v.sequence) refl)) in
      record {
        chain = IsChain-concat none s.checkpoints _ v.chain (follows _ _ refl);
        sequence = rw (last_after-concat none s.checkpoints _) (next_sequence-concat s.mutations _);
      }

  apply-IsChained : (s : RefStore) (u : RefUpdate) → IsChained s → IsChained (apply h s u).0
  apply-IsChained s u v = elim (Option-cases (get u.transaction_id s.receipts)) [
    | inr (entry, e) ↦ rw (apply_known h s u entry e) v
    | inl new ↦ elim (Bool-cases (current s u.ref_name == u.expected_old_oid)) [
      | inl t ↦ rw (apply-commit h s u new t) (commit-IsChained s u v)
      | inr f ↦
          rw (apply-refuse h s u new f)
            (unfold refuse in record { chain = v.chain; sequence = v.sequence })
    ]
  ]

  apply_all-IsChained :
      (s : RefStore) (us : List RefUpdate) → IsChained s → IsChained (apply_all h s us)
  unfolding apply_all
  apply_all-IsChained s [] v = v
  apply_all-IsChained s (u ∷ us) v = apply_all-IsChained (apply h s u).0 us (apply-IsChained s u v)

  -- Whatever updates are applied to the empty store, each of its checkpoints follows the one
  -- before it, the first one none: its number is the next, its parent is that checkpoint, and
  -- its identifier is the hash of its fields.
  pub apply_all-IsChain :
      (us : List RefUpdate) → IsChain none (apply_all h empty_store us).checkpoints
  apply_all-IsChain us =
      (apply_all-IsChained empty_store us (record { chain = tt; sequence = refl })).chain
