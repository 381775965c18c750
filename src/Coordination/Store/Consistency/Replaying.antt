-- ===== src/Coordination/Store/Consistency/Replaying.antt =====
-- Every store that updates lead to passes the loader's replay.
use git_mesh.Prelude.{
  ℕ, ◌+◌, ◌≡◌, inl, inr, refl, sym, ap, ◌∙◌, none, some, Option-cases, Bool-cases, arith, Bytes,
  List, [], ◌∷◌, ◌++◌, length, length-append, last?-concat, eqb_self, ok, ok-injective, >>=-eq-ok,
}
use git_mesh.Prelude.Order.{◌==◌, nat_ord, list_ord, option_ord, pair_ord, ==_self, ==→eq}
use git_mesh.SortedMap.{get, insert, get-insert, get-insert_self}
use git_mesh.Core.Hash.{Blake3}
use git_mesh.Core.Cid.{cid_ord}
use git_mesh.Git.Oid.{oid_ord}
use git_mesh.Coordination.Names.{TransactionId}
use git_mesh.Coordination.Update.{RefUpdate, operation_fingerprint}
use git_mesh.Coordination.Checkpoint.{RefCheckpoint, RefMutation}
use git_mesh.Coordination.Store.{
  RefStore, TransactionReceipt, committed, current, write_ref, commit, refuse, apply, apply_all,
  empty_store, latest_checkpoint, next_checkpoint, committed_mutation, next_sequence,
  checkpoint_cid_of, history_root_of,
}
use git_mesh.Coordination.Store.Apply.{apply_known, apply-commit, apply-refuse}
use git_mesh.Coordination.Store.Consistency.{
  Receipts, Replay, replay_start, replay_step, replay, validate_mutation_receipt,
  validate_store_consistency,
}

module _ (h : Blake3) where
  replay-append :
      (receipts : Receipts) (st st1 st2 : Replay) (ms : List RefMutation) (cs : List RefCheckpoint)
      (m : RefMutation) (c : RefCheckpoint)
      → length ms ≡ length cs
      → replay h receipts st ms cs ≡ ok st1
      → replay_step h receipts st1 m c ≡ ok st2
      → replay h receipts st (ms ++ m ∷ []) (cs ++ c ∷ []) ≡ ok st2
  unfolding replay
  replay-append receipts st st1 st2 [] [] m c e run last =
      let same : st ≡ st1 = ok-injective run in rw (same, last)
  replay-append receipts st st1 st2 [] (d ∷ cs) m c e run last = absurd (omega arith)
  replay-append receipts st st1 st2 (n ∷ ms) [] m c e run last = absurd (omega arith)
  replay-append receipts st st1 st2 (n ∷ ms) (d ∷ cs) m c e run last =
      let (st', first, rest) = >>=-eq-ok (replay_step h receipts st n d) _ run in
      rw first (replay-append receipts st' st1 st2 ms cs m c (omega arith) rest last)

  -- A receipt of another transaction does not disturb a round that succeeds.
  replay_step_weaken :
      (receipts : Receipts) (tx : TransactionId) (entry : Bytes × TransactionReceipt)
      (st st' : Replay) (m : RefMutation) (c : RefCheckpoint)
      → get tx receipts ≡ none
      → replay_step h receipts st m c ≡ ok st'
      → replay_step h (insert tx entry receipts) st m c ≡ ok st'
  unfolding replay_step
  replay_step_weaken receipts tx entry st st' m c new e =
      ground (arith, get-insert tx m.transaction_id entry receipts, ==→eq m.transaction_id tx)

  replay_weaken :
      (receipts : Receipts) (tx : TransactionId) (entry : Bytes × TransactionReceipt)
      (st st' : Replay) (ms : List RefMutation) (cs : List RefCheckpoint)
      → get tx receipts ≡ none
      → replay h receipts st ms cs ≡ ok st'
      → replay h (insert tx entry receipts) st ms cs ≡ ok st'
  unfolding replay
  replay_weaken receipts tx entry st st' [] cs new run = run
  replay_weaken receipts tx entry st st' (m ∷ ms) [] new run = cc
  replay_weaken receipts tx entry st st' (m ∷ ms) (c ∷ cs) new run =
      let (st1, first, rest) = >>=-eq-ok (replay_step h receipts st m c) _ run in
      rw (replay_step_weaken receipts tx entry st st1 m c new first)
        (replay_weaken receipts tx entry st1 st' ms cs new rest)

  -- Where the replay of a store's log ends.
  abbrev pub log_end : RefStore → Replay
  log_end s = record {
    refs = s.refs;
    history = history_root_of (latest_checkpoint s);
    checkpoint = checkpoint_cid_of (latest_checkpoint s);
  }

  -- The log is as long as the chain of checkpoints, and its replay rebuilds the refs.
  pub record IsReplayable (s : RefStore) : Type 0 where
    pub lengths : length s.mutations ≡ length s.checkpoints
    pub replayed : replay h s.receipts replay_start s.mutations s.checkpoints ≡ ok (log_end s)

  pub empty_store-IsReplayable : IsReplayable empty_store
  unfolding replay latest_checkpoint
  empty_store-IsReplayable = record { lengths = refl; replayed = refl }

  refuse-IsReplayable :
      (s : RefStore) (u : RefUpdate)
      → get u.transaction_id s.receipts ≡ none
      → IsReplayable s
      → IsReplayable (refuse h s u (current s u.ref_name)).0
  unfolding refuse latest_checkpoint
  refuse-IsReplayable s u new v = record {
    lengths = v.lengths;
    replayed =
        replay_weaken s.receipts u.transaction_id _ replay_start _ s.mutations s.checkpoints new
          v.replayed;
  }

  -- The mutation, the checkpoint and the receipt of a commit fit each other.
  commit_step :
      (s : RefStore) (u : RefUpdate) (n : ℕ)
      → let old = current s u.ref_name in
        let m = committed_mutation n u (operation_fingerprint u) u.ref_name old u.new_oid in
        let c = next_checkpoint h (latest_checkpoint s) (write_ref u.ref_name u.new_oid s.refs) m in
        replay_step h
          (insert u.transaction_id
            (operation_fingerprint u, committed u.transaction_id u.ref_name old u.new_oid)
            s.receipts)
          (log_end s)
          m
          c
        ≡ ok (record {
          refs = write_ref u.ref_name u.new_oid s.refs;
          history = some c.history_root;
          checkpoint = some c.checkpoint_cid;
        })
  unfolding replay_step next_checkpoint committed_mutation current validate_mutation_receipt
  commit_step s u n = simp (get-insert_self, ==_self, eqb_self)

  commit-IsReplayable :
      (s : RefStore) (u : RefUpdate)
      → get u.transaction_id s.receipts ≡ none
      → IsReplayable s
      → IsReplayable (commit h s u (current s u.ref_name)).0
  unfolding commit
  commit-IsReplayable s u new v = record {
    lengths =
        length-append s.mutations _
        ∙ (ap (λ n. n + 1) v.lengths ∙ sym (length-append s.checkpoints _));
    replayed =
        replay-append _ replay_start (log_end s) _ s.mutations s.checkpoints _ _ v.lengths
          (replay_weaken s.receipts u.transaction_id _ replay_start _ s.mutations s.checkpoints new
            v.replayed)
          (commit_step s u (next_sequence s.mutations))
        ∙ ap ok (unfold latest_checkpoint in simp last?-concat);
  }

  pub apply-IsReplayable :
      (s : RefStore) (u : RefUpdate) → IsReplayable s → IsReplayable (apply h s u).0
  apply-IsReplayable s u v = elim (Option-cases (get u.transaction_id s.receipts)) [
    | inr (entry, e) ↦ rw (apply_known h s u entry e) v
    | inl new ↦ elim (Bool-cases (current s u.ref_name == u.expected_old_oid)) [
      | inl t ↦ rw (apply-commit h s u new t) (commit-IsReplayable s u new v)
      | inr f ↦ rw (apply-refuse h s u new f) (refuse-IsReplayable s u new v)
    ]
  ]

  pub apply_all-IsReplayable :
      (s : RefStore) (us : List RefUpdate) → IsReplayable s → IsReplayable (apply_all h s us)
  unfolding apply_all
  apply_all-IsReplayable s [] v = v
  apply_all-IsReplayable s (u ∷ us) v =
      apply_all-IsReplayable (apply h s u).0 us (apply-IsReplayable s u v)

  pub IsReplayable-consistent :
      (s : RefStore) → IsReplayable s → validate_store_consistency h s ≡ ok tt
  unfolding validate_store_consistency
  IsReplayable-consistent s v = rw (v.lengths, v.replayed) (simp (eqb_self, ==_self))

  -- The store that any sequence of updates makes of the empty one, conflicts and reused
  -- transactions among them, passes the loader's check: its log of mutations replays to its
  -- refs, through its chain of checkpoints and with its receipts.
  pub apply_all_consistent :
      (us : List RefUpdate) → validate_store_consistency h (apply_all h empty_store us) ≡ ok tt
  apply_all_consistent us =
      IsReplayable-consistent (apply_all h empty_store us)
        (apply_all-IsReplayable empty_store us empty_store-IsReplayable)
