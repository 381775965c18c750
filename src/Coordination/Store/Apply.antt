-- ===== src/Coordination/Store/Apply.antt =====
-- Compare and swap, and idempotence, of `apply`.
use git_mesh.Prelude.{
  ◌≡◌, inl, inr, refl, ap, true, false, none, some, Option, Option-cases, Bool-cases, arith, Bytes,
  if◌then◌else◌,
}
use git_mesh.Prelude.Order.{◌==◌, nat_ord, list_ord, option_ord, ==_self, ==→eq}
use git_mesh.SortedMap.{get, get-insert, get-insert_self, get-remove}
use git_mesh.Core.Hash.{Blake3}
use git_mesh.Git.Oid.{GitSha1Oid, oid_ord}
use git_mesh.Coordination.Names.{RefName}
use git_mesh.Coordination.Update.{RefUpdate, operation_fingerprint}
use git_mesh.Coordination.Store.{
  RefStore, TransactionReceipt, committed, rejected, conflict, current, preflight_receipt,
  replayed_receipt, write_ref, commit, refuse, apply,
}

-- The receipt that an update is answered with where its transaction is new.
abbrev pub fresh_receipt : RefStore → RefUpdate → TransactionReceipt
fresh_receipt s u =
    if current s u.ref_name == u.expected_old_oid
    then committed u.transaction_id u.ref_name u.expected_old_oid u.new_oid
    else rejected u.transaction_id (conflict u.expected_old_oid (current s u.ref_name))

get-write_ref :
    (s : RefStore) (name other : RefName) (oid : Option GitSha1Oid)
    → get other (write_ref name oid s.refs) ≡ (if other == name then oid else get other s.refs)
unfolding write_ref
get-write_ref s name other none = get-remove name other s.refs
get-write_ref s name other (some o) = get-insert name other o s.refs

preflight_recorded :
    (s : RefStore) (u : RefUpdate) (receipt : TransactionReceipt)
    → get u.transaction_id s.receipts ≡ some (operation_fingerprint u, receipt)
    → preflight_receipt s u ≡ some receipt
unfolding preflight_receipt replayed_receipt
preflight_recorded s u receipt e = rw (e, preflight_receipt, ==_self (operation_fingerprint u))

module _ (h : Blake3) (s : RefStore) (u : RefUpdate) where
  pub apply_known :
      (entry : Bytes × TransactionReceipt)
      → get u.transaction_id s.receipts ≡ some entry
      → apply h s u ≡ (s, replayed_receipt u entry)
  unfolding apply
  apply_known entry e = rw (e, apply)

  pub apply-commit :
      get u.transaction_id s.receipts ≡ none
      → (current s u.ref_name == u.expected_old_oid) ≡ true
      → apply h s u ≡ commit h s u (current s u.ref_name)
  unfolding apply
  apply-commit e t = rw (e, apply, t)

  pub apply-refuse :
      get u.transaction_id s.receipts ≡ none
      → (current s u.ref_name == u.expected_old_oid) ≡ false
      → apply h s u ≡ refuse h s u (current s u.ref_name)
  unfolding apply
  apply-refuse e t = rw (e, apply, t)

  -- The receipt on record is the answer to the update that it was made for.
  pub apply_recorded :
      (receipt : TransactionReceipt)
      → get u.transaction_id s.receipts ≡ some (operation_fingerprint u, receipt)
      → apply h s u ≡ (s, receipt)
  unfolding apply replayed_receipt
  apply_recorded receipt e = rw (e, apply, ==_self (operation_fingerprint u))

module _ (h : Blake3) (s : RefStore) (u : RefUpdate) where
  -- A transaction that is not on record commits exactly when the ref holds the value that the
  -- update expects. Then the ref takes the new value, or goes away, and every other ref stays; a
  -- refusal names both values and moves no ref.
  pub apply_compare_and_swap :
      (new : get u.transaction_id s.receipts ≡ none) (name : RefName)
      → ((apply h s u).1 ≡ fresh_receipt s u)
        × (current (apply h s u).0 name ≡ (
            if current s u.ref_name == u.expected_old_oid
            then (if name == u.ref_name then u.new_oid else current s name)
            else current s name))
  apply_compare_and_swap new name = elim (Bool-cases (current s u.ref_name == u.expected_old_oid)) [
    | inl t ↦
        rw (apply-commit h s u new t, t)
          (unfold commit current in
            (
              ap (λ o. committed u.transaction_id u.ref_name o u.new_oid) (==→eq _ _ t),
              get-write_ref s u.ref_name name u.new_oid,
            ))
    | inr f ↦ rw (apply-refuse h s u new f, f) (unfold refuse current in (refl, refl))
  ]

  -- An update that is applied again at once, whatever became of it, is answered with the receipt
  -- of the first time and changes nothing.
  pub apply_idempotent : apply h (apply h s u).0 u ≡ ((apply h s u).0, (apply h s u).1)
  apply_idempotent = elim (Option-cases (get u.transaction_id s.receipts)) [
    | inl new ↦ elim (Bool-cases (current s u.ref_name == u.expected_old_oid)) [
      | inl t ↦
          rw (apply-commit h s u new t) (
            apply_recorded h _ u _ (unfold commit in get-insert_self u.transaction_id _ s.receipts))
      | inr f ↦
          rw (apply-refuse h s u new f) (
            apply_recorded h _ u _ (unfold refuse in get-insert_self u.transaction_id _ s.receipts))
    ]
    | inr (entry, e) ↦ rw (apply_known h s u entry e, apply_known h s u entry e)
  ]

  -- Where the preflight answers, applying the update gives that answer and changes nothing.
  pub preflight_foresees :
      (receipt : TransactionReceipt)
      → preflight_receipt s u ≡ some receipt
      → apply h s u ≡ (s, receipt)
  unfolding apply preflight_receipt
  preflight_foresees receipt p = ground arith

  -- Once an update has been applied, committed or refused, the preflight repeats its receipt.
  pub preflight-apply : preflight_receipt (apply h s u).0 u ≡ some (apply h s u).1
  preflight-apply = elim (Option-cases (get u.transaction_id s.receipts)) [
    | inl new ↦ elim (Bool-cases (current s u.ref_name == u.expected_old_oid)) [
      | inl t ↦ rw (apply-commit h s u new t) (
          preflight_recorded _ u _ (unfold commit in get-insert_self u.transaction_id _ s.receipts))
      | inr f ↦ rw (apply-refuse h s u new f) (
          preflight_recorded _ u _ (unfold refuse in get-insert_self u.transaction_id _ s.receipts))
    ]
    | inr (entry, e) ↦
        rw (apply_known h s u entry e) (unfold preflight_receipt in rw (e, preflight_receipt))
  ]
