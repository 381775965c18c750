-- ===== src/Identity/GrantStore/Sound.antt =====
-- A store that is built by its operations, or loaded, holds grants that verify, each under its own
-- key, and revocations from a positive epoch.
use git_mesh.Prelude.{
  ℕ, ◌≡◌, ◌<◌, refl, subst, Option, none, some, List, [], ◌∷◌, arith, Bytes, All, codes, eqb,
  Result, ok, err, >>=-eq-ok, fail_if-eq-ok, ok-injective, Bool-cases, inl, inr,
}
use Prim.Native.Nat.Ordering.{lt, eq, gt}
use git_mesh.Prelude.Order.{Ord, ◌==◌, nat_ord, list_ord, pair_ord}
use git_mesh.SortedMap.{SortedMap, get, insert}
use git_mesh.SnapshotText.Loading.{load_lines_induction}
use git_mesh.Text.Split.{lines}
use git_mesh.Core.Hash.{Blake3}
use git_mesh.Core.Cid.{Cid, cid_ord}
use git_mesh.Identity.Certificate.{IdentityError, invalid_epoch, invalid_grant_store, Ed25519}
use git_mesh.Identity.Grant.{RepoKeyGrant, verify, parse_fields, parse_protocol_cid, parse_u64}
use git_mesh.Identity.GrantStore.{
  GrantKey, RepoKeyGrantStore, empty_store, grant_key, earlier, revoke_device_from_epoch,
  insert_grant, store_header, load_revoked, load_line, load_store, from_snapshot,
}

module _ {ℓ κ} {K : Type ℓ} {V : Type κ} ⦃o : Ord K⦄ (P : K × V → Type 0) where
  insert-All : (k : K) (v : V) (m : SortedMap K V) → P (k, v) → All P m → All P (insert k v m)
  unfolding insert
  insert-All k v [] p h = (p, tt)
  insert-All k v ((j, w) ∷ m) p (q, h) =
      elim (o.cmp k j)
        as (λ c.
          All P
            (elim c [ lt ↦ (k, v) ∷ (j, w) ∷ m | eq ↦ (k, v) ∷ m | gt ↦ (j, w) ∷ insert k v m ])) [
              | lt ↦ (p, (q, h))
              | eq ↦ (p, h)
              | gt ↦ (q, insert-All k v m p h)
            ]

earlier_positive :
    (from : ℕ) (o : Option ℕ) → 0 < from → ((n : ℕ) → o ≡ some n → 0 < n) → 0 < earlier from o
earlier_positive from none p f = p
earlier_positive from (some n) p f = ground (arith, f n refl)

some-injective : {a b : ℕ} → ◌≡◌ {A = Option ℕ} (some a) (some b) → a ≡ b
some-injective h = cc

abbrev pub IsPositive : Cid × ℕ → Type 0
IsPositive p = 0 < p.1

get_positive : (d : Cid) (n : ℕ) (m : SortedMap Cid ℕ) → All IsPositive m → get d m ≡ some n → 0 < n
unfolding get
get_positive d n [] v at = cc
get_positive d n ((c, k) ∷ m) (p, v) at = elim (Bool-cases (d == c)) [
  | inl here ↦ subst (λ n. 0 < n) (some-injective (rw here at at)) p
  | inr apart ↦ get_positive d n m v (rw apart at at)
]

refused :
    (s : RepoKeyGrantStore)
    → ◌≡◌ {A = Result IdentityError RepoKeyGrantStore} (err invalid_grant_store) (ok s)
    → ⊥
refused s k = cc

module _ (h : Blake3) (e : Ed25519) where
  abbrev pub IsVerified : GrantKey × RepoKeyGrant → Type 0
  IsVerified p = (p.0 ≡ grant_key p.1) × (verify h e p.1 ≡ ok tt)

  pub record IsSound (s : RepoKeyGrantStore) : Type 0 where
    pub verified : All IsVerified s.grants
    pub positive : All IsPositive s.revoked_devices

  pub insert_grant-IsSound :
      (g : RepoKeyGrant) (s t : RepoKeyGrantStore)
      → IsSound s
      → insert_grant h e g s ≡ ok t
      → IsSound t
  unfolding insert_grant
  insert_grant-IsSound g s t v done =
      let (_, checked, rest) = >>=-eq-ok (verify h e g) _ done in
      subst IsSound (ok-injective rest) (record {
        verified = insert-All IsVerified (grant_key g) g s.grants (refl, checked) v.verified;
        positive = v.positive;
      })

  pub revoke-IsSound :
      (d : Cid) (from : ℕ) (s t : RepoKeyGrantStore)
      → IsSound s
      → revoke_device_from_epoch d from s ≡ ok t
      → IsSound t
  unfolding revoke_device_from_epoch
  revoke-IsSound d from s t v done =
      let (some_epoch, rest) = fail_if-eq-ok (eqb from 0) invalid_epoch _ done in
      subst IsSound (ok-injective rest) (record {
        verified = v.verified;
        positive =
            insert-All IsPositive d (earlier from (get d s.revoked_devices)) s.revoked_devices
              (earlier_positive from (get d s.revoked_devices) (ground arith)
                (λ n at. get_positive d n s.revoked_devices v.positive at))
              v.positive;
      })

  load_revoked-IsSound :
      (s t : RepoKeyGrantStore) (fields : List Bytes)
      → IsSound s
      → load_revoked s fields ≡ ok t
      → IsSound t
  unfolding load_revoked
  load_revoked-IsSound s t [] v done = cc
  load_revoked-IsSound s t (d ∷ []) v done = cc
  load_revoked-IsSound s t (d ∷ from ∷ x ∷ fields) v done = cc
  load_revoked-IsSound s t (d ∷ from ∷ []) v done =
      let (device_id, _, e1) = >>=-eq-ok (parse_protocol_cid d) _ done in
      let (epoch, _, e2) = >>=-eq-ok (parse_u64 from) _ e1 in
      revoke-IsSound device_id epoch s t v e2

  load_line-IsSound :
      (s t : RepoKeyGrantStore) (parts : List Bytes)
      → IsSound s
      → load_line h e s parts ≡ ok t
      → IsSound t
  unfolding load_line
  load_line-IsSound s t [] v done = cc
  load_line-IsSound s t (tag ∷ fields) v done = elim (Bool-cases (tag == codes "grant")) [
    | inl grant ↦
        let (g, _, inserted) = >>=-eq-ok (parse_fields fields) _ (rw grant at done) in
        insert_grant-IsSound g s t v inserted
    | inr other ↦ elim (Bool-cases (tag == codes "revoked_device")) [
      | inl revoked ↦ load_revoked-IsSound s t fields v (rw (other, revoked) at done)
      | inr neither ↦ absurd (refused t (rw (other, neither) at done))
    ]
  ]

  load_store-IsSound :
      (ls : List Bytes) (s : RepoKeyGrantStore) → load_store h e ls ≡ ok s → IsSound s
  unfolding load_store
  load_store-IsSound [] s k = cc
  load_store-IsSound (header ∷ ls) s k = elim (Bool-cases (header == store_header)) [
    | inl same ↦
        load_lines_induction (load_line h e) IsSound load_line-IsSound empty_store s ls
          (record { verified = tt; positive = tt }) (rw same at k)
    | inr other ↦ absurd (refused s (rw other at k))
  ]

  -- A snapshot of grants that loads holds grants that verify, each under its own repository,
  -- epoch and device, and revocations from a positive epoch.
  pub from_snapshot-IsSound :
      (text : Bytes) (s : RepoKeyGrantStore) → from_snapshot h e text ≡ ok s → IsSound s
  unfolding from_snapshot
  from_snapshot-IsSound text s done = load_store-IsSound (lines text) s done
