-- ===== src/Identity/GrantStore/Active.antt =====
-- Which grants are active after a revocation.
use git_mesh.Prelude.{
  ℕ, ◌≡◌, ◌≢◌, ◌≤◌, ◌<◌, refl, sym, ap, ◌∙◌, subst, Bool, true, false, not, ◌&&◌, ◌||◌, Option,
  none, some, [], ◌∷◌, arith, Bytes, All, leb, eqb, eqb→eq, All-map, ok, fail_if-eq-ok,
  ok-injective, Bool-cases, inl, inr,
}
use git_mesh.Prelude.Order.{◌==◌, ==→eq, ==_self, nat_ord, list_ord, pair_ord}
use git_mesh.SortedMap.{SortedMap, get, insert, get-insert}
use git_mesh.Core.Cid.{Cid, cid_ord}
use git_mesh.Identity.Certificate.{invalid_epoch}
use git_mesh.Identity.Grant.{RepoKeyGrant}
use git_mesh.Identity.GrantStore.{
  GrantKey, RepoKeyGrantStore, grant_key, is_from, earlier, is_device_revoked_for_epoch,
  revoke_device_from_epoch, select, active_grants_for_epoch, grant_for_device,
}

is_from-earlier :
    (epoch from : ℕ) (before : Option ℕ)
    → is_from epoch (some (earlier from before)) ≡ (leb from epoch || is_from epoch before)
is_from-earlier epoch from none = ground arith
is_from-earlier epoch from (some b) = ground arith

-- Exactly the device is revoked, and exactly from that epoch on.
pub is_device_revoked_for_epoch-revoke :
    (s t : RepoKeyGrantStore) (device_id other : Cid) (from epoch : ℕ)
    → revoke_device_from_epoch device_id from s ≡ ok t
    → is_device_revoked_for_epoch t other epoch
      ≡ (((other == device_id) && leb from epoch) || is_device_revoked_for_epoch s other epoch)
unfolding revoke_device_from_epoch is_device_revoked_for_epoch
is_device_revoked_for_epoch-revoke s t device_id other from epoch h =
    let (_, done) = fail_if-eq-ok (eqb from 0) invalid_epoch _ h in
    subst
      (λ (t : RepoKeyGrantStore).
        is_from epoch (get other t.revoked_devices)
        ≡ (((other == device_id) && leb from epoch) || is_from epoch (get other s.revoked_devices)))
      (ok-injective done) (in_map other device_id from epoch s.revoked_devices)
  where
    in_map :
        (other device_id : Cid) (from epoch : ℕ) (m : SortedMap Cid ℕ)
        → is_from epoch (get other (insert device_id (earlier from (get device_id m)) m))
          ≡ (((other == device_id) && leb from epoch) || is_from epoch (get other m))
    in_map other device_id from epoch m = elim (Bool-cases (other == device_id)) [
      | inl same ↦
          rw
            (
              get-insert device_id other (earlier from (get device_id m)) m,
              same,
              ==→eq other device_id same,
            )
            (is_from-earlier epoch from (get device_id m))
      | inr apart ↦ rw (get-insert device_id other (earlier from (get device_id m)) m, apart) refl
    ]

-- Every grant is kept under its own key.
abbrev pub IsKeyed : RepoKeyGrantStore → Type 0
IsKeyed s = All (λ (p : GrantKey × RepoKeyGrant). p.0 ≡ grant_key p.1) s.grants

select-All :
    (p : GrantKey → Bool) (Q : RepoKeyGrant → Type 0) (m : SortedMap GrantKey RepoKeyGrant)
    → All (λ (e : GrantKey × RepoKeyGrant). e.0 ≡ grant_key e.1) m
    → ((g : RepoKeyGrant) → p (grant_key g) ≡ true → Q g)
    → All Q (select p m)
unfolding select
select-All p Q [] v f = tt
select-All p Q ((k, g) ∷ m) (same, v) f = elim (Bool-cases (p k)) [
  | inl taken ↦ rw taken (f g (ap p (sym same) ∙ taken), select-All p Q m v f)
  | inr left ↦ rw left (select-All p Q m v f)
]

three_tests : (a b c : Bool) → (a && (b && not c)) ≡ true → (a ≡ true) × (b ≡ true) × (c ≡ false)
three_tests a b c h = (ground arith, ground arith, ground arith)

-- What is active is of the repository and the epoch, and for a device that is not revoked.
abbrev pub IsCurrent : RepoKeyGrantStore → Bytes → ℕ → RepoKeyGrant → Type 0
IsCurrent s repo_id epoch g =
    (g.repo_id ≡ repo_id)
    × (g.epoch ≡ epoch)
    × (is_device_revoked_for_epoch s g.recipient_device_id epoch ≡ false)

pub active_grants_for_epoch-IsCurrent :
    (s : RepoKeyGrantStore) (repo_id : Bytes) (epoch : ℕ)
    → IsKeyed s
    → All (IsCurrent s repo_id epoch) (active_grants_for_epoch s repo_id epoch)
unfolding active_grants_for_epoch
active_grants_for_epoch-IsCurrent s repo_id epoch v =
    select-All
      (λ k.
        (k.0 == repo_id) && (eqb k.1.0 epoch && not (is_device_revoked_for_epoch s k.1.1 epoch)))
      _ s.grants v
      (λ g h.
        let (here, now, active) = three_tests _ _ _ h in
        (==→eq g.repo_id repo_id here, eqb→eq g.epoch epoch now, active))

select-agree :
    (p q : GrantKey → Bool) (m : SortedMap GrantKey RepoKeyGrant)
    → ((k : GrantKey) → p k ≡ q k)
    → select p m ≡ select q m
unfolding select
select-agree p q [] f = refl
select-agree p q ((k, g) ∷ m) f = rw (f k, select-agree p q m f)

same_grants :
    (s t : RepoKeyGrantStore) (device_id : Cid) (from : ℕ)
    → revoke_device_from_epoch device_id from s ≡ ok t
    → t.grants ≡ s.grants
unfolding revoke_device_from_epoch
same_grants s t device_id from h =
    let (_, done) = fail_if-eq-ok (eqb from 0) invalid_epoch _ h in
    ap (λ (t : RepoKeyGrantStore). t.grants) (sym (ok-injective done))

unaffected :
    (epoch from : ℕ) (b before : Bool) → epoch < from → ((b && leb from epoch) || before) ≡ before
unaffected epoch from b before h = ground arith

abbrev active_test : RepoKeyGrantStore → Bytes → ℕ → GrantKey → Bool
active_test s repo_id epoch k =
    (k.0 == repo_id) && (eqb k.1.0 epoch && not (is_device_revoked_for_epoch s k.1.1 epoch))

active_grants-earlier :
    (s t : RepoKeyGrantStore) (device_id : Cid) (from epoch : ℕ) (repo_id : Bytes)
    → revoke_device_from_epoch device_id from s ≡ ok t
    → epoch < from
    → active_grants_for_epoch t repo_id epoch ≡ active_grants_for_epoch s repo_id epoch
unfolding active_grants_for_epoch
active_grants-earlier s t device_id from epoch repo_id h before =
    ap (λ m. select (active_test t repo_id epoch) m) (same_grants s t device_id from h)
    ∙ select-agree (active_test t repo_id epoch) (active_test s repo_id epoch) s.grants (λ k.
      ap (λ b. (k.0 == repo_id) && (eqb k.1.0 epoch && not b))
        (is_device_revoked_for_epoch-revoke s t device_id k.1.1 from epoch h
          ∙ unaffected epoch from (k.1.1 == device_id) (is_device_revoked_for_epoch s k.1.1 epoch)
              before))

revoked_now :
    (s t : RepoKeyGrantStore) (device_id : Cid) (from epoch : ℕ)
    → revoke_device_from_epoch device_id from s ≡ ok t
    → from ≤ epoch
    → is_device_revoked_for_epoch t device_id epoch ≡ true
revoked_now s t device_id from epoch h after =
    is_device_revoked_for_epoch-revoke s t device_id device_id from epoch h
    ∙ rw (==_self device_id)
        (covered from epoch (is_device_revoked_for_epoch s device_id epoch) after)
  where
    covered : (from epoch : ℕ) (b : Bool) → from ≤ epoch → (leb from epoch || b) ≡ true
    covered from epoch b h = ground arith

-- In a store that keeps each grant under its own key, once a device is revoked from an epoch on,
-- no grant for it is active at that epoch or a later one, and at an earlier epoch the active
-- grants are what they were.
pub active_grants-revoke :
    (s t : RepoKeyGrantStore) (device_id : Cid) (from epoch : ℕ) (repo_id : Bytes)
    → IsKeyed s
    → revoke_device_from_epoch device_id from s ≡ ok t
    → (from ≤ epoch
        → All
            (λ (g : RepoKeyGrant). g.recipient_device_id ≢ device_id)
            (active_grants_for_epoch t repo_id epoch)
          × (grant_for_device t repo_id epoch device_id ≡ none))
      × (epoch < from
          → active_grants_for_epoch t repo_id epoch ≡ active_grants_for_epoch s repo_id epoch)
unfolding grant_for_device
active_grants-revoke s t device_id from epoch repo_id v h = (
  λ after. (
    All-map (clash (revoked_now s t device_id from epoch h after))
        (active_grants_for_epoch t repo_id epoch)
        (active_grants_for_epoch-IsCurrent t repo_id epoch
          (rw (same_grants s t device_id from h) v)),
    rw (revoked_now s t device_id from epoch h after) refl,
  ),
  active_grants-earlier s t device_id from epoch repo_id h,
)
  where
    clash :
        is_device_revoked_for_epoch t device_id epoch ≡ true
        → (g : RepoKeyGrant) → IsCurrent t repo_id epoch g
        → g.recipient_device_id ≢ device_id
    clash revoked g (_, _, active) e = cc
