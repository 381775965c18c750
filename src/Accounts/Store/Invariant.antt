-- ===== src/Accounts/Store/Invariant.antt =====
-- The maps of an account store agree with one another.
use git_mesh.Prelude.{
  ℕ, ◌≡◌, inl, inr, sym, ap, ◌∙◌, true, false, none, some, arith, Bytes, ok, Option-cases,
  Bool-cases,
}
use git_mesh.Prelude.Order.{nat_ord, list_ord, pair_ord, ◌==◌, ==→eq}
use git_mesh.SortedMap.{
  get, insert, contains_key, get-insert, get-insert_self, get-insert_cases, get-insert_other,
  contains_key-insert, get_of_not_contains, keys_differ,
}
use git_mesh.Core.Cid.{to_text}
use git_mesh.Accounts.Fields.{Username}
use git_mesh.Accounts.Store.{
  AccountStore, AccountProfile, NewAccountProfile, AccountSession, RepositoryRegistration,
  RepositoryVisibility, ProfileUpdate, create_profile, update_fields, update_bio, update_avatar,
  update_profile, register_repository,
}

pub record IsConsistent (s : AccountStore) : Type 0 where
  -- A profile is stored under its own name, and its account leads back to it.
  pub profile_key : (u : Username) (p : AccountProfile) → get u s.profiles ≡ some p → p.username ≡ u
  pub profile_index :
      (u : Username) (p : AccountProfile)
      → get u s.profiles ≡ some p
      → get p.account_id s.account_index ≡ some u
  pub index_profile :
      (a : Bytes) (u : Username)
      → get a s.account_index ≡ some u
      → (p : AccountProfile) × (get u s.profiles ≡ some p) × (p.account_id ≡ a)
  -- A session is stored under its own identifier and belongs to a profile; a token leads to one.
  pub session_key :
      (id : Bytes) (x : AccountSession)
      → get id s.sessions ≡ some x
      → (x.session_id ≡ id) × (contains_key x.username s.profiles ≡ true)
  pub token_session :
      (token_hash id : Bytes)
      → get token_hash s.session_tokens ≡ some id
      → contains_key id s.sessions ≡ true
  -- A registration is stored under its owner and name, and its owner has a profile.
  pub repository_key :
      (o : Username) (n : Bytes) (r : RepositoryRegistration)
      → get (o, n) s.repositories ≡ some r
      → (r.owner ≡ o) × (r.name ≡ n) × (contains_key o s.profiles ≡ true)

-- The store with one more profile.
abbrev pub with_profile : AccountProfile → AccountStore → AccountStore
with_profile p s = record s {
  profiles = insert p.username p s.profiles;
  account_index = insert p.account_id p.username s.account_index;
}

contains_more :
    (p : AccountProfile) (u : Username) (s : AccountStore)
    → contains_key u s.profiles ≡ true
    → contains_key u (with_profile p s).profiles ≡ true
contains_more p u s h = ground (arith, contains_key-insert p.username u p s.profiles)

-- What a successful creation has checked and done.
pub create_profile-eq-ok :
    (new : NewAccountProfile) (now : ℕ) (s t : AccountStore) (p : AccountProfile)
    → create_profile new now s ≡ ok (t, p)
    → (contains_key new.username s.profiles ≡ false)
      × (contains_key (to_text new.account_id) s.account_index ≡ false)
      × (t ≡ with_profile p s)
      × (p.username ≡ new.username)
      × (p.account_id ≡ to_text new.account_id)
unfolding create_profile
create_profile-eq-ok new now s t p e = ground arith

pub with_profile-IsConsistent :
    (p : AccountProfile) (s : AccountStore)
    → get p.username s.profiles ≡ none
    → get p.account_id s.account_index ≡ none
    → IsConsistent s
    → IsConsistent (with_profile p s)
with_profile-IsConsistent p s new_name new_account v = record {
  profile_key = λ u q e. elim (get-insert_cases p.username u p q s.profiles e) [
    | inl (same, here) ↦ ground arith
    | inr (_, there) ↦ v.profile_key u q there
  ];
  profile_index = λ u q e. elim (get-insert_cases p.username u p q s.profiles e) [
    | inl (same, here) ↦ rw (here, same) (get-insert_self p.account_id p.username s.account_index)
    | inr (_, there) ↦
        get-insert_other p.account_id q.account_id p.username s.account_index (
          keys_differ q.account_id p.account_id u s.account_index (v.profile_index u q there)
            new_account)
        ∙ v.profile_index u q there
  ];
  index_profile = λ a u e. elim (get-insert_cases p.account_id a p.username u s.account_index e) [
    | inl (same, here) ↦ (p, rw here (get-insert_self p.username p s.profiles), sym same)
    | inr (_, there) ↦
        let (q, at, id) = v.index_profile a u there in
        (
          q,
          get-insert_other p.username u p s.profiles
                (keys_differ u p.username q s.profiles at new_name)
              ∙ at,
          id,
        )
  ];
  session_key = λ id x e.
      let (key, owner) = v.session_key id x e in (key, contains_more p x.username s owner);
  token_session = v.token_session;
  repository_key = λ o n r e.
      let (owner, name, has) = v.repository_key o n r e in (owner, name, contains_more p o s has);
}

-- A stored profile may change in all but its name and its account.
pub replace_profile-IsConsistent :
    (name : Username) (p q : AccountProfile) (s : AccountStore)
    → get name s.profiles ≡ some p
    → q.username ≡ p.username
    → q.account_id ≡ p.account_id
    → IsConsistent s
    → IsConsistent (record s { profiles = insert name q s.profiles })
replace_profile-IsConsistent name p q s found same_name same_account v = record {
  profile_key = λ u r e. elim (get-insert_cases name u q r s.profiles e) [
    | inl (same, here) ↦ rw (here, same, same_name) (v.profile_key name p found)
    | inr (_, there) ↦ v.profile_key u r there
  ];
  profile_index = λ u r e. elim (get-insert_cases name u q r s.profiles e) [
    | inl (same, here) ↦ rw (here, same, same_account) (v.profile_index name p found)
    | inr (_, there) ↦ v.profile_index u r there
  ];
  index_profile = λ a u e.
      let (r, at, id) = v.index_profile a u e in
      elim (Bool-cases (u == name)) [
        | inl same ↦ (
          q,
          rw (get-insert name u q s.profiles, same),
          same_account ∙ ground (arith, ==→eq u name),
        )
        | inr other ↦ (r, get-insert_other name u q s.profiles other ∙ at, id)
      ];
  session_key = λ id x e.
      let (key, owner) = v.session_key id x e in
      (key, ground (arith, contains_key-insert name x.username q s.profiles));
  token_session = v.token_session;
  repository_key = λ o n r e.
      let (owner, key, has) = v.repository_key o n r e in
      (owner, key, ground (arith, contains_key-insert name o q s.profiles));
}

-- A new profile keeps the maps of the store in agreement.
pub create_profile-IsConsistent :
    (new : NewAccountProfile) (now : ℕ) (s t : AccountStore) (p : AccountProfile)
    → create_profile new now s ≡ ok (t, p)
    → IsConsistent s
    → IsConsistent t
create_profile-IsConsistent new now s t p e v =
    let (free_name, free_account, store, name, account) = create_profile-eq-ok new now s t p e in
    rw store (
      with_profile-IsConsistent p s (rw name (get_of_not_contains _ _ free_name))
        (rw account (get_of_not_contains _ _ free_account)) v)

update_fields-username :
    (u : ProfileUpdate) (now : ℕ) (p : AccountProfile)
    → ((update_fields u now p).0.username ≡ p.username)
      × ((update_fields u now p).0.account_id ≡ p.account_id)
unfolding update_fields update_bio update_avatar
update_fields-username u now p = ground arith

pub update_profile-IsConsistent :
    (name : Username) (u : ProfileUpdate) (now : ℕ) (s : AccountStore)
    → IsConsistent s
    → IsConsistent (update_profile name u now s).0
unfolding update_profile
update_profile-IsConsistent name u now s v = elim (Option-cases (get name s.profiles)) [
  | inl missing ↦ rw (missing, update_profile) v
  | inr (p, found) ↦
      let (same_name, same_account) = update_fields-username u now p in
      rw (found, update_profile)
        (replace_profile-IsConsistent name p (update_fields u now p).0 s found same_name
          same_account v)
]

register_repository-eq-ok :
    (owner : Username) (name repo_id : Bytes) (visibility : RepositoryVisibility) (now : ℕ)
    (s t : AccountStore) (r : RepositoryRegistration)
    → register_repository owner name repo_id visibility now s ≡ ok (t, r)
    → (contains_key owner s.profiles ≡ true)
      × (t ≡ record s { repositories = insert (owner, name) r s.repositories })
      × (r.owner ≡ owner)
      × (r.name ≡ name)
unfolding register_repository
register_repository-eq-ok owner name repo_id visibility now s t r e = ground arith

pub with_repository-IsConsistent :
    (r : RepositoryRegistration) (s : AccountStore)
    → contains_key r.owner s.profiles ≡ true
    → IsConsistent s
    → IsConsistent (record s { repositories = insert (r.owner, r.name) r s.repositories })
with_repository-IsConsistent r s has_owner v = record {
  profile_key = v.profile_key;
  profile_index = v.profile_index;
  index_profile = v.index_profile;
  session_key = v.session_key;
  token_session = v.token_session;
  repository_key = λ o n q at.
      elim (get-insert_cases (r.owner, r.name) (o, n) r q s.repositories at) [
        | inl (same, here) ↦ (
          rw here (sym (ap (λ k. k.0) same)),
          rw here (sym (ap (λ k. k.1) same)),
          rw (ap (λ k. k.0) same) has_owner,
        )
        | inr (_, there) ↦ v.repository_key o n q there
      ];
}

pub register_repository-IsConsistent :
    (owner : Username) (name repo_id : Bytes) (visibility : RepositoryVisibility) (now : ℕ)
    (s t : AccountStore) (r : RepositoryRegistration)
    → register_repository owner name repo_id visibility now s ≡ ok (t, r)
    → IsConsistent s
    → IsConsistent t
register_repository-IsConsistent owner name repo_id visibility now s t r e v =
    let (has_owner, store, same_owner, same_name) =
      register_repository-eq-ok owner name repo_id visibility now s t r e in
    rw (store, ← same_owner, ← same_name)
      (with_repository-IsConsistent r s (rw same_owner has_owner) v)
