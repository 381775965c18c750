-- ===== src/Accounts/Runs.antt =====
-- Any sequence of the operations of `AccountStore` on an empty store.
use git_mesh.Prelude.{
  ℕ, ◌≡◌, inl, inr, sym, true, some, Option, List, [], ◌∷◌, arith, Bytes, Result, ok, err,
  Result-cases, ok_or, ok-injective, >>=-eq-ok,
}
use git_mesh.Prelude.Order.{nat_ord, list_ord, pair_ord}
use git_mesh.SortedMap.{
  get, insert, contains_key, get-insert_self, get-insert_cases, contains_key-insert,
  contains_key_of_get,
}
use git_mesh.Core.Hash.{Blake3}
use git_mesh.Accounts.Fields.{AccountError, Username, invalid_session, validate_token_field}
use git_mesh.Accounts.Store.{
  AccountStore, AccountSession, NewAccountProfile, ProfileUpdate, RepositoryVisibility, empty_store,
  create_profile, update_profile, register_repository,
}
use git_mesh.Accounts.Store.Invariant.{
  IsConsistent, create_profile-IsConsistent, update_profile-IsConsistent,
  register_repository-IsConsistent,
}
use git_mesh.Accounts.Sessions.{
  IssuedSession, add_session, with_session, revoked, new_session, issue_session, revoke_session,
}
use git_mesh.Accounts.Sessions.Lifecycle.{issue_session-eq-ok}

pub data Operation : Type 0 where
  creates : NewAccountProfile → Operation
  updates : Username → ProfileUpdate → Operation
  issues : Username → Option Bytes → ℕ → Bytes → Operation
  revokes : Bytes → Operation
  registers : Username → Bytes → Bytes → RepositoryVisibility → Operation

-- The store after a call that may fail.
abbrev pub after {ℓ} :
    {A : Type ℓ} → AccountStore → Result AccountError (AccountStore × A) → AccountStore
after s (ok (t, a)) = t
after s (err e) = s

abbrev pub after_write : AccountStore → Result AccountError AccountStore → AccountStore
after_write s (ok t) = t
after_write s (err e) = s

pub add_session-IsConsistent :
    (x : AccountSession) (s : AccountStore)
    → contains_key x.username s.profiles ≡ true
    → IsConsistent s
    → IsConsistent (add_session x s)
unfolding add_session
add_session-IsConsistent x s has v = record {
  profile_key = v.profile_key;
  profile_index = v.profile_index;
  index_profile = v.index_profile;
  session_key = λ id y e. elim (get-insert_cases x.session_id id x y s.sessions e) [
    | inl (same, here) ↦ (rw here (sym same), rw here has)
    | inr (_, there) ↦ v.session_key id y there
  ];
  token_session = λ hash id e.
      elim (get-insert_cases x.token_hash hash x.session_id id s.session_tokens e) [
        | inl (_, here) ↦ rw here (
            contains_key_of_get x.session_id x (insert x.session_id x s.sessions)
              (get-insert_self x.session_id x s.sessions))
        | inr (_, there) ↦
            ground (
              arith,
              contains_key-insert x.session_id id x s.sessions,
              v.token_session hash id there,
            )
      ];
  repository_key = v.repository_key;
}

pub empty_store-IsConsistent : IsConsistent empty_store
unfolding get
empty_store-IsConsistent = record {
  profile_key = λ u p e. cc;
  profile_index = λ u p e. cc;
  index_profile = λ a u e. cc;
  session_key = λ id x e. cc;
  token_session = λ hash id e. cc;
  repository_key = λ o n r e. cc;
}

module _ (h : Blake3) where
  unfoldable pub step : AccountStore → ℕ × Operation → AccountStore
  step s (now, creates new) = after s (create_profile new now s)
  step s (now, updates name u) = (update_profile name u now s).0
  step s (now, issues name device ttl random) =
      after s (issue_session h name device ttl now random s)
  step s (now, revokes id) = after_write s (revoke_session id now s)
  step s (now, registers owner name repo_id visibility) =
      after s (register_repository owner name repo_id visibility now s)

  unfoldable pub run : AccountStore → List (ℕ × Operation) → AccountStore
  run s [] = s
  run s (o ∷ os) = run (step s o) os

  issue_session-owner :
      (name : Username) (device : Option Bytes) (ttl now : ℕ) (random : Bytes) (s t : AccountStore)
      (issued : IssuedSession)
      → issue_session h name device ttl now random s ≡ ok (t, issued)
      → contains_key name s.profiles ≡ true
  unfolding issue_session
  issue_session-owner name device ttl now random s t issued e = ground arith

  issue_session-IsConsistent :
      (name : Username) (device : Option Bytes) (ttl now : ℕ) (random : Bytes) (s t : AccountStore)
      (issued : IssuedSession)
      → issue_session h name device ttl now random s ≡ ok (t, issued)
      → IsConsistent s
      → IsConsistent t
  issue_session-IsConsistent name device ttl now random s t issued e v =
      let (store, _) = issue_session-eq-ok h name device ttl now random s t issued e in
      rw store (
        add_session-IsConsistent (new_session h name device ttl now random) s
          (unfold new_session in issue_session-owner name device ttl now random s t issued e) v)

  revoke_session-IsConsistent :
      (id : Bytes) (now : ℕ) (s t : AccountStore)
      → revoke_session id now s ≡ ok t
      → IsConsistent s
      → IsConsistent t
  unfolding revoke_session with_session
  revoke_session-IsConsistent id now s t e v =
      let (_, _, e1) = >>=-eq-ok (validate_token_field id) _ e in
      let (old, found, e2) = >>=-eq-ok (ok_or (get id s.sessions) invalid_session) _ e1 in
      let at : get id s.sessions ≡ some old = ground arith in
      let (key, has) = v.session_key id old at in
      rw (← ok-injective e2) (record {
        profile_key = v.profile_key;
        profile_index = v.profile_index;
        index_profile = v.index_profile;
        session_key = λ j y p. elim (get-insert_cases id j (revoked now old) y s.sessions p) [
          | inl (same, here) ↦ (rw (here, same) key, rw here has)
          | inr (_, there) ↦ v.session_key j y there
        ];
        token_session = λ hash j p. ground (
          arith,
          contains_key-insert id j (revoked now old) s.sessions,
          v.token_session hash j p,
        );
        repository_key = v.repository_key;
      })

  step-IsConsistent :
      (s : AccountStore) (o : ℕ × Operation) → IsConsistent s → IsConsistent (step s o)
  unfolding step
  step-IsConsistent s (now, creates new) v = elim (Result-cases (create_profile new now s)) [
    | inl ((t, p), e) ↦ rw e (create_profile-IsConsistent new now s t p e v)
    | inr (_, e) ↦ rw e v
  ]
  step-IsConsistent s (now, updates name u) v = update_profile-IsConsistent name u now s v
  step-IsConsistent s (now, issues name device ttl random) v =
      elim (Result-cases (issue_session h name device ttl now random s)) [
        | inl ((t, issued), e) ↦
            rw e (issue_session-IsConsistent name device ttl now random s t issued e v)
        | inr (_, e) ↦ rw e v
      ]
  step-IsConsistent s (now, revokes id) v = elim (Result-cases (revoke_session id now s)) [
    | inl (t, e) ↦ rw e (revoke_session-IsConsistent id now s t e v)
    | inr (_, e) ↦ rw e v
  ]
  step-IsConsistent s (now, registers owner name repo_id visibility) v =
      elim (Result-cases (register_repository owner name repo_id visibility now s)) [
        | inl ((t, r), e) ↦
            rw e (register_repository-IsConsistent owner name repo_id visibility now s t r e v)
        | inr (_, e) ↦ rw e v
      ]

  run_induction :
      (s : AccountStore) (os : List (ℕ × Operation)) → IsConsistent s → IsConsistent (run s os)
  unfolding run
  run_induction s [] v = v
  run_induction s (o ∷ os) v = run_induction (step s o) os (step-IsConsistent s o v)

  -- Whatever calls are made of an empty store, failing or not, its maps agree: profiles with the
  -- index of accounts, tokens with sessions, sessions and repositories with profiles.
  pub run-IsConsistent : (os : List (ℕ × Operation)) → IsConsistent (run empty_store os)
  run-IsConsistent os = run_induction empty_store os empty_store-IsConsistent
