-- ===== src/Accounts/Snapshot/Consistent.antt =====
-- What an account snapshot that loads holds.
use git_mesh.Prelude.{
  ◌≡◌, ◌⊎◌, Bool, false, not, ◌||◌, List, [], ◌∷◌, arith, Bytes, Result, ok, fail_if, subst,
  ok-injective, >>=-eq-ok, Bool-cases, inl, inr, ◌>>=◌,
}
use git_mesh.Prelude.Order.{◌==◌, nat_ord, list_ord, pair_ord}
use git_mesh.SortedMap.{contains_key, get_of_not_contains}
use git_mesh.Text.Split.{lines}
use git_mesh.SnapshotText.{load_lines}
use git_mesh.SnapshotText.Loading.{load_lines_induction}
use git_mesh.Accounts.Fields.{
  AccountError, invalid_snapshot, username, validate_repository_name, validate_profile_field,
  validate_uri_field, validate_token_field, parse_u64,
}
use git_mesh.Accounts.Store.{AccountStore}
use git_mesh.Accounts.Store.Invariant.{
  IsConsistent, with_profile-IsConsistent, with_repository-IsConsistent,
}
use git_mesh.Accounts.Runs.{add_session-IsConsistent, empty_store-IsConsistent}
use git_mesh.Accounts.Snapshot.{
  Pending, empty_pending, snapshot_header, load_profile, load_line, load_session, load_repository,
  load_all, load_store, from_snapshot, parse_device, parse_revoked, parse_visibility,
}

passed :
    (b : Bool)
    → ◌≡◌ {A = Result AccountError (Unit {0})} (fail_if b invalid_snapshot) (ok tt)
    → b ≡ false
passed b h = ground arith

load_profile-IsConsistent :
    (s t : AccountStore) (fields : List Bytes)
    → IsConsistent s
    → load_profile s fields ≡ ok t
    → IsConsistent t
unfolding load_profile
load_profile-IsConsistent s t
      (name ∷ account_id ∷ display_name ∷ bio ∷ avatar_uri ∷ created ∷ updated ∷ []) v e0 =
    let (user, _, e1) = >>=-eq-ok (username name) _ e0 in
    let (_, _, e2) = >>=-eq-ok (validate_token_field account_id) _ e1 in
    let (_, free, e3) =
      >>=-eq-ok
        (fail_if (contains_key user s.profiles || contains_key account_id s.account_index)
          invalid_snapshot)
        _ e2 in
    let (created_at, _, e4) = >>=-eq-ok (parse_u64 created) _ e3 in
    let (updated_at, _, e5) = >>=-eq-ok (parse_u64 updated) _ e4 in
    let (_, _, e6) = >>=-eq-ok (validate_profile_field display_name 96) _ e5 in
    let (_, _, e7) = >>=-eq-ok (validate_profile_field bio 512) _ e6 in
    let (_, _, e8) = >>=-eq-ok (validate_uri_field avatar_uri) _ e7 in
    let both = passed _ free in
    subst IsConsistent (ok-injective e8) (
      with_profile-IsConsistent _ s (get_of_not_contains user s.profiles (ground arith))
        (get_of_not_contains account_id s.account_index (ground arith)) v)
load_profile-IsConsistent s t _ v e0 = cc

load_line-eq-ok :
    (w x : Pending) (tag : Bytes) (fields : List Bytes)
    → load_line w (tag ∷ fields) ≡ ok x
    → (load_profile w.store fields ≡ ok x.store) ⊎ (w.store ≡ x.store)
unfolding load_line
load_line-eq-ok w x tag fields e = ground arith

load_line-IsConsistent :
    (w x : Pending) (fields : List Bytes)
    → IsConsistent w.store
    → load_line w fields ≡ ok x
    → IsConsistent x.store
unfolding load_line
load_line-IsConsistent w x [] v e = cc
load_line-IsConsistent w x (tag ∷ fields) v e = elim (load_line-eq-ok w x tag fields e) [
  | inl loaded ↦ load_profile-IsConsistent w.store x.store fields v loaded
  | inr same ↦ subst IsConsistent same v
]

load_session-IsConsistent :
    (s t : AccountStore) (fields : List Bytes)
    → IsConsistent s
    → load_session s fields ≡ ok t
    → IsConsistent t
unfolding load_session
load_session-IsConsistent s t (id ∷ hash ∷ name ∷ device ∷ created ∷ expires ∷ revoked ∷ []) v e0 =
    let (user, _, e1) = >>=-eq-ok (username name) _ e0 in
    let (_, has_user, e2) =
      >>=-eq-ok (fail_if (not (contains_key user s.profiles)) invalid_snapshot) _ e1 in
    let (_, _, e3) = >>=-eq-ok (validate_token_field id) _ e2 in
    let (_, _, e4) = >>=-eq-ok (validate_token_field hash) _ e3 in
    let (device_id, _, e5) = >>=-eq-ok (parse_device device) _ e4 in
    let (created_at, _, e6) = >>=-eq-ok (parse_u64 created) _ e5 in
    let (expires_at, _, e7) = >>=-eq-ok (parse_u64 expires) _ e6 in
    let (revoked_at, _, e8) = >>=-eq-ok (parse_revoked revoked) _ e7 in
    let (_, _, e9) =
      >>=-eq-ok
        (fail_if (contains_key id s.sessions || contains_key hash s.session_tokens)
          invalid_snapshot)
        _ e8 in
    let stored = passed _ has_user in
    subst IsConsistent (ok-injective e9) (add_session-IsConsistent _ s (ground arith) v)
load_session-IsConsistent s t _ v e0 = cc

load_repository-IsConsistent :
    (s t : AccountStore) (fields : List Bytes)
    → IsConsistent s
    → load_repository s fields ≡ ok t
    → IsConsistent t
unfolding load_repository
load_repository-IsConsistent s t (owner ∷ name ∷ repo_id ∷ visibility ∷ created ∷ []) v e0 =
    let (user, _, e1) = >>=-eq-ok (username owner) _ e0 in
    let (_, has_user, e2) =
      >>=-eq-ok (fail_if (not (contains_key user s.profiles)) invalid_snapshot) _ e1 in
    let (_, _, e3) = >>=-eq-ok (validate_repository_name name) _ e2 in
    let (_, _, e4) = >>=-eq-ok (validate_token_field repo_id) _ e3 in
    let (shown, _, e5) = >>=-eq-ok (parse_visibility visibility) _ e4 in
    let (created_at, _, e6) = >>=-eq-ok (parse_u64 created) _ e5 in
    let (_, _, e7) =
      >>=-eq-ok (fail_if (contains_key (user, name) s.repositories) invalid_snapshot) _ e6 in
    let stored = passed _ has_user in
    subst IsConsistent (ok-injective e7) (with_repository-IsConsistent _ s (ground arith) v)
load_repository-IsConsistent s t _ v e0 = cc

load_all_induction :
    (step : AccountStore → List Bytes → Result AccountError AccountStore)
    (keep : (s t : AccountStore) (fields : List Bytes)
      → IsConsistent s
      → step s fields ≡ ok t
      → IsConsistent t)
    (s t : AccountStore) (rest : List (List Bytes))
    → IsConsistent s
    → load_all step s rest ≡ ok t
    → IsConsistent t
unfolding load_all
load_all_induction step keep s t [] v e = subst IsConsistent (ok-injective e) v
load_all_induction step keep s t (fields ∷ rest) v e =
    let (next, stepped, more) = >>=-eq-ok (step s fields) _ e in
    load_all_induction step keep next t rest (keep s next fields v stepped) more

load_store-IsConsistent :
    (ls : List Bytes) (s : AccountStore) → load_store ls ≡ ok s → IsConsistent s
unfolding load_store
load_store-IsConsistent [] s e = cc
load_store-IsConsistent (header ∷ rest) s e = elim (Bool-cases (header == snapshot_header)) [
  | inr f ↦ ground arith
  | inl t ↦
      let run : (load_lines load_line empty_pending rest >>= λ w.
      load_all load_session w.store w.sessions >>= λ s1. load_all load_repository s1 w.repositories)
          ≡ ok s =
        ground arith in
      let (w, first, e1) = >>=-eq-ok (load_lines load_line empty_pending rest) _ run in
      let (s1, second, third) = >>=-eq-ok (load_all load_session w.store w.sessions) _ e1 in
      let loaded =
        load_lines_induction load_line (λ w. IsConsistent w.store)
          (λ w x fields v e. load_line-IsConsistent w x fields v e) empty_pending w rest
          empty_store-IsConsistent first in
      load_all_induction load_repository load_repository-IsConsistent s1 s w.repositories
        (load_all_induction load_session load_session-IsConsistent w.store s1 w.sessions loaded
          second)
        third
]

-- An account snapshot that loads gives a store whose maps agree: profiles with the index of
-- accounts, tokens with sessions, sessions and repositories with profiles.
pub from_snapshot-IsConsistent :
    (text : Bytes) (s : AccountStore) → from_snapshot text ≡ ok s → IsConsistent s
unfolding from_snapshot
from_snapshot-IsConsistent text s e = load_store-IsConsistent (lines text) s e
