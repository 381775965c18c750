-- ===== src/Accounts/Sessions/Lifecycle.antt =====
-- A session from its issue to its expiry or revocation.
use git_mesh.Prelude.{
  ℕ, ◌+◌, ◌≡◌, refl, ◌∙◌, none, some, Option, arith, Bytes, All, All-map, length, ltb, ok, err,
  ok_or, ok-injective, >>=-eq-ok, if◌then◌else◌, ◌>>◌,
}
use git_mesh.Prelude.Order.{nat_ord, list_ord, option_ord, ◌==◌, ==→eq}
use git_mesh.SortedMap.{get, get-insert, get-insert_self}
use git_mesh.Text.Spaces.{IsVisible, has_whitespace-visible}
use git_mesh.Core.Hash.{Blake3}
use git_mesh.Core.Hex.{hex}
use git_mesh.Core.Hex.RoundTrip.{IsByte, IsLowerHex, hex-IsLowerHex, length-hex}
use git_mesh.Accounts.Fields.{Username, invalid_session, validate_token_field}
use git_mesh.Accounts.Store.{AccountStore, AccountSession}
use git_mesh.Accounts.Sessions.{
  IssuedSession, is_active_at, session_token, hash_session_token, new_session, issue_session,
  authenticate_session, revoke_session, add_session, with_session, revoked,
}

IsLowerHex-IsVisible : (c : ℕ) → IsLowerHex c → IsVisible c
IsLowerHex-IsVisible c h = grind arith

-- A token passes the check of token fields.
validate_session_token :
    (random : Bytes)
    → length random ≡ 32
    → All IsByte random
    → validate_token_field (session_token random) ≡ ok tt
unfolding validate_token_field session_token
validate_session_token random n h = grind (
  arith,
  length-hex random,
  has_whitespace-visible (hex random)
      (All-map IsLowerHex-IsVisible (hex random) (hex-IsLowerHex random h)),
)

module _ (h : Blake3) where
  pub issue_session-eq-ok :
      (name : Username) (device : Option Bytes) (ttl now : ℕ) (random : Bytes) (s t : AccountStore)
      (issued : IssuedSession)
      → issue_session h name device ttl now random s ≡ ok (t, issued)
      → (t ≡ add_session (new_session h name device ttl now random) s)
        × (issued ≡ record {
          token = session_token random;
          session = new_session h name device ttl now random;
        })
  unfolding issue_session
  issue_session-eq-ok name device ttl now random s t issued e = ground arith

  authenticate_found :
      (token id : Bytes) (session : AccountSession) (now : ℕ) (s : AccountStore)
      → validate_token_field token ≡ ok tt
      → get (hash_session_token h token) s.session_tokens ≡ some id
      → get id s.sessions ≡ some session
      → authenticate_session h token now s
        ≡ (if is_active_at session now then ok session else err invalid_session)
  unfolding authenticate_session
  authenticate_found token id session now s v p q = rw (v, p, q)

  authenticate_new :
      (name : Username) (device : Option Bytes) (ttl now : ℕ) (random : Bytes) (s : AccountStore)
      (later : ℕ)
      → validate_token_field (session_token random) ≡ ok tt
      → authenticate_session h
          (session_token random)
          later
          (add_session (new_session h name device ttl now random) s)
        ≡ (if ltb later (now + ttl)
            then ok (new_session h name device ttl now random)
            else err invalid_session)
  authenticate_new name device ttl now random s later v =
      let new = new_session h name device ttl now random in
      authenticate_found (session_token random) new.session_id new later (add_session new s) v
        (unfold add_session new_session in
          get-insert_self (hash_session_token h (session_token random)) _ s.session_tokens)
        (unfold add_session in get-insert_self new.session_id new s.sessions)
      ∙ (unfold new_session is_active_at in refl)

  -- A session whose token is made of 32 random bytes, once issued, is found by that token, and
  -- is accepted until it expires and no longer.
  pub authenticate-issue :
      (name : Username) (device : Option Bytes) (ttl now : ℕ) (random : Bytes) (s t : AccountStore)
      (issued : IssuedSession) (later : ℕ)
      → length random ≡ 32
      → All IsByte random
      → issue_session h name device ttl now random s ≡ ok (t, issued)
      → authenticate_session h issued.token later t
        ≡ (if ltb later (now + ttl) then ok issued.session else err invalid_session)
  authenticate-issue name device ttl now random s t issued later n b e =
      let (store, out) = issue_session-eq-ok name device ttl now random s t issued e in
      rw (store, out)
        (authenticate_new name device ttl now random s later (validate_session_token random n b))

  authenticate_revoked :
      (id : Bytes) (now : ℕ) (s : AccountStore) (token : Bytes) (later : ℕ) (old : AccountSession)
      (found : Option Bytes)
      → get (hash_session_token h token) s.session_tokens ≡ found
      → authenticate_session h token later (with_session id (revoked now old) s) ≡ (
          if found == some id
          then (validate_token_field token >> err invalid_session)
          else authenticate_session h token later s)
  unfolding authenticate_session with_session is_active_at
  authenticate_revoked id now s token later old none e = rw e
  authenticate_revoked id now s token later old (some id') e =
      rw e (ground (arith, get-insert id id' (revoked now old) s.sessions, ==→eq id' id))

  -- Once a session is revoked, every well-formed token that leads to it is refused at all times;
  -- every other token is answered as before.
  pub authenticate-revoke :
      (id : Bytes) (now : ℕ) (s t : AccountStore) (token : Bytes) (later : ℕ)
      → revoke_session id now s ≡ ok t
      → authenticate_session h token later t ≡ (
          if get (hash_session_token h token) s.session_tokens == some id
          then (validate_token_field token >> err invalid_session)
          else authenticate_session h token later s)
  unfolding revoke_session
  authenticate-revoke id now s t token later r =
      let (_, _, e1) = >>=-eq-ok (validate_token_field id) _ r in
      let (old, _, e2) = >>=-eq-ok (ok_or (get id s.sessions) invalid_session) _ e1 in
      rw (← ok-injective e2) (authenticate_revoked id now s token later old _ refl)
