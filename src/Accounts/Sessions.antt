-- ===== src/Accounts/Sessions.antt =====
-- The sessions of `AccountStore` of crates/gitmesh-accounts/src/lib.rs. The random bytes of a new
-- token are an argument.
pub mod Lifecycle
use git_mesh.Prelude.{
  ℕ, suc, ◌+◌, Bool, true, false, not, ◌&&◌, Option, none, some, [], ◌∷◌, ◌++◌, Bytes, codes,
  length, take, ltb, eqb, Result, ok, err, ok_or, fail_if, if◌then◌else◌, ◌>>=◌, ◌>>◌,
}
use git_mesh.Prelude.Order.{nat_ord, list_ord}
use git_mesh.SortedMap.{SortedMap, get, insert, contains_key}
use git_mesh.Text.Decimal.{decimal, max_u64}
use git_mesh.Text.Words.{be_bytes}
use git_mesh.Core.Hash.{Blake3}
use git_mesh.Core.Hex.{hex}
use git_mesh.Accounts.Fields.{
  AccountError, Username, account_not_found, invalid_session, invalid_session_ttl,
  validate_token_field,
}
use git_mesh.Accounts.Store.{AccountStore, AccountSession, checked}

abbrev pub is_none {ℓ} : {A : Type ℓ} → Option A → Bool
is_none none = true
is_none (some a) = false

unfoldable pub is_active_at : AccountSession → ℕ → Bool
is_active_at session now = is_none session.revoked_at_unix && ltb now session.expires_at_unix

pub record IssuedSession : Type 0 where
  pub token : Bytes
  pub session : AccountSession

-- The token that a client is given, of 32 random bytes.
unfoldable pub session_token : Bytes → Bytes
session_token random = hex random

-- The store with a session that is found by its token's hash.
unfoldable pub add_session : AccountSession → AccountStore → AccountStore
add_session session s = record s {
  sessions = insert session.session_id session s.sessions;
  session_tokens = insert session.token_hash session.session_id s.session_tokens;
}

module _ (h : Blake3) where
  unfoldable pub hash_session_token : Bytes → Bytes
  hash_session_token token =
      hex
        (h.hash (codes "gitmesh.v0.account-session-token" ++ (be_bytes 8 (length token) ++ token)))

  unfoldable pub session_id_of : Username → ℕ → Bytes → Bytes
  session_id_of username now token_hash = hex (
      take 16 (
        h.hash (
          codes "gitmesh.account-session."
          ++ (username ++ (b'.' ∷ (decimal now ++ (b'.' ∷ token_hash)))))))

  -- The session that the random bytes make, before the store is touched.
  unfoldable pub new_session : Username → Option Bytes → ℕ → ℕ → Bytes → AccountSession
  new_session username device_id ttl now random =
      let token_hash = hash_session_token (session_token random) in
      record {
        session_id = session_id_of username now token_hash;
        token_hash = token_hash;
        username = username;
        device_id = device_id;
        created_at_unix = now;
        expires_at_unix = now + ttl;
        revoked_at_unix = none;
      }

  -- `checked_add` refuses an expiry past 64 bits.
  unfoldable pub issue_session :
      Username
      → Option Bytes
      → ℕ
      → ℕ
      → Bytes
      → AccountStore
      → Result AccountError (AccountStore × IssuedSession)
  issue_session username device_id ttl now random s = do
    fail_if (eqb ttl 0) invalid_session_ttl
    fail_if (not (contains_key username s.profiles)) account_not_found
    checked validate_token_field device_id
    fail_if (ltb max_u64 (now + ttl)) invalid_session_ttl
    let session = new_session username device_id ttl now random
    ok (add_session session s, record { token = session_token random; session = session })

  unfoldable pub authenticate_session :
      Bytes → ℕ → AccountStore → Result AccountError AccountSession
  authenticate_session token now s = do
    validate_token_field token
    session_id ← ok_or (get (hash_session_token token) s.session_tokens) invalid_session
    session ← ok_or (get session_id s.sessions) invalid_session
    if is_active_at session now then ok session else err invalid_session

abbrev pub revoked : ℕ → AccountSession → AccountSession
revoked now session = record session { revoked_at_unix = some now }

-- The store with another value of one session.
unfoldable pub with_session : Bytes → AccountSession → AccountStore → AccountStore
with_session id session s = record s { sessions = insert id session s.sessions }

unfoldable pub revoke_session : Bytes → ℕ → AccountStore → Result AccountError AccountStore
revoke_session session_id now s = do
  validate_token_field session_id
  session ← ok_or (get session_id s.sessions) invalid_session
  ok (with_session session_id (revoked now session) s)

unfoldable pub count_active : ℕ → SortedMap Bytes AccountSession → ℕ
count_active now [] = 0
count_active now ((id, session) ∷ sessions) =
    let rest = count_active now sessions in if is_active_at session now then suc rest else rest

unfoldable pub active_session_count : ℕ → AccountStore → ℕ
active_session_count now s = count_active now s.sessions
