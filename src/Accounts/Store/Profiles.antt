-- ===== src/Accounts/Store/Profiles.antt =====
-- What the operations on profiles do, errors included.
use git_mesh.Prelude.{
  ℕ, ◌≡◌, ◌<◌, refl, none, some, arith, Bytes, length, lt→ltb, ok, err, if◌then◌else◌,
}
use git_mesh.Prelude.Order.{nat_ord, list_ord, ◌==◌}
use git_mesh.SortedMap.{get, get-insert, get-insert_self, get_of_not_contains}
use git_mesh.Core.Cid.{to_text}
use git_mesh.Accounts.Fields.{Username, invalid_profile_field, validate_profile_field}
use git_mesh.Accounts.Store.Invariant.{create_profile-eq-ok}
use git_mesh.Accounts.Store.{
  AccountStore, AccountProfile, NewAccountProfile, ProfileUpdate, create_profile, update_profile,
  update_fields, update_bio, profile, profile_by_account_id,
}

-- A profile that is created had a free name, is found by its name and by its account afterwards,
-- and a lookup of any other name finds what it found.
pub profile-create_profile :
    (new : NewAccountProfile) (now : ℕ) (s t : AccountStore) (p : AccountProfile) (name : Username)
    → create_profile new now s ≡ ok (t, p)
    → (profile new.username s ≡ none)
      × (profile_by_account_id (to_text new.account_id) t ≡ some p)
      × (profile name t ≡ (if name == new.username then some p else profile name s))
unfolding profile profile_by_account_id
profile-create_profile new now s t p other e =
    let (free_name, free_account, store, name, account) = create_profile-eq-ok new now s t p e in
    let here : get new.username t.profiles ≡ some p =
      rw (store, ← name) (get-insert_self p.username p s.profiles) in
    let back : get (to_text new.account_id) t.account_index ≡ some new.username =
      rw (store, ← name, ← account) (get-insert_self p.account_id p.username s.account_index) in
    (
      get_of_not_contains new.username s.profiles free_name,
      rw (back, profile_by_account_id) here,
      rw (store, get-insert p.username other p s.profiles, name) refl,
    )

too_long :
    (value : Bytes) (max_len : ℕ)
    → max_len < length value
    → validate_profile_field value max_len ≡ err invalid_profile_field
unfolding validate_profile_field
too_long value max_len h = rw (lt→ltb max_len (length value) h)

update_fields_partial :
    (u : ProfileUpdate) (shown bio : Bytes) (now : ℕ) (p : AccountProfile)
    → u.display_name ≡ some shown
    → validate_profile_field shown 96 ≡ ok tt
    → u.bio ≡ some bio
    → 512 < length bio
    → update_fields u now p ≡ (record p { display_name = shown }, err invalid_profile_field)
unfolding update_fields update_bio
update_fields_partial u shown bio now p a b c d = ground (arith, too_long bio 512 d)

-- An update of a stored profile whose display name is accepted and whose biography is longer
-- than 512 bytes fails, and the new display name stays in the store, under the old time of
-- update.
pub update_profile_partial :
    (name : Username) (u : ProfileUpdate) (shown bio : Bytes) (now : ℕ) (s : AccountStore)
    (p : AccountProfile)
    → get name s.profiles ≡ some p
    → u.display_name ≡ some shown
    → validate_profile_field shown 96 ≡ ok tt
    → u.bio ≡ some bio
    → 512 < length bio
    → ((update_profile name u now s).1 ≡ err invalid_profile_field)
      × (profile name (update_profile name u now s).0 ≡ some (record p { display_name = shown }))
unfolding profile update_profile
update_profile_partial name u shown bio now s p found a b c d =
    rw (found, update_profile, update_fields_partial u shown bio now p a b c d)
      (refl, get-insert_self name (record p { display_name = shown }) s.profiles)
