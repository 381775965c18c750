-- ===== src/Identity/Grant/Wire.antt =====
-- A grant that verifies, written and read.
use git_mesh.Prelude.{
  ℕ, ◌≡◌, ◌^◌, ◌<◌, refl, sym, subst, arith, Bytes, All, length, ok, >>=-eq-ok, require-eq-ok,
  eqb_self,
}
use git_mesh.Prelude.Order.{◌==◌, ==→eq, nat_ord, list_ord}
use git_mesh.Text.Decimal.{decimal, max_u64, parse-decimal}
use git_mesh.Core.Hash.{Blake3}
use git_mesh.Core.Hex.{hex}
use git_mesh.Core.Hex.RoundTrip.{IsByte, decode_hex-hex}
use git_mesh.Core.Cid
use git_mesh.Core.Cid.{
  Cid, to_text, from_text, cid_ord, protocol_object, blake3_256, new-IsCid, IsCid, kind_code,
  algorithm_code,
}
use git_mesh.Core.Cid.RoundTrip.{from_text-to_text}
use git_mesh.Crypto.{AeadAlgorithm, xchacha20_poly1305}
use git_mesh.Identity.Certificate.{invalid_key, identity_mismatch, Ed25519, id_from_verifying_key}
use git_mesh.Identity.Grant.{
  RepoKeyGrant, parse_u64, parse_protocol_cid, decode_hex, decode_fixed_hex, parse_aead_algorithm,
  encode_aead_algorithm, grant_fields, parse_fields, verify, validate_repo_id_text,
  from_wire_fields,
}

-- An array of `n` bytes.
pub record IsArray (n : ℕ) (s : Bytes) : Type 0 where
  pub width : length s ≡ n
  pub bytes : All IsByte s

-- The widths of a grant's fields.
pub record IsGrant (g : RepoKeyGrant) : Type 0 where
  pub epoch_fits : g.epoch < 2 ^ 64
  pub device_key : IsArray 32 g.recipient_device_verifying_key
  pub nonce : IsArray 24 g.wrapping_nonce
  pub ciphertext : All IsByte g.wrapped_key_ciphertext
  pub signer_key : IsArray 32 g.signer_account_verifying_key
  pub signed : IsArray 64 g.signature

decode_hex-hex_here : (s : Bytes) → All IsByte s → decode_hex (hex s) ≡ ok s
unfolding decode_hex
decode_hex-hex_here s h = rw (decode_hex-hex s h)

decode_fixed_hex-hex : (n : ℕ) (s : Bytes) → IsArray n s → decode_fixed_hex n (hex s) ≡ ok s
unfolding decode_fixed_hex
decode_fixed_hex-hex n s v = rw (decode_hex-hex_here s v.bytes, v.width, eqb_self n)

parse_u64-decimal : (n : ℕ) → n < 2 ^ 64 → parse_u64 (decimal n) ≡ ok n
unfolding parse_u64
parse_u64-decimal n h = rw (parse-decimal max_u64 n (omega arith))

parse_protocol_cid-to_text :
    (c : Cid)
    → IsCid c
    → kind_code c.kind ≡ kind_code protocol_object
    → algorithm_code c.hash_algorithm ≡ algorithm_code blake3_256
    → parse_protocol_cid (to_text c) ≡ ok c
unfolding parse_protocol_cid
parse_protocol_cid-to_text c v k a = rw (from_text-to_text c v, k, a) refl

parse_aead-encode : (a : AeadAlgorithm) → parse_aead_algorithm (encode_aead_algorithm a) ≡ ok a
unfolding parse_aead_algorithm encode_aead_algorithm
parse_aead-encode xchacha20_poly1305 = refl

module _ (h : Blake3) (e : Ed25519) where
  parse_id-to_text :
      (key : Bytes)
      → parse_protocol_cid (to_text (id_from_verifying_key h key))
        ≡ ok (id_from_verifying_key h key)
  unfolding id_from_verifying_key
  parse_id-to_text key =
      parse_protocol_cid-to_text (Cid.new h protocol_object blake3_256 key)
        (new-IsCid h protocol_object blake3_256 key) (unfold Cid.new in refl)
        (unfold Cid.new in refl)

  -- A grant that verifies names the identifiers of its two keys.
  verified_ids :
      (g : RepoKeyGrant)
      → verify h e g ≡ ok tt
      → (g.account_id ≡ id_from_verifying_key h g.signer_account_verifying_key)
        × (g.recipient_device_id ≡ id_from_verifying_key h g.recipient_device_verifying_key)
  unfolding verify
  verified_ids g done =
      let (_, _, e0) = >>=-eq-ok (validate_repo_id_text g.repo_id) _ done in
      let (_, e1) = require-eq-ok (e.is_key g.signer_account_verifying_key) invalid_key _ e0 in
      let (account, e2) =
        require-eq-ok (g.account_id == id_from_verifying_key h g.signer_account_verifying_key)
          identity_mismatch _ e1 in
      let (_, e3) = require-eq-ok (e.is_key g.recipient_device_verifying_key) invalid_key _ e2 in
      let (device, _) =
        require-eq-ok
          (g.recipient_device_id == id_from_verifying_key h g.recipient_device_verifying_key)
          identity_mismatch _ e3 in
      (==→eq g.account_id _ account, ==→eq g.recipient_device_id _ device)

  parse_id :
      (c : Cid) (key : Bytes)
      → c ≡ id_from_verifying_key h key
      → parse_protocol_cid (to_text c) ≡ ok c
  parse_id c key same =
      subst (λ c. parse_protocol_cid (to_text c) ≡ ok c) (sym same) (parse_id-to_text key)

  pub parse_fields-grant_fields :
      (g : RepoKeyGrant) → IsGrant g → verify h e g ≡ ok tt → parse_fields (grant_fields g) ≡ ok g
  unfolding parse_fields grant_fields
  parse_fields-grant_fields g v verified =
      let (account, device) = verified_ids g verified in
      rw (
        parse_u64-decimal g.epoch v.epoch_fits,
        parse_id g.account_id g.signer_account_verifying_key account,
        parse_id g.recipient_device_id g.recipient_device_verifying_key device,
        decode_fixed_hex-hex 32 g.recipient_device_verifying_key v.device_key,
        parse_aead-encode g.wrapping_algorithm,
        decode_fixed_hex-hex 24 g.wrapping_nonce v.nonce,
        decode_hex-hex_here g.wrapped_key_ciphertext v.ciphertext,
        decode_fixed_hex-hex 32 g.signer_account_verifying_key v.signer_key,
        decode_fixed_hex-hex 64 g.signature v.signed,
      )

  pub from_wire_fields-grant_fields :
      (g : RepoKeyGrant)
      → IsGrant g
      → verify h e g ≡ ok tt
      → from_wire_fields h e (grant_fields g) ≡ ok g
  unfolding from_wire_fields
  from_wire_fields-grant_fields g v verified = rw (parse_fields-grant_fields g v verified, verified)
