-- ===== src/Core/Envelope/Injective.antt =====
-- Different inputs are hashed as different byte strings.
use git_mesh.Prelude.{
  ℕ, ◌^◌, ◌≤◌, ◌<◌, ◌≡◌, sym, ◌∙◌, ◌++◌, arith, Bytes, codes, length, append_assoc, append_cancel,
  append_cancel_left, ok,
}
use git_mesh.Text.Decimal.{max_u32}
use git_mesh.Text.Words.{be_bytes, length-be_bytes, be_bytes-injective}
use git_mesh.Core.Cid.{
  Cid, CidKind, HashAlgorithm, IsCid, kind_code, algorithm_code, cid_transcript,
  kind_code-injective, algorithm_code-injective,
}
use git_mesh.Core.Envelope.{
  ProtocolEnvelope, put_bytes, put_string, canonical_bytes, shard_transcript,
}

-- A fixed-width number in front of two texts is the same in both, and so are the rests.
pub be_bytes_cancel :
    (w a b : ℕ) (us vs : Bytes)
    → a < 256 ^ w
    → b < 256 ^ w
    → be_bytes w a ++ us ≡ be_bytes w b ++ vs
    → (a ≡ b) × (us ≡ vs)
be_bytes_cancel w a b us vs p q e =
    let (front, rest) =
      append_cancel (be_bytes w a) (be_bytes w b) us vs
        (length-be_bytes w a ∙ sym (length-be_bytes w b)) e in
    (be_bytes-injective w a b p q front, rest)

-- A text behind its length, with more behind it.
abbrev pub framed : ℕ → Bytes → Bytes
framed w s = be_bytes w (length s) ++ s

pub framed_cancel :
    (w : ℕ) (s t us vs : Bytes)
    → length s < 256 ^ w
    → length t < 256 ^ w
    → framed w s ++ us ≡ framed w t ++ vs
    → (s ≡ t) × (us ≡ vs)
framed_cancel w s t us vs p q e =
    let (n, rest) = be_bytes_cancel w (length s) (length t) (s ++ us) (t ++ vs) p q (
      sym (append_assoc (be_bytes w (length s)) s us)
      ∙ (e ∙ append_assoc (be_bytes w (length t)) t vs)) in
    append_cancel s t us vs n rest

-- The bytes that a content identifier hashes determine its kind, its algorithm and its payload,
-- where the payload's length fits in 64 bits.
pub cid_transcript-injective :
    (k l : CidKind) (a b : HashAlgorithm) (p q : Bytes)
    → length p < 2 ^ 64
    → length q < 2 ^ 64
    → cid_transcript k a p ≡ cid_transcript l b q
    → (k ≡ l) × (a ≡ b) × (p ≡ q)
unfolding cid_transcript
cid_transcript-injective k l a b p q hp hq e =
    let e1 = append_cancel_left (codes "gitmesh.v0.cid") _ _ e in
    let (ek, e2) =
      be_bytes_cancel 2 (kind_code k) (kind_code l) _ _ (ground arith) (ground arith) e1 in
    let (ea, e3) =
      be_bytes_cancel 2 (algorithm_code a) (algorithm_code b) _ _ (ground arith) (ground arith)
        e2 in
    let (_, e4) = be_bytes_cancel 8 (length p) (length q) p q hp hq e3 in
    (kind_code-injective k l ek, algorithm_code-injective a b ea, e4)

canonical_bytes-eq-ok :
    (e : ProtocolEnvelope) (bs : Bytes)
    → canonical_bytes e ≡ ok bs
    → (length e.domain ≤ max_u32)
      × (length e.body ≤ max_u32)
      × (bs
          ≡ codes "gitmesh-envelope-v0"
            ++ (framed 4 e.domain
                ++ (be_bytes 4 e.version
                    ++ (be_bytes 2 (algorithm_code e.hash_algorithm) ++ framed 4 e.body))))
unfolding canonical_bytes put_string put_bytes
canonical_bytes-eq-ok e bs h = ground arith

-- Two envelopes whose versions fit in 32 bits and that have one encoding are the same envelope.
pub canonical_bytes-injective :
    (e f : ProtocolEnvelope) (bs : Bytes)
    → e.version < 2 ^ 32
    → f.version < 2 ^ 32
    → canonical_bytes e ≡ ok bs
    → canonical_bytes f ≡ ok bs
    → e ≡ f
canonical_bytes-injective e f bs ve vf he hf =
    let (de, be, se) = canonical_bytes-eq-ok e bs he in
    let (df, bf, sf) = canonical_bytes-eq-ok f bs hf in
    let e1 = append_cancel_left (codes "gitmesh-envelope-v0") _ _ (sym se ∙ sf) in
    let (d, e2) = framed_cancel 4 e.domain f.domain _ _ (omega arith) (omega arith) e1 in
    let (v, e3) = be_bytes_cancel 4 e.version f.version _ _ ve vf e2 in
    let (a, e4) =
      be_bytes_cancel 2 (algorithm_code e.hash_algorithm) (algorithm_code f.hash_algorithm) _ _
        (ground arith) (ground arith) e3 in
    let (_, b) =
      be_bytes_cancel 4 (length e.body) (length f.body) e.body f.body (omega arith) (omega arith)
        e4 in
    let alg = algorithm_code-injective e.hash_algorithm f.hash_algorithm a in
    λ i. record { domain = d i; version = v i; hash_algorithm = alg i; body = b i }

-- The bytes that a shard's identifier hashes determine the digest of its segment, its index and
-- its bytes, where index and length fit in 64 bits.
pub shard_transcript-injective :
    (c d : Cid) (i j : ℕ) (p q : Bytes)
    → IsCid c
    → IsCid d
    → i < 2 ^ 64
    → j < 2 ^ 64
    → length p < 2 ^ 64
    → length q < 2 ^ 64
    → shard_transcript c i p ≡ shard_transcript d j q
    → (c.digest ≡ d.digest) × (i ≡ j) × (p ≡ q)
unfolding shard_transcript
shard_transcript-injective c d i j p q vc vd hi hj hp hq e =
    let e1 = append_cancel_left (codes "gitmesh.v0.shard") _ _ e in
    let (dig, e2) = append_cancel c.digest d.digest _ _ (vc.width ∙ sym vd.width) e1 in
    let (index, e3) = be_bytes_cancel 8 i j _ _ hi hj e2 in
    let (_, e4) = be_bytes_cancel 8 (length p) (length q) p q hp hq e3 in (dig, index, e4)
