-- ===== src/Git/Pack/File/RoundTrip.antt =====
-- A pack that is written is read back.
use git_mesh.Prelude.{
  ℕ, suc, ◌+◌, ◌-◌, ◌^◌, ◌≡◌, ◌<◌, refl, sym, ap, ◌∙◌, arith, false, none, List, [], ◌∷◌, ◌++◌,
  append_assoc, Bytes, All, codes, length, length-append, take, drop, take-append, drop-append, ltb,
  leb, eqb_self, ok, ◌>>=◌,
}
use git_mesh.Prelude.Order.{==_self, nat_ord, list_ord}
use git_mesh.Git.Object.{GitObjectKind, blob, tree, commit, tag, GitObject, Sha1, Zlib}
use git_mesh.Git.Pack.Header.{write_pack_object_header, read_be_u32}
use git_mesh.Git.Pack.Header.RoundTrip.{parse_pack_object_header-write_pack_object_header}
use git_mesh.Git.Pack.Entry.{
  PackEntry, parse_pack_entry, parse_base, inflate_pack_object, full_object_kind, pack_kind_code,
}
use git_mesh.Git.Pack.Resolve.Full.{AllFull, resolve_pack_entries_full}
use git_mesh.Git.Pack.File.{be_u32, parse_entries, write_entries, parse_packfile, write_packfile}

abbrev pub full_entry : ℕ → GitObject → PackEntry
full_entry offset object = record {
  offset = offset;
  kind = pack_kind_code object.kind;
  payload = object.payload;
  base = none;
}

pack_kind_code-lt : (k : GitObjectKind) → pack_kind_code k < 6
unfolding pack_kind_code
pack_kind_code-lt blob = omega arith
pack_kind_code-lt tree = omega arith
pack_kind_code-lt commit = omega arith
pack_kind_code-lt tag = omega arith

parse_base-none :
    (kind start : ℕ) (bytes : Bytes) → kind < 6 → parse_base kind bytes start ≡ ok (none, 0)
unfolding parse_base
parse_base-none kind start bytes h = ground arith

read_be_u32-be_u32 : (n : ℕ) → n < 2 ^ 32 → read_be_u32 (be_u32 n) ≡ ok n
unfolding read_be_u32 be_u32
read_be_u32-be_u32 n h = ap ok (omega arith)

abbrev packed : Bytes → ℕ → Bytes
packed body count = codes "PACK" ++ (be_u32 2 ++ (be_u32 count ++ body))

before_end : (p d : Bytes) → length d ≡ 20 → length (p ++ d) - 20 ≡ length p
before_end p d h = omega (arith, h, length-append p d)

long_enough :
    (body digest whole : ℕ)
    → whole ≡ body + digest
    → digest ≡ 20
    → ltb (suc (suc (suc (suc (suc (suc (suc (suc (suc (suc (suc (suc whole)))))))))))) 32 ≡ false
long_enough body digest whole e k = ground arith

fits_u32 : (n : ℕ) → n < 2 ^ 32 → leb (2 ^ 32) n ≡ false
fits_u32 n h = ground arith

module _ (z : Zlib) where
  inflate_pack_object-deflate :
      (payload rest : Bytes)
      → inflate_pack_object z (z.deflate payload ++ rest) ≡ ok (payload, length (z.deflate payload))
  unfolding inflate_pack_object
  inflate_pack_object-deflate payload rest =
      ground (arith, z.inflate-deflate payload rest, z.deflate_nonempty payload)

  abbrev header_of : GitObject → Bytes
  header_of o = write_pack_object_header (pack_kind_code o.kind) (length o.payload)

  abbrev size_of : GitObject → ℕ
  size_of o = length (header_of o) + 0 + length (z.deflate o.payload)

  drop_header : (header rest : Bytes) → drop (length header + 0) (header ++ rest) ≡ rest
  drop_header header rest =
      ap (λ n. drop n (header ++ rest)) (omega arith) ∙ drop-append header rest

  parse_pack_entry-write :
      (o : GitObject) (start : ℕ) (rest : Bytes)
      → length o.payload < 2 ^ 64
      → parse_pack_entry z start (header_of o ++ (z.deflate o.payload ++ rest))
        ≡ ok (full_entry start o, size_of o)
  unfolding parse_pack_entry
  parse_pack_entry-write o start rest fits = rw (
    parse_pack_object_header-write_pack_object_header (pack_kind_code o.kind) (length o.payload)
        (z.deflate o.payload ++ rest) (omega (arith, pack_kind_code-lt o.kind)) fits,
    parse_base-none (pack_kind_code o.kind) start
        (drop (length (header_of o)) (header_of o ++ (z.deflate o.payload ++ rest)))
        (pack_kind_code-lt o.kind),
    drop_header (header_of o) (z.deflate o.payload ++ rest),
    inflate_pack_object-deflate o.payload rest,
    eqb_self (length o.payload),
  )

  abbrev pub entries_at : ℕ → List GitObject → List PackEntry
  entries_at start [] = []
  entries_at start (o ∷ os) = full_entry start o ∷ entries_at (start + size_of o) os

  drop_entry :
      (o : GitObject) (rest : Bytes)
      → drop (size_of o) (header_of o ++ (z.deflate o.payload ++ rest)) ≡ rest
  drop_entry o rest =
      ap (λ n. drop n (header_of o ++ (z.deflate o.payload ++ rest)))
        (omega (arith, length-append (header_of o) (z.deflate o.payload)))
      ∙ ap (λ s. drop (length (header_of o ++ z.deflate o.payload)) s)
          (sym (append_assoc (header_of o) (z.deflate o.payload) rest))
      ∙ drop-append (header_of o ++ z.deflate o.payload) rest

  parse_entries-write_entries :
      (os : List GitObject) (start : ℕ)
      → All (λ o. length o.payload < 2 ^ 64) os
      → parse_entries z (length os) start (write_entries z os) ≡ ok (entries_at start os, [])
  unfolding parse_entries write_entries
  parse_entries-write_entries [] start h = refl
  parse_entries-write_entries (o ∷ os) start (fits, h) = rw (
    parse_pack_entry-write o start (write_entries z os) fits,
    drop_entry o (write_entries z os),
    parse_entries-write_entries os (start + size_of o) h,
  )

  kind_of_code : (k : GitObjectKind) → full_object_kind (pack_kind_code k) ≡ ok k
  unfolding full_object_kind pack_kind_code
  kind_of_code blob = refl
  kind_of_code tree = refl
  kind_of_code commit = refl
  kind_of_code tag = refl

  entries_at-AllFull : (start : ℕ) (os : List GitObject) → AllFull (entries_at start os) os
  entries_at-AllFull start [] = tt
  entries_at-AllFull start (o ∷ os) = (
    record { no_base = refl; same_payload = refl; same_kind = kind_of_code o.kind },
    entries_at-AllFull (start + size_of o) os,
  )

  module _ (h : Sha1) where
    parse_packfile-parts :
        (bytes front body : Bytes) (count : ℕ) (os : List GitObject) (entries : List PackEntry)
        → ltb (length bytes) 32 ≡ false
        → take 4 bytes ≡ codes "PACK"
        → take (length bytes - 20) bytes ≡ front
        → drop (length bytes - 20) bytes ≡ h.digest_of front
        → read_be_u32 (take 4 (drop 4 bytes)) ≡ ok 2
        → read_be_u32 (take 4 (drop 8 bytes)) ≡ ok count
        → drop 12 front ≡ body
        → parse_entries z count 12 body ≡ ok (entries, [])
        → AllFull entries os
        → parse_packfile z h bytes ≡ ok (record { version = 2; objects = os })
    unfolding parse_packfile
    parse_packfile-parts bytes front body count os entries long magic at_front at_digest version
          number at_body parsed full =
        rw (
          long,
          magic,
          at_front,
          at_digest,
          ==_self (h.digest_of front),
          version,
          number,
          at_body,
          parsed,
          resolve_pack_entries_full h entries os full,
        )

    parse_packfile-body :
        (body : Bytes) (count : ℕ) (os : List GitObject) (entries : List PackEntry)
        → count < 2 ^ 32
        → parse_entries z count 12 body ≡ ok (entries, [])
        → AllFull entries os
        → parse_packfile z h (packed body count ++ h.digest_of (packed body count))
          ≡ ok (record { version = 2; objects = os })
    unfolding be_u32
    parse_packfile-body body count os entries low parsed full =
        let end =
          before_end (packed body count) (h.digest_of (packed body count))
            (h.length-digest_of (packed body count)) in
        parse_packfile-parts (packed body count ++ h.digest_of (packed body count))
          (packed body count) body count os entries
          (long_enough (length body) (length (h.digest_of (packed body count)))
            (length (body ++ h.digest_of (packed body count)))
            (length-append body (h.digest_of (packed body count)))
            (h.length-digest_of (packed body count)))
          refl
          (ap (λ n. take n (packed body count ++ h.digest_of (packed body count))) end
            ∙ take-append (packed body count) (h.digest_of (packed body count)))
          (ap (λ n. drop n (packed body count ++ h.digest_of (packed body count))) end
            ∙ drop-append (packed body count) (h.digest_of (packed body count)))
          (read_be_u32-be_u32 2 (omega arith)) (read_be_u32-be_u32 count low) refl parsed full

    -- A pack that is written for fewer than 2 ^ 32 objects, with payloads shorter than 2 ^ 64
    -- bytes, is read back as those objects in their order.
    pub parse_packfile-write_packfile :
        (os : List GitObject)
        → length os < 2 ^ 32
        → All (λ o. length o.payload < 2 ^ 64) os
        → (write_packfile z h os >>= parse_packfile z h) ≡ ok (record { version = 2; objects = os })
    unfolding write_packfile
    parse_packfile-write_packfile os low fits = rw (fits_u32 (length os) low) (
        parse_packfile-body (write_entries z os) (length os) os (entries_at 12 os) low
          (parse_entries-write_entries os 12 fits) (entries_at-AllFull 12 os))
