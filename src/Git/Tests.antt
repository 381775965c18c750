-- ===== src/Git/Tests.antt =====
-- Stand-ins for SHA-1 and zlib, and the theorems about Git objects at concrete inputs.
use git_mesh.Prelude.{
  ℕ, zero, suc, ◌%◌, ◌≡◌, ◌≢◌, ◌≤◌, ◌<◌, ◌↔◌, refl, arith, Option, none, some, List, [], ◌∷◌, ◌++◌,
  Bytes, All, codes, length, ok, err, ◌>>=◌,
}
use git_mesh.Core.Tests.{repeat, sum, sum_hash-IsByte}
use git_mesh.Core.Hex.RoundTrip.{IsByte}
use git_mesh.Git.Object.{
  Sha1, Zlib, GitObject, blob, tag, canonical_object_bytes, parse_canonical_object, out_of_fuel,
  invalid_pack_delta, sha1_oid,
}
use git_mesh.Git.Object.RoundTrip.{parse_canonical_object-eq-ok}
use git_mesh.Git.Tree.{GitTreeEntry, parse_tree_entries}
use git_mesh.Git.Tree.Exact.{IsEntry, tree_bytes, parse_tree_entries-eq-ok}
use git_mesh.Git.Pack.Delta.{apply_pack_delta}
use git_mesh.Git.Pack.Delta.Spec.{DeltaOp, copy, insert}
use git_mesh.Git.Pack.Delta.Spelling.{IsPatch}
use git_mesh.Git.Pack.Delta.Sound.{apply_pack_delta-eq-ok}
use git_mesh.Git.Pack.Delta.Complete.{write_delta, apply_pack_delta-write_delta}
use git_mesh.Git.Pack.Entry.{PackEntry, oid_base, offset_base}
use git_mesh.Git.Pack.Resolve.{resolve_pack_entries}
use git_mesh.Git.Pack.Resolve.Depth.{resolve_to_depth, resolve_pack_entries_depth}
use git_mesh.Git.Pack.File.{parse_packfile, write_packfile}
use git_mesh.Git.Pack.File.RoundTrip.{parse_packfile-write_packfile}

-- The sum of the bytes, twenty times.
length-sum_digest : (m : Bytes) → length (repeat 20 (sum m % 256)) ≡ 20
length-sum_digest m = refl

sum_digest-IsByte : (m : Bytes) → All IsByte (repeat 20 (sum m % 256))
sum_digest-IsByte m = sum_hash-IsByte 20 (sum m % 256) (omega arith)

abbrev sum_digest : Sha1
sum_digest = record {
  digest_of = λ m. repeat 20 (sum m % 256);
  length-digest_of = length-sum_digest;
  digest_of-IsByte = sum_digest-IsByte;
}

-- A stream that puts 1 in front of each byte and 0 at its end.
abbrev stream : Bytes → Bytes
stream [] = 0 ∷ []
stream (b ∷ s) = 1 ∷ b ∷ stream s

abbrev add_byte : ℕ → Option (Bytes × ℕ) → Option (Bytes × ℕ)
add_byte b none = none
add_byte b (some (s, n)) = some (b ∷ s, suc (suc n))

abbrev unstream : Bytes → Option (Bytes × ℕ)
unstream [] = none
unstream (zero ∷ s) = some ([], 1)
unstream (suc k ∷ []) = none
unstream (suc k ∷ b ∷ s) = add_byte b (unstream s)

unstream-stream : (s rest : Bytes) → unstream (stream s ++ rest) ≡ some (s, length (stream s))
unstream-stream [] rest = refl
unstream-stream (b ∷ s) rest = rw (unstream-stream s rest)

unstream-le : (s p : Bytes) (n : ℕ) → unstream s ≡ some (p, n) → n ≤ length s
unstream-le [] p n h = cc
unstream-le (zero ∷ s) p n h = ground arith
unstream-le (suc k ∷ []) p n h = cc
unstream-le (suc k ∷ b ∷ s) p n h = added b (unstream s) s p n (unstream-le s) h
  where
    added :
        (b : ℕ) (r : Option (Bytes × ℕ)) (s p : Bytes) (n : ℕ)
        → ((p : Bytes) (n : ℕ) → r ≡ some (p, n) → n ≤ length s)
        → add_byte b r ≡ some (p, n)
        → n ≤ suc (suc (length s))
    added b none s p n f e = cc
    added b (some (q, m)) s p n f e = ground (arith, f q m refl)

stream_nonempty : (s : Bytes) → 0 < length (stream s)
stream_nonempty [] = omega arith
stream_nonempty (b ∷ s) = omega arith

abbrev marked_streams : Zlib
marked_streams = record {
  inflate = unstream;
  deflate = stream;
  inflate-deflate = unstream-stream;
  inflate-le = unstream-le;
  deflate_nonempty = stream_nonempty;
}

abbrev hello : GitObject
hello = record { kind = blob; payload = codes "hello" }

abbrev note : GitObject
note = record { kind = tag; payload = [] }

parse_canonical_object-eq-ok_example :
    (parse_canonical_object (canonical_object_bytes blob (codes "hello")) ≡ ok hello)
    ↔ (canonical_object_bytes blob (codes "hello") ≡ canonical_object_bytes blob (codes "hello"))
parse_canonical_object-eq-ok_example =
    parse_canonical_object-eq-ok (canonical_object_bytes blob (codes "hello")) hello (omega arith)

canonical_hello : canonical_object_bytes blob (codes "hello") ≡ codes "blob 5" ++ 0 ∷ codes "hello"
unfolding canonical_object_bytes git_mesh.Text.Decimal.decimal
canonical_hello = refl

-- An entry whose digest is twenty sevens.
abbrev readme : GitTreeEntry
readme = record {
  mode = codes "100644";
  name = codes "README";
  oid = record { digest = repeat 20 7 };
  target = git_mesh.Git.Tree.blob;
}

parse_tree_entries-eq-ok_example :
    (parse_tree_entries (tree_bytes (readme ∷ [])) ≡ ok (readme ∷ []))
    ↔ ((tree_bytes (readme ∷ []) ≡ tree_bytes (readme ∷ [])) × All IsEntry (readme ∷ []))
parse_tree_entries-eq-ok_example = parse_tree_entries-eq-ok (tree_bytes (readme ∷ [])) (readme ∷ [])

readme_read : parse_tree_entries (tree_bytes (readme ∷ [])) ≡ ok (readme ∷ [])
unfolding parse_tree_entries git_mesh.Git.Tree.parse_tree_entry git_mesh.Text.Search.cut
    git_mesh.Git.Tree.tree_entry_target
readme_read = refl

-- The delta that copies `bcd` from the base and appends `!`.
abbrev excited : List DeltaOp
excited = copy 1 3 ∷ insert (codes "!") ∷ []

apply_pack_delta-write_delta_example :
    apply_pack_delta (codes "abcde") (write_delta (codes "abcde") excited) ≡ ok (codes "bcd!")
apply_pack_delta-write_delta_example =
    apply_pack_delta-write_delta (codes "abcde") excited
      ((omega arith, omega arith), ((omega arith, omega arith), tt))
      ((omega arith, omega arith), (tt, tt)) (omega arith) (omega arith)

abbrev delta_bytes : Bytes
delta_bytes = 5 ∷ 4 ∷ 145 ∷ 1 ∷ 3 ∷ 1 ∷ b'!' ∷ []

delta_applied : apply_pack_delta (codes "abcde") delta_bytes ≡ ok (codes "bcd!")
unfolding apply_pack_delta git_mesh.Git.Pack.Delta.read_delta_varint
    git_mesh.Git.Pack.Delta.delta_command
delta_applied = refl

apply_pack_delta-eq-ok_example : IsPatch (codes "abcde") delta_bytes (codes "bcd!")
apply_pack_delta-eq-ok_example =
    apply_pack_delta-eq-ok (codes "abcde") delta_bytes (codes "bcd!") delta_applied

parse_packfile-write_packfile_example :
    (write_packfile marked_streams sum_digest (hello ∷ note ∷ [])
      >>= parse_packfile marked_streams sum_digest)
    ≡ ok (record { version = 2; objects = hello ∷ note ∷ [] })
parse_packfile-write_packfile_example =
    parse_packfile-write_packfile marked_streams sum_digest (hello ∷ note ∷ []) (omega arith)
      (omega arith, (omega arith, tt))

-- A delta on the entry in front of it, twelve bytes into the pack.
abbrev entries : List PackEntry
entries =
    record { offset = 12; kind = 3; payload = codes "abcde"; base = none }
    ∷ record { offset = 40; kind = 6; payload = delta_bytes; base = some (offset_base 12) }
    ∷ []

resolve_pack_entries_depth_example :
    (resolve_to_depth sum_digest 10 entries ≡ resolve_pack_entries sum_digest entries)
    × (resolve_pack_entries sum_digest entries ≢ err out_of_fuel)
resolve_pack_entries_depth_example = resolve_pack_entries_depth sum_digest entries 10 (omega arith)

entries_resolved :
    resolve_pack_entries sum_digest entries
    ≡ ok (
        record { kind = blob; payload = codes "abcde" }
        ∷ record { kind = blob; payload = codes "bcd!" }
        ∷ [])
unfolding resolve_pack_entries git_mesh.Git.Pack.Resolve.resolve_pack_entry
    git_mesh.Git.Pack.Resolve.resolve_round git_mesh.Git.Pack.Entry.full_object_kind
    git_mesh.SortedMap.get git_mesh.SortedMap.insert apply_pack_delta
    git_mesh.Git.Pack.Delta.read_delta_varint git_mesh.Git.Pack.Delta.delta_command
entries_resolved = refl

abbrev shouted : GitObject
shouted = record { kind = blob; payload = codes "bcd!" }

abbrev plain : GitObject
plain = record { kind = blob; payload = codes "abcde" }

-- The base of the first entry stands last, and the second entry is a delta on the first.
abbrev base_last : List PackEntry
base_last =
    record {
      offset = 12;
      kind = 7;
      payload = delta_bytes;
      base = some (oid_base (sha1_oid sum_digest plain));
    }
    ∷ record {
      offset = 50;
      kind = 7;
      payload = 4 ∷ 1 ∷ 1 ∷ b'x' ∷ [];
      base = some (oid_base (sha1_oid sum_digest shouted));
    }
    ∷ record { offset = 90; kind = 3; payload = codes "abcde"; base = none }
    ∷ []

-- The search for the base of the first entry leaves the second one marked as being resolved.
base_last_refused : resolve_pack_entries sum_digest base_last ≡ err invalid_pack_delta
unfolding resolve_pack_entries git_mesh.Git.Pack.Resolve.resolve_pack_entry
    git_mesh.Git.Pack.Resolve.resolve_round git_mesh.Git.Pack.Entry.full_object_kind
    git_mesh.SortedMap.get git_mesh.SortedMap.insert apply_pack_delta
    git_mesh.Git.Pack.Delta.read_delta_varint git_mesh.Git.Pack.Delta.delta_command sha1_oid
    canonical_object_bytes git_mesh.Text.Decimal.decimal
base_last_refused = refl

-- The same entries with the base in front.
base_first_resolved :
    resolve_pack_entries sum_digest (
      record { offset = 90; kind = 3; payload = codes "abcde"; base = none }
      ∷ record {
        offset = 12;
        kind = 7;
        payload = delta_bytes;
        base = some (oid_base (sha1_oid sum_digest plain));
      }
      ∷ record {
        offset = 50;
        kind = 7;
        payload = 4 ∷ 1 ∷ 1 ∷ b'x' ∷ [];
        base = some (oid_base (sha1_oid sum_digest shouted));
      }
      ∷ [])
    ≡ ok (plain ∷ shouted ∷ record { kind = blob; payload = codes "x" } ∷ [])
unfolding resolve_pack_entries git_mesh.Git.Pack.Resolve.resolve_pack_entry
    git_mesh.Git.Pack.Resolve.resolve_round git_mesh.Git.Pack.Entry.full_object_kind
    git_mesh.SortedMap.get git_mesh.SortedMap.insert apply_pack_delta
    git_mesh.Git.Pack.Delta.read_delta_varint git_mesh.Git.Pack.Delta.delta_command sha1_oid
    canonical_object_bytes git_mesh.Text.Decimal.decimal
base_first_resolved = refl
