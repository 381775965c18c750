-- ===== src/Git/Object/RoundTrip.antt =====
-- Canonical objects, written and read: the text of an object is unique.
use git_mesh.Prelude.{
  ℕ, ◌^◌, ◌≡◌, ◌≢◌, ◌<◌, ◌↔◌, refl, sym, ap, ◌∙◌, subst, arith, false, ◌&&◌, ◌||◌, not, [], ◌∷◌,
  ◌++◌, append_assoc, Bytes, All-map, All-append, codes, length, ltb, eqb, eqb_self, is_empty, ok,
  ok_or, >>=-eq-ok, fail_if-eq-ok, ok_or-eq-ok, ok-injective,
}
use git_mesh.Prelude.Order.{nat_ord, list_ord, ==→eq}
use git_mesh.Text.Search.{cut, cut-append, cut-eq-some, starts_with, Lacks}
use git_mesh.Text.Decimal.{decimal, scan, max_u64, decimal-IsDigit, IsDigit}
use git_mesh.Text.Decimal.Exact.{scan-decimal, decimal-scan, IsPlain, decimal-IsPlain}
use git_mesh.Git.Object.{
  invalid_length, malformed_header, missing_header_terminator, length_mismatch, GitObjectKind, blob,
  tree, commit, tag, GitObject, kind_bytes, parse_kind, canonical_object_bytes, parse_ascii_usize,
  parse_canonical_object,
}

parse_kind-kind_bytes : (k : GitObjectKind) → parse_kind (kind_bytes k) ≡ ok k
unfolding parse_kind kind_bytes
parse_kind-kind_bytes blob = refl
parse_kind-kind_bytes tree = refl
parse_kind-kind_bytes commit = refl
parse_kind-kind_bytes tag = refl

kind_bytes-parse_kind : (s : Bytes) (k : GitObjectKind) → parse_kind s ≡ ok k → s ≡ kind_bytes k
unfolding parse_kind kind_bytes
kind_bytes-parse_kind s k h = ground (
  arith,
  ==→eq s (codes "blob"),
  ==→eq s (codes "tree"),
  ==→eq s (codes "commit"),
  ==→eq s (codes "tag"),
)

IsPlain-check :
    (s : Bytes)
    → IsPlain s
    → (is_empty s || (ltb 1 (length s) && starts_with (codes "0") s)) ≡ false
unfolding starts_with
IsPlain-check [] h = absurd h
IsPlain-check (c ∷ []) h = refl
IsPlain-check (c ∷ d ∷ s) h = ground arith

check-IsPlain :
    (s : Bytes)
    → (is_empty s || (ltb 1 (length s) && starts_with (codes "0") s)) ≡ false
    → IsPlain s
unfolding starts_with
check-IsPlain [] h = absurd cc
check-IsPlain (c ∷ []) h = tt
check-IsPlain (c ∷ d ∷ s) h = λ e. ground arith

parse_ascii_usize-decimal : (n : ℕ) → n < 2 ^ 64 → parse_ascii_usize (decimal n) ≡ ok n
unfolding parse_ascii_usize
parse_ascii_usize-decimal n h =
    rw (IsPlain-check (decimal n) (decimal-IsPlain n), scan-decimal max_u64 n (omega arith)) refl

decimal-parse_ascii_usize : (s : Bytes) (n : ℕ) → parse_ascii_usize s ≡ ok n → s ≡ decimal n
unfolding parse_ascii_usize
decimal-parse_ascii_usize s n h =
    let (plain, read) =
      fail_if-eq-ok (is_empty s || (ltb 1 (length s) && starts_with (codes "0") s)) invalid_length _
        h in
    decimal-scan max_u64 s n (check-IsPlain s plain)
      (ok_or-eq-ok (scan max_u64 0 s) invalid_length read)

kind_bytes-Lacks : (b : ℕ) (k : GitObjectKind) → b < 97 → Lacks b (kind_bytes k)
unfolding kind_bytes
kind_bytes-Lacks b blob h = ground arith
kind_bytes-Lacks b tree h = ground arith
kind_bytes-Lacks b commit h = ground arith
kind_bytes-Lacks b tag h = ground arith

decimal-Lacks : (b n : ℕ) → b < b'0' → Lacks b (decimal n)
decimal-Lacks b n h = All-map digit_apart (decimal n) (decimal-IsDigit n)
  where
    digit_apart : (c : ℕ) → IsDigit c → c ≢ b
    digit_apart c (low, high) e = omega arith

header_text : GitObjectKind → ℕ → Bytes
header_text kind n = kind_bytes kind ++ b' ' ∷ decimal n

header_text-Lacks : (kind : GitObjectKind) (n : ℕ) → Lacks 0 (header_text kind n)
unfolding header_text
header_text-Lacks kind n =
    All-append _ (kind_bytes kind) (b' ' ∷ decimal n) (kind_bytes-Lacks 0 kind (omega arith))
      ((λ e. omega arith), decimal-Lacks 0 n (omega arith))

canonical-header_text :
    (kind : GitObjectKind) (payload : Bytes)
    → canonical_object_bytes kind payload ≡ header_text kind (length payload) ++ 0 ∷ payload
unfolding canonical_object_bytes header_text
canonical-header_text kind payload =
    sym (append_assoc (kind_bytes kind) (b' ' ∷ decimal (length payload)) (0 ∷ payload))

parse_canonical :
    (o : GitObject)
    → length o.payload < 2 ^ 64
    → parse_canonical_object (canonical_object_bytes o.kind o.payload) ≡ ok o
unfolding parse_canonical_object header_text
parse_canonical o fits = rw (
  canonical-header_text o.kind o.payload,
  cut-append 0 (header_text o.kind (length o.payload)) o.payload
      (header_text-Lacks o.kind (length o.payload)),
  cut-append b' ' (kind_bytes o.kind) (decimal (length o.payload))
      (kind_bytes-Lacks b' ' o.kind (omega arith)),
  parse_kind-kind_bytes o.kind,
  parse_ascii_usize-decimal (length o.payload) fits,
  eqb_self (length o.payload),
)

assemble :
    (bytes header payload kind_text length_text : Bytes) (kind : GitObjectKind) (declared : ℕ)
    (o : GitObject)
    → bytes ≡ header ++ 0 ∷ payload
    → header ≡ kind_text ++ b' ' ∷ length_text
    → kind_text ≡ kind_bytes kind
    → length_text ≡ decimal declared
    → not (eqb declared (length payload)) ≡ false
    → record { kind = kind; payload = payload } ≡ o
    → bytes ≡ canonical_object_bytes o.kind o.payload
unfolding header_text
assemble bytes header payload kind_text length_text kind declared o at_zero at_space at_kind
      at_length same done =
    subst (λ (o : GitObject). bytes ≡ canonical_object_bytes o.kind o.payload) done
      (at_zero
        ∙ ap (λ t. t ++ 0 ∷ payload)
            (at_space
              ∙ ap (λ t. t ++ b' ' ∷ length_text) at_kind
              ∙ ap (λ t. kind_bytes kind ++ b' ' ∷ t) (at_length ∙ ap decimal (ground arith)))
        ∙ sym (canonical-header_text kind payload))

canonical_of_parse :
    (bytes : Bytes) (o : GitObject)
    → parse_canonical_object bytes ≡ ok o
    → bytes ≡ canonical_object_bytes o.kind o.payload
unfolding parse_canonical_object
canonical_of_parse bytes o h =
    let ((header, payload), at_zero, h1) =
      >>=-eq-ok (ok_or (cut 0 bytes) missing_header_terminator) _ h in
    let ((kind_text, length_text), at_space, h2) =
      >>=-eq-ok (ok_or (cut b' ' header) malformed_header) _ h1 in
    let (kind, at_kind, h3) = >>=-eq-ok (parse_kind kind_text) _ h2 in
    let (declared, at_length, h4) = >>=-eq-ok (parse_ascii_usize length_text) _ h3 in
    let (same, done) =
      fail_if-eq-ok (not (eqb declared (length payload)))
        (length_mismatch declared (length payload)) _ h4 in
    assemble bytes header payload kind_text length_text kind declared o
      (cut-eq-some 0 bytes header payload
        (ok_or-eq-ok (cut 0 bytes) missing_header_terminator at_zero)).0
      (cut-eq-some b' ' header kind_text length_text
        (ok_or-eq-ok (cut b' ' header) malformed_header at_space)).0
      (kind_bytes-parse_kind kind_text kind at_kind)
      (decimal-parse_ascii_usize length_text declared at_length) same (ok-injective done)

-- Bytes are read as an object, whose payload is shorter than 2 ^ 64 bytes, exactly when they are
-- the object's canonical bytes.
pub parse_canonical_object-eq-ok :
    (bytes : Bytes) (o : GitObject)
    → length o.payload < 2 ^ 64
    → (parse_canonical_object bytes ≡ ok o) ↔ (bytes ≡ canonical_object_bytes o.kind o.payload)
parse_canonical_object-eq-ok bytes o fits =
    (canonical_of_parse bytes o, λ e. ap parse_canonical_object e ∙ parse_canonical o fits)
