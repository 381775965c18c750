-- ===== src/Collaboration/Event/Injective.antt =====
-- The canonical body of an event determines the event.
use git_mesh.Prelude.{
  ◌≤◌, ◌≡◌, refl, sym, ap, ◌∙◌, Option, none, some, List, [], ◌∷◌, ◌++◌, append_assoc, arith, Bytes,
  length, All, append_cancel, append_cancel_left, ok, ok-injective, >>=-eq-ok, map,
}
use git_mesh.Text.Decimal.{max_u32}
use git_mesh.Text.Words.{be_bytes}
use git_mesh.Core.Cid.{Cid, IsCid}
use git_mesh.Core.Envelope.Injective.{be_bytes_cancel, framed, framed_cancel}
use git_mesh.Collaboration.Event.{
  put_bytes, put_optional_string, put_strings, put_string_vec, digests, put_cid_vec,
}

put_bytes-eq-ok : (v out : Bytes) → put_bytes v ≡ ok out → (length v ≤ max_u32) × (out ≡ framed 4 v)
unfolding put_bytes
put_bytes-eq-ok v out h = ground arith

-- Encoded fields in front of two rests cancel.
pub put_bytes_cancel :
    (v w a b us vs : Bytes)
    → put_bytes v ≡ ok a
    → put_bytes w ≡ ok b
    → a ++ us ≡ b ++ vs
    → (v ≡ w) × (us ≡ vs)
put_bytes_cancel v w a b us vs p q e =
    let (n, ea) = put_bytes-eq-ok v a p in
    let (m, eb) = put_bytes-eq-ok w b q in
    framed_cancel 4 v w us vs (omega arith) (omega arith)
      (ap (λ x. x ++ us) (sym ea) ∙ (e ∙ ap (λ x. x ++ vs) eb))

pub put_optional_cancel :
    (v w : Option Bytes) (a b us vs : Bytes)
    → put_optional_string v ≡ ok a
    → put_optional_string w ≡ ok b
    → a ++ us ≡ b ++ vs
    → (v ≡ w) × (us ≡ vs)
unfolding put_optional_string
put_optional_cancel none none a b us vs p q e = (refl, ground arith)
put_optional_cancel none (some w) a b us vs p q e =
    let (d, _, ed) = >>=-eq-ok (put_bytes w) _ q in ground arith
put_optional_cancel (some v) none a b us vs p q e =
    let (c, _, ec) = >>=-eq-ok (put_bytes v) _ p in ground arith
put_optional_cancel (some v) (some w) a b us vs p q e =
    let (c, pc, ec) = >>=-eq-ok (put_bytes v) _ p in
    let (d, qd, ed) = >>=-eq-ok (put_bytes w) _ q in
    let inner =
      append_cancel_left (1 ∷ []) (c ++ us) (d ++ vs)
        (ap (λ x. x ++ us) (ok-injective ec) ∙ (e ∙ ap (λ x. x ++ vs) (sym (ok-injective ed)))) in
    let (same, rest) = put_bytes_cancel v w c d us vs pc qd inner in (ap some same, rest)

put_strings_cancel :
    (vs ws : List Bytes) (a b xs ys : Bytes)
    → length vs ≡ length ws
    → put_strings vs ≡ ok a
    → put_strings ws ≡ ok b
    → a ++ xs ≡ b ++ ys
    → (vs ≡ ws) × (xs ≡ ys)
unfolding put_strings
put_strings_cancel [] [] a b xs ys n p q e = (refl, ground arith)
put_strings_cancel [] (w ∷ ws) a b xs ys n p q e = absurd (omega arith)
put_strings_cancel (v ∷ vs) [] a b xs ys n p q e = absurd (omega arith)
put_strings_cancel (v ∷ vs) (w ∷ ws) a b xs ys n p q e =
    let (c, pc, p1) = >>=-eq-ok (put_bytes v) _ p in
    let (c', pc', p2) = >>=-eq-ok (put_strings vs) _ p1 in
    let (d, qd, q1) = >>=-eq-ok (put_bytes w) _ q in
    let (d', qd', q2) = >>=-eq-ok (put_strings ws) _ q1 in
    let inner : c ++ (c' ++ xs) ≡ d ++ (d' ++ ys) =
      sym (append_assoc c c' xs)
      ∙ (ap (λ x. x ++ xs) (ok-injective p2)
          ∙ (e ∙ (ap (λ x. x ++ ys) (sym (ok-injective q2)) ∙ append_assoc d d' ys))) in
    let (same, rest) = put_bytes_cancel v w c d (c' ++ xs) (d' ++ ys) pc qd inner in
    let (sames, rest') = put_strings_cancel vs ws c' d' xs ys (omega arith) pc' qd' rest in
    (λ i. same i ∷ sames i, rest')

put_string_vec-eq-ok :
    (vs : List Bytes) (a : Bytes)
    → put_string_vec vs ≡ ok a
    → (out : Bytes) × (put_strings vs ≡ ok out)
      × (length vs ≤ max_u32)
      × (a ≡ be_bytes 4 (length vs) ++ out)
unfolding put_string_vec
put_string_vec-eq-ok vs a p = ground arith

pub put_string_vec_cancel :
    (vs ws : List Bytes) (a b xs ys : Bytes)
    → put_string_vec vs ≡ ok a
    → put_string_vec ws ≡ ok b
    → a ++ xs ≡ b ++ ys
    → (vs ≡ ws) × (xs ≡ ys)
put_string_vec_cancel vs ws a b xs ys p q e =
    let (c, pc, n, ea) = put_string_vec-eq-ok vs a p in
    let (d, qd, m, eb) = put_string_vec-eq-ok ws b q in
    let (same, rest) =
      be_bytes_cancel 4 (length vs) (length ws) (c ++ xs) (d ++ ys) (omega arith) (omega arith) (
        sym (append_assoc (be_bytes 4 (length vs)) c xs)
        ∙ (ap (λ x. x ++ xs) (sym ea)
            ∙ (e ∙ (ap (λ x. x ++ ys) eb ∙ append_assoc (be_bytes 4 (length ws)) d ys)))) in
    put_strings_cancel vs ws c d xs ys same pc qd rest

abbrev pub digest_list : List Cid → List Bytes
digest_list cids = map (λ (c : Cid). c.digest) cids

digests_cancel :
    (cs ds : List Cid) (xs ys : Bytes)
    → length cs ≡ length ds
    → All IsCid cs
    → All IsCid ds
    → digests cs ++ xs ≡ digests ds ++ ys
    → (digest_list cs ≡ digest_list ds) × (xs ≡ ys)
unfolding digests
digests_cancel [] [] xs ys n v w e = (refl, e)
digests_cancel [] (d ∷ ds) xs ys n v w e = absurd (omega arith)
digests_cancel (c ∷ cs) [] xs ys n v w e = absurd (omega arith)
digests_cancel (c ∷ cs) (d ∷ ds) xs ys n (v, vs) (w, ws) e =
    let (same, rest) =
      append_cancel c.digest d.digest (digests cs ++ xs) (digests ds ++ ys) (v.width ∙ sym w.width)
        (sym (append_assoc c.digest (digests cs) xs)
          ∙ (e ∙ append_assoc d.digest (digests ds) ys)) in
    let (sames, rest') = digests_cancel cs ds xs ys (omega arith) vs ws rest in
    (λ i. same i ∷ sames i, rest')

put_cid_vec-eq-ok :
    (cs : List Cid) (a : Bytes)
    → put_cid_vec cs ≡ ok a
    → (length cs ≤ max_u32) × (a ≡ be_bytes 4 (length cs) ++ digests cs)
unfolding put_cid_vec
put_cid_vec-eq-ok cs a p = ground arith

pub put_cid_vec_cancel :
    (cs ds : List Cid) (a b xs ys : Bytes)
    → All IsCid cs
    → All IsCid ds
    → put_cid_vec cs ≡ ok a
    → put_cid_vec ds ≡ ok b
    → a ++ xs ≡ b ++ ys
    → (digest_list cs ≡ digest_list ds) × (xs ≡ ys)
put_cid_vec_cancel cs ds a b xs ys v w p q e =
    let (n, ea) = put_cid_vec-eq-ok cs a p in
    let (m, eb) = put_cid_vec-eq-ok ds b q in
    let (same, rest) =
      be_bytes_cancel 4 (length cs) (length ds) (digests cs ++ xs) (digests ds ++ ys) (omega arith)
        (omega arith)
        (sym (append_assoc (be_bytes 4 (length cs)) (digests cs) xs)
          ∙ (ap (λ x. x ++ xs) (sym ea)
              ∙ (e
                  ∙ (ap (λ x. x ++ ys) eb
                      ∙ append_assoc (be_bytes 4 (length ds)) (digests ds) ys)))) in
    digests_cancel cs ds xs ys same v w rest
