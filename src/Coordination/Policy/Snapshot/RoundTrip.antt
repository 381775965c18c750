-- ===== src/Coordination/Policy/Snapshot/RoundTrip.antt =====
-- A policy is read back from its snapshot.
use git_mesh.Prelude.{
  ℕ, ◌≤◌, ◌≡◌, refl, ap, ◌∙◌, true, false, [], ◌∷◌, ◌++◌, Bytes, codes, All, ok, ok-injective,
  >>=-eq-ok, Bool,
}
use git_mesh.Prelude.Order.{nat_ord, list_ord}
use git_mesh.SortedMap.{SortedSet}
use git_mesh.SortedMap.Sorted.{IsSorted, insert_entries-append}
use git_mesh.Text.Search.{has_byte}
use git_mesh.Text.Split.{join, lines}
use git_mesh.Text.Decimal.{decimal, parse-decimal, decimal-IsDigit, max_u64}
use git_mesh.SnapshotText.{line, load_lines}
use git_mesh.SnapshotText.Loading.{lines-line, load_lines-line}
use git_mesh.Coordination.Names.{
  validate_snapshot_field, snapshot_field, ref_name, validate_ref_name,
}
use git_mesh.Coordination.Update.{format_bool, parse_bool}
use git_mesh.Coordination.Policy.{RepoPolicy, default_policy}
use git_mesh.Coordination.Policy.Valid.{IsPolicy}
use git_mesh.Coordination.Policy.Snapshot.{
  policy_header, member_lines, protected_lines, to_snapshot, load_member, load_line, load_policy,
  from_snapshot,
}
use git_mesh.Coordination.Policy.Snapshot.Members.{
  plain-IsField, digits-IsField, load_set, load_protected_lines,
}

-- The policy of some fields, in the order of their lines.
abbrev policy_of :
    ℕ
    → Bool
    → SortedSet Bytes
    → SortedSet Bytes
    → SortedSet Bytes
    → SortedSet Bytes
    → SortedSet Bytes
    → RepoPolicy
policy_of epoch required accounts devices force_accounts force_devices names = record {
  policy_epoch = epoch;
  require_signed_refs = required;
  writer_accounts = accounts;
  writer_devices = devices;
  force_push_accounts = force_accounts;
  force_push_devices = force_devices;
  protected_refs = names;
}

load_epoch :
    (n : ℕ) (q : RepoPolicy) (rest : Bytes)
    → n ≤ max_u64
    → load_lines load_line q (lines (line (codes "policy_epoch" ∷ decimal n ∷ []) ++ rest))
      ≡ load_lines load_line (record q { policy_epoch = n }) (lines rest)
unfolding validate_snapshot_field has_byte load_line load_member
load_epoch n q rest h =
    rw
      (
        load_lines-line load_line q (codes "policy_epoch" ∷ decimal n ∷ []) rest (refl, refl)
            (
              plain-IsField (codes "policy_epoch") refl,
              (digits-IsField (decimal n) (decimal-IsDigit n), tt),
            ),
        parse-decimal max_u64 n h,
      )
      refl

load_required :
    (b : Bool) (q : RepoPolicy) (rest : Bytes)
    → load_lines load_line q
        (lines (line (codes "require_signed_refs" ∷ format_bool b ∷ []) ++ rest))
      ≡ load_lines load_line (record q { require_signed_refs = b }) (lines rest)
unfolding validate_snapshot_field has_byte load_line load_member format_bool parse_bool
load_required true q rest =
    rw
      (load_lines-line load_line q (codes "require_signed_refs" ∷ codes "true" ∷ []) rest
        (refl, refl)
        (plain-IsField (codes "require_signed_refs") refl, (plain-IsField (codes "true") refl, tt)))
      refl
load_required false q rest =
    rw
      (load_lines-line load_line q (codes "require_signed_refs" ∷ codes "false" ∷ []) rest
        (refl, refl)
        (
          plain-IsField (codes "require_signed_refs") refl,
          (plain-IsField (codes "false") refl, tt),
        ))
      refl

load_writer_accounts :
    (n : ℕ) (b : Bool) (set : SortedSet Bytes) (text rest : Bytes)
    → IsSorted set
    → member_lines (codes "writer_account") set ≡ ok text
    → load_lines load_line (policy_of n b [] [] [] [] []) (lines (text ++ rest))
      ≡ load_lines load_line (policy_of n b set [] [] [] []) (lines rest)
unfolding load_line load_member snapshot_field validate_snapshot_field has_byte
load_writer_accounts n b set text rest sorted e =
    load_set (codes "writer_account") (λ s. policy_of n b s [] [] [] []) (λ m. (refl, refl))
      (plain-IsField (codes "writer_account") refl) (λ s m valid. rw valid refl) set text rest
      sorted e

load_writer_devices :
    (n : ℕ) (b : Bool) (a1 : SortedSet Bytes) (set : SortedSet Bytes) (text rest : Bytes)
    → IsSorted set
    → member_lines (codes "writer_device") set ≡ ok text
    → load_lines load_line (policy_of n b a1 [] [] [] []) (lines (text ++ rest))
      ≡ load_lines load_line (policy_of n b a1 set [] [] []) (lines rest)
unfolding load_line load_member snapshot_field validate_snapshot_field has_byte
load_writer_devices n b a1 set text rest sorted e =
    load_set (codes "writer_device") (λ s. policy_of n b a1 s [] [] []) (λ m. (refl, refl))
      (plain-IsField (codes "writer_device") refl) (λ s m valid. rw valid refl) set text rest sorted
      e

load_force_push_accounts :
    (n : ℕ) (b : Bool) (a1 : SortedSet Bytes) (a2 : SortedSet Bytes) (set : SortedSet Bytes)
    (text rest : Bytes)
    → IsSorted set
    → member_lines (codes "force_push_account") set ≡ ok text
    → load_lines load_line (policy_of n b a1 a2 [] [] []) (lines (text ++ rest))
      ≡ load_lines load_line (policy_of n b a1 a2 set [] []) (lines rest)
unfolding load_line load_member snapshot_field validate_snapshot_field has_byte
load_force_push_accounts n b a1 a2 set text rest sorted e =
    load_set (codes "force_push_account") (λ s. policy_of n b a1 a2 s [] []) (λ m. (refl, refl))
      (plain-IsField (codes "force_push_account") refl) (λ s m valid. rw valid refl) set text rest
      sorted e

load_force_push_devices :
    (n : ℕ) (b : Bool) (a1 : SortedSet Bytes) (a2 : SortedSet Bytes) (a3 : SortedSet Bytes)
    (set : SortedSet Bytes) (text rest : Bytes)
    → IsSorted set
    → member_lines (codes "force_push_device") set ≡ ok text
    → load_lines load_line (policy_of n b a1 a2 a3 [] []) (lines (text ++ rest))
      ≡ load_lines load_line (policy_of n b a1 a2 a3 set []) (lines rest)
unfolding load_line load_member snapshot_field validate_snapshot_field has_byte
load_force_push_devices n b a1 a2 a3 set text rest sorted e =
    load_set (codes "force_push_device") (λ s. policy_of n b a1 a2 a3 s []) (λ m. (refl, refl))
      (plain-IsField (codes "force_push_device") refl) (λ s m valid. rw valid refl) set text rest
      sorted e

load_protected :
    (n : ℕ) (b : Bool) (a1 a2 a3 a4 set : SortedSet Bytes)
    → IsSorted set
    → All (λ entry. validate_ref_name entry.0 ≡ ok tt) set
    → load_lines load_line (policy_of n b a1 a2 a3 a4 []) (lines (protected_lines set))
      ≡ ok (policy_of n b a1 a2 a3 a4 set)
unfolding load_line load_member ref_name
load_protected n b a1 a2 a3 a4 set sorted valid =
    load_protected_lines (λ s. policy_of n b a1 a2 a3 a4 s) (λ s m h. rw h refl) set [] valid
    ∙ ap (λ s. ok (policy_of n b a1 a2 a3 a4 s)) (insert_entries-append [] set sorted)

load_header :
    (rest : Bytes)
    → load_policy (lines (line (policy_header ∷ []) ++ rest))
      ≡ load_lines load_line default_policy (lines rest)
unfolding load_policy validate_snapshot_field has_byte join
load_header rest =
    rw (lines-line (policy_header ∷ []) rest (plain-IsField policy_header refl, tt)) refl

-- A policy with sorted sets, valid names of protected refs and a 64-bit epoch, once it is
-- written, is read back as it was.
pub from_snapshot-to_snapshot :
    (p : RepoPolicy) (text : Bytes)
    → IsPolicy p
    → to_snapshot p ≡ ok text
    → from_snapshot text ≡ ok p
unfolding to_snapshot from_snapshot
from_snapshot-to_snapshot p text v e =
    let (a, ea, e1) = >>=-eq-ok (member_lines (codes "writer_account") p.writer_accounts) _ e in
    let (b, eb, e2) = >>=-eq-ok (member_lines (codes "writer_device") p.writer_devices) _ e1 in
    let (c, ec, e3) =
      >>=-eq-ok (member_lines (codes "force_push_account") p.force_push_accounts) _ e2 in
    let (d, ed, e4) =
      >>=-eq-ok (member_lines (codes "force_push_device") p.force_push_devices) _ e3 in
    rw (← ok-injective e4) (
      load_header _
      ∙ (load_epoch p.policy_epoch default_policy _ v.epoch
          ∙ (load_required p.require_signed_refs _ _
              ∙ (load_writer_accounts p.policy_epoch p.require_signed_refs p.writer_accounts a _
                    v.accounts ea
                  ∙ (load_writer_devices _ _ p.writer_accounts p.writer_devices b _ v.devices eb
                      ∙ (load_force_push_accounts _ _ _ p.writer_devices p.force_push_accounts c _
                            v.force_accounts ec
                          ∙ (load_force_push_devices _ _ _ _ p.force_push_accounts
                                p.force_push_devices d _ v.force_devices ed
                              ∙ load_protected _ _ _ _ _ p.force_push_devices p.protected_refs
                                  v.sorted_names v.names)))))))
