-- ===== src/Coordination/Policy/Snapshot.antt =====
-- `RepoPolicy::to_snapshot` and `from_snapshot` of crates/gitmesh-coordination/src/lib.rs.
pub mod Members
pub mod RoundTrip
use git_mesh.Prelude.{
  List, [], ◌∷◌, ◌++◌, Bytes, codes, Result, ok, err, ok_or, if◌then◌else◌, ◌>>=◌, ◌>>◌,
}
use git_mesh.Prelude.Order.{◌==◌, nat_ord, list_ord}
use git_mesh.SortedMap.{SortedSet, insert}
use git_mesh.Text.Split.{lines}
use git_mesh.Text.Decimal.{decimal, parse_u64}
use git_mesh.SnapshotText.{line, load_lines}
use git_mesh.Coordination.Names.{
  CoordinationError, invalid_snapshot, validate_snapshot_field, snapshot_field, ref_name,
}
use git_mesh.Coordination.Update.{format_bool, parse_bool}
use git_mesh.Coordination.Policy.{RepoPolicy, default_policy}

abbrev pub policy_header : Bytes
policy_header = codes "gitmesh-repo-policy-v0"

-- One line for each member of a set, which may hold no tab and no end of a line.
unfoldable pub member_lines : Bytes → SortedSet Bytes → Result CoordinationError Bytes
member_lines tag [] = ok []
member_lines tag ((member, _) ∷ set) = do
  validate_snapshot_field member
  rest ← member_lines tag set
  ok (line (tag ∷ member ∷ []) ++ rest)

unfoldable pub protected_lines : SortedSet Bytes → Bytes
protected_lines [] = []
protected_lines ((name, _) ∷ set) = line (codes "protected_ref" ∷ name ∷ []) ++ protected_lines set

unfoldable pub to_snapshot : RepoPolicy → Result CoordinationError Bytes
to_snapshot p = do
  writer_accounts ← member_lines (codes "writer_account") p.writer_accounts
  writer_devices ← member_lines (codes "writer_device") p.writer_devices
  force_push_accounts ← member_lines (codes "force_push_account") p.force_push_accounts
  force_push_devices ← member_lines (codes "force_push_device") p.force_push_devices
  ok (
      line (policy_header ∷ [])
      ++ (line (codes "policy_epoch" ∷ decimal p.policy_epoch ∷ [])
          ++ (line (codes "require_signed_refs" ∷ format_bool p.require_signed_refs ∷ [])
              ++ (writer_accounts
                  ++ (writer_devices
                      ++ (force_push_accounts
                          ++ (force_push_devices ++ protected_lines p.protected_refs)))))))

-- The arms of the `match`, each a tag and one value.
unfoldable pub load_member : RepoPolicy → Bytes → Bytes → Result CoordinationError RepoPolicy
load_member p tag value =
    if tag == codes "policy_epoch"
    then (do
      epoch ← ok_or (parse_u64 value) invalid_snapshot
      ok (record p { policy_epoch = epoch }))
    else if tag == codes "require_signed_refs"
    then (do required ← parse_bool value; ok (record p { require_signed_refs = required }))
    else if tag == codes "writer_account"
    then (do
      member ← snapshot_field value
      ok (record p { writer_accounts = insert member tt p.writer_accounts }))
    else if tag == codes "writer_device"
    then (do
      member ← snapshot_field value
      ok (record p { writer_devices = insert member tt p.writer_devices }))
    else if tag == codes "force_push_account"
    then (do
      member ← snapshot_field value
      ok (record p { force_push_accounts = insert member tt p.force_push_accounts }))
    else if tag == codes "force_push_device"
    then (do
      member ← snapshot_field value
      ok (record p { force_push_devices = insert member tt p.force_push_devices }))
    else if tag == codes "protected_ref"
    then (do
      name ← ref_name value
      ok (record p { protected_refs = insert name tt p.protected_refs }))
    else err invalid_snapshot

unfoldable pub load_line : RepoPolicy → List Bytes → Result CoordinationError RepoPolicy
unfolding load_member
load_line p (tag ∷ value ∷ []) = load_member p tag value
load_line p _ = err invalid_snapshot

unfoldable pub load_policy : List Bytes → Result CoordinationError RepoPolicy
load_policy [] = err invalid_snapshot
load_policy (header ∷ rest) =
    if header == policy_header
    then load_lines load_line default_policy rest
    else err invalid_snapshot

unfoldable pub from_snapshot : Bytes → Result CoordinationError RepoPolicy
unfolding load_policy
from_snapshot text = load_policy (lines text)
