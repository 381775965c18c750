-- ===== src/Git/Tree.antt =====
-- `GitTreeEntry`, `parse_tree_entries`, `GitCommitLinks` and `parse_commit_links` of
-- crates/gitmesh-git/src/lib.rs. What a loop has not reached of a slice is a list.
pub mod Exact
use git_mesh.Prelude.{
  ℕ, zero, suc, Bool, not, ◌||◌, Option, none, some, List, [], ◌∷◌, ◌++◌, Bytes, codes, length,
  take, drop, ltb, is_empty, Result, ok, err, ok_or, fail_if, if◌then◌else◌, ◌>>=◌, ◌>>◌,
}
use git_mesh.Prelude.Order.{◌==◌, nat_ord, list_ord}
use git_mesh.Text.Search.{cut, strip_prefix}
use git_mesh.Text.Split.{split}
use git_mesh.Text.Utf8.{is_utf8}
use git_mesh.Git.Oid.{GitSha1Oid, oid_from_text}
use git_mesh.Git.Object.{
  GitError, invalid_oid, missing_commit_tree, malformed_tree, unsupported_tree_mode, out_of_fuel,
}

pub data GitTreeEntryTarget : Type 0 where
  blob tree commit : GitTreeEntryTarget

pub record GitTreeEntry : Type 0 where
  pub mode : Bytes
  pub name : Bytes
  pub oid : GitSha1Oid
  pub target : GitTreeEntryTarget

unfoldable pub tree_entry_target : Bytes → Result GitError GitTreeEntryTarget
tree_entry_target mode =
    if mode == codes "40000"
    then ok tree
    else if mode == codes "100644" || mode == codes "100755" || mode == codes "120000"
    then ok blob
    else if mode == codes "160000"
    then ok commit
    else err unsupported_tree_mode

-- One round of the loop: an entry, and the bytes behind it.
unfoldable pub parse_tree_entry : Bytes → Result GitError (GitTreeEntry × Bytes)
parse_tree_entry payload = do
  (mode, after_mode) ← ok_or (cut b' ' payload) malformed_tree
  (name, after_name) ← ok_or (cut 0 after_mode) malformed_tree
  fail_if (ltb (length after_name) 20 || is_empty mode || is_empty name) malformed_tree
  target ← tree_entry_target mode
  ok (
    record {
      mode = mode;
      name = name;
      oid = record { digest = take 20 after_name };
      target = target;
    },
    drop 20 after_name,
  )

unfoldable pub tree_loop : ℕ → Bytes → Result GitError (List GitTreeEntry)
tree_loop fuel [] = ok []
tree_loop zero (b ∷ bs) = err out_of_fuel
tree_loop (suc fuel) (b ∷ bs) = do
  (entry, rest) ← parse_tree_entry (b ∷ bs)
  entries ← tree_loop fuel rest
  ok (entry ∷ entries)

-- Each entry takes a byte at least.
unfoldable pub parse_tree_entries : Bytes → Result GitError (List GitTreeEntry)
unfolding tree_loop
parse_tree_entries payload = tree_loop (length payload) payload

pub record GitCommitLinks : Type 0 where
  pub tree : GitSha1Oid
  pub parents : List GitSha1Oid

unfoldable pub parse_oid_bytes : Bytes → Result GitError GitSha1Oid
parse_oid_bytes bytes = do
  fail_if (not (is_utf8 bytes)) invalid_oid
  ok_or (oid_from_text bytes) invalid_oid

-- The bytes before the first empty line.
unfoldable pub commit_header : Bytes → Bytes
commit_header [] = []
commit_header (a ∷ []) = a ∷ []
commit_header (a ∷ b ∷ s) =
    let later = a ∷ commit_header (b ∷ s) in if (a ∷ b ∷ []) == (10 ∷ 10 ∷ []) then [] else later

-- The variables of the loop over the header's lines.
pub record CommitScan : Type 0 where
  pub tree : Option GitSha1Oid
  pub parents : List GitSha1Oid

unfoldable pub commit_line : CommitScan → Bytes → Result GitError CommitScan
unfolding parse_oid_bytes
commit_line s line = elim (strip_prefix (codes "tree ") line) [
  | some value ↦ (do oid ← parse_oid_bytes value; ok (record s { tree = some oid }))
  | none ↦ elim (strip_prefix (codes "parent ") line) [
    | some value ↦ (do
      oid ← parse_oid_bytes value
      ok (record s { parents = s.parents ++ oid ∷ [] }))
    | none ↦ ok s
  ]
]

unfoldable pub commit_lines : CommitScan → List Bytes → Result GitError CommitScan
commit_lines s [] = ok s
commit_lines s (line ∷ lines) = commit_line s line >>= λ t. commit_lines t lines

unfoldable pub parse_commit_links : Bytes → Result GitError GitCommitLinks
unfolding commit_header commit_lines
parse_commit_links payload = do
  s ← commit_lines (record { tree = none; parents = [] }) (split 10 (commit_header payload))
  tree_oid ← ok_or s.tree missing_commit_tree
  ok (record { tree = tree_oid; parents = s.parents })
