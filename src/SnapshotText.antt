-- ===== src/SnapshotText.antt =====
-- The shape that the snapshots of the stores share: a header line, and lines of fields between
-- tabs, of which the blank ones are skipped. `format!("a\t{}\n", …)` is `line (a ∷ … ∷ [])`, and
-- the `for line in lines` loops of the loaders are `load_lines` over a step for one line.
pub mod Loading
use git_mesh.Prelude.{Bool, true, false, List, [], ◌∷◌, ◌++◌, Bytes, Result, ok, err, ◌>>=◌}
use git_mesh.Text.Split.{split, join}
use git_mesh.Text.Spaces.{is_blank}

unfoldable pub line : List Bytes → Bytes
line parts = join 9 parts ++ 10 ∷ []

module _ {E S : Type 0} (step : S → List Bytes → Result E S) where
  unfoldable pub load_lines : S → List Bytes → Result E S
  load_lines s [] = ok s
  load_lines s (l ∷ ls) = elim (is_blank l) [
    | true ↦ load_lines s ls
    | false ↦ step s (split 9 l) >>= λ s'. load_lines s' ls
  ]
