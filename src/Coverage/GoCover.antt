-- ===== src/Coverage/GoCover.antt =====
-- internal/coverage/parsers.go: `ParseGoCover`, of the profiles that golang.org/x/tools/cover reads.
pub mod Laws
use cuddly_lamp.Prelude.{ℕ, ltb, Option, none, some, List, [], ◌∷◌, ◌++◌, if◌then◌else◌}
use cuddly_lamp.Text.{Text}
use cuddly_lamp.Model.Onboarding.{ℤ, pos}
use cuddly_lamp.Int.{add_int}
use cuddly_lamp.Coverage.{IntFile, IntReport}

-- A block of a profile: its statements and how often they ran. The reader refuses negative numbers.
pub record Block : Type 0 where
  pub num_stmt : ℕ
  pub count : ℕ

pub record Profile : Type 0 where
  pub file_name : Text
  pub blocks : List Block

-- The inner loop, over `fileCovered` and `fileTotal`.
unfoldable pub count_blocks : List Block → ℤ × ℤ → ℤ × ℤ
count_blocks [] (covered, total) = (covered, total)
count_blocks (b ∷ blocks) (covered, total) = count_blocks blocks (
  if ltb 0 b.count then add_int covered (pos b.num_stmt) else covered,
  add_int total (pos b.num_stmt),
)

-- The outer loop, over `covered`, `total` and `files`.
unfoldable pub count_profiles : List Profile → IntReport → IntReport
count_profiles [] report = report
count_profiles (p ∷ profiles) report =
    let counts = count_blocks p.blocks (pos 0, pos 0) in
    count_profiles profiles (record {
      lines_covered = add_int report.lines_covered counts.0;
      lines_total = add_int report.lines_total counts.1;
      files =
          report.files
          ++ (record { path = p.file_name; lines_covered = counts.0; lines_total = counts.1 }) ∷ [];
    })

abbrev pub empty_report : IntReport
empty_report = record { lines_covered = pos 0; lines_total = pos 0; files = [] }

-- `none` is an error, of the profile reader and then of the parser.
unfoldable pub parse_go_cover : Option (List Profile) → Option IntReport
parse_go_cover none = none
parse_go_cover (some profiles) = some (count_profiles profiles empty_report)
