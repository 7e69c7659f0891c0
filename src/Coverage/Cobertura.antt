-- ===== src/Coverage/Cobertura.antt =====
-- internal/coverage/parsers.go: `ParseCobertura`, of the decoded document.
pub mod Laws
use cuddly_lamp.Prelude.{
  ℕ, suc, ◌+◌, ltb, length, count_if, Bool, true, false, Option, none, some, List, [], ◌∷◌,
  if◌then◌else◌,
}
use cuddly_lamp.Text.{Text, text_eq}
use cuddly_lamp.Model.Onboarding.{ℤ, pos, negsuc}
use cuddly_lamp.Coverage.{FileCoverage, is_hit}

-- The hits of the lines of a class.
pub record CoberturaClass : Type 0 where
  pub filename : Text
  pub hits : List ℤ

-- An attribute is none where the document has none; the classes are those of each package.
pub record CoberturaRoot : Type 0 where
  pub lines_valid : Option ℤ
  pub lines_covered : Option ℤ
  pub packages : List (List CoberturaClass)

-- The totals come from attributes, which may be negative.
pub record CoberturaReport : Type 0 where
  pub lines_covered : ℤ
  pub lines_total : ℤ
  pub files : List FileCoverage

-- `walkCovered`, `walkTotal` and `fileMap`.
pub record Walk : Type 0 where
  pub covered : ℕ
  pub total : ℕ
  pub files : List FileCoverage

abbrev pub no_walk : Walk
no_walk = record { covered = 0; total = 0; files = [] }

unfoldable pub count_hits : List ℤ → FileCoverage → FileCoverage
count_hits [] fc = fc
count_hits (h ∷ hits) fc = count_hits hits (record fc {
  lines_covered = if is_hit h then suc fc.lines_covered else fc.lines_covered;
  lines_total = suc fc.lines_total;
})

-- The entry of a file name, a new one if it has none.
unfoldable pub count_file : CoberturaClass → List FileCoverage → List FileCoverage
unfolding count_hits
count_file cls [] =
    count_hits cls.hits (record { path = cls.filename; lines_covered = 0; lines_total = 0 }) ∷ []
count_file cls (fc ∷ files) =
    let others = count_file cls files in
    if text_eq fc.path cls.filename then count_hits cls.hits fc ∷ files else fc ∷ others

unfoldable pub walk_classes : List CoberturaClass → Walk → Walk
unfolding count_file
walk_classes [] w = w
walk_classes (cls ∷ classes) w = walk_classes classes (record {
  covered = w.covered + count_if is_hit cls.hits;
  total = w.total + length cls.hits;
  files = count_file cls w.files;
})

unfoldable pub walk_packages : List (List CoberturaClass) → Walk → Walk
unfolding walk_classes
walk_packages [] w = w
walk_packages (classes ∷ packages) w = walk_packages packages (walk_classes classes w)

abbrev pub is_positive : Option ℤ → Bool
is_positive (some (pos (suc _))) = true
is_positive _ = false

abbrev pub or_zero : Option ℤ → ℤ
or_zero none = pos 0
or_zero (some n) = n

-- `none` is an error, of the decoder and then of the parser.
unfoldable pub parse_cobertura : Option CoberturaRoot → Option CoberturaReport
unfolding walk_packages
parse_cobertura none = none
parse_cobertura (some root) =
    let w = walk_packages root.packages no_walk in
    if is_positive root.lines_valid
    then some (record {
      lines_covered = or_zero root.lines_covered;
      lines_total = or_zero root.lines_valid;
      files = w.files;
    })
    else if ltb 0 w.total
    then some (record { lines_covered = pos w.covered; lines_total = pos w.total; files = w.files })
    else none
