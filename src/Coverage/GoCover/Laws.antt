-- ===== src/Coverage/GoCover/Laws.antt =====
-- The counts of a Go profile, where they fit into an `int`.
use cuddly_lamp.Prelude.{
  ℕ, ◌+◌, ◌^◌, ◌≤◌, ◌<◌, ltb, ◌≡◌, refl, ap, ap₂, ◌∙◌, some, List, [], ◌∷◌, ◌++◌, map, All, arith,
  Bool-cases, inl, inr, if◌then◌else◌,
}
use mathlib.Core.List.{append-nil, append_assoc}
use cuddly_lamp.Model.Onboarding.{pos}
use cuddly_lamp.Int.{add_int-fits}
use cuddly_lamp.Coverage.{FileCoverage, Report, IntFile, IntReport}
use cuddly_lamp.Coverage.Totals.{sum_covered, sum_total, IsPartial, IsTotal}
use cuddly_lamp.Coverage.GoCover.{Block, Profile, count_blocks, count_profiles, parse_go_cover}

-- The statements of the blocks, and those of the blocks that ran.
abbrev pub statements : List Block → ℕ
statements [] = 0
statements (b ∷ bs) = b.num_stmt + statements bs

abbrev pub covered_statements : List Block → ℕ
covered_statements [] = 0
covered_statements (b ∷ bs) = (if ltb 0 b.count then b.num_stmt else 0) + covered_statements bs

abbrev pub file_of : Profile → FileCoverage
file_of p = record {
  path = p.file_name;
  lines_covered = covered_statements p.blocks;
  lines_total = statements p.blocks;
}

abbrev pub all_statements : List Profile → ℕ
all_statements ps = sum_total (map file_of ps)

-- Counts that are not negative, as integers.
abbrev pub int_file : FileCoverage → IntFile
int_file f = record {
  path = f.path;
  lines_covered = pos f.lines_covered;
  lines_total = pos f.lines_total;
}

abbrev pub int_report : Report → IntReport
int_report r = record {
  lines_covered = pos r.lines_covered;
  lines_total = pos r.lines_total;
  files = map int_file r.files;
}

covered_le : (bs : List Block) → covered_statements bs ≤ statements bs
covered_le [] = omega arith
covered_le (b ∷ bs) = ground (arith, covered_le bs)

count_blocks-fits :
    (bs : List Block) (covered total : ℕ)
    → covered ≤ total
    → total + statements bs < 2 ^ 63
    → count_blocks bs (pos covered, pos total)
      ≡ (pos (covered + covered_statements bs), pos (total + statements bs))
unfolding count_blocks
count_blocks-fits [] covered total le fits = ground arith
count_blocks-fits (b ∷ bs) covered total le fits = elim (Bool-cases (ltb 0 b.count)) [
  | inl ran ↦
      rw
        (
          ran,
          add_int-fits covered b.num_stmt (omega arith),
          add_int-fits total b.num_stmt (omega arith),
        )
        (ground
          (arith, count_blocks-fits bs (covered + b.num_stmt) (total + b.num_stmt) (omega arith)))
  | inr unrun ↦
      rw (unrun, add_int-fits total b.num_stmt (omega arith))
        (ground (arith, count_blocks-fits bs covered (total + b.num_stmt) (omega arith)))
]

count_blocks-file :
    (bs : List Block)
    → statements bs < 2 ^ 63
    → count_blocks bs (pos 0, pos 0) ≡ (pos (covered_statements bs), pos (statements bs))
count_blocks-file bs fits =
    count_blocks-fits bs 0 0 (omega arith) (omega arith)
    ∙ ap₂ (λ c t. (pos c, pos t)) (omega arith) (omega arith)

count_profiles-fits :
    (ps : List Profile) (covered total : ℕ) (fs : List IntFile)
    → covered ≤ total
    → total + all_statements ps < 2 ^ 63
    → count_profiles ps
        (record { lines_covered = pos covered; lines_total = pos total; files = fs })
      ≡ record {
        lines_covered = pos (covered + sum_covered (map file_of ps));
        lines_total = pos (total + all_statements ps);
        files = fs ++ map int_file (map file_of ps);
      }
unfolding count_profiles
count_profiles-fits [] covered total fs le fits = ground (arith, append-nil fs)
count_profiles-fits (p ∷ ps) covered total fs le fits =
    let f = file_of p in
    let le_f = covered_le p.blocks in
    rw
      (
        count_blocks-file p.blocks (omega arith),
        add_int-fits covered f.lines_covered (omega arith),
        add_int-fits total f.lines_total (omega arith),
      )
      (count_profiles-fits ps (covered + f.lines_covered) (total + f.lines_total)
          (fs ++ int_file f ∷ []) (omega arith) (omega arith)
        ∙ ground (arith, append_assoc fs (int_file f ∷ []) (map int_file (map file_of ps))))

files-IsPartial : (ps : List Profile) → All IsPartial (map file_of ps)
files-IsPartial [] = tt
files-IsPartial (p ∷ ps) = (covered_le p.blocks, files-IsPartial ps)

-- Where the profiles can be read and have fewer than 2^63 statements in all, `ParseGoCover` returns a
-- report with a file for each profile, in order, that counts the statements of its blocks and those of
-- the blocks that ran. The totals are the sums over the files, and no file has more covered statements
-- than statements: no sum wraps around.
pub parse_go_cover-IsTotal :
    (ps : List Profile)
    → all_statements ps < 2 ^ 63
    → (r : Report) × (parse_go_cover (some ps) ≡ some (int_report r)
        × r.files ≡ map file_of ps
        × IsTotal r)
unfolding parse_go_cover
parse_go_cover-IsTotal ps fits = (
  record {
    lines_covered = sum_covered (map file_of ps);
    lines_total = all_statements ps;
    files = map file_of ps;
  },
  (
    ap some (count_profiles-fits ps 0 0 [] (omega arith) (omega arith) ∙ ground arith),
    refl,
    record { covered_is = refl; total_is = refl; all_partial = files-IsPartial ps },
  ),
)
