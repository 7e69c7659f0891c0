-- ===== src/Coverage/Totals.antt =====
-- The totals of a report are those of its files.
use cuddly_lamp.Prelude.{
  ℕ, ◌+◌, ◌≤◌, ◌≡◌, refl, false, ◌&&◌, Option, none, some, List, [], ◌∷◌, ◌++◌, arith, All,
  All-append, ==_iff, Bool-cases, inl, inr, ◌==◌,
}
use cuddly_lamp.Text.{Text, text, text_eq, is_empty, trim_space, has_prefix}
use cuddly_lamp.Model.Onboarding.{ℤ}
use cuddly_lamp.Coverage.{
  FileCoverage, Report, Lcov, no_lcov, drop_three, flush_file, count_line, line_hits, lcov_line,
  lcov_lines, parse_lcov,
}

abbrev pub sum_covered : List FileCoverage → ℕ
sum_covered [] = 0
sum_covered (f ∷ fs) = f.lines_covered + sum_covered fs

abbrev pub sum_total : List FileCoverage → ℕ
sum_total [] = 0
sum_total (f ∷ fs) = f.lines_total + sum_total fs

abbrev pub IsPartial : FileCoverage → Type 0
IsPartial f = f.lines_covered ≤ f.lines_total

-- The totals are the sums over the files, and no file has more covered lines than lines.
pub record IsTotal (r : Report) : Type 0 where
  pub covered_is : r.lines_covered ≡ sum_covered r.files
  pub total_is : r.lines_total ≡ sum_total r.files
  pub all_partial : All IsPartial r.files

sum_covered-append :
    (fs : List FileCoverage) (f : FileCoverage)
    → sum_covered (fs ++ f ∷ []) ≡ sum_covered fs + f.lines_covered
sum_covered-append [] f = omega arith
sum_covered-append (x ∷ fs) f = omega (arith, sum_covered-append fs f)

sum_total-append :
    (fs : List FileCoverage) (f : FileCoverage)
    → sum_total (fs ++ f ∷ []) ≡ sum_total fs + f.lines_total
sum_total-append [] f = omega arith
sum_total-append (x ∷ fs) f = omega (arith, sum_total-append fs f)

-- The loop's totals are those of the closed files and the open one.
record IsRunning (s : Lcov) : Type 0 where
  running_covered : s.covered ≡ sum_covered s.files + s.file_covered
  running_total : s.total ≡ sum_total s.files + s.file_total
  running_partial : s.file_covered ≤ s.file_total
  running_files : All IsPartial s.files

file_of : Lcov → FileCoverage
file_of s = record {
  path = s.current_file;
  lines_covered = s.file_covered;
  lines_total = s.file_total;
}

flushed-IsRunning :
    (s : Lcov)
    → IsRunning s
    → IsRunning (record s {
      files = s.files ++ file_of s ∷ [];
      current_file = [];
      file_covered = 0;
      file_total = 0;
    })
unfolding file_of
flushed-IsRunning s h = record {
  running_covered = omega (arith, h.running_covered, sum_covered-append s.files (file_of s));
  running_total = omega (arith, h.running_total, sum_total-append s.files (file_of s));
  running_partial = omega arith;
  running_files =
      All-append IsPartial s.files (file_of s ∷ []) h.running_files (h.running_partial, tt);
}

flush_file-closes : (s : Lcov) → (flush_file s).file_total ≡ 0
unfolding flush_file
flush_file-closes s = ground (arith, ==_iff s.file_total 0)

flush_file-IsRunning : (s : Lcov) → IsRunning s → IsRunning (flush_file s)
unfolding flush_file file_of
flush_file-IsRunning s h = elim (Bool-cases (is_empty s.current_file && s.file_total == 0)) [
  | inl e ↦ rw e h
  | inr e ↦ rw e (flushed-IsRunning s h)
]

count_line-IsRunning : (hits : Option ℤ) (s : Lcov) → IsRunning s → IsRunning (count_line hits s)
unfolding count_line
count_line-IsRunning none s h = h
count_line-IsRunning (some hits) s h = record {
  running_covered = ground (arith, h.running_covered);
  running_total = ground (arith, h.running_total);
  running_partial = ground (arith, h.running_partial);
  running_files = h.running_files;
}

lcov_line-IsRunning : (line : Text) (s : Lcov) → IsRunning s → IsRunning (lcov_line line s)
unfolding lcov_line
lcov_line-IsRunning line s h = elim (Bool-cases (has_prefix line (text "SF:"))) [
  | inl e ↦ rw e (record {
    running_covered = h.running_covered;
    running_total = h.running_total;
    running_partial = h.running_partial;
    running_files = h.running_files;
  })
  | inr e ↦ rw e (elim (Bool-cases (text_eq line (text "end_of_record"))) [
    | inl e' ↦ rw e' (flush_file-IsRunning s h)
    | inr e' ↦ rw e' (elim (Bool-cases (has_prefix line (text "DA:"))) [
      | inl e'' ↦ rw e'' (count_line-IsRunning (line_hits (drop_three line)) s h)
      | inr e'' ↦ rw e'' h
    ])
  ])
]

lcov_lines-IsRunning : (lines : List Text) (s : Lcov) → IsRunning s → IsRunning (lcov_lines lines s)
unfolding lcov_lines
lcov_lines-IsRunning [] s h = h
lcov_lines-IsRunning (line ∷ lines) s h =
    lcov_lines-IsRunning lines (lcov_line (trim_space line) s)
      (lcov_line-IsRunning (trim_space line) s h)

closed-IsTotal :
    (s : Lcov)
    → IsRunning s
    → s.file_total ≡ 0
    → IsTotal (record { lines_covered = s.covered; lines_total = s.total; files = s.files })
closed-IsTotal s h e = record {
  covered_is = omega (arith, h.running_covered, h.running_partial);
  total_is = omega (arith, h.running_total);
  all_partial = h.running_files;
}

-- If the scanner does not stop at an error, `ParseLCOV` returns a report, whatever the lines are: its totals
-- are the sums over its files, and no file has more covered lines than lines.
pub parse_lcov-IsTotal :
    (lines : List Text) → (r : Report) × parse_lcov lines false ≡ some r × IsTotal r
unfolding parse_lcov
parse_lcov-IsTotal lines =
    let ran = lcov_lines lines no_lcov in
    let running = flush_file-IsRunning ran (
      lcov_lines-IsRunning lines no_lcov (record {
        running_covered = refl;
        running_total = refl;
        running_partial = omega arith;
        running_files = tt;
      })) in
    let s = flush_file ran in
    (
      record { lines_covered = s.covered; lines_total = s.total; files = s.files },
      refl,
      closed-IsTotal s running (flush_file-closes ran),
    )
