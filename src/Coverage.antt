-- ===== src/Coverage.antt =====
-- internal/coverage/parsers.go: `ParseLCOV`, of the lines that `bufio.Scanner` yields and whether it stops at
-- an error.
pub mod Totals
pub mod GoCover
pub mod Tokens
pub mod Cobertura
pub mod Jacoco
use cuddly_lamp.Prelude.{
  ℕ, zero, suc, ◌+◌, ◌-◌, ◌*◌, ◌^◌, Bool, true, false, not, ◌&&◌, ◌||◌, Option, none, some, List,
  [], ◌∷◌, ◌++◌, leb, ltb, ◌==◌, if◌then◌else◌,
}
use cuddly_lamp.Text.{Text, text, text_eq, is_empty, trim_space, has_prefix}
use cuddly_lamp.Model.Onboarding.{ℤ, pos, negsuc}

pub record FileCoverage : Type 0 where
  pub path : Text
  pub lines_covered : ℕ
  pub lines_total : ℕ

pub record Report : Type 0 where
  pub lines_covered : ℕ
  pub lines_total : ℕ
  pub files : List FileCoverage

-- A file and a report whose counts are sums of `int`, or numbers that a document names.
pub record IntFile : Type 0 where
  pub path : Text
  pub lines_covered : ℤ
  pub lines_total : ℤ

pub record IntReport : Type 0 where
  pub lines_covered : ℤ
  pub lines_total : ℤ
  pub files : List IntFile

-- `strconv.Atoi`: an optional sign, digits of ASCII, and the range of 64 bits.
unfoldable pub digits : ℕ → Text → Option ℕ
digits n [] = some n
digits n (c ∷ s) =
    let rest = digits (n * 10 + (c - b'0')) s in if leb b'0' c && leb c b'9' then rest else none

abbrev unsigned : Text → Option ℕ
unsigned [] = none
unsigned (c ∷ s) = digits 0 (c ∷ s)

abbrev negate : ℕ → ℤ
negate zero = pos 0
negate (suc n) = negsuc n

abbrev in_range : Bool → Option ℕ → Option ℤ
in_range negative none = none
in_range true (some n) = if leb n (2 ^ 63) then some (negate n) else none
in_range false (some n) = if ltb n (2 ^ 63) then some (pos n) else none

unfoldable pub atoi : Text → Option ℤ
atoi [] = none
atoi (c ∷ s) =
    if c == b'-'
    then in_range true (unsigned s)
    else if c == b'+'
    then in_range false (unsigned s)
    else in_range false (unsigned (c ∷ s))

-- What precedes the first comma, and what follows it.
unfoldable pub before_comma : Text → Text
before_comma [] = []
before_comma (c ∷ s) = let rest = before_comma s in if c == b',' then [] else c ∷ rest

unfoldable pub after_comma : Text → Option Text
after_comma [] = none
after_comma (c ∷ s) = let rest = after_comma s in if c == b',' then some s else rest

abbrev hits_of : Option Text → Option ℤ
hits_of none = none
hits_of (some rest) = atoi (trim_space (before_comma rest))

-- The hits of a `DA:` record: the second of its parts at commas. `none` skips the line.
unfoldable pub line_hits : Text → Option ℤ
line_hits payload = hits_of (after_comma payload)

abbrev pub is_hit : ℤ → Bool
is_hit (pos (suc _)) = true
is_hit _ = false

-- `strings.TrimPrefix` of a prefix that is there, of three characters.
abbrev pub drop_three : Text → Text
drop_three (_ ∷ _ ∷ _ ∷ s) = s
drop_three s = s

-- The variables of the loop.
pub record Lcov : Type 0 where
  pub covered : ℕ
  pub total : ℕ
  pub files : List FileCoverage
  pub current_file : Text
  pub file_covered : ℕ
  pub file_total : ℕ

abbrev pub no_lcov : Lcov
no_lcov = record {
  covered = 0;
  total = 0;
  files = [];
  current_file = [];
  file_covered = 0;
  file_total = 0;
}

unfoldable pub flush_file : Lcov → Lcov
flush_file s = if is_empty s.current_file && s.file_total == 0 then s else record s {
  files =
      s.files
      ++ (record {
        path = s.current_file;
        lines_covered = s.file_covered;
        lines_total = s.file_total;
      })
        ∷ [];
  current_file = [];
  file_covered = 0;
  file_total = 0;
}

-- A line with hits, and one that does not parse.
unfoldable pub count_line : Option ℤ → Lcov → Lcov
count_line none s = s
count_line (some hits) s = record s {
  total = suc s.total;
  file_total = suc s.file_total;
  covered = if is_hit hits then suc s.covered else s.covered;
  file_covered = if is_hit hits then suc s.file_covered else s.file_covered;
}

-- The `switch`, on a trimmed line.
unfoldable pub lcov_line : Text → Lcov → Lcov
lcov_line line s =
    if has_prefix line (text "SF:")
    then record s { current_file = drop_three line }
    else if text_eq line (text "end_of_record")
    then flush_file s
    else if has_prefix line (text "DA:")
    then count_line (line_hits (drop_three line)) s
    else s

unfoldable pub lcov_lines : List Text → Lcov → Lcov
lcov_lines [] s = s
lcov_lines (line ∷ lines) s = lcov_lines lines (lcov_line (trim_space line) s)

-- `none` is the scanner's error.
unfoldable pub parse_lcov : List Text → Bool → Option Report
parse_lcov lines failed =
    if failed
    then none
    else (let s = flush_file (lcov_lines lines no_lcov) in
        some (record { lines_covered = s.covered; lines_total = s.total; files = s.files }))
