-- ===== src/Coverage/Jacoco.antt =====
-- internal/coverage/parsers.go: `ParseJaCoCo`, of the decoded document.
use cuddly_lamp.Prelude.{
  ℕ, ◌+◌, ◌^◌, ◌≤◌, ◌<◌, ◌≡◌, Option, none, some, List, [], ◌∷◌, ◌++◌, All, All-append, refl, arith,
  Bool-cases, inl, inr, if◌then◌else◌,
}
use cuddly_lamp.Text.{Text, text, is_empty, equal_fold, Unicode}
use cuddly_lamp.Model.Onboarding.{ℤ, pos}
use cuddly_lamp.Int.{add_int, add_int-fits}
use cuddly_lamp.Coverage.{IntFile, IntReport}

pub record JacocoCounter : Type 0 where
  pub type : Text
  pub missed : ℤ
  pub covered : ℤ

pub record JacocoSourcefile : Type 0 where
  pub name : Text
  pub counters : List JacocoCounter

pub record JacocoPackage : Type 0 where
  pub name : Text
  pub sourcefiles : List JacocoSourcefile

pub record JacocoRoot : Type 0 where
  pub counters : List JacocoCounter
  pub packages : List JacocoPackage

module _ (u : Unicode) where
  -- What is covered and the total of the first counter of lines, or zeros.
  unfoldable pub line_counter : List JacocoCounter → ℤ × ℤ
  unfolding add_int equal_fold
  line_counter [] = (pos 0, pos 0)
  line_counter (c ∷ counters) =
      let others = line_counter counters in
      if equal_fold u c.type (text "LINE") then (c.covered, add_int c.missed c.covered) else others

  unfoldable pub jacoco_files : Text → List JacocoSourcefile → List IntFile
  unfolding line_counter
  jacoco_files package_name [] = []
  jacoco_files package_name (sf ∷ sourcefiles) =
      (record {
        path = if is_empty package_name then sf.name else package_name ++ text "/" ++ sf.name;
        lines_covered = (line_counter sf.counters).0;
        lines_total = (line_counter sf.counters).1;
      })
      ∷ jacoco_files package_name sourcefiles

  unfoldable pub jacoco_packages : List JacocoPackage → List IntFile
  unfolding jacoco_files
  jacoco_packages [] = []
  jacoco_packages (p ∷ packages) = jacoco_files p.name p.sourcefiles ++ jacoco_packages packages

  -- `none` is an error of the decoder.
  unfoldable pub parse_jacoco : Option JacocoRoot → Option IntReport
  unfolding jacoco_packages
  parse_jacoco none = none
  parse_jacoco (some root) = some (record {
    lines_covered = (line_counter root.counters).0;
    lines_total = (line_counter root.counters).1;
    files = jacoco_packages root.packages;
  })

-- Counts whose sum fits into 64 bits.
abbrev IsCount : ℤ → Type 0
IsCount a = (n : ℕ) × (a ≡ pos n × n < 2 ^ 62)

abbrev IsCounter : JacocoCounter → Type 0
IsCounter c = IsCount c.missed × IsCount c.covered

abbrev IsSourcefile : JacocoSourcefile → Type 0
IsSourcefile sf = All IsCounter sf.counters

abbrev IsPackage : JacocoPackage → Type 0
IsPackage p = All IsSourcefile p.sourcefiles

-- No more is covered than there is.
abbrev IsWithin : ℤ → ℤ → Type 0
IsWithin covered total = (c t : ℕ) × (covered ≡ pos c × total ≡ pos t × c ≤ t)

module _ (u : Unicode) where
  line_counter-IsWithin :
      (cs : List JacocoCounter)
      → All IsCounter cs
      → IsWithin (line_counter u cs).0 (line_counter u cs).1
  unfolding line_counter
  line_counter-IsWithin [] h = (0, 0, (refl, refl, omega arith))
  line_counter-IsWithin (c ∷ cs) ((missed, covered), h) =
      elim (Bool-cases (equal_fold u c.type (text "LINE"))) [
        | inl line ↦
            let (m, (m_is, m_fits)) = missed in
            let (n, (n_is, n_fits)) = covered in
            rw line
              (n, m + n, (n_is, rw (m_is, n_is) (add_int-fits m n (omega arith)), omega arith))
        | inr other ↦ rw other (line_counter-IsWithin cs h)
      ]

  jacoco_files-IsWithin :
      (name : Text) (sfs : List JacocoSourcefile)
      → All IsSourcefile sfs
      → All (λ f. IsWithin f.lines_covered f.lines_total) (jacoco_files u name sfs)
  unfolding jacoco_files
  jacoco_files-IsWithin name [] h = tt
  jacoco_files-IsWithin name (sf ∷ sfs) h =
      (line_counter-IsWithin sf.counters h.0, jacoco_files-IsWithin name sfs h.1)

  jacoco_packages-IsWithin :
      (ps : List JacocoPackage)
      → All IsPackage ps
      → All (λ f. IsWithin f.lines_covered f.lines_total) (jacoco_packages u ps)
  unfolding jacoco_packages
  jacoco_packages-IsWithin [] h = tt
  jacoco_packages-IsWithin (p ∷ ps) h =
      All-append (λ f. IsWithin f.lines_covered f.lines_total) (jacoco_files u p.name p.sourcefiles)
        (jacoco_packages u ps) (jacoco_files-IsWithin p.name p.sourcefiles h.0)
        (jacoco_packages-IsWithin ps h.1)

  -- Where the counters of a document are counts below 2^62, `ParseJaCoCo` returns a report in which neither
  -- the document nor any file has more covered lines than lines: the sums do not wrap around.
  parse_jacoco-IsWithin :
      (root : JacocoRoot)
      → All IsCounter root.counters
      → All IsPackage root.packages
      → (r : IntReport) × (parse_jacoco u (some root) ≡ some r
          × IsWithin r.lines_covered r.lines_total
          × All (λ f. IsWithin f.lines_covered f.lines_total) r.files)
  unfolding parse_jacoco
  parse_jacoco-IsWithin root h k = (
    record {
      lines_covered = (line_counter u root.counters).0;
      lines_total = (line_counter u root.counters).1;
      files = jacoco_packages u root.packages;
    },
    (refl, line_counter-IsWithin root.counters h, jacoco_packages-IsWithin root.packages k),
  )
