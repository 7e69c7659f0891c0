-- ===== src/Coverage/Cobertura/Laws.antt =====
-- The counts of a Cobertura report, and which reports are refused.
use cuddly_lamp.Prelude.{
  ℕ, suc, ◌+◌, ltb, length, count_if, ◌≡◌, refl, sym, ap, ◌∙◌, inl, inr, false, ◌||◌, none, some,
  List, [], ◌∷◌, map, any, All, if◌then◌else◌, Bool-cases, arith,
}
use cuddly_lamp.Text.{Text, text_eq}
use cuddly_lamp.Text.Laws.{text_eq_iff}
use cuddly_lamp.Model.Onboarding.{ℤ, pos}
use cuddly_lamp.Derive.Claims.{IsUnique}
use cuddly_lamp.Coverage.{FileCoverage, is_hit}
use cuddly_lamp.Coverage.Totals.{sum_covered, sum_total, IsPartial}
use cuddly_lamp.Coverage.Cobertura.{
  CoberturaClass, CoberturaRoot, Walk, no_walk, count_hits, count_file, walk_classes, walk_packages,
  is_positive, parse_cobertura,
}

abbrev pub paths : List FileCoverage → List Text
paths = map (λ f. f.path)

-- A walk counts what its files count, each file once.
pub record IsCounted (w : Walk) : Type 0 where
  pub covered_is : w.covered ≡ sum_covered w.files
  pub total_is : w.total ≡ sum_total w.files
  pub all_partial : All IsPartial w.files
  pub all_distinct : IsUnique (paths w.files)

count_hits-path : (hits : List ℤ) (f : FileCoverage) → (count_hits hits f).path ≡ f.path
unfolding count_hits
count_hits-path [] f = refl
count_hits-path (h ∷ hits) f = count_hits-path hits _

count_hits-total :
    (hits : List ℤ) (f : FileCoverage)
    → (count_hits hits f).lines_total ≡ f.lines_total + length hits
unfolding count_hits
count_hits-total [] f = omega arith
count_hits-total (h ∷ hits) f = omega (
  arith,
  count_hits-total hits (record f {
    lines_covered = if is_hit h then suc f.lines_covered else f.lines_covered;
    lines_total = suc f.lines_total;
  }),
)

count_hits-covered :
    (hits : List ℤ) (f : FileCoverage)
    → (count_hits hits f).lines_covered ≡ f.lines_covered + count_if is_hit hits
unfolding count_hits
count_hits-covered [] f = omega arith
count_hits-covered (h ∷ hits) f = ground (
  arith,
  count_hits-covered hits (record f {
    lines_covered = if is_hit h then suc f.lines_covered else f.lines_covered;
    lines_total = suc f.lines_total;
  }),
)

count_hits-IsPartial :
    (hits : List ℤ) (f : FileCoverage) → IsPartial f → IsPartial (count_hits hits f)
unfolding count_hits
count_hits-IsPartial [] f h = h
count_hits-IsPartial (x ∷ hits) f h = count_hits-IsPartial hits _ (ground arith)

count_file-sums :
    (cls : CoberturaClass) (fs : List FileCoverage)
    → sum_covered (count_file cls fs) ≡ sum_covered fs + count_if is_hit cls.hits
      × sum_total (count_file cls fs) ≡ sum_total fs + length cls.hits
unfolding count_file
count_file-sums cls [] =
    let f : FileCoverage = record { path = cls.filename; lines_covered = 0; lines_total = 0 } in
    (omega (arith, count_hits-covered cls.hits f), omega (arith, count_hits-total cls.hits f))
count_file-sums cls (f ∷ fs) = elim (Bool-cases (text_eq f.path cls.filename)) [
  | inl same ↦
      rw same
        (omega (arith, count_hits-covered cls.hits f), omega (arith, count_hits-total cls.hits f))
  | inr other ↦
      let (covered, total) = count_file-sums cls fs in
      rw other (omega (arith, covered), omega (arith, total))
]

count_file-All :
    (cls : CoberturaClass) (fs : List FileCoverage)
    → All IsPartial fs
    → All IsPartial (count_file cls fs)
unfolding count_file
count_file-All cls [] h = (count_hits-IsPartial cls.hits _ (omega arith), tt)
count_file-All cls (f ∷ fs) h = elim (Bool-cases (text_eq f.path cls.filename)) [
  | inl same ↦ rw same (count_hits-IsPartial cls.hits f h.0, h.1)
  | inr other ↦ rw other (h.0, count_file-All cls fs h.1)
]

count_file-paths :
    (p : Text) (cls : CoberturaClass) (fs : List FileCoverage)
    → any (text_eq p) (paths (count_file cls fs))
      ≡ any (text_eq p) (paths fs) || text_eq p cls.filename
unfolding count_file
count_file-paths p cls [] = ground (
  arith,
  ap (text_eq p) (
      count_hits-path cls.hits
        (record { path = cls.filename; lines_covered = 0; lines_total = 0 })),
)
count_file-paths p cls (f ∷ fs) = elim (Bool-cases (text_eq f.path cls.filename)) [
  | inl same ↦ ground (
    arith,
    ap (text_eq p) (count_hits-path cls.hits f),
    ap (text_eq p) ((text_eq_iff f.path cls.filename).0 same),
  )
  | inr other ↦ ground (arith, count_file-paths p cls fs)
]

count_file-IsUnique :
    (cls : CoberturaClass) (fs : List FileCoverage)
    → IsUnique (paths fs)
    → IsUnique (paths (count_file cls fs))
unfolding count_file
count_file-IsUnique cls [] h = (refl, tt)
count_file-IsUnique cls (f ∷ fs) h = elim (Bool-cases (text_eq f.path cls.filename)) [
  | inl same ↦ rw (same, count_hits-path cls.hits f) h
  | inr other ↦
      rw other (ground (arith, count_file-paths f.path cls fs, h.0), count_file-IsUnique cls fs h.1)
]

walk_classes-IsCounted :
    (classes : List CoberturaClass) (w : Walk) → IsCounted w → IsCounted (walk_classes classes w)
unfolding walk_classes
walk_classes-IsCounted [] w h = h
walk_classes-IsCounted (cls ∷ classes) w h =
    let (covered, total) = count_file-sums cls w.files in
    walk_classes-IsCounted classes _ (record {
      covered_is = omega (arith, covered, h.covered_is);
      total_is = omega (arith, total, h.total_is);
      all_partial = count_file-All cls w.files h.all_partial;
      all_distinct = count_file-IsUnique cls w.files h.all_distinct;
    })

walk_packages-IsCounted :
    (packages : List (List CoberturaClass)) (w : Walk)
    → IsCounted w
    → IsCounted (walk_packages packages w)
unfolding walk_packages
walk_packages-IsCounted [] w h = h
walk_packages-IsCounted (classes ∷ packages) w h =
    walk_packages-IsCounted packages (walk_classes classes w) (walk_classes-IsCounted classes w h)

-- The lines of the classes, and those that a hit covers.
abbrev pub lines_in : List CoberturaClass → ℕ
lines_in [] = 0
lines_in (cls ∷ classes) = length cls.hits + lines_in classes

abbrev pub hits_in : List CoberturaClass → ℕ
hits_in [] = 0
hits_in (cls ∷ classes) = count_if is_hit cls.hits + hits_in classes

abbrev pub all_lines : List (List CoberturaClass) → ℕ
all_lines [] = 0
all_lines (classes ∷ packages) = lines_in classes + all_lines packages

abbrev pub all_hits : List (List CoberturaClass) → ℕ
all_hits [] = 0
all_hits (classes ∷ packages) = hits_in classes + all_hits packages

walk_classes-counts :
    (classes : List CoberturaClass) (w : Walk)
    → (walk_classes classes w).total ≡ w.total + lines_in classes
      × (walk_classes classes w).covered ≡ w.covered + hits_in classes
unfolding walk_classes
walk_classes-counts [] w = (omega arith, omega arith)
walk_classes-counts (cls ∷ classes) w =
    let (total, covered) = walk_classes-counts classes (record {
      covered = w.covered + count_if is_hit cls.hits;
      total = w.total + length cls.hits;
      files = count_file cls w.files;
    }) in
    (omega (arith, total), omega (arith, covered))

walk_packages-counts :
    (packages : List (List CoberturaClass)) (w : Walk)
    → (walk_packages packages w).total ≡ w.total + all_lines packages
      × (walk_packages packages w).covered ≡ w.covered + all_hits packages
unfolding walk_packages
walk_packages-counts [] w = (omega arith, omega arith)
walk_packages-counts (classes ∷ packages) w =
    let (total, covered) = walk_packages-counts packages (walk_classes classes w) in
    let (total', covered') = walk_classes-counts classes w in
    (omega (arith, total, total'), omega (arith, covered, covered'))

-- A document without a positive `lines-valid` is refused exactly if its classes have no line; otherwise its
-- report counts the lines of all classes and those with hits, which are also the sums over its files; the
-- files have distinct paths, and none has more covered lines than lines.
pub parse_cobertura-IsCounted :
    (root : CoberturaRoot)
    → is_positive root.lines_valid ≡ false
    → (fs : List FileCoverage) × ((all_lines root.packages ≡ sum_total fs
          × all_hits root.packages ≡ sum_covered fs)
        × (All IsPartial fs × IsUnique (paths fs))
        × parse_cobertura (some root) ≡ (
            if ltb 0 (all_lines root.packages)
            then some (record {
              lines_covered = pos (all_hits root.packages);
              lines_total = pos (all_lines root.packages);
              files = fs;
            })
            else none))
unfolding parse_cobertura
parse_cobertura-IsCounted root absent =
    let w = walk_packages root.packages no_walk in
    let counted =
      walk_packages-IsCounted root.packages no_walk
        (record { covered_is = refl; total_is = refl; all_partial = tt; all_distinct = tt }) in
    let counts = walk_packages-counts root.packages no_walk in
    let total : w.total ≡ all_lines root.packages = omega (arith, counts.0) in
    let covered : w.covered ≡ all_hits root.packages = omega (arith, counts.1) in
    (
      w.files,
      (
        (sym total ∙ counted.total_is, sym covered ∙ counted.covered_is),
        (counted.all_partial, counted.all_distinct),
        rw (absent, total, covered) refl,
      ),
    )
