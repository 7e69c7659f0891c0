-- ===== src/Scorecard/Counts.antt =====
-- The counts of a summary are those of its verdicts.
use mathlib.Core.List.{append-nil, append_assoc}
use cuddly_lamp.Prelude.{
  sym, ◌+◌, ◌≡◌, refl, Bool, true, false, List, [], ◌∷◌, ◌++◌, arith, length, count_if,
  count_if-append, length-append, map, ap, ◌∙◌,
}
use cuddly_lamp.Scorecard.{
  Status, pass, fail, not_applicable, RepoFacts, Check, Verdict, Summary, eval, registry,
  no_verdicts, count_status, evaluate_all, evaluate,
}

abbrev pub is_status : Status → Verdict → Bool
is_status pass v = elim v.status [ pass ↦ true | fail ↦ false | not_applicable ↦ false ]
is_status fail v = elim v.status [ pass ↦ false | fail ↦ true | not_applicable ↦ false ]
is_status not_applicable v = elim v.status [ pass ↦ false | fail ↦ false | not_applicable ↦ true ]

-- What the counts of a summary say of its verdicts.
pub record IsTally (s : Summary) : Type 0 where
  pub passing_is : s.passing ≡ count_if (is_status pass) s.verdicts
  pub failing_is : s.failing ≡ count_if (is_status fail) s.verdicts
  pub not_applicable_is : s.not_applicable ≡ count_if (is_status not_applicable) s.verdicts
  pub total_is : s.total ≡ s.passing + s.failing
  pub all_are : s.total + s.not_applicable ≡ length s.verdicts

tally-append :
    (v : Verdict) (vs : List Verdict)
    → count_if (is_status pass) (vs ++ v ∷ [])
        ≡ count_if (is_status pass) vs + count_if (is_status pass) (v ∷ [])
      × count_if (is_status fail) (vs ++ v ∷ [])
        ≡ count_if (is_status fail) vs + count_if (is_status fail) (v ∷ [])
      × count_if (is_status not_applicable) (vs ++ v ∷ [])
        ≡ count_if (is_status not_applicable) vs + count_if (is_status not_applicable) (v ∷ [])
tally-append v vs = (
  count_if-append (is_status pass) vs (v ∷ []),
  count_if-append (is_status fail) vs (v ∷ []),
  count_if-append (is_status not_applicable) vs (v ∷ []),
)

count_status-IsTally :
    (c : Check) (status : Status) (s : Summary)
    → IsTally s
    → IsTally (
        count_status status
          (record s { verdicts = s.verdicts ++ (record { check = c; status = status }) ∷ [] }))
unfolding count_status
count_status-IsTally c status s h =
    let v : Verdict = record { check = c; status = status } in
    let counts = tally-append v s.verdicts in
    record {
      passing_is = ground (arith, h.passing_is, counts);
      failing_is = ground (arith, h.failing_is, counts);
      not_applicable_is = ground (arith, h.not_applicable_is, counts);
      total_is = ground (arith, h.total_is);
      all_are = ground (arith, h.all_are, length-append s.verdicts (v ∷ []));
    }

evaluate_all-IsTally :
    (facts : RepoFacts) (checks : List Check) (s : Summary)
    → IsTally s
    → IsTally (evaluate_all facts checks s)
unfolding evaluate_all
evaluate_all-IsTally facts [] s h = h
evaluate_all-IsTally facts (c ∷ checks) s h =
    evaluate_all-IsTally facts checks
      (count_status (eval c facts)
        (record s { verdicts = s.verdicts ++ (record { check = c; status = eval c facts }) ∷ [] }))
      (count_status-IsTally c (eval c facts) s h)

abbrev pub verdict_of : RepoFacts → Check → Verdict
verdict_of facts c = record { check = c; status = eval c facts }

count_status-verdicts : (st : Status) (s : Summary) → (count_status st s).verdicts ≡ s.verdicts
unfolding count_status
count_status-verdicts pass s = refl
count_status-verdicts fail s = refl
count_status-verdicts not_applicable s = refl

evaluate_all-verdicts :
    (facts : RepoFacts) (checks : List Check) (s : Summary)
    → (evaluate_all facts checks s).verdicts ≡ s.verdicts ++ map (verdict_of facts) checks
unfolding evaluate_all
evaluate_all-verdicts facts [] s = sym (append-nil s.verdicts)
evaluate_all-verdicts facts (c ∷ checks) s =
    let appended = record s { verdicts = s.verdicts ++ verdict_of facts c ∷ [] } in
    evaluate_all-verdicts facts checks (count_status (eval c facts) appended)
    ∙ ap (λ vs. vs ++ map (verdict_of facts) checks) (count_status-verdicts (eval c facts) appended)
    ∙ append_assoc s.verdicts (verdict_of facts c ∷ []) (map (verdict_of facts) checks)

-- `Evaluate` gives one verdict for each check of the registry, in its order, that of the check's
-- predicate; and its counts are those of the verdicts: passing and failing ones make the total, and the
-- total and those that do not apply make all eight.
pub evaluate-IsTally :
    (facts : RepoFacts)
    → (evaluate facts).verdicts ≡ map (verdict_of facts) registry
      × IsTally (evaluate facts)
      × (evaluate facts).passing + (evaluate facts).failing + (evaluate facts).not_applicable ≡ 8
unfolding evaluate registry
evaluate-IsTally facts =
    let verdicts = evaluate_all-verdicts facts registry no_verdicts in
    let tally = evaluate_all-IsTally facts registry no_verdicts (record {
      passing_is = refl;
      failing_is = refl;
      not_applicable_is = refl;
      total_is = refl;
      all_are = refl;
    }) in
    (verdicts, tally, omega (arith, tally.total_is, tally.all_are, ap length verdicts))
