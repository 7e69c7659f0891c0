-- ===== src/Architecture/Apply/Rows.antt =====
-- What the transactions of a derivation do to the rows of `repository_relationships`.
use cuddly_lamp.Prelude.{
  ◌≡◌, refl, sym, ap, ◌∙◌, subst, inl, inr, Bool, true, false, not, ◌&&◌, ◌||◌, some, List, [], ◌∷◌,
  ◌++◌, any, All, Any, All-map, All-Any_self, ltb, select, update_where, is_some, Bool-cases,
  Option-cases, arith,
}
use cuddly_lamp.Text.{text_eq}
use cuddly_lamp.Text.Laws.{text_eq_iff}
use cuddly_lamp.Model.Architecture.{RepositoryRelationship, is_undeleted}
use cuddly_lamp.Storage.Architecture.{is_twin, newest, find_twin}

-- The id is the primary key.
abbrev pub IsKeyed : List RepositoryRelationship → Type 0
IsKeyed [] = Unit
IsKeyed (r ∷ rs) = any (λ s. text_eq s.id r.id) rs ≡ false × IsKeyed rs

-- A row that a person declared.
abbrev pub is_human : RepositoryRelationship → Bool
is_human r = not (is_some r.derivation_key)

module _ (p q : RepositoryRelationship → Bool)
    (f : RepositoryRelationship → RepositoryRelationship) where
  pub any-update_by :
      (b : Bool) (rs : List RepositoryRelationship)
      → All (λ r. p r ≡ true → q (f r) ≡ b) rs
      → All (λ r. p r ≡ true → q r ≡ true → b ≡ true) rs
      → any q (update_where p f rs) ≡ any q rs || (any p rs && b)
  any-update_by b [] h k = refl
  any-update_by b (r ∷ rs) h k = ground (arith, any-update_by b rs h.1 k.1, h.0, k.0)

  pub select-update_by :
      (rs : List RepositoryRelationship)
      → All (λ r. p r ≡ true → q (f r) ≡ false) rs
      → All (λ r. p r ≡ true → q r ≡ false) rs
      → select q (update_where p f rs) ≡ select q rs
  select-update_by [] h k = refl
  select-update_by (r ∷ rs) h k = ground (arith, select-update_by rs h.1 k.1, h.0, k.0)

  pub any-update_kept :
      (rs : List RepositoryRelationship)
      → ((r : RepositoryRelationship) → q r ≡ true → q (f r) ≡ true)
      → any q rs ≡ true
      → any q (update_where p f rs) ≡ true
  any-update_kept [] h k = k
  any-update_kept (r ∷ rs) h k = ground (arith, any-update_kept rs h, h r)

pub any_last :
    (q : RepositoryRelationship → Bool) (rs : List RepositoryRelationship)
    (r : RepositoryRelationship)
    → any q (rs ++ r ∷ []) ≡ any q rs || q r
any_last q [] r = ground arith
any_last q (s ∷ rs) r = ground (arith, any_last q rs r)

pub select_last :
    (q : RepositoryRelationship → Bool) (rs : List RepositoryRelationship)
    (r : RepositoryRelationship)
    → q r ≡ false
    → select q (rs ++ r ∷ []) ≡ select q rs
select_last q [] r h = ground arith
select_last q (s ∷ rs) r h = ground (arith, select_last q rs r h)

newest-All_pick :
    (P : RepositoryRelationship → Type 0) (r : RepositoryRelationship)
    (rs : List RepositoryRelationship) (s x : RepositoryRelationship)
    → All P (r ∷ rs)
    → P s
    → newest rs ≡ some s
    → newest (r ∷ rs) ≡ some x
    → P x
unfolding newest
newest-All_pick P r rs s x h k found e = elim (Bool-cases (ltb r.created_at s.created_at)) [
  | inl later ↦ let same : s ≡ x = ground arith in subst P same k
  | inr earlier ↦ let same : r ≡ x = ground arith in subst P same h.0
]

newest-All :
    (P : RepositoryRelationship → Type 0) (rs : List RepositoryRelationship)
    (x : RepositoryRelationship)
    → All P rs
    → newest rs ≡ some x
    → P x
unfolding newest
newest-All P [] x h e = cc
newest-All P (r ∷ rs) x h e = elim (Option-cases (newest rs)) [
  | inl empty ↦ let same : r ≡ x = ground arith in subst P same h.0
  | inr (s, found) ↦ newest-All_pick P r rs s x h (newest-All P rs s h.1 found) found e
]

select-All :
    (P : RepositoryRelationship → Type 0) (q : RepositoryRelationship → Bool)
    (rs : List RepositoryRelationship)
    → All P rs
    → All (λ r. P r × q r ≡ true) (select q rs)
select-All P q [] h = tt
select-All P q (r ∷ rs) h = elim (Bool-cases (q r)) [
  | inl e ↦ rw e ((h.0, e), select-All P q rs h.1)
  | inr e ↦ rw e (select-All P q rs h.1)
]

abbrev pub IsRow : List RepositoryRelationship → RepositoryRelationship → Type 0
IsRow rows x = Any (λ r. r ≡ x) rows

-- The twin that is found is a row and has the identity.
pub find_twin-IsRow :
    (rel x : RepositoryRelationship) (rows : List RepositoryRelationship)
    → find_twin rel rows ≡ some x
    → IsRow rows x × is_twin rel x ≡ true
unfolding find_twin
find_twin-IsRow rel x rows e =
    elim (Option-cases (newest (select (λ r. is_twin rel r && is_undeleted r) rows))) [
      | inr (y, found) ↦
          let same : y ≡ x = ground arith in
          let (row, passes) =
            newest-All (λ r. IsRow rows r × (is_twin rel r && is_undeleted r) ≡ true)
              (select (λ r. is_twin rel r && is_undeleted r) rows) y
              (select-All (IsRow rows) (λ r. is_twin rel r && is_undeleted r) rows
                (All-Any_self rows))
              found in
          let twin : is_twin rel y ≡ true = ground arith in
          subst (λ z. IsRow rows z × is_twin rel z ≡ true) same (row, twin)
      | inl nothing ↦
          newest-All (λ r. IsRow rows r × is_twin rel r ≡ true) (select (is_twin rel) rows) x
            (select-All (IsRow rows) (is_twin rel) rows (All-Any_self rows)) (ground arith)
    ]

pub none-pass :
    (q : RepositoryRelationship → Bool) (rs : List RepositoryRelationship)
    → any q rs ≡ false
    → All (λ r. q r ≡ false) rs
none-pass q [] h = tt
none-pass q (r ∷ rs) h = (ground arith, none-pass q rs (ground arith))

pub row-passes :
    (q : RepositoryRelationship → Bool) (rs : List RepositoryRelationship)
    (x : RepositoryRelationship)
    → IsRow rs x
    → q x ≡ true
    → any q rs ≡ true
row-passes q [] x there h = elim there [ ]
row-passes q (r ∷ rs) x (inl e) h = let k : q r ≡ true = ap q e ∙ h in ground arith
row-passes q (r ∷ rs) x (inr there) h = ground (arith, row-passes q rs x there h)

-- Under the primary key a row is the only one with its id.
pub only_row :
    (rs : List RepositoryRelationship) (x : RepositoryRelationship)
    → IsKeyed rs
    → IsRow rs x
    → All (λ r. text_eq r.id x.id ≡ true → r ≡ x) rs
only_row [] x keyed there = tt
only_row (r ∷ rs) x keyed (inl e) = (
  λ h. e,
  All-map (λ s. text_eq s.id r.id ≡ false) (λ s. text_eq s.id x.id ≡ true → s ≡ x)
      (λ s differ same. ground (arith, ap (λ z. text_eq s.id z.id) e)) rs
      (none-pass (λ s. text_eq s.id r.id) rs keyed.0),
)
only_row (r ∷ rs) x keyed (inr there) = (
  λ h.
      let back : text_eq x.id r.id ≡ true =
        (text_eq_iff x.id r.id).1 (sym ((text_eq_iff r.id x.id).0 h)) in
      ground (arith, row-passes (λ s. text_eq s.id r.id) rs x there back),
  only_row rs x keyed.1 there,
)
