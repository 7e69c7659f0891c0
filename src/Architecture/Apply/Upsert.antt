-- ===== src/Architecture/Apply/Upsert.antt =====
-- One derived relationship is written: what becomes of the other rows.
use cuddly_lamp.Prelude.{
  ◌≡◌, refl, sym, ap, ◌∙◌, subst, ◌⊎◌, inl, inr, ℕ, Bool, true, false, ◌&&◌, ◌||◌, Option, none,
  some, List, [], ◌∷◌, ◌++◌, any, All-map, select, update_where, is_some, Bool-cases, Option-cases,
  arith,
}
use cuddly_lamp.Text.{Text, text_eq}
use cuddly_lamp.Text.Laws.{text_eq_iff, text_eq_refl}
use cuddly_lamp.Model.Architecture.{RepositoryRelationship, is_undeleted}
use cuddly_lamp.Storage.Action.{ok}
use cuddly_lamp.Storage.Architecture.{is_twin, find_twin, revive, upsert_rows, is_same_column}
use cuddly_lamp.Architecture.Apply.Rows.{
  IsKeyed, is_human, any-update_by, select-update_by, any-update_kept, any_last, select_last,
  find_twin-IsRow, only_row, row-passes,
}

-- The row of an insertion.
abbrev pub inserted : ℕ → Text → RepositoryRelationship → RepositoryRelationship
inserted now id rel = record rel { id = id; created_at = now; updated_at = now; deleted_at = none }

abbrev pub has_id : Text → RepositoryRelationship → Bool
has_id id r = text_eq r.id id

pub same_column-is_some : (c d : Option Text) → is_same_column c d ≡ true → is_some c ≡ true
same_column-is_some none none h = cc
same_column-is_some none (some d) h = cc
same_column-is_some (some c) d h = refl

IsKeyed-last :
    (rows : List RepositoryRelationship) (r : RepositoryRelationship)
    → IsKeyed rows
    → any (has_id r.id) rows ≡ false
    → IsKeyed (rows ++ r ∷ [])
IsKeyed-last [] r keyed fresh = (refl, tt)
IsKeyed-last (s ∷ rows) r keyed fresh = (
  ground (arith, any_last (has_id s.id) rows r, text_eq_iff r.id s.id, text_eq_iff s.id r.id),
  IsKeyed-last rows r keyed.1 (ground arith),
)

module _ (p : RepositoryRelationship → Bool) (f : RepositoryRelationship → RepositoryRelationship)
    (same : (r : RepositoryRelationship) → p r ≡ true → (f r).id ≡ r.id) where
  pub any_id-update_where :
      (id : Text) (rows : List RepositoryRelationship)
      → any (has_id id) (update_where p f rows) ≡ any (has_id id) rows
  any_id-update_where id [] = refl
  any_id-update_where id (r ∷ rows) = elim (Bool-cases (p r)) [
    | inl hit ↦ ground (arith, any_id-update_where id rows, ap (λ z. text_eq z id) (same r hit))
    | inr miss ↦ ground (arith, any_id-update_where id rows)
  ]

  pub update_where-IsKeyed :
      (rows : List RepositoryRelationship) → IsKeyed rows → IsKeyed (update_where p f rows)
  update_where-IsKeyed [] keyed = tt
  update_where-IsKeyed (r ∷ rows) keyed =
      let later = update_where-IsKeyed rows keyed.1 in
      elim (Bool-cases (p r)) [
        | inl e ↦ rw (e, same r e) (any_id-update_where r.id rows ∙ keyed.0, later)
        | inr e ↦ rw e (any_id-update_where r.id rows ∙ keyed.0, later)
      ]

module _ (now : ℕ) (id : Text) (rel : RepositoryRelationship)
    (rows rows' : List RepositoryRelationship) (done : upsert_rows now id rel rows ≡ ok rows') where
  -- The two ways of a success.
  pub upsert_rows-cases :
      (find_twin rel rows ≡ none
        × any (has_id id) rows ≡ false
        × rows' ≡ rows ++ inserted now id rel ∷ [])
      ⊎ ((x : RepositoryRelationship) × (find_twin rel rows ≡ some x
            × rows' ≡ update_where (has_id x.id) (revive now rel) rows))
  unfolding upsert_rows
  upsert_rows-cases = elim (Option-cases (find_twin rel rows)) [
    | inl e ↦ inl (e, ground arith, ground arith)
    | inr (x, e) ↦ inr (x, (e, ground arith))
  ]

  -- A test that the written row passes exactly if `b`, and that the rows of the identity pass only if `b`.
  pub upsert_rows-any :
      (q : RepositoryRelationship → Bool) (b : Bool)
      → IsKeyed rows
      → q (inserted now id rel) ≡ b
      → ((x : RepositoryRelationship) → is_twin rel x ≡ true → q (revive now rel x) ≡ b)
      → ((x : RepositoryRelationship) → is_twin rel x ≡ true → q x ≡ true → b ≡ true)
      → any q rows' ≡ any q rows || b
  upsert_rows-any q b keyed new written stays = elim upsert_rows-cases [
    | inl (none_found, fresh, e) ↦
        ap (any q) e ∙ any_last q rows (inserted now id rel) ∙ ap (λ z. any q rows || z) new
    | inr (x, (found, e)) ↦
        let (row, twin) = find_twin-IsRow rel x rows found in
        let only = only_row rows x keyed row in
        let there = row-passes (has_id x.id) rows x row (text_eq_refl x.id) in
        ap (any q) e
        ∙ any-update_by (has_id x.id) q (revive now rel) b rows
            (All-map (λ r. text_eq r.id x.id ≡ true → r ≡ x)
              (λ r. text_eq r.id x.id ≡ true → q (revive now rel r) ≡ b)
              (λ r h same. ap (λ z. q (revive now rel z)) (h same) ∙ written x twin) rows only)
            (All-map (λ r. text_eq r.id x.id ≡ true → r ≡ x)
              (λ r. text_eq r.id x.id ≡ true → q r ≡ true → b ≡ true)
              (λ r h same passes. stays x twin (sym (ap q (h same)) ∙ passes)) rows only)
        ∙ ground (arith, there)
  ]

  pub upsert_rows-human :
      IsKeyed rows
      → is_some rel.derivation_key ≡ true
      → select is_human rows' ≡ select is_human rows
  unfolding is_twin revive
  upsert_rows-human keyed derived = elim upsert_rows-cases [
    | inl (none_found, fresh, e) ↦
        ap (select is_human) e ∙ select_last is_human rows (inserted now id rel) (ground arith)
    | inr (x, (found, e)) ↦
        let (row, twin) = find_twin-IsRow rel x rows found in
        let only = only_row rows x keyed row in
        let machine : is_human x ≡ false =
          ground (arith, same_column-is_some x.derivation_key rel.derivation_key) in
        ap (select is_human) e
        ∙ select-update_by (has_id x.id) is_human (revive now rel) rows
            (All-map (λ r. text_eq r.id x.id ≡ true → r ≡ x)
              (λ r. text_eq r.id x.id ≡ true → is_human (revive now rel r) ≡ false)
              (λ r h same. ap (λ z. is_human (revive now rel z)) (h same) ∙ machine) rows only)
            (All-map (λ r. text_eq r.id x.id ≡ true → r ≡ x)
              (λ r. text_eq r.id x.id ≡ true → is_human r ≡ false)
              (λ r h same. ap is_human (h same) ∙ machine) rows only)
  ]

  -- A row that is not deleted stays so.
  pub upsert_rows-alive :
      (j : Text)
      → any (λ r. has_id j r && is_undeleted r) rows ≡ true
      → any (λ r. has_id j r && is_undeleted r) rows' ≡ true
  unfolding revive
  upsert_rows-alive j alive = elim upsert_rows-cases [
    | inl (none_found, fresh, e) ↦
        ap (any (λ r. has_id j r && is_undeleted r)) e
        ∙ any_last (λ r. has_id j r && is_undeleted r) rows (inserted now id rel)
        ∙ ground (arith)
    | inr (x, (found, e)) ↦
        ap (any (λ r. has_id j r && is_undeleted r)) e
        ∙ any-update_kept (has_id x.id) (λ r. has_id j r && is_undeleted r) (revive now rel) rows
            (λ r h. ground arith) alive
  ]

  pub upsert_rows-IsKeyed : IsKeyed rows → IsKeyed rows'
  unfolding revive
  upsert_rows-IsKeyed keyed = elim upsert_rows-cases [
    | inl (none_found, fresh, e) ↦
        subst IsKeyed (sym e) (IsKeyed-last rows (inserted now id rel) keyed fresh)
    | inr (x, (found, e)) ↦
        subst IsKeyed (sym e)
          (update_where-IsKeyed (has_id x.id) (revive now rel) (λ r hit. refl) rows keyed)
  ]
