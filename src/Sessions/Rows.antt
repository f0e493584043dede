-- ===== src/Sessions/Rows.antt =====
-- The rows of one token: what a deletion, a purge and an insertion leave of them.
use ragra_reminder.Prelude.{
  ◌≡◌, ◌≤◌, refl, Bool, true, Option, none, some, List, [], ◌∷◌, arith, length, select, fetchone,
  delete_where, update_where, if◌then◌else◌, inl, inr, Bool-cases,
}

module _ {A : Type 0} where
  pub select_deleted : (p : A → Bool) (l : List A) → select p (delete_where p l) ≡ []
  select_deleted p [] = refl
  select_deleted p (x ∷ xs) = elim (Bool-cases (p x)) [
    | inl hit ↦ ground (arith, select_deleted p xs)
    | inr miss ↦ ground (arith, select_deleted p xs)
  ]

  pub length-select-delete :
      (p q : A → Bool) (l : List A) → length (select p (delete_where q l)) ≤ length (select p l)
  length-select-delete p q [] = omega arith
  length-select-delete p q (x ∷ xs) = ground (arith, length-select-delete p q xs)

  -- What a test makes of the row that was found.
  abbrev pub kept : (A → Bool) → Option A → Option A
  kept q none = none
  kept q (some x) = if q x then none else some x

  -- If at most one row is selected, a deletion takes it or leaves it.
  pub fetchone-select-delete :
      (p q : A → Bool) (l : List A)
      → length (select p l) ≤ 1
      → fetchone (select p (delete_where q l)) ≡ kept q (fetchone (select p l))
  fetchone-select-delete p q [] h = refl
  fetchone-select-delete p q (x ∷ xs) h = elim (Bool-cases (p x)) [
    | inl hit ↦ kept_head p q x xs hit (length-select-delete p q xs) h
    | inr miss ↦ ground (arith, fetchone-select-delete p q xs (ground arith))
  ]
    where
      nothing_left : (l : List A) → length l ≤ 0 → fetchone l ≡ none
      nothing_left [] h = refl
      nothing_left (x ∷ xs) h = ground arith

      kept_head :
          (p q : A → Bool) (x : A) (xs : List A)
          → p x ≡ true
          → length (select p (delete_where q xs)) ≤ length (select p xs)
          → length (select p (x ∷ xs)) ≤ 1
          → fetchone (select p (delete_where q (x ∷ xs))) ≡ kept q (fetchone (select p (x ∷ xs)))
      kept_head p q x xs hit fewer h =
          let rest : length (select p xs) ≤ 0 = ground arith in
          let gone = nothing_left (select p (delete_where q xs)) (omega arith) in
          ground (arith, gone)

  pub length-select-update :
      (p q : A → Bool) (f : A → A)
      → ((x : A) → p (f x) ≡ p x)
      → (l : List A) → length (select p (update_where q f l)) ≡ length (select p l)
  length-select-update p q f same [] = refl
  length-select-update p q f same (x ∷ xs) =
      ground (arith, same x, length-select-update p q f same xs)
