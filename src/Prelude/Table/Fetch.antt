-- ===== src/Prelude/Table/Fetch.antt =====
-- The first row of a selection, after an UPDATE and after an INSERT.
use mathlib.Core.Path.{◌≡◌, refl, sym, subst, ◌∙◌}
use mathlib.Core.Bool.{Bool, true, false}
use mathlib.Core.Logic.{inl, inr}
use mathlib.Core.Option.{none, some}
use mathlib.Core.List.{List, [], ◌∷◌, ◌++◌}
use native.Mathlib.Omega.{arith}
use ragra_reminder.Prelude.Tests.{Bool-cases}
use ragra_reminder.Prelude.Table.Statements.{select, fetchone, exists_row, update_where}

module _ {A : Type 0} (p q : A → Bool) (f : A → A) (same : (x : A) → p (f x) ≡ p x) where
  -- The first row that passes a test, after an update that reaches it and changes no test.
  pub fetch_updated :
      (l : List A) (e : A)
      → q e ≡ true
      → fetchone (select p l) ≡ some e
      → fetchone (select p (update_where q f l)) ≡ some (f e)
  fetch_updated [] e h k = ground arith
  fetch_updated (x ∷ xs) e h k = elim (Bool-cases (p x)) [
    | inl hit ↦ fetched_head x xs e h hit k
    | inr miss ↦ fetched_tail x xs e miss (fetch_updated xs e h (ground arith))
  ]
    where
      fetched_head :
          (x : A) (xs : List A) (e : A)
          → q e ≡ true
          → p x ≡ true
          → fetchone (select p (x ∷ xs)) ≡ some e
          → fetchone (select p (update_where q f (x ∷ xs))) ≡ some (f e)
      fetched_head x xs e h hit k =
          let first : some x ≡ some e = ground arith in
          let x_is : x ≡ e = ground arith in ground (arith, same x)

      fetched_tail :
          (x : A) (xs : List A) (e : A)
          → p x ≡ false
          → fetchone (select p (update_where q f xs)) ≡ some (f e)
          → fetchone (select p (update_where q f (x ∷ xs))) ≡ some (f e)
      fetched_tail x xs e miss k = ground (arith, same x)

pub fetch_inserted :
    {A : Type 0} (p : A → Bool) (l : List A) (x : A)
    → fetchone (select p l) ≡ none
    → p x ≡ true
    → fetchone (select p (l ++ x ∷ [])) ≡ some x
fetch_inserted p [] x h k = ground arith
fetch_inserted p (y ∷ ys) x h k = elim (Bool-cases (p y)) [
  | inl hit ↦ ground arith
  | inr miss ↦ ground (arith, fetch_inserted p ys x (ground arith) k)
]

module _ {A : Type 0} (p : A → Bool) where
  pub fetch_passes : (l : List A) (e : A) → fetchone (select p l) ≡ some e → p e ≡ true
  fetch_passes [] e h = ground arith
  fetch_passes (x ∷ xs) e h = elim (Bool-cases (p x)) [
    | inl hit ↦ passes_head x xs e hit h
    | inr miss ↦ fetch_passes xs e (passes_tail x xs e miss h)
  ]
    where
      passes_head :
          (x : A) (xs : List A) (e : A)
          → p x ≡ true
          → fetchone (select p (x ∷ xs)) ≡ some e
          → p e ≡ true
      passes_head x xs e hit h =
          let first : fetchone (select p (x ∷ xs)) ≡ some x = rw hit refl in
          let x_is : x ≡ e = ground (arith, first, h) in subst (λ t. p t ≡ true) x_is hit

      passes_tail :
          (x : A) (xs : List A) (e : A)
          → p x ≡ false
          → fetchone (select p (x ∷ xs)) ≡ some e
          → fetchone (select p xs) ≡ some e
      passes_tail x xs e miss h =
          let rest : fetchone (select p (x ∷ xs)) ≡ fetchone (select p xs) = rw miss refl in
          sym rest ∙ h

  pub fetch_absent : (l : List A) → fetchone (select p l) ≡ none → exists_row p l ≡ false
  fetch_absent [] h = refl
  fetch_absent (x ∷ xs) h = elim (Bool-cases (p x)) [
    | inl hit ↦ ground arith
    | inr miss ↦ ground (arith, fetch_absent xs (ground arith))
  ]

  pub fetch_present : (l : List A) (e : A) → fetchone (select p l) ≡ some e → exists_row p l ≡ true
  fetch_present [] e h = ground arith
  fetch_present (x ∷ xs) e h = elim (Bool-cases (p x)) [
    | inl hit ↦ ground arith
    | inr miss ↦ ground (arith, fetch_present xs e (ground arith))
  ]
