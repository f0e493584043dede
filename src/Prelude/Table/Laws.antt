-- ===== src/Prelude/Table/Laws.antt =====
-- What the statements keep, find and leave alone.
use Prim.Native.Nat.{ℕ, ◌+◌, ◌≤◌}
use mathlib.Core.Path.{◌≡◌, refl}
use mathlib.Core.Bool.{Bool, true, false, ◌&&◌, ◌||◌}
use mathlib.Core.Logic.{inl, inr}
use mathlib.Core.List.{List, [], ◌∷◌, ◌++◌}
use native.Mathlib.Omega.{arith}
use ragra_reminder.Prelude.Tests.{leb, if◌then◌else◌, Bool-cases}
use ragra_reminder.Prelude.Lists.{All, Some}
use ragra_reminder.Prelude.Table.Statements.{
  select, exists_row, update_where, count_where, delete_where, insert_by, order_by,
}

module _ {ℓ} {A : Type ℓ} where
  pub All-update_where :
      (P Q : A → Type 0) (p : A → Bool) (f : A → A)
      → ((r : A) → P r → Q (if p r then f r else r))
      → (l : List A) → All P l
      → All Q (update_where p f l)
  All-update_where P Q p f step [] h = tt
  All-update_where P Q p f step (x ∷ xs) h = (step x h.0, All-update_where P Q p f step xs h.1)

  -- An update that touches only rows outside the selection, and moves none into it, is not seen.
  pub select-update_where :
      (q p : A → Bool) (f : A → A)
      → ((r : A) → p r ≡ true → (q r ≡ false) × (q (f r) ≡ false))
      → (l : List A) → select q (update_where p f l) ≡ select q l
  select-update_where q p f apart [] = refl
  select-update_where q p f apart (x ∷ xs) = elim (Bool-cases (p x)) [
    | inl hit ↦ ground (arith, apart x hit, select-update_where q p f apart xs)
    | inr miss ↦ ground (arith, select-update_where q p f apart xs)
  ]

  pub select-append :
      (q : A → Bool) (xs ys : List A) → select q (xs ++ ys) ≡ select q xs ++ select q ys
  select-append q [] ys = refl
  select-append q (x ∷ xs) ys = ground (arith, select-append q xs ys)

  pub select_insert_other :
      (q : A → Bool) (l : List A) (x : A) → q x ≡ false → select q (l ++ x ∷ []) ≡ select q l
  select_insert_other q [] x e = ground arith
  select_insert_other q (y ∷ l) x e = ground (arith, select_insert_other q l x e)

  pub select-delete_where :
      (q p : A → Bool)
      → ((r : A) → p r ≡ true → q r ≡ false)
      → (l : List A) → select q (delete_where p l) ≡ select q l
  select-delete_where q p apart [] = refl
  select-delete_where q p apart (x ∷ xs) = elim (Bool-cases (p x)) [
    | inl hit ↦ ground (arith, apart x hit, select-delete_where q p apart xs)
    | inr miss ↦ ground (arith, select-delete_where q p apart xs)
  ]

  -- The rows of a selection pass its test and keep what was known of them.
  pub All-select :
      (P : A → Type 0) (q : A → Bool) (l : List A)
      → All P l
      → All (λ r. (q r ≡ true) × P r) (select q l)
  All-select P q [] h = tt
  All-select P q (x ∷ xs) h = elim (Bool-cases (q x)) [
    | inl hit ↦ rw hit ((hit, h.0), All-select P q xs h.1)
    | inr miss ↦ rw miss (All-select P q xs h.1)
  ]

  pub select_nothing : (q : A → Bool) (l : List A) → All (λ r. q r ≡ false) l → select q l ≡ []
  select_nothing q [] h = refl
  select_nothing q (x ∷ xs) h = ground (arith, select_nothing q xs h.1)

  pub All-insert_by :
      (P : A → Type 0) (key : A → ℕ) (x : A) (l : List A)
      → P x
      → All P l
      → All P (insert_by key x l)
  All-insert_by P key x [] px h = (px, tt)
  All-insert_by P key x (y ∷ ys) px h = elim (Bool-cases (leb (key x) (key y))) [
    | inl before ↦ rw before (px, h)
    | inr after ↦ rw after (h.0, All-insert_by P key x ys px h.1)
  ]

  pub All-order_by : (P : A → Type 0) (key : A → ℕ) (l : List A) → All P l → All P (order_by key l)
  All-order_by P key [] h = tt
  All-order_by P key (x ∷ xs) h =
      All-insert_by P key x (order_by key xs) h.0 (All-order_by P key xs h.1)

  pub exists_row_none :
      (q : A → Bool) (l : List A) → exists_row q l ≡ false → All (λ r. q r ≡ false) l
  exists_row_none q [] h = tt
  exists_row_none q (x ∷ xs) h = (ground arith, exists_row_none q xs (ground arith))

  pub exists_row-Some :
      (q : A → Bool) (l : List A) → Some (λ r. q r ≡ true) l → exists_row q l ≡ true
  exists_row-Some q [] h = elim h [ ]
  exists_row-Some q (x ∷ xs) (inl e) = ground arith
  exists_row-Some q (x ∷ xs) (inr e) = ground (arith, exists_row-Some q xs e)

module _ {ℓ} {A : Type ℓ} where
  pub exists_row-append :
      (q : A → Bool) (xs ys : List A)
      → exists_row q (xs ++ ys) ≡ (exists_row q xs || exists_row q ys)
  exists_row-append q [] ys = refl
  exists_row-append q (x ∷ xs) ys = ground (arith, exists_row-append q xs ys)

  pub exists_row-select :
      (q w : A → Bool) (l : List A) → exists_row q (select w l) ≡ exists_row (λ r. q r && w r) l
  exists_row-select q w [] = refl
  exists_row-select q w (x ∷ xs) = ground (arith, exists_row-select q w xs)

  pub count_where-append :
      (q : A → Bool) (xs ys : List A)
      → count_where q (xs ++ ys) ≡ count_where q xs + count_where q ys
  count_where-append q [] ys = omega arith
  count_where-append q (x ∷ xs) ys = ground (arith, count_where-append q xs ys)

  pub count_where-select-le :
      (q w : A → Bool) (l : List A) → count_where q (select w l) ≤ count_where q l
  count_where-select-le q w [] = omega arith
  count_where-select-le q w (x ∷ xs) = ground (arith, count_where-select-le q w xs)
