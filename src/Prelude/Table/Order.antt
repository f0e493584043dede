-- ===== src/Prelude/Table/Order.antt =====
-- The rows under ORDER BY.
use Prim.Native.Nat.{ℕ, suc}
use mathlib.Core.Path.{◌≡◌, refl, ap, ◌∙◌}
use mathlib.Core.Logic.{inl, inr}
use mathlib.Core.List.{List, [], ◌∷◌}
use native.Mathlib.Omega.{arith}
use ragra_reminder.Prelude.Tests.{leb, Bool-cases}
use ragra_reminder.Prelude.Lists.{Some, length}
use ragra_reminder.Prelude.Table.Statements.{insert_by, order_by}

module _ {ℓ} {A : Type ℓ} (P : A → Type 0) (key : A → ℕ) where
  Some-insert_by_head : (x : A) (l : List A) → P x → Some P (insert_by key x l)
  Some-insert_by_head x [] h = inl h
  Some-insert_by_head x (y ∷ ys) h = elim (Bool-cases (leb (key x) (key y))) [
    | inl before ↦ rw before (inl h)
    | inr after ↦ rw after (inr (Some-insert_by_head x ys h))
  ]

  Some-insert_by : (x : A) (l : List A) → Some P l → Some P (insert_by key x l)
  Some-insert_by x [] h = elim h [ ]
  Some-insert_by x (y ∷ ys) (inl h) = elim (Bool-cases (leb (key x) (key y))) [
    | inl before ↦ rw before (inr (inl h))
    | inr after ↦ rw after (inl h)
  ]
  Some-insert_by x (y ∷ ys) (inr h) = elim (Bool-cases (leb (key x) (key y))) [
    | inl before ↦ rw before (inr (inr h))
    | inr after ↦ rw after (inr (Some-insert_by x ys h))
  ]

  pub Some-order_by : (l : List A) → Some P l → Some P (order_by key l)
  Some-order_by [] h = elim h [ ]
  Some-order_by (x ∷ xs) (inl h) = Some-insert_by_head x (order_by key xs) h
  Some-order_by (x ∷ xs) (inr h) = Some-insert_by x (order_by key xs) (Some-order_by xs h)

module _ {ℓ} {A : Type ℓ} (key : A → ℕ) where
  length-insert_by : (x : A) (l : List A) → length (insert_by key x l) ≡ suc (length l)
  length-insert_by x [] = refl
  length-insert_by x (y ∷ ys) = ground (arith, length-insert_by x ys)

  pub length-order_by : (l : List A) → length (order_by key l) ≡ length l
  length-order_by [] = refl
  length-order_by (x ∷ xs) = length-insert_by x (order_by key xs) ∙ ap suc (length-order_by xs)
