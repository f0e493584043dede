-- ===== src/Prelude/Sort.antt =====
-- Sorting by a test; the order of texts.
use mathlib.Core.Bool.{Bool, true, false, ◌&&◌, ◌||◌}
use mathlib.Core.Logic.{inl, inr}
use mathlib.Core.List.{List, [], ◌∷◌}
use ragra_reminder.Prelude.Tests.{Text, ltb, ◌==◌, if◌then◌else◌, Bool-cases}
use ragra_reminder.Prelude.Lists.{All, Some}

-- By code points, as SQLite and Python compare texts.
abbrev pub text_le : Text → Text → Bool
text_le [] t = true
text_le (a ∷ s) [] = false
text_le (a ∷ s) (b ∷ t) = ltb a b || (a == b && text_le s t)

module _ {ℓ} {A : Type ℓ} (le : A → A → Bool) where
  abbrev pub insert_with : A → List A → List A
  insert_with x [] = x ∷ []
  insert_with x (y ∷ ys) = let rest = insert_with x ys in if le x y then x ∷ y ∷ ys else y ∷ rest

  abbrev pub sort_with : List A → List A
  sort_with [] = []
  sort_with (x ∷ xs) = insert_with x (sort_with xs)

  All-insert_with : (P : A → Type 0) (x : A) (l : List A) → P x → All P l → All P (insert_with x l)
  All-insert_with P x [] px h = (px, tt)
  All-insert_with P x (y ∷ ys) px h = elim (Bool-cases (le x y)) [
    | inl before ↦ rw before (px, h)
    | inr after ↦ rw after (h.0, All-insert_with P x ys px h.1)
  ]

  pub All-sort_with : (P : A → Type 0) (l : List A) → All P l → All P (sort_with l)
  All-sort_with P [] h = tt
  All-sort_with P (x ∷ xs) h = All-insert_with P x (sort_with xs) h.0 (All-sort_with P xs h.1)

  Some-insert_with_head : (P : A → Type 0) (x : A) (l : List A) → P x → Some P (insert_with x l)
  Some-insert_with_head P x [] h = inl h
  Some-insert_with_head P x (y ∷ ys) h = elim (Bool-cases (le x y)) [
    | inl before ↦ rw before (inl h)
    | inr after ↦ rw after (inr (Some-insert_with_head P x ys h))
  ]

  Some-insert_with : (P : A → Type 0) (x : A) (l : List A) → Some P l → Some P (insert_with x l)
  Some-insert_with P x [] h = elim h [ ]
  Some-insert_with P x (y ∷ ys) (inl h) = elim (Bool-cases (le x y)) [
    | inl before ↦ rw before (inr (inl h))
    | inr after ↦ rw after (inl h)
  ]
  Some-insert_with P x (y ∷ ys) (inr h) = elim (Bool-cases (le x y)) [
    | inl before ↦ rw before (inr (inr h))
    | inr after ↦ rw after (inr (Some-insert_with P x ys h))
  ]

  pub Some-sort_with : (P : A → Type 0) (l : List A) → Some P l → Some P (sort_with l)
  Some-sort_with P [] h = elim h [ ]
  Some-sort_with P (x ∷ xs) (inl h) = Some-insert_with_head P x (sort_with xs) h
  Some-sort_with P (x ∷ xs) (inr h) = Some-insert_with P x (sort_with xs) (Some-sort_with P xs h)
