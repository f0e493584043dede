-- ===== src/Relevance/Sets.antt =====
-- Equality of sets of section letters.
use ragra_reminder.Prelude.{
  ◌≡◌, true, List, [], ◌∷◌, Text, text_eq, text_eq_iff, arith, Bool-cases, inl, inr, subst,
}
use ragra_reminder.Relevance.{has_text, all_in, set_eq}

all_in-has_text :
    (t : Text) (a b : List Text) → all_in a b ≡ true → has_text t a ≡ true → has_text t b ≡ true
all_in-has_text t [] b h k = ground arith
all_in-has_text t (x ∷ xs) b h k = elim (Bool-cases (text_eq x t)) [
  | inl same ↦
      let is_t = (text_eq_iff x t).0 same in subst (λ y. has_text y b ≡ true) is_t (ground arith)
  | inr other ↦ all_in-has_text t xs b (ground arith) (ground arith)
]

pub set_eq-has_text : (t : Text) (a b : List Text) → set_eq a b ≡ true → has_text t a ≡ has_text t b
set_eq-has_text t a b h = elim (Bool-cases (has_text t a)) [
  | inl here ↦ ground (arith, all_in-has_text t a b (ground arith) here)
  | inr gone ↦ elim (Bool-cases (has_text t b)) [
    | inl there ↦ ground (arith, all_in-has_text t b a (ground arith) there)
    | inr nowhere ↦ ground arith
  ]
]

pub set_eq_sym : (a b : List Text) → set_eq a b ≡ set_eq b a
set_eq_sym a b = ground arith
