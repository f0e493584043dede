-- ===== src/Relevance/Symmetric.antt =====
-- The title and the description in `is_relevant` of ragra/relevance/engine.py.
use ragra_reminder.Prelude.{
  ◌≡◌, refl, sym, true, not, ◌&&◌, Option, none, some, List, [], ◌∷◌, Text, arith, Bool-cases, inl,
  inr, is_empty, if◌then◌else◌,
}
use ragra_reminder.Sync.Types.{Decision}
use ragra_reminder.Relevance.{
  Strings, Profile, SectionExtraction, set_eq, or_else, decide_label, decide, section_letter,
  is_relevant, find_course_key, extract_sections,
}
use ragra_reminder.Relevance.Sets.{set_eq-has_text, set_eq_sym}

module _ (strings : Strings) (label : Option (Text × Text)) where
  label_of_equal :
      (a b : List Text) (l : Option (Text × Text))
      → set_eq a b ≡ true
      → decide_label strings a l ≡ decide_label strings b l
  label_of_equal a b none h = refl
  label_of_equal a b (some l) h = ground (arith, set_eq-has_text (section_letter strings l.1) a b h)

  abbrev weigh : List Text → List Text → Decision
  weigh a b =
      if not (is_empty a) && not (is_empty b) && not (set_eq a b)
      then Decision.unknown
      else if is_empty (or_else a b)
      then Decision.unknown
      else decide_label strings (or_else a b) label

  weigh_sym : (a b : List Text) → weigh a b ≡ weigh b a
  weigh_sym [] [] = refl
  weigh_sym [] (b ∷ bs) = refl
  weigh_sym (a ∷ more) [] = refl
  weigh_sym (a ∷ more) (b ∷ bs) = elim (Bool-cases (set_eq (a ∷ more) (b ∷ bs))) [
    | inl same ↦ rw same (
        rw (sym (set_eq_sym (a ∷ more) (b ∷ bs)))
          (rw same (label_of_equal (a ∷ more) (b ∷ bs) label same)))
    | inr differ ↦ ground arith
  ]

  decide_sym : (x y : SectionExtraction) → decide strings label x y ≡ decide strings label y x
  decide_sym x y = ground (arith, weigh_sym x.sections y.sections)

-- The title and the description of an item can be exchanged without a change of the decision.
pub is_relevant_sym :
    (strings : Strings) (title description course_name : Text) (profile : Profile)
    → is_relevant strings title description course_name profile
      ≡ is_relevant strings description title course_name profile
unfolding is_relevant
is_relevant_sym strings title description course_name profile =
    decide_sym strings (find_course_key strings course_name profile)
      (extract_sections strings title) (extract_sections strings description)
