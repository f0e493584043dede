-- ===== src/Relevance/Evidence.antt =====
-- What `is_relevant` of ragra/relevance/engine.py rests on when it puts an item aside.
use ragra_reminder.Prelude.{
  ◌≡◌, refl, sym, ◌∙◌, true, false, not, ◌&&◌, ◌||◌, Option, none, some, List, [], ◌∷◌, Text, arith,
  is_empty,
}
use ragra_reminder.Sync.Types.{Decision}
use ragra_reminder.Relevance.{
  Strings, Profile, SectionExtraction, has_text, set_eq, or_else, decide_label, decide,
  section_letter, is_relevant, find_course_key, extract_sections,
}
use ragra_reminder.Relevance.Sets.{set_eq-has_text}

-- The profile has a label for the course whose letter neither text mentions, and neither text is for
-- all sections or names a range.
abbrev pub IsElsewhere :
    Strings → Option (Text × Text) → SectionExtraction → SectionExtraction → Type 0
IsElsewhere strings label x y =
    (l : Text × Text) × (label ≡ some l)
    × (is_empty l.1 ≡ false)
    × (has_text (section_letter strings l.1) x.sections ≡ false)
    × (has_text (section_letter strings l.1) y.sections ≡ false)
    × ((x.applies_to_all || y.applies_to_all) ≡ false)
    × ((x.is_range || y.is_range) ≡ false)

module _ (strings : Strings) where
  labelled :
      (a : List Text) (label : Option (Text × Text))
      → decide_label strings a label ≡ Decision.other_section
      → (l : Text × Text) × (label ≡ some l)
        × (is_empty l.1 ≡ false)
        × (has_text (section_letter strings l.1) a ≡ false)
  labelled a none h = ground arith
  labelled a (some l) h = (l, refl, ground arith, ground arith)

  both_unmentioned :
      (letter : Text) (a b : List Text)
      → (not (is_empty a) && not (is_empty b) && not (set_eq a b)) ≡ false
      → has_text letter (or_else a b) ≡ false
      → (has_text letter a ≡ false) × (has_text letter b ≡ false)
  both_unmentioned letter [] b h k = (refl, k)
  both_unmentioned letter (x ∷ xs) [] h k = (k, refl)
  both_unmentioned letter (x ∷ xs) (y ∷ ys) h k =
      let same : set_eq (x ∷ xs) (y ∷ ys) ≡ true = ground arith in
      (k, sym (set_eq-has_text letter (x ∷ xs) (y ∷ ys) same) ∙ k)

  decide_evidence :
      (label : Option (Text × Text)) (x y : SectionExtraction)
      → decide strings label x y ≡ Decision.other_section
      → IsElsewhere strings label x y
  decide_evidence label x y h =
      let some_section : (x.applies_to_all || y.applies_to_all) ≡ false = ground arith in
      let no_range : (x.is_range || y.is_range) ≡ false = ground arith in
      let agree : (not (is_empty x.sections)
            && not (is_empty y.sections)
            && not (set_eq x.sections y.sections))
          ≡ false =
        ground arith in
      let by_label : decide_label strings (or_else x.sections y.sections) label
          ≡ Decision.other_section =
        ground arith in
      let found = labelled (or_else x.sections y.sections) label by_label in
      let both =
        both_unmentioned (section_letter strings found.0.1) x.sections y.sections agree found.3 in
      (found.0, found.1, found.2, both.0, both.1, some_section, no_range)

-- If an item is put aside as another section's, the profile has a label for its course, whose letter
-- neither the title nor the description mentions, and neither is for all sections or names a range.
pub is_relevant_evidence :
    (strings : Strings) (title description course_name : Text) (profile : Profile)
    → is_relevant strings title description course_name profile ≡ Decision.other_section
    → IsElsewhere strings
        (find_course_key strings course_name profile)
        (extract_sections strings title)
        (extract_sections strings description)
unfolding is_relevant
is_relevant_evidence strings title description course_name profile h =
    decide_evidence strings (find_course_key strings course_name profile)
      (extract_sections strings title) (extract_sections strings description) h
