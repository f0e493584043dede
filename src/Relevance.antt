-- ===== src/Relevance.antt =====
-- ragra/relevance/engine.py and ragra/relevance/sections.py, with the text normalisation that they take
-- from ragra/timetable/normalize.py: whether a piece of Classroom content is for the student's section.
pub mod Sets
pub mod Symmetric
pub mod Evidence
use ragra_reminder.Prelude.{
  ℕ, Bool, true, false, not, ◌&&◌, ◌||◌, Option, none, some, List, [], ◌∷◌, ◌++◌, Text, text_eq,
  ◌==◌, if◌then◌else◌, is_empty, map,
}
use ragra_reminder.Store.Strip.{is_space, strip}
use ragra_reminder.Sync.Types.{Decision}

-- Python's `str.upper` and `str.lower`, and what the three regular expressions of sections.py find: the
-- group `letters` of a mention, and its parts.
pub record Strings : Type 0 where
  pub upper : Text → Text
  pub lower : Text → Text
  pub all_sections : Text → Bool
  pub section_range : Text → Bool
  pub section_mention : Text → Option Text
  pub letter_split : Text → List Text

-- `re.sub(r"\s+", c, text)` and `re.sub(r"-+", "-", text)`: a run becomes one character; the flag says
-- that the character before belongs to the run.
abbrev pub squeeze : (ℕ → Bool) → ℕ → Bool → Text → Text
squeeze in_run c inside [] = []
squeeze in_run c inside (d ∷ s) =
    let within = squeeze in_run c true s in
    let outside = squeeze in_run c false s in
    if in_run d then if inside then within else c ∷ within else d ∷ outside

abbrev pub underscore_to_dash : ℕ → ℕ
underscore_to_dash c = if c == 95 then 45 else c

unfoldable pub normalize_section : Strings → Text → Text
normalize_section strings value =
    squeeze (λ c. c == 45) 45 false
      (squeeze is_space 45 false (map underscore_to_dash (strings.upper (strip value))))

unfoldable pub normalize_course_text : Strings → Text → Text
normalize_course_text strings value = squeeze is_space 32 false (strings.lower (strip value))

pub record SectionExtraction : Type 0 where
  pub sections : List Text
  pub is_range : Bool
  pub applies_to_all : Bool

abbrev pub has_text : Text → List Text → Bool
has_text t [] = false
has_text t (s ∷ ss) = text_eq s t || has_text t ss

-- `dict.fromkeys`: the first of equal texts stays.
abbrev pub dedupe : List Text → List Text → List Text
dedupe seen [] = []
dedupe seen (t ∷ ts) =
    let skipped = dedupe seen ts in
    let kept = dedupe (t ∷ seen) ts in if has_text t seen then skipped else t ∷ kept

-- `[letter for letter in … if letter]`
abbrev pub non_empty : List Text → List Text
non_empty [] = []
non_empty (t ∷ ts) = let rest = non_empty ts in if is_empty t then rest else t ∷ rest

abbrev pub mentioned : Strings → Option Text → SectionExtraction
mentioned strings none = record { sections = []; is_range = false; applies_to_all = false }
mentioned strings (some letters) = record {
  sections = dedupe [] (map (normalize_section strings) (non_empty (strings.letter_split letters)));
  is_range = false;
  applies_to_all = false;
}

unfoldable pub extract_sections : Strings → Text → SectionExtraction
extract_sections strings text =
    if strings.all_sections text
    then record { sections = []; is_range = false; applies_to_all = true }
    else if strings.section_range text
    then record { sections = []; is_range = true; applies_to_all = false }
    else mentioned strings (strings.section_mention text)

-- `UserAcademicProfile`, as far as the engine reads it: the dictionary of section labels, in order.
pub record Profile : Type 0 where
  pub section_labels : List (Text × Text)

-- `x in y` on texts
abbrev pub starts_with : Text → Text → Bool
starts_with [] t = true
starts_with (a ∷ s) [] = false
starts_with (a ∷ s) (b ∷ t) = a == b && starts_with s t

abbrev pub occurs_in : Text → Text → Bool
occurs_in s [] = is_empty s
occurs_in s (b ∷ t) = starts_with s (b ∷ t) || occurs_in s t

abbrev pub same_course : Strings → Text → Text → Bool
same_course strings target known =
    let name = normalize_course_text strings known in
    text_eq name target || (occurs_in name target || occurs_in target name)

abbrev pub find_label : Strings → Text → List (Text × Text) → Option (Text × Text)
find_label strings target [] = none
find_label strings target (l ∷ ls) =
    let rest = find_label strings target ls in
    if same_course strings target l.0 then some l else rest

-- `_find_course_key`, with the label of the key beside it.
unfoldable pub find_course_key : Strings → Text → Profile → Option (Text × Text)
find_course_key strings course_name profile =
    find_label strings (normalize_course_text strings course_name) profile.section_labels

-- `rsplit("-", 1)[-1]`
abbrev pub after_dash : Text → Text → Text
after_dash found [] = found
after_dash found (c ∷ s) = if c == 45 then after_dash s s else after_dash found s

unfoldable pub section_letter : Strings → Text → Text
section_letter strings label =
    after_dash (normalize_section strings label) (normalize_section strings label)

-- Equality of sets, from their elements in any order.
abbrev pub all_in : List Text → List Text → Bool
all_in [] l = true
all_in (t ∷ ts) l = has_text t l && all_in ts l

abbrev pub set_eq : List Text → List Text → Bool
set_eq a b = all_in a b && all_in b a

-- `title_sections or description_sections`
abbrev pub or_else : List Text → List Text → List Text
or_else [] b = b
or_else (t ∷ ts) b = t ∷ ts

-- What the label of the student's course says about the mentioned sections.
abbrev pub decide_label : Strings → List Text → Option (Text × Text) → Decision
decide_label strings sections none = Decision.relevant
decide_label strings sections (some l) =
    if is_empty l.1
    then Decision.relevant
    else if has_text (section_letter strings l.1) sections
    then Decision.relevant
    else Decision.other_section

abbrev pub decide :
    Strings → Option (Text × Text) → SectionExtraction → SectionExtraction → Decision
decide strings label title description =
    if title.applies_to_all || description.applies_to_all
    then Decision.relevant
    else if title.is_range || description.is_range
    then Decision.unknown
    else if not (is_empty title.sections)
        && not (is_empty description.sections)
        && not (set_eq title.sections description.sections)
    then Decision.unknown
    else if is_empty (or_else title.sections description.sections)
    then Decision.unknown
    else decide_label strings (or_else title.sections description.sections) label

-- An empty description stands for a missing one: `content_description or ""`.
unfoldable pub is_relevant : Strings → Text → Text → Text → Profile → Decision
is_relevant strings content_title content_description course_name profile =
    decide strings (find_course_key strings course_name profile)
      (extract_sections strings content_title) (extract_sections strings content_description)
