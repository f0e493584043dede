-- ===== src/Timetable/Match.antt =====
-- ragra/timetable/match.py and ragra/timetable/enrollment.py: which of the user's courses a cell is.
use ragra_reminder.Prelude.{
  ℕ, Bool, false, ◌&&◌, ◌||◌, Option, List, [], ◌∷◌, ◌++◌, Text, codes, decimal, text_eq, select,
  length,
}
use ragra_reminder.Relevance.{Strings, normalize_section, normalize_course_text}

pub data EnrollmentType : Type 0 where
  regular repeat : EnrollmentType

pub record EnrolledCourse : Type 0 where
  pub course_name : Text
  pub section : Text
  pub enrollment_type : EnrollmentType
  pub batch_year : Option Text
  pub aliases : List Text

-- `ParsedCell` of ragra/timetable/normalize.py
pub record ParsedCell : Type 0 where
  pub course_text : Text
  pub section : Text
  pub year_suffix : Option Text
  pub time_override : Option (Text × Text)
  pub cancelled : Bool

pub record MatchedClass : Type 0 where
  pub enrolled : EnrolledCourse
  pub day_of_week : ℕ
  pub start_time : Text
  pub end_time : Text
  pub room : Option Text
  pub cancelled : Bool

-- A class of the enrollment, nothing, or AmbiguousMatchError with its message.
pub data Matching : Type 0 where
  matched : MatchedClass → Matching
  unmatched : Matching
  ambiguous : Text → Matching

-- `cell_course in _course_candidates(enrolled)`
abbrev pub among_aliases : Strings → Text → List Text → Bool
among_aliases strings course [] = false
among_aliases strings course (a ∷ as_) =
    text_eq (normalize_course_text strings a) course || among_aliases strings course as_

abbrev pub is_candidate : Strings → Text → EnrolledCourse → Bool
is_candidate strings course e =
    text_eq (normalize_course_text strings e.course_name) course
    || among_aliases strings course e.aliases

abbrev pub matches_cell : Strings → Text → Text → EnrolledCourse → Bool
matches_cell strings course section e =
    is_candidate strings course e && text_eq (normalize_section strings e.section) section

-- `[m.course_name for m in matches]` as Python prints it
abbrev pub names_text : (Text → Text) → List EnrolledCourse → Text
names_text repr [] = []
names_text repr (e ∷ []) = repr e.course_name
names_text repr (e ∷ f ∷ es) = repr e.course_name ++ (codes ", " ++ names_text repr (f ∷ es))

abbrev pub ambiguity : (Text → Text) → ParsedCell → List EnrolledCourse → Text
ambiguity repr parsed matches =
    codes "cell (course="
    ++ (repr parsed.course_text
        ++ (codes ", section="
            ++ (repr parsed.section
                ++ (codes ") matches "
                    ++ (decimal (length matches)
                        ++ (codes " enrollment rows: ["
                            ++ (names_text repr matches ++ codes "]")))))))

abbrev pub single_match :
    (Text → Text) → ParsedCell → ℕ → Text → Text → Option Text → List EnrolledCourse → Matching
single_match repr parsed day_of_week start_time end_time room [] = unmatched
single_match repr parsed day_of_week start_time end_time room (e ∷ []) = matched (record {
  enrolled = e;
  day_of_week = day_of_week;
  start_time = start_time;
  end_time = end_time;
  room = room;
  cancelled = parsed.cancelled;
})
single_match repr parsed day_of_week start_time end_time room (e ∷ f ∷ es) =
    ambiguous (ambiguity repr parsed (e ∷ f ∷ es))

unfoldable pub match_cell :
    Strings
    → (Text → Text)
    → ParsedCell
    → List EnrolledCourse
    → ℕ
    → Text
    → Text
    → Option Text
    → Matching
match_cell strings repr parsed enrollment day_of_week start_time end_time room =
    single_match repr parsed day_of_week start_time end_time room (
      select
        (matches_cell strings (normalize_course_text strings parsed.course_text)
          (normalize_section strings parsed.section))
        enrollment)
