-- ===== src/TimetableSync/Groups.antt =====
-- The second stage of ragra/sync/timetable_sync.py: which cells are classes of the user, by course.
use ragra_reminder.Prelude.{
  Bool, ◌&&◌, ◌||◌, none, List, [], ◌∷◌, ◌++◌, Text, codes, ◌==◌, ltb, text_eq, text_le,
  if◌then◌else◌,
}
use ragra_reminder.Relevance.{Strings}
use ragra_reminder.Timetable.Match.{
  EnrolledCourse, EnrollmentType, regular, repeat, ParsedCell, MatchedClass, Matching, matched,
  unmatched, ambiguous, match_cell,
}
use ragra_reminder.Timetable.Cells.{ExtractedClass}
use ragra_reminder.TimetableSync.Read.{SheetInfo}

abbrev pub extracted_to_parsed_cell : ExtractedClass → ParsedCell
extracted_to_parsed_cell c = record {
  course_text = c.course_text;
  section = c.section;
  year_suffix = c.year_suffix;
  time_override = none;
  cancelled = c.cancelled;
}

-- An entry of `grouped`.
pub record Group : Type 0 where
  pub course_name : Text
  pub section : Text
  pub enrollment_type : EnrollmentType
  pub entries : List (SheetInfo × MatchedClass)

abbrev pub type_text : EnrollmentType → Text
type_text regular = codes "REGULAR"
type_text repeat = codes "REPEAT"

abbrev pub is_group_of : EnrolledCourse → Group → Bool
is_group_of e g =
    text_eq g.course_name e.course_name
    && text_eq g.section e.section
    && text_eq (type_text g.enrollment_type) (type_text e.enrollment_type)

-- `grouped.setdefault(key, []).append((sheet, matched))`
abbrev pub add_to_group : SheetInfo → MatchedClass → List Group → List Group
add_to_group sheet m [] =
    record {
      course_name = m.enrolled.course_name;
      section = m.enrolled.section;
      enrollment_type = m.enrolled.enrollment_type;
      entries = (sheet, m) ∷ [];
    }
    ∷ []
add_to_group sheet m (g ∷ gs) =
    let rest = add_to_group sheet m gs in
    if is_group_of m.enrolled g
    then record g { entries = g.entries ++ (sheet, m) ∷ [] } ∷ gs
    else g ∷ rest

abbrev pub add_match : SheetInfo → Matching → List Group × List Text → List Group × List Text
add_match sheet (matched m) found = (add_to_group sheet m found.0, found.1)
add_match sheet unmatched found = found
add_match sheet (ambiguous error) found = (found.0, found.1 ++ error ∷ [])

module _ (strings : Strings) (repr : Text → Text) (enrollment : List EnrolledCourse) where
  -- The inner loop, over the classes of one tab.
  abbrev pub match_classes :
      SheetInfo → List ExtractedClass → List Group × List Text → List Group × List Text
  match_classes sheet [] found = found
  match_classes sheet (c ∷ cs) found = match_classes sheet cs (
      add_match sheet
        (match_cell strings repr (extracted_to_parsed_cell c) enrollment c.day_of_week c.start_time
          c.end_time c.room)
        found)

  -- The groups in the order of their first class, and the messages about ambiguous cells.
  unfoldable pub match_tabs :
      List (SheetInfo × List ExtractedClass) → List Group × List Text → List Group × List Text
  match_tabs [] found = found
  match_tabs (tab ∷ tabs) found = match_tabs tabs (match_classes tab.0 tab.1 found)

-- The sort key `(day_of_week, start_time)`
abbrev pub earlier_match : SheetInfo × MatchedClass → SheetInfo × MatchedClass → Bool
earlier_match a b =
    ltb a.1.day_of_week b.1.day_of_week
    || (a.1.day_of_week == b.1.day_of_week && text_le a.1.start_time b.1.start_time)
