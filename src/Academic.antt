-- ===== src/Academic.antt =====
-- ragra/relevance/profile.py: who the student is, for the relevance engine and the timetable.
--
-- The column `enrollment` holds the JSON of the list of courses, and here the list itself. The account
-- that is not linked to a Google identity (`unlinked_user_id`) and the date of today are arguments.
pub mod Fallback
use ragra_reminder.Prelude.{
  ℕ, ◌+◌, ◌-◌, ◌*◌, Bool, true, false, ◌&&◌, Option, none, some, List, [], ◌∷◌, ◌++◌, Text, codes,
  ◌==◌, leb, text_eq, option_eq, if◌then◌else◌, select, fetchone, exists_row, update_where, map,
}
use ragra_reminder.Relevance.{Profile}
use ragra_reminder.Timetable.Match.{EnrolledCourse, EnrollmentType, regular, repeat}

pub data Term : Type 0 where
  fall spring : Term

pub record Today : Type 0 where
  pub year : ℕ
  pub month : ℕ

-- The integers, over the native numbers.
pub data ℤ : Type 0 where
  pos negsuc : ℕ → ℤ

abbrev pub difference : ℕ → ℕ → ℤ
difference a b = if leb b a then pos (a - b) else negsuc (b - a - 1)

pub record UserAcademicProfile : Type 0 where
  pub program : Text
  pub expected_semester : ℤ
  pub enrolled_courses : List Text
  pub section_labels : List (Text × Text)
  pub enrollment : List EnrolledCourse

-- July begins the second half of the year.
abbrev pub term_for_date : Today → ℕ × Term
term_for_date today = (today.year, if leb 7 today.month then fall else spring)

abbrev pub term_ordinal : ℕ → Term → ℕ
term_ordinal year spring = year * 2
term_ordinal year fall = year * 2 + 1

unfoldable pub expected_semester : ℕ → Term → Today → ℤ
expected_semester start_year start_term today =
    difference (term_ordinal (term_for_date today).0 (term_for_date today).1 + 1)
      (term_ordinal start_year start_term)

-- `labels[name] = section`: the key keeps its place, the value is the last one.
abbrev pub set_label : Text → Text → List (Text × Text) → List (Text × Text)
set_label name section [] = (name, section) ∷ []
set_label name section (l ∷ ls) =
    let rest = set_label name section ls in
    if text_eq l.0 name then (name, section) ∷ ls else l ∷ rest

abbrev pub labels_from : List EnrolledCourse → List (Text × Text) → List (Text × Text)
labels_from [] labels = labels
labels_from (c ∷ cs) labels = labels_from cs (set_label c.course_name c.section labels)

unfoldable pub build : Text → ℕ → Term → List EnrolledCourse → Today → UserAcademicProfile
build program start_year start_term enrollment today = record {
  program = program;
  expected_semester = expected_semester start_year start_term today;
  enrolled_courses = map (λ c. c.course_name) enrollment;
  section_labels = labels_from enrollment [];
  enrollment = enrollment;
}

-- The configuration of ragra/timetable/enrollment.py, which is data to be edited each semester.
pub record Legacy : Type 0 where
  pub target_program : Text
  pub target_batch_year : Text
  pub start_year : ℕ
  pub start_term : Term
  pub my_enrollment : List EnrolledCourse

abbrev pub legacy_profile : Legacy → Today → UserAcademicProfile
legacy_profile legacy today =
    build legacy.target_program legacy.start_year legacy.start_term legacy.my_enrollment today

abbrev pub empty_profile : Today → UserAcademicProfile
empty_profile today = build [] today.year (term_for_date today).1 [] today

-- `RawProfile`
pub record RawProfile : Type 0 where
  pub program : Text
  pub batch_year : Option Text
  pub enrollment_start_year : ℕ
  pub enrollment_start_term : Term
  pub enrollment : List EnrolledCourse

-- A row of `user_profiles`.
pub record ProfileRow : Type 0 where
  pub user_id : ℕ
  pub profile : RawProfile
  pub created_at : ℕ
  pub updated_at : ℕ

abbrev pub is_profile_of : ℕ → ProfileRow → Bool
is_profile_of user_id r = r.user_id == user_id

abbrev pub is_unlinked : Option ℕ → ℕ → Bool
is_unlinked none user_id = false
is_unlinked (some id) user_id = id == user_id

abbrev pub profile_of_row : Legacy → Option ℕ → ℕ → Today → Option ProfileRow → UserAcademicProfile
profile_of_row legacy unlinked user_id today none =
    if is_unlinked unlinked user_id then legacy_profile legacy today else empty_profile today
profile_of_row legacy unlinked user_id today (some r) =
    build r.profile.program r.profile.enrollment_start_year r.profile.enrollment_start_term
      r.profile.enrollment today

unfoldable pub load_profile : Legacy → Option ℕ → ℕ → Today → List ProfileRow → UserAcademicProfile
load_profile legacy unlinked user_id today rows =
    profile_of_row legacy unlinked user_id today (fetchone (select (is_profile_of user_id) rows))

abbrev pub raw_of_row : Legacy → Option ℕ → ℕ → Today → Option ProfileRow → RawProfile
raw_of_row legacy unlinked user_id today (some r) = r.profile
raw_of_row legacy unlinked user_id today none =
    if is_unlinked unlinked user_id
    then record {
      program = legacy.target_program;
      batch_year = some legacy.target_batch_year;
      enrollment_start_year = legacy.start_year;
      enrollment_start_term = legacy.start_term;
      enrollment = legacy.my_enrollment;
    }
    else record {
      program = [];
      batch_year = none;
      enrollment_start_year = today.year;
      enrollment_start_term = (term_for_date today).1;
      enrollment = [];
    }

unfoldable pub load_raw_profile : Legacy → Option ℕ → ℕ → Today → List ProfileRow → RawProfile
load_raw_profile legacy unlinked user_id today rows =
    raw_of_row legacy unlinked user_id today (fetchone (select (is_profile_of user_id) rows))

abbrev pub rewritten : RawProfile → ℕ → ProfileRow → ProfileRow
rewritten profile now r = record r { profile = profile; updated_at = now }

-- The check of the start term has nothing to refuse, a term being FALL or SPRING.
unfoldable pub save_profile : ℕ → RawProfile → ℕ → List ProfileRow → List ProfileRow
save_profile user_id profile now rows =
    if exists_row (is_profile_of user_id) rows
    then update_where (is_profile_of user_id) (rewritten profile now) rows
    else rows
      ++ record { user_id = user_id; profile = profile; created_at = now; updated_at = now } ∷ []

unfoldable pub adopt_legacy_profile : Legacy → ℕ → ℕ → List ProfileRow → List ProfileRow
unfolding save_profile
adopt_legacy_profile legacy user_id now rows =
    save_profile user_id
      (record {
        program = legacy.target_program;
        batch_year = some legacy.target_batch_year;
        enrollment_start_year = legacy.start_year;
        enrollment_start_term = legacy.start_term;
        enrollment = legacy.my_enrollment;
      })
      now rows

-- What the relevance engine reads of it.
abbrev pub labels_of : UserAcademicProfile → Profile
labels_of p = record { section_labels = p.section_labels }
