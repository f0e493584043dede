-- ===== src/Timetable/Cells.antt =====
-- `parse_course_cell` of ragra/timetable/normalize.py and the times of a cell that has its own, of
-- ragra/adapters/fast_timetable.py.
--
-- What the regular expressions find is a parameter, a `CellPatterns`; so is `int`. A ValueError, of
-- `int` or of a slot that cannot be split, is none.
use ragra_reminder.Prelude.{
  ℕ, zero, suc, ◌+◌, Bool, ◌&&◌, Option, none, some, List, [], ◌∷◌, ◌++◌, Text, ◌==◌, ltb, leb,
  if◌then◌else◌, is_empty,
}
use ragra_reminder.Store.Strip.{strip}
use ragra_reminder.Relevance.{Strings, normalize_section}
use ragra_reminder.Timetable.Hours.{two_digits}
use ragra_reminder.Timetable.Match.{ParsedCell}
use ragra_reminder.Timetable.{split_pair}

pub record CellParts : Type 0 where
  pub course : Text
  pub section : Text
  pub year : Option Text
  pub rest : Text

pub record CellPatterns : Type 0 where
  -- _CELL_PATTERN.match, by its groups
  pub cell_parts : Text → Option CellParts
  -- _TIME_OVERRIDE_PATTERN.search, the start and the end
  pub time_override : Text → Option (Text × Text)
  -- _CANCELLED_PATTERN.search
  pub says_cancelled : Text → Bool
  -- _TIME_RANGE_ONLY_PATTERN.match
  pub is_time_range : Text → Bool

abbrev pub parsed_parts : Strings → CellPatterns → Option CellParts → Option ParsedCell
parsed_parts strings patterns none = none
parsed_parts strings patterns (some p) = some (record {
  course_text = strip p.course;
  section = normalize_section strings p.section;
  year_suffix = p.year;
  time_override = patterns.time_override p.rest;
  cancelled = patterns.says_cancelled p.rest;
})

unfoldable pub parse_course_cell : Strings → CellPatterns → Text → Option ParsedCell
parse_course_cell strings patterns raw =
    if is_empty (strip raw)
    then none
    else parsed_parts strings patterns (patterns.cell_parts (strip raw))

pub record ExtractedClass : Type 0 where
  pub course_text : Text
  pub section : Text
  pub year_suffix : Option Text
  pub day_of_week : ℕ
  pub start_time : Text
  pub end_time : Text
  pub room : Option Text
  pub cancelled : Bool

abbrev pub before_colon : Text → Text
before_colon [] = []
before_colon (c ∷ s) = let rest = before_colon s in if c == 58 then [] else c ∷ rest

abbrev pub adjusted : (Text → Option ℕ) → Bool → Option (Text × Text) → Option Text
adjusted int pm none = none
adjusted int pm (some parts) = elim (int parts.0) [
  | none ↦ none
  | some h ↦ some (two_digits (if pm && ltb h 12 then h + 12 else h) ++ (58 ∷ parts.1))
]

abbrev pub both_times : Option Text → Option Text → Option (Text × Text)
both_times none b = none
both_times (some a) none = none
both_times (some a) (some b) = some (a, b)

abbrev pub adjust_both : (Text → Option ℕ) → Text × Text → Option ℕ → Option (Text × Text)
adjust_both int override none = none
adjust_both int override (some column_hour) =
    both_times (adjusted int (leb 12 column_hour) (split_pair 58 override.0))
      (adjusted int (leb 12 column_hour) (split_pair 58 override.1))

unfoldable pub resolve_override_against_column :
    (Text → Option ℕ) → Text × Text → Text × Text → Option (Text × Text)
resolve_override_against_column int override column_reference =
    adjust_both int override (int (before_colon column_reference.0))

abbrev pub times_of_cell : (Text → Option ℕ) → ParsedCell → Text × Text → Option (Text × Text)
times_of_cell int parsed column = elim parsed.time_override [
  | none ↦ some column
  | some override ↦ resolve_override_against_column int override column
]

abbrev pub text_at : ℕ → List Text → Option Text
text_at n [] = none
text_at zero (t ∷ ts) = some t
text_at (suc n) (t ∷ ts) = text_at n ts

abbrev pub stripped_room : Option Text → Option Text
stripped_room none = none
stripped_room (some t) = if is_empty (strip t) then none else some (strip t)

abbrev pub or_first : Option ℕ → ℕ
or_first none = 0
or_first (some col) = col

abbrev pub extracted :
    ℕ → ParsedCell → Option Text → Option (Text × Text) → Option (List ExtractedClass)
extracted day_of_week parsed room none = none
extracted day_of_week parsed room (some times) = some (
    record {
      course_text = parsed.course_text;
      section = parsed.section;
      year_suffix = parsed.year_suffix;
      day_of_week = day_of_week;
      start_time = times.0;
      end_time = times.1;
      room = room;
      cancelled = parsed.cancelled;
    }
    ∷ [])
