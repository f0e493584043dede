-- ===== src/Timetable.antt =====
-- ragra/timetable/schedule.py: from the weekly pattern of a class to its occurrences in a window.
pub mod Window
pub mod Complete
pub mod Hours
pub mod Match
pub mod Cells
pub mod Grid
use ragra_reminder.Prelude.{
  ℕ, zero, suc, ◌+◌, ◌-◌, ◌*◌, ◌/◌, ◌%◌, Bool, true, false, not, ◌&&◌, ◌||◌, Option, none, some,
  List, [], ◌∷◌, ◌++◌, Text, codes, ltb, leb, ◌==◌, text_le, if◌then◌else◌, sort_with,
}
use ragra_reminder.Engine.{day, hour, minute}
use ragra_reminder.Store.{TimetableEvent, ClassStatus, is_called_off}
use ragra_reminder.Store.Strip.{strip}
use ragra_reminder.Zones.{Zone, combine_local, to_utc, local_day, local_day_bounds}

pub record WeeklyClass : Type 0 where
  pub timetable_event_id : ℕ
  pub course_name : Text
  pub day_of_week : ℕ
  pub start_time : Text
  pub end_time : Text
  pub section : Option Text
  pub room : Option Text
  pub status : ClassStatus

pub record ClassOccurrence : Type 0 where
  pub timetable_event_id : ℕ
  pub course_name : Text
  pub occurrence_date : ℕ
  pub starts_at_local : ℕ
  pub starts_at_utc : ℕ
  pub ends_at_local : ℕ
  pub ends_at_utc : ℕ
  pub section : Option Text
  pub room : Option Text
  pub status : ClassStatus

abbrev pub is_cancelled_class : ClassOccurrence → Bool
is_cancelled_class o = is_called_off o.status

abbrev pub weekly_class_from_row : TimetableEvent → WeeklyClass
weekly_class_from_row e = record {
  timetable_event_id = e.id;
  course_name = e.course_name;
  day_of_week = e.day_of_week;
  start_time = e.start_time;
  end_time = e.end_time;
  section = e.section;
  room = e.room;
  status = e.status;
}

-- `value.split(c)` with exactly two parts.
abbrev pub no_more : ℕ → Text → Bool
no_more c [] = true
no_more c (d ∷ s) = not (d == c) && no_more c s

abbrev pub split_pair : ℕ → Text → Option (Text × Text)
split_pair c [] = none
split_pair c (d ∷ s) =
    let rest = split_pair c s in
    if d == c
    then if no_more c s then some ([], s) else none
    else elim rest [ none ↦ none | some parts ↦ some (d ∷ parts.0, parts.1) ]

-- `time(hour, minute)`, as microseconds after midnight; none for its ValueError.
abbrev pub time_of : Option ℕ → Option ℕ → Option ℕ
time_of none m = none
time_of (some h) none = none
time_of (some h) (some m) = if ltb h 24 && ltb m 60 then some (h * hour + m * minute) else none

abbrev pub time_of_parts : (Text → Option ℕ) → Option (Text × Text) → Option ℕ
time_of_parts int none = none
time_of_parts int (some parts) = time_of (int parts.0) (int parts.1)

-- `_parse_hhmm`; none for MalformedTimetableTime. `int` is Python's; none for its ValueError and for
-- a negative number, which `time` refuses.
unfoldable pub parse_hhmm : (Text → Option ℕ) → Text → Option ℕ
parse_hhmm int value = time_of_parts int (split_pair 58 (strip value))

-- `date.weekday()`
abbrev pub weekday : ℕ → ℕ
weekday d = d % 7

-- What a call returns; or the exception that it raises.
pub data Expansion (A : Type 0) : Type 0 where
  expanded : A → Expansion A
  malformed_time : Expansion A
  window_reversed : Expansion A

module _ (zone : Zone) where
  abbrev pub starts_utc : ℕ → ℕ → ℕ
  starts_utc on start_time = to_utc zone (combine_local zone on start_time)

  abbrev pub end_day : ℕ → ℕ → ℕ → ℕ
  end_day on start_time end_time = if ltb start_time end_time then on else on + 1

  unfoldable pub occurrence : WeeklyClass → ℕ → ℕ → ℕ → ClassOccurrence
  occurrence weekly start_time end_time on = record {
    timetable_event_id = weekly.timetable_event_id;
    course_name = weekly.course_name;
    occurrence_date = on;
    starts_at_local = combine_local zone on start_time;
    starts_at_utc = starts_utc on start_time;
    ends_at_local = combine_local zone (end_day on start_time end_time) end_time;
    ends_at_utc = to_utc zone (combine_local zone (end_day on start_time end_time) end_time);
    section = weekly.section;
    room = weekly.room;
    status = weekly.status;
  }

abbrev pub also :
    Option (List ClassOccurrence) → Option (List ClassOccurrence) → Option (List ClassOccurrence)
also none rest = none
also (some first) none = none
also (some first) (some rest) = some (first ++ rest)

module _ (zone : Zone) (window_start window_end : ℕ) where
  -- `weekday() == day_of_week`, and `window_start <= starts_utc <= window_end`
  abbrev pub meets : WeeklyClass → ℕ → ℕ → Bool
  meets weekly start_time on =
      weekday on == weekly.day_of_week
      && leb window_start (starts_utc zone on start_time)
      && leb (starts_utc zone on start_time) window_end

  -- The loop over the days, `left` of which remain.
  unfoldable pub days_from : WeeklyClass → ℕ → ℕ → ℕ → ℕ → List ClassOccurrence
  days_from weekly start_time end_time zero on = []
  days_from weekly start_time end_time (suc left) on =
      let rest = days_from weekly start_time end_time left (on + 1) in
      if meets weekly start_time on
      then occurrence zone weekly start_time end_time on ∷ rest
      else rest

  -- `last - first + 1`, or no day at all.
  abbrev pub days_left : ℕ
  days_left = local_day zone window_end + 1 - local_day zone window_start

  abbrev pub class_days : WeeklyClass → Option ℕ → Option ℕ → Option (List ClassOccurrence)
  class_days weekly none end_time = none
  class_days weekly (some start_time) none = none
  class_days weekly (some start_time) (some end_time) =
      some (days_from weekly start_time end_time days_left (local_day zone window_start))

  unfoldable pub all_classes : (Text → Option ℕ) → List WeeklyClass → Option (List ClassOccurrence)
  unfolding days_from
  all_classes int [] = some []
  all_classes int (c ∷ cs) =
      also (class_days c (parse_hhmm int c.start_time) (parse_hhmm int c.end_time))
        (all_classes int cs)

-- The sort key `(item.starts_at_utc, item.course_name)`
abbrev pub starts_before : ClassOccurrence → ClassOccurrence → Bool
starts_before a b =
    ltb a.starts_at_utc b.starts_at_utc
    || (a.starts_at_utc == b.starts_at_utc && text_le a.course_name b.course_name)

abbrev pub sorted : Option (List ClassOccurrence) → Expansion (List ClassOccurrence)
sorted none = malformed_time
sorted (some l) = expanded (sort_with starts_before l)

unfoldable pub expand_occurrences :
    (Text → Option ℕ) → Zone → List WeeklyClass → ℕ → ℕ → Expansion (List ClassOccurrence)
unfolding all_classes
expand_occurrences int zone classes window_start window_end =
    if ltb window_end window_start
    then window_reversed
    else sorted (all_classes zone window_start window_end int classes)

unfoldable pub occurrences_for_local_day :
    (Text → Option ℕ) → Zone → List WeeklyClass → ℕ → Expansion (List ClassOccurrence)
occurrences_for_local_day int zone classes instant =
    let bounds = local_day_bounds zone instant in
    expand_occurrences int zone classes bounds.0 bounds.1
