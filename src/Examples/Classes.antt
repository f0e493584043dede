-- ===== src/Examples/Classes.antt =====
-- A campus clock five hours ahead, one that is set back, one class on Wednesdays, and the theorems on classes at them.
use ragra_reminder.Prelude.{
  ℕ, ◌≡◌, refl, ◌+◌, ◌-◌, ◌*◌, true, false, Option, none, some, [], ◌∷◌, Text, codes, arith, inl,
  Some, map, if◌then◌else◌, ltb,
}
use ragra_reminder.Engine.{day, hour, minute}
use ragra_reminder.Store.{Db, TimetableEvent, ClassStatus}
use ragra_reminder.Store.Classes.{
  pending_class_reminders, insert_class_reminder_if_absent, list_timetable_events,
  new_class_reminder,
}
use ragra_reminder.Notify.{Notification}
use ragra_reminder.Notify.Fanout.{any_accepts}
use ragra_reminder.Zones.{Zone, combine_local, is_nonexistent}
use ragra_reminder.Timetable.{
  WeeklyClass, expanded, occurrence, weekly_class_from_row, parse_hhmm, starts_utc,
  expand_occurrences, all_classes, days_from,
}
use ragra_reminder.Timetable.Complete.{IsRegular, expand_occurrences_complete}
use ragra_reminder.Timetable.Hours.{resolve_hours, published, resolve_hours-published}
use ragra_reminder.ClassReminders.{
  claim_all, schedule_class_reminders, dispatch_class_reminders, class_soon_type, no_classes,
}
use ragra_reminder.ClassReminders.Claims.{schedule_class_reminders_again}
use ragra_reminder.ClassReminders.Silence.{dispatch_class_reminders-quiet}
use ragra_reminder.Examples.{sample, accepting}

-- A slot at 08:30, one that spans noon, and one that the sheet shows as 02:30.
resolve_hours-published_example :
    resolve_hours false none (map published (8 ∷ 9 ∷ 11 ∷ 14 ∷ 14 ∷ 16 ∷ []))
    ≡ 8 ∷ 9 ∷ 11 ∷ 14 ∷ 14 ∷ 16 ∷ []
resolve_hours-published_example =
    resolve_hours-published 8 (9 ∷ 11 ∷ 14 ∷ 14 ∷ 16 ∷ []) (omega arith) (ground arith)

abbrev campus : Zone
campus = record {
  wall = λ t. t + 5 * hour;
  instant = λ t fold. t - 5 * hour;
  label = λ t. codes "PKT";
}

-- Python's `int` on a text of two digits.
abbrev pub int : Text → Option ℕ
int (a ∷ b ∷ []) = some ((a - 48) * 10 + (b - 48))
int _ = none

abbrev pub class : TimetableEvent
class = record {
  id = 1;
  user_id = 1;
  external_id = codes "CS:2025:CS-G:logic:0";
  course_name = codes "Logic";
  program = some (codes "CS");
  batch_year = none;
  enrollment_type = codes "REGULAR";
  day_of_week = 2;
  occurrence_index = 0;
  start_time = codes "08:30";
  end_time = codes "09:50";
  room = some (codes "C-311");
  instructor = none;
  section = some (codes "CS-G");
  status = ClassStatus.scheduled;
  source_spreadsheet_id = none;
  source_sheet_gid = none;
  source_sheet_title = none;
  last_synced_at = 0;
  created_at = 0;
  updated_at = 0;
}

abbrev pub enrolled : Db
enrolled = record sample { timetable_events = class ∷ []; next_event = 2 }

abbrev start_of_class : ℕ
start_of_class = 8 * hour + 30 * minute

abbrev end_of_class : ℕ
end_of_class = 9 * hour + 50 * minute

-- Half an hour before the class on day 100, a Wednesday.
abbrev before_class : ℕ
before_class = 100 * day + 3 * hour

start_parses : parse_hhmm int (codes "08:30") ≡ some start_of_class
unfolding parse_hhmm
start_parses = refl

end_parses : parse_hhmm int (codes "09:50") ≡ some end_of_class
unfolding parse_hhmm
end_parses = refl

abbrev weekly : WeeklyClass
weekly = weekly_class_from_row class

abbrev start_instant : ℕ
start_instant = 100 * day + 3 * hour + 30 * minute

-- A clock that goes from six hours ahead to five where day 100 would begin, from 24:00 back to 23:00.
abbrev summer_ends : ℕ
summer_ends = 100 * day - 6 * hour

abbrev summer_campus : Zone
summer_campus = record {
  wall = λ t. t + (if ltb t summer_ends then 6 * hour else 5 * hour);
  instant =
      λ t fold. t - (if ltb t (100 * day - (if fold then hour else 0)) then 6 * hour else 5 * hour);
  label = λ t. if ltb t summer_ends then codes "PKST" else codes "PKT";
}

summer_combine : (on t : ℕ) → combine_local summer_campus on t ≡ on * day + t
unfolding combine_local
summer_combine on t = ground arith

summer-IsRegular : IsRegular summer_campus
summer-IsRegular = record {
  forward = λ a b h. ground arith;
  same_day = λ on t h. rw summer_combine (ground arith);
}

starts_at : starts_utc summer_campus 100 start_of_class ≡ start_instant
starts_at = rw summer_combine refl

-- From noon of day 99, in UTC, until after the class.
abbrev noon_before : ℕ
noon_before = 99 * day + 12 * hour

one_found :
    expand_occurrences int summer_campus (weekly ∷ []) noon_before (noon_before + 16 * hour)
    ≡ expanded (occurrence summer_campus weekly start_of_class end_of_class 100 ∷ [])
unfolding expand_occurrences all_classes days_from combine_local is_nonexistent parse_hhmm
one_found = refl

expand_occurrences_complete_example :
    Some
      (λ o. o ≡ occurrence summer_campus weekly start_of_class end_of_class 100)
      (occurrence summer_campus weekly start_of_class end_of_class 100 ∷ [])
expand_occurrences_complete_example =
    expand_occurrences_complete int summer_campus noon_before (noon_before + 16 * hour)
      (weekly ∷ []) weekly start_of_class end_of_class 100
      (occurrence summer_campus weekly start_of_class end_of_class 100 ∷ []) summer-IsRegular
      (inl refl) start_parses end_parses refl (omega (arith, starts_at)) (omega (arith, starts_at))
      one_found

abbrev after_claim : Db
after_claim = record enrolled {
  class_reminders = new_class_reminder 1 1 1 100 class_soon_type start_instant before_class ∷ [];
  next_class_reminder = 2;
}

claimed_once :
    schedule_class_reminders int campus 1 before_class before_class enrolled
    ≡ (expanded 1, after_claim)
unfolding schedule_class_reminders list_timetable_events claim_all insert_class_reminder_if_absent
    expand_occurrences all_classes days_from combine_local is_nonexistent parse_hhmm occurrence
claimed_once = refl

schedule_class_reminders_again_example :
    schedule_class_reminders int campus 1 before_class (before_class + minute) after_claim
    ≡ (expanded 0, after_claim)
schedule_class_reminders_again_example =
    schedule_class_reminders_again 1 before_class (before_class + minute) 1 enrolled after_claim int
      campus before_class claimed_once

always_accepted : (n : Notification) → any_accepts (accepting ∷ []) n ≡ true
always_accepted n = refl

abbrev dispatched : Db
dispatched =
    (dispatch_class_reminders campus 1 (accepting ∷ []) before_class before_class after_claim).1

dispatch_class_reminders-quiet_example :
    (pending_class_reminders 1 dispatched ≡ [])
    × (dispatch_class_reminders campus 1
          (accepting ∷ [])
          (before_class + minute)
          (before_class + minute)
          dispatched
        ≡ (no_classes, dispatched))
dispatch_class_reminders-quiet_example =
    dispatch_class_reminders-quiet campus 1 accepting [] before_class before_class after_claim
      (accepting ∷ []) (before_class + minute) (before_class + minute) always_accepted
