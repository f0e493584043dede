-- ===== src/Store/Meetings.antt =====
-- The timetable_events table of ragra/db/repo.py: inserting, updating and cancelling a weekly class.
use ragra_reminder.Prelude.{
  ℕ, suc, Bool, true, false, not, ◌&&◌, ◌||◌, Option, none, some, List, [], ◌∷◌, ◌++◌, Text, ◌==◌,
  text_eq, option_eq, if◌then◌else◌, select, fetchone, update_where, map,
}
use ragra_reminder.Store.Rows.{TimetableEvent, ClassStatus, is_called_off}
use ragra_reminder.Store.State.{Db}

-- The arguments of `upsert_timetable_event`.
pub record Meeting : Type 0 where
  pub external_id : Text
  pub course_name : Text
  pub program : Option Text
  pub batch_year : Option Text
  pub enrollment_type : Text
  pub day_of_week : ℕ
  pub occurrence_index : ℕ
  pub start_time : Text
  pub end_time : Text
  pub room : Option Text
  pub instructor : Option Text
  pub section : Option Text
  pub status : ClassStatus
  pub source_spreadsheet_id : Option Text
  pub source_sheet_gid : Option Text
  pub source_sheet_title : Option Text

pub data MeetingField : Type 0 where
  day_field start_field end_field room_field section_field class_status_field : MeetingField

pub record TimetableUpsertResult : Type 0 where
  pub event_id : ℕ
  pub created : Bool
  pub changed_fields : List MeetingField

abbrev pub is_meeting : ℕ → Text → TimetableEvent → Bool
is_meeting user_id external_id e = e.user_id == user_id && text_eq e.external_id external_id

unfoldable pub get_timetable_event_by_external_id : ℕ → Text → Db → Option TimetableEvent
get_timetable_event_by_external_id user_id external_id db =
    fetchone (select (is_meeting user_id external_id) db.timetable_events)

abbrev pub new_meeting : ℕ → ℕ → Meeting → ℕ → TimetableEvent
new_meeting id user_id m now = record {
  id = id;
  user_id = user_id;
  external_id = m.external_id;
  course_name = m.course_name;
  program = m.program;
  batch_year = m.batch_year;
  enrollment_type = m.enrollment_type;
  day_of_week = m.day_of_week;
  occurrence_index = m.occurrence_index;
  start_time = m.start_time;
  end_time = m.end_time;
  room = m.room;
  instructor = m.instructor;
  section = m.section;
  status = m.status;
  source_spreadsheet_id = m.source_spreadsheet_id;
  source_sheet_gid = m.source_sheet_gid;
  source_sheet_title = m.source_sheet_title;
  last_synced_at = now;
  created_at = now;
  updated_at = now;
}

-- The UPDATE: all columns but the id, the owner, the external id and the creation.
abbrev pub moved_meeting : Meeting → ℕ → TimetableEvent → TimetableEvent
moved_meeting m now e = record (new_meeting e.id e.user_id m now) {
  external_id = e.external_id;
  created_at = e.created_at;
}

abbrev pub status_eq : ClassStatus → ClassStatus → Bool
status_eq a b = if is_called_off a then is_called_off b else not (is_called_off b)

abbrev pub field_if : Bool → MeetingField → List MeetingField
field_if same f = if same then [] else f ∷ []

-- The tracked fields whose value is another one, in the order of `_TIMETABLE_TRACKED_FIELDS`.
abbrev pub changed_fields_of : TimetableEvent → Meeting → List MeetingField
changed_fields_of e m =
    field_if (e.day_of_week == m.day_of_week) day_field
    ++ (field_if (text_eq e.start_time m.start_time) start_field
        ++ (field_if (text_eq e.end_time m.end_time) end_field
            ++ (field_if (option_eq text_eq e.room m.room) room_field
                ++ (field_if (option_eq text_eq e.section m.section) section_field
                    ++ field_if (status_eq e.status m.status) class_status_field))))

-- `WHERE id = ? AND user_id = ?`
abbrev pub is_event_row : ℕ → ℕ → TimetableEvent → Bool
is_event_row user_id id e = e.id == id && e.user_id == user_id

-- What follows the look-up of `upsert_timetable_event`.
abbrev pub upsert_found : ℕ → Meeting → ℕ → Db → Option TimetableEvent → TimetableUpsertResult × Db
upsert_found user_id m now db none = (
  record { event_id = db.next_event; created = true; changed_fields = [] },
  record db {
    timetable_events = db.timetable_events ++ new_meeting db.next_event user_id m now ∷ [];
    next_event = suc db.next_event;
  },
)
upsert_found user_id m now db (some existing) = (
  record { event_id = existing.id; created = false; changed_fields = changed_fields_of existing m },
  record db {
    timetable_events =
        update_where (is_event_row user_id existing.id) (moved_meeting m now) db.timetable_events;
  },
)

unfoldable pub upsert_timetable_event : ℕ → Meeting → ℕ → Db → TimetableUpsertResult × Db
unfolding get_timetable_event_by_external_id
upsert_timetable_event user_id m now db =
    upsert_found user_id m now db (get_timetable_event_by_external_id user_id m.external_id db)

abbrev pub text_in : Text → List Text → Bool
text_in t [] = false
text_in t (s ∷ ss) = text_eq s t || text_in t ss

abbrev pub is_missing_meeting : ℕ → List Text → TimetableEvent → Bool
is_missing_meeting user_id seen e =
    e.user_id == user_id && not (is_called_off e.status) && not (text_in e.external_id seen)

abbrev pub called_off : ℕ → TimetableEvent → TimetableEvent
called_off now e = record e { status = ClassStatus.cancelled; updated_at = now }

-- The UPDATE runs once for each missing row; together they reach the missing rows.
unfoldable pub cancel_timetable_events_missing_from_source : ℕ → List Text → ℕ → Db → List ℕ × Db
cancel_timetable_events_missing_from_source user_id seen_external_ids now db = (
  map (λ e. e.id) (select (is_missing_meeting user_id seen_external_ids) db.timetable_events),
  record db {
    timetable_events =
        update_where (is_missing_meeting user_id seen_external_ids) (called_off now)
          db.timetable_events;
  },
)
