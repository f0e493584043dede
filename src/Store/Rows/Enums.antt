-- ===== src/Store/Rows/Enums.antt =====
-- The texts that the program writes into its status, type and role columns, and their equality.
use ragra_reminder.Prelude.{ℕ, ◌≡◌, ◌↔◌, Bool, true, false, Text, ◌==◌, arith}

-- Classroom's `courseState`: the two that Ragra syncs, or any other text.
pub data CourseState : Type 0 where
  active provisioned : CourseState
  other_state : Text → CourseState

-- `state IN ('ACTIVE', 'PROVISIONED')`
abbrev pub is_open : CourseState → Bool
is_open active = true
is_open provisioned = true
is_open (other_state _) = false

pub data SourceType : Type 0 where
  coursework announcement material manual : SourceType

abbrev pub source_number : SourceType → ℕ
source_number coursework = 0
source_number announcement = 1
source_number material = 2
source_number manual = 3

abbrev pub source_eq : SourceType → SourceType → Bool
source_eq a b = source_number a == source_number b

pub source_eq_iff : (a b : SourceType) → (source_eq a b ≡ true) ↔ (a ≡ b)
source_eq_iff a b = ground arith

pub data TaskKind : Type 0 where
  actionable informational : TaskKind

abbrev pub is_actionable : TaskKind → Bool
is_actionable actionable = true
is_actionable informational = false

pub data TaskStatus : Type 0 where
  discovered action_required planned in_progress completed missed cancelled archived : TaskStatus

-- `status IN ('COMPLETED', 'CANCELLED')`, and the same with 'MISSED'
abbrev pub is_finished : TaskStatus → Bool
is_finished completed = true
is_finished cancelled = true
is_finished _ = false

abbrev pub is_terminal : TaskStatus → Bool
is_terminal completed = true
is_terminal cancelled = true
is_terminal missed = true
is_terminal _ = false

abbrev pub is_missed : TaskStatus → Bool
is_missed missed = true
is_missed _ = false

abbrev pub is_archived : TaskStatus → Bool
is_archived archived = true
is_archived _ = false

abbrev pub is_cancelled : TaskStatus → Bool
is_cancelled cancelled = true
is_cancelled _ = false

-- The stored relevance: the column's default 'RELEVANT', or the value of a decision.
pub data Relevance : Type 0 where
  default_relevant relevant other_section unknown : Relevance

abbrev pub relevance_number : Relevance → ℕ
relevance_number default_relevant = 0
relevance_number relevant = 1
relevance_number other_section = 2
relevance_number unknown = 3

abbrev pub relevance_eq : Relevance → Relevance → Bool
relevance_eq a b = relevance_number a == relevance_number b

abbrev pub is_other_section : Relevance → Bool
is_other_section other_section = true
is_other_section _ = false

-- The column names of the audit trail.
pub data HistoryField : Type 0 where
  created_field title_field description_field link_field actual_deadline_field : HistoryField
  personal_deadline_field status_field relevance_field : HistoryField

pub data ReminderStatus : Type 0 where
  pending sent cancelled failed : ReminderStatus

abbrev pub is_pending : ReminderStatus → Bool
is_pending pending = true
is_pending _ = false

-- Sent, or given up.
abbrev pub is_settled : ReminderStatus → Bool
is_settled sent = true
is_settled failed = true
is_settled _ = false

pub data ChatRole : Type 0 where
  user bot alert : ChatRole

abbrev pub is_alert : ChatRole → Bool
is_alert alert = true
is_alert _ = false

-- The `source` of sync_state and the `component` of pipeline_health.
pub data SyncSource : Type 0 where
  classroom calendar timetable reminders class_reminders tick : SyncSource

abbrev pub sync_source_number : SyncSource → ℕ
sync_source_number classroom = 0
sync_source_number calendar = 1
sync_source_number timetable = 2
sync_source_number reminders = 3
sync_source_number class_reminders = 4
sync_source_number tick = 5

abbrev pub sync_source_eq : SyncSource → SyncSource → Bool
sync_source_eq a b = sync_source_number a == sync_source_number b

pub data SyncStatus : Type 0 where
  running ok_status error_status : SyncStatus

pub data ClassStatus : Type 0 where
  scheduled cancelled : ClassStatus

abbrev pub is_called_off : ClassStatus → Bool
is_called_off cancelled = true
is_called_off scheduled = false
