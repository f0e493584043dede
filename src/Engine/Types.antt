-- ===== src/Engine/Types.antt =====
-- The data of ragra/reminders/engine.py.
use ragra_reminder.Prelude.{ℕ, ◌+◌, ◌-◌, ◌≡◌, ◌↔◌, Bool, arith, ◌==◌}

abbrev pub minute : ℕ
minute = 60000000

abbrev pub hour : ℕ
hour = 3600000000

abbrev pub day : ℕ
day = 86400000000

-- An aware `datetime`: its moment in UTC, and its offset east of UTC plus 24 hours (Python's offsets
-- are less than a day either way, so `east` is positive). Comparison and `-` use the moment.
pub record Datetime : Type 0 where
  pub utc : ℕ
  pub east : ℕ

-- A moment with `tzinfo=timezone.utc`.
abbrev pub at_utc : ℕ → Datetime
at_utc t = record { utc = t; east = day }

abbrev pub minus : Datetime → ℕ → Datetime
minus d n = record d { utc = d.utc - n }

abbrev pub plus : Datetime → ℕ → Datetime
plus d n = record d { utc = d.utc + n }

-- The reminder types that the program writes to the `reminders` table, and T_MINUS_3D, which has a
-- message and is planned nowhere.
pub data ReminderType : Type 0 where
  new_assignment t_minus_7d t_minus_5d t_minus_3d t_minus_2d t_minus_1d due_today few_hours :
      ReminderType
  midpoint_ping final_1h deadline_reached deadline_changed new_announcement new_material :
      ReminderType

-- Equality of the type's text, through a number for each.
abbrev pub type_number : ReminderType → ℕ
type_number new_assignment = 0
type_number t_minus_7d = 1
type_number t_minus_5d = 2
type_number t_minus_3d = 3
type_number t_minus_2d = 4
type_number t_minus_1d = 5
type_number due_today = 6
type_number few_hours = 7
type_number midpoint_ping = 8
type_number final_1h = 9
type_number deadline_reached = 10
type_number deadline_changed = 11
type_number new_announcement = 12
type_number new_material = 13

abbrev pub type_eq : ReminderType → ReminderType → Bool
type_eq a b = type_number a == type_number b

pub type_eq_refl : (a : ReminderType) → type_eq a a ≡ Bool.true
type_eq_refl a = ground arith

pub type_eq_iff : (a b : ReminderType) → (type_eq a b ≡ Bool.true) ↔ (a ≡ b)
type_eq_iff a b = ground arith

pub record ReminderPlan : Type 0 where
  pub reminder_type : ReminderType
  pub scheduled_for : Datetime
