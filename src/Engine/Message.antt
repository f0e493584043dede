-- ===== src/Engine/Message.antt =====
-- `reminder_message`: the text of each reminder.
use ragra_reminder.Prelude.{Option, none, some, ◌++◌, ◌∷◌, Text, codes, is_empty, if◌then◌else◌}
use ragra_reminder.Engine.Types.{
  ReminderType, new_assignment, t_minus_7d, t_minus_5d, t_minus_3d, t_minus_2d, t_minus_1d,
  due_today, few_hours, midpoint_ping, final_1h, deadline_reached, deadline_changed,
  new_announcement, new_material,
}

-- `f"{course_code}: {task_title}" if course_code else task_title`; an empty code counts as none.
abbrev pub message_label : Text → Option Text → Text
message_label title none = title
message_label title (some course_code) =
    if is_empty course_code then title else course_code ++ (codes ": " ++ title)

unfoldable pub reminder_message : ReminderType → Text → Option Text → Text
reminder_message new_assignment t c = codes "New assignment: " ++ message_label t c
reminder_message t_minus_7d t c = codes "Due in 1 week: " ++ message_label t c
reminder_message t_minus_5d t c = codes "Due in 5 days: " ++ message_label t c
reminder_message t_minus_3d t c = codes "Due in 3 days: " ++ message_label t c
reminder_message t_minus_2d t c = codes "Due in 2 days: " ++ message_label t c
reminder_message t_minus_1d t c = codes "Due tomorrow: " ++ message_label t c
reminder_message due_today t c = codes "Due today: " ++ message_label t c
reminder_message few_hours t c = codes "Reminder: " ++ (message_label t c ++ codes " due soon")
reminder_message midpoint_ping t c = codes "Reminder: " ++ message_label t c
reminder_message final_1h t c =
    0x26a0 ∷ 0xfe0f ∷ 0x20 ∷ (message_label t c ++ codes " due in 1 hour")
reminder_message deadline_reached t c = codes "Deadline reached: " ++ message_label t c
reminder_message deadline_changed t c = codes "Deadline changed: " ++ message_label t c
reminder_message new_announcement t c = codes "New announcement: " ++ message_label t c
reminder_message new_material t c = codes "New class material: " ++ message_label t c
