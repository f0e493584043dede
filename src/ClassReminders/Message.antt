-- ===== src/ClassReminders/Message.antt =====
-- `class_reminder_message` of ragra/reminders/class_reminders.py.
use ragra_reminder.Prelude.{
  ℕ, ◌-◌, ◌/◌, ◌%◌, Option, none, some, [], ◌++◌, Text, codes, decimal, ltb, ◌==◌, if◌then◌else◌,
  is_empty,
}
use ragra_reminder.Engine.{minute, hour, day}
use ragra_reminder.Zones.{Zone}
use ragra_reminder.Timetable.Hours.{two_digits}

-- `local.strftime('%I:%M %p').lstrip('0')`: the hour is never zero on a twelve-hour clock.
abbrev pub hour_of : ℕ → ℕ
hour_of reading = (reading % day) / hour

abbrev pub on_dial : ℕ → ℕ
on_dial h = if h % 12 == 0 then 12 else h % 12

abbrev pub dial_text : ℕ → Text
dial_text reading =
    decimal (on_dial (hour_of reading))
    ++ (codes ":"
        ++ (two_digits ((reading % hour) / minute)
            ++ (if ltb (hour_of reading) 12 then codes " AM" else codes " PM")))

-- `f", {room}" if room else ""`
abbrev pub where_text : Option Text → Text
where_text none = []
where_text (some room) = if is_empty room then [] else codes ", " ++ room

unfoldable pub class_reminder_message : Zone → Text → ℕ → Option Text → ℕ → Text
class_reminder_message zone course_name starts_at_utc room now =
    course_name
    ++ (codes " starts in ~"
        ++ (decimal ((starts_at_utc - now) / minute)
            ++ (codes " min ("
                ++ (dial_text (zone.wall starts_at_utc)
                    ++ (codes " "
                        ++ (zone.label starts_at_utc ++ (codes ")" ++ where_text room)))))))
