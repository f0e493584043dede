-- ===== src/Zones.antt =====
-- ragra/tz.py: the conversion between the campus's wall clock and instants.
--
-- The zone (a `ZoneInfo`) is a parameter. An instant and a reading of the wall clock are numbers of
-- microseconds since 0001-01-01T00:00, the first in UTC; a day is a number of days since that date,
-- which was a Monday.
use ragra_reminder.Prelude.{
  ℕ, ◌+◌, ◌-◌, ◌*◌, ◌/◌, Bool, true, false, not, ◌&&◌, Text, ◌==◌, if◌then◌else◌,
}
use ragra_reminder.Engine.{day}

pub record Zone : Type 0 where
  -- `value.astimezone(zone)`: what the wall clock shows at an instant.
  pub wall : ℕ → ℕ
  -- `value.replace(fold=…).astimezone(utc)`: the instant of a reading; true for fold=1.
  pub instant : ℕ → Bool → ℕ
  -- `strftime("%Z")` at an instant
  pub label : ℕ → Text

module _ (zone : Zone) where
  -- The offset before and after differ exactly if the instants of the two folds do.
  unfoldable pub is_nonexistent : ℕ → Bool
  is_nonexistent reading = not (zone.wall (zone.instant reading false) == reading)

  unfoldable pub is_ambiguous : ℕ → Bool
  unfolding is_nonexistent
  is_ambiguous reading =
      not (zone.instant reading false == zone.instant reading true) && not (is_nonexistent reading)

  -- The offset of fold 1 minus that of fold 0 is what the instant of fold 0 exceeds the other by.
  unfoldable pub combine_local : ℕ → ℕ → ℕ
  unfolding is_nonexistent
  combine_local on time_of_day =
      let reading = on * day + time_of_day in
      if is_nonexistent reading
      then reading + zone.instant reading false - zone.instant reading true
      else reading

  abbrev pub to_utc : ℕ → ℕ
  to_utc reading = zone.instant reading false

  -- `to_local(value).date()`
  abbrev pub local_day : ℕ → ℕ
  local_day instant = zone.wall instant / day

  unfoldable pub local_day_bounds : ℕ → ℕ × ℕ
  unfolding combine_local
  local_day_bounds instant = (
    to_utc (combine_local (local_day instant) 0),
    to_utc (combine_local (local_day instant + 1) 0 - 1),
  )
