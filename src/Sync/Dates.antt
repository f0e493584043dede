-- ===== src/Sync/Dates.antt =====
-- `_classroom_due_to_iso` of ragra/sync/classroom_sync.py, with the calendar of `datetime`.
use ragra_reminder.Prelude.{
  ℕ, zero, suc, ◌+◌, ◌-◌, ◌*◌, ◌/◌, ◌%◌, Bool, not, ◌&&◌, ◌||◌, Option, none, some, ◌==◌, leb, ltb,
  if◌then◌else◌,
}
use ragra_reminder.Engine.{minute, hour, day}

-- Classroom's `Date` and `TimeOfDay`: each key may be left out.
pub record DueDate : Type 0 where
  pub year : Option ℕ
  pub month : Option ℕ
  pub day_of_month : Option ℕ

pub record DueTime : Type 0 where
  pub hours : Option ℕ
  pub minutes : Option ℕ

abbrev pub is_leap : ℕ → Bool
is_leap y = y % 4 == 0 && (not (y % 100 == 0) || y % 400 == 0)

abbrev pub days_in_month : ℕ → ℕ → ℕ
days_in_month y m =
    if m == 2
    then (if is_leap y then 29 else 28)
    else if m == 4 || (m == 6 || (m == 9 || m == 11))
    then 30
    else 31

-- The days of the year before the month.
abbrev pub days_before_month : ℕ → ℕ → ℕ
days_before_month y zero = 0
days_before_month y (suc zero) = 0
days_before_month y (suc (suc m)) = days_before_month y (suc m) + days_in_month y (suc m)

abbrev pub days_before_year : ℕ → ℕ
days_before_year y = (y - 1) * 365 + (y - 1) / 4 - (y - 1) / 100 + (y - 1) / 400

-- `datetime(year, month, day, hour, minute, tzinfo=timezone.utc)`, none for a ValueError.
unfoldable pub datetime_utc : ℕ → ℕ → ℕ → ℕ → ℕ → Option ℕ
datetime_utc y m d h min =
    if leb 1 y
      && (leb y 9999
          && (leb 1 m
              && (leb m 12
                  && (leb 1 d && (leb d (days_in_month y m) && (ltb h 24 && ltb min 60))))))
    then some
        ((days_before_year y + days_before_month y m + (d - 1)) * day + h * hour + min * minute)
    else none

-- `(due_time or {}).get(key, fallback)`
abbrev pub get_or : Option ℕ → ℕ → ℕ
get_or none fallback = fallback
get_or (some n) fallback = n

abbrev pub due_hour : Option DueTime → ℕ
due_hour none = 23
due_hour (some t) = get_or t.hours 23

abbrev pub due_minute : Option DueTime → ℕ
due_minute none = 59
due_minute (some t) = get_or t.minutes 59

infixl 5 ◌>>=◌
abbrev ◌>>=◌ : {A B : Type 0} → Option A → (A → Option B) → Option B
none >>= f = none
some a >>= f = f a

-- An empty date counts as none, and gives none either way; a missing key is the KeyError.
unfoldable pub classroom_due_to_iso : Option DueDate → Option DueTime → Option ℕ
unfolding datetime_utc
classroom_due_to_iso due_date due_time = do
  date ← due_date
  year ← date.year
  month ← date.month
  d ← date.day_of_month
  datetime_utc year month d (due_hour due_time) (due_minute due_time)
