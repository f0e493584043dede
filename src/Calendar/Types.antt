-- ===== src/Calendar/Types.antt =====
-- Google Calendar as ragra/adapters/calendar.py sees it.
--
-- The service is a parameter: a state `W` of the user's calendars, and what each request answers in
-- it. `GoogleCalendarClient` is modelled on top of it.
use ragra_reminder.Prelude.{ℕ, Bool, false, ◌||◌, Option, none, some, Text, ◌==◌, if◌then◌else◌}

pub record EventBody : Type 0 where
  pub summary : Text
  pub description : Text
  pub start : ℕ
  pub end : ℕ

-- What a request answers: its value, or an exception with the status of `exc.resp`, if it has one.
pub data Reply (A : Type 0) : Type 0 where
  replied : A → Reply A
  refused : Option ℕ → Text → Reply A

pub record CalendarService (W : Type 0) : Type 0 where
  -- The id of the new event is what the program reads of the answer.
  pub insert : Text → EventBody → W → Reply Text × W
  pub update : Text → Text → EventBody → W → Reply Unit × W
  pub delete : Text → Text → W → Reply Unit × W

-- `status in (404, 410)`
abbrev pub is_gone : Option ℕ → Bool
is_gone none = false
is_gone (some status) = status == 404 || status == 410

-- An event that is gone already counts as deleted.
abbrev pub tolerate_gone : Reply Unit → Reply Unit
tolerate_gone (replied u) = replied u
tolerate_gone (refused status error) = if is_gone status then replied tt else refused status error

module _ {W : Type 0} (service : CalendarService W) where
  unfoldable pub create_event : Text → EventBody → W → Reply Text × W
  create_event calendar_id body w = service.insert calendar_id body w

  unfoldable pub update_event : Text → Text → EventBody → W → Reply Unit × W
  update_event calendar_id event_id body w = service.update calendar_id event_id body w

  unfoldable pub delete_event : Text → Text → W → Reply Unit × W
  delete_event calendar_id event_id w =
      let answer = service.delete calendar_id event_id w in (tolerate_gone answer.0, answer.1)
