-- ===== src/Timetable/Hours.antt =====
-- `resolve_24h_time_sequence` of ragra/timetable/normalize.py: the headers of a day's slots, which the
-- source spreadsheet writes without AM and PM.
use ragra_reminder.Prelude.{
  ℕ, ◌≡◌, refl, ap₂, subst, ◌≤◌, ◌<◌, ◌+◌, ◌-◌, Bool, false, not, ◌&&◌, ◌||◌, Option, none, some,
  List, [], ◌∷◌, ◌++◌, Text, arith, decimal, ltb, ◌==◌, if◌then◌else◌, map,
}
use ragra_reminder.Store.Strip.{strip}
use ragra_reminder.Timetable.{split_pair}

pub record Slot : Type 0 where
  pub start_hour : ℕ
  pub start_minute : ℕ
  pub end_hour : ℕ
  pub end_minute : ℕ

-- `_parse_hhmm`: the two numbers of `hour:minute`; none for a ValueError. `int` is Python's, on texts
-- without a sign.
abbrev pub both_numbers : Option ℕ → Option ℕ → Option (ℕ × ℕ)
both_numbers none m = none
both_numbers (some h) none = none
both_numbers (some h) (some m) = some (h, m)

abbrev pub clock_parts : (Text → Option ℕ) → Option (Text × Text) → Option (ℕ × ℕ)
clock_parts int none = none
clock_parts int (some parts) = both_numbers (int parts.0) (int parts.1)

abbrev pub parse_clock : (Text → Option ℕ) → Text → Option (ℕ × ℕ)
parse_clock int value = clock_parts int (split_pair 58 value)

abbrev pub slot_of : Option (ℕ × ℕ) → Option (ℕ × ℕ) → Option Slot
slot_of none e = none
slot_of (some s) none = none
slot_of (some s) (some e) =
    some (record { start_hour = s.0; start_minute = s.1; end_hour = e.0; end_minute = e.1 })

abbrev pub slot_parts : (Text → Option ℕ) → Option (Text × Text) → Option Slot
slot_parts int none = none
slot_parts int (some parts) =
    slot_of (parse_clock int (strip parts.0)) (parse_clock int (strip parts.1))

-- `_parse_hhmm_pair`
abbrev pub parse_slot : (Text → Option ℕ) → Text → Option Slot
parse_slot int slot = slot_parts int (split_pair 45 slot)

abbrev pub add_slot : Option Slot → Option (List Slot) → Option (List Slot)
add_slot none rest = none
add_slot (some s) none = none
add_slot (some s) (some l) = some (s ∷ l)

abbrev pub parse_slots : (Text → Option ℕ) → List Text → Option (List Slot)
parse_slots int [] = some []
parse_slots int (t ∷ ts) = add_slot (parse_slot int t) (parse_slots int ts)

abbrev pub hours_of : List Slot → List ℕ
hours_of [] = []
hours_of (s ∷ ss) = s.start_hour ∷ s.end_hour ∷ hours_of ss

-- `previous_hour is not None and hour < previous_hour`
abbrev pub drops : Option ℕ → ℕ → Bool
drops none h = false
drops (some previous) h = ltb h previous

abbrev pub afternoon : Bool → ℕ → ℕ
afternoon pm h = if pm && not (h == 12) then h + 12 else h

-- The loop over the hours, with `pm` and `previous_hour`.
unfoldable pub resolve_hours : Bool → Option ℕ → List ℕ → List ℕ
resolve_hours pm previous [] = []
resolve_hours pm previous (h ∷ hs) =
    afternoon (pm || drops previous h) h ∷ resolve_hours (pm || drops previous h) (some h) hs

-- `{n:02d}`
abbrev pub two_digits : ℕ → Text
two_digits n = if ltb n 10 then 48 ∷ decimal n else decimal n

abbrev pub clock_text : ℕ → ℕ → Text
clock_text h m = two_digits h ++ (58 ∷ two_digits m)

-- `resolved_hours[index * 2]` and `resolved_hours[index * 2 + 1]` for each slot
abbrev pub regroup : List Slot → List ℕ → List (Text × Text)
regroup [] hours = []
regroup (s ∷ ss) [] = []
regroup (s ∷ ss) (a ∷ []) = []
regroup (s ∷ ss) (a ∷ b ∷ hours) =
    (clock_text a s.start_minute, clock_text b s.end_minute) ∷ regroup ss hours

abbrev pub resolved_slots : Option (List Slot) → Option (List (Text × Text))
resolved_slots none = none
resolved_slots (some slots) = some (regroup slots (resolve_hours false none (hours_of slots)))

-- None for the ValueError of a slot that cannot be read.
unfoldable pub resolve_24h_time_sequence :
    (Text → Option ℕ) → List Text → Option (List (Text × Text))
unfolding resolve_hours
resolve_24h_time_sequence int raw_slots = resolved_slots (parse_slots int raw_slots)

-- How the spreadsheet writes an hour of the day.
abbrev pub published : ℕ → ℕ
published h = if ltb 12 h then h - 12 else h

-- Hours of one day in order, with less than twelve between two of them.
abbrev pub FollowOn : ℕ → List ℕ → Type 0
FollowOn a [] = Unit
FollowOn a (b ∷ bs) = (a ≤ b) × (b < a + 12) × (b ≤ 23) × FollowOn b bs

published_step :
    (a b : ℕ)
    → a ≤ b
    → b < a + 12
    → (ltb 12 a || drops (some (published a)) (published b)) ≡ ltb 12 b
published_step a b h k = ground arith

afternoon-published : (b : ℕ) → b ≤ 23 → afternoon (ltb 12 b) (published b) ≡ b
afternoon-published b h = ground arith

resolve_published :
    (a : ℕ) (hs : List ℕ)
    → FollowOn a hs
    → resolve_hours (ltb 12 a) (some (published a)) (map published hs) ≡ hs
unfolding resolve_hours
resolve_published a [] h = refl
resolve_published a (b ∷ bs) h =
    rw (published_step a b h.0 h.1)
      (ap₂ (λ x xs. x ∷ xs) (afternoon-published b h.2) (resolve_published b bs h.3))

-- The hours of a day that begins before one in the afternoon are read back from what the spreadsheet
-- shows, if they come in order and less than twelve hours lie between one and the next.
pub resolve_hours-published :
    (a : ℕ) (hs : List ℕ)
    → a ≤ 12
    → FollowOn a hs
    → resolve_hours false none (map published (a ∷ hs)) ≡ a ∷ hs
unfolding resolve_hours
resolve_hours-published a hs start h =
    let morning : ltb 12 a ≡ false = ground arith in
    ap₂ (λ x xs. x ∷ xs) (ground arith)
      (subst (λ b. resolve_hours b (some (published a)) (map published hs) ≡ hs) morning
        (resolve_published a hs h))
