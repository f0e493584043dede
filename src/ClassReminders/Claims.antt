-- ===== src/ClassReminders/Claims.antt =====
-- `schedule_class_reminders` of ragra/reminders/class_reminders.py: the claims of the next classes.
use ragra_reminder.Prelude.{
  ℕ, ◌≡◌, refl, sym, ap, ◌∙◌, subst, ◌+◌, Bool, true, ◌⊎◌, Option, List, [], ◌∷◌, ◌++◌, Text, arith,
  All, exists_row, exists_row-append, inl, inr, Bool-cases, text_eq_refl, ==_refl, map, sort_with,
  select, ◌==◌,
}
use ragra_reminder.Store.{Db, ClassReminder, TimetableEvent}
use ragra_reminder.Store.Classes.{
  insert_class_reminder_if_absent, is_claim_of, new_class_reminder, list_timetable_events,
  earlier_in_week,
}
use ragra_reminder.Zones.{Zone}
use ragra_reminder.Timetable.{
  ClassOccurrence, Expansion, expanded, malformed_time, window_reversed, is_cancelled_class,
  expand_occurrences, weekly_class_from_row,
}
use ragra_reminder.ClassReminders.{
  class_soon_type, claim_one, claim_all, claim_expanded, schedule_class_reminders, lookahead,
}

abbrev claim_of : ℕ → ClassOccurrence → ClassReminder → Bool
claim_of u o = is_claim_of u o.timetable_event_id o.occurrence_date class_soon_type

-- Nothing is left to claim for an occurrence.
abbrev IsClaimed : ℕ → Db → ClassOccurrence → Type 0
IsClaimed u db o =
    (is_cancelled_class o ≡ true) ⊎ (exists_row (claim_of u o) db.class_reminders ≡ true)

module _ (u : ℕ) (clock : ℕ) where
  -- What a step does to the table: nothing, or one more row; the timetable stays.
  data Claiming (db : Db) : Db → Type 0 where
    as_before : Claiming db db
    claimed_row :
        (r : ClassReminder) (n : ℕ)
        → Claiming db
            (record db { class_reminders = db.class_reminders ++ r ∷ []; next_class_reminder = n })

  claim_one-Claiming :
      (o : ClassOccurrence) (claimed : ℕ) (db : Db) → Claiming db (claim_one u clock o claimed db).1
  unfolding insert_class_reminder_if_absent
  claim_one-Claiming o claimed db = elim (Bool-cases (is_cancelled_class o)) [
    | inl off ↦ rw off as_before
    | inr on ↦ elim (Bool-cases (exists_row (claim_of u o) db.class_reminders)) [
      | inl taken ↦ rw on (rw taken as_before)
      | inr free ↦ rw on (rw free (claimed_row _ _))
    ]
  ]

  IsClaimed-persists :
      (o : ClassOccurrence) (db after : Db)
      → Claiming db after
      → IsClaimed u db o
      → IsClaimed u after o
  IsClaimed-persists o db _ as_before h = h
  IsClaimed-persists o db _ (claimed_row r n) (inl off) = inl off
  IsClaimed-persists o db _ (claimed_row r n) (inr taken) =
      inr (ground (arith, exists_row-append (claim_of u o) db.class_reminders (r ∷ []), taken))

  claim_all_persists :
      (os : List ClassOccurrence) (claimed : ℕ) (o : ClassOccurrence) (db : Db)
      → IsClaimed u db o
      → IsClaimed u (claim_all u clock os claimed db).1 o
  unfolding claim_all
  claim_all_persists [] claimed o db h = h
  claim_all_persists (x ∷ xs) claimed o db h =
      let step = claim_one u clock x claimed db in
      claim_all_persists xs step.0 o step.1
        (IsClaimed-persists o db step.1 (claim_one-Claiming x claimed db) h)

  claim_one_done :
      (o : ClassOccurrence) (claimed : ℕ) (db : Db)
      → IsClaimed u (claim_one u clock o claimed db).1 o
  unfolding insert_class_reminder_if_absent
  claim_one_done o claimed db = elim (Bool-cases (is_cancelled_class o)) [
    | inl off ↦ inl off
    | inr on ↦ elim (Bool-cases (exists_row (claim_of u o) db.class_reminders)) [
      | inl taken ↦ rw on (rw taken (inr taken))
      | inr free ↦ rw on (
          rw free (
            inr (
              exists_row-append (claim_of u o) db.class_reminders (
                new_class_reminder db.next_class_reminder u o.timetable_event_id o.occurrence_date
                  class_soon_type o.starts_at_utc clock
                ∷ [])
              ∙ ground (
                arith,
                text_eq_refl class_soon_type,
                ==_refl u,
                ==_refl o.timetable_event_id,
                ==_refl o.occurrence_date,
              ))))
    ]
  ]

  pub claim_all_done :
      (os : List ClassOccurrence) (claimed : ℕ) (db : Db)
      → All (IsClaimed u (claim_all u clock os claimed db).1) os
  unfolding claim_all
  claim_all_done [] claimed db = tt
  claim_all_done (x ∷ xs) claimed db =
      let step = claim_one u clock x claimed db in
      (
        claim_all_persists xs step.0 x step.1 (claim_one_done x claimed db),
        claim_all_done xs step.0 step.1,
      )

  claim_one_idle :
      (o : ClassOccurrence) (claimed : ℕ) (db : Db)
      → IsClaimed u db o
      → claim_one u clock o claimed db ≡ (claimed, db)
  unfolding insert_class_reminder_if_absent
  claim_one_idle o claimed db (inl off) = rw off refl
  claim_one_idle o claimed db (inr taken) = elim (Bool-cases (is_cancelled_class o)) [
    | inl off ↦ rw off refl
    | inr on ↦ rw on (rw taken refl)
  ]

  pub claim_all_idle :
      (os : List ClassOccurrence) (claimed : ℕ) (db : Db)
      → All (IsClaimed u db) os
      → claim_all u clock os claimed db ≡ (claimed, db)
  unfolding claim_all
  claim_all_idle [] claimed db h = refl
  claim_all_idle (x ∷ xs) claimed db h =
      ap (λ s. claim_all u clock xs s.0 s.1) (claim_one_idle x claimed db h.0)
      ∙ claim_all_idle xs claimed db h.1

  claim_all_events :
      (os : List ClassOccurrence) (claimed : ℕ) (db : Db)
      → (claim_all u clock os claimed db).1.timetable_events ≡ db.timetable_events
  unfolding claim_all
  claim_all_events [] claimed db = refl
  claim_all_events (x ∷ xs) claimed db =
      let step = claim_one u clock x claimed db in
      claim_all_events xs step.0 step.1 ∙ step_events db step.1 (claim_one-Claiming x claimed db)
    where
      step_events :
          (db after : Db) → Claiming db after → after.timetable_events ≡ db.timetable_events
      step_events db _ as_before = refl
      step_events db _ (claimed_row r n) = refl

module _ (u clock later n : ℕ) (db after : Db) where
  claimed_again :
      (e : Expansion (List ClassOccurrence))
      → claim_expanded u clock e db ≡ (expanded n, after)
      → claim_expanded u later e after ≡ (expanded 0, after)
  claimed_again (expanded os) h =
      let is_after : (claim_all u clock os 0 db).1 ≡ after = ap (λ r. r.1) h in
      let done = subst (λ d. All (IsClaimed u d) os) is_after (claim_all_done u clock os 0 db) in
      ap (λ r. (expanded r.0, r.1)) (claim_all_idle u later os 0 after done)
  claimed_again malformed_time h = absurd (ground (arith, ap (λ r. r.0) h))
  claimed_again window_reversed h = absurd (ground (arith, ap (λ r. r.0) h))

  same_events :
      (e : Expansion (List ClassOccurrence))
      → claim_expanded u clock e db ≡ (expanded n, after)
      → after.timetable_events ≡ db.timetable_events
  same_events (expanded os) h =
      ap (λ r. r.1.timetable_events) (sym h) ∙ claim_all_events u clock os 0 db
  same_events malformed_time h = ap (λ r. r.1.timetable_events) (sym h)
  same_events window_reversed h = ap (λ r. r.1.timetable_events) (sym h)

  -- A second scheduling of the classes at the same moment claims nothing and changes nothing.
  pub schedule_class_reminders_again :
      (int : Text → Option ℕ) (zone : Zone) (now : ℕ)
      → schedule_class_reminders int zone u now clock db ≡ (expanded n, after)
      → schedule_class_reminders int zone u now later after ≡ (expanded 0, after)
  unfolding schedule_class_reminders list_timetable_events
  schedule_class_reminders_again int zone now h =
      let found = λ (events : List TimetableEvent).
        expand_occurrences int zone
          (map weekly_class_from_row
            (sort_with earlier_in_week (select (λ e. e.user_id == u) events)))
          now (now + lookahead) in
      subst (λ events. claim_expanded u later (found events) after ≡ (expanded 0, after))
        (sym (same_events (found db.timetable_events) h))
        (claimed_again (found db.timetable_events) h)
