-- ===== src/Calendar/Again.antt =====
-- Running `sync_task_event` of ragra/sync/calendar_sync.py a second time for the same task.
use ragra_reminder.Prelude.{
  ℕ, ◌≡◌, refl, ◌∙◌, sym, subst, true, false, Option, none, some, [], ◌∷◌, Text, arith, exists_row,
  fetch_absent, fetch_present, exists_row-append, text_eq_refl, inl, inr, Bool-cases, Option-cases,
  ◌⊎◌,
}
use ragra_reminder.Store.{Db, CalendarEvent}
use ragra_reminder.Store.Events.{
  get_calendar_event, record_calendar_event, is_event_of, has_event_id, refreshed_event, new_event,
}
use ragra_reminder.Calendar.Types.{
  EventBody, Reply, replied, refused, CalendarService, create_event, update_event, delete_event,
}
use ragra_reminder.Calendar.{
  TaskRow, Attempt, returned, EventOutcome, reconcile_event, sync_row, sync_task_event,
  task_with_course, event_deadline, event_body, after_delete, after_create, after_update,
}
use ragra_reminder.Calendar.Outcome.{sync_task_event-Turn}
use ragra_reminder.Calendar.Settled.{exists_row_updated, turn_row}

abbrev HasEvent : ℕ → ℕ → Text → Db → Type 0
HasEvent u k kind db = exists_row (is_event_of u k kind) db.calendar_events ≡ true

-- The service gives a new event an id that no stored event of the user has.
abbrev pub IsFresh : {W : Type 0} → CalendarService W → ℕ → Text → Db → W → Type 0
IsFresh service u calendar_id db w =
    (body : EventBody) (event_id : Text)
    → (create_event service calendar_id body w).0 ≡ replied event_id
    → exists_row (has_event_id u event_id) db.calendar_events ≡ false

created_event :
    (u k : ℕ) (kind event_id : Text) (clock : ℕ) (db : Db)
    → exists_row (has_event_id u event_id) db.calendar_events ≡ false
    → HasEvent u k kind (record_calendar_event u k kind event_id clock db)
unfolding record_calendar_event
created_event u k kind event_id clock db h = rw h (
    exists_row-append (is_event_of u k kind) db.calendar_events
      (new_event u k kind event_id clock ∷ [])
    ∙ ground (arith, text_eq_refl kind))

updated_event :
    (u k : ℕ) (kind event_id : Text) (clock : ℕ) (db : Db)
    → HasEvent u k kind db
    → HasEvent u k kind (record_calendar_event u k kind event_id clock db)
unfolding record_calendar_event
updated_event u k kind event_id clock db h =
    elim (Bool-cases (exists_row (has_event_id u event_id) db.calendar_events)) [
      | inl taken ↦ rw taken (
          exists_row_updated (is_event_of u k kind) (has_event_id u event_id)
            (refreshed_event clock) (λ x. refl) db.calendar_events
          ∙ h)
      | inr free ↦ created_event u k kind event_id clock db free
    ]

module _ {W : Type 0} (service : CalendarService W) (u : ℕ) (calendar_id : Text) where
  created_present :
      (k : ℕ) (kind : Text) (clock : ℕ) (db : Db) (o : EventOutcome) (r : Reply Text)
      → ((event_id : Text)
          → r ≡ replied event_id
          → exists_row (has_event_id u event_id) db.calendar_events ≡ false)
      → (after_create u k kind clock db r).0 ≡ returned o
      → HasEvent u k kind (after_create u k kind clock db r).1
  created_present k kind clock db o (replied x) fresh h =
      created_event u k kind x clock db (fresh x refl)
  created_present k kind clock db o (refused s t) fresh h = ground arith

  updated_present :
      (k : ℕ) (kind event_id : Text) (clock : ℕ) (db : Db) (o : EventOutcome) (r : Reply Unit)
      → HasEvent u k kind db
      → (after_update u k kind event_id clock db r).0 ≡ returned o
      → HasEvent u k kind (after_update u k kind event_id clock db r).1
  updated_present k kind event_id clock db o (replied x) has h =
      updated_event u k kind event_id clock db has
  updated_present k kind event_id clock db o (refused s t) has h = ground arith

  -- A task with a deadline to show has a stored event after its turn.
  reconciled_present :
      (k : ℕ) (kind : Text) (clock : ℕ) (row : TaskRow) (d : ℕ) (existing : Option CalendarEvent)
      (db : Db) (w : W) (o : EventOutcome)
      → get_calendar_event u k kind db ≡ existing
      → IsFresh service u calendar_id db w
      → (reconcile_event service u calendar_id k kind clock row (some d) existing db w).0
        ≡ returned o
      → HasEvent u k kind
          (reconcile_event service u calendar_id k kind clock row (some d) existing db w).1
  unfolding reconcile_event get_calendar_event
  reconciled_present k kind clock row d none db w o e fresh h =
      created_present k kind clock db o (create_event service calendar_id (event_body row d) w).0
        (fresh (event_body row d)) h
  reconciled_present k kind clock row d (some x) db w o e fresh h =
      updated_present k kind x.google_event_id clock db o
        (update_event service calendar_id x.google_event_id (event_body row d) w).0
        (fetch_present (is_event_of u k kind) db.calendar_events x e) h

  abbrev IsNotCreated : Attempt EventOutcome → Type 0
  IsNotCreated a = ¬ (a ≡ returned EventOutcome.created)

  no_creation :
      (k : ℕ) (kind : Text) (clock : ℕ) (row : TaskRow) (deadline : Option ℕ)
      (existing : Option CalendarEvent) (db : Db) (w : W)
      → (deadline ≡ none) ⊎ ((x : CalendarEvent) × (existing ≡ some x))
      → IsNotCreated
          (reconcile_event service u calendar_id k kind clock row deadline existing db w).0
  unfolding reconcile_event
  no_creation k kind clock row none none db w h = λ e. ground arith
  no_creation k kind clock row none (some x) db w h =
      deletion (delete_event service calendar_id x.google_event_id w).0
    where
      deletion :
          (r : Reply Unit) → ¬ ((after_delete u k kind db r).0 ≡ returned EventOutcome.created)
      deletion (replied y) = λ e. ground arith
      deletion (refused s t) = λ e. ground arith
  no_creation k kind clock row (some d) none db w (inl h) = λ e. ground arith
  no_creation k kind clock row (some d) none db w (inr h) = λ e. ground (arith, h.1)
  no_creation k kind clock row (some d) (some x) db w h =
      update (update_event service calendar_id x.google_event_id (event_body row d) w).0
    where
      update :
          (r : Reply Unit)
          → ¬ (
              (after_update u k kind x.google_event_id clock db r).0
              ≡ returned EventOutcome.created)
      update (replied y) = λ e. ground arith
      update (refused s t) = λ e. ground arith

  found_event :
      (k : ℕ) (kind : Text) (db : Db)
      → HasEvent u k kind db
      → (x : CalendarEvent) × (get_calendar_event u k kind db ≡ some x)
  unfolding get_calendar_event
  found_event k kind db h = elim (Option-cases (get_calendar_event u k kind db)) [
    | inl nothing ↦ ground (arith, fetch_absent (is_event_of u k kind) db.calendar_events nothing)
    | inr found ↦ found
  ]

  again_row :
      (k : ℕ) (kind : Text) (clock later : ℕ) (row : Option TaskRow) (db : Db) (w w' : W)
      (o : EventOutcome)
      → IsFresh service u calendar_id db w
      → (sync_row service u calendar_id k kind clock row db w).0 ≡ returned o
      → IsNotCreated
          (sync_row service u calendar_id k kind later row
            (sync_row service u calendar_id k kind clock row db w).1
            w').0
  unfolding sync_row
  again_row k kind clock later none db w w' o fresh h = λ e. ground arith
  again_row k kind clock later (some row) db w w' o fresh h =
      no_creation k kind later row (event_deadline row.task) (get_calendar_event u k kind after)
        after w'
        (elim (Option-cases (event_deadline row.task)) [
          | inl closed ↦ inl closed
          | inr wanted ↦
              let turn = λ (d : Option ℕ).
                reconcile_event service u calendar_id k kind clock row d
                  (get_calendar_event u k kind db) db w in
              let present : HasEvent u k kind after =
                subst (λ d. (turn d).0 ≡ returned o → HasEvent u k kind (turn d).1) (sym wanted.1)
                  (reconciled_present k kind clock row wanted.0 (get_calendar_event u k kind db) db
                    w o refl fresh)
                  h in
              inr (found_event k kind after present)
        ])
    where
      after : Db
      after = (sync_row service u calendar_id k kind clock (some row) db w).1

  -- If the ids that the calendar gives to new events are new to the store, then whatever the first run
  -- for a task returned, a second run for the same task does not report a created event.
  pub sync_task_event_again :
      (k : ℕ) (kind : Text) (clock later : ℕ) (db : Db) (w w' : W) (o : EventOutcome)
      → IsFresh service u calendar_id db w
      → (sync_task_event service u calendar_id k kind clock db w).0 ≡ returned o
      → ¬ (
          (sync_task_event service u calendar_id k kind later
            (sync_task_event service u calendar_id k kind clock db w).1
            w').0
          ≡ returned EventOutcome.created)
  unfolding sync_task_event
  sync_task_event_again k kind clock later db w w' o fresh h =
      let after = (sync_task_event service u calendar_id k kind clock db w).1 in
      let same =
        turn_row u k k kind clock db after
          (sync_task_event-Turn service u calendar_id k kind clock db w) in
      subst
        (λ row. ¬ (
          (sync_row service u calendar_id k kind later row after w').0
          ≡ returned EventOutcome.created))
        (sym same) (again_row k kind clock later (task_with_course u k db) db w w' o fresh h)
