-- ===== src/Calendar/Isolation.antt =====
-- What other users see of a calendar sync (ragra/sync/calendar_sync.py).
use ragra_reminder.Prelude.{
  ℕ, ◌≢◌, refl, List, [], ◌∷◌, Text, arith, exists_row, Bool-cases, inl, inr,
}
use ragra_reminder.Store.{Db}
use ragra_reminder.Store.Tenant.{SameFor, SameFor-refl, SameFor-trans}
use ragra_reminder.Store.Tenant.Tables.{
  SameFor-calendar, unseen_update, unseen_delete, unseen_insert,
}
use ragra_reminder.Store.Events.{
  record_calendar_event, delete_calendar_event_record, is_event_of, has_event_id, refreshed_event,
  new_event,
}
use ragra_reminder.Calendar.Types.{CalendarService}
use ragra_reminder.Calendar.{
  Attempt, returned, raised, EventOutcome, EventCounts, sync_task_event, sync_ids, and_then,
  sync_all_task_events, ids_to_sync, no_events, count_event, event_kind_actual_deadline,
}
use ragra_reminder.Calendar.Outcome.{Turn, untouched, dropped, recorded, sync_task_event-Turn}

module _ (u v : ℕ) (other : u ≢ v) where
  turn-SameFor :
      (k : ℕ) (kind : Text) (clock : ℕ) (db after : Db)
      → Turn u k kind clock db after
      → SameFor v db after
  unfolding record_calendar_event delete_calendar_event_record
  turn-SameFor k kind clock db _ untouched = SameFor-refl v db
  turn-SameFor k kind clock db _ dropped = SameFor-calendar v db _ (
      unseen_delete (λ r. r.user_id) u v other (is_event_of u k kind) (λ r h. ground arith)
        db.calendar_events)
  turn-SameFor k kind clock db _ (recorded event_id) =
      elim (Bool-cases (exists_row (has_event_id u event_id) db.calendar_events)) [
        | inl taken ↦ rw taken (
            SameFor-calendar v db _ (
              unseen_update (λ r. r.user_id) u v other (has_event_id u event_id)
                (refreshed_event clock) (λ r h. ground arith) db.calendar_events))
        | inr free ↦ rw free (
            SameFor-calendar v db _ (
              unseen_insert (λ r. r.user_id) u v other db.calendar_events
                (new_event u k kind event_id clock) refl))
      ]

  module _ {W : Type 0} (service : CalendarService W) (calendar_id : Text) (clock : ℕ) where
    sync_ids-SameFor :
        (ids : List ℕ) (counts : EventCounts) (db : Db) (w : W)
        → SameFor v db (sync_ids service u calendar_id clock ids counts db w).1
    unfolding sync_ids
    sync_ids-SameFor [] counts db w = SameFor-refl v db
    sync_ids-SameFor (id ∷ ids) counts db w =
        let turn = sync_task_event service u calendar_id id event_kind_actual_deadline clock db w in
        SameFor-trans v db turn.1 _
          (turn-SameFor id event_kind_actual_deadline clock db turn.1
            (sync_task_event-Turn service u calendar_id id event_kind_actual_deadline clock db w))
          (next turn.0 turn.1 turn.2
            (λ o after x. sync_ids-SameFor ids (count_event o counts) after x))
      where
        next :
            (a : Attempt EventOutcome) (after : Db) (x : W)
            → ((o : EventOutcome) (after : Db) (x : W)
                → SameFor v after
                    (sync_ids service u calendar_id clock ids (count_event o counts) after x).1)
            → SameFor v after
                (and_then
                  (λ o d y. sync_ids service u calendar_id clock ids (count_event o counts) d y)
                  a
                  after
                  x).1
        next (returned o) after x f = f o after x
        next (raised e) after x f = SameFor-refl v after

    -- Whatever Google answers, failures included, a calendar sync for one user leaves every row of
    -- every other user as it was.
    pub sync_all_task_events-SameFor :
        (db : Db) (w : W) → SameFor v db (sync_all_task_events service u calendar_id clock db w).1
    unfolding sync_all_task_events
    sync_all_task_events-SameFor db w = sync_ids-SameFor (ids_to_sync u db) no_events db w
