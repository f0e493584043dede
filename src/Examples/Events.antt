-- ===== src/Examples/Events.antt =====
-- A calendar that numbers its events, and the theorems of the calendar sync at it.
use ragra_reminder.Prelude.{
  ℕ, suc, ◌≡◌, refl, ◌+◌, [], ◌∷◌, Text, codes, arith, length, map, text_eq,
}
use ragra_reminder.Engine.{hour}
use ragra_reminder.Store.{Db, Task, completed}
use ragra_reminder.Store.Events.{get_calendar_event, new_event}
use ragra_reminder.Store.Tenant.{SameFor}
use ragra_reminder.Calendar.Types.{CalendarService, replied, create_event, delete_event}
use ragra_reminder.Calendar.{
  EventOutcome, EventCounts, returned, task_with_course, ids_to_sync, sync_task_event, sync_row,
  reconcile_event, sync_ids, sync_all_task_events, event_kind_actual_deadline,
}
use ragra_reminder.Calendar.Again.{sync_task_event_again}
use ragra_reminder.Calendar.Isolation.{sync_all_task_events-SameFor}
use ragra_reminder.Calendar.Whole.{
  IsClear, sync_all_task_events-IsClear, sum, sync_all_task_events_counts,
}
use ragra_reminder.Examples.{now, sample}

abbrev service : CalendarService ℕ
service = record {
  insert = λ calendar_id body n. (replied (n ∷ []), suc n);
  update = λ calendar_id event_id body n. (replied tt, n);
  delete = λ calendar_id event_id n. (replied tt, n);
}

abbrev work : Text
work = codes "primary"

abbrev kind : Text
kind = event_kind_actual_deadline

first_run : (sync_task_event service 1 work 1 kind now sample 5).0 ≡ returned EventOutcome.created
unfolding sync_task_event sync_row reconcile_event task_with_course get_calendar_event create_event
first_run = refl

sync_task_event_again_example : ¬ (
    (sync_task_event service 1 work 1 kind
      (now + hour)
      (sync_task_event service 1 work 1 kind now sample 5).1
      9).0
    ≡ returned EventOutcome.created)
sync_task_event_again_example =
    sync_task_event_again service 1 work 1 kind now (now + hour) sample 5 9 EventOutcome.created
      (λ body event_id e. refl) first_run

sync_all_task_events-SameFor_example :
    SameFor 2 sample (sync_all_task_events service 1 work now sample 5).1
sync_all_task_events-SameFor_example =
    sync_all_task_events-SameFor 1 2 (ground arith) service work now sample 5

-- The task is done, and its event is still in the calendar.
abbrev done_task : Task → Task
done_task t = record t { status = completed }

abbrev over : Db
over = record sample {
  tasks = map done_task sample.tasks;
  calendar_events = new_event 1 1 kind (4 ∷ []) now ∷ [];
}

abbrev one_removed : EventCounts
one_removed = record { created = 0; updated = 0; removed = 1; skipped = 0 }

full_run : (sync_all_task_events service 1 work now over 5).0 ≡ returned one_removed
unfolding sync_all_task_events sync_ids ids_to_sync sync_task_event sync_row reconcile_event
    task_with_course get_calendar_event delete_event text_eq
full_run = refl

sync_all_task_events-IsClear_example :
    IsClear 1 kind 1 (sync_all_task_events service 1 work now over 5).1
sync_all_task_events-IsClear_example =
    sync_all_task_events-IsClear service 1 work now over 5 one_removed full_run 1

sync_all_task_events_counts_example : sum one_removed ≡ length (ids_to_sync 1 over)
sync_all_task_events_counts_example =
    sync_all_task_events_counts service 1 work now over 5 one_removed full_run
