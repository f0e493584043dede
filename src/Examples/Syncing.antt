-- ===== src/Examples/Syncing.antt =====
-- A Classroom account with one course and one new item, and the theorems of the sync at it.
use ragra_reminder.Prelude.{◌≡◌, refl, ◌+◌, ◌*◌, none, some, [], ◌∷◌, codes, All, arith}
use ragra_reminder.Engine.{day, hour}
use ragra_reminder.Store.Boundary.{IsKeyedById, classroom_tasks, stored, cancel_task_boundary}
use ragra_reminder.Store.Manual.{cancel_task}
use ragra_reminder.Store.Overdue.{IsOverdue, mark_overdue_tasks_as_missed_complete}
use ragra_reminder.Store.Tasks.{mark_overdue_tasks_as_missed}
use ragra_reminder.Store.Again.{upsert_task_from_source_again}
use ragra_reminder.Store.Upsert.{unchanged_result, upsert_task_from_source}
use ragra_reminder.Store.Steps.{Evolves}
use ragra_reminder.Store.Steps.Keys.{IsUnique, settled}
use ragra_reminder.Store.Tenant.{SameFor}
use ragra_reminder.Sync.Types.{
  ClassroomCourse, ClassroomItem, answered, raised, Client, Decision, Environment,
}
use ragra_reminder.Sync.{sync_classroom}
use ragra_reminder.Sync.Isolation.{sync_classroom-SameFor}
use ragra_reminder.Sync.Reminders.{
  sync_classroom-Evolves, sync_classroom-IsUnique, settled-sync_classroom,
}
use ragra_reminder.Sync.Stray.{IsTidy, sync_classroom-IsTidy}
use ragra_reminder.Sync.Whole.{sync_classroom_complete}
use ragra_reminder.Examples.{now, item, sample}

abbrev classroom_course : ClassroomCourse
classroom_course = record {
  id = codes "c1";
  name = some (codes "Logic");
  section = none;
  course_state = none;
}

abbrev classroom_item : ClassroomItem
classroom_item = record {
  id = codes "w2";
  title = some (codes "Sheet 2");
  text = none;
  description = none;
  alternate_link = none;
  creation_time = none;
  update_time = some (codes "v1");
  due_date = some (record { year = some 1; month = some 4; day_of_month = some 20 });
  due_time = none;
}

abbrev env : Environment
env = record {
  profile = answered (λ title description course. answered Decision.unknown);
  repr = λ t. t;
  from_iso = λ t. some now;
}

abbrev client : Client
client = record {
  list_courses = answered (classroom_course ∷ []);
  list_course_work = λ id. answered (classroom_item ∷ []);
  list_announcements = λ id. raised (codes "forbidden");
  list_course_materials = λ id. answered [];
}

sync_classroom-SameFor_example : SameFor 2 sample (sync_classroom env client 1 now sample).1
sync_classroom-SameFor_example = sync_classroom-SameFor 1 2 (ground arith) env client now sample

sync_classroom-Evolves_example :
    Evolves 1 sample.reminders (sync_classroom env client 1 now sample).1.reminders
sync_classroom-Evolves_example = sync_classroom-Evolves 1 env client now sample

sample-IsUnique : IsUnique 1 sample.reminders
sample-IsUnique k = ground arith

sync_classroom-IsUnique_example : IsUnique 1 (sync_classroom env client 1 now sample).1.reminders
sync_classroom-IsUnique_example = sync_classroom-IsUnique 1 env client now sample sample-IsUnique

settled-sync_classroom_example :
    settled (sync_classroom env client 1 now sample).1.reminders ≡ settled sample.reminders
settled-sync_classroom_example = settled-sync_classroom 1 env client now sample

sync_classroom-IsTidy_example : IsTidy 1 (sync_classroom env client 1 now sample).1
sync_classroom-IsTidy_example =
    sync_classroom-IsTidy 1 env client now sample (classroom_course ∷ []) refl

sync_classroom_complete_example :
    (sync_classroom env client 1 now sample).0.missing_discovery_notification ≡ []
sync_classroom_complete_example = sync_classroom_complete 1 env client now sample (ground arith)

mark_overdue_tasks_as_missed_complete_example :
    All
      (λ t. ¬ IsOverdue 1 (now + 20 * day) t)
      (mark_overdue_tasks_as_missed 1 (now + 20 * day) now sample).1.tasks
mark_overdue_tasks_as_missed_complete_example =
    mark_overdue_tasks_as_missed_complete 1 (now + 20 * day) now sample

upsert_task_from_source_again_example :
    upsert_task_from_source 1 1 item (now + hour) (upsert_task_from_source 1 1 item now sample).1
    ≡ (
      unchanged_result (upsert_task_from_source 1 1 item now sample).0.task_id,
      (upsert_task_from_source 1 1 item now sample).1,
    )
upsert_task_from_source_again_example =
    upsert_task_from_source_again 1 1 item now (now + hour) sample refl

sample-IsKeyedById : IsKeyedById sample.tasks
sample-IsKeyedById k = ground arith

cancel_task_boundary_example :
    classroom_tasks (stored (cancel_task 1 1 now sample) sample).tasks
    ≡ classroom_tasks sample.tasks
cancel_task_boundary_example = cancel_task_boundary 1 1 now sample sample-IsKeyedById
