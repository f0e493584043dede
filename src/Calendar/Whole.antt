-- ===== src/Calendar/Whole.antt =====
-- The loop over the tasks in `sync_all_task_events` of ragra/sync/calendar_sync.py.
use ragra_reminder.Prelude.{
  ℕ, ◌≡◌, refl, ◌⊎◌, ◌+◌, ap, subst, Bool, false, ◌&&◌, ◌||◌, Option, none, some, List, [], ◌∷◌,
  Text, arith, exists_row, select, ◌==◌, if◌then◌else◌, length, is_some, text_eq, inl, inr,
  Bool-cases,
}
use ragra_reminder.Store.{Db, CalendarEvent, Task, TaskStatus, is_finished}
use ragra_reminder.Store.Events.{is_event_of, id_is}
use ragra_reminder.Calendar.Types.{CalendarService}
use ragra_reminder.Calendar.{
  Attempt, returned, raised, EventOutcome, EventCounts, sync_task_event, sync_ids, and_then,
  sync_all_task_events, ids_to_sync, insert_id, insert_event_tasks, insert_event_task,
  insert_task_ids, with_task, with_deadline, count_event, no_events, event_kind_actual_deadline,
  TaskRow, task_with_course, event_deadline,
}
use ragra_reminder.Calendar.Settled.{IsSettled, turn_elsewhere, sync_task_event-IsSettled}
use ragra_reminder.Calendar.Outcome.{sync_task_event-Turn}

-- The task is completed or cancelled, or has no deadline.
abbrev pub IsEventless : Task → Type 0
IsEventless t =
    (t.status ≡ TaskStatus.completed)
    ⊎ ((t.status ≡ TaskStatus.cancelled) ⊎ (t.actual_deadline ≡ none))

-- If the task is so, it has no stored event.
abbrev pub IsClear : ℕ → Text → ℕ → Db → Type 0
IsClear u kind k db =
    (row : TaskRow)
    → task_with_course u k db ≡ some row
    → IsEventless row.task
    → exists_row (is_event_of u k kind) db.calendar_events ≡ false

event_deadline-IsEventless : (t : Task) → IsEventless t → event_deadline t ≡ none
event_deadline-IsEventless t (inl done) = ground (arith, done)
event_deadline-IsEventless t (inr (inl off)) = ground (arith, off)
event_deadline-IsEventless t (inr (inr free)) = elim (Bool-cases (is_finished t.status)) [
  | inl over ↦ rw over refl
  | inr live ↦ rw live free
]

elem : ℕ → List ℕ → Bool
elem k [] = false
elem k (i ∷ is) = k == i || elem k is

elem-insert_id : (k j : ℕ) (l : List ℕ) → elem k (insert_id j l) ≡ (k == j || elem k l)
unfolding elem
elem-insert_id k j [] = ground arith
elem-insert_id k j (i ∷ is) = ground (arith, elem-insert_id k j is)

listed_one :
    (k : ℕ) (o : Option ℕ) (ids : List ℕ)
    → elem k (insert_event_task o ids) ≡ false
    → (id_is o k ≡ false) × (elem k ids ≡ false)
listed_one k none ids h = (refl, h)
listed_one k (some j) ids h = ground (arith, elem-insert_id k j ids)

unlisted_one :
    (k : ℕ) (own kind : Bool) (o : Option ℕ)
    → (own && is_some o) ≡ false
    → (own && id_is o k && kind) ≡ false
unlisted_one k own kind none h = ground arith
unlisted_one k own kind (some j) h = ground arith

-- Every task with a record is among the ids.
listed :
    (u k : ℕ) (kind : Text) (l : List CalendarEvent) (ids : List ℕ)
    → elem k (insert_event_tasks (select (with_task u) l) ids) ≡ false
    → exists_row (is_event_of u k kind) l ≡ false
listed u k kind [] ids h = refl
listed u k kind (e ∷ es) ids h = elim (Bool-cases (with_task u e)) [
  | inl hit ↦
      let rest = insert_event_tasks (select (with_task u) es) ids in
      let split : elem k (insert_event_task e.task_id rest) ≡ false =
        subst
          (λ b.
            elem k (
              insert_event_tasks
                (if b then e ∷ select (with_task u) es else select (with_task u) es) ids)
            ≡ false)
          hit h in
      let both = listed_one k e.task_id rest split in
      ground (arith, both, listed u k kind es ids both.1)
  | inr miss ↦
      let rest : elem k (insert_event_tasks (select (with_task u) es) ids) ≡ false =
        subst
          (λ b.
            elem k (
              insert_event_tasks
                (if b then e ∷ select (with_task u) es else select (with_task u) es) ids)
            ≡ false)
          miss h in
      ground (
        arith,
        unlisted_one k (e.user_id == u) (text_eq e.kind kind) e.task_id miss,
        listed u k kind es ids rest,
      )
]

abbrev pub sum : EventCounts → ℕ
sum c = c.created + c.updated + c.removed + c.skipped

sum-count_event : (o : EventOutcome) (c : EventCounts) → sum (count_event o c) ≡ sum c + 1
sum-count_event EventOutcome.created c = omega arith
sum-count_event EventOutcome.updated c = omega arith
sum-count_event EventOutcome.removed c = omega arith
sum-count_event EventOutcome.skipped c = omega arith

module _ {W : Type 0} (service : CalendarService W) (u : ℕ) (calendar_id : Text) (clock : ℕ) where
  abbrev turn : ℕ → Db → W → Attempt EventOutcome × Db × W
  turn k db w = sync_task_event service u calendar_id k event_kind_actual_deadline clock db w

  abbrev IsOrderly : Db → List ℕ → Type 0
  IsOrderly db ids = (k : ℕ) → elem k ids ≡ false → IsSettled u event_kind_actual_deadline k db

  after_turn :
      (id : ℕ) (ids : List ℕ) (db : Db) (w : W) (o : EventOutcome)
      → (turn id db w).0 ≡ returned o
      → IsOrderly db (id ∷ ids)
      → IsOrderly (turn id db w).1 ids
  unfolding elem
  after_turn id ids db w o e h k out = elim (Bool-cases (k == id)) [
    | inl same ↦
        let is_id : id ≡ k = ground arith in
        subst (λ j. IsSettled u event_kind_actual_deadline j (turn id db w).1) is_id
          (sync_task_event-IsSettled service u calendar_id id event_kind_actual_deadline clock db w
            o e)
    | inr other ↦
        turn_elsewhere u k id event_kind_actual_deadline event_kind_actual_deadline clock db
          (turn id db w).1 (ground arith)
          (sync_task_event-Turn service u calendar_id id event_kind_actual_deadline clock db w)
          (h k (ground arith))
  ]

  abbrev rest_of : List ℕ → EventCounts → EventOutcome → Db → W → Attempt EventCounts × Db × W
  rest_of ids counts outcome after v =
      sync_ids service u calendar_id clock ids (count_event outcome counts) after v

  sync_ids-IsSettled :
      (ids : List ℕ) (counts total : EventCounts) (db : Db) (w : W)
      → (sync_ids service u calendar_id clock ids counts db w).0 ≡ returned total
      → IsOrderly db ids
      → (k : ℕ)
      → IsSettled u event_kind_actual_deadline k
          (sync_ids service u calendar_id clock ids counts db w).1
  unfolding sync_ids elem
  sync_ids-IsSettled [] counts total db w e h k = h k refl
  sync_ids-IsSettled (id ∷ ids) counts total db w e h k =
      next (turn id db w).0 (turn id db w).1 (turn id db w).2 e
        (λ o is_o. after_turn id ids db w o is_o h)
        (λ o after v e' f. sync_ids-IsSettled ids (count_event o counts) total after v e' f k)
    where
      next :
          (a : Attempt EventOutcome) (after : Db) (v : W)
          → (and_then (rest_of ids counts) a after v).0 ≡ returned total
          → ((o : EventOutcome) → a ≡ returned o → IsOrderly after ids)
          → ((o : EventOutcome) (after : Db) (v : W)
              → (rest_of ids counts o after v).0 ≡ returned total
              → IsOrderly after ids
              → IsSettled u event_kind_actual_deadline k (rest_of ids counts o after v).1)
          → IsSettled u event_kind_actual_deadline k (and_then (rest_of ids counts) a after v).1
      next (returned o) after v e f g = g o after v e (f o refl)
      next (raised error) after v e f g = ground arith

  -- After a calendar sync that ended without an exception, no task of the user that is completed or
  -- cancelled, or that has no deadline, has a stored event any more.
  pub sync_all_task_events-IsClear :
      (db : Db) (w : W) (total : EventCounts)
      → (sync_all_task_events service u calendar_id clock db w).0 ≡ returned total
      → (k : ℕ)
      → IsClear u event_kind_actual_deadline k
          (sync_all_task_events service u calendar_id clock db w).1
  unfolding sync_all_task_events ids_to_sync
  sync_all_task_events-IsClear db w total e k row found over =
      sync_ids-IsSettled (ids_to_sync u db) no_events total db w e
        (λ k out row r f.
          listed u k event_kind_actual_deadline db.calendar_events
            (insert_task_ids (select (with_deadline u) db.tasks) []) out)
        k row found (event_deadline-IsEventless row.task over)

  sync_ids_counts :
      (ids : List ℕ) (counts total : EventCounts) (db : Db) (w : W)
      → (sync_ids service u calendar_id clock ids counts db w).0 ≡ returned total
      → sum total ≡ sum counts + length ids
  unfolding sync_ids
  sync_ids_counts [] counts total db w e =
      let same : counts ≡ total = ground arith in let sums = ap sum same in omega arith
  sync_ids_counts (id ∷ ids) counts total db w e =
      next (turn id db w).0 (turn id db w).1 (turn id db w).2 e (λ o after v e'. omega (
        arith,
        sync_ids_counts ids (count_event o counts) total after v e',
        sum-count_event o counts,
      ))
    where
      next :
          (a : Attempt EventOutcome) (after : Db) (v : W)
          → (and_then (rest_of ids counts) a after v).0 ≡ returned total
          → ((o : EventOutcome) (after : Db) (v : W)
              → (rest_of ids counts o after v).0 ≡ returned total
              → sum total ≡ sum counts + length (id ∷ ids))
          → sum total ≡ sum counts + length (id ∷ ids)
      next (returned o) after v e g = g o after v e
      next (raised error) after v e g = ground arith

  -- A calendar sync that ended without an exception has counted every task of its list once.
  pub sync_all_task_events_counts :
      (db : Db) (w : W) (total : EventCounts)
      → (sync_all_task_events service u calendar_id clock db w).0 ≡ returned total
      → sum total ≡ length (ids_to_sync u db)
  unfolding sync_all_task_events
  sync_all_task_events_counts db w total e =
      omega (arith, sync_ids_counts (ids_to_sync u db) no_events total db w e)
