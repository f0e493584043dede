-- ===== src/Calendar/Settled.antt =====
-- Tasks that should have no event, in one turn of ragra/sync/calendar_sync.py.
use ragra_reminder.Prelude.{
  ℕ, ◌≡◌, refl, ◌≢◌, ◌∙◌, sym, ap, subst, Bool, false, Option, none, some, List, [], ◌∷◌, ◌++◌,
  Text, arith, exists_row, delete_where, update_where, fetch_absent, inl, inr, Bool-cases,
}
use ragra_reminder.Store.{Db, CalendarEvent}
use ragra_reminder.Store.Events.{
  get_calendar_event, record_calendar_event, delete_calendar_event_record, is_event_of,
  has_event_id, refreshed_event, new_event,
}
use ragra_reminder.Calendar.Types.{Reply, replied, refused, CalendarService, delete_event}
use ragra_reminder.Calendar.{
  TaskRow, returned, EventOutcome, reconcile_event, sync_row, sync_task_event, task_with_course,
  event_deadline, after_delete,
}
use ragra_reminder.Calendar.Outcome.{Turn, untouched, dropped, recorded, sync_row-Turn}

-- A task that should have no event has none.
abbrev pub IsSettled : ℕ → Text → ℕ → Db → Type 0
IsSettled u kind k db =
    (row : TaskRow)
    → task_with_course u k db ≡ some row
    → event_deadline row.task ≡ none
    → exists_row (is_event_of u k kind) db.calendar_events ≡ false

module _ {A : Type 0} (p : A → Bool) where
  exists_row_deleted : (l : List A) → exists_row p (delete_where p l) ≡ false
  exists_row_deleted [] = refl
  exists_row_deleted (x ∷ xs) = elim (Bool-cases (p x)) [
    | inl hit ↦ ground (arith, exists_row_deleted xs)
    | inr miss ↦ ground (arith, exists_row_deleted xs)
  ]

  exists_row_fewer :
      (q : A → Bool) (l : List A) → exists_row p l ≡ false → exists_row p (delete_where q l) ≡ false
  exists_row_fewer q [] h = refl
  exists_row_fewer q (x ∷ xs) h = ground (arith, exists_row_fewer q xs (ground arith))

  exists_row_added :
      (l : List A) (x : A)
      → exists_row p l ≡ false
      → p x ≡ false
      → exists_row p (l ++ x ∷ []) ≡ false
  exists_row_added [] x h k = ground arith
  exists_row_added (y ∷ ys) x h k = ground (arith, exists_row_added ys x (ground arith) k)

  pub exists_row_updated :
      (q : A → Bool) (f : A → A)
      → ((x : A) → p (f x) ≡ p x)
      → (l : List A) → exists_row p (update_where q f l) ≡ exists_row p l
  exists_row_updated q f same [] = refl
  exists_row_updated q f same (x ∷ xs) = ground (arith, same x, exists_row_updated q f same xs)

-- The turn of another task adds no record of this one.
pub turn_elsewhere :
    (u k j : ℕ) (kind kind' : Text) (clock : ℕ) (db after : Db)
    → k ≢ j
    → Turn u j kind' clock db after
    → IsSettled u kind k db
    → IsSettled u kind k after
unfolding record_calendar_event delete_calendar_event_record task_with_course
turn_elsewhere u k j kind kind' clock db _ other untouched h = h
turn_elsewhere u k j kind kind' clock db _ other dropped h = λ row e f.
    exists_row_fewer (is_event_of u k kind) (is_event_of u j kind') db.calendar_events (h row e f)
turn_elsewhere u k j kind kind' clock db _ other (recorded event_id) h = λ row e f.
    elim (Bool-cases (exists_row (has_event_id u event_id) db.calendar_events)) [
      | inl taken ↦ rw taken (
          exists_row_updated (is_event_of u k kind) (has_event_id u event_id)
            (refreshed_event clock) (λ x. refl) db.calendar_events
          ∙ h row e f)
      | inr free ↦ rw free (
          exists_row_added (is_event_of u k kind) db.calendar_events
            (new_event u j kind' event_id clock) (h row e f) (ground arith))
    ]

-- A turn leaves the tasks and their courses.
pub turn_row :
    (u k j : ℕ) (kind : Text) (clock : ℕ) (db after : Db)
    → Turn u j kind clock db after
    → task_with_course u k after ≡ task_with_course u k db
unfolding record_calendar_event delete_calendar_event_record task_with_course
turn_row u k j kind clock db _ untouched = refl
turn_row u k j kind clock db _ dropped = refl
turn_row u k j kind clock db _ (recorded event_id) = refl

module _ {W : Type 0} (service : CalendarService W) (u : ℕ) (calendar_id : Text) where
  dropped_all :
      (k : ℕ) (kind : Text) (db : Db) (r : Reply Unit) (o : EventOutcome)
      → (after_delete u k kind db r).0 ≡ returned o
      → exists_row (is_event_of u k kind) (after_delete u k kind db r).1.calendar_events ≡ false
  unfolding delete_calendar_event_record
  dropped_all k kind db (replied x) o h =
      exists_row_deleted (is_event_of u k kind) db.calendar_events
  dropped_all k kind db (refused s t) o h = ground arith

  reconciled :
      (k : ℕ) (kind : Text) (clock : ℕ) (row : TaskRow) (existing : Option CalendarEvent) (db : Db)
      (w : W) (o : EventOutcome)
      → get_calendar_event u k kind db ≡ existing
      → (reconcile_event service u calendar_id k kind clock row none existing db w).0 ≡ returned o
      → exists_row
          (is_event_of u k kind)
          (reconcile_event service u calendar_id k kind clock row none existing db
            w).1.calendar_events
        ≡ false
  unfolding reconcile_event get_calendar_event
  reconciled k kind clock row none db w o e h =
      fetch_absent (is_event_of u k kind) db.calendar_events e
  reconciled k kind clock row (some x) db w o e h =
      dropped_all k kind db (delete_event service calendar_id x.google_event_id w).0 o h

  sync_row-IsSettled :
      (k : ℕ) (kind : Text) (clock : ℕ) (db : Db) (w : W) (o : EventOutcome) (row : Option TaskRow)
      → task_with_course u k db ≡ row
      → (sync_row service u calendar_id k kind clock row db w).0 ≡ returned o
      → IsSettled u kind k (sync_row service u calendar_id k kind clock row db w).1
  unfolding sync_row
  sync_row-IsSettled k kind clock db w o none e h = λ r f g. ground (arith, e, f)
  sync_row-IsSettled k kind clock db w o (some row) e h = λ row' f g.
      let same =
        turn_row u k k kind clock db _
          (sync_row-Turn service u calendar_id k kind clock (some row) db w) in
      let is_row : some row ≡ some row' = sym e ∙ sym same ∙ f in
      let is_row' : row ≡ row' = ground arith in
      let closed : event_deadline row.task ≡ none = ap (λ r. event_deadline r.task) is_row' ∙ g in
      let result = λ (d : Option ℕ).
        reconcile_event service u calendar_id k kind clock row d (get_calendar_event u k kind db) db
          w in
      subst
        (λ d.
          (result d).0 ≡ returned o
          → exists_row (is_event_of u k kind) (result d).1.calendar_events ≡ false)
        (sym closed) (reconciled k kind clock row (get_calendar_event u k kind db) db w o refl) h

  pub sync_task_event-IsSettled :
      (k : ℕ) (kind : Text) (clock : ℕ) (db : Db) (w : W) (o : EventOutcome)
      → (sync_task_event service u calendar_id k kind clock db w).0 ≡ returned o
      → IsSettled u kind k (sync_task_event service u calendar_id k kind clock db w).1
  unfolding sync_task_event
  sync_task_event-IsSettled k kind clock db w o h =
      sync_row-IsSettled k kind clock db w o (task_with_course u k db) refl h
