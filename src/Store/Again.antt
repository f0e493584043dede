-- ===== src/Store/Again.antt =====
-- Seeing the same Classroom item again: `upsert_task_from_source` of ragra/db/repo.py.
use ragra_reminder.Prelude.{
  fetch_updated, fetch_inserted, fetch_passes, ℕ, ◌≡◌, refl, sym, ap, ◌∙◌, Bool, true, Option, none,
  some, List, [], ◌∷◌, arith, ==_refl, text_eq_refl, text_option_eq_iff, Bool-cases, inl, inr,
  select, fetchone, is_some,
}
use ragra_reminder.Store.Rows.{Task}
use ragra_reminder.Store.State.{Db}
use ragra_reminder.Store.History.{record_history, is_task}
use ragra_reminder.Store.Upsert.{
  SourceItem, TaskUpsertResult, Tracked, tracked_fields, is_source_task, get_task_by_source,
  new_task, insert_source_task, record_changes, reconciled, reconcile_task, is_unchanged_source,
  unchanged_result, upsert_over, upsert_task_from_source,
}

module _ (u course_id : ℕ) (item : SourceItem) where
  abbrev found_by : Task → Bool
  found_by t = is_source_task u course_id item.source_type item.external_id t

  record_changes_tasks :
      (task_id clock : ℕ) (fs : List Tracked) (db : Db)
      → (record_changes u task_id clock fs db).tasks ≡ db.tasks
  unfolding record_changes record_history
  record_changes_tasks task_id clock [] db = refl
  record_changes_tasks task_id clock (f ∷ fs) db = elim (Bool-cases f.differs) [
    | inl differs ↦ rw differs (record_changes_tasks task_id clock fs _)
    | inr same ↦ rw same (record_changes_tasks task_id clock fs db)
  ]

  -- The upsert leaves a row that carries the item's update time, under the id that it returned.
  abbrev Left : TaskUpsertResult × Db → Type 0
  Left state =
      (t : Task) × (fetchone (select found_by state.1.tasks) ≡ some t)
      × (t.id ≡ state.0.task_id)
      × (t.source_updated_at ≡ item.source_updated_at)

  inserted-Left :
      (clock : ℕ) (db : Db)
      → fetchone (select found_by db.tasks) ≡ none
      → Left (insert_source_task u course_id item clock db)
  unfolding insert_source_task record_history
  inserted-Left clock db h = (
    new_task db.next_task u course_id item clock,
    fetch_inserted found_by db.tasks (new_task db.next_task u course_id item clock) h
        (ground (arith, text_eq_refl item.external_id, ==_refl u, ==_refl course_id)),
    refl,
    refl,
  )

  reconciled-Left :
      (clock : ℕ) (existing : Task) (db : Db)
      → existing.user_id ≡ u
      → fetchone (select found_by db.tasks) ≡ some existing
      → Left (reconcile_task u existing item clock db)
  unfolding reconcile_task
  reconciled-Left clock existing db own h = (
    reconciled item clock existing,
    rw (record_changes_tasks existing.id clock (tracked_fields existing item) db) (
        fetch_updated found_by (is_task u existing.id) (reconciled item clock) (λ t. refl) db.tasks
          existing (ground (arith, own, ==_refl existing.id)) h),
    refl,
    refl,
  )

  upsert-Left :
      (clock : ℕ) (row : Option Task) (db : Db)
      → fetchone (select found_by db.tasks) ≡ row
      → Left (upsert_over u course_id item clock row db)
  unfolding upsert_over
  upsert-Left clock none db h = inserted-Left clock db h
  upsert-Left clock (some existing) db h = elim (Bool-cases (is_unchanged_source item existing)) [
    | inl same ↦ rw same (
      existing,
      h,
      refl,
      sym ((text_option_eq_iff item.source_updated_at existing.source_updated_at).0 (ground arith)),
    )
    | inr differs ↦ rw differs (
        reconciled-Left clock existing db
          (same_owner existing (fetch_passes found_by db.tasks existing h)) h)
  ]
    where
      same_owner : (t : Task) → found_by t ≡ true → t.user_id ≡ u
      same_owner t k = ground arith

  unchanged_over :
      (clock : ℕ) (row : Option Task) (t : Task) (db : Db)
      → row ≡ some t
      → is_unchanged_source item t ≡ true
      → upsert_over u course_id item clock row db ≡ (unchanged_result t.id, db)
  unfolding upsert_over
  unchanged_over clock row t db e same =
      ap (λ r. upsert_over u course_id item clock r db) e ∙ rw same refl

-- Seeing an item with an update time again, at any later time, changes nothing: the second upsert
-- finds the task that the first one left, reports no change and leaves the store as it is.
pub upsert_task_from_source_again :
    (u course_id : ℕ) (item : SourceItem) (clock later : ℕ) (db : Db)
    → is_some item.source_updated_at ≡ true
    → let (result, after) = upsert_task_from_source u course_id item clock db in
      upsert_task_from_source u course_id item later after
      ≡ (unchanged_result result.task_id, after)
unfolding upsert_task_from_source get_task_by_source
upsert_task_from_source_again u course_id item clock later db dated =
    let row = fetchone (select (found_by u course_id item) db.tasks) in
    let left = upsert-Left u course_id item clock row db refl in
    let (result, after) = upsert_over u course_id item clock row db in
    unchanged_over u course_id item later _ left.0 after left.1 (
      ground (
        arith,
        left.3,
        dated,
        (text_option_eq_iff item.source_updated_at left.0.source_updated_at).1 (sym left.3),
      ))
    ∙ ap (λ id. (unchanged_result id, after)) left.2
