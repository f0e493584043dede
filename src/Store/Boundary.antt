-- ===== src/Store/Boundary.antt =====
-- The boundary between Classroom's tasks and the user's own, in ragra/db/repo.py.
use ragra_reminder.Prelude.{
  ℕ, ◌≡◌, refl, ap, ◌∙◌, ◌≤◌, Bool, true, false, not, ◌&&◌, Option, none, some, List, [], ◌∷◌,
  arith, ◌==◌, Bool-cases, inl, inr, select, fetchone, update_where, count_where, All,
}
use ragra_reminder.Store.Rows.{Task, source_eq, manual}
use ragra_reminder.Store.State.{Db}
use ragra_reminder.Store.History.{is_task, task_row}
use ragra_reminder.Store.Overdue.{set_status_tasks}
use ragra_reminder.Store.Tasks.{cancel_task_from_source, cancelled_task}
use ragra_reminder.Store.Manual.{
  Result, ok, err, require, require_manual_task, cancel_task, ◌>>◌, no_such_task, not_manual,
}

abbrev pub is_manual : Task → Bool
is_manual t = source_eq t.source_type manual

-- What Classroom owns.
abbrev pub classroom_tasks : List Task → List Task
classroom_tasks l = select (λ t. not (is_manual t)) l

-- No two tasks have the same id.
abbrev pub IsKeyedById : List Task → Type 0
IsKeyedById l = (k : ℕ) → count_where (λ t. t.id == k) l ≤ 1

-- The store after a call: an error leaves it.
abbrev pub stored : Result Db → Db → Db
stored (ok after) db = after
stored (err e) db = db

module _ (u k : ℕ) where
  abbrev AllOwn : List Task → Type 0
  AllOwn l = All (λ t. is_task u k t ≡ true → is_manual t ≡ true) l

  elsewhere : (l : List Task) → count_where (λ t. t.id == k) l ≤ 0 → AllOwn l
  elsewhere [] h = tt
  elsewhere (t ∷ ts) h = (λ hit. absurd (ground arith), elsewhere ts (ground arith))

  lone :
      (l : List Task) (row : Task)
      → count_where (λ t. t.id == k) l ≤ 1
      → fetchone (select (is_task u k) l) ≡ some row
      → is_manual row ≡ true
      → AllOwn l
  lone [] row h found own = tt
  lone (t ∷ ts) row h found own = elim (Bool-cases (t.id == k)) [
    | inl same ↦ (λ hit. ground (arith, hit), elsewhere ts (ground arith))
    | inr other ↦ (λ hit. absurd (ground arith), lone ts row (ground arith) (ground arith) own)
  ]

  kept :
      (guard : Task → Bool) (f : Task → Task)
      → ((t : Task) → is_manual (f t) ≡ is_manual t)
      → (l : List Task) → AllOwn l
      → classroom_tasks (update_where (λ t. is_task u k t && guard t) f l) ≡ classroom_tasks l
  kept guard f same [] h = refl
  kept guard f same (t ∷ ts) h = elim (Bool-cases (is_task u k t && guard t)) [
    | inl hit ↦
        let own : is_manual t ≡ true = h.0 (ground arith) in
        ground (arith, same t, own, hit, kept guard f same ts h.1)
    | inr miss ↦ ground (arith, kept guard f same ts h.1)
  ]

-- What the guard of the manual operations looks at.
abbrev guarded : Option Task → Result (Unit {0})
guarded o = elim o [
  | none ↦ err no_such_task
  | some row ↦ require (source_eq row.source_type manual) not_manual
]

-- Nothing runs after a guard that fails.
after_guard :
    (P : Db → Type 0) (o : Option Task) (next db : Db)
    → P db
    → ((row : Task) → o ≡ some row → is_manual row ≡ true → P next)
    → P (stored (guarded o >> ok next) db)
after_guard P none next db refused granted = refused
after_guard P (some row) next db refused granted = allowed (is_manual row) refl
  where
    allowed : (b : Bool) → is_manual row ≡ b → P (stored (require b not_manual >> ok next) db)
    allowed true own = granted row refl own
    allowed false foreign = refused

cancelled_elsewhere :
    (u task_id clock : ℕ) (db : Db) (row : Task)
    → IsKeyedById db.tasks
    → task_row u task_id db ≡ some row
    → is_manual row ≡ true
    → classroom_tasks (cancel_task_from_source u task_id clock db).tasks ≡ classroom_tasks db.tasks
unfolding cancel_task_from_source
cancelled_elsewhere u task_id clock db row keyed found own =
    ap classroom_tasks (set_status_tasks (λ _. true) (cancelled_task clock) _ u task_id clock db)
    ∙ kept u task_id (λ _. true) (cancelled_task clock) (λ t. refl) db.tasks
        (lone u task_id db.tasks row (keyed task_id) found own)

-- If no two tasks have the same id, cancelling a task at the user's request leaves every task that
-- Classroom owns as it is, whether the request is granted or refused.
pub cancel_task_boundary :
    (u task_id clock : ℕ) (db : Db)
    → IsKeyedById db.tasks
    → classroom_tasks (stored (cancel_task u task_id clock db) db).tasks ≡ classroom_tasks db.tasks
unfolding cancel_task require_manual_task
cancel_task_boundary u task_id clock db keyed =
    after_guard (λ d. classroom_tasks d.tasks ≡ classroom_tasks db.tasks) (task_row u task_id db)
      (cancel_task_from_source u task_id clock db) db refl
      (λ row found own. cancelled_elsewhere u task_id clock db row keyed found own)
