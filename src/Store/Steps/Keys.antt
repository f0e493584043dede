-- ===== src/Store/Steps/Keys.antt =====
-- Keys, and reminders that are sent or have failed, under the steps of the reminders table.
use ragra_reminder.Prelude.{
  ℕ, ◌≤◌, ◌≡◌, refl, subst, ap, ◌∙◌, Bool, true, false, List, [], ◌∷◌, arith, Bool-cases, inl, inr,
  exists_row, count_where, count_where-append, update_where, select, select-update_where,
  select_insert_other, All, All-append, All-update_where, stamp_option_eq_iff,
}
use ragra_reminder.Engine.{type_eq_iff}
use ragra_reminder.Store.Rows.{
  Reminder, ReminderKey, KeyTail, task_anchored, for_deadline, is_settled,
}
use ragra_reminder.Store.Reminders.{cancelled_reminder, has_key, new_reminder, key_eq, tail_eq}
use ragra_reminder.Store.Steps.{Step, Evolves, here, next, cancels, adds}

tail_eq-eq : (a b : KeyTail) → tail_eq a b ≡ true → a ≡ b
tail_eq-eq task_anchored task_anchored h = refl
tail_eq-eq task_anchored (for_deadline _) h = ground arith
tail_eq-eq (for_deadline _) task_anchored h = ground arith
tail_eq-eq (for_deadline a) (for_deadline b) h = ap for_deadline ((stamp_option_eq_iff a b).0 h)

key_eq-eq : (a b : ReminderKey) → key_eq a b ≡ true → a ≡ b
key_eq-eq a b h =
    let same_tail : a.tail ≡ b.tail = tail_eq-eq a.tail b.tail (ground arith) in
    let same_type : a.reminder_type ≡ b.reminder_type =
      (type_eq_iff a.reminder_type b.reminder_type).0 (ground arith) in
    let same_task : a.task_id ≡ b.task_id = ground arith in
    ground (arith, same_tail, same_type, same_task)

-- No two reminders of the user have the same key.
abbrev pub IsUnique : ℕ → List Reminder → Type 0
IsUnique u l = (k : ReminderKey) → count_where (has_key u k) l ≤ 1

-- A reminder's key is made of its own task and type.
pub record IsKeyed (r : Reminder) : Type 0 where
  pub of_task : r.idempotency_key.task_id ≡ r.task_id
  pub of_type : r.idempotency_key.reminder_type ≡ r.reminder_type

cancels_count :
    (u : ℕ) (k : ReminderKey) (p : Reminder → Bool) (l : List Reminder)
    → count_where (has_key u k) (update_where p cancelled_reminder l) ≡ count_where (has_key u k) l
cancels_count u k p [] = refl
cancels_count u k p (r ∷ rs) = elim (Bool-cases (p r)) [
  | inl hit ↦ ground (arith, cancels_count u k p rs)
  | inr miss ↦ ground (arith, cancels_count u k p rs)
]

count_absent :
    (q : Reminder → Bool) (l : List Reminder) → exists_row q l ≡ false → count_where q l ≡ 0
count_absent q [] h = refl
count_absent q (r ∷ rs) h = ground (arith, count_absent q rs)

Step-IsUnique : (u : ℕ) {l m : List Reminder} → Step u l m → IsUnique u l → IsUnique u m
Step-IsUnique u (cancels l p own) h k = rw (cancels_count u k p l) (h k)
Step-IsUnique u (adds l id task_id t at tail clock free) h k =
    let key : ReminderKey = record { task_id = task_id; reminder_type = t; tail = tail } in
    let row = new_reminder id u task_id t at key clock in
    let total = count_where-append (has_key u k) l (row ∷ []) in
    elim (Bool-cases (key_eq key k)) [
      | inl same ↦
          let absent =
            count_absent (has_key u k) l
              (subst (λ x. exists_row (has_key u x) l ≡ false) (key_eq-eq key k same) free) in
          ground (arith, total, absent)
      | inr other ↦ ground (arith, total, h k)
    ]

pub Evolves-IsUnique : (u : ℕ) {l m : List Reminder} → Evolves u l m → IsUnique u l → IsUnique u m
Evolves-IsUnique u here h = h
Evolves-IsUnique u (next k s) h = Step-IsUnique u s (Evolves-IsUnique u k h)

Step-IsKeyed : (u : ℕ) {l m : List Reminder} → Step u l m → All IsKeyed l → All IsKeyed m
Step-IsKeyed u (cancels l p own) h =
    All-update_where IsKeyed IsKeyed p cancelled_reminder (λ r k. ground arith) l h
Step-IsKeyed u (adds l id task_id t at tail clock free) h =
    All-append IsKeyed l
      (new_reminder id u task_id t at (record { task_id = task_id; reminder_type = t; tail = tail })
          clock
        ∷ [])
      h (ground arith)

pub Evolves-IsKeyed : (u : ℕ) {l m : List Reminder} → Evolves u l m → All IsKeyed l → All IsKeyed m
Evolves-IsKeyed u here h = h
Evolves-IsKeyed u (next k s) h = Step-IsKeyed u s (Evolves-IsKeyed u k h)

abbrev pub settled : List Reminder → List Reminder
settled l = select (λ r. is_settled r.status) l

Step-settled : (u : ℕ) {l m : List Reminder} → Step u l m → settled m ≡ settled l
Step-settled u (cancels l p own) =
    select-update_where (λ r. is_settled r.status) p cancelled_reminder
      (λ r h. ground (arith, own r h)) l
Step-settled u (adds l id task_id t at tail clock free) =
    select_insert_other (λ r. is_settled r.status) l
      (new_reminder id u task_id t at (record { task_id = task_id; reminder_type = t; tail = tail })
        clock)
      refl

pub Evolves-settled : (u : ℕ) {l m : List Reminder} → Evolves u l m → settled m ≡ settled l
Evolves-settled u here = refl
Evolves-settled u (next k s) = Step-settled u s ∙ Evolves-settled u k
