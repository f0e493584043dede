-- ===== src/ClassReminders/Silence.antt =====
-- What a dispatch of ragra/reminders/class_reminders.py leaves for the next one.
use ragra_reminder.Prelude.{
  ℕ, ◌≡◌, refl, sym, ap, ◌∙◌, subst, Bool, true, false, Option, none, some, List, [], ◌∷◌, arith,
  All, All-imp, All-update_where, Some, select, update_where, order_by, Some-order_by, inl, inr,
  Bool-cases, Option-cases, leb, if◌then◌else◌,
}
use ragra_reminder.Store.{Db, ClassReminder, TimetableEvent, is_pending}
use ragra_reminder.Store.Classes.{
  PendingClass, pending_class_reminders, is_pending_class, is_class_reminder, announced, attempted,
  already_started, mark_class_reminder_sent, record_class_reminder_attempt, event_row, with_event,
  join_events,
}
use ragra_reminder.Notify.{Provider, Notification, record_notification_delivery}
use ragra_reminder.Notify.Fanout.{any_accepts, recorded, send_to_all_providers_lem}
use ragra_reminder.Zones.{Zone}
use ragra_reminder.ClassReminders.{
  ClassReminderSummary, no_classes, dispatch_class, dispatch_classes, dispatch_class_reminders,
  class_notification, class_delivery_recorder,
}

-- A pending reminder of the user, with a timetable event, is still in the list.
abbrev IsQueued : ℕ → List TimetableEvent → List PendingClass → ClassReminder → Type 0
IsQueued u events ps r =
    (e : TimetableEvent)
    → is_pending_class u r ≡ true
    → event_row events r.timetable_event_id ≡ some e
    → Some (λ p. p.row.id ≡ r.id) ps

join_events-IsQueued :
    (u : ℕ) (events : List TimetableEvent) (l : List ClassReminder)
    → All (IsQueued u events (join_events events (select (is_pending_class u) l))) l
join_events-IsQueued u events [] = tt
join_events-IsQueued u events (x ∷ xs) =
    joined x xs (is_pending_class u x) refl (join_events-IsQueued u events xs)
  where
    longer :
        (P : PendingClass → Type 0) (x : ClassReminder) (o : Option TimetableEvent)
        (l : List PendingClass)
        → Some P l
        → Some P (with_event x o l)
    longer P x none l h = h
    longer P x (some e) l h = inr h

    joined :
        (x : ClassReminder) (xs : List ClassReminder) (b : Bool)
        → is_pending_class u x ≡ b
        → All (IsQueued u events (join_events events (select (is_pending_class u) xs))) xs
        → let ps =
            join_events events
              (if b then x ∷ select (is_pending_class u) xs else select (is_pending_class u) xs) in
          IsQueued u events ps x × All (IsQueued u events ps) xs
    joined x xs true hit h = (
      λ e pend ev.
          subst
            (λ o.
              Some (λ p. p.row.id ≡ x.id)
                (with_event x o (join_events events (select (is_pending_class u) xs))))
            (sym ev) (inl refl),
      All-imp (IsQueued u events (join_events events (select (is_pending_class u) xs)))
          (IsQueued u events (
            with_event x (event_row events x.timetable_event_id)
              (join_events events (select (is_pending_class u) xs))))
          (λ r q e pend ev.
            longer (λ p. p.row.id ≡ r.id) x (event_row events x.timetable_event_id)
              (join_events events (select (is_pending_class u) xs)) (q e pend ev))
          xs h,
    )
    joined x xs false miss h = (λ e pend ev. absurd (ground (arith, pend, miss)), h)

-- What a round with an accepting provider writes takes the reminder out of the queue.
after_round :
    (u : ℕ) (events : List TimetableEvent) (p : PendingClass) (ps : List PendingClass)
    (f : ClassReminder → ClassReminder) (l : List ClassReminder)
    → ((r : ClassReminder) → is_pending (f r).status ≡ false)
    → All (IsQueued u events (p ∷ ps)) l
    → All (IsQueued u events ps) (update_where (is_class_reminder u p.row.id) f l)
after_round u events p ps f l off h =
    All-update_where (IsQueued u events (p ∷ ps)) (IsQueued u events ps)
      (is_class_reminder u p.row.id) f
      (λ r q. elim (Bool-cases (is_class_reminder u p.row.id r)) [
        | inl hit ↦ rw hit (λ e pend ev. absurd (ground (arith, off r, pend)))
        | inr miss ↦ rw miss (λ e pend ev. elim (q e pend ev) [
          | inl here ↦ absurd (ground arith)
          | inr there ↦ there
        ])
      ])
      l h

-- An empty queue: there is no row that the query would return.
none_joined :
    (u : ℕ) (events : List TimetableEvent) (l : List ClassReminder)
    → All (IsQueued u events []) l
    → join_events events (select (is_pending_class u) l) ≡ []
none_joined u events [] h = refl
none_joined u events (x ∷ xs) h = elim (Bool-cases (is_pending_class u x)) [
  | inl hit ↦ rw hit (elim (Option-cases (event_row events x.timetable_event_id)) [
    | inl gone ↦ rw gone (none_joined u events xs h.1)
    | inr found ↦ absurd (h.0 found.0 hit found.1)
  ])
  | inr miss ↦ rw miss (none_joined u events xs h.1)
]

module _ (zone : Zone) (u : ℕ) (q : Provider) (qs : List Provider) (now clock : ℕ) where
  -- Recording the attempts writes deliveries and nothing else.
  recorded_classes :
      (ps : List Provider) (n : Notification) (db : Db)
      → let after = recorded ps n (class_delivery_recorder u clock) db in
        (after.class_reminders ≡ db.class_reminders)
        × (after.timetable_events ≡ db.timetable_events)
  unfolding record_notification_delivery
  recorded_classes [] n db = (refl, refl)
  recorded_classes (p ∷ ps) n db =
      recorded_classes ps n (class_delivery_recorder u clock p.name (p.send n) db)

  abbrev verdict : ClassReminder → ClassReminder → ClassReminder
  verdict p = if leb p.scheduled_for now then attempted already_started true else announced clock

  verdict-settled : (p r : ClassReminder) → is_pending (verdict p r).status ≡ false
  verdict-settled p r = ground arith

  dispatch_class_tables :
      (p : PendingClass) (s : ClassReminderSummary) (db : Db)
      → any_accepts (q ∷ qs) (class_notification zone now p) ≡ true
      → let after = (dispatch_class zone u (q ∷ qs) now clock p s db).1 in
        (after.class_reminders
          ≡ update_where (is_class_reminder u p.row.id) (verdict p.row) db.class_reminders)
        × (after.timetable_events ≡ db.timetable_events)
  unfolding dispatch_class mark_class_reminder_sent record_class_reminder_attempt
  dispatch_class_tables p s db accepts = elim (Bool-cases (leb p.row.scheduled_for now)) [
    | inl late ↦ rw late (refl, refl)
    | inr ahead ↦
        let n = class_notification zone now p in
        let kept = recorded_classes (q ∷ qs) n db in
        rw ahead (
          rw send_to_all_providers_lem (
            rw accepts
              (ap (update_where (is_class_reminder u p.row.id) (announced clock)) kept.0, kept.1)))
  ]

  dispatch_classes_queue :
      (ps : List PendingClass) (s : ClassReminderSummary) (db : Db) (events : List TimetableEvent)
      → ((n : Notification) → any_accepts (q ∷ qs) n ≡ true)
      → db.timetable_events ≡ events
      → All (IsQueued u events ps) db.class_reminders
      → let after = (dispatch_classes zone u (q ∷ qs) now clock ps s db).1 in
        All (IsQueued u events []) after.class_reminders × (after.timetable_events ≡ events)
  unfolding dispatch_classes
  dispatch_classes_queue [] s db events accepts same h = (h, same)
  dispatch_classes_queue (p ∷ ps) s db events accepts same h =
      let step = dispatch_class zone u (q ∷ qs) now clock p s db in
      let tables = dispatch_class_tables p s db (accepts (class_notification zone now p)) in
      dispatch_classes_queue ps step.0 step.1 events accepts (tables.1 ∙ same) (
        subst (λ l. All (IsQueued u events ps) l) (sym tables.0)
          (after_round u events p ps (verdict p.row) db.class_reminders (verdict-settled p.row) h))

  emptied :
      (db : Db)
      → ((n : Notification) → any_accepts (q ∷ qs) n ≡ true)
      → pending_class_reminders u (dispatch_class_reminders zone u (q ∷ qs) now clock db).1 ≡ []
  unfolding dispatch_class_reminders pending_class_reminders
  emptied db accepts =
      let ps = join_events db.timetable_events (select (is_pending_class u) db.class_reminders) in
      let key = λ (p : PendingClass). p.row.scheduled_for in
      let start =
        All-imp (IsQueued u db.timetable_events ps)
          (IsQueued u db.timetable_events (order_by key ps))
          (λ r h e pend ev. Some-order_by (λ p. p.row.id ≡ r.id) key ps (h e pend ev))
          db.class_reminders (join_events-IsQueued u db.timetable_events db.class_reminders) in
      let done =
        dispatch_classes_queue (order_by key ps) no_classes db db.timetable_events accepts refl
          start in
      let after = (dispatch_class_reminders zone u (q ∷ qs) now clock db).1 in
      ap (order_by key) (
        ap (λ events. join_events events (select (is_pending_class u) after.class_reminders)) done.1
        ∙ none_joined u db.timetable_events after.class_reminders done.0)

  -- After a dispatch whose providers accept every message, no class reminder of the user is pending any
  -- more, and a second dispatch, at any moment and with any providers, sends nothing and changes nothing.
  pub dispatch_class_reminders-quiet :
      (db : Db) (others : List Provider) (later clock' : ℕ)
      → ((n : Notification) → any_accepts (q ∷ qs) n ≡ true)
      → let after = (dispatch_class_reminders zone u (q ∷ qs) now clock db).1 in
        (pending_class_reminders u after ≡ [])
        × (dispatch_class_reminders zone u others later clock' after ≡ (no_classes, after))
  unfolding dispatch_class_reminders dispatch_classes
  dispatch_class_reminders-quiet db others later clock' accepts =
      let after = (dispatch_class_reminders zone u (q ∷ qs) now clock db).1 in
      let none_left = emptied db accepts in
      (
        none_left,
        ap (λ ps. dispatch_classes zone u others later clock' ps no_classes after) none_left,
      )
