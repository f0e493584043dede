-- ===== src/Health/Streak.antt =====
-- The streak of failures and its one alert: ragra/health.py.
use ragra_reminder.Prelude.{
  ℕ, ◌≡◌, refl, sym, ap, ◌∙◌, ◌⊎◌, ◌+◌, Bool, true, false, Option, none, some, List, [], ◌∷◌, Text,
  arith, ==_refl, Bool-cases, Option-cases, inl, inr, select, fetchone, All, All-imp,
  All-update_where, Some, select_nothing, fetch_updated, fetch_inserted, fetch_passes, fetch_absent,
  fetch_present, if◌then◌else◌,
}
use ragra_reminder.Store.{Db, PipelineHealth, SyncSource}
use ragra_reminder.Notify.{Provider, Notification, record_notification_delivery}
use ragra_reminder.Notify.Fanout.{any_accepts, recorded, send_to_all_providers_lem}
use ragra_reminder.Health.{
  is_health_of, upsert_health, first_failure, failed_again, first_success, succeeded, error_detail,
  streak_of, record_result, is_alarming, mark_alerted, alert_notification, alert_recorder,
  alert_rows, check_and_alert,
}

module _ (u clock : ℕ) where
  -- A row is still to be marked, or it needs no alert.
  abbrev Covered : List PipelineHealth → PipelineHealth → Type 0
  Covered rs h = Some (λ r. is_health_of u r.component h ≡ true) rs ⊎ (is_alarming u h ≡ false)

  Covered-alerted :
      (r : PipelineHealth) (rs : List PipelineHealth) (h : PipelineHealth)
      → Covered (r ∷ rs) h
      → Covered rs
          (if is_health_of u r.component h then record h { last_alert_sent_at = some clock } else h)
  Covered-alerted r rs h c = elim (Bool-cases (is_health_of u r.component h)) [
    | inl hit ↦ inr (ground arith)
    | inr other ↦ elim c [
      | inl (inl now) ↦ absurd (ground arith)
      | inl (inr later) ↦ inl (ground arith)
      | inr fine ↦ inr (ground arith)
    ]
  ]

  mark_alerted-Covered :
      (rs : List PipelineHealth) (db : Db)
      → All (Covered rs) db.health
      → All (Covered []) (mark_alerted u clock rs db).health
  unfolding mark_alerted
  mark_alerted-Covered [] db h = h
  mark_alerted-Covered (r ∷ rs) db h = mark_alerted-Covered rs _ (
      All-update_where (Covered (r ∷ rs)) (Covered rs) (is_health_of u r.component)
        (λ h. record h { last_alert_sent_at = some clock }) (Covered-alerted r rs) db.health h)

  Covered-later :
      (r : PipelineHealth) (rs : List PipelineHealth) (h : PipelineHealth)
      → Covered rs h
      → Covered (r ∷ rs) h
  Covered-later r rs h (inl c) = inl (inr c)
  Covered-later r rs h (inr c) = inr c

  Covered-select :
      (h : PipelineHealth) (rest hs : List PipelineHealth) (b : Bool)
      → is_alarming u h ≡ b
      → All (Covered rest) hs
      → All (Covered (if b then h ∷ rest else rest)) (h ∷ hs)
  Covered-select h rest hs true late c = (
    inl (inl (ground (arith, ==_refl h.user_id))),
    All-imp (Covered rest) (Covered (h ∷ rest)) (Covered-later h rest) hs c,
  )
  Covered-select h rest hs false fine c = (inr fine, c)

  alarming-Covered : (l : List PipelineHealth) → All (Covered (select (is_alarming u) l)) l
  alarming-Covered [] = tt
  alarming-Covered (h ∷ hs) =
      Covered-select h (select (is_alarming u) hs) hs (is_alarming u h) refl (alarming-Covered hs)

  none_left : (h : PipelineHealth) → Covered [] h → is_alarming u h ≡ false
  none_left h (inl c) = absurd c
  none_left h (inr c) = c

  recorded_health :
      (ps : List Provider) (n : Notification) (db : Db)
      → (recorded ps n (alert_recorder u n clock) db).health ≡ db.health
  unfolding record_notification_delivery
  recorded_health [] n db = refl
  recorded_health (p ∷ ps) n db =
      recorded_health ps n (alert_recorder u n clock p.name (p.send n) db)

  -- A delivered alert leaves no row that needs one.
  alert_rows_quiet :
      (ps : List Provider) (rows : List PipelineHealth) (db : Db)
      → rows ≡ select (is_alarming u) db.health
      → any_accepts ps (alert_notification rows) ≡ true
      → select (is_alarming u) (alert_rows u ps clock rows db).1.health ≡ []
  alert_rows_quiet ps [] db e ok = sym e
  alert_rows_quiet ps (r ∷ rs) db e ok =
      let n = alert_notification (r ∷ rs) in
      let log = recorded ps n (alert_recorder u n clock) db in
      let marked = mark_alerted u clock (r ∷ rs) log in
      rw (send_to_all_providers_lem, ok)
        (select_nothing (is_alarming u) marked.health (
          All-imp (Covered []) (λ h. is_alarming u h ≡ false) none_left marked.health
            (mark_alerted-Covered (r ∷ rs) log
              (rw (recorded_health ps n db, e) (alarming-Covered db.health)))))

-- If a provider accepts the alert text made of the rows that need one, a second check at any later
-- moment alerts nobody and changes nothing.
pub check_and_alert_once :
    (u : ℕ) (p : Provider) (ps : List Provider) (clock later : ℕ) (db : Db)
    → any_accepts (p ∷ ps) (alert_notification (select (is_alarming u) db.health)) ≡ true
    → let after = (check_and_alert u (p ∷ ps) clock db).1 in
      check_and_alert u (p ∷ ps) later after ≡ ([], after)
unfolding check_and_alert
check_and_alert_once u p ps clock later db ok =
    let after = (check_and_alert u (p ∷ ps) clock db).1 in
    ap (λ rows. alert_rows u (p ∷ ps) later rows after)
      (alert_rows_quiet u clock (p ∷ ps) (select (is_alarming u) db.health) db refl ok)

abbrev streak_in : Option PipelineHealth → ℕ
streak_in o = elim o [ none ↦ 0 | some h ↦ h.consecutive_failures ]

module _ (u : ℕ) (component : SyncSource) (fresh : PipelineHealth)
    (change : PipelineHealth → PipelineHealth) where
  upserted_first :
      (l : List PipelineHealth)
      → is_health_of u component fresh ≡ true
      → fetchone (select (is_health_of u component) l) ≡ none
      → fetchone (select (is_health_of u component) (upsert_health u component fresh change l))
        ≡ some fresh
  upserted_first l own absent =
      rw (fetch_absent (is_health_of u component) l absent)
        (fetch_inserted (is_health_of u component) l fresh absent own)

  upserted_again :
      (l : List PipelineHealth) (h : PipelineHealth)
      → ((x : PipelineHealth) → is_health_of u component (change x) ≡ is_health_of u component x)
      → fetchone (select (is_health_of u component) l) ≡ some h
      → fetchone (select (is_health_of u component) (upsert_health u component fresh change l))
        ≡ some (change h)
  upserted_again l h same found = rw (fetch_present (is_health_of u component) l h found) (
      fetch_updated (is_health_of u component) (is_health_of u component) change same l h
        (fetch_passes (is_health_of u component) l h found) found)

-- A failure makes the streak of the component one longer, also when it is the first; a success ends
-- it.
pub record_result_streak :
    (u : ℕ) (component : SyncSource) (error : Option Text) (clock : ℕ) (db : Db)
    → ((record_result u component false error clock db).0 ≡ streak_of u component db.health + 1)
      × (streak_of u component (record_result u component true error clock db).1.health ≡ 0)
unfolding record_result
record_result_streak u component error clock db =
    let e = error_detail error in
    let lost = first_failure u component e clock in
    let won = first_success u component clock in
    let own : is_health_of u component lost ≡ true = ground (arith, ==_refl u) in
    elim (Option-cases (fetchone (select (is_health_of u component) db.health))) [
      | inl absent ↦ (
        ap streak_in (upserted_first u component lost (failed_again e clock) db.health own absent)
            ∙ ap (λ n. n + 1) (sym (ap streak_in absent)),
        ap streak_in (upserted_first u component won (succeeded clock) db.health own absent),
      )
      | inr (h, found) ↦ (
        ap streak_in
              (upserted_again u component lost (failed_again e clock) db.health h (λ x. refl) found)
            ∙ ap (λ n. n + 1) (sym (ap streak_in found)),
        ap streak_in
            (upserted_again u component won (succeeded clock) db.health h (λ x. refl) found),
      )
    ]
