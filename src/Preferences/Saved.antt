-- ===== src/Preferences/Saved.antt =====
-- Saving and loading, in ragra/notifications/preferences.py.
use ragra_reminder.Prelude.{
  ℕ, ◌≡◌, ◌≢◌, refl, ap, ◌∙◌, Bool, true, false, Option, none, some, List, [], ◌∷◌, Text, arith,
  Bool-cases, inl, inr, text_option_eq_iff, select, fetchone, exists_row, update_where,
  fetch_updated, fetch_inserted, fetch_absent, fetch_passes, ==_refl,
}
use ragra_reminder.Store.Tenant.Tables.{unseen_update, unseen_insert}
use ragra_reminder.Preferences.{
  NotificationPreferences, PreferenceRow, is_row_of, replaced, preference_row, loaded, bool, flag,
  load_preferences, save_preferences, needs_welcome, channels_needing_welcome,
}

nothing_found :
    (p : PreferenceRow → Bool) (l : List PreferenceRow)
    → exists_row p l ≡ false
    → fetchone (select p l) ≡ none
nothing_found p [] h = refl
nothing_found p (x ∷ xs) h = ground (arith, nothing_found p xs (ground arith))

-- A flag is read back from its column.
bool-flag : (b : Bool) → bool (flag b) ≡ b
bool-flag true = refl
bool-flag false = refl

loaded-replaced :
    (u : ℕ) (p : NotificationPreferences) (now : ℕ) (r : PreferenceRow)
    → loaded (some (replaced (preference_row u p now) r)) ≡ p
loaded-replaced u p now r = simp bool-flag refl

loaded-preference_row :
    (u : ℕ) (p : NotificationPreferences) (now : ℕ) → loaded (some (preference_row u p now)) ≡ p
loaded-preference_row u p now = simp bool-flag refl

saved_row :
    (u : ℕ) (p : NotificationPreferences) (now : ℕ) (rows : List PreferenceRow)
    (o : Option PreferenceRow)
    → fetchone (select (is_row_of u) rows) ≡ o
    → exists_row (is_row_of u) rows ≡ true
    → loaded (
        fetchone (
          select
            (is_row_of u)
            (update_where (is_row_of u) (replaced (preference_row u p now)) rows)))
      ≡ p
saved_row u p now rows none found there =
    absurd (ground (arith, fetch_absent (is_row_of u) rows found, there))
saved_row u p now rows (some r) found there =
    let own : is_row_of u r ≡ true = fetch_passes (is_row_of u) rows r found in
    ap loaded (
      fetch_updated (is_row_of u) (is_row_of u) (replaced (preference_row u p now)) (λ x. refl) rows
        r own found)
    ∙ loaded-replaced u p now r

load_own :
    (u : ℕ) (p : NotificationPreferences) (now : ℕ) (rows : List PreferenceRow)
    → load_preferences u (save_preferences u p now rows) ≡ p
unfolding load_preferences save_preferences
load_own u p now rows = elim (Bool-cases (exists_row (is_row_of u) rows)) [
  | inl there ↦ rw there (saved_row u p now rows (fetchone (select (is_row_of u) rows)) refl there)
  | inr free ↦ rw free (
      ap loaded (
        fetch_inserted (is_row_of u) rows (preference_row u p now)
          (nothing_found (is_row_of u) rows free) (==_refl u))
      ∙ loaded-preference_row u p now)
]

load_other :
    (u v : ℕ) (p : NotificationPreferences) (now : ℕ) (rows : List PreferenceRow)
    → u ≢ v
    → load_preferences v (save_preferences u p now rows) ≡ load_preferences v rows
unfolding load_preferences save_preferences
load_other u v p now rows other = elim (Bool-cases (exists_row (is_row_of u) rows)) [
  | inl there ↦ rw there (
      ap (λ l. loaded (fetchone l))
        (unseen_update (λ r. r.user_id) u v other (is_row_of u) (replaced (preference_row u p now))
          (λ r h. ground arith) rows))
  | inr free ↦ rw free (
      ap (λ l. loaded (fetchone l))
        (unseen_insert (λ r. r.user_id) u v other rows (preference_row u p now) refl))
]

-- Saved preferences are loaded again as they were saved, and no other user's change.
pub load_preferences-save_preferences :
    (u v : ℕ) (p : NotificationPreferences) (now : ℕ) (rows : List PreferenceRow)
    → u ≢ v
    → (load_preferences u (save_preferences u p now rows) ≡ p)
      × (load_preferences v (save_preferences u p now rows) ≡ load_preferences v rows)
load_preferences-save_preferences u v p now rows other =
    (load_own u p now rows, load_other u v p now rows other)

unchanged_channel :
    (enabled : Bool) (to : Option Text) → needs_welcome enabled to enabled to ≡ false
unchanged_channel true to = ground (arith, (text_option_eq_iff to to).1 refl)
unchanged_channel false to = refl

channels_unchanged : (p : NotificationPreferences) → channels_needing_welcome p p ≡ []
unfolding channels_needing_welcome
channels_unchanged p = rw (unchanged_channel p.email_enabled p.email_to) (
    rw (unchanged_channel p.hermes_enabled p.hermes_target) (
      rw (unchanged_channel p.whatsapp_enabled p.whatsapp_to)
        (rw (unchanged_channel p.telegram_enabled p.telegram_chat_id) refl)))

-- Preferences that are saved a second time bring no channel another welcome.
pub welcome_again :
    (u : ℕ) (p : NotificationPreferences) (now : ℕ) (rows : List PreferenceRow)
    → channels_needing_welcome (load_preferences u (save_preferences u p now rows)) p ≡ []
welcome_again u p now rows =
    ap (λ q. channels_needing_welcome q p) (load_own u p now rows) ∙ channels_unchanged p
