-- ===== src/Preferences/Own.antt =====
-- The recipients of `providers_for` of ragra/notifications/preferences.py.
use ragra_reminder.Prelude.{
  ℕ, zero, suc, ◌≡◌, ◌<◌, refl, true, false, arith, Option, none, some, List, [], ◌∷◌, Text, All,
  All-append, All-imp, Some, inl, inr, subst, Bool-cases, is_empty, select, fetchone,
}
use ragra_reminder.Preferences.{
  NotificationPreferences, PreferenceRow, Config, ProviderSpec, hermes_provider, whatsapp_provider,
  telegram_provider, brevo_provider, smtp_provider, destination, given, hermes_part, whatsapp_part,
  telegram_part, smtp_part, email_part, load_preferences, providers_for, loaded, bool, is_row_of,
  all_off,
}

-- The provider's recipient is the one that these preferences have for its channel, and the channel is on.
abbrev IsOwn : NotificationPreferences → ProviderSpec → Type 0
IsOwn p (hermes_provider to bin) = destination p.hermes_enabled p.hermes_target ≡ some to
IsOwn p (whatsapp_provider to token phone template lang base) =
    destination p.whatsapp_enabled p.whatsapp_to ≡ some to
IsOwn p (telegram_provider to token base) =
    destination p.telegram_enabled p.telegram_chat_id ≡ some to
IsOwn p (brevo_provider to key sender base) = destination p.email_enabled p.email_to ≡ some to
IsOwn p (smtp_provider to host port sender username password ssl base) =
    destination p.email_enabled p.email_to ≡ some to

module _ (config : Config) (p : NotificationPreferences) where
  hermes_part-IsOwn :
      (to bin : Option Text)
      → destination p.hermes_enabled p.hermes_target ≡ to
      → All (IsOwn p) (hermes_part to bin)
  hermes_part-IsOwn none bin e = tt
  hermes_part-IsOwn (some to) none e = tt
  hermes_part-IsOwn (some to) (some bin) e = (e, tt)

  whatsapp_part-IsOwn :
      (to token phone : Option Text)
      → destination p.whatsapp_enabled p.whatsapp_to ≡ to
      → All (IsOwn p) (whatsapp_part config to token phone)
  whatsapp_part-IsOwn none token phone e = tt
  whatsapp_part-IsOwn (some to) none phone e = tt
  whatsapp_part-IsOwn (some to) (some token) none e = tt
  whatsapp_part-IsOwn (some to) (some token) (some phone) e = (e, tt)

  telegram_part-IsOwn :
      (to token : Option Text)
      → destination p.telegram_enabled p.telegram_chat_id ≡ to
      → All (IsOwn p) (telegram_part config to token)
  telegram_part-IsOwn none token e = tt
  telegram_part-IsOwn (some to) none e = tt
  telegram_part-IsOwn (some to) (some token) e = (e, tt)

  smtp_part-IsOwn :
      (to sender : Text) (host : Option Text)
      → destination p.email_enabled p.email_to ≡ some to
      → All (IsOwn p) (smtp_part config to sender host)
  smtp_part-IsOwn to sender none e = tt
  smtp_part-IsOwn to sender (some host) e = (e, tt)

  email_part-IsOwn :
      (to sender key : Option Text)
      → destination p.email_enabled p.email_to ≡ to
      → All (IsOwn p) (email_part config to sender key)
  email_part-IsOwn none sender key e = tt
  email_part-IsOwn (some to) none key e = tt
  email_part-IsOwn (some to) (some sender) none e =
      smtp_part-IsOwn to sender (given config.smtp_host) e
  email_part-IsOwn (some to) (some sender) (some key) e = (e, tt)

-- The column of a row for a provider's channel holds its recipient, and the channel is on.
abbrev pub IsColumn : ProviderSpec → PreferenceRow → Type 0
IsColumn (hermes_provider to bin) r = (0 < r.hermes_enabled) × (r.hermes_target ≡ some to)
IsColumn (whatsapp_provider to token phone template lang base) r =
    (0 < r.whatsapp_enabled) × (r.whatsapp_to ≡ some to)
IsColumn (telegram_provider to token base) r =
    (0 < r.telegram_enabled) × (r.telegram_chat_id ≡ some to)
IsColumn (brevo_provider to key sender base) r = (0 < r.email_enabled) × (r.email_to ≡ some to)
IsColumn (smtp_provider to host port sender username password ssl base) r =
    (0 < r.email_enabled) × (r.email_to ≡ some to)

destination_column :
    (n : ℕ) (column : Option Text) (to : Text)
    → destination (bool n) column ≡ some to
    → (0 < n) × (column ≡ some to)
destination_column zero column to e = ground arith
destination_column (suc n) none to e = ground arith
destination_column (suc n) (some t) to e = elim (Bool-cases (is_empty t)) [
  | inl empty ↦ ground arith
  | inr e' ↦ ground arith
]

IsOwn-IsColumn :
    (r : PreferenceRow) (spec : ProviderSpec) → IsOwn (loaded (some r)) spec → IsColumn spec r
IsOwn-IsColumn r (hermes_provider to bin) e =
    destination_column r.hermes_enabled r.hermes_target to e
IsOwn-IsColumn r (whatsapp_provider to token phone template lang base) e =
    destination_column r.whatsapp_enabled r.whatsapp_to to e
IsOwn-IsColumn r (telegram_provider to token base) e =
    destination_column r.telegram_enabled r.telegram_chat_id to e
IsOwn-IsColumn r (brevo_provider to key sender base) e =
    destination_column r.email_enabled r.email_to to e
IsOwn-IsColumn r (smtp_provider to host port sender username password ssl base) e =
    destination_column r.email_enabled r.email_to to e

nobody_off : (spec : ProviderSpec) → ¬ IsOwn all_off spec
nobody_off (hermes_provider to bin) e = ground arith
nobody_off (whatsapp_provider to token phone template lang base) e = ground arith
nobody_off (telegram_provider to token base) e = ground arith
nobody_off (brevo_provider to key sender base) e = ground arith
nobody_off (smtp_provider to host port sender username password ssl base) e = ground arith

-- The row that is loaded is one of the user's.
own_row :
    (u : ℕ) (spec : ProviderSpec) (rows : List PreferenceRow)
    → IsOwn (loaded (fetchone (select (is_row_of u) rows))) spec
    → Some (λ r. (r.user_id ≡ u) × IsColumn spec r) rows
own_row u spec [] h = absurd (nobody_off spec h)
own_row u spec (x ∷ xs) h = elim (Bool-cases (is_row_of u x)) [
  | inl own ↦
      let first = subst (λ l. IsOwn (loaded (fetchone l)) spec) (here x xs own) h in
      inl (ground arith, IsOwn-IsColumn x spec first)
  | inr other ↦
      let rest = subst (λ l. IsOwn (loaded (fetchone l)) spec) (past x xs other) h in
      inr (own_row u spec xs rest)
]
  where
    here :
        (x : PreferenceRow) (xs : List PreferenceRow)
        → is_row_of u x ≡ true
        → select (is_row_of u) (x ∷ xs) ≡ x ∷ select (is_row_of u) xs
    here x xs e = rw e refl

    past :
        (x : PreferenceRow) (xs : List PreferenceRow)
        → is_row_of u x ≡ false
        → select (is_row_of u) (x ∷ xs) ≡ select (is_row_of u) xs
    past x xs e = rw e refl

loaded-IsOwn :
    (config : Config) (user_id : ℕ) (rows : List PreferenceRow)
    → All (IsOwn (load_preferences user_id rows)) (providers_for config user_id rows)
unfolding providers_for
loaded-IsOwn config user_id rows =
    let p = load_preferences user_id rows in
    All-append (IsOwn p) _ _ (hermes_part-IsOwn config p _ _ refl) (
      All-append (IsOwn p) _ _ (whatsapp_part-IsOwn config p _ _ _ refl) (
        All-append (IsOwn p) _ _ (telegram_part-IsOwn config p _ _ refl)
          (email_part-IsOwn config p _ _ _ refl)))

-- For every provider of a user, a stored row of that user has the provider's recipient in the column
-- of its channel, and the flag of that channel set.
pub providers_for-IsColumn :
    (config : Config) (user_id : ℕ) (rows : List PreferenceRow)
    → All
        (λ spec. Some (λ r. (r.user_id ≡ user_id) × IsColumn spec r) rows)
        (providers_for config user_id rows)
unfolding load_preferences
providers_for-IsColumn config user_id rows =
    All-imp (IsOwn (load_preferences user_id rows))
      (λ spec. Some (λ r. (r.user_id ≡ user_id) × IsColumn spec r) rows)
      (λ spec h. own_row user_id spec rows h) (providers_for config user_id rows)
      (loaded-IsOwn config user_id rows)
