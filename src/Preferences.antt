-- ===== src/Preferences.antt =====
-- ragra/notifications/preferences.py: where each user's messages go.
pub mod Saved
pub mod Own
use ragra_reminder.Prelude.{
  ℕ, Bool, true, false, not, ◌&&◌, ◌||◌, Option, none, some, List, [], ◌∷◌, ◌++◌, Text, codes,
  text_eq, ◌==◌, option_eq, if◌then◌else◌, is_empty, is_none, is_some, select, fetchone, exists_row,
  update_where,
}
use ragra_reminder.Store.{welcome, page}
use ragra_reminder.Notify.{Notification}

pub record NotificationPreferences : Type 0 where
  pub email_enabled : Bool
  pub email_to : Option Text
  pub hermes_enabled : Bool
  pub hermes_target : Option Text
  pub whatsapp_enabled : Bool
  pub whatsapp_to : Option Text
  pub telegram_enabled : Bool
  pub telegram_chat_id : Option Text

abbrev pub all_off : NotificationPreferences
all_off = record {
  email_enabled = false;
  email_to = none;
  hermes_enabled = false;
  hermes_target = none;
  whatsapp_enabled = false;
  whatsapp_to = none;
  telegram_enabled = false;
  telegram_chat_id = none;
}

-- The truth value of an optional text, and the text if it is true.
abbrev pub given : Option Text → Option Text
given none = none
given (some t) = if is_empty t then none else some t

abbrev pub destination : Bool → Option Text → Option Text
destination false to = none
destination true to = given to

unfoldable pub any_channel_configured : NotificationPreferences → Bool
any_channel_configured p =
    is_some (destination p.email_enabled p.email_to)
    || (is_some (destination p.hermes_enabled p.hermes_target)
        || (is_some (destination p.whatsapp_enabled p.whatsapp_to)
            || is_some (destination p.telegram_enabled p.telegram_chat_id)))

-- A row of `notification_preferences`. A flag is an INTEGER column.
pub record PreferenceRow : Type 0 where
  pub user_id : ℕ
  pub email_enabled : ℕ
  pub email_to : Option Text
  pub hermes_enabled : ℕ
  pub hermes_target : Option Text
  pub whatsapp_enabled : ℕ
  pub whatsapp_to : Option Text
  pub telegram_enabled : ℕ
  pub telegram_chat_id : Option Text
  pub created_at : ℕ
  pub updated_at : ℕ

-- Python's `bool` of an integer.
abbrev pub bool : ℕ → Bool
bool n = not (n == 0)

-- `1 if b else 0`
abbrev pub flag : Bool → ℕ
flag b = if b then 1 else 0

abbrev pub is_row_of : ℕ → PreferenceRow → Bool
is_row_of user_id r = r.user_id == user_id

abbrev pub loaded : Option PreferenceRow → NotificationPreferences
loaded none = all_off
loaded (some r) = record {
  email_enabled = bool r.email_enabled;
  email_to = r.email_to;
  hermes_enabled = bool r.hermes_enabled;
  hermes_target = r.hermes_target;
  whatsapp_enabled = bool r.whatsapp_enabled;
  whatsapp_to = r.whatsapp_to;
  telegram_enabled = bool r.telegram_enabled;
  telegram_chat_id = r.telegram_chat_id;
}

unfoldable pub load_preferences : ℕ → List PreferenceRow → NotificationPreferences
load_preferences user_id rows = loaded (fetchone (select (is_row_of user_id) rows))

-- The row that the INSERT offers.
abbrev pub preference_row : ℕ → NotificationPreferences → ℕ → PreferenceRow
preference_row user_id preferences now = record {
  user_id = user_id;
  email_enabled = flag preferences.email_enabled;
  email_to = preferences.email_to;
  hermes_enabled = flag preferences.hermes_enabled;
  hermes_target = preferences.hermes_target;
  whatsapp_enabled = flag preferences.whatsapp_enabled;
  whatsapp_to = preferences.whatsapp_to;
  telegram_enabled = flag preferences.telegram_enabled;
  telegram_chat_id = preferences.telegram_chat_id;
  created_at = now;
  updated_at = now;
}

-- ON CONFLICT(user_id) DO UPDATE SET, with the offered row as `excluded`.
abbrev pub replaced : PreferenceRow → PreferenceRow → PreferenceRow
replaced excluded r = record r {
  email_enabled = excluded.email_enabled;
  email_to = excluded.email_to;
  hermes_enabled = excluded.hermes_enabled;
  hermes_target = excluded.hermes_target;
  whatsapp_enabled = excluded.whatsapp_enabled;
  whatsapp_to = excluded.whatsapp_to;
  telegram_enabled = excluded.telegram_enabled;
  telegram_chat_id = excluded.telegram_chat_id;
  updated_at = excluded.updated_at;
}

unfoldable pub save_preferences :
    ℕ → NotificationPreferences → ℕ → List PreferenceRow → List PreferenceRow
save_preferences user_id preferences now rows =
    if exists_row (is_row_of user_id) rows
    then update_where (is_row_of user_id) (replaced (preference_row user_id preferences now)) rows
    else rows ++ preference_row user_id preferences now ∷ []

-- The settings of the deployment that this module reads.
pub record Config : Type 0 where
  pub hermes_bin : Option Text
  pub notify_target : Option Text
  pub email_to : Option Text
  pub smtp_host : Option Text
  pub smtp_port : ℕ
  pub smtp_username : Option Text
  pub smtp_password : Option Text
  pub smtp_use_ssl : Bool
  pub email_from : Option Text
  pub web_base_url : Option Text
  pub brevo_api_key : Option Text
  pub whatsapp_token : Option Text
  pub whatsapp_phone_number_id : Option Text
  pub whatsapp_template : Option Text
  pub whatsapp_template_lang : Text
  pub telegram_bot_token : Option Text

-- A provider by its class and the arguments of its constructor; the recipient comes first.
pub data ProviderSpec : Type 0 where
  hermes_provider : Text → Text → ProviderSpec
  whatsapp_provider : Text → Text → Text → Option Text → Text → Option Text → ProviderSpec
  telegram_provider : Text → Text → Option Text → ProviderSpec
  brevo_provider : Text → Text → Text → Option Text → ProviderSpec
  smtp_provider :
      Text → Text → ℕ → Text → Option Text → Option Text → Bool → Option Text → ProviderSpec

abbrev pub hermes_part : Option Text → Option Text → List ProviderSpec
hermes_part none bin = []
hermes_part (some to) none = []
hermes_part (some to) (some bin) = hermes_provider to bin ∷ []

abbrev pub whatsapp_part : Config → Option Text → Option Text → Option Text → List ProviderSpec
whatsapp_part config none token phone = []
whatsapp_part config (some to) none phone = []
whatsapp_part config (some to) (some token) none = []
whatsapp_part config (some to) (some token) (some phone) =
    whatsapp_provider to token phone config.whatsapp_template config.whatsapp_template_lang
      config.web_base_url
    ∷ []

abbrev pub telegram_part : Config → Option Text → Option Text → List ProviderSpec
telegram_part config none token = []
telegram_part config (some to) none = []
telegram_part config (some to) (some token) = telegram_provider to token config.web_base_url ∷ []

abbrev pub smtp_part : Config → Text → Text → Option Text → List ProviderSpec
smtp_part config to sender none = []
smtp_part config to sender (some host) =
    smtp_provider to host config.smtp_port sender config.smtp_username config.smtp_password
      config.smtp_use_ssl config.web_base_url
    ∷ []

-- Brevo, if it is configured; SMTP otherwise.
abbrev pub email_part : Config → Option Text → Option Text → Option Text → List ProviderSpec
email_part config none sender key = []
email_part config (some to) none key = []
email_part config (some to) (some sender) none = smtp_part config to sender (given config.smtp_host)
email_part config (some to) (some sender) (some key) =
    brevo_provider to key sender config.web_base_url ∷ []

abbrev pub providers_of : Config → NotificationPreferences → List ProviderSpec
providers_of config p =
    hermes_part (destination p.hermes_enabled p.hermes_target) config.hermes_bin
    ++ (whatsapp_part config (destination p.whatsapp_enabled p.whatsapp_to)
          (given config.whatsapp_token) (given config.whatsapp_phone_number_id)
        ++ (telegram_part config (destination p.telegram_enabled p.telegram_chat_id)
              (given config.telegram_bot_token)
            ++ email_part config (destination p.email_enabled p.email_to) (given config.email_from)
                (given config.brevo_api_key)))

unfoldable pub providers_for : Config → ℕ → List PreferenceRow → List ProviderSpec
unfolding load_preferences
providers_for config user_id rows = providers_of config (load_preferences user_id rows)

unfoldable pub adopt_environment_defaults :
    Config → ℕ → ℕ → List PreferenceRow → Bool × List PreferenceRow
unfolding save_preferences
adopt_environment_defaults config user_id now rows =
    if exists_row (is_row_of user_id) rows
    then (false, rows)
    else if is_none (given config.notify_target) && is_none (given config.email_to)
    then (false, rows)
    else (
      true,
      save_preferences user_id
          (record all_off {
            email_enabled = is_some (given config.email_to);
            email_to = config.email_to;
            hermes_enabled = is_some (given config.notify_target);
            hermes_target = config.notify_target;
          })
          now rows,
    )

pub data Channel : Type 0 where
  email_channel hermes_channel whatsapp_channel telegram_channel : Channel

-- On, and just now or to another destination.
abbrev pub needs_welcome : Bool → Option Text → Bool → Option Text → Bool
needs_welcome before_enabled before_to enabled to =
    is_some (destination enabled to) && (not before_enabled || not (option_eq text_eq before_to to))

abbrev pub when : Bool → Channel → List Channel
when true c = c ∷ []
when false c = []

unfoldable pub channels_needing_welcome :
    NotificationPreferences → NotificationPreferences → List Channel
channels_needing_welcome before after =
    when (needs_welcome before.email_enabled before.email_to after.email_enabled after.email_to)
      email_channel
    ++ (when
          (needs_welcome before.hermes_enabled before.hermes_target after.hermes_enabled
            after.hermes_target)
          hermes_channel
        ++ (when
              (needs_welcome before.whatsapp_enabled before.whatsapp_to after.whatsapp_enabled
                after.whatsapp_to)
              whatsapp_channel
            ++ when
                (needs_welcome before.telegram_enabled before.telegram_chat_id
                  after.telegram_enabled after.telegram_chat_id)
                telegram_channel))

-- `isinstance(p, _CHANNEL_PROVIDERS[channel])`
abbrev pub serves : Channel → ProviderSpec → Bool
serves email_channel (smtp_provider to host port sender username password ssl base) = true
serves email_channel (brevo_provider to key sender base) = true
serves hermes_channel (hermes_provider to bin) = true
serves whatsapp_channel (whatsapp_provider to token phone template lang base) = true
serves telegram_channel (telegram_provider to token base) = true
serves _ _ = false

abbrev pub any_serves : List Channel → ProviderSpec → Bool
any_serves [] p = false
any_serves (c ∷ cs) p = serves c p || any_serves cs p

unfoldable pub welcome_providers :
    Config → ℕ → List Channel → List PreferenceRow → List ProviderSpec
unfolding providers_for
welcome_providers config user_id channels rows =
    select (any_serves channels) (providers_for config user_id rows)

abbrev pub welcome_text : Text
welcome_text =
    codes
      "Welcome to Ragra! This is a test message to confirm your reminders are set up. From now on you will get a heads-up here a week, five days, two days and an hour before each deadline. You can change or switch this off any time on your Account page."

abbrev pub welcome_notification : Notification
welcome_notification = record {
  text = welcome_text;
  reminder_id = none;
  category = some welcome;
  link_path = some (page (codes "/account"));
}

-- One line of `describe`.
abbrev pub described : Text → Option Text → Text
described shown none = codes "off"
described shown (some to) = codes "on -> " ++ (shown ++ to)

pub record Description : Type 0 where
  pub email : Text
  pub hermes : Text
  pub whatsapp : Text
  pub telegram : Text

unfoldable pub describe : NotificationPreferences → Description
describe p = record {
  email = described [] (destination p.email_enabled p.email_to);
  hermes = described [] (destination p.hermes_enabled p.hermes_target);
  whatsapp = described (codes "+") (destination p.whatsapp_enabled p.whatsapp_to);
  telegram =
      if is_some (destination p.telegram_enabled p.telegram_chat_id)
      then codes "on -> connected chat"
      else codes "off";
}
