-- ===== src/Examples/Channels.antt =====
-- A user's channels and a student's sections, and the theorems on preferences and relevance at them.
use ragra_reminder.Prelude.{
  ◌≡◌, refl, if◌then◌else◌, true, false, none, some, List, [], ◌∷◌, codes, arith, All, Some,
  text_eq,
}
use ragra_reminder.Sync.Types.{Decision}
use ragra_reminder.Preferences.{
  NotificationPreferences, PreferenceRow, Config, all_off, preference_row, load_preferences,
  save_preferences, providers_for,
}
use ragra_reminder.Preferences.Saved.{load_preferences-save_preferences}
use ragra_reminder.Preferences.Own.{IsColumn, providers_for-IsColumn}
use ragra_reminder.Relevance.{
  Strings, Profile, is_relevant, find_course_key, extract_sections, section_letter,
  normalize_section, normalize_course_text,
}
use ragra_reminder.Relevance.Symmetric.{is_relevant_sym}
use ragra_reminder.Relevance.Evidence.{IsElsewhere, is_relevant_evidence}
use ragra_reminder.Academic.{Legacy, fall, load_profile, labels_of}
use ragra_reminder.Academic.Fallback.{unconfigured_sees_all}
use ragra_reminder.Links.{connect_telegram_chat, user_id_for_telegram}
use ragra_reminder.Links.Owner.{user_id_for_telegram-connect_telegram_chat}
use ragra_reminder.Examples.{now}

abbrev by_telegram : NotificationPreferences
by_telegram = record all_off { telegram_enabled = true; telegram_chat_id = some (codes "77") }

abbrev rows : List PreferenceRow
rows = preference_row 2 by_telegram now ∷ []

abbrev config : Config
config = record {
  hermes_bin = none;
  notify_target = none;
  email_to = none;
  smtp_host = none;
  smtp_port = 587;
  smtp_username = none;
  smtp_password = none;
  smtp_use_ssl = false;
  email_from = none;
  web_base_url = none;
  brevo_api_key = none;
  whatsapp_token = none;
  whatsapp_phone_number_id = none;
  whatsapp_template = none;
  whatsapp_template_lang = codes "en";
  telegram_bot_token = some (codes "bot");
}

load_preferences-save_preferences_example :
    (load_preferences 1 (save_preferences 1 by_telegram now rows) ≡ by_telegram)
    × (load_preferences 2 (save_preferences 1 by_telegram now rows) ≡ load_preferences 2 rows)
load_preferences-save_preferences_example =
    load_preferences-save_preferences 1 2 by_telegram now rows (ground arith)

providers_for-IsColumn_example :
    All (λ spec. Some (λ r. (r.user_id ≡ 2) × IsColumn spec r) rows) (providers_for config 2 rows)
providers_for-IsColumn_example = providers_for-IsColumn config 2 rows

-- Texts in the right case already, in which a mention is "Section" and a letter at the end.
abbrev pub strings : Strings
strings = record {
  upper = λ t. t;
  lower = λ t. t;
  all_sections = λ t. false;
  section_range = λ t. false;
  section_mention = λ t. if text_eq t (codes "Section C") then some (codes "C") else none;
  letter_split = λ t. t ∷ [];
}

abbrev profile : Profile
profile = record { section_labels = (codes "logic", codes "CS-G") ∷ [] }

is_relevant_sym_example :
    is_relevant strings (codes "Section C") (codes "Quiz") (codes "logic") profile
    ≡ is_relevant strings (codes "Quiz") (codes "Section C") (codes "logic") profile
is_relevant_sym_example =
    is_relevant_sym strings (codes "Section C") (codes "Quiz") (codes "logic") profile

put_aside :
    is_relevant strings (codes "Section C") (codes "Quiz") (codes "logic") profile
    ≡ Decision.other_section
unfolding is_relevant find_course_key extract_sections section_letter normalize_section
    normalize_course_text text_eq
put_aside = refl

is_relevant_evidence_example :
    IsElsewhere strings
      (find_course_key strings (codes "logic") profile)
      (extract_sections strings (codes "Section C"))
      (extract_sections strings (codes "Quiz"))
is_relevant_evidence_example =
    is_relevant_evidence strings (codes "Section C") (codes "Quiz") (codes "logic") profile
      put_aside

abbrev legacy : Legacy
legacy = record {
  target_program = codes "CS";
  target_batch_year = codes "2025";
  start_year = 2025;
  start_term = fall;
  my_enrollment = [];
}

unconfigured_sees_all_example : ¬ (
    is_relevant strings
      (codes "Section C")
      (codes "Quiz")
      (codes "logic")
      (labels_of (load_profile legacy (some 1) 2 (record { year = 2026; month = 11 }) []))
    ≡ Decision.other_section)
unconfigured_sees_all_example =
    unconfigured_sees_all legacy (some 1) 2 (record { year = 2026; month = 11 }) [] strings
      (codes "Section C") (codes "Quiz") (codes "logic") refl refl

user_id_for_telegram-connect_telegram_chat_example :
    user_id_for_telegram (codes "77") (connect_telegram_chat 1 (codes "77") now rows) ≡ some 1
user_id_for_telegram-connect_telegram_chat_example =
    user_id_for_telegram-connect_telegram_chat 1 (codes "77") now rows (ground arith)
