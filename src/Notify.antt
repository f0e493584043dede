-- ===== src/Notify.antt =====
-- ragra/adapters/notify.py: the provider-neutral boundary through which every message goes.
--
-- A provider (SMTP, Telegram, WhatsApp, Hermes) is not modelled: it is what it answers when it is
-- asked to send, a parameter of everything that sends.
pub mod Fanout
use ragra_reminder.Prelude.{
  ℕ, ◌≡◌, ◌+◌, Bool, true, false, ◌||◌, Option, none, some, List, [], ◌∷◌, ◌++◌, Text, codes, arith,
  length, count_where, is_empty, if◌then◌else◌, not,
}
use ragra_reminder.Store.{Category, LinkPath, Delivery, Db}

pub record NotifyResult : Type 0 where
  pub ok : Bool
  pub error : Option Text
  pub code : Option Text

pub record Notification : Type 0 where
  pub text : Text
  pub reminder_id : Option ℕ
  pub category : Option Category
  pub link_path : Option LinkPath

pub record Provider : Type 0 where
  pub name : Text
  pub send : Notification → NotifyResult

-- `record_notification_delivery` of ragra/db/repo.py
unfoldable pub record_notification_delivery :
    ℕ → Text → Bool → Option ℕ → Option Category → Option Text → ℕ → Db → Db
record_notification_delivery user_id provider ok reminder_id category error clock db = record db {
  deliveries =
      db.deliveries
      ++ record {
        user_id = user_id;
        reminder_id = reminder_id;
        category = category;
        provider = provider;
        ok = ok;
        error = error;
        attempted_at = clock;
      }
        ∷ [];
}

-- `x or "unknown error"`
abbrev pub or_unknown : Option Text → Text
or_unknown none = codes "unknown error"
or_unknown (some e) = if is_empty e then codes "unknown error" else e

-- The callback that records one attempt.
abbrev pub Recorder : Type 0
Recorder = Text → NotifyResult → Db → Db

-- The loop: each provider is asked, in order, whatever the others answered.
send_loop : List Provider → Notification → Recorder → Bool → List Text → Db → Bool × List Text × Db
send_loop [] notification on_attempt delivered errors db = (delivered, errors, db)
send_loop (p ∷ ps) notification on_attempt delivered errors db =
    let result = p.send notification in
    send_loop ps notification on_attempt (delivered || result.ok)
      (if result.ok then errors else errors ++ or_unknown result.error ∷ [])
      (on_attempt p.name result db)

unfoldable pub send_to_all_providers :
    List Provider → Notification → Recorder → Db → Bool × List Text × Db
unfolding send_loop
send_to_all_providers providers notification on_attempt db =
    send_loop providers notification on_attempt false [] db

-- `"; ".join(errors) or "unknown error"`
abbrev pub join_errors : List Text → Text
join_errors [] = []
join_errors (e ∷ []) = e
join_errors (e ∷ f ∷ rest) = e ++ (codes "; " ++ join_errors (f ∷ rest))

abbrev pub error_text : List Text → Text
error_text errors = or_unknown (some (join_errors errors))
