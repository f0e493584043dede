-- ===== src/Notify/Fanout.antt =====
-- What the fan-out of ragra/adapters/notify.py reports and records.
use mathlib.Core.List.{append-nil, append_assoc}
use ragra_reminder.Prelude.{
  ◌∙◌, ◌≡◌, Bool, true, false, ◌||◌, List, [], ◌∷◌, ◌++◌, Text, arith, if◌then◌else◌,
}
use ragra_reminder.Store.{Db}
use ragra_reminder.Notify.{
  Provider, Notification, Recorder, send_loop, send_to_all_providers, or_unknown,
}

-- At least one provider accepts; and what the others say, in order.
abbrev pub any_accepts : List Provider → Notification → Bool
any_accepts [] n = false
any_accepts (p ∷ ps) n = (p.send n).ok || any_accepts ps n

abbrev pub refusals : List Provider → Notification → List Text
refusals [] n = []
refusals (p ∷ ps) n =
    let rest = refusals ps n in if (p.send n).ok then rest else or_unknown (p.send n).error ∷ rest

-- What the recorder is told, one call after the other.
abbrev pub recorded : List Provider → Notification → Recorder → Db → Db
recorded [] n on_attempt db = db
recorded (p ∷ ps) n on_attempt db = recorded ps n on_attempt (on_attempt p.name (p.send n) db)

send_loop_lem :
    (ps : List Provider) (n : Notification) (on_attempt : Recorder) (b : Bool) (es : List Text)
    (db : Db)
    → send_loop ps n on_attempt b es db
      ≡ (b || any_accepts ps n, es ++ refusals ps n, recorded ps n on_attempt db)
unfolding send_loop
send_loop_lem [] n on_attempt true es db = ground (arith, append-nil es)
send_loop_lem [] n on_attempt false es db = ground (arith, append-nil es)
send_loop_lem (p ∷ ps) n on_attempt b es db =
    send_loop_lem ps n on_attempt (b || (p.send n).ok)
      (if (p.send n).ok then es else es ++ or_unknown (p.send n).error ∷ [])
      (on_attempt p.name (p.send n) db)
    ∙ ground (arith, append_assoc es (or_unknown (p.send n).error ∷ []) (refusals ps n))

-- Every provider is asked, also after one has accepted: the answer says whether any accepted, the
-- errors are those of all that refused, in order, and the recorder hears of every attempt once.
pub send_to_all_providers_lem :
    (ps : List Provider) (n : Notification) (on_attempt : Recorder) (db : Db)
    → send_to_all_providers ps n on_attempt db
      ≡ (any_accepts ps n, refusals ps n, recorded ps n on_attempt db)
unfolding send_to_all_providers
send_to_all_providers_lem ps n on_attempt db = send_loop_lem ps n on_attempt false [] db
