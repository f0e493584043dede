-- ===== src/Lib.antt =====
-- Ragra, an academic reminder service: it reads a student's Google Classroom account, keeps the tasks
-- in an SQLite database, plans reminders for each deadline and sends them over the student's channels.
-- This library models the part that decides: what is stored, what is planned, what is sent, and when.
--
-- The parts, and the files that model them:
--   * ragra/reminders/engine.py, in Engine: `compute_reminder_plan` and `reminder_message`. Children:
--     Window, Cadence and Moments, on when and which reminders are planned.
--   * ragra/db/repo.py, in Store: a `Db` is the database, a record of tables with the columns of
--     ragra/db/schema.sql and ragra/db/migrations/ (Store/Rows, Store/State). Reminders, Due, Chat,
--     Courses, Upsert, Tasks, Manual and Syncs are the functions of repo.py, by table. Tenant says what
--     one account sees of a database; Steps, how the reminders table changes; Overdue, Again
--     and Boundary are about the overdue pass, a repeated upsert and the user's own tasks.
--   * ragra/sync/classroom_sync.py, in Sync: `sync_classroom` with its helpers (Dates, Types, Items,
--     Upsert, Sources). Closed reduces a claim about a sync to its statements; Isolation, Reminders,
--     Stray, Discovery, Complete and Whole use it.
--   * ragra/adapters/notify.py, in Notify: the fan-out over the providers and the delivery log.
--   * ragra/reminders/dispatch.py, in Dispatch: the delivery of due reminders with bounded retry. Step,
--     Quiet, Isolation, Accounting and Budget are about the loop.
--   * ragra/reminders/nags.py, in Nags: repeating an alert until it is acknowledged.
--   * ragra/health.py, in Health: the failure streak of each pipeline component and its alert.
--   * ragra/sync/calendar_sync.py with the client of ragra/adapters/calendar.py, in Calendar:
--     `sync_task_event` and `sync_all_task_events`. Outcome, Settled, Whole, Again and Isolation are
--     about one task's turn, the loop, and a second run.
--   * ragra/tz.py, in Zones, and ragra/timetable/schedule.py, in Timetable: from the wall clock to
--     instants, and `expand_occurrences`; Window and Complete are about which occurrences it returns.
--     Hours is `resolve_24h_time_sequence` of ragra/timetable/normalize.py, Cells its `parse_course_cell`;
--     Match is ragra/timetable/match.py, Grid the extraction of ragra/adapters/fast_timetable.py.
--   * ragra/sync/timetable_sync.py, in TimetableSync (Read, Groups), over Store/Meetings. Untouched is
--     about a sync that fails.
--   * ragra/reminders/class_reminders.py, in ClassReminders, over Store/Classes: the claim of each class
--     and its announcement, whose text is in Message. Origin is about which classes are claimed, Claims and
--     Silence about a second pass.
--   * ragra/relevance/engine.py and sections.py, in Relevance: `is_relevant`. Sets, Symmetric and Evidence
--     are about what the decision rests on.
--   * the Telegram and WhatsApp functions of ragra/db/repo.py, in Links: link codes and who owns a chat,
--     the subject of Owner.
--   * ragra/relevance/profile.py, in Academic: the student's profile. Fallback is about accounts that
--     have none.
--   * ragra/notifications/preferences.py, in Preferences: `providers_for` and the welcome messages. Saved
--     and Own are about loading and about recipients.
--   * ragra/web/sessions.py, in Sessions: the table of signed-in sessions. Rows, Lookup, Lifetime and
--     Expiry are about a token's rows, signing in and out, and when a session ends.
--   * Prelude: the library names that all share, Boolean tests, and the SQL statements as functions on
--     lists (Prelude/Table) with their lemmas. Examples: data, and the theorems at that data.
--
-- How they interact: a sync calls the store to upsert courses and tasks, asks the engine for the plan of
-- each deadline and inserts it; a dispatch asks the store for the due reminders, sends each through
-- Notify, and writes the outcome back with an alert into the chat, which Nags repeats. The timetable
-- sync fills timetable_events, whose occurrences in the next 45 minutes ClassReminders claims and
-- announces. Preferences decides which providers a user has, and Relevance which items a sync puts aside.
--
-- Correspondence: a function keeps its name and the order of its arguments, the connection being a `Db`
-- that comes last and is returned beside the result. A moment is a number of microseconds since
-- 0001-01-01T00:00 UTC; the source stores moments as texts in one canonical form, whose order is the
-- same. All readings of the clock within one call are one argument, `clock`. Texts are lists of code
-- points. An SQL statement is `select`, `update_where`, `delete_where` or an append to the rows, and a
-- result that may be missing is an `Option`; a raised exception is a constructor of `Result` or
-- `Outcome`, or of a sum of the call's own (`Attempt`, `Expansion`, `TimetableOutcome`). The tables of
-- sessions, preferences, link codes and profiles, which share no statement with the rest, are lists of
-- rows beside the `Db`. The recursion is structural, on the rows or the items, and on the number of
-- days in a window, which `expand_occurrences` knows beforehand; only `decimal` has fuel, the number
-- itself.
--
-- Parameters, and what stands behind them: a provider is the function from a notification to its
-- answer; the Classroom client is the answers of its four calls; `is_relevant` with the profile of the
-- user, `repr` and `datetime.fromisoformat` are the functions of an `Environment`. Google Calendar is a
-- state with the answers of its three requests, and the spreadsheet client its tabs and their cells. The
-- hash of a session token is a function; the time zone is a `Zone` of functions; `int`, `str.upper`,
-- `str.lower` and the searches of regular expressions are arguments, or a `Strings` or a `CellPatterns`.
--
-- Not modelled: the web application, sign-in, configuration and the command line, which are glue and
-- I/O; the providers and Google clients, which talk to services; the OverflowError of `datetime` at the
-- ends of its range; failures of SQLite itself; the JSON text of a profile's courses, in place of which
-- the list of courses stands. The chat bot, the daily brief and the remaining queries of repo.py are
-- parts of the program that this library does not cover.
pub mod Academic
pub mod Calendar
pub mod ClassReminders
pub mod Dispatch
pub mod Engine
pub mod Examples
pub mod Health
pub mod Links
pub mod Nags
pub mod Notify
pub mod Preferences
pub mod Prelude
pub mod Relevance
pub mod Sessions
pub mod Store
pub mod Sync
pub mod Timetable
pub mod TimetableSync
pub mod Zones
