-- ===== src/Log/Examples.antt =====
-- A logger whose appenders come and go (tw/log.cc).
use tw_server.Base.{ℕ, true, ◌↔◌, ◌≡◌, refl, [], ◌∷◌, codes}
use tw_server.Log.{Logger, warn, log, level_to_string, string_to_level, Level}
use tw_server.Log.Output.{
  LogEvent, line_of, file_sink, written, log_all, lines_of, occurrences, written-log_all,
}
use tw_server.Log.Registry.{new_manager, get_logger, get_loggers, get_logger-shared}

abbrev silent : Logger
silent = record { level = warn; name = codes "system"; appenders = [] }

read_back : (l : Level) → string_to_level (level_to_string l) ≡ l
unfolding string_to_level level_to_string
read_back Level.debug = refl
read_back Level.info = refl
read_back Level.warn = refl
read_back Level.error = refl
read_back Level.fatal = refl

abbrev to_both : Logger
to_both = record { level = warn; name = codes "system"; appenders = 3 ∷ 7 ∷ [] }

abbrev event : ℕ → LogEvent
event i = record {
  file = codes "a.cc";
  line = i;
  elapse = 5;
  thread_id = 1;
  fiber_id = 0;
  date = codes "2024-01-01 00:00:00";
  level = warn;
  content = codes "hi";
}

written-log_all_example :
    written event
      (file_sink true)
      7
      to_both
      (log_all ((Level.info, 1) ∷ (Level.error, 2) ∷ (warn, 3) ∷ []) to_both)
    ≡ lines_of event to_both ((Level.info, 1) ∷ (Level.error, 2) ∷ (warn, 3) ∷ [])
unfolding log
written-log_all_example =
    written-log_all event (file_sink true) 7 to_both
      ((Level.info, 1) ∷ (Level.error, 2) ∷ (warn, 3) ∷ []) attached refl
  where
    attached : occurrences 7 to_both.appenders ≡ 1
    attached = refl

printed : line_of to_both (event 9) ≡ codes "[2024-01-01 00:00:00 5] 1 0 [WARN]system a.cc:9 hi\n"
unfolding line_of
printed = refl

get_logger-shared_example :
    let r = get_logger (codes "http") (get_loggers (codes "system" ∷ []) new_manager) in
    let q = get_logger (codes "http") (get_loggers (codes "root" ∷ []) (r.0)) in
    (r.1 ≡ q.1) ↔ (codes "http" ≡ codes "http")
get_logger-shared_example =
    get_logger-shared (codes "system" ∷ []) (codes "root" ∷ []) (codes "http") (codes "http")
