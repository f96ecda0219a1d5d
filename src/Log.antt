-- ===== src/Log.antt =====
-- tw/log.h and tw/log.cc: levels, loggers and their appenders. An appender and an event are
-- numbers; Output has what an appender prints for an event. A lock makes each operation one step.
pub mod Appending
pub mod Output
pub mod Registry
mod Examples
use tw_server.Base.{
  ℕ, Bool, true, false, ◌&&◌, List, [], ◌∷◌, ◌++◌, Option, none, some, codes, leb, ◌==◌,
  if◌then◌else◌,
}
use tw_server.Base.Texts.{same_text}

pub data Level : Type 0 where
  debug : Level
  info : Level
  warn : Level
  error : Level
  fatal : Level

abbrev pub level_number : Level → ℕ
level_number debug = 1
level_number info = 2
level_number warn = 3
level_number error = 4
level_number fatal = 5

unfoldable pub level_to_string : Level → List ℕ
level_to_string debug = codes "DEBUG"
level_to_string info = codes "INFO"
level_to_string warn = codes "WARN"
level_to_string error = codes "ERROR"
level_to_string fatal = codes "FATAL"

-- The ladder of `StringToLevel`; what is no level is DEBUG.
abbrev pub first_level : List (List ℕ × Level) → List ℕ → Level
first_level [] str = debug
first_level ((name, l) ∷ rest) str = if same_text str name then l else first_level rest str

unfoldable pub string_to_level : List ℕ → Level
string_to_level = first_level (
    (codes "debug", debug)
    ∷ (codes "info", info)
    ∷ (codes "warn", warn)
    ∷ (codes "error", error)
    ∷ (codes "fatal", fatal)
    ∷ (codes "DEBUG", debug)
    ∷ (codes "INFO", info)
    ∷ (codes "WARN", warn)
    ∷ (codes "ERROR", error)
    ∷ (codes "FATAL", fatal)
    ∷ [])

pub record Logger : Type 0 where
  pub level : Level
  pub name : List ℕ
  pub appenders : List ℕ

abbrev pub is_member : ℕ → List ℕ → Bool
is_member a [] = false
is_member a (x ∷ l) = if x == a then true else is_member a l

abbrev pub without : ℕ → List ℕ → List ℕ
without a [] = []
without a (x ∷ l) = if x == a then l else x ∷ without a l

unfoldable pub add_appender : ℕ → Logger → Logger
add_appender a g =
    if is_member a g.appenders then g else record g { appenders = g.appenders ++ a ∷ [] }

unfoldable pub del_appender : ℕ → Logger → Logger
del_appender a g = record g { appenders = without a g.appenders }

-- `log(event)`: the calls of appenders in their order.
abbrev pub calls_of : ℕ → List ℕ → List (ℕ × ℕ)
calls_of event [] = []
calls_of event (a ∷ l) = (a, event) ∷ calls_of event l

unfoldable pub log : ℕ → Logger → List (ℕ × ℕ)
log event g = calls_of event g.appenders

-- TW_LOG_LEVEL: the event is logged when its wrapper is destroyed, if the logger's level allows.
unfoldable pub log_level : Level → ℕ → Logger → List (ℕ × ℕ)
unfolding log
log_level l event g = if leb (level_number g.level) (level_number l) then log event g else []
