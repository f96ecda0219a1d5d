-- ===== src/Log/Output.antt =====
-- What the appenders of a logger write (tw/log.cc).
use tw_server.Base.{
  ℕ, zero, suc, ◌+◌, ◌%◌, ◌^◌, ◌≡◌, refl, ap, sym, ◌∙◌, Bool, true, false, List, [], ◌∷◌, ◌++◌,
  if◌then◌else◌, leb, ◌==◌, codes, append_assoc, append-nil, Bool-cases, inl, inr, arith,
}
use tw_server.Http.Message.{to_decimal}
use tw_server.Log.{Level, level_number, level_to_string, Logger, calls_of, log, log_level}

-- LogEvent; `date` is its time as strftime prints it.
pub record LogEvent : Type 0 where
  pub file : List ℕ
  pub line : ℕ
  pub elapse : ℕ
  pub thread_id : ℕ
  pub fiber_id : ℕ
  pub date : List ℕ
  pub level : Level
  pub content : List ℕ

-- `LogEvent::LogEvent` at the time `now` in milliseconds, which replaces the argument `elapse` and
-- is kept in 32 bits.
unfoldable pub new_event : ℕ → List ℕ → ℕ → ℕ → ℕ → List ℕ → Level → List ℕ → LogEvent
new_event now file line thread_id fiber_id date level content = record {
  file = file;
  line = line % 2 ^ 32;
  elapse = now % 2 ^ 32;
  thread_id = thread_id % 2 ^ 32;
  fiber_id = fiber_id % 2 ^ 32;
  date = date;
  level = level;
  content = content;
}

-- The line that both appenders print.
unfoldable pub line_of : Logger → LogEvent → List ℕ
unfolding level_to_string to_decimal
line_of g e =
    codes "["
    ++ (e.date
        ++ (codes " "
            ++ (to_decimal e.elapse
                ++ (codes "] "
                    ++ (to_decimal e.thread_id
                        ++ (codes " "
                            ++ (to_decimal e.fiber_id
                                ++ (codes " ["
                                    ++ (level_to_string e.level
                                        ++ (codes "]"
                                            ++ (g.name
                                                ++ (codes " "
                                                    ++ (e.file
                                                        ++ (codes ":"
                                                            ++ (to_decimal e.line
                                                            ++ (codes " "
                                                            ++ (e.content
                                                            ++ (10 ∷ []))))))))))))))))))

-- An appender: the standard output, or a file that did or did not open.
pub data Sink : Type 0 where
  stdout : Sink
  file_sink : Bool → Sink

-- `StdoutLogAppender::log` and `FileLogAppender::log`: what is written.
unfoldable pub append_log : Sink → Logger → LogEvent → List ℕ
unfolding line_of
append_log stdout g e = line_of g e
append_log (file_sink true) g e = line_of g e
append_log (file_sink false) g e = []

-- What an appender writes for the calls of `Logger::log`, whose events are places in a list.
abbrev pub written : (ℕ → LogEvent) → Sink → ℕ → Logger → List (ℕ × ℕ) → List ℕ
written events s a g [] = []
written events s a g ((b, e) ∷ l) =
    (if b == a then append_log s g (events e) else []) ++ written events s a g l

-- Statements of TW_LOG_LEVEL one after the other, each with its level and its event.
unfoldable pub log_all : List (Level × ℕ) → Logger → List (ℕ × ℕ)
unfolding log_level
log_all [] g = []
log_all ((l, e) ∷ r) g = log_level l e g ++ log_all r g

-- The lines of the statements that the logger's level lets through.
abbrev pub lines_of : (ℕ → LogEvent) → Logger → List (Level × ℕ) → List ℕ
lines_of events g [] = []
lines_of events g ((l, e) ∷ r) =
    (if leb (level_number g.level) (level_number l) then line_of g (events e) else [])
    ++ lines_of events g r

written-append :
    (events : ℕ → LogEvent) (s : Sink) (a : ℕ) (g : Logger) (c d : List (ℕ × ℕ))
    → written events s a g (c ++ d) ≡ written events s a g c ++ written events s a g d
written-append events s a g [] d = refl
written-append events s a g ((b, e) ∷ c) d =
    let piece = if b == a then append_log s g (events e) else [] in
    ap (λ t. piece ++ t) (written-append events s a g c d)
    ∙ sym (append_assoc piece (written events s a g c) (written events s a g d))

-- How often an appender is in a list.
abbrev pub occurrences : ℕ → List ℕ → ℕ
occurrences a [] = 0
occurrences a (b ∷ l) = (if b == a then 1 else 0) + occurrences a l

abbrev copies : ℕ → List ℕ → List ℕ
copies zero t = []
copies (suc n) t = t ++ copies n t

copies_of_sum :
    (b : Bool) (n : ℕ) (t : List ℕ)
    → copies ((if b then 1 else 0) + n) t ≡ (if b then t else []) ++ copies n t
copies_of_sum true n t = ap (λ k. copies k t) {x = 1 + n} {y = suc n} (omega arith)
copies_of_sum false n t = ap (λ k. copies k t) {x = 0 + n} {y = n} (omega arith)

-- For one event an appender writes as often as it is attached.
written_calls :
    (events : ℕ → LogEvent) (s : Sink) (a : ℕ) (g : Logger) (e : ℕ) (l : List ℕ)
    → written events s a g (calls_of e l) ≡ copies (occurrences a l) (append_log s g (events e))
written_calls events s a g e [] = refl
written_calls events s a g e (b ∷ l) =
    ap (λ t. (if b == a then append_log s g (events e) else []) ++ t)
      (written_calls events s a g e l)
    ∙ sym (copies_of_sum (b == a) (occurrences a l) (append_log s g (events e)))

abbrev pub is_open : Sink → Bool
is_open stdout = true
is_open (file_sink opened) = opened

append_log_open :
    (s : Sink) (g : Logger) (e : LogEvent) → is_open s ≡ true → append_log s g e ≡ line_of g e
unfolding append_log
append_log_open stdout g e h = refl
append_log_open (file_sink true) g e h = refl
append_log_open (file_sink false) g e h = cc

-- An appender that is attached once to a logger, and whose file is open if it has one, writes for
-- any statements one after the other the lines of those whose level the logger lets through, each
-- once, in their order, and nothing else.
pub written-log_all :
    (events : ℕ → LogEvent) (s : Sink) (a : ℕ) (g : Logger) (r : List (Level × ℕ))
    → occurrences a g.appenders ≡ 1
    → is_open s ≡ true
    → written events s a g (log_all r g) ≡ lines_of events g r
unfolding log_all log_level log
written-log_all events s a g [] h o = refl
written-log_all events s a g ((l, e) ∷ r) h o =
    let rest = written-log_all events s a g r h o in
    elim (Bool-cases (leb (level_number g.level) (level_number l))) [
      | inl k ↦ rw k (
          written-append events s a g (calls_of e g.appenders) (log_all r g)
          ∙ ap (λ t. t ++ written events s a g (log_all r g))
              (written_calls events s a g e g.appenders
                ∙ ap (λ n. copies n (append_log s g (events e))) h
                ∙ append-nil (append_log s g (events e))
                ∙ append_log_open s g (events e) o)
          ∙ ap (λ t. line_of g (events e) ++ t) rest)
      | inr k ↦ rw k rest
    ]
