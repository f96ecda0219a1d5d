-- ===== src/Timer/Examples.antt =====
-- Runs of a manager with two timers (tw/timer.cc).
use tw_server.Base.{some, true, false, [], none}
use tw_server.Timer.{Timer, TimerManager, add_timer}

abbrev idle_timer : Timer
idle_timer = record { recurring = false; ms = 0; next = 0; cb = none }

abbrev no_timers : TimerManager
no_timers = record { heap = λ p. idle_timer; timers = []; previous_time = 0; flag = false }

-- A timer of 30 at the address 7 and a recurring one of 10 at the address 8, both made at time 100.
abbrev one_timer : TimerManager
one_timer = (add_timer 100 7 30 (some 1) false no_timers).0

abbrev two_timers : TimerManager
two_timers = (add_timer 100 8 10 (some 2) true one_timer).0
