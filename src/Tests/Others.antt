-- ===== src/Tests/Others.antt =====
-- Scopes, sleeps and loggers on concrete inputs.
use tang.Prelude.{ℕ, ◌≡◌, refl, true, none, some, [], ◌∷◌, arith}
use tang.Scheduler.Defs.{suspended}
use tang.Scheduler.Global.{Global}
use tang.RuntimeScope
use tang.RuntimeScope.{Event, play, step, makes}
use tang.RuntimeScope.{runs_first, inits, runs, construct}
use tang.RuntimeScope.Scheduler.{is_some, perform_all, Meets, play-Meets}
use tang.Scheduler.Defs.{new_scheduler}
use tang.Scheduler.Global
use tang.Logger.{LogLevel, warn_level, loggers, log, set_level, Console, codes}
use tang.Logger.Laws.{Prints, NoSlash, IsBehind, filename_of_lem}
use tang.Logger.Laws
use tang.Prelude.{List, ◌+◌, ◌==◌, if◌then◌else◌}
use tang.EventLoop.Defs.{Timer, EventLoop}
use tang.EventLoop.Callbacks.{swept, handle_timers_with}
use tang.EventLoop.Erasing.{without}
use tang.EventLoop.Cancelling.{firing, cancelled, handle_timers_with-Fires}

abbrev printed : LogLevel → Console
printed m =
    log [] (λ _. []) m (codes "text") (codes "a/b.h") 12
      (Laws.logger_of Laws.task (set_level warn_level loggers)) (record { cout = []; cerr = [] })

abbrev no_scheduler : Global ℕ
no_scheduler = record { g_scheduler = none; frame = λ _. suspended; user = 0 }

abbrev after_init : Global ℕ
after_init = record no_scheduler { g_scheduler = some (new_scheduler 2 2) }

abbrev after_run : Global ℕ
after_run = after_init

-- One scope, which runs, over a runtime whose runs end at once.
abbrev one_scope : List Event
one_scope = runs_first ∷ makes 2 ∷ []

play-Meets_example : Meets 2 (λ m. m) some runs after_init × (is_some after_run.g_scheduler ≡ true)
unfolding play step construct RuntimeScope.run perform_all Global.init Global.run
play-Meets_example =
    play-Meets 2 (λ m. m) some one_scope [] (inits 2 ∷ []) runs no_scheduler after_init after_run
      (omega arith) refl refl refl refl

-- Three timers that have run out at the time 20, and one that has not: the callback 5 cancels the timers 2
-- and 4.
abbrev timer : ℕ → ℕ → Timer
timer h t = record { handle = h; expire_time = t; callback = h + 4 }

abbrev four_timers : EventLoop
four_timers = record {
  running = true;
  next_timer_id = 5;
  timers = timer 1 10 ∷ timer 2 10 ∷ timer 3 10 ∷ timer 4 50 ∷ [];
}

abbrev cancels_two : ℕ → List ℕ
cancels_two cb = if cb == 5 then 2 ∷ 4 ∷ [] else []

handle_timers_with-Fires_example :
    (next : ℕ) × (handle_timers_with cancels_two 20 four_timers
      ≡ swept (record { kept = []; fired = 5 ∷ 7 ∷ []; next_timeout = next }))
unfolding firing cancelled without
handle_timers_with-Fires_example =
    handle_timers_with-Fires cancels_two 20 four_timers
      ((refl, (refl, (refl, tt))), ((refl, (refl, tt)), ((refl, tt), (tt, tt))))
      (refl, (refl, (refl, (refl, tt))))
