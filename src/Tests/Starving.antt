-- ===== src/Tests/Starving.antt =====
-- include/utils/heap_timer.h with a timer of interval 0.
use snet.Prelude.{◌≡◌, refl, none, true, [], ◌∷◌, arith}
use snet.Timer.HeapTimer.{HeapTimer, timer_loop}
use snet.Timer.Starved.{IsAlone, timer_loop_starved}
use snet.Tests.Timers.{sorted_heap, env, env-IsCalm, new_timer, blank_node}

abbrev busy_timer : HeapTimer
busy_timer = record new_timer {
  nodes = λ p. record blank_node { loop = true };
  next_node = 1;
  heap_tree = 0 ∷ [];
}

busy_timer-IsAlone : IsAlone sorted_heap env-IsCalm 0 0 busy_timer
busy_timer-IsAlone = record { alone = refl; loop = refl; live = refl; every = refl }

timer_loop_starved_example : timer_loop sorted_heap env 1000 busy_timer ≡ none
timer_loop_starved_example =
    timer_loop_starved sorted_heap env-IsCalm 0 0 (λ handler t. refl) (λ n. omega arith) 1000
      busy_timer busy_timer-IsAlone (omega arith)
