-- ===== src/Tcp/Worker.antt =====
-- EpollWorker of include/tcp/epoll_worker.h: the epoll set, the timer descriptor, and the loop that
-- hands events to handlers and runs tasks. What the handlers do to the `World` and which tasks they
-- post is a parameter, as are the answers of the operating system.
use snet.Prelude.{
  ℕ, suc, ◌+◌, ◌*◌, ◌/◌, ◌%◌, ◌^◌, ◌<◌, ◌≡◌, ℤ, pos, negsuc, minus_one, List, [], ◌∷◌, ◌++◌, Option,
  none, some, ◌>>=◌, Bool, true, false, ltb, ◌==◌, if◌then◌else◌, arith,
}
use snet.Timer.MinHeap.{StdHeap}
use snet.Timer.HeapTimer
use snet.Timer.HeapTimer.{HeapTimer, TimerEnv}
use snet.Tcp.Types.{Events}
pub mod Registry
pub mod Batch
pub mod Rounds

-- `struct itimerspec`: when the timer first expires, and how often from then on.
pub record TimerSpec : Type 0 where
  pub value_sec : ℕ
  pub value_nsec : ℕ
  pub interval_sec : ℕ
  pub interval_nsec : ℕ

-- The system calls of a worker, in order. The 64 bits of `data` of an epoll event are the address of
-- a handler, or in the low 32 bits the descriptor of the timer.
pub data WorkerCall : Type 0 where
  ctl_add : ℤ → ℕ → Events → WorkerCall
  ctl_mod : ℤ → ℕ → Events → WorkerCall
  ctl_del : ℤ → WorkerCall
  close_fd : ℤ → WorkerCall
  settime : TimerSpec → WorkerCall

-- An event that `epoll_wait` stores.
pub record Ready : Type 0 where
  pub data_ : ℕ
  pub events : Events

-- What `epoll_wait` answers: EINTR, another error, or events.
pub data Waited : Type 0 where
  interrupted : Waited
  failed : Waited
  ready : List Ready → Waited

pub record Worker (World Task : Type 0) : Type 0 where
  pub world : World
  pub tasks : List Task
  pub timer : HeapTimer
  pub timer_fd : ℕ
  pub is_running : Bool
  pub calls : List WorkerCall

-- The flags that a timer descriptor is added with.
abbrev pub only_in : Events
only_in = record { et = false; in_ = true; out = false; err = false }

-- `sd > 0`
abbrev pub is_descriptor : ℤ → Bool
is_descriptor (pos n) = ltb 0 n
is_descriptor (negsuc n) = false

-- The `itimerspec` of `add_timer`: seconds, and an interval of microseconds.
unfoldable pub timer_spec : ℕ → ℕ → TimerSpec
timer_spec interval delay = record {
  value_sec = delay;
  value_nsec = 0;
  interval_sec = interval / 1000000;
  interval_nsec = interval % 1000000 * 1000;
}

module _ {World Task : Type 0} where
  abbrev pub call_os : WorkerCall → Worker World Task → Worker World Task
  call_os k w = record w { calls = w.calls ++ (k ∷ []) }

  -- `add_event`; `done` says whether `epoll_ctl` succeeds. A descriptor that is refused is closed.
  unfoldable pub add_event : Bool → ℤ → ℕ → Events → Worker World Task → Bool × Worker World Task
  add_event done sd handler evts w =
      let w' = call_os (WorkerCall.ctl_add sd handler evts) w in
      if is_descriptor sd
      then (if done then (true, w') else (false, call_os (WorkerCall.close_fd sd) w'))
      else (false, w)

  unfoldable pub mod_event : Bool → ℤ → ℕ → Events → Worker World Task → Bool × Worker World Task
  mod_event done sd handler evts w =
      let w' = call_os (WorkerCall.ctl_mod sd handler evts) w in
      if is_descriptor sd
      then (if done then (true, w') else (false, call_os (WorkerCall.close_fd sd) w'))
      else (false, w)

  unfoldable pub del_event : Bool → ℤ → Worker World Task → Bool × Worker World Task
  del_event done sd w =
      if is_descriptor sd then (done, call_os (WorkerCall.ctl_del sd) w) else (false, w)

  -- `add_timer`, for whether `timerfd_settime` and `epoll_ctl` succeed.
  unfoldable pub add_timer :
      Bool → Bool → Bool → ℕ → ℕ → Worker World Task → Bool × Worker World Task
  unfolding timer_spec
  add_timer set_done ctl_done mod_ interval delay w =
      let fd = pos w.timer_fd in
      let w₁ = call_os (WorkerCall.settime (timer_spec interval delay)) w in
      let k =
        if mod_
        then WorkerCall.ctl_mod fd w.timer_fd only_in
        else WorkerCall.ctl_add fd w.timer_fd only_in in
      if set_done then (ctl_done, call_os k w₁) else (false, w₁)

  unfoldable pub post_task : Task → Worker World Task → Worker World Task
  post_task task w = record w { tasks = w.tasks ++ (task ∷ []) }

  -- `start`, for whether `fcntl` succeeds and what `timerfd_create` returns, with the first call of
  -- the thread that it starts.
  unfoldable pub start : Bool → Option ℕ → Bool → Bool → Worker World Task → ℤ × Worker World Task
  unfolding add_timer
  start false fd set_done ctl_done w = (minus_one, w)
  start true none set_done ctl_done w = (minus_one, w)
  start true (some fd) set_done ctl_done w = (
    pos 0,
    (add_timer set_done ctl_done false 1 1 (record w { timer_fd = fd; is_running = true })).1,
  )

  -- `stop`, without the wait for the thread to end.
  unfoldable pub stop : Worker World Task → Worker World Task
  stop w = record w { is_running = false }

-- The rest of the program: a handler's `process_event`, for a fuel and its address, with the tasks that
-- it posts; a task; the timer's heap and handlers; and whether the calls that set the timer succeed.
pub record Around (World Task : Type 0) : Type 1 where
  pub process_event : ℕ → ℕ → Events → World → Option (World × List Task)
  pub perform : Task → World → World
  pub std : StdHeap
  pub env : TimerEnv
  pub set_done : Bool
  pub ctl_done : Bool

module _ {World Task : Type 0} (around : Around World Task) (fuel : ℕ) where
  -- The timer's descriptor is ready; `none` means that `timer_loop` ran out of fuel.
  unfoldable pub on_timer : Worker World Task → Option (Worker World Task)
  unfolding add_timer
  on_timer w = do
    (next, t) ← HeapTimer.timer_loop around.std around.env fuel w.timer
    some
        (add_timer around.set_done around.ctl_done true (next % 2 ^ 32) 1
          (record w { timer = t })).1

  -- `process_event` of the handler at an address; its calls of `post_task` come here.
  unfoldable pub on_handler : ℕ → Events → Worker World Task → Option (Worker World Task)
  on_handler handler evts w = do
    (world, posted) ← around.process_event fuel handler evts w.world
    some (record w { world = world; tasks = w.tasks ++ posted })

  -- One event of the loop of `run`: the timer's, if the low 32 bits are its descriptor, or that of a
  -- handler, if its address is not null.
  unfoldable pub on_event : Ready → Worker World Task → Option (Worker World Task)
  unfolding on_timer on_handler
  on_event r w =
      if r.data_ % 2 ^ 32 == w.timer_fd
      then on_timer w
      else (if r.data_ == 0 then some w else on_handler r.data_ r.events w)

  unfoldable pub on_events : List Ready → Worker World Task → Option (Worker World Task)
  unfolding on_event
  on_events [] w = some w
  on_events (r ∷ rs) w = on_event r w >>= on_events rs

  -- The tasks in the order in which they were posted. A task that posts another one changes the
  -- vector that is being read, which is undefined: a task changes the world only.
  unfoldable pub perform_all : List Task → World → World
  perform_all [] world = world
  perform_all (task ∷ tasks) world = perform_all tasks (around.perform task world)

  unfoldable pub run_tasks : Worker World Task → Worker World Task
  unfolding perform_all
  run_tasks w = record w { world = perform_all w.tasks w.world; tasks = [] }

  -- One round of the loop of `run`. An interrupted wait leaves the tasks for the next round.
  unfoldable pub round : Waited → Worker World Task → Option (Worker World Task)
  unfolding on_events run_tasks
  round Waited.interrupted w = some w
  round Waited.failed w = some (run_tasks w)
  round (Waited.ready rs) w = on_events rs w >>= λ w'. some (run_tasks w')

  -- `run`, for what `epoll_wait` answers.
  unfoldable pub run : List Waited → Worker World Task → Option (Worker World Task)
  unfolding round
  run [] w = some w
  run (a ∷ answers) w = if w.is_running then round a w >>= run answers else some w
