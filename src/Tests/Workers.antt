-- ===== src/Tests/Workers.antt =====
-- include/tcp/epoll_worker.h with a factory of two connections, one of which is closing.
use snet.Prelude.{
  ℕ, ◌≤◌, ◌≡◌, ◌≢◌, refl, ap, sym, ◌∙◌, Bool, Bool-cases, List, [], ◌∷◌, true, false, length, take,
  length-take, min, ◌==◌, if◌then◌else◌, nat_key, inl, inr, arith,
}
use snet.Tcp.Types.{conn_closing, conn_closed, Events, Conn, Kernel, RecvResult}
use snet.Tcp.Factory.{Factory, IsFactory}
use snet.Tcp.Sending.{TakesSome}
use snet.Tcp.Status.{default_handler}
use snet.Tcp.Keeps.{Keeps-refl}
use snet.Tcp.Reading.{IsQuiet}
use snet.Tcp.Reader.{IsReader, RunsDry}
use snet.Tcp.Closing.{Comes, process_event-Ends}
use snet.Tcp.Worker.{Ready, Worker}
use snet.Tcp.Worker.Registry.{IsDriven, IsServing}
use snet.Tcp.Worker.Rounds.{Served, round-Served}
use snet.Tcp.Worker.Batch.{IsBatch}
use snet.Tests.Connections.{open_conn, slow_kernel, slow_kernel-TakesSome}
use snet.Tests.Timers.{sorted_heap, env, new_timer}

-- A kernel with three bytes to read, once, that takes two bytes at a time.
abbrev kernel : Kernel
kernel = record slow_kernel {
  recv = λ n room.
      if n == 0 then RecvResult.received (take room (1 ∷ 2 ∷ 3 ∷ [])) else RecvResult.would_block;
}

received-same : (a b : List ℕ) → RecvResult.received a ≡ RecvResult.received b → a ≡ b
received-same a b e = cc

kernel-TakesSome : TakesSome kernel
kernel-TakesSome = record {
  some_byte = slow_kernel-TakesSome.some_byte;
  no_more = slow_kernel-TakesSome.no_more;
}

kernel-no_more :
    (n room : ℕ) (bytes : List ℕ)
    → kernel.recv n room ≡ RecvResult.received bytes
    → length bytes ≤ room
kernel-no_more n room bytes e = elim (Bool-cases (n == 0)) [
  | inl first ↦
      let given : RecvResult.received (take room (1 ∷ 2 ∷ 3 ∷ [])) ≡ RecvResult.received bytes =
        ground arith in
      let same = received-same _ bytes given in
      let size : length bytes ≡ min room 3 =
        ap length (sym same) ∙ length-take room (1 ∷ 2 ∷ 3 ∷ []) in
      omega arith
  | inr later ↦ absurd (ground arith)
]

kernel-dry :
    (n room : ℕ) (bytes : List ℕ)
    → 1 ≤ n
    → kernel.recv n room ≡ RecvResult.received bytes
    → bytes ≡ []
kernel-dry n room bytes late e =
    let later : (n == 0) ≡ false = ground arith in absurd (ground arith)

kernel-RunsDry : RunsDry kernel 1
kernel-RunsDry = record { no_more = kernel-no_more; dry = kernel-dry }

handler-IsQuiet : IsQuiet default_handler
unfolding default_handler
handler-IsQuiet = record { event = λ evt c. Keeps-refl c; message = λ frame c. Keeps-refl c }

handler-IsReader : IsReader default_handler
unfolding default_handler
handler-IsReader = record {
  position = λ frame c. refl;
  count = λ frame c. refl;
  event_position = λ evt c. refl;
  full = λ m n le. omega arith;
}

abbrev flags : Events
flags = record { et = true; in_ = true; out = true; err = false }

abbrev closing_conn : Conn
closing_conn = record open_conn { status = conn_closing; conn_id = 1026 }

process_event-Ends_example : Comes handler-IsQuiet kernel flags closing_conn
process_event-Ends_example =
    process_event-Ends handler-IsQuiet handler-IsReader kernel-RunsDry kernel-TakesSome flags
      closing_conn (λ e. cc) refl refl (omega arith)

-- The connections 1025 and 1026 stand at the places 0 and 1.
abbrev factory : Factory
factory = record {
  conns = λ p. if p == 0 then open_conn else closing_conn;
  next_conn = 2;
  connection_map = (1025, 0) ∷ (1026, 1) ∷ [];
  connection_index = 1026;
}

either-IsDriven : (b : Bool) → IsDriven (if b then open_conn else closing_conn)
either-IsDriven true = record { no_reconnect = refl; owned = refl; fits = omega arith }
either-IsDriven false = record { no_reconnect = refl; owned = refl; fits = omega arith }

either-open : (b : Bool) → (if b then open_conn else closing_conn).status ≢ conn_closed
either-open true = λ e. cc
either-open false = λ e. cc

factory-IsServing : IsServing [] factory
unfolding IsFactory
factory-IsServing = record {
  registry = λ cid p e. ground arith;
  driven = λ cid p e. either-IsDriven (p == 0);
  not_closed = λ cid p e. inl (either-open (p == 0));
}

abbrev worker : Worker Factory ℕ
worker = record {
  world = factory;
  tasks = [];
  timer = new_timer;
  timer_fd = 5;
  is_running = true;
  calls = [];
}

-- The connection at the place p has the address 1000 + p.
abbrev place : ℕ → ℕ
place address = if address == 1000 then 0 else 1

abbrev batch : List Ready
batch = record { data_ = 1001; events = flags } ∷ record { data_ = 1000; events = flags } ∷ []

batch-IsBatch : IsBatch place 5 factory.connection_map batch
batch-IsBatch = (
  λ e. omega arith,
  λ e. omega arith,
  (1026, refl),
  (λ e. omega arith, tt),
  (λ e. omega arith, λ e. omega arith, (1025, refl), tt, tt),
)

round-Served_example :
    Served handler-IsQuiet handler-IsReader kernel-RunsDry kernel-TakesSome place sorted_heap env
      true true batch worker
round-Served_example =
    round-Served handler-IsQuiet handler-IsReader kernel-RunsDry kernel-TakesSome place sorted_heap
      env true true batch worker batch-IsBatch factory-IsServing refl
