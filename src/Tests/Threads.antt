-- ===== src/Tests/Threads.antt =====
-- Two threads that call `msend` at once on a connection whose kernel takes two bytes at a time.
use snet.Prelude.{false, ◌<◌, ◌≡◌, refl, List, [], ◌∷◌, ◌++◌, ◌⊎◌, inl, arith}
use snet.Tcp.Sending.{stream, IsSettled}
use snet.Tcp.Connection.{is_open, mpush, send_round}
use snet.Tcp.Threads.{Pool, Action, call, turn, run, shut, settled}
use snet.Tcp.Threads.Sums.{total, busy}
use snet.Tcp.Threads.Order.{run-stream}
use snet.Tests.Connections.{open_conn, slow_kernel, slow_kernel-TakesSome}

-- The second call pushes while the first is between two rounds of `do_send`.
abbrev schedule : List Action
schedule =
    call ((1 ∷ 2 ∷ 3 ∷ []) ∷ [])
    ∷ turn 0
    ∷ turn 0
    ∷ turn 0
    ∷ call ((4 ∷ []) ∷ (5 ∷ []) ∷ [])
    ∷ turn 0
    ∷ turn 0
    ∷ turn 1
    ∷ shut
    ∷ turn 0
    ∷ settled false
    ∷ turn 1
    ∷ turn 0
    ∷ turn 0
    ∷ []

abbrev start : Pool
start = record { conn = open_conn; threads = []; given = [] }

run-stream_example :
    let p = run slow_kernel schedule start in
    (stream p.conn ≡ stream open_conn ++ p.given) × (IsSettled p.conn ⊎ (0 < total busy p.threads))
run-stream_example =
    run-stream slow_kernel slow_kernel-TakesSome schedule open_conn (inl refl)
      ((omega arith, tt), ((omega arith, (omega arith, tt)), tt)) (omega arith)

after_run : (run slow_kernel schedule start).conn.wire ≡ 1 ∷ 2 ∷ 3 ∷ 4 ∷ []
unfolding run is_open send_round mpush
after_run = refl
