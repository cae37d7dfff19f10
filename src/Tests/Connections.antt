-- ===== src/Tests/Connections.antt =====
-- include/tcp/tcp_connection.h on a connection that is open, with a kernel that takes two bytes at a
-- time and has none to read.
use snet.Prelude.{
  ℕ, ℤ, ◌<◌, ◌≡◌, ◌≢◌, refl, pos, List, [], ◌∷◌, none, some, true, false, min, length, arith, inl,
}
use snet.Tcp.Types.{conn_idle, conn_open, Events, Conn, Kernel, Handler, SendResult, RecvResult}
use snet.Tcp.Connection.{is_open, read_buffer_size, do_send, msend, send_round}
use snet.Tcp.Input.{do_read}
use snet.Tcp.Sending.{TakesSome, IsSettled, stream, do_send_lem, msend_lem}
use snet.Tcp.Status.{times, Call, ready, shut, settled, IsLife, run, run-IsLife}
use snet.Tcp.Full.{do_read_stuck}

abbrev pub no_events : Events
no_events = record { et = true; in_ = true; out = false; err = true }

abbrev pub idle_conn : Conn
idle_conn = record {
  status = conn_idle;
  conn_sd = pos 7;
  need_reconnect = false;
  is_passive = true;
  has_worker = true;
  has_factory = true;
  conn_id = 1025;
  remote_host = [];
  remote_port = 0;
  epoll_events = no_events;
  send_buffer = [];
  read_buffer = λ i. 0;
  read_pos = 0;
  wire = [];
  sends = 0;
  recvs = 0;
  log = [];
}

abbrev pub open_conn : Conn
open_conn = record idle_conn { status = conn_open }

abbrev pub slow_kernel : Kernel
slow_kernel = record {
  send = λ n bytes. SendResult.sent (min 2 (length bytes));
  recv = λ n room. RecvResult.would_block;
}

sent-count : (j k : ℕ) → SendResult.sent j ≡ SendResult.sent k → j ≡ k
sent-count j k e = cc

slow_some :
    (bytes : List ℕ) (k : ℕ)
    → SendResult.sent (min 2 (length bytes)) ≡ SendResult.sent k
    → bytes ≢ []
    → 0 < k
slow_some [] k e ne = absurd (ne refl)
slow_some (x ∷ bytes) k e ne = omega (arith, sent-count _ k e)

pub slow_kernel-TakesSome : TakesSome slow_kernel
slow_kernel-TakesSome = record {
  some_byte = λ n bytes k e ne. slow_some bytes k e ne;
  no_more = λ n bytes k e. omega (arith, sent-count _ k e);
}

abbrev busy_conn : Conn
busy_conn = record open_conn { send_buffer = 1 ∷ 2 ∷ 3 ∷ [] }

sends_all :
    do_send slow_kernel 4 busy_conn
    ≡ some (record busy_conn { send_buffer = []; wire = 1 ∷ 2 ∷ 3 ∷ []; sends = 2 })
unfolding do_send send_round
sends_all = refl

do_send_lem_example :
    (c' : Conn) × (do_send slow_kernel 4 busy_conn ≡ some c')
    × (stream c' ≡ stream busy_conn)
    × IsSettled c'
do_send_lem_example = do_send_lem slow_kernel slow_kernel-TakesSome 4 busy_conn (omega arith)

abbrev items : List (List ℕ)
items = (1 ∷ []) ∷ (2 ∷ 3 ∷ []) ∷ []

pub open_conn-open : is_open open_conn ≡ true
unfolding is_open
open_conn-open = refl

msend_lem_example :
    (n : ℤ) × (c' : Conn) × (msend slow_kernel 4 items open_conn ≡ some (n, c'))
    × (stream c' ≡ 1 ∷ 2 ∷ 3 ∷ [])
    × IsSettled c'
msend_lem_example =
    msend_lem slow_kernel slow_kernel-TakesSome items open_conn open_conn-open (inl refl)
      (omega arith, (omega arith, _)) (omega arith)

idle_conn-IsLife : IsLife idle_conn
unfolding times
idle_conn-IsLife = record { counts = (refl, refl); no_reconnect = refl }

abbrev calls : List Call
calls = ready ∷ settled true ∷ shut ∷ settled false ∷ ready ∷ []

run-IsLife_example : IsLife (run calls idle_conn)
run-IsLife_example = run-IsLife calls idle_conn idle_conn-IsLife

-- A class whose packages are never whole.
abbrev waiting_handler : Handler
waiting_handler = record {
  handle_package = λ m len. pos 0;
  handle_data = λ frame c. c;
  handle_event = λ evt c. c;
}

abbrev full_conn : Conn
full_conn = record open_conn { read_pos = read_buffer_size }

do_read_stuck_example : do_read waiting_handler slow_kernel 1000 full_conn ≡ none
do_read_stuck_example = do_read_stuck waiting_handler slow_kernel 1000 full_conn refl refl
