-- ===== src/Tcp/Status.antt =====
-- The life of a TcpConnection: which events it raises, over every sequence of `do_connect`, `on_ready`,
-- `close` and the end of `process_event`.
use snet.Prelude.{
  Bool-cases, ◌⊎◌, inl, inr, refl, ℕ, ◌+◌, ◌≤◌, ◌≡◌, ◌≢◌, pos, List, [], ◌∷◌, ◌++◌, Bool, true,
  false, if◌then◌else◌, arith,
}
use snet.Tcp.Types.{
  ConnStatus, conn_idle, conn_open, conn_closing, conn_closed, NetEvent, Effect, Conn, Handler,
}
use snet.Tcp.Connection.{log_effect, status_is_closing, set_out, notify_send, close}
use snet.Tcp.Lifecycle.{ConnectAnswer, do_connect, raise, on_ready, release, do_close, settle}

-- TcpConnection's own virtual methods.
unfoldable pub default_handler : Handler
default_handler = record {
  handle_package = λ m len. pos len;
  handle_data = λ frame c. c;
  handle_event = λ evt c. c;
}

abbrev pub is_connect : Effect → Bool
is_connect (Effect.raised NetEvent.connect) = true
is_connect _ = false

abbrev pub is_disconnect : Effect → Bool
is_disconnect (Effect.raised NetEvent.disconnect) = true
is_disconnect _ = false

abbrev pub is_close : Effect → Bool
is_close (Effect.close_fd sd) = true
is_close _ = false

-- How often the calls of one kind stand in a log.
unfoldable pub times : (Effect → Bool) → List Effect → ℕ
times p [] = 0
times p (e ∷ log) = (if p e then 1 else 0) + times p log

pub times-append :
    (p : Effect → Bool) (log : List Effect) (e : Effect)
    → times p (log ++ (e ∷ [])) ≡ times p log + (if p e then 1 else 0)
unfolding times
times-append p [] e = omega arith
times-append p (x ∷ log) e = omega (arith, times-append p log e)

abbrev pub connects : Conn → ℕ
connects c = times is_connect c.log

abbrev pub disconnects : Conn → ℕ
disconnects c = times is_disconnect c.log

-- What has been called on a connection, by its status.
abbrev pub Counts : ConnStatus → ℕ → ℕ → Type 0
Counts conn_idle up down = (up ≡ 0) × (down ≡ 0)
Counts conn_open up down = (up ≡ 1) × (down ≡ 0)
Counts conn_closing up down = (up ≤ 1) × (down ≡ 0)
Counts conn_closed up down = (up ≤ 1) × (down ≡ 1)

pub record IsLife (c : Conn) : Type 0 where
  pub counts : Counts c.status (connects c) (disconnects c)
  pub no_reconnect : c.need_reconnect ≡ false

-- The public calls that change the status.
pub data Call : Type 0 where
  ready : Call
  shut : Call
  settled : Bool → Call
  connecting : ConnectAnswer → Call

pub step : Call → Conn → Conn
step ready c = on_ready default_handler c
step shut c = close c
step (settled err) c = settle default_handler err c
step (connecting answer) c = (do_connect answer c).1

pub run : List Call → Conn → Conn
run [] c = c
run (k ∷ calls) c = run calls (step k c)

close-IsLife : (c : Conn) → IsLife c → IsLife (close c)
unfolding close notify_send set_out
close-IsLife c v = grind (arith, times-append)

ready-IsLife : (c : Conn) → IsLife c → IsLife (on_ready default_handler c)
unfolding on_ready raise default_handler
ready-IsLife c v = grind (arith, times-append)

do_close-IsLife : (c : Conn) → IsLife c → IsLife (do_close default_handler c)
unfolding do_close raise release default_handler
do_close-IsLife c v = grind (arith, times-append)

do_connect-IsLife : (answer : ConnectAnswer) (c : Conn) → IsLife c → IsLife (do_connect answer c).1
unfolding do_connect
do_connect-IsLife answer c v = grind (arith, times-append)

step-IsLife : (k : Call) (c : Conn) → IsLife c → IsLife (step k c)
unfolding step settle
step-IsLife ready c v = ready-IsLife c v
step-IsLife shut c v = close-IsLife c v
step-IsLife (settled true) c v = do_close-IsLife (close c) (close-IsLife c v)
step-IsLife (settled false) c v = do_close-IsLife c v
step-IsLife (connecting answer) c v = do_connect-IsLife answer c v

-- With TcpConnection's own virtual methods, every sequence of `do_connect`, `on_ready`, `close` and the
-- end of `process_event` keeps this of a connection that is not to be connected again: it has raised
-- EVT_CONNECT not at all while it is idle, once when it is open and at most once later, and
-- EVT_DISCONNECT once when its status is CONN_CLOSED and not at all before.
pub run-IsLife : (calls : List Call) (c : Conn) → IsLife c → IsLife (run calls c)
unfolding run
run-IsLife [] c v = v
run-IsLife (k ∷ calls) c v = run-IsLife calls (step k c) (step-IsLife k c v)

release-status :
    (c : Conn)
    → ((release default_handler c).status ≡ conn_idle)
      ⊎ ((release default_handler c).status ≡ c.status)
unfolding release
release-status c = ground arith

do_close-open : (c : Conn) → c.status ≢ conn_closing → do_close default_handler c ≡ c
unfolding do_close
do_close-open c ne = let no : status_is_closing c.status ≡ false = closing-ne c.status ne in rw no
  where
    closing-ne : (s : ConnStatus) → s ≢ conn_closing → status_is_closing s ≡ false
    closing-ne conn_closing ne = absurd (ne refl)
    closing-ne conn_idle ne = refl
    closing-ne conn_open ne = refl
    closing-ne conn_closed ne = refl

do_close-status : (c : Conn) → (do_close default_handler c).status ≢ conn_closing
unfolding do_close raise default_handler
do_close-status c = elim (Bool-cases (status_is_closing c.status)) [
  | inl closing ↦
      let c' = raise default_handler NetEvent.disconnect (
        if c.has_worker
        then log_effect (Effect.del_event c.conn_sd) (record c { status = conn_closed })
        else record c { status = conn_closed }) in
      let closed : c'.status ≡ conn_closed = ground arith in
      rw closing (elim (release-status c') [ inl e ↦ λ f. cc | inr e ↦ λ f. cc ])
  | inr other ↦ rw other (λ f. ground arith)
]

-- With TcpConnection's own virtual methods, the end of `process_event` never leaves a connection in
-- CONN_CLOSING, whether an error was reported or not.
pub settle_lem : (err : Bool) (c : Conn) → (settle default_handler err c).status ≢ conn_closing
unfolding settle
settle_lem err c = elim (Bool-cases err) [
  | inl e ↦ rw e (do_close-status (close c))
  | inr e ↦ rw e (do_close-status c)
]

-- Without an error, the end of `process_event` changes nothing of a connection that is not in
-- CONN_CLOSING.
pub settle-same : (c : Conn) → c.status ≢ conn_closing → settle default_handler false c ≡ c
unfolding settle
settle-same c ne = do_close-open c ne
