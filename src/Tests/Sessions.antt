-- ===== src/Tests/Sessions.antt =====
-- src/user_session.h: a block of three bytes that a kernel takes two at a time.
use snet.Prelude.{ℕ, ◌≡◌, refl, List, [], ◌∷◌, some, true, false, arith, inl}
use snet.Tcp.Types.{Events, Conn, Kernel, RecvResult}
use snet.Tcp.Lifecycle.{process_event}
use snet.Tcp.Sending.{TakesSome}
use snet.UserSession.{user_session, Echoed, process_event-Echoed}
use snet.Tests.Connections.{open_conn, open_conn-open, slow_kernel, slow_kernel-TakesSome}

abbrev block : List ℕ
block = 101 ∷ 99 ∷ 104 ∷ []

abbrev asking : Kernel
asking = record slow_kernel { recv = λ n room. RecvResult.received block }

asking-TakesSome : TakesSome asking
asking-TakesSome = record {
  some_byte = slow_kernel-TakesSome.some_byte;
  no_more = slow_kernel-TakesSome.no_more;
}

abbrev readable : Events
readable = record { et = true; in_ = true; out = false; err = false }

process_event-Echoed_example :
    (c : Conn) × (process_event (user_session asking) asking 1 readable open_conn ≡ some c)
    × Echoed block open_conn c
process_event-Echoed_example =
    process_event-Echoed asking asking-TakesSome 0 101 (99 ∷ 104 ∷ []) open_conn readable refl refl
      refl refl open_conn-open refl refl (inl refl) (omega arith) refl
