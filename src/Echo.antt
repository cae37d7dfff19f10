-- ===== src/Echo.antt =====
-- src/tcp_server.cpp: an echo server on select. The sets of descriptors are functions; `fds` is the
-- kernel's table of the server's open sockets, which accept and close change, and `bad_closes`
-- counts the closes of a descriptor that is not open. Messages are not modelled.
pub mod Sound
pub mod Visit
pub mod Ends
use snet.Prelude.{
  ℕ, zero, suc, ◌+◌, ◌-◌, ℤ, pos, negsuc, List, [], ◌∷◌, ◌++◌, Option, none, some, ◌>>=◌, Bool,
  true, false, ◌&&◌, ◌||◌, not, ltb, leb, ◌==◌, if◌then◌else◌,
}
use snet.Tcp.Types.{RecvResult, SendResult}

-- FD_SETSIZE: beyond it FD_SET writes outside the set.
abbrev pub fd_setsize : ℕ
fd_setsize = 1024

abbrev pub FdSet : Type 0
FdSet = ℕ → Bool

-- FD_SET for true, FD_CLR for false.
abbrev pub put : ℕ → Bool → FdSet → FdSet
put x b set y = if x == y then b else set y

pub data AcceptResult : Type 0 where
  accepted : ℕ → AcceptResult
  would_block failed : AcceptResult

-- `select`: an error, the time is over, or how many descriptors are ready, and which.
pub data SelectResult : Type 0 where
  failed timed_out : SelectResult
  ready : ℕ → FdSet → SelectResult

-- What the n-th system call answers: accept for the open sockets, select for the set it is given,
-- recv, and send for the bytes it is given.
pub record System : Type 0 where
  pub select : ℕ → FdSet → SelectResult
  pub accept : ℕ → FdSet → AcceptResult
  pub recv : ℕ → RecvResult
  pub send : ℕ → List ℕ → SendResult

-- The variables of `main`, and what was done: `clock` counts the system calls, `recvs` and `sends`
-- list the blocks read and the blocks given to send with their descriptors, and `overran` tells of a
-- write outside the set.
pub record Server : Type 0 where
  pub listen_sd : ℕ
  pub max_sd : ℕ
  pub master_set : FdSet
  pub end_server : Bool
  pub fds : FdSet
  pub bad_closes : ℕ
  pub clock : ℕ
  pub recvs : List (ℕ × List ℕ)
  pub sends : List (ℕ × List ℕ)
  pub overran : Bool

abbrev pub tick : Server → Server
tick s = record s { clock = s.clock + 1 }

-- `::close(i)`
unfoldable pub close_fd : ℕ → Server → Server
close_fd i s = record s {
  fds = put i false s.fds;
  bad_closes = if s.fds i then s.bad_closes else s.bad_closes + 1;
}

-- A new connection: the kernel opens it, and the server adds it to the master set.
unfoldable pub admit : ℕ → Server → Server
admit sd s = record s {
  fds = put sd true s.fds;
  master_set = put sd true s.master_set;
  max_sd = if ltb s.max_sd sd then sd else s.max_sd;
  overran = s.overran || leb fd_setsize sd;
}

-- `while (FD_ISSET(max_sd, &master_set) == FALSE) max_sd -= 1;`; `none` means that it runs below 0.
unfoldable pub lower_max : FdSet → ℕ → Option ℕ
lower_max set zero = if set zero then some zero else none
lower_max set (suc n) = let rest = lower_max set n in if set (suc n) then some (suc n) else rest

-- The clean up of a connection that is to be closed.
unfoldable pub clean_up : ℕ → Server → Option Server
unfolding close_fd lower_max
clean_up i s =
    let s' = close_fd i s in
    let cleared = record s' { master_set = put i false s'.master_set } in
    if i == s.max_sd
    then elim (lower_max cleared.master_set s.max_sd) [
      | none ↦ none
      | some top ↦ some (record cleared { max_sd = top })
    ]
    else some cleared

module _ (os : System) where
  -- `accept` until it answers with an error; `none` means that the fuel ran out.
  unfoldable pub accept_answer : (Server → Option Server) → AcceptResult → Server → Option Server
  unfolding admit
  accept_answer again (AcceptResult.accepted sd) s = again (admit sd s)
  accept_answer again AcceptResult.would_block s = some s
  accept_answer again AcceptResult.failed s = some (record s { end_server = true })

  unfoldable pub accept_all : ℕ → Server → Option Server
  unfolding accept_answer
  accept_all zero s = none
  accept_all (suc fuel) s = accept_answer (accept_all fuel) (os.accept s.clock s.fds) (tick s)

  -- The send of the echo loop: only a negative result counts. The flag is `close_conn`.
  unfoldable pub send_answer :
      (Server → Option (Bool × Server)) → SendResult → Server → Option (Bool × Server)
  send_answer again (SendResult.sent n) s = again s
  send_answer again SendResult.would_block s = some (true, s)
  send_answer again SendResult.failed s = some (true, s)

  unfoldable pub recv_answer :
      (Server → Option (Bool × Server)) → ℕ → RecvResult → Server → Option (Bool × Server)
  unfolding send_answer
  recv_answer again i RecvResult.would_block s = some (false, s)
  recv_answer again i RecvResult.failed s = some (true, s)
  recv_answer again i (RecvResult.received []) s = some (true, s)
  recv_answer again i (RecvResult.received (x ∷ bytes)) s =
      let s' = record s { recvs = s.recvs ++ ((i, x ∷ bytes) ∷ []) } in
      send_answer again (os.send s'.clock (x ∷ bytes))
        (tick (record s' { sends = s'.sends ++ ((i, x ∷ bytes) ∷ []) }))

  unfoldable pub echo_all : ℕ → ℕ → Server → Option (Bool × Server)
  unfolding recv_answer
  echo_all zero i s = none
  echo_all (suc fuel) i s = recv_answer (echo_all fuel i) i (os.recv s.clock) (tick s)

  -- One descriptor that is ready.
  unfoldable pub visit : ℕ → ℕ → Server → Option Server
  unfolding accept_all echo_all clean_up
  visit fuel i s = if i == s.listen_sd then accept_all fuel s else elim (echo_all fuel i s) [
    | none ↦ none
    | some (true, s') ↦ clean_up i s'
    | some (false, s') ↦ some s'
  ]

  -- `for (i = 0; i <= max_sd && desc_ready > 0; ++i)`, from i on.
  unfoldable pub scan : ℕ → ℕ → ℕ → ℕ → FdSet → Server → Option Server
  unfolding visit
  scan fuel zero i desc_ready working_set s = none
  scan fuel (suc rounds) i desc_ready working_set s =
      let next = visit fuel i s >>= scan fuel rounds (suc i) (desc_ready - 1) working_set in
      let rest = scan fuel rounds (suc i) desc_ready working_set s in
      if leb i s.max_sd && ltb 0 desc_ready then (if working_set i then next else rest) else some s

  -- The loop of `main` on select.
  unfoldable pub serve : ℕ → ℕ → Server → Option Server
  unfolding scan
  serve fuel zero s = none
  serve fuel (suc rounds) s = elim (os.select s.clock s.master_set) [
    | SelectResult.failed ↦ some (tick s)
    | SelectResult.timed_out ↦ some (tick s)
    | SelectResult.ready count working_set ↦ scan fuel fuel 0 count working_set (tick s) >>= λ s'.
        let rest = serve fuel rounds s' in if s'.end_server then some s' else rest
  ]

-- The loop at the end, over n descriptors from i on.
unfoldable pub close_all : ℕ → ℕ → Server → Server
unfolding close_fd
close_all zero i s = s
close_all (suc n) i s = close_all n (suc i) (if s.master_set i then close_fd i s else s)

-- What the system answers before the loop.
pub record SetupAnswer : Type 0 where
  pub socket : ℤ
  pub reuse_ok : Bool
  pub nonblocking_ok : Bool
  pub bind_ok : Bool
  pub listen_ok : Bool

-- The server of `main` where the loop begins.
unfoldable pub fresh : ℕ → Server
fresh sd = record {
  listen_sd = sd;
  max_sd = sd;
  master_set = put sd true (λ x. false);
  end_server = false;
  fds = put sd true (λ x. false);
  bad_closes = 0;
  clock = 0;
  recvs = [];
  sends = [];
  overran = leb fd_setsize sd;
}

-- `setsockopt`, `ioctl`, `bind` and `listen` on the socket. The flag tells that the loop is reached;
-- a call that fails closes the socket and ends the program.
unfoldable pub set_up : SetupAnswer → ℕ → Bool × Server
unfolding fresh close_fd
set_up a sd =
    if a.reuse_ok && (a.nonblocking_ok && (a.bind_ok && a.listen_ok))
    then (true, fresh sd)
    else (false, close_fd sd (fresh sd))

module _ (os : System) (fuel : ℕ) where
  -- The rest of `main`; `none` means that a loop ran out of fuel, or a read below 0.
  unfoldable pub run : Bool × Server → Option Server
  unfolding serve close_all
  run (false, s) = some s
  run (true, s) = serve os fuel fuel s >>= λ s'. some (close_all (suc s'.max_sd) 0 s')

  -- `main`; without a socket it ends at once, with no server.
  unfoldable pub main : SetupAnswer → Option (Option Server)
  unfolding set_up run
  main a = elim a.socket [
    | negsuc n ↦ some none
    | pos sd ↦ run (set_up a sd) >>= λ s. some (some s)
  ]
