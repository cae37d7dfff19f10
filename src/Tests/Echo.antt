-- ===== src/Tests/Echo.antt =====
-- src/tcp_server.cpp with one client that connects, sends two bytes and goes.
use snet.Prelude.{
  ℕ, ◌≡◌, refl, ap, ◌∙◌, pos, List, [], ◌∷◌, Option, some, true, false, ◌&&◌, ◌==◌, if◌then◌else◌,
  arith,
}
use snet.Tcp.Types.{RecvResult, SendResult}
use snet.Echo.{FdSet, AcceptResult, SelectResult, System, SetupAnswer, Server, main}
use snet.Echo.Visit.{IsQuietFrom}
use snet.Echo.Ends.{IsOver, main-IsOver}

abbrev select : ℕ → FdSet → SelectResult
select n set =
    if n == 0
    then SelectResult.ready 1 (λ x. set x && x == 3)
    else (if n == 3 then SelectResult.ready 1 (λ x. set x && x == 4) else SelectResult.timed_out)

abbrev system : System
system = record {
  select = select;
  accept = λ n fds. if n == 1 then AcceptResult.accepted 4 else AcceptResult.would_block;
  recv = λ n. if n == 4 then RecvResult.received (7 ∷ 8 ∷ []) else RecvResult.received [];
  send = λ n bytes. SendResult.sent 2;
}

abbrev answer : SetupAnswer
answer = record {
  socket = pos 3;
  reuse_ok = true;
  nonblocking_ok = true;
  bind_ok = true;
  listen_ok = true;
}

accepted-same : (a b : ℕ) → AcceptResult.accepted a ≡ AcceptResult.accepted b → a ≡ b
accepted-same a b e = cc

abbrev working : SelectResult → FdSet
working (SelectResult.ready count set) = set
working _ = λ x. false

select-within : (n : ℕ) (set : FdSet) (x : ℕ) → working (select n set) x ≡ true → set x ≡ true
select-within n set x h = ground arith

system-IsQuietFrom : IsQuietFrom system 8
system-IsQuietFrom = record {
  fits = λ n fds sd e. ground arith;
  within = λ n set count w x e h. select-within n set x (ap (λ r. working r x) e ∙ h);
  nobody = λ n fds sd e. ground arith;
  nothing = λ n x bytes e. ground arith;
  none_ready = λ n set count w e. ground arith;
}

main-IsOver_example : (t : Server) × (main system 1025 answer ≡ some (some t)) × IsOver t
main-IsOver_example =
    main-IsOver system system-IsQuietFrom 1025 3 answer (omega arith) (omega arith) refl
      (omega arith)

-- The bytes come back to descriptor 4.
abbrev sent : Option (Option Server) → List (ℕ × List ℕ)
sent (some (some s)) = s.sends
sent _ = []

echoed : sent (main system 20 answer) ≡ (4, 7 ∷ 8 ∷ []) ∷ []
unfolding main
echoed = refl
