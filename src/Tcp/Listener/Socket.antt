-- ===== src/Tcp/Listener/Socket.antt =====
-- `start` and `stop` of TcpListener of include/tcp/tcp_listener.h.
use snet.Prelude.{
  ℕ, suc, ap, ◌∙◌, ◌+◌, ◌≡◌, refl, ℤ, pos, negsuc, List, [], ◌∷◌, ◌++◌, Option, none, some, Bool,
  true, false, Bool-cases, inl, inr, ◌==◌, if◌then◌else◌, arith,
}
use snet.Tcp.Types.{Events}
use snet.Tcp.Listener.{Listener, ListenCall}
use snet.Url
use snet.Url.{NetUrl, StdInt}

-- What the operating system answers to `start`.
pub record ListenAnswer : Type 0 where
  pub socket : ℤ
  pub reuse_ok : Bool
  pub bind_ok : Bool
  pub listen_ok : Bool

-- `start` returns 0, or the program ends.
pub data Started : Type 0 where
  listening : Started
  exited : Started

-- The flags that the listener is added with.
abbrev pub listen_events : Events
listen_events = record { et = false; in_ = true; out = false; err = true }

abbrev pub call : ListenCall → Listener → Listener
call k l = record l { calls = l.calls ++ (k ∷ []) }

-- `::close(listen_sd); exit(-1);`
abbrev give_up : Listener → Started × Listener
give_up l = (Started.exited, call (ListenCall.close_fd l.listen_sd) l)

-- `do_listen`, and what follows it in `start`.
unfoldable pub do_listen : ListenAnswer → Listener → Started × Listener
do_listen a l =
    let l' = call (ListenCall.listen l.listen_sd 32) l in
    if a.listen_ok
    then (Started.listening, call (ListenCall.watch l.listen_worker l.listen_sd listen_events) l')
    else give_up l'

-- `do_bind`, and what follows it.
unfoldable pub do_bind : ListenAnswer → ℕ → List ℕ → Listener → Started × Listener
unfolding do_listen
do_bind a port host l =
    let l' = call (ListenCall.bind l.listen_sd host port) l in
    if a.bind_ok then do_listen a l' else give_up l'

-- `set_reuse`, and what follows it.
unfoldable pub set_reuse : ListenAnswer → ℕ → List ℕ → Listener → Started × Listener
unfolding do_bind
set_reuse a port host l =
    let l' = call (ListenCall.reuse l.listen_sd) l in
    if a.reuse_ok then do_bind a port host l' else give_up l'

-- `start` on a port and a host.
unfoldable pub start : ListenAnswer → ℕ → List ℕ → Listener → Started × Listener
unfolding set_reuse
start a port host l =
    let l' = record l { listen_addr = host; listen_sd = a.socket } in
    elim a.socket [ pos n ↦ set_reuse a port host l' | negsuc n ↦ (Started.exited, l') ]

-- `start` on a URL: a fresh NetUrl is parsed; `none` means that an exception is thrown.
unfoldable pub start_url : StdInt → ListenAnswer → List ℕ → Listener → Option (Started × Listener)
unfolding start
start_url std a url l =
    elim (Url.parse std url (record { protocol = []; host = []; port = 0; params = [] })) [
      | none ↦ none
      | some (ok, u) ↦ some (start a u.port u.host l)
    ]

-- The workers stop, one after the other: a worker whose thread runs is joined; one without a thread to
-- join throws, and those behind it are not stopped. The flag says that nothing was thrown.
unfoldable pub stop_workers : List ℕ → Listener → Bool × Listener
stop_workers [] l = (true, l)
stop_workers (w ∷ ws) l =
    let rest =
      stop_workers ws (record l { running = λ v. if v == w then false else l.running v }) in
    if l.running w then rest else (false, l)

-- `stop`, with whether it returns or an exception is thrown.
unfoldable pub stop : Listener → Bool × Listener
unfolding stop_workers
stop l =
    let shut =
      if l.is_running
      then record (call (ListenCall.close_fd l.listen_sd) l) { is_running = false }
      else l in
    stop_workers (l.listen_worker ∷ l.tcp_workers) shut

-- Everything that `start` asks for is granted.
pub record IsGranted (a : ListenAnswer) : Type 0 where
  pub socket : ℕ
  pub opened : a.socket ≡ pos socket
  pub reuse : a.reuse_ok ≡ true
  pub bind : a.bind_ok ≡ true
  pub listen : a.listen_ok ≡ true

-- The calls of a `start` that is granted everything.
abbrev pub opening : ListenAnswer → ℕ → List ℕ → Listener → List ListenCall
opening a port host l =
    ListenCall.reuse a.socket
    ∷ ListenCall.bind a.socket host port
    ∷ ListenCall.listen a.socket 32
    ∷ ListenCall.watch l.listen_worker a.socket listen_events
    ∷ []

append-four :
    (xs : List ListenCall) (a b c d : ListenCall)
    → (((xs ++ (a ∷ [])) ++ (b ∷ [])) ++ (c ∷ [])) ++ (d ∷ []) ≡ xs ++ (a ∷ b ∷ c ∷ d ∷ [])
append-four [] a b c d = refl
append-four (x ∷ xs) a b c d = ap (λ t. x ∷ t) (append-four xs a b c d)

abbrev all_calls : ListenAnswer → ℕ → List ℕ → Listener → Listener
all_calls a port host l = call (ListenCall.watch l.listen_worker l.listen_sd listen_events) (
    call (ListenCall.listen l.listen_sd 32)
      (call (ListenCall.bind l.listen_sd host port) (call (ListenCall.reuse l.listen_sd) l)))

set_reuse_lem :
    (a : ListenAnswer) (port : ℕ) (host : List ℕ) (l : Listener)
    → IsGranted a
    → set_reuse a port host l ≡ (Started.listening, all_calls a port host l)
unfolding set_reuse do_bind do_listen
set_reuse_lem a port host l g = rw (g.reuse, g.bind, g.listen) refl

pub start_granted :
    (a : ListenAnswer) (port : ℕ) (host : List ℕ) (l : Listener)
    → IsGranted a
    → start a port host l ≡ (
      Started.listening,
      record l {
        listen_addr = host;
        listen_sd = a.socket;
        calls = l.calls ++ opening a port host l;
      },
    )
unfolding start
start_granted a port host l g =
    let l' = record l { listen_addr = host; listen_sd = a.socket } in
    let calls =
      append-four l.calls (ListenCall.reuse a.socket) (ListenCall.bind a.socket host port)
        (ListenCall.listen a.socket 32) (ListenCall.watch l.listen_worker a.socket listen_events) in
    ap
      (λ s. elim s as (λ _. Started × Listener) [
        | pos n ↦ set_reuse a port host l'
        | negsuc n ↦ (Started.exited, l')
      ])
      g.opened
    ∙ set_reuse_lem a port host l' g
    ∙ ap (λ t. (Started.listening, record l' { calls = t })) calls

-- The calls of the owner of a listener.
pub data Owner : Type 0 where
  start_on : ListenAnswer → ℕ → List ℕ → Owner
  stop_it : Owner

pub own : Owner → Listener → Listener
own (start_on a port host) l = (start a port host l).1
own stop_it l = (stop l).1

pub own_all : List Owner → Listener → Listener
own_all [] l = l
own_all (k ∷ ks) l = own_all ks (own k l)

-- Everything is granted.
abbrev pub AllGranted : List Owner → Type 0
AllGranted [] = Unit
AllGranted (start_on a port host ∷ ks) = IsGranted a × AllGranted ks
AllGranted (stop_it ∷ ks) = AllGranted ks

abbrev pub closed : List ListenCall → ℕ
closed [] = 0
closed (ListenCall.close_fd sd ∷ ks) = suc (closed ks)
closed (_ ∷ ks) = closed ks

closed-append : (xs ys : List ListenCall) → closed (xs ++ ys) ≡ closed xs + closed ys
closed-append [] ys = omega arith
closed-append (ListenCall.close_fd sd ∷ xs) ys = omega (arith, closed-append xs ys)
closed-append (ListenCall.reuse sd ∷ xs) ys = closed-append xs ys
closed-append (ListenCall.bind sd host port ∷ xs) ys = closed-append xs ys
closed-append (ListenCall.listen sd n ∷ xs) ys = closed-append xs ys
closed-append (ListenCall.watch w sd evts ∷ xs) ys = closed-append xs ys

stop_workers-keeps :
    (ws : List ℕ) (l : Listener)
    → ((stop_workers ws l).1.calls ≡ l.calls) × ((stop_workers ws l).1.is_running ≡ l.is_running)
unfolding stop_workers
stop_workers-keeps [] l = (refl, refl)
stop_workers-keeps (w ∷ ws) l = elim (Bool-cases (l.running w)) [
  | inl e ↦ rw e (stop_workers-keeps ws _)
  | inr e ↦ rw e (refl, refl)
]

-- Over every sequence of `start` and `stop` in which every `start` succeeds, from a listener that is
-- not running, no descriptor is closed: nothing sets `is_running`, which `stop` asks for.
pub own_all-open :
    (ks : List Owner) (l : Listener)
    → AllGranted ks
    → l.is_running ≡ false
    → (closed (own_all ks l).calls ≡ closed l.calls) × ((own_all ks l).is_running ≡ false)
unfolding own_all own stop
own_all-open [] l granted idle = (refl, idle)
own_all-open (start_on a port host ∷ ks) l (g, granted) idle =
    let e = start_granted a port host l g in
    let running : (start a port host l).1.is_running ≡ false = ap (λ r. r.1.is_running) e ∙ idle in
    let calls = ap (λ r. closed r.1.calls) e ∙ closed-append l.calls (opening a port host l) in
    let rest = own_all-open ks (start a port host l).1 granted running in
    (rest.0 ∙ omega (arith, calls), rest.1)
own_all-open (stop_it ∷ ks) l granted idle =
    let kept = stop_workers-keeps (l.listen_worker ∷ l.tcp_workers) l in
    let same : stop l ≡ stop_workers (l.listen_worker ∷ l.tcp_workers) l = rw (stop, idle) refl in
    let rest = own_all-open ks (stop l).1 granted (ap (λ x. x.1.is_running) same ∙ kept.1 ∙ idle) in
    (rest.0 ∙ ap (λ x. closed x.1.calls) same ∙ ap closed kept.0, rest.1)
