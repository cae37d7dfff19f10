-- ===== src/Tcp/Listener.antt =====
-- TcpListener of include/tcp/tcp_listener.h and `connect` of include/tcp/tcp_connector.h, over their
-- factory. Workers are known by number.
use snet.Prelude.{
  ℕ, zero, suc, ◌+◌, ◌%◌, ◌^◌, ◌<◌, ◌≡◌, refl, ap, ◌∙◌, ℤ, pos, negsuc, List, [], ◌∷◌, ◌++◌, Option,
  none, some, Bool, true, false, Memory, length, get_or, ltb, ◌==◌, if◌then◌else◌, arith,
  append_assoc, append-nil, sym, ap₂,
}
use mathlib.Core.List.{map}
use native.Mathlib.Nat.{mod-add-mod, mod-lt}
use snet.Tcp.Types.{Events}
pub mod Socket
pub mod Making
pub mod Broadcast
use snet.Tcp.Connection.{init}
use snet.Tcp.Lifecycle.{ConnectAnswer, do_connect}
use snet.Tcp.Factory.{Factory, Hooks, create, set_conn}

-- The calls that a listener makes to get its socket ready and to shut it; the last one registers it
-- with a worker.
pub data ListenCall : Type 0 where
  reuse : ℤ → ListenCall
  bind : ℤ → List ℕ → ℕ → ListenCall
  listen : ℤ → ℕ → ListenCall
  close_fd : ℤ → ListenCall
  watch : ℕ → ℤ → Events → ListenCall

-- The listener; `running` says of a worker that its loop runs, and `added` lists the calls of `add_event`: the worker, the descriptor and the connection.
pub record Listener : Type 0 where
  pub factory : Factory
  pub worker_index : ℕ
  pub tcp_workers : List ℕ
  pub listen_worker : ℕ
  pub listen_sd : ℤ
  pub is_running : Bool
  pub listen_addr : List ℕ
  pub running : ℕ → Bool
  pub calls : List ListenCall
  pub assigned : ℕ → ℕ
  pub added : List (ℕ × ℤ × ℕ)

-- `get_worker`: the workers in turn.
unfoldable pub get_worker : Listener → ℕ × Listener
get_worker l =
    let index = (l.worker_index + 1) % 2 ^ 32 % length l.tcp_workers in
    if ltb 0 (length l.tcp_workers)
    then (get_or l.tcp_workers index 0, record l { worker_index = index })
    else (l.listen_worker, l)

-- `add_worker`; `none` is the null pointer.
unfoldable pub add_worker : Option ℕ → Listener → Listener
add_worker none l = l
add_worker (some w) l = record l { tcp_workers = l.tcp_workers ++ (w ∷ []) }

-- `accept4`: the descriptor and the peer, or an error.
pub data Accepted : Type 0 where
  client : ℤ → List ℕ → ℕ → Accepted
  refused : Accepted

module _ (hooks : Hooks) (garbage : Memory) where
  unfoldable pub accept_client : ℤ → List ℕ → ℕ → Listener → Listener
  unfolding get_worker
  accept_client fd host port l =
      let (p, f) = create hooks garbage true l.factory in
      let (w, l₁) = get_worker (record l { factory = f }) in
      let conn = init fd host port true (record (f.conns p) { has_worker = true }) in
      record l₁ {
        factory = set_conn p conn f;
        assigned = λ q. if q == p then w else l₁.assigned q;
        added = l₁.added ++ ((w, fd, p) ∷ []);
      }

  -- `process_event`, for the flag EPOLLIN and what `accept4` answers.
  unfoldable pub process_event : Bool → Accepted → Listener → Listener
  unfolding accept_client
  process_event false a l = l
  process_event true refused l = l
  process_event true (client (negsuc n) host port) l = l
  process_event true (client (pos fd) host port) l = accept_client (pos fd) host port l

  -- TcpConnector's `connect`: the connection, what `do_connect` returned, and the factory.
  unfoldable pub connect : Bool → ConnectAnswer → List ℕ → ℕ → Factory → ℕ × ℤ × Factory
  connect need_reconnect answer host port f =
      let (p, f₁) = create hooks garbage false f in
      let made = record (f₁.conns p) { need_reconnect = need_reconnect; has_worker = true } in
      let (ret, conn) = do_connect answer (init (pos 0) host port false made) in
      (p, ret, set_conn p conn f₁)

  -- Clients that are accepted one after the other.
  pub accept_all : List (ℤ × List ℕ × ℕ) → Listener → Listener
  accept_all [] l = l
  accept_all ((fd, host, port) ∷ clients) l = accept_all clients (accept_client fd host port l)

-- The workers that are asked for in turn, from the index `i` on.
unfoldable pub turns : List ℕ → ℕ → ℕ → List ℕ
turns workers i zero = []
turns workers i (suc k) = get_or workers ((i + 1) % length workers) 0 ∷ turns workers (i + 1) k

abbrev pub worker_of : ℕ × ℤ × ℕ → ℕ
worker_of (w, fd, p) = w

turns-ext :
    (workers : List ℕ) (i j k : ℕ)
    → ((d : ℕ) → (i + d) % length workers ≡ (j + d) % length workers)
    → turns workers i k ≡ turns workers j k
unfolding turns
turns-ext workers i j zero h = refl
turns-ext workers i j (suc k) h = ap₂ ◌∷◌ (ap (λ n. get_or workers n 0) (h 1)) (
    turns-ext workers (i + 1) (j + 1) k (λ d.
      ap (λ n. n % length workers) (omega arith)
      ∙ h (d + 1)
      ∙ ap (λ n. n % length workers) (omega arith)))

turns-mod : (workers : List ℕ) (i k : ℕ) → turns workers (i % length workers) k ≡ turns workers i k
turns-mod workers i k =
    turns-ext workers (i % length workers) i k (λ d. mod-add-mod i (length workers) d)

map-added :
    (xs : List (ℕ × ℤ × ℕ)) (x : ℕ × ℤ × ℕ)
    → map worker_of (xs ++ (x ∷ [])) ≡ map worker_of xs ++ (worker_of x ∷ [])
map-added [] x = refl
map-added (y ∷ xs) x = ap (λ t. worker_of y ∷ t) (map-added xs x)

get_worker_lem :
    (l : Listener)
    → 0 < length l.tcp_workers
    → length l.tcp_workers < 2 ^ 32
    → l.worker_index < length l.tcp_workers
    → let next = (l.worker_index + 1) % length l.tcp_workers in
      get_worker l ≡ (get_or l.tcp_workers next 0, record l { worker_index = next })
unfolding get_worker
get_worker_lem l some_worker few within =
    let word : (l.worker_index + 1) % 2 ^ 32 ≡ l.worker_index + 1 = omega arith in
    let more : ltb 0 (length l.tcp_workers) ≡ true = ground arith in
    rw (get_worker, word, more) refl

module _ (hooks : Hooks) (garbage : Memory) where
  -- One client goes to the next worker.
  accept_client_lem :
      (fd : ℤ) (host : List ℕ) (port : ℕ) (l : Listener)
      → 0 < length l.tcp_workers
      → length l.tcp_workers < 2 ^ 32
      → l.worker_index < length l.tcp_workers
      → let l' = accept_client hooks garbage fd host port l in
        let next = (l.worker_index + 1) % length l.tcp_workers in
        (l'.worker_index ≡ next)
        × (l'.tcp_workers ≡ l.tcp_workers)
        × (map worker_of l'.added ≡ map worker_of l.added ++ (get_or l.tcp_workers next 0 ∷ []))
  unfolding accept_client
  accept_client_lem fd host port l some_worker few within =
      let f = (create hooks garbage true l.factory).1 in
      let turn = get_worker_lem (record l { factory = f }) some_worker few within in
      (
        ap (λ r. r.1.worker_index) turn,
        ap (λ r. r.1.tcp_workers) turn,
        map-added (get_worker (record l { factory = f })).1.added _
            ∙ ap (λ (r : ℕ × Listener). map worker_of r.1.added ++ (r.0 ∷ [])) turn,
      )

  -- Clients are spread over the workers in turn: those accepted next go to the workers behind the
  -- last one asked, round and round. There is a worker, there are fewer than 2 ^ 32, and the index
  -- is that of a worker.
  pub accept_all_lem :
      (clients : List (ℤ × List ℕ × ℕ)) (l : Listener)
      → 0 < length l.tcp_workers
      → length l.tcp_workers < 2 ^ 32
      → l.worker_index < length l.tcp_workers
      → map worker_of (accept_all hooks garbage clients l).added
        ≡ map worker_of l.added ++ turns l.tcp_workers l.worker_index (length clients)
  unfolding accept_all turns
  accept_all_lem [] l some_worker few within = sym (append-nil _)
  accept_all_lem ((fd, host, port) ∷ clients) l some_worker few within =
      let l' = accept_client hooks garbage fd host port l in
      let (index, same, added) = accept_client_lem fd host port l some_worker few within in
      let n = length l.tcp_workers in
      let size : length l'.tcp_workers ≡ n = ap length same in
      let rest =
        accept_all_lem clients l' (omega arith) (omega arith)
          (omega (arith, mod-lt (l.worker_index + 1) some_worker)) in
      rest
      ∙ ap₂ ◌++◌ added (
          (λ i. turns (same i) (index i) (length clients))
          ∙ turns-mod l.tcp_workers (l.worker_index + 1) (length clients))
      ∙ append_assoc (map worker_of l.added)
          (get_or l.tcp_workers ((l.worker_index + 1) % n) 0 ∷ []) _
