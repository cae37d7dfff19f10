-- ===== src/Tcp/Listener/Making.antt =====
-- The constructors of TcpListener of include/tcp/tcp_listener.h. Workers are known by number; the
-- next one that is made has the number `next`.
use snet.Prelude.{
  ℕ, zero, suc, ◌≤◌, ◌≡◌, true, ◌||◌, refl, ap, sym, ◌∙◌, minus_one, List, [], ◌∷◌, ◌++◌,
  append_assoc, append-nil, Option, none, some, Bool, false, not, ◌&&◌, ◌==◌, if◌then◌else◌, has,
  Bool-cases, inl, inr, arith,
}
use snet.Tcp.Factory.{Factory}
use snet.Tcp.Listener.{Listener, ListenCall}
use snet.Tcp.Listener.Socket.{call, stop_workers, stop}

-- The fields as they are before the constructor's body, over the factory that is chosen.
abbrev pub blank : Factory → (ℕ → Bool) → ℕ → Listener
blank factory running w = record {
  factory = factory;
  worker_index = 0;
  tcp_workers = [];
  listen_worker = w;
  listen_sd = minus_one;
  is_running = false;
  listen_addr = [];
  running = running;
  calls = [];
  assigned = λ p. 0;
  added = [];
}

-- The loop over the workers given, each put behind the others.
unfoldable pub take_workers : List ℕ → Listener → Listener
take_workers [] l = l
take_workers (w ∷ ws) l = take_workers ws (record l { tcp_workers = l.tcp_workers ++ (w ∷ []) })

module _ (starts : ℕ → Bool) where
  -- `start` of a worker, which may fail; its result is not looked at.
  unfoldable pub start_worker : ℕ → Listener → Listener
  start_worker w l = record l { running = λ v. if v == w then starts w else l.running v }

  -- With a worker to listen, or none, and the workers to use.
  unfoldable pub listener_on : Factory → (ℕ → Bool) → Option ℕ → ℕ → List ℕ → Listener
  unfolding take_workers start_worker
  listener_on factory running none next workers =
      take_workers workers (start_worker next (blank factory running next))
  listener_on factory running (some w) next workers = take_workers workers (blank factory running w)

  -- With the workers to use.
  unfoldable pub listener_of : Factory → (ℕ → Bool) → ℕ → List ℕ → Listener
  unfolding take_workers start_worker
  listener_of factory running next workers =
      take_workers workers (start_worker next (blank factory running next))

  -- The loop that makes workers and starts them.
  unfoldable pub make_workers : ℕ → ℕ → Listener → Listener
  unfolding start_worker
  make_workers zero next l = l
  make_workers (suc n) next l =
      let l' = start_worker next l in
      make_workers n (suc next) (record l' { tcp_workers = l'.tcp_workers ++ (next ∷ []) })

  -- With a number of workers to make.
  unfoldable pub listener_with : Factory → (ℕ → Bool) → ℕ → ℕ → Listener
  unfolding make_workers
  listener_with factory running next n =
      make_workers n (suc next) (start_worker next (blank factory running next))

-- The numbers of n workers from `next` on.
pub span : ℕ → ℕ → List ℕ
span next zero = []
span next (suc n) = next ∷ span (suc next) n

span-above : (n next v : ℕ) → has v (span next n) ≡ true → next ≤ v
unfolding span
span-above zero next v h = cc
span-above (suc n) next v h = elim (Bool-cases (has v (span (suc next) n))) [
  | inl e ↦ omega (arith, span-above n (suc next) v e)
  | inr e ↦ let same : (v == next) ≡ true = ground arith in ground arith
]

-- Workers that all start.
module _ (starts : ℕ → Bool) (all : (w : ℕ) → starts w ≡ true) where
  make_workers_lem :
      (n next : ℕ) (l : Listener)
      → ((make_workers starts n next l).tcp_workers ≡ l.tcp_workers ++ span next n)
        × ((make_workers starts n next l).listen_worker ≡ l.listen_worker)
        × ((v : ℕ)
            → (make_workers starts n next l).running v ≡ (has v (span next n) || l.running v))
        × ((make_workers starts n next l).is_running ≡ l.is_running)
  unfolding make_workers start_worker span
  make_workers_lem zero next l = (sym (append-nil _), refl, λ v. refl, refl)
  make_workers_lem (suc n) next l =
      let l' = start_worker starts next l in
      let (workers, same, runs, idle) =
        make_workers_lem n (suc next) (record l' { tcp_workers = l'.tcp_workers ++ (next ∷ []) }) in
      (
        workers ∙ append_assoc l.tcp_workers (next ∷ []) (span (suc next) n),
        same,
        λ v. runs v ∙ ground (arith, all next),
        idle,
      )

-- Workers that all run are all stopped, and no other.
stop_span :
    (n next : ℕ) (l : Listener)
    → ((v : ℕ) → has v (span next n) ≡ true → l.running v ≡ true)
    → let (ok, l') = stop_workers (span next n) l in
      (ok ≡ true) × ((v : ℕ) → l'.running v ≡ (not (has v (span next n)) && l.running v))
unfolding stop_workers span
stop_span zero next l run = (refl, λ v. refl)
stop_span (suc n) next l run =
    let itself : (next == next) ≡ true = ground arith in
    let first : l.running next ≡ true = run next (ground arith) in
    let l₁ = record l { running = λ v. if v == next then false else l.running v } in
    let rest = stop_span n (suc next) l₁ (λ v h.
      let above = span-above n (suc next) v h in
      let other : (v == next) ≡ false = ground arith in
      let runs : l.running v ≡ true = run v (ground arith) in ground arith) in
    rw first (rest.0, λ v. rest.1 v ∙ ground arith)

-- A listener that is made with a number of workers, all of which start, has that many of its own, in
-- order, and one more to listen. `stop` before any `start` returns, with all of them stopped, and
-- leaves every other worker as it was.
pub listener_with-stop :
    (starts : ℕ → Bool) (factory : Factory) (running : ℕ → Bool) (next n : ℕ)
    → ((w : ℕ) → starts w ≡ true)
    → let l = listener_with starts factory running next n in
      let (ok, l') = stop l in
      (l.tcp_workers ≡ span (suc next) n)
      × (l.listen_worker ≡ next)
      × (ok ≡ true)
      × ((v : ℕ) → l'.running v ≡ (not (has v (span next (suc n))) && running v))
unfolding listener_with start_worker span stop
listener_with-stop starts factory running next n all =
    let l = listener_with starts factory running next n in
    let (workers, own, runs, idle) =
      make_workers_lem starts all n (suc next)
        (start_worker starts next (blank factory running next)) in
    let stopped = stop_span (suc n) next l (λ v h. runs v ∙ ground (arith, all next)) in
    let same : stop l ≡ stop_workers (span next (suc n)) l =
      ap
        (λ b. stop_workers (l.listen_worker ∷ l.tcp_workers) (
          if b
          then record (call (ListenCall.close_fd l.listen_sd) l) { is_running = false }
          else l))
        idle
      ∙ (λ i. stop_workers (own i ∷ workers i) l) in
    (
      workers,
      own,
      ap (λ r. r.0) same ∙ stopped.0,
      λ v. ap (λ r. r.1.running v) same ∙ stopped.1 v ∙ ground (arith, runs v),
    )
