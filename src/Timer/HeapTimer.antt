-- ===== src/Timer/HeapTimer.antt =====
-- HeapTimer of include/utils/heap_timer.h. Nodes stand in a store and are known by their place in
-- it, as the shared pointers of the source are. Handlers are known by number: what a handler does to
-- the timer is a parameter, and so is the clock.
use snet.Prelude.{
  ℕ, zero, suc, ◌+◌, ◌-◌, ◌%◌, ◌^◌, List, ◌∷◌, Option, none, some, Bool, true, false, not, ◌&&◌,
  ltb, leb, ◌==◌, if◌then◌else◌, lookup, insert, erase, nat_key,
}
use snet.Timer.MinHeap
use snet.Timer.MinHeap.{StdHeap}

-- TimerNode. `interval` is the bit pattern of an int32_t; a new node has timer_id 0.
pub record TimerNode : Type 0 where
  pub timer_id : ℕ
  pub handler : ℕ
  pub interval : ℕ
  pub loop : Bool
  pub stopped : Bool
  pub expire_time : ℕ

-- HeapTimer, with the store of nodes, the place of the next node, the static `timer_index`, and the
-- number of times that the clock was read.
pub record HeapTimer : Type 0 where
  pub nodes : ℕ → TimerNode
  pub next_node : ℕ
  pub heap_tree : List ℕ
  pub timer_nodes : List (ℕ × ℕ)
  pub timer_index : ℕ
  pub ticks : ℕ
  -- the nodes whose handlers were called, last first
  pub fired : List ℕ

abbrev pub base_timer_index : ℕ
base_timer_index = 1024

-- `get_now() + TimeScale(interval)`; the interval is signed, and the clock is past 2 ^ 32.
abbrev pub after : ℕ → ℕ → ℕ
after now interval = if ltb interval (2 ^ 31) then now + interval else now - (2 ^ 32 - interval)

abbrev pub set_node : ℕ → TimerNode → HeapTimer → HeapTimer
set_node p node t = record t { nodes = λ q. if q == p then node else t.nodes q }

abbrev pub key_of : HeapTimer → ℕ → ℕ
key_of t p = (t.nodes p).expire_time

-- What the timer does not implement: the clock's n-th reading and the handlers.
pub record TimerEnv : Type 0 where
  pub now : ℕ → ℕ
  pub call : ℕ → HeapTimer → Bool × HeapTimer

module _ (std : StdHeap) (env : TimerEnv) where
  -- `make_shared<TimerNode>(interval, handler, loop)`: the new node's place, and the timer.
  unfoldable pub make_node : ℕ → ℕ → Bool → HeapTimer → ℕ × HeapTimer
  make_node interval handler loop t =
      let p = t.next_node in
      let node : TimerNode = record {
        timer_id = 0;
        handler = handler;
        interval = interval;
        loop = loop;
        stopped = false;
        expire_time = after (env.now t.ticks) interval;
      } in
      (p, set_node p node (record t { next_node = p + 1; ticks = t.ticks + 1 }))

  unfoldable pub heap_insert : ℕ → HeapTimer → HeapTimer
  heap_insert p t = record t { heap_tree = MinHeap.insert std (key_of t) t.heap_tree p }

  -- `add_timer`: the id is counted in 64 bits and returned in 32, which is also the map's key.
  unfoldable pub add_timer : ℕ → HeapTimer → ℕ × HeapTimer
  add_timer p t =
      let id = t.timer_index in
      let t₁ =
        set_node p (record (t.nodes p) { timer_id = id })
          (record t { timer_index = (id + 1) % 2 ^ 64 }) in
      let t₂ = heap_insert p t₁ in
      (id % 2 ^ 32, record t₂ { timer_nodes = insert (id % 2 ^ 32) p t₂.timer_nodes })

  unfoldable pub start_timer : ℕ → ℕ → Bool → HeapTimer → ℕ × HeapTimer
  start_timer handler interval loop t =
      let (p, t') = make_node interval handler loop t in add_timer p t'

  -- `itr->second->stopped = true; timer_nodes.erase(itr);`
  unfoldable pub forget : ℕ → ℕ → HeapTimer → HeapTimer
  forget id p t =
      set_node p (record (t.nodes p) { stopped = true })
        (record t { timer_nodes = erase id t.timer_nodes })

  unfoldable pub stop_timer : ℕ → HeapTimer → Bool × HeapTimer
  stop_timer id t = elim (lookup id t.timer_nodes) [
    | none ↦ (false, t)
    | some p ↦ (true, forget id p t)
  ]

  -- `restart_timer`: the new node is entered under its own `timer_id`, which nothing has set.
  unfoldable pub restart_timer : ℕ → ℕ → HeapTimer → Bool × HeapTimer
  restart_timer id interval t = elim (lookup id t.timer_nodes) [
    | none ↦ (false, t)
    | some p ↦
        let old = t.nodes p in
        let chosen = if ltb 0 interval then interval else old.interval in
        let (q, t₁) =
          make_node chosen old.handler old.loop (set_node p (record old { stopped = true }) t) in
        let t₂ = heap_insert q (record t₁ { timer_nodes = erase id t₁.timer_nodes }) in
        (true, record t₂ { timer_nodes = insert ((t₂.nodes q).timer_id % 2 ^ 32) q t₂.timer_nodes })
  ]

  -- What `handle_timeout` does once the handler has returned.
  unfoldable pub after_call : Bool → ℕ → HeapTimer → HeapTimer
  after_call true p t =
      let node = t.nodes p in
      let due = record node { expire_time = after (env.now t.ticks) node.interval } in
      if node.loop && not node.stopped
      then heap_insert p (set_node p due (record t { ticks = t.ticks + 1 }))
      else t
  after_call false p t = forget ((t.nodes p).timer_id % 2 ^ 32) p t

  unfoldable pub handle_timeout : ℕ → HeapTimer → HeapTimer
  handle_timeout p t =
      let (again, t') = env.call (t.nodes p).handler (record t { fired = p ∷ t.fired }) in
      after_call again p t'

  -- One round of the loop of `timer_loop`, for the node `p` in front.
  unfoldable pub expire_front : ℕ → HeapTimer → HeapTimer
  expire_front p t =
      let t' = record t { heap_tree = (MinHeap.pop std (key_of t) t.heap_tree).1 } in
      if (t.nodes p).stopped then t' else handle_timeout p t'

  -- `timer_loop`, from a reading `cur` of the clock on: how long to wait, and the timer. `none` means
  -- that the fuel ran out. After the loop the front node, if there is one, is not yet due, so the
  -- source's call of itself there is not reached.
  unfoldable pub timer_rounds : ℕ → ℕ → HeapTimer → Option (ℕ × HeapTimer)
  timer_rounds zero cur t = none
  timer_rounds (suc fuel) cur t = elim (MinHeap.top std (key_of t) t.heap_tree) [
    | none ↦ some (1, t)
    | some p ↦
        let t' = expire_front p t in
        let rest = timer_rounds fuel (env.now t'.ticks) (record t' { ticks = t'.ticks + 1 }) in
        if leb (key_of t p) cur then rest else some (key_of t p - cur, t)
  ]

  unfoldable pub timer_loop : ℕ → HeapTimer → Option (ℕ × HeapTimer)
  timer_loop fuel t = timer_rounds fuel (env.now t.ticks) (record t { ticks = t.ticks + 1 })
