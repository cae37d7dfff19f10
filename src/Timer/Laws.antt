-- ===== src/Timer/Laws.antt =====
-- What HeapTimer keeps of its map `timer_nodes` of registered nodes, and what `stop_timer` and
-- `restart_timer` do to it.
use snet.Prelude.{
  ℕ, ◌%◌, ◌^◌, ◌<◌, ◌≡◌, ◌≢◌, List, [], ◌∷◌, none, some, Bool, true, false, inl, inr, lookup,
  insert, erase, lookup-insert, lookup-erase, nat_key, Option-cases, arith,
}
use snet.Timer.MinHeap.{StdHeap}
use snet.Timer.HeapTimer.{
  HeapTimer, TimerEnv, make_node, heap_insert, add_timer, start_timer, forget, stop_timer,
  restart_timer,
}

-- Every id stands for a node that was made, has that id, and is not stopped.
unfoldable pub IsRegistry : HeapTimer → Type 0
IsRegistry t =
    (id p : ℕ)
    → lookup id t.timer_nodes ≡ some p
    → (p < t.next_node) × ((t.nodes p).timer_id % 2 ^ 32 ≡ id) × ((t.nodes p).stopped ≡ false)

module _ (std : StdHeap) (env : TimerEnv) (t : HeapTimer) (v : IsRegistry t) where
  start_timer-IsRegistry :
      (handler interval : ℕ) (loop : Bool)
      → IsRegistry (start_timer std env handler interval loop t).1
  unfolding start_timer make_node add_timer heap_insert IsRegistry
  start_timer-IsRegistry handler interval loop id p found =
      ground (arith, lookup-insert (t.timer_index % 2 ^ 32) id t.next_node t.timer_nodes, v id p)

  stop_timer-IsRegistry : (id : ℕ) → IsRegistry (stop_timer std env id t).1
  unfolding stop_timer forget IsRegistry
  stop_timer-IsRegistry id j q at = elim (Option-cases (lookup id t.timer_nodes)) [
    | inl gone ↦ ground (arith, v j q)
    | inr (p, found) ↦ ground (arith, lookup-erase id j t.timer_nodes, v j q, v id p found)
  ]

  restart_timer-IsRegistry : (id interval : ℕ) → IsRegistry (restart_timer std env id interval t).1
  unfolding restart_timer make_node heap_insert IsRegistry
  restart_timer-IsRegistry id interval j q at = elim (Option-cases (lookup id t.timer_nodes)) [
    | inl gone ↦ ground (arith, v j q)
    | inr (p, found) ↦ ground (
      arith,
      lookup-insert 0 j t.next_node (erase id t.timer_nodes),
      lookup-erase id j t.timer_nodes,
      v j q,
      v id p found,
    )
  ]

-- The calls that a user of the timer makes.
pub data TimerOp : Type 0 where
  start : ℕ → ℕ → Bool → TimerOp
  stop : ℕ → TimerOp
  restart : ℕ → ℕ → TimerOp

module _ (std : StdHeap) (env : TimerEnv) where
  pub call : TimerOp → HeapTimer → HeapTimer
  call (start handler interval loop) t = (start_timer std env handler interval loop t).1
  call (stop id) t = (stop_timer std env id t).1
  call (restart id interval) t = (restart_timer std env id interval t).1

  pub calls : List TimerOp → HeapTimer → HeapTimer
  calls [] t = t
  calls (op ∷ ops) t = calls ops (call op t)

  -- Every sequence of calls of `start_timer`, `stop_timer` and `restart_timer` keeps this: each id
  -- stands for a node that was made, has that id, and is not stopped.
  pub calls-IsRegistry :
      (ops : List TimerOp) (t : HeapTimer) → IsRegistry t → IsRegistry (calls ops t)
  unfolding calls call
  calls-IsRegistry [] t v = v
  calls-IsRegistry (start handler interval loop ∷ ops) t v =
      calls-IsRegistry ops _ (start_timer-IsRegistry std env t v handler interval loop)
  calls-IsRegistry (stop id ∷ ops) t v =
      calls-IsRegistry ops _ (stop_timer-IsRegistry std env t v id)
  calls-IsRegistry (restart id interval ∷ ops) t v =
      calls-IsRegistry ops _ (restart_timer-IsRegistry std env t v id interval)

  -- The id that `start_timer` returns stops the node that it made, once: a second call finds
  -- nothing and changes nothing. The entry of any other id is what it was before.
  pub start_then_stop :
      (handler interval : ℕ) (loop : Bool) (t : HeapTimer) (other : ℕ)
      → other ≢ (start_timer std env handler interval loop t).0
      → let (id, t₁) = start_timer std env handler interval loop t in
        let (found, t₂) = stop_timer std env id t₁ in
        (found ≡ true)
        × ((t₂.nodes t.next_node).stopped ≡ true)
        × (stop_timer std env id t₂ ≡ (false, t₂))
        × (lookup other t₂.timer_nodes ≡ lookup other t.timer_nodes)
  unfolding start_timer make_node add_timer heap_insert stop_timer forget
  start_then_stop handler interval loop t other ne =
      let id = t.timer_index % 2 ^ 32 in
      let p = t.next_node in
      let inserted = insert id p t.timer_nodes in
      let here : lookup id inserted ≡ some p =
        ground (arith, lookup-insert id id p t.timer_nodes) in
      let gone : lookup id (erase id inserted) ≡ none =
        ground (arith, lookup-erase id id inserted) in
      (
        ground arith,
        ground arith,
        ground arith,
        ground (arith, lookup-erase id other inserted, lookup-insert id other p t.timer_nodes),
      )

  -- A timer that is restarted can no longer be stopped by its id, if that is not 0: `restart_timer`
  -- registers the new node under id 0, `stop_timer` of the old id finds nothing, and the new node
  -- is not stopped.
  pub restart_loses_id :
      (id interval p : ℕ) (t : HeapTimer)
      → lookup id t.timer_nodes ≡ some p
      → id ≢ 0
      → let (found, t') = restart_timer std env id interval t in
        (found ≡ true)
        × (stop_timer std env id t' ≡ (false, t'))
        × (lookup 0 t'.timer_nodes ≡ some t.next_node)
        × ((t'.nodes t.next_node).stopped ≡ false)
  unfolding restart_timer make_node heap_insert stop_timer
  restart_loses_id id interval p t found ne =
      let q = t.next_node in
      let erased = erase id t.timer_nodes in
      let gone : lookup id (insert 0 q erased) ≡ none =
        ground (arith, lookup-insert 0 id q erased, lookup-erase id id t.timer_nodes) in
      let here : lookup 0 (insert 0 q erased) ≡ some q =
        ground (arith, lookup-insert 0 0 q erased) in
      ground arith
