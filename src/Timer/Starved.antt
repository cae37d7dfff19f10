-- ===== src/Timer/Starved.antt =====
-- `timer_loop` of include/utils/heap_timer.h with a timer that is due again when the clock is next
-- read, as one of interval 0 always is.
use mathlib.Core.Path.{subst}
use snet.Prelude.{
  ℕ, zero, suc, ◌+◌, ◌≤◌, ◌≡◌, refl, sym, ap, ◌∙◌, [], ◌∷◌, none, true, false, length, not, ◌&&◌,
  ◌==◌, if◌then◌else◌, inl, inr, arith,
}
use snet.Timer.MinHeap.{StdHeap, pop, insert, pop-IsHeap}
use snet.Timer.HeapTimer.{
  TimerNode, HeapTimer, TimerEnv, after, key_of, set_node, heap_insert, after_call, handle_timeout,
  expire_front, timer_rounds, timer_loop,
}
use snet.Timer.Expiry.{IsCalm, List-cases, length-Perm}
use snet.Timer.Loop.{rounds_due}

module _ (std : StdHeap) {env : TimerEnv} (calm : IsCalm env) (p interval : ℕ) where
  -- The one timer of the heap is started again and again, and asks for it each time.
  pub record IsAlone (t : HeapTimer) : Type 0 where
    pub alone : t.heap_tree ≡ p ∷ []
    pub loop : (t.nodes p).loop ≡ true
    pub live : (t.nodes p).stopped ≡ false
    pub every : (t.nodes p).interval ≡ interval

  pop_one : (key : ℕ → ℕ) → (pop std key (p ∷ [])).1 ≡ []
  pop_one key =
      let (same, heap, least) = pop-IsHeap std key p [] (std.heap_one key p) in
      elim (List-cases (pop std key (p ∷ [])).1) [
        | inl e ↦ e
        | inr (y, ys, e) ↦ absurd (omega (arith, length-Perm same, ap length e))
      ]

  -- The node, due the interval after the clock's reading, and the timer with it.
  abbrev due_node : HeapTimer → TimerNode
  due_node t = record (t.nodes p) { expire_time = after (env.now t.ticks) (t.nodes p).interval }

  abbrev put_back : HeapTimer → HeapTimer
  put_back t = set_node p (due_node t) (record t { ticks = t.ticks + 1 })

  live_again :
      (t : HeapTimer)
      → (t.nodes p).loop ≡ true
      → (t.nodes p).stopped ≡ false
      → after_call std env true p t ≡ heap_insert std env p (put_back t)
  unfolding after_call
  live_again t loop live =
      let test : ((t.nodes p).loop && not (t.nodes p).stopped) ≡ true = ground arith in rw test refl

  back_node : (t : HeapTimer) → (heap_insert std env p (put_back t)).nodes p ≡ due_node t
  unfolding heap_insert
  back_node t = let self : (p == p) ≡ true = ground arith in rw self refl

  back_heap :
      (t : HeapTimer) → t.heap_tree ≡ [] → (heap_insert std env p (put_back t)).heap_tree ≡ p ∷ []
  unfolding heap_insert insert
  back_heap t empty = ap (λ l. insert std (key_of (put_back t)) l p) empty

  -- The node stands in the heap again.
  record IsBack (t t' : HeapTimer) : Type 0 where
    kept : IsAlone t'
    key : key_of t' p ≡ after (env.now t.ticks) interval
    ticks : t'.ticks ≡ t.ticks + 1

  after_call-IsBack :
      (t : HeapTimer)
      → t.heap_tree ≡ []
      → (t.nodes p).loop ≡ true
      → (t.nodes p).stopped ≡ false
      → (t.nodes p).interval ≡ interval
      → IsBack t (after_call std env true p t)
  after_call-IsBack t empty loop live every =
      let node = back_node t in
      let back : IsBack t (heap_insert std env p (put_back t)) = record {
        kept = record {
          alone = back_heap t empty;
          loop = ap (λ n. n.loop) node ∙ loop;
          live = ap (λ n. n.stopped) node ∙ live;
          every = ap (λ n. n.interval) node ∙ every;
        };
        key = ap (λ n. n.expire_time) node ∙ ap (after (env.now t.ticks)) every;
        ticks = unfold heap_insert in refl;
      } in
      subst (IsBack t) (sym (live_again t loop live)) back

  expire_front-IsBack :
      ((handler : ℕ) (t : HeapTimer) → (env.call handler t).0 ≡ true)
      → (t : HeapTimer) → IsAlone t
      → IsBack t (expire_front std env p t)
  unfolding expire_front handle_timeout
  expire_front-IsBack again t a =
      let popped = record t { heap_tree = (pop std (key_of t) t.heap_tree).1 } in
      let called = record popped { fired = p ∷ t.fired } in
      let handler = (t.nodes p).handler in
      let empty : called.heap_tree ≡ [] =
        ap (λ l. (pop std (key_of t) l).1) a.alone ∙ pop_one (key_of t) in
      let b = after_call-IsBack called empty a.loop a.live a.every in
      let front : expire_front std env p t ≡ after_call std env true p called =
        ap (λ x. if x then popped else handle_timeout std env p popped) a.live ∙ λ i.
        after_call std env (again handler called i) p (calm.same handler called i) in
      let back : IsBack t (after_call std env true p called) = record {
        kept = b.kept;
        key = b.key;
        ticks = b.ticks;
      } in
      subst (IsBack t) (sym front) back

  module _ (again : (handler : ℕ) (t : HeapTimer) → (env.call handler t).0 ≡ true)
      (late : (n : ℕ) → after (env.now n) interval ≤ env.now (n + 1)) where
    rounds-none :
        (fuel cur : ℕ) (t : HeapTimer)
        → IsAlone t
        → key_of t p ≤ cur
        → timer_rounds std env fuel cur t ≡ none
    rounds-none zero cur t a due = unfold timer_rounds in refl
    rounds-none (suc fuel) cur t a due =
        let b = expire_front-IsBack again t a in
        let t' = expire_front std env p t in
        let next = record t' { ticks = t'.ticks + 1 } in
        let k = b.kept in
        let due' : key_of t' p ≤ env.now t'.ticks =
          subst (λ n. key_of t' p ≤ env.now n) (sym b.ticks)
            (subst (λ n. n ≤ env.now (t.ticks + 1)) (sym b.key) (late t.ticks)) in
        rounds_due std calm fuel cur t p [] a.alone (ground arith)
        ∙ rounds-none fuel (env.now t'.ticks) next
            (record { alone = k.alone; loop = k.loop; live = k.live; every = k.every }) due'

    -- With one timer, which is due, is to be started again and asks for it each time, `timer_loop`
    -- never returns, whatever the fuel, if the timer's interval has always gone by when the clock
    -- is next read: for an interval of 0, with every clock that does not go back. The handler
    -- leaves the timer alone.
    pub timer_loop_starved :
        (fuel : ℕ) (t : HeapTimer)
        → IsAlone t
        → key_of t p ≤ env.now t.ticks
        → timer_loop std env fuel t ≡ none
    unfolding timer_loop
    timer_loop_starved fuel t a due =
        rounds-none fuel (env.now t.ticks) (record t { ticks = t.ticks + 1 })
          (record { alone = a.alone; loop = a.loop; live = a.live; every = a.every }) due
