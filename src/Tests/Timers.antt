-- ===== src/Tests/Timers.antt =====
-- include/utils/heap_timer.h and min_heap.h, with a sorted list for the heap of the C++ library.
use snet.Prelude.{
  ℕ, ◌+◌, ◌-◌, ◌*◌, ◌^◌, ◌≤◌, ◌≡◌, ◌≢◌, refl, List, [], ◌∷◌, ◌++◌, some, true, false, leb,
  if◌then◌else◌, lookup, nat_key, arith, Bool-cases, inl, inr,
}
use mathlib.Core.List.{Perm, Mem}
use mathlib.Core.List.Perm
use snet.Timer.MinHeap.{StdHeap, AtLeast, item, top, pop, pop_returns_next}
use snet.Timer.HeapTimer.{
  TimerNode, HeapTimer, TimerEnv, base_timer_index, make_node, add_timer, start_timer, stop_timer,
  timer_loop, timer_rounds, expire_front, handle_timeout, after_call, restart_timer,
}
use snet.Timer.Loop.{Looped, timer_loop-Looped}
use snet.Timer.Expiry.{IsCalm}
use snet.Timer.Laws.{
  TimerOp, start, stop, restart, IsRegistry, calls, calls-IsRegistry, start_then_stop,
  restart_loses_id,
}

abbrev place : (ℕ → ℕ) → ℕ → List ℕ → List ℕ
place key x [] = x ∷ []
place key x (y ∷ ys) = if leb (key x) (key y) then x ∷ y ∷ ys else y ∷ place key x ys

abbrev sort : (ℕ → ℕ) → List ℕ → List ℕ
sort key [] = []
sort key (x ∷ xs) = place key x (sort key xs)

abbrev rotate : List ℕ → List ℕ
rotate [] = []
rotate (x ∷ xs) = xs ++ (x ∷ [])

abbrev pub Sorted : (ℕ → ℕ) → List ℕ → Type 0
Sorted key [] = Unit
Sorted key (x ∷ xs) = AtLeast key (key x) xs × Sorted key xs

AtLeast-weaken : (key : ℕ → ℕ) (a b : ℕ) (xs : List ℕ) → a ≤ b → AtLeast key b xs → AtLeast key a xs
AtLeast-weaken key a b [] le h = h
AtLeast-weaken key a b (x ∷ xs) le h = (omega (arith, h.0), AtLeast-weaken key a b xs le h.1)

AtLeast-place :
    (key : ℕ → ℕ) (a x : ℕ) (xs : List ℕ)
    → a ≤ key x
    → AtLeast key a xs
    → AtLeast key a (place key x xs)
AtLeast-place key a x [] le h = (le, _)
AtLeast-place key a x (y ∷ ys) le h = elim (Bool-cases (leb (key x) (key y))) [
  | inl e ↦ rw e (le, h)
  | inr e ↦ rw e (h.0, AtLeast-place key a x ys le h.1)
]

place-Sorted : (key : ℕ → ℕ) (x : ℕ) (xs : List ℕ) → Sorted key xs → Sorted key (place key x xs)
place-Sorted key x [] h = (_, _)
place-Sorted key x (y ∷ ys) h = elim (Bool-cases (leb (key x) (key y))) [
  | inl e ↦
      let le : key x ≤ key y = ground arith in
      rw e ((le, AtLeast-weaken key (key x) (key y) ys le h.0), h)
  | inr e ↦
      let le : key y ≤ key x = ground arith in
      rw e (AtLeast-place key (key y) x ys le h.0, place-Sorted key x ys h.1)
]

pub sort-Sorted : (key : ℕ → ℕ) (xs : List ℕ) → Sorted key (sort key xs)
sort-Sorted key [] = _
sort-Sorted key (x ∷ xs) = place-Sorted key x (sort key xs) (sort-Sorted key xs)

place-Perm : (key : ℕ → ℕ) (x : ℕ) (xs : List ℕ) → Perm (place key x xs) (x ∷ xs)
place-Perm key x [] = Perm.refl _
place-Perm key x (y ∷ ys) = elim (Bool-cases (leb (key x) (key y))) [
  | inl e ↦ rw e (Perm.refl _)
  | inr e ↦ rw e (Perm.trans (Perm.cons y (place-Perm key x ys)) (Perm.swap x y ys))
]

pub sort-Perm : (key : ℕ → ℕ) (xs : List ℕ) → Perm (sort key xs) xs
sort-Perm key [] = Perm.refl _
sort-Perm key (x ∷ xs) =
    Perm.trans (place-Perm key x (sort key xs)) (Perm.cons x (sort-Perm key xs))

abbrev pub sorted_heap : StdHeap
sorted_heap = record {
  push_heap = sort;
  pop_heap = λ key xs. rotate xs;
  IsHeap = Sorted;
  heap_nil = λ key. _;
  heap_one = λ key x. (_, _);
  front_least = λ key x xs h. h.0;
  push_perm = sort-Perm;
  push_lem = λ key xs x h. sort-Sorted key (xs ++ (x ∷ []));
  pop_lem = λ key x xs h. (xs, refl, Perm.refl _, h.1);
}

abbrev keys : ℕ → ℕ
keys n = 10 * n

three-Sorted : Sorted keys (1 ∷ 4 ∷ 6 ∷ [])
three-Sorted = ground arith

popped_next : (pop sorted_heap keys (1 ∷ 4 ∷ 6 ∷ [])).0 ≡ item 4
unfolding pop
popped_next = refl

pop_returns_next_example :
    (z : ℕ) × ((pop sorted_heap keys (1 ∷ 4 ∷ 6 ∷ [])).0 ≡ item z)
    × Mem z (4 ∷ 6 ∷ [])
    × (10 ≤ keys z)
pop_returns_next_example = pop_returns_next sorted_heap keys 1 4 (6 ∷ []) three-Sorted

abbrev pub env : TimerEnv
env = record { now = λ n. 2 ^ 40 + 100 * n; call = λ handler t. (true, t) }

abbrev pub blank_node : TimerNode
blank_node = record {
  timer_id = 0;
  handler = 0;
  interval = 0;
  loop = false;
  stopped = false;
  expire_time = 0;
}

abbrev pub new_timer : HeapTimer
new_timer = record {
  nodes = λ p. blank_node;
  next_node = 0;
  heap_tree = [];
  timer_nodes = [];
  timer_index = base_timer_index;
  ticks = 0;
  fired = [];
}

new_timer-IsRegistry : IsRegistry new_timer
unfolding IsRegistry
new_timer-IsRegistry = λ id p found. cc

-- A timer with one node under id 1024.
abbrev one_timer : HeapTimer
one_timer = record new_timer {
  nodes = λ p. record blank_node { timer_id = 1024; interval = 50 };
  next_node = 1;
  heap_tree = 0 ∷ [];
  timer_nodes = (1024, 0) ∷ [];
  timer_index = 1025;
}

abbrev ops : List TimerOp
ops = start 1 50 true ∷ restart 1024 70 ∷ start 2 60 false ∷ stop 1025 ∷ stop 0 ∷ []

calls-IsRegistry_example : IsRegistry (calls sorted_heap env ops new_timer)
calls-IsRegistry_example = calls-IsRegistry sorted_heap env ops new_timer new_timer-IsRegistry

other_id : 1024 ≢ (start_timer sorted_heap env 1 50 true one_timer).0
unfolding start_timer add_timer make_node
other_id = ground arith

start_then_stop_example :
    let (id, t₁) = start_timer sorted_heap env 1 50 true one_timer in
    let (found, t₂) = stop_timer sorted_heap env id t₁ in
    (found ≡ true)
    × ((t₂.nodes 1).stopped ≡ true)
    × (stop_timer sorted_heap env id t₂ ≡ (false, t₂))
    × (lookup 1024 t₂.timer_nodes ≡ some 0)
start_then_stop_example = start_then_stop sorted_heap env 1 50 true one_timer 1024 other_id

restart_loses_id_example :
    let (found, t') = restart_timer sorted_heap env 1024 70 one_timer in
    (found ≡ true)
    × (stop_timer sorted_heap env 1024 t' ≡ (false, t'))
    × (lookup 0 t'.timer_nodes ≡ some 1)
    × ((t'.nodes 1).stopped ≡ false)
restart_loses_id_example = restart_loses_id sorted_heap env 1024 70 0 one_timer refl (ground arith)

pub env-IsCalm : IsCalm env
env-IsCalm = record { forward = λ n. omega arith; same = λ handler t. refl }

-- Two nodes that are due and one that is not.
abbrev three_timer : HeapTimer
three_timer = record new_timer {
  nodes = λ p. record blank_node { expire_time = if leb p 1 then 2 ^ 40 - 5 + p else 2 ^ 40 + 900 };
  next_node = 3;
  heap_tree = 0 ∷ 1 ∷ 2 ∷ [];
}

three_timer-Sorted : Sorted (λ p. (three_timer.nodes p).expire_time) (0 ∷ 1 ∷ 2 ∷ [])
three_timer-Sorted = ground arith

timer_loop-Looped_example :
    Looped sorted_heap env-IsCalm (2 ^ 40) three_timer (timer_loop sorted_heap env 4 three_timer)
timer_loop-Looped_example =
    timer_loop-Looped sorted_heap env-IsCalm 4 three_timer (omega arith) (λ p. refl)
      three_timer-Sorted

two_fired :
    timer_loop sorted_heap env 4 three_timer
    ≡ some (700, record three_timer { heap_tree = 2 ∷ []; ticks = 3; fired = 1 ∷ 0 ∷ [] })
unfolding timer_loop timer_rounds top expire_front handle_timeout after_call pop
two_fired = refl
