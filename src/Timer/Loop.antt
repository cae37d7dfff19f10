-- ===== src/Timer/Loop.antt =====
-- `timer_loop` of include/utils/heap_timer.h, for timers that fire once.
use mathlib.Core.Path.{subst}
use mathlib.Core.List.{Perm}
use mathlib.Core.List.Perm
use snet.Prelude.{
  ℕ, zero, suc, ◌+◌, ◌-◌, ◌≤◌, ◌<◌, ◌≡◌, refl, sym, ap, fun_ext, ◌∙◌, List, [], ◌∷◌, ◌++◌, Option,
  none, some, true, false, leb, length, Bool-cases, inl, inr, arith,
}
use snet.Timer.MinHeap.{StdHeap, AtLeast, top, pop, pop-IsHeap}
use snet.Timer.HeapTimer.{HeapTimer, TimerEnv, key_of, expire_front, timer_rounds, timer_loop}
use snet.Timer.Expiry.{
  IsCalm, IsOneShot, AtMost, NextWait, AtLeast-less, List-cases, length-Perm, expire_front-Expired,
}

module _ (std : StdHeap) {env : TimerEnv} (calm : IsCalm env) where
  -- What the loop comes to: how long to wait, the timer, the clock's last reading, and the nodes that
  -- were taken off the heap.
  pub record Looped (start : ℕ) (t : HeapTimer) (r : Option (ℕ × HeapTimer)) : Type 0 where
    pub wait : ℕ
    pub timer : HeapTimer
    pub cur : ℕ
    pub gone : List ℕ
    pub ran : r ≡ some (wait, timer)
    pub since : start ≤ cur
    pub same : Perm t.heap_tree (gone ++ timer.heap_tree)
    pub due : AtMost (key_of t) cur gone
    pub later : AtLeast (key_of t) (suc cur) timer.heap_tree
    pub wait_next : NextWait (key_of t) wait cur timer.heap_tree

  top_nil : (t : HeapTimer) → t.heap_tree ≡ [] → top std (key_of t) t.heap_tree ≡ none
  unfolding top
  top_nil t e = ap (top std (key_of t)) e

  top_cons :
      (t : HeapTimer) (p : ℕ) (xs : List ℕ)
      → t.heap_tree ≡ p ∷ xs
      → top std (key_of t) t.heap_tree ≡ some p
  unfolding top
  top_cons t p xs e = ap (top std (key_of t)) e

  module _ (fuel cur : ℕ) (t : HeapTimer) where
    rounds_empty : t.heap_tree ≡ [] → timer_rounds std env (suc fuel) cur t ≡ some (1, t)
    unfolding timer_rounds
    rounds_empty e = let first = top_nil t e in rw (timer_rounds, first) refl

    rounds_early :
        (p : ℕ) (xs : List ℕ)
        → t.heap_tree ≡ p ∷ xs
        → leb (key_of t p) cur ≡ false
        → timer_rounds std env (suc fuel) cur t ≡ some (key_of t p - cur, t)
    unfolding timer_rounds
    rounds_early p xs e early =
        let first = top_cons t p xs e in rw (timer_rounds, first, early) refl

    pub rounds_due :
        (p : ℕ) (xs : List ℕ)
        → t.heap_tree ≡ p ∷ xs
        → leb (key_of t p) cur ≡ true
        → let t' = expire_front std env p t in
          timer_rounds std env (suc fuel) cur t
          ≡ timer_rounds std env fuel (env.now t'.ticks) (record t' { ticks = t'.ticks + 1 })
    unfolding timer_rounds
    rounds_due p xs e due = let first = top_cons t p xs e in rw (timer_rounds, first, due) refl

  timer_rounds-Looped :
      (fuel cur : ℕ) (t : HeapTimer)
      → length t.heap_tree < fuel
      → cur ≤ env.now t.ticks
      → IsOneShot t
      → std.IsHeap (key_of t) t.heap_tree
      → Looped cur t (timer_rounds std env fuel cur t)
  timer_rounds-Looped zero cur t h past once heap = elim h [ ]
  timer_rounds-Looped (suc fuel) cur t h past once heap = elim (List-cases t.heap_tree) [
    | inl empty ↦ record {
      wait = 1;
      timer = t;
      cur = cur;
      gone = [];
      ran = rounds_empty fuel cur t empty;
      since = omega arith;
      same = Perm.refl _;
      due = tt;
      later = subst (AtLeast (key_of t) (suc cur)) (sym empty) tt;
      wait_next = subst (NextWait (key_of t) 1 cur) (sym empty) refl;
    }
    | inr (p, xs, front) ↦ elim (Bool-cases (leb (key_of t p) cur)) [
      | inr early ↦
          let after : cur < key_of t p = ground arith in
          let (same, rest, least) =
            pop-IsHeap std (key_of t) p xs (subst (std.IsHeap (key_of t)) front heap) in
          record {
            wait = key_of t p - cur;
            timer = t;
            cur = cur;
            gone = [];
            ran = rounds_early fuel cur t p xs front early;
            since = omega arith;
            same = Perm.refl _;
            due = tt;
            later = subst (AtLeast (key_of t) (suc cur)) (sym front) (
              omega arith,
              AtLeast-less (key_of t) (suc cur) (key_of t p) xs (omega arith) least,
            );
            wait_next =
                subst (NextWait (key_of t) (key_of t p - cur) cur) (sym front) (refl, omega arith);
          }
      | inl due ↦
          let t' = expire_front std env p t in
          let e = expire_front-Expired std calm p t (once p) in
          let keys : key_of t' ≡ key_of t = fun_ext e.keys in
          let popped : t'.heap_tree ≡ (pop std (key_of t) (p ∷ xs)).1 =
            e.heap_tree ∙ ap (λ l. (pop std (key_of t) l).1) front in
          let (same, rest, least) =
            pop-IsHeap std (key_of t) p xs (subst (std.IsHeap (key_of t)) front heap) in
          let next = record t' { ticks = t'.ticks + 1 } in
          let size : length t'.heap_tree ≡ length xs = ap length popped ∙ length-Perm same in
          let heap' : std.IsHeap (key_of t') t'.heap_tree =
            subst (λ k. std.IsHeap k t'.heap_tree) (sym keys)
              (subst (std.IsHeap (key_of t)) (sym popped) rest) in
          let past' : env.now t'.ticks ≤ env.now next.ticks = calm.forward t'.ticks in
          let start : cur ≤ env.now t'.ticks = subst (λ n. cur ≤ env.now n) (sym e.ticks) past in
          let r =
            timer_rounds-Looped fuel (env.now t'.ticks) next (omega (arith, size, ap length front))
              past' (λ q. e.loops q ∙ once q) heap' in
          record {
            wait = r.wait;
            timer = r.timer;
            cur = r.cur;
            gone = p ∷ r.gone;
            ran = rounds_due fuel cur t p xs front due ∙ r.ran;
            since = omega (arith, r.since, start);
            same =
                subst (λ l. Perm l (p ∷ (r.gone ++ r.timer.heap_tree))) (sym front)
                  (Perm.cons p (
                    Perm.trans (Perm.symm same)
                      (subst (λ l. Perm l (r.gone ++ r.timer.heap_tree)) popped r.same)));
            due = (ground (arith, r.since, start), subst (λ k. AtMost k r.cur r.gone) keys r.due);
            later = subst (λ k. AtLeast k (suc r.cur) r.timer.heap_tree) keys r.later;
            wait_next = subst (λ k. NextWait k r.wait r.cur r.timer.heap_tree) keys r.wait_next;
          }
    ]
  ]

  -- `timer_loop` ends if there are fewer nodes than the fuel, none is to be started again, the
  -- handlers leave the timer alone and the clock does not go back. It takes off the heap just the
  -- nodes that are due at the clock's last reading, and returns how long the first of the others
  -- is away from then, which is not 0, or 1 if there is none.
  pub timer_loop-Looped :
      (fuel : ℕ) (t : HeapTimer)
      → length t.heap_tree < fuel
      → IsOneShot t
      → std.IsHeap (key_of t) t.heap_tree
      → Looped (env.now t.ticks) t (timer_loop std env fuel t)
  unfolding timer_loop
  timer_loop-Looped fuel t h once heap =
      let r =
        timer_rounds-Looped fuel (env.now t.ticks) (record t { ticks = t.ticks + 1 }) h
          (calm.forward t.ticks) once heap in
      record {
        wait = r.wait;
        timer = r.timer;
        cur = r.cur;
        gone = r.gone;
        ran = r.ran;
        since = r.since;
        same = r.same;
        due = r.due;
        later = r.later;
        wait_next = r.wait_next;
      }
