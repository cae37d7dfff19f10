-- ===== src/Timer/Expiry.antt =====
-- One round of `timer_loop` of include/utils/heap_timer.h, for timers that fire once.
use mathlib.Core.List.{Perm}
use mathlib.Core.List.Perm
use mathlib.Core.List
use mathlib.Core.Nat
use snet.Prelude.{
  ℕ, suc, ◌+◌, ◌-◌, ◌≤◌, ◌<◌, ◌≡◌, refl, sym, ap, ◌∙◌, List, [], ◌∷◌, Bool, true, false, length,
  Bool-cases, ◌⊎◌, inl, inr, arith,
}
use snet.Timer.MinHeap.{StdHeap, AtLeast, pop}
use snet.Timer.HeapTimer.{
  HeapTimer, TimerEnv, key_of, forget, after_call, handle_timeout, expire_front,
}

-- The clock does not go back, and the handlers leave the timer alone.
pub record IsCalm (env : TimerEnv) : Type 0 where
  pub forward : (n : ℕ) → env.now n ≤ env.now (n + 1)
  pub same : (handler : ℕ) (t : HeapTimer) → (env.call handler t).1 ≡ t

-- No node is to be started again.
abbrev pub IsOneShot : HeapTimer → Type 0
IsOneShot t = (p : ℕ) → (t.nodes p).loop ≡ false

-- Every item is at most `bound`.
abbrev pub AtMost : (ℕ → ℕ) → ℕ → List ℕ → Type 0
AtMost key bound [] = Unit
AtMost key bound (x ∷ xs) = (key x ≤ bound) × AtMost key bound xs

-- The time to wait for the first node of the heap, or 1.
abbrev pub NextWait : (ℕ → ℕ) → ℕ → ℕ → List ℕ → Type 0
NextWait key wait cur [] = wait ≡ 1
NextWait key wait cur (p ∷ xs) = (wait ≡ key p - cur) × (0 < wait)

pub AtLeast-less :
    (key : ℕ → ℕ) (a b : ℕ) (xs : List ℕ) → a ≤ b → AtLeast key b xs → AtLeast key a xs
AtLeast-less key a b [] le h = h
AtLeast-less key a b (x ∷ xs) le h = (omega (arith, h.0), AtLeast-less key a b xs le h.1)

pub List-cases : (xs : List ℕ) → (xs ≡ []) ⊎ ((y : ℕ) × (ys : List ℕ) × (xs ≡ y ∷ ys))
List-cases [] = inl refl
List-cases (y ∷ ys) = inr (y, ys, refl)

-- The library's length, as a native number.
abbrev native : Nat.ℕ → ℕ
native Nat.zero = 0
native (Nat.suc n) = suc (native n)

length-native : (xs : List ℕ) → length xs ≡ native (List.length xs)
length-native [] = refl
length-native (x ∷ xs) = ap suc (length-native xs)

pub length-Perm : {xs ys : List ℕ} → Perm xs ys → length xs ≡ length ys
length-Perm {xs} {ys} p = length-native xs ∙ ap native (Perm.length-eq p) ∙ sym (length-native ys)

module _ (std : StdHeap) {env : TimerEnv} (calm : IsCalm env) where
  -- What a round leaves alone.
  pub record Expired (heap : List ℕ) (t t' : HeapTimer) : Type 0 where
    pub heap_tree : t'.heap_tree ≡ heap
    pub keys : (q : ℕ) → key_of t' q ≡ key_of t q
    pub loops : (q : ℕ) → (t'.nodes q).loop ≡ (t.nodes q).loop
    pub ticks : t'.ticks ≡ t.ticks

  forget-Expired : (id p : ℕ) (t : HeapTimer) → Expired t.heap_tree t (forget std env id p t)
  unfolding forget
  forget-Expired id p t = record {
    heap_tree = refl;
    keys = λ q. ground arith;
    loops = λ q. ground arith;
    ticks = refl;
  }

  after_call-Expired :
      (again : Bool) (p : ℕ) (t : HeapTimer)
      → (t.nodes p).loop ≡ false
      → Expired t.heap_tree t (after_call std env again p t)
  unfolding after_call
  after_call-Expired true p t once =
      rw once (record { heap_tree = refl; keys = λ q. refl; loops = λ q. refl; ticks = refl })
  after_call-Expired false p t once = forget-Expired _ p t

  popped-Expired :
      (heap fired : List ℕ) (t t' : HeapTimer)
      → Expired heap (record t { heap_tree = heap; fired = fired }) t'
      → Expired heap t t'
  popped-Expired heap fired t t' e = record {
    heap_tree = e.heap_tree;
    keys = e.keys;
    loops = e.loops;
    ticks = e.ticks;
  }

  pub expire_front-Expired :
      (p : ℕ) (t : HeapTimer)
      → (t.nodes p).loop ≡ false
      → Expired (pop std (key_of t) t.heap_tree).1 t (expire_front std env p t)
  unfolding expire_front handle_timeout
  expire_front-Expired p t once =
      let heap = (pop std (key_of t) t.heap_tree).1 in
      let popped = record t { heap_tree = heap; fired = p ∷ t.fired } in
      let handler = (t.nodes p).handler in
      elim (Bool-cases (t.nodes p).stopped) [
        | inl skip ↦
            rw skip (record { heap_tree = refl; keys = λ q. refl; loops = λ q. refl; ticks = refl })
        | inr fire ↦
            rw (fire, calm.same handler popped)
              (popped-Expired heap (p ∷ t.fired) t _
                (after_call-Expired (env.call handler popped).0 p popped once))
      ]
