-- ===== src/Timer/MinHeap.antt =====
-- MinHeap of include/utils/min_heap.h over `std::push_heap` and `std::pop_heap`. Items are pointers,
-- compared by a number that they point to; `Mutex` is not modelled.
use mathlib.Core.Logic.Or
use native.Mathlib.Bridge.{le_prop}
use mathlib.Core.List.{Perm, Mem, mem-cons, not-mem-nil}
use mathlib.Core.List.Perm
use snet.Prelude.{
  ℕ, ◌≤◌, ◌≡◌, refl, ap, ◌∙◌, List, [], ◌∷◌, ◌++◌, Option, none, some, true, length, length-append,
  ltb, if◌then◌else◌, arith,
}

-- Every item is at least `bound`.
abbrev pub AtLeast : (ℕ → ℕ) → ℕ → List ℕ → Type 0
AtLeast key bound [] = Unit
AtLeast key bound (x ∷ xs) = (bound ≤ key x) × AtLeast key bound xs

-- What the C++ standard says of the heap algorithms, with the item of the smallest key in front.
pub record StdHeap : Type 1 where
  pub push_heap : (ℕ → ℕ) → List ℕ → List ℕ
  pub pop_heap : (ℕ → ℕ) → List ℕ → List ℕ
  pub IsHeap : (ℕ → ℕ) → List ℕ → Type 0
  pub heap_nil : (key : ℕ → ℕ) → IsHeap key []
  pub heap_one : (key : ℕ → ℕ) (x : ℕ) → IsHeap key (x ∷ [])
  pub front_least :
      (key : ℕ → ℕ) (x : ℕ) (xs : List ℕ) → IsHeap key (x ∷ xs) → AtLeast key (key x) xs
  pub push_perm : (key : ℕ → ℕ) (xs : List ℕ) → Perm (push_heap key xs) xs
  pub push_lem :
      (key : ℕ → ℕ) (xs : List ℕ) (x : ℕ)
      → IsHeap key xs
      → IsHeap key (push_heap key (xs ++ (x ∷ [])))
  -- `pop_heap` moves the front to the end; the rest is a heap of the other items.
  pub pop_lem :
      (key : ℕ → ℕ) (x : ℕ) (xs : List ℕ)
      → IsHeap key (x ∷ xs)
      → (rest : List ℕ) × (pop_heap key (x ∷ xs) ≡ rest ++ (x ∷ []))
        × Perm rest xs
        × IsHeap key rest

-- `vector::pop_back`
abbrev pub pop_back : List ℕ → List ℕ
pop_back [] = []
pop_back (x ∷ []) = []
pop_back (x ∷ y ∷ xs) = x ∷ pop_back (y ∷ xs)

pub pop_back-append : (xs : List ℕ) (x : ℕ) → pop_back (xs ++ (x ∷ [])) ≡ xs
pop_back-append [] x = refl
pop_back-append (y ∷ []) x = refl
pop_back-append (y ∷ z ∷ xs) x = ap (λ t. y ∷ t) (pop_back-append (z ∷ xs) x)

-- The result of `pop`. It is read through a reference to the first item of the vector after the
-- removal, which refers to nothing if the vector is then empty.
pub data Popped : Type 0 where
  nothing : Popped
  dangling : Popped
  item : ℕ → Popped

abbrev pub front_of : List ℕ → Popped
front_of [] = dangling
front_of (x ∷ xs) = item x

front-mem : (xs : List ℕ) (y : ℕ) → front_of xs ≡ item y → Mem y xs
front-mem [] y e = cc
front-mem (x ∷ xs) y e = let same : y ≡ x = ground arith in mem-cons.1 (Or.inl same)

pub AtLeast-mem :
    (key : ℕ → ℕ) {bound y : ℕ} (xs : List ℕ) → Mem y xs → AtLeast key bound xs → bound ≤ key y
AtLeast-mem key [] m h = absurd (not-mem-nil m)
AtLeast-mem key (x ∷ xs) m h =
    Or.elim le_prop (mem-cons.0 m) (λ e. rw e h.0) (λ r. AtLeast-mem key xs r h.1)

-- The first of the items that are left is one of them.
next-front :
    {y : ℕ} {ys : List ℕ} (rest : List ℕ)
    → Perm rest (y ∷ ys)
    → (z : ℕ) × (front_of rest ≡ item z) × Mem z (y ∷ ys)
next-front [] same = let none_left = Perm.nil-eq same in absurd cc
next-front (x ∷ xs) same = (x, refl, Perm.subset same x (front-mem (x ∷ xs) x refl))

module _ (std : StdHeap) (key : ℕ → ℕ) where
  -- `insert`
  unfoldable pub insert : List ℕ → ℕ → List ℕ
  insert heap x =
      let all = heap ++ (x ∷ []) in if ltb 1 (length all) then std.push_heap key all else all

  -- `top`
  unfoldable pub top : List ℕ → Option ℕ
  top [] = none
  top (x ∷ xs) = some x

  -- `pop`, with its result
  unfoldable pub pop : List ℕ → Popped × List ℕ
  pop [] = (nothing, [])
  pop (x ∷ xs) = let heap = pop_back (std.pop_heap key (x ∷ xs)) in (front_of heap, heap)

  -- `insert` into a heap adds the item and leaves a heap.
  pub insert-IsHeap :
      (heap : List ℕ) (x : ℕ)
      → std.IsHeap key heap
      → Perm (insert heap x) (heap ++ (x ∷ [])) × std.IsHeap key (insert heap x)
  unfolding insert
  insert-IsHeap [] x h = (Perm.refl _, std.heap_one key x)
  insert-IsHeap (y ∷ ys) x h =
      let long : ltb 1 (length (y ∷ (ys ++ (x ∷ [])))) ≡ true =
        ground (arith, length-append ys (x ∷ [])) in
      rw long (std.push_perm key _, std.push_lem key (y ∷ ys) x h)

  -- `pop` on a heap removes its front, which has the smallest key, and leaves a heap of the others.
  pub pop-IsHeap :
      (x : ℕ) (xs : List ℕ)
      → std.IsHeap key (x ∷ xs)
      → Perm (pop (x ∷ xs)).1 xs × std.IsHeap key (pop (x ∷ xs)).1 × AtLeast key (key x) xs
  unfolding pop
  pop-IsHeap x xs h =
      let (rest, moved, same, heap) = std.pop_lem key x xs h in
      let e : pop_back (std.pop_heap key (x ∷ xs)) ≡ rest =
        ap pop_back moved ∙ pop_back-append rest x in
      rw e (same, heap, std.front_least key x xs h)

  -- What `pop` returns of a heap of several items is not the item that it removes but one of those
  -- that stay, which is no smaller.
  pub pop_returns_next :
      (x y : ℕ) (ys : List ℕ)
      → std.IsHeap key (x ∷ y ∷ ys)
      → (z : ℕ) × ((pop (x ∷ y ∷ ys)).0 ≡ item z) × Mem z (y ∷ ys) × (key x ≤ key z)
  unfolding pop
  pop_returns_next x y ys h =
      let (rest, moved, same, heap) = std.pop_lem key x (y ∷ ys) h in
      let e : pop_back (std.pop_heap key (x ∷ y ∷ ys)) ≡ rest =
        ap pop_back moved ∙ pop_back-append rest x in
      let least = std.front_least key x (y ∷ ys) h in
      let (z, front, m) = next-front rest same in
      rw e (z, front, m, AtLeast-mem key (y ∷ ys) m least)
