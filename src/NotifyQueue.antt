-- ===== src/NotifyQueue.antt =====
-- NotifyQueue of include/utils/notify_queue.h over `std::set`, for items that are numbers. A set is
-- the list of its items, the least one first. The mutex orders the calls: a `push` stands before or
-- behind the swap of `process`, and those behind it may come while the items are processed.
use mathlib.Core.Path.{subst}
use snet.Prelude.{
  ℕ, ◌<◌, ◌≡◌, refl, sym, ap, ◌∙◌, List, [], ◌∷◌, ◌++◌, Bool, true, false, not, ◌||◌, ltb, ◌==◌,
  if◌then◌else◌, has, has_append, arith,
}

-- `std::set::emplace`
abbrev pub emplace : ℕ → List ℕ → List ℕ
emplace x [] = x ∷ []
emplace x (y ∷ ys) =
    let behind = emplace x ys in
    if ltb x y then x ∷ y ∷ ys else (if x == y then y ∷ ys else y ∷ behind)

pub record NotifyQueue : Type 0 where
  pub m_data : List ℕ
  pub m_cache : List ℕ

abbrev pub is_empty : List ℕ → Bool
is_empty [] = true
is_empty (x ∷ xs) = false

unfoldable pub push : ℕ → NotifyQueue → NotifyQueue
push item q = record q { m_data = emplace item q.m_data }

unfoldable pub empty : NotifyQueue → Bool
empty q = is_empty q.m_data

unfoldable pub peek : NotifyQueue → Bool
peek q = not (is_empty q.m_data)

unfoldable pub push_all : List ℕ → NotifyQueue → NotifyQueue
unfolding push
push_all [] q = q
push_all (item ∷ items) q = push_all items (push item q)

-- The first lines of `process`, under the mutex.
unfoldable pub swap : NotifyQueue → NotifyQueue
swap q = if is_empty q.m_cache then record { m_data = q.m_cache; m_cache = q.m_data } else q

-- `process`: the items handed to the processor, in order, and the queue, if the items `meanwhile`
-- are pushed while they are processed.
unfoldable pub process : List ℕ → NotifyQueue → List ℕ × NotifyQueue
unfolding swap push_all
process meanwhile q =
    let q' = swap q in (q'.m_cache, record (push_all meanwhile q') { m_cache = [] })

-- The calls of the owners of a queue.
pub data Step : Type 0 where
  pushes : ℕ → Step
  processes : List ℕ → Step

-- The items that are handed over, and the queue.
unfoldable pub run : List Step → NotifyQueue → List ℕ × NotifyQueue
unfolding process push
run [] q = ([], q)
run (pushes item ∷ steps) q = run steps (push item q)
run (processes meanwhile ∷ steps) q =
    let (handed, q') = process meanwhile q in
    let (later, q'') = run steps q' in (handed ++ later, q'')

abbrev pub pushed : List Step → List ℕ
pushed [] = []
pushed (pushes item ∷ steps) = item ∷ pushed steps
pushed (processes meanwhile ∷ steps) = meanwhile ++ pushed steps

-- Above every item of the list.
abbrev pub Above : ℕ → List ℕ → Type 0
Above x [] = Unit
Above x (y ∷ ys) = x < y

abbrev pub IsAscending : List ℕ → Type 0
IsAscending [] = Unit
IsAscending (x ∷ xs) = Above x xs × IsAscending xs

-- The set is in order without repetition, and nothing waits to be processed.
pub record IsQueue (q : NotifyQueue) : Type 0 where
  pub ascending : IsAscending q.m_data
  pub no_cache : q.m_cache ≡ []

has-emplace : (i x : ℕ) (ys : List ℕ) → has i (emplace x ys) ≡ (x == i || has i ys)
has-emplace i x [] = refl
has-emplace i x (y ∷ ys) = ground (arith, has-emplace i x ys)

emplace-Above : (b x : ℕ) (ys : List ℕ) → b < x → Above b ys → Above b (emplace x ys)
emplace-Above b x [] h k = h
emplace-Above b x (y ∷ ys) h k = ground arith

emplace-IsAscending : (x : ℕ) (ys : List ℕ) → IsAscending ys → IsAscending (emplace x ys)
emplace-IsAscending x [] v = (tt, tt)
emplace-IsAscending x (y ∷ ys) (above, v) =
    ground (arith, emplace-Above y x ys, emplace-IsAscending x ys v)

push_all-m_data :
    (items : List ℕ) (q : NotifyQueue)
    → IsAscending q.m_data
    → IsAscending (push_all items q).m_data
      × ((i : ℕ) → has i (push_all items q).m_data ≡ (has i items || has i q.m_data))
unfolding push_all push
push_all-m_data [] q v = (v, λ i. refl)
push_all-m_data (item ∷ items) q v =
    let (order, same) = push_all-m_data items (push item q) (emplace-IsAscending item q.m_data v) in
    (order, λ i. ground (arith, same i, has-emplace i item q.m_data))

-- The items of each `process` are in order, without repetition.
abbrev pub AllAscending : List Step → NotifyQueue → Type 0
AllAscending [] q = Unit
AllAscending (pushes item ∷ steps) q = AllAscending steps (push item q)
AllAscending (processes meanwhile ∷ steps) q =
    IsAscending (process meanwhile q).0 × AllAscending steps (process meanwhile q).1

or-false : (b : Bool) → (b || false) ≡ b
or-false true = refl
or-false false = refl

process-IsQueue :
    (meanwhile : List ℕ) (q : NotifyQueue)
    → IsQueue q
    → ((process meanwhile q).0 ≡ q.m_data)
      × IsQueue (process meanwhile q).1
      × ((i : ℕ) → has i (process meanwhile q).1.m_data ≡ has i meanwhile)
unfolding process swap
process-IsQueue meanwhile q v =
    let swapped : swap q ≡ record { m_data = []; m_cache = q.m_data } =
      ap
        (λ c.
          if is_empty c
          then record { m_data = c; m_cache = q.m_data }
          else record q { m_cache = c })
        v.no_cache in
    let (order, same) = push_all-m_data meanwhile (record { m_data = []; m_cache = q.m_data }) tt in
    (
      ap (λ r. r.m_cache) swapped,
      record {
        ascending = subst (λ r. IsAscending (push_all meanwhile r).m_data) (sym swapped) order;
        no_cache = refl;
      },
      λ i.
          ap (λ r. has i (push_all meanwhile r).m_data) swapped
          ∙ same i
          ∙ or-false (has i meanwhile),
    )

-- Over every sequence of `push` and `process`, with pushes while items are processed: what is handed
-- over and what the set still has are the items that it had at first and those pushed, no item is
-- lost, and each `process` hands over its items in ascending order, each once. Nothing waits to be
-- processed at first, and the set is in order.
pub run_lem :
    (steps : List Step) (q : NotifyQueue)
    → IsQueue q
    → let (handed, q') = run steps q in
      ((i : ℕ) → (has i handed || has i q'.m_data) ≡ (has i (pushed steps) || has i q.m_data))
      × AllAscending steps q
      × IsQueue q'
unfolding run push
run_lem [] q v = (λ i. refl, tt, v)
run_lem (pushes item ∷ steps) q v =
    let v' : IsQueue (push item q) = record {
      ascending = emplace-IsAscending item q.m_data v.ascending;
      no_cache = v.no_cache;
    } in
    let (same, order, w) = run_lem steps (push item q) v' in
    (λ i. ground (arith, same i, has-emplace i item q.m_data), order, w)
run_lem (processes meanwhile ∷ steps) q v =
    let (first, v', left) = process-IsQueue meanwhile q v in
    let q' = (process meanwhile q).1 in
    let (same, order, w) = run_lem steps q' v' in
    (
      λ i.
          let split = has_append i (process meanwhile q).0 (run steps q').0 in
          let pushed_too = has_append i meanwhile (pushed steps) in
          let here = ap (has i) first in ground (arith, same i, left i, split, pushed_too, here),
      (subst IsAscending (sym first) v.ascending, order),
      w,
    )
