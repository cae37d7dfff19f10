-- ===== src/Tcp/Threads/Sums.antt =====
-- Sums over the threads of a connection.
use snet.Prelude.{
  ℕ, zero, suc, ◌+◌, ◌≤◌, ◌≡◌, ap, List, [], ◌∷◌, some, length, set, get_elem?, concat, NoneEmpty,
  arith,
}
use snet.Tcp.Threads.{Stage, calling, pushing, sending}

-- A sum over the threads.
unfoldable pub total : (Stage → ℕ) → List Stage → ℕ
total w [] = 0
total w (s ∷ threads) = w s + total w threads

pub total-set :
    (w : Stage → ℕ) (threads : List Stage) (i : ℕ) (s t : Stage)
    → get_elem? threads i ≡ some s
    → total w (set threads i t) + w s ≡ total w threads + w t
unfolding total
total-set w [] i s t e = cc
total-set w (x ∷ threads) zero s t e = let same : w x ≡ w s = ap w (some-same x s e) in omega arith
  where
    some-same : (x s : Stage) → some x ≡ some s → x ≡ s
    some-same x s e = cc
total-set w (x ∷ threads) (suc i) s t e = omega (arith, total-set w threads i s t e)

-- The bytes that a thread still has to push.
abbrev pub bytes : Stage → ℕ
bytes (calling items) = length (concat items)
bytes (pushing items) = length (concat items)
bytes _ = 0

-- 1 for a thread in `do_send`.
abbrev pub busy : Stage → ℕ
busy sending = 1
busy _ = 0

-- No item to push is empty.
abbrev pub IsLegal : Stage → Type 0
IsLegal (calling items) = NoneEmpty items
IsLegal (pushing items) = NoneEmpty items
IsLegal _ = Unit

abbrev pub AllLegal : List Stage → Type 0
AllLegal [] = Unit
AllLegal (s ∷ threads) = IsLegal s × AllLegal threads

pub AllLegal-get :
    (threads : List Stage) (i : ℕ) (s : Stage)
    → AllLegal threads
    → get_elem? threads i ≡ some s
    → IsLegal s
AllLegal-get [] i s l e = cc
AllLegal-get (x ∷ threads) zero s l e = let same : x ≡ s = cc in rw (← same) l.0
AllLegal-get (x ∷ threads) (suc i) s l e = AllLegal-get threads i s l.1 e

pub AllLegal-set :
    (threads : List Stage) (i : ℕ) (t : Stage)
    → AllLegal threads
    → IsLegal t
    → AllLegal (set threads i t)
AllLegal-set [] i t l h = tt
AllLegal-set (x ∷ threads) zero t l h = (h, l.1)
AllLegal-set (x ∷ threads) (suc i) t l h = (l.0, AllLegal-set threads i t l.1 h)

pub total-get :
    (w : Stage → ℕ) (threads : List Stage) (i : ℕ) (s : Stage)
    → get_elem? threads i ≡ some s
    → w s ≤ total w threads
unfolding total
total-get w [] i s e = cc
total-get w (x ∷ threads) zero s e = let same : x ≡ s = cc in omega (arith, ap w same)
total-get w (x ∷ threads) (suc i) s e = omega (arith, total-get w threads i s e)
