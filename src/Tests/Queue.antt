-- ===== src/Tests/Queue.antt =====
-- include/utils/notify_queue.h with pushes before and while items are processed.
use snet.Prelude.{ℕ, ◌≡◌, refl, List, [], ◌∷◌, ◌||◌, has}
use snet.NotifyQueue.{
  NotifyQueue, Step, pushes, processes, run, process, push, pushed, IsQueue, AllAscending, run_lem,
}

abbrev new_queue : NotifyQueue
new_queue = record { m_data = []; m_cache = [] }

new_queue-IsQueue : IsQueue new_queue
new_queue-IsQueue = record { ascending = tt; no_cache = refl }

abbrev steps : List Step
steps =
    pushes 5 ∷ pushes 3 ∷ pushes 5 ∷ processes (4 ∷ []) ∷ pushes 1 ∷ processes [] ∷ pushes 9 ∷ []

handed_over : run steps new_queue ≡ (3 ∷ 5 ∷ 1 ∷ 4 ∷ [], record { m_data = 9 ∷ []; m_cache = [] })
unfolding run process push
handed_over = refl

run_lem_example :
    let (handed, q) = run steps new_queue in
    ((i : ℕ) → (has i handed || has i q.m_data) ≡ (has i (pushed steps) || has i []))
    × AllAscending steps new_queue
    × IsQueue q
run_lem_example = run_lem steps new_queue new_queue-IsQueue
