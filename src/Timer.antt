-- ===== src/Timer.antt =====
-- include/utils/min_heap.h and heap_timer.h.
pub mod MinHeap
pub mod HeapTimer
pub mod Laws
pub mod Expiry
pub mod Loop
pub mod Starved
