-- ===== src/Malloc/History.antt =====
-- Histories of calls of the allocator of sharedMalloc/src/heapAllocator.c: `InitMyMalloc`, and then
-- `MyMalloc`, `MyFree` and `DumpFreeList` in any order, by any of the processes that share the heap.
-- Each call is one step, since it holds the mutex from its start to its end.
pub mod Owned
pub mod Reached
mod Tests
use cos.Base.{ℕ, suc, ◌≡◌, List, [], ◌∷◌, ◌++◌}
use cos.Malloc.Memory.{Ptr, Heap, done}
use cos.Malloc.Allocator.{Platform, Status, ok, init_my_malloc, my_malloc, my_free}
use cos.Malloc.Allocate.{Strategy, strategy_code}
use cos.Malloc.Dump.{Row, dump_free_list}

-- What a program holds: the results of its calls of `MyMalloc`, NULL or not, with the sizes that it
-- asked for, the latest first.
abbrev pub Live : Type 0
Live = List (Ptr × ℕ)

-- The fuel of a call: more rounds than there can be free blocks.
abbrev pub fuel_of : Heap → ℕ
fuel_of h = suc h.capacity

pub data Step (h : Heap) (live : Live) : Heap → Live → Type 0 where
  malloc :
      (size : ℕ) (s : Strategy) (p : Ptr) (h' : Heap)
      → my_malloc (fuel_of h) size (strategy_code s) h ≡ done p h'
      → Step h live h' ((p, size) ∷ live)
  free :
      (xs ys : Live) (p : Ptr) (n : ℕ) (st : Status) (h' : Heap)
      → live ≡ xs ++ (p, n) ∷ ys
      → my_free (fuel_of h) p h ≡ done st h'
      → Step h live h' (xs ++ ys)
  dump :
      (rows : List Row) (h' : Heap)
      → dump_free_list (fuel_of h) h ≡ done rows h'
      → Step h live h' live

pub data Reach (os : Platform) : Heap → Live → Type 0 where
  started : (size : ℕ) (before h : Heap) → init_my_malloc os size before ≡ done ok h → Reach os h []
  later :
      {h h' : Heap} {live live' : Live} → Reach os h live → Step h live h' live' → Reach os h' live'
