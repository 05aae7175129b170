-- ===== src/Malloc/Demo/Ends.antt =====
-- The tests of sharedMalloc/src/main.c as histories of the allocator.
use cos.Base.{ℕ, ◌≡◌, ◌∷◌, ◌++◌}
use cos.Malloc.Memory.{Ptr, Heap, Run, done, fault}
use cos.Malloc.Allocator.{Platform, my_free}
use cos.Malloc.Tiling.{Blocks}
use cos.Malloc.History.{fuel_of, Live, Reach}
use cos.Malloc.History.Owned.{Owned, Laid}

-- A heap in a history: the program holds `live`, and the blocks in use are those behind the pointers
-- that it holds and those of `rest`, and no others.
pub record At (os : Platform) (rest : Blocks) (h : Heap) (live : Live) : Type 0 where
  pub reach : Reach os h live
  pub used : Blocks
  pub laid : Laid h used
  pub owned : Owned rest live used

-- A run returns in a heap of a history in which the program holds `held` of the result and nothing
-- else is in use but `rest`, or `MyFree` of a pointer that is held dereferences NULL in a heap of a
-- history.
pub data Ends (os : Platform) (rest : Blocks) {A : Type 0} (held : A → Live) : Run A → Type 0 where
  returned : (a : A) (h : Heap) → At os rest h (held a) → Ends os rest held (done a h)
  null_read :
      (h : Heap) (live xs ys : Live) (p : Ptr) (n : ℕ)
      → At os rest h live
      → live ≡ xs ++ (p, n) ∷ ys
      → my_free (fuel_of h) p h ≡ fault
      → Ends os rest held fault
