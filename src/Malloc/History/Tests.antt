-- ===== src/Malloc/History/Tests.antt =====
-- The theorems on histories of sharedMalloc, from a heap on a concrete platform.
use cos.Base.{refl, [], ◌∷◌}
use cos.Malloc.Memory.{Heap, Run, done, fault, blocked, out_of_fuel}
use cos.Malloc.Allocator.{init_my_malloc, my_malloc}
use cos.Malloc.Allocator.{round_up, set_up, unlock, locked_malloc, lock, fit_by}
use cos.Malloc.Memory.{update, set_head, set_next_free, load, modify, set_size}
use cos.Malloc.FreeList.{
  first_fit, first_loop, carve, split, split_off, link, move_rover, best_fit, extremal_fit,
  extremal_loop, consider, take_whole,
}
use cos.Malloc.Allocate.{best}
use cos.Malloc.Tests.{linux, linux-IsPlatform, before_init}
use cos.Malloc.History.{Reach, Step, later, started, fuel_of}
use cos.Malloc.History.Reached.{Reach-Kept, Sound, Reach-Sound}
use cos.Malloc.Tiling.{Blocks}
use cos.Malloc.Demo.Ends.{Ends}

abbrev heap_of : {A : Type 0} → Run A → Heap
heap_of (done a h) = h
heap_of fault = before_init
heap_of blocked = before_init
heap_of out_of_fuel = before_init

abbrev fresh : Heap
fresh = heap_of (init_my_malloc linux 4096 before_init)

fresh-Reach : Reach linux fresh []
unfolding init_my_malloc round_up set_up update set_head set_next_free first_fit first_loop load
    modify carve split split_off set_size link move_rover unlock
fresh-Reach = started 4096 before_init fresh refl

abbrev used_once : Heap
used_once = heap_of (my_malloc (fuel_of fresh) 10 0 fresh)

used_once-Reach : Reach linux used_once ((65664, 10) ∷ [])
unfolding init_my_malloc round_up set_up update set_head set_next_free first_fit first_loop load
    modify carve split split_off set_size link move_rover unlock my_malloc locked_malloc lock fit_by
    best_fit extremal_fit extremal_loop consider take_whole
used_once-Reach = later fresh-Reach (Step.malloc 10 best 65664 used_once refl)

Reach-Sound_example : Sound used_once ((65664, 10) ∷ [])
Reach-Sound_example = Reach-Sound linux-IsPlatform used_once-Reach

-- The blocks of the shared list and of the mutex.
abbrev shared : Blocks
shared = (Reach-Kept linux-IsPlatform used_once-Reach).rest
