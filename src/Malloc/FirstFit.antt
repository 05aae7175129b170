-- ===== src/Malloc/FirstFit.antt =====
-- `firstFit`: the first block of the free list that is large enough.
use cos.Base.{ℕ, ◌<◌, [], All, length, ◌==◌, if◌then◌else◌}
use cos.Malloc.Memory.{Ptr, null, Heap, pure}
use cos.Malloc.FreeList.{carve, first_fit}
use cos.Malloc.Tiling.{Block, Blocks}
use cos.Malloc.Chain.{Chain, cons, Elsewhere}
use cos.Malloc.Layout.{Layout}
use cos.Malloc.Fit.{NoFit, Fit, full, Found, nothing, found, first_loop-Found, carve-Fit, test_ne}
use cos.Malloc.Memory.{Memory}
use cos.Malloc.Chain.{nil}

-- All blocks before the chosen one are too small.
abbrev pub IsFirst : ℕ → Blocks → Block → Blocks → Type 0
IsFirst size pre b post = All (NoFit size) pre

-- No block of the free list begins at NULL.
pub Chain-Elsewhere-null :
    {m : Memory} {stop p : Ptr} {bs : Blocks} → Chain m stop p bs → All (Elsewhere null) bs
Chain-Elsewhere-null (nil e) = tt
Chain-Elsewhere-null (cons e h c) = (h.ne_null, Chain-Elsewhere-null c)

pub Found-IsFirst :
    {base cap : ℕ} {h : Heap} {free used : Blocks} {size : ℕ} {r : Ptr × Ptr}
    → Layout base cap h free used
    → Found size [] free r
    → Fit
        (IsFirst size)
        base
        cap
        h
        free
        used
        size
        ((if r.0 == null then pure null else carve r.0 r.1 size) h)
Found-IsFirst l (nothing none_fits) = full none_fits
Found-IsFirst {size} l (found pre post a s e ne large smaller) =
    rw (test_ne a null ne) (carve-Fit pre post a s size l e large smaller)

-- On a heap that is laid out properly, with a round of fuel for each free block and one more,
-- `firstFit` takes the first free block that is large enough, and returns NULL only if every free
-- block is too small, with nothing changed. The block is then in use, its unused end is free again,
-- and the heap is laid out properly.
pub first_fit-Fit :
    {base cap : ℕ} {h : Heap} {free used : Blocks} (fuel size : ℕ)
    → Layout base cap h free used
    → length free < fuel
    → Fit (IsFirst size) base cap h free used size (first_fit fuel size h)
unfolding first_fit
first_fit-Fit {h} {free} fuel size l enough =
    let r =
      first_loop-Found h null size fuel [] free l.chain (Chain-Elsewhere-null l.chain) enough in
    rw r.runs (Found-IsFirst l r.holds)
