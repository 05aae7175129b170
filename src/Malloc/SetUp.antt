-- ===== src/Malloc/SetUp.antt =====
-- The blocks that `InitMyMalloc` takes for the shared list and the mutex.
use cos.Base.{
  ℕ, ◌+◌, ◌-◌, ◌^◌, ◌≤◌, ◌<◌, ◌≡◌, refl, sym, ap, ◌∙◌, true, false, some, [], ◌∷◌, arith, ltb,
  lt→ltb,
}
use cos.Malloc.Memory.{
  Ptr, null, Node, Memory, modify, Heap, Run, done, set_head, set_next_free, sizeof_node,
}
use cos.Malloc.FreeList.{first_fit}
use cos.Malloc.Allocator.{Platform, Status, ok, sizeof_free_list, set_up, unlock}
use cos.Malloc.Tiling.{Block, Blocks}
use cos.Malloc.Chain.{nil, cons, modify_self}
use cos.Malloc.Layout.{Layout, Mapped, Mapped-modify, at, update-ok, SameGlobals}
use cos.Malloc.Fit.{Fit, full, fitted, test_ne}
use cos.Malloc.Carve.{Carved, given, leftover}
use cos.Malloc.FirstFit.{first_fit-Fit}
use cos.Malloc.Free.{Layout-lock}
use cos.Base.{append-nil}

-- What the program relies on: pages are not empty and have room for the first two blocks, and a
-- mapping is memory from its address on, below the end of the address space.
pub record IsPlatform (os : Platform) : Type 0 where
  pub room : sizeof_node + sizeof_free_list + sizeof_node + os.sizeof_mutex ≤ os.page_size
  pub mutex_pos : 0 < os.sizeof_mutex
  pub maps :
      (n : ℕ) (a : Ptr) (m : Memory)
      → os.mmap n ≡ some (a, m)
      → (0 < a) × (a + n < 2 ^ 64) × Mapped a n m

module _ {base cap : ℕ} {h : Heap} {used : Blocks} (a : Ptr) (s size : ℕ) where
  -- A search that succeeds in a list of one block takes that block.
  single :
      {P : Blocks → Block → Blocks → Type 0} {r : Run Ptr}
      → size ≤ s
      → Fit P base cap h ((a, s) ∷ []) used size r
      → (h' : Heap) × (r ≡ done (a + sizeof_node) h')
        × Carved base cap h h' (leftover a size s) ((a, given size s) ∷ used)
  single large (full none_fits) = absurd (omega (arith, none_fits.0))
  single large (fitted [] post b t h' e fits prefers carved) =
      let same : (a, s) ≡ (b, t) = cc in
      let behind : [] ≡ post = cc in
      let start : a ≡ b = ap (λ (x : Block). x.0) same in
      let room : s ≡ t = ap (λ (x : Block). x.1) same in
      (
        h',
        ap (λ x. done (x + sizeof_node) h') (sym start),
        rw (← behind, ← start, ← room, append-nil) at carved,
      )
  single large (fitted (x ∷ []) post b t h' e fits prefers carved) = cc
  single large (fitted (x ∷ y ∷ pre) post b t h' e fits prefers carved) = cc

  single_fit :
      Layout base cap h ((a, s) ∷ []) used
      → size ≤ s
      → (h' : Heap) × (first_fit 2 size h ≡ done (a + sizeof_node) h')
        × Carved base cap h h' (leftover a size s) ((a, given size s) ∷ used)
  single_fit l large = single large (first_fit-Fit 2 size l (omega arith))

-- The heap as mapped, with its first header.
abbrev first_node : ℕ → Node → Node
first_node n node = record node { size = n - sizeof_node; next = null }

abbrev fresh : Heap → Ptr → ℕ → Heap
fresh h a n = record h { mem = modify h.mem a (first_node n); head = a; next_free = a }

fresh-Layout :
    (h : Heap) (a n : ℕ)
    → 0 < a
    → a + n < 2 ^ 64
    → sizeof_node ≤ n
    → Mapped a n h.mem
    → Layout a n (fresh h a n) ((a, n - sizeof_node) ∷ []) []
fresh-Layout h a n pos fits room mapped = record {
  base_pos = pos;
  fits = fits;
  mapped = Mapped-modify a n h.mem a _ mapped;
  chain =
      cons refl
        (record {
          ne_null = omega arith;
          node = _;
          holds = modify_self h.mem a (first_node n) (mapped a (omega arith) (omega arith)).1;
          size_eq = refl;
          next_eq = refl;
        })
        (nil refl);
  tiles = record {
    apart = (tt, tt);
    inside = ((omega arith, omega arith), tt);
    covers = omega arith;
  };
  held = tt;
  rover = at [] _ [] refl refl;
}

-- The first block behind the shared list, and its size.
abbrev rest_addr : Ptr → Ptr
rest_addr a = a + sizeof_node + sizeof_free_list

abbrev rest_size : ℕ → ℕ
rest_size n = n - sizeof_node - sizeof_free_list - sizeof_node

module _ (os : Platform) (h : Heap) (a n : ℕ) where
  -- The heap after `InitMyMalloc`: the shared list and the mutex are in use, the rest is free.
  pub record Initialised (r : Run Status) : Type 0 where
    pub heap : Heap
    pub runs : r ≡ done ok heap
    pub layout :
        Layout a n heap
          (leftover (rest_addr a) os.sizeof_mutex (rest_size n))
          (((rest_addr a), given os.sizeof_mutex (rest_size n)) ∷ (a, sizeof_free_list) ∷ [])
    pub unlocked : heap.locked ≡ false
    pub base_eq : heap.base ≡ h.base
    pub capacity_eq : heap.capacity ≡ h.capacity

module _ (os : Platform) (platform : IsPlatform os) (h : Heap) (a n : ℕ) where
  after_searches :
      (h1 h2 : Heap) {start : Node}
      → 0 < a
      → h.mem a ≡ some start
      → first_fit 2 sizeof_free_list (fresh h a n) ≡ done (a + sizeof_node) h1
      → SameGlobals (fresh h a n) h1
      → first_fit 2 os.sizeof_mutex h1 ≡ done (rest_addr a + sizeof_node) h2
      → Carved a n h1 h2
          (leftover (rest_addr a) os.sizeof_mutex (rest_size n))
          (((rest_addr a), given os.sizeof_mutex (rest_size n)) ∷ (a, sizeof_free_list) ∷ [])
      → Initialised os h a n (set_up os a n h)
  unfolding set_up set_head set_next_free unlock
  after_searches h1 h2 pos start runs1 globals1 runs2 carved2 = record {
    heap = record h2 { locked = false };
    runs =
        rw
          (
            update-ok a (first_node n) h (omega arith) start,
            runs1,
            test_ne (a + sizeof_node) null (omega arith),
            runs2,
            test_ne (rest_addr a + sizeof_node) null (omega arith),
          )
          refl;
    layout = Layout-lock false carved2.layout;
    unlocked = refl;
    base_eq = carved2.globals.base_eq ∙ globals1.base_eq;
    capacity_eq = carved2.globals.capacity_eq ∙ globals1.capacity_eq;
  }

  mutex_taken :
      (h1 : Heap)
      → Carved a n
          (fresh h a n)
          h1
          (leftover a sizeof_free_list (n - sizeof_node))
          ((a, given sizeof_free_list (n - sizeof_node)) ∷ [])
      → os.page_size ≤ n
      → (h2 : Heap) × (first_fit 2 os.sizeof_mutex h1 ≡ done (rest_addr a + sizeof_node) h2)
        × Carved a n h1 h2
            (leftover (rest_addr a) os.sizeof_mutex (rest_size n))
            (((rest_addr a), given os.sizeof_mutex (rest_size n)) ∷ (a, sizeof_free_list) ∷ [])
  mutex_taken h1 carved page =
      let roomy : ltb (sizeof_free_list + sizeof_node) (n - sizeof_node) ≡ true =
        lt→ltb _ _ (omega (arith, platform.room, platform.mutex_pos)) in
      single_fit (rest_addr a) (rest_size n) os.sizeof_mutex (rw roomy at carved.layout)
        (omega (arith, platform.room))

  pub set_up-Initialised :
      0 < a
      → a + n < 2 ^ 64
      → os.page_size ≤ n
      → Mapped a n h.mem
      → Initialised os h a n (set_up os a n h)
  set_up-Initialised pos fits page mapped =
      let start = mapped a (omega arith) (omega (arith, platform.room)) in
      let l = fresh-Layout h a n pos fits (omega (arith, platform.room)) mapped in
      let (h1, runs1, carved1) =
        single_fit a (n - sizeof_node) sizeof_free_list l (omega (arith, platform.room)) in
      let (h2, runs2, carved2) = mutex_taken h1 carved1 page in
      after_searches h1 h2 pos start.1 runs1 carved1.globals runs2 carved2
