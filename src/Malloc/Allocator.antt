-- ===== src/Malloc/Allocator.antt =====
-- sharedMalloc/src/heapAllocator.c: the allocator over the free list. `ok` and `failed` stand for
-- the results 0 and -1; what is printed is left out.
use cos.Base.{
  ℕ, zero, suc, ◌+◌, ◌-◌, ◌*◌, ◌/◌, ◌%◌, ◌^◌, true, false, ◌&&◌, ◌||◌, not, Option, none, some, ltb,
  leb, ◌==◌, if◌then◌else◌,
}
use cos.Malloc.Memory.{
  Ptr, null, magic_number, sizeof_node, Memory, done, fault, blocked, out_of_fuel, Cmd, pure, ◌>>=◌,
  ◌>>◌, load, update, set_next, set_head, set_next_free, get_head, get_next_free,
}
use cos.Malloc.FreeList.{best_fit, worst_fit, first_fit, next_fit, coalesce_free_list}

pub data Status : Type 0 where
  ok failed : Status

abbrev pub get_base : Cmd Ptr
get_base h = done h.base h

abbrev pub get_capacity : Cmd ℕ
get_capacity h = done h.capacity h

-- `pthread_mutex_lock`: a second lock by the only process that runs waits for ever.
unfoldable pub lock : Cmd (Unit {0})
lock h = if h.locked then blocked else done tt (record h { locked = true })

unfoldable pub unlock : Cmd (Unit {0})
unlock h = done tt (record h { locked = false })

-- The difference of two `char*`, as a `size_t`.
unfoldable pub get_heap_address : Ptr → Cmd ℕ
get_heap_address ptr = do b ← get_base; pure ((ptr + 2 ^ 64 - b) % 2 ^ 64)

-- The switch of `MyMalloc`, over the values of `enum Strategy`.
unfoldable pub fit_by : ℕ → ℕ → ℕ → Cmd Ptr
fit_by fuel strategy size =
    if strategy == 0
    then best_fit fuel size
    else if strategy == 1
    then worst_fit fuel size
    else if strategy == 2
    then first_fit fuel size
    else if strategy == 3
    then next_fit fuel size
    else pure null

unfoldable pub locked_malloc : ℕ → ℕ → ℕ → Cmd Ptr
locked_malloc fuel size strategy = do lock; p ← fit_by fuel strategy size; unlock; pure p

unfoldable pub my_malloc : ℕ → ℕ → ℕ → Cmd Ptr
my_malloc fuel size strategy = do
  b ← get_base
  if b == null then pure null else locked_malloc fuel size strategy

-- The loop of `MyFree`: the first free block behind `block`, or the last one, with the one before.
unfoldable pub position_loop : Ptr → ℕ → (current previous : Ptr) → Cmd (Ptr × Ptr)
position_loop block zero current previous = λ _. out_of_fuel
position_loop block (suc k) current previous =
    if current == null
    then pure (current, previous)
    else if ltb block current
    then pure (current, previous)
    else do
      n ← load current
      if n.next == null then pure (current, previous) else position_loop block k n.next current

-- `if (current == nextFreeBlock && coalesced->next != current) nextFreeBlock = coalesced;`
unfoldable pub fix_rover : (current coalesced : Ptr) → Cmd (Unit {0})
fix_rover current coalesced = do
  rover ← get_next_free
  if current == rover
      then (do
        n ← load coalesced
        if not (n.next == current) then set_next_free coalesced else pure tt)
      else pure tt

-- The freed block before the first free block.
unfoldable pub free_first : (block current : Ptr) → Cmd (Unit {0})
free_first block current = do
  p ← get_head
  set_next block p
  set_head block
  merged ← coalesce_free_list block null current
  fix_rover current merged

-- The freed block behind the last free block.
unfoldable pub free_last : (block previous : Ptr) → Cmd (Unit {0})
free_last block previous = do
  set_next previous block
  set_next block null
  _ ← coalesce_free_list block previous null
  pure tt

-- The freed block between two free blocks.
unfoldable pub free_between : (block previous current : Ptr) → Cmd (Unit {0})
free_between block previous current = do
  set_next previous block
  set_next block current
  merged ← coalesce_free_list block previous current
  fix_rover current merged

unfoldable pub free_at : (block current previous : Ptr) → Cmd (Unit {0})
free_at block current previous =
    if previous == null
    then free_first block current
    else if current == null
    then free_last block previous
    else free_between block previous current

-- `MyFree` from `block->isFreed = 1` on.
unfoldable pub insert_free : ℕ → Ptr → Cmd (Unit {0})
insert_free fuel block = do
  update block (λ n. record n { is_freed = 1 })
  p ← get_head
  if p == null then (do set_head block; set_next block null) else (do
    (current, previous) ← position_loop block fuel p null
    free_at block current previous)

-- The test of the header.
unfoldable pub free_block : ℕ → Ptr → Cmd Status
free_block fuel block = do
  n ← load block
  if not (n.magic == magic_number) || n.is_freed == 1
      then pure failed
      else insert_free fuel block >> pure ok

-- `(Node*)((char*)ptr - sizeof(Node))`
abbrev pub block_of : Ptr → Ptr
block_of ptr = (ptr + 2 ^ 64 - sizeof_node) % 2 ^ 64

-- `MyFree` under the lock, up to the test of the header.
unfoldable pub checked_free : ℕ → Ptr → Cmd Status
checked_free fuel ptr = do
  b ← get_base
  c ← get_capacity
  if ptr == null
      then pure failed
      else if ltb (block_of ptr) b || ltb (b + c) (block_of ptr)
      then pure failed
      else free_block fuel (block_of ptr)

-- Each return of `MyFree` behind the lock unlocks.
unfoldable pub locked_free : ℕ → Ptr → Cmd Status
locked_free fuel ptr = do lock; s ← checked_free fuel ptr; unlock; pure s

unfoldable pub my_free : ℕ → Ptr → Cmd Status
my_free fuel ptr = do b ← get_base; if b == null then pure failed else locked_free fuel ptr

-- sizeof(FreeList)
abbrev pub sizeof_free_list : ℕ
sizeof_free_list = 16

abbrev pub int_max : ℕ
int_max = 2 ^ 31 - 1

-- What the program takes from the platform: `getpagesize()`, `sizeof(pthread_mutex_t)`, and `mmap`
-- of so many bytes, `none` for MAP_FAILED, else the address and the memory from then on.
pub record Platform : Type 0 where
  pub page_size : ℕ
  pub sizeof_mutex : ℕ
  pub mmap : ℕ → Option (Ptr × Memory)

module _ (os : Platform) where
  -- The size rounded up to whole pages; `none` where the sum leaves the range of `int`.
  unfoldable pub round_up : ℕ → Option ℕ
  round_up size =
      let rounded =
        if size % os.page_size == 0 then size else (1 + size / os.page_size) * os.page_size in
      if leb rounded int_max then some rounded else none

  -- `InitMyMalloc` behind `mmap`: the first header, and the two blocks that the allocator takes for
  -- the shared free list and the mutex. A NULL from either search is written through.
  unfoldable pub set_up : Ptr → ℕ → Cmd Status
  set_up heap size = do
    update heap (λ n. record n { size = size - sizeof_node; next = null })
    set_head heap
    set_next_free heap
    list ← first_fit 2 sizeof_free_list
    if list == null then (λ _. fault) else (do
      mutex ← first_fit 2 os.sizeof_mutex
      if mutex == null then (λ _. fault) else unlock >> pure ok)

  -- `int heapSize` is the number `size`; one that is not positive is 0.
  unfoldable pub init_my_malloc : ℕ → Cmd Status
  init_my_malloc size h =
      if not (h.base == null)
      then done failed h
      else if size == 0
      then done failed h
      else elim (round_up size) [
        | none ↦ fault
        | some n ↦ elim (os.mmap n) [
          | none ↦ done failed h
          | some (heap, m) ↦ set_up heap n (record h { mem = m; base = heap; capacity = n })
        ]
      ]

-- `unInitMyMalloc`: the mapping is gone.
unfoldable pub un_init_my_malloc : Cmd (Unit {0})
un_init_my_malloc h =
    if h.base == null
    then done tt h
    else done tt (record {
      mem = λ x. if leb h.base x && ltb x (h.base + h.capacity) then none else h.mem x;
      head = null;
      next_free = null;
      base = null;
      capacity = 0;
      locked = false;
    })
