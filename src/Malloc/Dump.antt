-- ===== src/Malloc/Dump.antt =====
-- `DumpFreeList` of sharedMalloc/src/heapAllocator.c: the rows that it prints.
use cos.Base.{
  ℕ, zero, suc, ◌+◌, ◌-◌, ◌%◌, ◌^◌, Bool, true, false, List, [], ◌∷◌, ◌++◌, ltb, ◌==◌,
  if◌then◌else◌,
}
use cos.Malloc.Memory.{
  Ptr, null, Node, out_of_fuel, Cmd, add_size, pure, ◌>>=◌, ◌>>◌, load, sizeof_node, get_head,
}
use cos.Malloc.Allocator.{get_base, get_capacity, lock, unlock}

-- "Free" or "Full", with an address from the start of the heap.
pub record Row : Type 0 where
  pub address : ℕ
  pub size : ℕ
  pub is_free : Bool

-- `x - y` on 64 bits.
abbrev pub difference : ℕ → ℕ → ℕ
difference x y = (x + 2 ^ 64 - y) % 2 ^ 64

abbrev pub free_row : (base current : Ptr) → Node → Row
free_row base current n = record {
  address = difference current base;
  size = add_size n.size sizeof_node;
  is_free = true;
}

-- The used space behind a free block, up to the next one.
abbrev pub gap_row : (base current : Ptr) → Node → Row
gap_row base current n = record {
  address = difference (current + n.size + sizeof_node) base;
  size = difference n.next (current + n.size + sizeof_node);
  is_free = false;
}

-- The loop: the rows for all free blocks but the last one, and the address of that.
unfoldable pub dump_loop : ℕ → (base current : Ptr) → Cmd (Ptr × List Row)
dump_loop zero base current = λ _. out_of_fuel
dump_loop (suc k) base current = do
  n ← load current
  if n.next == null then pure (current, []) else (do
    (last, rows) ← dump_loop k base n.next
    pure (last, free_row base current n ∷ gap_row base current n ∷ rows))

-- The used space before the first free block.
abbrev pub first_row : (base head : Ptr) → List Row
first_row base head =
    if ltb base head
    then record { address = 0; size = difference head base; is_free = false } ∷ []
    else []

-- The used space behind the last free block.
abbrev pub last_row : (base capacity current : Ptr) → Node → List Row
last_row base capacity current n =
    if ltb (current + n.size + sizeof_node) (base + capacity)
    then (record {
      address = add_size (difference (current + n.size) base) sizeof_node;
      size = difference capacity (add_size (add_size (difference current base) n.size) sizeof_node);
      is_free = false;
    }
        ∷ [])
    else []

unfoldable pub dump_rows : ℕ → Cmd (List Row)
dump_rows fuel = do
  p ← get_head
  b ← get_base
  c ← get_capacity
  if p == null then pure (record { address = 0; size = c; is_free = false } ∷ []) else (do
    (last, rows) ← dump_loop fuel b p
    n ← load last
    pure (first_row b p ++ (rows ++ free_row b last n ∷ last_row b c last n)))

unfoldable pub locked_dump : ℕ → Cmd (List Row)
locked_dump fuel = do lock; rows ← dump_rows fuel; unlock; pure rows

unfoldable pub dump_free_list : ℕ → Cmd (List Row)
dump_free_list fuel = do b ← get_base; if b == null then pure [] else locked_dump fuel
