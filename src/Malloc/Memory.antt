-- ===== src/Malloc/Memory.antt =====
-- The memory of sharedMalloc: block headers (`struct Node` of sharedMalloc/include/freeList.h) at
-- byte addresses, the allocator's globals, and commands that read and write them. An address that
-- is not mapped holds `none`: reading or writing there, or at NULL, is a fault.
use mathlib.Core.Option
use cos.Base.{ℕ, ◌+◌, ◌%◌, ◌^◌, Bool, Option, none, some, ◌==◌, if◌then◌else◌}

abbrev pub Ptr : Type 0
Ptr = ℕ

abbrev pub null : Ptr
null = 0

pub record Node : Type 0 where
  pub size : ℕ
  pub next : Ptr
  pub magic : ℕ
  pub is_freed : ℕ

abbrev pub magic_number : ℕ
magic_number = 0x12345678

-- sizeof(Node) where a pointer and a `size_t` have eight bytes and an `int` four.
abbrev pub sizeof_node : ℕ
sizeof_node = 24

-- `size_t` addition.
abbrev pub add_size : ℕ → ℕ → ℕ
add_size a b = (a + b) % 2 ^ 64

abbrev pub Memory : Type 0
Memory = Ptr → Option Node

-- The header at `a` changed by `f`.
unfoldable pub modify : Memory → Ptr → (Node → Node) → Memory
modify m a f x = if x == a then Option.map f (m x) else m x

-- The memory, the `FreeList` in use (`head`, `next_free` for `nextFreeBlock`), and the globals of
-- heapAllocator.c: `base` for `heapBlockHeader`, `capacity` for `heapCapacity`, `locked` for the
-- mutex.
pub record Heap : Type 0 where
  pub mem : Memory
  pub head : Ptr
  pub next_free : Ptr
  pub base : Ptr
  pub capacity : ℕ
  pub locked : Bool

-- `blocked` is a wait for a mutex that nobody will release.
pub data Run (A : Type 0) : Type 0 where
  done : A → Heap → Run A
  fault : Run A
  blocked : Run A
  out_of_fuel : Run A

abbrev pub Cmd : Type 0 → Type 0
Cmd A = Heap → Run A

abbrev pub pure : {A : Type 0} → A → Cmd A
pure a h = done a h

module _ {A B : Type 0} where
  abbrev pub and_then : Run A → (A → Cmd B) → Run B
  and_then (done a h) k = k a h
  and_then fault k = fault
  and_then blocked k = blocked
  and_then out_of_fuel k = out_of_fuel

  infixl 5 ◌>>=◌ ◌>>◌
  abbrev pub ◌>>=◌ : Cmd A → (A → Cmd B) → Cmd B
  ◌>>=◌ m k h = and_then (m h) k

  abbrev pub ◌>>◌ : Cmd A → Cmd B → Cmd B
  m >> k = m >>= λ _. k

-- `*p`
unfoldable pub load : Ptr → Cmd Node
load p h = if p == null then fault else elim (h.mem p) [ none ↦ fault | some n ↦ done n h ]

-- A write to fields of `*p`.
unfoldable pub update : Ptr → (Node → Node) → Cmd (Unit {0})
update p f h =
    if p == null
    then fault
    else elim (h.mem p) [ none ↦ fault | some n ↦ done tt (record h { mem = modify h.mem p f }) ]

-- `p->next = q`
unfoldable pub set_next : Ptr → Ptr → Cmd (Unit {0})
set_next p q = update p (λ n. record n { next = q })

-- `p->size = s`
unfoldable pub set_size : Ptr → ℕ → Cmd (Unit {0})
set_size p s = update p (λ n. record n { size = s })

unfoldable pub set_head : Ptr → Cmd (Unit {0})
set_head p h = done tt (record h { head = p })

unfoldable pub set_next_free : Ptr → Cmd (Unit {0})
set_next_free p h = done tt (record h { next_free = p })

abbrev pub get_head : Cmd Ptr
get_head h = done h.head h

abbrev pub get_next_free : Cmd Ptr
get_next_free h = done h.next_free h
