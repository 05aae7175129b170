-- ===== src/Malloc/Free.antt =====
-- `MyFree` of a block in use, from the test of the header to the unlocked mutex.
use cos.Base.{ℕ, ◌+◌, ◌≤◌, ◌≡◌, ◌≢◌, refl, [], ◌∷◌, ◌++◌, append-nil, arith, All, length}
use cos.Malloc.Allocator.{insert_free}
use cos.Malloc.Glue.{glue, glue_last}
use cos.Malloc.Insert.{freed, freed_block}
use cos.Malloc.Fit.{test_ne, test_eq}
use cos.Malloc.Memory.{Ptr, null, Node, Heap, Run, done, fault, sizeof_node}
use cos.Malloc.Tiling.{Block, Blocks}
use cos.Malloc.Layout.{Layout}
use cos.Malloc.Release.{meets_null, Stops, Freed, back, crash}
use cos.Malloc.Memory.{◌>>◌}
use cos.Malloc.Allocator.{my_free}
use cos.Malloc.Allocator.{Status}
use cos.Base.{false}
use cos.Base.{Bool}
use cos.Malloc.Layout.{SameGlobals}
use cos.Malloc.Allocator.{unlock}
use cos.Malloc.Allocator.{locked_free}
use cos.Malloc.Allocator.{ok}
use cos.Malloc.Allocator.{checked_free}
use cos.Base.{true}
use cos.Malloc.Memory.{and_then}
use cos.Malloc.Allocator.{free_block}
use cos.Malloc.Memory.{pure}
use cos.Malloc.Allocator.{lock}
use cos.Malloc.Glue.{Tiles-bound}
use cos.Base.{sym}
use cos.Base.{append_assoc}
use cos.Malloc.Allocator.{block_of}
use cos.Base.{le→not_ltb}
use cos.Malloc.Layout.{load-ok}
use cos.Base.{some}
use cos.Base.{ap}
use cos.Malloc.Memory.{magic_number}
use cos.Base.{◌⊎◌}
use cos.Base.{if◌then◌else◌}
use cos.Malloc.Memory.{blocked}
use cos.Base.{◌<◌}
use cos.Malloc.Allocator.{failed}
use cos.Base.{inl}
use cos.Base.{inr}
use cos.Malloc.InsertFree.{insert_free-Freed}

-- What `MyFree` of a block in use comes to. It returns 0: the block stands in the free list behind
-- `before`, joined with the neighbours in the list that it adjoins. Or it stops at a NULL pointer. Of
-- the place that the search finds for the block it depends which of the two.
pub data Freeing (h : Heap) (free : Blocks) (b : Block) (used : Blocks) : Run Status → Type 0 where
  returned :
      (before rest : Blocks) (h' : Heap)
      → free ≡ before ++ rest
      → All (λ x. x.0 ≤ b.0) before
      → Stops b.0 before rest
      → meets_null h.next_free before b rest ≡ false
      → Layout h.base h.capacity h' (glue_last before (glue b rest)) used
      → SameGlobals h h'
      → Freeing h free b used (done ok h')
  crashed :
      (before rest : Blocks)
      → free ≡ before ++ rest
      → All (λ x. x.0 ≤ b.0) before
      → Stops b.0 before rest
      → meets_null h.next_free before b rest ≡ true
      → Freeing h free b used fault

pub Layout-lock :
    {base cap : ℕ} {h : Heap} {free used : Blocks} (x : Bool)
    → Layout base cap h free used
    → Layout base cap (record h { locked = x }) free used
Layout-lock x l = record {
  base_pos = l.base_pos;
  fits = l.fits;
  mapped = l.mapped;
  chain = l.chain;
  tiles = l.tiles;
  held = l.held;
  rover = l.rover;
}

module _ {h : Heap} (free used : Blocks) (b : Block) (unlocked : h.locked ≡ false) where
  unlock_after :
      {r : Run (Unit {0})}
      → Freed h.base h.capacity (record h { locked = true }) free b used r
      → Freeing h free b used (and_then (and_then r (λ _. pure ok)) (λ s. unlock >> pure s))
  unfolding unlock
  unlock_after (back before rest h' e low stops safe l globals) =
      returned before rest _ e low stops safe (Layout-lock false l) (record {
        base_eq = globals.base_eq;
        capacity_eq = globals.capacity_eq;
        locked_eq = sym unlocked;
      })
  unlock_after (crash before rest e low stops stuck) = crashed before rest e low stops stuck

-- `MyFree` on an initialised heap takes the mutex and gives it back.
pub my_free-locks :
    (fuel : ℕ) (ptr : Ptr) (h : Heap)
    → h.base ≢ null
    → h.locked ≡ false
    → my_free fuel ptr h
      ≡ and_then (checked_free fuel ptr (record h { locked = true })) (λ s. unlock >> pure s)
unfolding my_free locked_free lock
my_free-locks fuel ptr h ne unlocked =
    rw
      (
        test_ne h.base null ne,
        ap (λ (x : Bool). if x then blocked else done tt (record h { locked = true })) unlocked,
      )
      refl

module _ {h : Heap} {free : Blocks} (us vs : Blocks) (b : Block) where
  -- The address of a block in use passes the tests of `MyFree`.
  checked_free-passes :
      (fuel : ℕ)
      → Layout h.base h.capacity h free (us ++ b ∷ vs)
      → checked_free fuel (b.0 + sizeof_node) h ≡ (insert_free fuel b.0 >> pure ok) h
  unfolding checked_free free_block
  checked_free-passes fuel l =
      let block =
        freed_block {base = h.base} {cap = h.capacity} {h = h} free [] us vs b.0 b.1
          (rw (append-nil free) l) in
      let bounds =
        Tiles-bound {base = h.base} {cap = h.capacity} (free ++ us) b vs
          (rw (append_assoc free us (b ∷ vs)) l.tiles) in
      let address : block_of (b.0 + sizeof_node) ≡ b.0 =
        omega (arith, l.fits, bounds.0, bounds.1) in
      rw
        (
          test_ne (b.0 + sizeof_node) null (omega arith),
          address,
          le→not_ltb b.0 h.base (omega (arith, bounds.0)),
          le→not_ltb (h.base + h.capacity) b.0 (omega (arith, bounds.1)),
          load-ok b.0 h (omega (arith, l.base_pos, bounds.0)) block.holds,
          block.magic_eq,
          block.freed_eq,
        )
        refl

pub my_free-Freeing :
    (fuel : ℕ) (h : Heap) (free us vs : Blocks) (b : Block)
    → Layout h.base h.capacity h free (us ++ b ∷ vs)
    → h.locked ≡ false
    → length free ≤ fuel
    → Freeing h free b (us ++ vs) (my_free fuel (b.0 + sizeof_node) h)
my_free-Freeing fuel h free us vs b l unlocked enough =
    let held = Layout-lock true l in
    rw
      (
        my_free-locks fuel (b.0 + sizeof_node) h (omega (arith, l.base_pos)) unlocked,
        checked_free-passes {h = record h { locked = true }} {free = free} us vs b fuel held,
      )
      (unlock_after {h = h} free (us ++ vs) b unlocked
        (insert_free-Freed us vs b.0 b.1 fuel free held enough))

-- The header at `p` that `MyFree` takes for no block in use.
abbrev pub BadHeader : Heap → Ptr → Type 0
BadHeader h p = (n : Node) × (h.mem p ≡ some n) × ((n.magic ≢ magic_number) ⊎ (n.is_freed ≡ 1))

-- What `MyFree` refuses: NULL, an address whose header would begin before the heap or above the sum of
-- its base and its capacity, and a bad header.
abbrev pub Refused : Heap → Ptr → Type 0
Refused h ptr =
    (ptr ≡ null)
    ⊎ (block_of ptr < h.base)
    ⊎ (h.base + h.capacity < block_of ptr)
    ⊎ ((block_of ptr ≢ null) × BadHeader h (block_of ptr))

free_block-refuses :
    (fuel : ℕ) (p : Ptr) (h : Heap) → p ≢ null → BadHeader h p → free_block fuel p h ≡ done failed h
unfolding free_block
free_block-refuses fuel p h ne (n, holds, inl magic) =
    rw (load-ok p h ne holds, test_ne n.magic magic_number magic) refl
free_block-refuses fuel p h ne (n, holds, inr freed) =
    rw (load-ok p h ne holds, test_eq n.is_freed 1 freed) (ground arith)

checked_free-refuses :
    (fuel : ℕ) (ptr : Ptr) (h : Heap) → Refused h ptr → checked_free fuel ptr h ≡ done failed h
unfolding checked_free
checked_free-refuses fuel ptr h (inl e) = rw (test_eq ptr null e) refl
checked_free-refuses fuel ptr h (inr (inl low)) = ground arith
checked_free-refuses fuel ptr h (inr (inr (inl high))) = ground arith
checked_free-refuses fuel ptr h (inr (inr (inr (ne, bad)))) =
    ground (arith, free_block-refuses fuel (block_of ptr) h ne bad)

-- `MyFree` on an initialised heap with the mutex free: of NULL, of an address whose header would begin
-- below the base of the heap or above the sum of its base and its capacity, and of one whose header
-- has no magic number or is marked as freed, it returns -1 and changes nothing. A header that begins
-- at that sum or less than a header before it lies outside the heap as well, but is not refused.
pub my_free-refuses :
    (fuel : ℕ) (ptr : Ptr) (h : Heap)
    → h.base ≢ null
    → h.locked ≡ false
    → Refused h ptr
    → my_free fuel ptr h ≡ done failed h
unfolding unlock
my_free-refuses fuel ptr h ne unlocked bad =
    rw
      (
        my_free-locks fuel ptr h ne unlocked,
        checked_free-refuses fuel ptr (record h { locked = true }) bad,
      )
      (ap back_to (sym unlocked))
  where
    back_to : Bool → Run Status
    back_to x = done failed (record h { locked = x })
