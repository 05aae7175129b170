-- ===== src/Malloc/History/Owned.antt =====
-- The blocks in use behind the pointers that a program of sharedMalloc holds.
use mathlib.Core.Path.{subst}
use cos.Base.{ℕ, ◌+◌, ◌≤◌, ◌<◌, ◌≡◌, refl, sym, ap, ◌∙◌, inl, false, [], ◌∷◌, ◌++◌, arith, length}
use cos.Malloc.Memory.{Ptr, null, Heap, Run, done, fault, sizeof_node}
use cos.Malloc.Allocator.{Status, ok, failed, my_malloc, my_free}
use cos.Malloc.Allocate.{Strategy, strategy_code, my_malloc-Fit}
use cos.Malloc.Tiling.{Block, Blocks, total}
use cos.Malloc.Layout.{Layout, SameGlobals}
use cos.Malloc.Fit.{Fit, full, fitted}
use cos.Malloc.Carve.{given}
use cos.Malloc.Free.{Freeing, my_free-Freeing, my_free-refuses}
use cos.Malloc.Dump.{dump_free_list}
use cos.Malloc.DumpRows.{shown, dump_free_list-shown}
use cos.Malloc.History.{Live, fuel_of}

-- The blocks `used` are those behind the pointers, each at least as large as was asked for, and those
-- of `rest`, which the allocator keeps for itself.
pub data Owned (rest : Blocks) : Live → Blocks → Type 0 where
  none : Owned rest [] rest
  nothing :
      (n : ℕ) (live : Live) (used : Blocks)
      → Owned rest live used
      → Owned rest ((null, n) ∷ live) used
  block :
      (n : ℕ) (live : Live) (used : Blocks) (a : Ptr) (s : ℕ)
      → n ≤ s
      → Owned rest live used
      → Owned rest ((a + sizeof_node, n) ∷ live) ((a, s) ∷ used)

-- A heap that is laid out properly, with these blocks in use and the mutex free.
pub record Laid (h : Heap) (used : Blocks) : Type 0 where
  pub free : Blocks
  pub layout : Layout h.base h.capacity h free used
  pub unlocked : h.locked ≡ false

pub Laid-at :
    {b c : ℕ} {h : Heap} {free used : Blocks}
    → Layout b c h free used
    → h.base ≡ b
    → h.capacity ≡ c
    → h.locked ≡ false
    → Laid h used
Laid-at {b} {c} {h} {free} {used} l base_eq capacity_eq unlocked = record {
  free = free;
  layout =
      subst (λ c. Layout h.base c h free used) (sym capacity_eq)
        (subst (λ b. Layout b c h free used) (sym base_eq) l);
  unlocked = unlocked;
}

Laid-globals :
    {h h' : Heap} {free used : Blocks}
    → Layout h.base h.capacity h' free used
    → SameGlobals h h'
    → h.locked ≡ false
    → Laid h' used
Laid-globals l g unlocked = Laid-at l g.base_eq g.capacity_eq (g.locked_eq ∙ unlocked)

length-total : (xs ys : Blocks) → length xs ≤ total (xs ++ ys)
length-total [] ys = omega arith
length-total (x ∷ xs) ys = omega (arith, length-total xs ys)

pub enough_fuel : {h : Heap} {used : Blocks} → (l : Laid h used) → length l.free < fuel_of h
enough_fuel {used} l = omega (arith, length-total l.free used, l.layout.tiles.covers)

given-le : (size s : ℕ) → size ≤ s → size ≤ given size s
given-le size s le = ground arith

-- `MyMalloc` returns, and what it returns is owned.
pub record Malloced (h : Heap) (rest : Blocks) (live : Live) (size : ℕ) (r : Run Ptr) : Type 0 where
  pub ptr : Ptr
  pub heap : Heap
  pub used : Blocks
  pub runs : r ≡ done ptr heap
  pub laid : Laid heap used
  pub owned : Owned rest ((ptr, size) ∷ live) used
  pub globals : SameGlobals h heap

Fit-Malloced :
    {P : Blocks → Block → Blocks → Type 0} (h : Heap) (rest : Blocks) (live : Live) (used : Blocks)
    (size : ℕ) (r : Run Ptr) (l : Laid h used)
    → Owned rest live used
    → Fit P h.base h.capacity h l.free used size r
    → Malloced h rest live size r
Fit-Malloced h rest live used size r l o (full no_fit) = record {
  ptr = null;
  heap = h;
  used = used;
  runs = refl;
  laid = l;
  owned = nothing size live used o;
  globals = record { base_eq = refl; capacity_eq = refl; locked_eq = refl };
}
Fit-Malloced h rest live used size r l o (fitted pre post a s h' e large prefers carved) = record {
  ptr = a + sizeof_node;
  heap = h';
  used = (a, given size s) ∷ used;
  runs = refl;
  laid = Laid-globals carved.layout carved.globals l.unlocked;
  owned = block size live used a (given size s) (given-le size s large) o;
  globals = carved.globals;
}

pub my_malloc-Malloced :
    (h : Heap) (rest : Blocks) (live : Live) (used : Blocks) (size : ℕ) (s : Strategy)
    → Laid h used
    → Owned rest live used
    → Malloced h rest live size (my_malloc (fuel_of h) size (strategy_code s) h)
my_malloc-Malloced h rest live used size s l o =
    Fit-Malloced h rest live used size _ l o
      (my_malloc-Fit (fuel_of h) size s h l.free used l.layout l.unlocked (enough_fuel l))

-- A pointer that is held is NULL, or the block behind it can be taken out of those in use.
pub data Holding (rest : Blocks) (xs ys : Live) (p : Ptr) (n : ℕ) (used : Blocks) : Type 0 where
  no_block : p ≡ null → Owned rest (xs ++ ys) used → Holding rest xs ys p n used
  a_block :
      (us vs : Blocks) (b : Block)
      → used ≡ us ++ b ∷ vs
      → p ≡ b.0 + sizeof_node
      → n ≤ b.1
      → Owned rest (xs ++ ys) (us ++ vs)
      → Holding rest xs ys p n used

Holding-nothing :
    {rest : Blocks} {xs ys : Live} {p : Ptr} {n : ℕ} {used : Blocks} (m : ℕ)
    → Holding rest xs ys p n used
    → Holding rest ((null, m) ∷ xs) ys p n used
Holding-nothing m (no_block e o) = no_block e (nothing m _ _ o)
Holding-nothing m (a_block us vs b e e' le o) = a_block us vs b e e' le (nothing m _ _ o)

Holding-block :
    {rest : Blocks} {xs ys : Live} {p : Ptr} {n : ℕ} {used : Blocks} (m : ℕ) (a : Ptr) (s : ℕ)
    → m ≤ s
    → Holding rest xs ys p n used
    → Holding rest ((a + sizeof_node, m) ∷ xs) ys p n ((a, s) ∷ used)
Holding-block m a s le (no_block e o) = no_block e (block m _ _ a s le o)
Holding-block m a s le (a_block us vs b e e' le' o) =
    a_block ((a, s) ∷ us) vs b (ap (λ x. (a, s) ∷ x) e) e' le' (block m _ _ a s le o)

pub Owned-Holding :
    {rest : Blocks} (xs ys : Live) (p : Ptr) (n : ℕ) {live : Live} {used : Blocks}
    → Owned rest live used
    → live ≡ xs ++ (p, n) ∷ ys
    → Holding rest xs ys p n used
Owned-Holding [] ys p n none e = cc
Owned-Holding (x ∷ xs) ys p n none e = cc
Owned-Holding {rest} [] ys p n (nothing m live used o) e =
    let first : (null, m) ≡ (p, n) = cc in
    let others : live ≡ ys = cc in
    no_block (ap (λ (x : Ptr × ℕ). x.0) (sym first)) (subst (λ z. Owned rest z used) others o)
Owned-Holding {rest} [] ys p n (block m live used a s le o) e =
    let first : (a + sizeof_node, m) ≡ (p, n) = cc in
    let others : live ≡ ys = cc in
    let same : m ≡ n = ap (λ (x : Ptr × ℕ). x.1) first in
    a_block [] used (a, s) refl (ap (λ (x : Ptr × ℕ). x.0) (sym first)) (omega (arith, same, le))
      (subst (λ z. Owned rest z used) others o)
Owned-Holding {rest} (x ∷ xs) ys p n (nothing m live used o) e =
    let first : (null, m) ≡ x = cc in
    let others : live ≡ xs ++ (p, n) ∷ ys = cc in
    subst (λ z. Holding rest (z ∷ xs) ys p n used) first
      (Holding-nothing m (Owned-Holding xs ys p n o others))
Owned-Holding {rest} (x ∷ xs) ys p n (block m live used a s le o) e =
    let first : (a + sizeof_node, m) ≡ x = cc in
    let others : live ≡ xs ++ (p, n) ∷ ys = cc in
    subst (λ z. Holding rest (z ∷ xs) ys p n ((a, s) ∷ used)) first
      (Holding-block m a s le (Owned-Holding xs ys p n o others))

-- `MyFree` of a pointer that is held: it returns, with the block behind the pointer no longer in use,
-- or it dereferences NULL.
pub data Released (h : Heap) (rest : Blocks) (live : Live) : Run Status → Type 0 where
  freed :
      (st : Status) (h' : Heap) (used : Blocks)
      → Laid h' used
      → Owned rest live used
      → SameGlobals h h'
      → Released h rest live (done st h')
  null_read : Released h rest live fault

Freeing-Released :
    (h : Heap) (rest : Blocks) (live : Live) (free used : Blocks) (b : Block) (r : Run Status)
    → h.locked ≡ false
    → Owned rest live used
    → Freeing h free b used r
    → Released h rest live r
Freeing-Released h rest live free used b r unlocked o
      (Freeing.returned before after h' e low stops safe layout globals) =
    freed ok h' used (Laid-globals layout globals unlocked) o globals
Freeing-Released h rest live free used b r unlocked o
      (Freeing.crashed before after e low stops stuck) =
    null_read

pub my_free-Released :
    (h : Heap) (rest : Blocks) (xs ys : Live) (p : Ptr) (n : ℕ) (used : Blocks)
    → Laid h used
    → Holding rest xs ys p n used
    → Released h rest (xs ++ ys) (my_free (fuel_of h) p h)
my_free-Released h rest xs ys p n used l (no_block e o) =
    subst (Released h rest (xs ++ ys))
      (sym (my_free-refuses (fuel_of h) p h (omega (arith, l.layout.base_pos)) l.unlocked (inl e)))
      (freed failed h used l o (record { base_eq = refl; capacity_eq = refl; locked_eq = refl }))
my_free-Released h rest xs ys p n used l (a_block us vs b e e' le o) =
    let layout : Layout h.base h.capacity h l.free (us ++ b ∷ vs) =
      subst (Layout h.base h.capacity h l.free) e l.layout in
    subst (λ x. Released h rest (xs ++ ys) (my_free (fuel_of h) x h)) (sym e')
      (Freeing-Released h rest (xs ++ ys) l.free (us ++ vs) b _ l.unlocked o (
        my_free-Freeing (fuel_of h) h l.free us vs b layout l.unlocked
          (omega (arith, enough_fuel l))))

pub dump_free_list-Laid :
    (h : Heap) (used : Blocks) (l : Laid h used)
    → dump_free_list (fuel_of h) h ≡ done (shown h.base h.capacity l.free) h
dump_free_list-Laid h used l =
    dump_free_list-shown (fuel_of h) h l.free used l.layout l.unlocked
      (omega (arith, enough_fuel l))
