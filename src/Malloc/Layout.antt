-- ===== src/Malloc/Layout.antt =====
-- The invariant of an initialised heap, with the list of free blocks and that of the blocks in use,
-- and what keeps its parts when headers elsewhere change.
use cos.Base.{
  ℕ, ◌+◌, ◌≤◌, ◌<◌, ◌^◌, ◌≡◌, refl, ◌∙◌, ◌≢◌, some, [], ◌∷◌, ◌++◌, arith, All, ◌==◌, if◌then◌else◌,
}
use cos.Malloc.Memory.{
  Ptr, null, Node, Memory, modify, Heap, magic_number, sizeof_node, done, load, update, set_size,
  set_next,
}
use cos.Malloc.Tiling.{Block, Blocks, Tiles}
use cos.Malloc.Chain.{Header, Chain, nil, cons, Elsewhere, modify_ne}

-- Every address of the heap at which a header fits can be read and written.
abbrev pub Mapped : ℕ → ℕ → Memory → Type 0
Mapped base cap m =
    (x : Ptr) → base ≤ x → x + sizeof_node ≤ base + cap → (n : Node) × (m x ≡ some n)

-- The header that `MyFree` accepts.
pub record InUse (m : Memory) (b : Block) : Type 0 where
  pub node : Node
  pub holds : m b.0 ≡ some node
  pub size_eq : node.size ≡ b.1
  pub magic_eq : node.magic ≡ magic_number
  pub freed_eq : node.is_freed ≡ 0

-- `nextFreeBlock` is NULL or a block of the free list.
pub data Rover (free : Blocks) (p : Ptr) : Type 0 where
  unset : p ≡ null → Rover free p
  at : (xs : Blocks) (b : Block) (ys : Blocks) → free ≡ xs ++ b ∷ ys → p ≡ b.0 → Rover free p

pub record Layout (base cap : ℕ) (h : Heap) (free used : Blocks) : Type 0 where
  pub base_pos : 0 < base
  pub fits : base + cap < 2 ^ 64
  pub mapped : Mapped base cap h.mem
  pub chain : Chain h.mem null h.head free
  pub tiles : Tiles base cap (free ++ used)
  pub held : All (InUse h.mem) used
  pub rover : Rover free h.next_free

-- The two memories hold the same headers for the blocks.
abbrev pub AgreeOn : Memory → Memory → Blocks → Type 0
AgreeOn m m' bs = All (λ b. m' b.0 ≡ m b.0) bs

pub AgreeOn-modify :
    (m : Memory) (x : Ptr) (f : Node → Node) (bs : Blocks)
    → All (Elsewhere x) bs
    → AgreeOn m (modify m x f) bs
AgreeOn-modify m x f [] h = tt
AgreeOn-modify m x f (b ∷ bs) h = (modify_ne m x b.0 f h.0, AgreeOn-modify m x f bs h.1)

pub AgreeOn-refl : (m : Memory) (bs : Blocks) → AgreeOn m m bs
AgreeOn-refl m [] = tt
AgreeOn-refl m (b ∷ bs) = (refl, AgreeOn-refl m bs)

pub AgreeOn-trans :
    (m m' m'' : Memory) (bs : Blocks) → AgreeOn m m' bs → AgreeOn m' m'' bs → AgreeOn m m'' bs
AgreeOn-trans m m' m'' [] h k = tt
AgreeOn-trans m m' m'' (b ∷ bs) h k = (k.0 ∙ h.0, AgreeOn-trans m m' m'' bs h.1 k.1)

module _ {m m' : Memory} where
  pub Header-agree : {a : Ptr} {s : ℕ} {q : Ptr} → m' a ≡ m a → Header m a s q → Header m' a s q
  Header-agree e h = record {
    ne_null = h.ne_null;
    node = h.node;
    holds = e ∙ h.holds;
    size_eq = h.size_eq;
    next_eq = h.next_eq;
  }

  pub Chain-agree :
      {stop p : Ptr} {bs : Blocks} → AgreeOn m m' bs → Chain m stop p bs → Chain m' stop p bs
  Chain-agree a (nil e) = nil e
  Chain-agree a (cons e h c) = cons e (Header-agree a.0 h) (Chain-agree a.1 c)

  pub InUse-agree : (b : Block) → m' b.0 ≡ m b.0 → InUse m b → InUse m' b
  InUse-agree b e h = record {
    node = h.node;
    holds = e ∙ h.holds;
    size_eq = h.size_eq;
    magic_eq = h.magic_eq;
    freed_eq = h.freed_eq;
  }

pub All-InUse-agree :
    (m m' : Memory) (bs : Blocks) → AgreeOn m m' bs → All (InUse m) bs → All (InUse m') bs
All-InUse-agree m m' [] a h = tt
All-InUse-agree m m' (b ∷ bs) a h = (InUse-agree b a.0 h.0, All-InUse-agree m m' bs a.1 h.1)

-- The globals of heapAllocator.c are untouched.
pub record SameGlobals (h h' : Heap) : Type 0 where
  pub base_eq : h'.base ≡ h.base
  pub capacity_eq : h'.capacity ≡ h.capacity
  pub locked_eq : h'.locked ≡ h.locked

pub Mapped-modify :
    (base cap : ℕ) (m : Memory) (p : Ptr) (f : Node → Node)
    → Mapped base cap m
    → Mapped base cap (modify m p f)
unfolding modify
Mapped-modify base cap m p f h x lo hi =
    let r = h x lo hi in (if x == p then f r.0 else r.0, ground (arith, r.1))

pub load-ok : (p : Ptr) (h : Heap) {n : Node} → p ≢ null → h.mem p ≡ some n → load p h ≡ done n h
unfolding load
load-ok p h ne e = ground arith

pub update-ok :
    (p : Ptr) (f : Node → Node) (h : Heap) {n : Node}
    → p ≢ null
    → h.mem p ≡ some n
    → update p f h ≡ done tt (record h { mem = modify h.mem p f })
unfolding update
update-ok p f h ne e = ground arith

pub set_size-ok :
    (p : Ptr) (s : ℕ) (h : Heap) {n : Node}
    → p ≢ null
    → h.mem p ≡ some n
    → set_size p s h ≡ done tt (record h { mem = modify h.mem p (λ r. record r { size = s }) })
unfolding set_size
set_size-ok p s h ne e = update-ok p (λ r. record r { size = s }) h ne e

pub set_next-ok :
    (p q : Ptr) (h : Heap) {n : Node}
    → p ≢ null
    → h.mem p ≡ some n
    → set_next p q h ≡ done tt (record h { mem = modify h.mem p (λ r. record r { next = q }) })
unfolding set_next
set_next-ok p q h ne e = update-ok p (λ r. record r { next = q }) h ne e

pub SameGlobals-trans :
    {h h' h'' : Heap} → SameGlobals h h' → SameGlobals h' h'' → SameGlobals h h''
SameGlobals-trans g g' = record {
  base_eq = g'.base_eq ∙ g.base_eq;
  capacity_eq = g'.capacity_eq ∙ g.capacity_eq;
  locked_eq = g'.locked_eq ∙ g.locked_eq;
}
