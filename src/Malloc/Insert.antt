-- ===== src/Malloc/Insert.antt =====
-- The writes that put a freed block back into the free list, before any coalescing.
use cos.Base.{
  ℕ, ◌+◌, ◌≡◌, refl, ◌∙◌, ◌≢◌, some, [], ◌∷◌, ◌++◌, append_assoc, arith, All, All-append_left,
  All-append_right, ◌<◌, ◌^◌,
}
use cos.Malloc.Memory.{Ptr, null, Node, Memory, modify, Heap}
use cos.Malloc.Tiling.{Blocks, Tiles, Tiles-to_front, Tiles-from_front, All-remove}
use cos.Malloc.Chain.{Chain, nil, cons, Chain-append, Elsewhere, Apart-Elsewhere, modify_self}
use cos.Malloc.Layout.{
  Layout, InUse, Mapped, Mapped-modify, AgreeOn, AgreeOn-modify, AgreeOn-trans, Chain-agree,
  All-InUse-agree,
}
use cos.Malloc.Relink.{relinked, Chain-relinked, AgreeOn-relinked, Mapped-relinked, AllApart-prefix}
use cos.Malloc.NextFit.{start_addr}

-- A `Layout` less its rover.
pub record Linked (base cap : ℕ) (h : Heap) (free used : Blocks) : Type 0 where
  pub base_pos : 0 < base
  pub fits : base + cap < 2 ^ 64
  pub mapped : Mapped base cap h.mem
  pub chain : Chain h.mem null h.head free
  pub tiles : Tiles base cap (free ++ used)
  pub held : All (InUse h.mem) used

-- `isFreed` set.
abbrev pub freed : Node → Node
freed n = record n { is_freed = 1 }

abbrev pub with_next : Ptr → Node → Node
with_next q n = record n { next = q }

-- The heap with the block at `b` marked, linked in behind `before`, and followed by `q`.
abbrev pub inserted : Heap → Blocks → (b q : Ptr) → Heap
inserted h before b q =
    let h' = relinked (record h { mem = modify h.mem b freed }) before b in
    record h' { mem = modify h'.mem b (with_next q) }

-- A chain begins at its first block.
pub Chain-start : {m : Memory} {p : Ptr} {bs : Blocks} → Chain m null p bs → p ≡ start_addr bs
Chain-start (nil e) = e
Chain-start (cons e h c) = e

-- The front part of a chain ends where the rest begins.
pub Chain-cut :
    {m : Memory} {p : Ptr} (xs ys : Blocks)
    → Chain m null p (xs ++ ys)
    → Chain m (start_addr ys) p xs × Chain m null (start_addr ys) ys
Chain-cut [] ys c = (nil (Chain-start c), Chain-from_start c)
  where
    Chain-from_start :
        {m : Memory} {p : Ptr} {bs : Blocks} → Chain m null p bs → Chain m null (start_addr bs) bs
    Chain-from_start (nil e) = nil refl
    Chain-from_start (cons e h d) = cons refl h d
Chain-cut (x ∷ xs) ys (cons e h c) = let r = Chain-cut xs ys c in (cons e h r.0, r.1)

module _ {base cap : ℕ} {h : Heap} (before rest us vs : Blocks) (b : Ptr) (s : ℕ)
    (l : Layout base cap h (before ++ rest) (us ++ (b, s) ∷ vs)) where
  Tiles-freed : Tiles base cap ((b, s) ∷ before ++ (rest ++ (us ++ vs)))
  Tiles-freed =
      let e : ((before ++ rest) ++ us) ++ vs ≡ before ++ (rest ++ (us ++ vs)) = simp append_assoc in
      let moved : Tiles base cap (((before ++ rest) ++ us) ++ (b, s) ∷ vs) =
        rw (append_assoc (before ++ rest) us ((b, s) ∷ vs)) l.tiles in
      rw e at (Tiles-to_front (b, s) ((before ++ rest) ++ us) vs moved)

  pub Tiles-inserted : Tiles base cap ((before ++ (b, s) ∷ rest) ++ (us ++ vs))
  Tiles-inserted =
      rw (append_assoc before ((b, s) ∷ rest) (us ++ vs))
        (Tiles-from_front (b, s) before (rest ++ (us ++ vs)) Tiles-freed)

  pub freed_block : InUse h.mem (b, s)
  freed_block = (All-remove (InUse h.mem) (b, s) us vs l.held).0

  pub b_ne_null : b ≢ null
  b_ne_null = omega (arith, Tiles-freed.inside.0, l.base_pos)

  -- The three changes of memory, and what they leave alone.
  out : All (Elsewhere b) (before ++ (rest ++ (us ++ vs)))
  out = Apart-Elsewhere (b, s) _ Tiles-freed.apart.0

  abbrev pub marked_heap : Heap
  marked_heap = record h { mem = modify h.mem b freed }

  abbrev pub linked_heap : Heap
  linked_heap = relinked marked_heap before b

  AgreeOn-marked : AgreeOn h.mem marked_heap.mem (before ++ (rest ++ (us ++ vs)))
  AgreeOn-marked = AgreeOn-modify h.mem b freed _ out

  AgreeOn-linked : AgreeOn marked_heap.mem linked_heap.mem ((b, s) ∷ rest ++ (us ++ vs))
  AgreeOn-linked =
      AgreeOn-relinked b marked_heap before _
        (Tiles-from_front (b, s) before (rest ++ (us ++ vs)) Tiles-freed).apart

  -- The header of the freed block once the list leads to it.
  pub linked_holds : linked_heap.mem b ≡ some (freed freed_block.node)
  linked_holds =
      AgreeOn-linked.0 ∙ modify_self h.mem b freed {n = freed_block.node} freed_block.holds

  pub Chain-marked : Chain marked_heap.mem (start_addr rest) h.head before
  Chain-marked =
      Chain-agree (All-append_left _ before (rest ++ (us ++ vs)) AgreeOn-marked)
        (Chain-cut before rest l.chain).0

  AgreeOn-inserted : AgreeOn h.mem (inserted h before b (start_addr rest)).mem (rest ++ (us ++ vs))
  AgreeOn-inserted =
      let tail = rest ++ (us ++ vs) in
      AgreeOn-trans h.mem _ _ tail (All-append_right _ before tail AgreeOn-marked) (
        AgreeOn-trans marked_heap.mem linked_heap.mem _ tail AgreeOn-linked.1
          (AgreeOn-modify linked_heap.mem b _ tail (All-append_right _ before tail out)))

  inserted_holds :
      (inserted h before b (start_addr rest)).mem b
      ≡ some (with_next (start_addr rest) (freed freed_block.node))
  inserted_holds = modify_self linked_heap.mem b _ linked_holds

  Chain-inserted :
      Chain
        (inserted h before b (start_addr rest)).mem
        null
        (inserted h before b (start_addr rest)).head
        (before ++ (b, s) ∷ rest)
  Chain-inserted =
      let tail = rest ++ (us ++ vs) in
      let (front, back) = Chain-cut before rest l.chain in
      let apart = AllApart-prefix before tail Tiles-freed.apart.1 in
      let front' =
        Chain-relinked b marked_heap before apart
          (Chain-agree (All-append_left _ before tail AgreeOn-marked) front) in
      Chain-append
        (Chain-agree (AgreeOn-modify linked_heap.mem b _ before (All-append_left _ before tail out))
          front')
        (cons refl
          (record {
            ne_null = b_ne_null;
            node = _;
            holds = inserted_holds;
            size_eq = freed_block.size_eq;
            next_eq = refl;
          })
          (Chain-agree (All-append_left _ rest (us ++ vs) AgreeOn-inserted) back))

  -- The freed block stands in the free list behind `before`, and is no longer in use.
  pub inserted-Linked :
      Linked base cap (inserted h before b (start_addr rest)) (before ++ (b, s) ∷ rest) (us ++ vs)
  inserted-Linked = record {
    base_pos = l.base_pos;
    fits = l.fits;
    mapped =
        Mapped-modify base cap _ b _ (
          Mapped-relinked b marked_heap before base cap
            (Mapped-modify base cap h.mem b _ l.mapped));
    chain = Chain-inserted;
    tiles = Tiles-inserted;
    held =
        All-InUse-agree h.mem _ (us ++ vs) (All-append_right _ rest (us ++ vs) AgreeOn-inserted)
          (All-remove (InUse h.mem) (b, s) us vs l.held).1;
  }
