-- ===== src/Malloc/Absorb.antt =====
-- `absorb` of Malloc.FreeList: two neighbours of the free list that adjoin become one block.
use cos.Base.{
  ℕ, ◌+◌, ◌*◌, ◌^◌, ◌<◌, ◌≡◌, refl, some, [], ◌∷◌, ◌++◌, append_assoc, arith, All, All-append_left,
  All-append_right,
}
use cos.Malloc.Memory.{Ptr, null, Node, Memory, modify, Heap, sizeof_node, add_size, done}
use cos.Malloc.FreeList.{absorb, absorb_both}
use cos.Malloc.Tiling.{Block, Blocks, end_of, Tiles, Tiles-to_front}
use cos.Malloc.Chain.{
  Header, Chain, cons, Chain-split, Chain-append, Chain-modify, Elsewhere, Apart-Elsewhere,
  modify_self,
}
use cos.Malloc.Layout.{Mapped-modify, AgreeOn-modify, All-InUse-agree, load-ok, update-ok}
use cos.Malloc.Insert.{Linked}
use cos.Malloc.Chain.{Chain-cons}
use cos.Malloc.Glue.{Tiles-fuse, Tiles-fuse_second, Tiles-bound}
use mathlib.Core.Path.{subst}

module _ {base cap : ℕ} {h : Heap} (pre gone post used : Blocks) (x : Block)
    (l : Linked base cap h (pre ++ x ∷ (gone ++ post)) used) where
  Tiles-here : Tiles base cap (x ∷ pre ++ ((gone ++ post) ++ used))
  Tiles-here =
      let t : Tiles base cap (pre ++ x ∷ ((gone ++ post) ++ used)) =
        rw (append_assoc pre (x ∷ (gone ++ post)) used) at l.tiles in
      Tiles-to_front x pre ((gone ++ post) ++ used) t

  out : All (Elsewhere x.0) (pre ++ ((gone ++ post) ++ used))
  out = Apart-Elsewhere x _ Tiles-here.apart.0

  -- The header of `x` rewritten so that `gone` is left out of the chain.
  pub Linked-skip :
      {q : Ptr} {n : Node} (f : Node → Node) (t : ℕ)
      → h.mem x.0 ≡ some n
      → (f n).size ≡ t
      → (f n).next ≡ q
      → Chain h.mem null q post
      → Tiles base cap ((pre ++ (x.0, t) ∷ post) ++ used)
      → Linked base cap (record h { mem = modify h.mem x.0 f }) (pre ++ (x.0, t) ∷ post) used
  Linked-skip {n} f t is size_eq next_eq back tiles =
      let (front, (r, header, rest)) = Chain-split pre l.chain in
      let out_tail = All-append_right _ pre ((gone ++ post) ++ used) out in
      let out_post =
        All-append_right _ gone post (All-append_left _ (gone ++ post) used out_tail) in
      record {
        base_pos = l.base_pos;
        fits = l.fits;
        mapped = Mapped-modify base cap h.mem x.0 f l.mapped;
        chain = Chain-append (Chain-modify x.0 f (All-append_left _ pre _ out) front) (
            cons refl
              (record {
                ne_null = header.ne_null;
                node = f n;
                holds = modify_self h.mem x.0 f is;
                size_eq = size_eq;
                next_eq = next_eq;
              })
              (Chain-modify x.0 f out_post back));
        tiles = tiles;
        held =
            All-InUse-agree h.mem _ used
              (AgreeOn-modify h.mem x.0 f used (All-append_right _ (gone ++ post) used out_tail))
              l.held;
      }

-- The headers of two neighbours.
pub record Neighbours (m : Memory) (x y : Block) (post : Blocks) : Type 0 where
  pub first : Header m x.0 x.1 y.0
  pub next : Ptr
  pub second : Header m y.0 y.1 next
  pub rest : Chain m null next post

pub Neighbours-of :
    {m : Memory} {p : Ptr} (pre : Blocks) (x y : Block) (post : Blocks)
    → Chain m null p (pre ++ x ∷ y ∷ post)
    → Neighbours m x y post
Neighbours-of {m} pre x y post c =
    let (front, (q, header, tail)) = Chain-split pre c in
    let (e, (r, header', rest)) = Chain-cons tail in
    record {
      first = subst (λ z. Header m x.0 x.1 z) e header;
      next = r;
      second = header';
      rest = rest;
    }

-- The write of `absorb`, for the header `s` of the second block.
abbrev pub absorbing : Node → Node → Node
absorbing s n = record n { size = add_size n.size (add_size s.size sizeof_node); next = s.next }

module _ {base cap : ℕ} {h : Heap} (pre post used : Blocks) (x y : Block)
    (l : Linked base cap h (pre ++ x ∷ y ∷ post) used) (adjoin : end_of x ≡ y.0) where
  -- The tiling with the blocks in use behind.
  around :
      (bs : Blocks) → Tiles base cap ((pre ++ bs) ++ used) → Tiles base cap (pre ++ (bs ++ used))
  around bs t = rw (append_assoc pre bs used) at t

  Tiles-fused : Tiles base cap (pre ++ (x.0, x.1 + sizeof_node + y.1) ∷ (post ++ used))
  Tiles-fused = Tiles-fuse pre x y (post ++ used) adjoin (around (x ∷ y ∷ post) l.tiles)

  Tiles-absorbed : Tiles base cap ((pre ++ (x.0, x.1 + sizeof_node + y.1) ∷ post) ++ used)
  Tiles-absorbed = rw (append_assoc pre ((x.0, x.1 + sizeof_node + y.1) ∷ post) used) Tiles-fused

  absorbed-fits : x.1 + sizeof_node + y.1 + sizeof_node < 2 ^ 64
  absorbed-fits = omega (arith, Tiles-bound pre _ (post ++ used) Tiles-fused, l.fits)

  abbrev pub neighbours : Neighbours h.mem x y post
  neighbours = Neighbours-of pre x y post l.chain

  abbrev pub absorbed : Heap
  absorbed = record h { mem = modify h.mem x.0 (absorbing neighbours.second.node) }

  pub absorb-absorbed : absorb x.0 y.0 h ≡ done tt absorbed
  unfolding absorb
  absorb-absorbed = rw (
    load-ok y.0 h neighbours.second.ne_null neighbours.second.holds,
    update-ok x.0 (absorbing neighbours.second.node) h neighbours.first.ne_null
        neighbours.first.holds,
  )

  pub absorbed-Linked : Linked base cap absorbed (pre ++ (x.0, x.1 + sizeof_node + y.1) ∷ post) used
  absorbed-Linked =
      Linked-skip pre (y ∷ []) post used x l (absorbing neighbours.second.node)
        (x.1 + sizeof_node + y.1) neighbours.first.holds
        (omega (arith, absorbed-fits, neighbours.first.size_eq, neighbours.second.size_eq))
        neighbours.second.next_eq neighbours.rest Tiles-absorbed

-- The write of `absorb_both`, for the headers `b` and `c` of the second and third block.
abbrev pub absorbing_both : Node → Node → Node → Node
absorbing_both b c n = record n {
  size = add_size n.size (add_size (add_size b.size c.size) (2 * sizeof_node));
  next = c.next;
}

module _ {base cap : ℕ} {h : Heap} (pre post used : Blocks) (x y z : Block)
    (l : Linked base cap h (pre ++ x ∷ y ∷ z ∷ post) used) (near : end_of x ≡ y.0)
    (far : end_of y ≡ z.0) where
  abbrev merged_size : ℕ
  merged_size = x.1 + sizeof_node + (y.1 + sizeof_node + z.1)

  Tiles-merged : Tiles base cap (pre ++ (x.0, merged_size) ∷ (post ++ used))
  Tiles-merged =
      let t : Tiles base cap (pre ++ x ∷ y ∷ z ∷ (post ++ used)) =
        rw (append_assoc pre (x ∷ y ∷ z ∷ post) used) at l.tiles in
      Tiles-fuse pre x (y.0, y.1 + sizeof_node + z.1) (post ++ used) near
        (Tiles-fuse_second pre x y z (post ++ used) far t)

  merged-fits : merged_size + sizeof_node < 2 ^ 64
  merged-fits = omega (arith, Tiles-bound pre _ (post ++ used) Tiles-merged, l.fits)

  abbrev pub front_pair : Neighbours h.mem x y (z ∷ post)
  front_pair = Neighbours-of pre x y (z ∷ post) l.chain

  abbrev pub back_pair : Neighbours h.mem y z post
  back_pair =
      Neighbours-of {p = h.head} (pre ++ x ∷ []) y z post
        (rw (append_assoc pre (x ∷ []) (y ∷ z ∷ post)) l.chain)

  abbrev pub merged : Heap
  merged = record h {
    mem = modify h.mem x.0 (absorbing_both back_pair.first.node back_pair.second.node);
  }

  pub absorb_both-merged : absorb_both y.0 x.0 z.0 h ≡ done tt merged
  unfolding absorb_both
  absorb_both-merged = rw (
    load-ok y.0 h back_pair.first.ne_null back_pair.first.holds,
    load-ok z.0 h back_pair.second.ne_null back_pair.second.holds,
    update-ok x.0 (absorbing_both back_pair.first.node back_pair.second.node) h
        front_pair.first.ne_null front_pair.first.holds,
  )

  pub merged-Linked : Linked base cap merged (pre ++ (x.0, merged_size) ∷ post) used
  merged-Linked =
      Linked-skip pre (y ∷ z ∷ []) post used x l
        (absorbing_both back_pair.first.node back_pair.second.node) merged_size
        front_pair.first.holds
        (omega (
          arith, merged-fits, front_pair.first.size_eq, back_pair.first.size_eq,
          back_pair.second.size_eq,
        ))
        back_pair.second.next_eq back_pair.rest
        (rw (append_assoc pre ((x.0, merged_size) ∷ post) used) Tiles-merged)
