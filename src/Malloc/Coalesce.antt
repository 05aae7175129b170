-- ===== src/Malloc/Coalesce.antt =====
-- `coalesce_free_list` and `fix_rover` behind a freed block that stands in the free list.
pub mod Between
use cos.Base.{
  ℕ, ◌+◌, ◌≡◌, refl, sym, ap, ◌∙◌, ◌≢◌, ◌⊎◌, inl, inr, Bool, true, false, ◌&&◌, ◌||◌, not, some, [],
  ◌∷◌, ◌++◌, arith, ◌==◌, ==_iff, Bool-cases, if◌then◌else◌, All,
}
use cos.Malloc.Memory.{
  Ptr, null, Node, Memory, Heap, Cmd, done, fault, load, sizeof_node, ◌>>=◌, ◌>>◌, pure,
}
use cos.Malloc.FreeList.{adjoins, coalesce_head, coalesce_between, coalesce_free_list, absorb_both}
use cos.Malloc.Allocator.{fix_rover}
use cos.Malloc.Tiling.{Block, Blocks, end_of, AllApart, Apart}
use cos.Malloc.Chain.{Header, Chain, nil, cons, Chain-cons, modify_ne, modify_self}
use cos.Malloc.Layout.{SameGlobals, Layout, Rover, load-ok}
use cos.Malloc.Insert.{Linked, Chain-start}
use cos.Malloc.NextFit.{start_addr}
use cos.Malloc.Fit.{test_ne}
use cos.Malloc.Absorb.{
  Neighbours, Neighbours-of, absorbing, absorbed, absorb-absorbed, absorbed-Linked, absorbing_both,
  merged, absorb_both-merged, merged-Linked,
}
use cos.Malloc.Absorb
use cos.Malloc.Glue.{glue, glue_last}
use cos.Malloc.Rover.{
  has, has-append, Rover-has, Rover-of, settled, moved, fix_rover-moved, fix_rover-other,
  fix_rover-null,
}
use cos.Base.{All-append_left}

-- The test of the code is that of the layout.
pub adjoins-end_of :
    (b : Block) (n : Node) (q : Ptr) → n.size ≡ b.1 → adjoins b.0 n q ≡ (end_of b == q)
adjoins-end_of b n q e = ap (λ t. t == q) (omega (arith, e))

pub start-ne :
    (c : Block) (after : Blocks) → c.0 ≢ null → All (Apart c) after → start_addr after ≢ c.0
start-ne c [] ne h = omega (arith, ne)
start-ne c (d ∷ after) ne h = omega (arith, h.0)

module _ {base cap : ℕ} {h : Heap} (b c : Block) (after used : Blocks)
    (l : Linked base cap h (b ∷ c ∷ after) used) where
  abbrev pair : Neighbours h.mem b c after
  pair = Neighbours-of [] b c after l.chain

  -- What follows `c` is not `c`.
  pub behind_ne : pair.next ≢ c.0
  behind_ne =
      let apart = All-append_left (Apart c) after used l.tiles.apart.1.0 in
      rw (Chain-start pair.rest) (start-ne c after pair.second.ne_null apart)

  -- The freed block is joined with the one behind it.
  coalesce-joined :
      (e : end_of b ≡ c.0)
      → coalesce_free_list b.0 null c.0 h ≡ done b.0 (absorbed [] after used b c l e)
  unfolding coalesce_free_list coalesce_head
  coalesce-joined e = rw (
    load-ok b.0 h pair.first.ne_null pair.first.holds,
    adjoins-end_of b pair.first.node c.0 pair.first.size_eq,
    (==_iff _ _).1 e,
    absorb-absorbed [] after used b c l e,
  )

  -- Or it stays as it is.
  coalesce-kept : (end_of b == c.0) ≡ false → coalesce_free_list b.0 null c.0 h ≡ done b.0 h
  unfolding coalesce_free_list coalesce_head
  coalesce-kept e = rw (
    load-ok b.0 h pair.first.ne_null pair.first.holds,
    adjoins-end_of b pair.first.node c.0 pair.first.size_eq,
    e,
  )

  first_joined :
      (e : end_of b ≡ c.0)
      → Rover (c ∷ after) h.next_free
      → (h' : Heap) × ((coalesce_free_list b.0 null c.0 >>= fix_rover c.0) h ≡ done tt h')
        × Layout base cap h' ((b.0, b.1 + sizeof_node + c.1) ∷ after) used
        × SameGlobals h h'
  first_joined e rover =
      let h' = absorbed [] after used b c l e in
      (
        record h' { next_free = moved c.0 b.0 pair.second.node.next h.next_free },
        rw (coalesce-joined e) (
            fix_rover-moved c.0 b.0 (absorbed [] after used b c l e) pair.first.ne_null
              (modify_self h.mem b.0 (absorbing pair.second.node) pair.first.holds)),
        settled _ (absorbed-Linked [] after used b c l e)
            (Rover-of _ _ (ground (arith, Rover-has rover, behind_ne, pair.second.next_eq))),
        record { base_eq = refl; capacity_eq = refl; locked_eq = refl },
      )

  first_kept :
      (end_of b == c.0) ≡ false
      → Rover (c ∷ after) h.next_free
      → (h' : Heap) × ((coalesce_free_list b.0 null c.0 >>= fix_rover c.0) h ≡ done tt h')
        × Layout base cap h' (b ∷ c ∷ after) used
        × SameGlobals h h'
  first_kept e rover = (
    record h { next_free = moved c.0 b.0 pair.first.node.next h.next_free },
    rw (coalesce-kept e) (fix_rover-moved c.0 b.0 h pair.first.ne_null pair.first.holds),
    settled _ l (Rover-of _ _ (ground (arith, Rover-has rover, pair.first.next_eq))),
    record { base_eq = refl; capacity_eq = refl; locked_eq = refl },
  )

  pub first_glued :
      Rover (c ∷ after) h.next_free
      → (h' : Heap) × ((coalesce_free_list b.0 null c.0 >>= fix_rover c.0) h ≡ done tt h')
        × Layout base cap h' (glue b (c ∷ after)) used
        × SameGlobals h h'
  unfolding glue
  first_glued rover = elim (Bool-cases (end_of b == c.0)) [
    | inl e ↦ rw e (first_joined ((==_iff _ _).0 e) rover)
    | inr e ↦ rw e (first_kept e rover)
  ]
