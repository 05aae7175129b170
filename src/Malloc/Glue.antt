-- ===== src/Malloc/Glue.antt =====
-- What freeing does to the free list, without the memory: a block joined with the one behind it
-- where the two adjoin.
use cos.Base.{ℕ, ◌+◌, ◌≡◌, refl, [], ◌∷◌, ◌++◌, append_assoc, ◌==◌, if◌then◌else◌}
use cos.Malloc.Memory.{Ptr, sizeof_node}
use mathlib.Core.Path.{subst}
use cos.Base.{sym, ◌≤◌}
use cos.Malloc.Tiling.{
  All-remove, Inside, Block, Blocks, end_of, Tiles, Tiles-to_front, Tiles-from_front, Tiles-join,
}

-- `x` put in front of a list, joined with its first block if that begins where `x` ends.
unfoldable pub glue : Block → Blocks → Blocks
glue x [] = x ∷ []
glue x (y ∷ ys) = if end_of x == y.0 then (x.0, x.1 + sizeof_node + y.1) ∷ ys else x ∷ y ∷ ys

-- The same for the last block of a front part and the list behind it.
unfoldable pub glue_last : Blocks → Blocks → Blocks
glue_last [] ys = ys
glue_last (x ∷ []) ys = glue x ys
glue_last (x ∷ x' ∷ xs) ys = x ∷ glue_last (x' ∷ xs) ys

pub glue_last-snoc :
    (xs : Blocks) (x : Block) (ys : Blocks) → glue_last (xs ++ x ∷ []) ys ≡ xs ++ glue x ys
unfolding glue_last
glue_last-snoc [] x ys = refl
glue_last-snoc (z ∷ []) x ys = refl
glue_last-snoc (z ∷ z' ∷ xs) x ys = rw (glue_last-snoc (z' ∷ xs) x ys)

module _ {base cap : ℕ} where
  pub Tiles-join_at :
      (pre : Blocks) (a : Ptr) (s t : ℕ) (post : Blocks)
      → Tiles base cap (pre ++ (a, s) ∷ (a + sizeof_node + s, t) ∷ post)
      → Tiles base cap (pre ++ (a, s + sizeof_node + t) ∷ post)
  Tiles-join_at pre a s t post h =
      let first = Tiles-to_front (a, s) pre ((a + sizeof_node + s, t) ∷ post) h in
      let both = Tiles-to_front (a + sizeof_node + s, t) ((a, s) ∷ pre) post first in
      let pair = Tiles-from_front (a + sizeof_node + s, t) ((a, s) ∷ []) (pre ++ post) both in
      Tiles-from_front (a, s + sizeof_node + t) pre post (Tiles-join a s t (pre ++ post) pair)

  -- Neighbours of a tiling that adjoin are one block of a tiling.
  pub Tiles-fuse :
      (pre : Blocks) (x y : Block) (post : Blocks)
      → end_of x ≡ y.0
      → Tiles base cap (pre ++ x ∷ y ∷ post)
      → Tiles base cap (pre ++ (x.0, x.1 + sizeof_node + y.1) ∷ post)
  Tiles-fuse pre x y post e h =
      Tiles-join_at pre x.0 x.1 y.1 post
        (subst (λ a. Tiles base cap (pre ++ x ∷ (a, y.1) ∷ post)) (sym e) h)

  pub Tiles-fuse_second :
      (pre : Blocks) (x y z : Block) (post : Blocks)
      → end_of y ≡ z.0
      → Tiles base cap (pre ++ x ∷ y ∷ z ∷ post)
      → Tiles base cap (pre ++ x ∷ (y.0, y.1 + sizeof_node + z.1) ∷ post)
  Tiles-fuse_second pre x y z post e h =
      let t : Tiles base cap ((pre ++ x ∷ []) ++ y ∷ z ∷ post) =
        rw (append_assoc pre (x ∷ []) (y ∷ z ∷ post)) h in
      let t' : Tiles base cap ((pre ++ x ∷ []) ++ (y.0, y.1 + sizeof_node + z.1) ∷ post) =
        Tiles-fuse (pre ++ x ∷ []) y z post e t in
      rw (append_assoc pre (x ∷ []) ((y.0, y.1 + sizeof_node + z.1) ∷ post)) at t'

  -- The last block of a tiling's part ends below `base + cap`.
  pub Tiles-bound :
      (pre : Blocks) (x : Block) (post : Blocks)
      → Tiles base cap (pre ++ x ∷ post)
      → (base ≤ x.0) × (end_of x ≤ base + cap)
  Tiles-bound pre x post h = (All-remove (Inside base cap) x pre post h.inside).0
