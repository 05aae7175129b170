-- ===== src/Malloc/InsertFree.antt =====
-- The steps of `MyFree` that put the freed block into the free list.
use cos.Base.{ℕ, ◌≤◌, ◌≢◌, refl, [], ◌∷◌, ◌++◌, append-nil, arith, All, length}
use cos.Malloc.Chain.{last_addr, Chain-ne_null, Chain, cons}
use cos.Malloc.Allocator.{free_at, insert_free}
use cos.Malloc.Glue.{glue, glue_last}
use cos.Malloc.Rover.{settled, Rover-of, Rover-has}
use cos.Malloc.Insert.{
  freed, Chain-marked, b_ne_null, freed_block, linked_holds, inserted-Linked, Chain-start,
  Chain-cut,
}
use cos.Malloc.Layout.{set_next-ok, update-ok}
use cos.Malloc.Position.{Place, place, position-Place}
use cos.Malloc.Fit.{test_ne, test_eq}
use cos.Malloc.Memory.{Ptr, null, Heap}
use cos.Malloc.Tiling.{Block, Blocks}
use cos.Malloc.Layout.{Layout}
use cos.Malloc.Release.{
  Stops, Freed, back, snoc_of, free_first-Freed, between-Freed, SameGlobals-inserted,
}
use cos.Malloc.Memory.{set_head}
use cos.Malloc.Memory.{modify}
use cos.Malloc.Memory.{Memory}
use cos.Malloc.Memory.{◌>>◌}
use cos.Malloc.Memory.{set_next}

abbrev with_mark : Heap → Ptr → Heap
with_mark h b = record h { mem = modify h.mem b freed }

last_addr-ne_null :
    {m : Memory} {stop p : Ptr} (x : Block) (xs : Blocks)
    → Chain m stop p (x ∷ xs)
    → last_addr (x ∷ xs) ≢ null
last_addr-ne_null x [] (cons e h c) = h.ne_null
last_addr-ne_null x (y ∷ xs) (cons e h c) = last_addr-ne_null y xs c

module _ {base cap : ℕ} {h : Heap} (us vs : Blocks) (b : Ptr) (s : ℕ) where
  -- The freed block at the place that the search found.
  free_at-Freed :
      (before : Blocks) (c : Block) (after : Blocks)
      → Layout base cap h (before ++ c ∷ after) (us ++ (b, s) ∷ vs)
      → All (λ x. x.0 ≤ b) before
      → Stops b before (c ∷ after)
      → Freed base cap h
          (before ++ c ∷ after)
          (b, s)
          (us ++ vs)
          (free_at b c.0 (last_addr before) (with_mark h b))
  unfolding free_at
  free_at-Freed [] c after l low stops = free_first-Freed c after us vs b s l stops
  free_at-Freed (x ∷ xs) c after l low stops =
      let (front, p, e) = snoc_of x xs in
      let seen = Chain-cut (x ∷ xs) (c ∷ after) l.chain in
      rw
        (
          test_ne (last_addr (x ∷ xs)) null (last_addr-ne_null x xs seen.0),
          test_ne c.0 null (Chain-ne_null seen.1),
        )
        (between-Freed c after us vs b s x xs front p e l low stops)

  -- Into an empty free list.
  only_free :
      Layout base cap h [] (us ++ (b, s) ∷ vs)
      → Freed base cap h [] (b, s) (us ++ vs) ((set_head b >> set_next b null) (with_mark h b))
  unfolding set_head glue glue_last
  only_free l =
      rw
        (set_next-ok b null (record h { mem = modify h.mem b freed; head = b })
          (b_ne_null [] [] us vs b s l) (linked_holds [] [] us vs b s l))
        (back [] [] _ refl tt refl refl
          (settled h.next_free (inserted-Linked [] [] us vs b s l)
            (Rover-of ((b, s) ∷ []) h.next_free (ground (arith, Rover-has l.rover))))
          (SameGlobals-inserted h [] b null))

  at-Place :
      (free : Blocks) (v : Ptr × Ptr)
      → Place b free v
      → Layout base cap h free (us ++ (b, s) ∷ vs)
      → Freed base cap h free (b, s) (us ++ vs) (free_at b v.0 v.1 (with_mark h b))
  at-Place free v (place before c after e low stops) l =
      rw e (free_at-Freed before c after (rw e at l) low stops)

  -- The list of the marked heap is still the free list.
  marked-Chain :
      (free : Blocks)
      → Layout base cap h free (us ++ (b, s) ∷ vs)
      → Chain (with_mark h b).mem null h.head free
  marked-Chain free l =
      Chain-marked {base = base} {cap = cap} {h = h} free [] us vs b s (rw (append-nil free) l)

  pub insert_free-Freed :
      (fuel : ℕ) (free : Blocks)
      → Layout base cap h free (us ++ (b, s) ∷ vs)
      → length free ≤ fuel
      → Freed base cap h free (b, s) (us ++ vs) (insert_free fuel b h)
  unfolding insert_free
  insert_free-Freed fuel [] l enough =
      let block = freed_block [] [] us vs b s l in
      rw
        (
          update-ok b freed h (b_ne_null [] [] us vs b s l) block.holds,
          test_eq h.head null (Chain-start l.chain),
        )
        (only_free l)
  insert_free-Freed fuel (x ∷ free) l enough =
      let block = freed_block [] (x ∷ free) us vs b s l in
      let found = position-Place b (with_mark h b) fuel x free (marked-Chain (x ∷ free) l) enough in
      rw
        (
          update-ok b freed h (b_ne_null [] (x ∷ free) us vs b s l) block.holds,
          test_ne h.head null (Chain-ne_null l.chain),
          found.runs,
        )
        (at-Place (x ∷ free) found.value found.holds l)
