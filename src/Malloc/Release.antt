-- ===== src/Malloc/Release.antt =====
-- `MyFree` on a block in use.
use cos.Base.{
  ℕ, ◌≤◌, ◌≡◌, refl, ap, ◌∙◌, inl, inr, true, ◌||◌, not, [], ◌∷◌, ◌++◌, append_assoc, arith, ◌==◌,
  Bool-cases, All,
}
use cos.Malloc.Memory.{Ptr, null, modify, Heap, Run, done, fault, ◌>>=◌, set_head}
use cos.Malloc.FreeList.{coalesce_free_list}
use cos.Malloc.Allocator.{fix_rover, free_first, free_between}
use cos.Malloc.Tiling.{Block, Blocks, end_of}
use cos.Malloc.Chain.{last_addr}
use cos.Malloc.Layout.{Layout, SameGlobals, SameGlobals-trans, set_next-ok}
use cos.Malloc.Relink.{relinked, set_next-relinked}
use cos.Malloc.Insert.{
  Linked, inserted, freed, with_next, inserted-Linked, linked_holds, Chain-marked, b_ne_null,
  Chain-start,
}
use cos.Malloc.Fit.{last_addr-snoc}
use cos.Malloc.Glue.{glue, glue_last, glue_last-snoc}
use cos.Malloc.Coalesce.{first_glued}
use cos.Malloc.Coalesce.Between.{between_glued, between_crash}
use cos.Base.{false}
use cos.Base.{Bool}

-- The place that `MyFree` finds for a block at `b`: behind blocks that begin at or before it, and
-- before the first block that begins behind it or else before the last block of all.
abbrev pub Stops : Ptr → Blocks → Blocks → Type 0
Stops b before [] = before ≡ []
Stops b before (c ∷ after) = c.0 ≤ b → after ≡ []

abbrev pub last_end : Block → Blocks → Ptr
last_end x [] = end_of x
last_end x (y ∷ ys) = last_end y ys

last_end-snoc :
    (x : Block) (xs front : Blocks) (p : Block)
    → x ∷ xs ≡ front ++ p ∷ []
    → last_end x xs ≡ end_of p
last_end-snoc x xs front p e = ap last_of e ∙ at_end front
  where
    last_of : Blocks → Ptr
    last_of [] = 0
    last_of (y ∷ ys) = last_end y ys

    at_end : (ys : Blocks) → last_of (ys ++ p ∷ []) ≡ end_of p
    at_end [] = refl
    at_end (y ∷ []) = refl
    at_end (y ∷ z ∷ ys) = at_end (z ∷ ys)

-- Whether freeing `b` at this place of the free list reads through NULL: it goes between two free
-- blocks that it does not adjoin, and the rover is the second of them.
abbrev pub meets_null : (rover : Ptr) (before : Blocks) (b : Block) (rest : Blocks) → Bool
meets_null rover [] b rest = false
meets_null rover (x ∷ xs) b [] = false
meets_null rover (x ∷ xs) b (c ∷ after) =
    not ((last_end x xs == b.0) || (end_of b == c.0) || not (c.0 == rover))

-- What freeing the block `b` comes to.
pub data Freed (base cap : ℕ) (h : Heap) (free : Blocks) (b : Block) (used : Blocks)
    : Run (Unit {0}) → Type 0 where
  back :
      (before rest : Blocks) (h' : Heap)
      → free ≡ before ++ rest
      → All (λ x. x.0 ≤ b.0) before
      → Stops b.0 before rest
      → meets_null h.next_free before b rest ≡ false
      → Layout base cap h' (glue_last before (glue b rest)) used
      → SameGlobals h h'
      → Freed base cap h free b used (done tt h')
  crash :
      (before rest : Blocks)
      → free ≡ before ++ rest
      → All (λ x. x.0 ≤ b.0) before
      → Stops b.0 before rest
      → meets_null h.next_free before b rest ≡ true
      → Freed base cap h free b used fault

pub SameGlobals-inserted :
    (h : Heap) (before : Blocks) (b q : Ptr) → SameGlobals h (inserted h before b q)
SameGlobals-inserted h [] b q = record { base_eq = refl; capacity_eq = refl; locked_eq = refl }
SameGlobals-inserted h (x ∷ xs) b q = record {
  base_eq = refl;
  capacity_eq = refl;
  locked_eq = refl;
}

-- A list that is not empty has a last block.
pub snoc_of :
    (x : Block) (xs : Blocks) → (front : Blocks) × (p : Block) × (x ∷ xs ≡ front ++ p ∷ [])
snoc_of x [] = ([], x, refl)
snoc_of x (y ∷ xs) = let (front, p, e) = snoc_of y xs in (x ∷ front, p, ap (λ t. x ∷ t) e)

module _ {base cap : ℕ} {h : Heap} (c : Block) (after us vs : Blocks) (b : Ptr) (s : ℕ) where
  -- In front of all free blocks.
  pub free_first-Freed :
      Layout base cap h (c ∷ after) (us ++ (b, s) ∷ vs)
      → (c.0 ≤ b → after ≡ [])
      → Freed base cap h
          (c ∷ after)
          (b, s)
          (us ++ vs)
          (free_first b c.0 (record h { mem = modify h.mem b freed }))
  unfolding free_first set_head glue_last
  free_first-Freed l stops =
      let marked = record h { mem = modify h.mem b freed } in
      let holds = linked_holds [] (c ∷ after) us vs b s l in
      let (h', runs, layout, globals) =
        first_glued (b, s) c after (us ++ vs) (inserted-Linked [] (c ∷ after) us vs b s l)
          l.rover in
      let start =
        ap
          (λ (q : Ptr).
            (coalesce_free_list b null c.0 >>= fix_rover c.0)
              (record marked { mem = modify marked.mem b (with_next q); head = b }))
          (Chain-start l.chain) in
      rw (set_next-ok b h.head marked (b_ne_null [] (c ∷ after) us vs b s l) holds, start, runs)
        (back [] (c ∷ after) h' refl tt stops refl layout
          (SameGlobals-trans (SameGlobals-inserted h [] b c.0) globals))

  -- Between two free blocks, or before the last of all.
  link_between :
      (x : Block) (xs : Blocks)
      → (l : Layout base cap h ((x ∷ xs) ++ c ∷ after) (us ++ (b, s) ∷ vs))
      → free_between b (last_addr (x ∷ xs)) c.0 (record h { mem = modify h.mem b freed })
        ≡ (coalesce_free_list b (last_addr (x ∷ xs)) c.0 >>= fix_rover c.0)
            (inserted h (x ∷ xs) b c.0)
  unfolding free_between
  link_between x xs l = rw (
    set_next-relinked b (record h { mem = modify h.mem b freed }) x xs
        (Chain-marked (x ∷ xs) (c ∷ after) us vs b s l),
    set_next-ok b c.0 (relinked (record h { mem = modify h.mem b freed }) (x ∷ xs) b)
        (b_ne_null (x ∷ xs) (c ∷ after) us vs b s l)
        (linked_holds (x ∷ xs) (c ∷ after) us vs b s l),
  )

  -- The list with the last block before the freed one named.
  pub between-Freed :
      (x : Block) (xs front : Blocks) (p : Block)
      → x ∷ xs ≡ front ++ p ∷ []
      → Layout base cap h ((x ∷ xs) ++ c ∷ after) (us ++ (b, s) ∷ vs)
      → All (λ y. y.0 ≤ b) (x ∷ xs)
      → (c.0 ≤ b → after ≡ [])
      → Freed base cap h
          ((x ∷ xs) ++ c ∷ after)
          (b, s)
          (us ++ vs)
          (free_between b (last_addr (x ∷ xs)) c.0 (record h { mem = modify h.mem b freed }))
  between-Freed x xs front p e l low stops =
      rw (link_between x xs l, ap run last_eq)
        (elim (Bool-cases ((end_of p == b) || (end_of (b, s) == c.0) || not (c.0 == h.next_free))) [
          | inl safe ↦ glued safe
          | inr stuck ↦
              (rw
                (between_crash front p (b, s) c after (us ++ vs) linked (ground arith)
                  (ground arith) (ground arith))
                (crash (x ∷ xs) (c ∷ after) refl low stops (meets stuck)))
        ])
    where
      last_eq : last_addr (x ∷ xs) ≡ p.0
      last_eq = ap last_addr e ∙ last_addr-snoc front p

      run : Ptr → Run (Unit {0})
      run q = (coalesce_free_list b q c.0 >>= fix_rover c.0) (inserted h (x ∷ xs) b c.0)

      meets :
          {t : Bool}
          → ((end_of p == b) || (end_of (b, s) == c.0) || not (c.0 == h.next_free)) ≡ t
          → meets_null h.next_free (x ∷ xs) (b, s) (c ∷ after) ≡ not t
      meets same =
          ap (λ q. not ((q == b) || (end_of (b, s) == c.0) || not (c.0 == h.next_free)))
            (last_end-snoc x xs front p e)
          ∙ ap not same

      whole : (ys : Blocks) → (x ∷ xs) ++ ys ≡ front ++ p ∷ ys
      whole ys = ap (λ t. t ++ ys) e ∙ append_assoc front (p ∷ []) ys

      linked :
          Linked base cap (inserted h (x ∷ xs) b c.0) (front ++ p ∷ (b, s) ∷ c ∷ after) (us ++ vs)
      linked = rw (whole ((b, s) ∷ c ∷ after)) at (inserted-Linked (x ∷ xs) (c ∷ after) us vs b s l)

      glued :
          ((end_of p == b) || (end_of (b, s) == c.0) || not (c.0 == h.next_free)) ≡ true
          → Freed base cap h ((x ∷ xs) ++ c ∷ after) (b, s) (us ++ vs) (run p.0)
      glued safe =
          let (h', runs, layout, globals) =
            between_glued front p (b, s) c after (us ++ vs) linked safe
              (rw (whole (c ∷ after)) at l.rover) in
          rw runs (
            back (x ∷ xs) (c ∷ after) h' refl low stops (meets safe)
              (rw
                (
                  ap (λ t. glue_last t (glue (b, s) (c ∷ after))) e,
                  glue_last-snoc front p (glue (b, s) (c ∷ after)),
                )
                layout)
              (SameGlobals-trans (SameGlobals-inserted h (x ∷ xs) b c.0) globals))
