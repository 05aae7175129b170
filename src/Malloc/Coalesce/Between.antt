-- ===== src/Malloc/Coalesce/Between.antt =====
-- A freed block between two free blocks: all three may become one, or two of them, or none.
use cos.Base.{
  ℕ, ◌+◌, ◌≡◌, refl, sym, ◌∙◌, ◌≢◌, inl, inr, true, false, ◌&&◌, ◌||◌, not, [], ◌∷◌, ◌++◌,
  append_assoc, arith, ◌==◌, ==_iff, Bool-cases, if◌then◌else◌,
}
use cos.Malloc.Memory.{null, Heap, done, fault, sizeof_node, ◌>>=◌, ◌>>◌, pure}
use cos.Malloc.FreeList.{coalesce_between, coalesce_free_list, absorb_both}
use cos.Malloc.Allocator.{fix_rover}
use cos.Malloc.Tiling.{Block, Blocks, end_of, AllApart, Apart}
use cos.Malloc.Chain.{modify_ne, modify_self}
use cos.Malloc.Layout.{SameGlobals, Layout, Rover, load-ok}
use cos.Malloc.Insert.{Linked, Chain-start}
use cos.Malloc.Fit.{test_ne}
use cos.Malloc.Absorb.{
  Neighbours, Neighbours-of, absorbed, absorb-absorbed, absorbed-Linked, absorbing_both, merged,
  absorb_both-merged, merged-Linked,
}
use cos.Malloc.Glue.{glue}
use cos.Malloc.Rover.{
  has-append, Rover-has, Rover-of, settled, moved, fix_rover-moved, fix_rover-other, fix_rover-null,
}
use cos.Malloc.Coalesce.{adjoins-end_of, start-ne}
use cos.Malloc.FreeList.{absorb}
use cos.Base.{All-append_left}

AllApart-suffix : (xs ys : Blocks) → AllApart (xs ++ ys) → AllApart ys
AllApart-suffix [] ys h = h
AllApart-suffix (x ∷ xs) ys h = AllApart-suffix xs ys h.1

module _ {base cap : ℕ} {h : Heap} (front : Blocks) (p b c : Block) (after used : Blocks)
    (l : Linked base cap h (front ++ p ∷ b ∷ c ∷ after) used) where
  -- The same list, with the previous block counted to the front.
  abbrev regrouped : Linked base cap h ((front ++ p ∷ []) ++ b ∷ c ∷ after) used
  regrouped = rw (append_assoc front (p ∷ []) (b ∷ c ∷ after)) l

  abbrev before_pair : Neighbours h.mem p b (c ∷ after)
  before_pair = Neighbours-of front p b (c ∷ after) l.chain

  abbrev behind_pair : Neighbours h.mem b c after
  behind_pair = Neighbours-of (front ++ p ∷ []) b c after regrouped.chain

  suffix_apart : AllApart (p ∷ b ∷ c ∷ (after ++ used))
  suffix_apart =
      AllApart-suffix front _ (rw (append_assoc front (p ∷ b ∷ c ∷ after) used) at l.tiles.apart)

  p_ne_b : p.0 ≢ b.0
  p_ne_b = omega (arith, suffix_apart.0.0)

  next_ne : behind_pair.next ≢ c.0
  next_ne =
      let apart = All-append_left (Apart c) after used suffix_apart.1.1.0 in
      rw (Chain-start behind_pair.rest) (start-ne c after behind_pair.second.ne_null apart)

  -- What the code asks of the headers is what the layout says of the blocks.
  coalesce-tests :
      coalesce_free_list b.0 p.0 c.0 h
      ≡ (if (end_of b == c.0) && (end_of p == b.0)
            then absorb_both b.0 p.0 c.0 >> pure p.0
            else if end_of b == c.0
            then absorb b.0 c.0 >> pure p.0
            else if end_of p == b.0
            then absorb p.0 b.0 >> pure b.0
            else pure null)
          h
  unfolding coalesce_free_list coalesce_between
  coalesce-tests = rw (
    test_ne p.0 null before_pair.first.ne_null,
    test_ne c.0 null behind_pair.second.ne_null,
    load-ok b.0 h before_pair.second.ne_null before_pair.second.holds,
    load-ok p.0 h before_pair.first.ne_null before_pair.first.holds,
    adjoins-end_of b before_pair.second.node c.0 before_pair.second.size_eq,
    adjoins-end_of p before_pair.first.node b.0 before_pair.first.size_eq,
  )

  abbrev pub Ends : Blocks → Type 0
  Ends free =
      (h' : Heap) × ((coalesce_free_list b.0 p.0 c.0 >>= fix_rover c.0) h ≡ done tt h')
      × Layout base cap h' free used
      × SameGlobals h h'

  -- All three adjoin.
  between_both :
      (near : end_of p ≡ b.0) (far : end_of b ≡ c.0)
      → Rover (front ++ p ∷ c ∷ after) h.next_free
      → Ends (front ++ (p.0, p.1 + sizeof_node + (b.1 + sizeof_node + c.1)) ∷ after)
  between_both near far rover =
      let h' = merged front after used p b c l near far in
      (
        record h' { next_free = moved c.0 p.0 behind_pair.second.node.next h.next_free },
        rw
            (
              coalesce-tests,
              (==_iff _ _).1 near,
              (==_iff _ _).1 far,
              absorb_both-merged front after used p b c l near far,
            )
            (fix_rover-moved c.0 p.0 h' before_pair.first.ne_null (
              modify_self h.mem p.0 (absorbing_both behind_pair.first.node behind_pair.second.node)
                before_pair.first.holds)),
        settled _ (merged-Linked front after used p b c l near far) (
            Rover-of _ _ (
              ground (
                arith,
                Rover-has rover,
                next_ne,
                behind_pair.second.next_eq,
                has-append h.next_free front (p ∷ c ∷ after),
                has-append h.next_free front
                    ((p.0, p.1 + sizeof_node + (b.1 + sizeof_node + c.1)) ∷ after),
                has-append p.0 front ((p.0, p.1 + sizeof_node + (b.1 + sizeof_node + c.1)) ∷ after),
              ))),
        record { base_eq = refl; capacity_eq = refl; locked_eq = refl },
      )

  -- The freed block and the one behind it adjoin.
  between_far :
      (end_of p == b.0) ≡ false
      → (far : end_of b ≡ c.0) → Rover (front ++ p ∷ c ∷ after) h.next_free
      → Ends (front ++ p ∷ (b.0, b.1 + sizeof_node + c.1) ∷ after)
  between_far near far rover =
      let h' = absorbed (front ++ p ∷ []) after used b c regrouped far in
      let l' : Linked base cap h' (front ++ p ∷ (b.0, b.1 + sizeof_node + c.1) ∷ after) used =
        rw (append_assoc front (p ∷ []) ((b.0, b.1 + sizeof_node + c.1) ∷ after)) at
          (absorbed-Linked (front ++ p ∷ []) after used b c regrouped far) in
      (
        record h' { next_free = moved c.0 p.0 before_pair.first.node.next h.next_free },
        rw
            (
              coalesce-tests,
              near,
              (==_iff _ _).1 far,
              absorb-absorbed (front ++ p ∷ []) after used b c regrouped far,
            )
            (fix_rover-moved c.0 p.0 h' before_pair.first.ne_null
              (modify_ne h.mem b.0 p.0 _ p_ne_b ∙ before_pair.first.holds)),
        settled _ l' (
            Rover-of _ _ (
              ground (
                arith,
                Rover-has rover,
                p_ne_b,
                before_pair.first.next_eq,
                has-append h.next_free front (p ∷ c ∷ after),
                has-append h.next_free front (p ∷ (b.0, b.1 + sizeof_node + c.1) ∷ after),
                has-append p.0 front (p ∷ (b.0, b.1 + sizeof_node + c.1) ∷ after),
              ))),
        record { base_eq = refl; capacity_eq = refl; locked_eq = refl },
      )

  -- The freed block and the one before it adjoin.
  between_near :
      (near : end_of p ≡ b.0)
      → (end_of b == c.0) ≡ false
      → Rover (front ++ p ∷ c ∷ after) h.next_free
      → Ends (front ++ (p.0, p.1 + sizeof_node + b.1) ∷ c ∷ after)
  between_near near far rover =
      let h' = absorbed front (c ∷ after) used p b l near in
      let next_eq = before_pair.second.next_eq ∙ Chain-start before_pair.rest in
      (
        record h' { next_free = moved c.0 b.0 before_pair.second.node.next h.next_free },
        rw
            (
              coalesce-tests,
              far,
              (==_iff _ _).1 near,
              absorb-absorbed front (c ∷ after) used p b l near,
            )
            (fix_rover-moved c.0 b.0 h' before_pair.second.ne_null
              (modify_ne h.mem p.0 b.0 _ (λ e. p_ne_b (sym e)) ∙ before_pair.second.holds)),
        settled _ (absorbed-Linked front (c ∷ after) used p b l near) (
            Rover-of _ _ (
              ground (
                arith,
                Rover-has rover,
                next_eq,
                has-append h.next_free front (p ∷ c ∷ after),
                has-append h.next_free front ((p.0, p.1 + sizeof_node + b.1) ∷ c ∷ after),
              ))),
        record { base_eq = refl; capacity_eq = refl; locked_eq = refl },
      )

  coalesce-null :
      (end_of p == b.0) ≡ false
      → (end_of b == c.0) ≡ false
      → coalesce_free_list b.0 p.0 c.0 h ≡ done null h
  coalesce-null near far = rw (coalesce-tests, far, near)

  -- Nothing adjoins, and the rover stands elsewhere.
  between_kept :
      (end_of p == b.0) ≡ false
      → (end_of b == c.0) ≡ false
      → (c.0 == h.next_free) ≡ false
      → Rover (front ++ p ∷ c ∷ after) h.next_free
      → Ends (front ++ p ∷ b ∷ c ∷ after)
  between_kept near far other rover = (
    h,
    rw (coalesce-null near far) (fix_rover-other c.0 null h other),
    settled h.next_free l (
        Rover-of _ _ (
          ground (
            arith,
            Rover-has rover,
            has-append h.next_free front (p ∷ c ∷ after),
            has-append h.next_free front (p ∷ b ∷ c ∷ after),
          ))),
    record { base_eq = refl; capacity_eq = refl; locked_eq = refl },
  )

  -- Nothing adjoins, and the rover is the block behind: the code reads through NULL.
  pub between_crash :
      (end_of p == b.0) ≡ false
      → (end_of b == c.0) ≡ false
      → (c.0 == h.next_free) ≡ true
      → (coalesce_free_list b.0 p.0 c.0 >>= fix_rover c.0) h ≡ fault
  between_crash near far same = rw (coalesce-null near far) (fix_rover-null c.0 h same)

  pub between_glued :
      ((end_of p == b.0) || (end_of b == c.0) || not (c.0 == h.next_free)) ≡ true
      → Rover (front ++ p ∷ c ∷ after) h.next_free
      → Ends (front ++ glue p (glue b (c ∷ after)))
  unfolding glue
  between_glued safe rover = elim (Bool-cases (end_of b == c.0)) [
    | inl far ↦ rw far (elim (Bool-cases (end_of p == b.0)) [
      | inl near ↦ rw near (between_both ((==_iff _ _).0 near) ((==_iff _ _).0 far) rover)
      | inr near ↦ rw near (between_far near ((==_iff _ _).0 far) rover)
    ])
    | inr far ↦ rw far (elim (Bool-cases (end_of p == b.0)) [
      | inl near ↦ rw near (between_near ((==_iff _ _).0 near) far rover)
      | inr near ↦ rw near (between_kept near far (ground arith) rover)
    ])
  ]
