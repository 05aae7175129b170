-- ===== src/Malloc/Position.antt =====
-- The search of `MyFree` for the place of a freed block.
use cos.Base.{
  ℕ, zero, suc, ◌≤◌, ◌≡◌, refl, inl, inr, true, [], ◌∷◌, ◌++◌, append_assoc, arith, All, All-append,
  length, ltb, ltb→lt, not_ltb→le, Bool-cases,
}
use cos.Malloc.Memory.{Ptr, null, Heap, pure}
use cos.Malloc.Allocator.{position_loop}
use cos.Malloc.Tiling.{Block, Blocks}
use cos.Malloc.Chain.{Chain, nil, cons, last_addr, Chain-ne_null}
use cos.Malloc.Layout.{load-ok}
use cos.Malloc.Fit.{Reads, test_ne, test_eq, last_addr-snoc}

-- Where the search stops in the list `free`, for a block at `b`: at the first free block behind
-- `b`, or else at the last free block, which then lies before `b`.
pub data Place (b : Ptr) (free : Blocks) : Ptr × Ptr → Type 0 where
  place :
      (before : Blocks) (c : Block) (after : Blocks)
      → free ≡ before ++ c ∷ after
      → All (λ x. x.0 ≤ b) before
      → (c.0 ≤ b → after ≡ [])
      → Place b free (c.0, last_addr before)

module _ (b : Ptr) (h : Heap) where
  next-Place :
      (k : ℕ) (q : Ptr) (seen : Blocks) (x : Block) (todo : Blocks)
      → Reads
          (Place b ((seen ++ x ∷ []) ++ todo))
          h
          (position_loop b k q (last_addr (seen ++ x ∷ [])) h)
      → Reads (Place b (seen ++ x ∷ todo)) h (position_loop b k q x.0 h)
  next-Place k q seen x todo r = record {
    value = r.value;
    runs = rw (← last_addr-snoc seen x) r.runs;
    holds = rw (append_assoc seen (x ∷ []) todo) at r.holds;
  }

  stop_behind :
      (seen : Blocks) (x : Block) (todo : Blocks)
      → All (λ y. y.0 ≤ b) seen
      → ltb b x.0 ≡ true
      → Reads (Place b (seen ++ x ∷ todo)) h (pure (x.0, last_addr seen) h)
  stop_behind seen x todo low behind = record {
    value = (x.0, last_addr seen);
    runs = refl;
    holds = place seen x todo refl low (λ le. absurd (omega (arith, ltb→lt _ _ behind)));
  }

  position_loop-Place :
      (k : ℕ) {cur : Ptr} (seen : Blocks) (x : Block) (todo : Blocks)
      → Chain h.mem null cur (x ∷ todo)
      → All (λ y. y.0 ≤ b) seen
      → length (x ∷ todo) ≤ k
      → Reads (Place b (seen ++ x ∷ todo)) h (position_loop b k cur (last_addr seen) h)
  unfolding position_loop
  position_loop-Place zero seen x todo c low fuel = absurd (omega arith)
  position_loop-Place (suc k) {cur} seen x [] (cons {q} e header (nil z)) low fuel =
      rw (e, test_ne x.0 null header.ne_null)
        (elim (Bool-cases (ltb b x.0)) [
          | inl behind ↦ rw behind (stop_behind seen x [] low behind)
          | inr not_behind ↦
              rw
                (
                  not_behind,
                  load-ok x.0 h header.ne_null header.holds,
                  header.next_eq,
                  test_eq q null z,
                )
                (record {
                  value = (x.0, last_addr seen);
                  runs = refl;
                  holds = place seen x [] refl low (λ le. refl);
                })
        ])
  position_loop-Place (suc k) {cur} seen x (y ∷ todo) (cons {q} e header c) low fuel =
      rw (e, test_ne x.0 null header.ne_null)
        (elim (Bool-cases (ltb b x.0)) [
          | inl behind ↦ rw behind (stop_behind seen x (y ∷ todo) low behind)
          | inr not_behind ↦
              rw
                (
                  not_behind,
                  load-ok x.0 h header.ne_null header.holds,
                  header.next_eq,
                  test_ne q null (Chain-ne_null c),
                )
                (next-Place k q seen x (y ∷ todo) (
                  position_loop-Place k (seen ++ x ∷ []) y todo c
                    (All-append _ seen (x ∷ []) low (not_ltb→le _ _ not_behind, tt)) (omega arith)))
        ])

  -- With a round of fuel for each free block the search ends at a place of the freed block.
  pub position-Place :
      (fuel : ℕ) {p : Ptr} (x : Block) (free : Blocks)
      → Chain h.mem null p (x ∷ free)
      → length (x ∷ free) ≤ fuel
      → Reads (Place b (x ∷ free)) h (position_loop b fuel p null h)
  position-Place fuel x free c enough = position_loop-Place fuel [] x free c tt enough
