-- ===== src/Malloc/ExtremalFit.antt =====
-- `bestFit` and `worstFit`: the block of the free list that no other large enough block betters.
use cos.Base.{
  ℕ, zero, suc, ◌<◌, ◌≤◌, ◌≡◌, refl, inl, inr, Bool, true, false, [], ◌∷◌, ◌++◌, append_assoc,
  append-nil, arith, All, All-append, length, leb, leb→le, ◌==◌, ==_iff, Bool-cases, if◌then◌else◌,
}
use cos.Malloc.Memory.{Ptr, null, Heap, pure}
use cos.Malloc.FreeList.{
  consider, extremal_loop, extremal_fit, carve, smaller, larger, best_fit, worst_fit,
}
use cos.Malloc.Tiling.{Block, Blocks}
use cos.Malloc.Chain.{Header, Chain, nil, cons, Chain-split, last_addr}
use cos.Malloc.Layout.{Layout, load-ok}
use cos.Malloc.Fit.{
  NoFit, Fit, full, Reads, carve-Fit, test_ne, test_eq, last_addr-snoc, Chain-null,
}
use cos.Malloc.Candidate.{
  Candidate, Candidate-small, Candidate-worse, IsRanking, larger-IsRanking, smaller-IsRanking,
}
use cos.Malloc.Candidate.{unset}
use cos.Malloc.Candidate.{chosen}
pub use cos.Malloc.Candidate.{IsExtremal}

module _ {better : ℕ → ℕ → Bool} (ranking : IsRanking better) (size : ℕ) where
  All-NoFit-worse :
      (seen : Blocks) (s : ℕ)
      → All (NoFit size) seen
      → All (λ c. size ≤ c.1 → better s c.1 ≡ true) seen
  All-NoFit-worse [] s h = tt
  All-NoFit-worse (c ∷ seen) s h =
      ((λ fits. absurd (omega (arith, h.0))), All-NoFit-worse seen s h.1)

  All-chain :
      (bs : Blocks) (s t : ℕ)
      → better s t ≡ true
      → All (λ c. size ≤ c.1 → better t c.1 ≡ true) bs
      → All (λ c. size ≤ c.1 → better s c.1 ≡ true) bs
  All-chain [] s t p h = tt
  All-chain (c ∷ bs) s t p h =
      ((λ fits. ranking.chain s t c.1 p (h.0 fits)), All-chain bs s t p h.1)

  All-beats :
      (bs : Blocks) (s t : ℕ)
      → better s t ≡ true
      → All (λ c. size ≤ c.1 → better c.1 t ≡ false) bs
      → All (λ c. size ≤ c.1 → better s c.1 ≡ true) bs
  All-beats [] s t p h = tt
  All-beats (c ∷ bs) s t p h =
      ((λ fits. ranking.beats s t c.1 p (h.0 fits)), All-beats bs s t p h.1)

  -- The current block becomes the candidate.
  Candidate-current :
      (seen : Blocks) (b : Block)
      → size ≤ b.1
      → All (λ c. size ≤ c.1 → better b.1 c.1 ≡ true) seen
      → Candidate better size (seen ++ b ∷ []) (b.0, last_addr seen)
  Candidate-current seen b large worse = chosen seen [] b.0 b.1 refl large (worse, tt)

  All-worse :
      (pre post : Blocks) (a : Ptr) (s t : ℕ)
      → better t s ≡ true
      → IsExtremal better size pre (a, s) post
      → All (λ c. size ≤ c.1 → better t c.1 ≡ true) (pre ++ (a, s) ∷ post)
  All-worse pre post a s t p ext =
      All-append _ pre ((a, s) ∷ post) (All-chain pre t s p ext.0)
        ((λ fits. p), All-beats post t s p ext.1)

  module _ (h : Heap) where
    consider-Candidate :
        {stop p q : Ptr} {r : Ptr × Ptr} (seen todo : Blocks) (b : Block)
        → Chain h.mem stop p (seen ++ b ∷ todo)
        → (header : Header h.mem b.0 b.1 q) → Candidate better size seen r
        → Reads
            (Candidate better size (seen ++ b ∷ []))
            h
            (consider better size header.node b.0 (last_addr seen) r.0 r.1 h)
    unfolding consider
    consider-Candidate seen todo b c header (unset none_fits) =
        elim (Bool-cases (leb size header.node.size)) [
          | inl large ↦ rw large (record {
            value = (b.0, last_addr seen);
            runs = refl;
            holds =
                Candidate-current seen b (omega (arith, leb→le _ _ large, header.size_eq))
                  (All-NoFit-worse seen b.1 none_fits);
          })
          | inr small ↦ rw small (record {
            value = (null, null);
            runs = refl;
            holds = Candidate-small seen b (null, null) (ground arith) (unset none_fits);
          })
        ]
    consider-Candidate {stop} {p} seen todo b c header (chosen pre post a s e large ext) =
        elim (Bool-cases (leb size header.node.size)) [
          | inl fits ↦
              rw
                (
                  fits,
                  test_ne a null old.ne_null,
                  load-ok a h old.ne_null old.holds,
                  old.size_eq,
                  header.size_eq,
                )
                (elim (Bool-cases (better b.1 s)) [
                  | inl wins ↦ rw wins (record {
                    value = (b.0, last_addr seen);
                    runs = refl;
                    holds =
                        Candidate-current seen b (omega (arith, leb→le _ _ fits, header.size_eq))
                          (rw e (All-worse pre post a s b.1 wins ext));
                  })
                  | inr loses ↦ rw loses (record {
                    value = (a, last_addr pre);
                    runs = refl;
                    holds = Candidate-worse seen b pre post a s loses e large ext;
                  })
                ])
          | inr small ↦ rw small (record {
            value = (a, last_addr pre);
            runs = refl;
            holds =
                Candidate-small seen b (a, last_addr pre) (ground arith)
                  (chosen pre post a s e large ext);
          })
        ]
      where
        whole : Chain h.mem stop p (pre ++ ((a, s) ∷ (post ++ b ∷ todo)))
        whole = rw (← append_assoc pre ((a, s) ∷ post) (b ∷ todo), ← e) c

        old : Header h.mem a s (Chain-split pre whole).1.0
        old = (Chain-split pre whole).1.1

    visit-next :
        (k : ℕ) (q : Ptr) (seen : Blocks) (b : Block) (todo : Blocks) (r : Ptr × Ptr)
        → Reads
            (Candidate better size ((seen ++ b ∷ []) ++ todo))
            h
            (extremal_loop better size k q (last_addr (seen ++ b ∷ [])) r.0 r.1 h)
        → Reads
            (Candidate better size (seen ++ b ∷ todo))
            h
            (extremal_loop better size k q b.0 r.0 r.1 h)
    visit-next k q seen b todo r reads = record {
      value = reads.value;
      runs = rw (← last_addr-snoc seen b) reads.runs;
      holds = rw (append_assoc seen (b ∷ []) todo) at reads.holds;
    }

    -- The loop visits every block and keeps the best candidate.
    extremal_loop-Candidate :
        (k : ℕ) {p cur : Ptr} {r : Ptr × Ptr} (seen todo : Blocks)
        → Chain h.mem null p (seen ++ todo)
        → Chain h.mem null cur todo
        → length todo < k
        → Candidate better size seen r
        → Reads
            (Candidate better size (seen ++ todo))
            h
            (extremal_loop better size k cur (last_addr seen) r.0 r.1 h)
    unfolding extremal_loop
    extremal_loop-Candidate zero seen todo c d fuel cand = absurd (omega arith)
    extremal_loop-Candidate (suc k) {cur} {r} seen [] c (nil e) fuel cand = record {
      value = r;
      runs = rw (test_eq cur null e);
      holds = rw append-nil cand;
    }
    extremal_loop-Candidate (suc k) {p} {cur} seen (b ∷ todo) c (cons {q} e header d) fuel cand =
        let step = consider-Candidate seen todo b c header cand in
        rw
          (
            e,
            test_ne b.0 null header.ne_null,
            load-ok b.0 h header.ne_null header.holds,
            step.runs,
            header.next_eq,
          )
          (elim (Bool-cases (q == null)) [
            | inl last ↦
                rw (last, Chain-null ((==_iff _ _).0 last) d)
                  (record { value = step.value; runs = refl; holds = step.holds })
            | inr more ↦ rw more (
                visit-next k q seen b todo step.value (
                  extremal_loop-Candidate k {p = p} (seen ++ b ∷ []) todo
                    (rw (append_assoc seen (b ∷ []) todo) c) d (omega arith) step.holds))
          ])

module _ {better : ℕ → ℕ → Bool} (ranking : IsRanking better) where
  Candidate-Fit :
      {base cap : ℕ} {h : Heap} {free used : Blocks} (size : ℕ) {r : Ptr × Ptr}
      → Layout base cap h free used
      → Candidate better size free r
      → Chain h.mem null h.head free
      → Fit
          (IsExtremal better size)
          base
          cap
          h
          free
          used
          size
          ((if r.0 == null then pure null else carve r.0 r.1 size) h)
  Candidate-Fit size l (unset none_fits) c = full none_fits
  Candidate-Fit size l (chosen pre post a s e large ext) c =
      let header = (Chain-split pre (rw e at c)).1.1 in
      rw (test_ne a null header.ne_null) (carve-Fit pre post a s size l e large ext)

  extremal_fit-Fit :
      {base cap : ℕ} {h : Heap} {free used : Blocks} (fuel size : ℕ)
      → Layout base cap h free used
      → length free < fuel
      → Fit (IsExtremal better size) base cap h free used size (extremal_fit better fuel size h)
  unfolding extremal_fit
  extremal_fit-Fit {h} {free} fuel size l enough =
      let r =
        extremal_loop-Candidate ranking size h fuel [] free l.chain l.chain enough (unset tt) in
      rw r.runs (Candidate-Fit size l r.holds l.chain)

-- On a heap that is laid out properly, with a round of fuel for each free block and one more,
-- `bestFit` takes the smallest free block that is large enough, the first of them in the list, and returns NULL only if every free
-- block is too small, with nothing changed. The block is then in use, its unused end is free again,
-- and the heap is laid out properly.
pub best_fit-Fit :
    {base cap : ℕ} {h : Heap} {free used : Blocks} (fuel size : ℕ)
    → Layout base cap h free used
    → length free < fuel
    → Fit (IsExtremal smaller size) base cap h free used size (best_fit fuel size h)
unfolding best_fit
best_fit-Fit = extremal_fit-Fit smaller-IsRanking

-- On a heap that is laid out properly, with a round of fuel for each free block and one more,
-- `worstFit` takes the largest free block, the first of them in the list, and returns NULL only if every free
-- block is too small, with nothing changed. The block is then in use, its unused end is free again,
-- and the heap is laid out properly.
pub worst_fit-Fit :
    {base cap : ℕ} {h : Heap} {free used : Blocks} (fuel size : ℕ)
    → Layout base cap h free used
    → length free < fuel
    → Fit (IsExtremal larger size) base cap h free used size (worst_fit fuel size h)
unfolding worst_fit
worst_fit-Fit = extremal_fit-Fit larger-IsRanking
