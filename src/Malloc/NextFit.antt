-- ===== src/Malloc/NextFit.antt =====
-- `nextFit`: first fit from the rover on, then from the head up to the rover.
use cos.Base.{
  ℕ, zero, suc, ◌<◌, ◌≡◌, refl, inl, inr, [], ◌∷◌, ◌++◌, append_assoc, append-nil, arith, All,
  All-append_left, length, length-append, ◌==◌, Bool-cases, if◌then◌else◌,
}
use cos.Malloc.Memory.{Ptr, null, Heap, done, pure}
use cos.Malloc.FreeList.{first_loop, find_prev_node, wrap_fit, next_fit_from, next_fit, carve}
use cos.Malloc.Tiling.{Block, Blocks, AllApart-remove}
use cos.Malloc.Chain.{Chain, nil, cons, Chain-split, last_addr, Elsewhere, Apart-Elsewhere}
use cos.Malloc.Layout.{Layout, Rover, unset, at, load-ok}
use cos.Malloc.Relink.{AllApart-prefix}
use cos.Malloc.Fit.{
  NoFit, Fit, full, Found, nothing, found, first_loop-Found, carve-Fit, test_ne, test_eq,
  last_addr-snoc,
}
use cos.Malloc.FirstFit.{Chain-Elsewhere-null}
use cos.Base.{◌≢◌}
use cos.Base.{ap}
use cos.Base.{All-append}
use cos.Malloc.Chain.{Chain-ne_null}
use cos.Base.{sym}
use cos.Base.{◌∙◌}
use cos.Base.{◌+◌}

-- The address of the first block, NULL if there is none.
abbrev pub start_addr : Blocks → Ptr
start_addr [] = null
start_addr (b ∷ bs) = b.0

-- How the chosen block stands to the rover: the first large enough block from the rover on, or, if
-- there is none from the rover on, the first one before it.
pub data IsNext (size : ℕ) (rover : Ptr) (pre : Blocks) (b : Block) (post : Blocks) : Type 0 where
  ahead :
      (front between : Blocks)
      → pre ≡ front ++ between
      → start_addr (between ++ b ∷ post) ≡ rover
      → All (NoFit size) between
      → IsNext size rover pre b post
  wrapped :
      (between back : Blocks)
      → post ≡ between ++ back
      → start_addr back ≡ rover
      → All (NoFit size) pre
      → All (NoFit size) back
      → IsNext size rover pre b post

module _ (h : Heap) where
  find_prev_node-next :
      (k : ℕ) (q node : Ptr) (seen : Blocks) (x : Block) (xs : Blocks)
      → find_prev_node node k q (last_addr (seen ++ x ∷ [])) h
        ≡ done (last_addr ((seen ++ x ∷ []) ++ xs)) h
      → find_prev_node node k q x.0 h ≡ done (last_addr (seen ++ x ∷ xs)) h
  find_prev_node-next k q node seen x xs e =
      ap (λ p. find_prev_node node k q p h) (sym (last_addr-snoc seen x))
      ∙ (e ∙ ap (λ zs. done (last_addr zs) h) (append_assoc seen (x ∷ []) xs))

  find_prev_node-last :
      (k : ℕ) {cur : Ptr} (seen xs : Blocks) (b : Block) (ys : Blocks)
      → Chain h.mem null cur (xs ++ b ∷ ys)
      → All (Elsewhere b.0) xs
      → length xs < k
      → find_prev_node b.0 k cur (last_addr seen) h ≡ done (last_addr (seen ++ xs)) h
  unfolding find_prev_node
  find_prev_node-last zero seen xs b ys c out fuel = absurd (omega arith)
  find_prev_node-last (suc k) {cur} seen [] b ys (cons e header c) out fuel =
      rw (e, test_ne b.0 null header.ne_null, test_eq b.0 b.0 refl, append-nil)
  find_prev_node-last (suc k) {cur} seen (x ∷ xs) b ys (cons {q} e header c) out fuel =
      rw
        (
          e,
          test_ne x.0 null header.ne_null,
          test_ne x.0 b.0 out.0,
          load-ok x.0 h header.ne_null header.holds,
          header.next_eq,
          test_ne q null (Chain-inner xs c),
        )
        (find_prev_node-next k q b.0 seen x xs
          (find_prev_node-last k (seen ++ x ∷ []) xs b ys c out.1 (omega arith)))
    where
      Chain-inner : (zs : Blocks) → Chain h.mem null q (zs ++ b ∷ ys) → q ≢ null
      Chain-inner [] d = Chain-ne_null d
      Chain-inner (z ∷ zs) d = Chain-ne_null d

  find_prev_node-null :
      (k : ℕ) {cur : Ptr} (prev : Ptr) (bs : Blocks)
      → Chain h.mem null cur bs
      → length bs < k
      → find_prev_node null k cur prev h ≡ done null h
  unfolding find_prev_node
  find_prev_node-null zero prev bs c fuel = absurd (omega arith)
  find_prev_node-null (suc k) {cur} prev [] (nil e) fuel = rw (test_eq cur null e)
  find_prev_node-null (suc k) {cur} prev (b ∷ bs) (cons {q} e header c) fuel =
      rw
        (
          e,
          test_ne b.0 null header.ne_null,
          load-ok b.0 h header.ne_null header.holds,
          header.next_eq,
        )
        (elim (Bool-cases (q == null)) [
          | inl last ↦ rw last
          | inr more ↦ rw more (find_prev_node-null k b.0 bs c (omega arith))
        ])

module _ {base cap : ℕ} {h : Heap} {free used : Blocks} (size : ℕ)
    (l : Layout base cap h free used) where
  -- The second search, where no block from the rover on is large enough.
  Found-wrapped :
      (front back : Blocks) (rover : Ptr) {r : Ptr × Ptr}
      → free ≡ front ++ back
      → start_addr back ≡ rover
      → All (NoFit size) back
      → Found size [] front r
      → Fit
          (IsNext size rover)
          base
          cap
          h
          free
          used
          size
          ((if r.0 == null then pure null else carve r.0 r.1 size) h)
  Found-wrapped front back rover e start none_back (nothing none_front) =
      full (rw e (All-append (NoFit size) front back none_front none_back))
  Found-wrapped front back rover e start none_back (found pre post a s e' ne large smaller) =
      rw (test_ne a null ne) (
        carve-Fit pre (post ++ back) a s size l
          (rw (e, e', append_assoc pre ((a, s) ∷ post) back) refl) large
          (wrapped post back refl start smaller none_back))

  wrap_fit-Fit :
      (fuel : ℕ) (front back : Blocks) (rover : Ptr)
      → free ≡ front ++ back
      → start_addr back ≡ rover
      → All (NoFit size) back
      → Chain h.mem rover h.head front
      → All (Elsewhere rover) front
      → length front < fuel
      → Fit (IsNext size rover) base cap h free used size (wrap_fit fuel size rover h)
  unfolding wrap_fit
  wrap_fit-Fit fuel front back rover e start none_back c out enough =
      let r = first_loop-Found h rover size fuel [] front c out enough in
      rw r.runs (Found-wrapped front back rover e start none_back r.holds)

  before_rover :
      (xs : Blocks) (b : Block) (ys : Blocks) → free ≡ xs ++ b ∷ ys → All (Elsewhere b.0) xs
  before_rover xs b ys e =
      let apart = AllApart-remove b xs ys (rw e at (AllApart-prefix free used l.tiles.apart)) in
      All-append_left (Elsewhere b.0) xs ys (Apart-Elsewhere b (xs ++ ys) apart.0)

  -- The first search has ended.
  Found-ahead :
      (fuel : ℕ) (xs ys : Blocks) (b : Block) {r : Ptr × Ptr}
      → free ≡ xs ++ b ∷ ys
      → length free < fuel
      → Found size xs (b ∷ ys) r
      → Fit
          (IsNext size b.0)
          base
          cap
          h
          free
          used
          size
          ((if r.0 == null then wrap_fit fuel size b.0 else carve r.0 r.1 size) h)
  Found-ahead fuel xs ys b e enough (nothing none_fits) =
      wrap_fit-Fit fuel xs (b ∷ ys) b.0 e refl none_fits (Chain-split xs (rw e at l.chain)).0
        (before_rover xs b ys e) (omega (arith, ap length e, length-append {0} xs (b ∷ ys)))
  Found-ahead fuel xs ys b e enough (found pre post a s e' ne large smaller) =
      rw (test_ne a null ne) (
        carve-Fit (xs ++ pre) post a s size l (rw (e, e', append_assoc xs pre ((a, s) ∷ post)) refl)
          large (ahead xs pre refl (ap start_addr (sym e')) smaller))

  first_loop-stop : (k : ℕ) → 0 < k → first_loop null size k null null h ≡ done (null, null) h
  unfolding first_loop
  first_loop-stop zero pos = absurd (omega arith)
  first_loop-stop (suc k) pos = refl

  next_fit_from-null :
      (fuel : ℕ)
      → length free < fuel
      → Fit (IsNext size null) base cap h free used size (next_fit_from fuel size null h)
  unfolding next_fit_from
  next_fit_from-null fuel enough =
      rw (find_prev_node-null h fuel null free l.chain enough, first_loop-stop fuel (omega arith))
        (wrap_fit-Fit fuel free [] null (sym (append-nil free)) refl tt l.chain
          (Chain-Elsewhere-null l.chain) enough)

  next_fit_from-at :
      (fuel : ℕ) (xs ys : Blocks) (b : Block)
      → free ≡ xs ++ b ∷ ys
      → length free < fuel
      → Fit (IsNext size b.0) base cap h free used size (next_fit_from fuel size b.0 h)
  unfolding next_fit_from
  next_fit_from-at fuel xs ys b e enough =
      let chain = rw e at l.chain in
      let shorter : length xs + suc (length ys) < fuel =
        omega (arith, ap length e, length-append {0} xs (b ∷ ys)) in
      let (front, (q, header, back)) = Chain-split xs chain in
      let found =
        first_loop-Found h null size fuel xs (b ∷ ys) (cons refl header back)
          (header.ne_null, Chain-Elsewhere-null back) (omega arith) in
      rw
        (
          find_prev_node-last h fuel [] xs b ys chain (before_rover xs b ys e) (omega arith),
          found.runs,
        )
        (Found-ahead fuel xs ys b e enough found.holds)

  by-Rover :
      (fuel : ℕ) {rover : Ptr}
      → length free < fuel
      → Rover free rover
      → Fit (IsNext size rover) base cap h free used size (next_fit_from fuel size rover h)
  by-Rover fuel enough (unset e) = rw e (next_fit_from-null fuel enough)
  by-Rover fuel enough (at xs b ys e at_b) = rw at_b (next_fit_from-at fuel xs ys b e enough)

-- On a heap that is laid out properly, with a round of fuel for each free block and one more,
-- `nextFit` takes the first free block from the rover on that is large enough, else the first one before it, and returns NULL only if every free
-- block is too small, with nothing changed. The block is then in use, its unused end is free again,
-- and the heap is laid out properly.
pub next_fit-Fit :
    {base cap : ℕ} {h : Heap} {free used : Blocks} (fuel size : ℕ)
    → Layout base cap h free used
    → length free < fuel
    → Fit (IsNext size h.next_free) base cap h free used size (next_fit fuel size h)
unfolding next_fit
next_fit-Fit fuel size l enough = by-Rover size l fuel enough l.rover
