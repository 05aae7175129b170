-- ===== src/Malloc/Fit.antt =====
-- What the four searches promise, and the loop lemmas that they share.
use cos.Base.{
  ℕ, zero, suc, ◌+◌, ◌≤◌, ◌<◌, ◌≡◌, refl, sym, ◌∙◌, ap, ◌≢◌, inl, inr, true, false, [], ◌∷◌, ◌++◌,
  append_assoc, append-nil, arith, All, length, leb, leb→le, ◌==◌, ==_iff, Bool-cases,
}
use cos.Malloc.Memory.{Ptr, null, Memory, Heap, Run, done, sizeof_node}
use cos.Malloc.FreeList.{first_loop}
use cos.Malloc.Tiling.{Block, Blocks}
use cos.Malloc.Chain.{Chain, nil, cons, last_addr, Elsewhere}
use cos.Malloc.Layout.{Layout, load-ok}
use cos.Malloc.Carve.{Carved, given, leftover}
use cos.Malloc.FreeList.{carve}
use cos.Malloc.Carve.{carve_lem}

-- The block is too small.
abbrev pub NoFit : ℕ → Block → Type 0
NoFit size b = b.1 < size

-- What a search for `size` bytes returns: NULL, with every free block too small and nothing
-- changed; or the bytes behind the header of a free block that is large enough, where `Prefers` says
-- how it stands among the blocks before and behind it.
pub data Fit (Prefers : Blocks → Block → Blocks → Type 0) (base cap : ℕ) (h : Heap)
    (free used : Blocks) (size : ℕ) : Run Ptr → Type 0 where
  full : All (NoFit size) free → Fit Prefers base cap h free used size (done null h)
  fitted :
      (pre post : Blocks) (a : Ptr) (s : ℕ) (h' : Heap)
      → free ≡ pre ++ (a, s) ∷ post
      → size ≤ s
      → Prefers pre (a, s) post
      → Carved base cap h h' (pre ++ (leftover a size s ++ post)) ((a, given size s) ∷ used)
      → Fit Prefers base cap h free used size (done (a + sizeof_node) h')

pub last_addr-snoc : (xs : Blocks) (b : Block) → last_addr (xs ++ b ∷ []) ≡ b.0
last_addr-snoc [] b = refl
last_addr-snoc (x ∷ []) b = refl
last_addr-snoc (x ∷ y ∷ xs) b = last_addr-snoc (y ∷ xs) b

pub test_ne : (x y : Ptr) → x ≢ y → (x == y) ≡ false
test_ne x y h = ground arith

pub test_eq : (x y : Ptr) → x ≡ y → (x == y) ≡ true
test_eq x y h = ground arith

-- The result of the loop of `firstFit`, started behind the blocks `seen`.
pub data Found (size : ℕ) (seen todo : Blocks) : Ptr × Ptr → Type 0 where
  nothing : All (NoFit size) todo → Found size seen todo (null, null)
  found :
      (pre post : Blocks) (a : Ptr) (s : ℕ)
      → todo ≡ pre ++ (a, s) ∷ post
      → a ≢ null
      → size ≤ s
      → All (NoFit size) pre
      → Found size seen todo (a, last_addr (seen ++ pre))

Found-skip :
    (size : ℕ) (seen : Blocks) (b : Block) (todo : Blocks) (r : Ptr × Ptr)
    → b.1 < size
    → Found size (seen ++ b ∷ []) todo r
    → Found size seen (b ∷ todo) r
Found-skip size seen b todo r small (nothing no_fit) = nothing (small, no_fit)
Found-skip size seen b todo r small (found pre post a s e ne large no_fit) =
    rw (append_assoc seen (b ∷ []) pre)
      (found (b ∷ pre) post a s (ap (λ t. b ∷ t) e) ne large (small, no_fit))

-- A run that ends in a state where `P` holds of the result, and leaves the heap alone.
pub record Reads {A : Type 0} (P : A → Type 0) (h : Heap) (r : Run A) : Type 0 where
  pub value : A
  pub runs : r ≡ done value h
  pub holds : P value

Found-here :
    (size : ℕ) (seen : Blocks) (b : Block) (todo : Blocks)
    → b.0 ≢ null
    → size ≤ b.1
    → Found size seen (b ∷ todo) (b.0, last_addr seen)
Found-here size seen b todo ne large =
    let r : Found size seen (b ∷ todo) (b.0, last_addr (seen ++ [])) =
      found [] todo b.0 b.1 refl ne large tt in
    rw append-nil at r

-- A chain that starts at NULL is empty.
pub Chain-null : {m : Memory} {stop q : Ptr} {bs : Blocks} → q ≡ null → Chain m stop q bs → bs ≡ []
Chain-null z (nil e) = refl
Chain-null z (cons e h c) = absurd (h.ne_null (sym e ∙ z))

module _ (h : Heap) (stop size : ℕ) where
  Found-next :
      (k : ℕ) (q : Ptr) (seen : Blocks) (b : Block) (todo : Blocks)
      → b.1 < size
      → Reads
          (Found size (seen ++ b ∷ []) todo)
          h
          (first_loop stop size k q (last_addr (seen ++ b ∷ [])) h)
      → Reads (Found size seen (b ∷ todo)) h (first_loop stop size k q b.0 h)
  Found-next k q seen b todo small r = record {
    value = r.value;
    runs = rw (← last_addr-snoc seen b) r.runs;
    holds = Found-skip size seen b todo r.value small r.holds;
  }

  pub first_loop-Found :
      (k : ℕ) {cur : Ptr} (seen todo : Blocks)
      → Chain h.mem stop cur todo
      → All (Elsewhere stop) todo
      → length todo < k
      → Reads (Found size seen todo) h (first_loop stop size k cur (last_addr seen) h)
  unfolding first_loop
  first_loop-Found zero seen todo c out fuel = absurd (omega arith)
  first_loop-Found (suc k) {cur} seen [] (nil e) out fuel = record {
    value = (null, null);
    runs = rw (test_eq cur stop e);
    holds = nothing tt;
  }
  first_loop-Found (suc k) {cur} seen (b ∷ todo) (cons {q} e header c) out fuel =
      rw (e, test_ne b.0 stop out.0, load-ok b.0 h header.ne_null header.holds)
        (elim (Bool-cases (leb size header.node.size)) [
          | inl large ↦ rw large (record {
            value = (b.0, last_addr seen);
            runs = refl;
            holds =
                Found-here size seen b todo header.ne_null
                  (omega (arith, leb→le _ _ large, header.size_eq));
          })
          | inr small ↦
              rw (small, header.next_eq)
                (elim (Bool-cases (q == null)) [
                  | inl last ↦ rw last (record {
                    value = (null, null);
                    runs = refl;
                    holds = rw (Chain-null ((==_iff _ _).0 last) c) (nothing (ground arith, tt));
                  })
                  | inr more ↦ rw more (
                      Found-next k q seen b todo (ground arith)
                        (first_loop-Found k (seen ++ b ∷ []) todo c out.1 (omega arith)))
                ])
        ])

-- `carve` of a block of the free list is what a search promises.
pub carve-Fit :
    {Prefers : Blocks → Block → Blocks → Type 0} {base cap : ℕ} {h : Heap} {free used : Blocks}
    (pre post : Blocks) (a : Ptr) (s size : ℕ)
    → Layout base cap h free used
    → free ≡ pre ++ (a, s) ∷ post
    → size ≤ s
    → Prefers pre (a, s) post
    → Fit Prefers base cap h free used size (carve a (last_addr pre) size h)
carve-Fit {base} {cap} {h} {used} pre post a s size l e large prefers =
    let (h', runs, carved) = carve_lem pre post used a s size (rw e at l) large in
    rw runs (fitted pre post a s h' e large prefers carved)
