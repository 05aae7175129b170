-- ===== src/Malloc/Chain.antt =====
-- A free list in memory: the blocks met from a pointer along `next`, and what a change of one
-- header does to it.
use cos.Base.{ℕ, ◌≡◌, refl, ◌≢◌, some, [], ◌∷◌, ◌++◌, arith, All}
use cos.Malloc.Memory.{Ptr, null, Node, Memory, modify}
use cos.Malloc.Tiling.{Block, Blocks, Apart, AllApart}

-- At `a` stands the header of a block of `s` bytes whose `next` is `q`.
pub record Header (m : Memory) (a : Ptr) (s : ℕ) (q : Ptr) : Type 0 where
  pub ne_null : a ≢ null
  pub node : Node
  pub holds : m a ≡ some node
  pub size_eq : node.size ≡ s
  pub next_eq : node.next ≡ q

-- From `p` the `next` pointers lead through the blocks of the list, in order, to `stop`.
pub data Chain (m : Memory) (stop : Ptr) : Ptr → Blocks → Type 0 where
  nil : {p : Ptr} → p ≡ stop → Chain m stop p []
  cons :
      {p q : Ptr} {b : Block} {bs : Blocks}
      → p ≡ b.0
      → Header m b.0 b.1 q
      → Chain m stop q bs
      → Chain m stop p (b ∷ bs)

-- The address of the last block, NULL if there is none.
abbrev pub last_addr : Blocks → Ptr
last_addr [] = null
last_addr (b ∷ []) = b.0
last_addr (b ∷ c ∷ bs) = last_addr (c ∷ bs)

-- The block does not begin at `x`.
abbrev pub Elsewhere : Ptr → Block → Type 0
Elsewhere x b = b.0 ≢ x

pub Apart-Elsewhere : (x : Block) (bs : Blocks) → All (Apart x) bs → All (Elsewhere x.0) bs
Apart-Elsewhere x [] h = tt
Apart-Elsewhere x (b ∷ bs) h = (omega (arith, h.0), Apart-Elsewhere x bs h.1)

pub modify_ne : (m : Memory) (x a : Ptr) (f : Node → Node) → a ≢ x → modify m x f a ≡ m a
unfolding modify
modify_ne m x a f h = ground arith

pub modify_self :
    (m : Memory) (a : Ptr) (f : Node → Node) {n : Node} → m a ≡ some n → modify m a f a ≡ some (f n)
unfolding modify
modify_self m a f h = ground arith

last-Elsewhere : (b d : Block) (ds : Blocks) → All (Apart b) (d ∷ ds) → b.0 ≢ last_addr (d ∷ ds)
last-Elsewhere b d [] h = omega (arith, h.0)
last-Elsewhere b d (d' ∷ ds) h = last-Elsewhere b d' ds h.1

module _ {m : Memory} where
  pub Header-modify_ne :
      {a : Ptr} {s : ℕ} {q : Ptr} (x : Ptr) (f : Node → Node)
      → Header m a s q
      → a ≢ x
      → Header (modify m x f) a s q
  Header-modify_ne {a} x f h ne = record {
    ne_null = h.ne_null;
    node = h.node;
    holds = rw (modify_ne m x a f ne) h.holds;
    size_eq = h.size_eq;
    next_eq = h.next_eq;
  }

  pub Header-set_next :
      {a : Ptr} {s : ℕ} {q : Ptr} (q' : Ptr)
      → Header m a s q
      → Header (modify m a (λ n. record n { next = q' })) a s q'
  Header-set_next {a} q' h = record {
    ne_null = h.ne_null;
    node = record h.node { next = q' };
    holds = modify_self m a _ h.holds;
    size_eq = h.size_eq;
    next_eq = refl;
  }

  pub Header-set_size :
      {a : Ptr} {s : ℕ} {q : Ptr} (s' : ℕ)
      → Header m a s q
      → Header (modify m a (λ n. record n { size = s' })) a s' q
  Header-set_size {a} s' h = record {
    ne_null = h.ne_null;
    node = record h.node { size = s' };
    holds = modify_self m a _ h.holds;
    size_eq = refl;
    next_eq = h.next_eq;
  }

  pub Chain-modify :
      {stop p : Ptr} {bs : Blocks} (x : Ptr) (f : Node → Node)
      → All (Elsewhere x) bs
      → Chain m stop p bs
      → Chain (modify m x f) stop p bs
  Chain-modify x f out (nil e) = nil e
  Chain-modify x f out (cons e h c) =
      cons e (Header-modify_ne x f h out.0) (Chain-modify x f out.1 c)

  pub Chain-append :
      {stop mid p : Ptr} {xs ys : Blocks}
      → Chain m mid p xs
      → Chain m stop mid ys
      → Chain m stop p (xs ++ ys)
  Chain-append (nil e) d = rw e d
  Chain-append (cons e h c) d = cons e h (Chain-append c d)

  pub Chain-nil : {stop p : Ptr} → Chain m stop p [] → p ≡ stop
  Chain-nil (nil e) = e

  -- The parts of a chain that is not empty.
  pub Chain-cons :
      {stop p : Ptr} {b : Block} {bs : Blocks}
      → Chain m stop p (b ∷ bs)
      → (p ≡ b.0) × ((q : Ptr) × Header m b.0 b.1 q × Chain m stop q bs)
  Chain-cons (cons {q} e h c) = (e, (q, h, c))

  -- A chain through a block splits there.
  pub Chain-split :
      {stop p : Ptr} (xs : Blocks) {b : Block} {ys : Blocks}
      → Chain m stop p (xs ++ b ∷ ys)
      → Chain m b.0 p xs × ((q : Ptr) × Header m b.0 b.1 q × Chain m stop q ys)
  Chain-split [] (cons {q} e h c) = (nil e, (q, h, c))
  Chain-split (x ∷ xs) (cons e h c) = let r = Chain-split xs c in (cons e h r.0, r.1)

  -- The last `next` of a chain redirected.
  pub Chain-redirect :
      {stop p : Ptr} (stop' : Ptr) (b : Block) (bs : Blocks)
      → AllApart (b ∷ bs)
      → Chain m stop p (b ∷ bs)
      → Chain (modify m (last_addr (b ∷ bs)) (λ n. record n { next = stop' })) stop' p (b ∷ bs)
  Chain-redirect stop' b [] apart (cons e h c) = cons e (Header-set_next stop' h) (nil refl)
  Chain-redirect stop' b (b' ∷ bs) apart (cons e h c) =
      cons e (Header-modify_ne (last_addr (b' ∷ bs)) _ h (last-Elsewhere b b' bs apart.0))
        (Chain-redirect stop' b' bs apart.1 c)

  pub Chain-ne_null : {stop p : Ptr} {b : Block} {bs : Blocks} → Chain m stop p (b ∷ bs) → p ≢ null
  Chain-ne_null (cons e h c) = omega (arith, h.ne_null)
