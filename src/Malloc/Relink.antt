-- ===== src/Malloc/Relink.antt =====
-- `link` of Malloc.FreeList: the end of a front part of the free list redirected.
use cos.Base.{
  ℕ, ◌≡◌, refl, false, ◌≢◌, some, [], ◌∷◌, ◌++◌, arith, All, All-append_left, ◌==◌, if◌then◌else◌,
}
use cos.Malloc.Memory.{
  Ptr, null, Node, Memory, modify, Heap, done, set_next_free, ◌>>◌, set_next, set_head,
}
use cos.Malloc.FreeList.{link, move_rover}
use cos.Malloc.Tiling.{Block, Blocks, Apart, AllApart}
use cos.Malloc.Chain.{
  Chain, nil, cons, Chain-append, Chain-redirect, last_addr, Elsewhere, Apart-Elsewhere,
}
use cos.Malloc.Layout.{
  Rover, unset, at, Chain-agree, SameGlobals, Mapped, Mapped-modify, AgreeOn, AgreeOn-refl,
  AgreeOn-modify, update-ok, set_next-ok,
}

-- The heap after `link (last_addr pre) p`.
abbrev pub relinked : Heap → Blocks → Ptr → Heap
relinked h [] p = record h { head = p }
relinked h (b ∷ bs) p = record h {
  mem = modify h.mem (last_addr (b ∷ bs)) (λ n. record n { next = p });
}

-- What the last block of a chain looks like.
record LastHeader (m : Memory) (bs : Blocks) : Type 0 where
  ne_null : last_addr bs ≢ null
  node : Node
  holds : m (last_addr bs) ≡ some node

LastHeader-of :
    {m : Memory} {stop p : Ptr} (b : Block) (bs : Blocks)
    → Chain m stop p (b ∷ bs)
    → LastHeader m (b ∷ bs)
LastHeader-of b [] (cons e h c) = record { ne_null = h.ne_null; node = h.node; holds = h.holds }
LastHeader-of b (b' ∷ bs) (cons e h c) =
    let r = LastHeader-of b' bs c in record { ne_null = r.ne_null; node = r.node; holds = r.holds }

pub AllApart-prefix : (xs ys : Blocks) → AllApart (xs ++ ys) → AllApart xs
AllApart-prefix [] ys h = tt
AllApart-prefix (x ∷ xs) ys h = (All-append_left (Apart x) xs ys h.0, AllApart-prefix xs ys h.1)

-- A chain whose blocks share no byte never meets its last header again behind it.
AllApart-last :
    (b : Block) (bs ys : Blocks)
    → AllApart ((b ∷ bs) ++ ys)
    → All (Elsewhere (last_addr (b ∷ bs))) ys
AllApart-last b [] ys h = Apart-Elsewhere b ys h.0
AllApart-last b (b' ∷ bs) ys h = AllApart-last b' bs ys h.1

module _ (p : Ptr) {stop : Ptr} (h : Heap) where
  pub link-relinked :
      (pre : Blocks)
      → Chain h.mem stop h.head pre
      → link (last_addr pre) p h ≡ done tt (relinked h pre p)
  unfolding link set_head set_next
  link-relinked [] c = refl
  link-relinked (b ∷ bs) c =
      let r = LastHeader-of b bs c in
      ground (
        arith,
        r.ne_null,
        update-ok (last_addr (b ∷ bs)) (λ n. record n { next = p }) h r.ne_null r.holds,
      )

  pub set_next-relinked :
      (b : Block) (bs : Blocks)
      → Chain h.mem stop h.head (b ∷ bs)
      → set_next (last_addr (b ∷ bs)) p h ≡ done tt (relinked h (b ∷ bs) p)
  set_next-relinked b bs c =
      let r = LastHeader-of b bs c in set_next-ok (last_addr (b ∷ bs)) p h r.ne_null r.holds

  pub Chain-relinked :
      (pre : Blocks)
      → AllApart pre
      → Chain h.mem stop h.head pre
      → Chain (relinked h pre p).mem p (relinked h pre p).head pre
  Chain-relinked [] apart c = nil refl
  Chain-relinked (b ∷ bs) apart c = Chain-redirect p b bs apart c

module _ (p : Ptr) (h : Heap) where
  pub AgreeOn-relinked :
      (pre ys : Blocks) → AllApart (pre ++ ys) → AgreeOn h.mem (relinked h pre p).mem ys
  AgreeOn-relinked [] ys apart = AgreeOn-refl h.mem ys
  AgreeOn-relinked (b ∷ bs) ys apart =
      AgreeOn-modify h.mem (last_addr (b ∷ bs)) _ ys (AllApart-last b bs ys apart)

  pub Mapped-relinked :
      (pre : Blocks) (base cap : ℕ) → Mapped base cap h.mem → Mapped base cap (relinked h pre p).mem
  Mapped-relinked [] base cap k = k
  Mapped-relinked (b ∷ bs) base cap k = Mapped-modify base cap h.mem (last_addr (b ∷ bs)) _ k

-- The heap after `link (last_addr pre) p` and `move_rover p`.
abbrev pub attached : Heap → Blocks → Ptr → Heap
attached h pre p =
    let h' = relinked h pre p in record h' { next_free = if p == null then h'.head else p }

pub record Attached (h h' : Heap) (pre back : Blocks) : Type 0 where
  pub chain : Chain h'.mem null h'.head (pre ++ back)
  pub rover : Rover (pre ++ back) h'.next_free
  pub agree : (ys : Blocks) → AllApart (pre ++ ys) → AgreeOn h.mem h'.mem ys
  pub mapped : (base cap : ℕ) → Mapped base cap h.mem → Mapped base cap h'.mem
  pub globals : SameGlobals h h'

SameGlobals-attached : (h : Heap) (pre : Blocks) (p : Ptr) → SameGlobals h (attached h pre p)
SameGlobals-attached h [] p = ground arith
SameGlobals-attached h (b ∷ bs) p = ground arith

-- The rover ends on the block behind the link, or on the first block.
Rover-attached :
    (h : Heap) (pre : Blocks) {stop : Ptr} {back : Blocks} (p : Ptr)
    → Chain h.mem stop h.head pre
    → Chain h.mem null p back
    → Rover (pre ++ back) (attached h pre p).next_free
Rover-attached h [] p c (nil e) = unset (ground arith)
Rover-attached h (b ∷ bs) p (cons e k c) (nil e') = at [] b (bs ++ []) refl (ground arith)
Rover-attached h pre p c (cons {b} {bs} e k d) =
    at pre b bs refl (rw (ne_null-test p (rw e k.ne_null)) e)
  where
    ne_null-test : (x : Ptr) → x ≢ null → (x == null) ≡ false
    ne_null-test x ne = ground arith

pub attached-Attached :
    (h : Heap) {stop : Ptr} (pre back : Blocks) (p : Ptr)
    → AllApart (pre ++ back)
    → Chain h.mem stop h.head pre
    → Chain h.mem null p back
    → Attached h (attached h pre p) pre back
attached-Attached h pre back p apart c d = record {
  chain =
      Chain-append (Chain-relinked p h pre (AllApart-prefix pre back apart) c)
        (Chain-agree (AgreeOn-relinked p h pre back apart) d);
  rover = Rover-attached h pre p c d;
  agree = AgreeOn-relinked p h pre;
  mapped = Mapped-relinked p h pre;
  globals = SameGlobals-attached h pre p;
}

pub link-move_rover :
    (h : Heap) {stop : Ptr} (pre : Blocks) (p : Ptr)
    → Chain h.mem stop h.head pre
    → (link (last_addr pre) p >> move_rover p) h ≡ done tt (attached h pre p)
unfolding move_rover set_next_free
link-move_rover h pre p c = rw (link-relinked p h pre c) (ground arith)
