-- ===== src/Malloc/Carve.antt =====
-- `split` and `carve` of Malloc.FreeList on a heap with a known layout: the chosen block leaves the
-- free list, its unused end comes back as a free block if it has room for a header, and nothing
-- else moves.
use cos.Base.{
  if◌then◌else◌, inl, inr, ltb→lt, not_ltb→le, Bool-cases, ℕ, ◌+◌, ◌-◌, ◌≤◌, ◌<◌, ◌≡◌, refl, ◌∙◌,
  ◌≢◌, true, false, some, ◌∷◌, ◌++◌, append_assoc, arith, All-append_left, All-append_right, ltb,
  lt→ltb, le→not_ltb,
}
use cos.Malloc.Memory.{Ptr, null, Node, Memory, modify, Heap, sizeof_node, add_size, done, ◌>>◌}
use cos.Malloc.FreeList.{link, move_rover, split_off, take_whole, split, carve}
use cos.Malloc.Tiling.{Blocks, Tiles, Tiles-to_front, Tiles-from_front, Tiles-split}
use cos.Malloc.Chain.{
  Header, Chain, cons, Chain-split, last_addr, Apart-Elsewhere, modify_ne, modify_self,
}
use cos.Malloc.Layout.{
  Layout, Mapped-modify, AgreeOn, AgreeOn-modify, AgreeOn-trans, Chain-agree, All-InUse-agree,
  load-ok, update-ok, set_size-ok,
}
use cos.Malloc.Relink.{AgreeOn-relinked}
use cos.Base.{[]}
use cos.Malloc.Finish.{SameGlobals-mem, carve-finished, finish-Carved, finished}
pub use cos.Malloc.Finish.{Carved}

module _ {base cap : ℕ} {h : Heap} (pre post used : Blocks) (a : Ptr) (s size : ℕ)
    (l : Layout base cap h (pre ++ (a, s) ∷ post) used) where
  Tiles-chosen : Tiles base cap ((a, s) ∷ pre ++ (post ++ used))
  Tiles-chosen =
      Tiles-to_front (a, s) pre (post ++ used)
        (rw (← append_assoc pre ((a, s) ∷ post) used) l.tiles)

  chain_parts :
      Chain h.mem a h.head pre × ((q : Ptr) × Header h.mem a s q × Chain h.mem null q post)
  chain_parts = Chain-split pre l.chain

  no_wrap : size ≤ s → add_size size sizeof_node ≡ size + sizeof_node
  no_wrap fits = omega (arith, Tiles-chosen.inside.0, l.fits)

  split-whole :
      {q : Ptr} (header : Header h.mem a s q)
      → s ≤ size + sizeof_node
      → size ≤ s
      → split a (last_addr pre) size h ≡ (link (last_addr pre) q >> move_rover q) h
  unfolding split take_whole
  split-whole header tight fits =
      let small : ltb (add_size size sizeof_node) header.node.size ≡ false =
        le→not_ltb _ _ (omega (arith, no_wrap fits, header.size_eq)) in
      rw (load-ok a h header.ne_null header.holds, small, header.next_eq)

  -- `carve` of a block without room for another header.
  carve-whole :
      s ≤ size + sizeof_node
      → size ≤ s
      → (h' : Heap) × (carve a (last_addr pre) size h ≡ done (a + sizeof_node) h')
        × Carved base cap h h' (pre ++ post) ((a, s) ∷ used)
  carve-whole tight fits =
      let (front, (q, header, back)) = chain_parts in
      let apart = (Tiles-from_front (a, s) pre (post ++ used) Tiles-chosen).apart in
      (
        finished h pre q a,
        carve-finished h h pre q a size header.node (split-whole header tight fits) front
            header.ne_null
            ((AgreeOn-relinked q h pre ((a, s) ∷ post ++ used) apart).0 ∙ header.holds),
        finish-Carved base cap h pre post used q a s l.base_pos l.fits l.mapped Tiles-chosen front
            back l.held header.holds header.size_eq,
      )

  -- The address of the free block that is split off.
  abbrev rest : Ptr
  rest = a + sizeof_node + size

  room-Tiles :
      size + sizeof_node < s
      → Tiles base cap ((rest, s - size - sizeof_node) ∷ (a, size) ∷ pre ++ (post ++ used))
  room-Tiles room = Tiles-split a s size (pre ++ (post ++ used)) room Tiles-chosen

  -- The writes of `split_off` before `link`.
  abbrev off_mem : Node → Memory
  off_mem n =
      modify
        (modify h.mem rest (λ r. record r { size = n.size - size - sizeof_node; next = n.next })) a
        (λ r. record r { size = size })

  rest-fits :
      size + sizeof_node < s → (base ≤ rest) × (rest + sizeof_node ≤ base + cap) × (a ≢ rest)
  rest-fits room = omega (arith, (room-Tiles room).inside.0)

  rest_node : size + sizeof_node < s → (n : Node) × (h.mem rest ≡ some n)
  rest_node room = let f = rest-fits room in l.mapped rest f.0 f.1

  a_in_between :
      {q : Ptr} (header : Header h.mem a s q) (f : Node → Node)
      → size + sizeof_node < s
      → modify h.mem rest f a ≡ some header.node
  a_in_between header f room = modify_ne h.mem rest a f (rest-fits room).2 ∙ header.holds

  split-off :
      {q : Ptr} (header : Header h.mem a s q)
      → size + sizeof_node < s
      → split a (last_addr pre) size h
        ≡ (link (last_addr pre) rest >> move_rover rest) (record h { mem = off_mem header.node })
  unfolding split split_off
  split-off header room =
      let large : ltb (add_size size sizeof_node) header.node.size ≡ true =
        lt→ltb _ _ (omega (arith, no_wrap (omega arith), header.size_eq)) in
      rw (
        load-ok a h header.ne_null header.holds,
        large,
        update-ok rest _ h (omega (arith, rest-fits room, l.base_pos)) (rest_node room).1,
        set_size-ok a size (record h { mem = modify h.mem rest _ }) header.ne_null
            (a_in_between header _ room),
      )

  AgreeOn-off :
      (n : Node) → size + sizeof_node < s → AgreeOn h.mem (off_mem n) (pre ++ (post ++ used))
  AgreeOn-off n room =
      let t = (room-Tiles room).apart in
      AgreeOn-trans h.mem _ _ (pre ++ (post ++ used))
        (AgreeOn-modify h.mem rest _ _ (Apart-Elsewhere _ (pre ++ (post ++ used)) t.0.1))
        (AgreeOn-modify _ a _ _ (Apart-Elsewhere _ (pre ++ (post ++ used)) t.1.0))

  -- The header of the free block that is split off.
  Header-rest :
      {q : Ptr} (header : Header h.mem a s q)
      → size + sizeof_node < s
      → Header (off_mem header.node) rest (s - size - sizeof_node) q
  Header-rest header room = record {
    ne_null = omega (arith, rest-fits room, l.base_pos);
    node = _;
    holds =
        modify_ne _ a rest _ (omega (arith, rest-fits room))
        ∙ modify_self h.mem rest _ (rest_node room).1;
    size_eq = omega (arith, header.size_eq);
    next_eq = header.next_eq;
  }

  -- `carve` of a block with room for another header.
  carve-off :
      size + sizeof_node < s
      → (h' : Heap) × (carve a (last_addr pre) size h ≡ done (a + sizeof_node) h')
        × Carved base cap h h' (pre ++ (rest, s - size - sizeof_node) ∷ post) ((a, size) ∷ used)
  carve-off room =
      let (front, (q, header, back)) = chain_parts in
      let g = record h { mem = off_mem header.node } in
      let agree = AgreeOn-off header.node room in
      let agree_back = All-append_right _ pre (post ++ used) agree in
      let tiles =
        Tiles-from_front (rest, s - size - sizeof_node) ((a, size) ∷ pre) (post ++ used)
          (room-Tiles room) in
      let back' = (rest, s - size - sizeof_node) ∷ post in
      let front' = Chain-agree (All-append_left _ pre (post ++ used) agree) front in
      let apart = (Tiles-from_front (a, size) pre (back' ++ used) tiles).apart in
      let a_holds = modify_self _ a _ (a_in_between header _ room) in
      (
        finished g pre rest a,
        carve-finished h g pre rest a size _ (split-off header room) front' header.ne_null
            ((AgreeOn-relinked rest g pre ((a, size) ∷ back' ++ used) apart).0 ∙ a_holds),
        SameGlobals-mem (off_mem header.node) (
            finish-Carved base cap g pre back' used rest a size l.base_pos l.fits
              (Mapped-modify base cap _ a _ (Mapped-modify base cap h.mem rest _ l.mapped)) tiles
              front'
              (cons refl (Header-rest header room)
                (Chain-agree (All-append_left _ post used agree_back) back))
              (All-InUse-agree h.mem _ used (All-append_right _ post used agree_back) l.held)
              a_holds refl),
      )

-- The size that the chosen block keeps, and what of it comes back to the free list.
abbrev pub given : ℕ → ℕ → ℕ
given size s = if ltb (size + sizeof_node) s then size else s

abbrev pub leftover : Ptr → ℕ → ℕ → Blocks
leftover a size s =
    if ltb (size + sizeof_node) s then (a + sizeof_node + size, s - size - sizeof_node) ∷ [] else []

-- On a heap that is laid out properly, `carve` of a free block that is large enough succeeds: the
-- block leaves the free list and is in use, its end behind the asked bytes is a free block in its
-- place if it has room for more than a header, and the heap is laid out properly.
pub carve_lem :
    {base cap : ℕ} {h : Heap} (pre post used : Blocks) (a : Ptr) (s size : ℕ)
    → Layout base cap h (pre ++ (a, s) ∷ post) used
    → size ≤ s
    → (h' : Heap) × (carve a (last_addr pre) size h ≡ done (a + sizeof_node) h')
      × Carved base cap h h' (pre ++ (leftover a size s ++ post)) ((a, given size s) ∷ used)
carve_lem pre post used a s size l fits = elim (Bool-cases (ltb (size + sizeof_node) s)) [
  | inl room ↦ rw room (carve-off pre post used a s size l (ltb→lt _ _ room))
  | inr tight ↦ rw tight (carve-whole pre post used a s size l (not_ltb→le _ _ tight) fits)
]
