-- ===== src/Malloc/DumpRows.antt =====
-- What `DumpFreeList` prints for a heap with a known layout.
use cos.Base.{
  ℕ, zero, suc, ◌+◌, ◌-◌, ◌^◌, ◌≤◌, ◌<◌, ◌≡◌, refl, sym, ap, Bool, true, false, List, [], ◌∷◌, ◌++◌,
  arith, ltb, if◌then◌else◌, length, All, All-append_left,
}
use cos.Malloc.Memory.{
  Ptr, null, Node, Heap, Run, done, blocked, Cmd, pure, ◌>>=◌, ◌>>◌, load, sizeof_node, and_then,
  add_size,
}
use cos.Malloc.Allocator.{lock, unlock}
use cos.Malloc.Dump.{
  Row, difference, dump_loop, dump_rows, locked_dump, dump_free_list, first_row, last_row, free_row,
  gap_row,
}
use cos.Malloc.Tiling.{Block, Blocks, end_of, Inside}
use cos.Malloc.Chain.{Chain, nil, cons, Chain-ne_null}
use cos.Malloc.Layout.{Layout, load-ok}
use cos.Malloc.Insert.{Chain-start}
use cos.Malloc.Fit.{test_ne, test_eq}
use cos.Base.{ap₂}
use cos.Base.{◌∙◌}

-- A free block, as printed.
abbrev pub shown_free : ℕ → Block → Row
shown_free base b = record { address = b.0 - base; size = b.1 + sizeof_node; is_free = true }

-- The space from `x` to `y`, as printed; the size is taken on 64 bits.
abbrev pub shown_full : ℕ → (x y : ℕ) → Row
shown_full base x y = record { address = x - base; size = difference y x; is_free = false }

-- The free blocks from `b` on, each with the space up to the next one or to the end of the heap.
abbrev pub shown_from : (base cap : ℕ) → Block → Blocks → List Row
shown_from base cap b [] =
    shown_free base b
    ∷ (if ltb (end_of b) (base + cap) then shown_full base (end_of b) (base + cap) ∷ [] else [])
shown_from base cap b (c ∷ free) =
    shown_free base b ∷ shown_full base (end_of b) c.0 ∷ shown_from base cap c free

-- The whole heap.
abbrev pub shown : (base cap : ℕ) → Blocks → List Row
shown base cap [] = shown_full base base (base + cap) ∷ []
shown base cap (b ∷ free) =
    (if ltb base b.0 then shown_full base base b.0 ∷ [] else []) ++ shown_from base cap b free

module _ (base cap : ℕ) (h : Heap) (fits : base + cap < 2 ^ 64) where
  free_row-shown :
      (b : Block) (n : Node)
      → Inside base cap b
      → n.size ≡ b.1
      → free_row base b.0 n ≡ shown_free base b
  free_row-shown b n inside e =
      let start : difference b.0 base ≡ b.0 - base = omega (arith, inside.0, inside.1, fits) in
      let room : add_size b.1 sizeof_node ≡ b.1 + sizeof_node =
        omega (arith, inside.0, inside.1, fits) in
      rw (start, e, room) refl

  gap_row-shown :
      (b : Block) (q : Ptr) (n : Node)
      → Inside base cap b
      → n.size ≡ b.1
      → n.next ≡ q
      → gap_row base b.0 n ≡ shown_full base (end_of b) q
  gap_row-shown b q n inside e next =
      let stop : b.0 + b.1 + sizeof_node ≡ end_of b = omega arith in
      let start : difference (end_of b) base ≡ end_of b - base =
        omega (arith, inside.0, inside.1, fits) in
      rw (e, next, stop, start) refl

  last_row-shown :
      (b : Block) (n : Node)
      → Inside base cap b
      → n.size ≡ b.1
      → last_row base cap b.0 n
        ≡ (if ltb (end_of b) (base + cap) then shown_full base (end_of b) (base + cap) ∷ [] else [])
  last_row-shown b n inside e =
      let stop : b.0 + b.1 + sizeof_node ≡ end_of b = omega arith in
      let start : add_size (difference (b.0 + b.1) base) sizeof_node ≡ end_of b - base =
        omega (arith, inside.0, inside.1, fits) in
      let rest : difference cap (add_size (add_size (difference b.0 base) b.1) sizeof_node)
          ≡ difference (base + cap) (end_of b) =
        omega (arith, inside.0, inside.1, fits) in
      rw (e, stop, start, rest) refl

  -- What the loop leaves to print.
  record Printed (b : Block) (free : Blocks) (r : Run (Ptr × List Row)) : Type 0 where
    last : Ptr
    node : Node
    rows : List Row
    runs : r ≡ done (last, rows) h
    reads : load last h ≡ done node h
    all_rows :
        rows ++ free_row base last node ∷ last_row base cap last node ≡ shown_from base cap b free

  dump_loop-Printed :
      (k : ℕ) {cur : Ptr} (b : Block) (free : Blocks)
      → Chain h.mem null cur (b ∷ free)
      → All (Inside base cap) (b ∷ free)
      → length (b ∷ free) ≤ k
      → Printed b free (dump_loop k base cur h)
  unfolding dump_loop
  dump_loop-Printed zero b free c inside enough = absurd (omega arith)
  dump_loop-Printed (suc k) b [] (cons {q} e header (nil z)) inside enough = record {
    last = b.0;
    node = header.node;
    rows = [];
    runs = rw (e, load-ok b.0 h header.ne_null header.holds, header.next_eq, test_eq q null z) refl;
    reads = load-ok b.0 h header.ne_null header.holds;
    all_rows =
        ap₂ (λ (x : Row) (xs : List Row). x ∷ xs)
          (free_row-shown b header.node inside.0 header.size_eq)
          (last_row-shown b header.node inside.0 header.size_eq);
  }
  dump_loop-Printed (suc k) b (d ∷ free) (cons {q} e header c) inside enough =
      let r = dump_loop-Printed k d free c inside.1 (omega arith) in
      let next : header.node.next ≡ d.0 = header.next_eq ∙ Chain-start c in
      record {
        last = r.last;
        node = r.node;
        rows = free_row base b.0 header.node ∷ gap_row base b.0 header.node ∷ r.rows;
        runs =
            rw
              (
                e,
                load-ok b.0 h header.ne_null header.holds,
                test_ne header.node.next null (λ z. Chain-ne_null c (sym header.next_eq ∙ z)),
                ap rest header.next_eq,
                r.runs,
              )
              refl;
        reads = r.reads;
        all_rows =
            ap₂ (λ (x : Row) (xs : List Row). x ∷ xs)
              (free_row-shown b header.node inside.0 header.size_eq)
              (ap₂ (λ (x : Row) (xs : List Row). x ∷ xs)
                (gap_row-shown b d.0 header.node inside.0 header.size_eq next) r.all_rows);
      }
    where
      rest : Ptr → Run (Ptr × List Row)
      rest x =
          and_then (dump_loop k base x h)
            (λ v. pure (v.0, free_row base b.0 header.node ∷ gap_row base b.0 header.node ∷ v.1))

first_row-shown :
    (base head : Ptr) (x : ℕ)
    → head ≡ x
    → first_row base head ≡ (if ltb base x then shown_full base base x ∷ [] else [])
first_row-shown base head x e =
    let none_before : base - base ≡ 0 = omega arith in rw (none_before, e) refl

dump_rows-shown :
    (fuel : ℕ) (h : Heap) (free : Blocks)
    → h.base + h.capacity < 2 ^ 64
    → Chain h.mem null h.head free
    → All (Inside h.base h.capacity) free
    → length free ≤ fuel
    → dump_rows fuel h ≡ done (shown h.base h.capacity free) h
unfolding dump_rows
dump_rows-shown fuel h [] fits chain inside enough =
    let none_before : h.base - h.base ≡ 0 = omega arith in
    let whole : difference (h.base + h.capacity) h.base ≡ h.capacity = omega (arith, fits) in
    rw (test_eq h.head null (Chain-start chain), none_before, whole) refl
dump_rows-shown fuel h (x ∷ free) fits chain inside enough =
    let r = dump_loop-Printed h.base h.capacity h fits fuel x free chain inside enough in
    rw (test_ne h.head null (Chain-ne_null chain), r.runs, r.reads)
      (ap done_with (
        ap₂ (λ (xs ys : List Row). xs ++ ys) (first_row-shown h.base h.head x.0 (Chain-start chain))
          r.all_rows))
  where
    done_with : List Row → Run (List Row)
    done_with rows = done rows h

-- `DumpFreeList` on a heap that is laid out properly, with the mutex free and a round of fuel for
-- each free block, prints the free blocks in the order of the list, each with the space up to the
-- next one; before them the space up to the first, and behind them the space up to the end of the
-- heap, where there is any; and with no free block one row for the whole heap. It changes nothing,
-- and the mutex is free again.
pub dump_free_list-shown :
    (fuel : ℕ) (h : Heap) (free used : Blocks)
    → Layout h.base h.capacity h free used
    → h.locked ≡ false
    → length free ≤ fuel
    → dump_free_list fuel h ≡ done (shown h.base h.capacity free) h
unfolding dump_free_list locked_dump lock unlock
dump_free_list-shown fuel h free used l unlocked enough =
    let held = record h { locked = true } in
    rw
      (
        test_ne h.base null (omega (arith, l.base_pos)),
        ap (λ (x : Bool). and_then (if x then blocked else done tt held) after) unlocked,
        dump_rows-shown fuel held free l.fits l.chain
            (All-append_left (Inside h.base h.capacity) free used l.tiles.inside) enough,
      )
      (ap back_to (sym unlocked))
  where
    after : Unit {0} → Cmd (List Row)
    after u = dump_rows fuel >>= λ rows. unlock >> pure rows

    back_to : Bool → Run (List Row)
    back_to x = done (shown h.base h.capacity free) (record h { locked = x })
