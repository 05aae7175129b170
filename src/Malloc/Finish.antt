-- ===== src/Malloc/Finish.antt =====
-- The last three steps of a search of Malloc.FreeList, from the heap before `link`.
use cos.Base.{
  ℕ, ◌+◌, ◌<◌, ◌^◌, ◌≡◌, refl, ◌∙◌, ◌≢◌, some, ◌∷◌, ◌++◌, append_assoc, All, All-append_left,
  All-append_right,
}
use cos.Malloc.Memory.{Ptr, null, Node, Memory, modify, Heap, magic_number, sizeof_node, done, ◌>>◌}
use cos.Malloc.FreeList.{link, move_rover, split, carve}
use cos.Malloc.Tiling.{Blocks, AllApart, Tiles, Tiles-from_front}
use cos.Malloc.Chain.{Chain, last_addr, Elsewhere, Apart-Elsewhere, modify_self}
use cos.Malloc.Layout.{
  Layout, InUse, Mapped, Mapped-modify, AgreeOn, AgreeOn-modify, AgreeOn-trans, Chain-agree,
  All-InUse-agree, SameGlobals, update-ok,
}
use cos.Malloc.Relink.{attached, Attached, attached-Attached, link-move_rover, AllApart-prefix}

-- What `carve` leaves behind.
pub record Carved (base cap : ℕ) (h h' : Heap) (free used : Blocks) : Type 0 where
  pub layout : Layout base cap h' free used
  pub globals : SameGlobals h h'

-- `magicNumber` and `isFreed` of the block that is handed out.
abbrev marked : Node → Node
marked n = record n { magic = magic_number; is_freed = 0 }

-- The heap after the last writes of a search, from the heap before `link`.
abbrev pub finished : Heap → Blocks → Ptr → Ptr → Heap
finished h pre p a = let h' = attached h pre p in record h' { mem = modify h'.mem a marked }

module _ (base cap : ℕ) (h : Heap) (pre back used : Blocks) (p a : Ptr) (s : ℕ) where
  -- From the heap before `link`: `a` is out of the list, `back` follows from `p`.
  pub finish-Carved :
      {stop : Ptr} {n : Node}
      → 0 < base
      → base + cap < 2 ^ 64
      → Mapped base cap h.mem
      → Tiles base cap ((a, s) ∷ pre ++ (back ++ used))
      → Chain h.mem stop h.head pre
      → Chain h.mem null p back
      → All (InUse h.mem) used
      → h.mem a ≡ some n
      → n.size ≡ s
      → Carved base cap h (finished h pre p a) (pre ++ back) ((a, s) ∷ used)
  finish-Carved {n} pos fits mapped tiles c d held is size_eq = record {
    layout = record {
      base_pos = pos;
      fits = fits;
      mapped = Mapped-modify base cap h'.mem a marked (link.mapped base cap mapped);
      chain = Chain-agree (AgreeOn-modify h'.mem a marked (pre ++ back) out_free) link.chain;
      tiles = Tiles-from_front (a, s) (pre ++ back) used (rw (append_assoc pre back used) tiles);
      held = (
        record {
          node = marked n;
          holds = modify_self h'.mem a marked {n = n} (agree.0 ∙ is);
          size_eq = size_eq;
          magic_eq = refl;
          freed_eq = refl;
        },
        All-InUse-agree h.mem _ used
            (AgreeOn-trans h.mem h'.mem _ used (All-append_right _ back used agree.1)
              (AgreeOn-modify h'.mem a marked used out_used))
            held,
      );
      rover = link.rover;
    };
    globals = record {
      base_eq = link.globals.base_eq;
      capacity_eq = link.globals.capacity_eq;
      locked_eq = link.globals.locked_eq;
    };
  }
    where
      h' : Heap
      h' = attached h pre p

      apart : AllApart (pre ++ (back ++ used))
      apart = tiles.apart.1

      out : All (Elsewhere a) (pre ++ (back ++ used))
      out = Apart-Elsewhere (a, s) (pre ++ (back ++ used)) tiles.apart.0

      out_free : All (Elsewhere a) (pre ++ back)
      out_free =
          All-append_left (Elsewhere a) (pre ++ back) used (rw (append_assoc pre back used) out)

      out_used : All (Elsewhere a) used
      out_used =
          All-append_right (Elsewhere a) (pre ++ back) used (rw (append_assoc pre back used) out)

      link : Attached h h' pre back
      link =
          attached-Attached h pre back p
            (AllApart-prefix (pre ++ back) used (rw (append_assoc pre back used) apart)) c d

      agree : AgreeOn h.mem h'.mem ((a, s) ∷ back ++ used)
      agree = link.agree _ (Tiles-from_front (a, s) pre (back ++ used) tiles).apart

-- The memory before `link` is no global.
pub SameGlobals-mem :
    {base cap : ℕ} {h h' : Heap} {free used : Blocks} (m : Memory)
    → Carved base cap (record h { mem = m }) h' free used
    → Carved base cap h h' free used
SameGlobals-mem m c = record {
  layout = c.layout;
  globals = record {
    base_eq = c.globals.base_eq;
    capacity_eq = c.globals.capacity_eq;
    locked_eq = c.globals.locked_eq;
  };
}

-- The last three steps of a search, from the heap before `link`.
pub carve-finished :
    (h g : Heap) (pre : Blocks) {stop : Ptr} (p a size : ℕ) (n : Node)
    → split a (last_addr pre) size h ≡ (link (last_addr pre) p >> move_rover p) g
    → Chain g.mem stop g.head pre
    → a ≢ null
    → (attached g pre p).mem a ≡ some n
    → carve a (last_addr pre) size h ≡ done (a + sizeof_node) (finished g pre p a)
unfolding carve
carve-finished h g pre p a size n e c ne is =
    rw (e, link-move_rover g pre p c, update-ok a marked (attached g pre p) ne is)
