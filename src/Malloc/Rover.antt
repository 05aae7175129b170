-- ===== src/Malloc/Rover.antt =====
-- `nextFreeBlock` across a free: `fix_rover` of Malloc.Allocator, and membership by address.
use cos.Base.{
  ℕ, ◌≡◌, refl, ◌≢◌, ◌⊎◌, inl, inr, Bool, true, false, ◌||◌, not, some, [], ◌∷◌, ◌++◌, arith, ◌==◌,
  Bool-cases, if◌then◌else◌,
}
use cos.Malloc.Memory.{Ptr, null, Node, Heap, done, fault, load, set_next_free}
use cos.Malloc.Allocator.{fix_rover}
use cos.Malloc.Tiling.{Blocks}
use cos.Malloc.Layout.{Layout, Rover, unset, at, load-ok}
use cos.Malloc.Insert.{Linked}

-- Some block begins at `p`.
abbrev pub has : Ptr → Blocks → Bool
has p [] = false
has p (b ∷ bs) = (b.0 == p) || has p bs

pub has-append : (p : Ptr) (xs ys : Blocks) → has p (xs ++ ys) ≡ (has p xs || has p ys)
has-append p [] ys = refl
has-append p (x ∷ xs) ys = ground (arith, has-append p xs ys)

pub Rover-has : {free : Blocks} {p : Ptr} → Rover free p → (p ≡ null) ⊎ (has p free ≡ true)
Rover-has (unset e) = inl e
Rover-has {p} (at xs b ys e at_b) = inr (rw e (ground (arith, has-append p xs (b ∷ ys))))

pub has-Rover : (free : Blocks) (p : Ptr) → has p free ≡ true → Rover free p
has-Rover [] p h = cc
has-Rover (b ∷ bs) p h = elim (Bool-cases (b.0 == p)) [
  | inl here ↦ at [] b bs refl (ground arith)
  | inr there ↦ behind (has-Rover bs p (ground arith))
]
  where
    behind : Rover bs p → Rover (b ∷ bs) p
    behind (unset e) = unset e
    behind (at xs c ys e at_c) = at (b ∷ xs) c ys (rw e) at_c

pub Rover-of : (free : Blocks) (p : Ptr) → (p ≡ null) ⊎ (has p free ≡ true) → Rover free p
Rover-of free p (inl e) = unset e
Rover-of free p (inr h) = has-Rover free p h

-- A linked heap with its rover is a layout.
pub settled :
    {base cap : ℕ} {h : Heap} {free used : Blocks} (p : Ptr)
    → Linked base cap h free used
    → Rover free p
    → Layout base cap (record h { next_free = p }) free used
settled p l r = record {
  base_pos = l.base_pos;
  fits = l.fits;
  mapped = l.mapped;
  chain = l.chain;
  tiles = l.tiles;
  held = l.held;
  rover = r;
}

-- The rover after `fix_rover`, where the coalesced block is followed by `next`.
abbrev pub moved : (current coalesced next rover : Ptr) → Ptr
moved current coalesced next rover =
    if current == rover then (if not (next == current) then coalesced else rover) else rover

pub fix_rover-moved :
    (current coalesced : Ptr) (h : Heap) {n : Node}
    → coalesced ≢ null
    → h.mem coalesced ≡ some n
    → fix_rover current coalesced h
      ≡ done tt (record h { next_free = moved current coalesced n.next h.next_free })
unfolding fix_rover set_next_free
fix_rover-moved current coalesced h ne e = ground (arith, load-ok coalesced h ne e)

pub fix_rover-other :
    (current coalesced : Ptr) (h : Heap)
    → (current == h.next_free) ≡ false
    → fix_rover current coalesced h ≡ done tt h
unfolding fix_rover
fix_rover-other current coalesced h other = ground arith

-- With NULL for the coalesced block the code reads through NULL.
pub fix_rover-null :
    (current : Ptr) (h : Heap) → (current == h.next_free) ≡ true → fix_rover current null h ≡ fault
unfolding fix_rover load
fix_rover-null current h same = ground arith
