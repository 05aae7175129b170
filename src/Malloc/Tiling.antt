-- ===== src/Malloc/Tiling.antt =====
-- Extents of blocks, and lists of blocks that tile the heap: the part of the layout that does not
-- depend on what the headers hold. The order of a list does not matter.
use cos.Base.{ℕ, ◌+◌, ◌-◌, ◌≤◌, ◌<◌, ◌≡◌, refl, ◌⊎◌, inl, inr, List, [], ◌∷◌, ◌++◌, arith, All}
use cos.Malloc.Memory.{Ptr, sizeof_node}

-- A block: the address of its header, and the number of bytes behind the header.
abbrev pub Block : Type 0
Block = Ptr × ℕ

abbrev pub Blocks : Type 0
Blocks = List Block

-- The first address behind a block.
abbrev pub end_of : Block → ℕ
end_of b = b.0 + sizeof_node + b.1

-- The two blocks share no byte, headers included.
abbrev pub Apart : Block → Block → Type 0
Apart b c = (end_of b ≤ c.0) ⊎ (end_of c ≤ b.0)

abbrev pub AllApart : Blocks → Type 0
AllApart [] = Unit
AllApart (b ∷ bs) = All (Apart b) bs × AllApart bs

abbrev pub total : Blocks → ℕ
total [] = 0
total (b ∷ bs) = sizeof_node + b.1 + total bs

abbrev pub Inside : ℕ → ℕ → Block → Type 0
Inside base cap b = (base ≤ b.0) × (end_of b ≤ base + cap)

pub Apart-symm : (b c : Block) → Apart b c → Apart c b
Apart-symm b c (inl h) = inr h
Apart-symm b c (inr h) = inl h

pub All-remove {ℓ κ} :
    {A : Type ℓ} (P : A → Type κ) (x : A) (xs ys : List A)
    → All P (xs ++ x ∷ ys)
    → P x × All P (xs ++ ys)
All-remove P x [] ys h = h
All-remove P x (y ∷ xs) ys h = let r = All-remove P x xs ys h.1 in (r.0, (h.0, r.1))

pub All-insert {ℓ κ} :
    {A : Type ℓ} (P : A → Type κ) (x : A) (xs ys : List A)
    → P x
    → All P (xs ++ ys)
    → All P (xs ++ x ∷ ys)
All-insert P x [] ys p h = (p, h)
All-insert P x (y ∷ xs) ys p h = (h.0, All-insert P x xs ys p h.1)

pub AllApart-remove :
    (x : Block) (xs ys : Blocks)
    → AllApart (xs ++ x ∷ ys)
    → All (Apart x) (xs ++ ys) × AllApart (xs ++ ys)
AllApart-remove x [] ys h = h
AllApart-remove x (y ∷ xs) ys h =
    let a = All-remove (Apart y) x xs ys h.0 in
    let r = AllApart-remove x xs ys h.1 in ((Apart-symm y x a.0, r.0), (a.1, r.1))

pub AllApart-insert :
    (x : Block) (xs ys : Blocks)
    → All (Apart x) (xs ++ ys)
    → AllApart (xs ++ ys)
    → AllApart (xs ++ x ∷ ys)
AllApart-insert x [] ys a h = (a, h)
AllApart-insert x (y ∷ xs) ys a h =
    (All-insert (Apart y) x xs ys (Apart-symm x y a.0) h.0, AllApart-insert x xs ys a.1 h.1)

pub total-insert :
    (x : Block) (xs ys : Blocks) → total (xs ++ x ∷ ys) ≡ sizeof_node + x.1 + total (xs ++ ys)
total-insert x [] ys = refl
total-insert x (y ∷ xs) ys = omega (arith, total-insert x xs ys)

-- Whatever is apart from a block is apart from a part of it.
All-Apart-part :
    (b c : Block) (bs : Blocks)
    → b.0 ≤ c.0
    → end_of c ≤ end_of b
    → All (Apart b) bs
    → All (Apart c) bs
All-Apart-part b c [] lo hi h = tt
All-Apart-part b c (x ∷ bs) lo hi h = (part h.0, All-Apart-part b c bs lo hi h.1)
  where
    part : Apart b x → Apart c x
    part (inl p) = inl (omega arith)
    part (inr p) = inr (omega arith)

-- Whatever is apart from two neighbours is apart from both together.
All-Apart-join :
    (a : Ptr) (s t : ℕ) (bs : Blocks)
    → All (Apart (a, s)) bs
    → All (Apart (a + sizeof_node + s, t)) bs
    → All (Apart (a, s + sizeof_node + t)) bs
All-Apart-join a s t [] h k = tt
All-Apart-join a s t (x ∷ bs) h k = (omega (arith, h.0, k.0), All-Apart-join a s t bs h.1 k.1)

-- The blocks share no byte, lie in the mapped range, and leave no byte of it out.
pub record Tiles (base cap : ℕ) (bs : Blocks) : Type 0 where
  pub apart : AllApart bs
  pub inside : All (Inside base cap) bs
  pub covers : total bs ≡ cap

module _ {base cap : ℕ} where
  pub Tiles-to_front :
      (x : Block) (xs ys : Blocks) → Tiles base cap (xs ++ x ∷ ys) → Tiles base cap (x ∷ xs ++ ys)
  Tiles-to_front x xs ys t = record {
    apart = AllApart-remove x xs ys t.apart;
    inside = All-remove (Inside base cap) x xs ys t.inside;
    covers = omega (arith, total-insert x xs ys);
  }

  pub Tiles-from_front :
      (x : Block) (xs ys : Blocks) → Tiles base cap (x ∷ xs ++ ys) → Tiles base cap (xs ++ x ∷ ys)
  Tiles-from_front x xs ys t = record {
    apart = AllApart-insert x xs ys t.apart.0 t.apart.1;
    inside = All-insert (Inside base cap) x xs ys t.inside.0 t.inside.1;
    covers = omega (arith, total-insert x xs ys);
  }

  pub Tiles-split :
      (a : Ptr) (s size : ℕ) (bs : Blocks)
      → size + sizeof_node < s
      → Tiles base cap ((a, s) ∷ bs)
      → Tiles base cap ((a + sizeof_node + size, s - size - sizeof_node) ∷ (a, size) ∷ bs)
  Tiles-split a s size bs room t = record {
    apart = (
      (inr (omega arith), All-Apart-part (a, s) _ bs (omega arith) (omega arith) t.apart.0),
      (All-Apart-part (a, s) _ bs (omega arith) (omega arith) t.apart.0, t.apart.1),
    );
    inside = (omega (arith, t.inside.0), (omega (arith, t.inside.0), t.inside.1));
    covers = omega (arith, t.covers);
  }

  pub Tiles-join :
      (a : Ptr) (s t : ℕ) (bs : Blocks)
      → Tiles base cap ((a, s) ∷ (a + sizeof_node + s, t) ∷ bs)
      → Tiles base cap ((a, s + sizeof_node + t) ∷ bs)
  Tiles-join a s t bs h = record {
    apart = (All-Apart-join a s t bs h.apart.0.1 h.apart.1.0, h.apart.1.1);
    inside = (omega (arith, h.inside.0, h.inside.1.0), h.inside.1.1);
    covers = omega (arith, h.covers);
  }
