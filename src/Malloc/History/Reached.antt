-- ===== src/Malloc/History/Reached.antt =====
-- What holds of the heap of sharedMalloc in every history.
use mathlib.Core.Path.{subst}
use cos.Base.{
  ℕ, ◌+◌, ◌≤◌, ◌<◌, ◌≡◌, refl, sym, ◌∙◌, ◌⊎◌, inl, inr, false, List, [], ◌∷◌, ◌++◌, arith, All,
  All-append_right,
}
use cos.Malloc.Memory.{Ptr, null, Heap, Run, done, sizeof_node}
use cos.Malloc.Allocator.{Platform, Status, ok, my_malloc}
use cos.Malloc.Allocate.{Strategy, strategy_code}
use cos.Malloc.Tiling.{Blocks, Apart, AllApart, Inside}
use cos.Malloc.Init.{IsPlatform, Started, init_my_malloc-Started}
use cos.Malloc.Dump.{Row, dump_free_list}
use cos.Malloc.History.{Live, fuel_of, Step, malloc, free, dump, Reach, started, later}
use cos.Malloc.History.Owned.{
  Owned, Laid, Laid-at, Malloced, Released, my_malloc-Malloced, my_free-Released, Owned-Holding,
  dump_free_list-Laid,
}

-- A heap in a history: laid out properly, with the blocks behind the pointers that are held in use.
pub record Kept (h : Heap) (live : Live) : Type 0 where
  pub rest : Blocks
  pub used : Blocks
  pub laid : Laid h used
  pub owned : Owned rest live used

same_heap : {A : Type 0} {a b : A} {h h' : Heap} → done a h ≡ done b h' → (a ≡ b) × (h ≡ h')
same_heap e = (cc, cc)

Started-Kept :
    (os : Platform) (before h : Heap) (size : ℕ) (r : Run Status)
    → Started os before size r
    → r ≡ done ok h
    → Kept h []
Started-Kept os before h size r (Started.refused why) e = cc
Started-Kept os before h size r (Started.overflow n new pos rounded large) e = cc
Started-Kept os before h size r (Started.unmapped n new pos rounded small no_map) e = cc
Started-Kept os before h size r (Started.ready n a m new pos rounded small maps i) e =
    let (same, same') = same_heap (sym i.runs ∙ e) in
    let laid = Laid-at i.layout i.base_eq i.capacity_eq i.unlocked in
    record { rest = _; used = _; laid = subst (λ x. Laid x _) same' laid; owned = Owned.none }

Malloced-Kept :
    {h : Heap} {rest : Blocks} {live : Live} {size : ℕ} {r : Run Ptr} (p : Ptr) (h' : Heap)
    → Malloced h rest live size r
    → r ≡ done p h'
    → Kept h' ((p, size) ∷ live)
Malloced-Kept {rest} {live} {size} p h' m e =
    let (same, same') = same_heap (sym m.runs ∙ e) in
    record {
      rest = rest;
      used = m.used;
      laid = subst (λ x. Laid x m.used) same' m.laid;
      owned = subst (λ x. Owned rest ((x, size) ∷ live) m.used) same m.owned;
    }

Released-Kept :
    {h : Heap} {rest : Blocks} {live : Live} {r : Run Status} (st : Status) (h' : Heap)
    → Released h rest live r
    → r ≡ done st h'
    → Kept h' live
Released-Kept {rest} st h' (Released.freed st0 h0 used laid owned globals) e =
    let (same, same') = same_heap e in
    record { rest = rest; used = used; laid = subst (λ x. Laid x used) same' laid; owned = owned }
Released-Kept st h' Released.null_read e = cc

Step-Kept : {h h' : Heap} {live live' : Live} → Kept h live → Step h live h' live' → Kept h' live'
Step-Kept {h} {live} k (malloc size s p h' e) =
    Malloced-Kept p h' (my_malloc-Malloced h k.rest live k.used size s k.laid k.owned) e
Step-Kept {h} k (free xs ys p n st h' e runs) =
    Released-Kept st h'
      (my_free-Released h k.rest xs ys p n k.used k.laid (Owned-Holding xs ys p n k.owned e)) runs
Step-Kept {h} {live} k (dump rows h' e) =
    let (same, same') = same_heap (sym (dump_free_list-Laid h k.used k.laid) ∙ e) in
    subst (λ x. Kept x live) same' k

pub Reach-Kept :
    {os : Platform} {h : Heap} {live : Live} → IsPlatform os → Reach os h live → Kept h live
Reach-Kept {os} is (started size before h e) =
    Started-Kept os before h size _ (init_my_malloc-Started os is before size) e
Reach-Kept is (later r step) = Step-Kept (Reach-Kept is r) step

-- The bytes behind two results of `MyMalloc`, unless one is NULL.
abbrev pub Separate : Ptr × ℕ → Ptr × ℕ → Type 0
Separate x y = (x.0 ≡ null) ⊎ (y.0 ≡ null) ⊎ (x.0 + x.1 ≤ y.0) ⊎ (y.0 + y.1 ≤ x.0)

abbrev pub AllSeparate : Live → Type 0
AllSeparate [] = Unit
AllSeparate (x ∷ xs) = All (Separate x) xs × AllSeparate xs

abbrev pub Within : Heap → Ptr × ℕ → Type 0
Within h x = (x.0 ≡ null) ⊎ ((h.base < x.0) × (x.0 + x.1 ≤ h.base + h.capacity))

-- What an allocator owes to a program that holds these results.
pub record Sound (h : Heap) (live : Live) : Type 0 where
  pub separate : AllSeparate live
  pub within : All (Within h) live
  pub unlocked : h.locked ≡ false
  pub mallocs :
      (size : ℕ) (s : Strategy)
      → (p : Ptr) × (h' : Heap) × (my_malloc (fuel_of h) size (strategy_code s) h ≡ done p h')
  pub dumps : (rows : List Row) × (dump_free_list (fuel_of h) h ≡ done rows h)

Owned-Apart :
    {rest : Blocks} {live : Live} {used : Blocks} (a : Ptr) (s n : ℕ)
    → n ≤ s
    → Owned rest live used
    → All (Apart (a, s)) used
    → All (Separate (a + sizeof_node, n)) live
Owned-Apart a s n le Owned.none apart = tt
Owned-Apart a s n le (Owned.nothing m live used o) apart =
    (inr (inl refl), Owned-Apart a s n le o apart)
Owned-Apart a s n le (Owned.block m live used b t le' o) apart =
    (behind apart.0, Owned-Apart a s n le o apart.1)
  where
    behind : Apart (a, s) (b, t) → Separate (a + sizeof_node, n) (b + sizeof_node, m)
    behind (inl h) = inr (inr (inl (omega arith)))
    behind (inr h) = inr (inr (inr (omega arith)))

null-Separate : (n : ℕ) (live : Live) → All (Separate (null, n)) live
null-Separate n [] = tt
null-Separate n (x ∷ live) = (inl refl, null-Separate n live)

Owned-Separate :
    {rest : Blocks} {live : Live} {used : Blocks}
    → Owned rest live used
    → AllApart used
    → AllSeparate live
Owned-Separate Owned.none apart = tt
Owned-Separate (Owned.nothing n live used o) apart = (null-Separate n live, Owned-Separate o apart)
Owned-Separate (Owned.block n live used a s le o) apart =
    (Owned-Apart a s n le o apart.0, Owned-Separate o apart.1)

Owned-Within :
    {rest : Blocks} {live : Live} {used : Blocks} (h : Heap)
    → Owned rest live used
    → All (Inside h.base h.capacity) used
    → All (Within h) live
Owned-Within h Owned.none inside = tt
Owned-Within h (Owned.nothing n live used o) inside = (inl refl, Owned-Within h o inside)
Owned-Within h (Owned.block n live used a s le o) inside =
    (inr (omega (arith, inside.0), omega (arith, inside.0)), Owned-Within h o inside.1)

AllApart-right : (xs ys : Blocks) → AllApart (xs ++ ys) → AllApart ys
AllApart-right [] ys h = h
AllApart-right (x ∷ xs) ys h = AllApart-right xs ys h.1

-- After `InitMyMalloc` and any calls of `MyMalloc`, `MyFree` of pointers that are held and
-- `DumpFreeList`, in any order, each of which returned: the bytes that were asked for behind the
-- pointers that are held lie in the heap, and no two of them overlap; the mutex is free; and a further
-- `MyMalloc` with each strategy returns, as does `DumpFreeList`.
pub Reach-Sound :
    {os : Platform} {h : Heap} {live : Live} → IsPlatform os → Reach os h live → Sound h live
Reach-Sound {h} {live} is r =
    let k = Reach-Kept is r in
    let tiles = k.laid.layout.tiles in
    record {
      separate = Owned-Separate k.owned (AllApart-right k.laid.free k.used tiles.apart);
      within =
          Owned-Within h k.owned
            (All-append_right (Inside h.base h.capacity) k.laid.free k.used tiles.inside);
      unlocked = k.laid.unlocked;
      mallocs = λ size s.
          let m = my_malloc-Malloced h k.rest live k.used size s k.laid k.owned in
          (m.ptr, m.heap, m.runs);
      dumps = (_, dump_free_list-Laid h k.used k.laid);
    }
