-- ===== src/Malloc/Tests.antt =====
-- Runs of the allocator, and its theorems at concrete heaps.
use cos.Base.{
  ℕ, zero, suc, ◌+◌, ◌≤◌, ◌≡◌, refl, inl, inr, sym, Bool-cases, Option, none, some, [], ◌∷◌, false,
  leb, leb→le, ◌==◌, if◌then◌else◌, arith,
}
use cos.Malloc.Memory.{
  Ptr, Node, Memory, Heap, Run, done, fault, blocked, out_of_fuel, magic_number, ◌>>=◌,
}
use cos.Malloc.FreeList.{smaller, larger, best_fit, worst_fit, first_fit, next_fit}
use cos.Malloc.Allocator.{Platform, failed, init_my_malloc, my_malloc, my_free}
use cos.Malloc.Tiling.{Blocks}
use cos.Malloc.Chain.{nil, cons}
use cos.Malloc.Layout.{Layout, at}
use cos.Malloc.Fit.{Fit}
use cos.Malloc.FirstFit.{IsFirst, first_fit-Fit}
use cos.Malloc.ExtremalFit.{IsExtremal, best_fit-Fit, worst_fit-Fit}
use cos.Malloc.NextFit.{IsNext, next_fit-Fit}
use cos.Malloc.Free.{my_free-refuses}
use cos.Malloc.Allocate.{Prefers, best, my_malloc-Fit, my_malloc-refuses}
use cos.Malloc.Dump.{dump_free_list}
use cos.Malloc.DumpRows.{shown, dump_free_list-shown}
use cos.Malloc.Init.{IsPlatform, Started, init_my_malloc-Started}
use cos.Base.{◌<◌}
use cos.Base.{◌^◌}
use cos.Malloc.Layout.{Mapped}
use cos.Base.{ap}

abbrev blank : Node
blank = record { size = 0; next = 0; magic = 0; is_freed = 0 }

abbrev zeroed : Memory
zeroed x = some blank

-- Pages of 4096 bytes, a mutex of 40, and one mapping of up to a million bytes.
abbrev pub linux : Platform
linux = record {
  page_size = 4096;
  sizeof_mutex = 40;
  mmap = λ n. if leb n 1000000 then some (65536, zeroed) else none;
}

pub linux-IsPlatform : IsPlatform linux
linux-IsPlatform = record { room = omega arith; mutex_pos = omega arith; maps = maps }
  where
    maps :
        (n : ℕ) (a : Ptr) (m : Memory)
        → linux.mmap n ≡ some (a, m)
        → (0 < a) × (a + n < 2 ^ 64) × Mapped a n m
    maps n a m e = elim (Bool-cases (leb n 1000000)) [
      | inr large ↦ absurd (ground arith)
      | inl small ↦ at_mapping (rw small at e) (leb→le _ _ small)
    ]
      where
        at_mapping :
            Path (Option (Ptr × Memory)) (some (65536, zeroed)) (some (a, m))
            → n ≤ 1000000
            → (0 < a) × (a + n < 2 ^ 64) × Mapped a n m
        at_mapping e small =
            let start : 65536 ≡ a = cc in
            let memory : zeroed ≡ m = cc in
            (omega arith, omega arith, λ x lo hi. (blank, ap (λ (f : Memory). f x) (sym memory)))

abbrev pub before_init : Heap
before_init = record {
  mem = λ _. none;
  head = 0;
  next_free = 0;
  base = 0;
  capacity = 0;
  locked = false;
}

-- The free list as the allocator would walk it.
walk : ℕ → Memory → Ptr → Blocks
walk zero m p = []
walk (suc k) m p = elim (m p) [ none ↦ [] | some n ↦ (p, n.size) ∷ walk k m n.next ]

free_list : {A : Type 0} → Run A → Option Blocks
unfolding walk
free_list (done a h) = some (walk 20 h.mem h.head)
free_list fault = none
free_list blocked = none
free_list out_of_fuel = none

-- After three allocations and as many frees in another order, the free list is one block again.
all_freed : Option Blocks
all_freed = free_list (
    (do
      _ ← init_my_malloc linux 4096
      p ← my_malloc 20 10 0
      q ← my_malloc 20 10 0
      r ← my_malloc 20 10 0
      _ ← my_free 20 q
      _ ← my_free 20 p
      my_free 20 r)
      before_init)

-- A block freed behind the last free block goes before it, and the two are not joined.
out_of_order : Option Blocks
out_of_order = free_list (
    (do
      _ ← init_my_malloc linux 4096
      p ← my_malloc 20 100 0
      q ← my_malloc 20 100 0
      r ← my_malloc 20 3700 0
      _ ← my_free 20 q
      my_free 20 r)
      before_init)

-- A heap of 224 bytes: two blocks in use, each before a free one.
abbrev demo_node : Ptr → Node
demo_node x =
    if x == 140
    then record { size = 10; next = 224; magic = 0; is_freed = 0 }
    else if x == 224
    then record { size = 76; next = 0; magic = 0; is_freed = 0 }
    else if x == 174
    then record { size = 26; next = 0; magic = magic_number; is_freed = 0 }
    else record { size = 16; next = 0; magic = magic_number; is_freed = 0 }

abbrev demo : Heap
demo = record {
  mem = λ x. some (demo_node x);
  head = 140;
  next_free = 140;
  base = 100;
  capacity = 224;
  locked = false;
}

abbrev demo_free : Blocks
demo_free = (140, 10) ∷ (224, 76) ∷ []

abbrev demo_used : Blocks
demo_used = (100, 16) ∷ (174, 26) ∷ []

demo-Layout : Layout 100 224 demo demo_free demo_used
demo-Layout = record {
  base_pos = omega arith;
  fits = omega arith;
  mapped = λ x lo hi. (demo_node x, refl);
  chain =
      cons refl
        (record {
          ne_null = omega arith;
          node = demo_node 140;
          holds = refl;
          size_eq = refl;
          next_eq = refl;
        })
        (cons refl
          (record {
            ne_null = omega arith;
            node = demo_node 224;
            holds = refl;
            size_eq = refl;
            next_eq = refl;
          })
          (nil refl));
  tiles = record {
    apart = (
      (inl (omega arith), (inr (omega arith), (inl (omega arith), tt))),
      ((inr (omega arith), (inr (omega arith), tt)), ((inl (omega arith), tt), (tt, tt))),
    );
    inside = (
      ((omega arith, omega arith)),
      ((omega arith, omega arith), ((omega arith, omega arith), ((omega arith, omega arith), tt))),
    );
    covers = refl;
  };
  held = (
    record { node = demo_node 100; holds = refl; size_eq = refl; magic_eq = refl; freed_eq = refl },
    (
      record {
        node = demo_node 174;
        holds = refl;
        size_eq = refl;
        magic_eq = refl;
        freed_eq = refl;
      },
      tt,
    ),
  );
  rover = at [] (140, 10) ((224, 76) ∷ []) refl refl;
}

my_malloc-Fit_example :
    Fit (Prefers best 20 140) 100 224 demo demo_free demo_used 20 (my_malloc 3 20 0 demo)
my_malloc-Fit_example =
    my_malloc-Fit 3 20 best demo demo_free demo_used demo-Layout refl (omega arith)

init_my_malloc-Started_example :
    Started linux before_init 5000 (init_my_malloc linux 5000 before_init)
init_my_malloc-Started_example = init_my_malloc-Started linux linux-IsPlatform before_init 5000

best_fit-Fit_example :
    Fit (IsExtremal smaller 8) 100 224 demo demo_free demo_used 8 (best_fit 3 8 demo)
best_fit-Fit_example = best_fit-Fit 3 8 demo-Layout (omega arith)

worst_fit-Fit_example :
    Fit (IsExtremal larger 8) 100 224 demo demo_free demo_used 8 (worst_fit 3 8 demo)
worst_fit-Fit_example = worst_fit-Fit 3 8 demo-Layout (omega arith)

first_fit-Fit_example : Fit (IsFirst 20) 100 224 demo demo_free demo_used 20 (first_fit 3 20 demo)
first_fit-Fit_example = first_fit-Fit 3 20 demo-Layout (omega arith)

next_fit-Fit_example : Fit (IsNext 20 140) 100 224 demo demo_free demo_used 20 (next_fit 3 20 demo)
next_fit-Fit_example = next_fit-Fit 3 20 demo-Layout (omega arith)

my_free-refuses_example : my_free 2 112 demo ≡ done failed demo
my_free-refuses_example = my_free-refuses 2 112 demo (omega arith) refl (inr (inl (omega arith)))

my_malloc-refuses_example : my_malloc 3 20 7 demo ≡ done 0 demo
my_malloc-refuses_example = my_malloc-refuses 3 20 7 demo refl (inr (omega arith))

dump_free_list-shown_example : dump_free_list 2 demo ≡ done (shown 100 224 demo_free) demo
dump_free_list-shown_example =
    dump_free_list-shown 2 demo demo_free demo_used demo-Layout refl (omega arith)
