-- ===== src/Malloc/Init.antt =====
-- `InitMyMalloc`: the heap after the mapping, with the blocks for the shared list and the mutex.
use native.Mathlib.Omega.{div_any}
use native.Mathlib.Nat.{mod-lt, mul_comm}
use Prim.Native.Nat.{zero}
use cos.Base.{
  ℕ, ◌+◌, ◌*◌, ◌/◌, ◌%◌, ◌≤◌, ◌<◌, ◌≡◌, ◌≢◌, refl, false, Option, none, some, arith, leb, ◌==◌,
  if◌then◌else◌, Bool-cases, inl, inr,
}
use cos.Malloc.Memory.{Ptr, null, Memory, Heap, Run, done}
use cos.Malloc.Allocator.{Platform, Status, failed, int_max, round_up, set_up, init_my_malloc}
use cos.Base.{◌⊎◌}
use cos.Base.{==_iff}
use cos.Malloc.Memory.{fault}
use cos.Base.{suc}
use cos.Malloc.SetUp.{Initialised, set_up-Initialised}
use cos.Base.{leb→le}
pub use cos.Malloc.SetUp.{IsPlatform}

-- `n` is the least number of whole pages with room for `size`.
pub record Rounded (page size n : ℕ) : Type 0 where
  pub pages : ℕ
  pub whole : n ≡ pages * page
  pub enough : size ≤ n
  pub least : n < size + page

pages_of : (page size : ℕ) → ℕ
pages_of page size = if size % page == 0 then size else (1 + size / page) * page

zero_rest : {x : ℕ} → (x == 0) ≡ false → 0 < x
zero_rest {x} e = ground arith

pages_of-Rounded : (page size : ℕ) → 0 < page → Rounded page size (pages_of page size)
unfolding pages_of
pages_of-Rounded page size pos = elim (Bool-cases (size % page == 0)) [
  | inl whole ↦ rw whole (record {
    pages = size / page;
    whole = omega (arith, div_any size page, (==_iff _ _).0 whole, mul_comm page (size / page));
    enough = omega arith;
    least = omega arith;
  })
  | inr rest ↦ rw rest (record {
    pages = 1 + size / page;
    whole = refl;
    enough = omega (arith, div_any size page, mod-lt size pos, mul_comm page (size / page));
    least = omega (arith, div_any size page, mul_comm page (size / page), zero_rest rest);
  })
]

-- What `InitMyMalloc` comes to: it refuses, it overflows an `int`, the mapping fails, or the heap is
-- there.
pub data Started (os : Platform) (h : Heap) (size : ℕ) : Run Status → Type 0 where
  refused : (h.base ≢ null) ⊎ (size ≡ 0) → Started os h size (done failed h)
  overflow :
      (n : ℕ)
      → h.base ≡ null
      → 0 < size
      → Rounded os.page_size size n
      → int_max < n
      → Started os h size fault
  unmapped :
      (n : ℕ)
      → h.base ≡ null
      → 0 < size
      → Rounded os.page_size size n
      → n ≤ int_max
      → os.mmap n ≡ none
      → Started os h size (done failed h)
  ready :
      {r : Run Status} (n a : ℕ) (m : Memory)
      → h.base ≡ null
      → 0 < size
      → Rounded os.page_size size n
      → n ≤ int_max
      → os.mmap n ≡ some (a, m)
      → Initialised os (record h { mem = m; base = a; capacity = n }) a n r
      → Started os h size r

page_le : {page size n : ℕ} → Rounded page size n → 0 < size → page ≤ n
page_le {page} r pos = pages_le r.pages r.whole r.enough pos
  where
    pages_le : {n size : ℕ} (k : ℕ) → n ≡ k * page → size ≤ n → 0 < size → page ≤ n
    pages_le zero e le pos = omega arith
    pages_le (suc k) e le pos = omega arith

module _ (os : Platform) (platform : IsPlatform os) (h : Heap) (size : ℕ) where
  started :
      (n : ℕ)
      → h.base ≡ null
      → Rounded os.page_size size n
      → n ≤ int_max
      → 0 < size
      → (r : Option (Ptr × Memory)) → os.mmap n ≡ r
      → Started os h size (elim r [
        | none ↦ done failed h
        | some (a, m) ↦ set_up os a n (record h { mem = m; base = a; capacity = n })
      ])
  started n new rounded small pos none e = unmapped n new pos rounded small e
  started n new rounded small pos (some (a, m)) e =
      let (a_pos, fits, mapped) = platform.maps n a m e in
      ready n a m new pos rounded small e (
        set_up-Initialised os platform (record h { mem = m; base = a; capacity = n }) a n a_pos fits
          (page_le rounded pos) mapped)

  by_size :
      h.base ≡ null
      → 0 < size
      → Started os h size (elim (round_up os size) [
        | none ↦ fault
        | some n ↦ elim (os.mmap n) [
          | none ↦ done failed h
          | some (a, m) ↦ set_up os a n (record h { mem = m; base = a; capacity = n })
        ]
      ])
  unfolding round_up pages_of
  by_size new pos =
      let n = pages_of os.page_size size in
      let rounded = pages_of-Rounded os.page_size size (omega (arith, platform.room)) in
      elim (Bool-cases (leb n int_max)) [
        | inl fits ↦ rw fits (started n new rounded (leb→le n int_max fits) pos (os.mmap n) refl)
        | inr large ↦ rw large (overflow n new pos rounded (ground arith))
      ]

  -- `InitMyMalloc`, where a page has room for the first two blocks and a mapping is memory below the
  -- end of the address space. On a heap that is there already, or for no bytes, it returns -1 and
  -- changes nothing. Otherwise, and only then, the size is rounded up to whole pages: if that is more
  -- than an `int` holds the code overflows; if the mapping fails it returns -1 and changes nothing;
  -- else it returns 0, with the mutex free, and with a heap of that size laid out properly in the
  -- mapping, where the shared list and the mutex are in use and all behind them is free.
  pub init_my_malloc-Started : Started os h size (init_my_malloc os size h)
  unfolding init_my_malloc
  init_my_malloc-Started = elim (Bool-cases (h.base == null)) [
    | inl first_time ↦ rw first_time (elim (Bool-cases (size == 0)) [
      | inl empty ↦ rw empty (refused (inr (ground arith)))
      | inr some_bytes ↦
          rw some_bytes (by_size ((==_iff h.base null).0 first_time) (zero_rest some_bytes))
    ])
    | inr again ↦ rw again (refused (inl (λ e. absurd (ground arith))))
  ]
