-- ===== src/Malloc/Allocate.antt =====
-- `MyMalloc`: the mutex around the search that the strategy names.
use mathlib.Core.Path.{subst}
use cos.Base.{
  ℕ, ◌<◌, ◌≡◌, ◌≢◌, refl, sym, ap, Bool, true, false, arith, length, ◌==◌, if◌then◌else◌,
}
use cos.Malloc.Memory.{Ptr, null, Heap, Run, done, blocked, and_then, pure, ◌>>◌}
use cos.Malloc.FreeList.{smaller, larger}
use cos.Malloc.Allocator.{my_malloc, locked_malloc, fit_by, lock, unlock}
use cos.Malloc.Tiling.{Block, Blocks}
use cos.Malloc.Layout.{Layout}
use cos.Malloc.Fit.{Fit, full, fitted, test_ne, test_eq}
use cos.Malloc.FirstFit.{IsFirst, first_fit-Fit}
use cos.Malloc.ExtremalFit.{IsExtremal, best_fit-Fit, worst_fit-Fit}
use cos.Malloc.NextFit.{IsNext, next_fit-Fit}
use cos.Malloc.Free.{Layout-lock}
use cos.Base.{◌⊎◌}
use cos.Base.{◌≤◌}
use cos.Base.{inl}
use cos.Base.{inr}
use cos.Base.{Bool-cases}

-- The values of `enum Strategy`.
pub data Strategy : Type 0 where
  best worst first next : Strategy

abbrev pub strategy_code : Strategy → ℕ
strategy_code best = 0
strategy_code worst = 1
strategy_code first = 2
strategy_code next = 3

-- How the block that a strategy takes stands among the free blocks.
abbrev pub Prefers : Strategy → (size : ℕ) (rover : Ptr) → Blocks → Block → Blocks → Type 0
Prefers best size rover = IsExtremal smaller size
Prefers worst size rover = IsExtremal larger size
Prefers first size rover = IsFirst size
Prefers next size rover = IsNext size rover

module _ {base cap : ℕ} {h : Heap} {free used : Blocks} (fuel size : ℕ) where
  fit_by-Fit :
      (s : Strategy)
      → Layout base cap h free used
      → length free < fuel
      → Fit
          (Prefers s size h.next_free)
          base
          cap
          h
          free
          used
          size
          (fit_by fuel (strategy_code s) size h)
  unfolding fit_by
  fit_by-Fit best l enough = best_fit-Fit fuel size l enough
  fit_by-Fit worst l enough = worst_fit-Fit fuel size l enough
  fit_by-Fit first l enough = first_fit-Fit fuel size l enough
  fit_by-Fit next l enough = next_fit-Fit fuel size l enough

  -- The result of the search under the lock, unlocked.
  unlock-Fit :
      {P : Blocks → Block → Blocks → Type 0} {r : Run Ptr}
      → h.locked ≡ false
      → Fit P base cap (record h { locked = true }) free used size r
      → Fit P base cap h free used size (and_then r (λ p. unlock >> pure p))
  unfolding unlock
  unlock-Fit {P} unlocked (full none_fits) =
      subst (λ (x : Bool). Fit P base cap h free used size (done null (record h { locked = x })))
        unlocked (full none_fits)
  unlock-Fit unlocked (fitted pre post a s h' e large prefers carved) =
      fitted pre post a s _ e large prefers (record {
        layout = Layout-lock false carved.layout;
        globals = record {
          base_eq = carved.globals.base_eq;
          capacity_eq = carved.globals.capacity_eq;
          locked_eq = sym unlocked;
        };
      })

-- `MyMalloc` on an initialised heap takes the mutex and gives it back.
my_malloc-locks :
    (fuel size strategy : ℕ) (h : Heap)
    → h.base ≢ null
    → h.locked ≡ false
    → my_malloc fuel size strategy h
      ≡ and_then (fit_by fuel strategy size (record h { locked = true })) (λ p. unlock >> pure p)
unfolding my_malloc locked_malloc lock
my_malloc-locks fuel size strategy h ne unlocked =
    rw
      (
        test_ne h.base null ne,
        ap (λ (x : Bool). if x then blocked else done tt (record h { locked = true })) unlocked,
      )
      refl

-- `MyMalloc` on a heap with the mutex free, and with a round of fuel for each free block, returns
-- NULL only if every free block is too small, and then changes nothing. Otherwise it returns the
-- bytes behind the header of the free block that the strategy prefers; that block is now in use, the
-- unused end of it is free again, the heap is laid out properly and the mutex is free.
pub my_malloc-Fit :
    (fuel size : ℕ) (s : Strategy) (h : Heap) (free used : Blocks)
    → Layout h.base h.capacity h free used
    → h.locked ≡ false
    → length free < fuel
    → Fit
        (Prefers s size h.next_free)
        h.base
        h.capacity
        h
        free
        used
        size
        (my_malloc fuel size (strategy_code s) h)
my_malloc-Fit fuel size s h free used l unlocked enough =
    rw (my_malloc-locks fuel size (strategy_code s) h (omega (arith, l.base_pos)) unlocked) (
      unlock-Fit {h = h} fuel size unlocked
        (fit_by-Fit {h = record h { locked = true }} fuel size s (Layout-lock true l) enough))

fit_by-unknown :
    (fuel size strategy : ℕ) (h : Heap) → 4 ≤ strategy → fit_by fuel strategy size h ≡ done null h
unfolding fit_by
fit_by-unknown fuel size strategy h unknown =
    rw
      (
        test_ne strategy 0 (omega arith),
        test_ne strategy 1 (omega arith),
        test_ne strategy 2 (omega arith),
        test_ne strategy 3 (omega arith),
      )
      refl

-- `MyMalloc` with the mutex free, before `InitMyMalloc` or with a number that is no strategy, returns
-- NULL and changes nothing.
pub my_malloc-refuses :
    (fuel size strategy : ℕ) (h : Heap)
    → h.locked ≡ false
    → (h.base ≡ null) ⊎ (4 ≤ strategy)
    → my_malloc fuel size strategy h ≡ done null h
unfolding my_malloc unlock
my_malloc-refuses fuel size strategy h unlocked (inl e) = rw (test_eq h.base null e) refl
my_malloc-refuses fuel size strategy h unlocked (inr unknown) = elim (Bool-cases (h.base == null)) [
  | inl e ↦ rw e refl
  | inr e ↦
      rw
        (
          my_malloc-locks fuel size strategy h (λ z. absurd (ground arith)) unlocked,
          fit_by-unknown fuel size strategy (record h { locked = true }) unknown,
        )
        (ap back_to (sym unlocked))
]
  where
    back_to : Bool → Run Ptr
    back_to x = done null (record h { locked = x })
