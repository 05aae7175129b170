-- ===== src/Malloc/Demo.antt =====
-- sharedMalloc/src/main.c: the demonstration of the allocator, with what it prints as a list.
pub mod Ends
use cos.Base.{
  ℕ, zero, suc, ◌+◌, ◌-◌, ◌*◌, Bool, true, false, Option, none, some, List, [], ◌∷◌, ◌++◌, ◌==◌,
  if◌then◌else◌, length, set,
}
use cos.Malloc.Memory.{Ptr, null, Heap, Run, done, fault, Cmd, pure, and_then, ◌>>=◌, ◌>>◌}
use cos.Malloc.Allocator.{Platform, Status, my_malloc, my_free, init_my_malloc, un_init_my_malloc}
use cos.Malloc.Allocate.{Strategy, best, worst, first, next, strategy_code}
use cos.Malloc.Dump.{Row, dump_free_list}
use cos.Malloc.History.{fuel_of}

-- What is printed: a pointer, a result of `MyFree` or `InitMyMalloc`, or the rows of `DumpFreeList`.
pub data Out : Type 0 where
  pointer : Ptr → Out
  result : Status → Out
  rows : List Row → Out

abbrev pub malloc : (size : ℕ) → Strategy → Cmd Ptr
malloc size s h = my_malloc (fuel_of h) size (strategy_code s) h

abbrev pub free : Ptr → Cmd Status
free p h = my_free (fuel_of h) p h

abbrev pub dump : Cmd (List Row)
dump h = dump_free_list (fuel_of h) h

-- `MyMalloc`, the result printed, and the heap; `MyFree` and the heap.
abbrev pub malloc_shown : (size : ℕ) → Strategy → Cmd (Ptr × List Out)
malloc_shown size s = do p ← malloc size s; r ← dump; pure (p, pointer p ∷ rows r ∷ [])

abbrev pub free_shown : Ptr → Cmd (List Out)
free_shown p = do st ← free p; r ← dump; pure (rows r ∷ [])

unfoldable pub single_strategy_test : Strategy → Cmd (List Out)
single_strategy_test s = do
  (ptr, out1) ← malloc_shown 10 s
  (ptr2, out2) ← malloc_shown 10 s
  (ptr3, out3) ← malloc_shown 10 s
  out4 ← free_shown ptr2
  (ptr4, out5) ← malloc_shown 10 s
  out6 ← free_shown ptr
  out7 ← free_shown ptr3
  out8 ← free_shown ptr4
  pure (out1 ++ (out2 ++ (out3 ++ (out4 ++ (out5 ++ (out6 ++ (out7 ++ out8)))))))

unfoldable pub test_strategies : Cmd (List Out)
test_strategies = do
  out1 ← single_strategy_test first
  out2 ← single_strategy_test next
  out3 ← single_strategy_test best
  out4 ← single_strategy_test worst
  pure (out1 ++ (out2 ++ (out3 ++ out4)))

-- `request_size`, where `j` counts from 0.
abbrev pub request_size : (i j : ℕ) → ℕ
request_size i j = 3992 - i * 24 + j - 1

-- The body of the loops of `utilizationTest`.
unfoldable pub utilize : ℕ → Cmd (List Out)
utilize size = do (ptr, out1) ← malloc_shown size first; out2 ← free_shown ptr; pure (out1 ++ out2)

unfoldable pub utilize_all : List ℕ → Cmd (List Out)
utilize_all [] = pure []
utilize_all (size ∷ sizes) = do out1 ← utilize size; out2 ← utilize_all sizes; pure (out1 ++ out2)

unfoldable pub utilization_test : Cmd (List Out)
utilization_test = do
  r ← dump
  out ← utilize_all (
      request_size 1 0
      ∷ request_size 1 1
      ∷ request_size 1 2
      ∷ request_size 2 0
      ∷ request_size 2 1
      ∷ request_size 2 2
      ∷ [])
  pure (rows r ∷ out)

unfoldable pub invalid_pointer_test : Cmd (List Out)
invalid_pointer_test = do
  (ptr, out1) ← malloc_shown 10 first
  st1 ← free ptr
  r1 ← dump
  st2 ← free ptr
  r2 ← dump
  st3 ← free (ptr + 10)
  r3 ← dump
  pure (out1 ++ (result st1 ∷ rows r1 ∷ result st2 ∷ rows r2 ∷ result st3 ∷ rows r3 ∷ []))

-- What `forkTest` reads: the strategies and the sizes, or a write before the array of sizes, or too few
-- numbers.
pub data Requests : Type 0 where
  read : List Strategy → List ℕ → Requests
  out_of_bounds : Requests
  ended : Requests

-- The loop that reads them: for each request a strategy, `none` for a number that is none, and a size.
-- After a wrong strategy `i` is one less, and the size goes to the request before.
unfoldable pub read_requests : List (Option Strategy × ℕ) → List Strategy → List ℕ → Requests
read_requests [] strategies sizes = if length strategies == 4 then read strategies sizes else ended
read_requests ((some s, n) ∷ more) strategies sizes =
    let rest = read_requests more (strategies ++ s ∷ []) (sizes ++ n ∷ []) in
    if length strategies == 4 then read strategies sizes else rest
read_requests ((none, n) ∷ more) strategies sizes =
    let rest = read_requests more strategies (set sizes (length strategies - 1) n) in
    if length strategies == 4
    then read strategies sizes
    else if length strategies == 0
    then out_of_bounds
    else rest

-- A child of `forkTest`: its number, its strategy and its size.
pub record ForkRequest : Type 0 where
  pub index : ℕ
  pub strategy : Strategy
  pub size : ℕ

-- The children, in the order in which they get the mutex; `pointers` is the shared array.
unfoldable pub run_children : List ForkRequest → (pointers : ℕ → Ptr) → Cmd (ℕ → Ptr)
run_children [] pointers = pure pointers
run_children (r ∷ rs) pointers = do
  test ← malloc r.size r.strategy
  run_children rs
      (λ i. if test == null then pointers i else if i == r.index then test else pointers i)

-- `forkTest` behind its input; `old` is what the memory for the array holds before.
unfoldable pub fork_test : List ForkRequest → (old : ℕ → Ptr) → Cmd (List Out)
fork_test requests old = do
  r1 ← dump
  pointers ← malloc 32 first
  if pointers == null then (λ _. fault) else (do
    array ← run_children requests old
    r2 ← dump
    _ ← free (array 0)
    _ ← free (array 1)
    _ ← free (array 2)
    _ ← free (array 3)
    _ ← free pointers
    r3 ← dump
    pure (rows r1 ∷ rows r2 ∷ rows r3 ∷ []))

-- `conductTests`
unfoldable pub conduct_tests : Platform → List ForkRequest → (old : ℕ → Ptr) → Cmd (List Out)
conduct_tests os requests old = do
  st ← init_my_malloc os 4096
  out1 ← test_strategies
  out2 ← utilization_test
  out3 ← fork_test requests old
  out4 ← invalid_pointer_test
  un_init_my_malloc
  ptr ← malloc 1 first
  pure (result st ∷ out1 ++ (out2 ++ (out3 ++ (out4 ++ pointer ptr ∷ []))))
