-- ===== src/Shell/Tests.antt =====
-- The theorems on the queue of myShell/queue.c at concrete queues.
use cos.Base.{ℕ, refl, Option, none, some, List, [], ◌∷◌, Str, codes, ◌==◌, if◌then◌else◌, arith}
use cos.Shell.Queue.{Address, Cell, Queue, dequeue}
use cos.Shell.Remembered.Freed.{Apart, Lived, remember-Lived}
use cos.Shell.Fifo.{Took, Holds, nil, cons, dequeue-Holds}

-- Two cells, at 8 and at 16.
abbrev demo_cells : Address → Option (Cell ℕ)
demo_cells x =
    if x == 8
    then some (record { data_of = 5; next = 16 })
    else if x == 16
    then some (record { data_of = 6; next = 0 })
    else none

abbrev two_cells : Queue ℕ
two_cells = record { cells = demo_cells; front = 8; rear = 16 }

two_cells-Holds : Holds two_cells ((8, 5) ∷ (16, 6) ∷ [])
two_cells-Holds = record {
  chain =
      cons refl (omega arith) refl ((omega arith), tt) (cons refl (omega arith) refl tt (nil refl));
  ends = refl;
}

dequeue-Holds_example : Took two_cells ((8, 5) ∷ (16, 6) ∷ []) (dequeue two_cells)
dequeue-Holds_example = dequeue-Holds two_cells ((8, 5) ∷ (16, 6) ∷ []) two_cells-Holds

-- Two commands, in cells at 8 and at 16.
abbrev session : List (Address × Str)
session = (8, codes "ls") ∷ (16, codes "cd /") ∷ []

session-Apart : Apart session
session-Apart = (omega arith, (omega arith, tt), (omega arith, tt, tt))

remember-Lived_example : Lived 3 (λ _. none) session
remember-Lived_example = remember-Lived 3 (λ _. none) session session-Apart (omega arith)
