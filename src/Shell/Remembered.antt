-- ===== src/Shell/Remembered.antt =====
-- The history of myShell/hw1.c in the queue of myShell/queue.c: the `enqueue` of each command, the walk
-- of `executeHistory`, and the loop of `main` that frees it.
pub mod Freed
use cos.Base.{
  ℕ, zero, suc, ◌+◌, true, false, Option, none, some, List, [], ◌∷◌, ◌==◌, if◌then◌else◌, Str,
}
use cos.Shell.Queue.{Address, Cell, Queue, is_empty, enqueue, dequeue}
use mathlib.Core.Option

-- The calls of `enqueue` with these commands, where `malloc` returns the addresses with them.
unfoldable pub remember : List (Address × Str) → Queue Str → Option (Queue Str)
remember [] q = some q
remember ((p, command) ∷ more) q = elim (enqueue p command q) [
  | none ↦ none
  | some q' ↦ remember more q'
]

-- `executeHistory` from a node, on fuel: the rows that it prints. `index` counts those before.
unfoldable pub print_rows :
    ℕ → (index : ℕ) → (Address → Option (Cell Str)) → Address → Option (List (ℕ × Str))
print_rows zero index cells temp = none
print_rows (suc k) index cells temp = if temp == 0 then some [] else elim (cells temp) [
  | none ↦ none
  | some c ↦
      Option.map (λ rows. (index + 1, c.data_of) ∷ rows) (print_rows k (index + 1) cells c.next)
]

-- With the string that is freed, if it is not NULL.
abbrev pub freed : Option Str → List Str → List Str
freed none strings = strings
freed (some string) strings = string ∷ strings

-- The loop at the end of `main`, on fuel: the strings that it frees, and the queue behind it.
unfoldable pub free_history : ℕ → Queue Str → Option (List Str × Queue Str)
free_history zero q = none
free_history (suc k) q = elim (is_empty q) [
  | true ↦ some ([], q)
  | false ↦ elim (dequeue q) [
    | none ↦ none
    | some (string, q') ↦ elim (free_history k q') [
      | none ↦ none
      | some (strings, q'') ↦ some (freed string strings, q'')
    ]
  ]
]
