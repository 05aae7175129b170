-- ===== src/Shell/Remembered/Freed.antt =====
-- From the first command to the end of `main`: the history of myShell/hw1.c as a list of commands.
use mathlib.Core.Path.{subst}
use cos.Base.{
  ℕ, zero, suc, ◌+◌, ◌<◌, ◌≡◌, ◌≢◌, refl, sym, ap, ◌∙◌, true, false, Option, none, some, List, [],
  ◌∷◌, ◌++◌, append_assoc, append-nil, All-append_right, arith, length, map, All, Str,
}
use cos.Shell.Queue.{Address, Cell, Queue, create_queue, is_empty, dequeue}
use cos.Shell.Fifo.{
  Cells, nil, cons, Holds, dequeue-Dequeued, enqueue-Holds, create_queue-Holds, is_zero, not_zero,
  front_ne, front_null, put_ne, put_self,
}
use cos.Shell.Commands.{execute_history}
use cos.Shell.Remembered.{remember, print_rows, free_history}

-- None of the addresses is NULL, and no two are the same.
abbrev pub Apart : List (Address × Str) → Type 0
Apart [] = Unit
Apart ((a, d) ∷ xs) = (a ≢ 0) × All (λ y. y.0 ≢ a) xs × Apart xs

Apart-middle :
    (ys xs : List (Address × Str)) (b : Address) (d : Str)
    → Apart (ys ++ (b, d) ∷ xs)
    → (b ≢ 0) × All (λ y. y.0 ≢ b) ys
Apart-middle [] xs b d h = (h.0, tt)
Apart-middle ((a, c) ∷ ys) xs b d h =
    let (ne, other) = Apart-middle ys xs b d h.2 in
    let differs : b ≢ a = (All-append_right (λ y. y.0 ≢ a) ys ((b, d) ∷ xs) h.1).0 in
    (ne, ((λ e. differs (sym e)), other))

remember-Holds :
    (q : Queue Str) (ys xs : List (Address × Str))
    → Holds q ys
    → Apart (ys ++ xs)
    → (q' : Queue Str) × (remember xs q ≡ some q') × Holds q' (ys ++ xs)
unfolding remember
remember-Holds q ys [] holds apart = (q, refl, subst (Holds q) (sym (append-nil ys)) holds)
remember-Holds q ys ((b, d) ∷ xs) holds apart =
    let (ne, other) = Apart-middle ys xs b d apart in
    let (q', e, holds') = enqueue-Holds q ys b d holds ne other in
    let same = append_assoc ys ((b, d) ∷ []) xs in
    let (last, e', all) =
      remember-Holds q' (ys ++ (b, d) ∷ []) xs holds' (subst Apart (sym same) apart) in
    (last, rw (remember, e) e', subst (Holds last) same all)

print_rows-Cells :
    (fuel index : ℕ) (cells : Address → Option (Cell Str)) (p : Address) (xs : List (Address × Str))
    → Cells cells p xs
    → length xs < fuel
    → print_rows fuel index cells p ≡ some (execute_history index (map (λ y. y.1) xs))
unfolding print_rows execute_history
print_rows-Cells zero index cells p xs c enough = absurd (omega arith)
print_rows-Cells (suc k) index cells p [] (nil e) enough = rw (is_zero p e) refl
print_rows-Cells (suc k) index cells p ((a, d) ∷ xs) (cons {q} e ne holds other rest) enough =
    rw (e, not_zero a ne, holds, print_rows-Cells k (index + 1) cells q xs rest (omega arith)) refl

-- What is left of a queue when its strings are freed: no cell of it.
pub record Emptied (fuel : ℕ) (q : Queue Str) (xs : List (Address × Str)) : Type 0 where
  pub rest : Queue Str
  pub frees : free_history fuel q ≡ some (map (λ y. y.1) xs, rest)
  pub empties : is_empty rest ≡ true
  pub no_cells : All (λ y. rest.cells y.0 ≡ none) xs
  pub others : (p : Address) → All (λ y. y.0 ≢ p) xs → rest.cells p ≡ q.cells p

free_history-step :
    (k : ℕ) (q q' rest : Queue Str) (d : Str) (strings : List Str)
    → is_empty q ≡ false
    → dequeue q ≡ some (some d, q')
    → free_history k q' ≡ some (strings, rest)
    → free_history (suc k) q ≡ some (d ∷ strings, rest)
unfolding free_history
free_history-step k q q' rest d strings busy e e' = rw (free_history, busy, e, e') refl

Holds-is_empty : (q : Queue Str) → Holds q [] → is_empty q ≡ true
unfolding is_empty
Holds-is_empty q holds = is_zero q.front (front_null holds.chain)

Holds-busy :
    (q : Queue Str) (x : Address × Str) (xs : List (Address × Str))
    → Holds q (x ∷ xs)
    → is_empty q ≡ false
unfolding is_empty
Holds-busy q x xs holds = not_zero q.front (front_ne holds.chain)

free_history-Emptied :
    (fuel : ℕ) (q : Queue Str) (xs : List (Address × Str))
    → Holds q xs
    → length xs < fuel
    → Emptied fuel q xs
unfolding free_history
free_history-Emptied zero q xs holds enough = absurd (omega arith)
free_history-Emptied (suc k) q [] holds enough = record {
  rest = q;
  frees = rw (free_history, Holds-is_empty q holds) refl;
  empties = Holds-is_empty q holds;
  no_cells = tt;
  others = λ p h. refl;
}
free_history-Emptied (suc k) q ((a, d) ∷ xs) holds enough =
    let after = dequeue-Dequeued q a d xs holds.chain holds.ends in
    let more = free_history-Emptied k after.rest xs after.holds (omega (arith, enough)) in
    record {
      rest = more.rest;
      frees =
          free_history-step k q after.rest more.rest d _ (Holds-busy q (a, d) xs holds)
            after.returns more.frees;
      empties = more.empties;
      no_cells = (
        more.others a after.other ∙ (ap (λ cells. cells a) after.frees ∙ put_self q.cells a none),
        more.no_cells,
      );
      others = λ p h.
          more.others p h.1
          ∙ (ap (λ cells. cells p) after.frees ∙ put_ne q.cells a p none (λ e. h.0 (sym e)));
    }

-- The life of the history of the shell.
pub record Lived (fuel : ℕ) (cells : Address → Option (Cell Str)) (xs : List (Address × Str))
    : Type 0 where
  pub full : Queue Str
  pub remembers : remember xs (create_queue cells) ≡ some full
  pub shows : print_rows fuel 0 full.cells full.front ≡ some (execute_history 0 (map (λ y. y.1) xs))
  pub emptied : Emptied fuel full xs

-- If `malloc` never returns NULL or a cell of the history, the commands of a session are enqueued
-- without a fault; `executeHistory` then prints them in order, numbered from 1; and the loop at the
-- end of `main` frees each of the strings once and leaves no cell, and changes no other memory. A
-- round of fuel for each command and one more is enough.
pub remember-Lived :
    (fuel : ℕ) (cells : Address → Option (Cell Str)) (xs : List (Address × Str))
    → Apart xs
    → length xs < fuel
    → Lived fuel cells xs
remember-Lived fuel cells xs apart enough =
    let (full, e, holds) =
      remember-Holds (create_queue cells) [] xs (create_queue-Holds cells) apart in
    record {
      full = full;
      remembers = e;
      shows = print_rows-Cells fuel 0 full.cells full.front xs holds.chain enough;
      emptied = free_history-Emptied fuel full xs holds enough;
    }
