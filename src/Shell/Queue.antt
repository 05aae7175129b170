-- ===== src/Shell/Queue.antt =====
-- myShell/queue.c: a queue of `char*` as a linked list. The cells of memory are a function; reading
-- or writing at NULL or at a cell that is not allocated is `none`. What `malloc` returns is an
-- argument of `enqueue`, and `printQueue` is the list of what it prints.
use mathlib.Core.Option
use cos.Base.{ℕ, zero, suc, Bool, Option, none, some, List, [], ◌∷◌, ◌==◌, if◌then◌else◌}

abbrev pub Address : Type 0
Address = ℕ

-- `struct Node`
pub record Cell (A : Type 0) : Type 0 where
  pub data_of : A
  pub next : Address

-- `Queue`, with the memory.
pub record Queue (A : Type 0) : Type 0 where
  pub cells : Address → Option (Cell A)
  pub front : Address
  pub rear : Address

module _ {A : Type 0} where
  abbrev pub put :
      (Address → Option (Cell A)) → Address → Option (Cell A) → Address → Option (Cell A)
  put cells a c x = if x == a then c else cells x

  unfoldable pub create_queue : (Address → Option (Cell A)) → Queue A
  create_queue cells = record { cells = cells; front = 0; rear = 0 }

  unfoldable pub is_empty : Queue A → Bool
  is_empty q = q.front == 0

  -- `queue->rear->next = newNode; queue->rear = newNode;`
  unfoldable pub link_rear : Address → Queue A → Option (Queue A)
  link_rear p q = if q.rear == 0 then none else elim (q.cells q.rear) [
    | none ↦ none
    | some c ↦
        some (record q { cells = put q.cells q.rear (some (record c { next = p })); rear = p })
  ]

  -- `enqueue` where `malloc` returns `p`.
  unfoldable pub enqueue : Address → A → Queue A → Option (Queue A)
  enqueue p d q =
      if p == 0
      then none
      else let q' = record q { cells = put q.cells p (some (record { data_of = d; next = 0 })) } in
        if is_empty q' then some (record q' { front = p; rear = p }) else link_rear p q'

  -- `dequeue`; the data are `none` where it returns NULL.
  unfoldable pub dequeue : Queue A → Option (Option A × Queue A)
  dequeue q = if is_empty q then some (none, q) else elim (q.cells q.front) [
    | none ↦ none
    | some c ↦ some (
      some c.data_of,
      record {
        cells = put q.cells q.front none;
        front = c.next;
        rear = if c.next == 0 then 0 else q.rear;
      },
    )
  ]

  unfoldable pub print_from : ℕ → (Address → Option (Cell A)) → Address → Option (List A)
  print_from zero cells p = none
  print_from (suc k) cells p = if p == 0 then some [] else elim (cells p) [
    | none ↦ none
    | some c ↦ Option.map (λ xs. c.data_of ∷ xs) (print_from k cells c.next)
  ]

  unfoldable pub print_queue : ℕ → Queue A → Option (List A)
  print_queue fuel q = print_from fuel q.cells q.front
