-- ===== src/Shell/Fifo.antt =====
-- The queue of myShell/queue.c is a list: what goes in first comes out first.
use mathlib.Core.Path.{subst}
use cos.Base.{
  ℕ, zero, suc, ◌<◌, ◌≡◌, ◌≢◌, refl, sym, ap, ◌∙◌, true, false, Option, none, some, List, [], ◌∷◌,
  ◌++◌, arith, ◌==◌, if◌then◌else◌, length, map, All,
}
use cos.Shell.Queue.{
  Address, Cell, Queue, put, create_queue, is_empty, link_rear, enqueue, dequeue, print_from,
  print_queue,
}

pub not_zero : (x : ℕ) → x ≢ 0 → (x == 0) ≡ false
not_zero x h = ground arith

pub is_zero : (x : ℕ) → x ≡ 0 → (x == 0) ≡ true
is_zero x h = ground arith

module _ {A : Type 0} where
  -- The cells from `p` to NULL, each with its address, no address twice.
  pub data Cells (cells : Address → Option (Cell A)) : Address → List (Address × A) → Type 0 where
    nil : {p : Address} → p ≡ 0 → Cells cells p []
    cons :
        {p a q : Address} {d : A} {xs : List (Address × A)}
        → p ≡ a
        → a ≢ 0
        → cells a ≡ some (record { data_of = d; next = q })
        → All (λ y. y.0 ≢ a) xs
        → Cells cells q xs
        → Cells cells p ((a, d) ∷ xs)

  abbrev pub last_of : (Address × A) → List (Address × A) → Address
  last_of x [] = x.0
  last_of x (y ∷ ys) = last_of y ys

  abbrev pub rear_of : List (Address × A) → Address
  rear_of [] = 0
  rear_of (x ∷ xs) = last_of x xs

  abbrev pub head? : List A → Option A
  head? [] = none
  head? (x ∷ xs) = some x

  abbrev pub tail_of : List (Address × A) → List (Address × A)
  tail_of [] = []
  tail_of (x ∷ xs) = xs

  -- The queue holds these cells.
  pub record Holds (q : Queue A) (xs : List (Address × A)) : Type 0 where
    pub chain : Cells q.cells q.front xs
    pub ends : q.rear ≡ rear_of xs

  pub put_ne :
      (cells : Address → Option (Cell A)) (a x : Address) (c : Option (Cell A))
      → x ≢ a
      → put cells a c x ≡ cells x
  put_ne cells a x c ne = ground (arith, ne)

  pub put_self :
      (cells : Address → Option (Cell A)) (a : Address) (c : Option (Cell A)) → put cells a c a ≡ c
  put_self cells a c = ground arith

  -- A cell elsewhere may change.
  Cells-put :
      {cells : Address → Option (Cell A)} {p : Address} {xs : List (Address × A)} (b : Address)
      (c : Option (Cell A))
      → All (λ y. y.0 ≢ b) xs
      → Cells cells p xs
      → Cells (put cells b c) p xs
  Cells-put b c out (nil e) = nil e
  Cells-put {cells} b c out (cons {a} e ne holds other rest) =
      cons e ne (put_ne cells b a c out.0 ∙ holds) other (Cells-put b c out.1 rest)

  last_of-ne :
      (a : Address) (y : Address × A) (ys : List (Address × A))
      → All (λ z. z.0 ≢ a) (y ∷ ys)
      → last_of y ys ≢ a
  last_of-ne a y [] h = h.0
  last_of-ne a y (z ∷ ys) h = last_of-ne a z ys h.1

  -- The last cell, and the cells with another one linked behind it.
  pub record Extended (cells : Address → Option (Cell A)) (p b : Address) (d : A) (x : Address × A)
      (xs : List (Address × A)) : Type 0 where
    pub last : Cell A
    pub last_ne : last_of x xs ≢ 0
    pub holds : cells (last_of x xs) ≡ some last
    pub chain :
        Cells
          (put cells (last_of x xs) (some (record last { next = b })))
          p
          ((x ∷ xs) ++ (b, d) ∷ [])

  All-snoc :
      (a b : Address) (d : A) (xs : List (Address × A))
      → All (λ y. y.0 ≢ a) xs
      → b ≢ a
      → All (λ y. y.0 ≢ a) (xs ++ (b, d) ∷ [])
  All-snoc a b d [] h ne = (ne, tt)
  All-snoc a b d (x ∷ xs) h ne = (h.0, All-snoc a b d xs h.1 ne)

  Cells-Extended :
      (cells : Address → Option (Cell A)) (p b : Address) (d : A) (x : Address × A)
      (xs : List (Address × A))
      → Cells cells p (x ∷ xs)
      → All (λ y. y.0 ≢ b) (x ∷ xs)
      → b ≢ 0
      → cells b ≡ some (record { data_of = d; next = 0 })
      → Extended cells p b d x xs
  Cells-Extended cells p b d x [] (cons {a} e ne holds other rest) fresh b_ne at_b = record {
    last = _;
    last_ne = ne;
    holds = holds;
    chain =
        cons e ne (put_self cells a _) (All-snoc a b d [] tt (λ z. fresh.0 (sym z)))
          (cons refl b_ne (put_ne cells a b _ (λ z. fresh.0 (sym z)) ∙ at_b) tt (nil refl));
  }
  Cells-Extended cells p b d x (y ∷ ys) (cons {a} {q} e ne holds other rest) fresh b_ne at_b =
      let r = Cells-Extended cells q b d y ys rest fresh.1 b_ne at_b in
      record {
        last = r.last;
        last_ne = r.last_ne;
        holds = r.holds;
        chain =
            cons e ne
              (put_ne cells (last_of y ys) a _ (λ z. last_of-ne a y ys other (sym z)) ∙ holds)
              (All-snoc a b d (y ∷ ys) other (λ z. fresh.0 (sym z))) r.chain;
      }

  last_of-snoc :
      (x : Address × A) (xs : List (Address × A)) (b : Address) (d : A)
      → last_of x (xs ++ (b, d) ∷ []) ≡ b
  last_of-snoc x [] b d = refl
  last_of-snoc x (y ∷ ys) b d = last_of-snoc y ys b d

  link_rear-some :
      (q : Queue A) (b : Address) {c : Cell A}
      → q.rear ≢ 0
      → q.cells q.rear ≡ some c
      → link_rear b q
        ≡ some (record q { cells = put q.cells q.rear (some (record c { next = b })); rear = b })
  unfolding link_rear
  link_rear-some q b ne e = ground arith

  Extended-Holds :
      (q : Queue A) (b : Address) (d : A) (x : Address × A) (xs : List (Address × A))
      → Extended q.cells q.front b d x xs
      → q.rear ≡ last_of x xs
      → (q' : Queue A) × (link_rear b q ≡ some q') × Holds q' ((x ∷ xs) ++ (b, d) ∷ [])
  Extended-Holds q b d x xs r e = (
    record q { cells = put q.cells q.rear (some (record r.last { next = b })); rear = b },
    link_rear-some q b (λ z. r.last_ne (sym e ∙ z)) (ap q.cells e ∙ r.holds),
    record { chain = rw (← e) at r.chain; ends = sym (last_of-snoc x xs b d) },
  )

  put_cell : (q : Queue A) (b : Address) (d : A) → Queue A
  put_cell q b d = record q { cells = put q.cells b (some (record { data_of = d; next = 0 })) }

  pub front_ne :
      {cells : Address → Option (Cell A)} {p : Address} {x : Address × A} {xs : List (Address × A)}
      → Cells cells p (x ∷ xs)
      → p ≢ 0
  front_ne (cons e ne holds other rest) = λ z. ne (sym e ∙ z)

  pub front_null : {cells : Address → Option (Cell A)} {p : Address} → Cells cells p [] → p ≡ 0
  front_null (nil e) = e

  -- On a queue that holds some cells, `enqueue` with a cell from `malloc` that is none of them
  -- succeeds, and the queue holds the new cell behind the others.
  pub enqueue-Holds :
      (q : Queue A) (xs : List (Address × A)) (b : Address) (d : A)
      → Holds q xs
      → b ≢ 0
      → All (λ y. y.0 ≢ b) xs
      → (q' : Queue A) × (enqueue b d q ≡ some q') × Holds q' (xs ++ (b, d) ∷ [])
  unfolding enqueue is_empty put_cell
  enqueue-Holds q [] b d holds b_ne fresh = (
    record (put_cell q b d) { front = b; rear = b },
    rw (not_zero b b_ne, is_zero q.front (front_null holds.chain)) refl,
    record { chain = cons refl b_ne (put_self q.cells b _) tt (nil refl); ends = refl },
  )
  enqueue-Holds q (x ∷ xs) b d holds b_ne fresh =
      let chain = Cells-put b _ fresh holds.chain in
      let extended =
        Cells-Extended (put_cell q b d).cells q.front b d x xs chain fresh b_ne
          (put_self q.cells b _) in
      rw (not_zero b b_ne, not_zero q.front (front_ne holds.chain))
        (Extended-Holds (put_cell q b d) b d x xs extended holds.ends)

  rear_after :
      {cells : Address → Option (Cell A)} {n r : Address} (z : Address × A)
      (xs : List (Address × A))
      → Cells cells n xs
      → r ≡ last_of z xs
      → (if n == 0 then 0 else r) ≡ rear_of xs
  rear_after {n} z [] c e = rw (is_zero n (front_null c)) refl
  rear_after {n} z (y ∷ ys) c e = rw (not_zero n (front_ne c)) e

  -- What `dequeue` makes of a queue whose first cell is `a`.
  pub record Dequeued (q : Queue A) (a : Address) (d : A) (xs : List (Address × A)) : Type 0 where
    pub rest : Queue A
    pub returns : dequeue q ≡ some (some d, rest)
    pub holds : Holds rest xs
    pub frees : rest.cells ≡ put q.cells a none
    pub other : All (λ y. y.0 ≢ a) xs

  pub dequeue-Dequeued :
      (q : Queue A) (a : Address) (d : A) (xs : List (Address × A))
      → Cells q.cells q.front ((a, d) ∷ xs)
      → q.rear ≡ last_of (a, d) xs
      → Dequeued q a d xs
  unfolding dequeue is_empty
  dequeue-Dequeued q a d xs (cons {q = n} e ne at_a other rest) ends = record {
    rest = record {
      cells = put q.cells q.front none;
      front = n;
      rear = if n == 0 then 0 else q.rear;
    };
    returns = ground (arith, e, ne, ap q.cells e ∙ at_a);
    holds = record {
      chain = Cells-put q.front none (rw (← e) at other) rest;
      ends = rear_after (a, d) xs rest ends;
    };
    frees = ap (λ p. put q.cells p none) e;
    other = other;
  }

  -- What `dequeue` comes to: NULL and the same queue, or the first of the data and a queue with the
  -- other cells, in which the first cell is freed and every other one is as it was.
  pub data Took (q : Queue A) : List (Address × A) → Option (Option A × Queue A) → Type 0 where
    null : Took q [] (some (none, q))
    first :
        (a : Address) (d : A) (xs : List (Address × A)) (rest : Queue A)
        → Holds rest xs
        → rest.cells ≡ put q.cells a none
        → Took q ((a, d) ∷ xs) (some (some d, rest))

  -- `dequeue` of a queue that holds cells returns the data of the first and frees its cell; the queue
  -- holds the others, and no other cell changes. Of an empty queue it returns NULL and changes
  -- nothing.
  pub dequeue-Holds : (q : Queue A) (xs : List (Address × A)) → Holds q xs → Took q xs (dequeue q)
  unfolding dequeue is_empty
  dequeue-Holds q [] holds = rw (dequeue, is_zero q.front (front_null holds.chain)) null
  dequeue-Holds q ((a, d) ∷ xs) holds =
      let after = dequeue-Dequeued q a d xs holds.chain holds.ends in
      subst (Took q ((a, d) ∷ xs)) (sym after.returns)
        (first a d xs after.rest after.holds after.frees)

  print_from-Cells :
      (fuel : ℕ) (cells : Address → Option (Cell A)) (p : Address) (xs : List (Address × A))
      → Cells cells p xs
      → length xs < fuel
      → print_from fuel cells p ≡ some (map (λ y. y.1) xs)
  unfolding print_from
  print_from-Cells zero cells p xs c enough = absurd (omega arith)
  print_from-Cells (suc k) cells p [] (nil e) enough = rw (is_zero p e) refl
  print_from-Cells (suc k) cells p ((a, d) ∷ xs) (cons {q} e ne holds other rest) enough =
      rw (e, not_zero a ne, holds, print_from-Cells k cells q xs rest (omega arith)) refl

  -- `printQueue` prints the data in the order of the queue, with a round of fuel for each cell and
  -- one more.
  print_queue-Holds :
      (fuel : ℕ) (q : Queue A) (xs : List (Address × A))
      → Holds q xs
      → length xs < fuel
      → print_queue fuel q ≡ some (map (λ y. y.1) xs)
  unfolding print_queue
  print_queue-Holds fuel q xs holds enough =
      print_from-Cells fuel q.cells q.front xs holds.chain enough

  -- `createQueue` makes a queue that holds nothing.
  pub create_queue-Holds : (cells : Address → Option (Cell A)) → Holds (create_queue cells) []
  unfolding create_queue
  create_queue-Holds cells = record { chain = nil refl; ends = refl }
