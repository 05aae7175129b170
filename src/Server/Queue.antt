-- ===== src/Server/Queue.antt =====
-- The ring of requests of multiThreadedWebServer/server.c: what `thread_handle` and `queue_put` do
-- while they hold the mutex. An index is below `nbuffer`, which `getargs` makes positive; the read and
-- the write at index -1 are a fault.
pub mod Slots
pub mod Shift
pub mod Holds
pub mod Close
pub mod Serve
pub mod Put
pub mod Policies
use cos.Base.{ℕ, zero, suc, ◌+◌, ◌-◌, ◌%◌, Option, none, some, List, [], ◌∷◌, ◌==◌, if◌then◌else◌}
use cos.Server.Request.{Request}
use cos.Server.Schedule.{Policy, choose}

pub record Ring : Type 0 where
  pub queue : ℕ → Request
  pub nbuffer : ℕ
  pub head : ℕ
  pub tail : ℕ
  pub count : ℕ

-- `queue[i] = r`
abbrev pub store : (ℕ → Request) → ℕ → Request → ℕ → Request
store queue i r x = if x == i then r else queue x

-- `queue[i].connfd = -1`
abbrev pub clear : (ℕ → Request) → ℕ → ℕ → Request
clear queue i = store queue i (record (queue i) { connfd = none })

-- The loop of `shift_queue_left`; `last` is `(tail - 1 + nbuffer) % nbuffer`.
unfoldable pub shift_loop : ℕ → (nbuffer last i : ℕ) → (ℕ → Request) → Option (ℕ → Request)
shift_loop zero nbuffer last i queue = none
shift_loop (suc k) nbuffer last i queue =
    let next_index = (i + 1) % nbuffer in
    let rest = shift_loop k nbuffer last next_index (store queue i (queue next_index)) in
    if i == last then some queue else rest

-- `shift_queue_left`
unfoldable pub shift_queue_left : ℕ → (start_index : ℕ) → Ring → Option Ring
shift_queue_left fuel start_index s =
    let last = (s.tail + s.nbuffer - 1) % s.nbuffer in
    elim (shift_loop fuel s.nbuffer last start_index s.queue) [
      | none ↦ none
      | some queue ↦ some (record s {
        queue = clear queue last;
        head = if last == s.head then (s.head + 1) % s.nbuffer else s.head;
        tail = last;
      })
    ]

-- The slots in the order of the array.
abbrev pub slots : (ℕ → Request) → ℕ → ℕ → List Request
slots queue i zero = []
slots queue i (suc k) = queue i ∷ slots queue (suc i) k

-- What `thread_handle` does with its target: the request is copied, its slot is emptied, and the
-- ring closed.
unfoldable pub take_request : ℕ → (target : ℕ) → Ring → Option (Request × Ring)
take_request fuel target s =
    let request = s.queue target in
    let emptied = record s { queue = clear s.queue target } in
    let closed =
      if target == s.head
      then some (record emptied { head = (s.head + 1) % s.nbuffer })
      else shift_queue_left fuel target emptied in
    elim closed [ none ↦ none | some s' ↦ some (request, record s' { count = s'.count - 1 }) ]

-- `thread_handle` between `sem_wait(&mutex)` and `sem_post(&mutex)`.
unfoldable pub serve : ℕ → Policy → Ring → Option (Request × Ring)
serve fuel policy s = elim (choose policy s.head (slots s.queue 0 s.nbuffer)) [
  | none ↦ none
  | some target ↦ take_request fuel target s
]

-- `queue_put` between `sem_wait(&mutex)` and `sem_post(&mutex)`; `receive` is what reading the request
-- from the connection makes of the fields of the slot.
unfoldable pub queue_put : (receive : Request → Request) → (connfd : ℕ) → Ring → Ring
queue_put receive connfd s = record s {
  queue = store s.queue s.tail (record (receive (s.queue s.tail)) { connfd = some connfd });
  tail = (s.tail + 1) % s.nbuffer;
  count = s.count + 1;
}

-- The ring that `main` sets up, in memory that `malloc` returned.
unfoldable pub empty_ring : (nbuffer : ℕ) → (ℕ → Request) → Ring
empty_ring nbuffer memory = record {
  queue = λ i. record (memory i) { connfd = none };
  nbuffer = nbuffer;
  head = 0;
  tail = 0;
  count = 0;
}
