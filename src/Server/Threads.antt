-- ===== src/Server/Threads.antt =====
-- The threads of multiThreadedWebServer/server.c, interleaved at their semaphore operations: `main`
-- accepts connections and calls `queue_put`, and each thread of the pool runs `thread_handle`. What a
-- thread does while it holds the mutex is one step. A wait for a semaphore is a step that needs its
-- value to be positive.
pub mod Counts
pub mod Invariant
pub mod Safety
pub mod Progress
pub mod History
pub mod Drain
pub mod Accounts
mod Tests
use cos.Base.{
  length, Bool, true, ℕ, ◌+◌, ◌-◌, ◌≤◌, ◌<◌, ◌≡◌, Option, some, List, [], ◌∷◌, ◌++◌, replicate,
}
use cos.Server.Request.{Request}
use cos.Server.Schedule.{Policy}
use cos.Server.Queue.{Ring, serve, queue_put, empty_ring}

-- Where `main` stands: in `Accept`; at `sem_wait(&empty)`; at `sem_wait(&mutex)`; behind that; at
-- `sem_post(&mutex)`; at `sem_post(&fill)`.
pub data MainPc : Type 0 where
  accepting : MainPc
  at_empty : ℕ → MainPc
  at_mutex : ℕ → MainPc
  putting : ℕ → MainPc
  has_put : MainPc
  at_post : MainPc

-- Where a thread of the pool stands: at `sem_wait(&fill)`; at `sem_wait(&mutex)`; behind that; at
-- `sem_post(&mutex)`; at `sem_post(&empty)`; in `requestHandle` and `Close`.
pub data Pc : Type 0 where
  at_fill : Pc
  at_mutex : Pc
  taking : Pc
  took : Request → Pc
  at_post : Request → Pc
  handling : Request → Pc

-- `puts` and `takes` are histories: the connections put into the queue and taken from it, in order.
pub record System : Type 0 where
  pub ring : Ring
  pub empty : ℕ
  pub fill : ℕ
  pub mutex : ℕ
  pub main : MainPc
  pub pool : List Pc
  pub puts : List (Option ℕ)
  pub takes : List (Option ℕ)

-- What the clients do: what `queue_put` makes of its slot when it reads the request of a connection,
-- given how many connections were put before it, or that it reads for ever; and whether the thread
-- that handles a request comes to the end of its `requestHandle`.
pub record Clients : Type 0 where
  pub reads : (nth fd : ℕ) → Option (Request → Request)
  pub answers : Request → Bool

module _ (policy : Policy) (clients : Clients) where
  pub data Step (s : System) : System → Type 0 where
    accept : (fd : ℕ) → s.main ≡ accepting → Step s (record s { main = at_empty fd })
    wait_empty :
        (fd : ℕ)
        → s.main ≡ at_empty fd
        → 0 < s.empty
        → Step s (record s { main = MainPc.at_mutex fd; empty = s.empty - 1 })
    lock_main :
        (fd : ℕ)
        → s.main ≡ MainPc.at_mutex fd
        → 0 < s.mutex
        → Step s (record s { main = putting fd; mutex = s.mutex - 1 })
    put :
        (fd : ℕ) (receive : Request → Request)
        → s.main ≡ putting fd
        → clients.reads (length s.puts) fd ≡ some receive
        → Step s (record s {
          main = has_put;
          ring = queue_put receive fd s.ring;
          puts = s.puts ++ some fd ∷ [];
        })
    unlock_main :
        s.main ≡ has_put → Step s (record s { main = MainPc.at_post; mutex = s.mutex + 1 })
    post_fill : s.main ≡ MainPc.at_post → Step s (record s { main = accepting; fill = s.fill + 1 })
    wait_fill :
        (us vs : List Pc)
        → s.pool ≡ us ++ at_fill ∷ vs
        → 0 < s.fill
        → Step s (record s { pool = us ++ Pc.at_mutex ∷ vs; fill = s.fill - 1 })
    lock_pool :
        (us vs : List Pc)
        → s.pool ≡ us ++ Pc.at_mutex ∷ vs
        → 0 < s.mutex
        → Step s (record s { pool = us ++ taking ∷ vs; mutex = s.mutex - 1 })
    take :
        (us vs : List Pc) (r : Request) (rest : Ring)
        → s.pool ≡ us ++ taking ∷ vs
        → serve s.ring.nbuffer policy s.ring ≡ some (r, rest)
        → Step s
            (record s { pool = us ++ took r ∷ vs; ring = rest; takes = s.takes ++ r.connfd ∷ [] })
    unlock_pool :
        (us vs : List Pc) (r : Request)
        → s.pool ≡ us ++ took r ∷ vs
        → Step s (record s { pool = us ++ Pc.at_post r ∷ vs; mutex = s.mutex + 1 })
    post_empty :
        (us vs : List Pc) (r : Request)
        → s.pool ≡ us ++ Pc.at_post r ∷ vs
        → Step s (record s { pool = us ++ handling r ∷ vs; empty = s.empty + 1 })
    finish :
        (us vs : List Pc) (r : Request)
        → s.pool ≡ us ++ handling r ∷ vs
        → clients.answers r ≡ true
        → Step s (record s { pool = us ++ at_fill ∷ vs })

-- After `main` has set up the semaphores and made `nthreads` threads.
abbrev pub start : (nthreads nbuffer : ℕ) → (ℕ → Request) → System
start nthreads nbuffer memory = record {
  ring = empty_ring nbuffer memory;
  empty = nbuffer;
  fill = 0;
  mutex = 1;
  main = accepting;
  pool = replicate nthreads at_fill;
  puts = [];
  takes = [];
}

pub data Reach (policy : Policy) (clients : Clients) (nthreads nbuffer : ℕ) (memory : ℕ → Request)
    : System → Type 0 where
  started : Reach policy clients nthreads nbuffer memory (start nthreads nbuffer memory)
  later :
      {s t : System}
      → Reach policy clients nthreads nbuffer memory s
      → Step policy clients s t
      → Reach policy clients nthreads nbuffer memory t
