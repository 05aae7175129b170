-- ===== src/Server/Threads/Tests.antt =====
-- The theorems on the queue and the threads of the server, at a queue of two slots and one thread.
use cos.Base.{ℕ, ◌+◌, ◌≤◌, ◌<◌, ◌≡◌, refl, inl, true, none, some, List, [], ◌∷◌, arith}
use cos.Server.Request.{Request}
use cos.Server.Schedule.{Policy, fifo, sff}
use cos.Server.Queue.{Ring, serve, queue_put, empty_ring}
use cos.Server.Queue.Holds.{Holds}
use cos.Server.Queue.Put.{empty_ring-Holds, queue_put-Holds}
use cos.Server.Queue.Policies.{Served, serve-Served}
use cos.Server.Threads.{
  Clients, accepting, putting, at_fill, taking, System, accept, wait_empty, lock_main, put,
  unlock_main, post_fill, wait_fill, lock_pool, Reach, started, later,
}
use cos.Server.Threads.Invariant.{Inv, Reach-Inv, main_locks, total, locks}
use cos.Server.Threads.Safety.{mutual_exclusion, putting-free, taking_request}
use cos.Server.Threads.History.{InOrder, fifo-InOrder}
use cos.Server.Threads.Progress.{Moves, no_deadlock}
use cos.Server.Threads.Accounts.{Accounted, Reach-Accounted}
use cos.Server.Threads.Drain.{Prompt, Run, here, onward, Progresses, work, fifo-drains}

abbrev blank : Request
blank = record {
  connfd = none;
  is_static = true;
  stat_return = true;
  st_size = 5;
  st_mtime = some 1;
  st_mode = 33188;
  buf = [];
  method = [];
  uri = [];
  version = [];
  filename = [];
  cgiargs = [];
}

abbrev memory : ℕ → Request
memory i = blank

-- Each client asks for a file of another size.
abbrev receive : ℕ → Request → Request
receive fd r = record r { st_size = fd + 3 }

abbrev clients : Clients
clients = record { reads = λ nth fd. some (receive fd); answers = λ r. true }

prompt : Prompt clients
prompt = record { reads = λ nth fd. (receive fd, refl); answers = λ r. refl }

two_slots : Ring
two_slots = empty_ring 2 memory

one_request : Ring
one_request = queue_put (receive 4) 4 two_slots

queue_put-Holds_example :
    Holds (queue_put (receive 4) 4 two_slots) (record blank { connfd = some 4; st_size = 7 } ∷ [])
unfolding two_slots empty_ring
queue_put-Holds_example =
    queue_put-Holds (receive 4) 4 two_slots [] (empty_ring-Holds 2 memory (omega arith))
      (omega arith)

one_request-Holds : Holds one_request (record blank { connfd = some 4; st_size = 7 } ∷ [])
unfolding one_request two_slots empty_ring
one_request-Holds =
    queue_put-Holds (receive 4) 4 two_slots [] (empty_ring-Holds 2 memory (omega arith))
      (omega arith)

serve-Served_example :
    Served sff one_request
      (record blank { connfd = some 4; st_size = 7 } ∷ [])
      (serve 2 sff one_request)
unfolding one_request two_slots empty_ring queue_put
serve-Served_example =
    serve-Served one_request (record blank { connfd = some 4; st_size = 7 } ∷ []) one_request-Holds
      2 sff (omega arith) (omega arith)

-- `main` has put a request, and is about to put another one.
abbrev putting_state : System
putting_state = record {
  ring = queue_put (receive 4) 4 (empty_ring 2 memory);
  empty = 0;
  fill = 1;
  mutex = 0;
  main = putting 5;
  pool = at_fill ∷ [];
  puts = some 4 ∷ [];
  takes = [];
}

putting-Reach : {policy : Policy} → Reach policy clients 1 2 memory putting_state
putting-Reach =
    later
      (later
        (later
          (later
            (later
              (later
                (later (later (later started (accept 4 refl)) (wait_empty 4 refl (omega arith)))
                  (lock_main 4 refl (omega arith)))
                (put 4 (receive 4) refl refl))
              (unlock_main refl))
            (post_fill refl))
          (accept 5 refl))
        (wait_empty 5 refl (omega arith)))
      (lock_main 5 refl (omega arith))

Reach-Inv_example : Inv 2 putting_state
Reach-Inv_example = Reach-Inv {policy = sff} (omega arith) putting-Reach

putting-free_example :
    ((putting_state.ring.queue putting_state.ring.tail).connfd ≡ none)
    × (putting_state.ring.count < putting_state.ring.nbuffer)
putting-free_example = putting-free {policy = sff} (omega arith) putting-Reach 5 refl

fifo-InOrder_example : InOrder putting_state
fifo-InOrder_example = fifo-InOrder (omega arith) putting-Reach

no_deadlock_example : Moves fifo clients putting_state
no_deadlock_example = no_deadlock (omega arith) (omega arith) putting-Reach (inl (λ e. cc))

-- The thread of the pool is about to take the request.
abbrev taking_state : System
taking_state = record {
  ring = queue_put (receive 4) 4 (empty_ring 2 memory);
  empty = 1;
  fill = 0;
  mutex = 0;
  main = accepting;
  pool = taking ∷ [];
  puts = some 4 ∷ [];
  takes = [];
}

taking-Reach : Reach fifo clients 1 2 memory taking_state
taking-Reach =
    later
      (later
        (later
          (later
            (later
              (later (later (later started (accept 4 refl)) (wait_empty 4 refl (omega arith)))
                (lock_main 4 refl (omega arith)))
              (put 4 (receive 4) refl refl))
            (unlock_main refl))
          (post_fill refl))
        (wait_fill [] [] refl (omega arith)))
      (lock_pool [] [] refl (omega arith))

mutual_exclusion_example :
    (main_locks taking_state.main ≡ 0)
    × (total locks [] ≡ 0)
    × (total locks [] ≡ 0)
    × (taking_state.mutex ≡ 0)
mutual_exclusion_example = mutual_exclusion (omega arith) taking-Reach [] [] taking refl refl

taking_request_example :
    (xs : List Request) × Holds taking_state.ring xs
    × (0 < taking_state.ring.count)
    × Served fifo taking_state.ring xs (serve taking_state.ring.nbuffer fifo taking_state.ring)
taking_request_example = taking_request (omega arith) taking-Reach [] [] refl

-- `main` puts its request, lets the queue go and posts `fill`: three steps, and no new client.
abbrev put_state : System
put_state = record putting_state {
  main = accepting;
  ring = queue_put (receive 5) 5 (queue_put (receive 4) 4 (empty_ring 2 memory));
  puts = some 4 ∷ some 5 ∷ [];
  mutex = 1;
  fill = 2;
}

put-Run : Run fifo clients 3 putting_state put_state
put-Run =
    onward 2 _ _ _ (put 5 (receive 5) refl refl) refl (
      onward 1 _ _ _ (unlock_main refl) refl
        (onward 0 _ _ _ (post_fill refl) refl (here put_state)))

fifo-drains_example : (3 ≤ work putting_state) × Progresses clients put_state
fifo-drains_example =
    fifo-drains 3 putting_state put_state prompt (omega arith) (omega arith) putting-Reach put-Run

Reach-Accounted_example : Accounted putting_state
Reach-Accounted_example = Reach-Accounted {policy = sff} (omega arith) putting-Reach
