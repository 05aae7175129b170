-- ===== src/Server/Threads/Safety.antt =====
-- What the semaphores guarantee in every state that the server can reach.
use cos.Base.{ℕ, ◌+◌, ◌<◌, ◌≡◌, ap, ◌∙◌, none, List, ◌∷◌, ◌++◌, arith}
use cos.Server.Request.{Request}
use cos.Server.Schedule.{Policy}
use cos.Server.Queue.{serve}
use cos.Server.Queue.Holds.{Holds}
use cos.Server.Queue.Policies.{Served}
use cos.Server.Threads.{Clients, putting, Pc, taking, System, Reach}
use cos.Server.Threads.Invariant.{
  main_locks, main_slots, locks, claims, total, total-middle, Reach-Inv, taking-Served,
}

module _ {policy : Policy} {clients : Clients} {nthreads nbuffer : ℕ} {memory : ℕ → Request}
    {s : System} (pos : 0 < nbuffer) (reach : Reach policy clients nthreads nbuffer memory s) where
  -- In a reachable state, with a queue of at least one slot: while a thread of the pool is between
  -- its operations on the mutex, `main` is not, no other thread is, and the mutex is taken.
  pub mutual_exclusion :
      (us vs : List Pc) (p : Pc)
      → s.pool ≡ us ++ p ∷ vs
      → locks p ≡ 1
      → (main_locks s.main ≡ 0) × (total locks us ≡ 0) × (total locks vs ≡ 0) × (s.mutex ≡ 0)
  mutual_exclusion us vs p e one =
      let v = Reach-Inv pos reach in
      let sum : total locks s.pool ≡ locks p + (total locks us + total locks vs) =
        ap (total locks) e ∙ total-middle locks us p vs in
      (
        omega (arith, v.exclusive, sum, one),
        omega (arith, v.exclusive, sum, one),
        omega (arith, v.exclusive, sum, one),
        omega (arith, v.exclusive, sum, one),
      )

  -- In a reachable state, with a queue of at least one slot: when `queue_put` writes to the slot at the
  -- tail, that slot is empty, and fewer slots than there are hold requests.
  pub putting-free :
      (fd : ℕ)
      → s.main ≡ putting fd
      → ((s.ring.queue s.ring.tail).connfd ≡ none) × (s.ring.count < s.ring.nbuffer)
  putting-free fd e =
      let v = Reach-Inv pos reach in
      let room : s.ring.count < s.ring.nbuffer =
        omega (arith, v.free_slots, v.size, ap main_slots e) in
      (
        ap (λ x. (s.ring.queue x).connfd) v.holds.tail_eq
            ∙ v.holds.free s.ring.count (omega arith) room,
        room,
      )

  -- In a reachable state, with a queue of at least one slot: a thread that takes a request finds the
  -- queue well formed and not empty, and takes the request that the policy asks for.
  pub taking_request :
      (us vs : List Pc)
      → s.pool ≡ us ++ taking ∷ vs
      → (xs : List Request) × Holds s.ring xs
        × (0 < s.ring.count)
        × Served policy s.ring xs (serve s.ring.nbuffer policy s.ring)
  taking_request us vs e =
      let v = Reach-Inv pos reach in
      (
        v.requests_in,
        v.holds,
        omega (arith, v.used_slots, ap (total claims) e, total-middle claims us taking vs),
        taking-Served policy clients v us vs e,
      )
