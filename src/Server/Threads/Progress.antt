-- ===== src/Server/Threads/Progress.antt =====
-- The server does not come to a standstill.
use cos.Base.{
  ℕ, ◌<◌, ◌≡◌, ◌≢◌, refl, sym, ap, ◌∙◌, ◌⊎◌, inl, inr, Option, none, some, List, [], ◌∷◌, ◌++◌,
  arith, length, dec_lt,
}
use cos.Server.Request.{Request}
use cos.Server.Schedule.{Policy}
use cos.Server.Queue.{Ring, serve}
use cos.Server.Queue.Holds.{Holds}
use cos.Server.Queue.Policies.{Overlooked, Served, overlooked}
use cos.Server.Threads.{
  Clients, MainPc, accepting, at_empty, putting, has_put, Pc, at_fill, taking, took, handling,
  System, Step, accept, wait_empty, lock_main, put, unlock_main, post_fill, wait_fill, lock_pool,
  take, unlock_pool, post_empty, finish, Reach, started,
}
use cos.Server.Threads.Invariant.{
  main_locks, main_slots, main_puts, locks, claims, frees, total, Inv, Reach-Inv, taking-Served,
}
use cos.Base.{length-replicate}
use cos.Base.{length-append}
use cos.Base.{false}
use cos.Base.{Bool}
use cos.Server.Threads.{later}
use cos.Base.{true, Option-cases, Bool-cases}

-- Whether a step waits for a client to connect.
abbrev pub needs_client :
    {policy : Policy} {clients : Clients} {s t : System} → Step policy clients s t → Bool
needs_client (accept fd e) = true
needs_client (wait_empty fd e pos) = false
needs_client (lock_main fd e pos) = false
needs_client (put fd receive e reads) = false
needs_client (unlock_main e) = false
needs_client (post_fill e) = false
needs_client (wait_fill us vs e pos) = false
needs_client (lock_pool us vs e pos) = false
needs_client (take us vs r rest e is) = false
needs_client (unlock_pool us vs r e) = false
needs_client (post_empty us vs r e) = false
needs_client (finish us vs r e answered) = false

-- Some thread can make a step without a new client, or the server is held up: a thread of the pool is
-- about to read `queue[-1]`, `main` reads a request for ever with the mutex in its hands, or a thread
-- never comes to the end of `requestHandle`.
pub data Moves (policy : Policy) (clients : Clients) (s : System) : Type 0 where
  moves :
      (t : System) (step : Step policy clients s t)
      → needs_client step ≡ false
      → Moves policy clients s
  misses :
      (us vs : List Pc) (xs : List Request)
      → s.pool ≡ us ++ taking ∷ vs
      → Holds s.ring xs
      → Overlooked policy xs
      → Moves policy clients s
  never_reads :
      (fd : ℕ)
      → s.main ≡ putting fd
      → clients.reads (length s.puts) fd ≡ none
      → Moves policy clients s
  never_answers :
      (us vs : List Pc) (r : Request)
      → s.pool ≡ us ++ handling r ∷ vs
      → clients.answers r ≡ false
      → Moves policy clients s

-- A positive sum has a positive part.
find :
    (w : Pc → ℕ) (ps : List Pc)
    → 0 < total w ps
    → (us : List Pc) × (p : Pc) × (vs : List Pc) × (ps ≡ us ++ p ∷ vs) × (0 < w p)
find w [] pos = absurd (omega arith)
find w (p ∷ ps) pos = elim (dec_lt 0 (w p)) [
  | yes here ↦ ([], p, ps, refl, here)
  | no zero_here ↦
      let (us, q, vs, e, found) = find w ps (omega arith) in
      (p ∷ us, q, vs, ap (λ t. p ∷ t) e, found)
]

module _ {n : ℕ} {s : System} (policy : Policy) (clients : Clients) (v : Inv n s) where
  take-Moves :
      (us vs : List Pc) (o : Option (Request × Ring))
      → s.pool ≡ us ++ taking ∷ vs
      → serve s.ring.nbuffer policy s.ring ≡ o
      → Served policy s.ring v.requests_in o
      → Moves policy clients s
  take-Moves us vs none e is (overlooked all) = misses us vs v.requests_in e v.holds all
  take-Moves us vs (some (r, rest)) e is h = moves _ (take us vs r rest e is) refl

  put-Moves : (fd : ℕ) → s.main ≡ putting fd → Moves policy clients s
  put-Moves fd e = elim (Option-cases (clients.reads (length s.puts) fd)) [
    | inl endless ↦ never_reads fd e endless
    | inr (receive, reads) ↦ moves _ (put fd receive e reads) refl
  ]

  finish-Moves :
      (us vs : List Pc) (r : Request) → s.pool ≡ us ++ handling r ∷ vs → Moves policy clients s
  finish-Moves us vs r e = elim (Bool-cases (clients.answers r)) [
    | inl answered ↦ moves _ (finish us vs r e answered) refl
    | inr endless ↦ never_answers us vs r e endless
  ]

  -- The holder of the mutex moves.
  lock-Moves :
      (us vs : List Pc) (p : Pc) → s.pool ≡ us ++ p ∷ vs → 0 < locks p → Moves policy clients s
  lock-Moves us vs taking e pos = take-Moves us vs _ e refl (taking-Served policy clients v us vs e)
  lock-Moves us vs (took r) e pos = moves _ (unlock_pool us vs r e) refl
  lock-Moves us vs at_fill e pos = absurd (omega arith)
  lock-Moves us vs Pc.at_mutex e pos = absurd (omega arith)
  lock-Moves us vs (Pc.at_post r) e pos = absurd (omega arith)
  lock-Moves us vs (handling r) e pos = absurd (omega arith)

  holder-Moves : (m : MainPc) → s.main ≡ m → 0 < main_locks m → Moves policy clients s
  holder-Moves (putting fd) e pos = put-Moves fd e
  holder-Moves has_put e pos = moves _ (unlock_main e) refl
  holder-Moves accepting e pos = absurd (omega arith)
  holder-Moves (at_empty fd) e pos = absurd (omega arith)
  holder-Moves (MainPc.at_mutex fd) e pos = absurd (omega arith)
  holder-Moves MainPc.at_post e pos = absurd (omega arith)

  -- Whoever waits for the mutex: it is free, or its holder moves.
  mutex-Moves : (0 < s.mutex → Moves policy clients s) → Moves policy clients s
  mutex-Moves free = elim (dec_lt 0 s.mutex) [
    | yes pos ↦ free pos
    | no taken ↦ elim (dec_lt 0 (main_locks s.main)) [
      | yes by_main ↦ holder-Moves s.main refl by_main
      | no not_main ↦
          let (us, p, vs, e, pos) = find locks s.pool (omega (arith, v.exclusive)) in
          lock-Moves us vs p e pos
    ]
  ]

  claim-Moves :
      (us vs : List Pc) (p : Pc) → s.pool ≡ us ++ p ∷ vs → 0 < claims p → Moves policy clients s
  claim-Moves us vs Pc.at_mutex e pos = mutex-Moves (λ free. moves _ (lock_pool us vs e free) refl)
  claim-Moves us vs taking e pos = lock-Moves us vs taking e (omega arith)
  claim-Moves us vs at_fill e pos = absurd (omega arith)
  claim-Moves us vs (took r) e pos = absurd (omega arith)
  claim-Moves us vs (Pc.at_post r) e pos = absurd (omega arith)
  claim-Moves us vs (handling r) e pos = absurd (omega arith)

  free-Moves :
      (us vs : List Pc) (p : Pc) → s.pool ≡ us ++ p ∷ vs → 0 < frees p → Moves policy clients s
  free-Moves us vs (took r) e pos = moves _ (unlock_pool us vs r e) refl
  free-Moves us vs (Pc.at_post r) e pos = moves _ (post_empty us vs r e) refl
  free-Moves us vs at_fill e pos = absurd (omega arith)
  free-Moves us vs Pc.at_mutex e pos = absurd (omega arith)
  free-Moves us vs taking e pos = absurd (omega arith)
  free-Moves us vs (handling r) e pos = absurd (omega arith)

  -- With a request posted, any thread of the pool moves, or the one that it waits for.
  thread-Moves : (p : Pc) (vs : List Pc) → s.pool ≡ p ∷ vs → 0 < s.fill → Moves policy clients s
  thread-Moves at_fill vs e pos = moves _ (wait_fill [] vs e pos) refl
  thread-Moves Pc.at_mutex vs e pos = claim-Moves [] vs Pc.at_mutex e (omega arith)
  thread-Moves taking vs e pos = claim-Moves [] vs taking e (omega arith)
  thread-Moves (took r) vs e pos = free-Moves [] vs (took r) e (omega arith)
  thread-Moves (Pc.at_post r) vs e pos = free-Moves [] vs (Pc.at_post r) e (omega arith)
  thread-Moves (handling r) vs e pos = finish-Moves [] vs r e

  -- Where requests wait and `main` is not about to post one, the pool moves.
  waiting-Moves :
      (ps : List Pc)
      → s.pool ≡ ps
      → 0 < length ps
      → 0 < s.ring.count
      → main_puts s.main ≡ 0
      → Moves policy clients s
  waiting-Moves [] e some_thread pos idle = absurd (omega arith)
  waiting-Moves (p ∷ ps) e some_thread pos idle = elim (dec_lt 0 s.fill) [
    | yes posted ↦ thread-Moves p ps e posted
    | no not_posted ↦
        let (us, q, vs, f, found) = find claims s.pool (omega (arith, v.used_slots)) in
        claim-Moves us vs q f found
  ]

  -- `main` waits for a slot.
  full-Moves : (fd : ℕ) → s.main ≡ at_empty fd → 0 < length s.pool → Moves policy clients s
  full-Moves fd e some_thread = elim (dec_lt 0 s.empty) [
    | yes pos ↦ moves _ (wait_empty fd e pos) refl
    | no full ↦ elim (dec_lt 0 (total frees s.pool)) [
      | yes freed ↦
          let (us, q, vs, f, found) = find frees s.pool freed in free-Moves us vs q f found
      | no none_freed ↦
          waiting-Moves s.pool refl some_thread
            (omega (arith, v.free_slots, v.pos, ap main_slots e)) (omega (arith, ap main_puts e))
    ]
  ]

  main-Moves :
      (m : MainPc)
      → s.main ≡ m
      → 0 < length s.pool
      → (m ≢ accepting) ⊎ (0 < s.ring.count)
      → Moves policy clients s
  main-Moves accepting e some_thread (inl busy) = absurd (busy refl)
  main-Moves accepting e some_thread (inr pos) =
      waiting-Moves s.pool refl some_thread pos (omega (arith, ap main_puts e))
  main-Moves (at_empty fd) e some_thread h = full-Moves fd e some_thread
  main-Moves (MainPc.at_mutex fd) e some_thread h =
      mutex-Moves (λ free. moves _ (lock_main fd e free) refl)
  main-Moves (putting fd) e some_thread h = put-Moves fd e
  main-Moves has_put e some_thread h = moves _ (unlock_main e) refl
  main-Moves MainPc.at_post e some_thread h = moves _ (post_fill e) refl

length-middle :
    (us : List Pc) (p q : Pc) (vs : List Pc) → length (us ++ p ∷ vs) ≡ length (us ++ q ∷ vs)
length-middle us p q vs =
    omega (arith, length-append {0} us (p ∷ vs), length-append {0} us (q ∷ vs))

pool-length :
    {policy : Policy} {clients : Clients} {s t : System}
    → Step policy clients s t
    → length t.pool ≡ length s.pool
pool-length (accept fd e) = refl
pool-length (wait_empty fd e pos) = refl
pool-length (lock_main fd e pos) = refl
pool-length (put fd receive e reads) = refl
pool-length (unlock_main e) = refl
pool-length (post_fill e) = refl
pool-length (wait_fill us vs e pos) = length-middle us _ _ vs ∙ sym (ap length e)
pool-length (lock_pool us vs e pos) = length-middle us _ _ vs ∙ sym (ap length e)
pool-length (take us vs r rest e is) = length-middle us _ _ vs ∙ sym (ap length e)
pool-length (unlock_pool us vs r e) = length-middle us _ _ vs ∙ sym (ap length e)
pool-length (post_empty us vs r e) = length-middle us _ _ vs ∙ sym (ap length e)
pool-length (finish us vs r e answered) = length-middle us _ _ vs ∙ sym (ap length e)

Reach-length :
    {policy : Policy} {clients : Clients} {nthreads nbuffer : ℕ} {memory : ℕ → Request} {s : System}
    → Reach policy clients nthreads nbuffer memory s
    → length s.pool ≡ nthreads
Reach-length {nthreads} started = length-replicate nthreads at_fill
Reach-length (later r step) = pool-length step ∙ Reach-length r

-- In every reachable state of a server with at least one thread and one slot in which `main` is busy
-- with a connection or a request waits in the queue, some thread can make a step without a new client,
-- unless one is held up for good: a thread of the pool is about to read `queue[-1]`, since the policy
-- overlooks all requests; or `main`, which holds the mutex, reads a request whose end never comes; or
-- a thread never comes to the end of `requestHandle`. The semaphores alone never stop the server.
pub no_deadlock :
    {policy : Policy} {clients : Clients} {nthreads nbuffer : ℕ} {memory : ℕ → Request} {s : System}
    → 0 < nbuffer
    → 0 < nthreads
    → Reach policy clients nthreads nbuffer memory s
    → (s.main ≢ accepting) ⊎ (0 < s.ring.count)
    → Moves policy clients s
no_deadlock {policy} {clients} {s} pos some_thread reach busy =
    main-Moves policy clients (Reach-Inv pos reach) s.main refl
      (omega (arith, some_thread, Reach-length reach)) busy
