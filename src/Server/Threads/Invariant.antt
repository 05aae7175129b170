-- ===== src/Server/Threads/Invariant.antt =====
-- What the semaphores count; true at the start and kept by every step.
use mathlib.Core.Path.{subst}
use cos.Base.{
  ℕ, zero, suc, ◌+◌, ◌-◌, ◌<◌, ◌≡◌, refl, ap, ◌∙◌, Option, none, some, List, [], ◌∷◌, ◌++◌, arith,
  replicate,
}
use cos.Server.Request.{Request}
use cos.Server.Schedule.{Policy}
use cos.Server.Queue.{Ring, serve, queue_put, empty_ring}
use cos.Server.Queue.Holds.{Holds}
use cos.Server.Queue.Put.{queue_put-Holds, empty_ring-Holds}
use cos.Server.Queue.Policies.{Served, served, serve-Served}
use cos.Server.Threads.{
  Clients, MainPc, accepting, at_empty, putting, has_put, Pc, at_fill, taking, took, handling,
  System, Step, accept, wait_empty, lock_main, put, unlock_main, post_fill, wait_fill, lock_pool,
  take, unlock_pool, post_empty, finish, start, Reach, started, later,
}
pub use cos.Server.Threads.Counts.{
  claims, frees, locks, main_locks, main_puts, main_slots, total, total-middle,
}

-- Each request stands in the queue once, or is claimed; each slot is used, free, or in between.
pub record Inv (nbuffer : ℕ) (s : System) : Type 0 where
  pub pos : 0 < nbuffer
  pub requests_in : List Request
  pub holds : Holds s.ring requests_in
  pub size : s.ring.nbuffer ≡ nbuffer
  pub exclusive : s.mutex + main_locks s.main + total locks s.pool ≡ 1
  pub free_slots : s.empty + main_slots s.main + s.ring.count + total frees s.pool ≡ nbuffer
  pub used_slots : s.fill + total claims s.pool + main_puts s.main ≡ s.ring.count

-- The three sums after a thread of the pool has moved from `p` to `q`.
module _ (s : System) (us vs : List Pc) (p q : Pc) (e : s.pool ≡ us ++ p ∷ vs) where
  pub total-moved : (w : Pc → ℕ) → total w (us ++ q ∷ vs) + w p ≡ total w s.pool + w q
  total-moved w = omega (arith, ap (total w) e, total-middle w us p vs, total-middle w us q vs)

module _ {n : ℕ} {s : System} (policy : Policy) (clients : Clients) (v : Inv n s) where
  put-Inv :
      (fd : ℕ) (receive : Request → Request)
      → s.main ≡ putting fd
      → Inv n (record s {
        main = has_put;
        ring = queue_put receive fd s.ring;
        puts = s.puts ++ some fd ∷ [];
      })
  unfolding queue_put
  put-Inv fd receive e = record {
    pos = v.pos;
    requests_in = _;
    holds =
        queue_put-Holds receive fd s.ring v.requests_in v.holds
          (omega (arith, v.free_slots, v.size, ap main_slots e));
    size = v.size;
    exclusive = omega (arith, v.exclusive, ap main_locks e);
    free_slots = omega (arith, v.free_slots, ap main_slots e);
    used_slots = omega (arith, v.used_slots, ap main_puts e);
  }

  taken-Inv :
      (us vs : List Pc) (r : Request) (rest : Ring) (xs : List Request)
      → s.pool ≡ us ++ taking ∷ vs
      → Holds rest xs
      → rest.nbuffer ≡ s.ring.nbuffer
      → rest.count + 1 ≡ s.ring.count
      → Inv n (record s { pool = us ++ took r ∷ vs; ring = rest; takes = s.takes ++ r.connfd ∷ [] })
  taken-Inv us vs r rest xs e h same less = record {
    pos = v.pos;
    requests_in = xs;
    holds = h;
    size = same ∙ v.size;
    exclusive = omega (arith, v.exclusive, total-moved s us vs taking (took r) e locks);
    free_slots = omega (arith, v.free_slots, less, total-moved s us vs taking (took r) e frees);
    used_slots = omega (arith, v.used_slots, less, total-moved s us vs taking (took r) e claims);
  }

  -- A thread that takes finds a request in the queue.
  pub taking-count : (us vs : List Pc) → s.pool ≡ us ++ taking ∷ vs → 0 < s.ring.count
  taking-count us vs e =
      omega (arith, v.used_slots, ap (total claims) e, total-middle claims us taking vs)

  pub taking-Served :
      (us vs : List Pc)
      → s.pool ≡ us ++ taking ∷ vs
      → Served policy s.ring v.requests_in (serve s.ring.nbuffer policy s.ring)
  taking-Served us vs e =
      serve-Served s.ring v.requests_in v.holds s.ring.nbuffer policy (taking-count us vs e)
        v.holds.fits

  Served-Inv :
      (us vs : List Pc) (r : Request) (rest : Ring) (o : Option (Request × Ring))
      → s.pool ≡ us ++ taking ∷ vs
      → o ≡ some (r, rest)
      → Served policy s.ring v.requests_in o
      → Inv n (record s { pool = us ++ took r ∷ vs; ring = rest; takes = s.takes ++ r.connfd ∷ [] })
  Served-Inv us vs r rest none e is h = cc
  Served-Inv us vs r rest (some (r', rest')) e is
        (served before _ after _ was preferred used h same less) =
      let one : rest' ≡ rest = cc in
      subst
        (λ x.
          Inv n (record s { pool = us ++ took r ∷ vs; ring = x; takes = s.takes ++ r.connfd ∷ [] }))
        one (taken-Inv us vs r rest' (before ++ after) e h same less)

  -- A step that leaves the ring alone keeps the sums.
  sums-Inv :
      (empty fill mutex : ℕ) (main : MainPc) (pool : List Pc)
      → mutex + main_locks main + total locks pool
        ≡ s.mutex + main_locks s.main + total locks s.pool
      → empty + main_slots main + total frees pool
        ≡ s.empty + main_slots s.main + total frees s.pool
      → fill + total claims pool + main_puts main ≡ s.fill + total claims s.pool + main_puts s.main
      → Inv n (record s { empty = empty; fill = fill; mutex = mutex; main = main; pool = pool })
  sums-Inv empty fill mutex main pool e f g = record {
    pos = v.pos;
    requests_in = v.requests_in;
    holds = v.holds;
    size = v.size;
    exclusive = omega (arith, v.exclusive);
    free_slots = omega (arith, v.free_slots);
    used_slots = omega (arith, v.used_slots);
  }

  -- `main` moves, where `e` says from where.
  main-Inv :
      (empty fill mutex : ℕ) (from to : MainPc)
      → s.main ≡ from
      → mutex + main_locks to ≡ s.mutex + main_locks from
      → empty + main_slots to ≡ s.empty + main_slots from
      → fill + main_puts to ≡ s.fill + main_puts from
      → Inv n (record s { empty = empty; fill = fill; mutex = mutex; main = to })
  main-Inv empty fill mutex from to e a b c =
      sums-Inv empty fill mutex to s.pool (omega (arith, ap main_locks e))
        (omega (arith, ap main_slots e)) (omega (arith, ap main_puts e))

  -- A thread of the pool moves.
  pool-Inv :
      (empty fill mutex : ℕ) (us vs : List Pc) (from to : Pc)
      → s.pool ≡ us ++ from ∷ vs
      → mutex + locks to ≡ s.mutex + locks from
      → empty + frees to ≡ s.empty + frees from
      → fill + claims to ≡ s.fill + claims from
      → Inv n (record s { empty = empty; fill = fill; mutex = mutex; pool = us ++ to ∷ vs })
  pool-Inv empty fill mutex us vs from to e a b c =
      sums-Inv empty fill mutex s.main (us ++ to ∷ vs)
        (omega (arith, a, total-moved s us vs from to e locks))
        (omega (arith, b, total-moved s us vs from to e frees))
        (omega (arith, c, total-moved s us vs from to e claims))

  -- Every step keeps the invariant.
  pub Step-Inv : {t : System} → Step policy clients s t → Inv n t
  Step-Inv (accept fd e) =
      main-Inv s.empty s.fill s.mutex accepting (at_empty fd) e (omega arith) (omega arith)
        (omega arith)
  Step-Inv (wait_empty fd e pos) =
      main-Inv (s.empty - 1) s.fill s.mutex (at_empty fd) (MainPc.at_mutex fd) e (omega arith)
        (omega (arith, pos)) (omega arith)
  Step-Inv (lock_main fd e pos) =
      main-Inv s.empty s.fill (s.mutex - 1) (MainPc.at_mutex fd) (putting fd) e (omega (arith, pos))
        (omega arith) (omega arith)
  Step-Inv (put fd receive e reads) = put-Inv fd receive e
  Step-Inv (unlock_main e) =
      main-Inv s.empty s.fill (s.mutex + 1) has_put MainPc.at_post e (omega arith) (omega arith)
        (omega arith)
  Step-Inv (post_fill e) =
      main-Inv s.empty (s.fill + 1) s.mutex MainPc.at_post accepting e (omega arith) (omega arith)
        (omega arith)
  Step-Inv (wait_fill us vs e pos) =
      pool-Inv s.empty (s.fill - 1) s.mutex us vs at_fill Pc.at_mutex e (omega arith) (omega arith)
        (omega (arith, pos))
  Step-Inv (lock_pool us vs e pos) =
      pool-Inv s.empty s.fill (s.mutex - 1) us vs Pc.at_mutex taking e (omega (arith, pos))
        (omega arith) (omega arith)
  Step-Inv (take us vs r rest e is) = Served-Inv us vs r rest _ e is (taking-Served us vs e)
  Step-Inv (unlock_pool us vs r e) =
      pool-Inv s.empty s.fill (s.mutex + 1) us vs (took r) (Pc.at_post r) e (omega arith)
        (omega arith) (omega arith)
  Step-Inv (post_empty us vs r e) =
      pool-Inv (s.empty + 1) s.fill s.mutex us vs (Pc.at_post r) (handling r) e (omega arith)
        (omega arith) (omega arith)
  Step-Inv (finish us vs r e answered) =
      pool-Inv s.empty s.fill s.mutex us vs (handling r) at_fill e (omega arith) (omega arith)
        (omega arith)

total-replicate : (w : Pc → ℕ) (k : ℕ) → w at_fill ≡ 0 → total w (replicate k at_fill) ≡ 0
total-replicate w zero e = refl
total-replicate w (suc k) e = omega (arith, e, total-replicate w k e)

pub start-Inv :
    (nthreads nbuffer : ℕ) (memory : ℕ → Request)
    → 0 < nbuffer
    → Inv nbuffer (start nthreads nbuffer memory)
unfolding empty_ring
start-Inv nthreads nbuffer memory pos = record {
  pos = pos;
  requests_in = [];
  holds = empty_ring-Holds nbuffer memory pos;
  size = refl;
  exclusive = omega (arith, total-replicate locks nthreads refl);
  free_slots = omega (arith, total-replicate frees nthreads refl);
  used_slots = omega (arith, total-replicate claims nthreads refl);
}

-- In every state that the server can reach with a queue of at least one slot, under any policy: the
-- ring is well formed; at most one thread holds the mutex, and none if its value is 1; the slots are
-- `empty`, or reserved by `main`, or used, or just emptied; the used ones are counted by `fill`, or
-- claimed by a thread of the pool, or just filled.
pub Reach-Inv :
    {policy : Policy} {clients : Clients} {nthreads nbuffer : ℕ} {memory : ℕ → Request} {s : System}
    → 0 < nbuffer
    → Reach policy clients nthreads nbuffer memory s
    → Inv nbuffer s
Reach-Inv {nthreads} {nbuffer} {memory} pos started = start-Inv nthreads nbuffer memory pos
Reach-Inv {policy} {clients} pos (later r step) = Step-Inv policy clients (Reach-Inv pos r) step
