-- ===== src/Server/Threads/Drain.antt =====
-- How long the server can run without a new client, and what is left to do then.
use cos.Base.{
  ℕ, suc, ◌+◌, ◌*◌, ◌≤◌, ◌<◌, ◌≡◌, ◌≢◌, refl, sym, ap, ◌∙◌, ◌⊎◌, inl, inr, false, List, [], ◌∷◌,
  ◌++◌, append-nil, map, arith, dec_lt,
}
use cos.Server.Request.{Request}
use cos.Server.Schedule.{Policy, fifo}
use cos.Server.Queue.{Ring}
use cos.Server.Queue.Slots.{requests}
use cos.Server.Threads.{
  Clients, MainPc, accepting, at_empty, putting, has_put, Pc, at_fill, taking, took, handling,
  System, Step, accept, wait_empty, lock_main, put, unlock_main, post_fill, wait_fill, lock_pool,
  take, unlock_pool, post_empty, finish, Reach, later,
}
use cos.Server.Threads.Invariant.{total, total-moved}
use cos.Server.Threads.History.{waiting, fifo-InOrder}
use cos.Server.Threads.Progress.{
  never_reads, never_answers, needs_client, Moves, moves, misses, no_deadlock,
}
use cos.Base.{some}
use cos.Base.{length}
use cos.Base.{true}
use cos.Base.{none}

-- The steps that are left for `main` before it accepts again, and for a thread of the pool before it
-- waits for `fill` again. A connection that `main` has not handed over stands for six steps more.
abbrev pub main_work : MainPc → ℕ
main_work accepting = 0
main_work (at_empty fd) = 11
main_work (MainPc.at_mutex fd) = 10
main_work (putting fd) = 9
main_work has_put = 8
main_work MainPc.at_post = 7

abbrev pub pool_work : Pc → ℕ
pool_work at_fill = 0
pool_work Pc.at_mutex = 5
pool_work taking = 4
pool_work (took r) = 3
pool_work (Pc.at_post r) = 2
pool_work (handling r) = 1

abbrev pub work : System → ℕ
work s = main_work s.main + 6 * s.fill + total pool_work s.pool

module _ (policy : Policy) (clients : Clients) where
  pool-work :
      (s : System) (us vs : List Pc) (p q : Pc)
      → s.pool ≡ us ++ p ∷ vs
      → suc (pool_work q) ≡ pool_work p
      → suc (total pool_work (us ++ q ∷ vs)) ≡ total pool_work s.pool
  pool-work s us vs p q e less = omega (arith, total-moved s us vs p q e pool_work, less)

  -- Each step that needs no client uses up one unit of the work.
  Step-work :
      {s t : System} (step : Step policy clients s t)
      → needs_client step ≡ false
      → suc (work t) ≡ work s
  Step-work (accept fd e) free = cc
  Step-work (wait_empty fd e pos) free = omega (arith, ap main_work e)
  Step-work (lock_main fd e pos) free = omega (arith, ap main_work e)
  Step-work (put fd receive e reads) free = omega (arith, ap main_work e)
  Step-work (unlock_main e) free = omega (arith, ap main_work e)
  Step-work (post_fill e) free = omega (arith, ap main_work e)
  Step-work {s} (wait_fill us vs e pos) free =
      omega (arith, total-moved s us vs at_fill Pc.at_mutex e pool_work, pos)
  Step-work {s} (lock_pool us vs e pos) free =
      omega (arith, pool-work s us vs Pc.at_mutex taking e refl)
  Step-work {s} (take us vs r rest e is) free =
      omega (arith, pool-work s us vs taking (took r) e refl)
  Step-work {s} (unlock_pool us vs r e) free =
      omega (arith, pool-work s us vs (took r) (Pc.at_post r) e refl)
  Step-work {s} (post_empty us vs r e) free =
      omega (arith, pool-work s us vs (Pc.at_post r) (handling r) e refl)
  Step-work {s} (finish us vs r e answered) free =
      omega (arith, pool-work s us vs (handling r) at_fill e refl)

  -- A run of so many steps without a new client.
  pub data Run : ℕ → System → System → Type 0 where
    here : (s : System) → Run 0 s s
    onward :
        (n : ℕ) (s t u : System) (step : Step policy clients s t)
        → needs_client step ≡ false
        → Run n t u
        → Run (suc n) s u

  Run-work : (n : ℕ) (s t : System) → Run n s t → n + work t ≡ work s
  Run-work n s t (here a) = omega arith
  Run-work n s t (onward m a b c step free run) =
      omega (arith, Run-work m b c run, Step-work step free)

  Run-Reach :
      {nthreads nbuffer : ℕ} {memory : ℕ → Request} (n : ℕ) (s t : System)
      → Reach policy clients nthreads nbuffer memory s
      → Run n s t
      → Reach policy clients nthreads nbuffer memory t
  Run-Reach n s t r (here a) = r
  Run-Reach n s t r (onward m a b c step free run) = Run-Reach m b c (later r step) run

-- What a state of a run comes to: `main` waits for a client and every connection has been taken, in
-- order, or some thread can make a step without a new client.
pub data Progresses (clients : Clients) (s : System) : Type 0 where
  drained : s.main ≡ accepting → s.takes ≡ s.puts → Progresses clients s
  goes_on :
      (t : System) (step : Step fifo clients s t) → needs_client step ≡ false → Progresses clients s

is_accepting : (m : MainPc) → (m ≡ accepting) ⊎ (m ≢ accepting)
is_accepting accepting = inl refl
is_accepting (at_empty fd) = inr (λ e. cc)
is_accepting (MainPc.at_mutex fd) = inr (λ e. cc)
is_accepting (putting fd) = inr (λ e. cc)
is_accepting has_put = inr (λ e. cc)
is_accepting MainPc.at_post = inr (λ e. cc)

none-waiting : (s : Ring) → s.count ≡ 0 → waiting s ≡ []
none-waiting s e = ap (λ c. map (λ r. r.connfd) (requests s.nbuffer s.head s.queue 0 c)) e

-- What the clients have to do for the server to go on: each request is read to its end, and each
-- handler comes to its end.
pub record Prompt (clients : Clients) : Type 0 where
  pub reads : (nth fd : ℕ) → (receive : Request → Request) × (clients.reads nth fd ≡ some receive)
  pub answers : (r : Request) → clients.answers r ≡ true

Moves-Progresses :
    (clients : Clients) (prompt : Prompt clients) (s : System)
    → Moves fifo clients s
    → Progresses clients s
Moves-Progresses clients prompt s (moves t step free) = goes_on t step free
Moves-Progresses clients prompt s (misses us vs xs e h nobody) = absurd nobody
Moves-Progresses clients prompt s (never_reads fd e endless) =
    let (receive, reads) = prompt.reads (length s.puts) fd in
    let no : none ≡ some receive = sym endless ∙ reads in cc
Moves-Progresses clients prompt s (never_answers us vs r e endless) =
    let no : false ≡ true = sym endless ∙ prompt.answers r in cc

-- Under FIFO, with at least one thread and one slot, where every request is read to its end and every
-- `requestHandle` comes to its end: from a reachable state the server makes at most `work` steps
-- before a new client connects, whatever the order of the threads; and as long as `main` is busy or a
-- connection has been put into the queue and not been taken, some thread can make the next one. So
-- each connection is taken from the queue after that many steps at most.
pub fifo-drains :
    {clients : Clients} {nthreads nbuffer : ℕ} {memory : ℕ → Request} (n : ℕ) (s t : System)
    → Prompt clients
    → 0 < nbuffer
    → 0 < nthreads
    → Reach fifo clients nthreads nbuffer memory s
    → Run fifo clients n s t
    → (n ≤ work s) × Progresses clients t
fifo-drains {clients} n s t prompt pos some_thread reach run =
    let reached = Run-Reach fifo clients n s t reach run in
    (
      omega (arith, Run-work fifo clients n s t run),
      elim (is_accepting t.main) [
        | inr busy ↦
            Moves-Progresses clients prompt t (no_deadlock pos some_thread reached (inl busy))
        | inl idle ↦ elim (dec_lt 0 t.ring.count) [
          | yes some_request ↦
              Moves-Progresses clients prompt t
                (no_deadlock pos some_thread reached (inr some_request))
          | no empty ↦ drained idle (
              sym (
                fifo-InOrder pos reached
                ∙ (ap (λ x. t.takes ++ x) (none-waiting t.ring (omega arith))
                    ∙ append-nil t.takes)))
        ]
      ],
    )
