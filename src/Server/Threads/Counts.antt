-- ===== src/Server/Threads/Counts.antt =====
-- What each thread of the server stands for in the sums of the semaphores.
use cos.Base.{ℕ, ◌+◌, ◌≡◌, List, [], ◌∷◌, ◌++◌, arith}
use cos.Server.Threads.{
  MainPc, accepting, at_empty, putting, has_put, Pc, at_fill, taking, took, handling,
}

-- 1 where `main` holds the mutex, a free slot that it has not filled, a filled slot not yet posted.
abbrev pub main_locks : MainPc → ℕ
main_locks (putting fd) = 1
main_locks has_put = 1
main_locks accepting = 0
main_locks (at_empty fd) = 0
main_locks (MainPc.at_mutex fd) = 0
main_locks MainPc.at_post = 0

abbrev pub main_slots : MainPc → ℕ
main_slots (MainPc.at_mutex fd) = 1
main_slots (putting fd) = 1
main_slots accepting = 0
main_slots (at_empty fd) = 0
main_slots has_put = 0
main_slots MainPc.at_post = 0

abbrev pub main_puts : MainPc → ℕ
main_puts has_put = 1
main_puts MainPc.at_post = 1
main_puts accepting = 0
main_puts (at_empty fd) = 0
main_puts (MainPc.at_mutex fd) = 0
main_puts (putting fd) = 0

-- The same for a thread of the pool: the mutex, a request that it has not taken, an emptied slot not
-- yet posted.
abbrev pub locks : Pc → ℕ
locks taking = 1
locks (took r) = 1
locks at_fill = 0
locks Pc.at_mutex = 0
locks (Pc.at_post r) = 0
locks (handling r) = 0

abbrev pub claims : Pc → ℕ
claims Pc.at_mutex = 1
claims taking = 1
claims at_fill = 0
claims (took r) = 0
claims (Pc.at_post r) = 0
claims (handling r) = 0

abbrev pub frees : Pc → ℕ
frees (took r) = 1
frees (Pc.at_post r) = 1
frees at_fill = 0
frees Pc.at_mutex = 0
frees taking = 0
frees (handling r) = 0

abbrev pub total : (Pc → ℕ) → List Pc → ℕ
total w [] = 0
total w (p ∷ ps) = w p + total w ps

pub total-middle :
    (w : Pc → ℕ) (us : List Pc) (p : Pc) (vs : List Pc)
    → total w (us ++ p ∷ vs) ≡ w p + (total w us + total w vs)
total-middle w [] p vs = omega arith
total-middle w (u ∷ us) p vs = omega (arith, total-middle w us p vs)
