-- ===== src/Server/Threads/History.antt =====
-- Under FIFO the connections are served in the order in which they were put into the queue.
use cos.Base.{
  ℕ, ◌<◌, ◌≡◌, refl, sym, ap, ◌∙◌, Option, none, some, List, [], ◌∷◌, ◌++◌, append_assoc, map,
  map-append, arith,
}
use cos.Server.Request.{Request}
use cos.Server.Schedule.{fifo}
use cos.Server.Queue.{Ring, queue_put, empty_ring}
use cos.Server.Queue.Slots.{requests}
use cos.Server.Queue.Holds.{Holds}
use cos.Server.Queue.Put.{queue_put-Holds}
use cos.Server.Queue.Policies.{Served, served}
use cos.Server.Threads.{
  Clients, putting, System, Step, accept, wait_empty, lock_main, put, unlock_main, post_fill,
  wait_fill, lock_pool, take, unlock_pool, post_empty, finish, Reach, started, later,
}
use cos.Server.Threads.Invariant.{main_slots, Inv, Reach-Inv, taking-Served}

-- The connections that wait in the queue, in order.
abbrev pub waiting : Ring → List (Option ℕ)
waiting s = map (λ r. r.connfd) (requests s.nbuffer s.head s.queue 0 s.count)

-- What was put is what was taken, and then what waits.
abbrev pub InOrder : System → Type 0
InOrder s = s.puts ≡ s.takes ++ waiting s.ring

pub Holds-waiting : (s : Ring) (xs : List Request) → Holds s xs → waiting s ≡ map (λ r. r.connfd) xs
Holds-waiting s xs h = ap (map (λ r. r.connfd)) h.in_order

-- A connection that is put into the queue waits behind the others.
pub put-waiting :
    {n : ℕ} {s : System} (receive : Request → Request) (v : Inv n s) (fd : ℕ)
    → s.main ≡ putting fd
    → waiting (queue_put receive fd s.ring) ≡ waiting s.ring ++ some fd ∷ []
put-waiting {s = s} receive v fd e =
    let room : s.ring.count < s.ring.nbuffer =
      omega (arith, v.free_slots, v.size, ap main_slots e) in
    let h = queue_put-Holds receive fd s.ring v.requests_in v.holds room in
    Holds-waiting _ _ h
    ∙ (map-append (λ r. r.connfd) v.requests_in _
        ∙ ap (λ t. t ++ some fd ∷ []) (sym (Holds-waiting s.ring v.requests_in v.holds)))

module _ {n : ℕ} {s : System} (clients : Clients) (v : Inv n s) (o : InOrder s) where
  put-InOrder :
      (fd : ℕ) (receive : Request → Request)
      → s.main ≡ putting fd
      → s.puts ++ some fd ∷ [] ≡ s.takes ++ waiting (queue_put receive fd s.ring)
  put-InOrder fd receive e =
      ap (λ t. t ++ some fd ∷ []) o
      ∙ append_assoc s.takes (waiting s.ring) (some fd ∷ [])
      ∙ ap (λ t. s.takes ++ t) (sym (put-waiting receive v fd e))

  take-InOrder :
      (r : Request) (rest : Ring) (x : Option (Request × Ring))
      → x ≡ some (r, rest)
      → Served fifo s.ring v.requests_in x
      → s.puts ≡ (s.takes ++ r.connfd ∷ []) ++ waiting rest
  take-InOrder r rest none is h = cc
  take-InOrder r rest (some (r', rest')) is (served before _ after _ was first used h same less) =
      let one : rest' ≡ rest = cc in
      let its : r' ≡ r = cc in
      let gone : v.requests_in ≡ r' ∷ after = was ∙ ap (λ t. t ++ r' ∷ after) first in
      let left : waiting rest ≡ map (λ y. y.connfd) after =
        ap waiting (sym one)
        ∙ Holds-waiting rest' (before ++ after) h
        ∙ ap (λ t. map (λ (y : Request). y.connfd) (t ++ after)) first in
      o
      ∙ ap (λ t. s.takes ++ t)
          (Holds-waiting s.ring v.requests_in v.holds
            ∙ ap (map (λ y. y.connfd)) gone
            ∙ ap (λ (y : Request). y.connfd ∷ map (λ (z : Request). z.connfd) after) its)
      ∙ sym (append_assoc s.takes (r.connfd ∷ []) (map (λ y. y.connfd) after))
      ∙ ap (λ t. (s.takes ++ r.connfd ∷ []) ++ t) (sym left)

  Step-InOrder : {t : System} → Step fifo clients s t → InOrder t
  Step-InOrder (accept fd e) = o
  Step-InOrder (wait_empty fd e pos) = o
  Step-InOrder (lock_main fd e pos) = o
  Step-InOrder (put fd receive e reads) = put-InOrder fd receive e
  Step-InOrder (unlock_main e) = o
  Step-InOrder (post_fill e) = o
  Step-InOrder (wait_fill us vs e pos) = o
  Step-InOrder (lock_pool us vs e pos) = o
  Step-InOrder (take us vs r rest e is) =
      take-InOrder r rest _ is (taking-Served fifo clients v us vs e)
  Step-InOrder (unlock_pool us vs r e) = o
  Step-InOrder (post_empty us vs r e) = o
  Step-InOrder (finish us vs r e answered) = o

-- Under FIFO, with a queue of at least one slot, in every reachable state: the connections that were
-- put into the queue are, in order, those that threads have taken from it and then those that wait in
-- it. None is lost, served twice or overtaken.
pub fifo-InOrder :
    {clients : Clients} {nthreads nbuffer : ℕ} {memory : ℕ → Request} {s : System}
    → 0 < nbuffer
    → Reach fifo clients nthreads nbuffer memory s
    → InOrder s
unfolding empty_ring
fifo-InOrder pos started = refl
fifo-InOrder {clients} pos (later r step) =
    Step-InOrder clients (Reach-Inv pos r) (fifo-InOrder pos r) step
