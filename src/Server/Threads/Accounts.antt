-- ===== src/Server/Threads/Accounts.antt =====
-- Under every policy each connection is taken from the queue once, or waits in it.
use mathlib.Core.Path.{subst}
use mathlib.Core.List.{Perm, perm_middle}
use mathlib.Core.List.Perm
use cos.Base.{
  ℕ, ◌<◌, ◌≡◌, sym, ap, ◌∙◌, Option, none, some, List, [], ◌∷◌, ◌++◌, append_assoc, map, map-append,
}
use cos.Server.Request.{Request}
use cos.Server.Schedule.{Policy}
use cos.Server.Queue.{Ring, queue_put, empty_ring}
use cos.Server.Queue.Policies.{Served, served}
use cos.Server.Threads.{
  Clients, putting, System, Step, accept, wait_empty, lock_main, put, unlock_main, post_fill,
  wait_fill, lock_pool, take, unlock_pool, post_empty, finish, Reach, started, later,
}
use cos.Server.Threads.Invariant.{Inv, Reach-Inv, taking-Served}
use cos.Server.Threads.History.{waiting, Holds-waiting, put-waiting}

-- What was put is what was taken and what waits, in some order.
abbrev pub Accounted : System → Type 0
Accounted s = Perm s.puts (s.takes ++ waiting s.ring)

abbrev connfds : List Request → List (Option ℕ)
connfds xs = map (λ r. r.connfd) xs

middle-moved :
    (xs before after : List (Option ℕ)) (x : Option ℕ)
    → Perm (xs ++ (before ++ x ∷ after)) ((xs ++ x ∷ []) ++ (before ++ after))
middle-moved xs before after x =
    subst (Perm (xs ++ (before ++ x ∷ after))) (sym (append_assoc xs (x ∷ []) (before ++ after)))
      (Perm.append (Perm.refl xs) (perm_middle before after))

module _ {n : ℕ} {s : System} (policy : Policy) (clients : Clients) (v : Inv n s)
    (o : Accounted s) where
  put-Accounted :
      (fd : ℕ) (receive : Request → Request)
      → s.main ≡ putting fd
      → Perm (s.puts ++ some fd ∷ []) (s.takes ++ waiting (queue_put receive fd s.ring))
  put-Accounted fd receive e =
      subst (Perm (s.puts ++ some fd ∷ []))
        (append_assoc s.takes (waiting s.ring) (some fd ∷ [])
          ∙ ap (λ t. s.takes ++ t) (sym (put-waiting receive v fd e)))
        (Perm.append o (Perm.refl (some fd ∷ [])))

  take-Accounted :
      (r : Request) (rest : Ring) (x : Option (Request × Ring))
      → x ≡ some (r, rest)
      → Served policy s.ring v.requests_in x
      → Perm s.puts ((s.takes ++ r.connfd ∷ []) ++ waiting rest)
  take-Accounted r rest none is h = cc
  take-Accounted r rest (some (r', rest')) is (served before _ after _ was first used h same less) =
      let one : rest' ≡ rest = cc in
      let its : r' ≡ r = cc in
      let all : waiting s.ring ≡ connfds before ++ r'.connfd ∷ connfds after =
        Holds-waiting s.ring v.requests_in v.holds
        ∙ (ap connfds was ∙ map-append (λ (y : Request). y.connfd) before (r' ∷ after)) in
      let left : connfds before ++ connfds after ≡ waiting rest =
        sym (map-append (λ (y : Request). y.connfd) before after)
        ∙ (sym (Holds-waiting rest' (before ++ after) h) ∙ ap waiting one) in
      subst (λ (y : Request). Perm s.puts ((s.takes ++ y.connfd ∷ []) ++ waiting rest)) its
        (subst (λ t. Perm s.puts ((s.takes ++ r'.connfd ∷ []) ++ t)) left
          (Perm.trans (subst (λ t. Perm s.puts (s.takes ++ t)) all o)
            (middle-moved s.takes (connfds before) (connfds after) r'.connfd)))

  Step-Accounted : {t : System} → Step policy clients s t → Accounted t
  Step-Accounted (accept fd e) = o
  Step-Accounted (wait_empty fd e pos) = o
  Step-Accounted (lock_main fd e pos) = o
  Step-Accounted (put fd receive e reads) = put-Accounted fd receive e
  Step-Accounted (unlock_main e) = o
  Step-Accounted (post_fill e) = o
  Step-Accounted (wait_fill us vs e pos) = o
  Step-Accounted (lock_pool us vs e pos) = o
  Step-Accounted (take us vs r rest e is) =
      take-Accounted r rest _ is (taking-Served policy clients v us vs e)
  Step-Accounted (unlock_pool us vs r e) = o
  Step-Accounted (post_empty us vs r e) = o
  Step-Accounted (finish us vs r e answered) = o

-- Under any policy, with a queue of at least one slot, in every reachable state: the connections that
-- were put into the queue are, in some order, those that threads have taken from it and those that
-- wait in it. None is lost or served twice.
pub Reach-Accounted :
    {policy : Policy} {clients : Clients} {nthreads nbuffer : ℕ} {memory : ℕ → Request} {s : System}
    → 0 < nbuffer
    → Reach policy clients nthreads nbuffer memory s
    → Accounted s
unfolding empty_ring
Reach-Accounted pos started = Perm.refl []
Reach-Accounted {policy} {clients} pos (later r step) =
    Step-Accounted policy clients (Reach-Inv pos r) (Reach-Accounted pos r) step
