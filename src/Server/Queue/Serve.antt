-- ===== src/Server/Queue/Serve.antt =====
-- Taking a request out of the ring of multiThreadedWebServer/server.c.
use mathlib.Core.Path.{subst}
use cos.Base.{
  ℕ, zero, suc, ◌+◌, ◌-◌, ◌%◌, ◌≤◌, ◌<◌, ◌≡◌, ◌≢◌, refl, sym, ap, ◌∙◌, inl, inr, Option, none, some,
  List, [], ◌∷◌, ◌++◌, arith, dec_lt,
}
use cos.Server.Request.{Request}
use cos.Server.Queue.{Ring, clear, shift_queue_left, take_request}
use cos.Server.Queue.Slots.{slot, slot-next, slot_inj, slot-lt, slot-zero, requests}
use cos.Server.Queue.Shift.{Shifted, shift_loop-Shifted, test_eq, store_self, store-other}
use cos.Server.Queue.Slots.{slot-head, slot-full}
use cos.Server.Queue.Slots.{slot_pred}
use cos.Server.Queue.Holds.{Holds}
use cos.Server.Queue.Close.{place-split, closed-Holds, shift_queue_left-runs, take_request-closed}

-- What `thread_handle` makes of the ring when it takes the request in the slot `target`.
pub record Taken (s : Ring) (xs : List Request) (target : ℕ) (r : Option (Request × Ring))
    : Type 0 where
  pub before : List Request
  pub after : List Request
  pub rest : Ring
  pub was : xs ≡ before ++ s.queue target ∷ after
  pub runs : r ≡ some (s.queue target, rest)
  pub holds : Holds rest (before ++ after)
  pub same_size : rest.nbuffer ≡ s.nbuffer
  pub one_less : rest.count + 1 ≡ s.count
  pub first : target ≡ s.head → before ≡ []

module _ (s : Ring) (xs : List Request) (h : Holds s xs) (c : ℕ) (e : s.count ≡ suc c) where
  split_at :
      (k : ℕ)
      → k ≤ c
      → xs
        ≡ requests s.nbuffer s.head s.queue 0 k
          ++ s.queue (slot s.nbuffer s.head k) ∷ requests s.nbuffer s.head s.queue (suc k) (c - k)
  split_at k le =
      let parts : s.count ≡ k + suc (c - k) = omega (arith, e, le) in
      sym h.in_order
      ∙ ap (requests s.nbuffer s.head s.queue 0) parts
      ∙ place-split s.nbuffer s.head s.queue k (c - k)

  -- The head is taken: it moves one slot.
  take_head : (fuel : ℕ) → Taken s xs s.head (take_request fuel s.head s)
  unfolding take_request
  take_head fuel = record {
    before = [];
    after = requests s.nbuffer s.head s.queue 1 (c - 0);
    rest = record s {
      queue = clear s.queue s.head;
      head = (s.head + 1) % s.nbuffer;
      count = s.count - 1;
    };
    was =
        split_at 0 (omega arith)
        ∙ ap (λ x. s.queue x ∷ requests s.nbuffer s.head s.queue 1 (c - 0))
            (slot-zero s.nbuffer s.head h.inside);
    runs = rw (test_eq s.head s.head refl, take_request);
    holds =
        subst
          (λ x.
            Holds (record s { queue = clear s.queue s.head; head = x; count = s.count - 1 })
              (requests s.nbuffer s.head s.queue 1 (c - 0)))
          (sym next)
          (closed-Holds s xs h 0 c e (omega arith) (clear s.queue s.head) (slot s.nbuffer s.head 1)
            s.tail (slot-lt s.nbuffer s.head h.inside 1 (omega (arith, h.inside)))
            (h.tail_eq ∙ ap (slot s.nbuffer s.head) e ∙ sym (slot-head s.nbuffer s.head c))
            (λ i lt. absurd (omega arith))
            (λ i ge lt.
              ap (clear s.queue s.head) (slot-head s.nbuffer s.head i)
              ∙ store-other s.queue s.head _ _
                  (apart (suc i) (omega arith) (omega (arith, h.fits))))
            emptied);
    same_size = refl;
    one_less = omega (arith, e);
    first = λ _. refl;
  }
    where
      next : (s.head + 1) % s.nbuffer ≡ slot s.nbuffer s.head 1
      next =
          ap (λ x. (x + 1) % s.nbuffer) (sym (slot-zero s.nbuffer s.head h.inside))
          ∙ slot-next s.nbuffer s.head h.inside 0 (omega (arith, h.inside))

      apart : (i : ℕ) → 0 < i → i < s.nbuffer → slot s.nbuffer s.head i ≢ s.head
      apart i pos lt e = absurd (
          omega (
            arith,
            slot_inj s.nbuffer s.head h.inside i 0 lt (omega (arith, lt))
                (e ∙ sym (slot-zero s.nbuffer s.head h.inside)),
            pos,
          ))

      emptied :
          (i : ℕ)
          → c ≤ i
          → i < s.nbuffer
          → (clear s.queue s.head (slot s.nbuffer (slot s.nbuffer s.head 1) i)).connfd ≡ none
      emptied i ge lt = elim (dec_lt (suc i) s.nbuffer) [
        | yes more ↦
            ap (λ x. (clear s.queue s.head x).connfd) (slot-head s.nbuffer s.head i)
            ∙ ap (λ (r : Request). r.connfd)
                (store-other s.queue s.head _ _ (apart (suc i) (omega arith) more))
            ∙ h.free (suc i) (omega (arith, e, ge)) more
        | no last ↦
            ap (λ x. (clear s.queue s.head x).connfd)
              (slot-head s.nbuffer s.head i
                ∙ slot-full s.nbuffer s.head h.inside (suc i) (omega arith))
            ∙ ap (λ (r : Request). r.connfd) (store_self s.queue s.head s.head _ refl)
      ]

  -- A request behind the head is taken: those behind it move one slot.
  take_behind :
      (fuel k : ℕ)
      → 0 < k
      → k ≤ c
      → c < k + fuel
      → Taken s xs (slot s.nbuffer s.head k) (take_request fuel (slot s.nbuffer s.head k) s)
  unfolding take_request shift_queue_left
  take_behind fuel k pos le enough =
      let n = s.nbuffer in
      let target = slot n s.head k in
      let last = slot n s.head c in
      let c_lt : c < n = omega (arith, h.fits, e) in
      let (queue', ran, shifted) =
        shift_loop-Shifted n s.head h.inside c c_lt fuel k (clear s.queue target) le enough in
      let at_last : (s.tail + n - 1) % n ≡ last =
        ap (λ x. (x + n - 1) % n) (h.tail_eq ∙ ap (slot n s.head) e)
        ∙ slot_pred n s.head h.inside c c_lt in
      record {
        before = requests n s.head s.queue 0 k;
        after = requests n s.head s.queue (suc k) (c - k);
        rest = record s { queue = clear queue' last; tail = last; count = s.count - 1 };
        was = split_at k le;
        runs = take_request-closed fuel target s _ (behind k pos (omega (arith, c_lt, le))) (
            shift_queue_left-runs fuel target (record s { queue = clear s.queue target }) last
              queue' at_last ran (behind c (omega arith) c_lt));
        holds =
            closed-Holds s xs h k c e le (clear queue' last) s.head last h.inside refl
              (λ i lt.
                store-other queue' last (slot n s.head i) _
                  (differ i c (omega arith) c_lt (omega arith))
                ∙ shifted.kept i (omega arith) (inl lt)
                ∙ store-other s.queue target (slot n s.head i) _
                    (differ i k (omega arith) (omega arith) (omega arith)))
              (λ i ge lt.
                store-other queue' last (slot n s.head i) _
                  (differ i c (omega arith) c_lt (omega arith))
                ∙ shifted.moved i ge lt
                ∙ ap (λ x. clear s.queue target (slot n s.head x)) (omega arith)
                ∙ store-other s.queue target (slot n s.head (suc i)) _
                    (differ (suc i) k (omega arith) (omega arith) (omega arith)))
              (free queue' shifted);
        same_size = refl;
        one_less = omega (arith, e);
        first = λ same. absurd (behind k pos (omega (arith, c_lt, le)) same);
      }
    where
      behind : (i : ℕ) → 0 < i → i < s.nbuffer → slot s.nbuffer s.head i ≢ s.head
      behind i i_pos lt e' = absurd (
          omega (
            arith,
            slot_inj s.nbuffer s.head h.inside i 0 lt (omega (arith, lt))
                (e' ∙ sym (slot-zero s.nbuffer s.head h.inside)),
            i_pos,
          ))

      differ :
          (i j : ℕ)
          → i < s.nbuffer
          → j < s.nbuffer
          → i ≢ j
          → slot s.nbuffer s.head i ≢ slot s.nbuffer s.head j
      differ i j i_lt j_lt ne e' = ne (slot_inj s.nbuffer s.head h.inside i j i_lt j_lt e')

      free :
          (queue' : ℕ → Request)
          → Shifted s.nbuffer s.head c k (clear s.queue (slot s.nbuffer s.head k)) queue'
          → (i : ℕ) → c ≤ i
          → i < s.nbuffer
          → (clear queue' (slot s.nbuffer s.head c) (slot s.nbuffer s.head i)).connfd ≡ none
      free queue' shifted i ge lt = elim (dec_lt c i) [
        | yes more ↦
            ap (λ (r : Request). r.connfd)
              (store-other queue' (slot s.nbuffer s.head c) (slot s.nbuffer s.head i) _
                  (differ i c lt (omega arith) (omega arith))
                ∙ shifted.kept i lt (inr ge)
                ∙ store-other s.queue (slot s.nbuffer s.head k) (slot s.nbuffer s.head i) _
                    (differ i k lt (omega arith) (omega arith)))
            ∙ h.free i (omega (arith, e, more)) lt
        | no same ↦
            ap (λ (r : Request). r.connfd)
              (store_self queue' (slot s.nbuffer s.head c) (slot s.nbuffer s.head i) _
                (ap (slot s.nbuffer s.head) (omega arith)))
      ]

  -- With a round of fuel for each request, taking the request in any place closes the ring.
  pub take_request-Taken :
      (fuel k : ℕ)
      → k ≤ c
      → c < fuel
      → Taken s xs (slot s.nbuffer s.head k) (take_request fuel (slot s.nbuffer s.head k) s)
  take_request-Taken fuel zero le enough =
      subst (λ x. Taken s xs x (take_request fuel x s)) (sym (slot-zero s.nbuffer s.head h.inside))
        (take_head fuel)
  take_request-Taken fuel (suc k) le enough =
      take_behind fuel (suc k) (omega arith) le (omega arith)
