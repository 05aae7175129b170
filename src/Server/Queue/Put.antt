-- ===== src/Server/Queue/Put.antt =====
-- Putting a request into the ring of multiThreadedWebServer/server.c, and the empty ring.
use cos.Base.{
  ℕ, ◌+◌, ◌%◌, ◌<◌, ◌≡◌, ◌≢◌, refl, sym, ap, ap₂, ◌∙◌, true, some, List, [], ◌∷◌, ◌++◌, arith,
  dec_lt,
}
use cos.Server.Request.{Request}
use cos.Server.Schedule.{is_used}
use cos.Server.Queue.{Ring, store, queue_put, empty_ring}
use cos.Server.Queue.Slots.{slot, slot-next, slot_inj, slot-zero, requests-append, requests-agree}
use cos.Server.Queue.Shift.{store_self, store-other}
use cos.Server.Queue.Holds.{Holds}

-- The slot at the tail is empty and gets the request.
pub queue_put-Holds :
    (receive : Request → Request) (connfd : ℕ) (s : Ring) (xs : List Request)
    → Holds s xs
    → s.count < s.nbuffer
    → Holds
        (queue_put receive connfd s)
        (xs ++ record (receive (s.queue s.tail)) { connfd = some connfd } ∷ [])
unfolding queue_put
queue_put-Holds receive connfd s xs h room = record {
  inside = h.inside;
  fits = omega (arith, room);
  tail_eq =
      ap (λ x. (x + 1) % s.nbuffer) h.tail_eq ∙ slot-next s.nbuffer s.head h.inside s.count room;
  in_order =
      requests-append s.nbuffer s.head queue' 0 s.count 1
      ∙ ap₂ (λ a b. a ++ b)
          (requests-agree s.nbuffer s.head s.head queue' s.queue 0 0 s.count (λ j lt.
              store-other s.queue s.tail (slot s.nbuffer s.head (0 + j)) r
                (apart (0 + j) (omega (arith, room, lt)) (omega arith)))
            ∙ h.in_order)
          (ap (λ x. x ∷ [])
            (store_self s.queue s.tail (slot s.nbuffer s.head (0 + s.count)) r
              (sym (h.tail_eq ∙ ap (slot s.nbuffer s.head) (omega arith)))));
  used = used;
  free = λ i ge lt.
      ap (λ (x : Request). x.connfd)
        (store-other s.queue s.tail (slot s.nbuffer s.head i) r (apart i lt (omega arith)))
      ∙ h.free i (omega arith) lt;
}
  where
    r : Request
    r = record (receive (s.queue s.tail)) { connfd = some connfd }

    queue' : ℕ → Request
    queue' = store s.queue s.tail r

    apart : (i : ℕ) → i < s.nbuffer → i ≢ s.count → slot s.nbuffer s.head i ≢ s.tail
    apart i lt ne e = ne (slot_inj s.nbuffer s.head h.inside i s.count lt room (e ∙ h.tail_eq))

    used : (i : ℕ) → i < s.count + 1 → is_used (queue' (slot s.nbuffer s.head i)) ≡ true
    used i lt = elim (dec_lt i s.count) [
      | yes old ↦
          ap is_used (
            store-other s.queue s.tail (slot s.nbuffer s.head i) r
              (apart i (omega arith) (omega arith)))
          ∙ h.used i old
      | no new ↦ ap is_used (
          store_self s.queue s.tail (slot s.nbuffer s.head i) r
            (ap (slot s.nbuffer s.head) (omega arith) ∙ sym h.tail_eq))
    ]

pub empty_ring-Holds :
    (nbuffer : ℕ) (memory : ℕ → Request) → 0 < nbuffer → Holds (empty_ring nbuffer memory) []
unfolding empty_ring
empty_ring-Holds nbuffer memory pos = record {
  inside = pos;
  fits = omega arith;
  tail_eq = sym (slot-zero nbuffer 0 pos);
  in_order = refl;
  used = λ i lt. absurd (omega arith);
  free = λ i ge lt. refl;
}
