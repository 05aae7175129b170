-- ===== src/Server/Queue/Close.antt =====
-- How the ring of multiThreadedWebServer/server.c closes behind a request that was taken.
use cos.Base.{
  ℕ, suc, ◌+◌, ◌-◌, ◌%◌, ◌≤◌, ◌<◌, ◌≡◌, ◌≢◌, ap, ap₂, ◌∙◌, true, Option, none, some, List, ◌∷◌,
  ◌++◌, arith, ◌==◌, if◌then◌else◌, dec_lt,
}
use cos.Server.Request.{Request}
use cos.Server.Schedule.{is_used}
use cos.Server.Queue.{Ring, clear, shift_loop, shift_queue_left, take_request}
use cos.Server.Queue.Slots.{slot, requests, requests-append, requests-agree}
use cos.Server.Queue.Shift.{test_ne}
use cos.Base.{Bool}
use cos.Server.Queue.Holds.{Holds}

-- The request in place `k`, and those around it.
pub place-split :
    (n head : ℕ) (queue : ℕ → Request) (k rest : ℕ)
    → requests n head queue 0 (k + suc rest)
      ≡ requests n head queue 0 k ++ queue (slot n head k) ∷ requests n head queue (suc k) rest
place-split n head queue k rest =
    let e : 0 + k ≡ k = omega arith in
    requests-append n head queue 0 k (suc rest)
    ∙ ap (λ a. requests n head queue 0 k ++ requests n head queue a (suc rest)) e

module _ (s : Ring) (xs : List Request) (h : Holds s xs) (k c : ℕ) (e : s.count ≡ suc c)
    (le : k ≤ c) (queue' : ℕ → Request) (head' tail' : ℕ) where
  abbrev closed : Ring
  closed = record s { queue = queue'; head = head'; tail = tail'; count = s.count - 1 }

  -- A ring whose places behind `k` hold what the next places of `s` held.
  pub closed-Holds :
      head' < s.nbuffer
      → tail' ≡ slot s.nbuffer head' c
      → ((i : ℕ) → i < k → queue' (slot s.nbuffer head' i) ≡ s.queue (slot s.nbuffer s.head i))
      → ((i : ℕ)
          → k ≤ i
          → i < c
          → queue' (slot s.nbuffer head' i) ≡ s.queue (slot s.nbuffer s.head (suc i)))
      → ((i : ℕ) → c ≤ i → i < s.nbuffer → (queue' (slot s.nbuffer head' i)).connfd ≡ none)
      → Holds closed (
          requests s.nbuffer s.head s.queue 0 k
          ++ requests s.nbuffer s.head s.queue (suc k) (c - k))
  closed-Holds inside tail_eq front back free = record {
    inside = inside;
    fits = omega (arith, h.fits);
    tail_eq = tail_eq ∙ ap (slot s.nbuffer head') less;
    in_order =
        ap (requests s.nbuffer head' queue' 0) parts
        ∙ requests-append s.nbuffer head' queue' 0 k (c - k)
        ∙ ap₂ (λ a b. a ++ b)
            (requests-agree s.nbuffer head' s.head queue' s.queue 0 0 k
              (λ j lt. front (0 + j) (omega arith)))
            (requests-agree s.nbuffer head' s.head queue' s.queue (0 + k) (suc k) (c - k) (λ j lt.
              back (0 + k + j) (omega arith) (omega arith)
              ∙ ap (λ x. s.queue (slot s.nbuffer s.head x)) (omega arith)));
    used = used;
    free = λ i ge lt. free i (omega (arith, ge, e)) lt;
  }
    where
      less : c ≡ s.count - 1
      less = omega (arith, e)

      parts : s.count - 1 ≡ k + (c - k)
      parts = omega (arith, e, le)

      used : (i : ℕ) → i < s.count - 1 → is_used (queue' (slot s.nbuffer head' i)) ≡ true
      used i lt = elim (dec_lt i k) [
        | yes before ↦ ap is_used (front i before) ∙ h.used i (omega arith)
        | no behind ↦
            ap is_used (back i (omega arith) (omega (arith, e, lt))) ∙ h.used (suc i) (omega arith)
      ]

-- `shift_queue_left` where its loop ends, and the last used slot is not the head.
pub shift_queue_left-runs :
    (fuel start : ℕ) (s : Ring) (last : ℕ) (queue' : ℕ → Request)
    → (s.tail + s.nbuffer - 1) % s.nbuffer ≡ last
    → shift_loop fuel s.nbuffer last start s.queue ≡ some queue'
    → last ≢ s.head
    → shift_queue_left fuel start s ≡ some (record s { queue = clear queue' last; tail = last })
unfolding shift_queue_left
shift_queue_left-runs fuel start s last queue' at_last ran ne =
    ap after_loop (ap (λ x. shift_loop fuel s.nbuffer x start s.queue) at_last ∙ ran)
    ∙ ap after at_last
    ∙ ap with_head (test_ne last s.head ne)
  where
    after_loop : Option (ℕ → Request) → Option Ring
    after_loop o = elim o [
      | none ↦ none
      | some queue ↦ some (record s {
        queue = clear queue ((s.tail + s.nbuffer - 1) % s.nbuffer);
        head =
            if (s.tail + s.nbuffer - 1) % s.nbuffer == s.head
            then (s.head + 1) % s.nbuffer
            else s.head;
        tail = (s.tail + s.nbuffer - 1) % s.nbuffer;
      })
    ]

    after : ℕ → Option Ring
    after x = some (record s {
      queue = clear queue' x;
      head = if x == s.head then (s.head + 1) % s.nbuffer else s.head;
      tail = x;
    })

    with_head : Bool → Option Ring
    with_head b = some (record s {
      queue = clear queue' last;
      head = if b then (s.head + 1) % s.nbuffer else s.head;
      tail = last;
    })

pub take_request-closed :
    (fuel target : ℕ) (s s' : Ring)
    → target ≢ s.head
    → shift_queue_left fuel target (record s { queue = clear s.queue target }) ≡ some s'
    → take_request fuel target s ≡ some (s.queue target, record s' { count = s'.count - 1 })
unfolding take_request
take_request-closed fuel target s s' ne closes =
    ap closing (ap moved_head (test_ne target s.head ne) ∙ closes)
  where
    moved_head : Bool → Option Ring
    moved_head b =
        if b
        then some (record s { queue = clear s.queue target; head = (s.head + 1) % s.nbuffer })
        else shift_queue_left fuel target (record s { queue = clear s.queue target })

    closing : Option Ring → Option (Request × Ring)
    closing o = elim o [
      | none ↦ none
      | some t ↦ some (s.queue target, record t { count = t.count - 1 })
    ]
