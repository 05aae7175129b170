-- ===== src/Server/Queue/Shift.antt =====
-- The loop of `shift_queue_left`: the requests behind the removed one move one slot towards the head.
use cos.Base.{
  ℕ, zero, suc, ◌+◌, ◌%◌, ◌≤◌, ◌<◌, ◌≡◌, ◌≢◌, refl, sym, ap, ◌∙◌, ◌⊎◌, inl, inr, true, false, some,
  arith, ◌==◌, ==_iff, Bool-cases, dec_lt,
}
use cos.Server.Request.{Request}
use cos.Server.Queue.{store, shift_loop}
use cos.Server.Queue.Slots.{slot, slot-next, slot_inj}

-- From place `k` on, up to place `m`, each slot holds what the next one held.
pub record Shifted (n head m k : ℕ) (queue queue' : ℕ → Request) : Type 0 where
  pub moved : (i : ℕ) → k ≤ i → i < m → queue' (slot n head i) ≡ queue (slot n head (i + 1))
  pub kept : (i : ℕ) → i < n → (i < k) ⊎ (m ≤ i) → queue' (slot n head i) ≡ queue (slot n head i)

pub test_eq : (x y : ℕ) → x ≡ y → (x == y) ≡ true
test_eq x y h = ground arith

pub test_ne : (x y : ℕ) → x ≢ y → (x == y) ≡ false
test_ne x y h = ground arith

pub store_self : (queue : ℕ → Request) (i x : ℕ) (r : Request) → x ≡ i → store queue i r x ≡ r
store_self queue i x r e = rw (test_eq x i e)

pub store-other :
    (queue : ℕ → Request) (i x : ℕ) (r : Request) → x ≢ i → store queue i r x ≡ queue x
store-other queue i x r ne = rw (test_ne x i ne)

module _ (n head : ℕ) (inside : head < n) (m : ℕ) (fits : m < n) where
  -- One round, and then the rest.
  Shifted-round :
      (k : ℕ) (queue queue' : ℕ → Request)
      → k < m
      → Shifted n head m (suc k) (store queue (slot n head k) (queue (slot n head (k + 1)))) queue'
      → Shifted n head m k queue queue'
  Shifted-round k queue queue' lt r = record { moved = moved; kept = kept }
    where
      here : ℕ
      here = slot n head k

      value : Request
      value = queue (slot n head (k + 1))

      elsewhere :
          (i : ℕ) → i < n → i ≢ k → store queue here value (slot n head i) ≡ queue (slot n head i)
      elsewhere i i_lt ne =
          store-other queue here (slot n head i) value
            (λ e. ne (slot_inj n head inside i k i_lt (omega arith) e))

      moved : (i : ℕ) → k ≤ i → i < m → queue' (slot n head i) ≡ queue (slot n head (i + 1))
      moved i le i_lt = elim (Bool-cases (i == k)) [
        | inl same ↦
            ap (λ x. queue' (slot n head x)) ((==_iff i k).0 same)
            ∙ r.kept k (omega arith) (inl (omega arith))
            ∙ store_self queue here here value refl
            ∙ ap (λ x. queue (slot n head (x + 1))) (sym ((==_iff i k).0 same))
        | inr other ↦
            r.moved i (omega (arith, further i le other)) i_lt
            ∙ elsewhere (i + 1) (omega arith) (omega arith)
      ]
        where
          further : (i : ℕ) → k ≤ i → (i == k) ≡ false → k < i
          further i le other = ground arith

      kept : (i : ℕ) → i < n → (i < k) ⊎ (m ≤ i) → queue' (slot n head i) ≡ queue (slot n head i)
      kept i i_lt (inl before) = r.kept i i_lt (inl (omega arith)) ∙ elsewhere i i_lt (omega arith)
      kept i i_lt (inr behind) = r.kept i i_lt (inr behind) ∙ elsewhere i i_lt (omega arith)

  -- With a round of fuel for each place from `k` to `m`, the loop ends with all of them shifted.
  pub shift_loop-Shifted :
      (fuel k : ℕ) (queue : ℕ → Request)
      → k ≤ m
      → m < k + fuel
      → (queue' : ℕ → Request) × (shift_loop fuel n (slot n head m) (slot n head k) queue
          ≡ some queue')
        × Shifted n head m k queue queue'
  unfolding shift_loop
  shift_loop-Shifted zero k queue le enough = absurd (omega arith)
  shift_loop-Shifted (suc fuel) k queue le enough = elim (dec_lt k m) [
    | no at_end ↦
        let e : k ≡ m = omega arith in
        (
          queue,
          rw (test_eq (slot n head k) (slot n head m) (ap (slot n head) e)),
          record { moved = λ i i_ge i_lt. absurd (omega arith); kept = λ i i_lt h. refl },
        )
    | yes lt ↦
        let (queue', runs, r) =
          shift_loop-Shifted fuel (suc k)
            (store queue (slot n head k) (queue (slot n head (k + 1)))) (omega arith)
            (omega arith) in
        let one_more : suc k ≡ k + 1 = omega arith in
        let ahead : (slot n head k + 1) % n ≡ slot n head (suc k) =
          slot-next n head inside k (omega arith) ∙ ap (slot n head) (omega arith) in
        (
          queue',
          rw
              (
                test_ne (slot n head k) (slot n head m)
                    (λ e. absurd (omega (arith, slot_inj n head inside k m (omega arith) fits e))),
                ahead,
              )
              (ap
                  (λ x.
                    shift_loop fuel n (slot n head m) (slot n head (suc k))
                      (store queue (slot n head k) (queue (slot n head x))))
                  one_more
                ∙ runs),
          Shifted-round k queue queue' lt r,
        )
  ]
