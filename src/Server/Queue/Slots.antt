-- ===== src/Server/Queue/Slots.antt =====
-- The slots of the ring from the head on, and the requests in them.
use cos.Base.{
  ℕ, zero, suc, ◌+◌, ◌-◌, ◌%◌, ◌≤◌, ◌<◌, ◌≡◌, refl, ap, ap₂, ◌∙◌, ◌⊎◌, inl, inr, List, [], ◌∷◌,
  ◌++◌, arith,
}
use native.Mathlib.Nat.{mod-eq_of_lt, mod-eq-sub-mod, mod-add-mod}
use cos.Server.Request.{Request}
use cos.Base.{dec_lt}

-- The slot `i` places behind the head.
pub slot : (n head i : ℕ) → ℕ
slot n head i = (head + i) % n

module _ (n head : ℕ) (inside : head < n) where
  turned : (i : ℕ) → i ≤ n → n ≤ head + i → slot n head i + n ≡ head + i
  unfolding slot
  turned i le ge =
      let once : (head + i) % n ≡ (head + i - n) % n = mod-eq-sub-mod ge in
      let rest : (head + i - n) % n ≡ head + i - n = mod-eq_of_lt (omega arith) in
      omega (arith, once, rest)

  -- A slot is what it is with or without one turn.
  pub slot-cases :
      (i : ℕ)
      → i ≤ n
      → ((slot n head i ≡ head + i) × (head + i < n))
        ⊎ ((slot n head i + n ≡ head + i) × (n ≤ head + i))
  unfolding slot
  slot-cases i le = elim (dec_lt (head + i) n) [
    | yes lt ↦ inl (mod-eq_of_lt lt, lt)
    | no ge ↦ inr (turned i le (omega arith), omega arith)
  ]

  pub slot-lt : (i : ℕ) → i ≤ n → slot n head i < n
  slot-lt i le = elim (slot-cases i le) [ inl h ↦ omega (arith, h) | inr h ↦ omega (arith, h) ]

  pub slot_inj : (i j : ℕ) → i < n → j < n → slot n head i ≡ slot n head j → i ≡ j
  slot_inj i j hi hj e = elim (slot-cases i (omega arith)) [
    | inl h ↦ elim (slot-cases j (omega arith)) [
      | inl k ↦ omega (arith, e, h.0, k.0)
      | inr k ↦ omega (arith, e, h.0, k.0)
    ]
    | inr h ↦ elim (slot-cases j (omega arith)) [
      | inl k ↦ omega (arith, e, h.0, k.0)
      | inr k ↦ omega (arith, e, h.0, k.0)
    ]
  ]

  pub slot-zero : slot n head 0 ≡ head
  unfolding slot
  slot-zero = let e : head + 0 ≡ head = omega arith in ap (λ t. t % n) e ∙ mod-eq_of_lt inside

  -- One place further, as the code counts.
  pub slot-next : (i : ℕ) → i < n → (slot n head i + 1) % n ≡ slot n head (i + 1)
  unfolding slot
  slot-next i lt = elim (slot-cases i (omega arith)) [
    | inl h ↦ ap (λ t. t % n) (omega (arith, h.0))
    | inr h ↦
        mod-eq_of_lt (omega (arith, h.0, turned (i + 1) (omega arith) (omega arith)))
        ∙ omega (arith, h.0, turned (i + 1) (omega arith) (omega arith))
  ]

  straight : (x : ℕ) → x < n → head ≤ x → slot n head (x - head) ≡ x
  unfolding slot
  straight x lt le =
      let e : head + (x - head) ≡ x = omega arith in ap (λ t. t % n) e ∙ mod-eq_of_lt lt

  -- Every index is that of some slot.
  pub slot_of : (x : ℕ) → x < n → (i : ℕ) × (i < n) × (slot n head i ≡ x)
  slot_of x lt = elim (dec_lt x head) [
    | yes before ↦ (
      x + n - head,
      omega arith,
      omega (arith, turned (x + n - head) (omega arith) (omega arith)),
    )
    | no behind ↦ (x - head, omega arith, straight x lt (omega arith))
  ]

-- The requests in `count` slots from place `i` on.
abbrev pub requests : (n head : ℕ) → (ℕ → Request) → (i count : ℕ) → List Request
requests n head queue i zero = []
requests n head queue i (suc k) = queue (slot n head i) ∷ requests n head queue (suc i) k

pub requests-append :
    (n head : ℕ) (queue : ℕ → Request) (i j k : ℕ)
    → requests n head queue i (j + k) ≡ requests n head queue i j ++ requests n head queue (i + j) k
requests-append n head queue i zero k =
    let e : i ≡ i + 0 = omega arith in
    let f : 0 + k ≡ k = omega arith in ap₂ (λ a b. requests n head queue a b) e f
requests-append n head queue i (suc j) k =
    let e : suc i + j ≡ i + suc j = omega arith in
    let f : suc j + k ≡ suc (j + k) = omega arith in
    ap (requests n head queue i) f
    ∙ ap (λ t. queue (slot n head i) ∷ t)
        (requests-append n head queue (suc i) j k
          ∙ ap (λ a. requests n head queue (suc i) j ++ requests n head queue a k) e)

-- Lists of requests that agree place by place.
pub requests-agree :
    (n head head' : ℕ) (queue queue' : ℕ → Request) (i i' k : ℕ)
    → ((j : ℕ) → j < k → queue (slot n head (i + j)) ≡ queue' (slot n head' (i' + j)))
    → requests n head queue i k ≡ requests n head' queue' i' k
requests-agree n head head' queue queue' i i' zero h = refl
requests-agree n head head' queue queue' i i' (suc k) h =
    ap₂ (λ r rs. r ∷ rs) (at_zero (h 0 (omega arith)))
      (requests-agree n head head' queue queue' (suc i) (suc i') k
        (λ j lt. at_suc j (h (j + 1) (omega arith))))
  where
    at_zero :
        queue (slot n head (i + 0)) ≡ queue' (slot n head' (i' + 0))
        → queue (slot n head i) ≡ queue' (slot n head' i')
    at_zero p =
        let e : i + 0 ≡ i = omega arith in let f : i' + 0 ≡ i' = omega arith in rw (e, f) at p

    at_suc :
        (j : ℕ)
        → queue (slot n head (i + (j + 1))) ≡ queue' (slot n head' (i' + (j + 1)))
        → queue (slot n head (suc i + j)) ≡ queue' (slot n head' (suc i' + j))
    at_suc j p =
        let e : i + (j + 1) ≡ suc i + j = omega arith in
        let f : i' + (j + 1) ≡ suc i' + j = omega arith in rw (e, f) at p

pub slot-head : (n head i : ℕ) → slot n (slot n head 1) i ≡ slot n head (suc i)
unfolding slot
slot-head n head i =
    let e : head + 1 + i ≡ head + suc i = omega arith in
    mod-add-mod (head + 1) n i ∙ ap (λ t. t % n) e

-- One place back, as the code counts.
pub slot_pred :
    (n head : ℕ) → head < n → (i : ℕ) → i < n → (slot n head (suc i) + n - 1) % n ≡ slot n head i
slot_pred n head inside i lt = elim (slot-cases n head inside (suc i) (omega arith)) [
  | inl h ↦ elim (slot-cases n head inside i (omega arith)) [
    | inl k ↦
        once (slot n head (suc i)) (slot n head i) (omega (arith, h.0, k.0)) (omega (arith, k.0))
    | inr k ↦ absurd (omega (arith, h.1, k.1))
  ]
  | inr h ↦ elim (slot-cases n head inside i (omega arith)) [
    | inl k ↦ mod-eq_of_lt (omega (arith, h.0, k.0)) ∙ omega (arith, h.0, k.0)
    | inr k ↦
        once (slot n head (suc i)) (slot n head i) (omega (arith, h.0, k.0)) (omega (arith, k.0))
  ]
]
  where
    once : (a b : ℕ) → a ≡ suc b → b < n → (a + n - 1) % n ≡ b
    once a b e b_lt =
        let f : a + n - 1 ≡ b + n = omega arith in
        ap (λ t. t % n) f
        ∙ mod-eq-sub-mod {n = b + n} {m = n} (omega arith)
        ∙ ap (λ t. t % n) (omega arith)
        ∙ mod-eq_of_lt b_lt

-- A whole turn.
pub slot-full : (n head : ℕ) → head < n → (i : ℕ) → i ≡ n → slot n head i ≡ head
slot-full n head inside i e = elim (slot-cases n head inside i (omega (arith, e))) [
  | inl h ↦ absurd (omega (arith, h.1, e))
  | inr h ↦ omega (arith, h.0, e)
]
