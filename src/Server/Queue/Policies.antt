-- ===== src/Server/Queue/Policies.antt =====
-- Which request `thread_handle` takes under each policy, and the ring that it leaves.
use mathlib.Core.Path.{subst}
use cos.Base.{
  ℕ, zero, suc, ◌+◌, ◌-◌, ◌≤◌, ◌<◌, ◌≡◌, refl, sym, ap, ◌∙◌, inl, inr, true, Option, none, some,
  List, [], ◌∷◌, ◌++◌, arith, All, All-append, length, Option-cases,
}
use cos.Server.Request.{Request}
use cos.Server.Schedule.{Policy, fifo, sff, rff, choose, is_used, long_max}
use cos.Server.Choice.{NotBelow, NotAfter, Smallest, Latest, choose-Smallest, choose-Latest}
use cos.Server.Queue.{Ring, slots, serve, take_request}
use cos.Server.Queue.Slots.{slot, slot_of, slot-zero, slot-lt, requests}
use cos.Server.Queue.Holds.{Holds}
use cos.Server.Queue.Serve.{Taken, take_request-Taken}
use cos.Base.{dec_lt}
use cos.Base.{All-mono}
use cos.Server.Choice.{All-Before}
use cos.Server.Choice.{NotAfter-self}

slots-split :
    (queue : ℕ → Request) (i k : ℕ) (before : List Request) (r : Request) (after : List Request)
    → slots queue i k ≡ before ++ r ∷ after
    → (length before < k) × (queue (i + length before) ≡ r)
slots-split queue i zero [] r after e = cc
slots-split queue i zero (x ∷ before) r after e = cc
slots-split queue i (suc k) [] r after e =
    let same : queue i ≡ r = cc in
    let f : i + 0 ≡ i = omega arith in (omega arith, ap queue f ∙ same)
slots-split queue i (suc k) (x ∷ before) r after e =
    let tails : slots queue (suc i) k ≡ before ++ r ∷ after = cc in
    let (lt, same) = slots-split queue (suc i) k before r after tails in
    let f : i + suc (length before) ≡ suc i + length before = omega arith in
    (omega arith, ap queue f ∙ same)

All-slots :
    (P : Request → Type 0) (queue : ℕ → Request) (i k j : ℕ)
    → All P (slots queue i k)
    → j < k
    → P (queue (i + j))
All-slots P queue i zero j h lt = absurd (omega arith)
All-slots P queue i (suc k) zero h lt =
    let f : i ≡ i + 0 = omega arith in subst (λ x. P (queue x)) f h.0
All-slots P queue i (suc k) (suc j) h lt =
    let f : suc i + j ≡ i + suc j = omega arith in
    subst (λ x. P (queue x)) f (All-slots P queue (suc i) k j h.1 (omega arith))

All-requests :
    (P : Request → Type 0) (n head : ℕ) (queue : ℕ → Request) (i k : ℕ)
    → ((j : ℕ) → j < i + k → P (queue (slot n head j)))
    → All P (requests n head queue i k)
All-requests P n head queue i zero h = tt
All-requests P n head queue i (suc k) h =
    (h i (omega arith), All-requests P n head queue (suc i) k (λ j lt. h j (omega arith)))

-- What holds of every slot holds of every request.
ring-All :
    (P : Request → Type 0) (s : Ring) (xs : List Request)
    → Holds s xs
    → All P (slots s.queue 0 s.nbuffer)
    → All (λ x. (is_used x ≡ true) × P x) xs
ring-All P s xs h all = subst (All (λ x. (is_used x ≡ true) × P x)) h.in_order (
    All-requests (λ x. (is_used x ≡ true) × P x) s.nbuffer s.head s.queue 0 s.count
      (λ j lt. (
        h.used j (omega (arith, lt)),
        subst (λ x. P (s.queue x)) (omega arith)
            (All-slots P s.queue 0 s.nbuffer (slot s.nbuffer s.head j) all
              (slot-lt s.nbuffer s.head h.inside j (omega (arith, lt, h.fits)))),
      )))

-- A used slot is the place of a request.
place_of :
    (s : Ring) (xs : List Request)
    → Holds s xs
    → (t : ℕ) → t < s.nbuffer
    → is_used (s.queue t) ≡ true
    → (k : ℕ) × (k < s.count) × (slot s.nbuffer s.head k ≡ t)
place_of s xs h t lt used =
    let (k, k_lt, e) = slot_of s.nbuffer s.head h.inside t lt in
    elim (dec_lt k s.count) [
      | yes inside ↦ (k, inside, e)
      | no outside ↦ absurd (
          clash (s.queue t) used
            (ap (λ x. (s.queue x).connfd) (sym e) ∙ h.free k (omega arith) k_lt))
    ]
  where
    clash : (r : Request) → is_used r ≡ true → r.connfd ≡ none → ⊥
    clash r used e = ground (arith, e)

-- `x` is no later than `r`.
abbrev pub NoLater : Request → Request → Type 0
NoLater r x = (u : ℕ) → x.st_mtime ≡ some u → (t : ℕ) × (r.st_mtime ≡ some t) × (u ≤ t)

-- Among the requests `xs`, `r` behind `before` is the one that the policy asks for.
abbrev pub Preferred : Policy → List Request → Request → List Request → Type 0
Preferred fifo before r xs = before ≡ []
Preferred sff before r xs = All (λ x. r.st_size ≤ x.st_size) xs
Preferred rff before r xs = All (NoLater r) xs

-- The policy finds no request among `xs`.
abbrev pub Overlooked : Policy → List Request → Type 0
Overlooked fifo xs = ⊥
Overlooked sff xs = All (λ x. long_max ≤ x.st_size) xs
Overlooked rff xs = All (λ x. x.st_mtime ≡ none) xs

-- What serving comes to.
pub data Served (policy : Policy) (s : Ring) (xs : List Request)
    : Option (Request × Ring) → Type 0 where
  overlooked : Overlooked policy xs → Served policy s xs none
  served :
      (before : List Request) (r : Request) (after : List Request) (rest : Ring)
      → xs ≡ before ++ r ∷ after
      → Preferred policy before r xs
      → is_used r ≡ true
      → Holds rest (before ++ after)
      → rest.nbuffer ≡ s.nbuffer
      → rest.count + 1 ≡ s.count
      → Served policy s xs (some (r, rest))

-- What the choice says of the requests.
pub data Chosen (policy : Policy) (s : Ring) (xs : List Request) : Option ℕ → Type 0 where
  nobody : Overlooked policy xs → Chosen policy s xs none
  somebody :
      (t : ℕ)
      → t < s.nbuffer
      → is_used (s.queue t) ≡ true
      → Preferred policy [] (s.queue t) xs
      → (policy ≡ fifo → t ≡ s.head)
      → Chosen policy s xs (some t)

not_later-NoLater :
    (r x : Request) (t : ℕ)
    → r.st_mtime ≡ some t
    → is_used x ≡ true
    → NotAfter (some t) x
    → NoLater r x
not_later-NoLater r x t e used p u e' = (t, e, ground (arith, e'))

never-old : (x : Request) → is_used x ≡ true → NotAfter none x → x.st_mtime ≡ none
never-old x used p = elim (Option-cases x.st_mtime) [
  | inl old ↦ old
  | inr (t, e) ↦ absurd (ground (arith, e))
]

module _ (s : Ring) (xs : List Request) (h : Holds s xs) where
  sff-Chosen : (o : Option ℕ) → Smallest (slots s.queue 0 s.nbuffer) o → Chosen sff s xs o
  sff-Chosen none (Smallest.nothing all) =
      nobody (All-mono xs (λ x p. p.1 p.0) (ring-All (NotBelow long_max) s xs h all))
  sff-Chosen (some t) (Smallest.slot before r after e used low high) =
      let (lt, same) = slots-split s.queue 0 s.nbuffer before r after e in
      let at_t : s.queue (length before) ≡ r = ap s.queue (omega arith) ∙ same in
      let all : All (NotBelow r.st_size) (slots s.queue 0 s.nbuffer) =
        subst (All (NotBelow r.st_size)) (sym e) (
          All-append (NotBelow r.st_size) before (r ∷ after)
            (All-mono before (λ x p u. omega (arith, p u)) low) ((λ u. omega arith), high)) in
      somebody (length before) lt (ap is_used at_t ∙ used)
        (All-mono xs (λ x p. omega (arith, p.1 p.0, ap (λ (y : Request). y.st_size) at_t))
          (ring-All (NotBelow r.st_size) s xs h all))
        (λ x. cc)

  rff-Chosen : (o : Option ℕ) → Latest (slots s.queue 0 s.nbuffer) o → Chosen rff s xs o
  rff-Chosen none (Latest.nothing all) =
      nobody (All-mono xs (λ x p. never-old x p.0 p.1) (ring-All (NotAfter none) s xs h all))
  rff-Chosen (some t) (Latest.slot before r after u e used time low high) =
      let (lt, same) = slots-split s.queue 0 s.nbuffer before r after e in
      let at_t : s.queue (length before) ≡ r = ap s.queue (omega arith) ∙ same in
      let all : All (NotAfter (some u)) (slots s.queue 0 s.nbuffer) =
        subst (All (NotAfter (some u))) (sym e) (
          All-append (NotAfter (some u)) before (r ∷ after) (All-Before u before low)
            (NotAfter-self r u time, high)) in
      somebody (length before) lt (ap is_used at_t ∙ used)
        (All-mono xs
          (λ x p.
            not_later-NoLater (s.queue (length before)) x u
              (ap (λ (y : Request). y.st_mtime) at_t ∙ time) p.0 p.1)
          (ring-All (NotAfter (some u)) s xs h all))
        (λ x. cc)

  -- The policy's choice among the slots is a choice among the requests.
  choose-Chosen :
      (policy : Policy)
      → 0 < s.count
      → Chosen policy s xs (choose policy s.head (slots s.queue 0 s.nbuffer))
  unfolding choose
  choose-Chosen fifo pos =
      somebody s.head h.inside
        (ap (λ x. is_used (s.queue x)) (sym (slot-zero s.nbuffer s.head h.inside)) ∙ h.used 0 pos)
        refl (λ x. refl)
  choose-Chosen sff pos = sff-Chosen _ (choose-Smallest s.head (slots s.queue 0 s.nbuffer))
  choose-Chosen rff pos = rff-Chosen _ (choose-Latest s.head (slots s.queue 0 s.nbuffer))

  Preferred-taken :
      (policy : Policy) (before : List Request) (r : Request)
      → Preferred policy [] r xs
      → (policy ≡ fifo → before ≡ [])
      → Preferred policy before r xs
  Preferred-taken fifo before r p first = first refl
  Preferred-taken sff before r p first = p
  Preferred-taken rff before r p first = p

  Chosen-Served :
      (fuel : ℕ) (policy : Policy) (o : Option ℕ)
      → 0 < s.count
      → s.count ≤ fuel
      → Chosen policy s xs o
      → Served policy s xs (elim o [ none ↦ none | some target ↦ take_request fuel target s ])
  Chosen-Served fuel policy none pos enough (nobody all) = overlooked all
  Chosen-Served fuel policy (some _) pos enough (somebody t lt used preferred first) =
      let (k, k_lt, e) = place_of s xs h t lt used in
      let taken : Taken s xs t (take_request fuel t s) =
        subst (λ x. Taken s xs x (take_request fuel x s)) e
          (take_request-Taken s xs h (s.count - 1) (omega arith) fuel k (omega arith)
            (omega arith)) in
      rw taken.runs (
        served taken.before (s.queue t) taken.after taken.rest taken.was
          (Preferred-taken policy taken.before (s.queue t) preferred (λ x. taken.first (first x)))
          used taken.holds taken.same_size taken.one_less)

  -- On a ring that holds requests, with a round of fuel for each, `thread_handle` takes one of them and
  -- leaves a ring that holds the others in their order: under FIFO the first, under SFF one with a
  -- smallest file, under RFF one with a latest file. It finds none only under SFF if no file is smaller
  -- than LONG_MAX, and under RFF if all files are from before 1970.
  pub serve-Served :
      (fuel : ℕ) (policy : Policy)
      → 0 < s.count
      → s.count ≤ fuel
      → Served policy s xs (serve fuel policy s)
  unfolding serve
  serve-Served fuel policy pos enough =
      Chosen-Served fuel policy _ pos enough (choose-Chosen policy pos)
