-- ===== src/Server/Choice.antt =====
-- The slots that SFF and RFF serve.
use mathlib.Core.Path.{subst}
use cos.Base.{
  Option-cases, ℕ, suc, ◌≤◌, ◌<◌, ◌≡◌, refl, ap, ◌∙◌, inl, inr, true, false, Option, none, some,
  List, [], ◌∷◌, ◌++◌, append_assoc, arith, length, length-append, All, All-append, Bool-cases,
}
use cos.Server.Request.{Request}
use cos.Server.Schedule.{is_used, long_max, is_smaller, sff_loop, sff, choose}
use cos.Base.{append-nil}
use cos.Server.Request.{Request}
use cos.Server.Schedule.{is_later}
use cos.Server.Request.{Request}
use cos.Server.Schedule.{rff_loop}
use cos.Server.Request.{Request}
use cos.Server.Schedule.{rff}
use cos.Base.{sym}

-- The slot is empty, or its file is not smaller than `n`.
abbrev pub NotBelow : ℕ → Request → Type 0
NotBelow n r = is_used r ≡ true → n ≤ r.st_size

-- A used slot with the smallest file, the first one of those; or no used slot has a file below
-- LONG_MAX.
pub data Smallest (queue : List Request) : Option ℕ → Type 0 where
  nothing : All (NotBelow long_max) queue → Smallest queue none
  slot :
      (before : List Request) (r : Request) (after : List Request)
      → queue ≡ before ++ r ∷ after
      → is_used r ≡ true
      → All (NotBelow (suc r.st_size)) before
      → All (NotBelow r.st_size) after
      → Smallest queue (some (length before))

-- What the loop knows of the slots before the index.
data Candidate (seen : List Request) : ℕ → Option ℕ → Type 0 where
  unset : All (NotBelow long_max) seen → Candidate seen long_max none
  chosen :
      (before : List Request) (r : Request) (after : List Request)
      → seen ≡ before ++ r ∷ after
      → is_used r ≡ true
      → r.st_size < long_max
      → All (NotBelow (suc r.st_size)) before
      → All (NotBelow r.st_size) after
      → Candidate seen r.st_size (some (length before))

All-NotBelow : (m n : ℕ) (xs : List Request) → m ≤ n → All (NotBelow n) xs → All (NotBelow m) xs
All-NotBelow m n [] le h = tt
All-NotBelow m n (x ∷ xs) le h = ((λ u. omega (arith, h.0 u, le)), All-NotBelow m n xs le h.1)

Candidate-Smallest :
    (seen : List Request) (n : ℕ) (t : Option ℕ) → Candidate seen n t → Smallest seen t
Candidate-Smallest seen n t (unset h) = nothing h
Candidate-Smallest seen n t (chosen before r after e used small h k) =
    slot before r after e used h k

-- All slots seen have files of at least the size of the candidate's.
seen-NotBelow :
    (seen : List Request) (n : ℕ) (t : Option ℕ) → Candidate seen n t → All (NotBelow n) seen
seen-NotBelow seen n t (unset h) = h
seen-NotBelow seen n t (chosen before r after e used small h k) = rw e (
    All-append _ before (r ∷ after) (All-NotBelow r.st_size _ before (omega arith) h)
      ((λ u. omega arith), k))

Candidate-take :
    (seen : List Request) (n : ℕ) (t : Option ℕ) (r : Request)
    → Candidate seen n t
    → is_smaller r n ≡ true
    → n ≤ long_max
    → Candidate (seen ++ r ∷ []) r.st_size (some (length seen))
Candidate-take seen n t r c small le =
    chosen seen r [] refl (ground arith) (ground arith)
      (All-NotBelow (suc r.st_size) n seen (ground arith) (seen-NotBelow seen n t c)) tt

Candidate-keep :
    (seen : List Request) (n : ℕ) (t : Option ℕ) (r : Request)
    → Candidate seen n t
    → is_smaller r n ≡ false
    → Candidate (seen ++ r ∷ []) n t
Candidate-keep seen n t r (unset h) large =
    unset (All-append _ seen (r ∷ []) h ((λ u. ground arith), tt))
Candidate-keep seen n t r (chosen before x after e used small h k) large =
    chosen before x (after ++ r ∷ [])
      (ap (λ s. s ++ r ∷ []) e ∙ append_assoc before (x ∷ after) (r ∷ [])) used small h
      (All-append _ after (r ∷ []) k ((λ u. ground arith), tt))

Candidate-bound : (seen : List Request) (n : ℕ) (t : Option ℕ) → Candidate seen n t → n ≤ long_max
Candidate-bound seen n t (unset h) = omega arith
Candidate-bound seen n t (chosen before r after e used small h k) = omega arith

sff_loop-Smallest :
    (seen rs : List Request) (n : ℕ) (t : Option ℕ)
    → Candidate seen n t
    → Smallest (seen ++ rs) (sff_loop rs (length seen) n t)
unfolding sff_loop
sff_loop-Smallest seen [] n t c = rw (append-nil seen) (Candidate-Smallest seen n t c)
sff_loop-Smallest seen (r ∷ rs) n t c =
    let behind : length (seen ++ r ∷ []) ≡ suc (length seen) =
      omega (arith, length-append seen (r ∷ [])) in
    elim (Bool-cases (is_smaller r n)) [
      | inl small ↦ rw small (
          rw (append_assoc seen (r ∷ []) rs, behind) at
            (sff_loop-Smallest (seen ++ r ∷ []) rs r.st_size (some (length seen))
              (Candidate-take seen n t r c small (Candidate-bound seen n t c))))
      | inr large ↦ rw large (
          rw (append_assoc seen (r ∷ []) rs, behind) at
            (sff_loop-Smallest (seen ++ r ∷ []) rs n t (Candidate-keep seen n t r c large)))
    ]

-- Under SFF a thread takes the first of the used slots with the smallest file; there is no target only
-- if no used slot has a file smaller than LONG_MAX.
pub choose-Smallest : (head : ℕ) (queue : List Request) → Smallest queue (choose sff head queue)
unfolding choose
choose-Smallest head queue = sff_loop-Smallest [] queue long_max none (unset tt)

-- The slot is empty, or its file is not later than `latest`; where that is not set, it is from before
-- 1970.
abbrev pub NotAfter : Option ℕ → Request → Type 0
NotAfter latest r = is_later r latest ≡ false

-- The slot is empty, or its file is older than `t`.
abbrev pub Before : ℕ → Request → Type 0
Before t x = is_used x ≡ true → (u : ℕ) → x.st_mtime ≡ some u → u < t

-- A used slot with the latest file, the first one of those; or no used slot has a file from 1970 or
-- later.
pub data Latest (queue : List Request) : Option ℕ → Type 0 where
  nothing : All (NotAfter none) queue → Latest queue none
  slot :
      (before : List Request) (r : Request) (after : List Request) (t : ℕ)
      → queue ≡ before ++ r ∷ after
      → is_used r ≡ true
      → r.st_mtime ≡ some t
      → All (Before t) before
      → All (NotAfter (some t)) after
      → Latest queue (some (length before))

-- What the loop knows of the slots before the index.
data Leader (seen : List Request) : Option ℕ → Option ℕ → Type 0 where
  unset : All (NotAfter none) seen → Leader seen none none
  chosen :
      (before : List Request) (r : Request) (after : List Request) (t : ℕ)
      → seen ≡ before ++ r ∷ after
      → is_used r ≡ true
      → r.st_mtime ≡ some t
      → All (Before t) before
      → All (NotAfter (some t)) after
      → Leader seen (some t) (some (length before))

Before-NotAfter : (t : ℕ) (x : Request) → Before t x → NotAfter (some t) x
Before-NotAfter t x h = elim (Bool-cases (is_used x)) [
  | inr empty ↦ ground (arith, empty)
  | inl used ↦ elim (Option-cases x.st_mtime) [
    | inl old ↦ ground (arith, old)
    | inr (u, e) ↦ ground (arith, e, h used u e)
  ]
]

NotAfter-Before :
    (latest : Option ℕ) (x r : Request) (t : ℕ)
    → NotAfter latest x
    → is_later r latest ≡ true
    → r.st_mtime ≡ some t
    → Before t x
NotAfter-Before none x r t h later e used u e' = absurd (ground arith)
NotAfter-Before (some l) x r t h later e used u e' = ground arith

pub All-Before : (t : ℕ) (xs : List Request) → All (Before t) xs → All (NotAfter (some t)) xs
All-Before t [] h = tt
All-Before t (x ∷ xs) h = (Before-NotAfter t x h.0, All-Before t xs h.1)

All-NotAfter :
    (latest : Option ℕ) (xs : List Request) (r : Request) (t : ℕ)
    → All (NotAfter latest) xs
    → is_later r latest ≡ true
    → r.st_mtime ≡ some t
    → All (Before t) xs
All-NotAfter latest [] r t h later e = tt
All-NotAfter latest (x ∷ xs) r t h later e =
    (NotAfter-Before latest x r t h.0 later e, All-NotAfter latest xs r t h.1 later e)

pub NotAfter-self : (r : Request) (t : ℕ) → r.st_mtime ≡ some t → NotAfter (some t) r
NotAfter-self r t e = ground (arith, e)

seen-NotAfter : (seen : List Request) (l t : Option ℕ) → Leader seen l t → All (NotAfter l) seen
seen-NotAfter seen l t (unset h) = h
seen-NotAfter seen l t (chosen before r after u e used time h k) =
    rw e (All-append _ before (r ∷ after) (All-Before u before h) (NotAfter-self r u time, k))

later-time :
    (r : Request) (l : Option ℕ)
    → is_later r l ≡ true
    → (is_used r ≡ true) × ((t : ℕ) × (r.st_mtime ≡ some t))
later-time r l h = elim (Option-cases r.st_mtime) [
  | inl old ↦ absurd (ground (arith, old))
  | inr (t, e) ↦ (ground arith, (t, e))
]

Leader-take :
    (seen : List Request) (l target : Option ℕ) (r : Request)
    → Leader seen l target
    → is_later r l ≡ true
    → Leader (seen ++ r ∷ []) r.st_mtime (some (length seen))
Leader-take seen l target r c later =
    let (used, (t, e)) = later-time r l later in
    subst (λ m. Leader (seen ++ r ∷ []) m (some (length seen))) (sym e)
      (chosen seen r [] t refl used e
        (All-NotAfter l seen r t (seen-NotAfter seen l target c) later e) tt)

Leader-keep :
    (seen : List Request) (l target : Option ℕ) (r : Request)
    → Leader seen l target
    → is_later r l ≡ false
    → Leader (seen ++ r ∷ []) l target
Leader-keep seen l target r (unset h) not_later =
    unset (All-append _ seen (r ∷ []) h (not_later, tt))
Leader-keep seen l target r (chosen before x after t e used time h k) not_later =
    chosen before x (after ++ r ∷ []) t
      (ap (λ s. s ++ r ∷ []) e ∙ append_assoc before (x ∷ after) (r ∷ [])) used time h
      (All-append _ after (r ∷ []) k (not_later, tt))

Leader-Latest : (seen : List Request) (l t : Option ℕ) → Leader seen l t → Latest seen t
Leader-Latest seen l t (unset h) = nothing h
Leader-Latest seen l t (chosen before r after u e used time h k) =
    slot before r after u e used time h k

rff_loop-Latest :
    (seen rs : List Request) (l t : Option ℕ)
    → Leader seen l t
    → Latest (seen ++ rs) (rff_loop rs (length seen) l t)
unfolding rff_loop
rff_loop-Latest seen [] l t c = rw (append-nil seen) (Leader-Latest seen l t c)
rff_loop-Latest seen (r ∷ rs) l t c =
    let behind : length (seen ++ r ∷ []) ≡ suc (length seen) =
      omega (arith, length-append seen (r ∷ [])) in
    elim (Bool-cases (is_later r l)) [
      | inl later ↦ rw later (
          rw (append_assoc seen (r ∷ []) rs, behind) at
            (rff_loop-Latest (seen ++ r ∷ []) rs r.st_mtime (some (length seen))
              (Leader-take seen l t r c later)))
      | inr not_later ↦ rw not_later (
          rw (append_assoc seen (r ∷ []) rs, behind) at
            (rff_loop-Latest (seen ++ r ∷ []) rs l t (Leader-keep seen l t r c not_later)))
    ]

-- Under RFF a thread takes the first of the used slots with the latest file; there is no target only
-- if no used slot has a file from 1970 or later.
pub choose-Latest : (head : ℕ) (queue : List Request) → Latest queue (choose rff head queue)
unfolding choose
choose-Latest head queue = rff_loop-Latest [] queue none none (unset tt)
