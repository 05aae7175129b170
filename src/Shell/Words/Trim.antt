-- ===== src/Shell/Words/Trim.antt =====
-- What `trim` of myShell/hw1.c leaves of a string.
use cos.Base.{is_space}
use cos.Base.{
  ℕ, zero, suc, ◌+◌, ◌-◌, ◌≤◌, ◌<◌, ◌≡◌, refl, sym, ap, ◌∙◌, inl, inr, Bool, true, false, [], ◌∷◌,
  ◌++◌, arith, leb, leb→le, Bool-cases, if◌then◌else◌, length, get_or, take, drop, All, Str,
  take-append-drop,
}
use cos.Shell.Words.{begin_loop, end_loop, trim}
use cos.Base.{length-take}
use cos.Base.{dec_lt}
use cos.Base.{length-append}
use cos.Base.{length-drop}

-- A string between white space, with no white space at its own ends.
pub record Trimmed (str t : Str) : Type 0 where
  pub before : Str
  pub after : Str
  pub parts : str ≡ before ++ (t ++ after)
  pub spaces_before : All (λ c. is_space c ≡ true) before
  pub spaces_after : All (λ c. is_space c ≡ true) after
  pub first : (c : ℕ) (cs : Str) → t ≡ c ∷ cs → is_space c ≡ false
  pub last : (cs : Str) (c : ℕ) → t ≡ cs ++ c ∷ [] → is_space c ≡ false

begin_loop-All : (str : Str) → All (λ c. is_space c ≡ true) (take (begin_loop str) str)
unfolding begin_loop
begin_loop-All [] = tt
begin_loop-All (c ∷ cs) = elim (Bool-cases (is_space c)) [
  | inl h ↦ rw h (h, begin_loop-All cs)
  | inr h ↦ rw h tt
]

head-eq : {a b : ℕ} {as' bs : Str} → a ∷ as' ≡ b ∷ bs → a ≡ b
head-eq e = cc

begin_loop-first :
    (str : Str) (c : ℕ) (cs : Str) → drop (begin_loop str) str ≡ c ∷ cs → is_space c ≡ false
unfolding begin_loop
begin_loop-first [] c cs e = cc
begin_loop-first (d ∷ ds) c cs e = elim (Bool-cases (is_space d)) [
  | inl h ↦ begin_loop-first ds c cs (sym (stop h) ∙ e)
  | inr h ↦ ap is_space (sym (head-eq (sym (stop h) ∙ e))) ∙ h
]
  where
    stop :
        {b : Bool}
        → is_space d ≡ b
        → drop (begin_loop (d ∷ ds)) (d ∷ ds) ≡ drop (if b then suc (begin_loop ds) else 0) (d ∷ ds)
    stop h = ap (λ b. drop (if b then suc (begin_loop ds) else 0) (d ∷ ds)) h

begin_loop-le : (str : Str) → begin_loop str ≤ length str
unfolding begin_loop
begin_loop-le [] = omega arith
begin_loop-le (c ∷ cs) = elim (Bool-cases (is_space c)) [
  | inl h ↦ rw h (omega (arith, begin_loop-le cs))
  | inr h ↦ rw h (omega arith)
]

get_or-eq : (str : Str) {i j : ℕ} → i ≡ j → get_or str i 0 ≡ get_or str j 0
get_or-eq str e = ap (λ i. get_or str i 0) e

get_or-drop : (b : ℕ) (str : Str) (j : ℕ) → get_or (drop b str) j 0 ≡ get_or str (b + j) 0
get_or-drop zero str j = get_or-eq str (omega arith)
get_or-drop (suc b) [] j = refl
get_or-drop (suc b) (c ∷ cs) j =
    get_or-drop b cs j ∙ get_or-eq (c ∷ cs) {i = suc (b + j)} (omega arith)

get_or-take : (n : ℕ) (str : Str) (j : ℕ) → j < n → get_or (take n str) j 0 ≡ get_or str j 0
get_or-take zero str j lt = absurd (omega arith)
get_or-take (suc n) [] j lt = refl
get_or-take (suc n) (c ∷ cs) zero lt = refl
get_or-take (suc n) (c ∷ cs) (suc j) lt = get_or-take n cs j (omega arith)

get_or-last : (cs : Str) (c : ℕ) → get_or (cs ++ c ∷ []) (length cs) 0 ≡ c
get_or-last [] c = refl
get_or-last (d ∷ cs) c = get_or-last cs c

All-get : (P : ℕ → Type 0) (str : Str) → ((j : ℕ) → j < length str → P (get_or str j 0)) → All P str
All-get P [] h = tt
All-get P (c ∷ cs) h = (h 0 (omega arith), All-get P cs (λ j lt. h (suc j) (omega arith)))

record Ends (str : Str) (begin end m : ℕ) : Type 0 where
  ge : begin ≤ m
  le : m ≤ end
  spaces : (j : ℕ) → m ≤ j → j < end → is_space (get_or str j 0) ≡ true
  stops : (j : ℕ) → suc j ≡ m → begin < m → is_space (get_or str j 0) ≡ false

end_loop-Ends :
    (str : Str) (begin end : ℕ) → begin ≤ end → Ends str begin end (end_loop str begin end)
unfolding end_loop
end_loop-Ends str begin zero le = record {
  ge = le;
  le = omega arith;
  spaces = λ j ge lt. absurd (omega arith);
  stops = λ j e lt. absurd (omega arith);
}
end_loop-Ends str begin (suc end) le = elim (Bool-cases (leb begin end)) [
  | inr h ↦ rw h (stay (λ j e lt. absurd (ground arith)))
  | inl h ↦ elim (Bool-cases (is_space (get_or str end 0))) [
    | inl space ↦
        rw (h, space)
          (let r = end_loop-Ends str begin end (leb→le begin end h) in
            record {
              ge = r.ge;
              le = omega (arith, r.le);
              spaces = λ j ge lt. elim (dec_lt j end) [
                | yes lt' ↦ r.spaces j ge lt'
                | no out ↦ ap is_space (get_or-eq str (omega arith)) ∙ space
              ];
              stops = r.stops;
            })
    | inr other ↦ rw (h, other) (stay (λ j e lt. ap is_space (get_or-eq str (omega arith)) ∙ other))
  ]
]
  where
    stay :
        ((j : ℕ) → suc j ≡ suc end → begin < suc end → is_space (get_or str j 0) ≡ false)
        → Ends str begin (suc end) (suc end)
    stay stops = record {
      ge = le;
      le = omega arith;
      spaces = λ j ge lt. absurd (omega arith);
      stops = stops;
    }

length-last :
    (xs cs : Str) (c n : ℕ) → take n xs ≡ cs ++ c ∷ [] → n ≤ length xs → suc (length cs) ≡ n
length-last xs cs c n e le = omega (arith, ap length e, length-take n xs, length-append cs (c ∷ []))

-- `trim` takes the white space off both ends of a string, and nothing else.
pub trim-Trimmed : (str : Str) → Trimmed str (trim str)
unfolding trim
trim-Trimmed str = record {
  before = take b str;
  after = drop (m - b) t;
  parts = sym (ap (λ x. take b str ++ x) (take-append-drop (m - b) t) ∙ take-append-drop b str);
  spaces_before = begin_loop-All str;
  spaces_after =
      All-get (λ c. is_space c ≡ true) (drop (m - b) t)
        (λ j lt.
          ap is_space (get_or-drop (m - b) t j ∙ at (m - b + j))
          ∙ r.spaces (b + (m - b + j)) (omega (arith, r.ge))
              (omega (arith, rest_length, lt, r.ge, r.le)));
  first = λ c cs e.
      begin_loop-first str c (cs ++ drop (m - b) t)
        (sym (take-append-drop (m - b) t) ∙ ap (λ x. x ++ drop (m - b) t) e);
  last = λ cs c e.
      let n : suc (length cs) ≡ m - b =
        length-last t cs c (m - b) e (omega (arith, r.le, length-drop b str)) in
      sym (
        ap is_space (
          sym (at (length cs))
          ∙ (sym (get_or-take (m - b) t (length cs) (omega (arith, n)))
              ∙ (ap (λ x. get_or x (length cs) 0) e ∙ get_or-last cs c))))
      ∙ r.stops (b + length cs) (omega (arith, n)) (omega (arith, n));
}
  where
    b : ℕ
    b = begin_loop str

    t : Str
    t = drop b str

    m : ℕ
    m = end_loop str b (length str)

    r : Ends str b (length str) m
    r = end_loop-Ends str b (length str) (begin_loop-le str)

    at : (j : ℕ) → get_or t j 0 ≡ get_or str (b + j) 0
    at = get_or-drop b str

    rest_length : length (drop (m - b) t) ≡ (length str - b) - (m - b)
    rest_length = length-drop (m - b) t ∙ ap (λ n. n - (m - b)) (length-drop b str)
