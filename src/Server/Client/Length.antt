-- ===== src/Server/Client/Length.antt =====
-- The length that the server of multiThreadedWebServer/request.c announces, as client.c reads it.
use cos.Base.{is_space}
use cos.Base.{
  ℕ, zero, suc, ◌+◌, ◌-◌, ◌*◌, ◌/◌, ◌%◌, ◌<◌, ◌≡◌, refl, sym, ap, ◌∙◌, inl, inr, true, false, ◌&&◌,
  Bool-cases, none, some, [], ◌∷◌, ◌++◌, ◌==◌, ltb, lt→ltb, if◌then◌else◌, arith, Str,
}
use cos.Server.Response.{crlf, decimal, decimal_from, length_line}
use cos.Server.Receive.{skip_spaces}
use cos.Server.Client.{is_digit, read_digits, strip, scan_int, content_length}

digit-read :
    (v d : ℕ) (s : Str) → d < 10 → read_digits v ((48 + d) ∷ s) ≡ read_digits (v * 10 + d) s
unfolding read_digits
digit-read v d s lt =
    let h : is_digit (48 + d) ≡ true = ground (arith, lt) in
    let e : (48 + d) - 48 ≡ d = omega arith in rw (h, e) refl

decimal_from-read :
    (k n : ℕ) (acc : Str) → n < k → read_digits 0 (decimal_from k n acc) ≡ read_digits n acc
unfolding decimal_from
decimal_from-read zero n acc lt = absurd (omega arith)
decimal_from-read (suc k) n acc lt = elim (Bool-cases (n / 10 == 0)) [
  | inl small ↦
      let e : 0 * 10 + n % 10 ≡ n = ground arith in
      rw small (digit-read 0 (n % 10) acc (omega arith) ∙ ap (λ v. read_digits v acc) e)
  | inr large ↦
      let e : (n / 10) * 10 + n % 10 ≡ n = omega arith in
      let smaller : n / 10 < k = ground (arith, large, lt) in
      rw large (
        decimal_from-read k (n / 10) ((48 + n % 10) ∷ acc) smaller
        ∙ (digit-read (n / 10) (n % 10) acc (omega arith) ∙ ap (λ v. read_digits v acc) e))
]

-- A decimal begins with a digit.
decimal_from-digit :
    (k n : ℕ) (acc : Str)
    → n < k
    → (d : ℕ) × (cs : Str) × (d < 10) × (decimal_from k n acc ≡ (48 + d) ∷ cs)
unfolding decimal_from
decimal_from-digit zero n acc lt = absurd (omega arith)
decimal_from-digit (suc k) n acc lt = elim (Bool-cases (n / 10 == 0)) [
  | inl small ↦ (n % 10, acc, omega arith, rw small refl)
  | inr large ↦
      let (d, cs, below, e) =
        decimal_from-digit k (n / 10) ((48 + n % 10) ∷ acc) (ground (arith, large, lt)) in
      (d, cs, below, rw large e)
]

skip_spaces-digit : (d : ℕ) (s : Str) → d < 10 → skip_spaces ((48 + d) ∷ s) ≡ (48 + d) ∷ s
unfolding skip_spaces
skip_spaces-digit d s lt = let h : is_space (48 + d) ≡ false = ground (arith, lt) in rw h refl

scan_int-digit :
    (d n : ℕ) (s : Str)
    → d < 10
    → read_digits 0 ((48 + d) ∷ s) ≡ n
    → n < 2147483648
    → scan_int ((48 + d) ∷ s) ≡ some n
unfolding scan_int
scan_int-digit d n s lt e fits =
    let h : is_digit (48 + d) ≡ true = ground (arith, lt) in
    ap
      (λ b.
        if b && ltb (read_digits 0 ((48 + d) ∷ s)) 2147483648
        then some (read_digits 0 ((48 + d) ∷ s))
        else none)
      h
    ∙ (ap (λ v. if ltb v 2147483648 then some v else none) e
        ∙ ap (λ b. if b then some n else none) (lt→ltb n 2147483648 fits))

read_digits-crlf : (n : ℕ) → read_digits n crlf ≡ n
unfolding read_digits
read_digits-crlf n = refl

decimal_from-append :
    (k n : ℕ) (acc rest : Str)
    → n < k
    → decimal_from k n acc ++ rest ≡ decimal_from k n (acc ++ rest)
unfolding decimal_from
decimal_from-append zero n acc rest lt = absurd (omega arith)
decimal_from-append (suc k) n acc rest lt = elim (Bool-cases (n / 10 == 0)) [
  | inl small ↦ rw small refl
  | inr large ↦
      rw large
        (decimal_from-append k (n / 10) ((48 + n % 10) ∷ acc) rest (ground (arith, large, lt)))
]

scan-decimal : (n : ℕ) → n < 2147483648 → scan_int (skip_spaces (decimal n ++ crlf)) ≡ some n
unfolding decimal
scan-decimal n fits =
    let (d, cs, below, e) = decimal_from-digit (suc n) n crlf (omega arith) in
    let written : decimal_from (suc n) n [] ++ crlf ≡ (48 + d) ∷ cs =
      decimal_from-append (suc n) n [] crlf (omega arith) ∙ e in
    let value : read_digits 0 ((48 + d) ∷ cs) ≡ n =
      ap (read_digits 0) (sym e)
      ∙ (decimal_from-read (suc n) n crlf (omega arith) ∙ read_digits-crlf n) in
    ap (λ x. scan_int (skip_spaces x)) written
    ∙ (ap scan_int (skip_spaces-digit d cs below) ∙ scan_int-digit d n cs below value fits)

-- The client reads the length that the server announces, of any body whose length an `int` holds.
pub content_length-length_line : (n : ℕ) → n < 2147483648 → content_length (length_line n) ≡ some n
unfolding content_length strip skip_spaces
content_length-length_line n fits = scan-decimal n fits
