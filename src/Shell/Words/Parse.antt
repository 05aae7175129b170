-- ===== src/Shell/Words/Parse.antt =====
-- The arguments that `parseCommand` of myShell/hw1.c finds in a command.
use cos.Base.{
  ℕ, zero, suc, ◌+◌, ◌<◌, ◌≡◌, ◌≢◌, refl, ap, ◌∙◌, inl, inr, true, false, Option, none, some, List,
  [], ◌∷◌, ◌++◌, arith, ltb, Bool-cases, if◌then◌else◌, length, length-append, All, Str, ==_iff,
}
use cos.Shell.Words.{
  is_blank, max_args_count, skip_blanks, token, behind_token, strtok, parse_loop, parse_command,
}

-- A command, as its words with blanks around them; only the last word needs no blank behind it.
pub data Spaced : Str → List Str → Type 0 where
  blank : (s : Str) → All (λ c. is_blank c ≡ true) s → Spaced s []
  last :
      (s before word : Str)
      → s ≡ before ++ word
      → All (λ c. is_blank c ≡ true) before
      → All (λ c. is_blank c ≡ false) word
      → word ≢ []
      → Spaced s (word ∷ [])
  next :
      (s before word rest : Str) (words : List Str)
      → s ≡ before ++ (word ++ 32 ∷ rest)
      → All (λ c. is_blank c ≡ true) before
      → All (λ c. is_blank c ≡ false) word
      → word ≢ []
      → Spaced rest words
      → Spaced s (word ∷ words)

-- What `strtok` finds.
data Token (s : Str) : Option (Str × Str) → Type 0 where
  no_token : All (λ c. is_blank c ≡ true) s → Token s none
  last_token :
      (before word : Str)
      → s ≡ before ++ word
      → All (λ c. is_blank c ≡ true) before
      → All (λ c. is_blank c ≡ false) word
      → word ≢ []
      → Token s (some (word, []))
  a_token :
      (before word rest : Str)
      → s ≡ before ++ (word ++ 32 ∷ rest)
      → All (λ c. is_blank c ≡ true) before
      → All (λ c. is_blank c ≡ false) word
      → word ≢ []
      → Token s (some (word, rest))

-- A string, as its first word and what stands behind it.
data Word (s word rest : Str) : Type 0 where
  to_end : s ≡ word → rest ≡ [] → All (λ c. is_blank c ≡ false) word → Word s word rest
  to_blank : s ≡ word ++ 32 ∷ rest → All (λ c. is_blank c ≡ false) word → Word s word rest

Word-behind :
    (c : ℕ) (s word rest : Str)
    → is_blank c ≡ false
    → Word s word rest
    → Word (c ∷ s) (c ∷ word) rest
Word-behind c s word rest h (to_end e r all) = to_end (ap (λ t. c ∷ t) e) r (h, all)
Word-behind c s word rest h (to_blank e all) = to_blank (ap (λ t. c ∷ t) e) (h, all)

token-Word : (s : Str) → Word s (token s) (behind_token s)
unfolding token behind_token
token-Word [] = to_end refl refl tt
token-Word (c ∷ s) = elim (Bool-cases (is_blank c)) [
  | inl h ↦ rw h (to_blank (ap (λ x. x ∷ s) ((==_iff c 32).0 h)) tt)
  | inr h ↦ rw h (Word-behind c s (token s) (behind_token s) h (token-Word s))
]

-- A string, as its leading blanks and the rest.
data Skipped (s : Str) : Str → Type 0 where
  all_blank : All (λ c. is_blank c ≡ true) s → Skipped s []
  before_word :
      (before : Str) (c : ℕ) (cs : Str)
      → s ≡ before ++ c ∷ cs
      → All (λ c. is_blank c ≡ true) before
      → is_blank c ≡ false
      → Skipped s (c ∷ cs)

Skipped-behind : (c : ℕ) (s t : Str) → is_blank c ≡ true → Skipped s t → Skipped (c ∷ s) t
Skipped-behind c s [] h (all_blank all) = all_blank (h, all)
Skipped-behind c s t h (before_word before d ds e all ne) =
    before_word (c ∷ before) d ds (ap (λ t. c ∷ t) e) (h, all) ne

skip_blanks-Skipped : (s : Str) → Skipped s (skip_blanks s)
unfolding skip_blanks
skip_blanks-Skipped [] = all_blank tt
skip_blanks-Skipped (c ∷ s) = elim (Bool-cases (is_blank c)) [
  | inl h ↦ rw h (Skipped-behind c s (skip_blanks s) h (skip_blanks-Skipped s))
  | inr h ↦ rw h (before_word [] c s refl tt h)
]

Word-Token :
    (s before : Str) (c : ℕ) (cs word rest : Str)
    → s ≡ before ++ c ∷ cs
    → All (λ c. is_blank c ≡ true) before
    → Word (c ∷ cs) word rest
    → word ≢ []
    → Token s (some (word, rest))
Word-Token s before c cs word rest e all (to_end same done ok) some_char =
    rw done (last_token before word (e ∙ ap (λ t. before ++ t) same) all ok some_char)
Word-Token s before c cs word rest e all (to_blank same ok) some_char =
    a_token before word rest (e ∙ ap (λ t. before ++ t) same) all ok some_char

token-cons : (c : ℕ) (cs : Str) → is_blank c ≡ false → token (c ∷ cs) ≢ []
unfolding token
token-cons c cs h = rw h (λ e. cc)

Skipped-Token :
    (s t : Str)
    → Skipped s t
    → Token s (elim t [ [] ↦ none | c ∷ cs ↦ some (token (c ∷ cs), behind_token (c ∷ cs)) ])
Skipped-Token s [] (all_blank all) = no_token all
Skipped-Token s (c ∷ cs) (before_word before d ds e all ne) =
    Word-Token s before c cs (token (c ∷ cs)) (behind_token (c ∷ cs)) e all (token-Word (c ∷ cs))
      (token-cons c cs ne)

strtok-Token : (s : Str) → Token s (strtok s)
unfolding strtok
strtok-Token s = Skipped-Token s (skip_blanks s) (skip_blanks-Skipped s)

-- What the loop returns where it finds `args` from the place `i` on.
abbrev parsed : ℕ → List Str → Option (List Str)
parsed i args = if ltb (i + length args) max_args_count then some args else none

parsed-cons :
    (i : ℕ) (arg : Str) (args : List Str) (r : Option (List Str))
    → r ≡ parsed (i + 1) args
    → (if ltb i max_args_count
        then elim r [ none ↦ none | some args ↦ some (arg ∷ args) ]
        else none)
      ≡ parsed i (arg ∷ args)
parsed-cons i arg args r e =
    let f : (i + 1) + length args ≡ i + suc (length args) = omega arith in
    rw (e, f)
      (elim (Bool-cases (ltb (i + suc (length args)) max_args_count)) [
        | inl h ↦ let h' : ltb i max_args_count ≡ true = ground arith in rw (h, h') refl
        | inr h ↦ elim (Bool-cases (ltb i max_args_count)) [
          | inl h' ↦ rw (h, h') refl
          | inr h' ↦ rw (h, h') refl
        ]
      ])

rest-length :
    (s before word rest : Str) → s ≡ before ++ (word ++ 32 ∷ rest) → length rest < length s
rest-length s before word rest e =
    omega
      (arith, ap length e, length-append before (word ++ 32 ∷ rest), length-append word (32 ∷ rest))

pub no_words : (s : Str) (args : List Str) → Spaced s args → s ≡ [] → args ≡ []
no_words s args (blank t all) e = refl
no_words s args (last t before [] same all ok ne) e = absurd (ne refl)
no_words s args (last t [] (c ∷ word) same all ok ne) e = cc
no_words s args (last t (b ∷ before) (c ∷ word) same all ok ne) e = cc
no_words s args (next t [] [] rest words same all ok ne spaced) e = cc
no_words s args (next t [] (c ∷ word) rest words same all ok ne spaced) e = cc
no_words s args (next t (b ∷ before) word rest words same all ok ne spaced) e = cc

-- That the rest of the loop, from place `i` on, finds the words of `s`.
abbrev Finds : (run : Option (List Str)) (i : ℕ) (s : Str) → Type 0
Finds run i s = (args : List Str) × Spaced s args × (run ≡ parsed i args)

Token-Finds :
    (i : ℕ) (s : Str) (loop : Str → Option (List Str)) (r : Option (Str × Str))
    → ((rest : Str) → length rest < length s → Finds (loop rest) (i + 1) rest)
    → Token s r
    → Finds
        (elim r [
          | none ↦ if ltb i max_args_count then some [] else none
          | some (arg, rest) ↦
              if ltb i max_args_count
              then elim (loop rest) [ none ↦ none | some args ↦ some (arg ∷ args) ]
              else none
        ])
        i
        s
Token-Finds i s loop r ih (no_token all) =
    let f : i ≡ i + 0 = omega arith in
    ([], blank s all, ap (λ n. if ltb n max_args_count then some [] else none) f)
Token-Finds i s loop r ih (last_token before [] e all ok ne) = absurd (ne refl)
Token-Finds i s loop r ih (last_token before (c ∷ cs) e all ok ne) =
    let (args, spaced, runs) = ih [] (omega (arith, ap length e, length-append before (c ∷ cs))) in
    (
      (c ∷ cs) ∷ [],
      last s before (c ∷ cs) e all ok ne,
      parsed-cons i (c ∷ cs) [] (loop [])
          (runs ∙ ap (parsed (i + 1)) (no_words [] args spaced refl)),
    )
Token-Finds i s loop r ih (a_token before word rest e all ok ne) =
    let (args, spaced, runs) = ih rest (rest-length s before word rest e) in
    (
      word ∷ args,
      next s before word rest args e all ok ne spaced,
      parsed-cons i word args (loop rest) runs,
    )

parse_loop-Finds : (fuel i : ℕ) (s : Str) → length s < fuel → Finds (parse_loop fuel i s) i s
unfolding parse_loop
parse_loop-Finds zero i s lt = absurd (omega arith)
parse_loop-Finds (suc fuel) i s lt =
    Token-Finds i s (parse_loop fuel (i + 1)) (strtok s)
      (λ rest shorter. parse_loop-Finds fuel (i + 1) rest (omega (arith, shorter))) (strtok-Token s)

-- `parseCommand` finds the words of every command in order, as long as there are fewer than 64; of
-- more words it writes one of them, or the NULL behind them, out of the bounds of `args`.
pub parse_command-Spaced :
    (command : Str)
    → (args : List Str) × Spaced command args
      × (parse_command command ≡ (if ltb (length args) max_args_count then some args else none))
unfolding parse_command
parse_command-Spaced command =
    let (args, spaced, runs) = parse_loop-Finds (suc (length command)) 0 command (omega arith) in
    let e : 0 + length args ≡ length args = omega arith in
    (args, spaced, runs ∙ ap (λ n. if ltb n max_args_count then some args else none) e)
