-- ===== src/Server/Client/Threads.antt =====
-- `main` and `thread_func` of multiThreadedWebServer/client.c: which threads it makes, and what each of
-- them sends and prints.
use mathlib.Core.Path.{subst}
use cos.Base.{
  leb, ◌||◌, true, false, inl, inr, Bool-cases, sym, ◌∙◌, le→not_ltb, dec_lt, if◌then◌else◌, ◌<◌, ℕ,
  zero, suc, ◌+◌, ◌≤◌, ◌≡◌, refl, ap, Bool, Option, none, some, List, [], ◌∷◌, ◌++◌, lt→ltb, arith,
  length, map, Str, codes, get_elem?,
}
use cos.Server.Response.{decimal}
use cos.Server.Cgi.{atoi}
use cos.Server.Client.{client_send, client_print, file_names, requested_files, max_threads}

-- `thread_args_t`
pub record ThreadArgs : Type 0 where
  pub host : Str
  pub port : Bool × ℕ
  pub filename : Str

-- How `main` ends: with its usage, with the message on too many files, in the loop, where a name is
-- written behind the 100 bytes of its buffer, or behind these threads.
pub data Started : Type 0 where
  usage : Started
  too_many : Started
  overflow : Started
  threads : List ThreadArgs → Started

-- How often a loop up to a number of `atoi` runs.
abbrev pub rounds : Bool × ℕ → ℕ
rounds (negative, n) = if negative then 0 else n

-- The bytes of the buffer of a name, which ends with a zero byte.
abbrev pub name_size : ℕ
name_size = 100

-- Whether one of the names does not fit.
unfoldable pub too_long : List Str → Bool
too_long [] = false
too_long (filename ∷ filenames) = leb name_size (length filename) || too_long filenames

-- `main` on the arguments behind the name of the program.
unfoldable pub client_main : List Str → Started
client_main [] = usage
client_main (host ∷ []) = usage
client_main (host ∷ port ∷ []) = usage
client_main (host ∷ port ∷ prefix ∷ []) = usage
client_main (host ∷ port ∷ prefix ∷ count ∷ more) =
    elim (requested_files prefix (rounds (atoi count))) [
      | none ↦ too_many
      | some filenames ↦
          if too_long filenames
          then overflow
          else threads (
              map (λ filename. record { host = host; port = atoi port; filename = filename })
                filenames)
    ]

-- What `thread_func` sends to the host and prints of the reply, where `hostname` is the name of the
-- machine that it runs on.
unfoldable pub thread_func {ℓ} :
    {S : Type ℓ}
    → (S → Option (Str × S))
    → ℕ
    → (hostname : Str) → ThreadArgs
    → S
    → Str × Option (List Str × (List ℕ × List Str))
thread_func readlineb fuel hostname args s =
    (client_send hostname args.filename, client_print readlineb fuel s)

-- What `main` does with its arguments.
pub data Asked : List Str → Started → Type 0 where
  too_few : (arguments : List Str) → length arguments < 4 → Asked arguments usage
  refuses :
      (host port prefix count : Str) (more : List Str)
      → max_threads < rounds (atoi count)
      → Asked (host ∷ port ∷ prefix ∷ count ∷ more) too_many
  overflows :
      (host port prefix count : Str) (more : List Str) (i : ℕ)
      → rounds (atoi count) ≤ max_threads
      → i < rounds (atoi count)
      → name_size ≤ length (prefix ++ (decimal (i + 1) ++ codes ".txt"))
      → Asked (host ∷ port ∷ prefix ∷ count ∷ more) overflow
  asks :
      (host port prefix count : Str) (more : List Str) (made : List ThreadArgs)
      → rounds (atoi count) ≤ max_threads
      → length made ≡ rounds (atoi count)
      → ((i : ℕ)
          → i < length made
          → length (prefix ++ (decimal (i + 1) ++ codes ".txt")) < name_size)
      → ((i : ℕ)
          → i < length made
          → get_elem? made i
            ≡ some (record {
              host = host;
              port = atoi port;
              filename = prefix ++ (decimal (i + 1) ++ codes ".txt");
            }))
      → Asked (host ∷ port ∷ prefix ∷ count ∷ more) (threads made)

module _ (host port prefix : Str) where
  thread_for : Str → ThreadArgs
  thread_for filename = record { host = host; port = atoi port; filename = filename }

  length-made : (i n : ℕ) → length (map thread_for (file_names prefix i n)) ≡ n
  length-made i zero = refl
  length-made i (suc n) = omega (arith, length-made (i + 1) n)

  nth-made :
      (i n k : ℕ)
      → k < n
      → get_elem? (map thread_for (file_names prefix i n)) k
        ≡ some (thread_for (prefix ++ (decimal ((i + k) + 1) ++ codes ".txt")))
  nth-made i zero k lt = absurd (omega arith)
  nth-made i (suc n) zero lt =
      let same : i + 1 ≡ (i + 0) + 1 = omega arith in
      ap (λ m. some (thread_for (prefix ++ (decimal m ++ codes ".txt")))) same
  nth-made i (suc n) (suc k) lt =
      let same : ((i + 1) + k) + 1 ≡ (i + suc k) + 1 = omega arith in
      nth-made (i + 1) n k (omega (arith, lt))
      ∙ ap (λ m. some (thread_for (prefix ++ (decimal m ++ codes ".txt")))) same

  client_main-requested :
      (count : Str) (more : List Str) {o : Option (List Str)}
      → requested_files prefix (rounds (atoi count)) ≡ o
      → client_main (host ∷ port ∷ prefix ∷ count ∷ more) ≡ (elim o [
        | none ↦ too_many
        | some filenames ↦
            if too_long filenames then overflow else threads (map thread_for filenames)
      ])
  unfolding client_main thread_for
  client_main-requested count more e =
      ap
        (λ o. elim o [
          | none ↦ too_many
          | some filenames ↦
              if too_long filenames then overflow else threads (map thread_for filenames)
        ])
        e

  named : ℕ → Str
  named i = prefix ++ (decimal i ++ codes ".txt")

  too_long-some :
      (i n : ℕ)
      → too_long (file_names prefix i n) ≡ true
      → (k : ℕ) × (k < n) × (name_size ≤ length (named ((i + k) + 1)))
  unfolding too_long named
  too_long-some i zero h = cc
  too_long-some i (suc n) h = elim (dec_lt (length (named (i + 1))) name_size) [
    | no long ↦
        let same : i + 1 ≡ (i + 0) + 1 = omega arith in
        (0, omega arith, subst (λ m. name_size ≤ length (named m)) same (omega (arith, long)))
    | yes short ↦
        let (k, lt, long) = too_long-some (i + 1) n (ground (arith, h, short)) in
        let same : ((i + 1) + k) + 1 ≡ (i + suc k) + 1 = omega arith in
        (suc k, omega (arith, lt), subst (λ m. name_size ≤ length (named m)) same long)
  ]

  too_long-none :
      (i n : ℕ)
      → too_long (file_names prefix i n) ≡ false
      → (k : ℕ) → k < n
      → length (named ((i + k) + 1)) < name_size
  unfolding too_long named
  too_long-none i zero h k lt = absurd (omega arith)
  too_long-none i (suc n) h zero lt =
      let same : i + 1 ≡ (i + 0) + 1 = omega arith in
      let short : length (named (i + 1)) < name_size = ground (arith, h) in
      subst (λ m. length (named m) < name_size) same short
  too_long-none i (suc n) h (suc k) lt =
      let same : ((i + 1) + k) + 1 ≡ (i + suc k) + 1 = omega arith in
      let behind : too_long (file_names prefix (i + 1) n) ≡ false = ground (arith, h) in
      subst (λ m. length (named m) < name_size) same
        (too_long-none (i + 1) n behind k (omega (arith, lt)))

  asks-made :
      (count : Str) (more : List Str)
      → rounds (atoi count) ≤ max_threads
      → too_long (file_names prefix 0 (rounds (atoi count))) ≡ false
      → Asked
          (host ∷ port ∷ prefix ∷ count ∷ more)
          (threads (map thread_for (file_names prefix 0 (rounds (atoi count)))))
  unfolding thread_for named
  asks-made count more le fits =
      let n = rounds (atoi count) in
      asks host port prefix count more (map thread_for (file_names prefix 0 n)) le (length-made 0 n)
        (λ i lt.
          let same : (0 + i) + 1 ≡ i + 1 = omega arith in
          subst (λ m. length (named m) < name_size) same
            (too_long-none 0 n fits i (omega (arith, lt, length-made 0 n))))
        (λ i lt.
          let same : (0 + i) + 1 ≡ i + 1 = omega arith in
          nth-made 0 n i (omega (arith, lt, length-made 0 n))
          ∙ ap (λ m. some (thread_for (prefix ++ (decimal m ++ codes ".txt")))) same)

requested_files-none : (prefix : Str) (n : ℕ) → max_threads < n → requested_files prefix n ≡ none
unfolding requested_files
requested_files-none prefix n lt = rw (requested_files, lt→ltb max_threads n lt) refl

requested_files-some :
    (prefix : Str) (n : ℕ)
    → n ≤ max_threads
    → requested_files prefix n ≡ some (file_names prefix 0 n)
unfolding requested_files
requested_files-some prefix n le = rw (requested_files, le→not_ltb max_threads n le) refl

first_name : (i : ℕ) → (0 + i) + 1 ≡ i + 1
first_name i = omega arith

counted :
    (host port prefix count : Str) (more : List Str)
    → rounds (atoi count) ≤ max_threads
    → Asked
        (host ∷ port ∷ prefix ∷ count ∷ more)
        (client_main (host ∷ port ∷ prefix ∷ count ∷ more))
unfolding thread_for named
counted host port prefix count more le =
    let n = rounds (atoi count) in
    let names = file_names prefix 0 n in
    let made = map (thread_for host port prefix) names in
    let runs : client_main (host ∷ port ∷ prefix ∷ count ∷ more)
        ≡ (if too_long names then overflow else threads made) =
      client_main-requested host port prefix count more (requested_files-some prefix n le) in
    elim (Bool-cases (too_long names)) [
      | inl long ↦
          let (i, lt, no_room) = too_long-some host port prefix 0 n long in
          subst (Asked (host ∷ port ∷ prefix ∷ count ∷ more))
            (sym (runs ∙ ap (λ b. if b then overflow else threads made) long))
            (overflows host port prefix count more i le lt
              (subst (λ m. name_size ≤ length (named host port prefix m)) (first_name i) no_room))
      | inr short ↦
          subst (Asked (host ∷ port ∷ prefix ∷ count ∷ more))
            (sym (runs ∙ ap (λ b. if b then overflow else threads made) short))
            (asks-made host port prefix count more le short)
    ]

-- With less than four arguments `main` prints its usage, with a count above 15 it refuses, the count
-- and the port being what glibc's `atoi` makes of them. Otherwise, for each `i` below the count, the
-- file's name is the prefix, `i + 1` and ".txt": if one of these has 100 bytes or more, its buffer
-- overflows, and if not, there are as many threads as the count says, none for a negative one, and the
-- one behind `i` others asks the host for the file with that name.
pub client_main-Asked : (arguments : List Str) → Asked arguments (client_main arguments)
unfolding client_main
client_main-Asked [] = too_few _ (omega arith)
client_main-Asked (host ∷ []) = too_few _ (omega arith)
client_main-Asked (host ∷ port ∷ []) = too_few _ (omega arith)
client_main-Asked (host ∷ port ∷ prefix ∷ []) = too_few _ (omega arith)
client_main-Asked (host ∷ port ∷ prefix ∷ count ∷ more) =
    elim (dec_lt max_threads (rounds (atoi count))) [
      | yes lt ↦
          subst (Asked (host ∷ port ∷ prefix ∷ count ∷ more))
            (sym (
              client_main-requested host port prefix count more
                (requested_files-none prefix (rounds (atoi count)) lt)))
            (refuses host port prefix count more lt)
      | no no_more ↦ counted host port prefix count more (omega (arith, no_more))
    ]
