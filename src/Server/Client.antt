-- ===== src/Server/Client.antt =====
-- multiThreadedWebServer/client.c: the request that `clientSend` writes, and the length that
-- `clientPrint` looks for.
pub mod Length
pub mod Exchange
pub mod Print
pub mod Sends
pub mod Framed
pub mod Reply
pub mod Refusal
pub mod Listed
pub mod Threads
use cos.Base.{
  ℕ, zero, suc, ◌+◌, ◌-◌, ◌*◌, Bool, true, false, ◌&&◌, ◌||◌, Option, none, some, List, [], ◌∷◌,
  ◌++◌, ◌==◌, ltb, leb, if◌then◌else◌, Str, codes,
}
use cos.Server.Response.{crlf}
use cos.Server.Receive.{skip_spaces}
use cos.Server.Response.{decimal}
use cos.Base.{not}
use cos.Base.{str_eq, up_to_zero}

-- What `clientSend` writes.
unfoldable pub client_send : (hostname filename : Str) → Str
client_send hostname filename =
    codes "GET "
    ++ (filename
        ++ (codes " HTTP/1.1" ++ (crlf ++ (codes "host: " ++ (hostname ++ (crlf ++ crlf))))))

abbrev pub is_digit : ℕ → Bool
is_digit c = leb 48 c && leb c 57

-- The digits of a `%d`, behind digits of the value `n`.
unfoldable pub read_digits : ℕ → Str → ℕ
read_digits n [] = n
read_digits n (c ∷ cs) = if is_digit c then read_digits (n * 10 + (c - 48)) cs else n

-- The string behind a prefix.
unfoldable pub strip : Str → Str → Option Str
strip [] s = some s
strip (p ∷ ps) [] = none
strip (p ∷ ps) (c ∷ cs) = if p == c then strip ps cs else none

-- The digits at the start of a string, if there are any, as an `int`.
unfoldable pub scan_int : Str → Option ℕ
unfolding read_digits
scan_int [] = none
scan_int (c ∷ cs) =
    if is_digit c && ltb (read_digits 0 (c ∷ cs)) 2147483648
    then some (read_digits 0 (c ∷ cs))
    else none

-- `sscanf(buf, "Content-Length: %d ", &length)` of a line whose number has no sign.
unfoldable pub content_length : Str → Option ℕ
unfolding strip scan_int
content_length line = elim (strip (codes "Content-Length:") line) [
  | none ↦ none
  | some rest ↦ scan_int (skip_spaces rest)
]

-- The names of the files that `main` asks for, from the number `i` on.
abbrev pub file_names : (prefix : Str) → (i num_files : ℕ) → List Str
file_names prefix i zero = []
file_names prefix i (suc k) =
    (prefix ++ (decimal (i + 1) ++ codes ".txt")) ∷ file_names prefix (i + 1) k

abbrev pub max_threads : ℕ
max_threads = 15

-- The requests of `main`; `none` is that there are too many.
unfoldable pub requested_files : (prefix : Str) → (file_count : ℕ) → Option (List Str)
requested_files prefix file_count =
    if ltb max_threads file_count then none else some (file_names prefix 0 file_count)

-- With the length that a line gives, where it does.
abbrev pub found : Str → List ℕ → List ℕ
found line lengths = elim (content_length line) [ none ↦ lengths | some n ↦ n ∷ lengths ]

module _ {ℓ} {S : Type ℓ} (readlineb : S → Option (Str × S)) where
  -- The buffer as the string that `strcmp`, `sscanf` and `printf` see, whether `n` is positive, and the
  -- connection behind a call of `Rio_readlineb`.
  abbrev pub read_line : Str → S → Str × (Bool × S)
  read_line buf s = elim (readlineb s) [
    | none ↦ (buf, (false, s))
    | some (line, t) ↦ (up_to_zero line, (true, t))
  ]

  -- The first loop of `clientPrint`, on fuel: the header lines and the lengths that it prints, and the
  -- connection.
  unfoldable pub print_headers : ℕ → Str × (Bool × S) → Option (List Str × (List ℕ × S))
  print_headers zero x = none
  print_headers (suc k) x = elim (not (str_eq x.0 crlf) && x.1.0) [
    | false ↦ some ([], ([], x.1.1))
    | true ↦
        let y = read_line x.0 x.1.1 in
        elim (print_headers k y) [
          | none ↦ none
          | some (lines, (lengths, s)) ↦ some (x.0 ∷ lines, (found y.0 lengths, s))
        ]
  ]

  -- Its second loop: the lines of the body.
  unfoldable pub print_body : ℕ → Str × (Bool × S) → Option (List Str)
  print_body zero x = none
  print_body (suc k) x = elim x.1.0 [
    | false ↦ some []
    | true ↦ elim (print_body k (read_line x.0 x.1.1)) [
      | none ↦ none
      | some lines ↦ some (x.0 ∷ lines)
    ]
  ]

  -- What `clientPrint` prints: header lines, lengths, and the lines of the body.
  unfoldable pub client_print : ℕ → S → Option (List Str × (List ℕ × List Str))
  client_print fuel s = elim (print_headers fuel (read_line [] s)) [
    | none ↦ none
    | some (lines, (lengths, t)) ↦ elim (print_body fuel (read_line [] t)) [
      | none ↦ none
      | some body ↦ some (lines, (lengths, body))
    ]
  ]
