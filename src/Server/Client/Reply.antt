-- ===== src/Server/Client/Reply.antt =====
-- The reply of request.c with a file, as client.c of multiThreadedWebServer prints it.
use cos.Base.{
  if◌then◌else◌, All, Bool, not, ◌&&◌, ℕ, zero, suc, ◌+◌, ◌/◌, ◌%◌, ◌≤◌, ◌<◌, ◌≡◌, ◌≢◌, refl, ap,
  ◌∙◌, inl, inr, true, false, Bool-cases, Option, none, some, List, [], ◌∷◌, ◌++◌, append_assoc,
  append-nil, arith, length, drop, ◌==◌, All-append, Str, codes,
}
use cos.Server.Uri.{FileType, html, gif, jpeg, plain, request_get_filetype}
use cos.Server.Response.{crlf, decimal, decimal_from, length_line, filetype_name, static_writes}
use cos.Server.Client.{content_length, strip}
use cos.Server.Client.Print.{lengths_of}
use cos.Server.Client.Length.{content_length-length_line}
use cos.Server.Client.Exchange.{NoNewline}
use cos.Server.Client.Sends.{Sends, flatten}
use cos.Server.Client.Framed.{framed, ended, HeadLine, Printed, framed-Printed}
use cos.Base.{up_to_zero}
use cos.Server.Client.Framed.{up_to_zero-append}
use cos.Server.Response.{request_serve_static}
use cos.Base.{sym}

-- A decimal has no newline.
decimal_from-plain : (k n : ℕ) (acc : Str) → NoNewline acc → NoNewline (decimal_from k n acc)
unfolding decimal_from
decimal_from-plain zero n acc h = h
decimal_from-plain (suc k) n acc h =
    let digit : ((48 + n % 10) == 10) ≡ false = ground arith in
    elim (Bool-cases (n / 10 == 0)) [
      | inl small ↦ rw small (digit, h)
      | inr large ↦ rw large (decimal_from-plain k (n / 10) ((48 + n % 10) ∷ acc) (digit, h))
    ]

pub decimal-plain : (n : ℕ) → NoNewline (decimal n)
unfolding decimal
decimal-plain n = decimal_from-plain (suc n) n [] tt

-- Nor a zero byte.
decimal_from-whole :
    (k n : ℕ) (acc : Str)
    → up_to_zero acc ≡ acc
    → up_to_zero (decimal_from k n acc) ≡ decimal_from k n acc
unfolding decimal_from
decimal_from-whole zero n acc h = h
decimal_from-whole (suc k) n acc h =
    let digit : ((48 + n % 10) == 0) ≡ false = ground arith in
    let more : up_to_zero ((48 + n % 10) ∷ acc) ≡ (48 + n % 10) ∷ acc =
      rw digit (ap (λ x. (48 + n % 10) ∷ x) h) in
    elim (Bool-cases (n / 10 == 0)) [
      | inl small ↦ rw small more
      | inr large ↦ rw large (decimal_from-whole k (n / 10) ((48 + n % 10) ∷ acc) more)
    ]

pub decimal-whole : (n : ℕ) → up_to_zero (decimal n ++ 13 ∷ []) ≡ decimal n ++ 13 ∷ []
unfolding decimal
decimal-whole n = up_to_zero-append (decimal n) (13 ∷ []) (decimal_from-whole (suc n) n [] refl)

abbrev pub newline_free : Str → Bool
newline_free [] = true
newline_free (c ∷ cs) = not (c == 10) && newline_free cs

pub no_newline : (s : Str) → newline_free s ≡ true → NoNewline s
no_newline [] h = tt
no_newline (c ∷ cs) h = ground (arith, no_newline cs)

-- The lines of the head of a reply, less their newlines.
abbrev pub status_line : Str
status_line = codes "HTTP/1.0 200 OK" ++ 13 ∷ []

abbrev pub server_line : Str
server_line = codes "Server: blg312e Web Server" ++ 13 ∷ []

abbrev type_line : Str → Str
type_line filename =
    codes "Content-Type: " ++ (filetype_name (request_get_filetype filename) ++ 13 ∷ [])

abbrev pub number_line : ℕ → Str
number_line n = codes "Content-Length: " ++ (decimal n ++ 13 ∷ [])

abbrev pub static_lines : (filename : Str) → ℕ → List Str
static_lines filename n = status_line ∷ server_line ∷ number_line n ∷ type_line filename ∷ []

name-free : (t : FileType) → newline_free (filetype_name t ++ 13 ∷ []) ≡ true
name-free html = refl
name-free gif = refl
name-free jpeg = refl
name-free plain = refl

name-whole : (t : FileType) → up_to_zero (filetype_name t ++ 13 ∷ []) ≡ filetype_name t ++ 13 ∷ []
name-whole html = refl
name-whole gif = refl
name-whole jpeg = refl
name-whole plain = refl

type_line-whole : (filename : Str) → up_to_zero (type_line filename) ≡ type_line filename
type_line-whole filename =
    ap (λ x. codes "Content-Type: " ++ x) (name-whole (request_get_filetype filename))

pub number_line-whole : (n : ℕ) → up_to_zero (number_line n) ≡ number_line n
number_line-whole n = ap (λ x. codes "Content-Length: " ++ x) (decimal-whole n)

type_line-free : (filename : Str) → NoNewline (type_line filename)
type_line-free filename =
    All-append (λ c. (c == 10) ≡ false) (codes "Content-Type: ") _
      (no_newline (codes "Content-Type: ") refl)
      (no_newline _ (name-free (request_get_filetype filename)))

pub number_line-free : (n : ℕ) → NoNewline (number_line n)
number_line-free n =
    All-append (λ c. (c == 10) ≡ false) (codes "Content-Length: ") _
      (no_newline (codes "Content-Length: ") refl)
      (All-append (λ c. (c == 10) ≡ false) (decimal n) _ (decimal-plain n) (refl, tt))

behind_number :
    (a b file : Str)
    → ((a ++ crlf) ++ (codes "Content-Type: " ++ (b ++ (crlf ++ crlf)))) ++ (file ++ [])
      ≡ (a ++ 13 ∷ []) ++ 10 ∷ (codes "Content-Type: " ++ ((b ++ 13 ∷ []) ++ 10 ∷ (13 ∷ 10 ∷ file)))
behind_number a b file = simp (append_assoc, append-nil)

pub serve_static-lines :
    (filename : Str) (n : ℕ) (file : Str)
    → flatten (static_writes filename n file) ≡ framed (static_lines filename n) file
unfolding static_writes
serve_static-lines filename n file =
    ap
      (λ x.
        (codes "HTTP/1.0 200 OK"
          ++ (crlf ++ (codes "Server: blg312e Web Server" ++ (crlf ++ codes "Content-Length: "))))
        ++ x)
      (behind_number (decimal n) (filetype_name (request_get_filetype filename)) file)

-- If the server does not end, it makes the two writes.
pub request_serve_static-some :
    (filename : Str) (n : ℕ) (file : Str) (writes : List Str)
    → request_serve_static filename n (some file) ≡ some writes
    → writes ≡ static_writes filename n file
unfolding request_serve_static
request_serve_static-some filename n file writes e = elim (Bool-cases (n == 0)) [
  | inl empty ↦
      let broken : none ≡ some writes =
        sym (ap (λ b. if b then none else some (static_writes filename n file)) empty) ∙ e in
      cc
  | inr more ↦
      let same : some (static_writes filename n file) ≡ some writes =
        sym (ap (λ b. if b then none else some (static_writes filename n file)) more) ∙ e in
      cc
]

-- Of the four lines only the third one gives a length.
lengths-reply :
    (filename : Str) (n : ℕ)
    → n < 2147483648
    → lengths_of (drop 1 (ended (static_lines filename n))) ≡ n ∷ []
unfolding content_length strip
lengths-reply filename n fits =
    let same : number_line n ++ 10 ∷ [] ≡ length_line n =
      ap (λ x. codes "Content-Length: " ++ x) (append_assoc (decimal n) (13 ∷ []) (10 ∷ [])) in
    ap (λ o. elim o [ none ↦ [] | some m ↦ m ∷ [] ])
      (ap content_length same ∙ content_length-length_line n fits)

-- A line that begins with another character is not the empty line.
pub begins_with : (c : ℕ) (cs : Str) → (c == 13) ≡ false → c ∷ cs ≢ crlf
begins_with c cs h e = let same : c ≡ 13 = cc in ground (arith, same, h)

static_lines-ok : (filename : Str) (n : ℕ) → All HeadLine (static_lines filename n)
static_lines-ok filename n = (
  (no_newline status_line refl, refl, begins_with _ _ refl),
  (
    (no_newline server_line refl, refl, begins_with _ _ refl),
    (
      (number_line-free n, number_line-whole n, begins_with _ _ refl),
      ((type_line-free filename, type_line-whole filename, begins_with _ _ refl), tt),
    ),
  ),
)

module _ {ℓ} {S : Type ℓ} (readlineb : S → Option (Str × S)) where
  -- Of the bytes of `requestServeStatic` for a file of `n` bytes, where an `int` holds `n`, read from a
  -- connection that gives them and then ends, `clientPrint` prints the four header lines, the length
  -- `n`, and of each line of the file what is before its first zero byte; fuel for the file and five rounds is enough.
  pub client_print-serve_static :
      (fuel : ℕ) (filename : Str) (n : ℕ) (file : Str) (s : S)
      → n < 2147483648
      → length file + 5 ≤ fuel
      → Sends readlineb s (flatten (static_writes filename n file))
      → Printed readlineb fuel (static_lines filename n) (n ∷ []) file s
  client_print-serve_static fuel filename n file s fits enough sent =
      framed-Printed readlineb fuel (static_lines filename n) (n ∷ []) file _ s
        (static_lines-ok filename n) (lengths-reply filename n fits) (omega (arith, enough)) sent
        (serve_static-lines filename n file)
