-- ===== src/Server/Cgi.antt =====
-- multiThreadedWebServer/output.c, the CGI program. The arithmetic of `double`, its comparison and
-- `%.2f` are parameters, and so are the readings of the clock, one for each call of `Time_GetSeconds`.
pub mod Reply
mod Tests
use cos.Base.{
  ltb, ◌^◌, ◌%◌, ℕ, zero, suc, ◌+◌, ◌*◌, ◌-◌, Bool, true, false, Option, none, some, List, [], ◌∷◌,
  ◌++◌, ◌==◌, if◌then◌else◌, Str, codes, length,
}
use cos.Server.Response.{crlf, decimal}
use cos.Server.Receive.{skip_spaces}
use cos.Server.Client.{read_digits}

-- A `long` as an `int`: whether it is negative, and the number without its sign. `strtol` stops at the
-- limits of a `long`, and the conversion keeps the low 32 bits.
abbrev pub as_int : Bool × ℕ → Bool × ℕ
as_int (false, n) =
    let bits = (if ltb 9223372036854775807 n then 9223372036854775807 else n) % 2 ^ 32 in
    if ltb bits (2 ^ 31) then (false, bits) else (true, 2 ^ 32 - bits)
as_int (true, n) =
    let bits = (if ltb 9223372036854775808 n then 9223372036854775808 else n) % 2 ^ 32 in
    if ltb (2 ^ 31) bits then (false, 2 ^ 32 - bits) else (true, bits)

-- `atoi` of glibc, `(int) strtol(s, NULL, 10)`.
unfoldable pub atoi : Str → Bool × ℕ
atoi s = elim (skip_spaces s) [
  | [] ↦ (false, 0)
  | c ∷ cs ↦
      if c == 45
      then as_int (true, read_digits 0 cs)
      else if c == 43
      then as_int (false, read_digits 0 cs)
      else as_int (false, read_digits 0 (c ∷ cs))
]

-- '&'
abbrev pub ampersand : ℕ
ampersand = 38

unfoldable pub skip_ampersands : Str → Str
skip_ampersands [] = []
skip_ampersands (c ∷ cs) = if c == ampersand then skip_ampersands cs else c ∷ cs

unfoldable pub to_ampersand : Str → Str
to_ampersand [] = []
to_ampersand (c ∷ cs) = if c == ampersand then [] else c ∷ to_ampersand cs

-- `strtok(buf, "&")`
unfoldable pub first_token : Str → Option Str
first_token s = elim (skip_ampersands s) [ [] ↦ none | c ∷ cs ↦ some (to_ampersand (c ∷ cs)) ]

-- What the program prints for a body.
unfoldable pub cgi_reply : (content : Str) → Str
cgi_reply content =
    (codes "Content-length: " ++ (decimal (length content) ++ crlf))
    ++ ((codes "Content-type: text/html" ++ (crlf ++ crlf)) ++ content)

-- `spinfor` behind `getargs`, with the value of QUERY_STRING, if it is set.
unfoldable pub spinfor_of : {D : Type 0} → (Bool × ℕ → D) → (query_string : Option Str) → D
spinfor_of of_int none = of_int (false, 5)
spinfor_of of_int (some buf) = elim (first_token buf) [
  | none ↦ of_int (false, 5)
  | some p ↦ of_int (atoi p)
]

-- The loop of `main`, on fuel: the number of the first reading of the clock behind it. `i` is the
-- number of the next reading.
unfoldable pub spin :
    {D : Type 0} → (D → D → D) → (D → D → Bool) → ℕ → (ℕ → D) → (t1 spinfor : D) → ℕ → Option ℕ
spin minus less zero clock t1 spinfor i = none
spin minus less (suc k) clock t1 spinfor i =
    let rest = spin minus less k clock t1 spinfor (i + 1) in
    if less (minus (clock i) t1) spinfor then rest else some (i + 1)

-- The body, where `seconds` is what `%.2f` makes of the time; the buffer keeps what it holds where
-- `sprintf` writes it to itself.
unfoldable pub content_of : (seconds : Str) → Str
content_of seconds =
    (codes "<p>Welcome to the CGI program</p>" ++ crlf)
    ++ ((codes "<p>My only purpose is to waste time on the server!</p>" ++ crlf)
        ++ (codes "<p>I spun for " ++ (seconds ++ (codes " seconds</p>" ++ crlf))))

module _ {D : Type 0} (of_int : Bool × ℕ → D) (minus : D → D → D) (less : D → D → Bool)
    (two_places : D → Str) where
  -- What `main` writes.
  unfoldable pub cgi_main : ℕ → (clock : ℕ → D) → (query_string : Option Str) → Option Str
  cgi_main fuel clock query_string =
      elim (spin minus less fuel clock (clock 0) (spinfor_of of_int query_string) 1) [
        | none ↦ none
        | some i ↦ some (cgi_reply (content_of (two_places (minus (clock i) (clock 0)))))
      ]
