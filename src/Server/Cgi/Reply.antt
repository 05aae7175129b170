-- ===== src/Server/Cgi/Reply.antt =====
-- The reply of requestServeDynamic of request.c and of the CGI program output.c, as client.c of
-- multiThreadedWebServer prints it.
use mathlib.Core.Path.{subst}
use cos.Base.{
  All, length-append, dec_lt, ℕ, zero, suc, ◌+◌, ◌≤◌, ◌<◌, ◌≡◌, refl, sym, ap, ◌∙◌, inl, inr, Bool,
  true, false, Bool-cases, Option, none, some, List, [], ◌∷◌, ◌++◌, append_assoc, arith, length,
  drop, ◌==◌, All-append, Str, codes,
}
use cos.Server.Response.{crlf, decimal, request_serve_dynamic}
use cos.Server.Client.{content_length, strip}
use cos.Server.Client.Print.{lengths_of}
use cos.Server.Client.Exchange.{NoNewline}
use cos.Server.Client.Sends.{Sends, flatten}
use cos.Server.Client.Framed.{framed, ended, HeadLine, Printed, framed-Printed}
use cos.Server.Client.Reply.{no_newline, decimal-plain, status_line, server_line, begins_with}
use cos.Server.Cgi.{cgi_reply, cgi_main, content_of, spin, spinfor_of}
use cos.Base.{up_to_zero}
use cos.Server.Client.Reply.{decimal-whole}

-- The lines of the head, less their newlines.
abbrev size_line : ℕ → Str
size_line n = codes "Content-length: " ++ (decimal n ++ 13 ∷ [])

abbrev html_line : Str
html_line = codes "Content-type: text/html" ++ 13 ∷ []

abbrev pub dynamic_lines : ℕ → List Str
dynamic_lines n = status_line ∷ server_line ∷ size_line n ∷ html_line ∷ []

size_line-free : (n : ℕ) → NoNewline (size_line n)
size_line-free n =
    All-append (λ c. (c == 10) ≡ false) (codes "Content-length: ") _
      (no_newline (codes "Content-length: ") refl)
      (All-append (λ c. (c == 10) ≡ false) (decimal n) _ (decimal-plain n) (refl, tt))

size_line-whole : (n : ℕ) → up_to_zero (size_line n) ≡ size_line n
size_line-whole n = ap (λ x. codes "Content-length: " ++ x) (decimal-whole n)

-- The bytes that the client gets: those of the server, and those of the program.
abbrev pub dynamic_reply : (filename cgiargs printed : Str) → Str
dynamic_reply filename cgiargs printed =
    flatten (request_serve_dynamic filename cgiargs).0 ++ printed

cgi_reply-lines :
    (content : Str)
    → cgi_reply content ≡ size_line (length content) ++ 10 ∷ (html_line ++ 10 ∷ (13 ∷ 10 ∷ content))
unfolding cgi_reply
cgi_reply-lines content =
    let a = decimal (length content) in
    let rest = html_line ++ 10 ∷ (13 ∷ 10 ∷ content) in
    ap (λ x. codes "Content-length: " ++ x)
      (append_assoc a crlf rest ∙ sym (append_assoc a (13 ∷ []) (10 ∷ rest)))

pub dynamic-lines :
    (filename cgiargs content : Str)
    → dynamic_reply filename cgiargs (cgi_reply content)
      ≡ framed (dynamic_lines (length content)) content
unfolding request_serve_dynamic
dynamic-lines filename cgiargs content =
    ap (λ x. status_line ++ 10 ∷ (server_line ++ 10 ∷ x)) (cgi_reply-lines content)

-- None of the lines gives a length.
lengths-dynamic : (n : ℕ) → lengths_of (drop 1 (ended (dynamic_lines n))) ≡ []
unfolding content_length strip
lengths-dynamic n = refl

dynamic_lines-ok : (n : ℕ) → All HeadLine (dynamic_lines n)
dynamic_lines-ok n = (
  (no_newline status_line refl, refl, begins_with _ _ refl),
  (
    (no_newline server_line refl, refl, begins_with _ _ refl),
    (
      (size_line-free n, size_line-whole n, begins_with _ _ refl),
      ((no_newline html_line refl, refl, begins_with _ _ refl), tt),
    ),
  ),
)

-- The client prints the four lines of the head, no length, and the body of the program.
pub client_print-serve_dynamic {ℓ} :
    {S : Type ℓ} (readlineb : S → Option (Str × S)) (fuel : ℕ) (filename cgiargs content : Str)
    (s : S)
    → length content + 5 ≤ fuel
    → Sends readlineb s (dynamic_reply filename cgiargs (cgi_reply content))
    → Printed readlineb fuel (dynamic_lines (length content)) [] content s
client_print-serve_dynamic readlineb fuel filename cgiargs content s enough sent =
    framed-Printed readlineb fuel (dynamic_lines (length content)) [] content _ s
      (dynamic_lines-ok (length content)) (lengths-dynamic (length content)) (omega (arith, enough))
      sent (dynamic-lines filename cgiargs content)

length-cgi_reply : (content : Str) → length content ≤ length (cgi_reply content)
unfolding cgi_reply
length-cgi_reply content = omega (
  arith,
  length-append (codes "Content-length: " ++ (decimal (length content) ++ crlf))
      ((codes "Content-type: text/html" ++ (crlf ++ crlf)) ++ content),
  length-append (codes "Content-type: text/html" ++ (crlf ++ crlf)) content,
)

-- The bytes of a program that ends.
abbrev pub written : Option Str → Str
written none = []
written (some text) = text

module _ {D : Type 0} (minus : D → D → D) (less : D → D → Bool) (clock : ℕ → D)
    (t1 spinfor : D) where
  -- Of the readings from the number `i` on, `j` is the first that is not too early.
  pub record FirstLate (i j : ℕ) : Type 0 where
    pub from : i ≤ j
    pub late : less (minus (clock j) t1) spinfor ≡ false
    pub early : (m : ℕ) → i ≤ m → m < j → less (minus (clock m) t1) spinfor ≡ true

  FirstLate-now : (i : ℕ) → less (minus (clock i) t1) spinfor ≡ false → FirstLate i i
  FirstLate-now i h = record {
    from = omega arith;
    late = h;
    early = λ m le before. absurd (omega (arith, le, before));
  }

  FirstLate-later :
      (i j : ℕ) → less (minus (clock i) t1) spinfor ≡ true → FirstLate (i + 1) j → FirstLate i j
  FirstLate-later i j h first = record {
    from = omega (arith, first.from);
    late = first.late;
    early = λ m le before. elim (dec_lt i m) [
      | yes behind ↦ first.early m (omega (arith, behind)) before
      | no here ↦
          let same : i ≡ m = omega (arith, le) in
          subst (λ n. less (minus (clock n) t1) spinfor ≡ true) same h
    ];
  }

  spin-FirstLate :
      (fuel k i : ℕ)
      → less (minus (clock (i + k)) t1) spinfor ≡ false
      → k < fuel
      → (j : ℕ) × (j ≤ i + k)
        × FirstLate i j
        × (spin minus less fuel clock t1 spinfor i ≡ some (j + 1))
  unfolding spin
  spin-FirstLate zero k i h lt = absurd (omega arith)
  spin-FirstLate (suc fuel) zero i h lt =
      let same : i + 0 ≡ i = omega arith in
      let now = subst (λ n. less (minus (clock n) t1) spinfor ≡ false) same h in
      (i, omega arith, FirstLate-now i now, rw now refl)
  spin-FirstLate (suc fuel) (suc k) i h lt = elim (Bool-cases (less (minus (clock i) t1) spinfor)) [
    | inr now ↦ (i, omega arith, FirstLate-now i now, rw now refl)
    | inl again ↦
        let same : i + suc k ≡ (i + 1) + k = omega arith in
        let (j, le, first, e) =
          spin-FirstLate fuel k (i + 1)
            (subst (λ n. less (minus (clock n) t1) spinfor ≡ false) same h) (omega (arith, lt)) in
        (j, omega (arith, le), FirstLate-later i j again first, rw again e)
  ]

module _ {D : Type 0} (of_int : Bool × ℕ → D) (minus : D → D → D) (less : D → D → Bool)
    (two_places : D → Str) where
  cgi_main-spin :
      (rounds : ℕ) (clock : ℕ → D) (query_string : Option Str) (i : ℕ)
      → spin minus less rounds clock (clock 0) (spinfor_of of_int query_string) 1 ≡ some i
      → cgi_main of_int minus less two_places rounds clock query_string
        ≡ some (cgi_reply (content_of (two_places (minus (clock i) (clock 0)))))
  unfolding cgi_main
  cgi_main-spin rounds clock query_string i e =
      ap
        (λ o. elim o [
          | none ↦ none
          | some i ↦ some (cgi_reply (content_of (two_places (minus (clock i) (clock 0)))))
        ])
        e

  -- What becomes of a request for the program: its body, and the reply at the client.
  pub record Spun {ℓ} {S : Type ℓ} (readlineb : S → Option (Str × S)) (rounds fuel : ℕ)
      (clock : ℕ → D) (query_string : Option Str) (k : ℕ) (s : S) : Type ℓ where
    pub reading : ℕ
    pub in_time : reading ≤ 1 + k
    pub first : FirstLate minus less clock (clock 0) (spinfor_of of_int query_string) 1 reading
    pub content : Str
    pub content_eq : content ≡ content_of (two_places (minus (clock (reading + 1)) (clock 0)))
    pub ends :
        cgi_main of_int minus less two_places rounds clock query_string ≡ some (cgi_reply content)
    pub printed : Printed readlineb fuel (dynamic_lines (length content)) [] content s

  -- If one of the readings of the clock shows that the time of QUERY_STRING is over, the program ends
  -- behind the first one that does, and rounds for the readings up to there are enough. The client,
  -- which gets what `requestServeDynamic` and the program write, prints four lines of the head, the
  -- length of the body among them, but finds no length, and prints the lines of the body, each up to
  -- its first zero byte.
  pub serve_dynamic-cgi_main {ℓ} :
      {S : Type ℓ} (readlineb : S → Option (Str × S)) (rounds fuel : ℕ) (clock : ℕ → D)
      (filename cgiargs : Str) (k : ℕ) (s : S)
      → less (minus (clock (1 + k)) (clock 0)) (spinfor_of of_int (some cgiargs)) ≡ false
      → k < rounds
      → length (written (cgi_main of_int minus less two_places rounds clock (some cgiargs))) + 5
        ≤ fuel
      → Sends readlineb s (
          dynamic_reply filename cgiargs (
            written (
              cgi_main of_int minus less two_places rounds clock
                (some (request_serve_dynamic filename cgiargs).1.query_string))))
      → Spun readlineb rounds fuel clock (some cgiargs) k s
  unfolding request_serve_dynamic
  serve_dynamic-cgi_main readlineb rounds fuel clock filename cgiargs k s over enough room sent =
      let (j, le, first, e) =
        spin-FirstLate minus less clock (clock 0) (spinfor_of of_int (some cgiargs)) rounds k 1 over
          enough in
      let content = content_of (two_places (minus (clock (j + 1)) (clock 0))) in
      let ends = cgi_main-spin rounds clock (some cgiargs) (j + 1) e in
      record {
        reading = j;
        in_time = le;
        first = first;
        content = content;
        content_eq = refl;
        ends = ends;
        printed =
            client_print-serve_dynamic readlineb fuel filename cgiargs content s
              (omega (arith, room, length-cgi_reply content, ap (λ o. length (written o)) ends))
              (subst (λ o. Sends readlineb s (dynamic_reply filename cgiargs (written o))) ends
                sent);
      }
