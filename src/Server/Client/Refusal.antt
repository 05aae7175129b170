-- ===== src/Server/Client/Refusal.antt =====
-- The error page of request.c, as client.c of multiThreadedWebServer prints it.
use cos.Base.{
  ℕ, ◌+◌, ◌≤◌, ◌<◌, ◌≡◌, refl, ap, ◌∙◌, Option, none, some, List, [], ◌∷◌, ◌++◌, append_assoc,
  append-nil, arith, length, drop, ◌==◌, All, All-append, Str, codes, false,
}
use cos.Server.Response.{crlf, decimal, error_body, length_line, request_error}
use cos.Server.Client.{content_length, strip}
use cos.Server.Client.Print.{lengths_of}
use cos.Server.Client.Length.{content_length-length_line}
use cos.Server.Client.Exchange.{NoNewline}
use cos.Server.Client.Sends.{Sends, flatten}
use cos.Server.Client.Framed.{framed, ended, HeadLine, Printed, framed-Printed}
use cos.Server.Client.Reply.{no_newline, number_line, number_line-free, begins_with}
use cos.Base.{up_to_zero}
use cos.Server.Client.Reply.{number_line-whole}
use cos.Server.Client.Framed.{up_to_zero-append}

abbrev refusal_line : (errnum shortmsg : Str) → Str
refusal_line errnum shortmsg = codes "HTTP/1.0 " ++ (errnum ++ (codes " " ++ (shortmsg ++ 13 ∷ [])))

abbrev page_line : Str
page_line = codes "Content-Type: text/html" ++ 13 ∷ []

abbrev pub error_lines : (errnum shortmsg : Str) → ℕ → List Str
error_lines errnum shortmsg n = refusal_line errnum shortmsg ∷ page_line ∷ number_line n ∷ []

refusal_line-free :
    (errnum shortmsg : Str)
    → NoNewline errnum
    → NoNewline shortmsg
    → NoNewline (refusal_line errnum shortmsg)
refusal_line-free errnum shortmsg h h' =
    All-append (λ c. (c == 10) ≡ false) (codes "HTTP/1.0 ") _ (no_newline (codes "HTTP/1.0 ") refl)
      (All-append (λ c. (c == 10) ≡ false) errnum _ h
        (refl, All-append (λ c. (c == 10) ≡ false) shortmsg _ h' (refl, tt)))

refusal_line-whole :
    (errnum shortmsg : Str)
    → up_to_zero errnum ≡ errnum
    → up_to_zero shortmsg ≡ shortmsg
    → up_to_zero (refusal_line errnum shortmsg) ≡ refusal_line errnum shortmsg
refusal_line-whole errnum shortmsg h h' =
    ap (λ x. codes "HTTP/1.0 " ++ x)
      (up_to_zero-append errnum (codes " " ++ (shortmsg ++ 13 ∷ [])) h
        ∙ ap (λ x. errnum ++ (codes " " ++ x)) (up_to_zero-append shortmsg (13 ∷ []) h'))

error_lines-ok :
    (errnum shortmsg : Str) (n : ℕ)
    → NoNewline errnum
    → NoNewline shortmsg
    → up_to_zero errnum ≡ errnum
    → up_to_zero shortmsg ≡ shortmsg
    → All HeadLine (error_lines errnum shortmsg n)
error_lines-ok errnum shortmsg n h h' w w' = (
  (
    refusal_line-free errnum shortmsg h h',
    refusal_line-whole errnum shortmsg w w',
    begins_with _ _ refl,
  ),
  (
    (no_newline page_line refl, refl, begins_with _ _ refl),
    ((number_line-free n, number_line-whole n, begins_with _ _ refl), tt),
  ),
)

error_text :
    (errnum shortmsg number body : Str)
    → flatten (
        (codes "HTTP/1.0 " ++ (errnum ++ (codes " " ++ (shortmsg ++ crlf))))
        ∷ (codes "Content-Type: text/html" ++ crlf)
        ∷ ((codes "Content-Length: " ++ (number ++ crlf)) ++ crlf)
        ∷ body
        ∷ [])
      ≡ framed
          (refusal_line errnum shortmsg
            ∷ page_line
            ∷ (codes "Content-Length: " ++ (number ++ 13 ∷ []))
            ∷ [])
          body
error_text errnum shortmsg number body = simp (append_assoc, append-nil)

pub request_error-lines :
    (cause errnum shortmsg longmsg : Str)
    → flatten (request_error cause errnum shortmsg longmsg)
      ≡ framed
          (error_lines errnum shortmsg (length (error_body cause errnum shortmsg longmsg)))
          (error_body cause errnum shortmsg longmsg)
unfolding request_error
request_error-lines cause errnum shortmsg longmsg =
    let body = error_body cause errnum shortmsg longmsg in
    error_text errnum shortmsg (decimal (length body)) body

lengths-error :
    (errnum shortmsg : Str) (n : ℕ)
    → n < 2147483648
    → lengths_of (drop 1 (ended (error_lines errnum shortmsg n))) ≡ n ∷ []
unfolding content_length strip
lengths-error errnum shortmsg n fits =
    let same : number_line n ++ 10 ∷ [] ≡ length_line n =
      ap (λ x. codes "Content-Length: " ++ x) (append_assoc (decimal n) (13 ∷ []) (10 ∷ [])) in
    ap (λ o. elim o [ none ↦ [] | some m ↦ m ∷ [] ])
      (ap content_length same ∙ content_length-length_line n fits)

-- Of the bytes of `requestError` `clientPrint` prints the three lines of the head, the length of the
-- page, and of each line of the page what is before its first zero byte.
pub client_print-request_error {ℓ} :
    {S : Type ℓ} (readlineb : S → Option (Str × S)) (fuel : ℕ) (cause errnum shortmsg longmsg : Str)
    (s : S)
    → NoNewline errnum
    → NoNewline shortmsg
    → up_to_zero errnum ≡ errnum
    → up_to_zero shortmsg ≡ shortmsg
    → length (error_body cause errnum shortmsg longmsg) < 2147483648
    → length (error_body cause errnum shortmsg longmsg) + 5 ≤ fuel
    → Sends readlineb s (flatten (request_error cause errnum shortmsg longmsg))
    → Printed readlineb fuel
        (error_lines errnum shortmsg (length (error_body cause errnum shortmsg longmsg)))
        (length (error_body cause errnum shortmsg longmsg) ∷ [])
        (error_body cause errnum shortmsg longmsg)
        s
client_print-request_error readlineb fuel cause errnum shortmsg longmsg s h h' w w' fits enough
      sent =
    let body = error_body cause errnum shortmsg longmsg in
    let n = length body in
    framed-Printed readlineb fuel (error_lines errnum shortmsg n) (n ∷ []) body _ s
      (error_lines-ok errnum shortmsg n h h' w w') (lengths-error errnum shortmsg n fits)
      (omega (arith, enough)) sent (request_error-lines cause errnum shortmsg longmsg)
