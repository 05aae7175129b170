-- ===== src/Server/Client/Framed.antt =====
-- What client.c of multiThreadedWebServer prints of a reply: lines of a head, an empty line, a body.
use cos.Base.{
  ℕ, ◌+◌, ◌≤◌, ◌<◌, ◌≡◌, ◌≢◌, refl, ap, ◌∙◌, Option, some, List, [], ◌∷◌, ◌++◌, arith, length,
  length-append, drop, All, Str, ◌==◌, if◌then◌else◌, sym, inl, inr,
}
use cos.Server.Response.{crlf}
use cos.Server.Client.{client_print}
use cos.Server.Client.Print.{Head, lengths_of, client_print-Body}
use cos.Server.Client.Exchange.{NoNewline}
use cos.Server.Client.Sends.{Sends, flatten, next_of, Sends-Body}
use cos.Server.Client.Sends.{Split}
use cos.Base.{up_to_zero}
use cos.Base.{map}
use cos.Base.{Bool-cases}

-- The bytes of a reply, whose lines are given without their newlines.
abbrev pub framed : List Str → Str → Str
framed [] body = 13 ∷ 10 ∷ body
framed (line ∷ lines) body = line ++ 10 ∷ framed lines body

abbrev pub ended : List Str → List Str
ended [] = []
ended (line ∷ lines) = (line ++ 10 ∷ []) ∷ ended lines

-- A line of a head: it is one line, has no zero byte, and is not the empty one.
abbrev pub HeadLine : Str → Type 0
HeadLine line = NoNewline line × (up_to_zero line ≡ line) × (line ++ 10 ∷ [] ≢ crlf)

-- A string without a zero byte before another one.
pub up_to_zero-append : (a b : Str) → up_to_zero a ≡ a → up_to_zero (a ++ b) ≡ a ++ up_to_zero b
up_to_zero-append [] b h = refl
up_to_zero-append (c ∷ cs) b h = elim (Bool-cases (c == 0)) [
  | inl zero_byte ↦
      let broken : [] ≡ c ∷ cs =
        sym (ap (λ x. if x then [] else c ∷ up_to_zero cs) zero_byte) ∙ h in
      cc
  | inr other ↦
      let here : c ∷ up_to_zero cs ≡ c ∷ cs =
        sym (ap (λ x. if x then [] else c ∷ up_to_zero cs) other) ∙ h in
      let behind : up_to_zero cs ≡ cs = cc in
      rw other (ap (λ x. c ∷ x) (up_to_zero-append cs b behind))
]

length-framed : (lines : List Str) (body : Str) → length body ≤ length (framed lines body)
length-framed [] body = omega arith
length-framed (line ∷ lines) body =
    omega (arith, length-framed lines body, length-append line (10 ∷ framed lines body))

length-shown : (lines : List Str) → length (map up_to_zero lines) ≡ length lines
length-shown [] = refl
length-shown (line ∷ lines) = omega (arith, length-shown lines)

-- The body of a reply is no longer than the reply.
pub body-bound :
    (lines : List Str) (body text : Str) → text ≡ framed lines body → length body ≤ length text
body-bound lines body text e = omega (arith, length-framed lines body, ap length e)

module _ {ℓ} {S : Type ℓ} (readlineb : S → Option (Str × S)) where
  framed-Head :
      (lines : List Str) (body text : Str) (s : S)
      → All HeadLine lines
      → Sends readlineb s text
      → text ≡ framed lines body
      → (u : S) × Head readlineb (ended lines) s u × Sends readlineb u body
  framed-Head [] body text s ok sent e =
      let (u, reads, rest) = next_of readlineb (13 ∷ []) body text s sent e (refl, tt) in
      (u, Head.empty_line (13 ∷ 10 ∷ []) s u reads refl, rest)
  framed-Head (line ∷ lines) body text s ok sent e =
      let (t, reads, rest) = next_of readlineb line (framed lines body) text s sent e ok.0.0 in
      let (u, head, behind) = framed-Head lines body (framed lines body) t ok.1 rest refl in
      (
        u,
        Head.header (line ++ 10 ∷ []) (line ++ 10 ∷ []) (ended lines) s t u reads
            (up_to_zero-append line (10 ∷ []) ok.0.1) ok.0.2 head,
        behind,
      )

  length-ended : (lines : List Str) → length (ended lines) ≡ length lines
  length-ended [] = refl
  length-ended (line ∷ lines) = omega (arith, length-ended lines)

  -- What `clientPrint` prints of a reply with this head and this body, where it finds these lengths: of
  -- each line of the body what is before its first zero byte.
  pub record Printed (fuel : ℕ) (lines : List Str) (lengths : List ℕ) (body : Str) (s : S)
      : Type ℓ where
    pub body_lines : List Str
    pub split : Split body body_lines
    pub whole : flatten body_lines ≡ body
    pub prints :
        client_print readlineb fuel s ≡ some (ended lines, (lengths, map up_to_zero body_lines))

  pub framed-Printed :
      (fuel : ℕ) (lines : List Str) (lengths : List ℕ) (body text : Str) (s : S)
      → All HeadLine lines
      → lengths_of (drop 1 (ended lines)) ≡ lengths
      → length lines + length body < fuel
      → Sends readlineb s text
      → text ≡ framed lines body
      → Printed fuel lines lengths body s
  framed-Printed fuel lines lengths body text s ok found enough sent e =
      let (u, head, rest) = framed-Head lines body text s ok sent e in
      let (body_lines, read, split, same, le) = Sends-Body readlineb u body rest in
      record {
        body_lines = body_lines;
        split = split;
        whole = same;
        prints =
            client_print-Body readlineb fuel (ended lines) (map up_to_zero body_lines) s u head read
              (omega (arith, length-ended lines, enough)) (omega (arith, length-shown body_lines))
            ∙ ap (λ x. some (ended lines, (x, map up_to_zero body_lines))) found;
      }
