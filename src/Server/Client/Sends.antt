-- ===== src/Server/Client/Sends.antt =====
-- Connections that give the bytes of a text to client.c of multiThreadedWebServer, line by line.
use mathlib.Core.Path.{subst}
use cos.Base.{
  ◌≤◌, ◌≡◌, ◌≢◌, refl, sym, ap, ◌∙◌, true, false, Option, none, some, List, [], ◌∷◌, ◌++◌,
  append_assoc, append-nil, arith, length, length-append, ◌==◌, All-append_right, Str,
}
use cos.Server.Client.Print.{Body}
use cos.Server.Client.Exchange.{NoNewline, same_line}
use cos.Base.{map}
use cos.Base.{up_to_zero}

-- The bytes of some writes, or of some lines.
abbrev pub flatten : List Str → Str
flatten [] = []
flatten (x ∷ xs) = x ++ flatten xs

-- A text and its lines, each with its newline; the last one may have none.
pub data Split : Str → List Str → Type 0 where
  no_line : Split [] []
  whole_line :
      (body rest : Str) (lines : List Str)
      → NoNewline body
      → Split rest lines
      → Split ((body ++ 10 ∷ []) ++ rest) ((body ++ 10 ∷ []) ∷ lines)
  last_line : (body : Str) → NoNewline body → body ≢ [] → Split body (body ∷ [])

module _ {ℓ} {S : Type ℓ} (readlineb : S → Option (Str × S)) where
  -- That a connection gives the bytes of a text, line by line, and then ends; the last line may have
  -- no newline.
  pub data Sends : S → Str → Type ℓ where
    nothing : (s : S) → readlineb s ≡ none → Sends s []
    line :
        (body rest : Str) (s t : S)
        → readlineb s ≡ some (body ++ 10 ∷ [], t)
        → NoNewline body
        → Sends t rest
        → Sends s ((body ++ 10 ∷ []) ++ rest)
    last :
        (body : Str) (s t : S)
        → readlineb s ≡ some (body, t)
        → NoNewline body
        → body ≢ []
        → readlineb t ≡ none
        → Sends s body

  pub next_of :
      (body rest text : Str) (s : S)
      → Sends s text
      → text ≡ body ++ 10 ∷ rest
      → NoNewline body
      → (t : S) × (readlineb s ≡ some (body ++ 10 ∷ [], t)) × Sends t rest
  next_of [] rest text s (nothing a e) same ok = cc
  next_of (c ∷ cs) rest text s (nothing a e) same ok = cc
  next_of body rest text s (line b rest' a t reads free d) same ok =
      let (e, e') =
        same_line b body rest' rest free ok (sym (append_assoc b (10 ∷ []) rest') ∙ same) in
      (t, reads ∙ ap (λ x. some (x ++ 10 ∷ [], t)) e, subst (Sends t) e' d)
  next_of body rest text s (last b a t reads free ne ends) same ok =
      let broken : NoNewline (10 ∷ rest) =
        All-append_right (λ c. (c == 10) ≡ false) body (10 ∷ rest) (subst NoNewline same free) in
      let no : true ≡ false = broken.0 in cc

  -- The lines of the text, of which a string shows what is before the first zero byte.
  pub Sends-Body :
      (s : S) (text : Str)
      → Sends s text
      → (lines : List Str) × Body readlineb (map up_to_zero lines) s
        × Split text lines
        × (flatten lines ≡ text)
        × (length lines ≤ length text)
  Sends-Body s text (nothing a e) = ([], Body.at_end s e, no_line, refl, omega arith)
  Sends-Body s text (line body rest a t reads free d) =
      let (lines, b, split, same, le) = Sends-Body t rest d in
      (
        (body ++ 10 ∷ []) ∷ lines,
        Body.body_line (body ++ 10 ∷ []) (map up_to_zero lines) s t reads b,
        whole_line body rest lines free split,
        ap (λ x. (body ++ 10 ∷ []) ++ x) same,
        omega (arith, le, length-append (body ++ 10 ∷ []) rest, length-append body (10 ∷ [])),
      )
  Sends-Body s text (last [] a t reads free ne ends) = absurd (ne refl)
  Sends-Body s text (last (c ∷ cs) a t reads free ne ends) = (
    (c ∷ cs) ∷ [],
    Body.body_line (c ∷ cs) [] s t reads (Body.at_end t ends),
    last_line (c ∷ cs) free ne,
    append-nil (c ∷ cs),
    omega arith,
  )
